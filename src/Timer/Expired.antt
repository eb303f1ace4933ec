-- ===== src/Timer/Expired.antt =====
-- common/timer.hpp, `expired` and `update`: the loop over a slot ends, whatever the handler calls, if
-- the first wheel does not wrap in the tick.
use new_happy_server.Base.{
  ℕ, zero, suc, ◌+◌, ◌%◌, ◌≤◌, ◌<◌, ◌≡◌, refl, sym, ap, subst, ◌∙◌, inl, inr, false, some, List, [],
  ◌∷◌, arith, ◌==◌, ==_iff, length,
}
use new_happy_server.Timer.{Wheel, wheel_size, front, cascade, round, pop_front}
use new_happy_server.Timer.Position.{position, DueAt, EachKey, EachKey-map}
use new_happy_server.Timer.Inserted.{
  insert_all-SameSlot, insert_all_keeps, position-insert_all, expire_one-Inserted,
}
use new_happy_server.Timer.Table.{
  Timers, Handler, slot_keys, put_keys, expire_one, expired, cascaded, first_head, update_tick,
}

-- What a slot's loop leaves alone: the position, the head, and when the other keys are due.
module _ (pos : ℕ) where
  head_put : (keys : List ℕ) (ws : List Wheel) → first_head (put_keys pos keys ws) ≡ first_head ws
  head_put keys [] = refl
  head_put keys (w ∷ ws) = refl

  position_put : (keys : List ℕ) (ws : List Wheel) → position (put_keys pos keys ws) ≡ position ws
  position_put keys [] = refl
  position_put keys (w ∷ ws) = refl

  slot_put :
      (keys : List ℕ) (ws : List Wheel)
      → first_head ws ≡ pos + 1
      → slot_keys pos (put_keys pos keys ws) ≡ keys
  slot_put keys [] h = absurd (omega arith)
  slot_put keys (w ∷ ws) h = rw ((==_iff pos pos).1 refl) refl

  put_keeps :
      (due key : ℕ) (keys : List ℕ) (ws : List Wheel)
      → first_head ws ≡ pos + 1
      → DueAt 0 due key ws
      → DueAt 0 due key (put_keys pos keys ws)
  put_keeps due key keys [] h d = d
  put_keeps due key keys (w ∷ ws) h (inr further) = inr further
  put_keeps due key keys (w ∷ ws) h (inl (s, from, below, found, e)) =
      let other : (s == pos) ≡ false = ground (arith, h, from) in
      inl (s, from, below, rw other found, e)

module _ {S : Type 0} (handler : Handler S) (pos : ℕ) where
  -- The keys of a slot, once each, in their order.
  abbrev pub fire_all : List ℕ → Timers S → Timers S
  fire_all [] st = st
  fire_all (key ∷ keys) st =
      fire_all keys (expire_one handler key (record st { wheels = put_keys pos keys st.wheels }))

  abbrev fire_first : ℕ → List ℕ → Timers S → Timers S
  fire_first key keys st =
      expire_one handler key (record st { wheels = put_keys pos keys st.wheels })

  module _ (below : pos + 1 < wheel_size) where
    first_head-fired :
        (key : ℕ) (keys : List ℕ) (st : Timers S)
        → first_head st.wheels ≡ pos + 1
        → (first_head (fire_first key keys st).wheels ≡ pos + 1)
          × (slot_keys pos (fire_first key keys st).wheels ≡ keys)
    first_head-fired key keys st h =
        let put = put_keys pos keys st.wheels in
        let ahead : first_head put ≡ pos + 1 = head_put pos keys st.wheels ∙ h in
        let (inserts, e) = expire_one-Inserted handler key (record st { wheels = put }) in
        let (slot, head) = insert_all-SameSlot pos inserts put ahead below in
        (
          ap first_head e ∙ head ∙ ahead,
          ap (slot_keys pos) e ∙ slot ∙ slot_put pos keys st.wheels h,
        )

    expired-fires :
        (fuel : ℕ) (keys : List ℕ) (st : Timers S)
        → length keys ≤ fuel
        → slot_keys pos st.wheels ≡ keys
        → first_head st.wheels ≡ pos + 1
        → expired handler fuel pos st ≡ some (fire_all keys st)
    unfolding expired
    expired-fires zero [] st enough e h = rw (e, expired) refl
    expired-fires (suc fuel) [] st enough e h = rw (e, expired) refl
    expired-fires zero (key ∷ keys) st enough e h = absurd (omega arith)
    expired-fires (suc fuel) (key ∷ keys) st enough e h =
        let (head, slot) = first_head-fired key keys st h in
        rw (e, expired) (expired-fires fuel keys (fire_first key keys st) (omega arith) slot head)

    fired-keeps :
        (keys : List ℕ) (st : Timers S)
        → first_head st.wheels ≡ pos + 1
        → slot_keys pos st.wheels ≡ keys
        → let after = fire_all keys st in
          (first_head after.wheels ≡ pos + 1)
          × (position after.wheels ≡ position st.wheels)
          × ((due key : ℕ) → DueAt 0 due key st.wheels → DueAt 0 due key after.wheels)
    fired-keeps [] st h e = (h, refl, λ due key d. d)
    fired-keeps (k ∷ keys) st h e =
        let put = put_keys pos keys st.wheels in
        let (inserts, made) = expire_one-Inserted handler k (record st { wheels = put }) in
        let (head, slot) = first_head-fired k keys st h in
        let (head', same, keeps) = fired-keeps keys (fire_first k keys st) head slot in
        (
          head',
          same
              ∙ ap position made
              ∙ position-insert_all inserts put
              ∙ position_put pos keys st.wheels,
          λ due key d. keeps due key (
              subst (DueAt 0 due key) (sym made)
                (insert_all_keeps due key inserts put (put_keeps pos due key keys st.wheels h d))),
        )

cascade_rests_all : (ws : List Wheel) → 0 < first_head ws → cascade 0 ws ≡ ws
unfolding cascade
cascade_rests_all [] h = refl
cascade_rests_all (w ∷ []) h = refl
cascade_rests_all (w ∷ (n ∷ ws)) h =
    let rests : round w ≡ false = ground (arith, h) in rw rests refl

-- A key that is due after the position does not stand in the slot that is popped.
popped-DueAt :
    (due key : ℕ) (w : Wheel) (ws : List Wheel)
    → (w.head + 1) % wheel_size ≡ w.head + 1
    → position (w ∷ ws) < due
    → DueAt 0 due key (w ∷ ws)
    → DueAt 0 due key (pop_front w ∷ ws)
popped-DueAt due key w ws up late (inl (s, from, below, found, at)) =
    inl (s, omega (arith, up, at, late, from), below, found, at)
popped-DueAt due key w ws up late (inr further) = inr further

-- If the first wheel's head is before its last slot, a tick of `update` ends, with a
-- round for each key of the head's slot, whatever the handler calls of the timers: it treats each of these keys once,
-- in their order. The position goes up by one, and each of any keys that were due later than the
-- tick, none included, is due at the same time after it.
pub update_tick-fires :
    {S : Type 0} (handler : Handler S) (fuel : ℕ) (w : Wheel) (ws : List Wheel) (st : Timers S)
    (laters : List (ℕ × ℕ))
    → length (front w) ≤ fuel
    → st.wheels ≡ w ∷ ws
    → w.head + 1 < wheel_size
    → EachKey (λ due key. (position (w ∷ ws) < due) × DueAt 0 due key (w ∷ ws)) laters
    → let popped = record st { wheels = pop_front w ∷ ws } in
      let after = fire_all handler w.head (front w) popped in
      (update_tick handler fuel st ≡ some after)
      × (position after.wheels ≡ position (w ∷ ws) + 1)
      × EachKey (λ due key. DueAt 0 due key after.wheels) laters
unfolding update_tick
update_tick-fires handler fuel w ws st laters enough e next due_later =
    let popped = record st { wheels = pop_front w ∷ ws } in
    let up : (w.head + 1) % wheel_size ≡ w.head + 1 = omega (arith, next) in
    let fires = expired-fires handler w.head next fuel (front w) popped enough refl up in
    let (head, same, keeps) = fired-keeps handler w.head next (front w) popped up refl in
    let after = fire_all handler w.head (front w) popped in
    let rests = cascade_rests_all after.wheels (omega (arith, head)) in
    (
      rw e (ap cascaded fires ∙ ap (λ us. some (record after { wheels = us })) rests),
      same ∙ omega (arith, up),
      EachKey-map laters (λ due key (late, d). keeps due key (popped-DueAt due key w ws up late d))
          due_later,
    )
