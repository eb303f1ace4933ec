-- ===== src/Timer/Inserted.antt =====
-- common/timer.hpp and core/worker_timer.hpp: while keys expire, whatever the handler calls, the wheels
-- change by insertions only, and none of these goes to the slot that the head has just left.
use new_happy_server.Base.{
  ℕ, ◌+◌, ◌-◌, ◌%◌, ◌<◌, ◌≡◌, refl, sym, ap, subst, ◌∙◌, inl, inr, Bool, true, false, List, [], ◌∷◌,
  ◌++◌, arith, Bool-cases, Option-cases, ltb, ◌==◌,
}
use new_happy_server.Base.Words.{sub_size}
use new_happy_server.Timer.{Wheel, wheel_size, key_id, slot_count_of, insert_loop, insert_timer}
use new_happy_server.Timer.Insert.{insert_loop_keeps, same_position}
use new_happy_server.Timer.Position.{position, DueAt}
use new_happy_server.Timer.Table.{
  Timers, Call, calls_repeat, calls_remove, Handler, find_timer, has_flag, removed, infinite,
  less_times, times_left, repeat, remove, run_calls, notify, renew, on_timer, slot_keys, expire_one,
  first_head, at_least_precision, create_timerid,
}

some_ticks : (duration : ℕ) → 0 < slot_count_of duration
unfolding slot_count_of
some_ticks duration = ground arith

-- A slot of the first wheel, and its head, that are as they were.
abbrev pub SameSlot : ℕ → List Wheel → List Wheel → Type 0
SameSlot pos ws us = (slot_keys pos us ≡ slot_keys pos ws) × (first_head us ≡ first_head ws)

insert_loop-SameSlot :
    (pos id count : ℕ) (ws : List Wheel)
    → 0 < count
    → first_head ws ≡ pos + 1
    → pos + 1 < wheel_size
    → SameSlot pos ws (insert_loop 0 id count 0 ws)
unfolding insert_loop
insert_loop-SameSlot pos id count [] pos_count h below = (refl, refl)
insert_loop-SameSlot pos id count (w ∷ ws) pos_count h below =
    let slot = sub_size (count + w.head) 1 % wheel_size in
    elim (Bool-cases (ltb (count + w.head - slot) wheel_size)) [
      | inl here ↦
          let apart : (pos == slot) ≡ false = ground (arith, here, h, pos_count, below) in
          rw (here, apart) (refl, refl)
      | inr further ↦ rw further (refl, refl)
    ]

-- What happens to the wheels while keys expire: a sequence of insertions.
pub insert_all : List (ℕ × ℕ) → List Wheel → List Wheel
insert_all [] ws = ws
insert_all ((duration, id) ∷ inserts) ws = insert_all inserts (insert_timer duration id ws)

insert_all-append :
    (first further : List (ℕ × ℕ)) (ws : List Wheel)
    → insert_all (first ++ further) ws ≡ insert_all further (insert_all first ws)
unfolding insert_all
insert_all-append [] further ws = refl
insert_all-append ((duration, id) ∷ first) further ws = insert_all-append first further _

abbrev pub Inserted : List Wheel → List Wheel → Type 0
Inserted ws us = (inserts : List (ℕ × ℕ)) × (us ≡ insert_all inserts ws)

Inserted-refl : (ws : List Wheel) → Inserted ws ws
unfolding insert_all
Inserted-refl ws = ([], refl)

Inserted-one : (duration id : ℕ) (ws : List Wheel) → Inserted ws (insert_timer duration id ws)
unfolding insert_all
Inserted-one duration id ws = ((duration, id) ∷ [], refl)

Inserted-trans : (ws us vs : List Wheel) → Inserted ws us → Inserted us vs → Inserted ws vs
Inserted-trans ws us vs (first, e) (further, f) =
    (first ++ further, f ∙ ap (insert_all further) e ∙ sym (insert_all-append first further ws))

pub insert_all-SameSlot :
    (pos : ℕ) (inserts : List (ℕ × ℕ)) (ws : List Wheel)
    → first_head ws ≡ pos + 1
    → pos + 1 < wheel_size
    → SameSlot pos ws (insert_all inserts ws)
unfolding insert_all insert_timer
insert_all-SameSlot pos [] ws h below = (refl, refl)
insert_all-SameSlot pos ((duration, id) ∷ inserts) ws h below =
    let (slot, head) =
      insert_loop-SameSlot pos id (slot_count_of duration) ws (some_ticks duration) h below in
    let (slot', head') = insert_all-SameSlot pos inserts _ (head ∙ h) below in
    (slot' ∙ slot, head' ∙ head)

pub insert_all_keeps :
    (due key : ℕ) (inserts : List (ℕ × ℕ)) (ws : List Wheel)
    → DueAt 0 due key ws
    → DueAt 0 due key (insert_all inserts ws)
unfolding insert_all insert_timer
insert_all_keeps due key [] ws d = d
insert_all_keeps due key ((duration, id) ∷ inserts) ws d =
    insert_all_keeps due key inserts _
      (insert_loop_keeps id 0 (slot_count_of duration) 0 ws 0 due key d)

pub position-insert_all :
    (inserts : List (ℕ × ℕ)) (ws : List Wheel) → position (insert_all inserts ws) ≡ position ws
unfolding insert_all insert_timer
position-insert_all [] ws = refl
position-insert_all ((duration, id) ∷ inserts) ws =
    position-insert_all inserts _ ∙ same_position id 0 (slot_count_of duration) 0 ws

-- The calls insert, and nothing else.
module _ {S : Type 0} (handler : Handler S) where
  repeat-Inserted : (d t s : ℕ) (st : Timers S) → Inserted st.wheels (repeat d t s st).1.wheels
  unfolding repeat
  repeat-Inserted d t s st = elim (Bool-cases st.has_handler) [
    | inl has ↦ rw has (Inserted-one (at_least_precision d) (create_timerid st) st.wheels)
    | inr no_handler ↦ rw no_handler (Inserted-refl st.wheels)
  ]

  remove-wheels : (i : ℕ) (st : Timers S) → (remove i st).wheels ≡ st.wheels
  unfolding remove
  remove-wheels i st = elim (Option-cases (find_timer i st.timers)) [
    | inl unknown ↦ rw (unknown, remove) refl
    | inr (c, known) ↦ rw (known, remove) refl
  ]

  run_calls-Inserted :
      (calls : List Call) (st : Timers S) → Inserted st.wheels (run_calls calls st).wheels
  unfolding run_calls
  run_calls-Inserted [] st = Inserted-refl st.wheels
  run_calls-Inserted (calls_repeat d t s ∷ calls) st =
      Inserted-trans _ _ _ (repeat-Inserted d t s st) (run_calls-Inserted calls (repeat d t s st).1)
  run_calls-Inserted (calls_remove i ∷ calls) st =
      subst (λ ws. Inserted ws (run_calls calls (remove i st)).wheels) (remove-wheels i st)
        (run_calls-Inserted calls (remove i st))

  notify-Inserted :
      (i s : ℕ) (last : Bool) (st : Timers S)
      → Inserted st.wheels (notify handler i s last st).wheels
  notify-Inserted i s last st = run_calls-Inserted (handler i s last st.services).0 _

  renew-Inserted : (i : ℕ) (st : Timers S) → Inserted st.wheels (renew handler i st).1.wheels
  renew-Inserted i st = elim (Option-cases (find_timer i st.timers)) [
    | inl unknown ↦ rw (unknown, renew) (Inserted-refl st.wheels)
    | inr (c, known) ↦ elim (Bool-cases (has_flag infinite c)) [
      | inl always ↦ rw (known, renew, always) (Inserted-refl st.wheels)
      | inr counted ↦ elim (Bool-cases (times_left (less_times c))) [
        | inl again ↦ rw (known, renew, counted, again) (Inserted-refl st.wheels)
        | inr over ↦ rw (known, renew, counted, over) (notify-Inserted i c.serviceid true _)
      ]
    ]
  ]

  on_timer-Inserted : (i : ℕ) (st : Timers S) → Inserted st.wheels (on_timer handler i st).1.wheels
  unfolding on_timer
  on_timer-Inserted i st = elim (Option-cases (find_timer i st.timers)) [
    | inl unknown ↦ rw (unknown, on_timer) (Inserted-refl st.wheels)
    | inr (c, known) ↦ elim (Bool-cases (has_flag removed c)) [
      | inl gone ↦ rw (known, on_timer, gone) (notify-Inserted i c.serviceid true st)
      | inr there ↦
          rw (known, on_timer, there)
            (Inserted-trans _ _ _ (notify-Inserted i c.serviceid false st) (renew-Inserted i _))
    ]
  ]

  pub expire_one-Inserted :
      (key : ℕ) (st : Timers S) → Inserted st.wheels (expire_one handler key st).wheels
  unfolding expire_one
  expire_one-Inserted key st =
      let after = on_timer handler (key_id key) st in
      elim (Bool-cases (after.0 == 0)) [
        | inl ends ↦ rw ends (on_timer-Inserted (key_id key) st)
        | inr goes_on ↦ rw goes_on (
            Inserted-trans _ _ _ (on_timer-Inserted (key_id key) st)
              (Inserted-one after.0 (key_id key) after.1.wheels))
      ]
