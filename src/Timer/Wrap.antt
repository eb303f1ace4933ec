-- ===== src/Timer/Wrap.antt =====
-- common/timer.hpp, `expired` in the tick in which the first wheel wraps: the head has gone back to
-- slot 0, and a key that is due after 255 ticks goes to the slot that is being emptied.
use new_happy_server.Base.{
  ℕ, zero, suc, ◌^◌, ◌<◌, ◌≡◌, refl, ap, ◌∙◌, Bool, true, false, none, some, List, [], ◌∷◌, arith,
  ◌==◌,
}
use new_happy_server.Base.Bits.{bit_or_fields}
use new_happy_server.Timer.{
  Wheel, put_slot, make_key, key_id, timerid_shift, slot_count_of, insert_loop, insert_timer,
}
use new_happy_server.Timer.Table.{
  Context, Timers, Handler, find_timer, has_flag, removed, infinite, run_calls, on_timer,
  expire_one, expired, update_tick, cascaded, slot_keys, put_keys,
}

key_id-make_key : (id : ℕ) → id < 2 ^ 32 → key_id (make_key id 254) ≡ id
key_id-make_key id h = omega (arith, bit_or_fields timerid_shift 254 id (omega arith))

insert_wrapped :
    (duration id : ℕ) (u : Wheel) (us : List Wheel)
    → u.head ≡ 0
    → u.slots 254 ≡ []
    → slot_count_of duration ≡ 255
    → insert_timer duration id (u ∷ us) ≡ put_slot 254 (make_key id 254 ∷ []) u ∷ us
unfolding insert_timer insert_loop
insert_wrapped duration id u us h empty ticks = rw (ticks, insert_loop, h, empty) refl

some_duration : (duration : ℕ) → slot_count_of duration ≡ 255 → (duration == 0) ≡ false
unfolding slot_count_of
some_duration duration h = ground arith

expired_step :
    {S : Type 0} (handler : Handler S) (fuel pos key : ℕ) (keys : List ℕ) (st : Timers S)
    → slot_keys pos st.wheels ≡ key ∷ keys
    → expired handler (suc fuel) pos st
      ≡ expired handler fuel pos
          (expire_one handler key (record st { wheels = put_keys pos keys st.wheels }))
unfolding expired
expired_step handler fuel pos key keys st h = rw (h, expired) refl

-- A handler that calls nothing of the timers.
module _ {S : Type 0} (tell : ℕ → ℕ → Bool → S → S) (c : Context) where
  abbrev pub tells : Handler S
  tells j s last services = ([], tell j s last services)

  module _ (stays : has_flag removed c ≡ false) (ends : has_flag infinite c ≡ true)
      (ticks : slot_count_of c.duration ≡ 255) where
    on_timer-infinite :
        (id : ℕ) (st : Timers S)
        → find_timer id st.timers ≡ some c
        → on_timer tells id st
          ≡ (c.duration, record st { services = tell id c.serviceid false st.services })
    unfolding on_timer run_calls
    on_timer-infinite id st found = rw (found, on_timer, stays, found, ends) refl

    -- The key comes back to the slot it was taken from.
    expire_one-back :
        (key : ℕ) (u : Wheel) (us : List Wheel) (st : Timers S)
        → find_timer (key_id key) st.timers ≡ some c
        → st.wheels ≡ u ∷ us
        → u.head ≡ 0
        → u.slots 254 ≡ []
        → expire_one tells key st ≡ record st {
          services = tell (key_id key) c.serviceid false st.services;
          wheels = put_slot 254 (make_key (key_id key) 254 ∷ []) u ∷ us;
        }
    unfolding expire_one
    expire_one-back key u us st found e h empty =
        let back = insert_wrapped c.duration (key_id key) u us h empty ticks in
        rw (on_timer-infinite (key_id key) st found, some_duration c.duration ticks, e, back) refl

    expired-never :
        (fuel key : ℕ) (u : Wheel) (us : List Wheel) (st : Timers S)
        → find_timer (key_id key) st.timers ≡ some c
        → st.wheels ≡ u ∷ us
        → u.head ≡ 0
        → u.slots 254 ≡ key ∷ []
        → expired tells fuel 254 st ≡ none
    unfolding expired
    expired-never zero key u us st found e h slot = rw (e, expired, slot) refl
    expired-never (suc fuel) key u us st found e h slot =
        let id = key_id key in
        let emptied : Timers S = record st { wheels = put_slot 254 [] u ∷ us } in
        let again : Timers S = record st {
          services = tell id c.serviceid false st.services;
          wheels = put_slot 254 (make_key id 254 ∷ []) (put_slot 254 [] u) ∷ us;
        } in
        let same = key_id-make_key id (omega arith) in
        expired_step tells fuel 254 key [] st (rw (e, slot) refl)
        ∙ ap
            (λ ws.
              expired tells fuel 254
                (expire_one tells key (record st { wheels = put_keys 254 [] ws })))
            e
        ∙ ap (expired tells fuel 254)
            (expire_one-back key (put_slot 254 [] u) us emptied found refl h refl)
        ∙ expired-never fuel (make_key id 254)
            (put_slot 254 (make_key id 254 ∷ []) (put_slot 254 [] u)) us again (rw same found) refl
            h refl

-- In the tick in which the first wheel wraps, a timer without end whose duration is 255 ticks and
-- that is the only key of the last slot keeps the loop of `update` going: with a handler that calls
-- nothing of the timers, no number of rounds is enough.
pub update_tick-never :
    {S : Type 0} (tell : ℕ → ℕ → Bool → S → S) (c : Context) (fuel key : ℕ) (w : Wheel)
    (ws : List Wheel) (st : Timers S)
    → has_flag removed c ≡ false
    → has_flag infinite c ≡ true
    → slot_count_of c.duration ≡ 255
    → find_timer (key_id key) st.timers ≡ some c
    → st.wheels ≡ w ∷ ws
    → w.head ≡ 254
    → w.slots 254 ≡ key ∷ []
    → update_tick (tells tell c) fuel st ≡ none
unfolding update_tick
update_tick-never tell c fuel key w ws st stays ends ticks found e h slot =
    let wrapped : Wheel = record w { head = 0 } in
    let popped = record st { wheels = wrapped ∷ ws } in
    let never =
      expired-never tell c stays ends ticks fuel key wrapped ws popped found refl refl slot in
    rw (e, h) (ap cascaded never)
