-- ===== src/Timer/Table.antt =====
-- core/worker_timer.hpp, `worker_timer`, and the part of common/timer.hpp that calls it: the table of
-- the timers, the calls of the handler, `expired` and `update`.
use new_happy_server.Base.{
  ℕ, zero, suc, ◌+◌, ◌-◌, ◌/◌, ◌%◌, ◌^◌, Bool, true, false, ◌||◌, Option, none, some, List, [], ◌∷◌,
  ltb, leb, ◌==◌, if◌then◌else◌, length,
}
use new_happy_server.Timer.{precision, Wheel, put_slot, pop_front, cascade, insert_timer, key_id}

abbrev pub max_timer_num : ℕ
max_timer_num = 2 ^ 24 - 1

-- `times` is the bit pattern of an `int32_t`: the flags `removed` and `infinite` are its bits 29 and 30.
pub record Context : Type 0 where
  pub duration : ℕ
  pub times : ℕ
  pub serviceid : ℕ

abbrev pub removed : ℕ
removed = 2 ^ 29

abbrev pub infinite : ℕ
infinite = 2 ^ 30

abbrev pub has_flag : ℕ → Context → Bool
has_flag flag c = c.times / flag % 2 == 1

abbrev pub set_flag : ℕ → Context → Context
set_flag flag c = if has_flag flag c then c else record c { times = c.times + flag }

-- `times(times() - 1)`: the new number, and whether some are left under the mask of 28 bits.
abbrev pub less_times : Context → Context
less_times c = record c { times = (c.times + 2 ^ 32 - 1) % 2 ^ 32 }

abbrev pub times_left : Context → Bool
times_left c = ltb 0 (c.times % 2 ^ 28)

abbrev pub Table : Type 0
Table = List (ℕ × Context)

unfoldable pub find_timer : ℕ → Table → Option Context
find_timer i [] = none
find_timer i ((j, c) ∷ table) = if j == i then some c else find_timer i table

-- A write through the reference to the context of `i`.
unfoldable pub put_timer : ℕ → Context → Table → Table
put_timer i c [] = []
put_timer i c ((j, d) ∷ table) = if j == i then (j, c) ∷ table else (j, d) ∷ put_timer i c table

unfoldable pub erase_timer : ℕ → Table → Table
erase_timer i [] = []
erase_timer i ((j, c) ∷ table) = if j == i then table else (j, c) ∷ erase_timer i table

abbrev pub is_some {ℓ} : {A : Type ℓ} → Option A → Bool
is_some none = false
is_some (some a) = true

unfoldable pub emplace : ℕ → Context → Table → Table
unfolding find_timer
emplace i c table = if is_some (find_timer i table) then table else (i, c) ∷ table

-- The loop that looks for an id no timer has, a round for each timer and one more.
unfoldable pub free_id : ℕ → ℕ → Table → ℕ
unfolding find_timer
free_id zero i table = i
free_id (suc fuel) i table =
    if is_some (find_timer i table) then free_id fuel ((i + 1) % 2 ^ 32) table else i

-- The state of a worker's timers and of the services that the handler calls.
pub record Timers (S : Type 0) : Type 0 where
  pub has_handler : Bool
  pub uuid : ℕ
  pub timers : Table
  pub wheels : List Wheel
  pub stop : Bool
  pub tick : ℕ
  pub previous_tick : ℕ
  pub services : S

-- What the handler calls of the timers.
pub data Call : Type 0 where
  calls_repeat : ℕ → ℕ → ℕ → Call
  calls_remove : ℕ → Call

abbrev pub Handler : Type 0 → Type 0
Handler S = ℕ → ℕ → Bool → S → List Call × S

-- Numbers from 2 ^ 31 on stand for negative ones.
abbrev pub at_least_precision : ℕ → ℕ
at_least_precision duration =
    if ltb duration precision || leb (2 ^ 31) duration then precision else duration

abbrev pub times_or_infinite : ℕ → ℕ
times_or_infinite times = if (times == 0) || leb (2 ^ 31) times then infinite else times

abbrev pub slot_keys : ℕ → List Wheel → List ℕ
slot_keys pos [] = []
slot_keys pos (w ∷ ws) = w.slots pos

abbrev pub put_keys : ℕ → List ℕ → List Wheel → List Wheel
put_keys pos keys [] = []
put_keys pos keys (w ∷ ws) = put_slot pos keys w ∷ ws

abbrev pub pop_first : List Wheel → List Wheel
pop_first [] = []
pop_first (w ∷ ws) = pop_front w ∷ ws

abbrev pub first_head : List Wheel → ℕ
first_head [] = 0
first_head (w ∷ ws) = w.head

module _ {S : Type 0} where
  unfoldable pub create_timerid : Timers S → ℕ
  unfolding free_id
  create_timerid st =
      let first = if (st.uuid == 0) || (st.uuid == max_timer_num) then 1 else st.uuid in
      free_id (suc (length st.timers)) first st.timers

  unfoldable pub repeat : ℕ → ℕ → ℕ → Timers S → ℕ × Timers S
  unfolding create_timerid emplace insert_timer
  repeat duration times serviceid st =
      let i = create_timerid st in
      let d = at_least_precision duration in
      let context : Context = record {
        duration = d;
        times = times_or_infinite times;
        serviceid = serviceid;
      } in
      let added = record st {
        uuid = i;
        wheels = insert_timer d i st.wheels;
        timers = emplace i context st.timers;
      } in
      if st.has_handler then (i, added) else (0, st)

  unfoldable pub remove : ℕ → Timers S → Timers S
  unfolding find_timer put_timer
  remove i st = elim (find_timer i st.timers) [
    | none ↦ st
    | some c ↦ record st { timers = put_timer i (set_flag removed c) st.timers }
  ]

  unfoldable pub run_calls : List Call → Timers S → Timers S
  unfolding repeat remove
  run_calls [] st = st
  run_calls (calls_repeat d t s ∷ calls) st = run_calls calls (repeat d t s st).1
  run_calls (calls_remove i ∷ calls) st = run_calls calls (remove i st)

  abbrev pub notify : Handler S → ℕ → ℕ → Bool → Timers S → Timers S
  notify handler i serviceid last st =
      let (calls, services) = handler i serviceid last st.services in
      run_calls calls (record st { services = services })

  abbrev pub end_timer : Handler S → ℕ → ℕ → Timers S → ℕ × Timers S
  end_timer handler i serviceid st =
      let told = notify handler i serviceid true st in
      (0, record told { timers = erase_timer i told.timers })

  -- After the handler, which may have set a flag of the context.
  abbrev pub renew : Handler S → ℕ → Timers S → ℕ × Timers S
  renew handler i st = elim (find_timer i st.timers) [
    | none ↦ (0, st)
    | some c ↦
        let less = record st { timers = put_timer i (less_times c) st.timers } in
        if has_flag infinite c
        then (c.duration, st)
        else if times_left (less_times c)
        then (c.duration, less)
        else end_timer handler i c.serviceid less
  ]

  unfoldable pub on_timer : Handler S → ℕ → Timers S → ℕ × Timers S
  unfolding find_timer put_timer erase_timer run_calls
  on_timer handler i st = elim (find_timer i st.timers) [
    | none ↦ (0, st)
    | some c ↦
        if has_flag removed c
        then end_timer handler i c.serviceid st
        else renew handler i (notify handler i c.serviceid false st)
  ]

  -- The body of the loop of `expired`, for a key that is taken off its slot.
  unfoldable pub expire_one : Handler S → ℕ → Timers S → Timers S
  unfolding on_timer insert_timer
  expire_one handler key st =
      let (duration, after) = on_timer handler (key_id key) st in
      if duration == 0
      then after
      else record after { wheels = insert_timer duration (key_id key) after.wheels }

  -- `expired` reads the slot of the first wheel again before each round; `none` is out of fuel.
  unfoldable pub expired : Handler S → ℕ → ℕ → Timers S → Option (Timers S)
  unfolding expire_one
  expired handler zero pos st = elim (slot_keys pos st.wheels) [ [] ↦ some st | key ∷ keys ↦ none ]
  expired handler (suc fuel) pos st = elim (slot_keys pos st.wheels) [
    | [] ↦ some st
    | key ∷ keys ↦
        expired handler fuel pos
          (expire_one handler key (record st { wheels = put_keys pos keys st.wheels }))
  ]

  abbrev pub cascaded : Option (Timers S) → Option (Timers S)
  cascaded none = none
  cascaded (some st) = some (record st { wheels = cascade 0 st.wheels })

  -- A round of `update` that is not stopped.
  unfoldable pub update_tick : Handler S → ℕ → Timers S → Option (Timers S)
  unfolding expired cascade
  update_tick handler fuel st =
      cascaded
        (expired handler fuel (first_head st.wheels) (record st { wheels = pop_first st.wheels }))

  abbrev pub tick_or_skip : Handler S → ℕ → Timers S → Option (Timers S)
  tick_or_skip handler fuel st = if st.stop then some st else update_tick handler fuel st

  unfoldable pub update_loop : Handler S → ℕ → ℕ → Timers S → Option (Timers S)
  unfolding update_tick
  update_loop handler fuel zero st = some st
  update_loop handler fuel (suc rounds) st =
      elim (tick_or_skip handler fuel (record st { tick = st.tick - precision })) [
        | none ↦ none
        | some after ↦ update_loop handler fuel rounds after
      ]

  -- The clock is a steady one, so `now` is not before the last time.
  unfoldable pub update : Handler S → ℕ → ℕ → Timers S → Option (Timers S)
  unfolding update_loop
  update handler fuel now st =
      let previous = if st.previous_tick == 0 then now else st.previous_tick in
      let tick = st.tick + (now - previous) in
      update_loop handler fuel (tick / precision) (record st { tick = tick; previous_tick = now })
