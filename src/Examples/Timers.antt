-- ===== src/Examples/Timers.antt =====
-- common/timer.hpp and core/worker_timer.hpp: the theorems at small wheels and tables.
use new_happy_server.Base.{
  ℕ, ◌+◌, ◌-◌, ◌*◌, ◌/◌, ◌^◌, ◌≤◌, ◌<◌, ◌≡◌, refl, ◌⊎◌, inl, inr, Bool, some, none, true, false,
  List, [], ◌∷◌, arith,
}
use mathlib.Core.List.{Memᴰ}
use new_happy_server.Timer.{
  Wheel, new_wheel, timerid_shift, put_slot, slot_count_of, insert_timer, cascade, front, pop_front,
}
use new_happy_server.Timer.Position.{position, IsWheels, DueAt, EachKey}
use new_happy_server.Timer.Insert.{insert_timer-DueAt}
use new_happy_server.Timer.Tick.{cascade-EachKey}
use new_happy_server.Timer.Table.{
  Context, Timers, Handler, find_timer, erase_timer, update_tick, infinite, calls_repeat,
}
use new_happy_server.Timer.Expired.{fire_all, update_tick-fires}
use new_happy_server.Timer.Times.{answers, answers-counted}
use new_happy_server.Timer.Wrap.{tells, update_tick-never}

abbrev third : Wheel
third = put_slot 3 (9 ∷ []) new_wheel

abbrev four : List Wheel
four = third ∷ (new_wheel ∷ (new_wheel ∷ (new_wheel ∷ [])))

abbrev third_keys : List (ℕ × ℕ)
third_keys = (3, 9) ∷ []

insert_timer-DueAt_example :
    ((25 ≤ 10 * slot_count_of 25) × (10 * slot_count_of 25 < 25 + 10))
    × ((key : ℕ) × (key / 2 ^ timerid_shift ≡ 7)
        × DueAt 0 (position four + slot_count_of 25 - 1) key (insert_timer 25 7 four))
    × EachKey (λ due old. DueAt 0 due old (insert_timer 25 7 four)) third_keys
    × (position (insert_timer 25 7 four) ≡ position four)
unfolding slot_count_of
insert_timer-DueAt_example =
    insert_timer-DueAt 25 7 third new_wheel new_wheel new_wheel (omega arith)
      (omega arith, (omega arith, (omega arith, (omega arith, tt)))) (omega arith) third_keys
      (inl (3, omega arith, omega arith, Memᴰ.head refl, refl), tt)

-- The last tick of the first wheel, with a key of the second one.
abbrev last_slot : Wheel
last_slot = record new_wheel { head = 254 }

abbrev first_full : Wheel
first_full = put_slot 0 (5 ∷ []) new_wheel

abbrev moving_keys : List (ℕ × ℕ)
moving_keys = (260, 5) ∷ []

cascade-EachKey_example :
    let ws = last_slot ∷ (first_full ∷ []) in
    let after = cascade 0 (pop_front (put_slot 254 [] last_slot) ∷ (first_full ∷ [])) in
    (position after ≡ 255)
    × IsWheels after
    × EachKey
        (λ due key.
          ((due ≡ position ws) × Memᴰ key (front last_slot))
          ⊎ ((position ws < due) × DueAt 0 due key after))
        moving_keys
cascade-EachKey_example =
    cascade-EachKey last_slot (first_full ∷ []) moving_keys (omega arith, (omega arith, tt))
      (omega arith)
      (inr (0, omega arith, refl, inl (0, omega arith, omega arith, Memᴰ.head refl, refl)), tt)

-- A timer without end of the service 3, each 100 ms.
abbrev every_tenth : Context
every_tenth = record { duration = 100; times = infinite; serviceid = 3 }

abbrev serving : Wheel → Context → Timers (List (ℕ × Bool))
serving w c = record {
  has_handler = true;
  uuid = 1;
  timers = (1, c) ∷ [];
  wheels = w ∷ (new_wheel ∷ []);
  stop = false;
  tick = 0;
  previous_tick = 1;
  services = [];
}

-- The services note the calls, and ask for another timer.
abbrev asks : Handler (List (ℕ × Bool))
asks i serviceid last services = (calls_repeat 50 1 serviceid ∷ [], (i, last) ∷ services)

abbrev notes : ℕ → ℕ → Bool → List (ℕ × Bool) → List (ℕ × Bool)
notes i serviceid last services = (i, last) ∷ services

abbrev two_slots : Wheel
two_slots = put_slot 0 (2 ^ 32 ∷ []) third

update_tick-fires_example :
    let st = serving two_slots every_tenth in
    let after =
      fire_all asks 0
        (2 ^ 32 ∷ [])
        (record st { wheels = pop_front two_slots ∷ (new_wheel ∷ []) }) in
    (update_tick asks 1 st ≡ some after)
    × (position after.wheels ≡ 0 + 1)
    × EachKey (λ due key. DueAt 0 due key after.wheels) third_keys
update_tick-fires_example =
    update_tick-fires asks 1 two_slots (new_wheel ∷ []) (serving two_slots every_tenth) third_keys
      (omega arith) refl (omega arith)
      ((omega arith, inl (3, omega arith, omega arith, Memᴰ.head refl, refl)), tt)

abbrev three_times : Context
three_times = record { duration = 100; times = 3; serviceid = 3 }

answers-counted_example : answers notes 1 100 3 3 (serving new_wheel three_times) ≡ (
  100 ∷ (100 ∷ (0 ∷ [])),
  record (serving new_wheel three_times) {
    services = (1, true) ∷ ((1, false) ∷ ((1, false) ∷ ((1, false) ∷ [])));
    timers = erase_timer 1 ((1, three_times) ∷ []);
  },
)
unfolding find_timer
answers-counted_example =
    answers-counted notes 1 100 3 2 (serving new_wheel three_times) refl (omega arith)

-- 2550 ms are 255 ticks.
abbrev each_255_ticks : Context
each_255_ticks = record { duration = 2550; times = infinite; serviceid = 3 }

abbrev last_full : Wheel
last_full = put_slot 254 (2 ^ 32 ∷ []) last_slot

update_tick-never_example :
    update_tick (tells notes each_255_ticks) 1000 (serving last_full each_255_ticks) ≡ none
unfolding find_timer slot_count_of
update_tick-never_example =
    update_tick-never notes each_255_ticks 1000 (2 ^ 32) last_full (new_wheel ∷ [])
      (serving last_full each_255_ticks) refl refl refl refl refl refl refl
