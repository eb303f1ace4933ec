-- ===== src/Timer.antt =====
-- common/timer.hpp, `timer_wheel` and `base_timer`, and core/worker_timer.hpp: timers in four wheels of
-- 255 slots. A key is the 64 bits of `make_key`; a slot is the list of its keys, front first. The
-- time that a duration stands for is counted in ticks of `precision` ms.
pub mod Position
pub mod Keys
pub mod Insert
pub mod Tick
pub mod Table
pub mod Fresh
pub mod Inserted
pub mod Times
pub mod Gone
pub mod Wrap
pub mod Expired
use new_happy_server.Base.{
  ℕ, zero, suc, ◌+◌, ◌-◌, ◌*◌, ◌/◌, ◌%◌, ◌^◌, Bool, true, false, not, ◌&&◌, ◌||◌, Option, none,
  some, List, [], ◌∷◌, ◌++◌, ltb, leb, ◌==◌, if◌then◌else◌, bit_and, bit_or,
}
use new_happy_server.Base.Words.{sub_size}

abbrev pub precision : ℕ
precision = 10

abbrev pub wheel_size : ℕ
wheel_size = 255

abbrev pub timerid_shift : ℕ
timerid_shift = 32

pub record Wheel : Type 0 where
  pub slots : ℕ → List ℕ
  pub head : ℕ

abbrev pub new_wheel : Wheel
new_wheel = record { slots = λ s. []; head = 0 }

-- A write to `array_[pos]`.
abbrev pub put_slot : ℕ → List ℕ → Wheel → Wheel
put_slot pos keys w = record w { slots = λ s. if s == pos then keys else w.slots s }

abbrev pub front : Wheel → List ℕ
front w = w.slots w.head

abbrev pub pop_front : Wheel → Wheel
pop_front w = record w { head = (w.head + 1) % wheel_size }

abbrev pub round : Wheel → Bool
round w = w.head == 0

abbrev pub make_key : ℕ → ℕ → ℕ
make_key id slots = bit_or slots (id * 2 ^ timerid_shift)

-- The wheel's number is the number of bytes to skip.
abbrev pub get_slot : ℕ → ℕ → ℕ
get_slot key which = bit_and (key / 2 ^ (8 * which)) 0xFF

abbrev pub key_id : ℕ → ℕ
key_id key = key / 2 ^ timerid_shift % 2 ^ 32

-- The ticks of a duration: rounded up, at least one.
unfoldable pub slot_count_of : ℕ → ℕ
slot_count_of duration =
    let diff = if ltb 0 (duration % precision) then duration + precision else duration in
    if ltb 0 (diff / precision) then diff / precision else 1

-- The loop of `insert_timer` from the wheel `i` on.
unfoldable pub insert_loop : ℕ → ℕ → ℕ → ℕ → List Wheel → List Wheel
insert_loop i id count slots [] = []
insert_loop i id count slots (w ∷ ws) =
    let count' = count + w.head in
    let slot = sub_size count' 1 % wheel_size in
    let left = count' - slot in
    let slots' = bit_or slots (slot * 2 ^ (8 * i)) in
    let key = make_key id slots' in
    let further = w ∷ insert_loop (suc i) id (left / wheel_size) slots' ws in
    if ltb left wheel_size then put_slot slot (w.slots slot ++ (key ∷ [])) w ∷ ws else further

unfoldable pub insert_timer : ℕ → ℕ → List Wheel → List Wheel
unfolding insert_loop slot_count_of
insert_timer duration id ws = insert_loop 0 id (slot_count_of duration) 0 ws

-- The inner loop of `update`: each key goes to the front of its slot.
unfoldable pub move_keys : ℕ → List ℕ → Wheel → Wheel
move_keys i [] w = w
move_keys i (key ∷ keys) w =
    let slot = get_slot key i in move_keys i keys (put_slot slot (key ∷ w.slots slot) w)

-- The loop of `update` over the wheels from `i` on.
unfoldable pub cascade : ℕ → List Wheel → List Wheel
unfolding move_keys
cascade i [] = []
cascade i (w ∷ []) = w ∷ []
cascade i (w ∷ (next ∷ ws)) =
    let emptied = pop_front (put_slot next.head [] next) in
    let moved = move_keys i (front next) w ∷ cascade (suc i) (emptied ∷ ws) in
    if round w then moved else w ∷ (next ∷ ws)
