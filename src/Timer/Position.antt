-- ===== src/Timer/Position.antt =====
-- common/timer.hpp, without wheels: the heads as the digits of a position in time, and the position
-- at which a key is due.
use new_happy_server.Base.{ℕ, suc, ◌+◌, ◌*◌, ◌≤◌, ◌<◌, ◌≡◌, ◌⊎◌, List, [], ◌∷◌}
use mathlib.Core.List.{Memᴰ}
use new_happy_server.Timer.{Wheel, wheel_size, get_slot}

-- The tick that comes next.
abbrev pub position : List Wheel → ℕ
position [] = 0
position (w ∷ ws) = w.head + wheel_size * position ws

-- The ticks that the wheels tell apart.
abbrev pub horizon : List Wheel → ℕ
horizon [] = 1
horizon (w ∷ ws) = wheel_size * horizon ws

abbrev pub IsWheels : List Wheel → Type 0
IsWheels [] = Unit {0}
IsWheels (w ∷ ws) = (w.head < wheel_size) × IsWheels ws

-- The key stands in a slot that is emptied at the tick `due`: in the first wheel, or in a later one
-- with the slot of this wheel as its byte `i`.
abbrev pub DueAt : ℕ → ℕ → ℕ → List Wheel → Type 0
DueAt i due key [] = ⊥
DueAt i due key (w ∷ ws) =
    ((s : ℕ) × (w.head ≤ s)
      × (s < wheel_size)
      × Memᴰ key (w.slots s)
      × (due ≡ s + wheel_size * position ws))
    ⊎ ((later : ℕ) × (get_slot key i < wheel_size)
        × (due ≡ get_slot key i + wheel_size * (later + 1))
        × DueAt (suc i) later key ws)

-- A property of each of some keys, with the tick at which it is due.
abbrev pub EachKey : (ℕ → ℕ → Type 0) → List (ℕ × ℕ) → Type 0
EachKey P [] = Unit {0}
EachKey P ((due, key) ∷ keys) = P due key × EachKey P keys

pub EachKey-map :
    {P Q : ℕ → ℕ → Type 0} (keys : List (ℕ × ℕ))
    → ((due key : ℕ) → P due key → Q due key)
    → EachKey P keys
    → EachKey Q keys
EachKey-map [] f h = tt
EachKey-map ((due, key) ∷ keys) f h = (f due key h.0, EachKey-map keys f h.1)
