-- ===== src/Timer/Tick.antt =====
-- common/timer.hpp, `update`: a tick takes the keys that are due and keeps all others due when they
-- were, over every wheel that wraps.
use new_happy_server.Base.{
  ℕ, suc, ◌+◌, ◌*◌, ◌%◌, ◌≤◌, ◌<◌, ◌≡◌, refl, sym, ap, subst, ◌∙◌, ◌⊎◌, inl, inr, true, false, List,
  [], ◌∷◌, arith, Bool-cases, ◌==◌, ==_iff,
}
use mathlib.Core.List.{Memᴰ}
use mathlib.Core.List.Memᴰ as Memᴰ
use new_happy_server.Timer.{
  Wheel, wheel_size, put_slot, front, pop_front, round, get_slot, move_keys, cascade,
}
use new_happy_server.Timer.Position.{position, horizon, IsWheels, DueAt, EachKey, EachKey-map}

abbrev emptied : Wheel → Wheel
emptied w = pop_front (put_slot w.head [] w)

-- A key that is moved stands in its slot, and the others stay.
move_keys-stay :
    (i : ℕ) (keys : List ℕ) (w : Wheel) (s key : ℕ)
    → Memᴰ key (w.slots s)
    → Memᴰ key ((move_keys i keys w).slots s)
unfolding move_keys
move_keys-stay i [] w s key m = m
move_keys-stay i (k ∷ keys) w s key m =
    move_keys-stay i keys _ s key (elim (Bool-cases (s == get_slot k i)) [
      | inl same ↦
          let at : s ≡ get_slot k i = (==_iff _ _).0 same in
          rw same (Memᴰ.tail (subst (λ t. Memᴰ key (w.slots t)) at m))
      | inr other ↦ rw other m
    ])

move_keys-Mem :
    (i : ℕ) (keys : List ℕ) (w : Wheel) (key : ℕ)
    → Memᴰ key keys
    → Memᴰ key ((move_keys i keys w).slots (get_slot key i))
unfolding move_keys
move_keys-Mem i [] w key m = absurd (Memᴰ.not-nil m)
move_keys-Mem i (k ∷ keys) w key (Memᴰ.tail m) = move_keys-Mem i keys _ key m
move_keys-Mem i (k ∷ keys) w key (Memᴰ.head e) =
    move_keys-stay i keys _ (get_slot key i) key
      (rw ((==_iff (get_slot key i) (get_slot k i)).1 (ap (λ t. get_slot t i) e)) (Memᴰ.head e))

same_head : (i : ℕ) (keys : List ℕ) (w : Wheel) → (move_keys i keys w).head ≡ w.head
unfolding move_keys
same_head i [] w = refl
same_head i (k ∷ keys) w = same_head i keys _

cascade_rests :
    (i : ℕ) (w : Wheel) (ws : List Wheel) → round w ≡ false → cascade i (w ∷ ws) ≡ w ∷ ws
unfolding cascade
cascade_rests i w [] h = refl
cascade_rests i w (n ∷ ws) h = rw h refl

cascade_wraps :
    (i : ℕ) (w n : Wheel) (ws : List Wheel)
    → round w ≡ true
    → cascade i (w ∷ (n ∷ ws)) ≡ move_keys i (front n) w ∷ cascade (suc i) (emptied n ∷ ws)
unfolding cascade
cascade_wraps i w n ws h = rw h refl

-- The wheel does not wrap: what stands before the head is not due yet.
rests-DueAt :
    (i due key : ℕ) (w : Wheel) (ws : List Wheel)
    → w.head + 1 < wheel_size
    → DueAt i due key (w ∷ ws)
    → ((due ≡ position (w ∷ ws)) × Memᴰ key (front w)) ⊎ DueAt i due key (emptied w ∷ ws)
rests-DueAt i due key w ws h (inr further) = inr (inr further)
rests-DueAt i due key w ws h (inl (s, from, below, found, e)) = elim (Bool-cases (s == w.head)) [
  | inl same ↦
      let at : s ≡ w.head = (==_iff _ _).0 same in
      inl (omega (arith, e, at), subst (λ t. Memᴰ key (w.slots t)) at found)
  | inr other ↦ inr (inl (s, ground (arith, other, from), below, rw other found, e))
]

-- Either the wheel does not wrap, or its head is the last slot.
round_cases :
    (w : Wheel)
    → w.head < wheel_size
    → ((round (emptied w) ≡ false) × (w.head + 1 < wheel_size))
      ⊎ ((round (emptied w) ≡ true) × (w.head ≡ 254))
round_cases w v = elim (Bool-cases (round (emptied w))) [
  | inl wraps ↦ inr (wraps, ground (arith, wraps, v))
  | inr rests ↦ inl (rests, ground (arith, rests, v))
]

abbrev Moves : ℕ → Wheel → List Wheel → Type 0
Moves i w ws =
    (position (cascade i (emptied w ∷ ws)) ≡ position (w ∷ ws) + 1)
    × IsWheels (cascade i (emptied w ∷ ws))

rests-Moves :
    (i : ℕ) (w : Wheel) (ws : List Wheel)
    → IsWheels (w ∷ ws)
    → round (emptied w) ≡ false
    → w.head + 1 < wheel_size
    → Moves i w ws
rests-Moves i w ws v rests next =
    let same = cascade_rests i (emptied w) ws rests in
    let up : (w.head + 1) % wheel_size ≡ w.head + 1 = omega (arith, next) in
    (ap position same ∙ omega (arith, up), subst IsWheels (sym same) (omega (arith, next), v.1))

-- The position goes up by one, until the last tick that the wheels tell apart.
cascade-Moves :
    (i : ℕ) (w : Wheel) (ws : List Wheel)
    → IsWheels (w ∷ ws)
    → position (w ∷ ws) + 1 < horizon (w ∷ ws)
    → Moves i w ws
cascade-Moves i w [] v h = elim (round_cases w v.0) [
  | inl (rests, next) ↦ rests-Moves i w [] v rests next
  | inr (wraps, last) ↦ absurd (omega (arith, last))
]
cascade-Moves i w (n ∷ ws) v h = elim (round_cases w v.0) [
  | inl (rests, next) ↦ rests-Moves i w (n ∷ ws) v rests next
  | inr (wraps, last) ↦
      let (up, valid) = cascade-Moves (suc i) n ws v.1 (omega (arith, last, h)) in
      let step = cascade_wraps i (emptied w) n ws wraps in
      let zero_head : (move_keys i (front n) (emptied w)).head ≡ 0 =
        same_head i (front n) (emptied w) ∙ omega (arith, last) in
      (
        ap position step ∙ omega (arith, zero_head, up, last),
        subst IsWheels (sym step) (omega (arith, zero_head), valid),
      )
]

abbrev Expires : ℕ → ℕ → Wheel → List Wheel → Type 0
Expires due key w ws = (due ≡ position (w ∷ ws)) × Memᴰ key (front w)

rests_keeps :
    (i due key : ℕ) (w : Wheel) (ws : List Wheel)
    → round (emptied w) ≡ false
    → w.head + 1 < wheel_size
    → DueAt i due key (w ∷ ws)
    → Expires due key w ws ⊎ DueAt i due key (cascade i (emptied w ∷ ws))
rests_keeps i due key w ws rests next d =
    subst (λ us. Expires due key w ws ⊎ DueAt i due key us)
      (sym (cascade_rests i (emptied w) ws rests)) (rests-DueAt i due key w ws next d)

-- A key that the next wheel gives up stands in its slot of this wheel.
given-DueAt :
    (i due later key : ℕ) (w n : Wheel) (ws : List Wheel)
    → w.head ≡ 254
    → get_slot key i < wheel_size
    → due ≡ get_slot key i + wheel_size * (later + 1)
    → later ≡ position (n ∷ ws)
    → Memᴰ key (front n)
    → position (cascade (suc i) (emptied n ∷ ws)) ≡ position (n ∷ ws) + 1
    → DueAt i due key (move_keys i (front n) (emptied w) ∷ cascade (suc i) (emptied n ∷ ws))
given-DueAt i due later key w n ws last byte e at found up = inl (
  get_slot key i,
  omega (arith, same_head i (front n) (emptied w), last),
  byte,
  move_keys-Mem i (front n) (emptied w) key found,
  omega (arith, e, at, up),
)

-- A key that is due at the position expires; another one stays due when it was.
cascade-DueAt :
    (i due key : ℕ) (w : Wheel) (ws : List Wheel)
    → IsWheels (w ∷ ws)
    → position (w ∷ ws) + 1 < horizon (w ∷ ws)
    → DueAt i due key (w ∷ ws)
    → Expires due key w ws ⊎ DueAt i due key (cascade i (emptied w ∷ ws))
cascade-DueAt i due key w [] v h d = elim (round_cases w v.0) [
  | inl (rests, next) ↦ rests_keeps i due key w [] rests next d
  | inr (wraps, last) ↦ absurd (omega (arith, last))
]
cascade-DueAt i due key w (n ∷ ws) v h (inl (s, from, below, found, e)) = elim (round_cases w v.0) [
  | inl (rests, next) ↦ rests_keeps i due key w (n ∷ ws) rests next (inl (s, from, below, found, e))
  | inr (wraps, last) ↦
      let at : s ≡ w.head = omega (arith, last, from, below) in
      inl (omega (arith, e, at), subst (λ t. Memᴰ key (w.slots t)) at found)
]
cascade-DueAt i due key w (n ∷ ws) v h (inr (later, byte, e, d)) = elim (round_cases w v.0) [
  | inl (rests, next) ↦ rests_keeps i due key w (n ∷ ws) rests next (inr (later, byte, e, d))
  | inr (wraps, last) ↦
      let fits : position (n ∷ ws) + 1 < horizon (n ∷ ws) = omega (arith, last, h) in
      inr (
        subst (λ us. DueAt i due key us) (sym (cascade_wraps i (emptied w) n ws wraps))
          (elim (cascade-DueAt (suc i) later key n ws v.1 fits d) [
            | inl (at, found) ↦
                given-DueAt i due later key w n ws last byte e at found
                  (cascade-Moves (suc i) n ws v.1 fits).0
            | inr stays ↦ inr (later, byte, e, stays)
          ]))
]

-- Nothing is due before the position.
not_before :
    (i due key : ℕ) (ws : List Wheel) → IsWheels ws → DueAt i due key ws → position ws ≤ due
not_before i due key [] v d = elim d [ ]
not_before i due key (w ∷ ws) v (inl (s, from, below, found, e)) = omega (arith, e, from)
not_before i due key (w ∷ ws) v (inr (later, byte, e, d)) =
    omega (arith, e, v.0, not_before (suc i) later key ws v.1 d)

-- In any number of wheels whose heads are slots, and whose position is not the last that they tell
-- apart, let the first wheel's slot be emptied and its head moved on: after the loop over the
-- wheels the position is one higher than before and the heads are slots, and each of any keys that
-- were due, none included, was due at the position and in the slot that is emptied, or is due later
-- and due then afterwards.
pub cascade-EachKey :
    (w : Wheel) (ws : List Wheel) (keys : List (ℕ × ℕ))
    → IsWheels (w ∷ ws)
    → position (w ∷ ws) + 1 < horizon (w ∷ ws)
    → EachKey (λ due key. DueAt 0 due key (w ∷ ws)) keys
    → let after = cascade 0 (pop_front (put_slot w.head [] w) ∷ ws) in
      (position after ≡ position (w ∷ ws) + 1)
      × IsWheels after
      × EachKey
          (λ due key.
            ((due ≡ position (w ∷ ws)) × Memᴰ key (front w))
            ⊎ ((position (w ∷ ws) < due) × DueAt 0 due key after))
          keys
cascade-EachKey w ws keys v h dues =
    let (up, valid) = cascade-Moves 0 w ws v h in
    (
      up,
      valid,
      EachKey-map keys
          (λ due key d. elim (cascade-DueAt 0 due key w ws v h d) [
            | inl expires ↦ inl expires
            | inr stays ↦ inr (
              subst (λ p. p ≤ due) (up ∙ omega arith) (not_before 0 due key _ valid stays),
              stays,
            )
          ])
          dues,
    )
