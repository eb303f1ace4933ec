-- ===== src/Timer/Keys.antt =====
-- common/timer.hpp, `make_key` and `get_slot`: the bytes of a key, and the arithmetic of the slots.
use new_happy_server.Base.{
  ℕ, zero, suc, ◌+◌, ◌-◌, ◌*◌, ◌/◌, ◌%◌, ◌^◌, ◌<◌, ◌≡◌, ap, ◌∙◌, arith, bit_and, bit_or,
}
use new_happy_server.Base.Bits.{bit_or_fields, low_eight_bits}
use new_happy_server.Base.Words.{sub_size}
use native.Mathlib.Numerals.{towards_suc}
use native.Mathlib.Nat.{add-mul-div_left, div-eq_of_lt, one-le-pow}
use new_happy_server.Timer.{wheel_size, timerid_shift, make_key, get_slot}

-- The byte `i` of a key whose lower bytes are `low`.
pub get_slot_field :
    (i low slot x : ℕ)
    → low < 2 ^ (8 * i)
    → slot < 256
    → get_slot (low + 2 ^ (8 * i) * (slot + 256 * x)) i ≡ slot
get_slot_field i low slot x h g =
    let pos = one-le-pow (8 * i) 2 in
    let over : (low + 2 ^ (8 * i) * (slot + 256 * x)) / 2 ^ (8 * i) ≡ slot + 256 * x =
      add-mul-div_left low (slot + 256 * x) (omega (arith, pos))
      ∙ ap (λ (q : ℕ). q + (slot + 256 * x)) (div-eq_of_lt h)
      ∙ omega arith in
    ap (λ q. bit_and q 0xFF) over ∙ omega (arith, low_eight_bits (slot + 256 * x))

pub byte_up : (i : ℕ) → 2 ^ (8 * suc i) ≡ 256 * 2 ^ (8 * i)
byte_up i = let e : 8 * suc i ≡ 8 * i + 8 = omega arith in rw e (simp towards_suc (omega arith))

-- What the slots of one wheel are computed from.
module _ (count head : ℕ) (pos : 0 < count) (small : count + head < 2 ^ 63) where
  pub slot_is : sub_size (count + head) 1 % wheel_size ≡ (count + head - 1) % wheel_size
  slot_is = omega (arith, pos, small)

  pub left_is :
      count + head - (count + head - 1) % wheel_size
      ≡ 1 + wheel_size * ((count + head - 1) / wheel_size)
  left_is = omega (arith, pos)

  pub quotient_is :
      (count + head - (count + head - 1) % wheel_size) / wheel_size
      ≡ (count + head - 1) / wheel_size
  quotient_is = omega (arith, left_is)

-- A key that the loop makes: the bytes so far, what the further wheels add, and the id above them.
abbrev pub IsKeyOf : ℕ → ℕ → ℕ → ℕ → Type 0
IsKeyOf i slots id key =
    ((x : ℕ) × (key ≡ slots + 2 ^ (8 * i) * x)) × (key / 2 ^ timerid_shift ≡ id)

module _ (id : ℕ) where
  pub slots_up :
      (i slots slot : ℕ)
      → slots < 2 ^ (8 * i)
      → slot < wheel_size
      → (bit_or slots (slot * 2 ^ (8 * i)) ≡ slots + 2 ^ (8 * i) * slot)
        × (slots + 2 ^ (8 * i) * slot < 2 ^ (8 * suc i))
  slots_up i slots slot h g = (
    omega (arith, bit_or_fields (8 * i) slots slot h),
    omega (arith, byte_up i, ap (λ (t : ℕ). 2 ^ (8 * i) * t) gap, h),
  )
    where
      gap : slot + (255 - slot) ≡ 255
      gap = omega arith

  -- The key of a wheel, if the wheels from it on are those that 2 ^ 32 leaves room for.
  pub key_here :
      (i slots c : ℕ)
      → slots < 2 ^ (8 * suc i)
      → 2 ^ (8 * suc i) * c ≡ 2 ^ 32
      → (make_key id slots ≡ slots + 2 ^ (8 * suc i) * (c * id))
        × (make_key id slots / 2 ^ timerid_shift ≡ id)
  key_here i slots zero h e = absurd (omega (arith, e))
  key_here i slots (suc c) h e =
      let below : slots < 2 ^ 32 = omega (arith, e, h) in
      let sum = bit_or_fields timerid_shift slots id below in
      (omega (arith, sum, ap (λ (t : ℕ). t * id) e), omega (arith, sum, below))

  -- The due position over one wheel more.
  pub due_up :
      (count head place q : ℕ)
      → 0 < count
      → q ≡ (count + head - 1) / wheel_size
      → head + wheel_size * place + count - 1
        ≡ (count + head - 1) % wheel_size + wheel_size * (place + q)
  due_up count head place q pos e = omega (arith, pos, e)
