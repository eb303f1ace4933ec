-- ===== src/Buffer/Space.antt =====
-- common/buffer.hpp: `next_pow2`, and the arrays that `put_data` writes.
use new_happy_server.Base.{ℕ, ◌/◌, ◌^◌, ◌≤◌, ◌<◌, arith, Bool-cases, inl, inr, ◌==◌, bit_and}
use new_happy_server.Base.Words.{sub_size}
use new_happy_server.Base.Bits.{le-bit_or, bit_or-lt}
use new_happy_server.Buffer.{smear, next_pow2}

smear_bounds : (x k : ℕ) → x < 2 ^ 63 → (x ≤ smear x k) × (smear x k < 2 ^ 63)
smear_bounds x k h = (le-bit_or x (x / 2 ^ k), bit_or-lt 63 x (x / 2 ^ k) h (omega arith))

-- Below 2 ^ 63 the capacity asked for is never below the need, and never above 2 ^ 63.
pub next_pow2_bounds : (x : ℕ) → x < 2 ^ 63 → (x ≤ next_pow2 x) × (next_pow2 x ≤ 2 ^ 63)
unfolding next_pow2
next_pow2_bounds x h =
    let b1 = smear_bounds x 1 h in
    let b2 = smear_bounds (smear x 1) 2 b1.1 in
    let b3 = smear_bounds (smear (smear x 1) 2) 4 b2.1 in
    let b4 = smear_bounds (smear (smear (smear x 1) 2) 4) 8 b3.1 in
    let b5 = smear_bounds (smear (smear (smear (smear x 1) 2) 4) 8) 16 b4.1 in
    elim (Bool-cases (bit_and x (sub_size x 1) == 0)) [
      | inl power ↦ rw power (omega arith)
      | inr other ↦ rw other (omega arith)
    ]
