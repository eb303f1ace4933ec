-- ===== src/Serialize/Integer.antt =====
-- magic/lua_serialize.cpp: the first byte of a value, and integers of each width.
use new_happy_server.Base.{
  ℕ, ◌-◌, ◌/◌, ◌%◌, ◌^◌, ◌≤◌, ◌<◌, ◌≡◌, refl, ap, ◌⊎◌, inl, inr, List, ◌++◌, arith, true, ◌==◌,
  ==_iff, bit_and,
}
use new_happy_server.Base.Bits.{every_under, every_under_lem, low_three_bits}
use new_happy_server.Base.Words.{le_bytes, le_value, le_value-le_bytes, length-le_bytes}
use new_happy_server.View.{View}
use new_happy_server.View.Laws.{At, read-At, advance}
use new_happy_server.Serialize.Value.{combine_type}
use new_happy_server.Serialize.Unpack.{ok, read_or_invalid, get_integer}
use new_happy_server.Serialize.Code.{head, integer_cookie, integer_width}

combine_table : every_under 8 (λ t. every_under 32 (λ c. combine_type t c == head t c)) ≡ true
combine_table = refl

-- COMBINE_TYPE puts the type in the low three bits and the cookie above them, for a type below 8 and
-- a cookie below 32.
pub combine_type-head : (t c : ℕ) → t < 8 → c < 32 → combine_type t c ≡ head t c
combine_type-head t c h g =
    let row =
      every_under_lem 8 (λ u. every_under 32 (λ d. combine_type u d == head u d)) combine_table t
        h in
    (==_iff _ _).0 (every_under_lem 32 (λ d. combine_type t d == head t d) row c g)

pub head_fields :
    (t c : ℕ) → t < 8 → c < 32 → (bit_and (head t c) 7 ≡ t) × (head t c / 8 ≡ c) × (head t c < 256)
head_fields t c h g = rw (low_three_bits (head t c)) (omega arith)

-- A number of `n` bytes is read back, and what follows it is left.
pub read_number :
    (n w : ℕ) (ys : List ℕ) {v : View}
    → At (le_bytes n w ++ ys) v
    → 0 < n
    → (read_or_invalid n v ≡ ok (le_value (le_bytes n w), advance n v)) × At ys (advance n v)
read_number n w ys {v} a pos =
    let (got, after) = read-At n (le_bytes n w) ys a (length-le_bytes n w) pos in
    (rw (got, read_or_invalid) (rw got), after)

-- Four bytes hold the low half, whatever stands above it.
low_half : (v : ℕ) → le_value (le_bytes 4 v) ≡ v % 2 ^ 32
low_half v = omega arith

-- Which integers have which cookie.
cookie_cases :
    (v : ℕ)
    → ((integer_cookie v ≡ 0) × (v ≡ 0))
      ⊎ (((integer_cookie v ≡ 1) × (0 < v) × (v < 2 ^ 8))
          ⊎ (((integer_cookie v ≡ 2) × (2 ^ 8 ≤ v) × (v < 2 ^ 16))
              ⊎ (((integer_cookie v ≡ 4) × (2 ^ 16 ≤ v) × (v < 2 ^ 31))
                  ⊎ (((integer_cookie v ≡ 4) × (2 ^ 64 - 2 ^ 31 ≤ v))
                      ⊎ ((integer_cookie v ≡ 6) × (2 ^ 31 ≤ v) × (v < 2 ^ 64 - 2 ^ 31))))))
unfolding integer_cookie
cookie_cases v = ground arith

-- At the bytes of a 64 bit integer, in the width of its cookie, the reader of that cookie gives the
-- integer and leaves what follows.
pub get_integer-At :
    (x : ℕ) (ys : List ℕ) {v : View}
    → x < 2 ^ 64
    → At (le_bytes (integer_width (integer_cookie x)) x ++ ys) v
    → (v' : View) × (get_integer (integer_cookie x) v ≡ ok (x, v')) × At ys v'
unfolding get_integer integer_width
get_integer-At x ys {v} h a = elim (cookie_cases x) [
  | inl (c, z) ↦ (v, rw (c, z), rw c at a)
  | inr (inl (c, lo, hi)) ↦
      let (got, after) = read_number 1 x ys (rw c at a) (omega arith) in
      (advance 1 v, rw (c, got, le_value-le_bytes 1 x (omega arith)), after)
  | inr (inr (inl (c, lo, hi))) ↦
      let (got, after) = read_number 2 x ys (rw c at a) (omega arith) in
      (advance 2 v, rw (c, got, le_value-le_bytes 2 x (omega arith)), after)
  | inr (inr (inr (inl (c, lo, hi)))) ↦
      let (got, after) = read_number 4 x ys (rw c at a) (omega arith) in
      (advance 4 v, rw (c, got, low_half x) (ap (λ n. ok (n, advance 4 v)) (ground arith)), after)
  | inr (inr (inr (inr (inl (c, lo))))) ↦
      let (got, after) = read_number 4 x ys (rw c at a) (omega arith) in
      (advance 4 v, rw (c, got, low_half x) (ap (λ n. ok (n, advance 4 v)) (ground arith)), after)
  | inr (inr (inr (inr (inr (c, lo, hi))))) ↦
      let (got, after) = read_number 8 x ys (rw c at a) (omega arith) in
      (advance 8 v, rw (c, got, le_value-le_bytes 8 x (omega arith)), after)
]

pub integer_cookie-lt : (v : ℕ) → integer_cookie v < 8
unfolding integer_cookie
integer_cookie-lt v = ground arith
