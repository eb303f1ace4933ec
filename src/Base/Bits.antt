-- ===== src/Base/Bits.antt =====
-- Bitwise operations on numbers: the law of the lowest digit, and what follows from it.
use Prim.Native.Nat.{
  ℕ, zero, suc, ◌+◌, ◌-◌, ◌*◌, ◌/◌, ◌%◌, ◌^◌, ◌≤◌, ◌<◌, min, max, bit_and, bit_or, digits,
  bit_and-bitwise, bit_or-bitwise,
}
use mathlib.Core.Path.{◌≡◌, refl, subst, sym, ap, ap₂, ◌∙◌}
use mathlib.Core.Bool.{Bool, true, false}
use new_happy_server.Base.Tests.{if◌then◌else◌, Bool-cases, ◌==◌, ==_iff}
use mathlib.Core.Logic.{inl, inr}
use native.Mathlib.Nat.{pow-suc}
use native.Mathlib.Omega.{arith}

-- A test of every number under a bound, by evaluation.
abbrev pub every_under : ℕ → (ℕ → Bool) → Bool
every_under zero test = true
every_under (suc last) test = if test last then every_under last test else false

pub every_under_lem :
    (bound : ℕ) (test : ℕ → Bool)
    → every_under bound test ≡ true
    → (i : ℕ) → i < bound
    → test i ≡ true
every_under_lem zero test all_pass i low = absurd (omega arith)
every_under_lem (suc last) test all_pass i low = elim (Bool-cases (test last)) [
  | inl passed ↦ elim (Bool-cases (i == last)) [
    | inl newest ↦ subst (λ j. test j ≡ true) (sym ((==_iff i last).0 newest)) passed
    | inr older ↦ every_under_lem last test (ground arith) i (ground arith)
  ]
  | inr failed ↦ ground arith
]

-- An operation that `digits` defines goes from the lowest digit to the others, whatever fuel is
-- left over.
module _ (rest : ℕ → ℕ) (digit : ℕ → ℕ → ℕ) where
  no_digit : (n y : ℕ) → digits rest digit n 0 y ≡ rest y
  no_digit zero y = refl
  no_digit (suc n) y = refl

  spare : (n k x y : ℕ) → x ≤ n → digits rest digit (n + k) x y ≡ digits rest digit n x y
  spare n k zero y h = no_digit (n + k) y ∙ sym (no_digit n y)
  spare zero k (suc x) y h = absurd (omega arith)
  spare (suc n) k (suc x) y h =
      let up : suc n + k ≡ suc (n + k) = omega arith in
      rw up (
        ap (λ upper. upper * 2 + digit (suc x % 2) (y % 2))
          (spare n k (suc x / 2) (y / 2) (omega arith)))

  pub lowest_digit :
      (op : ℕ → ℕ → ℕ)
      → ((x y : ℕ) → op x y ≡ digits rest digit x x y)
      → (x y : ℕ) → op (suc x) y ≡ op (suc x / 2) (y / 2) * 2 + digit (suc x % 2) (y % 2)
  lowest_digit op law x y =
      let half = suc x / 2 in
      let gap : half + (x - half) ≡ x = omega arith in
      law (suc x) y
      ∙ ap (λ n. digits rest digit n half (y / 2) * 2 + digit (suc x % 2) (y % 2)) (sym gap)
      ∙ ap (λ upper. upper * 2 + digit (suc x % 2) (y % 2))
          (spare half (x - half) half (y / 2) (omega arith) ∙ sym (law half (y / 2)))

pub bit_or_halves : (x y : ℕ) → bit_or x y ≡ bit_or (x / 2) (y / 2) * 2 + max (x % 2) (y % 2)
bit_or_halves zero y = omega (arith, bit_or-bitwise 0 y, bit_or-bitwise 0 (y / 2))
bit_or_halves (suc x) y = lowest_digit (λ c. c) max bit_or bit_or-bitwise x y

pub bit_and_halves : (x y : ℕ) → bit_and x y ≡ bit_and (x / 2) (y / 2) * 2 + min (x % 2) (y % 2)
bit_and_halves zero y = omega (arith, bit_and-bitwise 0 y, bit_and-bitwise 0 (y / 2))
bit_and_halves (suc x) y = lowest_digit (λ c. zero) min bit_and bit_and-bitwise x y

pub no_mask : (n x : ℕ) → x ≤ n → bit_and x 0 ≡ 0
no_mask n zero h = bit_and-bitwise 0 0
no_mask zero (suc x) h = absurd (omega arith)
no_mask (suc n) (suc x) h =
    omega (arith, bit_and_halves (suc x) 0, no_mask n (suc x / 2) (omega arith))

-- The mask of the type field.
pub low_three_bits : (x : ℕ) → bit_and x 7 ≡ x % 8
low_three_bits x =
    let rest_masked = no_mask (x / 2 / 2 / 2) (x / 2 / 2 / 2) (omega arith) in
    omega (
      arith,
      rest_masked,
      bit_and_halves (x / 2 / 2) 1,
      bit_and_halves (x / 2) 3,
      bit_and_halves x 7,
    )

-- `or` loses nothing of its first operand.
le-bit_or_fuel : (n a b : ℕ) → a ≤ n → a ≤ bit_or a b
le-bit_or_fuel n zero b h = omega arith
le-bit_or_fuel zero (suc a) b h = absurd (omega arith)
le-bit_or_fuel (suc n) (suc a) b h =
    omega (arith, bit_or_halves (suc a) b, le-bit_or_fuel n (suc a / 2) (b / 2) (omega arith))

pub le-bit_or : (a b : ℕ) → a ≤ bit_or a b
le-bit_or a b = le-bit_or_fuel a a b (omega arith)

-- `or` of two numbers of `k` bits has `k` bits.
pub bit_or-lt : (k a b : ℕ) → a < 2 ^ k → b < 2 ^ k → bit_or a b < 2 ^ k
bit_or-lt zero a b h g =
    omega (arith, bit_or_halves a b, bit_or-bitwise 0 0, ap₂ bit_or (zero_of a h) (zero_of b g))
  where
    zero_of : (c : ℕ) → c < 2 ^ 0 → c ≡ 0
    zero_of c h = omega arith
bit_or-lt (suc k) a b h g = omega (
  arith,
  pow-suc 2 k,
  bit_or_halves a b,
  bit_or-lt k (a / 2) (b / 2) (omega (arith, pow-suc 2 k)) (omega (arith, pow-suc 2 k)),
)

-- `or` of a low field and a high one is their sum.
pub bit_or_fields : (k low high : ℕ) → low < 2 ^ k → bit_or low (high * 2 ^ k) ≡ low + high * 2 ^ k
bit_or_fields zero low high h =
    let none_low : low ≡ 0 = omega arith in
    subst (λ l. bit_or l (high * 2 ^ 0) ≡ l + high * 2 ^ 0) (sym none_low)
      (omega (arith, bit_or-bitwise 0 (high * 2 ^ 0)))
bit_or_fields (suc k) low high h =
    let twice : high * 2 ^ suc k ≡ 2 * (high * 2 ^ k) =
      omega (arith, ap (λ (t : ℕ). high * t) (pow-suc 2 k)) in
    let half : high * 2 ^ suc k / 2 ≡ high * 2 ^ k = omega (arith, twice) in
    omega (
      arith,
      twice,
      bit_or_halves low (high * 2 ^ suc k),
      ap (bit_or (low / 2)) half,
      bit_or_fields k (low / 2) high (omega (arith, pow-suc 2 k)),
    )

pub low_eight_bits : (x : ℕ) → bit_and x 255 ≡ x % 256
low_eight_bits x =
    let half = λ (y : ℕ). y / 2 in
    let low_five = low_three_bits (half (half (half (half (half x))))) in
    omega (
      arith,
      low_five,
      bit_and_halves x 255,
      bit_and_halves (x / 2) 127,
      bit_and_halves (x / 2 / 2) 63,
      bit_and_halves (x / 2 / 2 / 2) 31,
      bit_and_halves (x / 2 / 2 / 2 / 2) 15,
    )
