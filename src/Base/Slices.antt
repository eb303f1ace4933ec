-- ===== src/Base/Slices.antt =====
-- Ranges of an array: reading one, and overwriting one in place.
use new_happy_server.Base.Lists.{
  length, take, drop, length-append, length-take, length-drop, drop-append_le, drop-append_self,
  take-append_self, drop-take, drop-drop, take-nil,
}
use Prim.Native.Nat.{ℕ, zero, suc, ◌+◌, ◌-◌, ◌≤◌}
use mathlib.Core.Path.{◌≡◌, ap, sym, ◌∙◌}
use mathlib.Core.List.{List, [], ◌∷◌, ◌++◌, append_assoc}
use native.Mathlib.Omega.{arith}

module _ {ℓ} {A : Type ℓ} where
  -- The entries from `p` up to, and not with, `q`.
  abbrev pub slice : ℕ → ℕ → List A → List A
  slice p q xs = take (q - p) (drop p xs)

  -- The array with `ys` written from `p` on.
  abbrev pub splice : List A → ℕ → List A → List A
  splice xs p ys = take p xs ++ (ys ++ drop (p + length ys) xs)

module _ {ℓ} {A : Type ℓ} where
  pub length-slice : (p q : ℕ) (xs : List A) → p ≤ q → q ≤ length xs → length (slice p q xs) ≡ q - p
  length-slice p q xs h k = omega (arith, length-take (q - p) (drop p xs), length-drop p xs)

  pub length-splice :
      (xs : List A) (p : ℕ) (ys : List A)
      → p + length ys ≤ length xs
      → length (splice xs p ys) ≡ length xs
  length-splice xs p ys h = omega (
    arith,
    length-append (take p xs) (ys ++ drop (p + length ys) xs),
    length-append ys (drop (p + length ys) xs),
    length-take p xs,
    length-drop (p + length ys) xs,
  )

  -- `take` of an append, past its first part.
  take-append_cut :
      (xs ys : List A) (n : ℕ) → length xs ≤ n → take n (xs ++ ys) ≡ xs ++ take (n - length xs) ys
  take-append_cut [] ys n h = ap (λ k. take k ys) (omega arith)
  take-append_cut (x ∷ xs) ys zero h = absurd (omega arith)
  take-append_cut (x ∷ xs) ys (suc n) h =
      ap (◌∷◌ x) (take-append_cut xs ys n (omega arith) ∙ ap (λ k. xs ++ take k ys) (omega arith))

  take-append_ge :
      (xs ys zs : List A) (n : ℕ) → n ≡ length xs + length ys → take n (xs ++ (ys ++ zs)) ≡ xs ++ ys
  take-append_ge xs ys zs n h =
      rw (← append_assoc xs ys zs)
        (take-append_self n (xs ++ ys) zs (omega (arith, length-append xs ys)))

  take-split : (a b n : ℕ) (xs : List A) → n ≡ a + b → take a xs ++ take b (drop a xs) ≡ take n xs
  take-split zero b n xs h = ap (λ k. take k xs) (omega arith)
  take-split (suc a) b zero xs h = absurd (omega arith)
  take-split (suc a) b (suc n) [] h = take-nil b
  take-split (suc a) b (suc n) (x ∷ xs) h = ap (◌∷◌ x) (take-split a b n xs (omega arith))

  -- A range that ends where the write ends, and begins before it.
  pub slice-splice_back :
      (xs : List A) (p q : ℕ) (ys : List A)
      → p ≤ q
      → q ≤ length xs
      → slice p (q + length ys) (splice xs q ys) ≡ slice p q xs ++ ys
  slice-splice_back xs p q ys h k =
      rw
        (
          drop-append_le p (take q xs) (ys ++ drop (q + length ys) xs)
              (omega (arith, length-take q xs)),
          drop-take p q xs,
        )
        (take-append_ge (slice p q xs) ys (drop (q + length ys) xs) (q + length ys - p)
          (omega (arith, length-slice p q xs h k)))

  -- A range that begins where the write begins.
  pub slice-splice_front :
      (xs : List A) (p q : ℕ) (ys : List A)
      → p + length ys ≤ q
      → q ≤ length xs
      → slice p q (splice xs p ys) ≡ ys ++ slice (p + length ys) q xs
  slice-splice_front xs p q ys h k =
      rw
        (drop-append_self p (take p xs) (ys ++ drop (p + length ys) xs)
          (omega (arith, length-take p xs)))
        (take-append_cut ys (drop (p + length ys) xs) (q - p) (omega arith)
          ∙ ap (λ n. ys ++ take n (drop (p + length ys) xs)) minus)
    where
      minus : q - p - length ys ≡ q - (p + length ys)
      minus = omega arith

  pub slice-eq-nil : (p q : ℕ) (xs : List A) → q ≤ p → slice p q xs ≡ []
  slice-eq-nil p q xs h = ap (λ k. take k (drop p xs)) none_left
    where
      none_left : q - p ≡ 0
      none_left = omega arith

  -- The range that was written.
  pub slice-splice_self :
      (xs : List A) (p n : ℕ) (ys : List A)
      → p + n ≤ length xs
      → n ≡ length ys
      → slice p (p + n) (splice xs p ys) ≡ ys
  slice-splice_self xs p n ys h e =
      rw
        (drop-append_self p (take p xs) (ys ++ drop (p + length ys) xs)
          (omega (arith, length-take p xs)))
        (take-append_self (p + n - p) ys (drop (p + length ys) xs) (omega arith))

  -- Cutting a range in two.
  pub slice-append :
      (p q r : ℕ) (xs : List A) → p ≤ q → q ≤ r → slice p q xs ++ slice q r xs ≡ slice p r xs
  slice-append p q r xs h k =
      ap (λ d. slice p q xs ++ take (r - q) d) (from_q ∙ sym (drop-drop (q - p) p xs))
      ∙ take-split (q - p) (r - q) (r - p) (drop p xs) (omega arith)
    where
      from_q : drop q xs ≡ drop (p + (q - p)) xs
      from_q = ap (λ k. drop k xs) (omega arith)
