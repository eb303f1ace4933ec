-- ===== src/Base/Lists.antt =====
-- Lists measured and indexed by native numbers, under the library's names.
use Prim.Native.Nat.{ℕ, zero, suc, ◌+◌, ◌-◌, ◌≤◌, min}
use mathlib.Core.Path.{◌≡◌, refl, sym, ap, ◌∙◌}
use mathlib.Core.List.{List, [], ◌∷◌, ◌++◌}
use mathlib.Core.Option.{Option, none, some}
use native.Mathlib.Omega.{arith}

module _ {ℓ} {A : Type ℓ} where
  abbrev pub length : List A → ℕ
  length [] = 0
  length (x ∷ xs) = suc (length xs)

  abbrev pub take : ℕ → List A → List A
  take zero xs = []
  take (suc n) [] = []
  take (suc n) (x ∷ xs) = x ∷ take n xs

  abbrev pub drop : ℕ → List A → List A
  drop zero xs = xs
  drop (suc n) [] = []
  drop (suc n) (x ∷ xs) = drop n xs

  abbrev pub get_elem? : List A → ℕ → Option A
  get_elem? [] i = none
  get_elem? (x ∷ xs) zero = some x
  get_elem? (x ∷ xs) (suc i) = get_elem? xs i

  abbrev pub set : List A → ℕ → A → List A
  set [] i v = []
  set (x ∷ xs) zero v = v ∷ xs
  set (x ∷ xs) (suc i) v = x ∷ set xs i v

  abbrev pub replicate : ℕ → A → List A
  replicate zero a = []
  replicate (suc n) a = a ∷ replicate n a

  abbrev pub All {κ} : (A → Type κ) → List A → Type κ
  All P [] = Unit {κ}
  All P (x ∷ xs) = P x × All P xs

module _ {ℓ} {A : Type ℓ} where
  pub length-append : (xs ys : List A) → length (xs ++ ys) ≡ length xs + length ys
  length-append [] ys = omega arith
  length-append (x ∷ xs) ys = omega (arith, length-append xs ys)

  pub length-take : (n : ℕ) (xs : List A) → length (take n xs) ≡ min n (length xs)
  length-take zero xs = omega arith
  length-take (suc n) [] = omega arith
  length-take (suc n) (x ∷ xs) = omega (arith, length-take n xs)

  pub length-drop : (n : ℕ) (xs : List A) → length (drop n xs) ≡ length xs - n
  length-drop zero xs = omega arith
  length-drop (suc n) [] = omega arith
  length-drop (suc n) (x ∷ xs) = omega (arith, length-drop n xs)

  pub length-replicate : (n : ℕ) (a : A) → length (replicate n a) ≡ n
  length-replicate zero a = refl
  length-replicate (suc n) a = ap suc (length-replicate n a)

  -- The first part of an append, by its exact length.
  pub take-append_self : (n : ℕ) (xs ys : List A) → n ≡ length xs → take n (xs ++ ys) ≡ xs
  take-append_self zero [] ys h = refl
  take-append_self zero (x ∷ xs) ys h = absurd (omega arith)
  take-append_self (suc n) [] ys h = absurd (omega arith)
  take-append_self (suc n) (x ∷ xs) ys h = ap (◌∷◌ x) (take-append_self n xs ys (omega arith))

  pub drop-append_self : (n : ℕ) (xs ys : List A) → n ≡ length xs → drop n (xs ++ ys) ≡ ys
  drop-append_self zero [] ys h = refl
  drop-append_self zero (x ∷ xs) ys h = absurd (omega arith)
  drop-append_self (suc n) [] ys h = absurd (omega arith)
  drop-append_self (suc n) (x ∷ xs) ys h = drop-append_self n xs ys (omega arith)

  pub drop-append_le :
      (n : ℕ) (xs ys : List A) → n ≤ length xs → drop n (xs ++ ys) ≡ drop n xs ++ ys
  drop-append_le zero xs ys h = refl
  drop-append_le (suc n) [] ys h = absurd (omega arith)
  drop-append_le (suc n) (x ∷ xs) ys h = drop-append_le n xs ys (omega arith)

  pub take-append_le : (n : ℕ) (xs ys : List A) → n ≤ length xs → take n (xs ++ ys) ≡ take n xs
  take-append_le zero xs ys h = refl
  take-append_le (suc n) [] ys h = absurd (omega arith)
  take-append_le (suc n) (x ∷ xs) ys h = ap (◌∷◌ x) (take-append_le n xs ys (omega arith))

  pub take-nil : (n : ℕ) → take {A = A} n [] ≡ []
  take-nil zero = refl
  take-nil (suc n) = refl

  pub drop-take : (p q : ℕ) (xs : List A) → drop p (take q xs) ≡ take (q - p) (drop p xs)
  drop-take zero q xs = ap (λ k. take k xs) (omega arith)
  drop-take (suc p) zero xs = sym (ap (λ k. take k (drop (suc p) xs)) none_left)
    where
      none_left : 0 - suc p ≡ 0
      none_left = omega arith
  drop-take (suc p) (suc q) [] = sym (take-nil (suc q - suc p))
  drop-take (suc p) (suc q) (x ∷ xs) = drop-take p q xs ∙ ap (λ k. take k (drop p xs)) (omega arith)

  pub drop-drop : (p q : ℕ) (xs : List A) → drop p (drop q xs) ≡ drop (q + p) xs
  drop-drop p zero xs = ap (λ k. drop k xs) (omega arith)
  drop-drop zero (suc q) [] = sym (ap (λ k. drop {A = A} k []) q_zero)
    where
      q_zero : suc q + zero ≡ suc q
      q_zero = omega arith
  drop-drop (suc p) (suc q) [] = sym (ap (λ k. drop {A = A} k []) q_p)
    where
      q_p : suc q + suc p ≡ suc (q + suc p)
      q_p = omega arith
  drop-drop p (suc q) (x ∷ xs) = drop-drop p q xs ∙ sym (ap (λ k. drop k (x ∷ xs)) q_p)
    where
      q_p : suc q + p ≡ suc (q + p)
      q_p = omega arith

  pub take-take : (p q : ℕ) (xs : List A) → p ≤ q → take p (take q xs) ≡ take p xs
  take-take zero q xs h = refl
  take-take (suc p) zero xs h = absurd (omega arith)
  take-take (suc p) (suc q) [] h = refl
  take-take (suc p) (suc q) (x ∷ xs) h = ap (◌∷◌ x) (take-take p q xs (omega arith))

  pub take-append-drop : (n : ℕ) (xs : List A) → take n xs ++ drop n xs ≡ xs
  take-append-drop zero xs = refl
  take-append-drop (suc n) [] = refl
  take-append-drop (suc n) (x ∷ xs) = ap (◌∷◌ x) (take-append-drop n xs)

  pub take_all : (n : ℕ) (xs : List A) → length xs ≤ n → take n xs ≡ xs
  take_all zero [] h = refl
  take_all zero (x ∷ xs) h = absurd (omega arith)
  take_all (suc n) [] h = refl
  take_all (suc n) (x ∷ xs) h = ap (◌∷◌ x) (take_all n xs (omega arith))

  pub drop_all : (n : ℕ) (xs : List A) → length xs ≤ n → drop n xs ≡ []
  drop_all zero [] h = refl
  drop_all zero (x ∷ xs) h = absurd (omega arith)
  drop_all (suc n) [] h = refl
  drop_all (suc n) (x ∷ xs) h = drop_all n xs (omega arith)

  -- Two appends are equal part by part, if their first parts have one length.
  pub append_split :
      (xs ys xs' ys' : List A)
      → xs ++ ys ≡ xs' ++ ys'
      → length xs ≡ length xs'
      → (xs ≡ xs') × (ys ≡ ys')
  append_split xs ys xs' ys' e n = (
    sym (take-append_self (length xs) xs ys refl)
        ∙ ap (take (length xs)) e
        ∙ take-append_self (length xs) xs' ys' n,
    sym (drop-append_self (length xs) xs ys refl)
        ∙ ap (drop (length xs)) e
        ∙ drop-append_self (length xs) xs' ys' n,
  )
