-- ===== src/Strings/Case.antt =====
-- common/string.hpp: texts without regard to the letters' case, as keys of a hash table.
use new_happy_server.Base.{
  ℕ, ◌≡◌, refl, sym, ◌∙◌, ◌⊎◌, inl, inr, Bool, true, false, ◌&&◌, List, [], ◌∷◌, arith, Bool-cases,
  ◌==◌, ==_iff, length,
}
use new_happy_server.Strings.{to_upper, to_lower, upper, iequal_loop, iequal_string, ihash_string}

-- The two functions tell the same letters apart.
to_lower_same : (x y : ℕ) → to_upper x ≡ to_upper y → to_lower x ≡ to_lower y
to_lower_same x y h = ground (arith, h)

abbrev pub same_text : List ℕ → List ℕ → Bool
same_text [] [] = true
same_text [] (y ∷ ys) = false
same_text (x ∷ xs) [] = false
same_text (x ∷ xs) (y ∷ ys) = (x == y) && same_text xs ys

loop-upper :
    (xs ys : List ℕ) → length xs ≡ length ys → iequal_loop xs ys ≡ same_text (upper xs) (upper ys)
unfolding upper
loop-upper [] [] n = refl
loop-upper [] (y ∷ ys) n = absurd (omega (arith, n))
loop-upper (x ∷ xs) [] n = absurd (omega (arith, n))
loop-upper (x ∷ xs) (y ∷ ys) n = elim (Bool-cases (to_upper x == to_upper y)) [
  | inl same ↦ rw same (loop-upper xs ys (omega (arith, n)))
  | inr other ↦ rw other refl
]

other_length :
    (xs ys : List ℕ) → (length xs == length ys) ≡ false → same_text (upper xs) (upper ys) ≡ false
unfolding upper
other_length [] [] h = absurd (ground (arith, h))
other_length [] (y ∷ ys) h = refl
other_length (x ∷ xs) [] h = refl
other_length (x ∷ xs) (y ∷ ys) h = elim (Bool-cases (to_upper x == to_upper y)) [
  | inl same ↦ rw same (other_length xs ys (ground (arith, h)))
  | inr other ↦ rw other refl
]

iequal_string-upper : (xs ys : List ℕ) → iequal_string xs ys ≡ same_text (upper xs) (upper ys)
unfolding iequal_string
iequal_string-upper xs ys = elim (Bool-cases (length xs == length ys)) [
  | inl same ↦ rw same (loop-upper xs ys ((==_iff _ _).0 same))
  | inr other ↦ rw other (sym (other_length xs ys other))
]

same_hash :
    (hash : ℕ → ℕ) (xs ys : List ℕ) (h : ℕ)
    → same_text (upper xs) (upper ys) ≡ true
    → ihash_string hash h xs ≡ ihash_string hash h ys
unfolding ihash_string upper
same_hash hash [] [] h e = refl
same_hash hash [] (y ∷ ys) h e = absurd (ground (arith, e))
same_hash hash (x ∷ xs) [] h e = absurd (ground (arith, e))
same_hash hash (x ∷ xs) (y ∷ ys) h e = elim (Bool-cases (to_upper x == to_upper y)) [
  | inl same ↦
      let letter = to_lower_same x y ((==_iff _ _).0 same) in
      rw letter (same_hash hash xs ys _ (rw same at e))
  | inr other ↦ absurd (ground (arith, rw other at e))
]

-- `iequal_string` tells whether two texts are the same in upper case, and two such texts have the same
-- hash, whatever hash the standard library has for an `int`: the pair is fit for a hash table.
pub iequal_string-ihash_string :
    (hash : ℕ → ℕ) (h : ℕ) (xs ys : List ℕ)
    → (iequal_string xs ys ≡ same_text (upper xs) (upper ys))
      × ((iequal_string xs ys ≡ false) ⊎ (ihash_string hash h xs ≡ ihash_string hash h ys))
iequal_string-ihash_string hash h xs ys =
    let agrees = iequal_string-upper xs ys in
    (
      agrees,
      elim (Bool-cases (iequal_string xs ys)) [
        | inl equal ↦ inr (same_hash hash xs ys h (sym agrees ∙ equal))
        | inr differ ↦ inl differ
      ],
    )
