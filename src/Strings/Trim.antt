-- ===== src/Strings/Trim.antt =====
-- common/string.hpp: the ends of a text. `find_first_not_of` and `find_last_not_of` are those of the
-- standard library for the blanks " \t\n\r".
use new_happy_server.Base.{
  ℕ, suc, ◌-◌, ◌≡◌, refl, sym, ap, subst, ◌∙◌, inl, inr, Bool, true, false, ◌||◌, Option, none,
  some, List, [], ◌∷◌, ◌++◌, length, take, drop, All, take-append-drop, append-nil, ltb, leb, ◌==◌,
  if◌then◌else◌, Bool-cases, Option-cases, arith, ltb→lt, lt→ltb, ◌⊎◌, append_assoc,
}

abbrev pub left : List ℕ → ℕ → List ℕ
left str n = take n str

abbrev pub right : List ℕ → ℕ → List ℕ
right str n = drop (if leb n (length str) then length str - n else 0) str

abbrev pub is_blank : ℕ → Bool
is_blank c = (c == 32) || ((c == 9) || ((c == 10) || (c == 13)))

abbrev pub one_later : Option ℕ → Option ℕ
one_later none = none
one_later (some i) = some (suc i)

abbrev pub find_first_not_of : List ℕ → Option ℕ
find_first_not_of [] = none
find_first_not_of (c ∷ cs) =
    let rest = one_later (find_first_not_of cs) in if is_blank c then rest else some 0

abbrev pub find_last_not_of : List ℕ → Option ℕ
find_last_not_of [] = none
find_last_not_of (c ∷ cs) = elim (find_last_not_of cs) [
  | none ↦ if is_blank c then none else some 0
  | some i ↦ some (suc i)
]

abbrev pub trim_right : List ℕ → List ℕ
trim_right v = elim (find_last_not_of v) [ none ↦ v | some words_end ↦ take (suc words_end) v ]

-- Without a word, `words_begin` is not below the size.
abbrev pub trim_left : List ℕ → List ℕ
trim_left v = elim (find_first_not_of v) [
  | none ↦ drop (length v) v
  | some words_begin ↦ drop (if ltb words_begin (length v) then words_begin else length v) v
]

unfoldable pub trim_surrounding : List ℕ → List ℕ
trim_surrounding v = trim_left (trim_right v)

abbrev pub AreBlank : List ℕ → Type 0
AreBlank cs = All (λ c. is_blank c ≡ true) cs

abbrev pub starts_blank : List ℕ → Bool
starts_blank [] = false
starts_blank (c ∷ cs) = is_blank c

abbrev pub ends_blank : List ℕ → Bool
ends_blank [] = false
ends_blank (c ∷ []) = is_blank c
ends_blank (c ∷ (d ∷ cs)) = ends_blank (d ∷ cs)

blank_without_word : (v : List ℕ) → find_last_not_of v ≡ none → AreBlank v
blank_without_word [] h = tt
blank_without_word (c ∷ cs) h = elim (Option-cases (find_last_not_of cs)) [
  | inl no_word ↦ elim (Bool-cases (is_blank c)) [
    | inl blank ↦ (blank, blank_without_word cs no_word)
    | inr other ↦ ground (arith, rw (no_word, other) at h)
  ]
  | inr (i, word) ↦ ground (arith, rw word at h)
]

some_inj : (i j : ℕ) → some i ≡ some j → i ≡ j
some_inj i j h = ground arith

ends_behind :
    (c : ℕ) (cs : List ℕ) (n : ℕ) → suc n ≡ length cs → ends_blank (c ∷ cs) ≡ ends_blank cs
ends_behind c [] n h = absurd (omega (arith, h))
ends_behind c (d ∷ cs) n h = refl

-- The text up to its last word, which does not end blank, and the rest, which is blank.
abbrev EndsAt : List ℕ → ℕ → Type 0
EndsAt v e =
    (ends_blank (take (suc e) v) ≡ false)
    × AreBlank (drop (suc e) v)
    × (suc e ≡ length (take (suc e) v))

last_word : (v : List ℕ) (e : ℕ) → find_last_not_of v ≡ some e → EndsAt v e
last_word [] e h = ground arith
last_word (c ∷ cs) e h = elim (Option-cases (find_last_not_of cs)) [
  | inl no_word ↦ elim (Bool-cases (is_blank c)) [
    | inl blank ↦ ground (arith, rw (no_word, blank) at h)
    | inr other ↦
        subst (EndsAt (c ∷ cs)) (some_inj 0 e (rw (no_word, other) at h))
          (other, blank_without_word cs no_word, refl)
  ]
  | inr (i, word) ↦
      let (ends, blank, len) = last_word cs i word in
      subst (EndsAt (c ∷ cs)) (some_inj (suc i) e (rw word at h))
        (ends_behind c (take (suc i) cs) i len ∙ ends, blank, ap suc len)
]

-- The text from its first word on, which does not start blank, and what is before it, which is blank.
abbrev StartsAt : List ℕ → ℕ → Type 0
StartsAt v b =
    (starts_blank (drop b v) ≡ false)
    × AreBlank (take b v)
    × (ends_blank (drop b v) ≡ ends_blank v)
    × (ltb b (length v) ≡ true)

ends_below :
    (c : ℕ) (cs : List ℕ) (i : ℕ) → ltb i (length cs) ≡ true → ends_blank cs ≡ ends_blank (c ∷ cs)
ends_below c [] i h = absurd (omega (arith, ltb→lt i 0 h))
ends_below c (d ∷ cs) i h = refl

first_word : (v : List ℕ) (b : ℕ) → find_first_not_of v ≡ some b → StartsAt v b
first_word [] b h = ground arith
first_word (c ∷ cs) b h = elim (Bool-cases (is_blank c)) [
  | inl blank ↦ elim (Option-cases (find_first_not_of cs)) [
    | inl no_word ↦ ground (arith, rw (blank, no_word) at h)
    | inr (i, word) ↦
        let (starts, blanks, ends, below) = first_word cs i word in
        subst (StartsAt (c ∷ cs)) (some_inj (suc i) b (rw (blank, word) at h)) (
          starts,
          (blank, blanks),
          ends ∙ ends_below c cs i below,
          lt→ltb (suc i) (suc (length cs)) (omega (arith, ltb→lt i (length cs) below)),
        )
  ]
  | inr other ↦
      subst (StartsAt (c ∷ cs)) (some_inj 0 b (rw other at h))
        (other, tt, refl, lt→ltb 0 (suc (length cs)) (omega arith))
]

blank_without_first : (v : List ℕ) → find_first_not_of v ≡ none → AreBlank v
blank_without_first [] h = tt
blank_without_first (c ∷ cs) h = elim (Bool-cases (is_blank c)) [
  | inl blank ↦ elim (Option-cases (find_first_not_of cs)) [
    | inl no_word ↦ (blank, blank_without_first cs no_word)
    | inr (i, word) ↦ ground (arith, rw (blank, word) at h)
  ]
  | inr other ↦ ground (arith, rw other at h)
]

no_first : (v : List ℕ) → AreBlank v → find_first_not_of v ≡ none
no_first [] blanks = refl
no_first (c ∷ cs) (blank, blanks) = rw (blank, no_first cs blanks) refl

-- A text between blanks that neither starts nor ends with one.
abbrev pub IsTrimmed : List ℕ → List ℕ → Type 0
IsTrimmed v t =
    (l : List ℕ) × (r : List ℕ) × (v ≡ l ++ (t ++ r))
    × AreBlank l
    × AreBlank r
    × (starts_blank t ≡ false)
    × (ends_blank t ≡ false)

drop-length : (v : List ℕ) → drop (length v) v ≡ []
drop-length [] = refl
drop-length (c ∷ cs) = drop-length cs

left_without : (v : List ℕ) → find_first_not_of v ≡ none → trim_left v ≡ []
left_without v h = rw (h, trim_left) (drop-length v)

left_from :
    (v : List ℕ) (b : ℕ)
    → find_first_not_of v ≡ some b
    → ltb b (length v) ≡ true
    → trim_left v ≡ drop b v
left_from v b h below = rw (h, trim_left, below) refl

right_without : (v : List ℕ) → find_last_not_of v ≡ none → trim_right v ≡ v
right_without v h = rw (h, trim_right) refl

right_upto : (v : List ℕ) (e : ℕ) → find_last_not_of v ≡ some e → trim_right v ≡ take (suc e) v
right_upto v e h = rw (h, trim_right) refl

-- `trim_left` of a text that does not end blank, or is blank.
trim_left-IsTrimmed :
    (w r : List ℕ)
    → AreBlank w ⊎ (ends_blank w ≡ false)
    → AreBlank r
    → IsTrimmed (w ++ r) (trim_left w)
trim_left-IsTrimmed w r tight blank_r = elim (Option-cases (find_first_not_of w)) [
  | inl no_word ↦
      subst (IsTrimmed (w ++ r)) (sym (left_without w no_word))
        (w, r, refl, blank_without_first w no_word, blank_r, refl, refl)
  | inr (b, word) ↦
      let (starts, blanks, ends, below) = first_word w b word in
      elim tight [
        | inl blank_w ↦ ground (arith, word, no_first w blank_w)
        | inr ends_tight ↦ subst (IsTrimmed (w ++ r)) (sym (left_from w b word below)) (
          take b w,
          r,
          ap (λ t. t ++ r) (sym (take-append-drop b w)) ∙ append_assoc (take b w) (drop b w) r,
          blanks,
          blank_r,
          starts,
          ends ∙ ends_tight,
        )
      ]
]

-- Every text is blanks, its `trim_surrounding` and blanks, and `trim_surrounding` of it neither starts
-- nor ends with a blank.
pub trim_surrounding-IsTrimmed : (v : List ℕ) → IsTrimmed v (trim_surrounding v)
unfolding trim_surrounding
trim_surrounding-IsTrimmed v = elim (Option-cases (find_last_not_of v)) [
  | inl no_word ↦
      subst (λ u. IsTrimmed v (trim_left u)) (sym (right_without v no_word))
        (subst (λ u. IsTrimmed u (trim_left v)) (append-nil v)
          (trim_left-IsTrimmed v [] (inl (blank_without_word v no_word)) tt))
  | inr (e, word) ↦
      let (ends, blank, _) = last_word v e word in
      subst (λ u. IsTrimmed v (trim_left u)) (sym (right_upto v e word))
        (subst (λ u. IsTrimmed u (trim_left (take (suc e) v))) (take-append-drop (suc e) v)
          (trim_left-IsTrimmed (take (suc e) v) (drop (suc e) v) (inr ends) blank))
]
