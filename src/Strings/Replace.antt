-- ===== src/Strings/Replace.antt =====
-- common/string.hpp, `replace`: one pass from the left, for every text to replace but the empty one.
use new_happy_server.Base.{
  ℕ, zero, suc, ◌+◌, ◌-◌, ◌≤◌, ◌<◌, ◌≡◌, refl, sym, ap, ◌∙◌, ◌⊎◌, inl, inr, true, false, none, some,
  List, [], ◌∷◌, ◌++◌, append_assoc, arith, Bool-cases, ltb, le→ltb, ◌==◌, ==_iff, if◌then◌else◌,
  length, take, drop, length-append, length-take, take-append_self, drop-append_self,
}
use new_happy_server.Strings.{starts_with, find_in, find, replace_at, replace_loop, replace}

-- The text with every match replaced, from left to right; `skip` bytes belong to the last match.
abbrev pub replaced : List ℕ → List ℕ → ℕ → List ℕ → List ℕ
replaced old new skip [] = []
replaced old new (suc skip) (y ∷ ys) = replaced old new skip ys
replaced old new zero (y ∷ ys) =
    let matched = new ++ replaced old new (length old - 1) ys in
    let other = y ∷ replaced old new 0 ys in if starts_with old (y ∷ ys) then matched else other

starts_with-append :
    (xs ys : List ℕ) → starts_with xs ys ≡ true → ((back : List ℕ) × (ys ≡ xs ++ back))
starts_with-append [] ys h = (ys, refl)
starts_with-append (x ∷ xs) [] h = absurd (ground arith)
starts_with-append (x ∷ xs) (y ∷ ys) h = elim (Bool-cases (x == y)) [
  | inl same ↦
      let (back, e) = starts_with-append xs ys (rw same at h) in
      (back, ap (λ t. t ∷ ys) (sym ((==_iff x y).0 same)) ∙ ap (λ t. x ∷ t) e)
  | inr other ↦ absurd (ground (arith, rw other at h))
]

skip_match :
    (old new xs back : List ℕ) → replaced old new (length xs) (xs ++ back) ≡ replaced old new 0 back
skip_match old new [] back = refl
skip_match old new (x ∷ xs) back = skip_match old new xs back

module _ (o : ℕ) (os new : List ℕ) where
  abbrev old : List ℕ
  old = o ∷ os

  -- Either there is no match, or the first one splits the text.
  find_in_cases :
      (rest : List ℕ) (pos : ℕ)
      → ((find_in old rest pos ≡ none) × (replaced old new 0 rest ≡ rest))
        ⊎ ((front back : List ℕ) × (rest ≡ front ++ (old ++ back))
            × (find_in old rest pos ≡ some (pos + length front))
            × (replaced old new 0 rest ≡ front ++ (new ++ replaced old new 0 back)))
  unfolding find_in
  find_in_cases [] pos = inl (refl, refl)
  find_in_cases (y ∷ ys) pos = elim (Bool-cases (starts_with old (y ∷ ys))) [
    | inl found ↦
        let (back, e) = starts_with-append old (y ∷ ys) found in
        let less : suc (length os) - 1 ≡ length os = omega arith in
        let onwards : replaced old new (suc (length os) - 1) ys ≡ replaced old new 0 back =
          ap (λ k. replaced old new k ys) less
          ∙ ap (replaced old new (length os)) (ap (drop 1) e)
          ∙ skip_match old new os back in
        inr (
          [],
          back,
          e,
          rw (find_in, found) (ap some (omega arith)),
          rw found (ap (λ t. new ++ t) onwards),
        )
    | inr other ↦ elim (find_in_cases ys (suc pos)) [
      | inl (no_match, same) ↦ inl (rw (find_in, other) no_match, rw other (ap (λ t. y ∷ t) same))
      | inr (front, back, e, at, same) ↦ inr (
        y ∷ front,
        back,
        ap (λ t. y ∷ t) e,
        rw (find_in, other) (at ∙ ap some (omega arith)),
        rw other (ap (λ t. y ∷ t) same),
      )
    ]
  ]

  -- What the loop does at a match.
  replace_middle :
      (done front back : List ℕ)
      → replace_at (done ++ (front ++ (old ++ back))) (length done + length front) (length old) new
        ≡ (done ++ (front ++ new)) ++ back
  replace_middle done front back =
      let n = length done + length front in
      let before : n ≡ length (done ++ front) = omega (arith, length-append done front) in
      let through : n + length old ≡ length ((done ++ front) ++ old) =
        omega (arith, before, length-append (done ++ front) old) in
      let assoc : done ++ (front ++ (old ++ back)) ≡ (done ++ front) ++ (old ++ back) =
        sym (append_assoc done front (old ++ back)) in
      let kept : take n (done ++ (front ++ (old ++ back))) ≡ done ++ front =
        ap (take n) assoc ∙ take-append_self n (done ++ front) (old ++ back) before in
      let left : drop (n + length old) (done ++ (front ++ (old ++ back))) ≡ back =
        ap (drop (n + length old)) (assoc ∙ sym (append_assoc (done ++ front) old back))
        ∙ drop-append_self (n + length old) ((done ++ front) ++ old) back through in
      rw (kept, left)
        (sym (append_assoc (done ++ front) new back)
          ∙ ap (λ t. t ++ back) (append_assoc done front new))

  find-append :
      (done rest : List ℕ) → find (done ++ rest) old (length done) ≡ find_in old rest (length done)
  unfolding find
  find-append done rest =
      let long : ltb (length (done ++ rest)) (length done) ≡ false =
        le→ltb _ _ (omega (arith, length-append done rest)) in
      rw (long, drop-append_self (length done) done rest refl) refl

  replace_loop-replaced :
      (fuel : ℕ) (done rest : List ℕ)
      → length rest < fuel
      → replace_loop fuel (done ++ rest) old new (length done)
        ≡ some (done ++ replaced old new 0 rest)
  unfolding replace_loop
  replace_loop-replaced zero done rest h = absurd (omega arith)
  replace_loop-replaced (suc fuel) done rest h = elim (find_in_cases rest (length done)) [
    | inl (no_match, same) ↦ rw (find-append done rest ∙ no_match, replace_loop, same) refl
    | inr (front, back, e, at, same) ↦
        let done' = done ++ (front ++ new) in
        let next : length done + length front + length new ≡ length done' =
          omega (arith, length-append done (front ++ new), length-append front new) in
        let shorter : length back < fuel =
          omega
            (arith, h, ap length e, length-append front (old ++ back), length-append old back) in
        let text : replace_at (done ++ rest) (length done + length front) (length old) new
            ≡ done' ++ back =
          ap (λ t. replace_at (done ++ t) (length done + length front) (length old) new) e
          ∙ replace_middle done front back in
        let whole : done' ++ replaced old new 0 back ≡ done ++ replaced old new 0 rest =
          append_assoc done (front ++ new) (replaced old new 0 back)
          ∙ ap (λ t. done ++ t) (append_assoc front new (replaced old new 0 back) ∙ sym same) in
        rw (find-append done rest ∙ at, replace_loop)
          (ap (λ t. replace_loop fuel t old new (length done + length front + length new)) text
            ∙ ap (replace_loop fuel (done' ++ back) old new) next
            ∙ replace_loop-replaced fuel done' back shorter
            ∙ ap some whole)
  ]

-- For a text to replace that is not empty, the loop ends with one round for each byte of the text and
-- one more, and gives the text in which, from left to right, every match is replaced, and what
-- is put in is not searched again.
pub replace-replaced :
    (fuel o : ℕ) (os new src : List ℕ)
    → length src < fuel
    → replace fuel src (o ∷ os) new ≡ some (replaced (o ∷ os) new 0 src)
replace-replaced fuel o os new src h = replace_loop-replaced o os new fuel [] src h

find_in_empty : (rest : List ℕ) (pos : ℕ) → find_in [] rest pos ≡ some pos
unfolding find_in
find_in_empty [] pos = refl
find_in_empty (y ∷ ys) pos = refl

find_empty : (pos : ℕ) (src : List ℕ) → pos ≤ length src → find src [] pos ≡ some pos
unfolding find
find_empty pos src h = rw (le→ltb (length src) pos h, find_in_empty (drop pos src) pos) refl

-- For an empty text to replace, the loop does not end in any number of rounds.
pub replace_loop-never :
    (fuel pos : ℕ) (new src : List ℕ) → pos ≤ length src → replace_loop fuel src [] new pos ≡ none
unfolding replace_loop
replace_loop-never zero pos new src h = refl
replace_loop-never (suc fuel) pos new src h =
    let here : find src [] pos ≡ some pos = find_empty pos src h in
    let longer : pos + length new ≤ length (replace_at src pos 0 new) = omega (
      arith,
      h,
      length-append (take pos src) (new ++ drop (pos + 0) src),
      length-take pos src,
      length-append new (drop (pos + 0) src),
    ) in
    rw (here, replace_loop)
      (replace_loop-never fuel (pos + length new) new (replace_at src pos 0 new) longer)
