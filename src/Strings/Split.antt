-- ===== src/Strings/Split.antt =====
-- common/string.hpp, `split`: the parts are the longest runs of other bytes than the separators.
use new_happy_server.Base.{
  ℕ, suc, ◌+◌, ◌-◌, ◌<◌, ◌≡◌, refl, sym, ap, ◌∙◌, ◌⊎◌, inl, inr, true, false, not, ◌&&◌, List, [],
  ◌∷◌, ◌++◌, append_assoc, append-nil, arith, Bool-cases, ◌==◌, ==_iff, if◌then◌else◌, length,
  length-append, take-append_self, drop-append_self, All,
}
use new_happy_server.Base.Slices.{slice}
use new_happy_server.Strings.{contains, split_loop, last_part, split}

abbrev pub emit : List ℕ → List (List ℕ)
emit [] = []
emit (x ∷ xs) = (x ∷ xs) ∷ []

-- The parts of a text, with the bytes that come before it in its first part.
abbrev pub pieces : List ℕ → List ℕ → List ℕ → List (List ℕ)
pieces sep part [] = emit part
pieces sep part (c ∷ cs) =
    let ends = emit part ++ pieces sep [] cs in
    let goes_on = pieces sep (part ++ (c ∷ [])) cs in if contains c sep then ends else goes_on

slice_part :
    (front part rest : List ℕ)
    → slice (length front) (length front + length part) (front ++ (part ++ rest)) ≡ part
slice_part front part rest =
    let n : length front + length part - length front ≡ length part = omega arith in
    rw (drop-append_self (length front) front (part ++ rest) refl, n)
      (take-append_self (length part) part rest refl)

-- A part has begun at `b`, or none has.
abbrev Begins : List ℕ → List ℕ → ℕ → List ℕ → Type 0
Begins src done b part =
    ((b ≡ length src) × (part ≡ []))
    ⊎ ((front : List ℕ) × (done ≡ front ++ part) × (b ≡ length front))

module _ (src sep : List ℕ) where
  part_slice :
      (done front part rest : List ℕ) (b i : ℕ)
      → src ≡ done ++ rest
      → i ≡ length done
      → done ≡ front ++ part
      → b ≡ length front
      → slice b i src ≡ part
  part_slice done front part rest b i e n d h =
      let end : i ≡ length front + length part = n ∙ ap length d ∙ length-append front part in
      let text : src ≡ front ++ (part ++ rest) =
        e ∙ ap (λ t. t ++ rest) d ∙ append_assoc front part rest in
      rw (h, end, text) (slice_part front part rest)

  at_end :
      (done part : List ℕ) (b : ℕ) (r : List (List ℕ))
      → src ≡ done
      → Begins src done b part
      → last_part src (b, r) ≡ r ++ emit part
  at_end done part b r e (inl (h, none_yet)) =
      rw ((==_iff b (length src)).1 h, none_yet) (sym (append-nil r))
  at_end done [] b r e (inr (front, d, h)) =
      let all : b ≡ length src =
        omega (arith, h, ap length e, ap length d, length-append front []) in
      rw ((==_iff b (length src)).1 all) (sym (append-nil r))
  at_end done (x ∷ xs) b r e (inr (front, d, h)) =
      let sizes = length-append front (x ∷ xs) in
      let some_left : (b == length src) ≡ false =
        ground (arith, h, ap length e, ap length d, sizes) in
      let part =
        part_slice done front (x ∷ xs) [] b (length src) (e ∙ sym (append-nil done)) (ap length e) d
          h in
      rw (some_left, part) refl

  before_end :
      (done rest part : List ℕ) (c b : ℕ)
      → src ≡ done ++ (c ∷ rest)
      → (front : List ℕ) → done ≡ front ++ part
      → b ≡ length front
      → (b == length src) ≡ false
  before_end done rest part c b e front d h =
      let sizes = length-append front part in
      ground (arith, h, ap length e, ap length d, sizes, length-append done (c ∷ rest))

  parts_then :
      (done rest part : List ℕ) (c b i : ℕ) (r : List (List ℕ))
      → src ≡ done ++ (c ∷ rest)
      → i ≡ length done
      → Begins src done b part
      → (if not (b == length src) && not (b == i) then r ++ (slice b i src ∷ []) else r)
        ≡ r ++ emit part
  parts_then done rest part c b i r e n (inl (h, none_yet)) =
      rw ((==_iff b (length src)).1 h, none_yet) (sym (append-nil r))
  parts_then done rest [] c b i r e n (inr (front, d, h)) =
      let here : b ≡ i = omega (arith, h, n, ap length d, length-append front []) in
      let inside = before_end done rest [] c b e front d h in
      rw (inside, (==_iff b i).1 here) (sym (append-nil r))
  parts_then done rest (x ∷ xs) c b i r e n (inr (front, d, h)) =
      let begun : (b == i) ≡ false =
        ground (arith, h, n, ap length d, length-append front (x ∷ xs)) in
      let inside = before_end done rest (x ∷ xs) c b e front d h in
      let part = part_slice done front (x ∷ xs) (c ∷ rest) b i e n d h in
      rw (inside, begun, part) refl

  still_begun :
      (done rest part : List ℕ) (c b i : ℕ)
      → src ≡ done ++ (c ∷ rest)
      → i ≡ length done
      → Begins src done b part
      → Begins src (done ++ (c ∷ [])) (if b == length src then i else b) (part ++ (c ∷ []))
  still_begun done rest part c b i e n (inl (h, none_yet)) =
      rw ((==_iff b (length src)).1 h, none_yet) (inr (done, refl, n))
  still_begun done rest part c b i e n (inr (front, d, h)) =
      rw (before_end done rest part c b e front d h)
        (inr (front, ap (λ t. t ++ (c ∷ [])) d ∙ append_assoc front part (c ∷ []), h))

  loop-pieces :
      (done rest part : List ℕ) (b i : ℕ) (r : List (List ℕ))
      → src ≡ done ++ rest
      → i ≡ length done
      → Begins src done b part
      → last_part src (split_loop src sep i rest b r) ≡ r ++ pieces sep part rest
  unfolding split_loop
  loop-pieces done [] part b i r e n begins = at_end done part b r (e ∙ append-nil done) begins
  loop-pieces done (c ∷ rest) part b i r e n begins =
      let done' = done ++ (c ∷ []) in
      let e' : src ≡ done' ++ rest = e ∙ sym (append_assoc done (c ∷ []) rest) in
      let n' : suc i ≡ length done' = omega (arith, n, length-append done (c ∷ [])) in
      let parts = if not (b == length src) && not (b == i) then r ++ (slice b i src ∷ []) else r in
      elim (Bool-cases (contains c sep)) [
        | inl separates ↦
            rw (separates, split_loop)
              (loop-pieces done' rest [] (length src) (suc i) parts e' n' (inl (refl, refl))
                ∙ ap (λ t. t ++ pieces sep [] rest) (parts_then done rest part c b i r e n begins)
                ∙ append_assoc r (emit part) (pieces sep [] rest))
        | inr other ↦
            rw (other, split_loop)
              (loop-pieces done' rest (part ++ (c ∷ [])) (if b == length src then i else b) (suc i)
                r e' n' (still_begun done rest part c b i e n begins))
      ]

-- `split` gives the longest runs of bytes that are not separators, in their order, and no empty part.
pub split-pieces : (src sep : List ℕ) → split src sep ≡ pieces sep [] src
unfolding split
split-pieces src sep = loop-pieces src sep [] src [] 0 0 [] refl refl (inr ([], refl, refl))

abbrev pub join : ℕ → List (List ℕ) → List ℕ
join s [] = []
join s (part ∷ []) = part
join s (part ∷ (next ∷ parts)) = part ++ (s ∷ join s (next ∷ parts))

-- A part that `split` can give back.
abbrev pub IsPart : ℕ → List ℕ → Type 0
IsPart s part = (0 < length part) × All (λ c. contains c (s ∷ []) ≡ false) part

module _ (s : ℕ) where
  pieces-run :
      (run part rest : List ℕ)
      → All (λ c. contains c (s ∷ []) ≡ false) run
      → pieces (s ∷ []) part (run ++ rest) ≡ pieces (s ∷ []) (part ++ run) rest
  pieces-run [] part rest h = ap (λ t. pieces (s ∷ []) t rest) (sym (append-nil part))
  pieces-run (c ∷ run) part rest (other, h) = rw other (
      pieces-run run (part ++ (c ∷ [])) rest h
      ∙ ap (λ t. pieces (s ∷ []) t rest) (append_assoc part (c ∷ []) run))

  emit_part : (part : List ℕ) → IsPart s part → emit part ≡ part ∷ []
  emit_part [] h = absurd (omega (arith, h.0))
  emit_part (x ∷ xs) h = refl

  pieces-join :
      (parts : List (List ℕ)) → All (IsPart s) parts → pieces (s ∷ []) [] (join s parts) ≡ parts
  pieces-join [] h = refl
  pieces-join (part ∷ []) (h, none_left) =
      ap (pieces (s ∷ []) []) (sym (append-nil part)) ∙ pieces-run part [] [] h.1 ∙ emit_part part h
  pieces-join (part ∷ (next ∷ parts)) (h, hs) =
      let separates : contains s (s ∷ []) ≡ true = rw ((==_iff s s).1 refl) refl in
      pieces-run part [] (s ∷ join s (next ∷ parts)) h.1
      ∙ rw (separates, emit_part part h) (ap (λ t. part ∷ t) (pieces-join (next ∷ parts) hs))

-- Parts that are not empty and hold no separator come back from `split` of their text with the
-- separator between them.
pub split-join :
    (s : ℕ) (parts : List (List ℕ)) → All (IsPart s) parts → split (join s parts) (s ∷ []) ≡ parts
split-join s parts h = split-pieces (join s parts) (s ∷ []) ∙ pieces-join s parts h
