-- ===== src/Worker/Ids.antt =====
-- core/worker.cpp, `services_`: finding a service and erasing one, where no two have one id.
use new_happy_server.Base.{
  ℕ, suc, ◌≡◌, refl, ap, subst, inl, inr, false, none, some, List, [], ◌∷◌, ◌++◌, length, arith,
  Bool-cases, ◌==◌,
}
use new_happy_server.Worker.{Service, find_service, erase_service}

-- No two services have the same id.
abbrev pub Distinct : List Service → Type 0
Distinct [] = Unit {0}
Distinct (s ∷ ss) = (find_service s.id ss ≡ none) × Distinct ss

pub find-snoc :
    (i : ℕ) (ss : List Service) (new : Service)
    → find_service i ss ≡ none
    → (new.id == i) ≡ false
    → find_service i (ss ++ (new ∷ [])) ≡ none
unfolding find_service
find-snoc i [] new h differs = rw differs refl
find-snoc i (s ∷ ss) new h differs = elim (Bool-cases (s.id == i)) [
  | inl same ↦ ground arith
  | inr other ↦ rw other (find-snoc i ss new (rw other at h) differs)
]

pub first_differs :
    (i : ℕ) (s : Service) (ss : List Service)
    → find_service i (s ∷ ss) ≡ none
    → ((i == s.id) ≡ false) × (find_service i ss ≡ none)
unfolding find_service
first_differs i s ss h = elim (Bool-cases (s.id == i)) [
  | inl same ↦ ground arith
  | inr other ↦ (ground arith, rw other at h)
]

pub Distinct-snoc :
    (ss : List Service) (new : Service)
    → Distinct ss
    → find_service new.id ss ≡ none
    → Distinct (ss ++ (new ∷ []))
unfolding find_service
Distinct-snoc [] new d h = (refl, tt)
Distinct-snoc (s ∷ ss) new d h =
    let (differs, rest) = first_differs new.id s ss h in
    (find-snoc s.id ss new d.0 differs, Distinct-snoc ss new d.1 rest)

pub find-erase_other :
    (i j : ℕ) (ss : List Service)
    → find_service j ss ≡ none
    → find_service j (erase_service i ss) ≡ none
unfolding find_service erase_service
find-erase_other i j [] h = refl
find-erase_other i j (s ∷ ss) h = elim (Bool-cases (s.id == j)) [
  | inl same ↦ ground arith
  | inr other ↦
      let later = find-erase_other i j ss (rw other at h) in
      elim (Bool-cases (s.id == i)) [
        | inl gone ↦ rw gone later
        | inr kept ↦ rw kept (rw other later)
      ]
]

pub Distinct-erase : (i : ℕ) (ss : List Service) → Distinct ss → Distinct (erase_service i ss)
unfolding erase_service
Distinct-erase i [] d = tt
Distinct-erase i (s ∷ ss) d = elim (Bool-cases (s.id == i)) [
  | inl gone ↦ rw gone (Distinct-erase i ss d.1)
  | inr kept ↦ rw kept (find-erase_other i s.id ss d.0, Distinct-erase i ss d.1)
]

pub erase_absent : (i : ℕ) (ss : List Service) → find_service i ss ≡ none → erase_service i ss ≡ ss
unfolding find_service erase_service
erase_absent i [] h = refl
erase_absent i (s ∷ ss) h = elim (Bool-cases (s.id == i)) [
  | inl same ↦ ground arith
  | inr other ↦ rw other (ap (λ r. s ∷ r) (erase_absent i ss (rw other at h)))
]

pub length-erase :
    (i : ℕ) (ss : List Service) (s : Service)
    → Distinct ss
    → find_service i ss ≡ some s
    → length ss ≡ suc (length (erase_service i ss))
unfolding find_service erase_service
length-erase i [] s d h = ground arith
length-erase i (t ∷ ss) s d h = elim (Bool-cases (t.id == i)) [
  | inl found ↦
      let same : t.id ≡ i = ground arith in
      rw (found, erase_absent i ss (subst (λ j. find_service j ss ≡ none) same d.0)) refl
  | inr other ↦ rw other (ap suc (length-erase i ss s d.1 (rw other at h)))
]
