-- ===== src/Lock/Threads.antt =====
-- Threads that take turns on a shared state, for common/rwlock.hpp and common/spinlock.hpp.
use new_happy_server.Base.{
  ℕ, zero, suc, ◌+◌, ◌≡◌, refl, ap, ◌⊎◌, inl, inr, Bool, List, [], ◌∷◌, ◌++◌, arith,
}

-- How many threads are at the places that `at` counts.
abbrev pub sum_of : {P : Type 0} → (P → ℕ) → List P → ℕ
sum_of at [] = 0
sum_of at (p ∷ ps) = at p + sum_of at ps

pub sum_of-append :
    {P : Type 0} (at : P → ℕ) (front : List P) (p : P) (back : List P)
    → sum_of at (front ++ (p ∷ back)) ≡ at p + (sum_of at front + sum_of at back)
sum_of-append at [] p back = omega arith
sum_of-append at (q ∷ front) p back = omega (arith, sum_of-append at front p back)

module _ {P S : Type 0} (step : Bool → P → S → P × S) where
  -- The thread `i` takes a step.
  unfoldable pub turn : ℕ → Bool → S → List P → S × List P
  turn i choice s [] = (s, [])
  turn zero choice s (p ∷ ps) = let (q, s') = step choice p s in (s', q ∷ ps)
  turn (suc i) choice s (p ∷ ps) = let (s', qs) = turn i choice s ps in (s', p ∷ qs)

  unfoldable pub run : List (ℕ × Bool) → S → List P → S × List P
  unfolding turn
  run [] s ps = (s, ps)
  run ((i, choice) ∷ schedule) s ps = let (s', qs) = turn i choice s ps in run schedule s' qs

  abbrev pub IsStepOf : Bool → S → List P → S × List P → Type 0
  IsStepOf choice s ps after =
      (front : List P) × (p : P) × (back : List P) × (ps ≡ front ++ (p ∷ back))
      × (after ≡ ((step choice p s).1, front ++ ((step choice p s).0 ∷ back)))

  -- A turn is the step of one thread, or there is no such thread.
  pub turn_cases :
      (i : ℕ) (choice : Bool) (s : S) (ps : List P)
      → (turn i choice s ps ≡ (s, ps)) ⊎ IsStepOf choice s ps (turn i choice s ps)
  unfolding turn
  turn_cases zero choice s [] = inl refl
  turn_cases (suc i) choice s [] = inl refl
  turn_cases zero choice s (p ∷ ps) = inr ([], p, ps, refl, refl)
  turn_cases (suc i) choice s (p ∷ ps) = elim (turn_cases i choice s ps) [
    | inl same ↦ inl (ap (λ t. (t.0, p ∷ t.1)) same)
    | inr (front, q, back, e, f) ↦
        inr (p ∷ front, q, back, ap (λ t. p ∷ t) e, ap (λ t. (t.0, p ∷ t.1)) f)
  ]

  -- What every step keeps holds after every schedule.
  pub run_keeps :
      (Holds : S × List P → Type 0)
      → ((i : ℕ) (choice : Bool) (s : S) (ps : List P) → Holds (s, ps) → Holds (turn i choice s ps))
      → (schedule : List (ℕ × Bool)) (s : S) (ps : List P) → Holds (s, ps)
      → Holds (run schedule s ps)
  unfolding run
  run_keeps Holds keeps [] s ps h = h
  run_keeps Holds keeps ((i, choice) ∷ schedule) s ps h =
      run_keeps Holds keeps schedule _ _ (keeps i choice s ps h)
