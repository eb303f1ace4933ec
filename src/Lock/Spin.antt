-- ===== src/Lock/Spin.antt =====
-- common/spinlock.hpp: at most one thread is inside.
use new_happy_server.Base.{
  ℕ, ◌+◌, ◌≤◌, ◌≡◌, refl, sym, subst, ◌∙◌, inl, inr, Bool, true, false, List, arith,
}
use new_happy_server.Lock.{SpinPlace, outside, spins, inside, spin_step}
use new_happy_server.Lock.Threads.{sum_of, sum_of-append, turn, run, turn_cases, run_keeps}
use new_happy_server.Lock.Exclusion.{bit, bit-le, threads_at, none_at}

abbrev pub is_inside : SpinPlace → ℕ
is_inside inside = 1
is_inside _ = 0

abbrev IsHeld : Bool × List SpinPlace → Type 0
IsHeld (flag, ps) = bit flag ≡ sum_of is_inside ps

step_keeps :
    (enters : Bool) (p : SpinPlace) (flag : Bool) (n : ℕ)
    → bit flag ≡ is_inside p + n
    → let (q, after) = spin_step enters p flag in bit after ≡ is_inside q + n
unfolding spin_step
step_keeps true outside flag n h = h
step_keeps false outside flag n h = h
step_keeps enters spins true n h = h
step_keeps enters spins false n h = omega (arith, h)
step_keeps enters inside flag n h = omega (arith, h, bit-le flag)

turn_keeps :
    (i : ℕ) (enters flag : Bool) (ps : List SpinPlace)
    → IsHeld (flag, ps)
    → IsHeld (turn spin_step i enters flag ps)
turn_keeps i enters flag ps held = elim (turn_cases spin_step i enters flag ps) [
  | inl same ↦ subst IsHeld (sym same) held
  | inr (front, p, back, e, f) ↦
      let before = subst (λ qs. IsHeld (flag, qs)) e held ∙ sum_of-append is_inside front p back in
      let after =
        step_keeps enters p flag (sum_of is_inside front + sum_of is_inside back) before in
      subst IsHeld (sym f)
        (after ∙ sym (sum_of-append is_inside front (spin_step enters p flag).0 back))
]

-- After every sequence of the threads' steps from a clear flag and threads outside, at most one
-- thread is inside, and the flag tells whether one is.
pub spin_lock-excludes :
    (threads : ℕ) (schedule : List (ℕ × Bool))
    → let (flag, ps) = run spin_step schedule false (threads_at outside threads) in
      (sum_of is_inside ps ≤ 1) × (bit flag ≡ sum_of is_inside ps)
spin_lock-excludes threads schedule =
    let start = threads_at outside threads in
    let (flag, ps) = run spin_step schedule false start in
    let held =
      run_keeps spin_step IsHeld turn_keeps schedule false start
        (sym (none_at is_inside outside threads refl)) in
    (omega (arith, held, bit-le flag), held)
