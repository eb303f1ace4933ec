-- ===== src/Logger/Alive.antt =====
-- common/logger.hpp, `write`: the thread does not leave its loop before `wait`.
use new_happy_server.Base.{
  ℕ, ◌≡◌, refl, sym, ap, subst, ◌∙◌, ◌⊎◌, inl, inr, Bool, true, false, some, List, [], ◌∷◌,
  if◌then◌else◌, Bool-cases, arith,
}
use new_happy_server.Logger.Pipeline.{
  Position, starts, tests, counts, swaps, ended, writes, Logger, new_logger, init_logger, logstring,
  wait, step_from, write_step, Step, inits, logs, sets, waits, runs, Steps, here, then_, is_init,
  is_exited, is_above,
}
use new_happy_server.Logger.Order.{some_logger, swap_cases}
use new_happy_server.Worker.{State, init, ready, exited}

-- Behind the first part of the loop's condition.
abbrev pub is_late : Position → Bool
is_late counts = true
is_late ended = true
is_late _ = false

-- Before `wait`, the thread waits for `init` or is in the loop.
abbrev Fits : State → Position → Type 0
Fits s p = (s ≡ exited) ⊎ ((s ≡ ready) × (is_late p ≡ false)) ⊎ ((s ≡ init) × (p ≡ starts))

abbrev IsAlive : Logger → Type 0
IsAlive l = Fits l.state_ l.thread_

same_state : (l m : Logger) (p : Position) → step_from p l ≡ some m → m.state_ ≡ l.state_
unfolding step_from
same_state l m starts h = elim (Bool-cases (is_init l.state_)) [
  | inl waiting ↦ ap (λ k. k.state_) (sym (some_logger l m (rw waiting at h)))
  | inr going ↦ sym (ap (λ k. k.state_) (some_logger _ m (rw going at h)))
]
same_state l m tests h = sym (ap (λ k. k.state_) (some_logger _ m h))
same_state l m counts h = sym (ap (λ k. k.state_) (some_logger _ m h))
same_state l m swaps h = elim (swap_cases l.log_queue_) [
  | inl (lines, e) ↦ sym (ap (λ k. k.state_) (some_logger _ m (rw (e, step_from) at h)))
  | inr (inl (empty, leaves, e)) ↦
      sym (ap (λ k. k.state_) (some_logger _ m (rw (e, step_from) at h)))
  | inr (inr (empty, stays, e)) ↦ ground (arith, rw (e, step_from) at h)
]
same_state l m (writes []) h = sym (ap (λ k. k.state_) (some_logger _ m h))
same_state l m (writes (line ∷ rest)) h = sym (ap (λ k. k.state_) (some_logger _ m h))
same_state l m ended h = ground arith

-- While the logger is ready, a step of the loop stays in the loop.
stays_early :
    (l m : Logger) (p : Position)
    → l.state_ ≡ ready
    → is_late p ≡ false
    → step_from p l ≡ some m
    → is_late m.thread_ ≡ false
unfolding step_from
stays_early l m starts r early h =
    ap (λ k. is_late k.thread_) (sym (some_logger _ m (rw (r, step_from) at h)))
stays_early l m tests r early h =
    ap (λ k. is_late k.thread_) (sym (some_logger _ m (rw (r, step_from) at h)))
stays_early l m counts r early h = ground arith
stays_early l m swaps r early h = elim (swap_cases l.log_queue_) [
  | inl (lines, e) ↦ sym (ap (λ k. is_late k.thread_) (some_logger _ m (rw (e, step_from) at h)))
  | inr (inl (empty, leaves, e)) ↦
      sym (ap (λ k. is_late k.thread_) (some_logger _ m (rw (e, step_from) at h)))
  | inr (inr (empty, stays, e)) ↦ ground (arith, rw (e, step_from) at h)
]
stays_early l m (writes []) r early h = sym (ap (λ k. is_late k.thread_) (some_logger _ m h))
stays_early l m (writes (line ∷ rest)) r early h =
    sym (ap (λ k. is_late k.thread_) (some_logger _ m h))
stays_early l m ended r early h = ground arith

keeps_waiting : (l : Logger) → l.state_ ≡ init → step_from starts l ≡ some l
unfolding step_from
keeps_waiting l waiting =
    ap (λ s. some (if is_init s then l else record l { thread_ = tests })) waiting

run-IsAlive : (l m : Logger) → write_step l ≡ some m → IsAlive l → IsAlive m
unfolding step_from
run-IsAlive l m h (inl over) = inl (same_state l m l.thread_ h ∙ over)
run-IsAlive l m h (inr (inl (r, early))) =
    inr (inl (same_state l m l.thread_ h ∙ r, stays_early l m l.thread_ r early h))
run-IsAlive l m h (inr (inr (waiting, at_start))) =
    let here : step_from starts l ≡ some m = subst (λ p. step_from p l ≡ some m) at_start h in
    subst IsAlive (some_logger l m (sym (keeps_waiting l waiting) ∙ here))
      (inr (inr (waiting, at_start)))

early : (s : State) (p : Position) → is_exited s ≡ false → Fits s p → is_late p ≡ false
early s p going (inl over) = ground (arith, rw over at going)
early s p going (inr (inl (r, is_early))) = is_early
early s p going (inr (inr (waiting, at_start))) = ap is_late at_start

Step-IsAlive : (more : List (List ℕ)) (l m : Logger) → Step more l m → IsAlive l → IsAlive m
unfolding init_logger wait logstring
Step-IsAlive more l m (inits _ going) a = inr (inl (refl, early l.state_ l.thread_ going a))
Step-IsAlive more l m (logs level line _) a = elim (Bool-cases (is_above level l)) [
  | inl above ↦ rw above a
  | inr below ↦ rw below a
]
Step-IsAlive more l m (sets level _) a = a
Step-IsAlive more l m (waits _) a = elim (Bool-cases (is_exited l.state_)) [
  | inl over ↦ rw over a
  | inr going ↦ rw going (inl refl)
]
Step-IsAlive more l m (runs _ _ h) a = run-IsAlive l m h a

Steps-IsAlive : (lines : List (List ℕ)) (l m : Logger) → Steps lines l m → IsAlive l → IsAlive m
Steps-IsAlive lines l m (here _) a = a
Steps-IsAlive lines l m (then_ before more _ k _ path step) a =
    Step-IsAlive more k m step (Steps-IsAlive before l k path a)

-- A thread that is reached before `wait` is not behind the first part of the loop's condition.
pub reached_early :
    (lines : List (List ℕ)) (l : Logger)
    → Steps lines new_logger l
    → is_exited l.state_ ≡ false
    → is_late l.thread_ ≡ false
reached_early lines l path going =
    early l.state_ l.thread_ going (Steps-IsAlive lines new_logger l path (inr (inr (refl, refl))))
