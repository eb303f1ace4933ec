-- ===== src/Logger/Order.antt =====
-- common/logger.hpp: the lines are written in the order in which they were pushed, each of them once.
use new_happy_server.Base.{
  ℕ, ◌≡◌, refl, sym, ap, subst, ◌∙◌, ◌⊎◌, inl, inr, true, false, none, some, List, [], ◌∷◌, ◌++◌,
  append-nil, append_assoc, ◌==◌, Bool-cases, arith,
}
use new_happy_server.Logger.Pipeline.{
  Position, starts, tests, counts, swaps, ended, writes, Logger, new_logger, is_above, init_logger,
  logstring, wait, step_from, Step, inits, logs, sets, waits, runs, Steps, here, then_, is_init,
  is_ready, is_exited,
}
use new_happy_server.Queue.{Queue, push_back, size, swap}
use new_happy_server.Worker.{is_empty}

-- The lines that the thread has taken and not yet written.
abbrev pub taken : Position → List (List ℕ)
taken (writes lines) = lines
taken _ = []

-- What is written, what is taken, and what waits.
abbrev pub all_lines : Logger → List (List ℕ)
all_lines l = l.written ++ (taken l.thread_ ++ l.log_queue_.container)

pub some_logger : (l m : Logger) → some l ≡ some m → l ≡ m
some_logger l m h = ground arith

empty_container : (xs : List (List ℕ)) → is_empty xs ≡ true → xs ≡ []
empty_container [] h = refl
empty_container (x ∷ xs) h = ground arith

-- What `swap` with an empty list comes to.
pub swap_cases :
    (q : Queue (List ℕ))
    → ((is_empty q.container ≡ false)
        × (swap [] q ≡ some (record q { container = [] }, q.container)))
      ⊎ ((q.container ≡ [])
          × (q.exit_ ≡ true)
          × (swap [] q ≡ some (record q { container = [] }, [])))
      ⊎ ((q.container ≡ []) × (q.exit_ ≡ false) × (swap [] q ≡ none))
unfolding swap
swap_cases q = elim (Bool-cases (is_empty q.container)) [
  | inl empty ↦ elim (Bool-cases q.exit_) [
    | inl leaves ↦ inr (inl (empty_container q.container empty, leaves, rw (empty, leaves) refl))
    | inr stays ↦ inr (inr (empty_container q.container empty, stays, rw (empty, stays) refl))
  ]
  | inr lines ↦ inl (lines, rw lines refl)
]

swap-all_lines :
    (l m : Logger) → l.thread_ ≡ swaps → step_from swaps l ≡ some m → all_lines m ≡ all_lines l
unfolding step_from
swap-all_lines l m at_swap h = elim (swap_cases l.log_queue_) [
  | inl (lines, e) ↦
      subst (λ k. all_lines k ≡ all_lines l) (some_logger _ m (rw (e, step_from) at h))
        (rw (at_swap, append-nil l.log_queue_.container) refl)
  | inr (inl (empty, leaves, e)) ↦
      subst (λ k. all_lines k ≡ all_lines l) (some_logger _ m (rw (e, step_from) at h))
        (rw (at_swap, empty) refl)
  | inr (inr (empty, stays, e)) ↦ ground (arith, rw (e, step_from) at h)
]

step-all_lines :
    (p : Position) (l m : Logger)
    → l.thread_ ≡ p
    → step_from p l ≡ some m
    → all_lines m ≡ all_lines l
unfolding step_from
step-all_lines starts l m e h = elim (Bool-cases (is_init l.state_)) [
  | inl waiting ↦ ap all_lines (sym (some_logger l m (rw waiting at h)))
  | inr going ↦ subst (λ k. all_lines k ≡ all_lines l) (some_logger _ m (rw going at h)) (rw e refl)
]
step-all_lines tests l m e h = elim (Bool-cases (is_ready l.state_)) [
  | inl ready ↦ subst (λ k. all_lines k ≡ all_lines l) (some_logger _ m (rw ready at h)) (rw e refl)
  | inr over ↦ subst (λ k. all_lines k ≡ all_lines l) (some_logger _ m (rw over at h)) (rw e refl)
]
step-all_lines counts l m e h = elim (Bool-cases (size l.log_queue_ == 0)) [
  | inl empty ↦ subst (λ k. all_lines k ≡ all_lines l) (some_logger _ m (rw empty at h)) (rw e refl)
  | inr more ↦ subst (λ k. all_lines k ≡ all_lines l) (some_logger _ m (rw more at h)) (rw e refl)
]
step-all_lines swaps l m e h = swap-all_lines l m e h
step-all_lines (writes []) l m e h =
    subst (λ k. all_lines k ≡ all_lines l) (some_logger _ m h) (rw e refl)
step-all_lines (writes (line ∷ rest)) l m e h =
    subst (λ k. all_lines k ≡ all_lines l) (some_logger _ m h)
      (rw e (append_assoc l.written (line ∷ []) (rest ++ l.log_queue_.container)))
step-all_lines ended l m e h = ground arith

pushed-all_lines :
    (written taken_lines container : List (List ℕ)) (line : List ℕ)
    → written ++ (taken_lines ++ (container ++ (line ∷ [])))
      ≡ (written ++ (taken_lines ++ container)) ++ (line ∷ [])
pushed-all_lines written taken_lines container line =
    ap (λ t. written ++ t) (sym (append_assoc taken_lines container (line ∷ [])))
    ∙ sym (append_assoc written (taken_lines ++ container) (line ∷ []))

Step-all_lines :
    (more : List (List ℕ)) (l m : Logger) → Step more l m → all_lines m ≡ all_lines l ++ more
unfolding init_logger wait logstring push_back
Step-all_lines more l m (inits _ _) = sym (append-nil (all_lines l))
Step-all_lines more l m (logs level line _) = elim (Bool-cases (is_above level l)) [
  | inl above ↦ rw above (sym (append-nil (all_lines l)))
  | inr below ↦ rw below (pushed-all_lines l.written (taken l.thread_) l.log_queue_.container line)
]
Step-all_lines more l m (sets level _) = sym (append-nil (all_lines l))
Step-all_lines more l m (waits _) = elim (Bool-cases (is_exited l.state_)) [
  | inl over ↦ rw over (sym (append-nil (all_lines l)))
  | inr going ↦ rw going (sym (append-nil (all_lines l)))
]
Step-all_lines more l m (runs _ _ h) =
    step-all_lines l.thread_ l m refl h ∙ sym (append-nil (all_lines l))

Steps-all_lines :
    (more : List (List ℕ)) (l m : Logger) → Steps more l m → all_lines m ≡ all_lines l ++ more
Steps-all_lines more l m (here _) = sym (append-nil (all_lines l))
Steps-all_lines more l m (then_ before last _ k _ path step) =
    Step-all_lines last k m step
    ∙ ap (λ t. t ++ last) (Steps-all_lines before l k path)
    ∙ append_assoc (all_lines l) before last

-- In every state that a new logger reaches, whatever the threads do and in whatever order: the lines
-- written, those that the thread has taken and those that wait are together exactly the lines pushed,
-- in the order of the pushes.
pub reached-all_lines :
    (lines : List (List ℕ)) (l : Logger) → Steps lines new_logger l → all_lines l ≡ lines
reached-all_lines lines l path = Steps-all_lines lines new_logger l path
