-- ===== src/Logger/Drain.antt =====
-- common/logger.hpp, `wait`: the thread ends by itself, with every line written.
use new_happy_server.Base.{
  ℕ, ◌≡◌, refl, sym, subst, true, false, some, List, [], ◌∷◌, ◌++◌, length, append-nil,
  append_assoc, ◌==◌, arith,
}
use new_happy_server.Logger.Pipeline.{
  Position, starts, tests, counts, swaps, ended, writes, Logger, new_logger, wait, step_from,
  write_step, Steps, is_exited,
}
use new_happy_server.Logger.Order.{reached-all_lines, taken}
use new_happy_server.Logger.Alive.{is_late, reached_early}
use new_happy_server.Queue.{swap}
use new_happy_server.Worker.{exited}

-- Steps of the thread alone.
pub data Runs : Logger → Logger → Type 0 where
  stays : (l : Logger) → Runs l l
  goes : (l m n : Logger) → write_step l ≡ some m → Runs m n → Runs l n

-- The thread ends, and what it leaves written.
abbrev pub EndsWith : Logger → List (List ℕ) → Type 0
EndsWith l lines = (m : Logger) × Runs l m × (m.thread_ ≡ ended) × (m.written ≡ lines)

first_step :
    (l m : Logger) (lines : List (List ℕ))
    → write_step l ≡ some m
    → EndsWith m lines
    → EndsWith l lines
first_step l m lines h (n, path, at_end, written) = (n, goes l m n h path, at_end, written)

-- A logger after `wait`, at a position.
abbrev closed : Position → List (List ℕ) → List (List ℕ) → Logger → Logger
closed p container written l = record l {
  state_ = exited;
  log_queue_ = record { container = container; exit_ = true };
  thread_ = p;
  written = written;
}

module _ (l : Logger) where
  empty-EndsWith : (written : List (List ℕ)) → EndsWith (closed tests [] written l) written
  unfolding step_from
  empty-EndsWith written = first_step _ (closed counts [] written l) written refl (
      first_step _ (closed ended [] written l) written refl
        (closed ended [] written l, stays _, refl, refl))

  -- From the lines that are taken to the next test.
  writes-EndsWith :
      (lines container written result : List (List ℕ))
      → EndsWith (closed tests container (written ++ lines) l) result
      → EndsWith (closed (writes lines) container written l) result
  unfolding step_from
  writes-EndsWith [] container written result h =
      first_step _ (closed tests container written l) result refl
        (subst (λ w. EndsWith (closed tests container w l) result) (append-nil written) h)
  writes-EndsWith (line ∷ rest) container written result h =
      first_step _ (closed (writes rest) container (written ++ (line ∷ [])) l) result refl (
        writes-EndsWith rest container (written ++ (line ∷ [])) result (
          subst (λ w. EndsWith (closed tests container w l) result)
            (sym (append_assoc written (line ∷ []) rest)) h))

  swaps-EndsWith :
      (container written : List (List ℕ))
      → EndsWith (closed swaps container written l) (written ++ container)
  unfolding step_from swap
  swaps-EndsWith [] written =
      first_step _ (closed (writes []) [] written l) (written ++ []) refl
        (writes-EndsWith [] [] written (written ++ []) (empty-EndsWith (written ++ [])))
  swaps-EndsWith (line ∷ rest) written =
      first_step _ (closed (writes (line ∷ rest)) [] written l) (written ++ (line ∷ rest)) refl (
        writes-EndsWith (line ∷ rest) [] written (written ++ (line ∷ rest))
          (empty-EndsWith (written ++ (line ∷ rest))))

  counts-EndsWith :
      (container written : List (List ℕ))
      → EndsWith (closed counts container written l) (written ++ container)
  unfolding step_from
  counts-EndsWith [] written =
      first_step _ (closed ended [] written l) (written ++ []) refl
        (closed ended [] written l, stays _, refl, sym (append-nil written))
  counts-EndsWith (line ∷ rest) written =
      let some_line : (length (line ∷ rest) == 0) ≡ false = ground arith in
      first_step _ (closed swaps (line ∷ rest) written l) (written ++ (line ∷ rest))
        (rw (some_line, step_from) refl) (swaps-EndsWith (line ∷ rest) written)

  tests-EndsWith :
      (container written : List (List ℕ))
      → EndsWith (closed tests container written l) (written ++ container)
  unfolding step_from
  tests-EndsWith container written =
      first_step _ (closed counts container written l) (written ++ container) refl
        (counts-EndsWith container written)

  starts-EndsWith :
      (container written : List (List ℕ))
      → EndsWith (closed starts container written l) (written ++ container)
  unfolding step_from
  starts-EndsWith container written =
      first_step _ (closed tests container written l) (written ++ container) refl
        (tests-EndsWith container written)

  closed-EndsWith :
      (p : Position) (container written : List (List ℕ))
      → is_late p ≡ false
      → EndsWith (closed p container written l) (written ++ (taken p ++ container))
  closed-EndsWith starts container written early = starts-EndsWith container written
  closed-EndsWith tests container written early = tests-EndsWith container written
  closed-EndsWith counts container written early = ground arith
  closed-EndsWith swaps container written early = swaps-EndsWith container written
  closed-EndsWith (writes lines) container written early =
      writes-EndsWith lines container written (written ++ (lines ++ container)) (
        subst (EndsWith (closed tests container (written ++ lines) l))
          (append_assoc written lines container) (tests-EndsWith container (written ++ lines)))
  closed-EndsWith ended container written early = ground arith

-- Whatever the threads have done before `wait` is called, and in whatever order: if nothing more is
-- logged, the steps of the logger's thread end, and then every line that was pushed is written, in the
-- order of the pushes and each of them once.
pub wait-EndsWith :
    (lines : List (List ℕ)) (l : Logger)
    → Steps lines new_logger l
    → is_exited l.state_ ≡ false
    → EndsWith (wait l) lines
unfolding wait
wait-EndsWith lines l path going = rw going (
    subst (EndsWith _) (reached-all_lines lines l path) (
      closed-EndsWith l l.thread_ l.log_queue_.container l.written
        (reached_early lines l path going)))
