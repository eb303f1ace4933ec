-- ===== src/Timer/Times.antt =====
-- core/worker_timer.hpp, `on_timer`: a timer for a number of times.
use new_happy_server.Base.{
  ℕ, zero, suc, ◌+◌, ◌-◌, ◌%◌, ◌^◌, ◌<◌, ◌≡◌, refl, ap, subst, ◌∙◌, inl, inr, Bool, true, false,
  some, List, [], ◌∷◌, arith, Bool-cases, ◌==◌, if◌then◌else◌,
}
use new_happy_server.Timer.Table.{
  Context, Table, Timers, Handler, find_timer, put_timer, erase_timer, has_flag, removed, infinite,
  less_times, times_left, run_calls, on_timer,
}

pub find-put_timer :
    (i : ℕ) (c d : Context) (table : Table)
    → find_timer i table ≡ some d
    → find_timer i (put_timer i c table) ≡ some c
unfolding find_timer put_timer
find-put_timer i c d [] h = absurd (ground arith)
find-put_timer i c d ((j, e) ∷ table) h = elim (Bool-cases (j == i)) [
  | inl same ↦ rw (same, find_timer, same) refl
  | inr other ↦
      rw (other, find_timer, other)
        (find-put_timer i c d table
          (subst (λ b. (if b then some e else find_timer i table) ≡ some d) other h))
]

pub erase-put_timer :
    (i : ℕ) (c : Context) (table : Table)
    → erase_timer i (put_timer i c table) ≡ erase_timer i table
unfolding erase_timer put_timer
erase-put_timer i c [] = refl
erase-put_timer i c ((j, e) ∷ table) = elim (Bool-cases (j == i)) [
  | inl same ↦ rw (same, erase_timer, same) refl
  | inr other ↦ rw (other, erase_timer, other) (ap (λ t. (j, e) ∷ t) (erase-put_timer i c table))
]

-- A handler that calls nothing of the timers.
module _ {S : Type 0} (tell : ℕ → ℕ → Bool → S → S) (i duration serviceid : ℕ) where
  abbrev quiet : Handler S
  quiet j s last services = ([], tell j s last services)

  abbrev counted : ℕ → Context
  counted n = record { duration = duration; times = n; serviceid = serviceid }

  -- What `on_timer` answers, one call after the other.
  abbrev pub answers : ℕ → Timers S → List ℕ × Timers S
  answers zero st = ([], st)
  answers (suc n) st =
      let (d, after) = on_timer quiet i st in let (ds, end) = answers n after in (d ∷ ds, end)

  abbrev pub told : ℕ → S → S
  told zero services = services
  told (suc n) services = told n (tell i serviceid false services)

  abbrev pub all_but_last : ℕ → List ℕ
  all_but_last zero = 0 ∷ []
  all_but_last (suc n) = duration ∷ all_but_last n

  on_timer_again :
      (n : ℕ) (st : Timers S)
      → find_timer i st.timers ≡ some (counted (suc (suc n)))
      → suc (suc n) < 2 ^ 28
      → on_timer quiet i st ≡ (
        duration,
        record st {
          services = tell i serviceid false st.services;
          timers = put_timer i (counted (suc n)) st.timers;
        },
      )
  unfolding on_timer run_calls
  on_timer_again n st h small =
      let stays : has_flag removed (counted (suc (suc n))) ≡ false = ground arith in
      let ends : has_flag infinite (counted (suc (suc n))) ≡ false = ground arith in
      let less : (suc (suc n) + 2 ^ 32 - 1) % 2 ^ 32 ≡ suc n = omega arith in
      let left : times_left (counted (suc n)) ≡ true = ground arith in
      rw (h, on_timer, stays, h, ends, less, left) refl

  on_timer_last :
      (st : Timers S)
      → find_timer i st.timers ≡ some (counted 1)
      → on_timer quiet i st ≡ (
        0,
        record st {
          services = tell i serviceid true (tell i serviceid false st.services);
          timers = erase_timer i st.timers;
        },
      )
  unfolding on_timer run_calls
  on_timer_last st h =
      rw (h, on_timer, h)
        (ap
          (λ t. (
            0,
            record st {
              services = tell i serviceid true (tell i serviceid false st.services);
              timers = t;
            },
          ))
          (erase-put_timer i (less_times (counted 1)) st.timers))

  -- A timer of `n + 1` times, fewer than 2 ^ 28, whose handler calls nothing of the timers, gives its
  -- duration back `n` times and then 0: the handler is told `n + 1` times and once more that this was
  -- the last; then the timer is erased, and the other fields are as they were.
  pub answers-counted :
      (n : ℕ) (st : Timers S)
      → find_timer i st.timers ≡ some (counted (suc n))
      → suc n < 2 ^ 28
      → answers (suc n) st ≡ (
        all_but_last n,
        record st {
          services = tell i serviceid true (told (suc n) st.services);
          timers = erase_timer i st.timers;
        },
      )
  answers-counted zero st h small = rw (on_timer_last st h) refl
  answers-counted (suc n) st h small =
      let context = counted (suc n) in
      let next = record st {
        services = tell i serviceid false st.services;
        timers = put_timer i context st.timers;
      } in
      let rest =
        answers-counted n next (find-put_timer i context (counted (suc (suc n))) st.timers h)
          (omega arith) in
      ap (λ x. (x.0 ∷ (answers (suc n) x.1).0, (answers (suc n) x.1).1))
        (on_timer_again n st h small)
      ∙ ap (λ y. (duration ∷ y.0, y.1)) rest
      ∙ ap
          (λ t. (
            all_but_last (suc n),
            record st {
              services = tell i serviceid true (told (suc (suc n)) st.services);
              timers = t;
            },
          ))
          (erase-put_timer i context st.timers)
