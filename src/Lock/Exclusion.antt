-- ===== src/Lock/Exclusion.antt =====
-- common/rwlock.hpp: the threads that want to write exclude each other, whatever the loads give.
use new_happy_server.Base.{
  ℕ, zero, suc, ◌+◌, ◌≤◌, ◌≡◌, refl, sym, subst, ◌∙◌, inl, inr, Bool, true, false, List, [], ◌∷◌,
  arith, Bool-cases, ◌==◌,
}
use new_happy_server.Lock.{
  Rwlock, new_rwlock, Place, idle, loads, adds, counted, backs, shares, exchanges, drains, owns,
  lock_step,
}
use new_happy_server.Lock.Threads.{sum_of, sum_of-append, turn, run, turn_cases, run_keeps}

-- The threads that `read_` counts.
abbrev pub is_counted : Place → ℕ
is_counted counted = 1
is_counted backs = 1
is_counted shares = 1
is_counted _ = 0

-- The threads that have set `write_`.
abbrev pub has_set : Place → ℕ
has_set drains = 1
has_set owns = 1
has_set _ = 0

abbrev pub bit : Bool → ℕ
bit true = 1
bit false = 0

pub bit-le : (b : Bool) → bit b ≤ 1
bit-le true = omega arith
bit-le false = omega arith

set_bit : (b : Bool) (n : ℕ) → bit b ≡ n → b ≡ (n == 1)
set_bit true n h = ground (arith, h)
set_bit false n h = ground (arith, h)

-- `read_` and `write_` count their threads.
abbrev IsLocked : Rwlock × List Place → Type 0
IsLocked (s, ps) = (s.read_ ≡ sum_of is_counted ps) × (bit s.write_ ≡ sum_of has_set ps)

step_keeps :
    (choice : Bool) (p : Place) (s : Rwlock) (c h : ℕ)
    → s.read_ ≡ is_counted p + c
    → bit s.write_ ≡ has_set p + h
    → let (q, t) = lock_step choice p s in
      (t.read_ ≡ is_counted q + c) × (bit t.write_ ≡ has_set q + h)
unfolding lock_step
step_keeps true idle s c h a b = (a, b)
step_keeps false idle s c h a b = (a, b)
step_keeps true loads s c h a b = (a, b)
step_keeps false loads s c h a b = (a, b)
step_keeps choice adds s c h a b = (omega (arith, a), b)
step_keeps true counted s c h a b = (a, b)
step_keeps false counted s c h a b = (a, b)
step_keeps choice backs s c h a b = (omega (arith, a), b)
step_keeps choice shares s c h a b = (omega (arith, a), b)
step_keeps choice exchanges s c h a b = elim (Bool-cases s.write_) [
  | inl set ↦ rw set (a, rw set at b)
  | inr unset ↦ let none_set = rw unset at b in rw unset (a, omega (arith, none_set))
]
step_keeps true drains s c h a b = (a, b)
step_keeps false drains s c h a b = (a, b)
step_keeps choice owns s c h a b = (a, omega (arith, b, bit-le s.write_))

turn_keeps :
    (i : ℕ) (choice : Bool) (s : Rwlock) (ps : List Place)
    → IsLocked (s, ps)
    → IsLocked (turn lock_step i choice s ps)
turn_keeps i choice s ps held = elim (turn_cases lock_step i choice s ps) [
  | inl same ↦ subst IsLocked (sym same) held
  | inr (front, p, back, e, f) ↦
      let (a, b) = subst (λ qs. IsLocked (s, qs)) e held in
      let sum = λ (at : Place → ℕ). sum_of at front + sum_of at back in
      let (a', b') =
        step_keeps choice p s (sum is_counted) (sum has_set)
          (a ∙ sum_of-append is_counted front p back) (b ∙ sum_of-append has_set front p back) in
      let q = (lock_step choice p s).0 in
      subst IsLocked (sym f) (
        a' ∙ sym (sum_of-append is_counted front q back),
        b' ∙ sym (sum_of-append has_set front q back),
      )
]

abbrev pub threads_at : {P : Type 0} → P → ℕ → List P
threads_at p zero = []
threads_at p (suc n) = p ∷ threads_at p n

pub none_at : {P : Type 0} (at : P → ℕ) (p : P) (n : ℕ) → at p ≡ 0 → sum_of at (threads_at p n) ≡ 0
none_at at p zero h = refl
none_at at p (suc n) h = omega (arith, h, none_at at p n h)

-- After every sequence of the threads' steps from a new lock and idle threads, whatever the loads
-- give, at most one thread has set `write_` in `lock` and not yet let the lock go, and `write_` is set
-- exactly if there is one; `read_` is the number of threads that share the lock or are about to look at `write_` again or to go back.
pub rwlock-one_writer :
    (threads : ℕ) (schedule : List (ℕ × Bool))
    → let (s, ps) = run lock_step schedule new_rwlock (threads_at idle threads) in
      (sum_of has_set ps ≤ 1)
      × (s.write_ ≡ (sum_of has_set ps == 1))
      × (s.read_ ≡ sum_of is_counted ps)
rwlock-one_writer threads schedule =
    let start = threads_at idle threads in
    let (s, ps) = run lock_step schedule new_rwlock start in
    let (counts, sets) =
      run_keeps lock_step IsLocked turn_keeps schedule new_rwlock start
        (sym (none_at is_counted idle threads refl), sym (none_at has_set idle threads refl)) in
    (omega (arith, bit-le s.write_, sets), set_bit s.write_ (sum_of has_set ps) sets, counts)
