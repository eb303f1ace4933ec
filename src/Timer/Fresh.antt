-- ===== src/Timer/Fresh.antt =====
-- core/worker_timer.hpp, `repeat`: the loop that looks for an id ends at one that no timer has.
use new_happy_server.Base.{
  ℕ, zero, suc, ◌+◌, ◌%◌, ◌^◌, ◌≤◌, ◌<◌, ◌≡◌, refl, ap, subst, ◌⊎◌, inl, inr, true, false, ◌||◌,
  none, some, [], ◌∷◌, arith, Bool-cases, Option-cases, leb, ◌==◌, ==_iff, if◌then◌else◌, length,
}
use new_happy_server.Timer.Table.{
  Context, Table, Timers, find_timer, emplace, free_id, is_some, create_timerid, repeat,
  at_least_precision, times_or_infinite, max_timer_num,
}

-- The timers whose id is `k` or more.
abbrev at_or_above : ℕ → Table → ℕ
at_or_above k [] = 0
at_or_above k ((j, c) ∷ table) = if leb k j then suc (at_or_above k table) else at_or_above k table

at_or_above-le-length : (k : ℕ) (table : Table) → at_or_above k table ≤ length table
at_or_above-le-length k [] = omega arith
at_or_above-le-length k ((j, c) ∷ table) = let rest = at_or_above-le-length k table in ground arith

fewer_above : (k : ℕ) (table : Table) → at_or_above (k + 1) table ≤ at_or_above k table
fewer_above k [] = omega arith
fewer_above k ((j, c) ∷ table) = let rest = fewer_above k table in ground arith

fewer_found :
    (k : ℕ) (table : Table)
    → is_some (find_timer k table) ≡ true
    → at_or_above (k + 1) table < at_or_above k table
unfolding find_timer
fewer_found k [] h = absurd (ground arith)
fewer_found k ((j, c) ∷ table) h = elim (Bool-cases (j == k)) [
  | inl same ↦ let rest = fewer_above k table in ground (arith, same, rest)
  | inr other ↦
      let rest =
        fewer_found k table
          (subst (λ b. is_some (if b then some c else find_timer k table) ≡ true) other h) in
      ground (arith, other, rest)
]

free_id_lem :
    (fuel k : ℕ) (table : Table)
    → at_or_above k table < fuel
    → k + fuel ≤ 2 ^ 32
    → (find_timer (free_id fuel k table) table ≡ none) × (k ≤ free_id fuel k table)
unfolding free_id
free_id_lem zero k table h fits = absurd (omega arith)
free_id_lem (suc fuel) k table h fits = elim (Option-cases (find_timer k table)) [
  | inl free ↦ rw free (free, omega arith)
  | inr (c, taken) ↦
      let fewer = fewer_found k table (ap is_some taken) in
      let rest = free_id_lem fuel (k + 1) table (omega (arith, fewer, h)) (omega arith) in
      let same : (k + 1) % 2 ^ 32 ≡ k + 1 = omega (arith, fits, fewer, h) in
      rw (taken, same) (rest.0, omega (arith, rest.1))
]

find_other :
    (i j : ℕ) (c : Context) (table : Table)
    → (i == j) ≡ false
    → find_timer j (emplace i c table) ≡ find_timer j table
unfolding emplace find_timer
find_other i j c table other = elim (Bool-cases (is_some (find_timer i table))) [
  | inl taken ↦ rw taken refl
  | inr free ↦ rw (free, other) refl
]

find_new :
    (i : ℕ) (c : Context) (table : Table)
    → find_timer i table ≡ none
    → find_timer i (emplace i c table) ≡ some c
unfolding emplace find_timer
find_new i c table free = rw (free, (==_iff i i).1 refl) refl

first_id :
    (uuid : ℕ)
    → let first = if (uuid == 0) || (uuid == max_timer_num) then 1 else uuid in
      (0 < first) × (first ≤ uuid + 1)
first_id uuid = elim (Bool-cases (uuid == 0)) [
  | inl none_yet ↦ rw none_yet (omega arith, omega arith)
  | inr some_yet ↦ rw some_yet (ground (arith, some_yet))
]

create_timerid_lem :
    {S : Type 0} (st : Timers S)
    → st.uuid + length st.timers + 2 ≤ 2 ^ 32
    → (0 < create_timerid st) × (find_timer (create_timerid st) st.timers ≡ none)
unfolding create_timerid
create_timerid_lem st room =
    let first = if (st.uuid == 0) || (st.uuid == max_timer_num) then 1 else st.uuid in
    let (positive, close) = first_id st.uuid in
    let counted = at_or_above-le-length first st.timers in
    let (free, above) =
      free_id_lem (suc (length st.timers)) first st.timers (omega (arith, counted))
        (omega (arith, close, room)) in
    (omega (arith, positive, above), free)

-- With a handler and fewer ids than 2 ^ 32 in use, `repeat` gives a positive id that no timer had, and
-- makes it a timer with the duration, at least the precision, and the times asked for, or without
-- end for no positive number; under any other id there is what there was.
pub repeat-adds :
    {S : Type 0} (duration times serviceid j : ℕ) (st : Timers S)
    → st.has_handler ≡ true
    → st.uuid + length st.timers + 2 ≤ 2 ^ 32
    → let (i, after) = repeat duration times serviceid st in
      let context : Context = record {
        duration = at_least_precision duration;
        times = times_or_infinite times;
        serviceid = serviceid;
      } in
      (0 < i)
      × (find_timer i st.timers ≡ none)
      × (find_timer i after.timers ≡ some context)
      × ((i ≡ j) ⊎ (find_timer j after.timers ≡ find_timer j st.timers))
unfolding repeat
repeat-adds duration times serviceid j st has room =
    let i = create_timerid st in
    let (positive, free) = create_timerid_lem st room in
    rw has (
      positive,
      free,
      find_new i _ st.timers free,
      elim (Bool-cases (i == j)) [
        | inl same ↦ inl ((==_iff i j).0 same)
        | inr other ↦ inr (find_other i j _ st.timers other)
      ],
    )
