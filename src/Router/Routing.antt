-- ===== src/Router/Routing.antt =====
-- core/router.cpp: where messages and new services go.
use new_happy_server.Base.{
  ℕ, zero, suc, ◌+◌, ◌-◌, ◌%◌, ◌<◌, ◌≡◌, ◌≢◌, refl, ap, ◌∙◌, ◌⊎◌, inl, inr, true, false, none, some,
  List, [], ◌∷◌, ◌++◌, length, get_elem?, arith, Bool-cases, Option-cases, ◌==◌, ==_iff,
}
use new_happy_server.Worker.{Worker, Message, is_empty, send, ptype_unknown}
use new_happy_server.Router.{
  worker_id, workerid_valid, at_worker, sent, send_message, free_workers, next_worker,
  try_get_value, try_set, same_name, get_unique_service, set_unique_service,
}

-- The change reaches the worker at the position and no other.
pub get_elem?-at_worker :
    (n : ℕ) (f : Worker → Worker) (ws : List Worker) (w : Worker)
    → get_elem? ws n ≡ some w
    → get_elem? (at_worker n f ws) n ≡ some (f w)
unfolding at_worker
get_elem?-at_worker n f [] w h = ground arith
get_elem?-at_worker zero f (v ∷ ws) w h = ground arith
get_elem?-at_worker (suc n) f (v ∷ ws) w h = get_elem?-at_worker n f ws w h

pub get_elem?-at_worker_other :
    (n k : ℕ) (f : Worker → Worker) (ws : List Worker)
    → n ≢ k
    → get_elem? (at_worker n f ws) k ≡ get_elem? ws k
unfolding at_worker
get_elem?-at_worker_other n k f [] h = refl
get_elem?-at_worker_other zero zero f (v ∷ ws) h = absurd (h refl)
get_elem?-at_worker_other zero (suc k) f (v ∷ ws) h = refl
get_elem?-at_worker_other (suc n) zero f (v ∷ ws) h = refl
get_elem?-at_worker_other (suc n) (suc k) f (v ∷ ws) h =
    get_elem?-at_worker_other n k f ws (λ e. h (ap suc e))

lt-get_elem? : (n : ℕ) (ws : List Worker) (w : Worker) → get_elem? ws n ≡ some w → n < length ws
lt-get_elem? n [] w h = ground arith
lt-get_elem? zero (v ∷ ws) w h = omega arith
lt-get_elem? (suc n) (v ∷ ws) w h = omega (arith, lt-get_elem? n ws w h)

-- A message with a type, for a receiver of the worker at a position, reaches that worker's `send`, and
-- no other worker changes.
pub send_message-reaches :
    (m : Message) (ws : List Worker) (n k : ℕ) (w : Worker)
    → 0 < m.type
    → 0 < m.receiver
    → worker_id m.receiver ≡ suc n
    → get_elem? ws n ≡ some w
    → n ≢ k
    → (ws' : List Worker) × (send_message m ws ≡ sent ws')
      × (get_elem? ws' n ≡ some (send m w))
      × (get_elem? ws' k ≡ get_elem? ws k)
unfolding send_message
send_message-reaches m ws n k w typed received home here other =
    let has_type : (m.type == ptype_unknown) ≡ false = ground arith in
    let has_receiver : (m.receiver == 0) ≡ false = ground arith in
    let back : suc n - 1 ≡ n = omega arith in
    let inside = lt-get_elem? n ws w here in
    let valid : workerid_valid (suc n) ws ≡ true = ground arith in
    (
      at_worker n (send m) ws,
      rw (has_type, has_receiver, home, valid, back) refl,
      get_elem?-at_worker n (send m) ws w here,
      get_elem?-at_worker_other n k (send m) ws other,
    )

-- The workers have the ids that `server::init` gives them, from `suc k` on.
abbrev pub Numbered : ℕ → List Worker → Type 0
Numbered k [] = Unit {0}
Numbered k (w ∷ ws) = (w.workerid ≡ suc k) × Numbered (suc k) ws

-- A worker with the flag at a position.
abbrev pub IsSharedAt : ℕ → List Worker → Type 0
IsSharedAt i ws = (w : Worker) × (get_elem? ws i ≡ some w) × (w.shared ≡ true)

abbrev SharedFrom : ℕ → ℕ → List Worker → Type 0
SharedFrom k p ws = (i : ℕ) × (p ≡ k + i) × IsSharedAt i ws

one_later :
    (k p : ℕ) (w : Worker) (ws : List Worker) → SharedFrom (suc k) p ws → SharedFrom k p (w ∷ ws)
one_later k p w ws (i, at_i, is_shared) = (suc i, omega (arith, at_i), is_shared)

free_workers-IsSharedAt :
    (k : ℕ) (ws : List Worker) (j p : ℕ)
    → Numbered k ws
    → get_elem? (free_workers ws) j ≡ some p
    → SharedFrom k p ws
unfolding free_workers
free_workers-IsSharedAt k [] j p h e = ground arith
free_workers-IsSharedAt k (w ∷ ws) zero p h e = elim (Bool-cases w.shared) [
  | inl open_ ↦ (0, ground (arith, rw open_ at e, h.0), (w, refl, open_))
  | inr taken ↦ one_later k p w ws (free_workers-IsSharedAt (suc k) ws zero p h.1 (rw taken at e))
]
free_workers-IsSharedAt k (w ∷ ws) (suc j) p h e = elim (Bool-cases w.shared) [
  | inl open_ ↦ one_later k p w ws (free_workers-IsSharedAt (suc k) ws j p h.1 (rw open_ at e))
  | inr taken ↦
      one_later k p w ws (free_workers-IsSharedAt (suc k) ws (suc j) p h.1 (rw taken at e))
]

get_elem?-total {ℓ} :
    {A : Type ℓ} (xs : List A) (i : ℕ) → i < length xs → (x : A) × (get_elem? xs i ≡ some x)
get_elem?-total [] i h = absurd (omega arith)
get_elem?-total (x ∷ xs) zero h = (x, refl)
get_elem?-total (x ∷ xs) (suc i) h = get_elem?-total xs i (omega arith)

nonempty-length {ℓ} : {A : Type ℓ} (xs : List A) → is_empty xs ≡ false → 0 < length xs
nonempty-length [] h = ground arith
nonempty-length (x ∷ xs) h = omega arith

-- With workers numbered from 1, `next_worker` gives the position of one for every counter: of one that
-- is shared if there is any such.
pub next_worker_cases :
    (n : ℕ) (ws : List Worker)
    → Numbered 0 ws
    → is_empty ws ≡ false
    → (i : ℕ) × (next_worker n ws ≡ some i)
      × (i < length ws)
      × (IsSharedAt i ws ⊎ (free_workers ws ≡ []))
unfolding next_worker
next_worker_cases n ws numbered some_worker = elim (Bool-cases (is_empty (free_workers ws))) [
  | inl none_free ↦
      let pos = nonempty-length ws some_worker in
      (
        n % length ws,
        rw (none_free, some_worker) refl,
        omega (arith, pos),
        inr (nil_of (free_workers ws) none_free),
      )
  | inr free ↦
      let pos = nonempty-length (free_workers ws) free in
      let (p, e) =
        get_elem?-total (free_workers ws) (n % length (free_workers ws)) (omega (arith, pos)) in
      let (i, at_i, (w, here, open_)) =
        free_workers-IsSharedAt 0 ws (n % length (free_workers ws)) p numbered e in
      let same : p ≡ i = omega (arith, at_i) in
      (i, rw (free, e) (ap some same), lt-get_elem? i ws w here, inl (w, here, open_))
]
  where
    nil_of : (xs : List ℕ) → is_empty xs ≡ true → xs ≡ []
    nil_of [] h = refl
    nil_of (x ∷ xs) h = ground arith

pub same_name_refl : (name : List ℕ) → same_name name name ≡ true
same_name_refl [] = refl
same_name_refl (x ∷ xs) = rw ((==_iff x x).1 refl) (same_name_refl xs)

try_get_value-snoc :
    {A : Type 0} (name : List ℕ) (v : A) (kvs : List (List ℕ × A))
    → try_get_value name kvs ≡ none
    → try_get_value name (kvs ++ ((name, v) ∷ [])) ≡ some v
unfolding try_get_value
try_get_value-snoc name v [] h = rw (same_name_refl name) refl
try_get_value-snoc name v ((k, old) ∷ kvs) h = elim (Bool-cases (same_name k name)) [
  | inl same ↦ ground arith
  | inr other ↦ rw other (try_get_value-snoc name v kvs (rw other at h))
]

-- A name is given to one service only: `set_unique_service` of a name that is not empty succeeds, and
-- the name stands for that service, or the name was taken, and nothing changes.
pub set_unique_service_cases :
    (name : List ℕ) (i : ℕ) (names : List (List ℕ × ℕ))
    → is_empty name ≡ false
    → let (names', done) = set_unique_service name i names in
      ((done ≡ true) × (try_get_value name names ≡ none) × (get_unique_service name names' ≡ i))
      ⊎ ((done ≡ false)
          × ((old : ℕ) × (try_get_value name names ≡ some old)
              × (get_unique_service name names' ≡ old))
          × (names' ≡ names))
unfolding set_unique_service try_set get_unique_service
set_unique_service_cases name i names named = elim (Option-cases (try_get_value name names)) [
  | inl free ↦
      let stored : set_unique_service name i names ≡ (names ++ ((name, i) ∷ []), true) =
        rw (named, try_set, free) refl in
      let got : get_unique_service name (names ++ ((name, i) ∷ [])) ≡ i =
        rw (named, try_get_value-snoc name i names free) refl in
      inl (ap (λ r. r.1) stored, free, ap (λ r. get_unique_service name r.0) stored ∙ got)
  | inr (old, taken) ↦
      let unchanged : set_unique_service name i names ≡ (names, false) =
        rw (named, try_set, taken) refl in
      let got : get_unique_service name names ≡ old = rw (named, taken) refl in
      inr (
        ap (λ r. r.1) unchanged,
        (old, taken, ap (λ r. get_unique_service name r.0) unchanged ∙ got),
        ap (λ r. r.0) unchanged,
      )
]
