-- ===== src/Queue.antt =====
-- common/concurrent_queue.hpp: each operation is one step under the queue's lock. The capacity has no
-- bound here, as everywhere in the program (`BlockFull` is false); waiting for an element is `none`.
use new_happy_server.Base.{
  ℕ, Bool, true, false, Option, none, some, List, [], ◌∷◌, ◌++◌, length, if◌then◌else◌,
}
use new_happy_server.Worker.{is_empty}

pub record Queue (A : Type 0) : Type 0 where
  pub container : List A
  pub exit_ : Bool

abbrev pub new_queue : {A : Type 0} → Queue A
new_queue = record { container = []; exit_ = false }

unfoldable pub push_back : {A : Type 0} → A → Queue A → Queue A × ℕ
push_back x q = (record q { container = q.container ++ (x ∷ []) }, length (q.container ++ (x ∷ [])))

unfoldable pub try_pop : {A : Type 0} → Queue A → Queue A × Option A
try_pop q = elim q.container [ [] ↦ (q, none) | x ∷ xs ↦ (record q { container = xs }, some x) ]

abbrev pub size : {A : Type 0} → Queue A → ℕ
size q = length q.container

-- `BlockEmpty` is true.
unfoldable pub swap : {A : Type 0} → List A → Queue A → Option (Queue A × List A)
swap other q =
    if is_empty q.container
    then (if q.exit_ then some (record q { container = other }, []) else none)
    else some (record q { container = other }, q.container)

abbrev pub exit : {A : Type 0} → Queue A → Queue A
exit q = record q { exit_ = true }
