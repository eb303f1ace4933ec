-- ===== src/Router.antt =====
-- core/router.h and core/router.cpp: which worker a message or a request goes to, and the names of
-- the unique services. The workers are those of the server, in the order of their ids.
pub mod Ids
pub mod Routing
use new_happy_server.Base.{
  ℕ, zero, suc, ◌+◌, ◌-◌, ◌*◌, ◌/◌, ◌%◌, ◌^◌, Bool, true, false, not, ◌&&◌, ◌||◌, Option, none,
  some, List, [], ◌∷◌, ◌++◌, length, get_elem?, ltb, leb, ◌==◌, if◌then◌else◌, bit_and,
}
use new_happy_server.Worker.{
  Worker, Message, Text, Task, Event, State, no_text, worker_not_found, router_remove_header, add,
  remove, send, post, negate, ptype_unknown, ptype_error, is_empty, respond, tell_all, send_on,
  find_service,
}

abbrev pub worker_id_shift : ℕ
worker_id_shift = 24

abbrev pub worker_id : ℕ → ℕ
worker_id serviceid = bit_and (serviceid / 2 ^ worker_id_shift) 0xFF

abbrev pub workerid_valid : ℕ → List Worker → Bool
workerid_valid workerid ws = ltb 0 workerid && leb workerid (length ws)

-- A change of the worker at a position, which is `get_worker` of the position and one.
unfoldable pub at_worker : ℕ → (Worker → Worker) → List Worker → List Worker
at_worker n f [] = []
at_worker zero f (w ∷ ws) = f w ∷ ws
at_worker (suc n) f (w ∷ ws) = w ∷ at_worker n f ws

-- Why a message is dropped.
pub data Refusal : Type 0 where
  unknown_type no_receiver unknown_receiver : Refusal

pub data Sent : Type 0 where
  sent : List Worker → Sent
  dropped : Refusal → Sent

unfoldable pub send_message : Message → List Worker → Sent
unfolding at_worker
send_message m ws =
    let workerid = worker_id m.receiver in
    if m.type == ptype_unknown
    then dropped unknown_type
    else (if m.receiver == 0
        then dropped no_receiver
        else (if not (workerid_valid workerid ws)
            then dropped unknown_receiver
            else sent (at_worker (workerid - 1) (send m) ws)))

-- `router::send`
unfoldable pub send_data : ℕ → ℕ → Text → Text → ℕ → ℕ → List Worker → Sent
unfolding send_message
send_data sender receiver body header session type ws =
    send_message
      (record {
        type = type;
        sender = sender;
        receiver = receiver;
        session = negate session;
        header = header;
        broadcast = false;
        body = body;
      })
      ws

unfoldable pub broadcast : ℕ → Text → Text → ℕ → List Worker → List Worker
broadcast sender body header type [] = []
broadcast sender body header type (w ∷ ws) =
    send
      (record {
        type = type;
        sender = sender;
        receiver = 0;
        session = 0;
        header = header;
        broadcast = true;
        body = body;
      })
      w
    ∷ broadcast sender body header type ws

-- `none` where no message is made.
unfoldable pub response : ℕ → Text → Text → ℕ → ℕ → List Worker → Option Sent
unfolding send_message
response to header content session type ws =
    if to == 0 || session == 0
    then none
    else some (
        send_message
          (record {
            type = type;
            sender = 0;
            receiver = to;
            session = session;
            header = header;
            broadcast = false;
            body = content;
          })
          ws)

-- `free_worker` of `next_worker`: the positions of the shared workers.
unfoldable pub free_workers : List Worker → List ℕ
free_workers [] = []
free_workers (w ∷ ws) =
    let others = free_workers ws in if w.shared then (w.workerid - 1) ∷ others else others

-- The position of the worker, for the counter `n`.
unfoldable pub next_worker : ℕ → List Worker → Option ℕ
unfolding free_workers
next_worker n ws =
    let free = free_workers ws in
    if is_empty free
    then (if is_empty ws then none else some (n % length ws))
    else get_elem? free (n % length free)

-- `workerid` is the bit pattern of an `int32_t`; the result has the counter. There are workers.
unfoldable pub new_service :
    ℕ → List ℕ → List ℕ → Bool → ℕ → ℕ → ℕ → List Worker → Option (ℕ × List Worker)
unfolding at_worker next_worker
new_service n type config unique workerid creator session ws =
    let request = post (add type config unique creator session) in
    if workerid_valid workerid ws
    then some (n, at_worker (workerid - 1) (λ w. request (record w { shared = false })) ws)
    else (elim (next_worker n ws) [
      | none ↦ none
      | some i ↦ some ((n + 1) % 2 ^ 32, at_worker i request ws)
    ])

unfoldable pub remove_service : ℕ → ℕ → ℕ → List Worker → Option Sent
unfolding at_worker response
remove_service serviceid sender session ws =
    let workerid = worker_id serviceid in
    if workerid_valid workerid ws
    then some (sent (at_worker (workerid - 1) (post (remove serviceid sender session)) ws))
    else response sender router_remove_header (worker_not_found workerid) session ptype_error ws

abbrev pub same_name : List ℕ → List ℕ → Bool
same_name [] [] = true
same_name [] (y ∷ ys) = false
same_name (x ∷ xs) [] = false
same_name (x ∷ xs) (y ∷ ys) = (x == y) && same_name xs ys

-- common/concurrent_map.hpp, under its lock.
unfoldable pub try_get_value {ℓ} : {A : Type ℓ} → List ℕ → List (List ℕ × A) → Option A
try_get_value key [] = none
try_get_value key ((k, v) ∷ kvs) = if same_name k key then some v else try_get_value key kvs

unfoldable pub try_set {ℓ} :
    {A : Type ℓ} → List ℕ → A → List (List ℕ × A) → List (List ℕ × A) × Bool
unfolding try_get_value
try_set key v kvs = elim (try_get_value key kvs) [
  | some old ↦ (kvs, false)
  | none ↦ (kvs ++ ((key, v) ∷ []), true)
]

unfoldable pub set_value {ℓ} : {A : Type ℓ} → List ℕ → A → List (List ℕ × A) → List (List ℕ × A)
set_value key v [] = (key, v) ∷ []
set_value key v ((k, old) ∷ kvs) =
    if same_name k key then (k, v) ∷ kvs else (k, old) ∷ set_value key v kvs

-- The empty string where there is no value.
unfoldable pub get_env : List ℕ → List (List ℕ × List ℕ) → List ℕ
unfolding try_get_value
get_env name env = elim (try_get_value name env) [ none ↦ [] | some v ↦ v ]

unfoldable pub set_env : List ℕ → List ℕ → List (List ℕ × List ℕ) → List (List ℕ × List ℕ)
unfolding set_value
set_env name v env = set_value name v env

unfoldable pub get_unique_service : List ℕ → List (List ℕ × ℕ) → ℕ
unfolding try_get_value
get_unique_service name names =
    if is_empty name then 0 else (elim (try_get_value name names) [ none ↦ 0 | some i ↦ i ])

unfoldable pub set_unique_service : List ℕ → ℕ → List (List ℕ × ℕ) → List (List ℕ × ℕ) × Bool
unfolding try_set
set_unique_service name i names = if is_empty name then (names, false) else try_set name i names

-- What an event of a worker's task does to the workers: the calls of the router.
abbrev pub after_sent : List Worker → Sent → List Worker
after_sent ws (sent ws') = ws'
after_sent ws (dropped why) = ws

unfoldable pub deliver : Event → List Worker → List Worker
unfolding response send_message broadcast
deliver (respond to header content session type) ws =
    elim (response to header content session type ws) [ none ↦ ws | some r ↦ after_sent ws r ]
deliver (tell_all sender header content type) ws = broadcast sender content header type ws
deliver (send_on m) ws = after_sent ws (send_message m ws)
deliver _ ws = ws
