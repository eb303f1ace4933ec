-- ===== src/Worker.antt =====
-- core/worker.h and core/worker.cpp: a worker thread, its queue of tasks and its services.
-- A task that is queued runs to its end before the next one, on the worker's thread; what it calls
-- outside of the worker is an event, in order. The services themselves are parameters. The order
-- of an `std::unordered_map` is that of the list.
pub mod Ids
pub mod Registry
pub mod Wakeup
use new_happy_server.Base.{
  ℕ, zero, suc, ◌+◌, ◌-◌, ◌*◌, ◌%◌, ◌^◌, ◌≡◌, Bool, true, false, not, ◌&&◌, ◌||◌, Option, none,
  some, List, [], ◌∷◌, ◌++◌, length, ltb, leb, ◌==◌, if◌then◌else◌, bit_or,
}

-- common/macro.hpp, `enum class state`.
pub data State : Type 0 where
  unknown init ready stopping exited : State

-- A text that the code builds, by what it builds it from.
pub data Text : Type 0 where
  no_text : Text
  bytes : List ℕ → Text
  number : ℕ → Text
  exit_header destroy_header worker_remove_header worker_handle_header router_remove_header : Text
  destroyed : List ℕ → ℕ → Text
  service_not_found : ℕ → Text
  worker_not_found : ℕ → Text
  dead_service : ℕ → ℕ → Text → Text

-- common/message.hpp, class message. `session` is the bit pattern of an `int32_t`; `broadcast` is
-- the flag of the data.
pub record Message : Type 0 where
  pub type : ℕ
  pub sender : ℕ
  pub receiver : ℕ
  pub session : ℕ
  pub header : Text
  pub broadcast : Bool
  pub body : Text

-- core/config.hpp
abbrev pub ptype_unknown : ℕ
ptype_unknown = 0

abbrev pub ptype_system : ℕ
ptype_system = 1

abbrev pub ptype_text : ℕ
ptype_text = 2

abbrev pub ptype_error : ℕ
ptype_error = 5

abbrev pub max_uuid : ℕ
max_uuid = 0xFFFF

-- core/service.hpp: what the worker knows of a service.
pub record Service : Type 0 where
  pub id : ℕ
  pub name : List ℕ
  pub unique : Bool
  pub is_ok : Bool

pub data Task : Type 0 where
  stop_services : Task
  add : List ℕ → List ℕ → Bool → ℕ → ℕ → Task
  remove : ℕ → ℕ → ℕ → Task
  handle_messages : Task
  start_services : Task
  update_timer : Task

-- Calls of the router, of a service and of the timer.
pub data Event : Type 0 where
  respond : ℕ → Text → Text → ℕ → ℕ → Event
  tell_all : ℕ → Text → Text → ℕ → Event
  send_on : Message → Event
  init_service start_service exit_service destroy_service : ℕ → Event
  dispatch : ℕ → Message → Event
  tick : Event

-- `owed` counts the threads that are in `send` between its two critical sections: they have pushed the
-- first message of `mq_` and have not queued the task yet.
pub record Worker : Type 0 where
  pub workerid : ℕ
  pub state : State
  pub shared : Bool
  pub updating : Bool
  pub count : ℕ
  pub uuid : ℕ
  pub queue : List Task
  pub mq : List Message
  pub owed : ℕ
  pub services : List Service

-- What the worker takes from the services: the types that are registered, whether `init` succeeds,
-- the name a service has, and the message after `dispatch`, which may redirect it and does not take
-- the broadcast flag off.
pub record Services : Type 0 where
  pub registered : List ℕ → Bool
  pub init_succeeds : List ℕ → List ℕ → ℕ → Bool
  pub name_of : List ℕ → List ℕ → ℕ → List ℕ
  pub after_dispatch : ℕ → Message → Message
  pub keeps_broadcast : (i : ℕ) (m : Message) → (after_dispatch i m).broadcast ≡ m.broadcast

abbrev pub is_ready : State → Bool
is_ready ready = true
is_ready _ = false

abbrev pub is_init : State → Bool
is_init init = true
is_init _ = false

abbrev pub is_stopping : State → Bool
is_stopping stopping = true
is_stopping _ = false

abbrev pub is_exited : State → Bool
is_exited exited = true
is_exited _ = false

abbrev pub is_empty {ℓ} : {A : Type ℓ} → List A → Bool
is_empty [] = true
is_empty (x ∷ xs) = false

unfoldable pub find_service : ℕ → List Service → Option Service
find_service i [] = none
find_service i (s ∷ ss) = if s.id == i then some s else find_service i ss

-- `services_.erase`
unfoldable pub erase_service : ℕ → List Service → List Service
erase_service i [] = []
erase_service i (s ∷ ss) =
    let others = erase_service i ss in if s.id == i then others else s ∷ others

-- The id, and the counter afterwards, for a worker and its counter.
unfoldable pub next_id : ℕ → ℕ → ℕ
next_id workerid uuid = bit_or (uuid % max_uuid + 1) (workerid * 2 ^ 24 % 2 ^ 32)

abbrev pub next_uuid : ℕ → ℕ
next_uuid uuid = (uuid + 1) % 2 ^ 32

-- The inner loop of `add_service`: an id that no service has, or the last one tried when no round
-- is left. The result is the counter and the id.
unfoldable pub pick_id : ℕ → ℕ → ℕ → List Service → ℕ → ℕ × ℕ
unfolding find_service next_id
pick_id zero workerid last ss uuid = (uuid, last)
pick_id (suc rounds) workerid last ss uuid = elim (find_service (next_id workerid uuid) ss) [
  | none ↦ (next_uuid uuid, next_id workerid uuid)
  | some s ↦ pick_id rounds workerid (next_id workerid uuid) ss (next_uuid uuid)
]

abbrev pub answer : ℕ → ℕ → Text → List Event
answer creator session content =
    if session == 0 then [] else respond creator no_text content session ptype_text ∷ []

-- What `add_service` does when it leaves its outer loop by a `break`.
abbrev pub refuse : ℕ → ℕ → List Event → Worker → Worker × List Event
refuse creator session before w =
    (record w { shared = is_empty w.services }, before ++ answer creator session (number 0))

unfoldable pub run_add :
    Services → State → List ℕ → List ℕ → Bool → ℕ → ℕ → Worker → Worker × List Event
unfolding pick_id find_service
run_add sv server_state type config unique creator session w =
    let (u, i) = pick_id max_uuid w.workerid 0 w.services w.uuid in
    let w₁ : Worker = record w { uuid = u } in
    let new_one : Service = record {
      id = i;
      name = sv.name_of type config i;
      unique = unique;
      is_ok = true;
    } in
    if not (is_ready w.state)
    then refuse creator session [] w
    else (if not (sv.registered type)
        then refuse creator session [] w₁
        else (if not (sv.init_succeeds type config i)
            then refuse creator session (init_service i ∷ []) w₁
            else (elim (find_service i w.services) [
              | some old ↦ refuse creator session (init_service i ∷ []) w₁
              | none ↦ (
                record w₁ {
                  services = w.services ++ (new_one ∷ []);
                  count = (w.count + 1) % 2 ^ 32;
                },
                init_service i
                    ∷ ((if is_init server_state then [] else start_service i ∷ [])
                        ++ answer creator session (number i)),
              )
            ])))

unfoldable pub run_remove : ℕ → ℕ → ℕ → Worker → Worker × List Event
unfolding find_service erase_service
run_remove i sender session w =
    let (w₁, events) : Worker × List Event = elim (find_service i w.services) [
      | none ↦
          (w, respond sender worker_remove_header (service_not_found i) session ptype_error ∷ [])
      | some s ↦
          let left = erase_service i w.services in
          (
            record w {
              services = left;
              count = (w.count + 2 ^ 32 - 1) % 2 ^ 32;
              shared = if is_empty left then true else w.shared;
            },
            destroy_service i
                ∷ (respond sender destroy_header (destroyed s.name s.id) session ptype_text
                    ∷ (tell_all i exit_header (destroyed s.name s.id) ptype_system ∷ [])),
          )
    ] in
    (
      if is_empty w₁.services && is_stopping w₁.state then record w₁ { state = exited } else w₁,
      events,
    )

abbrev pub call_each : (ℕ → Event) → List Service → List Event
call_each call [] = []
call_each call (s ∷ ss) = call s.id ∷ call_each call ss

unfoldable pub run_stop : Worker → Worker × List Event
run_stop w =
    if is_stopping w.state || is_exited w.state
    then (w, [])
    else (if is_empty w.services
        then (record w { state = exited }, [])
        else (record w { state = stopping }, call_each exit_service w.services))

-- core/service.hpp, `handle_message`: the message as it is afterwards, and the calls.
unfoldable pub handle_message : Services → Service → Message → Message × List Event
handle_message sv s m =
    let m' = sv.after_dispatch s.id m in
    if not (m'.receiver == s.id) && not (m'.receiver == 0) && not m'.broadcast
    then (m', dispatch s.id m ∷ (send_on m' ∷ []))
    else (m', dispatch s.id m ∷ [])

unfoldable pub handle_broadcast : Services → List Service → Message → List Event
unfolding handle_message
handle_broadcast sv [] m = []
handle_broadcast sv (s ∷ ss) m =
    let (m', events) = handle_message sv s m in
    let after = events ++ handle_broadcast sv ss m' in
    let skipped = handle_broadcast sv ss m in
    if s.is_ok && not (s.id == m.sender) then after else skipped

-- The service of the message before is looked up again only for another receiver.
unfoldable pub lookup : List Service → Option Service → ℕ → Option Service
unfolding find_service
lookup ss none receiver = find_service receiver ss
lookup ss (some s) receiver = if s.id == receiver then some s else find_service receiver ss

abbrev pub negate : ℕ → ℕ
negate session = (2 ^ 32 - session) % 2 ^ 32

unfoldable pub handle_one :
    Services → List Service → Option Service → Message → Option Service × List Event
unfolding handle_message handle_broadcast lookup
handle_one sv ss ser m =
    if m.broadcast then (ser, handle_broadcast sv ss m) else (elim (lookup ss ser m.receiver) [
      | none ↦ (
        none,
        (if m.sender == 0
            then []
            else respond m.sender worker_handle_header (dead_service m.sender m.receiver m.body)
                (negate m.session) ptype_error
              ∷ []),
      )
      | some s ↦ (some s, (handle_message sv s m).1 ++ (tick ∷ []))
    ])

unfoldable pub handle_all : Services → List Service → Option Service → List Message → List Event
unfolding handle_one
handle_all sv ss ser [] = []
handle_all sv ss ser (m ∷ ms) =
    let (ser', events) = handle_one sv ss ser m in events ++ handle_all sv ss ser' ms

-- One task.
unfoldable pub run_task : Services → State → Task → Worker → Worker × List Event
unfolding run_add run_remove run_stop handle_all
run_task sv server_state stop_services w = run_stop w
run_task sv server_state (add type config unique creator session) w =
    run_add sv server_state type config unique creator session w
run_task sv server_state (remove i sender session) w = run_remove i sender session w
run_task sv server_state handle_messages w =
    (record w { mq = [] }, handle_all sv w.services none w.mq)
run_task sv server_state start_services w = (w, call_each start_service w.services)
run_task sv server_state update_timer w = (record w { updating = false }, tick ∷ [])

-- A round of the loop of the thread; an exited worker runs nothing.
unfoldable pub run_next : Services → State → Worker → Worker × List Event
unfolding run_task
run_next sv server_state w = if is_exited w.state then (w, []) else (elim w.queue [
  | [] ↦ (w, [])
  | t ∷ ts ↦ run_task sv server_state t (record w { queue = ts })
])

abbrev pub post : Task → Worker → Worker
post t w = record w { queue = w.queue ++ (t ∷ []) }

-- `send` up to its `if`: the message is pushed under the lock of `mq_`, and only for the first one
-- the thread goes on to queue a task.
unfoldable pub send : Message → Worker → Worker
send m w =
    let w' : Worker = record w { mq = w.mq ++ (m ∷ []) } in
    if length w'.mq == 1 then record w' { owed = w.owed + 1 } else w'

-- The rest of `send`: one of the threads that go on queues its task under `mutex_`.
unfoldable pub post_owed : Worker → Worker
post_owed w = if ltb 0 w.owed then post handle_messages (record w { owed = w.owed - 1 }) else w

-- `update`: at most one timer task is queued.
unfoldable pub update : Worker → Worker
update w = if w.updating then w else post update_timer (record w { updating = true })

abbrev pub stoped : Worker → Bool
stoped w = is_exited w.state
