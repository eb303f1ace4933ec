-- ===== src/Server.antt =====
-- core/server.h and core/server.cpp: the server with its workers, and what its threads and the
-- services do to it, one task or call at a time.
pub mod Workers
pub mod Reachable
use new_happy_server.Base.{
  ℕ, zero, suc, ◌+◌, ◌-◌, ◌%◌, ◌^◌, ◌≡◌, Bool, true, false, Option, none, some, List, [], ◌∷◌, ◌++◌,
  length, get_elem?, ltb, ◌==◌, if◌then◌else◌,
}
use new_happy_server.Worker.{
  Worker, Services, State, Task, Message, Event, Text, unknown, init, ready, stopping, exited,
  start_services, stop_services, post, post_owed, update, stoped, run_next, is_empty,
}
use new_happy_server.Router.{
  at_worker, after_sent, broadcast, deliver, new_service, remove_service, send_data,
}

pub record Server : Type 0 where
  pub state : State
  pub next_workerid : ℕ
  pub workers : List Worker

-- The constructor of a worker, and `worker::init`, which waits until the thread is ready.
abbrev pub new_worker : ℕ → Worker
new_worker id = record {
  workerid = id;
  state = ready;
  shared = true;
  updating = false;
  count = 0;
  uuid = 0;
  queue = [];
  mq = [];
  owed = 0;
  services = [];
}

-- The workers with the ids from `id` on.
abbrev pub make_workers : ℕ → ℕ → List Worker
make_workers zero id = []
make_workers (suc n) id = new_worker id ∷ make_workers n (suc id)

-- A server is constructed and then `init` is called once.
unfoldable pub init_server : ℕ → Server
init_server worker_num = record {
  state = init;
  next_workerid = 0;
  workers = make_workers (if worker_num == 0 then 1 else worker_num) 1;
}

abbrev pub each_worker : (Worker → Worker) → List Worker → List Worker
each_worker f [] = []
each_worker f (w ∷ ws) = f w ∷ each_worker f ws

-- `run` up to its loop.
unfoldable pub run_server : Server → Server
run_server s =
    if is_empty s.workers
    then s
    else record s { state = ready; workers = each_worker (post start_services) s.workers }

abbrev pub stoped_count : List Worker → ℕ
stoped_count [] = 0
stoped_count (w ∷ ws) = if stoped w then suc (stoped_count ws) else stoped_count ws

-- A round of the loop, and whether the loop ends after it.
unfoldable pub run_round : Server → Server × Bool
run_round s = (
  record s { workers = each_worker update s.workers },
  stoped_count s.workers == length s.workers,
)

-- `wait` after the loop.
unfoldable pub wait : Server → Server
wait s = record s { state = exited }

abbrev pub is_over : State → Bool
is_over stopping = true
is_over exited = true
is_over _ = false

unfoldable pub stop : Server → Server
stop s =
    if is_over s.state
    then record s { state = stopping }
    else record s { state = stopping; workers = each_worker (post stop_services) s.workers }

unfoldable pub service_count : List Worker → ℕ
service_count [] = 0
service_count (w ∷ ws) = (w.count + service_count ws) % 2 ^ 32

abbrev pub deliver_all : List Event → List Worker → List Worker
deliver_all [] ws = ws
deliver_all (e ∷ es) ws = deliver_all es (deliver e ws)

-- The thread of the worker at a position runs a task, and its calls of the router follow.
unfoldable pub run_worker : Services → ℕ → Server → Server
run_worker sv i s = elim (get_elem? s.workers i) [
  | none ↦ s
  | some w ↦
      let (w', events) = run_next sv s.state w in
      record s { workers = deliver_all events (at_worker i (λ v. w') s.workers) }
]

-- The steps of the server: each is one call, one task of a worker, or the second part of a `send`
-- to the worker at a position. A task that sends to a worker leaves that second part to later steps.
pub data Step (sv : Services) : Server → Server → Type 0 where
  runs : (s : Server) → Step sv s (run_server s)
  rounds : (s : Server) → Step sv s (run_round s).0
  waits : (s : Server) → Step sv s (wait s)
  stops : (s : Server) → Step sv s (stop s)
  works : (i : ℕ) (s : Server) → Step sv s (run_worker sv i s)
  sends :
      (sender receiver : ℕ) (body header : Text) (session type : ℕ) (s : Server)
      → Step sv s (record s {
        workers =
            after_sent s.workers (send_data sender receiver body header session type s.workers);
      })
  wakes : (i : ℕ) (s : Server) → Step sv s (record s { workers = at_worker i post_owed s.workers })
  broadcasts :
      (sender : ℕ) (body header : Text) (type : ℕ) (s : Server)
      → Step sv s (record s { workers = broadcast sender body header type s.workers })
  creates :
      (type config : List ℕ) (unique : Bool) (workerid creator session n : ℕ) (ws : List Worker)
      (s : Server)
      → new_service s.next_workerid type config unique workerid creator session s.workers
        ≡ some (n, ws)
      → Step sv s (record s { next_workerid = n; workers = ws })
  removes :
      (serviceid sender session : ℕ) (s : Server)
      → Step sv s (record s {
        workers = elim (remove_service serviceid sender session s.workers) [
          | none ↦ s.workers
          | some r ↦ after_sent s.workers r
        ];
      })

pub data Steps (sv : Services) : Server → Server → Type 0 where
  here : (s : Server) → Steps sv s s
  then_ : (s t u : Server) → Steps sv s t → Step sv t u → Steps sv s u
