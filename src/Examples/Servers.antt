-- ===== src/Examples/Servers.antt =====
-- core/worker.cpp, core/router.cpp and core/server.cpp: the theorems at a server with two workers.
use new_happy_server.Base.{
  ℕ, ◌^◌, ◌<◌, ◌≡◌, refl, ◌⊎◌, inl, some, none, true, false, List, [], ◌∷◌, get_elem?, arith, All,
}
use new_happy_server.Worker.{
  Worker, Service, Services, State, Message, no_text, bytes, ready, remove, next_id, pick_id,
  find_service, run_task, send, post_owed,
}
use new_happy_server.Worker.Registry.{IsRegistry, AllTaken, pick_id_cases, run_task-IsRegistry}
use new_happy_server.Router.{worker_id, at_worker, broadcast, send_message, sent}
use new_happy_server.Router.Ids.{worker_id-next_id}
use new_happy_server.Router.Routing.{send_message-reaches}
use new_happy_server.Server.{
  Server, new_worker, make_workers, init_server, run_server, stop, run_worker, here, then_, runs,
  stops, wakes, broadcasts, works,
}
use new_happy_server.Server.Reachable.{IsSound, reachable-IsSound}

abbrev open_services : Services
open_services = record {
  registered = λ type. true;
  init_succeeds = λ type config i. true;
  name_of = λ type config i. config;
  after_dispatch = λ i m. m;
  keeps_broadcast = λ i m. refl;
}

abbrev echo : Service
echo = record { id = 0x01000001; name = 101 ∷ []; unique = false; is_ok = true }

abbrev serving : State → Worker
serving state = record {
  workerid = 1;
  state = state;
  shared = true;
  updating = false;
  count = 1;
  uuid = 1;
  queue = [];
  mq = [];
  owed = 0;
  services = echo ∷ [];
}

serving-IsRegistry : IsRegistry (serving ready)
unfolding find_service
serving-IsRegistry = record {
  distinct = (refl, tt);
  counted = refl;
  exited_empty = inl refl;
  stopping_serves = inl refl;
}

abbrev hello : Message
hello = record {
  type = 2;
  sender = 0x01000001;
  receiver = 0x02000005;
  session = 9;
  header = no_text;
  broadcast = false;
  body = bytes (104 ∷ []);
}

worker_id-next_id_example :
    (worker_id (next_id 200 70000) ≡ 200) × (0 < next_id 200 70000) × (next_id 200 70000 < 2 ^ 32)
worker_id-next_id_example = worker_id-next_id 200 70000 (omega arith)

pick_id_cases_example :
    (find_service (pick_id 3 1 0 (echo ∷ []) 0).1 (echo ∷ []) ≡ none) ⊎ AllTaken 3 1 0 (echo ∷ [])
pick_id_cases_example = pick_id_cases 3 1 0 (echo ∷ []) 0

run_task-IsRegistry_example :
    IsRegistry (run_task open_services ready (remove 0x01000001 0 0) (serving ready)).0
run_task-IsRegistry_example =
    run_task-IsRegistry open_services ready (remove 0x01000001 0 0) (serving ready)
      serving-IsRegistry

abbrev two_workers : List Worker
two_workers = make_workers 2 1

send_message-reaches_example :
    (ws' : List Worker) × (send_message hello two_workers ≡ sent ws')
    × (get_elem? ws' 1 ≡ some (send hello (new_worker 2)))
    × (get_elem? ws' 0 ≡ get_elem? two_workers 0)
send_message-reaches_example =
    send_message-reaches hello two_workers 1 0 (new_worker 2) (omega arith) (omega arith) refl refl
      (omega arith)

abbrev names_taken : List (List ℕ × ℕ)
names_taken = (101 ∷ [], 5) ∷ []

abbrev login : List ℕ
login = 108 ∷ []

abbrev started : Server
started = run_server (init_server 2)

abbrev told : Server
told = record started {
  workers = broadcast 0x01000001 (bytes (104 ∷ [])) no_text 2 started.workers;
}

abbrev woken : Server
woken = record told { workers = at_worker 1 post_owed told.workers }

reachable-IsSound_example : All IsSound (run_worker open_services 1 (stop woken)).workers
reachable-IsSound_example =
    reachable-IsSound open_services 2 (run_worker open_services 1 (stop woken)) (
      then_ (init_server 2) (stop woken) (run_worker open_services 1 (stop woken))
        (then_ (init_server 2) woken (stop woken)
          (then_ (init_server 2) told woken
            (then_ (init_server 2) started told
              (then_ (init_server 2) (init_server 2) started (here (init_server 2))
                (runs (init_server 2)))
              (broadcasts 0x01000001 (bytes (104 ∷ [])) no_text 2 started))
            (wakes 1 told))
          (stops woken))
        (works 1 (stop woken)))
