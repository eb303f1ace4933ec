-- ===== src/Server/Reachable.antt =====
-- core/server.cpp: what holds in every state that the server reaches.
use new_happy_server.Base.{
  ℕ, zero, suc, ◌≡◌, refl, sym, subst, true, false, [], ◌∷◌, ◌++◌, get_elem?, length, All,
  Bool-cases, Option-cases, inl, inr, ◌==◌, ltb, if◌then◌else◌,
}
use new_happy_server.Worker.{
  Text, negate, Worker, Services, State, Task, Message, send, post, post_owed, update, run_next,
  is_empty, update_timer, start_services, stop_services,
}
use new_happy_server.Worker.Registry.{IsRegistry, same_services, run_next-IsRegistry}
use new_happy_server.Worker.Wakeup.{
  IsAwake, post-IsAwake, post_owed-IsAwake, send-IsAwake, run_next-IsAwake,
}
use new_happy_server.Router.{at_worker, after_sent, send_data}
use new_happy_server.Server.{
  Server, Step, Steps, new_worker, make_workers, init_server, run_server, run_round, stop,
  run_worker, deliver_all, wait, is_over, runs, rounds, waits, stops, works, sends, wakes,
  broadcasts, creates, removes, here, then_,
}
use new_happy_server.Server.Workers.{
  at_worker-Every, each_worker-Every, get_elem?-Every, deliver_all-Every, send_message-Every,
  broadcast-Every, new_service-Every, remove_service-Every,
}

-- A worker whose registry is in order and that forgets no message.
abbrev pub IsSound : Worker → Type 0
IsSound w = IsRegistry w × IsAwake w

post-IsSound : (t : Task) (w : Worker) → IsSound w → IsSound (post t w)
post-IsSound t w s = (same_services w (post t w) refl refl refl s.0, post-IsAwake t w s.1)

send-IsSound : (m : Message) (w : Worker) → IsSound w → IsSound (send m w)
unfolding send
send-IsSound m w s = elim (Bool-cases (length (w.mq ++ (m ∷ [])) == 1)) [
  | inl first ↦
      rw first (same_services w _ refl refl refl s.0, rw first at (send-IsAwake m w s.1).0)
  | inr later ↦
      rw later (same_services w _ refl refl refl s.0, rw later at (send-IsAwake m w s.1).0)
]

post_owed-IsSound : (w : Worker) → IsSound w → IsSound (post_owed w)
unfolding post_owed
post_owed-IsSound w s = elim (Bool-cases (ltb 0 w.owed)) [
  | inl owes ↦ rw owes (same_services w _ refl refl refl s.0, rw owes at (post_owed-IsAwake w s.1))
  | inr none_owes ↦ rw none_owes s
]

update-IsSound : (w : Worker) → IsSound w → IsSound (update w)
unfolding update
update-IsSound w s = elim (Bool-cases w.updating) [
  | inl pending ↦ simp pending s
  | inr none_pending ↦ rw none_pending (
      post-IsSound update_timer (record w { updating = true })
        (same_services w (record w { updating = true }) refl refl refl s.0, s.1))
]

unshared-IsSound : (w : Worker) → IsSound w → IsSound (record w { shared = false })
unshared-IsSound w s = (same_services w (record w { shared = false }) refl refl refl s.0, s.1)

run_next-IsSound :
    (sv : Services) (st : State) (w : Worker) → IsSound w → IsSound (run_next sv st w).0
run_next-IsSound sv st w s = (run_next-IsRegistry sv st w s.0, run_next-IsAwake sv st w s.1)

new_worker-IsSound : (id : ℕ) → IsSound (new_worker id)
new_worker-IsSound id = (
  record { distinct = tt; counted = refl; exited_empty = inr refl; stopping_serves = inl refl },
  inl refl,
)

make_workers-IsSound : (n id : ℕ) → All IsSound (make_workers n id)
make_workers-IsSound zero id = tt
make_workers-IsSound (suc n) id = (new_worker-IsSound id, make_workers-IsSound n (suc id))

init_server-IsSound : (n : ℕ) → All IsSound (init_server n).workers
unfolding init_server
init_server-IsSound n = make_workers-IsSound (if n == 0 then 1 else n) 1

module _ (sv : Services) where
  run_worker-IsSound :
      (i : ℕ) (s : Server) → All IsSound s.workers → All IsSound (run_worker sv i s).workers
  unfolding run_worker
  run_worker-IsSound i s e = elim (Option-cases (get_elem? s.workers i)) [
    | inl absent ↦
        let same : run_worker sv i s ≡ s = rw (absent, run_worker) refl in
        subst (λ t. All IsSound t.workers) (sym same) e
    | inr (w, found) ↦
        let (w', events) = run_next sv s.state w in
        let sound = run_next-IsSound sv s.state w (get_elem?-Every IsSound s.workers i w e found) in
        let after : run_worker sv i s
            ≡ record s { workers = deliver_all events (at_worker i (λ v. w') s.workers) } =
          rw (found, run_worker) refl in
        subst (λ t. All IsSound t.workers) (sym after)
          (deliver_all-Every IsSound send-IsSound events (at_worker i (λ v. w') s.workers)
            (at_worker-Every IsSound i (λ v. w') s.workers (λ v p. sound) e))
  ]

  run_server-IsSound : (s : Server) → All IsSound s.workers → All IsSound (run_server s).workers
  unfolding run_server
  run_server-IsSound s e = elim (Bool-cases (is_empty s.workers)) [
    | inl empty ↦ rw empty e
    | inr some_worker ↦
        rw some_worker (
          each_worker-Every IsSound (post start_services) s.workers (post-IsSound start_services) e)
  ]

  stop-IsSound : (s : Server) → All IsSound s.workers → All IsSound (stop s).workers
  unfolding stop
  stop-IsSound s e = elim (Bool-cases (is_over s.state)) [
    | inl over ↦ rw over e
    | inr going ↦
        rw going
          (each_worker-Every IsSound (post stop_services) s.workers (post-IsSound stop_services) e)
  ]

  send_data-IsSound :
      (sender receiver : ℕ) (body header : Text) (session type : ℕ) (s : Server)
      → All IsSound s.workers
      → All IsSound
          (after_sent s.workers (send_data sender receiver body header session type s.workers))
  unfolding send_data
  send_data-IsSound sender receiver body header session type s e =
      send_message-Every IsSound send-IsSound
        (record {
          type = type;
          sender = sender;
          receiver = receiver;
          session = negate session;
          header = header;
          broadcast = false;
          body = body;
        })
        s.workers e

  Step-IsSound : (s t : Server) → Step sv s t → All IsSound s.workers → All IsSound t.workers
  unfolding run_round wait
  Step-IsSound s t (runs _) e = run_server-IsSound s e
  Step-IsSound s t (rounds _) e = each_worker-Every IsSound update s.workers update-IsSound e
  Step-IsSound s t (waits _) e = e
  Step-IsSound s t (stops _) e = stop-IsSound s e
  Step-IsSound s t (works i _) e = run_worker-IsSound i s e
  Step-IsSound s t (sends sender receiver body header session type _) e =
      send_data-IsSound sender receiver body header session type s e
  Step-IsSound s t (wakes i _) e = at_worker-Every IsSound i post_owed s.workers post_owed-IsSound e
  Step-IsSound s t (broadcasts sender body header type _) e =
      broadcast-Every IsSound send-IsSound sender body header type s.workers e
  Step-IsSound s t (creates type config unique workerid creator session n ws _ h) e =
      new_service-Every IsSound send-IsSound s.next_workerid type config unique workerid creator
        session s.workers n ws post-IsSound unshared-IsSound e h
  Step-IsSound s t (removes serviceid sender session _) e =
      remove_service-Every IsSound send-IsSound serviceid sender session s.workers post-IsSound e

  Steps-IsSound : (s t : Server) → Steps sv s t → All IsSound s.workers → All IsSound t.workers
  Steps-IsSound s t (here _) e = e
  Steps-IsSound s t (then_ _ u _ before step) e = Step-IsSound u t step (Steps-IsSound s u before e)

  -- In every state that a server reaches from its `init` by the steps in any order (`run`, the rounds
  -- of its loop, `wait`, `stop`, tasks of the workers, the services' calls of `send`, `broadcast`,
  -- `new_service` and `remove_service`, and the queueing of the task at the end of a worker's `send`),
  -- each worker has distinct service ids and the right count of services, is not exited with services
  -- left nor stopping without one, and has no message that waits unless a task that takes it is
  -- queued or a thread is about to queue one.
  pub reachable-IsSound : (n : ℕ) (s : Server) → Steps sv (init_server n) s → All IsSound s.workers
  reachable-IsSound n s path = Steps-IsSound (init_server n) s path (init_server-IsSound n)
