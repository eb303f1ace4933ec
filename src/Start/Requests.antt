-- ===== src/Start/Requests.antt =====
-- happy.cpp, `main`: the server that is run, and its requests for the services.
use new_happy_server.Base.{
  ℕ, zero, suc, ◌+◌, ◌-◌, ◌%◌, ◌^◌, ◌<◌, ◌≡◌, refl, sym, subst, ◌++◌, ap, ◌∙◌, inl, inr, true,
  false, some, List, [], ◌∷◌, length, Bool-cases, Option-cases, if◌then◌else◌, ◌==◌, arith,
}
use mathlib.Core.List.{Perm, perm_middle, append_assoc, append-nil}
use mathlib.Core.List.Perm
use new_happy_server.Config.{ServiceConfig}
use new_happy_server.Router.{at_worker, new_service, workerid_valid}
use new_happy_server.Server.{Server, Steps, here, then_, creates, init_server, make_workers}
use new_happy_server.Worker.{Worker, Services, Task, add, post, is_empty}
use new_happy_server.Router.Routing.{Numbered, next_worker_cases}
use new_happy_server.Start.{service_requests}

-- The tasks of all workers, and those that services ask for.
abbrev pub tasks : List Worker → List Task
tasks [] = []
tasks (w ∷ ws) = w.queue ++ tasks ws

abbrev pub requested : List ServiceConfig → List Task
requested [] = []
requested (c ∷ cs) = add c.type c.config c.unique 0 0 ∷ requested cs

requests-Steps :
    (sv : Services) (cs : List ServiceConfig) (s t : Server)
    → Steps sv s t
    → Steps sv s (service_requests cs t)
requests-Steps sv [] s t path = path
requests-Steps sv (c ∷ cs) s t path =
    elim (Option-cases
      (new_service t.next_workerid c.type c.config c.unique c.threadid 0 0 t.workers)) [
        | inl e ↦ rw (e, service_requests) (requests-Steps sv cs s t path)
        | inr ((n, ws), e) ↦
            rw (e, service_requests)
              (requests-Steps sv cs s (record t { next_workerid = n; workers = ws })
                (then_ s t _ path (creates c.type c.config c.unique c.threadid 0 0 n ws t e)))
      ]

-- One worker has one task more, this one, and the workers keep their ids.
abbrev OneMore : Task → List Worker → List Worker → Type 0
OneMore t ws ws' = Perm (tasks ws') (t ∷ tasks ws) × (length ws' ≡ length ws) × Numbered 0 ws'

Numbered-at_worker :
    (k i : ℕ) (f : Worker → Worker) (ws : List Worker)
    → ((w : Worker) → (f w).workerid ≡ w.workerid)
    → Numbered k ws
    → Numbered k (at_worker i f ws)
unfolding at_worker
Numbered-at_worker k i f [] keeps h = tt
Numbered-at_worker k zero f (w ∷ ws) keeps (e, h) = (keeps w ∙ e, h)
Numbered-at_worker k (suc i) f (w ∷ ws) keeps (e, h) =
    (e, Numbered-at_worker (suc k) i f ws keeps h)

length-at_worker :
    (i : ℕ) (f : Worker → Worker) (ws : List Worker) → length (at_worker i f ws) ≡ length ws
unfolding at_worker
length-at_worker i f [] = refl
length-at_worker zero f (w ∷ ws) = refl
length-at_worker (suc i) f (w ∷ ws) = ap suc (length-at_worker i f ws)

module _ (t : Task) (f : Worker → Worker)
    (one : (w : Worker) → (f w).queue ≡ w.queue ++ (t ∷ [])) where
  tasks-at_worker :
      (i : ℕ) (ws : List Worker) → i < length ws → Perm (tasks (at_worker i f ws)) (t ∷ tasks ws)
  unfolding at_worker
  tasks-at_worker i [] h = absurd (omega arith)
  tasks-at_worker zero (w ∷ ws) h =
      subst (λ q. Perm q (t ∷ tasks (w ∷ ws)))
        (sym (ap (λ q. q ++ tasks ws) (one w) ∙ append_assoc w.queue (t ∷ []) (tasks ws)))
        (perm_middle w.queue (tasks ws))
  tasks-at_worker (suc i) (w ∷ ws) h =
      Perm.trans (Perm.append_left w.queue (tasks-at_worker i ws (omega arith)))
        (perm_middle w.queue (tasks ws))

  at_worker-OneMore :
      ((w : Worker) → (f w).workerid ≡ w.workerid)
      → (i : ℕ) (ws : List Worker) → i < length ws
      → Numbered 0 ws
      → OneMore t ws (at_worker i f ws)
  at_worker-OneMore keeps i ws h numbered =
      (tasks-at_worker i ws h, length-at_worker i f ws, Numbered-at_worker 0 i f ws keeps numbered)

new_service-OneMore :
    (n : ℕ) (c : ServiceConfig) (ws : List Worker)
    → Numbered 0 ws
    → is_empty ws ≡ false
    → (m : ℕ) × (ws' : List Worker) × (new_service n c.type c.config c.unique c.threadid 0 0 ws
        ≡ some (m, ws'))
      × OneMore (add c.type c.config c.unique 0 0) ws ws'
unfolding new_service
new_service-OneMore n c ws numbered some_worker =
    let t = add c.type c.config c.unique 0 0 in
    elim (Bool-cases (workerid_valid c.threadid ws)) [
      | inl valid ↦ (
        n,
        _,
        rw valid refl,
        at_worker-OneMore t (λ w. post t (record w { shared = false })) (λ w. refl) (λ w. refl)
            (c.threadid - 1) ws (below c.threadid ws valid) numbered,
      )
      | inr any ↦
          let (i, found, inside, _) = next_worker_cases n ws numbered some_worker in
          (
            (n + 1) % 2 ^ 32,
            _,
            rw (any, found) refl,
            at_worker-OneMore t (post t) (λ w. refl) (λ w. refl) i ws inside numbered,
          )
    ]
  where
    below : (k : ℕ) (ws : List Worker) → workerid_valid k ws ≡ true → k - 1 < length ws
    below k ws h = ground arith

some_worker : (ws : List Worker) → 0 < length ws → is_empty ws ≡ false
some_worker [] h = absurd (omega arith)
some_worker (w ∷ ws) h = refl

requests-tasks :
    (cs : List ServiceConfig) (s : Server)
    → Numbered 0 s.workers
    → 0 < length s.workers
    → Perm (tasks (service_requests cs s).workers) (requested cs ++ tasks s.workers)
      × (length (service_requests cs s).workers ≡ length s.workers)
requests-tasks [] s numbered pos = (Perm.refl _, refl)
requests-tasks (c ∷ cs) s numbered pos =
    let (m, ws', e, (sum, len, numbered')) =
      new_service-OneMore s.next_workerid c s.workers numbered (some_worker s.workers pos) in
    let (sum', len') =
      requests-tasks cs (record s { next_workerid = m; workers = ws' }) numbered'
        (omega (arith, len, pos)) in
    rw (e, service_requests)
      (
        Perm.trans sum' (
            Perm.trans (Perm.append_left (requested cs) sum)
              (perm_middle (requested cs) (tasks s.workers))),
        len' ∙ len,
      )

made :
    (n k : ℕ)
    → Numbered k (make_workers n (suc k))
      × (length (make_workers n (suc k)) ≡ n)
      × (tasks (make_workers n (suc k)) ≡ [])
made zero k = (tt, refl, refl)
made (suc n) k =
    let (numbered, len, none_yet) = made n (suc k) in ((refl, numbered), ap suc len, none_yet)

-- The number of threads, or 1 for none.
abbrev pub at_least_one : ℕ → ℕ
at_least_one n = if n == 0 then 1 else n

-- The tasks of a new server after the requests for services are those that they ask for, and the server is reached by steps.
pub requests-init_server :
    (sv : Services) (cs : List ServiceConfig) (n : ℕ)
    → Perm (tasks (service_requests cs (init_server n)).workers) (requested cs)
      × (length (service_requests cs (init_server n)).workers ≡ at_least_one n)
      × Steps sv (init_server n) (service_requests cs (init_server n))
unfolding init_server
requests-init_server sv cs n =
    let (numbered, len, none_yet) = made (at_least_one n) 0 in
    let pos : 0 < at_least_one n = ground arith in
    let (sum, len') = requests-tasks cs (init_server n) numbered (omega (arith, len, pos)) in
    (
      subst (λ q. Perm (tasks (service_requests cs (init_server n)).workers) q)
          (ap (λ q. requested cs ++ q) none_yet ∙ append-nil (requested cs)) sum,
      len' ∙ len,
      requests-Steps sv cs (init_server n) (init_server n) (here _),
    )
