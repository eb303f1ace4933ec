-- ===== src/Worker/Registry.antt =====
-- core/worker.cpp: the services of a worker under its tasks.
use new_happy_server.Base.{
  ℕ, zero, suc, ◌+◌, ◌-◌, ◌%◌, ◌^◌, ◌≡◌, refl, sym, ap, subst, ◌∙◌, ◌⊎◌, inl, inr, Bool, true,
  false, ◌&&◌, ◌||◌, none, some, List, [], ◌∷◌, ◌++◌, length, length-append, arith, Bool-cases,
  Option-cases, ◌==◌, if◌then◌else◌,
}
use new_happy_server.Worker.{
  Worker, Service, Services, State, Task, Event, is_ready, is_stopping, is_exited, is_empty,
  find_service, erase_service, next_id, next_uuid, pick_id, max_uuid, run_add, run_remove, run_stop,
  run_task, run_next, stop_services, add, remove, handle_messages, start_services, update_timer,
  exited, stopping,
}
use new_happy_server.Worker.Ids.{Distinct, Distinct-snoc, Distinct-erase, length-erase}

-- Every id that the rounds of `pick_id` try belongs to a service.
abbrev pub AllTaken : ℕ → ℕ → ℕ → List Service → Type 0
AllTaken zero workerid uuid ss = Unit {0}
AllTaken (suc rounds) workerid uuid ss =
    ((s : Service) × (find_service (next_id workerid uuid) ss ≡ some s))
    × AllTaken rounds workerid (next_uuid uuid) ss

-- The id that is picked belongs to no service, unless all the ids that were tried are taken.
pub pick_id_cases :
    (rounds workerid last : ℕ) (ss : List Service) (uuid : ℕ)
    → (find_service (pick_id rounds workerid last ss uuid).1 ss ≡ none)
      ⊎ AllTaken rounds workerid uuid ss
unfolding pick_id
pick_id_cases zero workerid last ss uuid = inr tt
pick_id_cases (suc rounds) workerid last ss uuid =
    elim (Option-cases (find_service (next_id workerid uuid) ss)) [
      | inl free ↦ inl (rw (free, pick_id) free)
      | inr (s, taken) ↦
          elim (pick_id_cases rounds workerid (next_id workerid uuid) ss (next_uuid uuid)) [
            | inl found ↦ inl (rw (taken, pick_id) found)
            | inr rest ↦ inr ((s, taken), rest)
          ]
    ]

-- The ids are distinct, the counter is their number, an exited worker has no service, and one that is
-- stopping has one.
pub record IsRegistry (w : Worker) : Type 0 where
  pub distinct : Distinct w.services
  pub counted : w.count ≡ length w.services % 2 ^ 32
  pub exited_empty : (is_exited w.state ≡ false) ⊎ (is_empty w.services ≡ true)
  pub stopping_serves : (is_stopping w.state ≡ false) ⊎ (is_empty w.services ≡ false)

pub same_services :
    (w w' : Worker)
    → w'.services ≡ w.services
    → w'.state ≡ w.state
    → w'.count ≡ w.count
    → IsRegistry w
    → IsRegistry w'
same_services w w' a b c r = record {
  distinct = subst Distinct (sym a) r.distinct;
  counted = c ∙ r.counted ∙ ap (λ ss. length ss % 2 ^ 32) (sym a);
  exited_empty = rw (a, b) r.exited_empty;
  stopping_serves = rw (a, b) r.stopping_serves;
}

stop-IsRegistry : (w : Worker) → IsRegistry w → IsRegistry (run_stop w).0
unfolding run_stop
stop-IsRegistry w r = elim (Bool-cases (is_stopping w.state || is_exited w.state)) [
  | inl done ↦ rw done r
  | inr going ↦ elim (Bool-cases (is_empty w.services)) [
    | inl empty ↦
        rw (going, empty)
          (record {
            distinct = r.distinct;
            counted = r.counted;
            exited_empty = inr empty;
            stopping_serves = inl refl;
          })
    | inr serves ↦
        rw (going, serves)
          (record {
            distinct = r.distinct;
            counted = r.counted;
            exited_empty = inl refl;
            stopping_serves = inr serves;
          })
  ]
]

ready_only : (s : State) → is_ready s ≡ true → (is_exited s ≡ false) × (is_stopping s ≡ false)
ready_only s h = ground arith

added-IsRegistry :
    (w : Worker) (u : ℕ) (new : Service)
    → is_ready w.state ≡ true
    → find_service new.id w.services ≡ none
    → IsRegistry w
    → IsRegistry
        (record w { uuid = u; services = w.services ++ (new ∷ []); count = (w.count + 1) % 2 ^ 32 })
added-IsRegistry w u new h free r = record {
  distinct = Distinct-snoc w.services new r.distinct free;
  counted = omega (arith, r.counted, length-append w.services (new ∷ []));
  exited_empty = inl (ready_only w.state h).0;
  stopping_serves = inl (ready_only w.state h).1;
}

found_serves :
    (i : ℕ) (ss : List Service) (s : Service) → find_service i ss ≡ some s → is_empty ss ≡ false
unfolding find_service
found_serves i [] s h = ground arith
found_serves i (t ∷ ss) s h = refl

removed-IsRegistry :
    (sv_id : ℕ) (s : Service) (w : Worker) (sh : Bool)
    → find_service sv_id w.services ≡ some s
    → IsRegistry w
    → let left = erase_service sv_id w.services in
      let w₁ : Worker = record w {
        services = left;
        count = (w.count + 2 ^ 32 - 1) % 2 ^ 32;
        shared = sh;
      } in
      IsRegistry (if is_empty left && is_stopping w.state then record w₁ { state = exited } else w₁)
removed-IsRegistry sv_id s w sh found r =
    let left = erase_service sv_id w.services in
    let running : (is_exited w.state ≡ false) ⊎ (is_empty left ≡ true) =
      ground (arith, r.exited_empty, found_serves sv_id w.services s found) in
    let d = Distinct-erase sv_id w.services r.distinct in
    let c : (w.count + 2 ^ 32 - 1) % 2 ^ 32 ≡ length left % 2 ^ 32 =
      omega (arith, r.counted, length-erase sv_id w.services s r.distinct found) in
    elim (Bool-cases (is_empty left)) [
      | inl empty ↦ elim (Bool-cases (is_stopping w.state)) [
        | inl ending ↦
            rw (empty, ending)
              (record {
                distinct = d;
                counted = c;
                exited_empty = inr empty;
                stopping_serves = inl refl;
              })
        | inr going ↦
            rw (empty, going)
              (record {
                distinct = d;
                counted = c;
                exited_empty = inr empty;
                stopping_serves = inl going;
              })
      ]
      | inr serves ↦ rw serves (record {
        distinct = d;
        counted = c;
        exited_empty = running;
        stopping_serves = inr serves;
      })
    ]

refused-IsRegistry :
    (w : Worker) (u : ℕ) (sh : Bool)
    → IsRegistry w
    → IsRegistry (record w { uuid = u; shared = sh })
refused-IsRegistry w u sh r = same_services w (record w { uuid = u; shared = sh }) refl refl refl r

module _ (sv : Services) (server_state : State) where
  add-IsRegistry :
      (type config : List ℕ) (unique : Bool) (creator session : ℕ) (w : Worker)
      → IsRegistry w
      → IsRegistry (run_add sv server_state type config unique creator session w).0
  unfolding run_add
  add-IsRegistry type config unique creator session w r =
      let u = (pick_id max_uuid w.workerid 0 w.services w.uuid).0 in
      let i = (pick_id max_uuid w.workerid 0 w.services w.uuid).1 in
      let refused = refused-IsRegistry w u (is_empty w.services) r in
      elim (Bool-cases (is_ready w.state)) [
        | inr closed ↦ rw closed (refused-IsRegistry w w.uuid (is_empty w.services) r)
        | inl open_ ↦ elim (Bool-cases (sv.registered type)) [
          | inr no_type ↦ rw (open_, no_type) refused
          | inl typed ↦ elim (Bool-cases (sv.init_succeeds type config i)) [
            | inr failed ↦ rw (open_, typed, failed) refused
            | inl started ↦ elim (Option-cases (find_service i w.services)) [
              | inr (old, taken) ↦ rw (open_, typed, started, taken) refused
              | inl free ↦
                  rw (open_, typed, started, free)
                    (added-IsRegistry w u
                      (record {
                        id = i;
                        name = sv.name_of type config i;
                        unique = unique;
                        is_ok = true;
                      })
                      open_ free r)
            ]
          ]
        ]
      ]

  remove-IsRegistry :
      (i sender session : ℕ) (w : Worker)
      → IsRegistry w
      → IsRegistry (run_remove i sender session w).0
  unfolding run_remove
  remove-IsRegistry i sender session w r = elim (Option-cases (find_service i w.services)) [
    | inr (s, found) ↦ rw found (removed-IsRegistry i s w _ found r)
    | inl absent ↦
        let serving : (is_empty w.services && is_stopping w.state) ≡ false =
          ground (arith, r.stopping_serves) in
        rw (absent, serving) r
  ]

  -- Every task keeps a worker's registry in order: distinct ids, the counter, no service when it is
  -- exited, and some service while it is stopping.
  pub run_task-IsRegistry :
      (t : Task) (w : Worker) → IsRegistry w → IsRegistry (run_task sv server_state t w).0
  unfolding run_task
  run_task-IsRegistry stop_services w r = stop-IsRegistry w r
  run_task-IsRegistry (add type config unique creator session) w r =
      add-IsRegistry type config unique creator session w r
  run_task-IsRegistry (remove i sender session) w r = remove-IsRegistry i sender session w r
  run_task-IsRegistry handle_messages w r = same_services w (record w { mq = [] }) refl refl refl r
  run_task-IsRegistry start_services w r = r
  run_task-IsRegistry update_timer w r =
      same_services w (record w { updating = false }) refl refl refl r

  pub run_next-IsRegistry : (w : Worker) → IsRegistry w → IsRegistry (run_next sv server_state w).0
  unfolding run_next
  run_next-IsRegistry w r = elim (Bool-cases (is_exited w.state)) [
    | inl over ↦ rw over r
    | inr runs ↦ rw runs (next w.queue)
  ]
    where
      next :
          (q : List Task)
          → let step : Worker × List Event = elim q [
            | [] ↦ (w, [])
            | t ∷ ts ↦ run_task sv server_state t (record w { queue = ts })
          ] in
            IsRegistry step.0
      next [] = r
      next (t ∷ ts) =
          run_task-IsRegistry t (record w { queue = ts })
            (same_services w (record w { queue = ts }) refl refl refl r)

  -- The last service that leaves a stopping worker ends it: `remove` of its only service leaves it
  -- exited and without services.
  pub last_service_exits :
      (w : Worker) (s : Service) (sender session : ℕ)
      → w.services ≡ s ∷ []
      → w.state ≡ stopping
      → let w' = (run_task sv server_state (remove s.id sender session) w).0 in
        (w'.state ≡ exited) × (w'.services ≡ [])
  unfolding run_task run_remove find_service erase_service
  last_service_exits w s sender session only stops =
      let same : (s.id == s.id) ≡ true = ground arith in
      let found : find_service s.id w.services ≡ some s = rw only (rw same refl) in
      let none_left : erase_service s.id w.services ≡ [] = rw only (rw same refl) in
      rw (found, none_left, stops) (refl, refl)
