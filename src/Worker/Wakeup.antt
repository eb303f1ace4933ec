-- ===== src/Worker/Wakeup.antt =====
-- core/worker.cpp: messages that wait are never forgotten.
use new_happy_server.Base.{
  ℕ, ◌+◌, ◌<◌, ltb, ◌≡◌, refl, sym, ap, subst, ◌∙◌, ◌⊎◌, inl, inr, Bool, true, false, ◌||◌, List,
  [], ◌∷◌, ◌++◌, length, length-append, arith, Bool-cases, Option-cases, ◌&&◌, ◌-◌, ◌%◌, ◌^◌, ◌==◌,
  if◌then◌else◌,
}
use new_happy_server.Worker.{
  Worker, Services, State, Event, pick_id, max_uuid, Task, Message, is_empty, is_exited,
  is_stopping, is_ready, find_service, erase_service, exited, post, send, post_owed, update,
  run_task, run_next, run_add, run_remove, run_stop, stop_services, add, remove, handle_messages,
  start_services, update_timer,
}

abbrev pub has_handler : List Task → Bool
has_handler [] = false
has_handler (handle_messages ∷ ts) = true
has_handler (t ∷ ts) = has_handler ts

-- No message waits, or a task that takes them all is queued or about to be queued by a thread.
abbrev pub IsAwake : Worker → Type 0
IsAwake w = (w.mq ≡ []) ⊎ ((has_handler w.queue ≡ true) ⊎ (0 < w.owed))

has_handler-snoc :
    (ts : List Task) (t : Task) → has_handler ts ≡ true → has_handler (ts ++ (t ∷ [])) ≡ true
has_handler-snoc [] t h = ground arith
has_handler-snoc (stop_services ∷ ts) t h = has_handler-snoc ts t h
has_handler-snoc (add a b c d e ∷ ts) t h = has_handler-snoc ts t h
has_handler-snoc (remove a b c ∷ ts) t h = has_handler-snoc ts t h
has_handler-snoc (handle_messages ∷ ts) t h = refl
has_handler-snoc (start_services ∷ ts) t h = has_handler-snoc ts t h
has_handler-snoc (update_timer ∷ ts) t h = has_handler-snoc ts t h

handler_added : (ts : List Task) → has_handler (ts ++ (handle_messages ∷ [])) ≡ true
handler_added [] = refl
handler_added (stop_services ∷ ts) = handler_added ts
handler_added (add a b c d e ∷ ts) = handler_added ts
handler_added (remove a b c ∷ ts) = handler_added ts
handler_added (handle_messages ∷ ts) = refl
handler_added (start_services ∷ ts) = handler_added ts
handler_added (update_timer ∷ ts) = handler_added ts

pub post-IsAwake : (t : Task) (w : Worker) → IsAwake w → IsAwake (post t w)
post-IsAwake t w (inl none_wait) = inl none_wait
post-IsAwake t w (inr (inl queued)) = inr (inl (has_handler-snoc w.queue t queued))
post-IsAwake t w (inr (inr owes)) = inr (inr owes)

-- After the first part of `send` the message waits behind those before it, and a task that takes them is
-- queued or about to be.
pub send-IsAwake :
    (m : Message) (w : Worker) → IsAwake w → IsAwake (send m w) × ((send m w).mq ≡ w.mq ++ (m ∷ []))
unfolding send
send-IsAwake m w a = elim (Bool-cases (length (w.mq ++ (m ∷ [])) == 1)) [
  | inl first ↦ rw first (inr (inr (omega arith)), refl)
  | inr later ↦ rw later (
    elim a [
      | inl none_wait ↦
          absurd (ground (arith, later, length-append w.mq (m ∷ []), ap length none_wait))
      | inr queued ↦ inr queued
    ],
    refl,
  )
]

pub post_owed-IsAwake : (w : Worker) → IsAwake w → IsAwake (post_owed w)
unfolding post_owed
post_owed-IsAwake w a = elim (Bool-cases (ltb 0 w.owed)) [
  | inl owes ↦ rw owes (inr (inl (handler_added w.queue)))
  | inr none_owes ↦ rw none_owes a
]

pub update-IsAwake : (w : Worker) → IsAwake w → IsAwake (update w)
unfolding update
update-IsAwake w a = elim (Bool-cases w.updating) [
  | inl pending ↦ rw pending a
  | inr none_pending ↦ rw none_pending (post-IsAwake update_timer (record w { updating = true }) a)
]

abbrev SameMessages : Worker → Worker → Type 0
SameMessages w v = (w.mq ≡ v.mq) × (w.queue ≡ v.queue) × (w.owed ≡ v.owed)

module _ (sv : Services) (server_state : State) where
  stop_keeps : (w : Worker) → SameMessages (run_stop w).0 w
  unfolding run_stop
  stop_keeps w = elim (Bool-cases (is_stopping w.state || is_exited w.state)) [
    | inl done ↦ rw done (refl, refl, refl)
    | inr going ↦ elim (Bool-cases (is_empty w.services)) [
      | inl empty ↦ rw (going, empty) (refl, refl, refl)
      | inr serves ↦ rw (going, serves) (refl, refl, refl)
    ]
  ]

  add_keeps :
      (type config : List ℕ) (unique : Bool) (creator session : ℕ) (w : Worker)
      → let w' = (run_add sv server_state type config unique creator session w).0 in
        SameMessages w' w
  unfolding run_add
  add_keeps type config unique creator session w =
      let u = (pick_id max_uuid w.workerid 0 w.services w.uuid).0 in
      let i = (pick_id max_uuid w.workerid 0 w.services w.uuid).1 in
      elim (Bool-cases (is_ready w.state)) [
        | inr closed ↦ rw closed (refl, refl, refl)
        | inl open_ ↦ elim (Bool-cases (sv.registered type)) [
          | inr no_type ↦ rw (open_, no_type) (refl, refl, refl)
          | inl typed ↦ elim (Bool-cases (sv.init_succeeds type config i)) [
            | inr failed ↦ rw (open_, typed, failed) (refl, refl, refl)
            | inl started ↦ elim (Option-cases (find_service i w.services)) [
              | inr (old, taken) ↦ rw (open_, typed, started, taken) (refl, refl, refl)
              | inl free ↦ rw (open_, typed, started, free) (refl, refl, refl)
            ]
          ]
        ]
      ]

  remove_keeps :
      (i sender session : ℕ) (w : Worker)
      → let w' = (run_remove i sender session w).0 in SameMessages w' w
  unfolding run_remove
  remove_keeps i sender session w = elim (Option-cases (find_service i w.services)) [
    | inl absent ↦ rw absent (ending w)
    | inr (s, found) ↦ rw found (
        ending (record w {
          services = erase_service i w.services;
          count = (w.count + 2 ^ 32 - 1) % 2 ^ 32;
          shared = if is_empty (erase_service i w.services) then true else w.shared;
        }))
  ]
    where
      ending :
          (v : Worker)
          → let v' : Worker =
              if is_empty v.services && is_stopping v.state
              then record v { state = exited }
              else v in
            SameMessages v' v
      ending v = elim (Bool-cases (is_empty v.services && is_stopping v.state)) [
        | inl ends ↦ rw ends (refl, refl, refl)
        | inr goes ↦ rw goes (refl, refl, refl)
      ]

  same_messages :
      (w w' : Worker) (ts : List Task)
      → SameMessages w' (record w { queue = ts })
      → IsAwake (record w { queue = ts })
      → IsAwake w'
  same_messages w w' ts k (inl none_wait) = inl (k.0 ∙ none_wait)
  same_messages w w' ts k (inr (inl queued)) = inr (inl (ap has_handler k.1 ∙ queued))
  same_messages w w' ts k (inr (inr owes)) = inr (inr (subst (λ n. 0 < n) (sym k.2) owes))

  task_keeps :
      (t : Task) (w : Worker) (ts : List Task)
      → IsAwake (record w { queue = t ∷ ts })
      → IsAwake (run_task sv server_state t (record w { queue = ts })).0
  unfolding run_task
  task_keeps stop_services w ts a =
      let k = stop_keeps (record w { queue = ts }) in
      same_messages w (run_stop (record w { queue = ts })).0 ts k a
  task_keeps (add type config unique creator session) w ts a =
      let k = add_keeps type config unique creator session (record w { queue = ts }) in
      same_messages w
        (run_add sv server_state type config unique creator session (record w { queue = ts })).0 ts
        k a
  task_keeps (remove i sender session) w ts a =
      let k = remove_keeps i sender session (record w { queue = ts }) in
      same_messages w (run_remove i sender session (record w { queue = ts })).0 ts k a
  task_keeps handle_messages w ts a = inl refl
  task_keeps start_services w ts a = a
  task_keeps update_timer w ts a = a

  -- A round of the thread's loop keeps that no message waits without a task that takes it, queued or about to be queued.
  pub run_next-IsAwake : (w : Worker) → IsAwake w → IsAwake (run_next sv server_state w).0
  unfolding run_next
  run_next-IsAwake w a = elim (Bool-cases (is_exited w.state)) [
    | inl over ↦ rw over a
    | inr runs ↦ rw runs (next w.queue refl)
  ]
    where
      next :
          (q : List Task)
          → w.queue ≡ q
          → let r : Worker × List Event = elim q [
            | [] ↦ (w, [])
            | t ∷ ts ↦ run_task sv server_state t (record w { queue = ts })
          ] in
            IsAwake r.0
      next [] e = a
      next (t ∷ ts) e = task_keeps t w ts (subst (λ q. IsAwake (record w { queue = q })) e a)
