-- ===== src/Server/Workers.antt =====
-- core/server.cpp and core/router.cpp: what holds of every worker is kept by the calls that reach some
-- of them.
use new_happy_server.Base.{
  ℕ, zero, suc, ◌-◌, ◌≡◌, ap, subst, All, ◌||◌, Bool, false, none, some, List, [], ◌∷◌, get_elem?,
  arith, Bool-cases, Option-cases, inl, inr, ◌==◌,
}
use new_happy_server.Worker.{
  Worker, Message, Event, Text, Task, send, post, add, remove, ptype_unknown, respond, tell_all,
  send_on, init_service, start_service, exit_service, destroy_service, dispatch, tick, ptype_error,
  router_remove_header, worker_not_found,
}
use new_happy_server.Router.{
  at_worker, worker_id, workerid_valid, send_message, broadcast, response, deliver, after_sent,
  new_service, remove_service, next_worker,
}
use new_happy_server.Server.{each_worker, deliver_all}

some_inj : {A : Type 0} (x y : A) → some x ≡ some y → x ≡ y
some_inj x y h = ground arith

some_workers : (x y : ℕ × List Worker) → some x ≡ some y → x.1 ≡ y.1
some_workers x y h = ap (λ z. z.1) (some_inj x y h)

module _ (P : Worker → Type 0) where
  abbrev pub Every : List Worker → Type 0
  Every ws = All P ws

  pub at_worker-Every :
      (n : ℕ) (f : Worker → Worker) (ws : List Worker)
      → ((w : Worker) → P w → P (f w))
      → Every ws
      → Every (at_worker n f ws)
  unfolding at_worker
  at_worker-Every n f [] keeps e = tt
  at_worker-Every zero f (w ∷ ws) keeps e = (keeps w e.0, e.1)
  at_worker-Every (suc n) f (w ∷ ws) keeps e = (e.0, at_worker-Every n f ws keeps e.1)

  pub each_worker-Every :
      (f : Worker → Worker) (ws : List Worker)
      → ((w : Worker) → P w → P (f w))
      → Every ws
      → Every (each_worker f ws)
  each_worker-Every f [] keeps e = tt
  each_worker-Every f (w ∷ ws) keeps e = (keeps w e.0, each_worker-Every f ws keeps e.1)

  pub get_elem?-Every :
      (ws : List Worker) (i : ℕ) (w : Worker) → Every ws → get_elem? ws i ≡ some w → P w
  get_elem?-Every [] i w e h = ground arith
  get_elem?-Every (v ∷ ws) zero w e h = subst P (some_inj v w h) e.0
  get_elem?-Every (v ∷ ws) (suc i) w e h = get_elem?-Every ws i w e.1 h

  module _ (sends : (m : Message) (w : Worker) → P w → P (send m w)) where
    pub send_message-Every :
        (m : Message) (ws : List Worker) → Every ws → Every (after_sent ws (send_message m ws))
    unfolding send_message
    send_message-Every m ws e = elim (Bool-cases (m.type == ptype_unknown)) [
      | inl no_type ↦ rw no_type e
      | inr typed ↦ elim (Bool-cases (m.receiver == 0)) [
        | inl nobody ↦ rw (typed, nobody) e
        | inr someone ↦ elim (Bool-cases (workerid_valid (worker_id m.receiver) ws)) [
          | inl valid ↦
              rw (typed, someone, valid)
                (at_worker-Every (worker_id m.receiver - 1) (send m) ws (sends m) e)
          | inr absent ↦ rw (typed, someone, absent) e
        ]
      ]
    ]

    pub broadcast-Every :
        (sender : ℕ) (body header : Text) (type : ℕ) (ws : List Worker)
        → Every ws
        → Every (broadcast sender body header type ws)
    unfolding broadcast
    broadcast-Every sender body header type [] e = tt
    broadcast-Every sender body header type (w ∷ ws) e =
        (sends _ w e.0, broadcast-Every sender body header type ws e.1)

    pub response-Every :
        (to : ℕ) (header content : Text) (session type : ℕ) (ws : List Worker)
        → Every ws
        → Every (elim (response to header content session type ws) [
          | none ↦ ws
          | some r ↦ after_sent ws r
        ])
    unfolding response
    response-Every to header content session type ws e =
        elim (Bool-cases ((to == 0) || (session == 0))) [
          | inl nobody ↦ rw (nobody, response) e
          | inr someone ↦
              rw (someone, response)
                (send_message-Every
                  (record {
                    type = type;
                    sender = 0;
                    receiver = to;
                    session = session;
                    header = header;
                    broadcast = false;
                    body = content;
                  })
                  ws e)
        ]

    deliver-Every : (event : Event) (ws : List Worker) → Every ws → Every (deliver event ws)
    unfolding deliver
    deliver-Every (respond to header content session type) ws e =
        response-Every to header content session type ws e
    deliver-Every (tell_all sender header content type) ws e =
        broadcast-Every sender content header type ws e
    deliver-Every (send_on m) ws e = send_message-Every m ws e
    deliver-Every (init_service i) ws e = e
    deliver-Every (start_service i) ws e = e
    deliver-Every (exit_service i) ws e = e
    deliver-Every (destroy_service i) ws e = e
    deliver-Every (dispatch i m) ws e = e
    deliver-Every tick ws e = e

    pub deliver_all-Every :
        (events : List Event) (ws : List Worker) → Every ws → Every (deliver_all events ws)
    deliver_all-Every [] ws e = e
    deliver_all-Every (event ∷ events) ws e =
        deliver_all-Every events (deliver event ws) (deliver-Every event ws e)

    pub new_service-Every :
        (n : ℕ) (type config : List ℕ) (unique : Bool) (workerid creator session : ℕ)
        (ws : List Worker) (m : ℕ) (ws' : List Worker)
        → ((t : Task) (w : Worker) → P w → P (post t w))
        → ((w : Worker) → P w → P (record w { shared = false }))
        → Every ws
        → new_service n type config unique workerid creator session ws ≡ some (m, ws')
        → Every ws'
    unfolding new_service
    new_service-Every n type config unique workerid creator session ws m ws' posts unshared e h =
        let t = add type config unique creator session in
        elim (Bool-cases (workerid_valid workerid ws)) [
          | inl valid ↦ subst Every (some_workers _ _ (rw valid at h)) (
              at_worker-Every (workerid - 1) (λ w. post t (record w { shared = false })) ws
                (λ w p. posts t (record w { shared = false }) (unshared w p)) e)
          | inr any ↦ elim (Option-cases (next_worker n ws)) [
            | inl nobody ↦ absurd (ground (arith, rw (any, nobody) at h))
            | inr (i, found) ↦
                subst Every (some_workers _ _ (rw (any, found) at h))
                  (at_worker-Every i (post t) ws (posts t) e)
          ]
        ]

    pub remove_service-Every :
        (serviceid sender session : ℕ) (ws : List Worker)
        → ((t : Task) (w : Worker) → P w → P (post t w))
        → Every ws
        → Every (elim (remove_service serviceid sender session ws) [
          | none ↦ ws
          | some r ↦ after_sent ws r
        ])
    unfolding remove_service
    remove_service-Every serviceid sender session ws posts e =
        elim (Bool-cases (workerid_valid (worker_id serviceid) ws)) [
          | inl valid ↦ rw valid (
              at_worker-Every (worker_id serviceid - 1) (post (remove serviceid sender session)) ws
                (posts (remove serviceid sender session)) e)
          | inr absent ↦ rw absent (
              response-Every sender router_remove_header (worker_not_found (worker_id serviceid))
                session ptype_error ws e)
        ]
