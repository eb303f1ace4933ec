-- ===== src/Timer/Gone.antt =====
-- core/worker.cpp, the handler that `init` sets, and core/worker_timer.hpp: a timer whose service is gone.
use new_happy_server.Base.{ℕ, ◌+◌, ◌≡◌, refl, ap, ◌∙◌, Bool, true, false, none, some, List, [], ◌∷◌}
use new_happy_server.Worker.{Service, find_service}
use new_happy_server.Timer.Table.{
  Context, Timers, calls_remove, Handler, find_timer, put_timer, erase_timer, set_flag, removed,
  infinite, remove, run_calls, on_timer, notify, renew,
}
use new_happy_server.Timer.Times.{find-put_timer, erase-put_timer}

-- The handler of a worker, from what `on_timer` of a service does and the services that there are.
abbrev pub worker_handler : {S : Type 0} → Handler S → (S → List Service) → Handler S
worker_handler serves services_of i serviceid last s =
    elim (find_service serviceid (services_of s)) [
      | none ↦ (calls_remove i ∷ [], s)
      | some v ↦ serves i serviceid last s
    ]

module _ {S : Type 0} (serves : Handler S) (services_of : S → List Service)
    (i duration serviceid : ℕ) where
  abbrev endless : Context
  endless = record { duration = duration; times = infinite; serviceid = serviceid }

  abbrev marked : Context
  marked = record { duration = duration; times = infinite + removed; serviceid = serviceid }

  handler_gone :
      (last : Bool) (s : S)
      → find_service serviceid (services_of s) ≡ none
      → worker_handler serves services_of i serviceid last s ≡ (calls_remove i ∷ [], s)
  handler_gone last s gone = rw (worker_handler, gone) refl

  remove_found :
      (c : Context) (st : Timers S)
      → find_timer i st.timers ≡ some c
      → remove i st ≡ record st { timers = put_timer i (set_flag removed c) st.timers }
  unfolding remove
  remove_found c st found = rw (found, remove) refl

  notify_gone :
      (c : Context) (last : Bool) (st : Timers S)
      → find_service serviceid (services_of st.services) ≡ none
      → find_timer i st.timers ≡ some c
      → notify (worker_handler serves services_of) i serviceid last st
        ≡ record st { timers = put_timer i (set_flag removed c) st.timers }
  unfolding run_calls
  notify_gone c last st gone found =
      ap (λ x. run_calls x.0 (record st { services = x.1 })) (handler_gone last st.services gone)
      ∙ remove_found c st found

  renew-marked :
      (handler : Handler S) (st : Timers S)
      → find_timer i st.timers ≡ some marked
      → renew handler i st ≡ (duration, st)
  renew-marked handler st found = rw (found, renew) refl

  first_time :
      (st : Timers S)
      → find_service serviceid (services_of st.services) ≡ none
      → find_timer i st.timers ≡ some endless
      → on_timer (worker_handler serves services_of) i st
        ≡ (duration, record st { timers = put_timer i marked st.timers })
  unfolding on_timer
  first_time st gone found =
      let still = find-put_timer i marked endless st.timers found in
      rw (found, on_timer)
        (ap (renew (worker_handler serves services_of) i) (notify_gone endless false st gone found)
          ∙ renew-marked (worker_handler serves services_of)
              (record st { timers = put_timer i marked st.timers }) still)

  second_time :
      (st : Timers S)
      → find_service serviceid (services_of st.services) ≡ none
      → find_timer i st.timers ≡ some marked
      → on_timer (worker_handler serves services_of) i st
        ≡ (0, record st { timers = erase_timer i st.timers })
  unfolding on_timer
  second_time st gone found =
      rw (found, on_timer)
        (ap (λ told. (0, record told { timers = erase_timer i told.timers }))
            (notify_gone marked true st gone found)
          ∙ ap (λ t. (0, record st { timers = t })) (erase-put_timer i marked st.timers))

  -- A timer without end whose service the worker no longer has goes on for one more duration, and is
  -- then erased; nothing else changes, and no service hears of it.
  pub service-gone :
      (st : Timers S)
      → find_service serviceid (services_of st.services) ≡ none
      → find_timer i st.timers ≡ some endless
      → let handler = worker_handler serves services_of in
        let (first, between) = on_timer handler i st in
        (first ≡ duration)
        × (on_timer handler i between ≡ (0, record st { timers = erase_timer i st.timers }))
  service-gone st gone found =
      let handler = worker_handler serves services_of in
      let between : Timers S = record st { timers = put_timer i marked st.timers } in
      let first = first_time st gone found in
      let second = second_time between gone (find-put_timer i marked endless st.timers found) in
      (
        ap (λ x. x.0) first,
        ap (λ x. on_timer handler i x.1) first
            ∙ second
            ∙ ap (λ t. (0, record st { timers = t })) (erase-put_timer i marked st.timers),
      )
