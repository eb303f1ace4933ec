-- ===== src/Start/Environment.antt =====
-- happy.cpp, `main`: what holds of the server that it runs.
use new_happy_server.Base.{
  ℕ, ◌≡◌, refl, sym, ap, subst, ◌∙◌, inl, inr, Option, none, some, List, [], ◌∷◌, length,
  Bool-cases, All, arith, ◌==◌, ==_iff, if◌then◌else◌,
}
use mathlib.Core.List.{Perm}
use new_happy_server.Base.Texts.{codes}
use new_happy_server.Config.{Attempt, gives, refuses, crashes, ServerConfig, Manager, new_manager}
use new_happy_server.Config.Load.{is_empty, find_config, find_sid, parse}
use new_happy_server.Config.Loaded.{IsTable, IsServer, parse-IsTable}
use new_happy_server.Router.{get_env, set_env, set_value, try_get_value}
use new_happy_server.Server.Reachable.{IsSound, reachable-IsSound}
use new_happy_server.Start.{
  System, Options, Ending, returns, aborts, runs, Started, start, outcome, parse_args,
  start_options, main, run_found, after_parse, after_own_parse, environment, default_options,
  directory_exists, read_all,
}
use new_happy_server.Start.Requests.{tasks, requested, at_least_one, requests-init_server}
use new_happy_server.Worker.{Services}

find_config-IsServer :
    (sid : ℕ) (known : List (ℕ × ServerConfig)) (c : ServerConfig)
    → IsTable known
    → find_config sid known ≡ some c
    → IsServer c × (c.sid ≡ sid)
find_config-IsServer sid [] c t h = ground arith
find_config-IsServer sid ((k, s) ∷ rest) c (e, is, fresh, t) h = elim (Bool-cases (k == sid)) [
  | inl same ↦
      let found : s ≡ c = ground (arith, rw same at h) in
      (subst IsServer found is, sym (ap (λ x. x.sid) found) ∙ sym e ∙ (==_iff k sid).0 same)
  | inr other ↦ find_config-IsServer sid rest c t (rw other at h)
]

-- The text that `parse` reads, and the table after it.
abbrev pub text_of : System → Options → List ℕ
text_of sys o =
    if is_empty o.service_file then sys.own_config o.service_file else read_all (sys.content o.conf)

abbrev pub manager_of : System → Options → Manager
manager_of sys o = (parse sys.platform (text_of sys o) o.sid new_manager).0

-- The configuration is the one that `parse` has read for the sid; the environment has it, the workers
-- are one for each thread, or one for none, their tasks are those that the configured services ask
-- for, and the workers are sound.
pub record IsReady (sys : System) (o : Options) (st : Started) : Type 0 where
  pub config : ServerConfig
  pub found : find_sid o.sid (manager_of sys o) ≡ some config
  pub is_server : IsServer config
  pub own_sid : config.sid ≡ o.sid
  pub sid : get_env (codes "SID") st.env ≡ sys.platform.int_text config.sid
  pub name : get_env (codes "SERVER_NAME") st.env ≡ config.name
  pub inner_host : get_env (codes "INNER_HOST") st.env ≡ config.inner_host
  pub outer_host : get_env (codes "OUTER_HOST") st.env ≡ config.outer_host
  pub thread_num : get_env (codes "THREAD_NUM") st.env ≡ sys.platform.int_text config.thread
  pub text : get_env (codes "CONFIG") st.env ≡ (manager_of sys o).config_
  pub workers : length st.server.workers ≡ at_least_one config.thread
  pub requests : Perm (tasks st.server.workers) (requested config.services)
  pub sound : All IsSound st.server.workers

data RunsReady (sys : System) (o : Options) : Ending → Type 0 where
  not_run : (code : ℕ) → RunsReady sys o (returns code)
  aborted : RunsReady sys o aborts
  ready_run : {st : Started} → IsReady sys o st → RunsReady sys o (runs st)

IsReady-of :
    (sys : System) (o : Options) (st : Started) → RunsReady sys o (runs st) → IsReady sys o st
IsReady-of sys o st (ready_run ready) = ready

module _ (sys : System) (sv : Services) (o : Options) where
  start-IsReady :
      (m : Manager) (c : ServerConfig)
      → m ≡ manager_of sys o
      → IsTable m.data_
      → find_sid o.sid m ≡ some c
      → IsReady sys o (start sys c m.config_)
  unfolding start environment set_env set_value get_env try_get_value
  start-IsReady m c e t h =
      let (asked, made, path) = requests-init_server sv c.services c.thread in
      let (is, own) = find_config-IsServer o.sid m.data_ c t h in
      record {
        config = c;
        found = subst (λ v. find_sid o.sid v ≡ some c) e h;
        is_server = is;
        own_sid = own;
        sid = refl;
        name = refl;
        inner_host = refl;
        outer_host = refl;
        thread_num = refl;
        text = ap (λ v. v.config_) e;
        workers = made;
        requests = asked;
        sound = reachable-IsSound sv c.thread _ path;
      }

  found-RunsReady :
      (m : Manager) (found : Option ServerConfig)
      → m ≡ manager_of sys o
      → IsTable m.data_
      → find_sid o.sid m ≡ found
      → RunsReady sys o (run_found sys m found)
  found-RunsReady m none e t h = not_run 3
  found-RunsReady m (some c) e t h = ready_run (start-IsReady m c e t h)

  parse-RunsReady :
      (r : Manager × Attempt (Unit {0}))
      → r.0 ≡ manager_of sys o
      → IsTable r.0.data_
      → RunsReady sys o (after_parse sys o.sid r)
  parse-RunsReady (m, gives u) e t = found-RunsReady m (find_sid o.sid m) e t refl
  parse-RunsReady (m, refuses) e t = not_run 2
  parse-RunsReady (m, crashes) e t = aborted

  own-RunsReady :
      (r : Manager × Attempt (Unit {0}))
      → r.0 ≡ manager_of sys o
      → IsTable r.0.data_
      → RunsReady sys o (after_own_parse sys o.sid r)
  own-RunsReady (m, gives u) e t = found-RunsReady m (find_sid o.sid m) e t refl
  own-RunsReady (m, refuses) e t = found-RunsReady m (find_sid o.sid m) e t refl
  own-RunsReady (m, crashes) e t = aborted

  read_is :
      (text : List ℕ)
      → text ≡ text_of sys o
      → (parse sys.platform text o.sid new_manager).0 ≡ manager_of sys o
  read_is text e = ap (λ t. (parse sys.platform t o.sid new_manager).0) e

  options-RunsReady : RunsReady sys o (start_options sys o)
  unfolding start_options
  options-RunsReady = elim (Bool-cases (is_empty o.service_file)) [
    | inl own ↦
        let text : sys.own_config o.service_file ≡ text_of sys o = rw own refl in
        rw own (
          own-RunsReady (parse sys.platform (sys.own_config o.service_file) o.sid new_manager)
            (read_is _ text)
            (parse-IsTable sys.platform (sys.own_config o.service_file) o.sid new_manager tt))
    | inr file ↦ elim (Bool-cases (directory_exists (sys.status o.conf))) [
      | inl there ↦
          let text : read_all (sys.content o.conf) ≡ text_of sys o = rw file refl in
          rw (file, there)
            (parse-RunsReady (parse sys.platform (read_all (sys.content o.conf)) o.sid new_manager)
              (read_is _ text)
              (parse-IsTable sys.platform (read_all (sys.content o.conf)) o.sid new_manager tt))
      | inr missing ↦ rw (file, missing) (not_run 1)
    ]
  ]

module _ (sys : System) (sv : Services) (st : Started) where
  outcome-IsReady :
      (a : Attempt Options)
      → outcome sys a ≡ runs st
      → (o : Options) × (a ≡ gives o) × IsReady sys o st
  outcome-IsReady (gives o) h =
      (o, refl, IsReady-of sys o st (subst (RunsReady sys o) h (options-RunsReady sys sv o)))
  outcome-IsReady refuses h = absurd (ground (arith, h))
  outcome-IsReady crashes h = absurd (ground (arith, h))

-- For any arguments, files and services: if `main` runs a server, the arguments are read to options,
-- and it runs the server that `parse` of the text they name has put into its table for their sid; that
-- server has this sid, which is not -1, a name and fewer than 256 threads. When the requests for
-- services have been made, and before any worker takes a task, the environment has the server's sid,
-- name, hosts and number of threads and the text that `parse` has prepared; there is one worker for
-- each thread, or one for none; the workers' tasks are, in some order, one for each configured service,
-- with its type, its configuration and whether it is unique; and each worker has its registry in
-- order, and no message that waits unless a task that takes it is queued or about to be.
pub main-IsReady :
    (sys : System) (sv : Services) (args : List (List ℕ)) (st : Started)
    → main sys args ≡ runs st
    → (o : Options) × (parse_args sys args default_options ≡ gives o) × IsReady sys o st
unfolding main
main-IsReady sys sv args st h = outcome-IsReady sys sv st (parse_args sys args default_options) h
