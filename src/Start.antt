-- ===== src/Start.antt =====
-- happy.cpp: the arguments of the program and what `main` does up to `run`. The file system and `std::stoi`
-- are the record `System`. Signals, prints, the code page and the working directory are left out, as is
-- the wait for the services, which yields until other threads have made them.
pub mod Arguments
pub mod Environment
pub mod Requests
use new_happy_server.Base.{
  ℕ, ◌-◌, ◌^◌, Bool, true, false, Option, none, some, List, [], ◌∷◌, ◌++◌, ◌==◌, ◌||◌,
  if◌then◌else◌,
}
use new_happy_server.Base.Texts.{codes}
use new_happy_server.Config.{
  Platform, Attempt, gives, refuses, crashes, ServiceConfig, ServerConfig, Manager, new_manager,
}
use new_happy_server.Config.Load.{is_empty, parse, find_sid}
use new_happy_server.Logger.{LogLevel, set_level}
use new_happy_server.Router.{same_name, set_env, new_service}
use new_happy_server.Server.{Server, init_server}

-- `status` is none where the file system reports an error, `to_int` where `stoi` throws. `own_config`
-- is the text of `format` for a Lua file.
pub record System : Type 0 where
  pub platform : Platform
  pub status : List ℕ → Option Bool
  pub extension : List ℕ → List ℕ
  pub to_int : List ℕ → Option ℕ
  pub content : List ℕ → Option (List ℕ)
  pub own_config : List ℕ → List ℕ

pub record Options : Type 0 where
  pub sid : ℕ
  pub conf : List ℕ
  pub service_file : List ℕ

abbrev pub default_options : Options
default_options = record { sid = 1; conf = codes "config.json"; service_file = codes "main.lua" }

abbrev pub directory_exists : Option Bool → Bool
directory_exists none = false
directory_exists (some b) = b

abbrev pub read_all : Option (List ℕ) → List ℕ
read_all none = []
read_all (some text) = text

abbrev pub is_option : List ℕ → List ℕ → List ℕ → Bool
is_option v short long = same_name v short || same_name v long

-- What `main` returns, or the server that it runs.
pub record Started : Type 0 where
  pub env : List (List ℕ × List ℕ)
  pub level : LogLevel
  pub server : Server

pub data Ending : Type 0 where
  returns : ℕ → Ending
  aborts : Ending
  runs : Started → Ending

-- The loop over `c->services`: `none` where there is no worker.
abbrev pub service_requests : List ServiceConfig → Server → Server
service_requests [] s = s
service_requests (c ∷ cs) s =
    elim (new_service s.next_workerid c.type c.config c.unique c.threadid 0 0 s.workers) [
      | none ↦ service_requests cs s
      | some (n, ws) ↦ service_requests cs (record s { next_workerid = n; workers = ws })
    ]

module _ (sys : System) where
  -- `refuses` is the usage and -1. An option that is the last argument is refused.
  unfoldable pub parse_args : List (List ℕ) → Options → Attempt Options
  parse_args [] o = gives o
  parse_args (v ∷ []) o = refuses
  parse_args (v ∷ (w ∷ rest)) o =
      let with_conf = parse_args rest (record o { conf = w }) in
      let with_file = parse_args rest (record o { service_file = w }) in
      if is_option v (codes "-h") (codes "--help")
      then refuses
      else (if is_option v (codes "-c") (codes "--config")
          then elim (sys.status w) [
            | none ↦ crashes
            | some found ↦ if found then with_conf else refuses
          ]
          else (if is_option v (codes "-r") (codes "--run")
              then elim (sys.to_int w) [
                | none ↦ crashes
                | some sid ↦ parse_args rest (record o { sid = sid })
              ]
              else (if is_option v (codes "-f") (codes "--file")
                  then (if same_name (sys.extension w) (codes ".lua") then with_file else refuses)
                  else refuses)))

  unfoldable pub environment : ServerConfig → List ℕ → List (List ℕ × List ℕ)
  unfolding set_env
  environment c config = set_env (codes "CONFIG") config (
      set_env (codes "THREAD_NUM") (sys.platform.int_text c.thread) (
        set_env (codes "OUTER_HOST") c.outer_host (
          set_env (codes "INNER_HOST") c.inner_host (
            set_env (codes "SERVER_NAME") c.name
              (set_env (codes "SID") (sys.platform.int_text c.sid) [])))))

  -- The server with its environment, before `run`.
  unfoldable pub start : ServerConfig → List ℕ → Started
  unfolding environment init_server set_level
  start c config = record {
    env = environment c config;
    level = set_level c.loglevel;
    server = service_requests c.services (init_server c.thread);
  }

  abbrev pub run_found : Manager → Option ServerConfig → Ending
  run_found m none = returns 3
  run_found m (some c) = runs (start c m.config_)

  abbrev pub after_parse : ℕ → Manager × Attempt (Unit {0}) → Ending
  after_parse sid (m, gives u) = run_found m (find_sid sid m)
  after_parse sid (m, refuses) = returns 2
  after_parse sid (m, crashes) = aborts

  -- The result of `parse` is not looked at for a Lua file.
  abbrev pub after_own_parse : ℕ → Manager × Attempt (Unit {0}) → Ending
  after_own_parse sid (m, crashes) = aborts
  after_own_parse sid (m, _) = run_found m (find_sid sid m)

  unfoldable pub start_options : Options → Ending
  unfolding parse start
  start_options o =
      if is_empty o.service_file
      then after_own_parse o.sid
          (parse sys.platform (sys.own_config o.service_file) o.sid new_manager)
      else (if directory_exists (sys.status o.conf)
          then after_parse o.sid
              (parse sys.platform (read_all (sys.content o.conf)) o.sid new_manager)
          else returns 1)

  abbrev pub outcome : Attempt Options → Ending
  outcome (gives o) = start_options o
  outcome refuses = returns (2 ^ 32 - 1)
  outcome crashes = aborts

  unfoldable pub main : List (List ℕ) → Ending
  unfolding parse_args start_options
  main args = outcome (parse_args args default_options)
