-- ===== src/Config/Load.antt =====
-- core/server_config.hpp, `server_config_manger`: `prepare`, `parse`, `find` and `get_server_config`. A
-- call that fails leaves what it has written, so each gives the state beside its result.
use new_happy_server.Base.{
  ℕ, ◌%◌, Bool, true, false, Option, none, some, List, [], ◌∷◌, ◌++◌, length, ltb, ◌==◌,
  if◌then◌else◌,
}
use new_happy_server.Base.Texts.{codes}
use new_happy_server.Strings.{find}
use new_happy_server.Config.{
  Json, Elements, no_elements, element, array, object, Platform, Attempt, gives, refuses, crashes,
  ◌>>=◌, ◌>>◌, get_json, get_int, get_bool, get_string, get_strings, ServiceConfig, ServerConfig,
  Manager, substitute, no_sid,
}

abbrev pub is_empty : List ℕ → Bool
is_empty [] = true
is_empty (x ∷ xs) = false

abbrev pub require : Bool → Attempt (Unit {0})
require true = gives tt
require false = refuses

abbrev pub with_comma : List ℕ → List ℕ
with_comma config_ = if ltb 1 (length config_) then config_ ++ codes "," else config_

abbrev pub is_object : Json → Bool
is_object (object ms) = true
is_object _ = false

abbrev pub find_config : ℕ → List (ℕ × ServerConfig) → Option ServerConfig
find_config sid [] = none
find_config sid ((k, c) ∷ rest) = if k == sid then some c else find_config sid rest

abbrev pub loaded :
    ℕ → Manager → List (ℕ × ServerConfig) × Attempt (Unit {0}) → Manager × Attempt (Unit {0})
loaded sid m (known, gives u) = (record m { data_ = known; sid_ = sid }, gives u)
loaded sid m (known, refuses) = (record m { data_ = known }, refuses)
loaded sid m (known, crashes) = (record m { data_ = known }, crashes)

abbrev pub find_sid : ℕ → Manager → Option ServerConfig
find_sid sid m = find_config sid m.data_

abbrev pub get_server_config : Manager → Option ServerConfig
get_server_config m = find_config m.sid_ m.data_

module _ (pf : Platform) where
  open pf use {parse_json, write_json, int_text, hardware_concurrency, date}

  -- The text of an element with its placeholders replaced.
  unfoldable pub prepare_one : Json → Attempt (List ℕ)
  unfolding get_int get_string
  prepare_one c = do
    sid ← get_int c (codes "sid") no_sid
    require (if sid == no_sid then false else true)
    outer ← get_string c (codes "outer_host") (codes "*")
    inner ← get_string c (codes "inner_host") (codes "127.0.0.1")
    let s₁ = substitute (write_json c) (codes "#sid") (int_text sid)
    let s₂ = substitute s₁ (codes "#outer_host") outer
    gives (substitute s₂ (codes "#inner_host") inner)

  unfoldable pub prepare_loop : Elements → List ℕ → List ℕ × Attempt (Unit {0})
  unfolding prepare_one
  prepare_loop no_elements config_ = (config_ ++ codes "]", gives tt)
  prepare_loop (element c cs) config_ = elim (prepare_one c) [
    | gives s ↦ prepare_loop cs (with_comma config_ ++ s)
    | refuses ↦ (with_comma config_, refuses)
    | crashes ↦ (with_comma config_, crashes)
  ]

  abbrev prepare_doc : Option Json → List ℕ → List ℕ × Attempt (Unit {0})
  prepare_doc (some (array cs)) config_ = prepare_loop cs config_
  prepare_doc _ config_ = (config_, refuses)

  unfoldable pub prepare : List ℕ → List ℕ → List ℕ × Attempt (Unit {0})
  unfolding prepare_loop
  prepare config config_ = prepare_doc (parse_json config) (config_ ++ codes "[")

  unfoldable pub parse_service : Json → Attempt ServiceConfig
  unfolding get_string get_bool get_int
  parse_service s = do
    require (is_object s)
    type ← get_string s (codes "type") (codes "lua")
    unique ← get_bool s (codes "unique") false
    threadid ← get_int s (codes "threadid") 0
    name ← get_string s (codes "name") []
    let config = write_json s
    require (if is_empty config then false else true)
    gives
        (record { unique = unique; threadid = threadid; type = type; name = name; config = config })

  unfoldable pub parse_services : Elements → Attempt (List ServiceConfig)
  unfolding parse_service
  parse_services no_elements = gives []
  parse_services (element s rest) = do
    sc ← parse_service s
    scs ← parse_services rest
    gives (sc ∷ scs)

  -- The services are read for the server that is run. A missing member is the null pointer.
  abbrev pub services_from : Attempt Json → Attempt (List ServiceConfig)
  services_from (gives (array es)) = parse_services es
  services_from (gives _) = refuses
  services_from refuses = crashes
  services_from crashes = crashes

  abbrev pub with_date : List ℕ → List ℕ
  with_date log = elim (find log (codes "#date") 0) [
    | none ↦ log
    | some at ↦ substitute log (codes "#date") date
  ]

  unfoldable pub parse_one : ℕ → Json → Attempt ServerConfig
  unfolding get_int get_string get_strings get_json parse_services find
  parse_one sid c = do
    own ← get_int c (codes "sid") no_sid
    require (if own == no_sid then false else true)
    name ← get_string c (codes "name") []
    require (if is_empty name then false else true)
    outer ← get_string c (codes "outer_host") (codes "*")
    inner ← get_string c (codes "inner_host") (codes "127.0.0.1")
    thread ← get_int c (codes "thread") hardware_concurrency
    startup ← get_string c (codes "startup") []
    log ← get_string c (codes "log") []
    loglevel ← get_string c (codes "loglevel") (codes "DEBUG")
    path ← get_strings c (codes "path")
    cpath ← get_strings c (codes "cpath")
    services ← (if own == sid then services_from (get_json c (codes "services")) else gives [])
    gives (record {
      sid = own;
      thread = thread % 256;
      loglevel = loglevel;
      name = name;
      outer_host = outer;
      inner_host = inner;
      startup = startup;
      log = with_date log;
      path = path;
      cpath = cpath;
      services = services;
    })

  unfoldable pub parse_loop :
      ℕ → Elements → List (ℕ × ServerConfig) → List (ℕ × ServerConfig) × Attempt (Unit {0})
  unfolding parse_one
  parse_loop sid no_elements known = (known, gives tt)
  parse_loop sid (element c cs) known = elim (parse_one sid c) [
    | gives s ↦
        let rest = parse_loop sid cs (known ++ ((s.sid, s) ∷ [])) in
        elim (find_config s.sid known) [ none ↦ rest | some old ↦ (known, refuses) ]
    | refuses ↦ (known, refuses)
    | crashes ↦ (known, crashes)
  ]

  abbrev pub parse_doc : ℕ → Manager → Option Json → Manager × Attempt (Unit {0})
  parse_doc sid m (some (array cs)) = loaded sid m (parse_loop sid cs m.data_)
  parse_doc sid m _ = (m, refuses)

  -- A failure of `prepare` is not looked at.
  abbrev pub prepared : ℕ → Manager → List ℕ × Attempt (Unit {0}) → Manager × Attempt (Unit {0})
  prepared sid m (config_, crashes) = (record m { config_ = config_ }, crashes)
  prepared sid m (config_, _) = parse_doc sid (record m { config_ = config_ }) (parse_json config_)

  unfoldable pub parse : List ℕ → ℕ → Manager → Manager × Attempt (Unit {0})
  unfolding prepare parse_loop
  parse config sid m = prepared sid m (prepare config m.config_)
