-- ===== src/Config/Served.antt =====
-- core/server_config.hpp: what `parse` comes to, where the texts are well formed and where `services` is
-- missing.
use new_happy_server.Base.{
  ℕ, ◌%◌, ◌≡◌, refl, ap, ◌∙◌, true, false, Option, none, some, List, [], ◌∷◌, ◌==◌, if◌then◌else◌,
  arith,
}
use new_happy_server.Base.Texts.{codes}
use new_happy_server.Strings.{split}
use new_happy_server.Config.{
  Json, object, Members, int_value, string_value, Platform, Attempt, gives, refuses, crashes, ◌>>=◌,
  ServerConfig, get_json, get_int, get_string, get_strings, walk, or_default, find_member, no_sid,
  as_string, as_int, as_strings, ServiceConfig,
}
use new_happy_server.Config.Load.{with_date, is_empty, require, parse_one}

-- A lookup that gives a value.
abbrev pub Gives : {A : Type 0} → Attempt A → Type 0
Gives {A} m = (a : A) × (m ≡ gives a)

skip_value :
    {A B : Type 0} (Q : Attempt B → Type 0) (m : Attempt A) (f : A → Attempt B)
    → Gives m
    → ((a : A) → Q (f a))
    → Q (m >>= f)
unfolding ◌>>=◌
skip_value Q m f (a, e) h = rw e (h a)

given_value :
    {A B : Type 0} (Q : Attempt B → Type 0) (m : Attempt A) (f : A → Attempt B) (a : A)
    → m ≡ gives a
    → Q (f a)
    → Q (m >>= f)
unfolding ◌>>=◌
given_value Q m f a e h = rw e h

default-Gives :
    {A : Type 0} (typed : Json → A) (dv : A) (o : Option Json)
    → Gives (or_default typed dv (elim o [ none ↦ refuses | some v ↦ gives v ]))
default-Gives typed dv none = (dv, refl)
default-Gives typed dv (some v) = (typed v, refl)

-- A name without a dot is looked up once.
abbrev IsName : List ℕ → Type 0
IsName name = split name (codes ".") ≡ name ∷ []

get_json-object :
    (ms : Members) (name : List ℕ)
    → IsName name
    → get_json (object ms) name ≡ elim (find_member name ms) [ none ↦ refuses | some v ↦ gives v ]
unfolding get_json walk
get_json-object ms name h = rw h refl

module _ (ms : Members) (name : List ℕ) (h : IsName name) where
  get_string-Gives : (dv : List ℕ) → Gives (get_string (object ms) name dv)
  unfolding get_string
  get_string-Gives dv =
      rw (get_json-object ms name h) (default-Gives (as_string dv) dv (find_member name ms))

  get_int-Gives : (dv : ℕ) → Gives (get_int (object ms) name dv)
  unfolding get_int
  get_int-Gives dv =
      rw (get_json-object ms name h) (default-Gives (as_int dv) dv (find_member name ms))

  get_strings-Gives : Gives (get_strings (object ms) name)
  unfolding get_strings
  get_strings-Gives =
      rw (get_json-object ms name h) (default-Gives as_strings [] (find_member name ms))

  get_int-member :
      (dv n : ℕ) → find_member name ms ≡ some (int_value n) → get_int (object ms) name dv ≡ gives n
  unfolding get_int
  get_int-member dv n e = rw (get_json-object ms name h) (rw e refl)

  get_string-member :
      (dv t : List ℕ)
      → find_member name ms ≡ some (string_value t)
      → get_string (object ms) name dv ≡ gives t
  unfolding get_string
  get_string-member dv t e = rw (get_json-object ms name h) (rw e refl)

  get_json-missing : find_member name ms ≡ none → get_json (object ms) name ≡ refuses
  get_json-missing e =
      get_json-object ms name h ∙ ap (λ o. elim o [ none ↦ refuses | some v ↦ gives v ]) e

module _ (pf : Platform) (ms : Members) (own : ℕ) (name : List ℕ)
    (known_sid : find_member (codes "sid") ms ≡ some (int_value own))
    (some_sid : (own == no_sid) ≡ false)
    (known_name : find_member (codes "name") ms ≡ some (string_value name))
    (some_name : is_empty name ≡ false) (missing : find_member (codes "services") ms ≡ none) where
  abbrev server :
      (outer inner : List ℕ) (thread : ℕ) (startup log loglevel : List ℕ)
      (path cpath : List (List ℕ)) (services : List ServiceConfig)
      → ServerConfig
  server outer inner thread startup log loglevel path cpath services = record {
    sid = own;
    thread = thread % 256;
    loglevel = loglevel;
    name = name;
    outer_host = outer;
    inner_host = inner;
    startup = startup;
    log = with_date pf log;
    path = path;
    cpath = cpath;
    services = services;
  }

  abbrev IsServing : ServerConfig → List ServiceConfig → Type 0
  IsServing s services = (s.sid ≡ own) × (s.name ≡ name) × (s.services ≡ services)

  parse_one-missing :
      (sid : ℕ) (Q : Attempt ServerConfig → Type 0)
      → ((s : List ServiceConfig → ServerConfig)
          → ((services : List ServiceConfig) → IsServing (s services) services)
          → Q ((if own == sid then crashes else gives []) >>= λ services. gives (s services)))
      → Q (parse_one pf sid (object ms))
  unfolding parse_one split
  parse_one-missing sid Q h =
      given_value Q _ _ own (get_int-member ms (codes "sid") refl no_sid own known_sid) (
        given_value Q (require _) _ tt (rw some_sid refl) (
          given_value Q _ _ name (get_string-member ms (codes "name") refl [] name known_name) (
            given_value Q (require _) _ tt (rw some_name refl) (
              skip_value Q _ _ (get_string-Gives ms (codes "outer_host") refl _) λ outer.
                skip_value Q _ _ (get_string-Gives ms (codes "inner_host") refl _) λ inner.
                  skip_value Q _ _ (get_int-Gives ms (codes "thread") refl _) λ thread.
                    skip_value Q _ _ (get_string-Gives ms (codes "startup") refl _) λ startup.
                      skip_value Q _ _ (get_string-Gives ms (codes "log") refl _) λ log.
                        skip_value Q _ _ (get_string-Gives ms (codes "loglevel") refl _) λ loglevel.
                          skip_value Q _ _ (get_strings-Gives ms (codes "path") refl) λ path.
                            skip_value Q _ _ (get_strings-Gives ms (codes "cpath") refl) λ cpath.
                              rw (get_json-missing ms (codes "services") refl missing) (
                                h (server outer inner thread startup log loglevel path cpath)
                                  λ services. (refl, refl, refl))))))

-- An object with a sid that is not -1, a name that is not empty and no member "services" makes the
-- server crash if it is the one to be run; if another one is, it is read as a server without services.
pub parse_one-missing_services :
    (pf : Platform) (ms : Members) (own : ℕ) (name : List ℕ) (other : ℕ)
    → find_member (codes "sid") ms ≡ some (int_value own)
    → (own == no_sid) ≡ false
    → find_member (codes "name") ms ≡ some (string_value name)
    → is_empty name ≡ false
    → find_member (codes "services") ms ≡ none
    → (own == other) ≡ false
    → (parse_one pf own (object ms) ≡ crashes)
      × ((s : ServerConfig) × (parse_one pf other (object ms) ≡ gives s)
          × (s.sid ≡ own)
          × (s.name ≡ name)
          × (s.services ≡ []))
unfolding ◌>>=◌
parse_one-missing_services pf ms own name other k₁ k₂ k₃ k₄ k₅ ne =
    let same : (own == own) ≡ true = ground arith in
    (
      parse_one-missing pf ms own name k₁ k₂ k₃ k₄ k₅ own (λ m. m ≡ crashes) λ s h. rw same refl,
      parse_one-missing pf ms own name k₁ k₂ k₃ k₄ k₅ other
          (λ m.
            (s : ServerConfig) × (m ≡ gives s)
            × (s.sid ≡ own)
            × (s.name ≡ name)
            × (s.services ≡ []))
          λ s h. rw ne (s [], refl, (h []).0, (h []).1, (h []).2),
    )
