-- ===== src/Config/Loaded.antt =====
-- core/server_config.hpp: what holds of the configurations after every call of `parse`.
use new_happy_server.Base.{
  ℕ, ◌%◌, ◌<◌, ◌≡◌, refl, sym, subst, ◌⊎◌, inl, inr, Bool, true, false, Option, none, some, List,
  [], ◌∷◌, ◌++◌, arith, All, Bool-cases, Option-cases, ◌==◌, if◌then◌else◌,
}
use new_happy_server.Config.{
  Json, Elements, no_elements, element, array, Platform, Attempt, gives, refuses, crashes, ◌>>=◌,
  ServiceConfig, ServerConfig, Manager, no_sid, null_value, number, bool_value, int_value,
  string_value, object,
}
use new_happy_server.Config.Load.{
  is_empty, require, parse_service, parse_services, services_from, parse_one, find_config,
  parse_loop, loaded, parse_doc, prepared, parse, prepare,
}

-- What holds of the result, if there is one.
pub data Ensures {A : Type 0} (P : A → Type 0) : Attempt A → Type 0 where
  given : {a : A} → P a → Ensures P (gives a)
  refused : Ensures P refuses
  crashed : Ensures P crashes

bind-Ensures :
    {A B : Type 0} {P : B → Type 0} (m : Attempt A) (f : A → Attempt B)
    → ((a : A) → Ensures P (f a))
    → Ensures P (m >>= f)
unfolding ◌>>=◌
bind-Ensures (gives a) f h = h a
bind-Ensures refuses f h = refused
bind-Ensures crashes f h = crashed

ensured : {A : Type 0} {P : A → Type 0} {a : A} → Ensures P (gives a) → P a
ensured (given p) = p

pub Attempt-cases :
    {A : Type 0} (m : Attempt A) → ((a : A) × (m ≡ gives a)) ⊎ ((m ≡ refuses) ⊎ (m ≡ crashes))
Attempt-cases (gives a) = inl (a, refl)
Attempt-cases refuses = inr (inl refl)
Attempt-cases crashes = inr (inr refl)

-- The rest may use what holds of the first part's result.
after-Ensures :
    {A B : Type 0} {Q : A → Type 0} {P : B → Type 0} {m : Attempt A} (f : A → Attempt B)
    → Ensures Q m
    → ((a : A) → Q a → Ensures P (f a))
    → Ensures P (m >>= f)
unfolding ◌>>=◌
after-Ensures f (given q) h = h _ q
after-Ensures f refused h = refused
after-Ensures f crashed h = crashed

require-Ensures :
    {B : Type 0} {P : B → Type 0} (test : Bool) (f : Unit {0} → Attempt B)
    → (test ≡ true → Ensures P (f tt))
    → Ensures P (require test >>= f)
unfolding ◌>>=◌
require-Ensures true f h = h refl
require-Ensures false f h = refused

passed_sid : (n : ℕ) → (if n == no_sid then false else true) ≡ true → (n == no_sid) ≡ false
passed_sid n h = ground (arith, h)

passed_text : (t : List ℕ) → (if is_empty t then false else true) ≡ true → is_empty t ≡ false
passed_text [] h = sym h
passed_text (x ∷ xs) h = refl

thread_bound : (thread : ℕ) → thread % 256 < 256
thread_bound thread = omega arith

abbrev pub IsService : ServiceConfig → Type 0
IsService sc = is_empty sc.config ≡ false

abbrev pub IsServer : ServerConfig → Type 0
IsServer s =
    ((s.sid == no_sid) ≡ false)
    × (is_empty s.name ≡ false)
    × (s.thread < 256)
    × All IsService s.services

module _ (pf : Platform) where
  parse_service-Ensures : (s : Json) → Ensures IsService (parse_service pf s)
  unfolding parse_service
  parse_service-Ensures s = require-Ensures _ _ λ is_obj. bind-Ensures _ _ λ type.
      bind-Ensures _ _ λ unique. bind-Ensures _ _ λ threadid.
        bind-Ensures _ _ λ name. require-Ensures _ _ λ some_text. given (passed_text _ some_text)

  parse_services-Ensures : (es : Elements) → Ensures (All IsService) (parse_services pf es)
  unfolding parse_services
  parse_services-Ensures no_elements = given tt
  parse_services-Ensures (element s rest) =
      after-Ensures _ (parse_service-Ensures s)
        λ sc h. after-Ensures _ (parse_services-Ensures rest) λ scs hs. given (h, hs)

  services_from-Ensures : (value : Attempt Json) → Ensures (All IsService) (services_from pf value)
  services_from-Ensures (gives (array es)) = parse_services-Ensures es
  services_from-Ensures (gives null_value) = refused
  services_from-Ensures (gives number) = refused
  services_from-Ensures (gives (bool_value b)) = refused
  services_from-Ensures (gives (int_value n)) = refused
  services_from-Ensures (gives (string_value s)) = refused
  services_from-Ensures (gives (object ms)) = refused
  services_from-Ensures refuses = crashed
  services_from-Ensures crashes = crashed

  own_services-Ensures :
      (own : Bool) (value : Attempt Json)
      → Ensures (All IsService) (if own then services_from pf value else gives [])
  own_services-Ensures true value = services_from-Ensures value
  own_services-Ensures false value = given tt

  parse_one-Ensures : (sid : ℕ) (c : Json) → Ensures IsServer (parse_one pf sid c)
  unfolding parse_one
  parse_one-Ensures sid c = bind-Ensures _ _ λ own. require-Ensures _ _ λ some_sid.
      bind-Ensures _ _ λ name. require-Ensures _ _ λ some_name. bind-Ensures _ _ λ outer.
        bind-Ensures _ _ λ inner. bind-Ensures _ _ λ thread. bind-Ensures _ _ λ startup.
          bind-Ensures _ _ λ log. bind-Ensures _ _ λ loglevel. bind-Ensures _ _ λ path.
            bind-Ensures _ _ λ cpath.
              after-Ensures _ (own_services-Ensures (own == sid) _) λ services hs.
                given (passed_sid own some_sid, passed_text name some_name, thread_bound thread, hs)

-- The sids of a table's entries are distinct, and each entry is a server under its own sid.
abbrev pub IsTable : List (ℕ × ServerConfig) → Type 0
IsTable [] = Unit {0}
IsTable ((k, c) ∷ rest) = (k ≡ c.sid) × IsServer c × (find_config k rest ≡ none) × IsTable rest

find_config-snoc :
    (k : ℕ) (known : List (ℕ × ServerConfig)) (s : ServerConfig)
    → find_config k known ≡ none
    → (s.sid == k) ≡ false
    → find_config k (known ++ ((s.sid, s) ∷ [])) ≡ none
find_config-snoc k [] s h ne = rw ne refl
find_config-snoc k ((j, c) ∷ rest) s h ne = elim (Bool-cases (j == k)) [
  | inl same ↦ ground arith
  | inr other ↦ rw other (find_config-snoc k rest s (rw other at h) ne)
]

first_differs :
    (k j : ℕ) (c : ServerConfig) (rest : List (ℕ × ServerConfig))
    → find_config k ((j, c) ∷ rest) ≡ none
    → ((k == j) ≡ false) × (find_config k rest ≡ none)
first_differs k j c rest h = elim (Bool-cases (j == k)) [
  | inl same ↦ ground arith
  | inr other ↦ (ground arith, rw other at h)
]

IsTable-snoc :
    (known : List (ℕ × ServerConfig)) (s : ServerConfig)
    → IsTable known
    → IsServer s
    → find_config s.sid known ≡ none
    → IsTable (known ++ ((s.sid, s) ∷ []))
IsTable-snoc [] s t is h = (refl, is, refl, tt)
IsTable-snoc ((j, c) ∷ rest) s (e, ic, fresh, t) is h =
    let (differs, later) = first_differs s.sid j c rest h in
    (e, ic, find_config-snoc j rest s fresh differs, IsTable-snoc rest s t is later)

module _ (pf : Platform) (sid : ℕ) where
  loop-IsTable :
      (cs : Elements) (known : List (ℕ × ServerConfig))
      → IsTable known
      → IsTable (parse_loop pf sid cs known).0
  unfolding parse_loop ◌>>=◌
  loop-IsTable no_elements known t = t
  loop-IsTable (element c cs) known t = elim (Attempt-cases (parse_one pf sid c)) [
    | inl (s, e) ↦
        let is = ensured (subst (Ensures IsServer) e (parse_one-Ensures pf sid c)) in
        elim (Option-cases (find_config s.sid known)) [
          | inl fresh ↦
              rw (e, fresh)
                (loop-IsTable cs (known ++ ((s.sid, s) ∷ [])) (IsTable-snoc known s t is fresh))
          | inr (old, known_before) ↦ rw (e, known_before) t
        ]
    | inr (inl e) ↦ rw e t
    | inr (inr e) ↦ rw e t
  ]

  loaded-IsTable :
      (m : Manager) (r : List (ℕ × ServerConfig) × Attempt (Unit {0}))
      → IsTable r.0
      → IsTable (loaded sid m r).0.data_
  loaded-IsTable m (known, gives u) t = t
  loaded-IsTable m (known, refuses) t = t
  loaded-IsTable m (known, crashes) t = t

  doc-IsTable :
      (m : Manager) (doc : Option Json) → IsTable m.data_ → IsTable (parse_doc pf sid m doc).0.data_
  doc-IsTable m none t = t
  doc-IsTable m (some (array cs)) t =
      loaded-IsTable m (parse_loop pf sid cs m.data_) (loop-IsTable cs m.data_ t)
  doc-IsTable m (some null_value) t = t
  doc-IsTable m (some number) t = t
  doc-IsTable m (some (bool_value b)) t = t
  doc-IsTable m (some (int_value n)) t = t
  doc-IsTable m (some (string_value s)) t = t
  doc-IsTable m (some (object ms)) t = t

  prepared-IsTable :
      (m : Manager) (r : List ℕ × Attempt (Unit {0}))
      → IsTable m.data_
      → IsTable (prepared pf sid m r).0.data_
  prepared-IsTable m (config_, gives u) t =
      doc-IsTable (record m { config_ = config_ }) (pf.parse_json config_) t
  prepared-IsTable m (config_, refuses) t =
      doc-IsTable (record m { config_ = config_ }) (pf.parse_json config_) t
  prepared-IsTable m (config_, crashes) t = t

-- After any call of `parse`, whatever it comes to, whatever texts it reads and whatever the JSON
-- library, the clock and the machine give, if it held before: the sids of the configurations are
-- distinct, and each configuration stands under its own sid, which is not -1, has a name and a
-- number of threads that fits a byte, and no service with an empty configuration.
pub parse-IsTable :
    (pf : Platform) (config : List ℕ) (sid : ℕ) (m : Manager)
    → IsTable m.data_
    → IsTable (parse pf config sid m).0.data_
unfolding parse
parse-IsTable pf config sid m t = prepared-IsTable pf sid m (prepare pf config m.config_) t
