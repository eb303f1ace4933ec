-- ===== src/Config/Complete.antt =====
-- core/server_config.hpp: `parse` of well formed texts, and what is found then.
use new_happy_server.Base.{
  ℕ, ◌≡◌, refl, sym, ap, subst, ◌∙◌, inl, inr, true, none, some, List, [], ◌∷◌, ◌++◌, Bool-cases,
  ◌==◌, append-nil, append_assoc, arith,
}
use mathlib.Core.List.{Memᴰ}
use new_happy_server.Config.{
  Json, Elements, no_elements, element, array, Platform, gives, ◌>>=◌, ServerConfig, Manager,
}
use new_happy_server.Config.Load.{
  parse_one, find_config, parse_loop, prepare, parse, get_server_config,
}

-- What the elements of an array are read as, in their order.
pub data Reads (pf : Platform) (sid : ℕ) : Elements → List ServerConfig → Type 0 where
  reads_nothing : Reads pf sid no_elements []
  reads_one :
      {c : Json} {cs : Elements} {s : ServerConfig} {ss : List ServerConfig}
      → parse_one pf sid c ≡ gives s
      → Reads pf sid cs ss
      → Reads pf sid (element c cs) (s ∷ ss)

abbrev pub entries : List ServerConfig → List (ℕ × ServerConfig)
entries [] = []
entries (s ∷ ss) = (s.sid, s) ∷ entries ss

-- Each server's sid is in use neither in the table nor for a server before it.
abbrev pub AreNew : List (ℕ × ServerConfig) → List ServerConfig → Type 0
AreNew known [] = Unit {0}
AreNew known (s ∷ ss) = (find_config s.sid known ≡ none) × AreNew (known ++ ((s.sid, s) ∷ [])) ss

loop-Reads :
    (pf : Platform) (sid : ℕ) {cs : Elements} {ss : List ServerConfig}
    (known : List (ℕ × ServerConfig))
    → Reads pf sid cs ss
    → AreNew known ss
    → parse_loop pf sid cs known ≡ (known ++ entries ss, gives tt)
unfolding parse_loop ◌>>=◌
loop-Reads pf sid known reads_nothing fresh = rw (append-nil known) refl
loop-Reads pf sid known (reads_one {s = s} {ss = ss} e reads) (new, fresh) =
    rw (e, new)
      (loop-Reads pf sid (known ++ ((s.sid, s) ∷ [])) reads fresh
        ∙ ap (λ t. (t, gives tt)) (append_assoc known ((s.sid, s) ∷ []) (entries ss)))

find_config-behind :
    (known : List (ℕ × ServerConfig)) (s : ServerConfig) (more : List (ℕ × ServerConfig))
    → find_config s.sid known ≡ none
    → find_config s.sid (known ++ ((s.sid, s) ∷ more)) ≡ some s
find_config-behind [] s more h = let same : (s.sid == s.sid) ≡ true = ground arith in rw same refl
find_config-behind ((j, c) ∷ rest) s more h = elim (Bool-cases (j == s.sid)) [
  | inl same ↦ ground arith
  | inr other ↦ rw other (find_config-behind rest s more (rw other at h))
]

find_config-entries :
    (known : List (ℕ × ServerConfig)) (s : ServerConfig) (ss : List ServerConfig)
    → AreNew known ss
    → Memᴰ s ss
    → find_config s.sid (known ++ entries ss) ≡ some s
find_config-entries known s [] fresh at_x = elim at_x [ ]
find_config-entries known s (x ∷ xs) (new, fresh) (Memᴰ.head e) =
    subst (λ y. find_config s.sid (known ++ ((y.sid, y) ∷ entries xs)) ≡ some s) e
      (find_config-behind known s (entries xs)
        (subst (λ y. find_config y.sid known ≡ none) (sym e) new))
find_config-entries known s (x ∷ xs) (new, fresh) (Memᴰ.tail later) =
    ap (find_config s.sid) (sym (append_assoc known ((x.sid, x) ∷ []) (entries xs)))
    ∙ find_config-entries (known ++ ((x.sid, x) ∷ [])) s xs fresh later

-- If `prepare` succeeds, what it has written is an array, the elements of the array are read as the
-- servers `ss`, and their sids differ from each other and from those in use, then `parse` succeeds:
-- the texts are kept, the table is the old one followed by these servers, and the server of the sid
-- that is run is the one that `get_server_config` gives.
pub parse-Reads :
    (pf : Platform) (config : List ℕ) (sid : ℕ) (m : Manager) (text : List ℕ) (cs : Elements)
    (ss : List ServerConfig) (s : ServerConfig)
    → prepare pf config m.config_ ≡ (text, gives tt)
    → pf.parse_json text ≡ some (array cs)
    → Reads pf sid cs ss
    → AreNew m.data_ ss
    → Memᴰ s ss
    → s.sid ≡ sid
    → (parse pf config sid m
        ≡ (record { sid_ = sid; config_ = text; data_ = m.data_ ++ entries ss }, gives tt))
      × (get_server_config (parse pf config sid m).0 ≡ some s)
unfolding parse
parse-Reads pf config sid m text cs ss s prepares parses reads fresh mem own =
    rw (prepares, parses, loop-Reads pf sid m.data_ reads fresh)
      (
        refl,
        subst (λ k. find_config k (m.data_ ++ entries ss) ≡ some s) own
            (find_config-entries m.data_ s ss fresh mem),
      )
