-- ===== src/Config/Prepared.antt =====
-- core/server_config.hpp: the text that `prepare` writes.
use new_happy_server.Base.{
  ℕ, ◌<◌, ◌≡◌, refl, ap, ◌∙◌, some, List, [], ◌∷◌, ◌++◌, length, length-append, append_assoc, arith,
  lt→ltb,
}
use new_happy_server.Base.Texts.{codes}
use new_happy_server.Config.{
  Json, Elements, no_elements, element, array, Platform, gives, ◌>>=◌, get_json,
}
use new_happy_server.Config.Load.{prepare_one, prepare_loop, prepare}

-- The texts of an array's elements, none of them empty.
pub data Texts (pf : Platform) : Elements → List (List ℕ) → Type 0 where
  no_texts : Texts pf no_elements []
  text_and :
      {c : Json} {cs : Elements} {t : List ℕ} {ts : List (List ℕ)}
      → prepare_one pf c ≡ gives t
      → 0 < length t
      → Texts pf cs ts
      → Texts pf (element c cs) (t ∷ ts)

abbrev pub followed : List (List ℕ) → List ℕ
followed [] = codes "]"
followed (t ∷ ts) = codes "," ++ (t ++ followed ts)

-- The texts in brackets, with commas between them.
abbrev pub joined : List (List ℕ) → List ℕ
joined [] = codes "[]"
joined (t ∷ ts) = codes "[" ++ (t ++ followed ts)

longer : (config_ t : List ℕ) → 1 < length config_ → 1 < length ((config_ ++ codes ",") ++ t)
longer config_ t h =
    omega (arith, h, length-append (config_ ++ codes ",") t, length-append config_ (codes ","))

loop-followed :
    (pf : Platform) {cs : Elements} {ts : List (List ℕ)} (config_ : List ℕ)
    → Texts pf cs ts
    → 1 < length config_
    → prepare_loop pf cs config_ ≡ (config_ ++ followed ts, gives tt)
unfolding prepare_loop ◌>>=◌ get_json
loop-followed pf config_ no_texts h = refl
loop-followed pf config_ (text_and {t = t} {ts = ts} e size texts) h =
    rw (e, lt→ltb 1 (length config_) h)
      (loop-followed pf ((config_ ++ codes ",") ++ t) texts (longer config_ t h)
        ∙ ap (λ u. (u, gives tt))
            (append_assoc (config_ ++ codes ",") t (followed ts)
              ∙ append_assoc config_ (codes ",") (t ++ followed ts)))

pub prepare-joined :
    (pf : Platform) (config : List ℕ) (cs : Elements) (ts : List (List ℕ))
    → pf.parse_json config ≡ some (array cs)
    → Texts pf cs ts
    → prepare pf config [] ≡ (joined ts, gives tt)
unfolding prepare prepare_loop ◌>>=◌ get_json
prepare-joined pf config no_elements [] parses no_texts = rw parses refl
prepare-joined pf config no_elements (t ∷ ts) parses texts = elim texts [ ]
prepare-joined pf config (element c cs) [] parses texts = elim texts [ ]
prepare-joined pf config (element c cs) (t ∷ ts) parses (text_and e size texts) =
    rw (parses, e) (loop-followed pf (codes "[" ++ t) texts (omega arith))
