-- ===== src/Strings.antt =====
-- common/string.hpp: the helpers on texts. A text is the list of its bytes; `find` and the letters'
-- cases are those of the standard library in the C locale.
pub mod Replace
pub mod Split
pub mod Case
pub mod Decimal
pub mod Trim
use new_happy_server.Base.{
  ℕ, zero, suc, ◌+◌, ◌-◌, ◌*◌, ◌/◌, ◌%◌, Bool, true, false, not, ◌&&◌, ◌||◌, Option, none, some,
  List, [], ◌∷◌, ◌++◌, length, take, drop, ltb, leb, ◌==◌, if◌then◌else◌,
}
use Prim.Native.Nat.{◌^◌, bit_xor}
use new_happy_server.Base.Words.{add_size}
use new_happy_server.Base.Slices.{slice}

abbrev pub starts_with : List ℕ → List ℕ → Bool
starts_with [] text = true
starts_with (x ∷ xs) [] = false
starts_with (x ∷ xs) (y ∷ ys) = (x == y) && starts_with xs ys

-- `find` in the text that stands at `pos`.
unfoldable pub find_in : List ℕ → List ℕ → ℕ → Option ℕ
find_in old [] pos = if starts_with old [] then some pos else none
find_in old (y ∷ ys) pos =
    let further = find_in old ys (suc pos) in if starts_with old (y ∷ ys) then some pos else further

unfoldable pub find : List ℕ → List ℕ → ℕ → Option ℕ
unfolding find_in
find src old pos = if ltb (length src) pos then none else find_in old (drop pos src) pos

abbrev pub replace_at : List ℕ → ℕ → ℕ → List ℕ → List ℕ
replace_at src pos n new = take pos src ++ (new ++ drop (pos + n) src)

-- The loop of `replace`; `none` is out of fuel.
unfoldable pub replace_loop : ℕ → List ℕ → List ℕ → List ℕ → ℕ → Option (List ℕ)
unfolding find
replace_loop zero src old new pos = none
replace_loop (suc fuel) src old new pos = elim (find src old pos) [
  | none ↦ some src
  | some at ↦ replace_loop fuel (replace_at src at (length old) new) old new (at + length new)
]

abbrev pub replace : ℕ → List ℕ → List ℕ → List ℕ → Option (List ℕ)
replace fuel src old new = replace_loop fuel src old new 0

abbrev pub contains : ℕ → List ℕ → Bool
contains c [] = false
contains c (x ∷ xs) = (x == c) || contains c xs

-- The loop of `split` for texts: `i` is the iterator, `b` where a part begins, or the end.
unfoldable pub split_loop : List ℕ → List ℕ → ℕ → List ℕ → ℕ → List (List ℕ) → ℕ × List (List ℕ)
split_loop src sep i [] b r = (b, r)
split_loop src sep i (c ∷ rest) b r =
    let e = length src in
    let parts = if not (b == e) && not (b == i) then r ++ (slice b i src ∷ []) else r in
    let at_separator = split_loop src sep (suc i) rest e parts in
    let at_other = split_loop src sep (suc i) rest (if b == e then i else b) r in
    if contains c sep then at_separator else at_other

abbrev pub last_part : List ℕ → ℕ × List (List ℕ) → List (List ℕ)
last_part src (b, r) = if b == length src then r else r ++ (slice b (length src) src ∷ [])

unfoldable pub split : List ℕ → List ℕ → List (List ℕ)
unfolding split_loop
split src sep = last_part src (split_loop src sep 0 src 0 [])

-- `toupper` and `tolower` of the C locale.
abbrev pub to_upper : ℕ → ℕ
to_upper c = if leb 97 c && leb c 122 then c - 32 else c

abbrev pub to_lower : ℕ → ℕ
to_lower c = if leb 65 c && leb c 90 then c + 32 else c

unfoldable pub upper : List ℕ → List ℕ
upper [] = []
upper (c ∷ cs) = to_upper c ∷ upper cs

unfoldable pub lower : List ℕ → List ℕ
lower [] = []
lower (c ∷ cs) = to_lower c ∷ lower cs

abbrev pub iequal_loop : List ℕ → List ℕ → Bool
iequal_loop [] ys = true
iequal_loop (x ∷ xs) [] = true
iequal_loop (x ∷ xs) (y ∷ ys) =
    let rest = iequal_loop xs ys in if not (to_upper x == to_upper y) then false else rest

unfoldable pub iequal_string : List ℕ → List ℕ → Bool
iequal_string xs ys = if not (length xs == length ys) then false else iequal_loop xs ys

-- The loop of `ihash_string_functor`, where `hash` is `std::hash<int>`.
unfoldable pub ihash_string : (ℕ → ℕ) → ℕ → List ℕ → ℕ
ihash_string hash h [] = h
ihash_string hash h (c ∷ cs) =
    let mixed =
      add_size (add_size (add_size (hash (to_lower c)) 0x9e3779b9) (h * 64 % 2 ^ 64)) (h / 4) in
    ihash_string hash (bit_xor h mixed) cs
