-- ===== src/Serialize/Code.antt =====
-- magic/lua_serialize.cpp: the wire format on its own, without buffers: the bytes of a value, which
-- values can be packed, and the value that the bytes stand for.
use new_happy_server.Base.{
  ℕ, ◌+◌, ◌-◌, ◌*◌, ◌^◌, ◌≤◌, ◌<◌, ◌≡◌, ◌⊎◌, true, false, List, [], ◌∷◌, ◌++◌, length, ltb, leb,
  ◌==◌, ◌||◌, if◌then◌else◌,
}
use new_happy_server.Base.Words.{le_bytes}
use new_happy_server.Serialize.Value.{
  Value, Values, Pairs, nil, boolean, integer, real, string, pointer, table, meta_table,
  unsupported, no_values, value, no_pairs, raises, pair, max_cookie, max_depth, count, is_index,
  is_nil,
}

-- The first byte: a type below 8 and a cookie below 32.
abbrev pub head : ℕ → ℕ → ℕ
head type cookie = type + 8 * cookie

-- How an integer is stored, by its range: 4 stands for all that fit an `int32_t`.
unfoldable pub integer_cookie : ℕ → ℕ
integer_cookie v =
    if v == 0
    then 0
    else (if ltb v 0x100
        then 1
        else (if ltb v 0x10000
            then 2
            else (if ltb v (2 ^ 31) || leb (2 ^ 64 - 2 ^ 31) v then 4 else 6)))

-- The bytes behind the head.
unfoldable pub integer_width : ℕ → ℕ
integer_width cookie = if cookie == 4 then 4 else (if cookie == 6 then 8 else cookie)

unfoldable pub integer_code : ℕ → List ℕ
unfolding integer_cookie integer_width
integer_code v = head 2 (integer_cookie v) ∷ le_bytes (integer_width (integer_cookie v)) v

unfoldable pub string_code : List ℕ → List ℕ
string_code str =
    if ltb (length str) max_cookie
    then head 4 (length str) ∷ str
    else (if ltb (length str) 0x10000
        then head 5 2 ∷ (le_bytes 2 (length str) ++ str)
        else head 5 4 ∷ (le_bytes 4 (length str) ++ str))

unfoldable pub size_code : ℕ → List ℕ
unfolding integer_code
size_code n = if leb (max_cookie - 1) n then head 6 31 ∷ integer_code n else head 6 n ∷ []

unfoldable mutual
  pub code : Value → List ℕ
  code nil = head 0 0 ∷ []
  code (boolean b) = head 1 (if b then 1 else 0) ∷ []
  code (integer v) = integer_code v
  code (real v) = head 2 8 ∷ le_bytes 8 v
  code (string str) = string_code str
  code (pointer v) = head 3 0 ∷ le_bytes 8 v
  code (table items pairs) =
      size_code (count items) ++ (codes items ++ pair_codes (count items) pairs)
  code (meta_table pairs) = head 6 0 ∷ pair_codes 0 pairs
  code unsupported = []

  pub codes : Values → List ℕ
  codes no_values = []
  codes (value v vs) = code v ++ codes vs

  -- The pairs whose key is no index of the array part, and the nil that ends them.
  pub pair_codes : ℕ → Pairs → List ℕ
  pair_codes n no_pairs = head 0 0 ∷ []
  pair_codes n raises = head 0 0 ∷ []
  pair_codes n (pair key v ps) =
      if is_index n key then pair_codes n ps else code key ++ (code v ++ pair_codes n ps)

-- What can be packed at a depth: all sizes within their range, no value of another type, no key
-- that is nil, no table deeper than MAX_DEPTH, and no `__pairs` that raises an error.
unfoldable mutual
  pub Fits : ℕ → Value → Type 0
  Fits depth nil = depth ≤ max_depth
  Fits depth (boolean b) = depth ≤ max_depth
  Fits depth (integer v) = (depth ≤ max_depth) × (v < 2 ^ 64)
  Fits depth (real v) = (depth ≤ max_depth) × (v < 2 ^ 64)
  Fits depth (string str) = (depth ≤ max_depth) × (length str < 2 ^ 31)
  Fits depth (pointer v) = (depth ≤ max_depth) × (v < 2 ^ 64)
  Fits depth (table items pairs) =
      (depth ≤ max_depth)
      × (count items < 2 ^ 31)
      × FitsAll (depth + 1) items
      × FitsPairs (depth + 1) (count items) pairs
  Fits depth (meta_table pairs) = (depth ≤ max_depth) × FitsPairs (depth + 1) 0 pairs
  Fits depth unsupported = ⊥

  pub FitsAll : ℕ → Values → Type 0
  FitsAll depth no_values = Unit {0}
  FitsAll depth (value v vs) = Fits depth v × FitsAll depth vs

  pub FitsPairs : ℕ → ℕ → Pairs → Type 0
  FitsPairs depth n no_pairs = Unit {0}
  FitsPairs depth n raises = ⊥
  FitsPairs depth n (pair key v ps) =
      ((is_index n key ≡ true) ⊎ ((is_nil key ≡ false) × Fits depth key × Fits depth v))
      × FitsPairs depth n ps

-- The value as it is unpacked: a table holds its array part, and its other pairs.
unfoldable mutual
  pub rebuilt : Value → Value
  rebuilt nil = nil
  rebuilt (boolean b) = boolean b
  rebuilt (integer v) = integer v
  rebuilt (real v) = real v
  rebuilt (string str) = string str
  rebuilt (pointer v) = pointer v
  rebuilt (table items pairs) = table (rebuilt_items items) (rebuilt_pairs (count items) pairs)
  rebuilt (meta_table pairs) = table no_values (rebuilt_pairs 0 pairs)
  rebuilt unsupported = unsupported

  pub rebuilt_items : Values → Values
  rebuilt_items no_values = no_values
  rebuilt_items (value v vs) = value (rebuilt v) (rebuilt_items vs)

  pub rebuilt_pairs : ℕ → Pairs → Pairs
  rebuilt_pairs n no_pairs = no_pairs
  rebuilt_pairs n raises = no_pairs
  rebuilt_pairs n (pair key v ps) =
      if is_index n key
      then rebuilt_pairs n ps
      else pair (rebuilt key) (rebuilt v) (rebuilt_pairs n ps)
