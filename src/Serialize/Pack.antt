-- ===== src/Serialize/Pack.antt =====
-- magic/lua_serialize.cpp: the writers, `pack_one` and the loop over the arguments.
use new_happy_server.Base.{
  ℕ, ◌+◌, ◌-◌, ◌^◌, Bool, false, not, ◌&&◌, ◌||◌, List, [], ◌∷◌, length, ltb, leb, ◌==◌,
  if◌then◌else◌,
}
use new_happy_server.Base.Words.{le_bytes}
use new_happy_server.Serialize.Sink.{Sink}
use new_happy_server.Serialize.Value.{
  Value, Values, Pairs, nil, boolean, integer, real, string, pointer, table, meta_table,
  unsupported, no_values, value, no_pairs, raises, pair, type_nil, type_boolean, type_number,
  number_zero, number_byte, number_word, number_dword, number_qword, number_real, type_userdata,
  type_short_string, type_long_string, type_table, max_cookie, max_depth, combine_type, to_int,
  is_negative_int, narrow, count, is_index,
}

pub data Error : Type 0 where
  too_deep unsupported_type lua_error : Error

-- `luaL_error` does not return, and neither does a `lua_call` that raises; the Boolean says that the
-- buffer was deleted before.
pub data Packed (S : Type 0) : Type 0 where
  done : S → Packed S
  failed : Error → Bool → Packed S

infixl 5 ◌>>=◌
abbrev pub ◌>>=◌ : {S T : Type 0} → Packed S → (S → Packed T) → Packed T
done s >>= f = f s
failed e deleted >>= f = failed e deleted

module _ (k : Sink) where
  open k use {State, write, is_heap}

  abbrev pub wb_nil : State → State
  wb_nil s = write (type_nil ∷ []) s

  abbrev pub wb_boolean : Bool → State → State
  wb_boolean b s = write (combine_type type_boolean (if b then 1 else 0) ∷ []) s

  unfoldable pub wb_integer : ℕ → State → State
  wb_integer v s =
      if v == 0
      then write (combine_type type_number number_zero ∷ []) s
      else (if not (v == narrow v)
          then write (le_bytes 8 v) (write (combine_type type_number number_qword ∷ []) s)
          else (if leb (2 ^ 63) v
              then write (le_bytes 4 v) (write (combine_type type_number number_dword ∷ []) s)
              else (if ltb v 0x100
                  then write (le_bytes 1 v) (write (combine_type type_number number_byte ∷ []) s)
                  else (if ltb v 0x10000
                      then write (le_bytes 2 v)
                          (write (combine_type type_number number_word ∷ []) s)
                      else write (le_bytes 4 v)
                          (write (combine_type type_number number_dword ∷ []) s)))))

  abbrev pub wb_real : ℕ → State → State
  wb_real v s = write (le_bytes 8 v) (write (combine_type type_number number_real ∷ []) s)

  abbrev pub wb_pointer : ℕ → State → State
  wb_pointer v s = write (le_bytes 8 v) (write (type_userdata ∷ []) s)

  -- `len` is `(int)sz`.
  unfoldable pub wb_string : List ℕ → State → State
  wb_string str s =
      let len = to_int (length str) in
      if is_negative_int len || ltb len max_cookie
      then (let s' = write (combine_type type_short_string len ∷ []) s in
          if not (is_negative_int len) && ltb 0 len then write str s' else s')
      else (if ltb len 0x10000
          then write str (write (le_bytes 2 len) (write (combine_type type_long_string 2 ∷ []) s))
          else write str (write (le_bytes 4 len) (write (combine_type type_long_string 4 ∷ []) s)))

  -- The head of `wb_table_array`.
  unfoldable pub wb_array_size : ℕ → State → State
  unfolding wb_integer
  wb_array_size array_size s =
      if not (is_negative_int array_size) && leb (max_cookie - 1) array_size
      then wb_integer array_size (write (combine_type type_table (max_cookie - 1) ∷ []) s)
      else write (combine_type type_table array_size ∷ []) s

  -- The depth test of `pack_one`; the argument is what follows it.
  abbrev pub checked : ℕ → State → Packed State → Packed State
  checked depth s body = if ltb max_depth depth then failed too_deep (is_heap s) else body

  unfoldable mutual
    pub pack_one : ℕ → Value → State → Packed State
    pack_one depth nil s = checked depth s (done (wb_nil s))
    pack_one depth (boolean b) s = checked depth s (done (wb_boolean b s))
    pack_one depth (integer v) s = checked depth s (done (wb_integer v s))
    pack_one depth (real v) s = checked depth s (done (wb_real v s))
    pack_one depth (string str) s = checked depth s (done (wb_string str s))
    pack_one depth (pointer v) s = checked depth s (done (wb_pointer v s))
    pack_one depth (table items pairs) s =
        let array_size = to_int (count items) in
        let rounds : ℕ = if is_negative_int array_size then 0 else array_size in
        let body = (do
          s₁ ← pack_items (depth + 1) rounds items (wb_array_size array_size s)
          s₂ ← pack_hash (depth + 1) array_size pairs s₁
          done (wb_nil s₂)) in
        checked depth s body
    pack_one depth (meta_table pairs) s =
        let body = (do
          s₁ ← pack_pairs (depth + 1) pairs (write (combine_type type_table 0 ∷ []) s)
          done (wb_nil s₁)) in
        checked depth s body
    pack_one depth unsupported s = checked depth s (failed unsupported_type (is_heap s))

    -- The loop of `wb_table_array`.
    pub pack_items : ℕ → ℕ → Values → State → Packed State
    pack_items depth rounds no_values s = done s
    pack_items depth rounds (value v vs) s =
        let body = (do s₁ ← pack_one depth v s; pack_items depth (rounds - 1) vs s₁) in
        if rounds == 0 then done s else body

    -- The loop of `wb_table_hash`.
    pub pack_hash : ℕ → ℕ → Pairs → State → Packed State
    pack_hash depth array_size no_pairs s = done s
    pack_hash depth array_size raises s = done s
    pack_hash depth array_size (pair key v ps) s =
        let body = (do
          s₁ ← pack_one depth key s
          s₂ ← pack_one depth v s₁
          pack_hash depth array_size ps s₂) in
        let next = pack_hash depth array_size ps s in if is_index array_size key then next else body

    -- The loop of `wb_table_metapairs`.
    pub pack_pairs : ℕ → Pairs → State → Packed State
    pack_pairs depth no_pairs s = done s
    pack_pairs depth raises s = failed lua_error false
    pack_pairs depth (pair key v ps) s = do
      s₁ ← pack_one depth key s
      s₂ ← pack_one depth v s₁
      pack_pairs depth ps s₂

  -- The loop of `pack` and `packsafe` over the arguments.
  unfoldable pub pack_all : List Value → State → Packed State
  unfolding pack_one
  pack_all [] s = done s
  pack_all (v ∷ vs) s = do s₁ ← pack_one 0 v s; pack_all vs s₁
