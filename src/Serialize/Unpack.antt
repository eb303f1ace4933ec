-- ===== src/Serialize/Unpack.antt =====
-- magic/lua_serialize.cpp: the readers, `push_value`, `unpack_one` and `lua_serialize_do_unpack`.
-- A value is what the code hands the Lua API: a table is the values of its `lua_rawseti` calls and
-- the pairs of its `lua_rawset` calls, in order. Errors of the Lua API itself (memory, stack, a key
-- that is NaN) are not modelled.
use new_happy_server.Base.{
  ℕ, zero, suc, ◌-◌, ◌/◌, false, not, ◌&&◌, ◌||◌, none, some, List, [], ◌∷◌, take, ltb, ◌==◌,
  if◌then◌else◌, bit_and,
}
use new_happy_server.Base.Words.{le_value, sign_extend}
use new_happy_server.View
use new_happy_server.View.{View, view, rest}
use new_happy_server.Serialize.Value.{
  Value, Values, Pairs, nil, boolean, integer, real, string, pointer, table, no_values, value,
  no_pairs, pair, number_zero, number_byte, type_number, number_word, number_dword, number_qword,
  number_real, max_cookie, to_int, is_negative_int, is_nil,
}

-- `invalid` is `luaL_error`; `fault` is a read outside the bytes; `out_of_fuel` is no result of
-- the program.
pub data Outcome {ℓ} (A : Type ℓ) : Type ℓ where
  ok : A → Outcome A
  invalid : Outcome A
  fault : Outcome A
  out_of_fuel : Outcome A

infixl 5 ◌>>=◌
abbrev pub ◌>>=◌ {ℓ κ} : {A : Type ℓ} {B : Type κ} → Outcome A → (A → Outcome B) → Outcome B
ok a >>= f = f a
invalid >>= f = invalid
fault >>= f = fault
out_of_fuel >>= f = out_of_fuel

-- `if (!buf->read(&n)) invalid_stream(L, buf);` for an `n` of that many bytes.
abbrev pub read_or_invalid : ℕ → View → Outcome (ℕ × View)
read_or_invalid n v =
    let (v', out) = View.read false n v in
    elim out [ none ↦ invalid | some bytes ↦ ok (le_value bytes, v') ]

unfoldable pub get_integer : ℕ → View → Outcome (ℕ × View)
get_integer cookie v =
    if cookie == number_zero
    then ok (0, v)
    else (if cookie == number_byte
        then read_or_invalid 1 v
        else (if cookie == number_word
            then read_or_invalid 2 v
            else (if cookie == number_dword
                then (do (n, v') ← read_or_invalid 4 v; ok (sign_extend n, v'))
                else (if cookie == number_qword then read_or_invalid 8 v else invalid))))

-- `len` and `(int)buf->size()` are `int`s. A negative `len` passes the test unless the size is below
-- it, and `lua_pushlstring` then reads `(size_t)len` bytes.
unfoldable pub get_buffer : ℕ → View → Outcome (Value × View)
get_buffer len v =
    let size = to_int (View.size v) in
    let less = ltb size len in
    if is_negative_int len
    then (if is_negative_int size && less then invalid else fault)
    else (if is_negative_int size || less
        then invalid
        else ok (string (take len (rest v)), View.skip len v))

-- The cases of `push_value` but the table.
unfoldable pub push_scalar : ℕ → ℕ → View → Outcome (Value × View)
unfolding get_integer get_buffer
push_scalar zero cookie v = ok (nil, v)
push_scalar (suc zero) cookie v = ok (boolean (not (cookie == 0)), v)
push_scalar (suc (suc zero)) cookie v =
    if cookie == number_real
    then (do (n, v') ← read_or_invalid 8 v; ok (real n, v'))
    else (do (n, v') ← get_integer cookie v; ok (integer n, v'))
push_scalar (suc (suc (suc zero))) cookie v = do (p, v') ← read_or_invalid 8 v; ok (pointer p, v')
push_scalar (suc (suc (suc (suc zero)))) cookie v = get_buffer cookie v
push_scalar (suc (suc (suc (suc (suc zero))))) cookie v =
    if cookie == 2
    then (do (n, v') ← read_or_invalid 2 v; get_buffer n v')
    else (if not (cookie == 4)
        then invalid
        else (do (n, v') ← read_or_invalid 4 v; get_buffer n v'))
push_scalar (suc (suc (suc (suc (suc (suc t)))))) cookie v = invalid

unfoldable pub get_typed_size : ℕ → View → Outcome (ℕ × View)
unfolding get_integer
get_typed_size type v =
    if not (bit_and type 7 == type_number) || type / 8 == number_real
    then invalid
    else (do (n, v') ← get_integer (type / 8) v; ok (to_int n, v'))

-- The head of `unpack_table`: the `int` array size.
unfoldable pub get_array_size : ℕ → View → Outcome (ℕ × View)
unfolding get_typed_size
get_array_size cookie v =
    if cookie == max_cookie - 1
    then (do (type, v₁) ← read_or_invalid 1 v; get_typed_size type v₁)
    else ok (cookie, v)

-- Fuel bounds the depth of the calls; `Total` shows how much is enough.
unfoldable mutual
  unfolding push_scalar get_array_size

  -- `push_value`, `unpack_table` included.
  pub push_value : ℕ → ℕ → ℕ → View → Outcome (Value × View)
  push_value zero type cookie v = out_of_fuel
  push_value (suc fuel) type cookie v =
      let body = (do
        (array_size, v₁) ← get_array_size cookie v
        (items, v₂) ← unpack_items fuel (if is_negative_int array_size then 0 else array_size) v₁
        (pairs, v₃) ← unpack_pairs fuel v₂
        ok (table items pairs, v₃)) in
      if type == 6 then body else push_scalar type cookie v

  pub unpack_one : ℕ → View → Outcome (Value × View)
  unpack_one zero v = out_of_fuel
  unpack_one (suc fuel) v = do
    (type, v₁) ← read_or_invalid 1 v
    push_value fuel (bit_and type 7) (type / 8) v₁

  -- The first loop of `unpack_table`, for the `rounds` that are left.
  pub unpack_items : ℕ → ℕ → View → Outcome (Values × View)
  unpack_items zero rounds v = out_of_fuel
  unpack_items (suc fuel) rounds v =
      let body = (do
        (x, v₁) ← unpack_one fuel v
        (xs, v₂) ← unpack_items fuel (rounds - 1) v₁
        ok (value x xs, v₂)) in
      if rounds == 0 then ok (no_values, v) else body

  -- The second loop of `unpack_table`, up to a key that is nil.
  pub unpack_pairs : ℕ → View → Outcome (Pairs × View)
  unpack_pairs zero v = out_of_fuel
  unpack_pairs (suc fuel) v = do
    (key, v₁) ← unpack_one fuel v
    let more = (do
      (x, v₂) ← unpack_one fuel v₁
      (ps, v₃) ← unpack_pairs fuel v₂
      ok (pair key x ps, v₃))
    if is_nil key then ok (no_pairs, v₁) else more

-- The loop of `lua_serialize_do_unpack`: values until no byte is left.
unfoldable pub unpack_all : ℕ → View → Outcome (List Value)
unfolding push_value
unpack_all zero v = out_of_fuel
unpack_all (suc fuel) v =
    let (v₁, out) = View.read false 1 v in
    elim out [
      | none ↦ ok []
      | some bytes ↦ (do
        (x, v₂) ← push_value fuel (bit_and (le_value bytes) 7) (le_value bytes / 8) v₁
        xs ← unpack_all fuel v₂
        ok (x ∷ xs))
    ]
