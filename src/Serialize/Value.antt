-- ===== src/Serialize/Value.antt =====
-- magic/lua_serialize.cpp: the Lua values that are packed, and the type codes.
-- A `lua_Integer`, a `lua_Number` and a pointer are the bit patterns of their 64 bits. A table is
-- what the Lua API shows of it: the values at 1 to its raw length, and the pairs that `lua_next`
-- visits, these values included, in its order; a table with `__pairs` is the pairs that its
-- iterator yields before a nil key (`no_pairs`), or before a call of `__pairs` or of the iterator
-- raises a Lua error (`raises`). `lua_next` never raises one here.
use new_happy_server.Base.{
  ℕ, suc, ◌*◌, ◌%◌, ◌^◌, Bool, true, false, ◌&&◌, not, List, ltb, leb, bit_or,
}
use new_happy_server.Base.Words.{sign_extend}

mutual
  pub data Value : Type 0 where
    nil : Value
    boolean : Bool → Value
    integer : ℕ → Value
    real : ℕ → Value
    string : List ℕ → Value
    pointer : ℕ → Value
    table : Values → Pairs → Value
    meta_table : Pairs → Value
    unsupported : Value

  pub data Values : Type 0 where
    no_values : Values
    value : Value → Values → Values

  pub data Pairs : Type 0 where
    no_pairs : Pairs
    raises : Pairs
    pair : Value → Value → Pairs → Pairs

-- TYPE_NIL to TYPE_TABLE, the cookies of TYPE_NUMBER, and the limits.
abbrev pub type_nil : ℕ
type_nil = 0

abbrev pub type_boolean : ℕ
type_boolean = 1

abbrev pub type_number : ℕ
type_number = 2

abbrev pub number_zero : ℕ
number_zero = 0

abbrev pub number_byte : ℕ
number_byte = 1

abbrev pub number_word : ℕ
number_word = 2

abbrev pub number_dword : ℕ
number_dword = 4

abbrev pub number_qword : ℕ
number_qword = 6

abbrev pub number_real : ℕ
number_real = 8

abbrev pub type_userdata : ℕ
type_userdata = 3

abbrev pub type_short_string : ℕ
type_short_string = 4

abbrev pub type_long_string : ℕ
type_long_string = 5

abbrev pub type_table : ℕ
type_table = 6

abbrev pub max_cookie : ℕ
max_cookie = 32

abbrev pub max_depth : ℕ
max_depth = 32

-- `(uint8_t)COMBINE_TYPE(t, v)`
abbrev pub combine_type : ℕ → ℕ → ℕ
combine_type t v = bit_or t (v * 8) % 256

-- `(int)n`, as a bit pattern, and its sign.
abbrev pub to_int : ℕ → ℕ
to_int n = n % 2 ^ 32

abbrev pub is_negative_int : ℕ → Bool
is_negative_int w = leb (2 ^ 31) w

-- `(int32_t)v` as a `lua_Integer`.
abbrev pub narrow : ℕ → ℕ
narrow v = sign_extend (v % 2 ^ 32)

unfoldable pub count : Values → ℕ
count no_values = 0
count (value v vs) = suc (count vs)

-- `x > 0 && x <= array_size`, for a key that is an integer.
unfoldable pub is_index : ℕ → Value → Bool
is_index array_size (integer x) =
    not (leb (2 ^ 63) x) && ltb 0 x && not (is_negative_int array_size) && leb x array_size
is_index array_size _ = false

-- `lua_isnil`
unfoldable pub is_nil : Value → Bool
is_nil nil = true
is_nil _ = false
