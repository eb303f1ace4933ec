-- ===== src/Examples/Streams.antt =====
-- common/buffer_view.hpp and magic/lua_serialize.cpp: the theorems at a short stream and at a list
-- of values with a nested table.
use new_happy_server.Base.{
  ℕ, ◌+◌, ◌*◌, ◌^◌, ◌<◌, ◌≡◌, ◌≢◌, ◌-◌, refl, inl, inr, some, true, false, List, [], ◌∷◌, length,
  arith,
}
use mathlib.Core.List.{map}
use new_happy_server.Buffer.{
  Buffer, contents, create, IsValid, has_flag, set_flag, write_back, check_space,
}
use new_happy_server.View.{view}
use new_happy_server.View.Laws.{view-At}
use new_happy_server.Serialize.Value.{
  is_index, is_nil, count, Value, boolean, integer, string, table, meta_table, unsupported,
  no_values, value, no_pairs, raises, pair,
}
use new_happy_server.Serialize.Pack.{
  done, failed, unsupported_type, lua_error, wb_integer, pack_all, pack_one,
}
use new_happy_server.Serialize.Unpack.{ok, unpack_all, out_of_fuel}
use new_happy_server.Serialize.Code.{
  code, integer_code, string_code, size_code, rebuilt, Fits, integer_cookie, integer_width,
}
use new_happy_server.Serialize.Appends.{Wrote}
use new_happy_server.Serialize.Total.{unpack_all-ne-out_of_fuel}
use new_happy_server.Serialize.Whole.{list_code, FitsList, pack_all-Wrote, unpack_all-list_code}
use new_happy_server.Serialize.Api.{pack, packsafe, unpack, buffer_sink}
use new_happy_server.Serialize.Calls.{create-HasRoomFor, FailsWith, pack-unpack, pack-FailsWith}
use new_happy_server.Serialize.First.{unpack_first, unpack_first-code}
use new_happy_server.Examples.Inputs.{zero_runtime, three_bytes}

abbrev words : List ℕ
words = 7 ∷ 8 ∷ 9 ∷ []

-- Two values: a negative integer, and a table of a string with the pair of an integer and a Boolean.
abbrev first : Value
first = integer (2 ^ 64 - 5)

abbrev others : List Value
others =
    table (value (string (65 ∷ [])) no_values)
      (pair (integer 1) (string (65 ∷ [])) (pair (integer 70000) (boolean true) no_pairs))
    ∷ []

others-FitsList : FitsList (first ∷ others)
unfolding Fits is_index is_nil count
others-FitsList = (
  (omega arith, omega arith),
  (
    (
      omega arith,
      omega arith,
      ((omega arith, omega arith), tt),
      (inl refl, (inr (refl, (omega arith, omega arith), omega arith), tt)),
    ),
    tt,
  ),
)

length-list_code : length (list_code (first ∷ others)) ≡ 15
unfolding code integer_code integer_cookie integer_width string_code size_code is_index count
length-list_code = refl

short : length (list_code (first ∷ others)) < 2 ^ 31
short = omega (arith, length-list_code)

pack-unpack_example :
    (b : Buffer) × (pack zero_runtime (first ∷ others) ≡ some (done b))
    × (contents b ≡ list_code (first ∷ others))
    × (unpack (contents b) ≡ ok (map rebuilt (first ∷ others)))
pack-unpack_example = pack-unpack zero_runtime first others others-FitsList short

pack_all-Wrote_example :
    Wrote
      (buffer_sink zero_runtime)
      (list_code (first ∷ others))
      10
      (create zero_runtime 64 14)
      (pack_all (buffer_sink zero_runtime) (first ∷ others) (create zero_runtime 64 14))
pack_all-Wrote_example =
    pack_all-Wrote (buffer_sink zero_runtime) (first ∷ others) (create zero_runtime 64 14) 10
      others-FitsList
      (create-HasRoomFor zero_runtime 64 14 (length (list_code (first ∷ others)) + 10) (omega arith)
        (omega arith) (omega (arith, length-list_code)))

unpack_all-list_code_example :
    unpack_all 200 (view (list_code (first ∷ others))) ≡ ok (map rebuilt (first ∷ others))
unpack_all-list_code_example =
    unpack_all-list_code (first ∷ others) 200 others-FitsList (omega (arith, length-list_code))
      (record {
        here = view-At (list_code (first ∷ others)) (omega (arith, short));
        bounded = short;
      })

unpack_all-ne-out_of_fuel_example : unpack_all (3 * 3 + 1) (view words) ≢ out_of_fuel
unpack_all-ne-out_of_fuel_example =
    unpack_all-ne-out_of_fuel words (view words) (view-At words (omega arith))

-- A function cannot be packed, and a table may have a `__pairs` that raises an error.
abbrev failing : Value → List Value
failing v = first ∷ (v ∷ [])

fails :
    (pack zero_runtime (failing unsupported) ≡ some (failed unsupported_type true))
    × (packsafe zero_runtime (failing unsupported) ≡ some (failed unsupported_type false))
    × (pack zero_runtime (failing (meta_table raises)) ≡ some (failed lua_error false))
unfolding pack packsafe pack_all pack_one wb_integer has_flag set_flag write_back check_space create
fails = (refl, refl, refl)

pack-FailsWith_example :
    FailsWith true (pack zero_runtime (failing unsupported))
    × FailsWith false (packsafe zero_runtime (failing unsupported))
pack-FailsWith_example = pack-FailsWith zero_runtime (failing unsupported)

-- A buffer with an integer and a Boolean.
abbrev packed_pair : Buffer
packed_pair = record three_bytes { stack_data = 0 ∷ 0 ∷ 10 ∷ 9 ∷ 9 ∷ 0 ∷ 0 ∷ 0 ∷ [] }

packed_pair-IsValid : IsValid packed_pair
packed_pair-IsValid = record {
  storage = refl;
  read_le_write = omega arith;
  write_le_capacity = omega arith;
  head_le_capacity = omega arith;
  small = omega arith;
}

unpack_first-code_example :
    (b' : Buffer) × (unpack_first packed_pair ≡ ok (some (rebuilt (integer 9)), b'))
    × IsValid b'
    × (contents b' ≡ 9 ∷ [])
unfolding code integer_code integer_cookie integer_width Fits
unpack_first-code_example =
    unpack_first-code packed_pair (integer 9) (9 ∷ []) packed_pair-IsValid
      (omega arith, omega arith) refl (omega arith)
