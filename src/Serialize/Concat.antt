-- ===== src/Serialize/Concat.antt =====
-- magic/lua_serialize.cpp: the Lua functions `concat` and `concatsafe`. Of a table they read the values
-- at 1 to its raw length, which is below 2 ^ 31; `std::to_string` of a `lua_Integer` and of a
-- `lua_Number` are parameters.
pub mod Text
pub mod Calls
use new_happy_server.Base.{ℕ, suc, Bool, Option, none, some, List, [], ◌∷◌, ltb, if◌then◌else◌}
use new_happy_server.Buffer.{
  Runtime, Buffer, create, set_flag, clear_flag, contents, stack_capacity,
}
use new_happy_server.Serialize.Sink.{Sink}
use new_happy_server.Serialize.Pack.{Packed, done, failed, ◌>>=◌, unsupported_type, checked}
use new_happy_server.Serialize.Api.{heap_buffer, buffer_head_reserved, buffer_sink}

mutual
  pub data Item : Type 0 where
    nil_item : Item
    boolean_item : Bool → Item
    integer_item : ℕ → Item
    real_item : ℕ → Item
    string_item : List ℕ → Item
    table_item : Items → Item
    other_item : Item

  pub data Items : Type 0 where
    no_items : Items
    item : Item → Items → Items

-- "true" and "false"
abbrev pub boolean_text : Bool → List ℕ
boolean_text b =
    if b then 116 ∷ (114 ∷ (117 ∷ (101 ∷ []))) else 102 ∷ (97 ∷ (108 ∷ (115 ∷ (101 ∷ []))))

module _ (integer_text real_text : ℕ → List ℕ) where
  module _ (k : Sink) where
    open k use {State, write, is_heap}

    unfoldable mutual
      pub concat_one : ℕ → Item → State → Packed State
      concat_one depth nil_item s = checked k depth s (done s)
      concat_one depth (integer_item v) s = checked k depth s (done (write (integer_text v) s))
      concat_one depth (real_item v) s = checked k depth s (done (write (real_text v) s))
      concat_one depth (boolean_item b) s = checked k depth s (done (write (boolean_text b) s))
      concat_one depth (string_item str) s = checked k depth s (done (write str s))
      concat_one depth (table_item items) s =
          let body = concat_items (suc depth) items s in checked k depth s body
      concat_one depth other_item s = checked k depth s (failed unsupported_type (is_heap s))

      pub concat_items : ℕ → Items → State → Packed State
      concat_items depth no_items s = done s
      concat_items depth (item v vs) s = concat_one depth v s >>= λ t. concat_items depth vs t

    -- The loop over the arguments.
    unfoldable pub concat_all : List Item → State → Packed State
    unfolding concat_one
    concat_all [] s = done s
    concat_all (v ∷ vs) s = concat_one 0 v s >>= λ t. concat_all vs t

  unfoldable pub concat : Runtime → List Item → Option (Packed Buffer)
  unfolding concat_all
  concat rt [] = none
  concat rt (v ∷ vs) = some (
      concat_all (buffer_sink rt) (v ∷ vs)
        (set_flag heap_buffer (create rt 64 buffer_head_reserved))
      >>= λ b. done (clear_flag heap_buffer b))

  -- The result is the string that is pushed.
  unfoldable pub concatsafe : Runtime → List Item → Option (Packed (List ℕ))
  unfolding concat_all
  concatsafe rt [] = none
  concatsafe rt (v ∷ vs) =
      some (
        concat_all (buffer_sink rt) (v ∷ vs) (create rt stack_capacity 0) >>= λ b.
        done (contents b))
