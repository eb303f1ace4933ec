-- ===== src/Serialize/First.antt =====
-- magic/lua_serialize.cpp: the Lua function `unpack_one`, which takes one value from a buffer.
use new_happy_server.Base.{
  ℕ, suc, ◌+◌, ◌-◌, ◌*◌, ◌/◌, ◌^◌, ◌<◌, ◌≡◌, refl, ap, subst, ◌∙◌, false, Option, none, some, List,
  ◌++◌, length, length-append, drop, drop-append_self, arith, bit_and,
}
use new_happy_server.Base.Words.{le_value, sub_size}
use new_happy_server.Base.Slices.{length-slice}
use new_happy_server.Buffer.{Buffer, data_, size, seek, current, contents, IsValid}
use new_happy_server.Buffer.Positions.{contents-seek, seek-IsValid}
use new_happy_server.View
use new_happy_server.View.{View, view}
use new_happy_server.View.Laws.{view-At, size-At}
use new_happy_server.Serialize.Value.{Value, to_int}
use new_happy_server.Serialize.Unpack.{Outcome, ok, ◌>>=◌, push_value, unpack_one}
use new_happy_server.Serialize.Code.{code, Fits, rebuilt}
use new_happy_server.Serialize.Scalars.{Ahead, Reads}
use new_happy_server.Serialize.RoundTrip.{value-Reads, with_fuel, code_pos}

-- The argument is a buffer. The value, if there is a byte, and the buffer with its read position behind it.
unfoldable pub unpack_first : Buffer → Outcome (Option Value × Buffer)
unfolding push_value
unpack_first b =
    let (v₁, out) = View.read false 1 (view (contents b)) in
    elim out [
      | none ↦ ok (none, b)
      | some bytes ↦ (do
        (x, v₂) ←
            push_value (3 * length (contents b)) (bit_and (le_value bytes) 7) (le_value bytes / 8)
              v₁
        ok (some x, (seek (to_int (sub_size (size b) (View.size v₂))) current b).0))
    ]

first_step :
    (b : Buffer) (v' : View) (x : Value)
    → unpack_one (suc (3 * length (contents b))) (view (contents b)) ≡ ok (x, v')
    → unpack_first b ≡ ok (some x, (seek (to_int (sub_size (size b) (View.size v'))) current b).0)
unfolding unpack_one unpack_first
first_step b v' x e = ground arith

-- From a valid buffer of fewer than 2 ^ 31 bytes that starts with the code of a value that fits,
-- `unpack_one` takes this value, the table rebuilt, and leaves a valid buffer of exactly the bytes
-- behind the code.
pub unpack_first-code :
    (b : Buffer) (v : Value) (ys : List ℕ)
    → IsValid b
    → Fits 0 v
    → contents b ≡ code v ++ ys
    → length (contents b) < 2 ^ 31
    → (b' : Buffer) × (unpack_first b ≡ ok (some (rebuilt v), b')) × IsValid b' × (contents b' ≡ ys)
unpack_first-code b v ys valid h starts small =
    let len : length (contents b) ≡ length (code v) + length ys =
      ap length starts ∙ length-append (code v) ys in
    let at_start : Ahead (code v ++ ys) (view (contents b)) =
      subst (λ bs. Ahead bs (view (contents b))) starts
        (record { here = view-At (contents b) (omega (arith, small)); bounded = small }) in
    let (v', got, after) =
      with_fuel (λ f. Reads (unpack_one f (view (contents b))) (rebuilt v) ys) (length (code v))
        (suc (3 * length (contents b))) (λ f k. value-Reads 0 v f ys h k at_start) (code_pos 0 v h)
        (omega (arith, len)) in
    let held : length (contents b) ≡ b.writepos - b.readpos =
      length-slice b.readpos b.writepos (data_ b) valid.read_le_write
        (omega (arith, valid.storage, valid.write_le_capacity)) in
    let taken : to_int (sub_size (size b) (View.size v')) ≡ length (code v) = omega (
      arith,
      size-At after.here,
      held,
      len,
      small,
      valid.read_le_write,
      valid.write_le_capacity,
      valid.small,
    ) in
    (
      (seek (length (code v)) current b).0,
      first_step b v' (rebuilt v) got ∙ ap (λ n. ok (some (rebuilt v), (seek n current b).0)) taken,
      (seek-IsValid (length (code v)) b valid).0,
      contents-seek (length (code v)) b valid (omega (arith, len, small))
          ∙ ap (drop (length (code v))) starts
          ∙ drop-append_self (length (code v)) (code v) ys refl,
    )
