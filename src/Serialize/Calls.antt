-- ===== src/Serialize/Calls.antt =====
-- magic/lua_serialize.cpp: `pack`, `packsafe` and `unpack` one after the other, and their failures.
use new_happy_server.Base.{
  ℕ, ◌+◌, ◌*◌, ◌^◌, ◌≤◌, ◌<◌, ◌≡◌, refl, sym, ap, subst, ◌∙◌, Bool, true, false, List, [], ◌∷◌,
  ◌++◌, length, length-append, arith, Option, none, some, ◌==◌,
}
use mathlib.Core.List.{map}
use new_happy_server.Buffer.{
  Runtime, Buffer, create, set_flag, has_flag, clear_flag, contents, stack_capacity,
}
use new_happy_server.Buffer.Positions.{create-IsFresh}
use new_happy_server.View.Laws.{view-At}
use new_happy_server.Serialize.Sink.{Sink}
use new_happy_server.Serialize.Value.{Value}
use new_happy_server.Serialize.Pack.{Packed, done, failed, pack_all, ◌>>=◌}
use new_happy_server.Serialize.Unpack.{ok}
use new_happy_server.Serialize.Code.{code, rebuilt}
use new_happy_server.Serialize.RoundTrip.{code_pos}
use new_happy_server.Serialize.Errors.{Owns, deletes, pack_all-Owns}
use new_happy_server.Serialize.Whole.{list_code, FitsList, pack_all-Writes, unpack_all-list_code}
use new_happy_server.Serialize.Api.{
  HasRoomFor, buffer_sink, heap_buffer, buffer_head_reserved, pack, packsafe, unpack,
}

pub set_flag-HasRoomFor : (n v : ℕ) (b : Buffer) → HasRoomFor n b → HasRoomFor n (set_flag v b)
unfolding set_flag
set_flag-HasRoomFor n v b h = record {
  valid = record {
    storage = h.valid.storage;
    read_le_write = h.valid.read_le_write;
    write_le_capacity = h.valid.write_le_capacity;
    head_le_capacity = h.valid.head_le_capacity;
    small = h.valid.small;
  };
  unread = h.unread;
  small = h.small;
}

pub contents-set_flag : (v : ℕ) (b : Buffer) → contents (set_flag v b) ≡ contents b
unfolding set_flag
contents-set_flag v b = refl

pub contents-clear_flag : (v : ℕ) (b : Buffer) → contents (clear_flag v b) ≡ contents b
unfolding clear_flag
contents-clear_flag v b = refl

pub create-HasRoomFor :
    (rt : Runtime) (capacity head n : ℕ)
    → head ≤ stack_capacity
    → head + capacity < 2 ^ 63
    → n < 2 ^ 31
    → HasRoomFor n (create rt capacity head)
create-HasRoomFor rt capacity head n h k small =
    let f = create-IsFresh rt capacity head h k in
    record {
      valid = f.valid;
      unread = f.starts ∙ sym f.head_is;
      small = omega (arith, f.stops, h, small);
    }

-- The code of a list of values, if it is shorter than 2 ^ 31 bytes, unpacks to the values.
code-unpack :
    (v : Value) (vs : List Value)
    → FitsList (v ∷ vs)
    → length (list_code (v ∷ vs)) < 2 ^ 31
    → unpack (list_code (v ∷ vs)) ≡ ok (map rebuilt (v ∷ vs))
unfolding unpack
code-unpack v vs h small =
    let len = length-append (code v) (list_code vs) in
    let some_bytes : (length (list_code (v ∷ vs)) == 0) ≡ false =
      ground (arith, len, code_pos 0 v h.0) in
    rw some_bytes (
      unpack_all-list_code (v ∷ vs) (3 * length (list_code (v ∷ vs)) + 1) h (omega arith)
        (record { here = view-At (list_code (v ∷ vs)) (omega arith); bounded = small }))

-- Values that fit, whose code is shorter than 2 ^ 31 bytes, are packed into a buffer with success, the
-- readable bytes of the buffer are exactly their code, and `unpack` of these bytes gives the values
-- back, tables rebuilt.
pub pack-unpack :
    (rt : Runtime) (v : Value) (vs : List Value)
    → FitsList (v ∷ vs)
    → length (list_code (v ∷ vs)) < 2 ^ 31
    → (b : Buffer) × (pack rt (v ∷ vs) ≡ some (done b))
      × (contents b ≡ list_code (v ∷ vs))
      × (unpack (contents b) ≡ ok (map rebuilt (v ∷ vs)))
unfolding pack
pack-unpack rt v vs h small =
    let fresh = create-IsFresh rt 64 buffer_head_reserved (omega arith) (omega arith) in
    let empty = create rt 64 buffer_head_reserved in
    let room = set_flag-HasRoomFor (length (list_code (v ∷ vs)) + 0) heap_buffer empty (
      create-HasRoomFor rt 64 buffer_head_reserved (length (list_code (v ∷ vs)) + 0) (omega arith)
        (omega arith) (omega (arith, small))) in
    let w = pack_all-Writes (buffer_sink rt) (v ∷ vs) (set_flag heap_buffer empty) h 0 room in
    let code_is : contents (clear_flag heap_buffer w.after) ≡ list_code (v ∷ vs) =
      contents-clear_flag heap_buffer w.after
      ∙ w.appended
      ∙ ap (λ ys. ys ++ list_code (v ∷ vs)) (contents-set_flag heap_buffer empty ∙ fresh.nothing) in
    (
      clear_flag heap_buffer w.after,
      ap (λ r. some (r >>= λ b. done (clear_flag heap_buffer b))) w.succeeded,
      code_is,
      ap unpack code_is ∙ code-unpack v vs h small,
    )

-- Of values that fit, whose code is shorter than 2 ^ 31 bytes, `packsafe` returns exactly the code as
-- a string, and `unpack` of it gives them back, tables rebuilt.
pub packsafe-unpack :
    (rt : Runtime) (v : Value) (vs : List Value)
    → FitsList (v ∷ vs)
    → length (list_code (v ∷ vs)) < 2 ^ 31
    → (packsafe rt (v ∷ vs) ≡ some (done (list_code (v ∷ vs))))
      × (unpack (list_code (v ∷ vs)) ≡ ok (map rebuilt (v ∷ vs)))
unfolding packsafe
packsafe-unpack rt v vs h small =
    let fresh = create-IsFresh rt stack_capacity 0 (omega arith) (omega arith) in
    let empty = create rt stack_capacity 0 in
    let room =
      create-HasRoomFor rt stack_capacity 0 (length (list_code (v ∷ vs)) + 0) (omega arith)
        (omega arith) (omega (arith, small)) in
    let w = pack_all-Writes (buffer_sink rt) (v ∷ vs) empty h 0 room in
    let code_is : contents w.after ≡ list_code (v ∷ vs) =
      w.appended ∙ ap (λ ys. ys ++ list_code (v ∷ vs)) fresh.nothing in
    (
      ap some (ap (λ r. r >>= λ b. done (contents b)) w.succeeded ∙ ap done code_is),
      code-unpack v vs h small,
    )

pub heap_of_fresh : (b : Buffer) → b.flag ≡ 0 → has_flag heap_buffer (set_flag heap_buffer b) ≡ true
unfolding has_flag set_flag
heap_of_fresh b e = rw e refl

pub stack_of_fresh : (b : Buffer) → b.flag ≡ 0 → has_flag heap_buffer b ≡ false
unfolding has_flag
stack_of_fresh b e = rw e refl

-- A failure of a call by its own error deleted a buffer or not, and one by a Lua error deleted none.
abbrev pub FailsWith : {A : Type 0} → Bool → Option (Packed A) → Type 0
FailsWith deleted none = Unit {0}
FailsWith deleted (some (done x)) = Unit {0}
FailsWith deleted (some (failed e d)) = d ≡ deletes e deleted

pub after_Owns :
    {A : Type 0} (k : Sink) (heap : Bool) (r : Packed k.State) (f : k.State → A)
    → Owns k heap r
    → FailsWith heap (some (r >>= λ s. done (f s)))
after_Owns k heap (done s) f o = tt
after_Owns k heap (failed e d) f o = o

-- For any values: if `pack` fails by an error of `pack_one`, too deep a table or an unsupported type, it
-- has deleted the buffer that it allocated; if it fails because a call of `__pairs` or of its
-- iterator raises a Lua error, it has not, and the buffer leaks. If `packsafe` fails, it has deleted
-- nothing, as its buffer is on the stack.
pub pack-FailsWith :
    (rt : Runtime) (vs : List Value)
    → FailsWith true (pack rt vs) × FailsWith false (packsafe rt vs)
unfolding pack packsafe
pack-FailsWith rt [] = (tt, tt)
pack-FailsWith rt (v ∷ vs) =
    let front = create-IsFresh rt 64 buffer_head_reserved (omega arith) (omega arith) in
    let flat = create-IsFresh rt stack_capacity 0 (omega arith) (omega arith) in
    let k = buffer_sink rt in
    (
      after_Owns k true _ (clear_flag heap_buffer) (
          subst
            (λ d.
              Owns k d
                (pack_all k (v ∷ vs) (set_flag heap_buffer (create rt 64 buffer_head_reserved))))
            (heap_of_fresh (create rt 64 buffer_head_reserved) front.no_flag)
            (pack_all-Owns k (v ∷ vs) (set_flag heap_buffer (create rt 64 buffer_head_reserved)))),
      after_Owns k false _ contents (
          subst (λ d. Owns k d (pack_all k (v ∷ vs) (create rt stack_capacity 0)))
            (stack_of_fresh (create rt stack_capacity 0) flat.no_flag)
            (pack_all-Owns k (v ∷ vs) (create rt stack_capacity 0))),
    )
