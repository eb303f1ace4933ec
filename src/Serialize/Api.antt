-- ===== src/Serialize/Api.antt =====
-- magic/lua_serialize.cpp: the Lua functions `pack`, `packsafe` and `unpack`, over common/buffer.hpp.
use new_happy_server.Base.{
  ℕ, ◌+◌, ◌*◌, ◌^◌, ◌<◌, ◌≡◌, refl, ◌∙◌, List, [], ◌∷◌, ◌++◌, length, arith, Option, none, some,
  inl, inr, ltb, Bool-cases, ltb→lt, ltb→le, ◌==◌, if◌then◌else◌,
}
use new_happy_server.Buffer.{
  Runtime, Buffer, create, write_back, check_space, set_flag, has_flag, clear_flag, contents,
  IsValid, stack_capacity, append_bytes,
}
use new_happy_server.Buffer.Grow.{CopiesApart, flag-check_space, put_data-fields}
use new_happy_server.Buffer.Contents.{write_back-Appends}
use new_happy_server.View.{view}
use new_happy_server.Serialize.Sink.{Sink}
use new_happy_server.Serialize.Value.{Value}
use new_happy_server.Serialize.Pack.{Packed, done, pack_all, ◌>>=◌}
use new_happy_server.Serialize.Unpack.{Outcome, ok, unpack_all}

-- HEAP_BUFFER and BUFFER_HEAD_RESERVED
abbrev pub heap_buffer : ℕ
heap_buffer = 1

abbrev pub buffer_head_reserved : ℕ
buffer_head_reserved = 14

-- Nothing was read yet, and no sum of sizes wraps for `n` more bytes.
pub record HasRoomFor (n : ℕ) (b : Buffer) : Type 0 where
  pub valid : IsValid b
  pub unread : b.readpos ≡ b.headreserved
  pub small : b.writepos + n < 2 ^ 63

module _ (rt : Runtime) where
  copies_apart : (b : Buffer) (n : ℕ) → b.readpos ≡ b.headreserved → CopiesApart n b
  copies_apart b n h = elim (Bool-cases (ltb b.capacity (b.writepos + n))) [
    | inl short ↦ inr (inl (omega (arith, ltb→lt _ _ short)))
    | inr fits ↦ inl (ltb→le _ _ fits)
  ]

  pub write_back-HasRoomFor :
      (xs : List ℕ) (n : ℕ) (b : Buffer)
      → HasRoomFor (length xs + n) b
      → HasRoomFor n (write_back rt (some xs) b)
        × (contents (write_back rt (some xs) b) ≡ contents b ++ xs)
  write_back-HasRoomFor xs n b h =
      let a =
        write_back-Appends rt b xs h.valid (omega (arith, h.small))
          (copies_apart b (length xs) h.unread) in
      (
        record {
          valid = a.valid;
          unread = ground (arith, a.read_from, a.same_head, h.unread);
          small = omega (arith, a.read_from, a.distance, h.unread, h.small);
        },
        a.appended,
      )

  flag-write_back : (xs : List ℕ) (b : Buffer) → (write_back rt (some xs) b).flag ≡ b.flag
  unfolding write_back append_bytes
  flag-write_back [] b = refl
  flag-write_back (x ∷ xs) b =
      (put_data-fields (check_space rt (length (x ∷ xs)) b) _).0 ∙ flag-check_space rt _ b

  pub has_flag-write_back :
      (xs : List ℕ) (b : Buffer)
      → has_flag heap_buffer (write_back rt (some xs) b) ≡ has_flag heap_buffer b
  unfolding has_flag
  has_flag-write_back xs b = rw (flag-write_back xs b)

  -- A buffer as the sink that `pack_one` writes to.
  abbrev pub buffer_sink : Sink
  buffer_sink = record {
    State = Buffer;
    write = λ xs b. write_back rt (some xs) b;
    is_heap = has_flag heap_buffer;
    bytes = contents;
    Room = HasRoomFor;
    write-Room = write_back-HasRoomFor;
    is_heap-write = has_flag-write_back;
  }

  -- `none` is the return without a result, for no arguments.
  unfoldable pub pack : List Value → Option (Packed Buffer)
  pack [] = none
  pack (v ∷ vs) = some (
      pack_all buffer_sink (v ∷ vs) (set_flag heap_buffer (create rt 64 buffer_head_reserved))
      >>= λ b. done (clear_flag heap_buffer b))

  -- The result is the string that is pushed.
  unfoldable pub packsafe : List Value → Option (Packed (List ℕ))
  packsafe [] = none
  packsafe (v ∷ vs) =
      some (pack_all buffer_sink (v ∷ vs) (create rt stack_capacity 0) >>= λ b. done (contents b))

-- `lua_serialize_do_unpack` on a string, or on the readable bytes of a buffer.
unfoldable pub unpack : List ℕ → Outcome (List Value)
unpack bytes = if length bytes == 0 then ok [] else unpack_all (3 * length bytes + 1) (view bytes)
