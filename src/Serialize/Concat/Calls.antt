-- ===== src/Serialize/Concat/Calls.antt =====
-- magic/lua_serialize.cpp: what `concat` and `concatsafe` return, and what a failure of them leaves behind.
use new_happy_server.Base.{
  ℕ, ◌+◌, ◌^◌, ◌<◌, ◌≡◌, ap, subst, ◌∙◌, true, false, some, List, [], ◌∷◌, ◌++◌, arith, length,
}
use new_happy_server.Buffer.{
  Runtime, Buffer, create, set_flag, clear_flag, contents, stack_capacity,
}
use new_happy_server.Buffer.Positions.{create-IsFresh}
use new_happy_server.Serialize.Pack.{done, ◌>>=◌}
use new_happy_server.Serialize.Errors.{Owns}
use new_happy_server.Serialize.Api.{heap_buffer, buffer_head_reserved, buffer_sink}
use new_happy_server.Serialize.Calls.{
  create-HasRoomFor, set_flag-HasRoomFor, contents-set_flag, contents-clear_flag, FailsWith,
  after_Owns, heap_of_fresh, stack_of_fresh,
}
use new_happy_server.Serialize.Concat.{Item, concat_all, concat, concatsafe}
use new_happy_server.Serialize.Concat.Text.{
  AllHaveText, all_texts, concat_all-Writes, concat_all-Owns,
}

module _ (integer_text real_text : ℕ → List ℕ) (rt : Runtime) where
  -- Of values that have a text, tables no deeper than the limit, whose texts are shorter than 2 ^ 31
  -- bytes together, `concatsafe` returns exactly the texts one after the other, and `concat` a buffer
  -- whose readable bytes they are, whatever text the standard library gives a number.
  pub concat-all_texts :
      (v : Item) (vs : List Item)
      → AllHaveText (v ∷ vs)
      → length (all_texts integer_text real_text (v ∷ vs)) < 2 ^ 31
      → let expected = all_texts integer_text real_text (v ∷ vs) in
        (concatsafe integer_text real_text rt (v ∷ vs) ≡ some (done expected))
        × ((b : Buffer) × (concat integer_text real_text rt (v ∷ vs) ≡ some (done b))
            × (contents b ≡ expected))
  unfolding concat concatsafe
  concat-all_texts v vs h small =
      let expected = all_texts integer_text real_text (v ∷ vs) in
      let k = buffer_sink rt in
      let flat = create-IsFresh rt stack_capacity 0 (omega arith) (omega arith) in
      let front = create-IsFresh rt 64 buffer_head_reserved (omega arith) (omega arith) in
      let flat_room =
        create-HasRoomFor rt stack_capacity 0 (length expected + 0) (omega arith) (omega arith)
          (omega (arith, small)) in
      let front_room =
        set_flag-HasRoomFor (length expected + 0) heap_buffer (create rt 64 buffer_head_reserved) (
          create-HasRoomFor rt 64 buffer_head_reserved (length expected + 0) (omega arith)
            (omega arith) (omega (arith, small))) in
      let safe =
        concat_all-Writes integer_text real_text k (v ∷ vs) (create rt stack_capacity 0) h 0
          flat_room in
      let heap =
        concat_all-Writes integer_text real_text k (v ∷ vs)
          (set_flag heap_buffer (create rt 64 buffer_head_reserved)) h 0 front_room in
      (
        ap some (
            ap (λ r. r >>= λ b. done (contents b)) safe.succeeded
            ∙ ap done (safe.appended ∙ ap (λ ys. ys ++ expected) flat.nothing)),
        (
          clear_flag heap_buffer heap.after,
          ap (λ r. some (r >>= λ b. done (clear_flag heap_buffer b))) heap.succeeded,
          contents-clear_flag heap_buffer heap.after
              ∙ heap.appended
              ∙ ap (λ ys. ys ++ expected)
                  (contents-set_flag heap_buffer (create rt 64 buffer_head_reserved)
                    ∙ front.nothing),
        ),
      )

  -- For any values: if `concat` fails by its own errors, it has deleted the buffer that it allocated;
  -- if `concatsafe` fails, it has deleted nothing, as its buffer is on the stack.
  pub concat-FailsWith :
      (vs : List Item)
      → FailsWith true (concat integer_text real_text rt vs)
        × FailsWith false (concatsafe integer_text real_text rt vs)
  unfolding concat concatsafe
  concat-FailsWith [] = (tt, tt)
  concat-FailsWith (v ∷ vs) =
      let k = buffer_sink rt in
      let flat = create-IsFresh rt stack_capacity 0 (omega arith) (omega arith) in
      let front = create-IsFresh rt 64 buffer_head_reserved (omega arith) (omega arith) in
      let packs = concat_all integer_text real_text k (v ∷ vs) in
      let owns = concat_all-Owns integer_text real_text k (v ∷ vs) in
      (
        after_Owns k true _ (clear_flag heap_buffer) (
            subst (λ d. Owns k d (packs (set_flag heap_buffer (create rt 64 buffer_head_reserved))))
              (heap_of_fresh (create rt 64 buffer_head_reserved) front.no_flag)
              (owns (set_flag heap_buffer (create rt 64 buffer_head_reserved)))),
        after_Owns k false _ contents (
            subst (λ d. Owns k d (packs (create rt stack_capacity 0)))
              (stack_of_fresh (create rt stack_capacity 0) flat.no_flag)
              (owns (create rt stack_capacity 0))),
      )
