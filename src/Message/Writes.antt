-- ===== src/Message/Writes.antt =====
-- common/message.hpp and `print` of magic/lua_bind.cpp: the bytes that are written.
use new_happy_server.Base.{
  ℕ, ◌+◌, ◌^◌, ◌≤◌, ◌<◌, ◌≡◌, refl, sym, ap, subst, ◌∙◌, true, false, Option, none, some, List, [],
  ◌∷◌, ◌++◌, length, length-append, append-nil, append_assoc, arith,
}
use new_happy_server.Buffer.{Runtime, Buffer, create, write_back, contents, stack_capacity}
use new_happy_server.Buffer.Positions.{create-IsFresh}
use new_happy_server.Logger.{info}
use new_happy_server.Logger.Pipeline.{Logger, logstring}
use new_happy_server.Serialize.Api.{HasRoomFor, write_back-HasRoomFor}
use new_happy_server.Message.{
  BufferMessage, create_message, message_bytes, write_data, print_loop, print,
}

-- Parts that are written one after the other.
unfoldable pub write_all : Runtime → List (List ℕ) → BufferMessage → Option BufferMessage
unfolding write_data
write_all rt [] m = some m
write_all rt (s ∷ ss) m = elim (write_data rt s m) [ none ↦ none | some m' ↦ write_all rt ss m' ]

abbrev pub joined : List (List ℕ) → List ℕ
joined [] = []
joined (s ∷ ss) = s ++ joined ss

-- The texts with a tab before each.
abbrev pub tabbed : List (List ℕ) → List ℕ
tabbed [] = []
tabbed (s ∷ ss) = 9 ∷ (s ++ tabbed ss)

-- The texts with a tab between two of them.
abbrev pub tab_joined : List (List ℕ) → List ℕ
tab_joined [] = []
tab_joined (s ∷ ss) = s ++ tabbed ss

abbrev pub texts_of : List (List ℕ) → List (Option (List ℕ))
texts_of [] = []
texts_of (s ∷ ss) = some s ∷ texts_of ss

fresh-HasRoomFor :
    (rt : Runtime) (capacity head n : ℕ)
    → head ≤ stack_capacity
    → head + capacity < 2 ^ 63
    → head + n < 2 ^ 63
    → HasRoomFor n (create rt capacity head)
fresh-HasRoomFor rt capacity head n h k room =
    let f = create-IsFresh rt capacity head h k in
    record {
      valid = f.valid;
      unread = f.starts ∙ sym f.head_is;
      small = omega (arith, f.stops, room);
    }

module _ (rt : Runtime) where
  loop-tabbed :
      (ss : List (List ℕ)) (buf : Buffer)
      → HasRoomFor (length (tabbed ss)) buf
      → (b : Buffer) × (print_loop rt false (texts_of ss) buf ≡ some b)
        × (contents b ≡ contents buf ++ tabbed ss)
  unfolding print_loop
  loop-tabbed [] buf room = (buf, refl, sym (append-nil (contents buf)))
  loop-tabbed (s ∷ ss) buf room =
      let (room₁, bytes₁) =
        write_back-HasRoomFor rt (9 ∷ []) (length (s ++ tabbed ss)) buf
          (subst (λ n. HasRoomFor n buf) (omega arith) room) in
      let (room₂, bytes₂) =
        write_back-HasRoomFor rt s (length (tabbed ss)) (write_back rt (some (9 ∷ [])) buf) (
          subst (λ n. HasRoomFor n (write_back rt (some (9 ∷ [])) buf))
            (length-append s (tabbed ss)) room₁) in
      let (b, e, bytes) =
        loop-tabbed ss (write_back rt (some s) (write_back rt (some (9 ∷ [])) buf)) room₂ in
      (
        b,
        e,
        bytes
            ∙ ap (λ t. t ++ tabbed ss) (bytes₂ ∙ ap (λ t. t ++ s) bytes₁)
            ∙ append_assoc (contents buf ++ (9 ∷ [])) s (tabbed ss)
            ∙ append_assoc (contents buf) (9 ∷ []) (s ++ tabbed ss),
      )

  print_loop-tab_joined :
      (ss : List (List ℕ)) (buf : Buffer)
      → HasRoomFor (length (tab_joined ss)) buf
      → contents buf ≡ []
      → (b : Buffer) × (print_loop rt true (texts_of ss) buf ≡ some b)
        × (contents b ≡ tab_joined ss)
  unfolding print_loop
  print_loop-tab_joined [] buf room empty = (buf, refl, empty)
  print_loop-tab_joined (s ∷ ss) buf room empty =
      let (room₁, bytes₁) =
        write_back-HasRoomFor rt s (length (tabbed ss)) buf
          (subst (λ n. HasRoomFor n buf) (length-append s (tabbed ss)) room) in
      let (b, e, bytes) = loop-tabbed ss (write_back rt (some s) buf) room₁ in
      (b, e, bytes ∙ ap (λ t. t ++ tabbed ss) (bytes₁ ∙ ap (λ t. t ++ s) empty))

  -- If `tostring` gives a text for each argument, and they are shorter than 2 ^ 62 bytes together:
  -- `print` logs one line of the level Info, the texts in their order with a tab between two of them.
  pub print-tab_joined :
      (ss : List (List ℕ)) (log : Logger)
      → length (tab_joined ss) < 2 ^ 62
      → print rt (texts_of ss) log ≡ some (logstring info (tab_joined ss) log)
  unfolding print
  print-tab_joined ss log short =
      let f = create-IsFresh rt stack_capacity 0 (omega arith) (omega arith) in
      let room =
        fresh-HasRoomFor rt stack_capacity 0 (length (tab_joined ss)) (omega arith) (omega arith)
          (omega arith) in
      let (b, e, bytes) = print_loop-tab_joined ss (create rt stack_capacity 0) room f.nothing in
      rw (e, print) (ap (λ t. some (logstring info t log)) bytes)

  write_all-joined_from :
      (ss : List (List ℕ)) (m : BufferMessage) (b : Buffer)
      → m.data_ ≡ some b
      → HasRoomFor (length (joined ss)) b
      → (n : BufferMessage) × (write_all rt ss m ≡ some n)
        × (message_bytes n ≡ contents b ++ joined ss)
  unfolding write_all write_data
  write_all-joined_from [] m b stored room = (m, refl, rw stored (sym (append-nil (contents b))))
  write_all-joined_from (s ∷ ss) m b stored room =
      let (room₁, bytes₁) =
        write_back-HasRoomFor rt s (length (joined ss)) b
          (subst (λ n. HasRoomFor n b) (length-append s (joined ss)) room) in
      let (n, e, bytes) =
        write_all-joined_from ss (record m { data_ = some (write_back rt (some s) b) })
          (write_back rt (some s) b) refl room₁ in
      (
        n,
        rw stored e,
        bytes ∙ ap (λ t. t ++ joined ss) bytes₁ ∙ append_assoc (contents b) s (joined ss),
      )

  -- A message that is created with a head reserve of at most 216 bytes takes any parts that are shorter
  -- than 2 ^ 62 bytes together, and its bytes are then exactly these parts one after the other.
  pub write_all-joined :
      (ss : List (List ℕ)) (capacity head : ℕ)
      → head ≤ stack_capacity
      → capacity < 2 ^ 62
      → length (joined ss) < 2 ^ 62
      → (n : BufferMessage) × (write_all rt ss (create_message rt capacity head) ≡ some n)
        × (message_bytes n ≡ joined ss)
  unfolding create_message
  write_all-joined ss capacity head h k short =
      let f = create-IsFresh rt capacity head h (omega arith) in
      let (n, e, bytes) =
        write_all-joined_from ss (create_message rt capacity head) (create rt capacity head) refl
          (fresh-HasRoomFor rt capacity head (length (joined ss)) h (omega arith) (omega arith)) in
      (n, e, bytes ∙ ap (λ t. t ++ joined ss) f.nothing)
