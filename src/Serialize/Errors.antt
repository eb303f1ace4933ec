-- ===== src/Serialize/Errors.antt =====
-- magic/lua_serialize.cpp: what happens to the buffer when packing fails.
use new_happy_server.Base.{
  ℕ, ◌+◌, ◌-◌, ◌≡◌, refl, ◌∙◌, inl, inr, Bool, false, List, [], ◌∷◌, arith, ltb, ◌==◌, Bool-cases,
}
use new_happy_server.Serialize.Sink.{Sink}
use new_happy_server.Serialize.Value.{
  Value, Values, Pairs, nil, boolean, integer, real, string, pointer, table, meta_table,
  unsupported, no_values, value, no_pairs, raises, pair, max_depth, is_index,
}
use new_happy_server.Serialize.Pack.{
  Error, too_deep, unsupported_type, lua_error, Packed, done, failed, ◌>>=◌, wb_integer, wb_string,
  wb_array_size, checked, pack_one, pack_items, pack_hash, pack_pairs, pack_all,
}

-- Whether an error deletes a buffer with that flag.
abbrev pub deletes : Error → Bool → Bool
deletes too_deep heap = heap
deletes unsupported_type heap = heap
deletes lua_error heap = false

module _ (k : Sink) where
  open k use {State, write, is_heap, is_heap-write}

  -- A success keeps the flag; an error of `pack_one` deletes the buffer exactly if it is flagged as a
  -- heap one, and a Lua error deletes nothing.
  abbrev pub Owns : Bool → Packed State → Type 0
  Owns heap (done s) = is_heap s ≡ heap
  Owns heap (failed e deleted) = deleted ≡ deletes e heap

  pub bind-Owns :
      (heap : Bool) (m : Packed State) (f : State → Packed State)
      → Owns heap m
      → ((s : State) → is_heap s ≡ heap → Owns heap (f s))
      → Owns heap (m >>= f)
  bind-Owns heap (done s) f h next = next s h
  bind-Owns heap (failed e deleted) f h next = h

  pub checked-Owns :
      (heap : Bool) (depth : ℕ) (s : State) (body : Packed State)
      → is_heap s ≡ heap
      → Owns heap body
      → Owns heap (checked k depth s body)
  checked-Owns heap depth s body h b = elim (Bool-cases (ltb max_depth depth)) [
    | inl deep ↦ rw deep h
    | inr fine ↦ rw fine b
  ]

  one_write :
      (xs : List ℕ) (s : State) (heap : Bool) → is_heap s ≡ heap → is_heap (write xs s) ≡ heap
  one_write xs s heap h = is_heap-write xs s ∙ h

  two_writes :
      (xs ys : List ℕ) (s : State) (heap : Bool)
      → is_heap s ≡ heap
      → is_heap (write ys (write xs s)) ≡ heap
  two_writes xs ys s heap h = one_write ys (write xs s) heap (one_write xs s heap h)

  integer_heap :
      (v : ℕ) (s : State) (heap : Bool) → is_heap s ≡ heap → is_heap (wb_integer k v s) ≡ heap
  unfolding wb_integer
  integer_heap v s heap h = grind (arith, is_heap-write)

  string_heap :
      (str : List ℕ) (s : State) (heap : Bool)
      → is_heap s ≡ heap
      → is_heap (wb_string k str s) ≡ heap
  unfolding wb_string
  string_heap str s heap h = grind (arith, is_heap-write)

  size_heap :
      (n : ℕ) (s : State) (heap : Bool) → is_heap s ≡ heap → is_heap (wb_array_size k n s) ≡ heap
  unfolding wb_array_size
  size_heap n s heap h = grind (arith, is_heap-write, integer_heap)

  mutual
    unfolding pack_one

    one-Owns :
        (depth : ℕ) (v : Value) (s : State) (heap : Bool)
        → is_heap s ≡ heap
        → Owns heap (pack_one k depth v s)
    one-Owns depth nil s heap h = checked-Owns heap depth s _ h (one_write _ s heap h)
    one-Owns depth (boolean b) s heap h = checked-Owns heap depth s _ h (one_write _ s heap h)
    one-Owns depth (integer v) s heap h = checked-Owns heap depth s _ h (integer_heap v s heap h)
    one-Owns depth (real v) s heap h = checked-Owns heap depth s _ h (two_writes _ _ s heap h)
    one-Owns depth (string str) s heap h = checked-Owns heap depth s _ h (string_heap str s heap h)
    one-Owns depth (pointer v) s heap h = checked-Owns heap depth s _ h (two_writes _ _ s heap h)
    one-Owns depth (table items pairs) s heap h = checked-Owns heap depth s _ h (
        bind-Owns heap _ _ (items-Owns (depth + 1) _ items _ heap (size_heap _ s heap h)) (λ t g.
          bind-Owns heap _ _ (hash-Owns (depth + 1) _ pairs t heap g)
            (λ u g'. one_write _ u heap g')))
    one-Owns depth (meta_table pairs) s heap h = checked-Owns heap depth s _ h (
        bind-Owns heap _ _ (pairs-Owns (depth + 1) pairs _ heap (one_write _ s heap h))
          (λ u g. one_write _ u heap g))
    one-Owns depth unsupported s heap h = checked-Owns heap depth s _ h h

    items-Owns :
        (depth rounds : ℕ) (vs : Values) (s : State) (heap : Bool)
        → is_heap s ≡ heap
        → Owns heap (pack_items k depth rounds vs s)
    items-Owns depth rounds no_values s heap h = h
    items-Owns depth rounds (value v vs) s heap h =
        let step =
          bind-Owns heap _ _ (one-Owns depth v s heap h)
            (λ t g. items-Owns depth (rounds - 1) vs t heap g) in
        elim (Bool-cases (rounds == 0)) [ inl over ↦ rw over h | inr more ↦ rw more step ]

    hash-Owns :
        (depth n : ℕ) (ps : Pairs) (s : State) (heap : Bool)
        → is_heap s ≡ heap
        → Owns heap (pack_hash k depth n ps s)
    hash-Owns depth n no_pairs s heap h = h
    hash-Owns depth n raises s heap h = h
    hash-Owns depth n (pair key v ps) s heap h =
        let step = bind-Owns heap _ _ (one-Owns depth key s heap h) (λ t g.
          bind-Owns heap _ _ (one-Owns depth v t heap g)
            (λ u g'. hash-Owns depth n ps u heap g')) in
        elim (Bool-cases (is_index n key)) [
          | inl index ↦ rw index (hash-Owns depth n ps s heap h)
          | inr other ↦ rw other step
        ]

    pairs-Owns :
        (depth : ℕ) (ps : Pairs) (s : State) (heap : Bool)
        → is_heap s ≡ heap
        → Owns heap (pack_pairs k depth ps s)
    pairs-Owns depth no_pairs s heap h = h
    pairs-Owns depth raises s heap h = refl
    pairs-Owns depth (pair key v ps) s heap h =
        bind-Owns heap _ _ (one-Owns depth key s heap h) (λ t g.
          bind-Owns heap _ _ (one-Owns depth v t heap g) (λ u g'. pairs-Owns depth ps u heap g'))

  -- For any values: packing keeps the heap flag; an error of `pack_one` has deleted the buffer exactly
  -- if the flag was set, and a Lua error of `__pairs` has deleted nothing.
  pub pack_all-Owns : (vs : List Value) (s : State) → Owns (is_heap s) (pack_all k vs s)
  unfolding pack_all
  pack_all-Owns [] s = refl
  pack_all-Owns (v ∷ vs) s =
      bind-Owns (is_heap s) _ _ (one-Owns 0 v s (is_heap s) refl) (λ t g. rest_of vs t g)
    where
      rest_of :
          (us : List Value) (t : State) → is_heap t ≡ is_heap s → Owns (is_heap s) (pack_all k us t)
      rest_of [] t g = g
      rest_of (u ∷ us) t g =
          bind-Owns (is_heap s) _ _ (one-Owns 0 u t (is_heap s) g) (λ t' g'. rest_of us t' g')
