-- ===== src/Serialize/Written.antt =====
-- magic/lua_serialize.cpp: `pack_one` against the wire format, over any sink that appends.
use new_happy_server.Base.{
  ℕ, suc, ◌+◌, ◌-◌, ◌≤◌, ◌≡◌, refl, ◌⊎◌, inl, inr, Bool, true, false, List, [], ◌∷◌, ◌++◌, arith,
  ◌==◌, Bool-cases, le→ltb,
}
use new_happy_server.Base.Words.{le_bytes}
use new_happy_server.Serialize.Sink.{Sink}
use new_happy_server.Serialize.Value.{
  Value, Values, Pairs, nil, boolean, integer, real, string, pointer, table, meta_table,
  unsupported, no_values, value, no_pairs, raises, pair, max_depth, count, is_index, to_int,
  is_negative_int,
}
use new_happy_server.Serialize.Pack.{
  Packed, done, failed, ◌>>=◌, wb_nil, checked, pack_one, pack_items, pack_hash, pack_pairs,
}
use new_happy_server.Serialize.Code.{
  head, size_code, code, codes, pair_codes, Fits, FitsAll, FitsPairs,
}
use new_happy_server.Serialize.Appends.{
  Writes, write-Writes, nothing-Writes, bind-Writes, head-Writes, headed-Writes, wb_integer-Writes,
  wb_string-Writes, wb_array_size-Writes,
}

suc-ne-zero : (n : ℕ) → (suc n == 0) ≡ false
suc-ne-zero n = ground arith

one_less : (n : ℕ) → suc n - 1 ≡ n
one_less n = omega arith

-- No key is an index of an empty array part.
pub is_index-zero : (key : Value) → is_index 0 key ≡ false
unfolding is_index
is_index-zero (integer x) = ground arith
is_index-zero _ = refl

-- What is not skipped fits.
pub pair_fits {ℓ} : {b : Bool} {P : Type ℓ} → (b ≡ true) ⊎ P → b ≡ false → P
pair_fits (inl e) f = cc
pair_fits (inr p) f = p

module _ (k : Sink) where
  open k use {State, write, is_heap, bytes, Room, write-Room, is_heap-write}

  checked-Writes :
      (depth : ℕ) (xs : List ℕ) (s : State) (body : Packed State)
      → depth ≤ max_depth
      → Writes k xs s body
      → Writes k xs s (checked k depth s body)
  checked-Writes depth xs s body h w = rw (le→ltb max_depth depth h) w

  bind_assoc :
      (m : Packed State) (f g : State → Packed State) → (m >>= f) >>= g ≡ m >>= λ t. (f t >>= g)
  bind_assoc (done t) f g = refl
  bind_assoc (failed e deleted) f g = refl

  -- Three packings in a row, the first two of them grouped by the code.
  bind_three :
      (xs ys zs : List ℕ) (s : State) (m : Packed State) (f g h : State → Packed State)
      → Writes k xs s m
      → ((t : State) → Writes k ys t (f t))
      → ((t : State) → Writes k zs t (g t >>= h))
      → Writes k (xs ++ (ys ++ zs)) s ((m >>= λ t. (f t >>= g)) >>= h)
  bind_three xs ys zs s m f g h first second third = rw (bind_assoc m (λ t. (f t >>= g)) h) (
      bind-Writes k xs (ys ++ zs) s m (λ t. ((f t >>= g) >>= h)) first
        (λ t.
          rw (bind_assoc (f t) g h)
            (bind-Writes k ys zs t (f t) (λ u. (g u >>= h)) (second t) third)))

  mutual
    unfolding pack_one code Fits count

    pub pack_one-Writes :
        (depth : ℕ) (v : Value) (s : State)
        → Fits depth v
        → Writes k (code v) s (pack_one k depth v s)
    pack_one-Writes depth nil s h = checked-Writes depth _ s _ h (write-Writes k (0 ∷ []) s)
    pack_one-Writes depth (boolean true) s h =
        checked-Writes depth _ s _ h (head-Writes k 1 1 s (omega arith) (omega arith))
    pack_one-Writes depth (boolean false) s h =
        checked-Writes depth _ s _ h (head-Writes k 1 0 s (omega arith) (omega arith))
    pack_one-Writes depth (integer v) s h =
        checked-Writes depth _ s _ h.0 (wb_integer-Writes k v s h.1)
    pack_one-Writes depth (real v) s h =
        checked-Writes depth _ s _ h.0
          (headed-Writes k 2 8 (le_bytes 8 v) s (omega arith) (omega arith))
    pack_one-Writes depth (string str) s h =
        checked-Writes depth _ s _ h.0 (wb_string-Writes k str s h.1)
    pack_one-Writes depth (pointer v) s h =
        checked-Writes depth _ s _ h.0
          (headed-Writes k 3 0 (le_bytes 8 v) s (omega arith) (omega arith))
    pack_one-Writes depth (table items pairs) s h =
        let n = count items in
        let whole : to_int n ≡ n = omega arith in
        let positive : is_negative_int n ≡ false = ground arith in
        rw (whole, positive)
          (checked-Writes depth _ s _ h.0 (
            bind-Writes k (size_code n) (codes items ++ pair_codes n pairs) s _ _
              (wb_array_size-Writes k n s h.1)
              (λ t.
                bind-Writes k (codes items) (pair_codes n pairs) t _ _
                  (pack_items-Writes (depth + 1) items t h.2)
                  (λ u. pack_hash-Writes (depth + 1) n pairs u h.3))))
    pack_one-Writes depth (meta_table pairs) s h = checked-Writes depth _ s _ h.0 (
        bind-Writes k (head 6 0 ∷ []) (pair_codes 0 pairs) s _ _
          (head-Writes k 6 0 s (omega arith) (omega arith))
          (λ t. pack_pairs-Writes (depth + 1) pairs t h.1))
    pack_one-Writes depth unsupported s h = absurd h

    pack_items-Writes :
        (depth : ℕ) (vs : Values) (s : State)
        → FitsAll depth vs
        → Writes k (codes vs) s (pack_items k depth (count vs) vs s)
    pack_items-Writes depth no_values s h = nothing-Writes k s
    pack_items-Writes depth (value v vs) s h =
        rw (suc-ne-zero (count vs), one_less (count vs))
          (bind-Writes k (code v) (codes vs) s _ _ (pack_one-Writes depth v s h.0)
            (λ t. pack_items-Writes depth vs t h.1))

    pack_hash-Writes :
        (depth n : ℕ) (ps : Pairs) (s : State)
        → FitsPairs depth n ps
        → Writes k (pair_codes n ps) s (pack_hash k depth n ps s >>= λ t. done (wb_nil k t))
    pack_hash-Writes depth n no_pairs s h = write-Writes k (0 ∷ []) s
    pack_hash-Writes depth n raises s h = absurd h
    pack_hash-Writes depth n (pair key v ps) s h = elim (Bool-cases (is_index n key)) [
      | inl index ↦ rw index (pack_hash-Writes depth n ps s h.1)
      | inr other ↦
          let (some_key, hk, hv) = pair_fits h.0 other in
          rw other (
            bind_three (code key) (code v) (pair_codes n ps) s _ _ _ _
              (pack_one-Writes depth key s hk) (λ t. pack_one-Writes depth v t hv)
              (λ t. pack_hash-Writes depth n ps t h.1))
    ]

    pack_pairs-Writes :
        (depth : ℕ) (ps : Pairs) (s : State)
        → FitsPairs depth 0 ps
        → Writes k (pair_codes 0 ps) s (pack_pairs k depth ps s >>= λ t. done (wb_nil k t))
    pack_pairs-Writes depth no_pairs s h = write-Writes k (0 ∷ []) s
    pack_pairs-Writes depth raises s h = absurd h
    pack_pairs-Writes depth (pair key v ps) s h =
        let (some_key, hk, hv) = pair_fits h.0 (is_index-zero key) in
        rw (is_index-zero key) (
          bind_three (code key) (code v) (pair_codes 0 ps) s _ _ _ _
            (pack_one-Writes depth key s hk) (λ t. pack_one-Writes depth v t hv)
            (λ t. pack_pairs-Writes depth ps t h.1))
