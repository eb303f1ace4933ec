-- ===== src/Serialize/Total.antt =====
-- magic/lua_serialize.cpp: the readers end on every input. Every value takes a byte at least, so
-- the fuel that a stream needs is linear in its length.
use new_happy_server.Base.{
  ℕ, zero, suc, ◌+◌, ◌-◌, ◌*◌, ◌/◌, ◌≤◌, ◌≢◌, refl, List, ◌∷◌, length, arith, ◌==◌, bit_and, inl,
  inr,
}
use new_happy_server.Base.Words.{le_value}
use new_happy_server.View.{View}
use new_happy_server.View.Laws.{At, advance}
use new_happy_server.Serialize.Value.{Value, is_nil}
use new_happy_server.Serialize.Unpack.{
  Outcome, ok, invalid, fault, out_of_fuel, ◌>>=◌, read_or_invalid, get_array_size, push_value,
  unpack_one, unpack_items, unpack_pairs, unpack_all,
}
use new_happy_server.Serialize.Ends.{
  Holds, Ends, bind-Ends, Ends-mono, read_first, number-Ends, Ends-if, scalar-Ends, array_size-Ends,
}

-- One byte of them was taken.
one_fewer : {m : ℕ} {v : View} → Holds 1 m v → Holds 0 (m - 1) v × (1 ≤ m)
one_fewer a =
    (record { bytes = a.bytes; at = a.at; few = omega (arith, a.few) }, omega (arith, a.few))

mutual
  unfolding push_value

  push_value-Ends :
      (fuel t c m : ℕ) (v : View)
      → 3 * m + 3 ≤ fuel
      → Holds 0 m v
      → Ends 0 m (push_value fuel t c v)
  push_value-Ends zero t c m v h a = absurd (omega arith)
  push_value-Ends (suc fuel) t c m v h a =
      Ends-if 0 m (t == 6) _ _
        (bind-Ends 0 m 0 m (get_array_size c v) _ (array_size-Ends c m v a) (λ n v₁ a₁.
          bind-Ends 0 m 0 m (unpack_items fuel _ v₁) _ (items-Ends fuel _ m v₁ (omega arith) a₁)
            (λ xs v₂ a₂.
              bind-Ends 0 m 0 m (unpack_pairs fuel v₂) _ (pairs-Ends fuel m v₂ (omega arith) a₂)
                (λ ps v₃ a₃. a₃))))
        (scalar-Ends t c m v a)

  unpack_one-Ends :
      (fuel m : ℕ) (v : View) → 3 * m + 1 ≤ fuel → Holds 0 m v → Ends 1 m (unpack_one fuel v)
  unpack_one-Ends zero m v h a = absurd (omega arith)
  unpack_one-Ends (suc fuel) m v h a =
      bind-Ends 1 m 1 m (read_or_invalid 1 v) _ (number-Ends 1 m v (omega arith) (omega arith) a)
        (λ type v₁ a₁.
          let (b, pos) = one_fewer a₁ in
          Ends-mono 0 (m - 1) 1 m (push_value fuel (bit_and type 7) (type / 8) v₁) (omega arith)
            (push_value-Ends fuel (bit_and type 7) (type / 8) (m - 1) v₁ (omega arith) b))

  items-Ends :
      (fuel rounds m : ℕ) (v : View)
      → 3 * m + 2 ≤ fuel
      → Holds 0 m v
      → Ends 0 m (unpack_items fuel rounds v)
  items-Ends zero rounds m v h a = absurd (omega arith)
  items-Ends (suc fuel) rounds m v h a = Ends-if 0 m (rounds == 0) _ _ a (
      bind-Ends 1 m 0 m (unpack_one fuel v) _ (unpack_one-Ends fuel m v (omega arith) a) (λ x v₁ a₁.
        let (b, pos) = one_fewer a₁ in
        bind-Ends 0 (m - 1) 0 m (unpack_items fuel (rounds - 1) v₁) _
          (items-Ends fuel (rounds - 1) (m - 1) v₁ (omega arith) b)
          (λ xs v₂ a₂. record { bytes = a₂.bytes; at = a₂.at; few = omega (arith, a₂.few) })))

  pairs-Ends :
      (fuel m : ℕ) (v : View) → 3 * m + 2 ≤ fuel → Holds 0 m v → Ends 0 m (unpack_pairs fuel v)
  pairs-Ends zero m v h a = absurd (omega arith)
  pairs-Ends (suc fuel) m v h a =
      bind-Ends 1 m 0 m (unpack_one fuel v) _ (unpack_one-Ends fuel m v (omega arith) a)
        (λ key v₁ a₁.
          let (b, pos) = one_fewer a₁ in
          Ends-if 0 m (is_nil key) _ _
            (record { bytes = b.bytes; at = b.at; few = omega (arith, b.few) })
            (bind-Ends 1 (m - 1) 0 m (unpack_one fuel v₁) _
              (unpack_one-Ends fuel (m - 1) v₁ (omega arith) b)
              (λ x v₂ a₂.
                let (b₂, pos₂) = one_fewer a₂ in
                bind-Ends 0 (m - 1 - 1) 0 m (unpack_pairs fuel v₂) _
                  (pairs-Ends fuel (m - 1 - 1) v₂ (omega arith) b₂)
                  (λ ps v₃ a₃. record {
                    bytes = a₃.bytes;
                    at = a₃.at;
                    few = omega (arith, a₃.few);
                  }))))

then-ne-out_of_fuel {ℓ κ} :
    {A : Type ℓ} {B : Type κ} (k n : ℕ) (r : Outcome (A × View)) (f : A × View → Outcome B)
    → Ends k n r
    → ((a : A) (v : View) → Holds k n v → f (a, v) ≢ out_of_fuel)
    → (r >>= f) ≢ out_of_fuel
then-ne-out_of_fuel k n (ok (a, v)) f h next = next a v h
then-ne-out_of_fuel k n invalid f h next = λ e. cc
then-ne-out_of_fuel k n fault f h next = λ e. cc
then-ne-out_of_fuel k n out_of_fuel f h next = absurd h

map-ne-out_of_fuel :
    (x : Value) (r : Outcome (List Value))
    → r ≢ out_of_fuel
    → (r >>= λ xs. ok (x ∷ xs)) ≢ out_of_fuel
map-ne-out_of_fuel x (ok xs) h = λ e. cc
map-ne-out_of_fuel x invalid h = λ e. cc
map-ne-out_of_fuel x fault h = λ e. cc
map-ne-out_of_fuel x out_of_fuel h = λ e. h refl

all-ne-out_of_fuel :
    (fuel m : ℕ) (v : View) → 3 * m + 1 ≤ fuel → Holds 0 m v → unpack_all fuel v ≢ out_of_fuel
unfolding unpack_all
all-ne-out_of_fuel zero m v h a = absurd (omega arith)
all-ne-out_of_fuel (suc fuel) m v h a = elim (read_first 1 m v (omega arith) (omega arith) a) [
  | inl over ↦ rw (over, unpack_all) (λ e. cc)
  | inr (bs, got, after) ↦
      let (b, pos) = one_fewer after in
      rw (got, unpack_all)
        (rw got (
          then-ne-out_of_fuel 0 (m - 1) _ _
            (push_value-Ends fuel (bit_and (le_value bs) 7) (le_value bs / 8) (m - 1) (advance 1 v)
              (omega arith) b)
            (λ x v₂ a₂.
              map-ne-out_of_fuel x (unpack_all fuel v₂)
                (all-ne-out_of_fuel fuel (m - 1) v₂ (omega arith) a₂))))
]

-- `lua_serialize_do_unpack` ends on every stream of bytes of a valid view, well formed or not: fuel of
-- three steps for each byte, and one more, is enough.
pub unpack_all-ne-out_of_fuel :
    (bytes : List ℕ) (v : View) → At bytes v → unpack_all (3 * length bytes + 1) v ≢ out_of_fuel
unpack_all-ne-out_of_fuel bytes v a =
    all-ne-out_of_fuel (3 * length bytes + 1) (length bytes) v (omega arith)
      (record { bytes = bytes; at = a; few = omega arith })
