-- ===== src/Serialize/RoundTrip.antt =====
-- magic/lua_serialize.cpp: `unpack_one` reads back what `pack_one` writes.
use new_happy_server.Base.{
  ℕ, zero, suc, ◌+◌, ◌*◌, ◌≤◌, ◌<◌, ◌≡◌, refl, ◌∙◌, List, ◌∷◌, ◌++◌, length, length-append,
  append_assoc, arith, Bool-cases, inl, inr,
}
use new_happy_server.View.{View}
use new_happy_server.Serialize.Value.{
  Value, Values, Pairs, nil, boolean, integer, real, string, pointer, table, meta_table,
  unsupported, no_values, value, no_pairs, raises, pair, count, is_index, is_nil,
}
use new_happy_server.Serialize.Unpack.{unpack_one, unpack_items, unpack_pairs}
use new_happy_server.Serialize.Code.{
  head, integer_code, string_code, size_code, code, codes, pair_codes, Fits, FitsAll, FitsPairs,
  rebuilt, rebuilt_items, rebuilt_pairs,
}
use new_happy_server.Serialize.Written.{pair_fits}
use new_happy_server.Serialize.Scalars.{
  Ahead, Reads, integer_code-Reads, string_code-Reads, nil-Reads, boolean-Reads, real-Reads,
  pointer-Reads,
}
use new_happy_server.Serialize.Tables.{
  table-Reads, no_items-Reads, item-Reads, no_pairs-Reads, pair-Reads,
}

is_nil-rebuilt : (v : Value) → is_nil (rebuilt v) ≡ is_nil v
unfolding is_nil rebuilt
is_nil-rebuilt nil = refl
is_nil-rebuilt (boolean b) = refl
is_nil-rebuilt (integer x) = refl
is_nil-rebuilt (real x) = refl
is_nil-rebuilt (string str) = refl
is_nil-rebuilt (pointer x) = refl
is_nil-rebuilt (table vs ps) = refl
is_nil-rebuilt (meta_table ps) = refl
is_nil-rebuilt unsupported = refl

-- Every value takes a byte at least.
pub code_pos : (depth : ℕ) (v : Value) → Fits depth v → 0 < length (code v)
unfolding code Fits integer_code string_code size_code
code_pos depth nil h = omega arith
code_pos depth (boolean b) h = omega arith
code_pos depth (integer x) h = omega arith
code_pos depth (real x) h = omega arith
code_pos depth (string str) h = ground arith
code_pos depth (pointer x) h = omega arith
code_pos depth (table vs ps) h = ground arith
code_pos depth (meta_table ps) h = omega arith
code_pos depth unsupported h = absurd h

size_code_pos : (n : ℕ) → 0 < length (size_code n)
unfolding size_code
size_code_pos n = ground arith

pair_codes_pos : (n : ℕ) (ps : Pairs) → 0 < length (pair_codes n ps)
unfolding pair_codes
pair_codes_pos n no_pairs = omega arith
pair_codes_pos n raises = omega arith
pair_codes_pos n (pair key v ps) = ground (
  arith,
  pair_codes_pos n ps,
  length-append (code key) (code v ++ pair_codes n ps),
  length-append (code v) (pair_codes n ps),
)

-- With fuel for some bytes, and a byte at least, there are two steps to make.
pub with_fuel {ℓ} :
    (P : ℕ → Type ℓ) (bytes fuel : ℕ)
    → ((f : ℕ) → 3 * bytes ≤ f + 1 → P (suc (suc f)))
    → 0 < bytes
    → 3 * bytes + 1 ≤ fuel
    → P fuel
with_fuel P bytes zero step pos h = absurd (omega arith)
with_fuel P bytes (suc zero) step pos h = absurd (omega arith)
with_fuel P bytes (suc (suc fuel)) step pos h = step fuel (omega arith)

pub with_step {ℓ} :
    (P : ℕ → Type ℓ) (m fuel : ℕ) → ((f : ℕ) → m ≤ f → P (suc f)) → suc m ≤ fuel → P fuel
with_step P m zero step h = absurd (omega arith)
with_step P m (suc fuel) step h = step fuel (omega arith)

table_length :
    (n : ℕ) (items : Values) (pairs : Pairs)
    → length (codes items) + length (pair_codes n pairs) + 1
      ≤ length (size_code n ++ (codes items ++ pair_codes n pairs))
table_length n items pairs = omega (
  arith,
  size_code_pos n,
  length-append (size_code n) (codes items ++ pair_codes n pairs),
  length-append (codes items) (pair_codes n pairs),
)

-- The head of a table that is iterated by `__pairs` is that of an empty array part.
meta_size : (zs : List ℕ) {w : View} → Ahead (head 6 0 ∷ zs) w → Ahead (size_code 0 ++ zs) w
unfolding size_code
meta_size zs a = a

mutual
  unfolding code Fits rebuilt count

  pub value-Reads :
      (depth : ℕ) (v : Value) (fuel : ℕ) (ys : List ℕ) {w : View}
      → Fits depth v
      → 3 * length (code v) ≤ fuel + 1
      → Ahead (code v ++ ys) w
      → Reads (unpack_one (suc (suc fuel)) w) (rebuilt v) ys
  value-Reads depth nil fuel ys h e a = nil-Reads fuel ys a
  value-Reads depth (boolean b) fuel ys h e a = boolean-Reads fuel b ys a
  value-Reads depth (integer x) fuel ys h e a = integer_code-Reads fuel x ys h.1 a
  value-Reads depth (real x) fuel ys h e a = real-Reads fuel x ys h.1 a
  value-Reads depth (string str) fuel ys h e a = string_code-Reads fuel str ys a h.1
  value-Reads depth (pointer x) fuel ys h e a = pointer-Reads fuel x ys h.1 a
  value-Reads depth (table items pairs) fuel ys {w} h e a =
      let n = count items in
      let rest = pair_codes n pairs ++ ys in
      let len = table_length n items pairs in
      table-Reads fuel n (codes items ++ rest) rest ys h.1
        (rw (append_assoc (size_code n), append_assoc (codes items)) at a)
        (λ w₁ b.
          with_step (λ f. Reads (unpack_items f n w₁) (rebuilt_items items) rest)
            (3 * length (codes items) + 1) fuel
            (λ f k. items-Reads (depth + 1) items f rest h.2 k b) (omega (arith, len)))
        (λ w₁ b.
          with_step (λ f. Reads (unpack_pairs f w₁) (rebuilt_pairs n pairs) ys)
            (3 * length (pair_codes n pairs) + 1) fuel
            (λ f k. pairs-Reads (depth + 1) n pairs f ys h.3 k b) (omega (arith, len)))
  value-Reads depth (meta_table pairs) fuel ys {w} h e a =
      let rest = pair_codes 0 pairs ++ ys in
      table-Reads fuel 0 rest rest ys (omega arith) (meta_size rest a)
        (λ w₁ b.
          with_step (λ f. Reads (unpack_items f 0 w₁) no_values rest) 0 fuel
            (λ f k. no_items-Reads f rest b) (omega (arith, pair_codes_pos 0 pairs)))
        (λ w₁ b.
          with_step (λ f. Reads (unpack_pairs f w₁) (rebuilt_pairs 0 pairs) ys)
            (3 * length (pair_codes 0 pairs) + 1) fuel
            (λ f k. pairs-Reads (depth + 1) 0 pairs f ys h.1 k b) (omega arith))
  value-Reads depth unsupported fuel ys h e a = absurd h

  items-Reads :
      (depth : ℕ) (vs : Values) (fuel : ℕ) (ys : List ℕ) {w : View}
      → FitsAll depth vs
      → 3 * length (codes vs) + 1 ≤ fuel
      → Ahead (codes vs ++ ys) w
      → Reads (unpack_items (suc fuel) (count vs) w) (rebuilt_items vs) ys
  items-Reads depth no_values fuel ys {w} h e a = no_items-Reads fuel ys a
  items-Reads depth (value v vs) fuel ys {w} h e a =
      let pos = code_pos depth v h.0 in
      let len = length-append (code v) (codes vs) in
      item-Reads fuel (count vs) (rebuilt v) (rebuilt_items vs) (codes vs ++ ys) ys w
        (with_fuel (λ f. Reads (unpack_one f w) (rebuilt v) (codes vs ++ ys)) (length (code v)) fuel
          (λ f k. value-Reads depth v f (codes vs ++ ys) h.0 k (rw (append_assoc (code v)) at a))
          pos (omega (arith, len)))
        (λ w₁ b.
          with_step (λ f. Reads (unpack_items f (count vs) w₁) (rebuilt_items vs) ys)
            (3 * length (codes vs) + 1) fuel (λ f k. items-Reads depth vs f ys h.1 k b)
            (omega (arith, len, pos)))

  pairs-Reads :
      (depth n : ℕ) (ps : Pairs) (fuel : ℕ) (ys : List ℕ) {w : View}
      → FitsPairs depth n ps
      → 3 * length (pair_codes n ps) + 1 ≤ fuel
      → Ahead (pair_codes n ps ++ ys) w
      → Reads (unpack_pairs (suc fuel) w) (rebuilt_pairs n ps) ys
  pairs-Reads depth n no_pairs fuel ys {w} h e a =
      with_fuel (λ f. Reads (unpack_pairs (suc f) w) no_pairs ys) 1 fuel
        (λ f k. no_pairs-Reads f ys a) (omega arith) e
  pairs-Reads depth n raises fuel ys {w} h e a = absurd h
  pairs-Reads depth n (pair key v ps) fuel ys {w} h e a = elim (Bool-cases (is_index n key)) [
    | inl index ↦ rw index (pairs-Reads depth n ps fuel ys h.1 (rw index at e) (rw index at a))
    | inr other ↦
        let (some_key, hk, hv) = pair_fits h.0 other in
        let rest = pair_codes n ps in
        let pos = code_pos depth key hk in
        let pos' = code_pos depth v hv in
        let len = length-append (code key) (code v ++ rest) in
        let len' = length-append (code v) rest in
        let bound : 3 * length (code key ++ (code v ++ rest)) + 1 ≤ fuel = rw other at e in
        let ahead : Ahead ((code key ++ (code v ++ rest)) ++ ys) w = rw other at a in
        rw other (
          pair-Reads fuel (rebuilt key) (rebuilt v) (rebuilt_pairs n ps) (code v ++ (rest ++ ys))
            (rest ++ ys) ys w (is_nil-rebuilt key ∙ some_key)
            (with_fuel (λ f. Reads (unpack_one f w) (rebuilt key) (code v ++ (rest ++ ys)))
              (length (code key)) fuel
              (λ f k.
                value-Reads depth key f (code v ++ (rest ++ ys)) hk k
                  (rw (append_assoc (code key), append_assoc (code v)) at ahead))
              pos (omega (arith, len, len')))
            (λ w₁ b.
              with_fuel (λ f. Reads (unpack_one f w₁) (rebuilt v) (rest ++ ys)) (length (code v))
                fuel (λ f k. value-Reads depth v f (rest ++ ys) hv k b) pos'
                (omega (arith, len, len')))
            (λ w₁ b.
              with_step (λ f. Reads (unpack_pairs f w₁) (rebuilt_pairs n ps) ys)
                (3 * length rest + 1) fuel (λ f k. pairs-Reads depth n ps f ys h.1 k b)
                (omega (arith, len, len', pos))))
  ]
