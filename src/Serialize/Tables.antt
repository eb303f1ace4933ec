-- ===== src/Serialize/Tables.antt =====
-- magic/lua_serialize.cpp: `unpack_table` step by step.
use new_happy_server.Base.{
  ℕ, suc, ◌-◌, ◌^◌, ◌<◌, ◌≡◌, refl, ap, false, List, ◌∷◌, ◌++◌, arith, leb, ◌==◌, if◌then◌else◌,
  Bool-cases, inl, inr,
}
use new_happy_server.Base.Words.{le_bytes}
use new_happy_server.View.{View}
use new_happy_server.Serialize.Value.{
  Value, Values, Pairs, nil, table, no_values, value, no_pairs, pair, is_nil, to_int,
  is_negative_int,
}
use new_happy_server.Serialize.Unpack.{
  Outcome, ok, ◌>>=◌, read_or_invalid, get_integer, get_typed_size, get_array_size, push_value,
  unpack_one, unpack_items, unpack_pairs,
}
use new_happy_server.Serialize.Code.{head, integer_code, integer_cookie, integer_width, size_code}
use new_happy_server.Serialize.Integer.{head_fields, integer_cookie-lt}
use new_happy_server.Serialize.Scalars.{
  Ahead, Reads, bind-Reads, head-Reads, head_byte-Reads, integer-Reads, nil-Reads,
}

-- `unpack_table` behind its size.
abbrev table_tail : ℕ → ℕ → View → Outcome (Value × View)
table_tail fuel array_size v₁ = do
  (items, v₂) ← unpack_items fuel (if is_negative_int array_size then 0 else array_size) v₁
  (pairs, v₃) ← unpack_pairs fuel v₂
  ok (table items pairs, v₃)

typed_size-Reads :
    (n : ℕ) (ys : List ℕ) {w : View}
    → n < 2 ^ 31
    → Ahead (le_bytes (integer_width (integer_cookie n)) n ++ ys) w
    → Reads (get_typed_size (head 2 (integer_cookie n)) w) n ys
unfolding get_typed_size
typed_size-Reads n ys {w} h a =
    let small = integer_cookie-lt n in
    let (low, high, byte) = head_fields 2 (integer_cookie n) (omega arith) (omega (arith, small)) in
    let no_real : (integer_cookie n == 8) ≡ false = ground (arith, small) in
    let whole : to_int n ≡ n = omega arith in
    rw (low, high, no_real)
      (bind-Reads (get_integer (integer_cookie n) w) _ n ys (integer-Reads n ys (omega arith) a)
        (λ w' b. (w', ap (λ m. ok (m, w')) whole, b)))

table_size-Reads :
    (fuel n : ℕ) (ys : List ℕ) {zs : List ℕ} {x : Value} {w : View}
    → n < 2 ^ 31
    → Ahead (size_code n ++ ys) w
    → ((w' : View) → Ahead ys w' → Reads (table_tail fuel n w') x zs)
    → Reads (unpack_one (suc (suc fuel)) w) x zs
unfolding size_code integer_code push_value get_array_size
table_size-Reads fuel n ys {w = w} h a next = elim (Bool-cases (leb 31 n)) [
  | inl large ↦
      let small = integer_cookie-lt n in
      let bytes = le_bytes (integer_width (integer_cookie n)) n in
      head-Reads (suc fuel) 6 31 (integer_code n ++ ys) (omega arith) (omega arith) (rw large at a)
        (λ w₁ b.
          bind-Reads (get_array_size 31 w₁) _ n ys
            (bind-Reads (read_or_invalid 1 w₁) _ (head 2 (integer_cookie n)) (bytes ++ ys)
              (head_byte-Reads 2 (integer_cookie n) (bytes ++ ys) (omega arith)
                (omega (arith, small)) b)
              (λ w₂ b'. typed_size-Reads n ys h b'))
            next)
  | inr few ↦
      let other : (n == 31) ≡ false = ground arith in
      head-Reads (suc fuel) 6 n ys (omega arith) (ground arith) (rw few at a)
        (λ w₁ b. rw other (next w₁ b))
]

-- A table: its size, its items, its pairs.
pub table-Reads :
    (fuel n : ℕ) (zs₁ zs₂ ys : List ℕ) {items : Values} {pairs : Pairs} {w : View}
    → n < 2 ^ 31
    → Ahead (size_code n ++ zs₁) w
    → ((w' : View) → Ahead zs₁ w' → Reads (unpack_items fuel n w') items zs₂)
    → ((w' : View) → Ahead zs₂ w' → Reads (unpack_pairs fuel w') pairs ys)
    → Reads (unpack_one (suc (suc fuel)) w) (table items pairs) ys
table-Reads fuel n zs₁ zs₂ ys {items} {pairs} h a first second =
    let positive : is_negative_int n ≡ false = ground arith in
    table_size-Reads fuel n zs₁ h a (λ w₁ b. rw positive (
      bind-Reads (unpack_items fuel n w₁) _ items zs₂ (first w₁ b) (λ w₂ b'.
        bind-Reads (unpack_pairs fuel w₂) _ pairs ys (second w₂ b') (λ w₃ b''. (w₃, refl, b'')))))

suc-ne-zero : (n : ℕ) → (suc n == 0) ≡ false
suc-ne-zero n = ground arith

one_less : (n : ℕ) → suc n - 1 ≡ n
one_less n = omega arith

pub no_items-Reads :
    (fuel : ℕ) (ys : List ℕ) {w : View}
    → Ahead ys w
    → Reads (unpack_items (suc fuel) 0 w) no_values ys
unfolding unpack_items
no_items-Reads fuel ys {w} a = (w, refl, a)

pub item-Reads :
    (fuel n : ℕ) (x : Value) (xs : Values) (zs ys : List ℕ) (w : View)
    → Reads (unpack_one fuel w) x zs
    → ((w' : View) → Ahead zs w' → Reads (unpack_items fuel n w') xs ys)
    → Reads (unpack_items (suc fuel) (suc n) w) (value x xs) ys
unfolding unpack_items
item-Reads fuel n x xs zs ys w first next =
    rw (suc-ne-zero n, one_less n)
      (bind-Reads (unpack_one fuel w) _ x zs first
        (λ w₁ b. bind-Reads (unpack_items fuel n w₁) _ xs ys (next w₁ b) (λ w₂ b'. (w₂, refl, b'))))

-- The nil that ends the pairs.
pub no_pairs-Reads :
    (fuel : ℕ) (ys : List ℕ) {w : View}
    → Ahead (head 0 0 ∷ ys) w
    → Reads (unpack_pairs (suc (suc (suc fuel))) w) no_pairs ys
unfolding unpack_pairs is_nil
no_pairs-Reads fuel ys {w} a =
    bind-Reads (unpack_one (suc (suc fuel)) w) _ nil ys (nil-Reads fuel ys a)
      (λ w₁ b. (w₁, refl, b))

pub pair-Reads :
    (fuel : ℕ) (key x : Value) (ps : Pairs) (zs₁ zs₂ ys : List ℕ) (w : View)
    → is_nil key ≡ false
    → Reads (unpack_one fuel w) key zs₁
    → ((w' : View) → Ahead zs₁ w' → Reads (unpack_one fuel w') x zs₂)
    → ((w' : View) → Ahead zs₂ w' → Reads (unpack_pairs fuel w') ps ys)
    → Reads (unpack_pairs (suc fuel) w) (pair key x ps) ys
unfolding unpack_pairs
pair-Reads fuel key x ps zs₁ zs₂ ys w some_key first second third =
    bind-Reads (unpack_one fuel w) _ key zs₁ first (λ w₁ b. rw some_key (
      bind-Reads (unpack_one fuel w₁) _ x zs₂ (second w₁ b) (λ w₂ b'.
        bind-Reads (unpack_pairs fuel w₂) _ ps ys (third w₂ b') (λ w₃ b''. (w₃, refl, b'')))))
