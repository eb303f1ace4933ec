-- ===== src/Serialize/Scalars.antt =====
-- magic/lua_serialize.cpp: what the readers make of the code of a value that is no table.
use new_happy_server.Base.{
  ℕ, suc, ◌%◌, ◌^◌, ◌<◌, ◌≡◌, refl, sym, ap, subst, ◌∙◌, Bool, true, false, List, ◌∷◌, ◌++◌, length,
  length-append, append_assoc, take, take-append_self, drop-append_self, arith, ltb, ◌==◌,
  if◌then◌else◌, Bool-cases, le→ltb, ltb→lt, inl, inr, length,
}
use new_happy_server.Base.Words.{le_bytes, le_value-le_bytes}
use new_happy_server.View
use new_happy_server.View.{View, rest}
use new_happy_server.View.Laws.{At, size-At, skip-At, advance}
use new_happy_server.Serialize.Value.{
  Value, nil, boolean, integer, real, string, pointer, to_int, is_negative_int,
}
use new_happy_server.Serialize.Unpack.{
  Outcome, ok, ◌>>=◌, read_or_invalid, get_integer, get_buffer, push_scalar, push_value, unpack_one,
}
use new_happy_server.Serialize.Code.{head, integer_code, integer_cookie, integer_width, string_code}
use new_happy_server.Serialize.Integer.{head_fields, read_number, get_integer-At, integer_cookie-lt}

-- The bytes `xs` are left, fewer than an `int` counts.
pub record Ahead (xs : List ℕ) (w : View) : Type 0 where
  pub here : At xs w
  pub bounded : length xs < 2 ^ 31

pub Ahead-tail : (xs ys : List ℕ) {w w' : View} → Ahead (xs ++ ys) w → At ys w' → Ahead ys w'
Ahead-tail xs ys a b = record { here = b; bounded = omega (arith, a.bounded, length-append xs ys) }

-- The reader gives `x` and leaves the bytes `ys`.
abbrev pub Reads {ℓ} : {A : Type ℓ} → Outcome (A × View) → A → List ℕ → Type ℓ
Reads r x ys = (w : View) × (r ≡ ok (x, w)) × Ahead ys w

pub bind-Reads {ℓ κ} :
    {A : Type ℓ} {B : Type κ} (r : Outcome (A × View)) (f : A × View → Outcome (B × View)) (x : A)
    {y : B} (ys : List ℕ) {zs : List ℕ}
    → Reads r x ys
    → ((w : View) → Ahead ys w → Reads (f (x, w)) y zs)
    → Reads (r >>= f) y zs
bind-Reads r f x ys (w, e, a) next =
    let (w', e', a') = next w a in (w', ap (λ q. q >>= f) e ∙ e', a')

pub number-Reads :
    (n x : ℕ) (ys : List ℕ) {w : View}
    → Ahead (le_bytes n x ++ ys) w
    → 0 < n
    → x < 256 ^ n
    → Reads (read_or_invalid n w) x ys
number-Reads n x ys {w} a pos h =
    let (got, after) = read_number n x ys a.here pos in
    (
      advance n w,
      got ∙ ap (λ k. ok (k, advance n w)) (le_value-le_bytes n x h),
      Ahead-tail (le_bytes n x) ys a after,
    )

pub integer-Reads :
    (x : ℕ) (ys : List ℕ) {w : View}
    → x < 2 ^ 64
    → Ahead (le_bytes (integer_width (integer_cookie x)) x ++ ys) w
    → Reads (get_integer (integer_cookie x) w) x ys
integer-Reads x ys h a =
    let (w', got, after) = get_integer-At x ys h a.here in
    (w', got, Ahead-tail (le_bytes (integer_width (integer_cookie x)) x) ys a after)

pub buffer-Reads :
    (str ys : List ℕ) {w : View}
    → Ahead (str ++ ys) w
    → Reads (get_buffer (length str) w) (string str) ys
unfolding get_buffer
buffer-Reads str ys {w} a =
    let len = length-append str ys in
    let all : to_int (View.size w) ≡ length (str ++ ys) =
      omega (arith, size-At a.here, a.bounded) in
    let positive : is_negative_int (length str) ≡ false = ground (arith, len, a.bounded) in
    let positive' : is_negative_int (length (str ++ ys)) ≡ false = ground (arith, a.bounded) in
    let enough : ltb (length (str ++ ys)) (length str) ≡ false = le→ltb _ _ (omega (arith, len)) in
    (
      View.skip (length str) w,
      rw (all, positive, positive', enough)
          (ap (λ bs. ok (string bs, View.skip (length str) w))
            (ap (take (length str)) a.here.left ∙ take-append_self (length str) str ys refl)),
      Ahead-tail str ys a (
          subst (λ bs. At bs (View.skip (length str) w)) (drop-append_self (length str) str ys refl)
            (skip-At (length str) a.here)),
    )

pub head_byte-Reads :
    (t c : ℕ) (zs : List ℕ) {w : View}
    → t < 8
    → c < 32
    → Ahead (head t c ∷ zs) w
    → Reads (read_or_invalid 1 w) (head t c) zs
head_byte-Reads t c zs {w} h g a =
    let (low, high, small) = head_fields t c h g in
    let byte : head t c % 256 ≡ head t c = omega (arith, small) in
    number-Reads 1 (head t c) zs {w = w} (subst (λ b. Ahead (b ∷ zs) w) (sym byte) a) (omega arith)
      small

-- `unpack_one` takes the head and leaves the rest to `push_value`.
pub head-Reads :
    (fuel t c : ℕ) (zs : List ℕ) {x : Value} {ys : List ℕ} {w : View}
    → t < 8
    → c < 32
    → Ahead (head t c ∷ zs) w
    → ((w' : View) → Ahead zs w' → Reads (push_value fuel t c w') x ys)
    → Reads (unpack_one (suc fuel) w) x ys
unfolding unpack_one
head-Reads fuel t c zs {ys = ys} {w = w} h g a next =
    let (low, high, small) = head_fields t c h g in
    bind-Reads (read_or_invalid 1 w) _ (head t c) zs (head_byte-Reads t c zs h g a)
      (λ w' a'. rw (low, high) (next w' a'))

-- Values of the scalar types, as `push_scalar` reads them behind their heads.
pub integer_code-Reads :
    (fuel x : ℕ) (ys : List ℕ) {w : View}
    → x < 2 ^ 64
    → Ahead (integer_code x ++ ys) w
    → Reads (unpack_one (suc (suc fuel)) w) (integer x) ys
unfolding integer_code push_value push_scalar
integer_code-Reads fuel x ys h a =
    let small = integer_cookie-lt x in
    let no_real : (integer_cookie x == 8) ≡ false = ground (arith, small) in
    head-Reads (suc fuel) 2 (integer_cookie x) _ (omega arith) (omega (arith, small)) a (λ w b.
      rw no_real (
        bind-Reads (get_integer (integer_cookie x) w) _ x ys (integer-Reads x ys h b)
          (λ w' b'. (w', refl, b'))))

pub string_code-Reads :
    (fuel : ℕ) (str ys : List ℕ) {w : View}
    → Ahead (string_code str ++ ys) w
    → length str < 2 ^ 31
    → Reads (unpack_one (suc (suc fuel)) w) (string str) ys
unfolding string_code push_value push_scalar
string_code-Reads fuel str ys {w} a h = elim (Bool-cases (ltb (length str) 32)) [
  | inl short ↦
      head-Reads (suc fuel) 4 (length str) (str ++ ys) (omega arith) (ltb→lt _ _ short)
        (rw short at a) (λ w' b. buffer-Reads str ys b)
  | inr long ↦ elim (Bool-cases (ltb (length str) 0x10000)) [
    | inl word ↦
        head-Reads (suc fuel) 5 2 (le_bytes 2 (length str) ++ (str ++ ys)) (omega arith)
          (omega arith) (rw (long, word, append_assoc) at a)
          (λ w' b.
            bind-Reads (read_or_invalid 2 w') _ (length str) (str ++ ys)
              (number-Reads 2 (length str) (str ++ ys) b (omega arith) (ltb→lt _ _ word))
              (λ w'' b'. buffer-Reads str ys b'))
    | inr dword ↦
        head-Reads (suc fuel) 5 4 (le_bytes 4 (length str) ++ (str ++ ys)) (omega arith)
          (omega arith) (rw (long, dword, append_assoc) at a)
          (λ w' b.
            bind-Reads (read_or_invalid 4 w') _ (length str) (str ++ ys)
              (number-Reads 4 (length str) (str ++ ys) b (omega arith) (omega arith))
              (λ w'' b'. buffer-Reads str ys b'))
  ]
]

pub nil-Reads :
    (fuel : ℕ) (ys : List ℕ) {w : View}
    → Ahead (head 0 0 ∷ ys) w
    → Reads (unpack_one (suc (suc fuel)) w) nil ys
unfolding push_value push_scalar
nil-Reads fuel ys a =
    head-Reads (suc fuel) 0 0 ys (omega arith) (omega arith) a (λ w b. (w, refl, b))

pub boolean-Reads :
    (fuel : ℕ) (b : Bool) (ys : List ℕ) {w : View}
    → Ahead (head 1 (if b then 1 else 0) ∷ ys) w
    → Reads (unpack_one (suc (suc fuel)) w) (boolean b) ys
unfolding push_value push_scalar
boolean-Reads fuel true ys a =
    head-Reads (suc fuel) 1 1 ys (omega arith) (omega arith) a (λ w b. (w, refl, b))
boolean-Reads fuel false ys a =
    head-Reads (suc fuel) 1 0 ys (omega arith) (omega arith) a (λ w b. (w, refl, b))

-- Eight bytes behind the head of a real number or a pointer.
pub real-Reads :
    (fuel x : ℕ) (ys : List ℕ) {w : View}
    → x < 2 ^ 64
    → Ahead (head 2 8 ∷ (le_bytes 8 x ++ ys)) w
    → Reads (unpack_one (suc (suc fuel)) w) (real x) ys
unfolding push_value push_scalar
real-Reads fuel x ys h a =
    head-Reads (suc fuel) 2 8 (le_bytes 8 x ++ ys) (omega arith) (omega arith) a (λ w b.
      bind-Reads (read_or_invalid 8 w) _ x ys
        (number-Reads 8 x ys b (omega arith) (omega (arith, h))) (λ w' b'. (w', refl, b')))

pub pointer-Reads :
    (fuel x : ℕ) (ys : List ℕ) {w : View}
    → x < 2 ^ 64
    → Ahead (head 3 0 ∷ (le_bytes 8 x ++ ys)) w
    → Reads (unpack_one (suc (suc fuel)) w) (pointer x) ys
unfolding push_value push_scalar
pointer-Reads fuel x ys h a =
    head-Reads (suc fuel) 3 0 (le_bytes 8 x ++ ys) (omega arith) (omega arith) a (λ w b.
      bind-Reads (read_or_invalid 8 w) _ x ys
        (number-Reads 8 x ys b (omega arith) (omega (arith, h))) (λ w' b'. (w', refl, b')))
