-- ===== src/Strings/Decimal.antt =====
-- common/string.hpp: `pow10` and `uint64_to_str`, which writes the decimal digits of a number into an
-- array from a position on. `log10` is the C++ library's, cast to `size_t`.
use new_happy_server.Base.{
  ℕ, zero, suc, ◌+◌, ◌*◌, ◌/◌, ◌%◌, ◌^◌, ◌≤◌, ◌<◌, ◌≡◌, refl, sym, ap, ap₂, subst, ◌∙◌, ◌⊎◌, inl,
  inr, true, false, List, [], ◌∷◌, ◌++◌, length, append_assoc, ltb, leb, ◌==◌, if◌then◌else◌, arith,
}
use new_happy_server.Base.Words.{add_size, sub_size}

abbrev pub pow10 : ℕ → ℕ
pow10 zero = 1
pow10 (suc n) = 10 * pow10 n

-- A write to an array; one out of range, which is undefined, is left out.
abbrev pub put : ℕ → ℕ → List ℕ → List ℕ
put n x [] = []
put zero x (y ∷ ys) = x ∷ ys
put (suc n) x (y ∷ ys) = y ∷ put n x ys

-- The table "00010203...99".
abbrev pub digits : ℕ → ℕ
digits i = if i % 2 == 0 then 48 + i / 2 / 10 else 48 + i / 2 % 10

-- The two digits of `k`, the second of them at `next`.
abbrev pub put_pair : ℕ → ℕ → ℕ → List ℕ → List ℕ
put_pair k dst next a =
    put (add_size dst (sub_size next 1)) (digits (k * 2))
      (put (add_size dst next) (digits (k * 2 + 1)) a)

-- The last one or two digits.
abbrev pub put_last : ℕ → ℕ → ℕ → List ℕ → List ℕ
put_last value dst next a =
    if ltb value 10 then put (add_size dst next) (48 + value) a else put_pair value dst next a

-- The loop, with a bound on its rounds, and what follows it.
unfoldable pub to_str_loop : ℕ → ℕ → ℕ → ℕ → List ℕ → List ℕ
to_str_loop zero value dst next a = put_last value dst next a
to_str_loop (suc rounds) value dst next a =
    let rest =
      to_str_loop rounds (value / 100) dst (sub_size next 2) (put_pair (value % 100) dst next a) in
    if leb 100 value then rest else put_last value dst next a

-- The result has the length beside the array. A number of 64 bits takes at most nine rounds.
unfoldable pub uint64_to_str : (ℕ → ℕ) → ℕ → ℕ → List ℕ → ℕ × List ℕ
unfolding to_str_loop
uint64_to_str log10 value dst a =
    let length_ = add_size (log10 value) 1 in
    (length_, to_str_loop 10 value dst (sub_size length_ 1) a)

-- The last `n` decimal digits of a number.
abbrev pub decimal : ℕ → ℕ → List ℕ
decimal zero v = []
decimal (suc n) v = decimal n (v / 10) ++ ((48 + v % 10) ∷ [])

pub put-behind :
    (xs : List ℕ) (n v : ℕ) (ys : List ℕ) → put (length xs + n) v (xs ++ ys) ≡ xs ++ put n v ys
put-behind [] n v ys = ap (λ i. put i v ys) (omega arith)
put-behind (x ∷ xs) n v ys =
    let one_more : suc (length xs) + n ≡ suc (length xs + n) = omega arith in
    ap (λ i. put i v (x ∷ (xs ++ ys))) one_more ∙ ap (λ t. x ∷ t) (put-behind xs n v ys)

last_one :
    (n : ℕ) (xs : List ℕ)
    → length xs ≡ suc n
    → (ys : List ℕ) × (a : ℕ) × (xs ≡ ys ++ (a ∷ [])) × (length ys ≡ n)
last_one n [] h = absurd (omega (arith, h))
last_one zero (x ∷ []) h = ([], x, refl, refl)
last_one zero (x ∷ (y ∷ ys)) h = absurd (omega (arith, h))
last_one (suc n) (x ∷ xs) h =
    let (ys, a, e, len) = last_one n xs (omega (arith, h)) in
    (x ∷ ys, a, ap (λ t. x ∷ t) e, ap suc len)

last_two :
    (n : ℕ) (xs : List ℕ)
    → length xs ≡ suc (suc n)
    → (ys : List ℕ) × (a : ℕ) × (b : ℕ) × (xs ≡ ys ++ (a ∷ (b ∷ []))) × (length ys ≡ n)
last_two n xs h =
    let (ys, b, e, len) = last_one (suc n) xs h in
    let (zs, a, e', len') = last_one n ys len in
    (zs, a, b, e ∙ ap (λ t. t ++ (b ∷ [])) e' ∙ append_assoc zs (a ∷ []) (b ∷ []), len')

digits-even : (k : ℕ) → digits (k * 2) ≡ 48 + k / 10
digits-even k = ground arith

digits-odd : (k : ℕ) → digits (k * 2 + 1) ≡ 48 + k % 10
digits-odd k = ground arith

put-inside :
    (pre ys : List ℕ) (i n v : ℕ) (zs : List ℕ)
    → i ≡ length pre + (length ys + n)
    → put i v (pre ++ (ys ++ zs)) ≡ pre ++ (ys ++ put n v zs)
put-inside pre ys i n v zs h =
    ap (λ j. put j v (pre ++ (ys ++ zs))) h
    ∙ put-behind pre (length ys + n) v (ys ++ zs)
    ∙ ap (λ t. pre ++ t) (put-behind ys n v zs)

pair-put :
    (k : ℕ) (pre ys : List ℕ) (a b : ℕ) (done : List ℕ)
    → length pre + suc (length ys) < 2 ^ 63
    → put_pair k (length pre) (suc (length ys)) (pre ++ (ys ++ (a ∷ (b ∷ done))))
      ≡ pre ++ (ys ++ ((48 + k / 10) ∷ ((48 + k % 10) ∷ done)))
pair-put k pre ys a b done h =
    ap (put (add_size (length pre) (sub_size (suc (length ys)) 1)) (digits (k * 2))) (
      put-inside pre ys (add_size (length pre) (suc (length ys))) 1 (digits (k * 2 + 1))
        (a ∷ (b ∷ done)) (omega arith))
    ∙ put-inside pre ys (add_size (length pre) (sub_size (suc (length ys)) 1)) 0 (digits (k * 2))
        (a ∷ (digits (k * 2 + 1) ∷ done)) (omega arith)
    ∙ ap₂ (λ x y. pre ++ (ys ++ (x ∷ (y ∷ done)))) (digits-even k) (digits-odd k)

to_str_loop-last :
    (rounds value dst next : ℕ) (a : List ℕ)
    → value < 100
    → to_str_loop rounds value dst next a ≡ put_last value dst next a
unfolding to_str_loop
to_str_loop-last zero value dst next a h = refl
to_str_loop-last (suc rounds) value dst next a h =
    let small : leb 100 value ≡ false = ground arith in rw small refl

decimal_two :
    (k v : ℕ) (done : List ℕ)
    → decimal (suc (suc k)) v ++ done
      ≡ decimal k (v / 100) ++ ((48 + v % 100 / 10) ∷ ((48 + v % 100 % 10) ∷ done))
decimal_two k v done =
    let hundred : v / 10 / 10 ≡ v / 100 = omega arith in
    let tens : v / 10 % 10 ≡ v % 100 / 10 = omega arith in
    let units : v % 10 ≡ v % 100 % 10 = omega arith in
    rw (hundred, tens, units)
      (append_assoc (decimal k (v / 100) ++ ((48 + v % 100 / 10) ∷ [])) ((48 + v % 100 % 10) ∷ [])
          done
        ∙ append_assoc (decimal k (v / 100)) ((48 + v % 100 / 10) ∷ [])
            ((48 + v % 100 % 10) ∷ done))

one_round :
    (rounds value k : ℕ) (pre ys : List ℕ) (a b : ℕ) (done : List ℕ)
    → 100 ≤ value
    → length ys ≡ suc k
    → length pre + suc (suc k) < 2 ^ 63
    → to_str_loop (suc rounds) value (length pre) (suc (suc k)) (pre ++ (ys ++ (a ∷ (b ∷ done))))
      ≡ to_str_loop rounds
          (value / 100)
          (length pre)
          k
          (pre ++ (ys ++ ((48 + value % 100 / 10) ∷ ((48 + value % 100 % 10) ∷ done))))
unfolding to_str_loop
one_round rounds value k pre ys a b done large len room =
    let again : leb 100 value ≡ true = ground arith in
    let left : sub_size (suc (suc k)) 2 ≡ k = omega arith in
    let pair =
      subst
        (λ n.
          put_pair (value % 100) (length pre) n (pre ++ (ys ++ (a ∷ (b ∷ done))))
          ≡ pre ++ (ys ++ ((48 + value % 100 / 10) ∷ ((48 + value % 100 % 10) ∷ done))))
        (ap suc len) (pair-put (value % 100) pre ys a b done (omega (arith, len, room))) in
    rw again (ap₂ (to_str_loop rounds (value / 100) (length pre)) left pair)

pow10-pos : (n : ℕ) → 1 ≤ pow10 n
pow10-pos zero = omega arith
pow10-pos (suc n) = omega (arith, pow10-pos n)

not_zero : (n v : ℕ) → (suc n ≡ 0) ⊎ (pow10 (suc n) ≤ v) → pow10 (suc n) ≤ v
not_zero n v (inl e) = absurd (omega (arith, e))
not_zero n v (inr low) = low

loop-decimal :
    (rounds value next : ℕ) (pre mid done : List ℕ)
    → length mid ≡ suc next
    → length pre + suc next < 2 ^ 63
    → value < pow10 (suc next)
    → (next ≡ 0) ⊎ (pow10 next ≤ value)
    → next ≤ rounds + rounds + 1
    → to_str_loop rounds value (length pre) next (pre ++ (mid ++ done))
      ≡ pre ++ (decimal (suc next) value ++ done)
loop-decimal rounds value next pre [] done len room high low enough = absurd (omega (arith, len))
loop-decimal rounds value zero pre (a ∷ []) done len room high low enough =
    let one_digit : ltb value 10 ≡ true = ground arith in
    let same : 48 + value ≡ 48 + value % 10 = omega arith in
    to_str_loop-last rounds value (length pre) 0 (pre ++ (a ∷ done)) (omega arith)
    ∙ ap
        (λ t.
          if t
          then put (add_size (length pre) 0) (48 + value) (pre ++ (a ∷ done))
          else put_pair value (length pre) 0 (pre ++ (a ∷ done)))
        one_digit
    ∙ put-inside pre [] (add_size (length pre) 0) 0 (48 + value) (a ∷ done) (omega arith)
    ∙ ap (λ d. pre ++ (d ∷ done)) same
loop-decimal rounds value zero pre (a ∷ (b ∷ mid)) done len room high low enough =
    absurd (omega (arith, len))
loop-decimal rounds value (suc zero) pre (a ∷ []) done len room high low enough =
    absurd (omega (arith, len))
loop-decimal rounds value (suc zero) pre (a ∷ (b ∷ [])) done len room high low enough =
    let at_least : 10 ≤ value = not_zero 0 value low in
    let two_digits : ltb value 10 ≡ false = ground arith in
    let tens : 48 + value / 10 ≡ 48 + value / 10 % 10 = omega arith in
    to_str_loop-last rounds value (length pre) 1 (pre ++ (a ∷ (b ∷ done))) (omega arith)
    ∙ ap
        (λ t.
          if t
          then put (add_size (length pre) 1) (48 + value) (pre ++ (a ∷ (b ∷ done)))
          else put_pair value (length pre) 1 (pre ++ (a ∷ (b ∷ done))))
        two_digits
    ∙ pair-put value pre [] a b done (omega arith)
    ∙ ap (λ d. pre ++ (d ∷ ((48 + value % 10) ∷ done))) tens
loop-decimal rounds value (suc zero) pre (a ∷ (b ∷ (c ∷ mid))) done len room high low enough =
    absurd (omega (arith, len))
loop-decimal zero value (suc (suc k)) pre (a ∷ mid) done len room high low enough =
    absurd (omega arith)
loop-decimal (suc rounds) value (suc (suc k)) pre (m ∷ mid) done len room high low enough =
    let (ys, a, b, e, len') = last_two (suc k) (m ∷ mid) len in
    let large : pow10 (suc (suc k)) ≤ value = not_zero (suc k) value low in
    ap (λ t. to_str_loop (suc rounds) value (length pre) (suc (suc k)) (pre ++ t))
      (ap (λ t. t ++ done) e ∙ append_assoc ys (a ∷ (b ∷ [])) done)
    ∙ one_round rounds value k pre ys a b done (omega (arith, large, pow10-pos k)) len'
        (omega (arith, room))
    ∙ loop-decimal rounds (value / 100) k pre ys
        ((48 + value % 100 / 10) ∷ ((48 + value % 100 % 10) ∷ done)) len' (omega (arith, room))
        (omega (arith, high)) (inr (omega (arith, large))) (omega (arith, enough))
    ∙ ap (λ t. pre ++ t) (sym (decimal_two (suc k) value done))

-- For a number of 64 bits whose digits are `n + 1`, where the library's `log10` gives `n`:
-- `uint64_to_str` gives `n + 1` and writes exactly the decimal digits of the number from its position
-- on; the bytes before and behind them stay.
pub uint64_to_str-decimal :
    (log10 : ℕ → ℕ) (value n : ℕ) (pre space post : List ℕ)
    → log10 value ≡ n
    → length space ≡ suc n
    → length pre + suc n < 2 ^ 63
    → n < 20
    → value < pow10 (suc n)
    → (n ≡ 0) ⊎ (pow10 n ≤ value)
    → uint64_to_str log10 value (length pre) (pre ++ (space ++ post))
      ≡ (suc n, pre ++ (decimal (suc n) value ++ post))
unfolding uint64_to_str
uint64_to_str-decimal log10 value n pre space post exact len room few high low =
    let size_is : add_size n 1 ≡ suc n = omega arith in
    let next_is : sub_size (suc n) 1 ≡ n = omega arith in
    rw (exact, size_is, next_is)
      (ap (λ a. (suc n, a))
        (loop-decimal 10 value n pre space post len room high low (omega arith)))
