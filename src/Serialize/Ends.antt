-- ===== src/Serialize/Ends.antt =====
-- magic/lua_serialize.cpp: a reader that ends takes a byte at least of those that are left.
use new_happy_server.Base.{
  ◌&&◌, ◌||◌, ℕ, zero, suc, ◌+◌, ◌/◌, ◌^◌, ◌≤◌, ◌<◌, ◌≡◌, sym, ◌∙◌, Bool, true, false, List, ◌++◌,
  length, drop, length-drop, none, some, take-append-drop, length-take, take, arith, ltb, ◌==◌,
  if◌then◌else◌, Bool-cases, not, inl, inr, ltb→le, ltb→lt, ◌⊎◌,
}
use new_happy_server.View.{size, View, read, skip}
use new_happy_server.View.Laws.{At, read-At, read_short, advance, skip-At}
use new_happy_server.Serialize.Value.{to_int, is_negative_int}
use new_happy_server.Serialize.Unpack.{
  Outcome, ok, invalid, fault, out_of_fuel, ◌>>=◌, read_or_invalid, get_integer, get_buffer,
  get_typed_size, get_array_size, push_scalar,
}

-- A valid view with so few bytes left that `taken` more would still be at most `n`.
pub record Holds (taken n : ℕ) (v : View) : Type 0 where
  pub bytes : List ℕ
  pub at : At bytes v
  pub few : length bytes + taken ≤ n

-- The reader ends; if it gives a value, it has taken `taken` of at most `n` bytes at least.
abbrev pub Ends {ℓ} : {A : Type ℓ} → ℕ → ℕ → Outcome (A × View) → Type 0
Ends k n (ok (a, v)) = Holds k n v
Ends k n invalid = Unit {0}
Ends k n fault = Unit {0}
Ends k n out_of_fuel = ⊥

pub bind-Ends {ℓ κ} :
    {A : Type ℓ} {B : Type κ} (j m k n : ℕ) (r : Outcome (A × View))
    (f : A × View → Outcome (B × View))
    → Ends j m r
    → ((a : A) (v : View) → Holds j m v → Ends k n (f (a, v)))
    → Ends k n (r >>= f)
bind-Ends j m k n (ok (a, v)) f h next = next a v h
bind-Ends j m k n invalid f h next = tt
bind-Ends j m k n fault f h next = tt
bind-Ends j m k n out_of_fuel f h next = h

pub Ends-mono {ℓ} :
    {A : Type ℓ} (j m k n : ℕ) (r : Outcome (A × View)) → m + k ≤ n + j → Ends j m r → Ends k n r
Ends-mono j m k n (ok (a, v)) e h = record {
  bytes = h.bytes;
  at = h.at;
  few = omega (arith, h.few);
}
Ends-mono j m k n invalid e h = tt
Ends-mono j m k n fault e h = tt
Ends-mono j m k n out_of_fuel e h = h

-- A read of one byte or more takes a byte, or fails.
pub read_first :
    (n m : ℕ) (v : View)
    → 0 < n
    → n < 2 ^ 63
    → Holds 0 m v
    → (read false n v ≡ (v, none))
      ⊎ ((bs : List ℕ) × (read false n v ≡ (advance n v, some bs)) × Holds 1 m (advance n v))
read_first n m v pos small a = elim (Bool-cases (ltb (length a.bytes) n)) [
  | inl short ↦ inl (read_short n a.at (ltb→lt _ _ short) small)
  | inr long ↦
      let bs = a.bytes in
      let enough = ltb→le _ _ long in
      let split : At (take n bs ++ drop n bs) v = record {
        valid = a.at.valid;
        left = a.at.left ∙ sym (take-append-drop n bs);
      } in
      let (got, after) =
        read-At n (take n bs) (drop n bs) split (omega (arith, length-take n bs)) pos in
      inr (
        take n bs,
        got,
        record { bytes = drop n bs; at = after; few = omega (arith, length-drop n bs, a.few) },
      )
]

pub number-Ends :
    (n m : ℕ) (v : View) → 0 < n → n < 2 ^ 63 → Holds 0 m v → Ends 1 m (read_or_invalid n v)
number-Ends n m v pos small a = elim (read_first n m v pos small a) [
  | inl short ↦ rw (short, read_or_invalid) tt
  | inr (bs, got, after) ↦ rw (got, read_or_invalid) (rw got after)
]

pub Ends-if {ℓ} :
    {A : Type ℓ} (k n : ℕ) (b : Bool) (r s : Outcome (A × View))
    → Ends k n r
    → Ends k n s
    → Ends k n (if b then r else s)
Ends-if k n true r s h g = h
Ends-if k n false r s h g = g

some_number-Ends :
    (n m : ℕ) (v : View) → 0 < n → n < 2 ^ 63 → Holds 0 m v → Ends 0 m (read_or_invalid n v)
some_number-Ends n m v pos small a =
    Ends-mono 1 m 0 m (read_or_invalid n v) (omega arith) (number-Ends n m v pos small a)

integer-Ends : (cookie m : ℕ) (v : View) → Holds 0 m v → Ends 0 m (get_integer cookie v)
unfolding get_integer
integer-Ends cookie m v a =
    let number = λ (n : ℕ) (p : 0 < n) (q : n < 2 ^ 63). some_number-Ends n m v p q a in
    Ends-if 0 m (cookie == 0) _ _ a (
      Ends-if 0 m (cookie == 1) _ _ (number 1 (omega arith) (omega arith)) (
        Ends-if 0 m (cookie == 2) _ _ (number 2 (omega arith) (omega arith)) (
          Ends-if 0 m (cookie == 4) _ _
            (bind-Ends 0 m 0 m (read_or_invalid 4 v) _ (number 4 (omega arith) (omega arith))
              (λ x w b. b))
            (Ends-if 0 m (cookie == 6) _ _ (number 8 (omega arith) (omega arith)) tt))))

skip-Holds : (n m : ℕ) (v : View) → Holds 0 m v → Holds 0 m (skip n v)
skip-Holds n m v a = record {
  bytes = drop n a.bytes;
  at = skip-At n a.at;
  few = omega (arith, length-drop n a.bytes, a.few);
}

buffer-Ends : (len m : ℕ) (v : View) → Holds 0 m v → Ends 0 m (get_buffer len v)
unfolding get_buffer
buffer-Ends len m v a =
    Ends-if 0 m (is_negative_int len) _ _
      (Ends-if 0 m (is_negative_int (to_int (size v)) && ltb (to_int (size v)) len) invalid fault tt
        tt)
      (Ends-if 0 m (is_negative_int (to_int (size v)) || ltb (to_int (size v)) len) invalid _ tt
        (skip-Holds len m v a))

pub scalar-Ends : (t c m : ℕ) (v : View) → Holds 0 m v → Ends 0 m (push_scalar t c v)
unfolding push_scalar
scalar-Ends zero c m v a = a
scalar-Ends (suc zero) c m v a = a
scalar-Ends (suc (suc zero)) c m v a =
    Ends-if 0 m (c == 8) _ _
      (bind-Ends 0 m 0 m (read_or_invalid 8 v) _
        (some_number-Ends 8 m v (omega arith) (omega arith) a) (λ x w b. b))
      (bind-Ends 0 m 0 m (get_integer c v) _ (integer-Ends c m v a) (λ x w b. b))
scalar-Ends (suc (suc (suc zero))) c m v a =
    bind-Ends 0 m 0 m (read_or_invalid 8 v) _ (some_number-Ends 8 m v (omega arith) (omega arith) a)
      (λ x w b. b)
scalar-Ends (suc (suc (suc (suc zero)))) c m v a = buffer-Ends c m v a
scalar-Ends (suc (suc (suc (suc (suc zero))))) c m v a =
    Ends-if 0 m (c == 2) _ _
      (bind-Ends 0 m 0 m (read_or_invalid 2 v) _
        (some_number-Ends 2 m v (omega arith) (omega arith) a) (λ n w b. buffer-Ends n m w b))
      (Ends-if 0 m (not (c == 4)) invalid _ tt (
        bind-Ends 0 m 0 m (read_or_invalid 4 v) _
          (some_number-Ends 4 m v (omega arith) (omega arith) a) (λ n w b. buffer-Ends n m w b)))
scalar-Ends (suc (suc (suc (suc (suc (suc t)))))) c m v a = tt

typed_size-Ends : (type m : ℕ) (v : View) → Holds 0 m v → Ends 0 m (get_typed_size type v)
unfolding get_typed_size
typed_size-Ends type m v a =
    Ends-if 0 m _ invalid _ tt
      (bind-Ends 0 m 0 m (get_integer (type / 8) v) _ (integer-Ends (type / 8) m v a) (λ x w b. b))

pub array_size-Ends : (c m : ℕ) (v : View) → Holds 0 m v → Ends 0 m (get_array_size c v)
unfolding get_array_size
array_size-Ends c m v a =
    Ends-if 0 m (c == 31) _ _
      (bind-Ends 0 m 0 m (read_or_invalid 1 v) _
        (some_number-Ends 1 m v (omega arith) (omega arith) a) (λ t w b. typed_size-Ends t m w b))
      a
