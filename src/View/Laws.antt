-- ===== src/View/Laws.antt =====
-- common/buffer_view.hpp: reads and skips as steps over the bytes that are left.
use new_happy_server.Base.{
  ℕ, ◌+◌, ◌-◌, ◌^◌, ◌≤◌, ◌<◌, ◌≡◌, sym, ap, ◌∙◌, inl, inr, none, some, List, ◌++◌, length, take,
  drop, length-append, drop_all, append_split, take-append-drop, length-take, subst, arith,
  Bool-cases, ltb, ltb→lt, ltb→le, lt→ltb, le→ltb, ◌==◌, take_all, false,
}
use new_happy_server.Base.Slices.{slice, length-slice, slice-append, slice-eq-nil}
use new_happy_server.Base.Words.{add_size}
use new_happy_server.View.{View, view, size, rest, read, skip}

-- The positions are in order and inside the array, and no sum of sizes wraps.
pub record IsValid (v : View) : Type 0 where
  pub read_le_size : v.readpos ≤ v.size_
  pub in_array : v.size_ ≤ length v.bytes_at
  pub small : v.size_ ≤ 2 ^ 63

-- A valid view at which the bytes `xs` are left.
pub record At (xs : List ℕ) (v : View) : Type 0 where
  pub valid : IsValid v
  pub left : rest v ≡ xs

pub view-At : (xs : List ℕ) → length xs ≤ 2 ^ 63 → At xs (view xs)
view-At xs h = record {
  valid = record { read_le_size = omega arith; in_array = omega arith; small = h };
  left = take_all (length xs - 0) xs (omega arith);
}

pub length-rest : (v : View) → IsValid v → length (rest v) ≡ v.size_ - v.readpos
length-rest v h = length-slice v.readpos v.size_ v.bytes_at h.read_le_size h.in_array

pub size-At : {xs : List ℕ} {v : View} → At xs v → size v ≡ length xs
size-At {xs} {v} a =
    omega (arith, ap length a.left, length-rest v a.valid, a.valid.read_le_size, a.valid.small)

nonzero : (n : ℕ) → 0 < n → (n == 0) ≡ false
nonzero n h = ground arith

-- The view after `n` of the bytes that are left.
abbrev pub advance : ℕ → View → View
advance n v = record v { readpos = v.readpos + n }

module _ {v : View} (xs ys : List ℕ) (a : At (xs ++ ys) v) where
  fits : v.readpos + length xs ≤ v.size_
  fits =
      omega
        (arith, ap length a.left, length-rest v a.valid, length-append xs ys, a.valid.read_le_size)

  parts :
      (slice v.readpos (v.readpos + length xs) v.bytes_at ≡ xs)
      × (slice (v.readpos + length xs) v.size_ v.bytes_at ≡ ys)
  parts =
      append_split _ _ xs ys
        (slice-append v.readpos (v.readpos + length xs) v.size_ v.bytes_at (omega arith) fits
          ∙ a.left)
        (length-slice v.readpos (v.readpos + length xs) v.bytes_at (omega arith)
            (omega (arith, fits, a.valid.in_array))
          ∙ omega arith)

  pub advance-At : At ys (advance (length xs) v)
  advance-At = record {
    valid = record { read_le_size = fits; in_array = a.valid.in_array; small = a.valid.small };
    left = parts.1;
  }

-- Where `xs ++ ys` is left in a valid view, and `xs` has `n` bytes, at least one, a read of `n` bytes
-- takes `xs` and leaves `ys`.
pub read-At :
    (n : ℕ) (xs ys : List ℕ) {v : View}
    → At (xs ++ ys) v
    → length xs ≡ n
    → 0 < n
    → (read false n v ≡ (advance n v, some xs)) × At ys (advance n v)
unfolding read
read-At n xs ys {v} a e pos =
    let upto : add_size v.readpos n ≡ v.readpos + n = omega (arith, fits xs ys a, a.valid.small) in
    let inside = le→ltb v.size_ (v.readpos + n) (omega (arith, fits xs ys a)) in
    rw (nonzero n pos, upto, inside, ← e)
      (ap (λ bs. (advance (length xs) v, some bs)) (parts xs ys a).0, advance-At xs ys a)

-- A read of more bytes than are left in a valid view, and fewer than 2 ^ 63, returns false and takes
-- nothing.
pub read_short :
    (n : ℕ) {xs : List ℕ} {v : View}
    → At xs v
    → length xs < n
    → n < 2 ^ 63
    → read false n v ≡ (v, none)
unfolding read
read_short n {xs} {v} a h k =
    let len = length-rest v a.valid in
    let l = ap length a.left in
    let upto : add_size v.readpos n ≡ v.readpos + n =
      omega (arith, a.valid.read_le_size, a.valid.small) in
    rw (
      nonzero n (omega arith),
      upto,
      lt→ltb v.size_ (v.readpos + n) (omega (arith, len, l, a.valid.read_le_size)),
    )

-- `skip` in a valid view drops that many of the bytes that are left, or all of them.
pub skip-At : (n : ℕ) {xs : List ℕ} {v : View} → At xs v → At (drop n xs) (skip n v)
unfolding skip
skip-At n {xs} {v} a = elim (Bool-cases (ltb n (size v))) [
  | inl some_left ↦
      let less : n < length xs = omega (arith, ltb→lt _ _ some_left, size-At a) in
      let upto : add_size v.readpos n ≡ v.readpos + n = omega (
        arith,
        size-At a,
        length-rest v a.valid,
        ap length a.left,
        a.valid.read_le_size,
        a.valid.small,
      ) in
      let cut : xs ≡ take n xs ++ drop n xs = sym (take-append-drop n xs) in
      let taken : length (take n xs) ≡ n = omega (arith, length-take n xs) in
      let b : At (take n xs ++ drop n xs) v = record { valid = a.valid; left = a.left ∙ cut } in
      rw (some_left, upto)
        (subst (λ k. At (drop n xs) (advance k v)) taken (advance-At (take n xs) (drop n xs) b))
  | inr all ↦
      rw (all, drop_all n xs (omega (arith, ltb→le _ _ all, size-At a)))
        (record {
          valid = record {
            read_le_size = omega arith;
            in_array = omega arith;
            small = omega arith;
          };
          left = slice-eq-nil 0 0 v.bytes_at (omega arith);
        })
]
