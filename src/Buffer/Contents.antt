-- ===== src/Buffer/Contents.antt =====
-- common/buffer.hpp: the buffer as a queue of bytes. What `write_back`, `write_front` and `read` do
-- to the readable bytes, on every branch.
use new_happy_server.Base.{
  ℕ, ◌+◌, ◌-◌, ◌^◌, ◌≤◌, ◌<◌, ◌≡◌, refl, sym, ap, ◌∙◌, ◌⊎◌, inl, inr, none, some, List, [], ◌∷◌,
  ◌++◌, length, append-nil, arith, Bool-cases, ltb, ◌==◌, ltb→lt, ltb→le, true, false,
}
use new_happy_server.Base.Slices.{
  slice, splice, length-splice, length-slice, slice-splice_back, slice-splice_front, slice-append,
}
use new_happy_server.Base.Words.{add_size, sub_size}
use new_happy_server.Buffer.{
  Runtime, Buffer, data_, put_data, check_space, append_bytes, write_back, write_front, read,
  contents, IsValid,
}
use new_happy_server.Buffer.Grow.{CopiesApart, check_space-HasRoom, data-put_data, put_data-fields}

-- What `write_back` promises for the bytes `xs`.
pub record Appends (xs : List ℕ) (b b' : Buffer) : Type 0 where
  pub valid : IsValid b'
  pub appended : contents b' ≡ contents b ++ xs
  pub same_flag : b'.flag ≡ b.flag
  pub same_head : b'.headreserved ≡ b.headreserved
  pub distance : b'.writepos + b.readpos ≡ b.writepos + length xs + b'.readpos
  pub read_from : (b'.readpos ≡ b.readpos) ⊎ (b'.readpos ≡ b.headreserved)

append_in_room :
    (b : Buffer) (xs : List ℕ)
    → IsValid b
    → b.writepos + length xs ≤ b.capacity
    → Appends xs b (record (put_data b (splice (data_ b) b.writepos xs)) {
      writepos = add_size b.writepos (length xs);
    })
append_in_room b xs v h =
    let bytes = splice (data_ b) b.writepos xs in
    let d = data-put_data b bytes in
    let f = put_data-fields b bytes in
    let upto : add_size b.writepos (length xs) ≡ b.writepos + length xs = omega arith in
    record {
      valid = record {
        storage =
            ap length d ∙ length-splice (data_ b) b.writepos xs (omega arith) ∙ v.storage ∙ sym f.2;
        read_le_write = omega (arith, f);
        write_le_capacity = omega (arith, f);
        head_le_capacity = omega (arith, f);
        small = omega (arith, f);
      };
      appended =
          rw (d, f.3, upto)
            (slice-splice_back (data_ b) b.readpos b.writepos xs v.read_le_write (omega arith));
      same_flag = f.0;
      same_head = f.1;
      distance = omega (arith, f);
      read_from = inl f.3;
    }

append_bytes-Appends :
    (rt : Runtime) (b : Buffer) (xs : List ℕ)
    → IsValid b
    → b.writepos + length xs < 2 ^ 63
    → CopiesApart (length xs) b
    → Appends xs b (append_bytes rt xs b)
unfolding append_bytes
append_bytes-Appends rt b xs v h k =
    let r = check_space-HasRoom rt (length xs) b v h k in
    let a = append_in_room (check_space rt (length xs) b) xs r.valid r.room in
    record {
      valid = a.valid;
      appended = a.appended ∙ ap (λ ys. ys ++ xs) r.same_contents;
      same_flag = a.same_flag ∙ r.same_flag;
      same_head = a.same_head ∙ r.same_head;
      distance = omega (arith, a.distance, r.same_distance);
      read_from = ground (arith, a.read_from, r.read_from, r.same_head);
    }

-- `write_back` of a valid buffer appends exactly the bytes it is given and keeps the buffer valid, its
-- flags and its head reserve, unless the readable bytes would have to move onto themselves or the
-- write position would reach 2 ^ 63.
pub write_back-Appends :
    (rt : Runtime) (b : Buffer) (xs : List ℕ)
    → IsValid b
    → b.writepos + length xs < 2 ^ 63
    → CopiesApart (length xs) b
    → Appends xs b (write_back rt (some xs) b)
unfolding write_back
write_back-Appends rt b [] v h k = record {
  valid = v;
  appended = sym (append-nil (contents b));
  same_flag = refl;
  same_head = refl;
  distance = omega arith;
  read_from = inl refl;
}
write_back-Appends rt b (x ∷ xs) v h k = append_bytes-Appends rt b (x ∷ xs) v h k

prepend_in_room :
    (b : Buffer) (xs : List ℕ)
    → IsValid b
    → length xs ≤ b.readpos
    → let start = sub_size b.readpos (length xs) in
      let b' : Buffer = record (put_data b (splice (data_ b) start xs)) { readpos = start } in
      IsValid b' × (contents b' ≡ xs ++ contents b)
prepend_in_room b xs v h =
    let start = b.readpos - length xs in
    let from : sub_size b.readpos (length xs) ≡ start = omega arith in
    let bytes = splice (data_ b) start xs in
    let d = data-put_data b bytes in
    let f = put_data-fields b bytes in
    let back : start + length xs ≡ b.readpos = omega arith in
    rw from (
      record {
        storage =
            ap length d ∙ length-splice (data_ b) start xs (omega arith) ∙ v.storage ∙ sym f.2;
        read_le_write = omega (arith, f);
        write_le_capacity = omega (arith, f);
        head_le_capacity = omega (arith, f);
        small = omega (arith, f);
      },
      rw (d, f.4)
          (slice-splice_front (data_ b) start b.writepos xs (omega arith) (omega arith)
            ∙ ap (λ k. xs ++ slice k b.writepos (data_ b)) back),
    )

-- `write_front` of some bytes to a valid buffer puts them before the readable ones and returns true, if
-- the space before those is large enough, and otherwise leaves the buffer as it was and returns false.
pub write_front_cases :
    (b : Buffer) (x : ℕ) (xs : List ℕ)
    → IsValid b
    → let (b', done) = write_front (some (x ∷ xs)) b in
      ((length (x ∷ xs) ≤ b.readpos)
        × (done ≡ true)
        × IsValid b'
        × (contents b' ≡ (x ∷ xs) ++ contents b))
      ⊎ ((b.readpos < length (x ∷ xs)) × (done ≡ false) × (b' ≡ b))
unfolding write_front
write_front_cases b x xs v = elim (Bool-cases (ltb b.readpos (length (x ∷ xs)))) [
  | inl over ↦ inr (ltb→lt _ _ over, rw over, rw over)
  | inr fits ↦
      let start = prepend_in_room b (x ∷ xs) v (ltb→le _ _ fits) in
      inl (ltb→le _ _ fits, rw fits, rw fits start.0, rw fits start.1)
]

nonzero : (n : ℕ) → 0 < n → (n == 0) ≡ false
nonzero n h = ground arith

-- `read` of `n` bytes of a valid buffer, for `n` from 1 to below 2 ^ 63, returns the first `n` readable
-- bytes and leaves the others, if there are as many; otherwise it returns false and leaves the
-- buffer as it was.
pub read_cases :
    (b : Buffer) (n : ℕ)
    → IsValid b
    → 0 < n
    → n < 2 ^ 63
    → let (b', out) = read false n b in
      ((xs : List ℕ) × (out ≡ some xs)
        × (length xs ≡ n)
        × (contents b ≡ xs ++ contents b')
        × IsValid b')
      ⊎ ((b.writepos < b.readpos + n) × (out ≡ none) × (b' ≡ b))
unfolding read
read_cases b n v pos small =
    let upto : add_size b.readpos n ≡ b.readpos + n = omega arith in
    elim (Bool-cases (ltb b.writepos (b.readpos + n))) [
      | inl over ↦
          inr (ltb→lt _ _ over, rw (nonzero n pos, upto, over), rw (nonzero n pos, upto, over))
      | inr fits ↦
          let enough = ltb→le _ _ fits in
          inl (
            slice b.readpos (b.readpos + n) (data_ b),
            rw (nonzero n pos, upto, fits),
            (length-slice b.readpos (b.readpos + n) (data_ b) (omega arith) (omega arith)
                ∙ omega arith),
            rw (nonzero n pos, upto, fits)
                (sym (
                  slice-append b.readpos (b.readpos + n) b.writepos (data_ b) (omega arith)
                    enough)),
            rw (nonzero n pos, upto, fits)
                (record {
                  storage = v.storage;
                  read_le_write = enough;
                  write_le_capacity = v.write_le_capacity;
                  head_le_capacity = v.head_le_capacity;
                  small = v.small;
                }),
          )
    ]
