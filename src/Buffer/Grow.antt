-- ===== src/Buffer/Grow.antt =====
-- common/buffer.hpp: `check_space` makes room and keeps the readable bytes.
use new_happy_server.Base.{
  ℕ, ◌+◌, ◌-◌, ◌^◌, ◌≤◌, ◌<◌, ◌≡◌, refl, sym, ◌∙◌, ◌⊎◌, inl, inr, List, length, take, drop,
  drop-append_le, drop-take, take-append_self, length-take, arith, Bool-cases, ltb, leb, ◌==◌,
  ltb→le, if◌then◌else◌,
}
use new_happy_server.Base.Slices.{
  slice, splice, length-splice, slice-splice_self, slice-eq-nil, length-slice,
}
use new_happy_server.Base.Words.{add_size}
use new_happy_server.Buffer.{
  Runtime, Buffer, data_, put_data, size, writeablesize, next_pow2, grow, compact, check_space,
  contents, IsValid,
}
use new_happy_server.Buffer.Space.{next_pow2_bounds}

pub data-put_data : (b : Buffer) (bytes : List ℕ) → data_ (put_data b bytes) ≡ bytes
data-put_data b bytes = ground arith

-- A buffer whose bytes were moved but whose other fields were not touched.
pub put_data-fields :
    (b : Buffer) (bytes : List ℕ)
    → ((put_data b bytes).flag ≡ b.flag)
      × ((put_data b bytes).headreserved ≡ b.headreserved)
      × ((put_data b bytes).capacity ≡ b.capacity)
      × ((put_data b bytes).readpos ≡ b.readpos)
      × ((put_data b bytes).writepos ≡ b.writepos)
put_data-fields b bytes = ground arith

-- The copy that `compact` makes inside the array has ranges that do not overlap.
abbrev pub MovesApart : Buffer → Type 0
MovesApart b = b.headreserved + (b.writepos - b.readpos) ≤ b.readpos

-- The readable bytes do not have to be copied onto themselves to make room for `need` bytes: there
-- is room, or a larger array is taken, or the copy has ranges that do not overlap.
abbrev pub CopiesApart : ℕ → Buffer → Type 0
CopiesApart need b =
    (b.writepos + need ≤ b.capacity)
    ⊎ ((b.capacity + b.readpos < b.writepos + need + b.headreserved) ⊎ MovesApart b)

-- What `check_space` promises for `need` bytes: room for them behind the same readable bytes.
pub record HasRoom (need : ℕ) (b b' : Buffer) : Type 0 where
  pub valid : IsValid b'
  pub room : b'.writepos + need ≤ b'.capacity
  pub same_contents : contents b' ≡ contents b
  pub same_flag : b'.flag ≡ b.flag
  pub same_head : b'.headreserved ≡ b.headreserved
  pub same_distance : b'.writepos + b.readpos ≡ b.writepos + b'.readpos
  pub read_from : (b'.readpos ≡ b.readpos) ⊎ (b'.readpos ≡ b.headreserved)

data-grow :
    (rt : Runtime) (required : ℕ) (b : Buffer)
    → data_ (grow rt required b) ≡ splice (rt.new_chars required) 0 (take b.writepos (data_ b))
unfolding grow
data-grow rt required b = ground arith

grow-fields :
    (rt : Runtime) (required : ℕ) (b : Buffer)
    → let g = grow rt required b in
      (g.flag ≡ b.flag)
      × (g.headreserved ≡ b.headreserved)
      × (g.capacity ≡ required)
      × (g.readpos ≡ b.readpos)
      × (g.writepos ≡ b.writepos)
unfolding grow
grow-fields rt required b = ground arith

-- The fresh array holds what the old one held below the write position.
slice-fresh :
    (r w : ℕ) (old new : List ℕ)
    → r ≤ w
    → w ≤ length old
    → slice r w (splice new 0 (take w old)) ≡ slice r w old
slice-fresh r w old new h k =
    rw
      (
        drop-append_le r (take w old) (drop (0 + length (take w old)) new)
            (omega (arith, length-take w old)),
        drop-take r w old,
      )
      (take-append_self (w - r) (slice r w old) _ (omega (arith, length-slice r w old h k)))

grow-HasRoom :
    (rt : Runtime) (need required : ℕ) (b : Buffer)
    → IsValid b
    → b.writepos + need ≤ required
    → required ≤ 2 ^ 63
    → b.capacity ≤ required
    → HasRoom need b (grow rt required b)
grow-HasRoom rt need required b v h k c =
    let f = grow-fields rt required b in
    let d = data-grow rt required b in
    let len =
      length-splice (rt.new_chars required) 0 (take b.writepos (data_ b))
        (omega (arith, length-take b.writepos (data_ b), rt.length-new_chars required)) in
    record {
      valid = record {
        storage = rw (d, f.2) (omega (arith, len, rt.length-new_chars required));
        read_le_write = omega (arith, f);
        write_le_capacity = omega (arith, f);
        head_le_capacity = omega (arith, f);
        small = omega (arith, f);
      };
      room = omega (arith, f);
      same_contents =
          rw (d, f.3, f.4)
            (slice-fresh b.readpos b.writepos (data_ b) (rt.new_chars required) v.read_le_write
              (omega arith));
      same_flag = f.0;
      same_head = f.1;
      same_distance = omega (arith, f);
      read_from = inl f.3;
    }

compact-fields :
    (rt : Runtime) (b : Buffer)
    → let c = compact rt b in
      (c.flag ≡ b.flag)
      × (c.headreserved ≡ b.headreserved)
      × (c.capacity ≡ b.capacity)
      × (c.readpos ≡ b.headreserved)
      × (c.writepos ≡ add_size b.headreserved (size b))
unfolding compact
compact-fields rt b = ground arith

data-compact :
    (rt : Runtime) (b : Buffer)
    → data_ (compact rt b) ≡ (
        if size b == 0
        then data_ b
        else rt.memcpy_within (data_ b) b.headreserved b.readpos (size b))
unfolding compact
data-compact rt b = ground arith

-- Where bytes are moved, the moved range reads as it did before.
moved_range :
    (rt : Runtime) (b : Buffer)
    → IsValid b
    → MovesApart b
    → let bytes = rt.memcpy_within (data_ b) b.headreserved b.readpos (size b) in
      (length bytes ≡ b.capacity)
      × (slice b.headreserved (b.headreserved + (b.writepos - b.readpos)) bytes ≡ contents b)
moved_range rt b v apart =
    let n : ℕ = b.writepos - b.readpos in
    let whole : size b ≡ n = omega arith in
    let ends : b.readpos + n ≡ b.writepos = omega arith in
    let len = length-slice b.readpos b.writepos (data_ b) v.read_le_write (omega arith) in
    let law =
      rt.memcpy_disjoint (data_ b) b.headreserved b.readpos n (omega arith) (omega arith)
        (inl apart) in
    rw (whole, law, ends)
      (
        length-splice (data_ b) b.headreserved (contents b) (omega (arith, len)) ∙ v.storage,
        slice-splice_self (data_ b) b.headreserved n (contents b) (omega arith) (sym len),
      )

same_nil :
    (b : Buffer)
    → IsValid b
    → size b ≡ 0
    → slice b.headreserved (b.headreserved + (b.writepos - b.readpos)) (data_ b) ≡ contents b
same_nil b v e =
    slice-eq-nil b.headreserved _ (data_ b) (omega arith)
    ∙ sym (slice-eq-nil b.readpos b.writepos (data_ b) (omega arith))

compact_range :
    (rt : Runtime) (b : Buffer)
    → IsValid b
    → MovesApart b
    → let bytes = data_ (compact rt b) in
      (length bytes ≡ b.capacity)
      × (slice b.headreserved (b.headreserved + (b.writepos - b.readpos)) bytes ≡ contents b)
compact_range rt b v apart = elim (Bool-cases (size b == 0)) [
  | inl nothing ↦ rw (data-compact rt b, nothing) (v.storage, same_nil b v (ground arith))
  | inr bytes ↦ rw (data-compact rt b, bytes) (moved_range rt b v apart)
]

compact-HasRoom :
    (rt : Runtime) (need : ℕ) (b : Buffer)
    → IsValid b
    → MovesApart b
    → b.headreserved + (b.writepos - b.readpos) + need ≤ b.capacity
    → HasRoom need b (compact rt b)
compact-HasRoom rt need b v apart h =
    let f = compact-fields rt b in
    let n : ℕ = b.writepos - b.readpos in
    let whole : size b ≡ n = omega arith in
    let (len, same) = compact_range rt b v apart in
    let upto : add_size b.headreserved (size b) ≡ b.headreserved + n = omega arith in
    record {
      valid = record {
        storage = rw f.2 len;
        read_le_write = omega (arith, f);
        write_le_capacity = omega (arith, f);
        head_le_capacity = omega (arith, f);
        small = omega (arith, f);
      };
      room = omega (arith, f);
      same_contents = rw (f.3, f.4, upto) same;
      same_flag = f.0;
      same_head = f.1;
      same_distance = omega (arith, f);
      read_from = inr f.3;
    }

module _ (b : Buffer) (need : ℕ) (v : IsValid b) (h : b.writepos + need < 2 ^ 63) where
  slides_apart :
      CopiesApart need b
      → b.capacity < b.writepos + need
      → add_size need b.headreserved ≤ add_size (writeablesize b) b.readpos
      → MovesApart b
  slides_apart moves short k = omega arith

  slides_fit :
      add_size need b.headreserved ≤ add_size (writeablesize b) b.readpos
      → b.headreserved + (b.writepos - b.readpos) + need ≤ b.capacity
  slides_fit k = omega arith

too_short :
    (rt : Runtime) (need : ℕ) (b : Buffer)
    → IsValid b
    → b.writepos + need < 2 ^ 63
    → CopiesApart need b
    → b.capacity < b.writepos + need
    → HasRoom need b (
        if ltb (add_size (writeablesize b) b.readpos) (add_size need b.headreserved)
        then grow rt (next_pow2 (add_size b.writepos need)) b
        else compact rt b)
too_short rt need b v h moves short =
    let sum : add_size b.writepos need ≡ b.writepos + need = omega arith in
    let bounds = next_pow2_bounds (b.writepos + need) h in
    elim (Bool-cases (ltb (add_size (writeablesize b) b.readpos) (add_size need b.headreserved))) [
      | inl grows ↦
          rw (grows, sum) (grow-HasRoom rt need _ b v bounds.0 bounds.1 (omega (arith, bounds)))
      | inr slides ↦ rw slides (
          compact-HasRoom rt need b v (slides_apart b need v h moves short (ltb→le _ _ slides))
            (slides_fit b need v h (ltb→le _ _ slides)))
    ]

-- Whenever the readable bytes do not have to move onto themselves, `check_space` leaves the buffer
-- valid, with room for `need` more bytes, the same readable bytes, flags and head reserve.
pub check_space-HasRoom :
    (rt : Runtime) (need : ℕ) (b : Buffer)
    → IsValid b
    → b.writepos + need < 2 ^ 63
    → CopiesApart need b
    → HasRoom need b (check_space rt need b)
unfolding check_space
check_space-HasRoom rt need b v h moves = elim (Bool-cases (leb need (writeablesize b))) [
  | inl fits ↦ rw fits (record {
    valid = v;
    room = ground arith;
    same_contents = refl;
    same_flag = refl;
    same_head = refl;
    same_distance = refl;
    read_from = inl refl;
  })
  | inr short ↦ rw short (too_short rt need b v h moves (ground arith))
]

-- `check_space` never touches the flags.
pub flag-check_space :
    (rt : Runtime) (need : ℕ) (b : Buffer) → (check_space rt need b).flag ≡ b.flag
unfolding check_space
flag-check_space rt need b =
    ground (arith, grow-fields rt (next_pow2 (add_size b.writepos need)) b, compact-fields rt b)
