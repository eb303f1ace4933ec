-- ===== src/Buffer/Positions.antt =====
-- common/buffer.hpp: construction, `init`, and the operations that only move the positions.
use new_happy_server.Base.{
  ℕ, ◌+◌, ◌-◌, ◌^◌, ◌≤◌, ◌<◌, ◌≡◌, refl, sym, ap, ◌∙◌, inl, inr, none, [], take, drop, replicate,
  length-replicate, drop-drop, drop-take, arith, Bool-cases, ltb, ltb→lt,
}
use new_happy_server.Base.Slices.{slice-eq-nil}
use new_happy_server.Base.Words.{add_size, sign_extend}
use new_happy_server.Buffer.{
  Runtime, Buffer, stack_capacity, data_, create, clear, seek, current, end, contents, IsValid,
}
use new_happy_server.Buffer.Grow.{check_space-HasRoom}

-- An empty buffer: nothing to read, no flag, and the read position at the head reserve.
pub record IsFresh (capacity head : ℕ) (b : Buffer) : Type 0 where
  pub valid : IsValid b
  pub room : b.writepos + capacity ≤ b.capacity
  pub nothing : contents b ≡ []
  pub no_flag : b.flag ≡ 0
  pub head_is : b.headreserved ≡ head
  pub starts : b.readpos ≡ head
  pub stops : b.writepos ≡ head

abbrev unread : ℕ → Buffer
unread head = record {
  flag = 0;
  headreserved = head;
  capacity = stack_capacity;
  readpos = head;
  writepos = head;
  heap_data = none;
  stack_data = replicate stack_capacity 0;
}

unread-IsValid : (head : ℕ) → head ≤ stack_capacity → IsValid (unread head)
unread-IsValid head h = record {
  storage = length-replicate {A = ℕ} stack_capacity 0;
  read_le_write = omega arith;
  write_le_capacity = omega arith;
  head_le_capacity = omega arith;
  small = omega arith;
}

-- The constructor gives an empty valid buffer with room for `capacity` bytes behind the reserve,
-- if the reserve fits the array inside the object and both together are below 2 ^ 63.
pub create-IsFresh :
    (rt : Runtime) (capacity head : ℕ)
    → head ≤ stack_capacity
    → head + capacity < 2 ^ 63
    → IsFresh capacity head (create rt capacity head)
unfolding create
create-IsFresh rt capacity head h k =
    elim (Bool-cases (ltb stack_capacity (add_size capacity head))) [
      | inl large ↦
          let r =
            check_space-HasRoom rt capacity (unread head) (unread-IsValid head h) k
              (inr (omega arith)) in
          rw large (record {
            valid = r.valid;
            room = r.room;
            nothing =
                r.same_contents ∙ slice-eq-nil head head (replicate stack_capacity 0) (omega arith);
            no_flag = r.same_flag;
            head_is = r.same_head;
            starts = ground (arith, r.read_from);
            stops = ground (arith, r.read_from, r.same_distance);
          })
      | inr small ↦ rw small (record {
        valid = unread-IsValid head h;
        room = ground arith;
        nothing = slice-eq-nil head head (replicate stack_capacity 0) (omega arith);
        no_flag = refl;
        head_is = refl;
        starts = refl;
        stops = refl;
      })
    ]

-- `clear` of a valid buffer leaves it valid and empty, without flags, both positions at the head
-- reserve.
pub clear-IsFresh : (b : Buffer) → IsValid b → IsFresh 0 b.headreserved (clear b)
unfolding clear
clear-IsFresh b v = record {
  valid = record {
    storage = v.storage;
    read_le_write = omega arith;
    write_le_capacity = v.head_le_capacity;
    head_le_capacity = v.head_le_capacity;
    small = v.small;
  };
  room = omega arith;
  nothing = slice-eq-nil b.headreserved b.headreserved (data_ b) (omega arith);
  no_flag = refl;
  head_is = refl;
  starts = refl;
  stops = refl;
}

moved-IsValid :
    (b : Buffer) (pos : ℕ) → IsValid b → pos ≤ b.writepos → IsValid (record b { readpos = pos })
moved-IsValid b pos v h = record {
  storage = v.storage;
  read_le_write = h;
  write_le_capacity = v.write_le_capacity;
  head_le_capacity = v.head_le_capacity;
  small = v.small;
}

-- Seeking from the current or the last position keeps a valid buffer valid, whatever the offset;
-- `seek` returns the position it sets.
pub seek-IsValid :
    (offset : ℕ) (b : Buffer)
    → IsValid b
    → IsValid (seek offset current b).0
      × IsValid (seek offset end b).0
      × ((seek offset current b).1 ≡ (seek offset current b).0.readpos)
      × ((seek offset end b).1 ≡ (seek offset end b).0.readpos)
unfolding seek
seek-IsValid offset b v =
    (moved-IsValid b _ v (ground arith), moved-IsValid b _ v (ground arith), refl, refl)

-- Seeking forward from the current position of a valid buffer, by less than 2 ^ 31, drops that many
-- readable bytes, or all there are.
pub contents-seek :
    (offset : ℕ) (b : Buffer)
    → IsValid b
    → offset < 2 ^ 31
    → contents (seek offset current b).0 ≡ drop offset (contents b)
unfolding seek
contents-seek offset b v h =
    let moved : add_size b.readpos (sign_extend offset) ≡ b.readpos + offset = ground arith in
    elim (Bool-cases (ltb b.writepos (b.readpos + offset))) [
      | inl over ↦
          rw (moved, over, drop-take offset (b.writepos - b.readpos) (drop b.readpos (data_ b)))
            (slice-eq-nil b.writepos b.writepos (data_ b) (omega arith)
              ∙ sym (
                  slice-eq-nil offset (b.writepos - b.readpos) (drop b.readpos (data_ b))
                    (omega (arith, ltb→lt _ _ over))))
      | inr inside ↦
          rw
            (
              moved,
              inside,
              drop-take offset (b.writepos - b.readpos) (drop b.readpos (data_ b)),
              drop-drop offset b.readpos (data_ b),
            )
            (ap (λ k. take k (drop (b.readpos + offset) (data_ b))) left)
    ]
  where
    left : b.writepos - (b.readpos + offset) ≡ b.writepos - b.readpos - offset
    left = omega arith
