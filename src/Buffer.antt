-- ===== src/Buffer.antt =====
-- common/buffer.hpp, class buffer: a byte buffer with a read and a write position, a head reserve,
-- a small array inside the object and a heap array once that is too small.
-- `size_t` is 64 bits wide. An array is the list of its bytes. `memcpy` between two arrays is
-- `splice`; a copy inside one array and the bytes of a fresh array are the C++ runtime's
-- (`Runtime`). A C++ pointer that may be null is an `Option`.
pub mod Space
pub mod Grow
pub mod Contents
pub mod Positions
use new_happy_server.Base.{
  ℕ, zero, ◌+◌, ◌-◌, ◌/◌, ◌^◌, ◌≤◌, ◌≡◌, ◌⊎◌, Bool, true, false, not, ◌||◌, Option, none, some,
  List, [], ◌∷◌, length, take, replicate, ltb, leb, ◌==◌, if◌then◌else◌, bit_and, bit_or,
}
use new_happy_server.Base.Words.{add_size, sub_size, sign_extend}
use new_happy_server.Base.Slices.{slice, splice}

-- `new char[n]`, and `memcpy(a + dst, a + src, n)` inside one array, whose result is known only
-- where the two ranges do not overlap.
pub record Runtime : Type 0 where
  pub new_chars : ℕ → List ℕ
  pub memcpy_within : List ℕ → ℕ → ℕ → ℕ → List ℕ
  pub length-new_chars : (n : ℕ) → length (new_chars n) ≡ n
  pub memcpy_disjoint :
      (a : List ℕ) (dst src n : ℕ)
      → src + n ≤ length a
      → dst + n ≤ length a
      → (dst + n ≤ src) ⊎ (src + n ≤ dst)
      → memcpy_within a dst src n ≡ splice a dst (slice src (src + n) a)

pub record Buffer : Type 0 where
  pub flag : ℕ
  pub headreserved : ℕ
  pub capacity : ℕ
  pub readpos : ℕ
  pub writepos : ℕ
  pub heap_data : Option (List ℕ)
  pub stack_data : List ℕ

-- 256 - 4 * sizeof(size_t) - sizeof(std::unique_ptr<char[]>)
abbrev pub stack_capacity : ℕ
stack_capacity = 216

abbrev pub data_ : Buffer → List ℕ
data_ b = elim b.heap_data [ none ↦ b.stack_data | some bytes ↦ bytes ]

-- A write through the pointer that `data_` returns.
abbrev pub put_data : Buffer → List ℕ → Buffer
put_data b bytes = elim b.heap_data [
  | none ↦ record b { stack_data = bytes }
  | some old ↦ record b { heap_data = some bytes }
]

-- Readable bytes.
abbrev pub size : Buffer → ℕ
size b = sub_size b.writepos b.readpos

abbrev pub max_size : Buffer → ℕ
max_size b = b.capacity

abbrev pub writeablesize : Buffer → ℕ
writeablesize b = sub_size b.capacity b.writepos

-- `x |= x >> k`
abbrev pub smear : ℕ → ℕ → ℕ
smear x k = bit_or x (x / 2 ^ k)

unfoldable pub next_pow2 : ℕ → ℕ
next_pow2 x =
    if bit_and x (sub_size x 1) == 0
    then x
    else add_size (smear (smear (smear (smear (smear x 1) 2) 4) 8) 16) 1

unfoldable pub grow : Runtime → ℕ → Buffer → Buffer
grow rt required b = elim b.heap_data [
  | none ↦ record b {
    heap_data = some (splice (rt.new_chars required) 0 (take b.writepos b.stack_data));
    capacity = required;
  }
  | some old ↦ record b {
    heap_data = some (splice (rt.new_chars required) 0 (take b.writepos old));
    capacity = required;
  }
]

unfoldable pub compact : Runtime → Buffer → Buffer
compact rt b =
    let readable = size b in
    let moved =
      if readable == 0
      then b
      else put_data b (rt.memcpy_within (data_ b) b.headreserved b.readpos readable) in
    record moved { readpos = b.headreserved; writepos = add_size b.headreserved readable }

unfoldable pub check_space : Runtime → ℕ → Buffer → Buffer
check_space rt need b =
    if leb need (writeablesize b)
    then b
    else (if ltb (add_size (writeablesize b) b.readpos) (add_size need b.headreserved)
        then grow rt (next_pow2 (add_size b.writepos need)) b
        else compact rt b)

-- The constructor.
unfoldable pub create : Runtime → ℕ → ℕ → Buffer
create rt capacity headreserved =
    let b : Buffer = record {
      flag = 0;
      headreserved = headreserved;
      capacity = stack_capacity;
      readpos = headreserved;
      writepos = headreserved;
      heap_data = none;
      stack_data = replicate stack_capacity 0;
    } in
    if ltb stack_capacity (add_size capacity headreserved) then check_space rt capacity b else b

unfoldable pub init : Runtime → ℕ → ℕ → Buffer → Buffer
init rt capacity head b =
    let b' =
      check_space rt capacity (record b { readpos = head; writepos = head; headreserved = head }) in
    record b' { flag = 0 }

unfoldable pub append_bytes : Runtime → List ℕ → Buffer → Buffer
append_bytes rt bytes b =
    let b' = check_space rt (length bytes) b in
    record (put_data b' (splice (data_ b') b'.writepos bytes)) {
      writepos = add_size b'.writepos (length bytes);
    }

-- The argument is the bytes of the `count` objects at `Indata`, or `none` for a null pointer.
unfoldable pub write_back : Runtime → Option (List ℕ) → Buffer → Buffer
unfolding append_bytes
write_back rt none b = b
write_back rt (some []) b = b
write_back rt (some (x ∷ xs)) b = append_bytes rt (x ∷ xs) b

unfoldable pub prepend_bytes : List ℕ → Buffer → Buffer × Bool
prepend_bytes bytes b =
    if ltb b.readpos (length bytes)
    then (b, false)
    else (let start = sub_size b.readpos (length bytes) in
        (record (put_data b (splice (data_ b) start bytes)) { readpos = start }, true))

unfoldable pub write_front : Option (List ℕ) → Buffer → Buffer × Bool
unfolding prepend_bytes
write_front none b = (b, false)
write_front (some []) b = (b, false)
write_front (some (x ∷ xs)) b = prepend_bytes (x ∷ xs) b

-- `n` is `sizeof(T) * count`; the bytes are those copied to `Outdata`, `none` if it returns false.
unfoldable pub read : Bool → ℕ → Buffer → Buffer × Option (List ℕ)
read out_is_null n b =
    if out_is_null || n == 0
    then (b, none)
    else (if ltb b.writepos (add_size b.readpos n) then (b, none) else (
      record b { readpos = add_size b.readpos n },
      some (slice b.readpos (b.readpos + n) (data_ b)),
    ))

pub data SeekOrigin : Type 0 where
  begin current end : SeekOrigin

-- `offset` is the bit pattern of an `int`. The result is the new read position.
unfoldable pub seek : ℕ → SeekOrigin → Buffer → Buffer × ℕ
seek offset begin b = let pos = sign_extend offset in (record b { readpos = pos }, pos)
seek offset current b =
    let moved = add_size b.readpos (sign_extend offset) in
    let pos = if ltb b.writepos moved then b.writepos else moved in
    (record b { readpos = pos }, pos)
seek offset end b =
    let moved = add_size b.writepos (sign_extend offset) in
    let pos = if leb b.writepos moved then b.writepos else moved in
    (record b { readpos = pos }, pos)

unfoldable pub clear : Buffer → Buffer
clear b = record b { readpos = b.headreserved; writepos = b.headreserved; flag = 0 }

-- A flag is a `uint32_t`.
unfoldable pub set_flag : ℕ → Buffer → Buffer
set_flag v b = record b { flag = bit_or b.flag v }

unfoldable pub has_flag : ℕ → Buffer → Bool
has_flag v b = not (bit_and b.flag v == 0)

unfoldable pub clear_flag : ℕ → Buffer → Buffer
clear_flag v b = record b { flag = bit_and b.flag (2 ^ 32 - 1 - v) }

unfoldable pub offset_writepos : ℕ → Buffer → Buffer
offset_writepos offset b =
    let moved = add_size b.writepos (sign_extend offset) in
    record b { writepos = if leb b.capacity moved then b.capacity else moved }

-- What a reader of the buffer sees: the bytes between `begin()` and `end()`.
abbrev pub contents : Buffer → List ℕ
contents b = slice b.readpos b.writepos (data_ b)

-- The positions are in order and inside the array, and no sum of sizes wraps.
pub record IsValid (b : Buffer) : Type 0 where
  pub storage : length (data_ b) ≡ b.capacity
  pub read_le_write : b.readpos ≤ b.writepos
  pub write_le_capacity : b.writepos ≤ b.capacity
  pub head_le_capacity : b.headreserved ≤ b.capacity
  pub small : b.capacity ≤ 2 ^ 63
