-- ===== src/Message/Flags.antt =====
-- common/message.hpp: the broadcast flag and `reset`.
use new_happy_server.Base.{
  ℕ, ◌-◌, ◌*◌, ◌/◌, ◌%◌, ◌^◌, ◌≡◌, refl, Bool, true, false, some, arith, bit_and, bit_or, ◌==◌,
}
use new_happy_server.Base.Bits.{bit_or_halves, bit_and_halves, no_mask}
use new_happy_server.Buffer.{Buffer, set_flag, clear_flag, has_flag}
use new_happy_server.Message.{BufferMessage, is_broadcast, set_broadcast, header, message_bytes}

-- The fourth bit alone.
bit_and_eight : (x : ℕ) → bit_and x 8 ≡ x / 8 % 2 * 8
bit_and_eight x = omega (
  arith,
  bit_and_halves x 8,
  bit_and_halves (x / 2) 4,
  bit_and_halves (x / 2 / 2) 2,
  bit_and_halves (x / 2 / 2 / 2) 1,
  no_mask (x / 2 / 2 / 2 / 2) (x / 2 / 2 / 2 / 2) (omega arith),
)

bit_or_eight : (x : ℕ) → bit_or x 8 / 8 % 2 ≡ 1
bit_or_eight x = omega (
  arith,
  bit_or_halves x 8,
  bit_or_halves (x / 2) 4,
  bit_or_halves (x / 2 / 2) 2,
  bit_or_halves (x / 2 / 2 / 2) 1,
)

bit_and_others : (x : ℕ) → bit_and x (2 ^ 32 - 1 - 8) / 8 % 2 ≡ 0
bit_and_others x = omega (
  arith,
  bit_and_halves x 4294967287,
  bit_and_halves (x / 2) 2147483643,
  bit_and_halves (x / 2 / 2) 1073741821,
  bit_and_halves (x / 2 / 2 / 2) 536870910,
)

-- For a message that has a buffer: `broadcast` gives what `set_broadcast` was given, whatever flags the
-- buffer had, and the bytes and the header stay.
pub broadcast-set_broadcast :
    (v : Bool) (m : BufferMessage) (b : Buffer)
    → m.data_ ≡ some b
    → (is_broadcast (set_broadcast v m) ≡ v)
      × (message_bytes (set_broadcast v m) ≡ message_bytes m)
      × (header (set_broadcast v m) ≡ header m)
unfolding is_broadcast set_broadcast has_flag set_flag clear_flag
broadcast-set_broadcast true m b stored =
    let set : (bit_and (bit_or b.flag 8) 8 == 0) ≡ false =
      ground (arith, bit_and_eight (bit_or b.flag 8), bit_or_eight b.flag) in
    (rw stored (rw set refl), rw stored refl, rw stored refl)
broadcast-set_broadcast false m b stored =
    let unset : (bit_and (bit_and b.flag (2 ^ 32 - 1 - 8)) 8 == 0) ≡ true =
      ground (arith, bit_and_eight (bit_and b.flag (2 ^ 32 - 1 - 8)), bit_and_others b.flag) in
    (rw stored (rw unset refl), rw stored refl, rw stored refl)
