-- ===== src/Command/Slots.antt =====
-- `GuaranteedTimeSlotCharacteristics` of src/mac/command.rs.
use rust_ieee.Base.{ℕ, ◌+◌, ◌*◌, ◌/◌, ◌%◌, ◌^◌, ◌<◌, ◌≡◌, refl, arith, Bool, bit_and, ◌==◌, ==_iff}
use rust_ieee.Base.Bits.{bit_or_above, bit_set, low_field, all_below, all_below_sound}
use rust_ieee.Base.Flags.{flag_bit, flag_bit-lt}
use rust_ieee.Command.Capability.{has, set_if}

pub record GuaranteedTimeSlotCharacteristics : Type 0 where
  pub count : ℕ
  pub receive_only : Bool
  pub allocation : Bool

abbrev pub gtsc_receive_only : ℕ
gtsc_receive_only = 0x10

abbrev pub gtsc_allocation : ℕ
gtsc_allocation = 0x20

-- `From<u8>`.
unfoldable pub of_byte : ℕ → GuaranteedTimeSlotCharacteristics
of_byte byte = record {
  count = bit_and byte 0x0f;
  receive_only = has byte gtsc_receive_only;
  allocation = has byte gtsc_allocation;
}

-- `From<GuaranteedTimeSlotCharacteristics> for u8`.
unfoldable pub to_byte : GuaranteedTimeSlotCharacteristics → ℕ
to_byte g =
    set_if g.allocation gtsc_allocation
      (set_if g.receive_only gtsc_receive_only (bit_and g.count 0x0f))

-- The count in bits 0 to 3, the flags in bits 4 and 5.
pub to_byte-sum :
    (g : GuaranteedTimeSlotCharacteristics)
    → to_byte g ≡ g.count % 16 + 16 * flag_bit g.receive_only + 32 * flag_bit g.allocation
unfolding to_byte
to_byte-sum g = ground (
  arith,
  low_field 4 g.count,
  bit_or_above 4 (g.count % 16) 1,
  bit_or_above 5 (g.count % 16) 1,
  bit_or_above 5 (g.count % 16 + 16) 1,
)

pub to_byte-lt : (g : GuaranteedTimeSlotCharacteristics) → to_byte g < 256
to_byte-lt g = ground (arith, to_byte-sum g)

has_receive_only : (x : ℕ) (b : Bool) → x / 16 % 2 ≡ flag_bit b → has x gtsc_receive_only ≡ b
has_receive_only x b h = ground (arith, bit_set 4 x)

has_allocation : (x : ℕ) (b : Bool) → x / 32 % 2 ≡ flag_bit b → has x gtsc_allocation ≡ b
has_allocation x b h = ground (arith, bit_set 5 x)

low_count : (g : GuaranteedTimeSlotCharacteristics) → to_byte g % 2 ^ 4 ≡ g.count % 16
low_count g = omega (arith, to_byte-sum g)

-- The flags survive the octet, and so does the count but for its multiples of 16.
pub characteristics_round_trip :
    (g : GuaranteedTimeSlotCharacteristics)
    → of_byte (to_byte g) ≡ record g { count = g.count % 16 }
unfolding of_byte
characteristics_round_trip g =
    let r = flag_bit-lt g.receive_only in
    let a = flag_bit-lt g.allocation in
    rw (
      low_field 4 (to_byte g),
      has_receive_only (to_byte g) g.receive_only (omega (arith, to_byte-sum g)),
      has_allocation (to_byte g) g.allocation (omega (arith, to_byte-sum g)),
      low_count g,
    )

-- An octet is restored but for its two reserved high bits.
pub to_byte-of_byte : (x : ℕ) → x < 256 → to_byte (of_byte x) ≡ bit_and x 0x3f
unfolding of_byte to_byte
to_byte-of_byte x h = (==_iff _ _).0 (
    all_below_sound 256 (λ y. to_byte (of_byte y) == bit_and y 0x3f) x (unfold all_below in refl) h)
