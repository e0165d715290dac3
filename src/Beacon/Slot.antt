-- ===== src/Beacon/Slot.antt =====
-- `Direction` and `GuaranteedTimeSlotDescriptor` of src/mac/beacon.rs.
use rust_ieee.Base.{
  ℕ, ◌+◌, ◌*◌, ◌/◌, ◌%◌, ◌^◌, ◌<◌, ◌≡◌, arith, Bool, true, false, List, [], ◌∷◌, ◌++◌, bit_and,
  bit_or, length, length-append,
}
use mathlib.Core.Path.{subst}
use rust_ieee.Base.Bits.{◌<<◌, ◌>>◌, bit_or_above, low_field}
use rust_ieee.Base.Octets.{Endian, length-octets}
use rust_ieee.Outcome.{Outcome, Reader, ◌>>=◌, ◌⨾◌, pure, from_zero}
use rust_ieee.ByteLib.{ByteLib, Width}
use rust_ieee.ByteLib.Laws.{
  read_int, write_int, check_rest, Reads, Reads-bind, Reads-check_rest, Reads-map, Reads-read,
  Reads-start, Reads-u8, Writes, Writes-then, Writes-u8, Writes-write, Encodes-start,
}
use rust_ieee.ByteLib.Bounds.{
  Bounded, Bounded-bind, Bounded-check_rest, Bounded-int, Bounded-pure, Bounded-read, Total-start,
}
use rust_ieee.Address.ShortAddress
use rust_ieee.Address.ShortAddress.{ShortAddress}

pub data Direction : Type 0 where
  receive transmit : Direction

-- `length` of the source is `slot_length` here.
pub record GuaranteedTimeSlotDescriptor : Type 0 where
  pub short_address : ShortAddress
  pub starting_slot : ℕ
  pub slot_length : ℕ
  pub direction : Direction

-- `GuaranteedTimeSlotDescriptor::new`.
abbrev pub new : GuaranteedTimeSlotDescriptor
new = record {
  short_address = ShortAddress.broadcast;
  starting_slot = 0;
  slot_length = 0;
  direction = Direction.receive;
}

abbrev pub set_direction : GuaranteedTimeSlotDescriptor → Direction → GuaranteedTimeSlotDescriptor
set_direction s d = record s { direction = d }

abbrev pub is_transmit : Direction → Bool
is_transmit Direction.receive = false
is_transmit Direction.transmit = true

abbrev pub direction_transmit : GuaranteedTimeSlotDescriptor → Bool
direction_transmit s = is_transmit s.direction

-- The numbers fit their fields.
pub record IsSlot (s : GuaranteedTimeSlotDescriptor) : Type 0 where
  pub address_fits : ShortAddress.IsWord s.short_address
  pub start_fits : s.starting_slot < 16
  pub length_fits : s.slot_length < 16

abbrev byte_sum : GuaranteedTimeSlotDescriptor → ℕ
byte_sum s = s.starting_slot + 16 * s.slot_length

-- The octets on the air, which leave the direction out.
abbrev pub encoding : GuaranteedTimeSlotDescriptor → List ℕ
encoding s = ShortAddress.encoding s.short_address ++ (byte_sum s ∷ [])

pub length-encoding : (s : GuaranteedTimeSlotDescriptor) → length (encoding s) ≡ 3
length-encoding s = omega (
  arith,
  length-append (ShortAddress.encoding s.short_address) (byte_sum s ∷ []),
  length-octets Endian.little 2 s.short_address.value,
)

unfoldable pub of_parts : ShortAddress → ℕ → GuaranteedTimeSlotDescriptor
of_parts address byte = record {
  short_address = address;
  starting_slot = bit_and byte 0x0f;
  slot_length = byte >> 4;
  direction = Direction.receive;
}

low_part : (s : GuaranteedTimeSlotDescriptor) → IsSlot s → byte_sum s % 2 ^ 4 ≡ s.starting_slot
low_part s v = omega (arith, v.start_fits)

high_part : (s : GuaranteedTimeSlotDescriptor) → IsSlot s → byte_sum s / 2 ^ 4 ≡ s.slot_length
high_part s v = omega (arith, v.start_fits)

of_parts-sum :
    (s : GuaranteedTimeSlotDescriptor)
    → IsSlot s
    → of_parts s.short_address (byte_sum s) ≡ set_direction s Direction.receive
unfolding of_parts
of_parts-sum s v = rw (low_field 4 (byte_sum s), low_part s v, high_part s v)

module _ ⦃b : ByteLib⦄ where
  unfoldable pub read_fields : Reader b.Error GuaranteedTimeSlotDescriptor
  read_fields = do
    enough ← check_rest 3
    address ← b.read_with ShortAddress.try_read
    byte ← read_int Width.u8 b.native
    pure (of_parts address byte)

  unfoldable pub try_read : List ℕ → Outcome b.Error (GuaranteedTimeSlotDescriptor × ℕ)
  unfolding read_fields
  try_read = from_zero read_fields

  abbrev pub slot_byte : GuaranteedTimeSlotDescriptor → ℕ
  slot_byte s = bit_or s.starting_slot (s.slot_length << 4 % 2 ^ 8)

  unfoldable pub try_write : GuaranteedTimeSlotDescriptor → List ℕ → Outcome b.Error (List ℕ × ℕ)
  try_write s = from_zero (
      b.write_with (ShortAddress.try_write s.short_address)
      ⨾ write_int Width.u8 b.native (slot_byte s))

  slot_byte-sum : (s : GuaranteedTimeSlotDescriptor) → IsSlot s → slot_byte s ≡ byte_sum s
  slot_byte-sum s v =
      ground (arith, v.start_fits, v.length_fits, bit_or_above 4 s.starting_slot s.slot_length)

  byte_sum-lt : (s : GuaranteedTimeSlotDescriptor) → IsSlot s → byte_sum s < 256
  byte_sum-lt s v = omega (arith, v.start_fits, v.length_fits)

  write_byte-Writes :
      (s : GuaranteedTimeSlotDescriptor)
      → IsSlot s
      → Writes (write_int Width.u8 b.native (slot_byte s)) b.incomplete (byte_sum s ∷ [])
  write_byte-Writes s v = rw (slot_byte-sum s v) (Writes-u8 b.native (byte_sum s) (byte_sum-lt s v))

  pub write-Writes :
      (s : GuaranteedTimeSlotDescriptor)
      → IsSlot s
      → Writes (b.write_with (try_write s)) b.incomplete (encoding s)
  unfolding try_write
  write-Writes s v = Writes-write (
      Encodes-start
        (Writes-then (ShortAddress.write-Writes s.short_address) (write_byte-Writes s v)))

  read_fields-Reads :
      (s : GuaranteedTimeSlotDescriptor) (rest : List ℕ)
      → IsSlot s
      → Reads read_fields (encoding s) rest (of_parts s.short_address (byte_sum s))
  unfolding read_fields
  read_fields-Reads s rest v =
      Reads-bind _ {first = []} (Reads-check_rest 3 (encoding s ++ rest) (omega arith)) (
        Reads-bind _ (ShortAddress.read-Reads s.short_address _ v.address_fits) (
          Reads-map (of_parts s.short_address)
            (Reads-u8 b.native (byte_sum s) rest (byte_sum-lt s v))))

  -- The slot is read back, with the direction left for the caller to set.
  pub read-Reads :
      (s : GuaranteedTimeSlotDescriptor) (rest : List ℕ)
      → IsSlot s
      → Reads (b.read_with try_read) (encoding s) rest (set_direction s Direction.receive)
  unfolding try_read
  read-Reads s rest v = Reads-read (
      Reads-start (
        subst (λ t. Reads read_fields (encoding s) rest t) (of_parts-sum s v)
          (read_fields-Reads s rest v)))

  pub read-Bounded : Bounded (b.read_with try_read)
  unfolding try_read read_fields
  read-Bounded = Bounded-read (
      Total-start (
        Bounded-bind _ (Bounded-check_rest 3) (λ enough.
          Bounded-bind _ ShortAddress.read-Bounded
            (λ a. Bounded-bind _ (Bounded-int Width.u8 b.native) (λ y. Bounded-pure _)))))
