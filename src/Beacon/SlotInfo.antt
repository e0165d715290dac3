-- ===== src/Beacon/SlotInfo.antt =====
-- `GuaranteedTimeSlotInformation` of src/mac/beacon.rs. The array of seven slots is a list.
mod Mask
pub mod RoundTrip
pub mod Spare
pub use Mask.{direction_mask, direction_of, bits, direction_mask-bits, bits-lt}
use rust_ieee.Base.{
  ℕ, zero, suc, ◌+◌, ◌*◌, ◌/◌, ◌%◌, ◌^◌, Bool, true, false, ◌≡◌, List, [], ◌∷◌, ◌++◌, bit_and,
  bit_or, length, take, drop, replicate, ltb, leb, ◌==◌, if◌then◌else◌,
}
use rust_ieee.Base.Bits.{◌>>◌}
use rust_ieee.Outcome.{Outcome, panic, Reader, Writer, ◌>>=◌, ◌⨾◌, pure, skip, from_zero}
use rust_ieee.ByteLib.{ByteLib, Width}
use rust_ieee.ByteLib.Laws.{read_int, write_int, check_rest}
use rust_ieee.ByteLib.Bounds.{
  Bounded, Bounded-bind, Bounded-check_rest, Bounded-int, Bounded-pure, Bounded-read, Total-start,
}
use rust_ieee.ByteLib.Loops.{write_many}
use rust_ieee.Beacon.Slot
use rust_ieee.Beacon.Slot.{GuaranteedTimeSlotDescriptor}

pub record GuaranteedTimeSlotInformation : Type 0 where
  pub permit : Bool
  pub slot_count : ℕ
  pub slots : List GuaranteedTimeSlotDescriptor

abbrev pub empty_slots : List GuaranteedTimeSlotDescriptor
empty_slots = replicate 7 Slot.new

-- `GuaranteedTimeSlotInformation::new`.
abbrev pub new : GuaranteedTimeSlotInformation
new = record { permit = false; slot_count = 0; slots = empty_slots }

-- The method `slots`.
abbrev pub used_slots : GuaranteedTimeSlotInformation → List GuaranteedTimeSlotDescriptor
used_slots g = take g.slot_count g.slots

abbrev pub count_mask : ℕ
count_mask = 0x07

abbrev pub permit_mask : ℕ
permit_mask = 0x80

-- `((self.slot_count as u8) & COUNT_MASK) | permit`.
unfoldable pub header_byte : GuaranteedTimeSlotInformation → ℕ
header_byte g =
    bit_or (bit_and (g.slot_count % 2 ^ 8) count_mask) (if g.permit then permit_mask else 0)

-- What `try_read` returns: the slots that it read stand in front in the array of empty ones.
unfoldable pub of_parts : ℕ → List GuaranteedTimeSlotDescriptor → GuaranteedTimeSlotInformation
of_parts byte used = record {
  permit = bit_and byte permit_mask == permit_mask;
  slot_count = bit_and byte count_mask;
  slots = used ++ drop (bit_and byte count_mask) empty_slots;
}

module _ ⦃b : ByteLib⦄ where
  abbrev pub write_slot : GuaranteedTimeSlotDescriptor → Writer b.Error
  write_slot s = b.write_with (Slot.try_write s)

  abbrev pub write_slots : GuaranteedTimeSlotInformation → Writer b.Error
  write_slots g =
      if ltb 0 g.slot_count
      then write_int Width.u8 b.native (direction_mask (used_slots g) 1 0)
        ⨾ write_many write_slot (used_slots g)
      else skip

  abbrev pub write_panic : Writer b.Error
  write_panic bytes offset = panic

  -- `assert!(self.slot_count <= 7)` comes first.
  unfoldable pub write_fields : GuaranteedTimeSlotInformation → Writer b.Error
  write_fields g =
      if leb g.slot_count 7
      then write_int Width.u8 b.native (header_byte g) ⨾ write_slots g
      else write_panic

  unfoldable pub try_write : GuaranteedTimeSlotInformation → List ℕ → Outcome b.Error (List ℕ × ℕ)
  unfolding write_fields
  try_write g = from_zero (write_fields g)

  -- The loop of `try_read` over `n` slots, with the direction mask as it is shifted.
  unfoldable pub read_slots : ℕ → ℕ → Reader b.Error (List GuaranteedTimeSlotDescriptor)
  read_slots zero mask = pure []
  read_slots (suc n) mask = do
    slot ← b.read_with Slot.try_read
    others ← read_slots n (mask >> 1)
    pure (Slot.set_direction slot (direction_of mask) ∷ others)

  unfoldable pub read_used : ℕ → Reader b.Error (List GuaranteedTimeSlotDescriptor)
  unfolding read_slots
  read_used zero = pure []
  read_used (suc n) = do
    enough ← check_rest (2 + 3 * suc n)
    mask ← read_int Width.u8 b.native
    read_slots (suc n) mask

  unfoldable pub read_fields : Reader b.Error GuaranteedTimeSlotInformation
  unfolding read_used
  read_fields = do
    byte ← read_int Width.u8 b.native
    used ← read_used (bit_and byte count_mask)
    pure (of_parts byte used)

  unfoldable pub try_read : List ℕ → Outcome b.Error (GuaranteedTimeSlotInformation × ℕ)
  unfolding read_fields
  try_read = from_zero read_fields

  read_slots-Bounded : (n mask : ℕ) → Bounded (read_slots n mask)
  unfolding read_slots
  read_slots-Bounded zero mask = Bounded-pure []
  read_slots-Bounded (suc n) mask =
      Bounded-bind _ Slot.read-Bounded
        (λ slot. Bounded-bind _ (read_slots-Bounded n (mask >> 1)) (λ others. Bounded-pure _))

  read_used-Bounded : (n : ℕ) → Bounded (read_used n)
  unfolding read_used
  read_used-Bounded zero = Bounded-pure []
  read_used-Bounded (suc n) =
      Bounded-bind _ (Bounded-check_rest (2 + 3 * suc n))
        (λ enough. Bounded-bind _ (Bounded-int Width.u8 b.native) (read_slots-Bounded (suc n)))

  pub read-Bounded : Bounded (b.read_with try_read)
  unfolding try_read
  read-Bounded = Bounded-read (
      Total-start (
        Bounded-bind _ (Bounded-int Width.u8 b.native) (λ byte.
          Bounded-bind _ (read_used-Bounded (bit_and byte count_mask)) (λ used. Bounded-pure _))))
