-- ===== src/Beacon/SlotInfo/RoundTrip.antt =====
-- Writing and reading `GuaranteedTimeSlotInformation` of src/mac/beacon.rs.
use mathlib.Core.Path.{subst}
use native.Mathlib.Nat.{pow-le-pow_right}
use rust_ieee.Base.{
  ℕ, suc, ◌+◌, ◌*◌, ◌%◌, ◌^◌, ◌<◌, ◌≤◌, ◌≡◌, refl, ap, arith, List, [], ◌∷◌, ◌++◌, bit_and, length,
  length-append, drop, All, ltb, ◌==◌, if◌then◌else◌, lt→ltb, le→leb,
}
use rust_ieee.Base.Bits.{low_field}
use rust_ieee.Base.Flags.{flag_bit, flag_bit-lt, or_flag, test_flag}
use rust_ieee.Outcome.{ok, skip, ◌⨾◌}
use rust_ieee.ByteLib.{ByteLib, Width}
use rust_ieee.ByteLib.Laws.{
  write_int, Reads, Reads-bind, Reads-check_rest, Reads-map, Reads-pure, Reads-read, Reads-start,
  Reads-u8, Writes, Writes-skip, Writes-then, Writes-u8, Writes-write, Encodes-start,
}
use rust_ieee.ByteLib.Loops.{write_many, write_many-Writes, encode_many, length-encode_many}
use rust_ieee.Beacon.Slot
use rust_ieee.Beacon.Slot.{GuaranteedTimeSlotDescriptor, IsSlot}
use rust_ieee.Beacon.SlotInfo.Mask.{
  direction_mask, bits, direction_mask-bits, bits-lt, bits-half, direction_of-bits,
}
use rust_ieee.Beacon.SlotInfo.{
  GuaranteedTimeSlotInformation, used_slots, empty_slots, count_mask, permit_mask, of_parts,
  header_byte, write_slot, write_fields, try_write, read_slots, read_used, read_fields, try_read,
}

-- There are at most seven slots, which fit their fields, and the others are empty.
pub record IsInfo (g : GuaranteedTimeSlotInformation) : Type 0 where
  pub count_fits : g.slot_count ≤ 7
  pub all_used : length (used_slots g) ≡ g.slot_count
  pub slots_fit : All IsSlot (used_slots g)
  pub others_empty : g.slots ≡ used_slots g ++ drop g.slot_count empty_slots

abbrev pub header_sum : GuaranteedTimeSlotInformation → ℕ
header_sum g = g.slot_count + 128 * flag_bit g.permit

abbrev pub used_encoding : List GuaranteedTimeSlotDescriptor → List ℕ
used_encoding [] = []
used_encoding (s ∷ slots) = bits (s ∷ slots) ∷ encode_many Slot.encoding (s ∷ slots)

abbrev pub encoding : GuaranteedTimeSlotInformation → List ℕ
encoding g = header_sum g ∷ used_encoding (used_slots g)

header_byte-sum : (g : GuaranteedTimeSlotInformation) → IsInfo g → header_byte g ≡ header_sum g
unfolding header_byte
header_byte-sum g v =
    rw
      (
        low_field 3 (g.slot_count % 2 ^ 8),
        low g v,
        or_flag 7 g.slot_count g.permit (omega (arith, v.count_fits)),
      )
      (omega arith)
  where
    low :
        (g : GuaranteedTimeSlotInformation) → IsInfo g → g.slot_count % 2 ^ 8 % 2 ^ 3 ≡ g.slot_count
    low g v = omega (arith, v.count_fits)

pub count-sum :
    (g : GuaranteedTimeSlotInformation)
    → IsInfo g
    → bit_and (header_sum g) count_mask ≡ g.slot_count
count-sum g v = ground (arith, low_field 3 (header_sum g), v.count_fits)

permit-sum :
    (g : GuaranteedTimeSlotInformation)
    → IsInfo g
    → (bit_and (header_sum g) permit_mask == permit_mask) ≡ g.permit
permit-sum g v =
    test_flag 7 (header_sum g) g.permit (omega (arith, v.count_fits, flag_bit-lt g.permit))

of_parts-sum :
    (g : GuaranteedTimeSlotInformation) → IsInfo g → of_parts (header_sum g) (used_slots g) ≡ g
unfolding of_parts
of_parts-sum g v = rw (count-sum g v, permit-sum g v, ← v.others_empty) refl

pub header_sum-lt : (g : GuaranteedTimeSlotInformation) → IsInfo g → header_sum g < 256
header_sum-lt g v = omega (arith, v.count_fits, flag_bit-lt g.permit)

bits-fit : (slots : List GuaranteedTimeSlotDescriptor) → length slots ≤ 7 → bits slots < 256
bits-fit slots h =
    omega
      (arith, bits-lt slots, pow-le-pow_right {n = 2} (omega arith) {i = length slots} {j = 7} h)

-- Reading asks for one octet more than the slots take.
abbrev pub HasSpare : List GuaranteedTimeSlotDescriptor → List ℕ → Type 0
HasSpare [] rest = Unit
HasSpare (s ∷ slots) rest = 1 ≤ length rest

used_length :
    (s : GuaranteedTimeSlotDescriptor) (slots : List GuaranteedTimeSlotDescriptor) (rest : List ℕ)
    → 1 ≤ length rest
    → 2 + 3 * length (s ∷ slots) ≤ length (used_encoding (s ∷ slots) ++ rest)
used_length s slots rest spare = omega (
  arith,
  length-append (encode_many Slot.encoding (s ∷ slots)) rest,
  length-encode_many Slot.encoding (s ∷ slots) 3 Slot.length-encoding,
)

module _ ⦃b : ByteLib⦄ where
  write_used-Writes :
      (n : ℕ) (used : List GuaranteedTimeSlotDescriptor)
      → length used ≡ n
      → n ≤ 7
      → All IsSlot used
      → Writes
          (if ltb 0 n
            then write_int Width.u8 b.native (direction_mask used 1 0) ⨾ write_many write_slot used
            else skip)
          b.incomplete
          (used_encoding used)
  write_used-Writes n [] e few good = rw (← e) Writes-skip
  write_used-Writes n (s ∷ slots) e few good =
      rw
        (
          ← e,
          lt→ltb 0 (length (s ∷ slots)) (omega arith),
          direction_mask-bits (s ∷ slots) (omega arith),
        )
        (Writes-then (Writes-u8 b.native (bits (s ∷ slots)) (bits-fit (s ∷ slots) (omega arith)))
          (write_many-Writes Slot.encoding IsSlot (s ∷ slots) Slot.write-Writes good))

  pub write-Writes :
      (g : GuaranteedTimeSlotInformation)
      → IsInfo g
      → Writes (b.write_with (try_write g)) b.incomplete (encoding g)
  unfolding try_write write_fields
  write-Writes g v = Writes-write (
      Encodes-start {w = write_fields g} (
        rw (le→leb g.slot_count 7 v.count_fits, header_byte-sum g v)
          (Writes-then (Writes-u8 b.native (header_sum g) (header_sum-lt g v))
            (write_used-Writes g.slot_count (used_slots g) v.all_used v.count_fits v.slots_fit))))

  read_slots-Reads :
      (slots : List GuaranteedTimeSlotDescriptor) (rest : List ℕ)
      → All IsSlot slots
      → Reads (read_slots (length slots) (bits slots)) (encode_many Slot.encoding slots) rest slots
  unfolding read_slots
  read_slots-Reads [] rest good = Reads-pure [] rest
  read_slots-Reads (s ∷ slots) rest good =
      subst
        (λ t.
          Reads (read_slots (suc (length slots)) (bits (s ∷ slots)))
            (encode_many Slot.encoding (s ∷ slots)) rest t)
        (ap (λ d. Slot.set_direction s d ∷ slots) (direction_of-bits s slots))
        (Reads-bind _ (Slot.read-Reads s _ good.0)
          (Reads-map _ (rw (bits-half s slots) (read_slots-Reads slots rest good.1))))

  read_used-Reads :
      (used : List GuaranteedTimeSlotDescriptor) (rest : List ℕ)
      → length used ≤ 7
      → All IsSlot used
      → HasSpare used rest
      → Reads (read_used (length used)) (used_encoding used) rest used
  unfolding read_used
  read_used-Reads [] rest few good spare = Reads-pure [] rest
  read_used-Reads (s ∷ slots) rest few good spare =
      Reads-bind _ {first = []}
        (Reads-check_rest (2 + 3 * length (s ∷ slots)) (used_encoding (s ∷ slots) ++ rest)
          (used_length s slots rest spare))
        (Reads-bind _ (Reads-u8 b.native (bits (s ∷ slots)) _ (bits-fit (s ∷ slots) few))
          (read_slots-Reads (s ∷ slots) rest good))

  read_counted :
      (n : ℕ) (used : List GuaranteedTimeSlotDescriptor) (rest : List ℕ)
      → length used ≡ n
      → n ≤ 7
      → All IsSlot used
      → HasSpare used rest
      → Reads (read_used n) (used_encoding used) rest used
  read_counted n used rest e few good spare =
      rw (← e) (read_used-Reads used rest (omega arith) good spare)

  read_fields-Reads :
      (g : GuaranteedTimeSlotInformation) (rest : List ℕ)
      → IsInfo g
      → HasSpare (used_slots g) rest
      → Reads read_fields (encoding g) rest (of_parts (header_sum g) (used_slots g))
  unfolding read_fields
  read_fields-Reads g rest v spare =
      Reads-bind _ (Reads-u8 b.native (header_sum g) _ (header_sum-lt g v)) (
        Reads-map _ (
          rw (count-sum g v) (
            read_counted g.slot_count (used_slots g) rest v.all_used v.count_fits v.slots_fit
              spare)))

  -- Slots in the range of their fields, at most seven of them, are read back from their encoding,
  -- flag included, where at least one octet stands behind it if there is a slot.
  pub slots_round_trip :
      (g : GuaranteedTimeSlotInformation) (rest : List ℕ)
      → IsInfo g
      → HasSpare (used_slots g) rest
      → try_read (encoding g ++ rest) ≡ ok (g, length (encoding g))
  unfolding try_read
  slots_round_trip g rest v spare = Reads-start (
      subst (λ t. Reads read_fields (encoding g) rest t) (of_parts-sum g v)
        (read_fields-Reads g rest v spare))

  pub read-Reads :
      (g : GuaranteedTimeSlotInformation) (rest : List ℕ)
      → IsInfo g
      → HasSpare (used_slots g) rest
      → Reads (b.read_with try_read) (encoding g) rest g
  read-Reads g rest v spare = Reads-read (slots_round_trip g rest v spare)
