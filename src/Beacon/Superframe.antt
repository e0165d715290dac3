-- ===== src/Beacon/Superframe.antt =====
-- `SuperframeSpecification` of src/mac/beacon.rs.
use rust_ieee.Base.{
  ℕ, ◌+◌, ◌*◌, ◌/◌, ◌%◌, ◌^◌, ◌<◌, ◌≡◌, arith, Bool, List, [], ◌∷◌, ◌++◌, bit_and, bit_or, ◌==◌,
  if◌then◌else◌,
}
use rust_ieee.Base.Bits.{◌<<◌, ◌>>◌, bit_or_above, low_field}
use rust_ieee.Base.Flags.{flag_bit, flag_bit-lt, or_flag, test_flag}
use rust_ieee.Outcome.{Outcome, Reader, ◌>>=◌, ◌⨾◌, pure, from_zero}
use rust_ieee.ByteLib.{ByteLib, Width}
use rust_ieee.ByteLib.Laws.{
  read_int, write_int, check_rest, Reads, Reads-bind, Reads-check_rest, Reads-map, Reads-read,
  Reads-start, Reads-u8, Writes, Writes-then, Writes-u8, Writes-write, Encodes-start,
}
use rust_ieee.ByteLib.Bounds.{
  Bounded, Bounded-bind, Bounded-check_rest, Bounded-int, Bounded-pure, Bounded-read, Total-start,
}
use rust_ieee.Beacon.Order.{
  BeaconOrder, SuperframeOrder, beacon_of_byte, beacon_to_byte, superframe_of_byte,
  superframe_to_byte, IsBeaconOrder, IsSuperframeOrder, beacon_of_byte-to_byte,
  superframe_of_byte-to_byte, beacon_to_byte-lt, superframe_to_byte-lt,
}

pub record SuperframeSpecification : Type 0 where
  pub beacon_order : BeaconOrder
  pub superframe_order : SuperframeOrder
  pub final_cap_slot : ℕ
  pub battery_life_extension : Bool
  pub pan_coordinator : Bool
  pub association_permit : Bool

abbrev pub battery_life_extension_mask : ℕ
battery_life_extension_mask = 0x10

abbrev pub pan_coordinator_mask : ℕ
pan_coordinator_mask = 0x40

abbrev pub association_permit_mask : ℕ
association_permit_mask = 0x80

-- What the two octets say.
unfoldable pub of_bytes : ℕ → ℕ → SuperframeSpecification
of_bytes byte1 byte2 = record {
  beacon_order = beacon_of_byte (bit_and byte1 0x0f);
  superframe_order = superframe_of_byte (bit_and (byte1 >> 4) 0x0f);
  final_cap_slot = bit_and byte2 0x0f;
  battery_life_extension = bit_and byte2 battery_life_extension_mask == battery_life_extension_mask;
  pan_coordinator = bit_and byte2 pan_coordinator_mask == pan_coordinator_mask;
  association_permit = bit_and byte2 association_permit_mask == association_permit_mask;
}

unfoldable pub orders_byte : SuperframeSpecification → ℕ
orders_byte s =
    bit_or (bit_and (beacon_to_byte s.beacon_order) 0x0f)
      (superframe_to_byte s.superframe_order << 4 % 2 ^ 8)

unfoldable pub flags_byte : SuperframeSpecification → ℕ
flags_byte s =
    let ble = if s.battery_life_extension then battery_life_extension_mask else 0 in
    let pc = if s.pan_coordinator then pan_coordinator_mask else 0 in
    let ap = if s.association_permit then association_permit_mask else 0 in
    bit_or (bit_or (bit_or (bit_and s.final_cap_slot 0x0f) ble) pc) ap

-- The numbers fit their fields.
pub record IsSpecification (s : SuperframeSpecification) : Type 0 where
  pub beacon_fits : IsBeaconOrder s.beacon_order
  pub superframe_fits : IsSuperframeOrder s.superframe_order
  pub slot_fits : s.final_cap_slot < 16

abbrev orders_sum : SuperframeSpecification → ℕ
orders_sum s = beacon_to_byte s.beacon_order + 16 * superframe_to_byte s.superframe_order

abbrev flags_sum : SuperframeSpecification → ℕ
flags_sum s =
    s.final_cap_slot
    + 16 * flag_bit s.battery_life_extension
    + 64 * flag_bit s.pan_coordinator
    + 128 * flag_bit s.association_permit

abbrev pub encoding : SuperframeSpecification → List ℕ
encoding s = orders_sum s ∷ flags_sum s ∷ []

orders_byte-sum : (s : SuperframeSpecification) → IsSpecification s → orders_byte s ≡ orders_sum s
unfolding orders_byte
orders_byte-sum s v = ground (
  arith,
  beacon_to_byte-lt s.beacon_order v.beacon_fits,
  superframe_to_byte-lt s.superframe_order v.superframe_fits,
  low_field 4 (beacon_to_byte s.beacon_order),
  bit_or_above 4 (beacon_to_byte s.beacon_order) (superframe_to_byte s.superframe_order),
)

small_slot :
    (s : SuperframeSpecification) → IsSpecification s → s.final_cap_slot % 2 ^ 4 ≡ s.final_cap_slot
small_slot s v = omega (arith, v.slot_fits)

low_order :
    (s : SuperframeSpecification)
    → IsSpecification s
    → orders_sum s % 2 ^ 4 ≡ beacon_to_byte s.beacon_order
low_order s v = omega (arith, beacon_to_byte-lt s.beacon_order v.beacon_fits)

high_order :
    (s : SuperframeSpecification)
    → IsSpecification s
    → orders_sum s / 2 ^ 4 % 2 ^ 4 ≡ superframe_to_byte s.superframe_order
high_order s v = omega (
  arith,
  beacon_to_byte-lt s.beacon_order v.beacon_fits,
  superframe_to_byte-lt s.superframe_order v.superframe_fits,
)

low_slot :
    (s : SuperframeSpecification) → IsSpecification s → flags_sum s % 2 ^ 4 ≡ s.final_cap_slot
low_slot s v = omega (arith, v.slot_fits)

flags_byte-sum : (s : SuperframeSpecification) → IsSpecification s → flags_byte s ≡ flags_sum s
unfolding flags_byte
flags_byte-sum s v =
    let ble = flag_bit-lt s.battery_life_extension in
    let pc = flag_bit-lt s.pan_coordinator in
    let slot = v.slot_fits in
    rw
      (
        low_field 4 s.final_cap_slot,
        small_slot s v,
        or_flag 4 s.final_cap_slot s.battery_life_extension slot,
        or_flag 6 (s.final_cap_slot + flag_bit s.battery_life_extension * 2 ^ 4) s.pan_coordinator
            (omega arith),
        or_flag 7
            (s.final_cap_slot
              + flag_bit s.battery_life_extension * 2 ^ 4
              + flag_bit s.pan_coordinator * 2 ^ 6)
            s.association_permit (omega arith),
      )
      (omega arith)

-- The two octets of a specification whose numbers fit say what the specification says.
of_bytes-sums :
    (s : SuperframeSpecification) → IsSpecification s → of_bytes (orders_sum s) (flags_sum s) ≡ s
unfolding of_bytes
of_bytes-sums s v =
    let bo = beacon_to_byte-lt s.beacon_order v.beacon_fits in
    let so = superframe_to_byte-lt s.superframe_order v.superframe_fits in
    let slot = v.slot_fits in
    let ble = flag_bit-lt s.battery_life_extension in
    let pc = flag_bit-lt s.pan_coordinator in
    let ap = flag_bit-lt s.association_permit in
    rw (
      low_field 4 (orders_sum s),
      low_order s v,
      beacon_of_byte-to_byte s.beacon_order v.beacon_fits,
      low_field 4 (orders_sum s >> 4),
      high_order s v,
      superframe_of_byte-to_byte s.superframe_order v.superframe_fits,
      low_field 4 (flags_sum s),
      low_slot s v,
      test_flag 4 (flags_sum s) s.battery_life_extension (omega arith),
      test_flag 6 (flags_sum s) s.pan_coordinator (omega arith),
      test_flag 7 (flags_sum s) s.association_permit (omega arith),
    )

orders_sum-lt : (s : SuperframeSpecification) → IsSpecification s → orders_sum s < 256
orders_sum-lt s v = omega (
  arith,
  beacon_to_byte-lt s.beacon_order v.beacon_fits,
  superframe_to_byte-lt s.superframe_order v.superframe_fits,
)

flags_sum-lt : (s : SuperframeSpecification) → IsSpecification s → flags_sum s < 256
flags_sum-lt s v = omega (
  arith,
  flag_bit-lt s.battery_life_extension,
  flag_bit-lt s.pan_coordinator,
  flag_bit-lt s.association_permit,
  v.slot_fits,
)

module _ ⦃b : ByteLib⦄ where
  unfoldable pub read_fields : Reader b.Error SuperframeSpecification
  read_fields = do
    enough ← check_rest 2
    byte1 ← read_int Width.u8 b.native
    byte2 ← read_int Width.u8 b.native
    pure (of_bytes byte1 byte2)

  unfoldable pub try_read : List ℕ → Outcome b.Error (SuperframeSpecification × ℕ)
  unfolding read_fields
  try_read = from_zero read_fields

  unfoldable pub try_write : SuperframeSpecification → List ℕ → Outcome b.Error (List ℕ × ℕ)
  try_write s =
      from_zero
        (write_int Width.u8 b.native (orders_byte s) ⨾ write_int Width.u8 b.native (flags_byte s))

  write_byte-Writes :
      (n m : ℕ) → n ≡ m → m < 256 → Writes (write_int Width.u8 b.native n) b.incomplete (m ∷ [])
  write_byte-Writes n m e h = rw e (Writes-u8 b.native m h)

  pub write-Writes :
      (s : SuperframeSpecification)
      → IsSpecification s
      → Writes (b.write_with (try_write s)) b.incomplete (encoding s)
  unfolding try_write
  write-Writes s v = Writes-write (
      Encodes-start (
        Writes-then
          (write_byte-Writes (orders_byte s) (orders_sum s) (orders_byte-sum s v)
            (orders_sum-lt s v))
          (write_byte-Writes (flags_byte s) (flags_sum s) (flags_byte-sum s v) (flags_sum-lt s v))))

  read_fields-Reads :
      (s : SuperframeSpecification) (rest : List ℕ)
      → IsSpecification s
      → Reads read_fields (encoding s) rest s
  unfolding read_fields
  read_fields-Reads s rest v = rw (of_bytes-sums s v) at (
      Reads-bind
        (λ _. read_int Width.u8 b.native >>= λ x.
          read_int Width.u8 b.native >>= λ y. pure (of_bytes x y))
        {first = []} (Reads-check_rest 2 (encoding s ++ rest) (omega arith))
        (Reads-bind (λ x. read_int Width.u8 b.native >>= λ y. pure (of_bytes x y))
          (Reads-u8 b.native (orders_sum s) _ (orders_sum-lt s v))
          (Reads-map (λ y. of_bytes (orders_sum s) y)
            (Reads-u8 b.native (flags_sum s) rest (flags_sum-lt s v)))))

  pub read-Reads :
      (s : SuperframeSpecification) (rest : List ℕ)
      → IsSpecification s
      → Reads (b.read_with try_read) (encoding s) rest s
  unfolding try_read
  read-Reads s rest v = Reads-read (Reads-start (read_fields-Reads s rest v))

  pub read-Bounded : Bounded (b.read_with try_read)
  unfolding try_read read_fields
  read-Bounded = Bounded-read (
      Total-start (
        Bounded-bind _ (Bounded-check_rest 2) (λ enough.
          Bounded-bind _ (Bounded-int Width.u8 b.native)
            (λ x. Bounded-bind _ (Bounded-int Width.u8 b.native) (λ y. Bounded-pure _)))))
