-- ===== src/Beacon/Valid.antt =====
-- What `TryRead` of `Beacon` returns on arbitrary octets, src/mac/beacon.rs.
use rust_ieee.Base.{
  ℕ, zero, suc, ◌+◌, ◌*◌, ◌<◌, ◌≡◌, refl, arith, List, [], ◌∷◌, inl, inr, length, take-append,
  bit_and, All, leb, Bool-cases,
}
use rust_ieee.Base.Bits.{◌>>◌, low_field, bit_field}
use rust_ieee.Outcome.{Reader}
use rust_ieee.ByteLib.{ByteLib, Width}
use rust_ieee.ByteLib.Laws.{read_int}
use rust_ieee.ByteLib.Loops.{read_many}
use rust_ieee.ByteLib.Yields.{
  Yields, Gives, Gives-start, Yields-bind, Yields-check_rest, Yields-int, Yields-pure, Yields-read,
}
use rust_ieee.Address.ShortAddress
use rust_ieee.Address.ShortAddress.{ShortAddress}
use rust_ieee.Address.ExtendedAddress
use rust_ieee.Address.ExtendedAddress.{ExtendedAddress}
use rust_ieee.Header.Valid.{short_address-Yields, extended_address-Yields}
use rust_ieee.Beacon.Order.{IsBeaconOrder, IsSuperframeOrder, beacon_of_byte, superframe_of_byte}
use rust_ieee.Beacon.Superframe
use rust_ieee.Beacon.Superframe.{IsSpecification}
use rust_ieee.Beacon.Slot
use rust_ieee.Beacon.Slot.{GuaranteedTimeSlotDescriptor, IsSlot, set_direction}
use rust_ieee.Beacon.SlotInfo
use rust_ieee.Beacon.SlotInfo.{
  count_mask, direction_of, empty_slots, read_slots, read_used, used_slots,
}
use rust_ieee.Beacon.SlotInfo.RoundTrip.{IsInfo}
use rust_ieee.Beacon.Pending
use rust_ieee.Beacon.Pending.{
  no_short, no_extended, short_count, extended_count, used_short, used_extended,
}
use rust_ieee.Beacon.Pending.RoundTrip.{IsPending}
use rust_ieee.Beacon.Codec.{IsBeacon, read_fields, try_read}

beacon_of_byte-IsBeaconOrder : (v : ℕ) → IsBeaconOrder (beacon_of_byte v)
unfolding beacon_of_byte
beacon_of_byte-IsBeaconOrder v = elim (Bool-cases (leb v 14)) [
  | inl small ↦ rw small (ground (arith, small))
  | inr large ↦ rw large tt
]

superframe_of_byte-IsSuperframeOrder : (v : ℕ) → IsSuperframeOrder (superframe_of_byte v)
unfolding superframe_of_byte
superframe_of_byte-IsSuperframeOrder v = elim (Bool-cases (leb v 14)) [
  | inl small ↦ rw small (ground (arith, small))
  | inr large ↦ rw large tt
]

of_bytes-IsSpecification : (x y : ℕ) → IsSpecification (Superframe.of_bytes x y)
unfolding Superframe.of_bytes
of_bytes-IsSpecification x y = record {
  beacon_fits = beacon_of_byte-IsBeaconOrder (bit_and x 0x0f);
  superframe_fits = superframe_of_byte-IsSuperframeOrder (bit_and (x >> 4) 0x0f);
  slot_fits = omega (arith, low_field 4 y);
}

of_parts-IsSlot :
    (a : ShortAddress) (y : ℕ) → ShortAddress.IsWord a → y < 256 → IsSlot (Slot.of_parts a y)
unfolding Slot.of_parts
of_parts-IsSlot a y h fits = record {
  address_fits = h;
  start_fits = omega (arith, low_field 4 y);
  length_fits = omega arith;
}

-- As many items as were asked for, all good.
abbrev AreItems : {A : Type 0} → (A → Type 0) → ℕ → List A → Type 0
AreItems IsGood n items = (length items ≡ n) × All IsGood items

counted-IsInfo :
    (byte : ℕ) (used : List GuaranteedTimeSlotDescriptor)
    → AreItems IsSlot (bit_and byte count_mask) used
    → IsInfo (SlotInfo.of_parts byte used)
unfolding SlotInfo.of_parts
counted-IsInfo byte used (e, good) =
    let front : used_slots (SlotInfo.of_parts byte used) ≡ used = rw (← e) (take-append used _) in
    record {
      count_fits = omega (arith, low_field 3 byte);
      all_used = rw front e;
      slots_fit = rw front good;
      others_empty = rw front;
    }

addresses-IsPending :
    (byte : ℕ) (short : List ShortAddress) (extended : List ExtendedAddress)
    → AreItems ShortAddress.IsWord (short_count byte) short
    → AreItems ExtendedAddress.IsWord (extended_count byte) extended
    → IsPending (Pending.of_parts byte short extended)
unfolding Pending.of_parts
addresses-IsPending byte short extended (e, good) (e', good') =
    let p = Pending.of_parts byte short extended in
    let front : used_short p ≡ short = rw (← e) (take-append short _) in
    let front' : used_extended p ≡ extended = rw (← e') (take-append extended _) in
    record {
      short_fits = omega (arith, low_field 3 byte);
      extended_fits = omega (arith, bit_field 4 3 byte);
      all_short = rw front e;
      all_extended = rw front' e';
      short_words = rw front good;
      extended_words = rw front' good';
      others_short = rw front;
      others_extended = rw front';
    }

module _ ⦃b : ByteLib⦄ where
  u8-Yields : Yields (read_int Width.u8 b.native) (λ v. v < 256)
  u8-Yields = Yields-int Width.u8 b.native

  read_many-Yields :
      {A : Type 0} {r : Reader b.Error A} {IsGood : A → Type 0} (n : ℕ)
      → Yields r IsGood
      → Yields (read_many r n) (AreItems IsGood n)
  unfolding read_many
  read_many-Yields zero h = Yields-pure [] (refl, tt)
  read_many-Yields (suc n) h = Yields-bind _ h (λ a good.
      Yields-bind _ (read_many-Yields n h)
        (λ as' (e, goods). Yields-pure (a ∷ as') (omega (arith, e), (good, goods))))

  descriptor-Yields : Yields (b.read_with Slot.try_read) IsSlot
  unfolding Slot.try_read Slot.read_fields
  descriptor-Yields = Yields-read (
      Gives-start (
        Yields-bind _ (Yields-check_rest 3) (λ enough h.
          Yields-bind _ short_address-Yields
            (λ a ha. Yields-bind _ u8-Yields (λ y hy. Yields-pure _ (of_parts-IsSlot a y ha hy))))))

  directed-IsSlot :
      (s : GuaranteedTimeSlotDescriptor) (d : Slot.Direction)
      → IsSlot s
      → IsSlot (set_direction s d)
  directed-IsSlot s d v = record {
    address_fits = v.address_fits;
    start_fits = v.start_fits;
    length_fits = v.length_fits;
  }

  read_slots-Yields : (n mask : ℕ) → Yields (read_slots n mask) (AreItems IsSlot n)
  unfolding read_slots
  read_slots-Yields zero mask = Yields-pure [] (refl, tt)
  read_slots-Yields (suc n) mask = Yields-bind _ descriptor-Yields (λ s good.
      Yields-bind _ (read_slots-Yields n (mask >> 1)) (λ others (e, goods).
        Yields-pure (set_direction s (direction_of mask) ∷ others)
          (omega (arith, e), (directed-IsSlot s (direction_of mask) good, goods))))

  read_used-Yields : (n : ℕ) → Yields (read_used n) (AreItems IsSlot n)
  unfolding read_used
  read_used-Yields zero = Yields-pure [] (refl, tt)
  read_used-Yields (suc n) =
      Yields-bind _ (Yields-check_rest (2 + 3 * suc n))
        (λ enough h. Yields-bind _ u8-Yields (λ mask hm. read_slots-Yields (suc n) mask))

  time_slots-Yields : Yields (b.read_with SlotInfo.try_read) IsInfo
  unfolding SlotInfo.try_read SlotInfo.read_fields
  time_slots-Yields = Yields-read (
      Gives-start (
        Yields-bind _ u8-Yields (λ byte h.
          Yields-bind _ (read_used-Yields (bit_and byte count_mask))
            (λ used items. Yields-pure _ (counted-IsInfo byte used items)))))

  addresses-Yields : Yields (b.read_with Pending.try_read) IsPending
  unfolding Pending.try_read Pending.read_fields
  addresses-Yields = Yields-read (
      Gives-start (
        Yields-bind _ u8-Yields (λ byte h. Yields-bind _ (Yields-check_rest _) (λ enough h'.
          Yields-bind _ (read_many-Yields (short_count byte) short_address-Yields) (λ short ks.
            Yields-bind _ (read_many-Yields (extended_count byte) extended_address-Yields)
              (λ extended ke. Yields-pure _ (addresses-IsPending byte short extended ks ke)))))))

  superframe-Yields : Yields (b.read_with Superframe.try_read) IsSpecification
  unfolding Superframe.try_read Superframe.read_fields
  superframe-Yields = Yields-read (
      Gives-start (
        Yields-bind _ (Yields-check_rest 2) (λ enough h. Yields-bind _ u8-Yields (λ x hx.
          Yields-bind _ u8-Yields (λ y hy. Yields-pure _ (of_bytes-IsSpecification x y))))))

  pub try_read-Gives : Gives try_read IsBeacon
  unfolding try_read read_fields
  try_read-Gives = Gives-start (
      Yields-bind _ superframe-Yields (λ spec hs. Yields-bind _ time_slots-Yields (λ info hi.
        Yields-bind _ addresses-Yields (λ pending hp.
          Yields-pure _ (record { spec_fits = hs; info_fits = hi; pending_fits = hp })))))
