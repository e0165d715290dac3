-- ===== src/Beacon/SlotInfo/Spare.antt =====
-- The length that `try_read` of `GuaranteedTimeSlotInformation` asks for, src/mac/beacon.rs.
use rust_ieee.Base.{
  ℕ, zero, suc, ◌+◌, ◌*◌, ◌<◌, ◌≡◌, sym, ◌∙◌, arith, List, [], ◌∷◌, length, bit_and,
}
use rust_ieee.Outcome.{err, ◌>>=◌, pure}
use rust_ieee.ByteLib.{ByteLib}
use rust_ieee.ByteLib.Laws.{Fails, Fails-bind, Fails-check_rest, Fails-here, Fails-start, Reads-u8}
use rust_ieee.ByteLib.Loops.{length-encode_many}
use rust_ieee.Beacon.Slot
use rust_ieee.Beacon.Slot.{GuaranteedTimeSlotDescriptor}
use rust_ieee.Beacon.SlotInfo.{
  GuaranteedTimeSlotInformation, count_mask, of_parts, used_slots, read_used, read_fields, try_read,
}
use rust_ieee.Beacon.SlotInfo.RoundTrip.{
  IsInfo, header_sum, header_sum-lt, count-sum, used_encoding, encoding,
}

length-used_encoding :
    (used : List GuaranteedTimeSlotDescriptor)
    → 0 < length used
    → length (used_encoding used) ≡ 1 + 3 * length used
length-used_encoding [] h = absurd (omega arith)
length-used_encoding (s ∷ slots) h =
    omega (arith, length-encode_many Slot.encoding (s ∷ slots) 3 Slot.length-encoding)

module _ ⦃b : ByteLib⦄ where
  read_used-Fails :
      (used : List GuaranteedTimeSlotDescriptor) (n : ℕ)
      → length used ≡ n
      → 0 < n
      → Fails (read_used n) (used_encoding used) (err b.incomplete)
  unfolding read_used
  read_used-Fails used zero e h = absurd (omega arith)
  read_used-Fails used (suc n) e h = Fails-here _ (
      Fails-check_rest (2 + 3 * suc n) (used_encoding used)
        (omega (arith, length-used_encoding used (omega arith))))

  -- With at least one slot the complete encoding, and nothing behind it, is refused with
  -- `Incomplete`: the reader asks for one octet more than the slots take.
  pub slots_need_spare :
      (g : GuaranteedTimeSlotInformation)
      → IsInfo g
      → 0 < g.slot_count
      → try_read (encoding g) ≡ err b.incomplete
  unfolding try_read read_fields
  slots_need_spare g v some_slot = Fails-start (
      Fails-bind (λ byte. read_used (bit_and byte count_mask) >>= λ used. pure (of_parts byte used))
        (Reads-u8 b.native (header_sum g) _ (header_sum-lt g v))
        (Fails-here (λ used. pure (of_parts (header_sum g) used))
          (read_used-Fails (used_slots g) (bit_and (header_sum g) count_mask)
            (v.all_used ∙ sym (count-sum g v)) (omega (arith, count-sum g v)))))
