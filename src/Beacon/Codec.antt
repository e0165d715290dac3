-- ===== src/Beacon/Codec.antt =====
-- `TryRead` and `TryWrite` of `Beacon`, src/mac/beacon.rs.
use rust_ieee.Base.{ℕ, ◌≡◌, arith, List, [], ◌∷◌, ◌++◌, length}
use rust_ieee.Outcome.{Outcome, ok, Reader, ◌>>=◌, ◌⨾◌, pure, from_zero}
use rust_ieee.ByteLib.{ByteLib}
use rust_ieee.ByteLib.Laws.{
  put, Encodes-put, Reads, Reads-bind, Reads-map, Reads-start, Encodes, Encodes-start, Writes-then,
}
use rust_ieee.ByteLib.Bounds.{EndsWithin, Bounded-bind, Bounded-pure, Total, Total-start}
use rust_ieee.Beacon.{Beacon}
use rust_ieee.Beacon.Superframe
use rust_ieee.Beacon.SlotInfo
use rust_ieee.Beacon.SlotInfo.RoundTrip as SlotTrip
use rust_ieee.Beacon.SlotInfo.RoundTrip.{HasSpare}
use rust_ieee.Beacon.Slot.{GuaranteedTimeSlotDescriptor}
use rust_ieee.Beacon.Pending
use rust_ieee.Beacon.Pending.RoundTrip as PendingTrip

-- Each part is in the range of its fields on the air.
pub record IsBeacon (m : Beacon) : Type 0 where
  pub spec_fits : Superframe.IsSpecification m.superframe_spec
  pub info_fits : SlotTrip.IsInfo m.guaranteed_time_slot_info
  pub pending_fits : PendingTrip.IsPending m.pending_address

-- The octets on the air.
abbrev pub encoding : Beacon → List ℕ
encoding m =
    Superframe.encoding m.superframe_spec
    ++ (SlotTrip.encoding m.guaranteed_time_slot_info ++ PendingTrip.encoding m.pending_address)

module _ ⦃b : ByteLib⦄ where
  unfoldable pub read_fields : Reader b.Error Beacon
  read_fields = do
    spec ← b.read_with Superframe.try_read
    info ← b.read_with SlotInfo.try_read
    pending ← b.read_with Pending.try_read
    pure (record {
      superframe_spec = spec;
      guaranteed_time_slot_info = info;
      pending_address = pending;
    })

  unfoldable pub try_read : List ℕ → Outcome b.Error (Beacon × ℕ)
  unfolding read_fields
  try_read = from_zero read_fields

  unfoldable pub try_write : Beacon → List ℕ → Outcome b.Error (List ℕ × ℕ)
  try_write m = from_zero (
      b.write_with (Superframe.try_write m.superframe_spec)
      ⨾ b.write_with (SlotInfo.try_write m.guaranteed_time_slot_info)
      ⨾ b.write_with (Pending.try_write m.pending_address))

  pub beacon-Encodes : (m : Beacon) → IsBeacon m → Encodes (try_write m) b.incomplete (encoding m)
  unfolding try_write
  beacon-Encodes m v = Encodes-start (
      Writes-then (Superframe.write-Writes m.superframe_spec v.spec_fits) (
        Writes-then (SlotTrip.write-Writes m.guaranteed_time_slot_info v.info_fits)
          (PendingTrip.write-Writes m.pending_address v.pending_fits)))

  spare :
      (slots : List GuaranteedTimeSlotDescriptor) (x : ℕ) (rest : List ℕ)
      → HasSpare slots (x ∷ rest)
  spare [] x rest = tt
  spare (s ∷ slots) x rest = omega arith

  read_fields-Reads :
      (m : Beacon) (rest : List ℕ) → IsBeacon m → Reads read_fields (encoding m) rest m
  unfolding read_fields
  read_fields-Reads m rest v =
      Reads-bind _ (Superframe.read-Reads m.superframe_spec _ v.spec_fits) (
        Reads-bind _ (SlotTrip.read-Reads m.guaranteed_time_slot_info _ v.info_fits (spare _ _ _))
          (Reads-map _ (PendingTrip.read-Reads m.pending_address rest v.pending_fits)))

  -- A beacon whose parts fit is read back from its encoding, whatever stands behind it, and the
  -- number of octets read is the length of the encoding.
  pub beacon_round_trip :
      (m : Beacon) (rest : List ℕ)
      → IsBeacon m
      → try_read (encoding m ++ rest) ≡ ok (m, length (encoding m))
  unfolding try_read
  beacon_round_trip m rest v = Reads-start (read_fields-Reads m rest v)

  pub beacon-Total : Total try_read
  unfolding try_read read_fields
  beacon-Total = Total-start (
      Bounded-bind _ Superframe.read-Bounded (λ s.
        Bounded-bind _ SlotInfo.read-Bounded
          (λ i. Bounded-bind _ Pending.read-Bounded (λ p. Bounded-pure _))))

  -- `try_write` puts the encoding of a beacon whose parts fit at the head of a buffer that has room
  -- for it and changes nothing else in it; in a buffer that is too short it fails with
  -- `Incomplete`.
  pub beacon_is_put :
      (m : Beacon) (buffer : List ℕ)
      → IsBeacon m
      → try_write m buffer ≡ put b.incomplete (encoding m) buffer
  beacon_is_put m buffer v = Encodes-put (beacon-Encodes m v) buffer

  -- On any slice `try_read` returns a beacon or an error and does not panic; the octets that it
  -- says it took are at most those of the slice.
  pub beacon_ends : (bytes : List ℕ) → EndsWithin 0 (length bytes) (try_read bytes)
  beacon_ends bytes = beacon-Total.ends bytes
