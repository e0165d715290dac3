-- ===== src/Frame/Content.antt =====
-- `TryRead` and `TryWrite` of `FrameContent`, src/mac/frame/mod.rs.
use rust_ieee.Base.{ℕ, ◌≡◌, List, []}
use rust_ieee.Outcome.{Outcome, Reader, Writer, ◌>>=◌, pure, skip, from_zero}
use rust_ieee.ByteLib.{ByteLib}
use rust_ieee.ByteLib.Laws.{
  put, Encodes-put, Reads, Reads-map, Reads-pure, Reads-read, Reads-start, Writes, Writes-skip,
  Writes-write, Encodes, Encodes-start,
}
use rust_ieee.ByteLib.Bounds.{Bounded, Bounded-bind, Bounded-pure, Bounded-read, Total-start}
use rust_ieee.FrameControl.FrameType.{FrameType}
use rust_ieee.Beacon.Codec as BeaconCodec
use rust_ieee.Command.Codec as CommandCodec
use rust_ieee.Command.RoundTrip as CommandTrip
use rust_ieee.Frame.{FrameContent}

abbrev pub frame_type_of : FrameContent → FrameType
frame_type_of (FrameContent.beacon m) = FrameType.beacon
frame_type_of FrameContent.data_content = FrameType.data_frame
frame_type_of FrameContent.acknowledgement = FrameType.acknowledgement
frame_type_of (FrameContent.command c) = FrameType.mac_command

-- The octets on the air.
abbrev pub encoding : FrameContent → List ℕ
encoding (FrameContent.beacon m) = BeaconCodec.encoding m
encoding FrameContent.data_content = []
encoding FrameContent.acknowledgement = []
encoding (FrameContent.command c) = CommandCodec.encoding c

-- The numbers in the content fit their fields.
abbrev pub IsContent : FrameContent → Type 0
IsContent (FrameContent.beacon m) = BeaconCodec.IsBeacon m
IsContent FrameContent.data_content = Unit
IsContent FrameContent.acknowledgement = Unit
IsContent (FrameContent.command c) = CommandCodec.IsCommand c

-- A coordinator realignment without a channel page ends its slice.
abbrev pub MayPrecede : FrameContent → List ℕ → Type 0
MayPrecede (FrameContent.command c) rest = CommandTrip.MayPrecede c rest
MayPrecede _ rest = Unit

module _ ⦃b : ByteLib⦄ where
  abbrev pub write_fields : FrameContent → Writer b.Error
  write_fields (FrameContent.beacon m) = b.write_with (BeaconCodec.try_write m)
  write_fields FrameContent.data_content = skip
  write_fields FrameContent.acknowledgement = skip
  write_fields (FrameContent.command c) = b.write_with (CommandCodec.try_write c)

  unfoldable pub try_write : FrameContent → List ℕ → Outcome b.Error (List ℕ × ℕ)
  try_write c = from_zero (write_fields c)

  -- The header chooses the kind of content.
  abbrev pub read_fields : FrameType → Reader b.Error FrameContent
  read_fields FrameType.beacon = do
    m ← b.read_with BeaconCodec.try_read
    pure (FrameContent.beacon m)
  read_fields FrameType.data_frame = pure FrameContent.data_content
  read_fields FrameType.acknowledgement = pure FrameContent.acknowledgement
  read_fields FrameType.mac_command = do
    c ← b.read_with CommandCodec.try_read
    pure (FrameContent.command c)

  unfoldable pub try_read : FrameType → List ℕ → Outcome b.Error (FrameContent × ℕ)
  try_read t = from_zero (read_fields t)

  write_fields-Writes :
      (c : FrameContent) → IsContent c → Writes (write_fields c) b.incomplete (encoding c)
  write_fields-Writes (FrameContent.beacon m) h = Writes-write (BeaconCodec.beacon-Encodes m h)
  write_fields-Writes FrameContent.data_content h = Writes-skip
  write_fields-Writes FrameContent.acknowledgement h = Writes-skip
  write_fields-Writes (FrameContent.command c) h = CommandCodec.write-Writes c h

  pub content-Encodes :
      (c : FrameContent) → IsContent c → Encodes (try_write c) b.incomplete (encoding c)
  unfolding try_write
  content-Encodes c h = Encodes-start (write_fields-Writes c h)

  read_fields-Reads :
      (c : FrameContent) (rest : List ℕ)
      → IsContent c
      → MayPrecede c rest
      → Reads (read_fields (frame_type_of c)) (encoding c) rest c
  read_fields-Reads (FrameContent.beacon m) rest h k =
      Reads-map _ (Reads-read (BeaconCodec.beacon_round_trip m rest h))
  read_fields-Reads FrameContent.data_content rest h k = Reads-pure _ rest
  read_fields-Reads FrameContent.acknowledgement rest h k = Reads-pure _ rest
  read_fields-Reads (FrameContent.command c) rest h k =
      Reads-map _ (CommandTrip.read-Reads c rest h k)

  pub read-Reads :
      (c : FrameContent) (rest : List ℕ)
      → IsContent c
      → MayPrecede c rest
      → Reads (b.read_with (try_read (frame_type_of c))) (encoding c) rest c
  unfolding try_read
  read-Reads c rest h k = Reads-read (Reads-start (read_fields-Reads c rest h k))

  read_fields-Bounded : (t : FrameType) → Bounded (read_fields t)
  read_fields-Bounded FrameType.beacon =
      Bounded-bind _ (Bounded-read BeaconCodec.beacon-Total) (λ m. Bounded-pure _)
  read_fields-Bounded FrameType.data_frame = Bounded-pure _
  read_fields-Bounded FrameType.acknowledgement = Bounded-pure _
  read_fields-Bounded FrameType.mac_command =
      Bounded-bind _ CommandCodec.read-Bounded (λ c. Bounded-pure _)

  pub read-Bounded : (t : FrameType) → Bounded (b.read_with (try_read t))
  unfolding try_read
  read-Bounded t = Bounded-read (Total-start (read_fields-Bounded t))

  -- `try_write` puts the encoding of content whose numbers fit, which is empty for data and
  -- acknowledgements, at the head of a buffer that has room for it and changes nothing else in it;
  -- in a buffer that is too short it fails with `Incomplete`.
  pub content_is_put :
      (c : FrameContent) (buffer : List ℕ)
      → IsContent c
      → try_write c buffer ≡ put b.incomplete (encoding c) buffer
  content_is_put c buffer h = Encodes-put (content-Encodes c h) buffer
