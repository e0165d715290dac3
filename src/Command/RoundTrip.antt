-- ===== src/Command/RoundTrip.antt =====
-- A command that has been written is read back.
use rust_ieee.Base.{ℕ, ◌%◌, ◌≡◌, ap, List, [], ◌++◌, length, arith}
use rust_ieee.Outcome.{ok}
use rust_ieee.ByteLib.{ByteLib}
use rust_ieee.ByteLib.Laws.{
  Reads, Reads-bind, Reads-lift, Reads-map, Reads-pure, Reads-read, Reads-start, Reads-u8,
}
use rust_ieee.Address.ShortAddress
use rust_ieee.Command.{Command}
use rust_ieee.Command.Id
use rust_ieee.Command.Status
use rust_ieee.Command.Reason
use rust_ieee.Command.Capability
use rust_ieee.Command.Slots
use rust_ieee.Command.Realignment
use rust_ieee.Command.Codec.{
  id_of, parameters, encoding, IsCommand, or_invalid, read_parameters, read_fields, try_read,
}

-- A coordinator realignment without a channel page ends its slice.
abbrev pub MayPrecede : Command → List ℕ → Type 0
MayPrecede (Command.coordinator_realignment d) rest = Realignment.MayPrecede d.channel_page rest
MayPrecede _ rest = Unit

module _ ⦃b : ByteLib⦄ where
  read_parameters-Reads :
      (c : Command) (rest : List ℕ)
      → IsCommand c
      → MayPrecede c rest
      → Reads (read_parameters (id_of c)) (parameters c) rest c
  unfolding read_parameters
  read_parameters-Reads (Command.association_request c) rest h k =
      rw (Capability.capability_round_trip c) at (
        Reads-map (λ v. Command.association_request (Capability.of_byte v))
          (Reads-u8 b.native (Capability.to_byte c) rest (Capability.to_byte-lt c)))
  read_parameters-Reads (Command.association_response a s) rest h k =
      Reads-bind _ (ShortAddress.read-Reads a _ h) (
        Reads-bind _ {second = []} (Reads-u8 b.native (Status.into s) rest (Status.into-lt s))
          (Reads-map _ (Reads-lift rest (ap or_invalid (Status.optional_from-into s)))))
  read_parameters-Reads (Command.disassociation_notification r) rest h k =
      Reads-bind _ {second = []} (Reads-u8 b.native (Reason.into r) rest (Reason.into-lt r))
        (Reads-map _ (Reads-lift rest (ap or_invalid (Reason.optional_from-into r))))
  read_parameters-Reads Command.data_request rest h k = Reads-pure _ rest
  read_parameters-Reads Command.pan_id_conflict_notification rest h k = Reads-pure _ rest
  read_parameters-Reads Command.orphan_notification rest h k = Reads-pure _ rest
  read_parameters-Reads Command.beacon_request rest h k = Reads-pure _ rest
  read_parameters-Reads (Command.coordinator_realignment d) rest h k =
      Reads-map _ (Realignment.read-Reads d rest h k)
  read_parameters-Reads (Command.guaranteed_time_slot_request g) rest h k =
      rw (Slots.characteristics_round_trip g, small_count) at
        (Reads-map (λ v. Command.guaranteed_time_slot_request (Slots.of_byte v))
          (Reads-u8 b.native (Slots.to_byte g) rest (Slots.to_byte-lt g)))
    where
      small_count : g.count % 16 ≡ g.count
      small_count = omega arith

  read_fields-Reads :
      (c : Command) (rest : List ℕ)
      → IsCommand c
      → MayPrecede c rest
      → Reads read_fields (encoding c) rest c
  unfolding read_fields
  read_fields-Reads c rest h k =
      Reads-bind _ (Reads-u8 b.native (Id.into (id_of c)) _ (Id.into-lt (id_of c))) (
        Reads-bind _ {first = []} (Reads-lift _ (ap or_invalid (Id.optional_from-into (id_of c))))
          (read_parameters-Reads c rest h k))

  -- The octets of a command whose numbers fit are read as that command, and exactly they are
  -- taken, whatever follows; behind a coordinator realignment without a channel page nothing may
  -- follow.
  pub command_round_trip :
      (c : Command) (rest : List ℕ)
      → IsCommand c
      → MayPrecede c rest
      → try_read (encoding c ++ rest) ≡ ok (c, length (encoding c))
  unfolding try_read
  command_round_trip c rest h k = Reads-start (read_fields-Reads c rest h k)

  pub read-Reads :
      (c : Command) (rest : List ℕ)
      → IsCommand c
      → MayPrecede c rest
      → Reads (b.read_with try_read) (encoding c) rest c
  read-Reads c rest h k = Reads-read (command_round_trip c rest h k)
