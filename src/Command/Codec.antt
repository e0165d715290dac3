-- ===== src/Command/Codec.antt =====
-- `TryRead` and `TryWrite` of `Command`, src/mac/command.rs.
use rust_ieee.Base.{length, ℕ, ◌<◌, ◌≡◌, Option, List, [], ◌∷◌, ◌++◌}
use rust_ieee.Outcome.{Outcome, map_err, ok_or, Reader, Writer, ◌>>=◌, ◌⨾◌, pure, lift, from_zero}
use rust_ieee.Errors.{DecodeError, decode_error}
use rust_ieee.ByteLib.{ByteLib, Width}
use rust_ieee.ByteLib.Laws.{
  put, Encodes-put, read_int, write_int, Encodes, Encodes-start, Writes, Writes-then, Writes-u8,
  Writes-write,
}
use rust_ieee.ByteLib.Bounds.{
  EndsWithin, Bounded, Bounded-bind, Bounded-int, Bounded-lift, Bounded-pure, Bounded-read, Returns,
  Total, Total-start,
}
use rust_ieee.Address.ShortAddress
use rust_ieee.Command.{Command}
use rust_ieee.Command.Id
use rust_ieee.Command.Id.{CommandId}
use rust_ieee.Command.Status
use rust_ieee.Command.Status.{AssociationStatus}
use rust_ieee.Command.Reason
use rust_ieee.Command.Reason.{DisassociationReason}
use rust_ieee.Command.Capability
use rust_ieee.Command.Slots
use rust_ieee.Command.Realignment

-- The identifier that a command is sent under.
abbrev pub id_of : Command → CommandId
id_of (Command.association_request _) = CommandId.association_request
id_of (Command.association_response _ _) = CommandId.association_response
id_of (Command.disassociation_notification _) = CommandId.disassociation_notification
id_of Command.data_request = CommandId.data_request
id_of Command.pan_id_conflict_notification = CommandId.pan_id_conflict_notification
id_of Command.orphan_notification = CommandId.orphan_notification
id_of Command.beacon_request = CommandId.beacon_request
id_of (Command.coordinator_realignment _) = CommandId.coordinator_realignment
id_of (Command.guaranteed_time_slot_request _) = CommandId.guaranteed_time_slot_request

-- What follows the identifier.
abbrev pub parameters : Command → List ℕ
parameters (Command.association_request c) = Capability.to_byte c ∷ []
parameters (Command.association_response a s) = ShortAddress.encoding a ++ (Status.into s ∷ [])
parameters (Command.disassociation_notification r) = Reason.into r ∷ []
parameters (Command.coordinator_realignment d) = Realignment.encoding d
parameters (Command.guaranteed_time_slot_request g) = Slots.to_byte g ∷ []
parameters Command.data_request = []
parameters Command.pan_id_conflict_notification = []
parameters Command.orphan_notification = []
parameters Command.beacon_request = []

abbrev pub encoding : Command → List ℕ
encoding c = (Id.into (id_of c) ∷ []) ++ parameters c

-- The numbers in a command fit their integers.
abbrev pub IsCommand : Command → Type 0
IsCommand (Command.association_response a s) = ShortAddress.IsWord a
IsCommand (Command.coordinator_realignment d) = Realignment.IsData d
IsCommand (Command.guaranteed_time_slot_request g) = g.count < 16
IsCommand _ = Unit

module _ ⦃b : ByteLib⦄ where
  abbrev pub write_id : CommandId → Writer b.Error
  write_id i = write_int Width.u8 b.native (Id.into i)

  abbrev pub write_byte : ℕ → Writer b.Error
  write_byte v = write_int Width.u8 b.native v

  unfoldable pub write_fields : Command → Writer b.Error
  write_fields (Command.association_request c) =
      write_id CommandId.association_request ⨾ write_byte (Capability.to_byte c)
  write_fields (Command.association_response a s) =
      write_id CommandId.association_response
      ⨾ b.write_with (ShortAddress.try_write a)
      ⨾ write_byte (Status.into s)
  write_fields (Command.disassociation_notification r) =
      write_id CommandId.disassociation_notification ⨾ write_byte (Reason.into r)
  write_fields Command.data_request = write_id CommandId.data_request
  write_fields Command.pan_id_conflict_notification =
      write_id CommandId.pan_id_conflict_notification
  write_fields Command.orphan_notification = write_id CommandId.orphan_notification
  write_fields Command.beacon_request = write_id CommandId.beacon_request
  write_fields (Command.coordinator_realignment d) =
      write_id CommandId.coordinator_realignment ⨾ b.write_with (Realignment.try_write d)
  write_fields (Command.guaranteed_time_slot_request g) =
      write_id CommandId.guaranteed_time_slot_request ⨾ write_byte (Slots.to_byte g)

  unfoldable pub try_write : Command → List ℕ → Outcome b.Error (List ℕ × ℕ)
  unfolding write_fields
  try_write c = from_zero (write_fields c)

  -- `….ok_or(DecodeError::InvalidValue)?`.
  abbrev pub or_invalid {ℓ} : {A : Type ℓ} → Option A → Outcome b.Error A
  or_invalid o = map_err decode_error (ok_or o DecodeError.invalid_value)

  unfoldable pub read_parameters : CommandId → Reader b.Error Command
  read_parameters CommandId.association_request = do
    byte ← read_int Width.u8 b.native
    pure (Command.association_request (Capability.of_byte byte))
  read_parameters CommandId.association_response = do
    address ← b.read_with ShortAddress.try_read
    byte ← read_int Width.u8 b.native
    status ← lift (or_invalid (Status.optional_from byte))
    pure (Command.association_response address status)
  read_parameters CommandId.disassociation_notification = do
    byte ← read_int Width.u8 b.native
    reason ← lift (or_invalid (Reason.optional_from byte))
    pure (Command.disassociation_notification reason)
  read_parameters CommandId.data_request = pure Command.data_request
  read_parameters CommandId.pan_id_conflict_notification = pure Command.pan_id_conflict_notification
  read_parameters CommandId.orphan_notification = pure Command.orphan_notification
  read_parameters CommandId.beacon_request = pure Command.beacon_request
  read_parameters CommandId.coordinator_realignment = do
    d ← b.read_with Realignment.try_read
    pure (Command.coordinator_realignment d)
  read_parameters CommandId.guaranteed_time_slot_request = do
    byte ← read_int Width.u8 b.native
    pure (Command.guaranteed_time_slot_request (Slots.of_byte byte))

  unfoldable pub read_fields : Reader b.Error Command
  unfolding read_parameters
  read_fields = do
    byte ← read_int Width.u8 b.native
    cmd ← lift (or_invalid (Id.optional_from byte))
    read_parameters cmd

  unfoldable pub try_read : List ℕ → Outcome b.Error (Command × ℕ)
  unfolding read_fields
  try_read = from_zero read_fields

  write_id-Writes : (i : CommandId) → Writes (write_id i) b.incomplete (Id.into i ∷ [])
  write_id-Writes i = Writes-u8 b.native (Id.into i) (Id.into-lt i)

  write_fields-Writes :
      (c : Command) → IsCommand c → Writes (write_fields c) b.incomplete (encoding c)
  unfolding write_fields
  write_fields-Writes (Command.association_request c) h =
      Writes-then (write_id-Writes CommandId.association_request)
        (Writes-u8 b.native _ (Capability.to_byte-lt c))
  write_fields-Writes (Command.association_response a s) h =
      Writes-then (write_id-Writes CommandId.association_response)
        (Writes-then (ShortAddress.write-Writes a) (Writes-u8 b.native _ (Status.into-lt s)))
  write_fields-Writes (Command.disassociation_notification r) h =
      Writes-then (write_id-Writes CommandId.disassociation_notification)
        (Writes-u8 b.native _ (Reason.into-lt r))
  write_fields-Writes Command.data_request h = write_id-Writes CommandId.data_request
  write_fields-Writes Command.pan_id_conflict_notification h =
      write_id-Writes CommandId.pan_id_conflict_notification
  write_fields-Writes Command.orphan_notification h = write_id-Writes CommandId.orphan_notification
  write_fields-Writes Command.beacon_request h = write_id-Writes CommandId.beacon_request
  write_fields-Writes (Command.coordinator_realignment d) h =
      Writes-then (write_id-Writes CommandId.coordinator_realignment) (Realignment.write-Writes d h)
  write_fields-Writes (Command.guaranteed_time_slot_request g) h =
      Writes-then (write_id-Writes CommandId.guaranteed_time_slot_request)
        (Writes-u8 b.native _ (Slots.to_byte-lt g))

  pub try_write-Encodes :
      (c : Command) → IsCommand c → Encodes (try_write c) b.incomplete (encoding c)
  unfolding try_write
  try_write-Encodes c h = Encodes-start (write_fields-Writes c h)

  pub write-Writes :
      (c : Command) → IsCommand c → Writes (b.write_with (try_write c)) b.incomplete (encoding c)
  write-Writes c h = Writes-write (try_write-Encodes c h)

  pub or_invalid-Returns : {A : Type 0} (o : Option A) → Returns (or_invalid o)
  or_invalid-Returns Option.none = tt
  or_invalid-Returns (Option.some a) = tt

  read_parameters-Bounded : (i : CommandId) → Bounded (read_parameters i)
  unfolding read_parameters
  read_parameters-Bounded CommandId.association_request =
      Bounded-bind _ (Bounded-int Width.u8 b.native) (λ v. Bounded-pure _)
  read_parameters-Bounded CommandId.association_response =
      Bounded-bind _ ShortAddress.read-Bounded (λ a.
        Bounded-bind _ (Bounded-int Width.u8 b.native) (λ v.
          Bounded-bind _ (Bounded-lift _ (or_invalid-Returns (Status.optional_from v)))
            (λ s. Bounded-pure _)))
  read_parameters-Bounded CommandId.disassociation_notification =
      Bounded-bind _ (Bounded-int Width.u8 b.native) (λ v.
        Bounded-bind _ (Bounded-lift _ (or_invalid-Returns (Reason.optional_from v)))
          (λ r. Bounded-pure _))
  read_parameters-Bounded CommandId.data_request = Bounded-pure _
  read_parameters-Bounded CommandId.pan_id_conflict_notification = Bounded-pure _
  read_parameters-Bounded CommandId.orphan_notification = Bounded-pure _
  read_parameters-Bounded CommandId.beacon_request = Bounded-pure _
  read_parameters-Bounded CommandId.coordinator_realignment =
      Bounded-bind _ Realignment.read-Bounded (λ d. Bounded-pure _)
  read_parameters-Bounded CommandId.guaranteed_time_slot_request =
      Bounded-bind _ (Bounded-int Width.u8 b.native) (λ v. Bounded-pure _)

  pub try_read-Total : Total try_read
  unfolding try_read read_fields
  try_read-Total = Total-start (
      Bounded-bind _ (Bounded-int Width.u8 b.native) (λ v.
        Bounded-bind _ (Bounded-lift _ (or_invalid-Returns (Id.optional_from v)))
          read_parameters-Bounded))

  pub read-Bounded : Bounded (b.read_with try_read)
  read-Bounded = Bounded-read try_read-Total

  -- `try_write` puts the encoding of a command whose numbers fit at the head of a buffer that has
  -- room for it and changes nothing else in it; in a buffer that is too short it fails with
  -- `Incomplete`.
  pub command_is_put :
      (c : Command) (buffer : List ℕ)
      → IsCommand c
      → try_write c buffer ≡ put b.incomplete (encoding c) buffer
  command_is_put c buffer h = Encodes-put (try_write-Encodes c h) buffer

  -- On any slice `try_read` returns a command or an error and does not panic; the octets that it
  -- says it took are at most those of the slice.
  pub command_ends : (bytes : List ℕ) → EndsWithin 0 (length bytes) (try_read bytes)
  command_ends bytes = try_read-Total.ends bytes
