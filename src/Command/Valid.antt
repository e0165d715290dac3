-- ===== src/Command/Valid.antt =====
-- What `TryRead` of `Command` returns on arbitrary octets, src/mac/command.rs.
use rust_ieee.Base.{ℕ, ◌<◌, arith, some, inl, inr, length, ltb, Bool-cases}
use rust_ieee.Base.Bits.{low_field}
use rust_ieee.Outcome.{pure}
use rust_ieee.ByteLib.{ByteLib, Width}
use rust_ieee.ByteLib.Laws.{read_int}
use rust_ieee.ByteLib.Yields.{
  OnValue-any, Yields, Gives, Gives-start, Yields-bind, Yields-check_rest, Yields-int, Yields-lift,
  Yields-pure, Yields-read,
}
use rust_ieee.Header.Valid.{pan_id-Yields, short_address-Yields}
use rust_ieee.Command.Id
use rust_ieee.Command.Id.{CommandId}
use rust_ieee.Command.Status
use rust_ieee.Command.Reason
use rust_ieee.Command.Slots.{of_byte}
use rust_ieee.Command.Realignment
use rust_ieee.Command.Realignment.{IsPage, IsData, read_page}
use rust_ieee.Command.Codec.{IsCommand, or_invalid, read_parameters, read_fields, try_read}

slots-fit : (byte : ℕ) → (of_byte byte).count < 16
unfolding of_byte
slots-fit byte = omega (arith, low_field 4 byte)

module _ ⦃b : ByteLib⦄ where
  u8-Yields : Yields (read_int Width.u8 b.native) (λ v. v < 256)
  u8-Yields = Yields-int Width.u8 b.native

  read_page-Yields : Yields read_page IsPage
  unfolding read_page
  read_page-Yields = record {
    yields = λ bytes offset octets room. elim (Bool-cases (ltb offset (length bytes))) [
      | inl more ↦ rw more (
          (Yields-bind (λ p. pure (some p)) u8-Yields (λ p h. Yields-pure (some p) h)).yields bytes
            offset octets room)
      | inr done ↦ rw done (tt, room)
    ];
  }

  realignment-Yields : Yields (b.read_with Realignment.try_read) IsData
  unfolding Realignment.try_read Realignment.read_fields
  realignment-Yields = Yields-read (
      Gives-start (
        Yields-bind _ (Yields-check_rest 7) (λ enough h. Yields-bind _ pan_id-Yields (λ p hp.
          Yields-bind _ short_address-Yields (λ c hc. Yields-bind _ u8-Yields (λ n hn.
            Yields-bind _ short_address-Yields (λ d hd. Yields-bind _ read_page-Yields (λ g hg.
              Yields-pure _ (record {
                pan_id_fits = hp;
                coordinator_fits = hc;
                channel_fits = hn;
                device_fits = hd;
                page_fits = hg;
              })))))))))

  read_parameters-Yields : (i : CommandId) → Yields (read_parameters i) IsCommand
  unfolding read_parameters
  read_parameters-Yields CommandId.association_request =
      Yields-bind _ u8-Yields (λ v h. Yields-pure _ tt)
  read_parameters-Yields CommandId.association_response =
      Yields-bind _ short_address-Yields (λ a ha. Yields-bind _ u8-Yields (λ v h.
        Yields-bind _
          (Yields-lift (or_invalid (Status.optional_from v))
            (OnValue-any (or_invalid (Status.optional_from v))))
          (λ s hs. Yields-pure _ ha)))
  read_parameters-Yields CommandId.disassociation_notification = Yields-bind _ u8-Yields (λ v h.
      Yields-bind _
        (Yields-lift (or_invalid (Reason.optional_from v))
          (OnValue-any (or_invalid (Reason.optional_from v))))
        (λ r hr. Yields-pure _ tt))
  read_parameters-Yields CommandId.data_request = Yields-pure _ tt
  read_parameters-Yields CommandId.pan_id_conflict_notification = Yields-pure _ tt
  read_parameters-Yields CommandId.orphan_notification = Yields-pure _ tt
  read_parameters-Yields CommandId.beacon_request = Yields-pure _ tt
  read_parameters-Yields CommandId.coordinator_realignment =
      Yields-bind _ realignment-Yields (λ d h. Yields-pure _ h)
  read_parameters-Yields CommandId.guaranteed_time_slot_request =
      Yields-bind _ u8-Yields (λ v h. Yields-pure _ (slots-fit v))

  pub try_read-Gives : Gives try_read IsCommand
  unfolding try_read read_fields
  try_read-Gives = Gives-start (
      Yields-bind _ u8-Yields (λ v h.
        Yields-bind _
          (Yields-lift (or_invalid (Id.optional_from v))
            (OnValue-any (or_invalid (Id.optional_from v))))
          (λ i hi. read_parameters-Yields i)))
