-- ===== src/Command/Alone.antt =====
-- Where `TryRead` of `Command` finds no channel page, nothing is left behind the command,
-- src/mac/command.rs.
use rust_ieee.Base.{ℕ, ◌≡◌, refl, arith, Option, none, some, inl, inr, length, ltb, Bool-cases}
use rust_ieee.Outcome.{pure}
use rust_ieee.ByteLib.{ByteLib, Width}
use rust_ieee.ByteLib.Bounds.{Bounded-check_rest, Bounded-int, Bounded-lift}
use rust_ieee.ByteLib.Spends.{
  Spends, Spends-bind, Spends-pure, Spends-read, Spends-skip, Spends-start,
}
use rust_ieee.Address.PanId
use rust_ieee.Address.ShortAddress
use rust_ieee.Command.{Command}
use rust_ieee.Command.Id
use rust_ieee.Command.Id.{CommandId}
use rust_ieee.Command.Realignment
use rust_ieee.Command.Realignment.{CoordinatorRealignmentData, read_page}
use rust_ieee.Command.Status
use rust_ieee.Command.Reason
use rust_ieee.Command.Codec.{or_invalid-Returns, read_parameters, read_fields, try_read}

-- A page that is missing has nothing behind it.
abbrev pub IsLast : Option ℕ → ℕ → Type 0
IsLast none left = left ≡ 0
IsLast (some p) left = Unit

-- Of all commands only the realignment ends in a page.
abbrev pub EndsCommand : Command → ℕ → Type 0
EndsCommand (Command.coordinator_realignment d) left = IsLast d.channel_page left
EndsCommand _ left = Unit

module _ ⦃b : ByteLib⦄ where
  read_page-Spends : Spends read_page (λ k p m. IsLast p m)
  unfolding read_page
  read_page-Spends = record {
    spends = λ bytes offset room. elim (Bool-cases (ltb offset (length bytes))) [
      | inl more ↦ rw more (
          (Spends-skip (λ p. pure (some p)) IsLast (Bounded-int Width.u8 b.native)
              (λ p. Spends-pure (some p) (λ k. tt))).spends
            bytes offset room)
      | inr done ↦ rw done (ground (arith, done), room)
    ];
  }

  realignment-Spends : Spends (b.read_with Realignment.try_read) (λ k d m. IsLast d.channel_page m)
  unfolding Realignment.try_read Realignment.read_fields
  realignment-Spends =
      let Q : CoordinatorRealignmentData → ℕ → Type 0 = λ d m. IsLast d.channel_page m in
      Spends-read _ (
        Spends-start (
          Spends-skip _ Q (Bounded-check_rest 7) (λ enough. Spends-skip _ Q PanId.read-Bounded (λ p.
            Spends-skip _ Q ShortAddress.read-Bounded (λ c.
              Spends-skip _ Q (Bounded-int Width.u8 b.native) (λ n.
                Spends-skip _ Q ShortAddress.read-Bounded (λ d.
                  Spends-bind _ (λ g k x m. (x.channel_page ≡ g) × (m ≡ k)) read_page-Spends
                    (λ g. Spends-pure _ (λ k. (refl, refl)))
                    (λ g x k l m last (same, stays). rw (same, stays) last))))))))

  read_parameters-Spends : (i : CommandId) → Spends (read_parameters i) (λ k c m. EndsCommand c m)
  unfolding read_parameters
  read_parameters-Spends CommandId.association_request =
      Spends-skip _ EndsCommand (Bounded-int Width.u8 b.native) (λ v. Spends-pure _ (λ k. tt))
  read_parameters-Spends CommandId.association_response =
      Spends-skip _ EndsCommand ShortAddress.read-Bounded (λ a.
        Spends-skip _ EndsCommand (Bounded-int Width.u8 b.native) (λ v.
          Spends-skip _ EndsCommand (Bounded-lift _ (or_invalid-Returns (Status.optional_from v)))
            (λ s. Spends-pure _ (λ k. tt))))
  read_parameters-Spends CommandId.disassociation_notification =
      Spends-skip _ EndsCommand (Bounded-int Width.u8 b.native) (λ v.
        Spends-skip _ EndsCommand (Bounded-lift _ (or_invalid-Returns (Reason.optional_from v)))
          (λ r. Spends-pure _ (λ k. tt)))
  read_parameters-Spends CommandId.data_request = Spends-pure _ (λ k. tt)
  read_parameters-Spends CommandId.pan_id_conflict_notification = Spends-pure _ (λ k. tt)
  read_parameters-Spends CommandId.orphan_notification = Spends-pure _ (λ k. tt)
  read_parameters-Spends CommandId.beacon_request = Spends-pure _ (λ k. tt)
  read_parameters-Spends CommandId.coordinator_realignment =
      Spends-bind _ (λ d k x m. (x ≡ Command.coordinator_realignment d) × (m ≡ k))
        realignment-Spends (λ d. Spends-pure _ (λ k. (refl, refl)))
        (λ d x k l m last (same, stays). rw (same, stays) last)
  read_parameters-Spends CommandId.guaranteed_time_slot_request =
      Spends-skip _ EndsCommand (Bounded-int Width.u8 b.native) (λ v. Spends-pure _ (λ k. tt))

  -- Behind a coordinator realignment that is read without a channel page nothing is left.
  pub command-Spends : Spends (b.read_with try_read) (λ k c m. EndsCommand c m)
  unfolding try_read read_fields
  command-Spends = Spends-read _ (
      Spends-start (
        Spends-skip _ EndsCommand (Bounded-int Width.u8 b.native) (λ v.
          Spends-skip _ EndsCommand (Bounded-lift _ (or_invalid-Returns (Id.optional_from v)))
            read_parameters-Spends)))
