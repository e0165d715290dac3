-- ===== src/Command/Reason.antt =====
-- `DisassociationReason` of src/mac/command.rs.
use rust_ieee.Base.{ℕ, ◌<◌, ◌≡◌, refl, arith, Option, none, some, ◌==◌, if◌then◌else◌}
use rust_ieee.Utils.{ExtendedEnum}

pub data DisassociationReason : Type 0 where
  coordinator_leave device_leave : DisassociationReason

unfoldable pub optional_from : ℕ → Option DisassociationReason
optional_from v =
    if v == 1
    then some DisassociationReason.coordinator_leave
    else if v == 2
    then some DisassociationReason.device_leave
    else none

abbrev pub into : DisassociationReason → ℕ
into DisassociationReason.coordinator_leave = 1
into DisassociationReason.device_leave = 2

pub optional_from-into : (a : DisassociationReason) → optional_from (into a) ≡ some a
unfolding optional_from
optional_from-into DisassociationReason.coordinator_leave = refl
optional_from-into _ = refl

pub into-optional_from : (v : ℕ) (a : DisassociationReason) → optional_from v ≡ some a → into a ≡ v
unfolding optional_from
into-optional_from v a h = ground arith

pub into-lt : (a : DisassociationReason) → into a < 256
into-lt DisassociationReason.coordinator_leave = omega arith
into-lt _ = omega arith

unfoldable pub disassociation_reason : ExtendedEnum DisassociationReason
disassociation_reason = record {
  optional_from = optional_from;
  into = into;
  optional_from-into = optional_from-into;
  into-optional_from = into-optional_from;
  into-lt = into-lt;
}
