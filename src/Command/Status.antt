-- ===== src/Command/Status.antt =====
-- `AssociationStatus` of src/mac/command.rs.
use rust_ieee.Base.{ℕ, ◌<◌, ◌≡◌, refl, arith, Option, none, some, ◌==◌, if◌then◌else◌}
use rust_ieee.Utils.{ExtendedEnum}

pub data AssociationStatus : Type 0 where
  successful network_at_capacity access_denied : AssociationStatus
  hopping_sequence_offset_duplication fast_association_succesful : AssociationStatus

unfoldable pub optional_from : ℕ → Option AssociationStatus
optional_from v =
    if v == 0x00
    then some AssociationStatus.successful
    else if v == 0x01
    then some AssociationStatus.network_at_capacity
    else if v == 0x02
    then some AssociationStatus.access_denied
    else if v == 0x03
    then some AssociationStatus.hopping_sequence_offset_duplication
    else if v == 0x80
    then some AssociationStatus.fast_association_succesful
    else none

abbrev pub into : AssociationStatus → ℕ
into AssociationStatus.successful = 0x00
into AssociationStatus.network_at_capacity = 0x01
into AssociationStatus.access_denied = 0x02
into AssociationStatus.hopping_sequence_offset_duplication = 0x03
into AssociationStatus.fast_association_succesful = 0x80

pub optional_from-into : (a : AssociationStatus) → optional_from (into a) ≡ some a
unfolding optional_from
optional_from-into AssociationStatus.successful = refl
optional_from-into _ = refl

pub into-optional_from : (v : ℕ) (a : AssociationStatus) → optional_from v ≡ some a → into a ≡ v
unfolding optional_from
into-optional_from v a h = ground arith

pub into-lt : (a : AssociationStatus) → into a < 256
into-lt AssociationStatus.successful = omega arith
into-lt _ = omega arith

unfoldable pub association_status : ExtendedEnum AssociationStatus
association_status = record {
  optional_from = optional_from;
  into = into;
  optional_from-into = optional_from-into;
  into-optional_from = into-optional_from;
  into-lt = into-lt;
}
