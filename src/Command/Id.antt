-- ===== src/Command/Id.antt =====
-- `CommandId` of src/mac/command.rs.
use rust_ieee.Base.{ℕ, ◌<◌, ◌≡◌, refl, arith, Option, none, some, ◌==◌, if◌then◌else◌}
use rust_ieee.Utils.{ExtendedEnum}

pub data CommandId : Type 0 where
  association_request association_response disassociation_notification data_request : CommandId
  pan_id_conflict_notification orphan_notification beacon_request : CommandId
  coordinator_realignment guaranteed_time_slot_request : CommandId

unfoldable pub optional_from : ℕ → Option CommandId
optional_from v =
    if v == 1
    then some CommandId.association_request
    else if v == 2
    then some CommandId.association_response
    else if v == 3
    then some CommandId.disassociation_notification
    else if v == 4
    then some CommandId.data_request
    else if v == 5
    then some CommandId.pan_id_conflict_notification
    else if v == 6
    then some CommandId.orphan_notification
    else if v == 7
    then some CommandId.beacon_request
    else if v == 8
    then some CommandId.coordinator_realignment
    else if v == 9
    then some CommandId.guaranteed_time_slot_request
    else none

abbrev pub into : CommandId → ℕ
into CommandId.association_request = 1
into CommandId.association_response = 2
into CommandId.disassociation_notification = 3
into CommandId.data_request = 4
into CommandId.pan_id_conflict_notification = 5
into CommandId.orphan_notification = 6
into CommandId.beacon_request = 7
into CommandId.coordinator_realignment = 8
into CommandId.guaranteed_time_slot_request = 9

pub optional_from-into : (a : CommandId) → optional_from (into a) ≡ some a
unfolding optional_from
optional_from-into CommandId.association_request = refl
optional_from-into _ = refl

pub into-optional_from : (v : ℕ) (a : CommandId) → optional_from v ≡ some a → into a ≡ v
unfolding optional_from
into-optional_from v a h = ground arith

pub into-lt : (a : CommandId) → into a < 256
into-lt CommandId.association_request = omega arith
into-lt _ = omega arith

unfoldable pub command_id : ExtendedEnum CommandId
command_id = record {
  optional_from = optional_from;
  into = into;
  optional_from-into = optional_from-into;
  into-optional_from = into-optional_from;
  into-lt = into-lt;
}
