-- ===== src/Command.antt =====
-- src/mac/command.rs: the data of the MAC commands.
pub mod Id
pub mod Status
pub mod Reason
pub mod Capability
pub mod Slots
pub mod Realignment
pub mod Codec
pub mod Valid
pub mod Alone
pub mod RoundTrip
use rust_ieee.Address.ShortAddress.{ShortAddress}

pub data Command : Type 0 where
  association_request : Capability.CapabilityInformation → Command
  association_response : ShortAddress → Status.AssociationStatus → Command
  disassociation_notification : Reason.DisassociationReason → Command
  data_request : Command
  pan_id_conflict_notification : Command
  orphan_notification : Command
  beacon_request : Command
  coordinator_realignment : Realignment.CoordinatorRealignmentData → Command
  guaranteed_time_slot_request : Slots.GuaranteedTimeSlotCharacteristics → Command
