-- ===== src/Beacon.antt =====
-- src/mac/beacon.rs: the data of a beacon.
pub mod Order
pub mod Superframe
pub mod Slot
pub mod SlotInfo
pub mod Pending
pub mod Codec
pub mod Valid

pub record Beacon : Type 0 where
  pub superframe_spec : Superframe.SuperframeSpecification
  pub guaranteed_time_slot_info : SlotInfo.GuaranteedTimeSlotInformation
  pub pending_address : Pending.PendingAddress
