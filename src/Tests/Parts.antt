-- ===== src/Tests/Parts.antt =====
-- Commands, beacons and the numbered enums.
use rust_ieee.Base.{ℕ, ◌≡◌, refl, arith, true, false, List, [], ◌∷◌, ◌++◌, replicate}
use rust_ieee.Outcome.{ok, err}
use rust_ieee.ByteLib.Concrete.{incomplete}
use rust_ieee.Address.ShortAddress
use rust_ieee.Address.ExtendedAddress
use rust_ieee.Command.{Command}
use rust_ieee.Command.Capability.{CapabilityInformation}
use rust_ieee.Command.Status.{AssociationStatus}
use rust_ieee.Command.Codec as CommandCodec
use rust_ieee.Command.RoundTrip as CommandTrip
use rust_ieee.Beacon.{Beacon}
use rust_ieee.Beacon.Order.{BeaconOrder, SuperframeOrder}
use rust_ieee.Beacon.Slot
use rust_ieee.Beacon.Slot.{Direction, GuaranteedTimeSlotDescriptor}
use rust_ieee.Beacon.SlotInfo
use rust_ieee.Beacon.SlotInfo.{GuaranteedTimeSlotInformation}
use rust_ieee.Beacon.SlotInfo.RoundTrip as SlotTrip
use rust_ieee.Beacon.SlotInfo.Spare
use rust_ieee.Beacon.Pending.{PendingAddress}
use rust_ieee.Beacon.Codec as BeaconCodec
use rust_ieee.Tests.{host}

abbrev association : Command
association = Command.association_response (record { value = 0x1234 }) AssociationStatus.successful

abbrev transmit_slot : GuaranteedTimeSlotDescriptor
transmit_slot = record {
  short_address = record { value = 0x1234 };
  starting_slot = 1;
  slot_length = 1;
  direction = Direction.transmit;
}

abbrev slot_info : GuaranteedTimeSlotInformation
slot_info = record { permit = true; slot_count = 1; slots = transmit_slot ∷ replicate 6 Slot.new }

abbrev slot_octets : List ℕ
slot_octets = 0x81 ∷ 0x01 ∷ 0x34 ∷ 0x12 ∷ 0x11 ∷ []

slot_info-IsInfo : SlotTrip.IsInfo slot_info
slot_info-IsInfo = record {
  count_fits = omega arith;
  all_used = refl;
  slots_fit = (
    record { address_fits = omega arith; start_fits = omega arith; length_fits = omega arith },
    tt,
  );
  others_empty = refl;
}

abbrev pending : PendingAddress
pending = record {
  short_address_count = 1;
  short_addresses = record { value = 0x7856 } ∷ replicate 6 ShortAddress.broadcast;
  extended_address_count = 0;
  extended_addresses = replicate 7 ExtendedAddress.broadcast;
}

abbrev beacon : Beacon
beacon = record {
  superframe_spec = record {
    beacon_order = BeaconOrder.on_demand;
    superframe_order = SuperframeOrder.inactive;
    final_cap_slot = 15;
    battery_life_extension = false;
    pan_coordinator = true;
    association_permit = true;
  };
  guaranteed_time_slot_info = slot_info;
  pending_address = pending;
}

abbrev beacon_octets : List ℕ
beacon_octets = 0xff ∷ 0xcf ∷ slot_octets ++ (0x01 ∷ 0x56 ∷ 0x78 ∷ [])

beacon-IsBeacon : BeaconCodec.IsBeacon beacon
beacon-IsBeacon = record {
  spec_fits = record { beacon_fits = tt; superframe_fits = tt; slot_fits = omega arith };
  info_fits = slot_info-IsInfo;
  pending_fits = record {
    short_fits = omega arith;
    extended_fits = omega arith;
    all_short = refl;
    all_extended = refl;
    short_words = (omega arith, tt);
    extended_words = tt;
    others_short = refl;
    others_extended = refl;
  };
}

command_round_trip_example :
    CommandCodec.try_read ⦃b = host⦄ (0x02 ∷ 0x34 ∷ 0x12 ∷ 0x00 ∷ 0xaa ∷ []) ≡ ok (association, 4)
command_round_trip_example =
    CommandTrip.command_round_trip ⦃b = host⦄ association (0xaa ∷ []) (omega arith) tt

command_is_put_example :
    CommandCodec.try_write ⦃b = host⦄ association (0 ∷ 0 ∷ 0 ∷ []) ≡ err incomplete
command_is_put_example =
    CommandCodec.command_is_put ⦃b = host⦄ association (0 ∷ 0 ∷ 0 ∷ []) (omega arith)

abbrev capability : CapabilityInformation
capability = record {
  full_function_device = true;
  mains_power = false;
  idle_receive = false;
  frame_protection = false;
  allocate_address = true;
}

slots_need_spare_example : SlotInfo.try_read ⦃b = host⦄ slot_octets ≡ err incomplete
slots_need_spare_example =
    Spare.slots_need_spare ⦃b = host⦄ slot_info slot_info-IsInfo (omega arith)

beacon_round_trip_example :
    BeaconCodec.try_read ⦃b = host⦄ (beacon_octets ++ (0xde ∷ [])) ≡ ok (beacon, 10)
beacon_round_trip_example =
    BeaconCodec.beacon_round_trip ⦃b = host⦄ beacon (0xde ∷ []) beacon-IsBeacon

beacon_is_put_example :
    BeaconCodec.try_write ⦃b = host⦄ beacon (replicate 10 0) ≡ ok (beacon_octets, 10)
beacon_is_put_example = BeaconCodec.beacon_is_put ⦃b = host⦄ beacon (replicate 10 0) beacon-IsBeacon
