-- ===== src/Beacon/Order.antt =====
-- `BeaconOrder` and `SuperframeOrder` of src/mac/beacon.rs.
use rust_ieee.Base.{ℕ, ◌<◌, ◌≡◌, refl, arith, leb, if◌then◌else◌}

pub data BeaconOrder : Type 0 where
  beacon_order : ℕ → BeaconOrder
  on_demand : BeaconOrder

pub data SuperframeOrder : Type 0 where
  superframe_order : ℕ → SuperframeOrder
  inactive : SuperframeOrder

-- `From<u8>`.
unfoldable pub beacon_of_byte : ℕ → BeaconOrder
beacon_of_byte v = if leb v 14 then BeaconOrder.beacon_order v else BeaconOrder.on_demand

-- `From<BeaconOrder> for u8`.
abbrev pub beacon_to_byte : BeaconOrder → ℕ
beacon_to_byte (BeaconOrder.beacon_order v) = v
beacon_to_byte BeaconOrder.on_demand = 15

-- `From<u8>`.
unfoldable pub superframe_of_byte : ℕ → SuperframeOrder
superframe_of_byte v =
    if leb v 14 then SuperframeOrder.superframe_order v else SuperframeOrder.inactive

-- `From<SuperframeOrder> for u8`.
abbrev pub superframe_to_byte : SuperframeOrder → ℕ
superframe_to_byte (SuperframeOrder.superframe_order v) = v
superframe_to_byte SuperframeOrder.inactive = 15

-- An order that is a number is at most 14.
abbrev pub IsBeaconOrder : BeaconOrder → Type 0
IsBeaconOrder (BeaconOrder.beacon_order v) = v < 15
IsBeaconOrder BeaconOrder.on_demand = Unit

abbrev pub IsSuperframeOrder : SuperframeOrder → Type 0
IsSuperframeOrder (SuperframeOrder.superframe_order v) = v < 15
IsSuperframeOrder SuperframeOrder.inactive = Unit

pub beacon_of_byte-to_byte :
    (o : BeaconOrder) → IsBeaconOrder o → beacon_of_byte (beacon_to_byte o) ≡ o
unfolding beacon_of_byte
beacon_of_byte-to_byte (BeaconOrder.beacon_order v) h = ground arith
beacon_of_byte-to_byte BeaconOrder.on_demand h = refl

pub superframe_of_byte-to_byte :
    (o : SuperframeOrder) → IsSuperframeOrder o → superframe_of_byte (superframe_to_byte o) ≡ o
unfolding superframe_of_byte
superframe_of_byte-to_byte (SuperframeOrder.superframe_order v) h = ground arith
superframe_of_byte-to_byte SuperframeOrder.inactive h = refl

pub beacon_to_byte-lt : (o : BeaconOrder) → IsBeaconOrder o → beacon_to_byte o < 16
beacon_to_byte-lt (BeaconOrder.beacon_order v) h = omega arith
beacon_to_byte-lt BeaconOrder.on_demand h = omega arith

pub superframe_to_byte-lt : (o : SuperframeOrder) → IsSuperframeOrder o → superframe_to_byte o < 16
superframe_to_byte-lt (SuperframeOrder.superframe_order v) h = omega arith
superframe_to_byte-lt SuperframeOrder.inactive h = omega arith
