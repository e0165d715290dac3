-- ===== src/Command/Capability.antt =====
-- `CapabilityInformation` of src/mac/command.rs.
use rust_ieee.Base.{ℕ, ◌<◌, ◌≡◌, refl, arith, Bool, bit_and, bit_or, ◌==◌, if◌then◌else◌}
use rust_ieee.Base.Bits.{all_below, all_below_sound}
use rust_ieee.Base.{==_iff}

pub record CapabilityInformation : Type 0 where
  pub full_function_device : Bool
  pub mains_power : Bool
  pub idle_receive : Bool
  pub frame_protection : Bool
  pub allocate_address : Bool

abbrev pub cap_ffd : ℕ
cap_ffd = 0x02

abbrev pub cap_mains_power : ℕ
cap_mains_power = 0x04

abbrev pub cap_idle_receive : ℕ
cap_idle_receive = 0x08

abbrev pub cap_frame_protection : ℕ
cap_frame_protection = 0x40

abbrev pub cap_allocate_address : ℕ
cap_allocate_address = 0x80

-- `byte & mask == mask`.
abbrev pub has : ℕ → ℕ → Bool
has byte mask = bit_and byte mask == mask

-- `From<u8>`.
unfoldable pub of_byte : ℕ → CapabilityInformation
of_byte byte = record {
  full_function_device = has byte cap_ffd;
  mains_power = has byte cap_mains_power;
  idle_receive = has byte cap_idle_receive;
  frame_protection = has byte cap_frame_protection;
  allocate_address = has byte cap_allocate_address;
}

-- `if flag { byte = byte | mask }`.
abbrev pub set_if : Bool → ℕ → ℕ → ℕ
set_if flag mask byte = if flag then bit_or byte mask else byte

-- `From<CapabilityInformation> for u8`.
unfoldable pub to_byte : CapabilityInformation → ℕ
to_byte ar =
    let byte1 = set_if ar.full_function_device cap_ffd 0 in
    let byte2 = set_if ar.mains_power cap_mains_power byte1 in
    let byte3 = set_if ar.idle_receive cap_idle_receive byte2 in
    let byte4 = set_if ar.frame_protection cap_frame_protection byte3 in
    set_if ar.allocate_address cap_allocate_address byte4

-- Every capability survives the octet.
pub capability_round_trip : (c : CapabilityInformation) → of_byte (to_byte c) ≡ c
unfolding of_byte to_byte
capability_round_trip c = ground arith

pub to_byte-lt : (c : CapabilityInformation) → to_byte c < 256
unfolding to_byte
to_byte-lt c = ground arith

-- The octet survives but for its reserved bits 0, 4 and 5.
pub capability_octet : (x : ℕ) → x < 256 → to_byte (of_byte x) ≡ bit_and x 0xCE
unfolding of_byte to_byte
capability_octet x h = (==_iff _ _).0 (
    all_below_sound 256 (λ y. to_byte (of_byte y) == bit_and y 0xCE) x (unfold all_below in refl) h)
