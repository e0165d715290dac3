-- ===== src/Address.antt =====
-- `Address` and `AddressEncoding` of src/mac/frame/header.rs. The children model the three newtypes
-- in it, `AddressMode` of src/mac/frame/frame_control.rs, and the codec.
pub mod PanId
pub mod ShortAddress
pub mod ExtendedAddress
pub mod Mode
pub mod Codec
use rust_ieee.Base.{Option}

pub data Address : Type 0 where
  short : PanId.PanId → ShortAddress.ShortAddress → Address
  extended : PanId.PanId → ExtendedAddress.ExtendedAddress → Address

pub data AddressEncoding : Type 0 where
  normal compressed : AddressEncoding

pub data AddressMode : Type 0 where
  none short extended : AddressMode

abbrev pub pan_id : Address → PanId.PanId
pan_id (Address.short pan _) = pan
pan_id (Address.extended pan _) = pan

abbrev pub broadcast : AddressMode → Option Address
broadcast AddressMode.none = Option.none
broadcast AddressMode.short = Option.some (Address.short PanId.broadcast ShortAddress.broadcast)
broadcast AddressMode.extended =
    Option.some (Address.extended PanId.broadcast ExtendedAddress.broadcast)

-- Every part of the address fits its integer.
abbrev pub IsAddress : Address → Type 0
IsAddress (Address.short pan a) = PanId.IsWord pan × ShortAddress.IsWord a
IsAddress (Address.extended pan a) = PanId.IsWord pan × ExtendedAddress.IsWord a
