-- ===== src/Header.antt =====
-- `Header` of src/mac/frame/header.rs: the data and its size.
pub mod Write
pub mod Refuse
pub mod Size
pub mod Read
pub mod RoundTrip
pub mod Valid
pub mod Returning
use rust_ieee.Base.{ℕ, ◌+◌, ◌<◌, ◌≡◌, ◌≢◌, Bool, true, false, Option, none, some}
use rust_ieee.Address.{Address, IsAddress, pan_id}
use rust_ieee.Address.Mode
use rust_ieee.FrameControl.{FrameControl}
use rust_ieee.FrameControl.FrameType.{FrameType}
use rust_ieee.FrameControl.FrameVersion.{FrameVersion}
use rust_ieee.Security.AuxHeader.{AuxiliarySecurityHeader, IsKeyId}

pub record Header : Type 0 where
  pub frame_type : FrameType
  pub frame_pending : Bool
  pub ack_request : Bool
  pub pan_id_compress : Bool
  pub version : FrameVersion
  pub seq : ℕ
  pub destination : Option Address
  pub source : Option Address
  pub auxiliary_security_header : Option AuxiliarySecurityHeader

abbrev pub is_some {ℓ} : {A : Type ℓ} → Option A → Bool
is_some none = false
is_some (some _) = true

abbrev pub has_security : Header → Bool
has_security h = is_some h.auxiliary_security_header

-- The octets that the loop of `get_octet_size` counts for one address.
abbrev pub address_octet_size : Option Address → ℕ
address_octet_size none = 0
address_octet_size (some (Address.short _ _)) = 2 + 2
address_octet_size (some (Address.extended _ _)) = 2 + 8

abbrev pub get_octet_size : Header → ℕ
get_octet_size h = 3 + address_octet_size h.destination + address_octet_size h.source

-- The frame control field that belongs to a header.
abbrev pub frame_control : Header → FrameControl
frame_control h = record {
  frame_type = h.frame_type;
  security = has_security h;
  frame_pending = h.frame_pending;
  ack_request = h.ack_request;
  pan_id_compress = h.pan_id_compress;
  dest_addr_mode = Mode.of_option h.destination;
  version = h.version;
  src_addr_mode = Mode.of_option h.source;
}

-- The source can be written: compression wants a source, and to be read back it wants a
-- destination in the same PAN.
abbrev pub IsCompressible : Bool → Option Address → Option Address → Type 0
IsCompressible false destination source = Unit
IsCompressible true (some d) (some s) = pan_id s ≡ pan_id d
IsCompressible true none (some s) = ⊥
IsCompressible true destination none = ⊥

abbrev pub IsAddressOrNone : Option Address → Type 0
IsAddressOrNone none = Unit
IsAddressOrNone (some a) = IsAddress a

abbrev pub IsSecurityHeader : Option AuxiliarySecurityHeader → Type 0
IsSecurityHeader none = Unit
IsSecurityHeader (some a) = IsKeyId a.key_identifier

-- The numbers in the header fit their integers, and its source can be compressed if it is to be.
pub record IsHeader (h : Header) : Type 0 where
  pub seq_fits : h.seq < 256
  pub destination_fits : IsAddressOrNone h.destination
  pub source_fits : IsAddressOrNone h.source
  pub security_fits : IsSecurityHeader h.auxiliary_security_header
  pub compressible : IsCompressible h.pan_id_compress h.destination h.source
