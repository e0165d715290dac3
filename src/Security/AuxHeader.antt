-- ===== src/Security/AuxHeader.antt =====
-- The data of src/mac/frame/security/auxiliary_security_header.rs.
pub mod KeyId
pub mod Codec
pub mod RoundTrip
use rust_ieee.Base.{ℕ, ◌+◌, ◌^◌, ◌<◌, Option}
use rust_ieee.Security.Control.{SecurityControl}

pub data KeySource : Type 0 where
  short : ℕ → KeySource
  long : ℕ → KeySource

pub record KeyIdentifier : Type 0 where
  pub key_source : Option KeySource
  pub key_index : ℕ

pub record AuxiliarySecurityHeader : Type 0 where
  pub control : SecurityControl
  pub frame_counter : ℕ
  pub key_identifier : Option KeyIdentifier

abbrev pub source_octet_size : Option KeySource → ℕ
source_octet_size (Option.some (KeySource.short _)) = 5
source_octet_size (Option.some (KeySource.long _)) = 9
source_octet_size Option.none = 1

abbrev pub key_octet_size : Option KeyIdentifier → ℕ
key_octet_size (Option.some id) = source_octet_size id.key_source
key_octet_size Option.none = 0

abbrev pub get_octet_size : AuxiliarySecurityHeader → ℕ
get_octet_size a = 1 + 4 + key_octet_size a.key_identifier

-- `AuxiliarySecurityHeader::new`.
abbrev pub new : SecurityControl → Option KeyIdentifier → AuxiliarySecurityHeader
new control id = record { control = control; frame_counter = 0; key_identifier = id }

-- `AuxiliarySecurityHeader::new_unsafe`.
abbrev pub new_unsafe : SecurityControl → Option KeyIdentifier → ℕ → AuxiliarySecurityHeader
new_unsafe control id counter = record {
  control = control;
  frame_counter = counter;
  key_identifier = id;
}

abbrev pub get_frame_counter : AuxiliarySecurityHeader → ℕ
get_frame_counter a = a.frame_counter

-- The parts fit their integers.
abbrev pub IsSource : Option KeySource → Type 0
IsSource Option.none = Unit
IsSource (Option.some (KeySource.short s)) = s < 2 ^ 32
IsSource (Option.some (KeySource.long s)) = s < 2 ^ 64

abbrev pub IsKeyId : Option KeyIdentifier → Type 0
IsKeyId Option.none = Unit
IsKeyId (Option.some id) = IsSource id.key_source × (id.key_index < 256)
