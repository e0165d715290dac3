-- ===== src/Security/Context.antt =====
-- The lookup traits and `SecurityContext` of src/mac/frame/security/mod.rs. The traits are
-- implemented by the user of the crate, so they are records of functions.
use rust_ieee.Base.{ℕ, Option, List}
use rust_ieee.Address.{Address}
use rust_ieee.Security.AuxHeader.{KeyIdentifier}

pub data AddressingMode : Type 0 where
  dst_addr_mode src_addr_mode : AddressingMode

-- The key is a sequence of octets; the first component is the 64-bit identifier of the device.
pub record KeyDescriptorLookup : Type 0 where
  pub lookup_key_descriptor :
      AddressingMode → Option KeyIdentifier → Option Address → Option (ℕ × List ℕ)

pub record SecurityContext : Type 0 where
  pub euid : ℕ
  pub frame_counter : ℕ
  pub key_provider : KeyDescriptorLookup

-- `SecurityContext::new`.
abbrev pub new : ℕ → ℕ → KeyDescriptorLookup → SecurityContext
new euid frame_counter key_provider = record {
  euid = euid;
  frame_counter = frame_counter;
  key_provider = key_provider;
}

-- `Unimplemented` of src/mac/frame/security/default.rs: no lookup finds a key.
abbrev pub unimplemented_lookup : KeyDescriptorLookup
unimplemented_lookup = record { lookup_key_descriptor = λ mode id address. Option.none }

-- `SecurityContext::no_security`.
abbrev pub no_security : SecurityContext
no_security = record { euid = 0; frame_counter = 0; key_provider = unimplemented_lookup }
