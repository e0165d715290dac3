-- ===== src/Security/Control.antt =====
-- src/mac/frame/security/security_control.rs: the security level, the key identifier mode and the
-- octet that holds both.
pub mod Level
pub mod KeyMode
pub mod Codec
use Level.{SecurityLevel}
use KeyMode.{KeyIdentifierMode}

pub record SecurityControl : Type 0 where
  pub security_level : SecurityLevel
  pub key_id_mode : KeyIdentifierMode

-- `SecurityControl::new`.
abbrev pub new : SecurityLevel → SecurityControl
new level = record { security_level = level; key_id_mode = KeyIdentifierMode.none }
