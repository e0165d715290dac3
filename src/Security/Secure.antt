-- ===== src/Security/Secure.antt =====
-- `secure_frame` of src/mac/frame/security/mod.rs. It returns the security context as it is
-- afterwards, also where it fails. The frame is given by its header and its payload.
pub mod Cipher
pub mod Counter
pub mod Payload
pub mod Sized
pub mod Asked
pub mod Session
use rust_ieee.Base.{
  ℕ, suc, ◌+◌, ◌≡◌, Bool, true, false, Option, none, some, List, [], ◌++◌, take, drop, length, leb,
  ◌==◌, if◌then◌else◌,
}
use rust_ieee.Outcome.{Outcome, ok, err, panic, map_err}
use rust_ieee.ByteLib.{ByteLib}
use rust_ieee.FrameControl.FrameType.{FrameType}
use rust_ieee.Security.AuxHeader as Aux
use rust_ieee.Security.AuxHeader.{AuxiliarySecurityHeader}
use rust_ieee.Security.Ccm.{Ccm}
use rust_ieee.Security.Context.{SecurityContext, AddressingMode}
use rust_ieee.Security.Control.Level.{SecurityLevel, get_mic_octet_size}
use rust_ieee.Security.Error.{SecurityError}
use rust_ieee.Security.Nonce.{calculate_nonce}
use rust_ieee.Header.{Header, get_octet_size}
use rust_ieee.Frame.{FooterMode}

abbrev pub is_data : FrameType → Bool
is_data FrameType.data_frame = true
is_data _ = false

abbrev pub is_no_security : SecurityLevel → Bool
is_no_security SecurityLevel.none = true
is_no_security _ = false

-- `context.frame_counter += 1`, where the counter is not at its maximum.
abbrev pub advance : SecurityContext → SecurityContext
advance c = record c { frame_counter = suc c.frame_counter }

-- aMaxPHYPacketSize against payload, header, security header, tag and checksum.
abbrev pub packet_size : Header → AuxiliarySecurityHeader → List ℕ → ℕ
packet_size h a payload =
    length payload
    + get_octet_size h
    + Aux.get_octet_size a
    + get_mic_octet_size a.control.security_level
    + 2

-- A tag over data that stays as it is.
abbrev pub authenticated : List ℕ → Option (List ℕ × List ℕ) → Option (List ℕ × List ℕ)
authenticated part none = none
authenticated part (some p) = some (part, p.1)

-- The call of the cipher in the macro `do_secure`: the data afterwards and the tag.
unfoldable pub transform : Ccm → SecurityLevel → List ℕ → List ℕ → List ℕ → Option (List ℕ × List ℕ)
transform ccm SecurityLevel.mic32 key nonce part =
    authenticated part (ccm.encrypt 4 key nonce part [])
transform ccm SecurityLevel.mic64 key nonce part =
    authenticated part (ccm.encrypt 8 key nonce part [])
transform ccm SecurityLevel.mic128 key nonce part =
    authenticated part (ccm.encrypt 16 key nonce part [])
transform ccm SecurityLevel.encmic32 key nonce part = ccm.encrypt 4 key nonce [] part
transform ccm SecurityLevel.encmic64 key nonce part = ccm.encrypt 8 key nonce [] part
transform ccm SecurityLevel.encmic128 key nonce part = ccm.encrypt 16 key nonce [] part
transform ccm SecurityLevel.none key nonce part = none
transform ccm SecurityLevel.enc key nonce part = none

module _ ⦃b : ByteLib⦄ where
  -- The tag behind the data, which stands in front of `offset`.
  abbrev pub write_tag : List ℕ → ℕ → Option (List ℕ × List ℕ) → Outcome SecurityError (List ℕ × ℕ)
  write_tag buffer offset none = err SecurityError.transformation_error
  write_tag buffer offset (some (part, tag)) =
      map_err SecurityError.write_error
        (b.write_with (b.write_slice tag) (part ++ drop offset buffer) offset)

  -- The match on the security level.
  unfoldable pub secure_with_key :
      Ccm → SecurityLevel → List ℕ → List ℕ → List ℕ → ℕ → Outcome SecurityError (List ℕ × ℕ)
  secure_with_key ccm SecurityLevel.none key nonce buffer offset = ok (buffer, offset)
  secure_with_key ccm SecurityLevel.enc key nonce buffer offset = err SecurityError.not_implemented
  secure_with_key ccm level key nonce buffer offset =
      write_tag buffer offset (transform ccm level key nonce (take offset buffer))

  -- With the key that the lookup finds.
  abbrev pub secure_found :
      Ccm
      → AuxiliarySecurityHeader
      → List ℕ
      → List ℕ
      → ℕ
      → Option (ℕ × List ℕ)
      → Outcome SecurityError (List ℕ × ℕ)
  secure_found ccm a nonce buffer offset none = err SecurityError.unavailable_key
  secure_found ccm a nonce buffer offset (some (id, key)) =
      secure_with_key ccm a.control.security_level key nonce buffer offset

  -- Once the payload is written: the counter is tested, used for the nonce and advanced.
  abbrev pub secure_written :
      Ccm
      → Header
      → AuxiliarySecurityHeader
      → SecurityContext
      → Outcome b.Error (List ℕ × ℕ)
      → SecurityContext × Outcome SecurityError (List ℕ × ℕ)
  secure_written ccm h a c (err e) = (c, err (SecurityError.write_error e))
  secure_written ccm h a c panic = (c, panic)
  secure_written ccm h a c (ok (buffer, offset)) =
      if is_no_security a.control.security_level
      then (c, ok (buffer, offset))
      else if c.frame_counter == 0xFFFFFFFF
      then (c, err SecurityError.counter_error)
      else (
        advance c,
        secure_found ccm a (calculate_nonce c.euid c.frame_counter a.control.security_level) buffer
            offset
            (c.key_provider.lookup_key_descriptor AddressingMode.dst_addr_mode a.key_identifier
              h.destination),
      )

  abbrev pub secure_enabled :
      Ccm
      → Header
      → List ℕ
      → Option AuxiliarySecurityHeader
      → SecurityContext
      → List ℕ
      → SecurityContext × Outcome SecurityError (List ℕ × ℕ)
  secure_enabled ccm h payload none c buffer = (c, err SecurityError.security_not_enabled)
  secure_enabled ccm h payload (some a) c buffer =
      if is_data h.frame_type
      then if leb (packet_size h a payload) 127
        then secure_written ccm h a c (b.write_with (b.write_slice payload) buffer 0)
        else (c, err SecurityError.frame_too_long)
      else (c, err SecurityError.not_implemented)

  -- An explicit footer is `unimplemented!()`.
  unfoldable pub secure_frame :
      Ccm
      → Header
      → List ℕ
      → SecurityContext
      → FooterMode
      → List ℕ
      → SecurityContext × Outcome SecurityError (List ℕ × ℕ)
  secure_frame ccm h payload c FooterMode.explicit buffer = (c, panic)
  secure_frame ccm h payload c FooterMode.none buffer =
      secure_enabled ccm h payload h.auxiliary_security_header c buffer
