-- ===== src/Security/Unsecure.antt =====
-- `unsecure_frame` of src/mac/frame/security/mod.rs. It returns the store of the devices as it is
-- afterwards, also where it fails, and the buffer with the length of the tag.
pub mod Cipher
pub mod Admitted
pub mod Inverse
pub mod Replay
pub mod Window
pub mod Overflow
pub mod Returning
pub mod Progress
pub mod Opening
pub mod Sealed
pub mod Authentic
use rust_ieee.Base.{
  ℕ, ◌-◌, ◌≡◌, Bool, true, false, ◌||◌, Option, none, some, List, [], ◌++◌, take, drop, length, leb,
  ltb, ◌==◌, if◌then◌else◌,
}
use rust_ieee.Outcome.{Outcome, ok, err, panic, and_then}
use rust_ieee.Target.{Target, next_u32}
use rust_ieee.ByteLib.{ByteLib}
use rust_ieee.Address.{Address}
use rust_ieee.FrameControl.FrameVersion.{FrameVersion}
use rust_ieee.Security.AuxHeader.{AuxiliarySecurityHeader, get_frame_counter}
use rust_ieee.Security.Ccm.{Ccm}
use rust_ieee.Security.Context.{SecurityContext, AddressingMode}
use rust_ieee.Security.Control.Level.{SecurityLevel, get_mic_octet_size}
use rust_ieee.Security.Device.{DeviceDescriptor, DeviceDescriptorLookup}
use rust_ieee.Security.Error.{SecurityError}
use rust_ieee.Security.Nonce.{calculate_nonce}
use rust_ieee.Security.Secure.{is_data, is_no_security}
use rust_ieee.Header.{Header}
use rust_ieee.Frame.{FooterMode}

abbrev pub is_2003 : FrameVersion → Bool
is_2003 FrameVersion.ieee802154_2003 = true
is_2003 _ = false

-- Data that is only verified stays as it is.
abbrev pub verified : List ℕ → Option (List ℕ) → Option (List ℕ)
verified part none = none
verified part (some _) = some part

-- The call of the cipher in the macro `do_unsecure`: the data afterwards.
unfoldable pub restore : Ccm → SecurityLevel → List ℕ → List ℕ → List ℕ → List ℕ → Option (List ℕ)
restore ccm SecurityLevel.mic32 key nonce part tag =
    verified part (ccm.decrypt 4 key nonce part [] tag)
restore ccm SecurityLevel.mic64 key nonce part tag =
    verified part (ccm.decrypt 8 key nonce part [] tag)
restore ccm SecurityLevel.mic128 key nonce part tag =
    verified part (ccm.decrypt 16 key nonce part [] tag)
restore ccm SecurityLevel.encmic32 key nonce part tag = ccm.decrypt 4 key nonce [] part tag
restore ccm SecurityLevel.encmic64 key nonce part tag = ccm.decrypt 8 key nonce [] part tag
restore ccm SecurityLevel.encmic128 key nonce part tag = ccm.decrypt 16 key nonce [] part tag
restore ccm SecurityLevel.none key nonce part tag = none
restore ccm SecurityLevel.enc key nonce part tag = none

-- What the match on the security level leaves: the new counter of the device, the buffer and the
-- length of the tag.
pub record Unsecured : Type 0 where
  pub counter : ℕ
  pub buffer : List ℕ
  pub taglen : ℕ

module _ ⦃b : ByteLib⦄ (t : Target) (ccm : Ccm) where
  -- The counter of the device is set behind the counter of the frame once the tag is verified.
  abbrev pub accept :
      AuxiliarySecurityHeader → List ℕ → ℕ → Option (List ℕ) → Outcome SecurityError Unsecured
  accept a tag taglen none = err SecurityError.transformation_error
  accept a tag taglen (some part) =
      and_then (next_u32 t (get_frame_counter a))
        (λ n. ok (record { counter = n; buffer = part ++ tag; taglen = taglen }))

  -- The tag is the end of the buffer; a buffer that is shorter cannot be sliced there, whether or
  -- not the subtraction is checked.
  unfoldable pub do_unsecure :
      AuxiliarySecurityHeader → List ℕ → List ℕ → List ℕ → Outcome SecurityError Unsecured
  do_unsecure a key nonce buffer =
      let level = a.control.security_level in
      let taglen = get_mic_octet_size level in
      let start = length buffer - taglen in
      if leb taglen (length buffer)
      then accept a (drop start buffer) taglen
          (restore ccm level key nonce (take start buffer) (drop start buffer))
      else panic

  -- The match on the security level, `d` being the device. The level none is refused before, so that
  -- its branch, which leaves the counter as it is, is not reached.
  abbrev pub unsecure_level :
      SecurityLevel
      → AuxiliarySecurityHeader
      → List ℕ
      → List ℕ
      → List ℕ
      → DeviceDescriptor
      → Outcome SecurityError Unsecured
  unsecure_level SecurityLevel.none a key nonce buffer d =
      ok (record { counter = d.frame_counter; buffer = buffer; taglen = 0 })
  unsecure_level SecurityLevel.enc a key nonce buffer d = err SecurityError.not_implemented
  unsecure_level level a key nonce buffer d = do_unsecure a key nonce buffer

  module _ (devices : DeviceDescriptorLookup) where
    abbrev pub Result : Type 0
    Result = devices.Store × Outcome SecurityError (List ℕ × ℕ)

    -- `*frame_counter = …` through the reference that the lookup gave.
    abbrev pub assign_counter :
        Address → DeviceDescriptor → devices.Store → Outcome SecurityError Unsecured → Result
    assign_counter address d s (ok u) = (
      devices.assign AddressingMode.src_addr_mode address (record d { frame_counter = u.counter })
          s,
      ok (u.buffer, u.taglen),
    )
    assign_counter address d s (err e) = (s, err e)
    assign_counter address d s panic = (s, panic)

    -- The test for a replay, and the rest with the device that the lookup found.
    unfoldable pub unsecure_from :
        AuxiliarySecurityHeader
        → ℕ × List ℕ
        → List ℕ
        → Address
        → devices.Store × Option DeviceDescriptor
        → Result
    unsecure_from a key buffer address (s, none) = (s, err SecurityError.unavailable_device)
    unsecure_from a key buffer address (s, some d) =
        let level = a.control.security_level in
        let nonce = calculate_nonce key.0 (get_frame_counter a) level in
        if d.frame_counter == 0xFFFFFFFF || ltb (get_frame_counter a) d.frame_counter
        then (s, err SecurityError.counter_error)
        else assign_counter address d s (unsecure_level level a key.1 nonce buffer d)

    abbrev pub unsecure_source :
        AuxiliarySecurityHeader → ℕ × List ℕ → List ℕ → Option Address → devices.Store → Result
    unsecure_source a key buffer none s = (s, err SecurityError.no_source_address)
    unsecure_source a key buffer (some address) s =
        unsecure_from a key buffer address
          (devices.lookup_device AddressingMode.src_addr_mode address s)

    abbrev pub unsecure_keyed :
        Header → AuxiliarySecurityHeader → List ℕ → Option (ℕ × List ℕ) → devices.Store → Result
    unsecure_keyed h a buffer none s = (s, err SecurityError.unavailable_key)
    unsecure_keyed h a buffer (some key) s = unsecure_source a key buffer h.source s

    -- `has_security` asks whether there is a security header, so the `AuxSecHeaderAbsent` behind it is
    -- not reached.
    abbrev pub unsecure_enabled :
        Header → List ℕ → SecurityContext → Option AuxiliarySecurityHeader → devices.Store → Result
    unsecure_enabled h buffer c none s = (s, err SecurityError.security_not_enabled)
    unsecure_enabled h buffer c (some a) s =
        if is_data h.frame_type
        then if is_2003 h.version
          then (s, err SecurityError.unsupported_legacy)
          else if is_no_security a.control.security_level
          then (s, err SecurityError.unsupported_security)
          else unsecure_keyed h a buffer
              (c.key_provider.lookup_key_descriptor AddressingMode.src_addr_mode a.key_identifier
                h.source)
              s
        else (s, err SecurityError.not_implemented)

    -- An explicit footer is `unimplemented!()`.
    unfoldable pub unsecure_frame :
        Header → List ℕ → SecurityContext → FooterMode → devices.Store → Result
    unsecure_frame h buffer c FooterMode.explicit s = (s, panic)
    unsecure_frame h buffer c FooterMode.none s =
        unsecure_enabled h buffer c h.auxiliary_security_header s
