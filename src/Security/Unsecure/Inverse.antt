-- ===== src/Security/Unsecure/Inverse.antt =====
-- `unsecure_frame` against `secure_frame`, src/mac/frame/security/mod.rs.
use rust_ieee.Base.{
  ℕ, suc, ◌-◌, ◌≤◌, ◌<◌, ◌≡◌, refl, sym, ap, ◌∙◌, arith, false, ◌||◌, some, List, ◌++◌, length,
  length-append, take-append, drop-append, ltb, ◌==◌, le→leb,
}
use rust_ieee.Outcome.{ok}
use rust_ieee.Target.{Target, next_fits}
use rust_ieee.ByteLib.{ByteLib}
use rust_ieee.Address.{Address}
use rust_ieee.Security.AuxHeader.{AuxiliarySecurityHeader, get_frame_counter}
use rust_ieee.Security.Ccm.{Ccm}
use rust_ieee.Security.Context.{SecurityContext, AddressingMode}
use rust_ieee.Security.Control.Level.{SecurityLevel, get_mic_octet_size}
use rust_ieee.Security.Device.{DeviceDescriptor, DeviceDescriptorLookup}
use rust_ieee.Security.Error.{SecurityError}
use rust_ieee.Security.Nonce.{calculate_nonce}
use rust_ieee.Security.Secure.{transform}
use rust_ieee.Security.Secure.Cipher.{HasTag}
use rust_ieee.Security.Unsecure.Cipher.{restore-transform}
use rust_ieee.Security.Unsecure.Admitted.{IsAdmitted, admitted}
use rust_ieee.Security.Unsecure.{
  accept, assign_counter, do_unsecure, unsecure_level, unsecure_from, unsecure_frame,
}
use rust_ieee.Header.{Header}
use rust_ieee.Frame.{FooterMode}

-- No replay: the counter of the frame is not behind that of the device, which is below its maximum.
pub not_replayed :
    (device frame : ℕ)
    → device ≤ frame
    → device < 0xFFFFFFFF
    → (device == 0xFFFFFFFF || ltb frame device) ≡ false
not_replayed device frame h below = ground arith

-- The buffer is split where the tag begins.
start_of_tag : (part tag : List ℕ) (n : ℕ) → length tag ≡ n → length (part ++ tag) - n ≡ length part
start_of_tag part tag n e = omega (arith, length-append part tag)

room_for_tag : (part tag : List ℕ) (n : ℕ) → length tag ≡ n → n ≤ length (part ++ tag)
room_for_tag part tag n e = omega (arith, length-append part tag)

module _ ⦃b : ByteLib⦄ (t : Target) (ccm : Ccm) where
  -- The cipher gives the plain payload, and the counter of the frame is advanced.
  do_unsecure-transform :
      (a : AuxiliarySecurityHeader) (key nonce plain part tag : List ℕ)
      → transform ccm a.control.security_level key nonce plain ≡ some (part, tag)
      → do_unsecure t ccm a key nonce (part ++ tag)
        ≡ accept t ccm a tag (get_mic_octet_size a.control.security_level) (some plain)
  unfolding do_unsecure
  do_unsecure-transform a key nonce plain part tag sealed =
      let level = a.control.security_level in
      let (undone, size) = restore-transform ccm level key nonce plain part tag sealed in
      rw (
        le→leb (get_mic_octet_size level) (length (part ++ tag))
            (room_for_tag part tag (get_mic_octet_size level) size),
        start_of_tag part tag (get_mic_octet_size level) size,
        take-append part tag,
        drop-append part tag,
        undone,
      )

  pub level-HasTag :
      (l : SecurityLevel) (a : AuxiliarySecurityHeader) (key nonce buffer : List ℕ)
      (d : DeviceDescriptor)
      → HasTag l
      → unsecure_level t ccm l a key nonce buffer d ≡ do_unsecure t ccm a key nonce buffer
  level-HasTag SecurityLevel.none a key nonce buffer d h = absurd h
  level-HasTag SecurityLevel.enc a key nonce buffer d h = absurd h
  level-HasTag _ a key nonce buffer d h = refl

  -- An admitted frame that is no replay is handed to the cipher.
  pub not_replayed-unsecure :
      (devices : DeviceDescriptorLookup) (h : Header) (a : AuxiliarySecurityHeader)
      (c : SecurityContext) (s : devices.Store) (id : ℕ) (key : List ℕ) (address : Address)
      (d : DeviceDescriptor) (buffer : List ℕ)
      → IsAdmitted h a c address (id, key)
      → HasTag a.control.security_level
      → (devices.lookup_device AddressingMode.src_addr_mode address s).1 ≡ some d
      → d.frame_counter ≤ get_frame_counter a
      → d.frame_counter < 0xFFFFFFFF
      → unsecure_frame t ccm devices h buffer c FooterMode.none s
        ≡ assign_counter t ccm devices address d
            (devices.lookup_device AddressingMode.src_addr_mode address s).0
            (do_unsecure t ccm a key
              (calculate_nonce id (get_frame_counter a) a.control.security_level)
              buffer)
  unfolding unsecure_from
  not_replayed-unsecure devices h a c s id key address d buffer v level device fresh below = rw (
    admitted t ccm devices h a c address (id, key) buffer s v,
    device,
    not_replayed d.frame_counter (get_frame_counter a) fresh below,
    level-HasTag a.control.security_level a key
        (calculate_nonce id (get_frame_counter a) a.control.security_level) buffer d level,
  )

  -- An admitted frame that is no replay, whose payload and tag the cipher made with the key and the
  -- nonce of the sender: what is left is the counter.
  pub sealed-unsecure :
      (devices : DeviceDescriptorLookup) (h : Header) (a : AuxiliarySecurityHeader)
      (c : SecurityContext) (s : devices.Store) (id : ℕ) (key : List ℕ) (address : Address)
      (d : DeviceDescriptor) (plain part tag : List ℕ)
      → IsAdmitted h a c address (id, key)
      → HasTag a.control.security_level
      → (devices.lookup_device AddressingMode.src_addr_mode address s).1 ≡ some d
      → d.frame_counter ≤ get_frame_counter a
      → d.frame_counter < 0xFFFFFFFF
      → transform ccm a.control.security_level key
          (calculate_nonce id (get_frame_counter a) a.control.security_level)
          plain
        ≡ some (part, tag)
      → unsecure_frame t ccm devices h (part ++ tag) c FooterMode.none s
        ≡ assign_counter t ccm devices address d
            (devices.lookup_device AddressingMode.src_addr_mode address s).0
            (accept t ccm a tag (length tag) (some plain))
  sealed-unsecure devices h a c s id key address d plain part tag v level device fresh below
        sealed =
      let nonce = calculate_nonce id (get_frame_counter a) a.control.security_level in
      let assigned =
        assign_counter t ccm devices address d
          (devices.lookup_device AddressingMode.src_addr_mode address s).0 in
      not_replayed-unsecure devices h a c s id key address d (part ++ tag) v level device fresh
        below
      ∙ ap assigned (do_unsecure-transform a key nonce plain part tag sealed)
      ∙ ap (λ (n : ℕ). assigned (accept t ccm a tag n (some plain)))
          (sym (restore-transform ccm a.control.security_level key nonce plain part tag sealed).1)

  -- A data frame of a version after 2003, with a tag level and a payload and a tag that the cipher
  -- made with the key and the nonce of the sender, whose counter is below its maximum and not
  -- behind that of its device, is unsecured: the plain payload stands in the buffer again, with the
  -- tag behind it, and the counter of the device is one more than that of the frame.
  pub payload_is_unsecured :
      (devices : DeviceDescriptorLookup) (h : Header) (a : AuxiliarySecurityHeader)
      (c : SecurityContext) (s : devices.Store) (id : ℕ) (key : List ℕ) (address : Address)
      (d : DeviceDescriptor) (plain part tag : List ℕ)
      → IsAdmitted h a c address (id, key)
      → HasTag a.control.security_level
      → (devices.lookup_device AddressingMode.src_addr_mode address s).1 ≡ some d
      → d.frame_counter ≤ get_frame_counter a
      → get_frame_counter a < 0xFFFFFFFF
      → transform ccm a.control.security_level key
          (calculate_nonce id (get_frame_counter a) a.control.security_level)
          plain
        ≡ some (part, tag)
      → unsecure_frame t ccm devices h (part ++ tag) c FooterMode.none s ≡ (
        devices.assign AddressingMode.src_addr_mode address
            (record d { frame_counter = suc (get_frame_counter a) })
            (devices.lookup_device AddressingMode.src_addr_mode address s).0,
        ok (plain ++ tag, length tag),
      )
  payload_is_unsecured devices h a c s id key address d plain part tag v level device fresh below
        sealed =
      sealed-unsecure devices h a c s id key address d plain part tag v level device fresh
        (omega arith) sealed
      ∙ rw (next_fits {E = SecurityError} t (get_frame_counter a) (omega arith))
