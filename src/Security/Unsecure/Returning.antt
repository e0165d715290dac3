-- ===== src/Security/Unsecure/Returning.antt =====
-- Where `unsecure_frame` of src/mac/frame/security/mod.rs does not panic.
use rust_ieee.Base.{
  ℕ, suc, ◌≤◌, ◌≡◌, false, ◌||◌, Option, none, some, List, length, ltb, ◌==◌, le→leb, Bool-cases,
  inl, inr, ◌^◌,
}
use rust_ieee.Outcome.{Outcome, ok, err, panic, and_then}
use rust_ieee.Target.{Target, next_u32}
use rust_ieee.ByteLib.{ByteLib}
use rust_ieee.ByteLib.Bounds.{Returns}
use rust_ieee.Address.{Address}
use rust_ieee.Security.AuxHeader.{AuxiliarySecurityHeader, get_frame_counter}
use rust_ieee.Security.Ccm.{Ccm}
use rust_ieee.Security.Context.{SecurityContext, AddressingMode}
use rust_ieee.Security.Control.Level.{SecurityLevel, get_mic_octet_size}
use rust_ieee.Security.Device.{DeviceDescriptor, DeviceDescriptorLookup}
use rust_ieee.Security.Error.{SecurityError}
use rust_ieee.Security.Secure.{is_data, is_no_security}
use rust_ieee.Security.Unsecure.{
  is_2003, Unsecured, accept, do_unsecure, unsecure_level, assign_counter, unsecure_from,
  unsecure_source, unsecure_keyed, unsecure_enabled, unsecure_frame,
}
use rust_ieee.Header.{Header}
use rust_ieee.Frame.{FooterMode}

-- The tag that the header announces.
abbrev pub tag_octets : Option AuxiliarySecurityHeader → ℕ
tag_octets none = 0
tag_octets (some a) = get_mic_octet_size a.control.security_level

next_u32-Returns :
    (E : Type 0) (t : Target) (n : ℕ) → t.overflow_checks ≡ false → Returns (next_u32 {E = E} t n)
unfolding next_u32
next_u32-Returns E t n wraps = elim (Bool-cases (ltb (suc n) (2 ^ 32))) [
  | inl e ↦ rw e tt
  | inr e ↦ rw (e, wraps) tt
]

module _ ⦃b : ByteLib⦄ (t : Target) (ccm : Ccm) where
  accepted-Returns :
      (o : Outcome SecurityError ℕ) (make : ℕ → Unsecured)
      → Returns o
      → Returns (and_then o (λ n. ok (make n)))
  accepted-Returns (ok n) make h = tt
  accepted-Returns (err e) make h = tt
  accepted-Returns panic make h = h

  accept-Returns :
      (a : AuxiliarySecurityHeader) (tag : List ℕ) (taglen : ℕ) (o : Option (List ℕ))
      → t.overflow_checks ≡ false
      → Returns (accept t ccm a tag taglen o)
  accept-Returns a tag taglen none wraps = tt
  accept-Returns a tag taglen (some part) wraps =
      accepted-Returns (next_u32 t (get_frame_counter a)) _
        (next_u32-Returns SecurityError t (get_frame_counter a) wraps)

  do_unsecure-Returns :
      (a : AuxiliarySecurityHeader) (key nonce buffer : List ℕ)
      → t.overflow_checks ≡ false
      → get_mic_octet_size a.control.security_level ≤ length buffer
      → Returns (do_unsecure t ccm a key nonce buffer)
  unfolding do_unsecure
  do_unsecure-Returns a key nonce buffer wraps room =
      rw (le→leb (get_mic_octet_size a.control.security_level) (length buffer) room)
        (accept-Returns a _ _ _ wraps)

  level-Returns :
      (l : SecurityLevel) (a : AuxiliarySecurityHeader) (key nonce buffer : List ℕ)
      (d : DeviceDescriptor)
      → t.overflow_checks ≡ false
      → get_mic_octet_size a.control.security_level ≤ length buffer
      → Returns (unsecure_level t ccm l a key nonce buffer d)
  level-Returns SecurityLevel.none a key nonce buffer d wraps room = tt
  level-Returns SecurityLevel.enc a key nonce buffer d wraps room = tt
  level-Returns _ a key nonce buffer d wraps room =
      do_unsecure-Returns a key nonce buffer wraps room

  module _ (devices : DeviceDescriptorLookup) where
    assign_counter-Returns :
        (address : Address) (d : DeviceDescriptor) (s : devices.Store)
        (o : Outcome SecurityError Unsecured)
        → Returns o
        → Returns (assign_counter t ccm devices address d s o).1
    assign_counter-Returns address d s (ok u) h = tt
    assign_counter-Returns address d s (err e) h = tt
    assign_counter-Returns address d s panic h = h

    unsecure_from-Returns :
        (a : AuxiliarySecurityHeader) (key : ℕ × List ℕ) (buffer : List ℕ) (address : Address)
        (s : devices.Store) (found : Option DeviceDescriptor)
        → t.overflow_checks ≡ false
        → get_mic_octet_size a.control.security_level ≤ length buffer
        → Returns (unsecure_from t ccm devices a key buffer address (s, found)).1
    unfolding unsecure_from
    unsecure_from-Returns a key buffer address s none wraps room = tt
    unsecure_from-Returns a key buffer address s (some d) wraps room =
        elim (Bool-cases
          (d.frame_counter == 0xFFFFFFFF || ltb (get_frame_counter a) d.frame_counter)) [
            | inl e ↦ rw e tt
            | inr e ↦ rw e (
                assign_counter-Returns address d s _
                  (level-Returns a.control.security_level a key.1 _ buffer d wraps room))
          ]

    unsecure_source-Returns :
        (a : AuxiliarySecurityHeader) (key : ℕ × List ℕ) (buffer : List ℕ) (source : Option Address)
        (s : devices.Store)
        → t.overflow_checks ≡ false
        → get_mic_octet_size a.control.security_level ≤ length buffer
        → Returns (unsecure_source t ccm devices a key buffer source s).1
    unsecure_source-Returns a key buffer none s wraps room = tt
    unsecure_source-Returns a key buffer (some address) s wraps room =
        let (s', found) = devices.lookup_device AddressingMode.src_addr_mode address s in
        unsecure_from-Returns a key buffer address s' found wraps room

    unsecure_keyed-Returns :
        (h : Header) (a : AuxiliarySecurityHeader) (buffer : List ℕ) (key : Option (ℕ × List ℕ))
        (s : devices.Store)
        → t.overflow_checks ≡ false
        → get_mic_octet_size a.control.security_level ≤ length buffer
        → Returns (unsecure_keyed t ccm devices h a buffer key s).1
    unsecure_keyed-Returns h a buffer none s wraps room = tt
    unsecure_keyed-Returns h a buffer (some key) s wraps room =
        unsecure_source-Returns a key buffer h.source s wraps room

    unsecure_enabled-Returns :
        (h : Header) (buffer : List ℕ) (c : SecurityContext) (a : Option AuxiliarySecurityHeader)
        (s : devices.Store)
        → t.overflow_checks ≡ false
        → tag_octets a ≤ length buffer
        → Returns (unsecure_enabled t ccm devices h buffer c a s).1
    unsecure_enabled-Returns h buffer c none s wraps room = tt
    unsecure_enabled-Returns h buffer c (some a) s wraps room =
        elim (Bool-cases (is_data h.frame_type)) [
          | inr e ↦ rw e tt
          | inl known ↦ elim (Bool-cases (is_2003 h.version)) [
            | inl e ↦ rw (known, e) tt
            | inr recent ↦ elim (Bool-cases (is_no_security a.control.security_level)) [
              | inl e ↦ rw (known, recent, e) tt
              | inr level ↦
                  rw (known, recent, level) (unsecure_keyed-Returns h a buffer _ s wraps room)
            ]
          ]
        ]

    pub unsecure_frame-Returns :
        (h : Header) (buffer : List ℕ) (c : SecurityContext) (s : devices.Store)
        → t.overflow_checks ≡ false
        → tag_octets h.auxiliary_security_header ≤ length buffer
        → Returns (unsecure_frame t ccm devices h buffer c FooterMode.none s).1
    unfolding unsecure_frame
    unsecure_frame-Returns h buffer c s wraps room =
        unsecure_enabled-Returns h buffer c h.auxiliary_security_header s wraps room
