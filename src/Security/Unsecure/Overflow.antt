-- ===== src/Security/Unsecure/Overflow.antt =====
-- The largest counter that a frame can carry, in `unsecure_frame` of
-- src/mac/frame/security/mod.rs.
use rust_ieee.Base.{
  ℕ, ◌<◌, ◌≡◌, refl, sym, ap, ◌∙◌, arith, Bool, true, false, some, List, ◌++◌, length,
  if◌then◌else◌,
}
use rust_ieee.Outcome.{Outcome, ok, panic, and_then}
use rust_ieee.Target.{Target, next_u32}
use rust_ieee.ByteLib.{ByteLib}
use rust_ieee.Address.{Address}
use rust_ieee.Security.AuxHeader.{AuxiliarySecurityHeader, get_frame_counter}
use rust_ieee.Security.Ccm.{Ccm}
use rust_ieee.Security.Context.{SecurityContext, AddressingMode}
use rust_ieee.Security.Device.{DeviceDescriptor, DeviceDescriptorLookup}
use rust_ieee.Security.Error.{SecurityError}
use rust_ieee.Security.Nonce.{calculate_nonce}
use rust_ieee.Security.Secure.{transform}
use rust_ieee.Security.Secure.Cipher.{HasTag}
use rust_ieee.Security.Unsecure.{Result, assign_counter, unsecure_frame}
use rust_ieee.Security.Unsecure.Admitted.{IsAdmitted}
use rust_ieee.Security.Unsecure.Inverse.{sealed-unsecure}
use rust_ieee.Header.{Header}
use rust_ieee.Frame.{FooterMode}

next_of_last :
    {E : Type 0} (t : Target)
    → next_u32 {E = E} t 0xFFFFFFFF ≡ (if t.overflow_checks then panic else ok 0)
unfolding next_u32
next_of_last t = refl

module _ ⦃b : ByteLib⦄ (t : Target) (ccm : Ccm) (devices : DeviceDescriptorLookup) where
  -- The device with its counter back at 0, or a panic.
  abbrev pub wrapped :
      Bool → Address → DeviceDescriptor → devices.Store → List ℕ → List ℕ → Result t ccm devices
  wrapped true address d s plain tag = (s, panic)
  wrapped false address d s plain tag = (
    devices.assign AddressingMode.src_addr_mode address (record d { frame_counter = 0 }) s,
    ok (plain ++ tag, length tag),
  )

  assigned :
      (checks : Bool) (address : Address) (d : DeviceDescriptor) (s : devices.Store)
      (plain tag : List ℕ) (o : Outcome SecurityError ℕ)
      → o ≡ (if checks then panic else ok 0)
      → assign_counter t ccm devices address d s (
          and_then o (λ n. ok (record { counter = n; buffer = plain ++ tag; taglen = length tag })))
        ≡ wrapped checks address d s plain tag
  assigned true address d s plain tag o e = rw e
  assigned false address d s plain tag o e = rw e

  -- An admitted frame with a tag level, whose payload and tag the cipher made with the key and the
  -- nonce of the sender and whose counter is 0xFFFFFFFF, from a device whose counter is below that:
  -- a build that checks overflow panics; any other accepts the frame and sets the counter of the
  -- device back to 0.
  pub last_counter_wraps :
      (h : Header) (a : AuxiliarySecurityHeader) (c : SecurityContext) (s : devices.Store) (id : ℕ)
      (key : List ℕ) (address : Address) (d : DeviceDescriptor) (plain part tag : List ℕ)
      → IsAdmitted h a c address (id, key)
      → HasTag a.control.security_level
      → (devices.lookup_device AddressingMode.src_addr_mode address s).1 ≡ some d
      → d.frame_counter < 0xFFFFFFFF
      → get_frame_counter a ≡ 0xFFFFFFFF
      → transform ccm a.control.security_level key
          (calculate_nonce id 0xFFFFFFFF a.control.security_level)
          plain
        ≡ some (part, tag)
      → unsecure_frame t ccm devices h (part ++ tag) c FooterMode.none s
        ≡ wrapped t.overflow_checks address d
            (devices.lookup_device AddressingMode.src_addr_mode address s).0
            plain
            tag
  last_counter_wraps h a c s id key address d plain part tag v level device below last sealed =
      sealed-unsecure t ccm devices h a c s id key address d plain part tag v level device
        (omega arith) below (rw (sym last) at sealed)
      ∙ assigned t.overflow_checks address d
          (devices.lookup_device AddressingMode.src_addr_mode address s).0 plain tag
          (next_u32 t (get_frame_counter a)) (ap (next_u32 t) last ∙ next_of_last t)
