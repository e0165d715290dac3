-- ===== src/Frame/Unsecure/Short.antt =====
-- `Frame::try_read_and_unsecure` on a secured frame that is shorter than its tag,
-- src/mac/frame/mod.rs.
use rust_ieee.Base.{ℕ, ◌≤◌, ◌<◌, ◌≡◌, ap, ◌∙◌, some, List, ◌++◌, length, lt→not_leb}
use rust_ieee.Outcome.{Outcome, panic}
use rust_ieee.Target.{Target}
use rust_ieee.ByteLib.{ByteLib}
use rust_ieee.Address.{Address}
use rust_ieee.Security.AuxHeader.{AuxiliarySecurityHeader, get_frame_counter}
use rust_ieee.Security.AuxHeader.RoundTrip as AuxTrip
use rust_ieee.Security.Ccm.{Ccm}
use rust_ieee.Security.Context.{SecurityContext, AddressingMode}
use rust_ieee.Security.Control.Level.{get_mic_octet_size}
use rust_ieee.Security.Device.{DeviceDescriptor, DeviceDescriptorLookup}
use rust_ieee.Security.Error.{SecurityError}
use rust_ieee.Security.Nonce.{calculate_nonce}
use rust_ieee.Security.Secure.Cipher.{HasTag}
use rust_ieee.Security.Unsecure.{do_unsecure, assign_counter}
use rust_ieee.Security.Unsecure.Admitted.{IsAdmitted}
use rust_ieee.Security.Unsecure.Inverse.{not_replayed-unsecure}
use rust_ieee.Header.{Header, IsHeader, is_some}
use rust_ieee.Header.Write as HeaderWrite
use rust_ieee.Header.RoundTrip as HeaderTrip
use rust_ieee.Frame.{FrameContent, FooterMode}
use rust_ieee.Frame.Write.{new}
use rust_ieee.Frame.Unsecure.{read_unsecured, unsecured, try_read_and_unsecure}
use rust_ieee.Frame.Unsecure.RoundTrip.{received-IsAdmitted, secured_data-read}

module _ ⦃b : ByteLib⦄ (t : Target) (ccm : Ccm) (devices : DeviceDescriptorLookup) where
  lacks_tag :
      (a : AuxiliarySecurityHeader) (key nonce buffer : List ℕ)
      → length buffer < get_mic_octet_size a.control.security_level
      → do_unsecure t ccm a key nonce buffer ≡ panic
  unfolding do_unsecure
  lacks_tag a key nonce buffer short =
      rw (lt→not_leb (get_mic_octet_size a.control.security_level) (length buffer) short)

  -- The octets of a valid, admitted data frame with a tag level whose counter is not behind that of
  -- its device, which is below the maximum, but with fewer octets behind the header than the tag
  -- takes, make `try_read_and_unsecure` panic, in any build.
  pub short_frame_panics :
      (h : Header) (a : AuxiliarySecurityHeader) (c : SecurityContext) (s : devices.Store)
      (key : ℕ × List ℕ) (address : Address) (d : DeviceDescriptor) (counter : ℕ) (tail : List ℕ)
      → IsHeader h
      → IsAdmitted h a c address key
      → HasTag a.control.security_level
      → (devices.lookup_device AddressingMode.src_addr_mode address s).1 ≡ some d
      → d.frame_counter ≤ get_frame_counter (AuxTrip.received b.native counter a)
      → d.frame_counter < 0xFFFFFFFF
      → length tail < get_mic_octet_size a.control.security_level
      → try_read_and_unsecure t ccm devices
          (HeaderWrite.encoding b.native counter h ++ tail)
          (new FooterMode.none (some c))
          s
        ≡ ((devices.lookup_device AddressingMode.src_addr_mode address s).0, panic)
  short_frame_panics h a c s key address d counter tail v v' level found fresh below short =
      let h' = HeaderTrip.received b.native counter h in
      let a' = AuxTrip.received b.native counter a in
      let w = received-IsAdmitted b.native counter h a c address key v' in
      let enc = HeaderWrite.encoding b.native counter h in
      let s' = (devices.lookup_device AddressingMode.src_addr_mode address s).0 in
      let rest = λ (r : devices.Store × Outcome SecurityError (List ℕ × ℕ)).
        read_unsecured t ccm devices h' FrameContent.data_content (length enc)
          (unsecured t ccm devices (enc ++ tail) (length enc) r) in
      secured_data-read t ccm devices h c s counter tail v v'.has_data (ap is_some w.secured)
      ∙ ap rest (
          not_replayed-unsecure t ccm devices h' a' c s key.0 key.1 address d tail w level found
            fresh below)
      ∙ ap (λ o. rest (assign_counter t ccm devices address d s' o))
          (lacks_tag a' key.1
            (calculate_nonce key.0 (get_frame_counter a') a'.control.security_level) tail short)
