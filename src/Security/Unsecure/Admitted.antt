-- ===== src/Security/Unsecure/Admitted.antt =====
-- The tests of `unsecure_frame` that come before the lookup of the device,
-- src/mac/frame/security/mod.rs.
use rust_ieee.Base.{ℕ, ◌≡◌, false, some, List}
use rust_ieee.Target.{Target}
use rust_ieee.ByteLib.{ByteLib}
use rust_ieee.Address.{Address}
use rust_ieee.FrameControl.FrameType.{FrameType}
use rust_ieee.Security.AuxHeader.{AuxiliarySecurityHeader}
use rust_ieee.Security.Ccm.{Ccm}
use rust_ieee.Security.Context.{SecurityContext, AddressingMode}
use rust_ieee.Security.Device.{DeviceDescriptorLookup}
use rust_ieee.Security.Secure.{is_no_security}
use rust_ieee.Security.Unsecure.{is_2003, unsecure_from, unsecure_frame}
use rust_ieee.Header.{Header}
use rust_ieee.Frame.{FooterMode}

-- A data frame of a version after 2003 with a security level and a source, for which there is a key.
pub record IsAdmitted (h : Header) (a : AuxiliarySecurityHeader) (c : SecurityContext)
    (address : Address) (key : ℕ × List ℕ) : Type 0 where
  pub secured : h.auxiliary_security_header ≡ some a
  pub has_data : h.frame_type ≡ FrameType.data_frame
  pub recent : is_2003 h.version ≡ false
  pub has_level : is_no_security a.control.security_level ≡ false
  pub has_source : h.source ≡ some address
  pub has_key :
      c.key_provider.lookup_key_descriptor AddressingMode.src_addr_mode a.key_identifier
        (some address)
      ≡ some key

module _ ⦃b : ByteLib⦄ (t : Target) (ccm : Ccm) (devices : DeviceDescriptorLookup) where
  pub admitted :
      (h : Header) (a : AuxiliarySecurityHeader) (c : SecurityContext) (address : Address)
      (key : ℕ × List ℕ) (buffer : List ℕ) (s : devices.Store)
      → IsAdmitted h a c address key
      → unsecure_frame t ccm devices h buffer c FooterMode.none s
        ≡ unsecure_from t ccm devices a key buffer address
            (devices.lookup_device AddressingMode.src_addr_mode address s)
  unfolding unsecure_frame
  admitted h a c address key buffer s v =
      rw (v.secured, v.has_data, v.recent, v.has_level, v.has_source, v.has_key)
