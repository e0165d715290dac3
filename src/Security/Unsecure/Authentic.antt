-- ===== src/Security/Unsecure/Authentic.antt =====
-- What `unsecure_frame` of src/mac/frame/security/mod.rs has checked where it succeeds.
use rust_ieee.Base.{
  ℕ, ◌≤◌, ◌≡◌, refl, arith, true, false, ◌||◌, Option, none, some, List, ltb, ◌==◌, Bool-cases, inl,
  inr,
}
use rust_ieee.Outcome.{Outcome, ok, err, panic}
use rust_ieee.Target.{Target}
use rust_ieee.ByteLib.{ByteLib}
use rust_ieee.Address.{Address}
use rust_ieee.FrameControl.FrameType.{FrameType}
use rust_ieee.Security.AuxHeader.{AuxiliarySecurityHeader, get_frame_counter}
use rust_ieee.Security.Ccm.{Ccm}
use rust_ieee.Security.Context.{SecurityContext, AddressingMode}
use rust_ieee.Security.Device.{DeviceDescriptor, DeviceDescriptorLookup}
use rust_ieee.Security.Error.{SecurityError}
use rust_ieee.Security.Secure.{is_data, is_no_security}
use rust_ieee.Security.Unsecure.{
  is_2003, Unsecured, assign_counter, unsecure_from, unsecure_source, unsecure_keyed,
  unsecure_enabled, unsecure_frame,
}
use rust_ieee.Security.Unsecure.Admitted.{IsAdmitted}
use rust_ieee.Security.Unsecure.Opening.{Opens, IsOther, Checked, OpensTo, level-Checked}
use rust_ieee.Header.{Header}
use rust_ieee.Frame.{FooterMode}

is_data-data_frame : (f : FrameType) → is_data f ≡ true → f ≡ FrameType.data_frame
is_data-data_frame FrameType.data_frame e = refl
is_data-data_frame FrameType.beacon e = absurd (ground (arith, e))
is_data-data_frame FrameType.acknowledgement e = absurd (ground (arith, e))
is_data-data_frame FrameType.mac_command e = absurd (ground (arith, e))

no_replay :
    (device frame : ℕ)
    → (device == 0xFFFFFFFF || ltb frame device) ≡ false
    → (device ≤ frame) × ((device == 0xFFFFFFFF) ≡ false)
no_replay device frame e = (ground arith, ground arith)

module _ ⦃b : ByteLib⦄ (t : Target) (ccm : Ccm) where
  module _ (devices : DeviceDescriptorLookup) (h : Header) (buffer : List ℕ) (c : SecurityContext)
      (s : devices.Store) where
    abbrev lookup : Address → devices.Store × Option DeviceDescriptor
    lookup address = devices.lookup_device AddressingMode.src_addr_mode address s

    -- A frame that is admitted, from a device that is found and whose counter is not exhausted and
    -- not above that of the frame, and that the cipher opens with the key that is found.
    pub record Authentic (out : List ℕ) (taglen : ℕ) : Type 0 where
      pub aux : AuxiliarySecurityHeader
      pub address : Address
      pub key : ℕ × List ℕ
      pub device : DeviceDescriptor
      pub admitted : IsAdmitted h aux c address key
      pub found : (lookup address).1 ≡ some device
      pub fresh : device.frame_counter ≤ get_frame_counter aux
      pub unexhausted : (device.frame_counter == 0xFFFFFFFF) ≡ false
      pub opens : Opens ccm aux key buffer out taglen

    -- The error for a frame without security is given to no other.
    abbrev pub Refused : SecurityError → Type 0
    Refused SecurityError.security_not_enabled = h.auxiliary_security_header ≡ none
    Refused _ = Unit

    other-Refused : (e : SecurityError) → IsOther e → Refused e
    other-Refused SecurityError.security_not_enabled other = absurd other
    other-Refused _ other = tt

    abbrev pub OnAccepted : devices.Store × Outcome SecurityError (List ℕ × ℕ) → Type 0
    OnAccepted (s', ok (out, taglen)) = Authentic out taglen
    OnAccepted (s', err e) = Refused e
    OnAccepted (s', panic) = Unit

    module _ (a : AuxiliarySecurityHeader) (address : Address) (key : ℕ × List ℕ) where
      assigned :
          (d : DeviceDescriptor) (s' : devices.Store) (o : Outcome SecurityError Unsecured)
          → IsAdmitted h a c address key
          → (lookup address).1 ≡ some d
          → d.frame_counter ≤ get_frame_counter a
          → (d.frame_counter == 0xFFFFFFFF) ≡ false
          → Checked (OpensTo t ccm a key buffer) o
          → OnAccepted (assign_counter t ccm devices address d s' o)
      assigned d s' (ok u) v found fresh unexhausted opens = record {
        aux = a;
        address = address;
        key = key;
        device = d;
        admitted = v;
        found = found;
        fresh = fresh;
        unexhausted = unexhausted;
        opens = opens;
      }
      assigned d s' (err e) v found fresh unexhausted opens = other-Refused e opens
      assigned d s' panic v found fresh unexhausted opens = tt

      from_found :
          (x : devices.Store × Option DeviceDescriptor)
          → IsAdmitted h a c address key
          → (lookup address).1 ≡ x.1
          → OnAccepted (unsecure_from t ccm devices a key buffer address x)
      unfolding unsecure_from
      from_found (s', none) v found = tt
      from_found (s', some d) v found =
          elim (Bool-cases
            (d.frame_counter == 0xFFFFFFFF || ltb (get_frame_counter a) d.frame_counter)) [
              | inl e ↦ rw e tt
              | inr e ↦
                  let (fresh, unexhausted) = no_replay d.frame_counter (get_frame_counter a) e in
                  rw e (
                    assigned d s' _ v found fresh unexhausted
                      (level-Checked t ccm a key buffer a.control.security_level d v.has_level))
            ]

    from_source :
        (a : AuxiliarySecurityHeader) (key : ℕ × List ℕ) (source : Option Address)
        → ((address : Address) → source ≡ some address → IsAdmitted h a c address key)
        → OnAccepted (unsecure_source t ccm devices a key buffer source s)
    from_source a key none v = tt
    from_source a key (some address) v =
        from_found a address key (lookup address) (v address refl) refl

    -- The tests before the lookup of the key.
    record Passes (a : AuxiliarySecurityHeader) : Type 0 where
      secured : h.auxiliary_security_header ≡ some a
      has_data : is_data h.frame_type ≡ true
      recent : is_2003 h.version ≡ false
      has_level : is_no_security a.control.security_level ≡ false

    keyed :
        (a : AuxiliarySecurityHeader) (key : Option (ℕ × List ℕ))
        → Passes a
        → c.key_provider.lookup_key_descriptor AddressingMode.src_addr_mode a.key_identifier
            h.source
          ≡ key
        → OnAccepted (unsecure_keyed t ccm devices h a buffer key s)
    keyed a none v e = tt
    keyed a (some key) v e = from_source a key h.source (λ address from. record {
      secured = v.secured;
      has_data = is_data-data_frame h.frame_type v.has_data;
      recent = v.recent;
      has_level = v.has_level;
      has_source = from;
      has_key = rw (← from) e;
    })

    enabled :
        (a : Option AuxiliarySecurityHeader)
        → h.auxiliary_security_header ≡ a
        → OnAccepted (unsecure_enabled t ccm devices h buffer c a s)
    enabled none e = e
    enabled (some a) e = elim (Bool-cases (is_data h.frame_type)) [
      | inr other ↦ rw other tt
      | inl known ↦ elim (Bool-cases (is_2003 h.version)) [
        | inl legacy ↦ rw (known, legacy) tt
        | inr recent ↦ elim (Bool-cases (is_no_security a.control.security_level)) [
          | inl open' ↦ rw (known, recent, open') tt
          | inr level ↦
              rw (known, recent, level)
                (keyed a _
                  (record { secured = e; has_data = known; recent = recent; has_level = level })
                  refl)
        ]
      ]
    ]

    pub unsecure_frame-OnAccepted :
        (mode : FooterMode) → OnAccepted (unsecure_frame t ccm devices h buffer c mode s)
    unfolding unsecure_frame
    unsecure_frame-OnAccepted FooterMode.explicit = tt
    unsecure_frame-OnAccepted FooterMode.none = enabled h.auxiliary_security_header refl
