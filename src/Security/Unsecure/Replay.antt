-- ===== src/Security/Unsecure/Replay.antt =====
-- The counter of a device while frames from its address arrive at `unsecure_frame`,
-- src/mac/frame/security/mod.rs.
use rust_ieee.Base.{
  ℕ, suc, ◌≤◌, ◌<◌, ◌≡◌, refl, ◌∙◌, arith, true, false, ◌||◌, Option, none, some, List, length, leb,
  ltb, ◌==◌, Bool-cases, inl, inr,
}
use rust_ieee.Outcome.{Outcome, ok, err, panic}
use rust_ieee.Target.{Target, next_fits}
use rust_ieee.ByteLib.{ByteLib}
use rust_ieee.Address.{Address}
use rust_ieee.Security.AuxHeader.{AuxiliarySecurityHeader, get_frame_counter}
use rust_ieee.Security.Ccm.{Ccm}
use rust_ieee.Security.Context.{SecurityContext, AddressingMode}
use rust_ieee.Security.Control.Level.{SecurityLevel, get_mic_octet_size}
use rust_ieee.Security.Device.{DeviceDescriptor, DeviceDescriptorLookup}
use rust_ieee.Security.Error.{SecurityError}
use rust_ieee.Security.Secure.{is_data, is_no_security}
use rust_ieee.Security.Unsecure.{
  is_2003, Unsecured, accept, do_unsecure, unsecure_level, assign_counter, unsecure_from,
  unsecure_keyed, unsecure_enabled, unsecure_frame,
}
use rust_ieee.Header.{Header}
use rust_ieee.Frame.{FooterMode}

-- The counter in a header; without a security header it does not matter.
abbrev pub counter_of : Option AuxiliarySecurityHeader → ℕ
counter_of none = 0
counter_of (some a) = get_frame_counter a

passes : (device frame : ℕ) → (device == 0xFFFFFFFF || ltb frame device) ≡ false → device ≤ frame
passes device frame e = ground arith

pub replayed :
    (device frame : ℕ) → frame < device → (device == 0xFFFFFFFF || ltb frame device) ≡ true
replayed device frame h = ground arith

module _ ⦃b : ByteLib⦄ (t : Target) (ccm : Ccm) where
  -- A result of the cipher part sets the counter behind that of the frame.
  abbrev SetsCounter : ℕ → Outcome SecurityError Unsecured → Type 0
  SetsCounter frame (ok u) = u.counter ≡ suc frame
  SetsCounter frame (err e) = Unit
  SetsCounter frame panic = Unit

  accept-SetsCounter :
      (a : AuxiliarySecurityHeader) (tag : List ℕ) (taglen : ℕ) (o : Option (List ℕ))
      → get_frame_counter a < 0xFFFFFFFF
      → SetsCounter (get_frame_counter a) (accept t ccm a tag taglen o)
  accept-SetsCounter a tag taglen none below = tt
  accept-SetsCounter a tag taglen (some part) below =
      rw (next_fits {E = SecurityError} t (get_frame_counter a) (omega arith)) refl

  do_unsecure-SetsCounter :
      (a : AuxiliarySecurityHeader) (key nonce buffer : List ℕ)
      → get_frame_counter a < 0xFFFFFFFF
      → SetsCounter (get_frame_counter a) (do_unsecure t ccm a key nonce buffer)
  unfolding do_unsecure
  do_unsecure-SetsCounter a key nonce buffer below =
      elim (Bool-cases (leb (get_mic_octet_size a.control.security_level) (length buffer))) [
        | inl e ↦ rw e (accept-SetsCounter a _ _ _ below)
        | inr e ↦ rw e tt
      ]

  level-SetsCounter :
      (l : SecurityLevel) (a : AuxiliarySecurityHeader) (key nonce buffer : List ℕ)
      (d : DeviceDescriptor)
      → is_no_security l ≡ false
      → get_frame_counter a < 0xFFFFFFFF
      → SetsCounter (get_frame_counter a) (unsecure_level t ccm l a key nonce buffer d)
  level-SetsCounter SecurityLevel.none a key nonce buffer d e below = absurd (ground (arith, e))
  level-SetsCounter SecurityLevel.enc a key nonce buffer d e below = tt
  level-SetsCounter _ a key nonce buffer d e below =
      do_unsecure-SetsCounter a key nonce buffer below

  module _ (devices : DeviceDescriptorLookup) (address : Address) where
    -- The lookup finds a device with this counter.
    abbrev pub CounterIs : devices.Store → ℕ → Type 0
    CounterIs s n =
        (d : DeviceDescriptor) × ((devices.lookup_device AddressingMode.src_addr_mode address s).1
          ≡ some d)
        × (d.frame_counter ≡ n)

    -- From the counter `n` of the device, a frame with the counter `frame` is accepted where it is
    -- not behind `n`, and moves the counter behind itself; a frame that is refused leaves it alone.
    abbrev pub Moves : ℕ → ℕ → devices.Store × Outcome SecurityError (List ℕ × ℕ) → Type 0
    Moves n frame (s, ok r) = (n ≤ frame) × CounterIs s (suc frame)
    Moves n frame (s, err e) = CounterIs s n
    Moves n frame (s, panic) = CounterIs s n

    pub found_again :
        (s : devices.Store) (n : ℕ)
        → CounterIs s n
        → CounterIs (devices.lookup_device AddressingMode.src_addr_mode address s).0 n
    found_again s n (d, found, count) =
        (d, devices.lookup_again AddressingMode.src_addr_mode address s ∙ found, count)

    assign_counter-Moves :
        (s : devices.Store) (n frame : ℕ) (d : DeviceDescriptor)
        (o : Outcome SecurityError Unsecured)
        → (devices.lookup_device AddressingMode.src_addr_mode address s).1 ≡ some d
        → CounterIs s n
        → n ≤ frame
        → SetsCounter frame o
        → Moves n frame (
            assign_counter t ccm devices address d
              (devices.lookup_device AddressingMode.src_addr_mode address s).0
              o)
    assign_counter-Moves s n frame d (ok u) found here fresh sets =
        let moved = record d { frame_counter = u.counter } in
        (
          fresh,
          (moved, devices.lookup_assign AddressingMode.src_addr_mode address s d moved found, sets),
        )
    assign_counter-Moves s n frame d (err e) found here fresh sets = found_again s n here
    assign_counter-Moves s n frame d panic found here fresh sets = found_again s n here

    unsecure_from-Moves :
        (a : AuxiliarySecurityHeader) (key : ℕ × List ℕ) (buffer : List ℕ) (s : devices.Store)
        (n : ℕ)
        → is_no_security a.control.security_level ≡ false
        → get_frame_counter a < 0xFFFFFFFF
        → CounterIs s n
        → Moves n (get_frame_counter a) (
            unsecure_from t ccm devices a key buffer address
              (devices.lookup_device AddressingMode.src_addr_mode address s))
    unfolding unsecure_from
    unsecure_from-Moves a key buffer s n level below (d, found, count) =
        elim (Bool-cases
          (d.frame_counter == 0xFFFFFFFF || ltb (get_frame_counter a) d.frame_counter)) [
            | inl e ↦ rw (found, e) (found_again s n (d, found, count))
            | inr e ↦
                rw (found, e)
                  (assign_counter-Moves s n (get_frame_counter a) d _ found (d, found, count)
                    (rw (← count) (passes d.frame_counter (get_frame_counter a) e))
                    (level-SetsCounter a.control.security_level a key.1 _ buffer d level below))
          ]

    unsecure_keyed-Moves :
        (h : Header) (a : AuxiliarySecurityHeader) (buffer : List ℕ) (key : Option (ℕ × List ℕ))
        (s : devices.Store) (n : ℕ)
        → h.source ≡ some address
        → is_no_security a.control.security_level ≡ false
        → get_frame_counter a < 0xFFFFFFFF
        → CounterIs s n
        → Moves n (get_frame_counter a) (unsecure_keyed t ccm devices h a buffer key s)
    unsecure_keyed-Moves h a buffer none s n from level below here = here
    unsecure_keyed-Moves h a buffer (some key) s n from level below here =
        rw from (unsecure_from-Moves a key buffer s n level below here)

    unsecure_enabled-Moves :
        (h : Header) (buffer : List ℕ) (c : SecurityContext) (a : Option AuxiliarySecurityHeader)
        (s : devices.Store) (n : ℕ)
        → h.source ≡ some address
        → counter_of a < 0xFFFFFFFF
        → CounterIs s n
        → Moves n (counter_of a) (unsecure_enabled t ccm devices h buffer c a s)
    unsecure_enabled-Moves h buffer c none s n from below here = here
    unsecure_enabled-Moves h buffer c (some a) s n from below here =
        elim (Bool-cases (is_data h.frame_type)) [
          | inr e ↦ rw e here
          | inl known ↦ elim (Bool-cases (is_2003 h.version)) [
            | inl e ↦ rw (known, e) here
            | inr recent ↦ elim (Bool-cases (is_no_security a.control.security_level)) [
              | inl e ↦ rw (known, recent, e) here
              | inr level ↦
                  rw (known, recent, level)
                    (unsecure_keyed-Moves h a buffer _ s n from level below here)
            ]
          ]
        ]

    pub unsecure_frame-Moves :
        (h : Header) (buffer : List ℕ) (c : SecurityContext) (mode : FooterMode) (s : devices.Store)
        (n : ℕ)
        → h.source ≡ some address
        → counter_of h.auxiliary_security_header < 0xFFFFFFFF
        → CounterIs s n
        → Moves n
            (counter_of h.auxiliary_security_header)
            (unsecure_frame t ccm devices h buffer c mode s)
    unfolding unsecure_frame
    unsecure_frame-Moves h buffer c FooterMode.explicit s n from below here = here
    unsecure_frame-Moves h buffer c FooterMode.none s n from below here =
        unsecure_enabled-Moves h buffer c h.auxiliary_security_header s n from below here
