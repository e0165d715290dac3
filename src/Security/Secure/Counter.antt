-- ===== src/Security/Secure/Counter.antt =====
-- The frame counter that `secure_frame` of src/mac/frame/security/mod.rs uses.
use rust_ieee.Base.{
  ℕ, suc, ◌≡◌, ◌≢◌, refl, arith, false, some, List, ◌==◌, leb, ◌⊎◌, Bool-cases, inl, inr,
}
use rust_ieee.Outcome.{Outcome, ok, err, panic}
use rust_ieee.ByteLib.{ByteLib}
use rust_ieee.Security.AuxHeader.{AuxiliarySecurityHeader}
use rust_ieee.Security.Ccm.{Ccm}
use rust_ieee.Security.Context.{SecurityContext}
use rust_ieee.Security.Error.{SecurityError}
use rust_ieee.Security.Secure.{
  is_no_security, is_data, packet_size, advance, secure_written, secure_enabled, secure_frame,
}
use rust_ieee.Header.{Header}
use rust_ieee.Frame.{FooterMode}

not_maximum : (n : ℕ) → (n == 0xFFFFFFFF) ≡ false → n ≢ 0xFFFFFFFF
not_maximum n e = ground arith

-- The counter was below its maximum, and it has advanced by one.
abbrev pub IsAdvanced : SecurityContext → SecurityContext → Type 0
IsAdvanced c c' =
    (c.frame_counter ≢ 0xFFFFFFFF) × (c' ≡ record c { frame_counter = suc c.frame_counter })

module _ ⦃b : ByteLib⦄ where
  -- A run that succeeds has advanced the counter; one that fails has advanced it or left it alone.
  abbrev pub Uses : SecurityContext → SecurityContext × Outcome SecurityError (List ℕ × ℕ) → Type 0
  Uses c (c', ok r) = IsAdvanced c c'
  Uses c (c', err e) = IsAdvanced c c' ⊎ (c' ≡ c)
  Uses c (c', panic) = IsAdvanced c c' ⊎ (c' ≡ c)

  advanced :
      (c : SecurityContext) (o : Outcome SecurityError (List ℕ × ℕ))
      → c.frame_counter ≢ 0xFFFFFFFF
      → Uses c (advance c, o)
  advanced c (ok r) below = (below, refl)
  advanced c (err e) below = inl (below, refl)
  advanced c panic below = inl (below, refl)

  secure_written-Uses :
      (ccm : Ccm) (h : Header) (a : AuxiliarySecurityHeader) (c : SecurityContext)
      (o : Outcome b.Error (List ℕ × ℕ))
      → is_no_security a.control.security_level ≡ false
      → Uses c (secure_written ccm h a c o)
  secure_written-Uses ccm h a c (err e) level = inr refl
  secure_written-Uses ccm h a c panic level = inr refl
  secure_written-Uses ccm h a c (ok p) level = elim (Bool-cases (c.frame_counter == 0xFFFFFFFF)) [
    | inl e ↦ rw (level, e) (inr refl)
    | inr e ↦ rw (level, e) (advanced c _ (not_maximum c.frame_counter e))
  ]

  secure_enabled-Uses :
      (ccm : Ccm) (h : Header) (payload : List ℕ) (a : AuxiliarySecurityHeader)
      (c : SecurityContext) (buffer : List ℕ)
      → is_no_security a.control.security_level ≡ false
      → Uses c (secure_enabled ccm h payload (some a) c buffer)
  secure_enabled-Uses ccm h payload a c buffer level = elim (Bool-cases (is_data h.frame_type)) [
    | inl e ↦ elim (Bool-cases (leb (packet_size h a payload) 127)) [
      | inl e' ↦
          rw (e, e')
            (secure_written-Uses ccm h a c (b.write_with (b.write_slice payload) buffer 0) level)
      | inr e' ↦ rw (e, e') (inr refl)
    ]
    | inr e ↦ rw e (inr refl)
  ]

  -- Where the header has a security header whose level is not none, every outcome of
  -- `secure_frame` accounts for the counter: a frame is only ever secured below the maximum of the
  -- counter and then the counter has advanced by one; a failure has advanced it by one from below
  -- the maximum or has left the context as it was.
  pub secured_frame_advances :
      (ccm : Ccm) (h : Header) (payload : List ℕ) (a : AuxiliarySecurityHeader)
      (c : SecurityContext) (mode : FooterMode) (buffer : List ℕ)
      → h.auxiliary_security_header ≡ some a
      → is_no_security a.control.security_level ≡ false
      → Uses c (secure_frame ccm h payload c mode buffer)
  unfolding secure_frame
  secured_frame_advances ccm h payload a c FooterMode.explicit buffer aux level = inr refl
  secured_frame_advances ccm h payload a c FooterMode.none buffer aux level =
      rw aux (secure_enabled-Uses ccm h payload a c buffer level)
