-- ===== src/Security/Secure/Asked.antt =====
-- The nonce that `secure_frame` of src/mac/frame/security/mod.rs hands to the cipher, as it can be
-- observed from outside.
use mathlib.Core.Path.{subst}
use rust_ieee.Base.{
  ℕ, ◌≡◌, refl, ap, arith, false, Option, none, some, List, [], take, leb, ◌==◌, if◌then◌else◌,
  Bool-cases, inl, inr,
}
use rust_ieee.Outcome.{Outcome, ok, err, panic}
use rust_ieee.ByteLib.{ByteLib}
use rust_ieee.Security.AuxHeader.{AuxiliarySecurityHeader}
use rust_ieee.Security.Ccm.{Ccm, Alike, forbid, forbid_self}
use rust_ieee.Security.Context.{SecurityContext, AddressingMode}
use rust_ieee.Security.Control.Level.{SecurityLevel}
use rust_ieee.Security.Error.{SecurityError}
use rust_ieee.Security.Nonce.{calculate_nonce}
use rust_ieee.Security.Secure.{
  is_data, is_no_security, packet_size, advance, authenticated, transform, write_tag,
  secure_with_key, secure_found, secure_written, secure_enabled, secure_frame,
}
use rust_ieee.Header.{Header}
use rust_ieee.Frame.{FooterMode}

-- The cipher is asked under no other nonce.
transform-Alike :
    (ccm ccm' : Ccm) (l : SecurityLevel) (key x part : List ℕ)
    → Alike x ccm ccm'
    → transform ccm' l key x part ≡ transform ccm l key x part
unfolding transform
transform-Alike ccm ccm' SecurityLevel.none key x part alike = refl
transform-Alike ccm ccm' SecurityLevel.enc key x part alike = refl
transform-Alike ccm ccm' SecurityLevel.mic32 key x part alike =
    ap (authenticated part) (alike 4 key part [])
transform-Alike ccm ccm' SecurityLevel.mic64 key x part alike =
    ap (authenticated part) (alike 8 key part [])
transform-Alike ccm ccm' SecurityLevel.mic128 key x part alike =
    ap (authenticated part) (alike 16 key part [])
transform-Alike ccm ccm' SecurityLevel.encmic32 key x part alike = alike 4 key [] part
transform-Alike ccm ccm' SecurityLevel.encmic64 key x part alike = alike 8 key [] part
transform-Alike ccm ccm' SecurityLevel.encmic128 key x part alike = alike 16 key [] part

-- Under a nonce that is refused nothing is made.
transform-forbid :
    (ccm : Ccm) (l : SecurityLevel) (key x part : List ℕ)
    → transform (forbid x ccm) l key x part ≡ none
unfolding transform
transform-forbid ccm SecurityLevel.none key x part = refl
transform-forbid ccm SecurityLevel.enc key x part = refl
transform-forbid ccm SecurityLevel.mic32 key x part =
    ap (authenticated part) (forbid_self x ccm 4 key part [])
transform-forbid ccm SecurityLevel.mic64 key x part =
    ap (authenticated part) (forbid_self x ccm 8 key part [])
transform-forbid ccm SecurityLevel.mic128 key x part =
    ap (authenticated part) (forbid_self x ccm 16 key part [])
transform-forbid ccm SecurityLevel.encmic32 key x part = forbid_self x ccm 4 key [] part
transform-forbid ccm SecurityLevel.encmic64 key x part = forbid_self x ccm 8 key [] part
transform-forbid ccm SecurityLevel.encmic128 key x part = forbid_self x ccm 16 key [] part

module _ ⦃b : ByteLib⦄ where
  abbrev pub Result : Type 0
  Result = SecurityContext × Outcome SecurityError (List ℕ × ℕ)

  with_key-Alike :
      (ccm ccm' : Ccm) (l : SecurityLevel) (key x buffer : List ℕ) (offset : ℕ)
      → Alike x ccm ccm'
      → secure_with_key ccm' l key x buffer offset ≡ secure_with_key ccm l key x buffer offset
  unfolding secure_with_key
  with_key-Alike ccm ccm' SecurityLevel.none key x buffer offset alike = refl
  with_key-Alike ccm ccm' SecurityLevel.enc key x buffer offset alike = refl
  with_key-Alike ccm ccm' l key x buffer offset alike =
      ap (write_tag buffer offset) (transform-Alike ccm ccm' l key x (take offset buffer) alike)

  found-Alike :
      (ccm ccm' : Ccm) (a : AuxiliarySecurityHeader) (x buffer : List ℕ) (offset : ℕ)
      (key : Option (ℕ × List ℕ))
      → Alike x ccm ccm'
      → secure_found ccm' a x buffer offset key ≡ secure_found ccm a x buffer offset key
  found-Alike ccm ccm' a x buffer offset none alike = refl
  found-Alike ccm ccm' a x buffer offset (some (id, key)) alike =
      with_key-Alike ccm ccm' a.control.security_level key x buffer offset alike

  -- The second run fails in the cipher where the first succeeds.
  abbrev Fails : Outcome SecurityError (List ℕ × ℕ) → Outcome SecurityError (List ℕ × ℕ) → Type 0
  Fails (ok r) o = o ≡ err SecurityError.transformation_error
  Fails (err e) o = Unit
  Fails panic o = Unit

  always-Fails :
      (o : Outcome SecurityError (List ℕ × ℕ)) → Fails o (err SecurityError.transformation_error)
  always-Fails (ok r) = refl
  always-Fails (err e) = tt
  always-Fails panic = tt

  with_key-Fails :
      (ccm : Ccm) (l : SecurityLevel) (key x buffer : List ℕ) (offset : ℕ)
      → is_no_security l ≡ false
      → Fails
          (secure_with_key ccm l key x buffer offset)
          (secure_with_key (forbid x ccm) l key x buffer offset)
  unfolding secure_with_key
  with_key-Fails ccm SecurityLevel.none key x buffer offset level = absurd (ground (arith, level))
  with_key-Fails ccm SecurityLevel.enc key x buffer offset level = tt
  with_key-Fails ccm l key x buffer offset level =
      rw (transform-forbid ccm l key x (take offset buffer)) (always-Fails _)

  found-Fails :
      (ccm : Ccm) (a : AuxiliarySecurityHeader) (x buffer : List ℕ) (offset : ℕ)
      (key : Option (ℕ × List ℕ))
      → is_no_security a.control.security_level ≡ false
      → Fails
          (secure_found ccm a x buffer offset key)
          (secure_found (forbid x ccm) a x buffer offset key)
  found-Fails ccm a x buffer offset none level = tt
  found-Fails ccm a x buffer offset (some (id, key)) level =
      with_key-Fails ccm a.control.security_level key x buffer offset level

  abbrev nonce_of : SecurityContext → AuxiliarySecurityHeader → List ℕ
  nonce_of c a = calculate_nonce c.euid c.frame_counter a.control.security_level

  written-Alike :
      (ccm ccm' : Ccm) (h : Header) (a : AuxiliarySecurityHeader) (c : SecurityContext)
      (o : Outcome b.Error (List ℕ × ℕ))
      → Alike (nonce_of c a) ccm ccm'
      → secure_written ccm' h a c o ≡ secure_written ccm h a c o
  written-Alike ccm ccm' h a c (ok (buffer, offset)) alike =
      ap
        (λ x.
          if is_no_security a.control.security_level
          then (c, ok (buffer, offset))
          else if c.frame_counter == 0xFFFFFFFF
          then (c, err SecurityError.counter_error)
          else (advance c, x))
        (found-Alike ccm ccm' a (nonce_of c a) buffer offset
          (c.key_provider.lookup_key_descriptor AddressingMode.dst_addr_mode a.key_identifier
            h.destination)
          alike)
  written-Alike ccm ccm' h a c (err e) alike = refl
  written-Alike ccm ccm' h a c panic alike = refl

  enabled-Alike :
      (ccm ccm' : Ccm) (h : Header) (payload : List ℕ) (a : AuxiliarySecurityHeader)
      (c : SecurityContext) (buffer : List ℕ)
      → Alike (nonce_of c a) ccm ccm'
      → secure_enabled ccm' h payload (some a) c buffer
        ≡ secure_enabled ccm h payload (some a) c buffer
  enabled-Alike ccm ccm' h payload a c buffer alike =
      ap
        (λ (x : Result).
          if is_data h.frame_type
          then if leb (packet_size h a payload) 127
            then x
            else (c, err SecurityError.frame_too_long)
          else (c, err SecurityError.not_implemented))
        (written-Alike ccm ccm' h a c (b.write_with (b.write_slice payload) buffer 0) alike)

  pub secure_frame-Alike :
      (ccm ccm' : Ccm) (h : Header) (payload : List ℕ) (a : AuxiliarySecurityHeader)
      (c : SecurityContext) (mode : FooterMode) (buffer : List ℕ)
      → h.auxiliary_security_header ≡ some a
      → Alike (nonce_of c a) ccm ccm'
      → secure_frame ccm' h payload c mode buffer ≡ secure_frame ccm h payload c mode buffer
  unfolding secure_frame
  secure_frame-Alike ccm ccm' h payload a c FooterMode.explicit buffer aux alike = refl
  secure_frame-Alike ccm ccm' h payload a c FooterMode.none buffer aux alike =
      rw aux (enabled-Alike ccm ccm' h payload a c buffer alike)

  written-Fails :
      (ccm : Ccm) (h : Header) (a : AuxiliarySecurityHeader) (c : SecurityContext)
      (o : Outcome b.Error (List ℕ × ℕ))
      → is_no_security a.control.security_level ≡ false
      → Fails (secure_written ccm h a c o).1 (secure_written (forbid (nonce_of c a) ccm) h a c o).1
  written-Fails ccm h a c (ok (buffer, offset)) level =
      elim (Bool-cases (c.frame_counter == 0xFFFFFFFF)) [
        | inl e ↦ rw (level, e) tt
        | inr e ↦ rw (level, e) (found-Fails ccm a (nonce_of c a) buffer offset _ level)
      ]
  written-Fails ccm h a c (err e) level = tt
  written-Fails ccm h a c panic level = tt

  enabled-Fails :
      (ccm : Ccm) (h : Header) (payload : List ℕ) (a : AuxiliarySecurityHeader)
      (c : SecurityContext) (buffer : List ℕ)
      → is_no_security a.control.security_level ≡ false
      → Fails
          (secure_enabled ccm h payload (some a) c buffer).1
          (secure_enabled (forbid (nonce_of c a) ccm) h payload (some a) c buffer).1
  enabled-Fails ccm h payload a c buffer level = elim (Bool-cases (is_data h.frame_type)) [
    | inl e ↦ elim (Bool-cases (leb (packet_size h a payload) 127)) [
      | inl e' ↦
          rw (e, e') (written-Fails ccm h a c (b.write_with (b.write_slice payload) buffer 0) level)
      | inr e' ↦ rw (e, e') tt
    ]
    | inr e ↦ rw e tt
  ]

  pub secure_frame-Fails :
      (ccm : Ccm) (h : Header) (payload : List ℕ) (a : AuxiliarySecurityHeader)
      (c : SecurityContext) (mode : FooterMode) (buffer : List ℕ)
      → h.auxiliary_security_header ≡ some a
      → is_no_security a.control.security_level ≡ false
      → Fails
          (secure_frame ccm h payload c mode buffer).1
          (secure_frame (forbid (nonce_of c a) ccm) h payload c mode buffer).1
  unfolding secure_frame
  secure_frame-Fails ccm h payload a c FooterMode.explicit buffer aux level = tt
  secure_frame-Fails ccm h payload a c FooterMode.none buffer aux level =
      rw aux (enabled-Fails ccm h payload a c buffer level)

  -- The run asks the cipher under this nonce, without which it fails, and under no other: it is the
  -- same with every cipher that encrypts alike under this one.
  pub record Asks (ccm : Ccm) (h : Header) (payload : List ℕ) (c : SecurityContext)
      (mode : FooterMode) (buffer x : List ℕ) : Type 0 where
    pub needed :
        (secure_frame (forbid x ccm) h payload c mode buffer).1
        ≡ err SecurityError.transformation_error
    pub only :
        (ccm' : Ccm)
        → Alike x ccm ccm'
        → secure_frame ccm' h payload c mode buffer ≡ secure_frame ccm h payload c mode buffer

  pub secured-Asks :
      (ccm : Ccm) (h : Header) (payload : List ℕ) (a : AuxiliarySecurityHeader)
      (c c' : SecurityContext) (mode : FooterMode) (buffer : List ℕ) (r : List ℕ × ℕ)
      → h.auxiliary_security_header ≡ some a
      → is_no_security a.control.security_level ≡ false
      → secure_frame ccm h payload c mode buffer ≡ (c', ok r)
      → Asks ccm h payload c mode buffer
          (calculate_nonce c.euid c.frame_counter a.control.security_level)
  secured-Asks ccm h payload a c c' mode buffer r aux level e = record {
    needed =
        subst
          (λ (x : Result).
            Fails x.1 (secure_frame (forbid (nonce_of c a) ccm) h payload c mode buffer).1)
          e (secure_frame-Fails ccm h payload a c mode buffer aux level);
    only = λ ccm' alike. secure_frame-Alike ccm ccm' h payload a c mode buffer aux alike;
  }
