-- ===== src/Security/Secure/Sized.antt =====
-- The number of octets that `secure_frame` of src/mac/frame/security/mod.rs writes.
use rust_ieee.Base.{
  ℕ, ◌+◌, ◌≤◌, ◌≡◌, refl, arith, true, Option, none, some, List, [], ◌++◌, take, drop, length,
  length-append, length-take, leb, ◌==◌, inl, inr, le_or_lt, Bool-cases,
}
use rust_ieee.Outcome.{Outcome, ok, err, panic}
use rust_ieee.ByteLib.{ByteLib}
use rust_ieee.ByteLib.Laws.{Writes-slice}
use rust_ieee.ByteLib.Bounds.{Returns}
use rust_ieee.Security.AuxHeader.{AuxiliarySecurityHeader}
use rust_ieee.Security.Ccm.{Ccm}
use rust_ieee.Security.Context.{SecurityContext}
use rust_ieee.Security.Control.Level.{SecurityLevel, get_mic_octet_size}
use rust_ieee.Security.Error.{SecurityError}
use rust_ieee.Security.Secure.{
  is_data, is_no_security, packet_size, transform, write_tag, secure_with_key, secure_found,
  secure_written, secure_enabled, secure_frame,
}
use rust_ieee.Security.Secure.Cipher.{length-transform}
use rust_ieee.Security.Secure.Payload.{payload_written}
use rust_ieee.Security.Unsecure.Cipher.{restore-transform}
use rust_ieee.Header.{Header}
use rust_ieee.Frame.{FooterMode}

leb-le : (m n : ℕ) → leb m n ≡ true → m ≤ n
leb-le m n e = ground arith

module _ ⦃b : ByteLib⦄ where
  -- So many octets have been written, or security failed; it was not merely off.
  abbrev pub IsSized : ℕ → Outcome SecurityError (List ℕ × ℕ) → Type 0
  IsSized n (ok (bytes, size)) = size ≡ n
  IsSized n (err SecurityError.security_not_enabled) = ⊥
  IsSized n (err e) = Unit
  IsSized n panic = ⊥

  write_tag-IsSized :
      (buffer part tag : List ℕ) (offset : ℕ)
      → length part ≡ offset
      → IsSized (offset + length tag) (write_tag buffer offset (some (part, tag)))
  write_tag-IsSized buffer part tag offset e =
      elim (le_or_lt (length tag) (length (drop offset buffer))) [
        | inl room ↦
            rw (← e, (Writes-slice tag).fits part (drop (length part) buffer) (rw (← e) at room))
              refl
        | inr lack ↦
            rw
              (
                ← e,
                (Writes-slice tag).short_buffer part (drop (length part) buffer) (rw (← e) at lack),
              )
              tt
      ]

  sealed-IsSized :
      (ccm : Ccm) (l : SecurityLevel) (key nonce buffer : List ℕ) (offset : ℕ)
      (o : Option (List ℕ × List ℕ))
      → transform ccm l key nonce (take offset buffer) ≡ o
      → offset ≤ length buffer
      → IsSized (offset + get_mic_octet_size l) (write_tag buffer offset o)
  sealed-IsSized ccm l key nonce buffer offset none e within = tt
  sealed-IsSized ccm l key nonce buffer offset (some (part, tag)) e within =
      let short = length-transform ccm l key nonce (take offset buffer) part tag e in
      let (_, size) = restore-transform ccm l key nonce (take offset buffer) part tag e in
      rw (← size)
        (write_tag-IsSized buffer part tag offset (omega (arith, short, length-take offset buffer)))

  with_key-IsSized :
      (ccm : Ccm) (l : SecurityLevel) (key nonce buffer : List ℕ) (offset : ℕ)
      → offset ≤ length buffer
      → IsSized (offset + get_mic_octet_size l) (secure_with_key ccm l key nonce buffer offset)
  unfolding secure_with_key
  with_key-IsSized ccm SecurityLevel.none key nonce buffer offset within = omega arith
  with_key-IsSized ccm SecurityLevel.enc key nonce buffer offset within = tt
  with_key-IsSized ccm l key nonce buffer offset within =
      sealed-IsSized ccm l key nonce buffer offset _ refl within

  found-IsSized :
      (ccm : Ccm) (a : AuxiliarySecurityHeader) (nonce buffer : List ℕ) (offset : ℕ)
      (key : Option (ℕ × List ℕ))
      → offset ≤ length buffer
      → IsSized
          (offset + get_mic_octet_size a.control.security_level)
          (secure_found ccm a nonce buffer offset key)
  found-IsSized ccm a nonce buffer offset none within = tt
  found-IsSized ccm a nonce buffer offset (some (id, key)) within =
      with_key-IsSized ccm a.control.security_level key nonce buffer offset within

  no_tag : (l : SecurityLevel) → is_no_security l ≡ true → get_mic_octet_size l ≡ 0
  no_tag SecurityLevel.none e = refl
  no_tag SecurityLevel.mic32 e = absurd (ground (arith, e))
  no_tag SecurityLevel.mic64 e = absurd (ground (arith, e))
  no_tag SecurityLevel.mic128 e = absurd (ground (arith, e))
  no_tag SecurityLevel.enc e = absurd (ground (arith, e))
  no_tag SecurityLevel.encmic32 e = absurd (ground (arith, e))
  no_tag SecurityLevel.encmic64 e = absurd (ground (arith, e))
  no_tag SecurityLevel.encmic128 e = absurd (ground (arith, e))

  written-IsSized :
      (ccm : Ccm) (h : Header) (a : AuxiliarySecurityHeader) (c : SecurityContext) (buffer : List ℕ)
      (offset : ℕ)
      → offset ≤ length buffer
      → IsSized
          (offset + get_mic_octet_size a.control.security_level)
          (secure_written ccm h a c (ok (buffer, offset))).1
  written-IsSized ccm h a c buffer offset within =
      elim (Bool-cases (is_no_security a.control.security_level)) [
        | inl e ↦ rw e (omega (arith, no_tag a.control.security_level e))
        | inr e ↦ elim (Bool-cases (c.frame_counter == 0xFFFFFFFF)) [
          | inl last ↦ rw (e, last) tt
          | inr more ↦ rw (e, more) (found-IsSized ccm a _ buffer offset _ within)
        ]
      ]

  payload-IsSized :
      (ccm : Ccm) (h : Header) (a : AuxiliarySecurityHeader) (c : SecurityContext)
      (payload buffer : List ℕ)
      → IsSized
          (length payload + get_mic_octet_size a.control.security_level)
          (secure_written ccm h a c (b.write_with (b.write_slice payload) buffer 0)).1
  payload-IsSized ccm h a c payload buffer = elim (le_or_lt (length payload) (length buffer)) [
    | inl room ↦ rw (payload_written payload buffer room) (
        written-IsSized ccm h a c (payload ++ drop (length payload) buffer) (length payload)
          (omega (arith, length-append payload (drop (length payload) buffer))))
    | inr lack ↦ rw ((Writes-slice payload).short_buffer [] buffer lack) tt
  ]

  -- The payload with its tag, of a packet of at most 127 octets; or security failed.
  abbrev pub IsPacket :
      Header → AuxiliarySecurityHeader → List ℕ → Outcome SecurityError (List ℕ × ℕ) → Type 0
  IsPacket h a payload (ok (bytes, size)) =
      (size ≡ length payload + get_mic_octet_size a.control.security_level)
      × (packet_size h a payload ≤ 127)
  IsPacket h a payload (err SecurityError.security_not_enabled) = ⊥
  IsPacket h a payload (err e) = Unit
  IsPacket h a payload panic = Unit

  small-IsPacket :
      (h : Header) (a : AuxiliarySecurityHeader) (payload : List ℕ)
      (o : Outcome SecurityError (List ℕ × ℕ))
      → packet_size h a payload ≤ 127
      → IsSized (length payload + get_mic_octet_size a.control.security_level) o
      → IsPacket h a payload o
  small-IsPacket h a payload (ok (bytes, size)) small sized = (sized, small)
  small-IsPacket h a payload (err SecurityError.security_not_enabled) small sized = absurd sized
  small-IsPacket h a payload (err _) small sized = tt
  small-IsPacket h a payload panic small sized = tt

  pub secure_frame-IsPacket :
      (ccm : Ccm) (h : Header) (payload : List ℕ) (a : AuxiliarySecurityHeader)
      (c : SecurityContext) (mode : FooterMode) (buffer : List ℕ)
      → h.auxiliary_security_header ≡ some a
      → IsPacket h a payload (secure_frame ccm h payload c mode buffer).1
  unfolding secure_frame
  secure_frame-IsPacket ccm h payload a c FooterMode.explicit buffer aux = tt
  secure_frame-IsPacket ccm h payload a c FooterMode.none buffer aux =
      elim (Bool-cases (is_data h.frame_type)) [
        | inl e ↦ elim (Bool-cases (leb (packet_size h a payload) 127)) [
          | inl small ↦
              rw (aux, e, small)
                (small-IsPacket h a payload _ (leb-le (packet_size h a payload) 127 small)
                  (payload-IsSized ccm h a c payload buffer))
          | inr large ↦ rw (aux, e, large) tt
        ]
        | inr e ↦ rw (aux, e) tt
      ]

  IsSized-Returns : (n : ℕ) (o : Outcome SecurityError (List ℕ × ℕ)) → IsSized n o → Returns o
  IsSized-Returns n (ok p) sized = tt
  IsSized-Returns n (err e) sized = tt
  IsSized-Returns n panic sized = sized

  enabled-Returns :
      (ccm : Ccm) (h : Header) (payload : List ℕ) (a : Option AuxiliarySecurityHeader)
      (c : SecurityContext) (buffer : List ℕ)
      → Returns (secure_enabled ccm h payload a c buffer).1
  enabled-Returns ccm h payload none c buffer = tt
  enabled-Returns ccm h payload (some a) c buffer = elim (Bool-cases (is_data h.frame_type)) [
    | inl e ↦ elim (Bool-cases (leb (packet_size h a payload) 127)) [
      | inl small ↦ rw (e, small) (IsSized-Returns _ _ (payload-IsSized ccm h a c payload buffer))
      | inr large ↦ rw (e, large) tt
    ]
    | inr e ↦ rw e tt
  ]

  pub secure_frame-Returns :
      (ccm : Ccm) (h : Header) (payload : List ℕ) (c : SecurityContext) (buffer : List ℕ)
      → Returns (secure_frame ccm h payload c FooterMode.none buffer).1
  unfolding secure_frame
  secure_frame-Returns ccm h payload c buffer =
      enabled-Returns ccm h payload h.auxiliary_security_header c buffer
