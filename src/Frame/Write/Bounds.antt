-- ===== src/Frame/Write/Bounds.antt =====
-- The size of a secured frame on the air, src/mac/frame/mod.rs.
use rust_ieee.Base.{
  ℕ, ◌+◌, ◌≤◌, ◌≡◌, ap, arith, some, List, [], ◌++◌, drop, length, length-append, le→leb, inl, inr,
  le_or_lt,
}
use rust_ieee.Outcome.{Outcome, ok, err, panic}
use rust_ieee.ByteLib.{ByteLib}
use rust_ieee.Security.AuxHeader.{AuxiliarySecurityHeader}
use rust_ieee.Security.Ccm.{Ccm}
use rust_ieee.Security.Context.{SecurityContext}
use rust_ieee.Security.Control.Level.{get_mic_octet_size}
use rust_ieee.Security.Error.{SecurityError}
use rust_ieee.Security.Secure.{packet_size, secure_frame}
use rust_ieee.Security.Secure.Sized.{IsPacket, secure_frame-IsPacket}
use rust_ieee.Header.{Header, IsHeader}
use rust_ieee.Header.Size.{security_octet_size, get_octet_size-encoding}
use rust_ieee.Header.Write as HeaderWrite
use rust_ieee.Frame.{Frame, FrameContent, FooterMode}
use rust_ieee.Frame.Write.{new, write_secured, try_write}
use rust_ieee.Frame.Write.Plain.{frame_of}
use rust_ieee.Frame.Write.Secured.{data_head-Writes, head_of_data}

module _ ⦃b : ByteLib⦄ where
  -- With a checksum of two octets behind it the frame is at most aMaxPHYPacketSize; or nothing is
  -- reported as written.
  abbrev pub FitsPacket : Outcome b.Error (List ℕ × ℕ) → Type 0
  FitsPacket (ok (out, size)) = size + 2 ≤ 127
  FitsPacket (err e) = Unit
  FitsPacket panic = Unit

  header_size :
      (host : ByteLib) (counter : ℕ) (h : Header) (a : AuxiliarySecurityHeader) (payload : List ℕ)
      → h.auxiliary_security_header ≡ some a
      → packet_size h a payload ≤ 127
      → length (HeaderWrite.encoding host.native counter h)
          + (length payload + get_mic_octet_size a.control.security_level)
          + 2
        ≤ 127
  header_size host counter h a payload aux small =
      let same = ap security_octet_size aux in
      omega (arith, get_octet_size-encoding host.native counter h, same)

  write_secured-FitsPacket :
      (h : Header) (a : AuxiliarySecurityHeader) (f : Frame) (payload bytes : List ℕ) (counter : ℕ)
      (o : Outcome SecurityError (List ℕ × ℕ))
      → h.auxiliary_security_header ≡ some a
      → IsPacket h a payload o
      → FitsPacket (
          write_secured f FooterMode.none bytes
            (length (HeaderWrite.encoding b.native counter h))
            o)
  write_secured-FitsPacket h a f payload bytes counter (ok (behind, size)) aux (e, small) =
      omega (arith, e, header_size b counter h a payload aux small)
  write_secured-FitsPacket h a f payload bytes counter (err SecurityError.security_not_enabled) aux
        p =
      absurd p
  write_secured-FitsPacket h a f payload bytes counter (err _) aux p = tt
  write_secured-FitsPacket h a f payload bytes counter panic aux p = tt

  mode-FitsPacket :
      (ccm : Ccm) (h : Header) (a : AuxiliarySecurityHeader) (payload : List ℕ) (n : ℕ)
      (s : SecurityContext) (mode : FooterMode) (bytes buffer : List ℕ)
      → h.auxiliary_security_header ≡ some a
      → FitsPacket (
          write_secured
            (frame_of h FrameContent.data_content payload n)
            mode
            bytes
            (length (HeaderWrite.encoding b.native s.frame_counter h))
            (secure_frame ccm h payload s mode buffer).1)
  mode-FitsPacket ccm h a payload n s FooterMode.explicit bytes buffer aux =
      unfold secure_frame in tt
  mode-FitsPacket ccm h a payload n s FooterMode.none bytes buffer aux =
      write_secured-FitsPacket h a (frame_of h FrameContent.data_content payload n) payload bytes
        s.frame_counter (secure_frame ccm h payload s FooterMode.none buffer).1 aux
        (secure_frame-IsPacket ccm h payload a s FooterMode.none buffer aux)

  -- Writing a data frame with a valid header that has a security header, with a security context,
  -- whatever the payload, the footer and the buffer: if it succeeds, the octets written and a
  -- checksum of two octets are together at most 127.
  pub secured_frame_fits :
      (ccm : Ccm) (h : Header) (a : AuxiliarySecurityHeader) (payload : List ℕ) (n : ℕ)
      (s : SecurityContext) (mode : FooterMode) (bytes : List ℕ)
      → h.auxiliary_security_header ≡ some a
      → IsHeader h
      → FitsPacket
          (try_write ccm
            (frame_of h FrameContent.data_content payload n)
            (new mode (some s))
            bytes).1
  unfolding try_write
  secured_frame_fits ccm h a payload n s mode bytes aux v =
      let enc = HeaderWrite.encoding b.native s.frame_counter h in
      let rest = drop (length enc) bytes in
      elim (le_or_lt (length enc) (length bytes)) [
        | inl room ↦
            rw
              (
                head_of_data h s bytes v room,
                le→leb (length enc) (length (enc ++ rest)) (omega (arith, length-append enc rest)),
              )
              (mode-FitsPacket ccm h a payload n s mode (enc ++ rest)
                (drop (length enc) (enc ++ rest)) aux)
        | inr lack ↦ rw ((data_head-Writes h s v).short_buffer [] bytes lack) tt
      ]
