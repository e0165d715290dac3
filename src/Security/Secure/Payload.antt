-- ===== src/Security/Secure/Payload.antt =====
-- What `secure_frame` of src/mac/frame/security/mod.rs puts into the buffer.
use rust_ieee.Base.{
  ℕ, suc, ◌+◌, ◌≤◌, ◌<◌, ◌≡◌, refl, ap, ◌∙◌, arith, false, some, List, [], ◌++◌, take, drop, length,
  ◌==◌, le→leb, take-append, drop-append, drop-drop, length-drop,
}
use rust_ieee.Outcome.{ok}
use rust_ieee.ByteLib.{ByteLib}
use rust_ieee.ByteLib.Laws.{Writes-slice}
use rust_ieee.FrameControl.FrameType.{FrameType}
use rust_ieee.Security.AuxHeader.{AuxiliarySecurityHeader}
use rust_ieee.Security.Ccm.{Ccm}
use rust_ieee.Security.Context.{SecurityContext, AddressingMode}
use rust_ieee.Security.Control.Level.{SecurityLevel}
use rust_ieee.Security.Nonce.{calculate_nonce}
use rust_ieee.Security.Secure.Cipher.{HasTag, is_no_security-HasTag, length-transform}
use rust_ieee.Security.Secure.{packet_size, transform, write_tag, secure_with_key, secure_frame}
use rust_ieee.Header.{Header}
use rust_ieee.Frame.{FooterMode}

pub below_maximum : (n : ℕ) → n < 0xFFFFFFFF → (n == 0xFFFFFFFF) ≡ false
below_maximum n h = ground arith

module _ ⦃b : ByteLib⦄ where
  pub payload_written :
      (payload buffer : List ℕ)
      → length payload ≤ length buffer
      → b.write_with (b.write_slice payload) buffer 0
        ≡ ok (payload ++ drop (length payload) buffer, length payload)
  payload_written payload buffer room =
      (Writes-slice payload).fits [] buffer room
      ∙ ap (λ (n : ℕ). ok (payload ++ drop (length payload) buffer, n)) (omega arith)

  with_tag :
      (ccm : Ccm) (l : SecurityLevel) (key nonce buffer : List ℕ) (offset : ℕ)
      → HasTag l
      → secure_with_key ccm l key nonce buffer offset
        ≡ write_tag buffer offset (transform ccm l key nonce (take offset buffer))
  unfolding secure_with_key
  with_tag ccm SecurityLevel.none key nonce buffer offset h = absurd h
  with_tag ccm SecurityLevel.enc key nonce buffer offset h = absurd h
  with_tag ccm _ key nonce buffer offset h = refl

  tag_written :
      (part tag payload buffer : List ℕ)
      → length part ≡ length payload
      → length payload + length tag ≤ length buffer
      → write_tag (payload ++ drop (length payload) buffer) (length payload) (some (part, tag))
        ≡ ok (
          part ++ (tag ++ drop (length payload + length tag) buffer),
          length payload + length tag,
        )
  tag_written part tag payload buffer e room = rw (
    drop-append payload (drop (length payload) buffer),
    ← e,
    (Writes-slice tag).fits part (drop (length part) buffer)
        (omega (arith, length-drop (length part) buffer)),
    drop-drop (length tag) (length part) buffer,
  )

  -- A data frame that is not too long, with a tag level, a counter below its maximum, a key and
  -- room in the buffer, is secured: the transformed payload and its tag stand at the head of the
  -- buffer, the rest of the buffer is as it was, and the counter has advanced by one. The nonce is
  -- that of the counter before.
  pub payload_is_secured :
      (ccm : Ccm) (h : Header) (payload : List ℕ) (a : AuxiliarySecurityHeader)
      (c : SecurityContext) (buffer : List ℕ) (id : ℕ) (key part tag : List ℕ)
      → h.auxiliary_security_header ≡ some a
      → h.frame_type ≡ FrameType.data_frame
      → packet_size h a payload ≤ 127
      → HasTag a.control.security_level
      → c.frame_counter < 0xFFFFFFFF
      → c.key_provider.lookup_key_descriptor AddressingMode.dst_addr_mode a.key_identifier
          h.destination
        ≡ some (id, key)
      → transform ccm a.control.security_level key
          (calculate_nonce c.euid c.frame_counter a.control.security_level)
          payload
        ≡ some (part, tag)
      → length payload + length tag ≤ length buffer
      → secure_frame ccm h payload c FooterMode.none buffer ≡ (
        record c { frame_counter = suc c.frame_counter },
        ok (
          part ++ (tag ++ drop (length payload + length tag) buffer),
          length payload + length tag,
        ),
      )
  unfolding secure_frame
  payload_is_secured ccm h payload a c buffer id key part tag aux is_data_frame small level below
        found sealed room =
      rw (
        aux,
        is_data_frame,
        le→leb (packet_size h a payload) 127 small,
        payload_written payload buffer (omega arith),
        is_no_security-HasTag a.control.security_level level,
        below_maximum c.frame_counter below,
        found,
        with_tag ccm a.control.security_level key
            (calculate_nonce c.euid c.frame_counter a.control.security_level)
            (payload ++ drop (length payload) buffer) (length payload) level,
        take-append payload (drop (length payload) buffer),
        sealed,
        tag_written part tag payload buffer
            (length-transform ccm a.control.security_level key _ payload part tag sealed) room,
      )
