-- ===== src/Frame/Write/RoundTrip.antt =====
-- What an unsecured frame that was written reads as, src/mac/frame/mod.rs.
use rust_ieee.Base.{
  ℕ, ◌≤◌, ◌≡◌, ◌∙◌, false, Option, List, ◌++◌, take, drop, length, le→leb, take-append,
}
use rust_ieee.Outcome.{ok}
use rust_ieee.ByteLib.{ByteLib}
use rust_ieee.Security.Ccm.{Ccm}
use rust_ieee.Security.Context.{SecurityContext}
use rust_ieee.Header.{Header, IsHeader, has_security}
use rust_ieee.Target.{Target}
use rust_ieee.Frame.{FrameContent, FooterMode}
use rust_ieee.Frame.Content
use rust_ieee.Frame.Read as FrameRead
use rust_ieee.Frame.RoundTrip as FrameTrip
use rust_ieee.Frame.RoundTrip.{encoding, behind_content, footer_encoding, IsFooter}
use rust_ieee.Frame.Write.Plain.{IsQuiet, frame_of, frame_is_put}
use rust_ieee.Frame.Write.{new, try_write}

module _ ⦃b : ByteLib⦄ where
  -- A frame without security, whose header and content are valid, whose content is of the header's
  -- type and whose footer has two octets (or is 0 where it is left out), is written into a buffer
  -- with room for it, without a security context or without a footer, and what was written is read
  -- back as the frame; a coordinator realignment without a channel page has neither payload nor
  -- footer behind it.
  pub written_frame_is_read :
      (ccm : Ccm) (t : Target) (mode : FooterMode) (context : Option SecurityContext) (h : Header)
      (c : FrameContent) (payload : List ℕ) (n : ℕ) (bytes : List ℕ)
      → IsHeader h
      → has_security h ≡ false
      → Content.frame_type_of c ≡ h.frame_type
      → Content.IsContent c
      → Content.MayPrecede c (behind_content mode payload n)
      → IsFooter mode n
      → IsQuiet context mode
      → length (encoding mode h c payload n) ≤ length bytes
      → (out : List ℕ) × (size : ℕ) × (try_write ccm
            (frame_of h c payload n)
            (new mode context)
            bytes
          ≡ (new mode context, ok (out, size)))
        × (FrameRead.try_read t mode (take size out) ≡ ok (frame_of h c payload n, size))
  written_frame_is_read ccm t mode context h c payload n bytes v e same w alone footer quiet room =
      let enc = encoding mode h c payload n in
      let rest = drop (length enc) bytes in
      (
        enc ++ rest,
        length enc,
        frame_is_put ccm mode context h c payload n bytes v e w quiet
            ∙ rw (le→leb (length enc) (length bytes) room),
        rw (take-append enc rest)
            (FrameTrip.frame_round_trip t mode h c payload n v e same w alone footer),
      )
