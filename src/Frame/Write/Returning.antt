-- ===== src/Frame/Write/Returning.antt =====
-- `TryWrite` of `Frame` and of `Header` on arbitrary buffers, src/mac/frame/mod.rs and
-- src/mac/frame/header.rs.
use rust_ieee.Base.{ℕ, ◌≤◌, arith, Option, none, some, List, length, drop, le→leb}
use rust_ieee.Outcome.{Outcome, ok, err, panic}
use rust_ieee.ByteLib.{ByteLib}
use rust_ieee.ByteLib.Laws.{Writes-slice, Writes-write}
use rust_ieee.ByteLib.Bounds.{Returns}
use rust_ieee.ByteLib.Confined.{
  Within, Within-Returns, Confined, Confined-skip, Confined-then, Confined-Writes, Confined-write,
}
use rust_ieee.Security.Ccm.{Ccm}
use rust_ieee.Security.Context.{SecurityContext}
use rust_ieee.Security.Error.{SecurityError}
use rust_ieee.Security.Secure.{secure_frame}
use rust_ieee.Security.Secure.Sized.{secure_frame-Returns}
use rust_ieee.Header.{Header, IsHeader}
use rust_ieee.Header.Write as HeaderWrite
use rust_ieee.Header.Returning.{header-Within}
use rust_ieee.Header.Write.{
  write_security, write_fields, write_frame_control-Writes, write_destination-Writes,
  write_source-Writes,
}
use rust_ieee.Frame.{Frame, FrameContent, FooterMode}
use rust_ieee.Frame.Content
use rust_ieee.Frame.Write.{
  new, write_head, write_footer, write_plain, write_secured, write_payload_with, write_behind,
  try_write,
}
use rust_ieee.Frame.Write.Plain.{IsQuiet}

module _ ⦃b : ByteLib⦄ where
  header-Confined :
      (h : Header) (context : Option SecurityContext)
      → IsHeader h
      → Confined (b.write_with (HeaderWrite.try_write h context))
  header-Confined h context v = Confined-write (header-Within h context v)

  write_head-Confined :
      (h : Header) (c : FrameContent) (context : Option SecurityContext)
      → IsHeader h
      → Content.IsContent c
      → Confined (write_head h c context)
  write_head-Confined h c context v w =
      Confined-then (header-Confined h context v)
        (Confined-Writes (Writes-write (Content.content-Encodes c w)))

  write_footer-Confined :
      (mode : FooterMode) (footer : List ℕ) → Confined (write_footer mode footer)
  write_footer-Confined FooterMode.none footer = Confined-skip
  write_footer-Confined FooterMode.explicit footer = Confined-Writes (Writes-slice footer)

  write_plain-Confined : (f : Frame) (mode : FooterMode) → Confined (write_plain f mode)
  write_plain-Confined f mode =
      Confined-then (Confined-Writes (Writes-slice f.payload)) (write_footer-Confined mode f.footer)

  module _ (ccm : Ccm) (f : Frame) where
    write_secured-Returns :
        (bytes : List ℕ) (offset : ℕ) (o : Outcome SecurityError (List ℕ × ℕ))
        → offset ≤ length bytes
        → Returns o
        → Returns (write_secured f FooterMode.none bytes offset o)
    write_secured-Returns bytes offset (ok (behind, len)) room h = tt
    write_secured-Returns bytes offset (err SecurityError.security_not_enabled) room h =
        Within-Returns (write_plain f FooterMode.none bytes offset)
          ((write_plain-Confined f FooterMode.none).ends bytes offset room)
    write_secured-Returns bytes offset (err _) room h = tt
    write_secured-Returns bytes offset panic room h = h

    payload-Returns :
        (mode : FooterMode) (context : Option SecurityContext) (bytes : List ℕ) (offset : ℕ)
        → IsQuiet context mode
        → offset ≤ length bytes
        → Returns (write_payload_with ccm f (new mode context) context bytes offset).1
    payload-Returns mode none bytes offset quiet room =
        Within-Returns (write_plain f mode bytes offset)
          ((write_plain-Confined f mode).ends bytes offset room)
    payload-Returns FooterMode.explicit (some s) bytes offset quiet room = absurd quiet
    payload-Returns FooterMode.none (some s) bytes offset quiet room =
        rw (le→leb offset (length bytes) room) (
          write_secured-Returns bytes offset
            (secure_frame ccm f.header f.payload s FooterMode.none (drop offset bytes)).1 room
            (secure_frame-Returns ccm f.header f.payload s (drop offset bytes)))

    behind-Returns :
        (mode : FooterMode) (context : Option SecurityContext) (o : Outcome b.Error (List ℕ × ℕ))
        → IsQuiet context mode
        → Within o
        → Returns (write_behind ccm f (new mode context) o).1
    behind-Returns mode context (ok (bytes, offset)) quiet within =
        payload-Returns mode context bytes offset quiet within
    behind-Returns mode context (err e) quiet within = tt
    behind-Returns mode context panic quiet within = within

    -- Writing a frame with a valid header and valid content, secured or not, with any payload and
    -- any footer, into any buffer, with any context that has no security context or leaves the
    -- footer out, ends with a number of octets or an error, never with a panic.
    pub writing_ends :
        (mode : FooterMode) (context : Option SecurityContext) (bytes : List ℕ)
        → IsHeader f.header
        → Content.IsContent f.content
        → IsQuiet context mode
        → Returns (try_write ccm f (new mode context) bytes).1
    unfolding try_write
    writing_ends mode context bytes v w quiet =
        behind-Returns mode context (write_head f.header f.content context bytes 0) quiet
          ((write_head-Confined f.header f.content context v w).ends bytes 0 (omega arith))
