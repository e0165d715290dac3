-- ===== src/Frame/Write.antt =====
-- `FrameSerDesContext` and `TryWrite` of `Frame`, src/mac/frame/mod.rs. Writing returns the context
-- as it is afterwards, also where it fails.
pub mod Plain
pub mod RoundTrip
pub mod Secured
pub mod Bounds
pub mod Returning
use rust_ieee.Base.{ℕ, ◌+◌, Option, none, some, List, ◌++◌, take, drop, length, leb, if◌then◌else◌}
use rust_ieee.Outcome.{Outcome, ok, err, panic, Writer, ◌⨾◌, skip}
use rust_ieee.ByteLib.{ByteLib}
use rust_ieee.Security.Ccm.{Ccm}
use rust_ieee.Security.Context.{SecurityContext}
use rust_ieee.Security.Error.{SecurityError, security_error}
use rust_ieee.Security.Secure.{secure_frame}
use rust_ieee.Header.{Header}
use rust_ieee.Header.Write as HeaderWrite
use rust_ieee.Frame.{Frame, FrameContent, FooterMode}
use rust_ieee.Frame.Content

pub record FrameSerDesContext : Type 0 where
  pub footer_mode : FooterMode
  pub security_ctx : Option SecurityContext

-- `FrameSerDesContext::new`.
abbrev pub new : FooterMode → Option SecurityContext → FrameSerDesContext
new mode security_ctx = record { footer_mode = mode; security_ctx = security_ctx }

-- `FrameSerDesContext::no_security`.
abbrev pub no_security : FooterMode → FrameSerDesContext
no_security mode = record { footer_mode = mode; security_ctx = none }

module _ ⦃b : ByteLib⦄ where
  -- The header and the content.
  abbrev pub write_head : Header → FrameContent → Option SecurityContext → Writer b.Error
  write_head h c context =
      b.write_with (HeaderWrite.try_write h context) ⨾ b.write_with (Content.try_write c)

  abbrev pub write_payload : List ℕ → Writer b.Error
  write_payload payload = b.write_with (b.write_slice payload)

  abbrev pub write_footer : FooterMode → List ℕ → Writer b.Error
  write_footer FooterMode.none footer = skip
  write_footer FooterMode.explicit footer = b.write_with (b.write_slice footer)

  -- Without security.
  abbrev pub write_plain : Frame → FooterMode → Writer b.Error
  write_plain f mode = write_payload f.payload ⨾ write_footer mode f.footer

  -- The match on `write_secured`, whose buffer stands behind the offset.
  abbrev pub write_secured :
      Frame
      → FooterMode
      → List ℕ
      → ℕ
      → Outcome SecurityError (List ℕ × ℕ)
      → Outcome b.Error (List ℕ × ℕ)
  write_secured f mode bytes offset (ok (behind, len)) =
      write_footer mode f.footer (take offset bytes ++ behind) (offset + len)
  write_secured f mode bytes offset (err SecurityError.security_not_enabled) =
      write_plain f mode bytes offset
  write_secured f mode bytes offset (err e) = err (security_error e)
  write_secured f mode bytes offset panic = panic

  module _ (ccm : Ccm) where
    abbrev pub Result : Type 0
    Result = FrameSerDesContext × Outcome b.Error (List ℕ × ℕ)

    -- With what `secure_frame` leaves of the context.
    abbrev pub write_with_context :
        Frame
        → FrameSerDesContext
        → List ℕ
        → ℕ
        → SecurityContext × Outcome SecurityError (List ℕ × ℕ)
        → Result
    write_with_context f c bytes offset (s, o) =
        (record c { security_ctx = some s }, write_secured f c.footer_mode bytes offset o)

    -- The slice `bytes[*offset..]` exists where the offset is within the buffer.
    abbrev pub write_payload_with :
        Frame → FrameSerDesContext → Option SecurityContext → List ℕ → ℕ → Result
    write_payload_with f c none bytes offset = (c, write_plain f c.footer_mode bytes offset)
    write_payload_with f c (some s) bytes offset =
        if leb offset (length bytes)
        then write_with_context f c bytes offset
            (secure_frame ccm f.header f.payload s c.footer_mode (drop offset bytes))
        else (c, panic)

    abbrev pub write_behind : Frame → FrameSerDesContext → Outcome b.Error (List ℕ × ℕ) → Result
    write_behind f c (ok (bytes, offset)) = write_payload_with f c c.security_ctx bytes offset
    write_behind f c (err e) = (c, err e)
    write_behind f c panic = (c, panic)

    unfoldable pub try_write : Frame → FrameSerDesContext → List ℕ → Result
    try_write f c bytes = write_behind f c (write_head f.header f.content c.security_ctx bytes 0)
