-- ===== src/Frame/Unsecure/Agreement.antt =====
-- `Frame::try_read_and_unsecure` against `TryRead` of `Frame`, src/mac/frame/mod.rs.
use rust_ieee.Base.{ℕ, ◌≡◌, refl, sym, ap, ◌∙◌, false, List}
use rust_ieee.Base.Octets.{Endian, octets}
use rust_ieee.Outcome.{
  Outcome, ok, err, panic, and_then, map_err, Reader, ◌>>=◌, pure, lift, from_zero,
}
use rust_ieee.Target.{Target}
use rust_ieee.ByteLib.{ByteLib}
use rust_ieee.Security.Ccm.{Ccm}
use rust_ieee.Security.Device.{DeviceDescriptorLookup}
use rust_ieee.Security.Error.{of_byte_error}
use rust_ieee.Header.{Header, has_security}
use rust_ieee.Header.Read as HeaderRead
use rust_ieee.Frame.{Frame, FrameContent, FooterMode}
use rust_ieee.Frame.Content
use rust_ieee.Frame.Read.{
  read_bytes, payload_size, refuse_security, read_footer, footer_size, read_fields, try_read,
}
use rust_ieee.Frame.Write.{FrameSerDesContext}
use rust_ieee.Frame.Unsecure.{
  read_head, read_payload, read_behind, read_unsecured, unsecure_behind, try_read_and_unsecure,
}

module _ ⦃b : ByteLib⦄ where
  abbrev head_at : Header → FrameContent → ℕ → (Header × FrameContent) × ℕ
  head_at h c offset = ((h, c), offset)

  -- What was read of the head is not secured, if it was read.
  abbrev pub IsPlain : Outcome b.Error ((Header × FrameContent) × ℕ) → Type 0
  IsPlain (ok (head, offset)) = has_security head.0 ≡ false
  IsPlain (err e) = Unit
  IsPlain panic = Unit

  -- `TryRead` of `Frame` behind the header and the content.
  abbrev read_rest : Target → Header → FrameContent → Reader b.Error Frame
  read_rest t h c = do
    checked ← lift (refuse_security h)
    n ← payload_size t (footer_size FooterMode.none)
    payload ← read_bytes n
    footer ← read_footer FooterMode.none
    pure (record {
      header = h;
      content = c;
      payload = payload;
      footer = octets Endian.little 2 footer;
    })

  rest-payload :
      (t : Target) (h : Header) (c : FrameContent) (bytes : List ℕ) (offset : ℕ)
      → has_security h ≡ false
      → read_rest t h c bytes offset ≡ read_payload t h c 0 bytes offset
  rest-payload t h c bytes offset e = rw e refl

  content-rest :
      (t : Target) (bytes : List ℕ) (h : Header) (o : Outcome b.Error (FrameContent × ℕ))
      → and_then o (λ p. read_rest t h p.0 bytes p.1)
        ≡ and_then
            (and_then o (λ p. ok (head_at h p.0 p.1)))
            (λ p. read_rest t p.0.0 p.0.1 bytes p.1)
  content-rest t bytes h (ok p) = refl
  content-rest t bytes h (err e) = refl
  content-rest t bytes h panic = refl

  head-rest :
      (t : Target) (bytes : List ℕ) (o : Outcome b.Error (Header × ℕ))
      → and_then o (λ p.
        and_then
          (b.read_with (Content.try_read p.0.frame_type) bytes p.1)
          (λ q. read_rest t p.0 q.0 bytes q.1))
        ≡ and_then
            (and_then o (λ p.
              and_then
                (b.read_with (Content.try_read p.0.frame_type) bytes p.1)
                (λ q. ok (head_at p.0 q.0 q.1))))
            (λ p. read_rest t p.0.0 p.0.1 bytes p.1)
  head-rest t bytes (ok p) =
      content-rest t bytes p.0 (b.read_with (Content.try_read p.0.frame_type) bytes p.1)
  head-rest t bytes (err e) = refl
  head-rest t bytes panic = refl

  module _ (t : Target) (ccm : Ccm) (devices : DeviceDescriptorLookup) where
    stays :
        (ctx : FrameSerDesContext) (bytes : List ℕ) (s : devices.Store) (h : Header) (offset : ℕ)
        → has_security h ≡ false
        → unsecure_behind t ccm devices h ctx bytes offset s ≡ (s, ok (bytes, 0))
    stays ctx bytes s h offset e = rw e

    payload_behind :
        (ctx : FrameSerDesContext) (bytes : List ℕ) (s : devices.Store) (h : Header)
        (c : FrameContent) (offset : ℕ)
        → has_security h ≡ false
        → read_behind t ccm devices ctx bytes s (ok (head_at h c offset))
          ≡ (s, map_err of_byte_error (read_payload t h c 0 bytes offset))
    payload_behind ctx bytes s h c offset e =
        ap (read_unsecured t ccm devices h c offset) (stays ctx bytes s h offset e)

    behind-rest :
        (ctx : FrameSerDesContext) (bytes : List ℕ) (s : devices.Store)
        (o : Outcome b.Error ((Header × FrameContent) × ℕ))
        → IsPlain o
        → read_behind t ccm devices ctx bytes s o
          ≡ (s, map_err of_byte_error (and_then o (λ p. read_rest t p.0.0 p.0.1 bytes p.1)))
    behind-rest ctx bytes s (ok (head, offset)) e =
        payload_behind ctx bytes s head.0 head.1 offset e
        ∙ ap (λ (o : Outcome b.Error (Frame × ℕ)). (s, map_err of_byte_error o))
            (sym (rest-payload t head.0 head.1 bytes offset e))
    behind-rest ctx bytes s (err x) e = refl
    behind-rest ctx bytes s panic e = refl

    -- On octets whose header, if it can be read with its content, has no security,
    -- `try_read_and_unsecure` does as `try_read` without a footer does, errors and panics included,
    -- whatever its context; it does not touch the devices.
    pub plain_reads_agree :
        (ctx : FrameSerDesContext) (bytes : List ℕ) (s : devices.Store)
        → IsPlain (from_zero read_head bytes)
        → try_read_and_unsecure t ccm devices bytes ctx s
          ≡ (s, map_err of_byte_error (try_read t FooterMode.none bytes))
    unfolding try_read_and_unsecure try_read read_fields read_head
    plain_reads_agree ctx bytes s plain =
        behind-rest ctx bytes s (from_zero read_head bytes) plain
        ∙ ap (λ (o : Outcome b.Error (Frame × ℕ)). (s, map_err of_byte_error o))
            (sym (head-rest t bytes (b.read_with HeaderRead.try_read bytes 0)))
