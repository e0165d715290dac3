-- ===== src/Frame/Unsecure/Authentic.antt =====
-- What a frame with security that `Frame::try_read_and_unsecure` of src/mac/frame/mod.rs returns is
-- made of.
use mathlib.Core.Path.{subst}
use rust_ieee.Base.{
  ℕ, ◌+◌, ◌≤◌, ◌≡◌, refl, sym, ap, ◌∙◌, arith, true, false, Option, none, some, List, [], ◌∷◌, ◌++◌,
  take, drop, length, length-take, length-drop, le→leb, Bool-cases, inl, inr,
}
use rust_ieee.Outcome.{Outcome, ok, err, panic, and_then, map_err, from_zero}
use rust_ieee.Target.{Target}
use rust_ieee.ByteLib.{ByteLib}
use rust_ieee.ByteLib.Bounds.{EndsWithin, Total-start}
use rust_ieee.Security.Ccm.{Ccm}
use rust_ieee.Security.Context.{SecurityContext}
use rust_ieee.Security.Device.{DeviceDescriptorLookup}
use rust_ieee.Security.Error.{SecurityError, of_byte_error}
use rust_ieee.Security.Unsecure.{unsecure_frame}
use rust_ieee.Security.Unsecure.Opening.{tag_start}
use rust_ieee.Security.Unsecure.Authentic.{Authentic, OnAccepted, unsecure_frame-OnAccepted}
use rust_ieee.Header.{Header, has_security}
use rust_ieee.Frame.{Frame, FrameContent}
use rust_ieee.Frame.Read.{payload_size, read_bytes}
use rust_ieee.Frame.Write.{FrameSerDesContext}
use rust_ieee.Frame.Unsecure.{
  read_head, read_payload, unsecured, unsecure_with, unsecure_behind, read_unsecured, read_behind,
  try_read_and_unsecure,
}
use rust_ieee.Frame.Unsecure.RoundTrip.{payload-Reads}
use rust_ieee.Frame.Unsecure.Returning.{read_head-Bounded}

module _ ⦃b : ByteLib⦄ (t : Target) (ccm : Ccm) (devices : DeviceDescriptorLookup) where
  -- A payload with its tag behind what stands before it.
  payload_is_read :
      (h : Header) (c : FrameContent) (buf out part tag : List ℕ) (offset taglen : ℕ)
      → offset ≤ length buf
      → out ≡ part ++ tag
      → taglen ≡ length tag
      → read_payload t h c taglen (take offset buf ++ out) offset
        ≡ ok (
          record { header = h; content = c; payload = part; footer = 0 ∷ 0 ∷ [] },
          offset + length part,
        )
  payload_is_read h c buf out part tag offset taglen within same size =
      rw (same, size)
        (subst
          (λ k.
            read_payload t h c (length tag) (take offset buf ++ (part ++ tag)) k
            ≡ ok (
              record { header = h; content = c; payload = part; footer = 0 ∷ 0 ∷ [] },
              k + length part,
            ))
          (omega (arith, length-take offset buf))
          ((payload-Reads t h c part tag).at (take offset buf)))

  module _ (ctx : FrameSerDesContext) (buf : List ℕ) (s : devices.Store) where
    -- Behind the header and the content that are read stands what the receiver has verified, and
    -- the payload is what the cipher gave.
    pub record AuthenticFrame (f : Frame) : Type 0 where
      pub context : SecurityContext
      pub offset : ℕ
      pub out : List ℕ
      pub taglen : ℕ
      pub configured : ctx.security_ctx ≡ some context
      pub head : from_zero read_head buf ≡ ok ((f.header, f.content), offset)
      pub authentic : Authentic t ccm devices f.header (drop offset buf) context s out taglen
      pub has_payload : f.payload ≡ authentic.opens.part

    abbrev OnFrame : devices.Store × Outcome SecurityError (Frame × ℕ) → Type 0
    OnFrame (s', ok (f, n)) = has_security f.header ≡ true → AuthenticFrame f
    OnFrame (s', err e) = Unit
    OnFrame (s', panic) = Unit

    module _ (h : Header) (c : FrameContent) (offset : ℕ)
        (head : from_zero read_head buf ≡ ok ((h, c), offset)) (within : offset ≤ length buf) where
      opened :
          (context : SecurityContext)
          → ctx.security_ctx ≡ some context
          → has_security h ≡ true
          → (r : devices.Store × Outcome SecurityError (List ℕ × ℕ))
          → OnAccepted t ccm devices h (drop offset buf) context s r
          → OnFrame (read_unsecured t ccm devices h c offset (unsecured t ccm devices buf offset r))
      opened context configured secured (s', ok (out, taglen)) a =
          let o = a.opens in
          let tag = drop (tag_start a.aux (drop offset buf)) (drop offset buf) in
          let size : taglen ≡ length tag = omega (
            arith,
            o.size,
            o.holds_tag,
            length-drop (tag_start a.aux (drop offset buf)) (drop offset buf),
          ) in
          rw (payload_is_read h c buf out o.part tag offset taglen within o.joined size) (λ _.
            record {
              context = context;
              offset = offset;
              out = out;
              taglen = taglen;
              configured = configured;
              head = head;
              authentic = a;
              has_payload = refl;
            })
      opened context configured secured (s', err SecurityError.security_not_enabled) a =
          absurd (ground (arith, rw a at secured))
      opened context configured secured (s', err _) a = tt
      opened context configured secured (s', panic) a = tt

      behind :
          (context : Option SecurityContext)
          → ctx.security_ctx ≡ context
          → has_security h ≡ true
          → OnFrame (
              read_unsecured t ccm devices h c offset
                (unsecure_with t ccm devices h ctx context buf offset s))
      behind none configured secured = tt
      behind (some context) configured secured = rw (le→leb offset (length buf) within) (
          opened context configured secured
            (unsecure_frame t ccm devices h (drop offset buf) context ctx.footer_mode s)
            (unsecure_frame-OnAccepted t ccm devices h (drop offset buf) context s ctx.footer_mode))

      -- A frame that is read without its being unsecured has the header that was read.
      abbrev HasHeader : Outcome b.Error (Frame × ℕ) → Type 0
      HasHeader (ok (f, n)) = f.header ≡ h
      HasHeader (err e) = Unit
      HasHeader panic = Unit

      bytes-HasHeader :
          (o : Outcome b.Error (List ℕ × ℕ))
          → HasHeader (
              and_then o (λ p.
                ok (record { header = h; content = c; payload = p.0; footer = 0 ∷ 0 ∷ [] }, p.1)))
      bytes-HasHeader (ok (payload, n)) = refl
      bytes-HasHeader (err e) = tt
      bytes-HasHeader panic = tt

      size-HasHeader :
          (o : Outcome b.Error (ℕ × ℕ))
          → HasHeader (
              and_then o (λ p. and_then (read_bytes p.0 buf p.1) (λ q.
                ok (record { header = h; content = c; payload = q.0; footer = 0 ∷ 0 ∷ [] }, q.1))))
      size-HasHeader (ok (n, k)) = bytes-HasHeader (read_bytes n buf k)
      size-HasHeader (err e) = tt
      size-HasHeader panic = tt

      plain-OnFrame :
          has_security h ≡ false
          → (o : Outcome b.Error (Frame × ℕ)) → HasHeader o
          → OnFrame (s, map_err of_byte_error o)
      plain-OnFrame plain (ok (f, n)) same =
          λ secured. absurd (ground (arith, sym secured ∙ ap has_security same ∙ plain))
      plain-OnFrame plain (err e) same = tt
      plain-OnFrame plain panic same = tt

      read-OnFrame : OnFrame (
          read_unsecured t ccm devices h c offset
            (unsecure_behind t ccm devices h ctx buf offset s))
      read-OnFrame = elim (Bool-cases (has_security h)) [
        | inl secured ↦ rw secured (behind ctx.security_ctx refl secured)
        | inr plain ↦ rw plain (
            plain-OnFrame plain (read_payload t h c 0 buf offset)
              (size-HasHeader (payload_size t 0 buf offset)))
      ]

    head-OnFrame :
        (o : Outcome b.Error ((Header × FrameContent) × ℕ))
        → from_zero read_head buf ≡ o
        → EndsWithin 0 (length buf) o
        → OnFrame (read_behind t ccm devices ctx buf s o)
    head-OnFrame (ok (head, offset)) e ends = read-OnFrame head.0 head.1 offset e ends.1
    head-OnFrame (err x) e ends = tt
    head-OnFrame panic e ends = tt

    read_and_unsecure-OnFrame : OnFrame (try_read_and_unsecure t ccm devices buf ctx s)
    unfolding try_read_and_unsecure
    read_and_unsecure-OnFrame =
        head-OnFrame (from_zero read_head buf) refl ((Total-start read_head-Bounded).ends buf)

    -- Where `try_read_and_unsecure` returns a frame with a security header, the context has a
    -- security context, and the octets behind the header and content that are read are authentic:
    -- a data frame of a version after 2003 with a level and a source, a key, a device whose counter
    -- is neither exhausted nor above that of the frame, and a cipher that opens those octets for
    -- the tag at their end with that key and the nonce of the sender. The payload of the frame is
    -- what the cipher gave.
    pub received_frame_is_authentic :
        (s' : devices.Store) (f : Frame) (n : ℕ)
        → try_read_and_unsecure t ccm devices buf ctx s ≡ (s', ok (f, n))
        → has_security f.header ≡ true
        → AuthenticFrame f
    received_frame_is_authentic s' f n e secured = subst OnFrame e read_and_unsecure-OnFrame secured
