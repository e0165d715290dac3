-- ===== src/Frame/Write/Plain.antt =====
-- What `TryWrite` of `Frame` puts into the buffer for a frame without security,
-- src/mac/frame/mod.rs.
use mathlib.Core.Path.{subst}
use rust_ieee.Base.{
  ℕ, ◌≤◌, ◌≡◌, refl, ap, ◌∙◌, arith, true, false, ◌||◌, not, Option, none, some, List, [], ◌++◌,
  drop, ◌∷◌, length, length-append, append_assoc, le→leb, le_or_lt, inl, inr,
}
use rust_ieee.Base.Octets.{Endian, octets}
use rust_ieee.Outcome.{Outcome, ok, err, panic, and_then, Writer, ◌⨾◌}
use rust_ieee.ByteLib.{ByteLib}
use rust_ieee.ByteLib.Laws.{
  put, Encodes-put, Encodes-start, Writes, Writes-skip, Writes-slice, Writes-then, Writes-write,
}
use rust_ieee.Security.AuxHeader.{AuxiliarySecurityHeader}
use rust_ieee.Security.Ccm.{Ccm}
use rust_ieee.Security.Context.{SecurityContext}
use rust_ieee.Security.Error.{SecurityError}
use rust_ieee.Security.Secure.{secure_frame}
use rust_ieee.Header.{Header, IsHeader, has_security, is_some, frame_control}
use rust_ieee.FrameControl.Word.{word}
use rust_ieee.Header.Write as HeaderWrite
use rust_ieee.Header.RoundTrip.{source_is_there}
use rust_ieee.Frame.{Frame, FrameContent, FooterMode}
use rust_ieee.Frame.Content
use rust_ieee.Frame.RoundTrip.{encoding, behind_content, footer_encoding}
use rust_ieee.Frame.Write.{
  write_head, write_payload, write_footer, write_plain, new, write_payload_with, write_behind,
  try_write,
}

-- There is no security context, or no footer; with both `secure_frame` panics.
abbrev pub IsQuiet : Option SecurityContext → FooterMode → Type 0
IsQuiet none mode = Unit
IsQuiet (some s) FooterMode.none = Unit
IsQuiet (some s) FooterMode.explicit = ⊥

no_counter :
    (host : Endian) (counter : ℕ) (h : Header)
    → has_security h ≡ false
    → HeaderWrite.encoding host counter h ≡ HeaderWrite.encoding host 0 h
no_counter host counter h e =
    ap
      (λ s.
        octets Endian.little 2 (word (frame_control h))
        ++ ((h.seq ∷ [])
            ++ (HeaderWrite.destination_encoding h.destination
                ++ (HeaderWrite.source_encoding h.source h.pan_id_compress ++ s))))
      (same host counter h.auxiliary_security_header e)
  where
    same :
        (host : Endian) (counter : ℕ) (a : Option AuxiliarySecurityHeader)
        → is_some a ≡ false
        → HeaderWrite.security_encoding host counter a ≡ HeaderWrite.security_encoding host 0 a
    same host counter none e = refl
    same host counter (some a) e = absurd (ground (arith, e))

-- The frame whose footer is the number `n`.
abbrev pub frame_of : Header → FrameContent → List ℕ → ℕ → Frame
frame_of h c payload n = record {
  header = h;
  content = c;
  payload = payload;
  footer = octets Endian.little 2 n;
}

pub is_none : (a : Option AuxiliarySecurityHeader) → is_some a ≡ false → a ≡ none
is_none none e = refl
is_none (some a) e = absurd (ground (arith, e))

module _ ⦃b : ByteLib⦄ where
  pub write_head-Writes :
      (h : Header) (c : FrameContent) (context : Option SecurityContext)
      → IsHeader h
      → Content.IsContent c
      → (is_some context || not (is_some h.auxiliary_security_header)) ≡ true
      → Writes
          (write_head h c context)
          b.incomplete
          (HeaderWrite.encoding b.native (HeaderWrite.counter_of context) h ++ Content.encoding c)
  write_head-Writes h c context v w has_context =
      Writes-then
        (Writes-write (
          HeaderWrite.try_write-Encodes h context v.seq_fits v.security_fits
            (source_is_there h.pan_id_compress h.destination h.source v.compressible, has_context)))
        (Writes-write (Content.content-Encodes c w))

  write_footer-Writes :
      (mode : FooterMode) (n : ℕ)
      → Writes (write_footer mode (octets Endian.little 2 n)) b.incomplete (footer_encoding mode n)
  write_footer-Writes FooterMode.none n = Writes-skip
  write_footer-Writes FooterMode.explicit n = Writes-slice (octets Endian.little 2 n)

  -- The offset is within the buffer.
  abbrev InRange : Outcome b.Error (List ℕ × ℕ) → Type 0
  InRange (ok (bytes, offset)) = offset ≤ length bytes
  InRange (err e) = Unit
  InRange panic = Unit

  Writes-InRange :
      {w : Writer b.Error} {encoding : List ℕ} (bytes : List ℕ)
      → Writes w b.incomplete encoding
      → InRange (w bytes 0)
  Writes-InRange {encoding} bytes h = elim (le_or_lt (length encoding) (length bytes)) [
    | inl room ↦
        rw (h.fits [] bytes room)
          (omega (arith, length-append encoding (drop (length encoding) bytes)))
    | inr lack ↦ rw (h.short_buffer [] bytes lack) tt
  ]

  module _ (ccm : Ccm) (f : Frame) where
    not_enabled :
        (s : SecurityContext) (bytes : List ℕ)
        → has_security f.header ≡ false
        → secure_frame ccm f.header f.payload s FooterMode.none bytes
          ≡ (s, err SecurityError.security_not_enabled)
    unfolding secure_frame
    not_enabled s bytes e = rw (is_none f.header.auxiliary_security_header e)

    payload-plain :
        (mode : FooterMode) (context : Option SecurityContext) (bytes : List ℕ) (offset : ℕ)
        → has_security f.header ≡ false
        → IsQuiet context mode
        → offset ≤ length bytes
        → write_payload_with ccm f (new mode context) context bytes offset
          ≡ (new mode context, write_plain f mode bytes offset)
    payload-plain mode none bytes offset e quiet room = refl
    payload-plain FooterMode.explicit (some s) bytes offset e quiet room = absurd quiet
    payload-plain FooterMode.none (some s) bytes offset e quiet room =
        rw (le→leb offset (length bytes) room, not_enabled s (drop offset bytes) e)

    behind-plain :
        (mode : FooterMode) (context : Option SecurityContext) (o : Outcome b.Error (List ℕ × ℕ))
        → has_security f.header ≡ false
        → IsQuiet context mode
        → InRange o
        → write_behind ccm f (new mode context) o
          ≡ (new mode context, and_then o (λ p. write_plain f mode p.0 p.1))
    behind-plain mode context (ok (bytes, offset)) e quiet room =
        payload-plain mode context bytes offset e quiet room
    behind-plain mode context (err x) e quiet room = refl
    behind-plain mode context panic e quiet room = refl

    unsecured_has_context :
        (context : Option SecurityContext)
        → has_security f.header ≡ false
        → (is_some context || not (is_some f.header.auxiliary_security_header)) ≡ true
    unsecured_has_context none e = rw e refl
    unsecured_has_context (some s) e = refl

    head-plain :
        (context : Option SecurityContext)
        → IsHeader f.header
        → has_security f.header ≡ false
        → Content.IsContent f.content
        → Writes
            (write_head f.header f.content context)
            b.incomplete
            (HeaderWrite.encoding b.native 0 f.header ++ Content.encoding f.content)
    head-plain context v e w =
        subst
          (λ x.
            Writes (write_head f.header f.content context) b.incomplete
              (x ++ Content.encoding f.content))
          (no_counter b.native (HeaderWrite.counter_of context) f.header e)
          (write_head-Writes f.header f.content context v w (unsecured_has_context context e))

  plain-Writes :
      (ccm : Ccm) (mode : FooterMode) (context : Option SecurityContext) (h : Header)
      (c : FrameContent) (payload : List ℕ) (n : ℕ)
      → IsHeader h
      → has_security h ≡ false
      → Content.IsContent c
      → Writes
          (write_head h c context
            ⨾ write_payload payload
            ⨾ write_footer mode (octets Endian.little 2 n))
          b.incomplete
          (encoding mode h c payload n)
  plain-Writes ccm mode context h c payload n v e w =
      rw
        (append_assoc (HeaderWrite.encoding b.native 0 h) (Content.encoding c)
          (behind_content mode payload n))
        at
        (Writes-then (head-plain ccm (frame_of h c payload n) context v e w)
          (Writes-then (Writes-slice payload) (write_footer-Writes mode n)))

  -- A frame without security, whose header and content are valid, is put at the head of a buffer
  -- that has room for its octets, and nothing else in the buffer changes; in a buffer that is too
  -- short, writing fails with `Incomplete`. The context is as it was. It has no security context,
  -- or the footer is left out.
  pub frame_is_put :
      (ccm : Ccm) (mode : FooterMode) (context : Option SecurityContext) (h : Header)
      (c : FrameContent) (payload : List ℕ) (n : ℕ) (bytes : List ℕ)
      → IsHeader h
      → has_security h ≡ false
      → Content.IsContent c
      → IsQuiet context mode
      → try_write ccm (frame_of h c payload n) (new mode context) bytes
        ≡ (new mode context, put b.incomplete (encoding mode h c payload n) bytes)
  unfolding try_write
  frame_is_put ccm mode context h c payload n bytes v e w quiet =
      let f = frame_of h c payload n in
      behind-plain ccm f mode context (write_head h c context bytes 0) e quiet
        (Writes-InRange bytes (head-plain ccm f context v e w))
      ∙ ap (λ (o : Outcome b.Error (List ℕ × ℕ)). (new mode context, o))
          (Encodes-put (Encodes-start (plain-Writes ccm mode context h c payload n v e w)) bytes)
