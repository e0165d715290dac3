-- ===== src/Frame/Valid.antt =====
-- What `TryRead` of `Frame` returns on arbitrary octets, src/mac/frame/mod.rs.
use mathlib.Core.Path.{subst}
use rust_ieee.Base.{
  ℕ, ◌+◌, ◌≤◌, ◌≡◌, refl, sym, ap, arith, true, false, ◌||◌, not, Option, List, ◌++◌, length,
  length-append, append-nil, take, if◌then◌else◌,
}
use rust_ieee.Base.Octets.{Endian, octets}
use rust_ieee.Outcome.{ok, err}
use rust_ieee.Errors.{DecodeError, decode_error}
use rust_ieee.ByteLib.{ByteLib, Width}
use rust_ieee.ByteLib.Yields.{
  AreOctets, OnValue, OnOk-value, Yields, Gives, Gives-start, Yields-any, Yields-bind, Yields-int,
  Yields-lift, Yields-pure, Yields-read,
}
use rust_ieee.FrameControl.FrameType.{FrameType}
use rust_ieee.Security.Ccm.{Ccm}
use rust_ieee.Security.Context.{SecurityContext}
use rust_ieee.Header.{Header, IsHeader, has_security, is_some}
use rust_ieee.Header.Valid.{IsReadHeader, header-Gives, read-IsHeader}
use rust_ieee.Header.Write as HeaderWrite
use rust_ieee.Beacon.Valid as BeaconValid
use rust_ieee.Command.Valid as CommandValid
use rust_ieee.Target.{Target}
use rust_ieee.Frame.{Frame, FrameContent, FooterMode}
use rust_ieee.ByteLib.Spends.{Yields-Spends}
use rust_ieee.Frame.Alone.{behind, payload_size-Spends, read-IsAlone}
use rust_ieee.Frame.Content
use rust_ieee.Frame.Content.{frame_type_of, IsContent, MayPrecede}
use rust_ieee.Frame.Read.{
  footer_size, read_bytes-Bounded, read_footer, refuse_security, read_fields, try_read,
}
use rust_ieee.Frame.RoundTrip.{IsFooter, behind_content}
use rust_ieee.Frame.Write.{new, try_write}
use rust_ieee.Frame.Write.Plain.{IsQuiet, frame_of}
use rust_ieee.Frame.Write.RoundTrip.{written_frame_is_read}

-- The footer is a number of two octets, and 0 where it is left out.
abbrev pub HasFooter : FooterMode → List ℕ → Type 0
HasFooter mode footer = (n : ℕ) × (footer ≡ octets Endian.little 2 n) × IsFooter mode n

-- The parts are in range and fit together, and there is no security.
pub record IsReadFrame (mode : FooterMode) (f : Frame) : Type 0 where
  pub header_fits : IsReadHeader f.header
  pub content_fits : IsContent f.content
  pub same_type : frame_type_of f.content ≡ f.header.frame_type
  pub plain : has_security f.header ≡ false
  pub footer_fits : HasFooter mode f.footer

module _ ⦃b : ByteLib⦄ where
  abbrev IsContentOf : FrameType → FrameContent → Type 0
  IsContentOf t c = (frame_type_of c ≡ t) × IsContent c

  content_fields-Yields : (t : FrameType) → Yields (Content.read_fields t) (IsContentOf t)
  content_fields-Yields FrameType.beacon =
      Yields-bind _ (Yields-read BeaconValid.try_read-Gives) (λ m h. Yields-pure _ (refl, h))
  content_fields-Yields FrameType.data_frame = Yields-pure _ (refl, tt)
  content_fields-Yields FrameType.acknowledgement = Yields-pure _ (refl, tt)
  content_fields-Yields FrameType.mac_command =
      Yields-bind _ (Yields-read CommandValid.try_read-Gives) (λ c h. Yields-pure _ (refl, h))

  content-Yields : (t : FrameType) → Yields (b.read_with (Content.try_read t)) (IsContentOf t)
  unfolding Content.try_read
  content-Yields t = Yields-read (Gives-start (content_fields-Yields t))

  refused-OnValue : (h : Header) → OnValue (λ x. has_security h ≡ false) (refuse_security h)
  refused-OnValue h =
      elim (has_security h)
        as (λ x.
          OnValue (λ y. x ≡ false)
            (if x then err (decode_error DecodeError.security_enabled) else ok h)) [
              | true ↦ tt
              | false ↦ refl
            ]

  read_footer-Yields : (mode : FooterMode) → Yields (read_footer mode) (IsFooter mode)
  read_footer-Yields FooterMode.none = Yields-pure 0 refl
  read_footer-Yields FooterMode.explicit = Yields-int Width.u16 Endian.little

  frame-Gives : (t : Target) (mode : FooterMode) → Gives (try_read t mode) (IsReadFrame mode)
  unfolding try_read read_fields
  frame-Gives t mode = Gives-start (
      Yields-bind _ (Yields-read header-Gives) (λ h v.
        Yields-bind _ (content-Yields h.frame_type) (λ c w.
          Yields-bind _ (Yields-lift (refuse_security h) (refused-OnValue h)) (λ checked e.
            Yields-bind _ (Yields-Spends (payload_size-Spends t (footer_size mode))) (λ n k.
              Yields-bind _ (Yields-any (read_bytes-Bounded n)) (λ p k'.
                Yields-bind _ (read_footer-Yields mode) (λ m fits. Yields-pure _ (record {
                  header_fits = v;
                  content_fits = w.1;
                  same_type = w.0;
                  plain = e;
                  footer_fits = (m, refl, fits);
                }))))))))

  behind-frame_of :
      (mode : FooterMode) (h : Header) (c : FrameContent) (payload : List ℕ) (n : ℕ)
      → behind mode (frame_of h c payload n) ≡ behind_content mode payload n
  behind-frame_of FooterMode.none h c payload n = sym (append-nil payload)
  behind-frame_of FooterMode.explicit h c payload n = refl

  -- The octets of the frame without a counter.
  abbrev pub size_of : FooterMode → Frame → ℕ
  size_of mode f =
      length (HeaderWrite.encoding b.native 0 f.header)
      + length (Content.encoding f.content)
      + length (behind mode f)

  abbrev pub Survives : Ccm → Target → FooterMode → Option SecurityContext → List ℕ → Frame → Type 0
  Survives ccm t mode context buffer f =
      (out : List ℕ) × (size : ℕ) × (try_write ccm f (new mode context) buffer
        ≡ (new mode context, ok (out, size)))
      × (try_read t mode (take size out) ≡ ok (f, size))

  written_again :
      (ccm : Ccm) (t : Target) (mode : FooterMode) (context : Option SecurityContext)
      (buffer : List ℕ) (h : Header) (c : FrameContent) (payload footer : List ℕ)
      → IsHeader h
      → has_security h ≡ false
      → frame_type_of c ≡ h.frame_type
      → IsContent c
      → HasFooter mode footer
      → MayPrecede c
          (behind mode (record { header = h; content = c; payload = payload; footer = footer }))
      → IsQuiet context mode
      → size_of mode (record { header = h; content = c; payload = payload; footer = footer })
        ≤ length buffer
      → Survives ccm t mode context buffer
          (record { header = h; content = c; payload = payload; footer = footer })
  written_again ccm t mode context buffer h c payload footer v e same w (n, is, fits) alone quiet
        room =
      let f : List ℕ → Frame =
        λ x. record { header = h; content = c; payload = payload; footer = x } in
      let alone' = subst (λ x. MayPrecede c (behind mode (f x))) is alone in
      let room' = subst (λ x. size_of mode (f x) ≤ length buffer) is room in
      let same_behind = behind-frame_of mode h c payload n in
      subst (λ x. Survives ccm t mode context buffer (f x)) (sym is)
        (written_frame_is_read ccm t mode context h c payload n buffer v e same w
          (subst (λ x. MayPrecede c x) same_behind alone') fits quiet
          (omega (
            arith,
            length-append (HeaderWrite.encoding b.native 0 h)
                (Content.encoding c ++ behind_content mode payload n),
            length-append (Content.encoding c) (behind_content mode payload n),
            ap length same_behind,
            room',
          )))

  -- A frame that is read from any octets, with a source where it asks to compress one, can be
  -- written: into a buffer with room for it, without a security context or without a footer, it is
  -- written, and what was written is read as the same frame.
  pub frame_is_read_again :
      (ccm : Ccm) (t : Target) (mode : FooterMode) (context : Option SecurityContext)
      (bytes buffer : List ℕ) (f : Frame) (n : ℕ)
      → AreOctets bytes
      → try_read t mode bytes ≡ ok (f, n)
      → (is_some f.header.source || not f.header.pan_id_compress) ≡ true
      → IsQuiet context mode
      → size_of mode f ≤ length buffer
      → Survives ccm t mode context buffer f
  frame_is_read_again ccm t mode context bytes buffer f n octets e source quiet room =
      let v =
        OnOk-value (IsReadFrame mode) (length bytes) (try_read t mode bytes) f n
          ((frame-Gives t mode).gives bytes octets) e in
      written_again ccm t mode context buffer f.header f.content f.payload f.footer
        (read-IsHeader f.header v.header_fits source) v.plain v.same_type v.content_fits
        v.footer_fits (read-IsAlone t mode bytes f n e) quiet room
