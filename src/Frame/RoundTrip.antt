-- ===== src/Frame/RoundTrip.antt =====
-- What an unsecured frame reads as, src/mac/frame/mod.rs.
use mathlib.Core.Path.{subst, ap₂}
use rust_ieee.Base.{
  ℕ, ◌-◌, ◌^◌, ◌<◌, ◌≡◌, refl, sym, ap, ◌∙◌, arith, false, Option, none, some, List, [], ◌++◌,
  length, length-append, append-nil, take-append,
}
use rust_ieee.Base.Octets.{Endian, octets, length-octets}
use rust_ieee.Outcome.{ok, from_zero}
use rust_ieee.ByteLib.{ByteLib, Width}
use rust_ieee.ByteLib.Laws.{
  Reads, Reads-bind, Reads-int, Reads-lift, Reads-map, Reads-pure, Reads-read, Reads-start,
}
use rust_ieee.Header.{Header, IsHeader, has_security, is_some}
use rust_ieee.Security.AuxHeader.{AuxiliarySecurityHeader}
use rust_ieee.Header.Read as HeaderRead
use rust_ieee.Header.Write as HeaderWrite
use rust_ieee.Header.RoundTrip as HeaderTrip
use rust_ieee.Frame.{FrameContent, FooterMode}
use rust_ieee.Frame.Content
use rust_ieee.Target.{Target, sub_fits}
use rust_ieee.Frame.Read.{
  footer_size, payload_size, read_bytes, read_footer, refuse_security, read_fields, try_read,
}

-- The footer as it is on the air, and as a number.
abbrev pub IsFooter : FooterMode → ℕ → Type 0
IsFooter FooterMode.none n = n ≡ 0
IsFooter FooterMode.explicit n = n < 2 ^ 16

abbrev pub footer_encoding : FooterMode → ℕ → List ℕ
footer_encoding FooterMode.none n = []
footer_encoding FooterMode.explicit n = octets Endian.little 2 n

abbrev pub behind_content : FooterMode → List ℕ → ℕ → List ℕ
behind_content mode payload n = payload ++ footer_encoding mode n

length-footer : (mode : FooterMode) (n : ℕ) → length (footer_encoding mode n) ≡ footer_size mode
length-footer FooterMode.none n = refl
length-footer FooterMode.explicit n = length-octets Endian.little 2 n

unsecured :
    (host : Endian) (counter : ℕ) (a : Option AuxiliarySecurityHeader)
    → is_some a ≡ false
    → HeaderTrip.received_security host counter a ≡ a
unsecured host counter none e = refl
unsecured host counter (some a) e = absurd (ground (arith, e))

module _ ⦃b : ByteLib⦄ where
  -- The octets of a frame without security, where no counter is needed.
  abbrev pub encoding : FooterMode → Header → FrameContent → List ℕ → ℕ → List ℕ
  encoding mode h c payload n =
      HeaderWrite.encoding b.native 0 h ++ (Content.encoding c ++ behind_content mode payload n)

  pub not_secured : (h : Header) → has_security h ≡ false → refuse_security h ≡ ok h
  not_secured h e = rw e

  pub header-Reads :
      (h : Header) (rest : List ℕ)
      → IsHeader h
      → has_security h ≡ false
      → Reads (b.read_with HeaderRead.try_read) (HeaderWrite.encoding b.native 0 h) rest h
  header-Reads h rest v e =
      subst
        (λ x. Reads (b.read_with HeaderRead.try_read) (HeaderWrite.encoding b.native 0 h) rest x)
        (ap (λ s. record h { auxiliary_security_header = s })
          (unsecured b.native 0 h.auxiliary_security_header e))
        (Reads-read (HeaderTrip.header_round_trip h 0 rest v))

  -- What is behind the payload is left out.
  pub size-Reads :
      (t : Target) (payload tail : List ℕ) (n : ℕ)
      → length tail ≡ n
      → Reads (payload_size t n) [] (payload ++ tail) (length payload)
  unfolding payload_size
  size-Reads t payload tail n e = record {
    at = λ before.
        let total = before ++ (payload ++ tail) in
        let all = length-append before (payload ++ tail) in
        let behind = length-append payload tail in
        rw
          (
            sub_fits {E = b.Error} t (length total) (length before) (omega (arith, all)),
            sub_fits {E = b.Error} t (length total - length before) n
                (omega (arith, all, behind, e)),
          )
          (ap (λ (p : ℕ × ℕ). ok p)
            (ap₂ (λ (x y : ℕ). (x, y)) (omega (arith, all, behind, e)) (omega arith)));
  }

  payload_size-Reads :
      (t : Target) (mode : FooterMode) (payload : List ℕ) (n : ℕ)
      → Reads
          (payload_size t (footer_size mode))
          []
          (behind_content mode payload n ++ [])
          (length payload)
  payload_size-Reads t mode payload n =
      rw (append-nil (behind_content mode payload n))
        (size-Reads t payload (footer_encoding mode n) (footer_size mode) (length-footer mode n))

  pub read_bytes-Reads :
      (payload rest : List ℕ) → Reads (read_bytes (length payload)) payload rest payload
  read_bytes-Reads payload rest = Reads-read (
      b.read_slice_ok (length payload) (payload ++ rest) (omega (arith, length-append payload rest))
      ∙ rw (take-append payload rest))

  read_footer-Reads :
      (mode : FooterMode) (n : ℕ)
      → IsFooter mode n
      → Reads (read_footer mode) (footer_encoding mode n) [] n
  read_footer-Reads FooterMode.none n h = rw h (Reads-pure 0 [])
  read_footer-Reads FooterMode.explicit n h = Reads-int Width.u16 Endian.little n [] h

  pub content-Reads :
      (h : Header) (c : FrameContent) (rest : List ℕ)
      → Content.frame_type_of c ≡ h.frame_type
      → Content.IsContent c
      → Content.MayPrecede c rest
      → Reads (b.read_with (Content.try_read h.frame_type)) (Content.encoding c) rest c
  content-Reads h c rest same w alone =
      subst (λ t. Reads (b.read_with (Content.try_read t)) (Content.encoding c) rest c) same
        (Content.read-Reads c rest w alone)

  read_fields-Reads :
      (t : Target) (mode : FooterMode) (h : Header) (c : FrameContent) (payload : List ℕ) (n : ℕ)
      → IsHeader h
      → has_security h ≡ false
      → Content.frame_type_of c ≡ h.frame_type
      → Content.IsContent c
      → Content.MayPrecede c (behind_content mode payload n)
      → IsFooter mode n
      → Reads
          (read_fields t mode)
          (encoding mode h c payload n)
          []
          (record { header = h; content = c; payload = payload; footer = octets Endian.little 2 n })
  unfolding read_fields
  read_fields-Reads t mode h c payload n v e same w alone f = Reads-bind _ (header-Reads h _ v e) (
      Reads-bind _
        (content-Reads h c _ same w (rw (append-nil (behind_content mode payload n)) alone))
        (Reads-bind _ {first = []} (Reads-lift _ (not_secured h e)) (
          Reads-bind _ {first = []} (payload_size-Reads t mode payload n) (
            Reads-bind _ (read_bytes-Reads payload _) (Reads-map _ (read_footer-Reads mode n f))))))

  -- A frame without security, whose header and content are valid, whose content is of the header's
  -- type and whose footer has two octets (or is 0 where it is left out), is read back from its
  -- octets, and all of them are taken; a coordinator realignment without a channel page has
  -- neither payload nor footer behind it.
  pub frame_round_trip :
      (t : Target) (mode : FooterMode) (h : Header) (c : FrameContent) (payload : List ℕ) (n : ℕ)
      → IsHeader h
      → has_security h ≡ false
      → Content.frame_type_of c ≡ h.frame_type
      → Content.IsContent c
      → Content.MayPrecede c (behind_content mode payload n)
      → IsFooter mode n
      → try_read t mode (encoding mode h c payload n)
        ≡ ok (
          record { header = h; content = c; payload = payload; footer = octets Endian.little 2 n },
          length (encoding mode h c payload n),
        )
  unfolding try_read
  frame_round_trip t mode h c payload n v e same w alone f =
      ap (from_zero (read_fields t mode)) (sym (append-nil (encoding mode h c payload n)))
      ∙ Reads-start (read_fields-Reads t mode h c payload n v e same w alone f)
