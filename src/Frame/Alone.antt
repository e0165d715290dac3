-- ===== src/Frame/Alone.antt =====
-- What stands behind the content of a frame that `TryRead` of `Frame` returns, src/mac/frame/mod.rs.
use mathlib.Core.Path.{subst}
use rust_ieee.Base.{
  ℕ, ◌+◌, ◌-◌, ◌≤◌, ◌≡◌, refl, sym, arith, Option, none, some, List, [], ◌∷◌, ◌++◌, length,
  length-append, length-take, inl, inr, le_or_lt,
}
use rust_ieee.Base.Octets.{Endian, octets, length-octets}
use rust_ieee.Outcome.{Outcome, ok, err, panic, and_then, Reader, ◌>>=◌, pure, lift}
use rust_ieee.ByteLib.{ByteLib, Width}
use rust_ieee.ByteLib.Bounds.{Bounded-lift, Bounded-read}
use rust_ieee.ByteLib.Spends.{
  OnSpent, OnSpent-value, Spends, Spends-any, Spends-bind, Spends-pure, Spends-read, Spends-skip,
  Spends-start,
}
use rust_ieee.FrameControl.FrameType.{FrameType}
use rust_ieee.Header.{Header}
use rust_ieee.Header.Read as HeaderRead
use rust_ieee.Command.{Command}
use rust_ieee.Command.Realignment as Realignment
use rust_ieee.Command.Alone.{IsLast, EndsCommand, command-Spends}
use rust_ieee.Beacon.Codec as BeaconCodec
use rust_ieee.Target.{Target, sub_usize}
use rust_ieee.Frame.{Frame, FrameContent, FooterMode}
use rust_ieee.Frame.Content
use rust_ieee.Frame.Content.{MayPrecede}
use rust_ieee.Frame.Read.{
  footer_size, payload_size, read_bytes, read_footer, refuse_security, refuse_security-Returns,
  read_fields, try_read,
}

-- What stands behind the content.
abbrev pub behind : FooterMode → Frame → List ℕ
behind FooterMode.none f = f.payload
behind FooterMode.explicit f = f.payload ++ f.footer

abbrev EndsContent : FrameContent → ℕ → Type 0
EndsContent (FrameContent.command c) left = EndsCommand c left
EndsContent _ left = Unit

no_octets : (xs : List ℕ) → length xs ≤ 0 → xs ≡ []
no_octets [] h = refl
no_octets (x ∷ xs) h = absurd (omega arith)

page_alone :
    (page : Option ℕ) (left : ℕ) (xs : List ℕ)
    → IsLast page left
    → length xs ≤ left
    → Realignment.MayPrecede page xs
page_alone none left xs last le = no_octets xs (omega arith)
page_alone (some p) left xs last le = tt

content_alone :
    (c : FrameContent) (left : ℕ) (xs : List ℕ)
    → EndsContent c left
    → length xs ≤ left
    → MayPrecede c xs
content_alone (FrameContent.command (Command.coordinator_realignment d)) left xs ends le =
    page_alone d.channel_page left xs ends le
content_alone (FrameContent.command _) left xs ends le = tt
content_alone _ left xs ends le = tt

module _ ⦃b : ByteLib⦄ where
  content_fields-Spends :
      (t : FrameType) → Spends (Content.read_fields t) (λ k c m. EndsContent c m)
  content_fields-Spends FrameType.beacon =
      Spends-skip _ EndsContent (Bounded-read BeaconCodec.beacon-Total)
        (λ m. Spends-pure _ (λ k. tt))
  content_fields-Spends FrameType.data_frame = Spends-pure _ (λ k. tt)
  content_fields-Spends FrameType.acknowledgement = Spends-pure _ (λ k. tt)
  content_fields-Spends FrameType.mac_command =
      Spends-bind _ (λ c k x m. (x ≡ FrameContent.command c) × (m ≡ k)) command-Spends
        (λ c. Spends-pure _ (λ k. (refl, refl)))
        (λ c x k l m ends (same, stays). rw (same, stays) ends)

  content-Spends :
      (t : FrameType) → Spends (b.read_with (Content.try_read t)) (λ k c m. EndsContent c m)
  unfolding Content.try_read
  content-Spends t = Spends-read _ (Spends-start (content_fields-Spends t))

  -- The offset stays where it is.
  abbrev Stays : ℕ → ℕ → Outcome b.Error (ℕ × ℕ) → Type 0
  Stays left high o = OnSpent (λ k n m. m ≡ k) left high o

  last-Stays :
      (high offset : ℕ)
      → offset ≤ high
      → (o : Outcome b.Error ℕ) → Stays (high - offset) high (and_then o (λ m. ok (m, offset)))
  last-Stays high offset room (ok m) = (refl, room)
  last-Stays high offset room (err e) = tt
  last-Stays high offset room panic = tt

  size-Stays :
      (t : Target) (n high offset : ℕ)
      → offset ≤ high
      → (o : Outcome b.Error ℕ)
      → Stays
          (high - offset)
          high
          (and_then o (λ rest. and_then (sub_usize t rest n) (λ m. ok (m, offset))))
  size-Stays t n high offset room (ok rest) = last-Stays high offset room (sub_usize t rest n)
  size-Stays t n high offset room (err e) = tt
  size-Stays t n high offset room panic = tt

  pub payload_size-Spends : (t : Target) (n : ℕ) → Spends (payload_size t n) (λ k x m. m ≡ k)
  unfolding payload_size
  payload_size-Spends t n = record {
    spends = λ bytes offset room.
        size-Stays t n (length bytes) offset room (sub_usize t (length bytes) offset);
  }

  read_bytes-Spends : (n : ℕ) → Spends (read_bytes n) (λ k p m. length p + m ≤ k)
  read_bytes-Spends n = Spends-read _ (λ bytes. elim (le_or_lt n (length bytes)) [
    | inl room ↦ rw (b.read_slice_ok n bytes room) (omega (arith, length-take n bytes), room)
    | inr lack ↦ rw (b.read_slice_short n bytes lack) tt
  ])

  read_footer-Spends :
      (mode : FooterMode) → Spends (read_footer mode) (λ k x m. footer_size mode + m ≤ k)
  read_footer-Spends FooterMode.none = Spends-pure 0 (λ k. omega arith)
  read_footer-Spends FooterMode.explicit = Spends-read _ (λ bytes.
      elim (le_or_lt 2 (length bytes)) [
        | inl room ↦ rw (b.read_uint_ok Width.u16 Endian.little bytes room) (omega arith, room)
        | inr lack ↦ rw (b.read_uint_short Width.u16 Endian.little bytes lack) tt
      ])

  module _ (t : Target) (mode : FooterMode) (h : Header) (c : FrameContent) where
    abbrev made : List ℕ → ℕ → Frame
    made payload n = record {
      header = h;
      content = c;
      payload = payload;
      footer = octets Endian.little 2 n;
    }

    length-made :
        (mode : FooterMode) (payload : List ℕ) (n : ℕ)
        → length (behind mode (made payload n)) ≡ length payload + footer_size mode
    length-made FooterMode.none payload n = omega arith
    length-made FooterMode.explicit payload n =
        omega
          (arith, length-append payload (octets Endian.little 2 n), length-octets Endian.little 2 n)

    -- The frame has the content, and so many octets behind it.
    abbrev Holds : (ℕ → ℕ) → ℕ → Frame → ℕ → Type 0
    Holds bound k x m = (x.content ≡ c) × (length (behind mode x) ≤ bound k)

    abbrev read_tail : Reader b.Error Frame
    read_tail = lift (refuse_security h) >>= λ checked. payload_size t (footer_size mode) >>= λ n.
        read_bytes n >>= λ payload. read_footer mode >>= λ footer. pure (made payload footer)

    read_tail-Spends : Spends read_tail (Holds (λ k. k))
    read_tail-Spends =
        Spends-bind _ (λ checked. Holds (λ k. k))
          (Spends-any (Bounded-lift _ (refuse_security-Returns h)))
          (λ checked.
            Spends-bind _ (λ n. Holds (λ k. k)) (payload_size-Spends t (footer_size mode))
              (λ n.
                Spends-bind _ (λ p. Holds (λ k. length p + k)) (read_bytes-Spends n)
                  (λ p.
                    Spends-bind _ (λ f. Holds (λ k. length p + footer_size mode))
                      (read_footer-Spends mode)
                      (λ f. Spends-pure _ (λ k. (refl, omega (arith, length-made mode p f))))
                      (λ f x k l m le (same, holds). (same, omega arith)))
                  (λ p x k l m le (same, holds). (same, omega arith)))
              (λ n x k l m e (same, holds). (same, omega arith)))
          (λ checked x k l m le (same, holds). (same, omega arith))

  -- Behind a coordinator realignment without a channel page the frame has neither payload nor
  -- footer.
  abbrev pub IsAlone : FooterMode → Frame → Type 0
  IsAlone mode f = MayPrecede f.content (behind mode f)

  frame-Spends :
      (t : Target) (mode : FooterMode) → Spends (read_fields t mode) (λ k f m. IsAlone mode f)
  unfolding read_fields
  frame-Spends t mode =
      Spends-skip _ (λ f m. IsAlone mode f) (Bounded-read HeaderRead.try_read-Total)
        (λ h.
          Spends-bind _ (λ c. Holds t mode h c (λ k. k)) (content-Spends h.frame_type)
            (λ c. read_tail-Spends t mode h c)
            (λ c f k l m ends (same, holds).
              subst (λ x. MayPrecede x (behind mode f)) (sym same)
                (content_alone c l (behind mode f) ends holds)))

  pub read-IsAlone :
      (t : Target) (mode : FooterMode) (bytes : List ℕ) (f : Frame) (n : ℕ)
      → try_read t mode bytes ≡ ok (f, n)
      → IsAlone mode f
  unfolding try_read
  read-IsAlone t mode bytes f n e =
      OnSpent-value (λ k f m. IsAlone mode f) (length bytes) (length bytes) _ f n
        (Spends-start (frame-Spends t mode) bytes) e
