-- ===== src/Frame/Unsecure/Returning.antt =====
-- Where `Frame::try_read_and_unsecure` of src/mac/frame/mod.rs does not panic.
use rust_ieee.Base.{
  ℕ, ◌-◌, ◌≤◌, ◌≡◌, arith, false, Option, none, some, List, take, drop, length, length-append,
  length-take, length-drop, le→leb, Bool-cases, inl, inr,
}
use rust_ieee.Outcome.{Outcome, ok, err, panic, map_err, from_zero}
use rust_ieee.Target.{Target, sub_usize-ok}
use rust_ieee.ByteLib.{ByteLib}
use rust_ieee.ByteLib.Bounds.{
  EndsWithin, Returns, Bounded, Bounded-bind, Bounded-pure, Bounded-read, Total-start,
}
use rust_ieee.Security.Ccm.{Ccm}
use rust_ieee.Security.Context.{SecurityContext}
use rust_ieee.Security.Device.{DeviceDescriptorLookup}
use rust_ieee.Security.Error.{SecurityError, of_byte_error}
use rust_ieee.Security.Unsecure.{unsecure_frame}
use rust_ieee.Security.Unsecure.Returning.{tag_octets, unsecure_frame-Returns}
use rust_ieee.Header.{Header, has_security}
use rust_ieee.Header.Read as HeaderRead
use rust_ieee.Frame.{FrameContent, FooterMode}
use rust_ieee.Frame.Content
use rust_ieee.Frame.Read.{payload_size, read_bytes-Bounded}
use rust_ieee.Frame.Write.{new}
use rust_ieee.Frame.Unsecure.{
  read_head, read_payload, unsecured, unsecure_with, unsecure_behind, read_unsecured, read_behind,
  try_read_and_unsecure,
}

module _ ⦃b : ByteLib⦄ where
  pub read_head-Bounded : Bounded read_head
  unfolding read_head
  read_head-Bounded =
      Bounded-bind _ (Bounded-read HeaderRead.try_read-Total)
        (λ h. Bounded-bind _ (Content.read-Bounded h.frame_type) (λ c. Bounded-pure _))

  -- Behind the header and the content stand at least as many octets as the tag takes that the
  -- header announces, if they can be read.
  abbrev pub HasTagRoom : List ℕ → Outcome b.Error ((Header × FrameContent) × ℕ) → Type 0
  HasTagRoom buf (ok (head, offset)) =
      tag_octets head.0.auxiliary_security_header ≤ length buf - offset
  HasTagRoom buf (err e) = Unit
  HasTagRoom buf panic = Unit

  bounded-Returns :
      {A : Type 0} (low high : ℕ) (o : Outcome b.Error (A × ℕ))
      → EndsWithin low high o
      → Returns (map_err of_byte_error o)
  bounded-Returns low high (ok p) h = tt
  bounded-Returns low high (err e) h = tt
  bounded-Returns low high panic h = h

  module _ (t : Target) where
    size-Bounded : (n : ℕ) → t.overflow_checks ≡ false → Bounded (payload_size t n)
    unfolding payload_size
    size-Bounded n wraps = record {
      ends = λ bytes offset room.
          let (behind, e) = sub_usize-ok {E = b.Error} t (length bytes) offset (inl room) in
          let (size, e') = sub_usize-ok {E = b.Error} t behind n (inr wraps) in
          rw (e, e') (omega arith);
    }

    payload-Bounded :
        (h : Header) (c : FrameContent) (n : ℕ)
        → t.overflow_checks ≡ false
        → Bounded (read_payload t h c n)
    payload-Bounded h c n wraps =
        Bounded-bind _ (size-Bounded n wraps)
          (λ size. Bounded-bind _ (read_bytes-Bounded size) (λ p. Bounded-pure _))

    module _ (ccm : Ccm) (devices : DeviceDescriptorLookup) where
      -- The offset is still within the buffer, if there is one.
      abbrev IsKept : ℕ → devices.Store × Outcome SecurityError (List ℕ × ℕ) → Type 0
      IsKept offset (s, ok (buf, size)) = offset ≤ length buf
      IsKept offset (s, err e) = Unit
      IsKept offset (s, panic) = ⊥

      unsecured-IsKept :
          (buf : List ℕ) (offset : ℕ) (r : devices.Store × Outcome SecurityError (List ℕ × ℕ))
          → offset ≤ length buf
          → Returns r.1
          → IsKept offset (unsecured t ccm devices buf offset r)
      unsecured-IsKept buf offset (s, ok (behind, size)) within h =
          omega (arith, length-append (take offset buf) behind, length-take offset buf)
      unsecured-IsKept buf offset (s, err SecurityError.security_not_enabled) within h = within
      unsecured-IsKept buf offset (s, err _) within h = tt
      unsecured-IsKept buf offset (s, panic) within h = h

      with-IsKept :
          (h : Header) (context : Option SecurityContext) (buf : List ℕ) (offset : ℕ)
          (s : devices.Store)
          → t.overflow_checks ≡ false
          → offset ≤ length buf
          → tag_octets h.auxiliary_security_header ≤ length buf - offset
          → IsKept offset
              (unsecure_with t ccm devices h (new FooterMode.none context) context buf offset s)
      with-IsKept h none buf offset s wraps within room = tt
      with-IsKept h (some c) buf offset s wraps within room =
          rw (le→leb offset (length buf) within) (
            unsecured-IsKept buf offset
              (unsecure_frame t ccm devices h (drop offset buf) c FooterMode.none s) within
              (unsecure_frame-Returns t ccm devices h (drop offset buf) c s wraps
                (omega (arith, length-drop offset buf))))

      behind-IsKept :
          (h : Header) (context : Option SecurityContext) (buf : List ℕ) (offset : ℕ)
          (s : devices.Store)
          → t.overflow_checks ≡ false
          → offset ≤ length buf
          → tag_octets h.auxiliary_security_header ≤ length buf - offset
          → IsKept offset
              (unsecure_behind t ccm devices h (new FooterMode.none context) buf offset s)
      behind-IsKept h context buf offset s wraps within room = elim (Bool-cases (has_security h)) [
        | inl e ↦ rw e (with-IsKept h context buf offset s wraps within room)
        | inr e ↦ rw e within
      ]

      unsecured-Returns :
          (h : Header) (c : FrameContent) (offset : ℕ)
          (r : devices.Store × Outcome SecurityError (List ℕ × ℕ))
          → t.overflow_checks ≡ false
          → IsKept offset r
          → Returns (read_unsecured t ccm devices h c offset r).1
      unsecured-Returns h c offset (s, ok (buf, size)) wraps within =
          bounded-Returns offset (length buf) (read_payload t h c size buf offset)
            ((payload-Bounded h c size wraps).ends buf offset within)
      unsecured-Returns h c offset (s, err e) wraps kept = tt
      unsecured-Returns h c offset (s, panic) wraps kept = kept

      head-Returns :
          (context : Option SecurityContext) (buf : List ℕ) (s : devices.Store)
          (o : Outcome b.Error ((Header × FrameContent) × ℕ))
          → t.overflow_checks ≡ false
          → EndsWithin 0 (length buf) o
          → HasTagRoom buf o
          → Returns (read_behind t ccm devices (new FooterMode.none context) buf s o).1
      head-Returns context buf s (ok (head, offset)) wraps ends room =
          unsecured-Returns head.0 head.1 offset
            (unsecure_behind t ccm devices head.0 (new FooterMode.none context) buf offset s) wraps
            (behind-IsKept head.0 context buf offset s wraps ends.1 room)
      head-Returns context buf s (err e) wraps ends room = tt
      head-Returns context buf s panic wraps ends room = absurd ends

      -- In a build where integer overflow wraps, and without an explicit footer,
      -- `try_read_and_unsecure` ends with a frame or an error, never with a panic, on any octets
      -- that hold, behind a header and content that can be read, as many octets as the tag takes
      -- that the header announces.
      pub unsecuring_ends :
          (context : Option SecurityContext) (buf : List ℕ) (s : devices.Store)
          → t.overflow_checks ≡ false
          → HasTagRoom buf (from_zero read_head buf)
          → Returns (try_read_and_unsecure t ccm devices buf (new FooterMode.none context) s).1
      unfolding try_read_and_unsecure
      unsecuring_ends context buf s wraps room =
          head-Returns context buf s (from_zero read_head buf) wraps
            ((Total-start read_head-Bounded).ends buf) room
