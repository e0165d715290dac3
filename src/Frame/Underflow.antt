-- ===== src/Frame/Underflow.antt =====
-- The subtraction `bytes.len() - *offset - 2` in `try_read` of `Frame`, src/mac/frame/mod.rs.
use mathlib.Core.Path.{subst}
use native.Mathlib.Nat.{pow-le-pow_right}
use rust_ieee.Base.{
  ℕ, ◌+◌, ◌-◌, ◌^◌, ◌≤◌, ◌<◌, ◌≡◌, sym, ap, ◌∙◌, arith, Bool, true, false, List, [], ◌++◌, length,
  length-append, drop-append, Bool-cases, inl, inr,
}
use rust_ieee.Base.Octets.{Endian, octets}
use rust_ieee.Outcome.{Outcome, ok, err, panic, and_then, Reader, ◌>>=◌, pure}
use rust_ieee.ByteLib.{ByteLib}
use rust_ieee.ByteLib.Laws.{Reads, Reads-lift, Fails, Fails-bind, Fails-here, Fails-start, failure}
use rust_ieee.Header.{Header, IsHeader, has_security}
use rust_ieee.Header.Write as HeaderWrite
use rust_ieee.Frame.{Frame, FrameContent, FooterMode}
use rust_ieee.Frame.Content
use rust_ieee.Target.{Target, sub_usize, sub_fits, sub_lacks}
use rust_ieee.Frame.Read.{payload_size, read_bytes, read_footer, read_fields, try_read}
use rust_ieee.Frame.RoundTrip.{header-Reads, content-Reads, not_secured}

module _ ⦃b : ByteLib⦄ where
  -- What the build makes of the subtraction: a panic, or a length that no slice has.
  abbrev pub underflow : Bool → Outcome b.Error ⊥
  underflow true = panic
  underflow false = err b.incomplete

  -- The reader behind the content.
  abbrev read_payload : Target → Header → FrameContent → Reader b.Error Frame
  read_payload t h c = do
    n ← payload_size t 2
    payload ← read_bytes n
    footer ← read_footer FooterMode.explicit
    pure (record {
      header = h;
      content = c;
      payload = payload;
      footer = octets Endian.little 2 footer;
    })

  abbrev past : Target → ℕ → ℕ
  past t n = 2 ^ t.usize_bits + n - 2

  -- Up to the offset the slice is long enough.
  size_behind :
      (t : Target) (before tail : List ℕ)
      → payload_size t 2 (before ++ tail) (length before)
        ≡ and_then (sub_usize t (length tail) 2) (λ n. ok (n, length before))
  unfolding payload_size
  size_behind t before tail =
      rw
        (sub_fits t (length (before ++ tail)) (length before)
          (omega (arith, length-append before tail)))
        (ap (λ (k : ℕ). and_then (sub_usize t k 2) (λ n. ok (n, length before)))
          (omega (arith, length-append before tail)))

  wraps :
      (t : Target) (tail : List ℕ)
      → length tail < 2
      → t.overflow_checks ≡ false
      → Reads (payload_size t 2) [] tail (past t (length tail))
  wraps t tail short e = record {
    at = λ before.
        size_behind t before tail
        ∙ rw (sub_lacks t (length tail) 2 short, e)
            (ap (λ (k : ℕ). ok (past t (length tail), k)) (omega arith));
  }

  crashes :
      (t : Target) (tail : List ℕ)
      → length tail < 2
      → t.overflow_checks ≡ true
      → Fails (payload_size t 2) tail panic
  crashes t tail short e = record {
    at = λ before. size_behind t before tail ∙ rw (sub_lacks t (length tail) 2 short, e);
  }

  read_bytes-Fails :
      (n : ℕ) (tail : List ℕ) → length tail < n → Fails (read_bytes n) tail (err b.incomplete)
  read_bytes-Fails n tail lack = record {
    at = λ before.
        b.read_with_lem (b.read_slice n) (before ++ tail) (length before)
          (omega (arith, length-append before tail))
        ∙ rw (drop-append before tail, b.read_slice_short n tail lack);
  }

  past-lt : (t : Target) (n : ℕ) → n < 2 → 2 ≤ t.usize_bits → n < past t n
  past-lt t n short wide =
      omega (arith, pow-le-pow_right {n = 2} (omega arith) {i = 2} {j = t.usize_bits} wide)

  read_payload-Fails :
      (t : Target) (h : Header) (c : FrameContent) (tail : List ℕ)
      → length tail < 2
      → 2 ≤ t.usize_bits
      → Fails (read_payload t h c) tail (underflow t.overflow_checks)
  read_payload-Fails t h c tail short wide = elim (Bool-cases t.overflow_checks) [
    | inl e ↦
        subst (λ x. Fails (read_payload t h c) tail (underflow x)) (sym e)
          (Fails-here _ (crashes t tail short e))
    | inr e ↦
        subst (λ x. Fails (read_payload t h c) tail (underflow x)) (sym e)
          (Fails-bind _ {first = []} (wraps t tail short e) (
            Fails-here _
              (read_bytes-Fails (past t (length tail)) tail (past-lt t (length tail) short wide))))
  ]

  read_fields-Fails :
      (t : Target) (h : Header) (c : FrameContent) (tail : List ℕ)
      → IsHeader h
      → has_security h ≡ false
      → Content.frame_type_of c ≡ h.frame_type
      → Content.IsContent c
      → Content.MayPrecede c tail
      → length tail < 2
      → 2 ≤ t.usize_bits
      → Fails
          (read_fields t FooterMode.explicit)
          (HeaderWrite.encoding b.native 0 h ++ (Content.encoding c ++ tail))
          (underflow t.overflow_checks)
  unfolding read_fields
  read_fields-Fails t h c tail v e same w alone short wide = Fails-bind _ (header-Reads h _ v e) (
      Fails-bind _ (content-Reads h c tail same w alone) (
        Fails-bind _ {first = []} (Reads-lift _ (not_secured h e))
          (read_payload-Fails t h c tail short wide)))

  -- Where the header and the content of an unsecured frame are valid and fewer than two octets
  -- stand behind them, reading with an explicit footer panics in a build that checks integer
  -- overflow, and otherwise (with a `usize` of at least two bits) ends with `Incomplete`.
  pub explicit_footer_underflows :
      (t : Target) (h : Header) (c : FrameContent) (tail : List ℕ)
      → IsHeader h
      → has_security h ≡ false
      → Content.frame_type_of c ≡ h.frame_type
      → Content.IsContent c
      → Content.MayPrecede c tail
      → length tail < 2
      → 2 ≤ t.usize_bits
      → try_read t FooterMode.explicit
          (HeaderWrite.encoding b.native 0 h ++ (Content.encoding c ++ tail))
        ≡ failure (underflow t.overflow_checks)
  unfolding try_read
  explicit_footer_underflows t h c tail v e same w alone short wide =
      Fails-start (read_fields-Fails t h c tail v e same w alone short wide)
