-- ===== src/Frame/Read.antt =====
-- `TryRead` of `Frame`, for frames without security, src/mac/frame/mod.rs.
use rust_ieee.Base.{
  ℕ, zero, ◌≤◌, ◌≡◌, arith, true, false, List, length, if◌then◌else◌, inl, inr, le_or_lt, ◌⊎◌,
}
use rust_ieee.Base.Octets.{Endian, octets}
use rust_ieee.Outcome.{Outcome, ok, err, and_then, Reader, ◌>>=◌, pure, lift, from_zero}
use rust_ieee.ByteLib.{ByteLib, Width}
use rust_ieee.ByteLib.Laws.{read_int}
use rust_ieee.ByteLib.Bounds.{
  EndsWithin, Bounded, Bounded-bind, Bounded-int, Bounded-lift, Bounded-pure, Bounded-read, Returns,
  Total, Total-start,
}
use rust_ieee.Errors.{DecodeError, decode_error}
use rust_ieee.Header.{Header, has_security}
use rust_ieee.Header.Read as HeaderRead
use rust_ieee.Frame.{Frame, FooterMode}
use rust_ieee.Frame.Content
use rust_ieee.Target.{Target, sub_usize, sub_usize-ok}

-- The octets that the footer takes.
abbrev pub footer_size : FooterMode → ℕ
footer_size FooterMode.none = 0
footer_size FooterMode.explicit = 2

module _ ⦃b : ByteLib⦄ where
  -- `bytes.len() - *offset - footer`.
  unfoldable pub payload_size : Target → ℕ → Reader b.Error ℕ
  payload_size t footer bytes offset =
      and_then (sub_usize t (length bytes) offset)
        (λ behind. and_then (sub_usize t behind footer) (λ n. ok (n, offset)))

  -- `bytes.read_with(offset, Bytes::Len(n))`.
  abbrev pub read_bytes : ℕ → Reader b.Error (List ℕ)
  read_bytes n = b.read_with (b.read_slice n)

  -- With no footer its value is 0; `to_le_bytes` makes octets of it.
  abbrev pub read_footer : FooterMode → Reader b.Error ℕ
  read_footer FooterMode.none = pure 0
  read_footer FooterMode.explicit = read_int Width.u16 Endian.little

  abbrev pub refuse_security : Header → Outcome b.Error Header
  refuse_security h =
      if has_security h then err (decode_error DecodeError.security_enabled) else ok h

  unfoldable pub read_fields : Target → FooterMode → Reader b.Error Frame
  read_fields t mode = do
    header ← b.read_with HeaderRead.try_read
    content ← b.read_with (Content.try_read header.frame_type)
    checked ← lift (refuse_security header)
    n ← payload_size t (footer_size mode)
    payload ← read_bytes n
    footer ← read_footer mode
    pure (record {
      header = header;
      content = content;
      payload = payload;
      footer = octets Endian.little 2 footer;
    })

  unfoldable pub try_read : Target → FooterMode → List ℕ → Outcome b.Error (Frame × ℕ)
  unfolding read_fields
  try_read t mode = from_zero (read_fields t mode)

  pub refuse_security-Returns : (h : Header) → Returns (refuse_security h)
  refuse_security-Returns h =
      elim (has_security h)
        as (λ x. Returns (if x then err (decode_error DecodeError.security_enabled) else ok h)) [
          | true ↦ tt
          | false ↦ tt
        ]

  read_footer-Bounded : (mode : FooterMode) → Bounded (read_footer mode)
  read_footer-Bounded FooterMode.none = Bounded-pure zero
  read_footer-Bounded FooterMode.explicit = Bounded-int Width.u16 Endian.little

  pub read_bytes-Bounded : (n : ℕ) → Bounded (read_bytes n)
  read_bytes-Bounded n = Bounded-read (record {
    ends = λ bytes. elim (le_or_lt n (length bytes)) [
      | inl room ↦ rw (b.read_slice_ok n bytes room) (omega arith)
      | inr lack ↦ rw (b.read_slice_short n bytes lack) tt
    ];
  })

  -- The subtraction is safe without a footer, or where overflow wraps.
  abbrev pub IsSafe : Target → FooterMode → Type 0
  IsSafe t FooterMode.none = Unit
  IsSafe t FooterMode.explicit = t.overflow_checks ≡ false

  is_safe :
      (t : Target) (mode : FooterMode) (behind : ℕ)
      → IsSafe t mode
      → (footer_size mode ≤ behind) ⊎ (t.overflow_checks ≡ false)
  is_safe t FooterMode.none behind safe = inl (omega arith)
  is_safe t FooterMode.explicit behind safe = inr safe

  payload_size-Bounded :
      (t : Target) (mode : FooterMode) → IsSafe t mode → Bounded (payload_size t (footer_size mode))
  unfolding payload_size
  payload_size-Bounded t mode safe = record {
    ends = λ bytes offset room.
        let (behind, e) = sub_usize-ok {E = b.Error} t (length bytes) offset (inl room) in
        let (n, e') =
          sub_usize-ok {E = b.Error} t behind (footer_size mode) (is_safe t mode behind safe) in
        rw (e, e') (omega arith);
  }

  pub frame-Total : (t : Target) (mode : FooterMode) → IsSafe t mode → Total (try_read t mode)
  unfolding try_read read_fields
  frame-Total t mode safe = Total-start (
      Bounded-bind _ (Bounded-read HeaderRead.try_read-Total) (λ h.
        Bounded-bind _ (Content.read-Bounded h.frame_type) (λ c.
          Bounded-bind _ (Bounded-lift _ (refuse_security-Returns h)) (λ checked.
            Bounded-bind _ (payload_size-Bounded t mode safe) (λ n.
              Bounded-bind _ (read_bytes-Bounded n)
                (λ p. Bounded-bind _ (read_footer-Bounded mode) (λ f. Bounded-pure _)))))))

  -- Reading a frame without a footer, and in builds where integer overflow wraps also with one,
  -- ends on any slice with a frame or an error, never with a panic; the octets that it says it took
  -- are at most those of the slice.
  pub frame_ends :
      (t : Target) (mode : FooterMode) (bytes : List ℕ)
      → IsSafe t mode
      → EndsWithin 0 (length bytes) (try_read t mode bytes)
  frame_ends t mode bytes safe = (frame-Total t mode safe).ends bytes
