-- ===== src/ByteLib/Laws/Writing.antt =====
-- What a writer puts into a slice, and how writers compose.
use rust_ieee.Base.{
  ℕ, ◌+◌, ◌≤◌, ◌<◌, ◌≡◌, ap, ◌∙◌, arith, List, [], ◌++◌, append_assoc, inl, inr, length, drop,
  length-append, length-drop, drop-drop, le_or_lt, leb, le→leb, lt→not_leb, if◌then◌else◌,
}
use rust_ieee.Outcome.{Outcome, ok, err, and_then, Writer, ◌⨾◌, skip, from_zero}

-- Where `encoding` fits behind the offset, `w` puts it there, changes nothing else and moves the
-- offset to its end; where it does not fit, `w` fails with `short`.
pub record Writes {E : Type 0} (w : Writer E) (short : E) (encoding : List ℕ) : Type 0 where
  pub fits :
      (before after : List ℕ)
      → length encoding ≤ length after
      → w (before ++ after) (length before)
        ≡ ok (before ++ (encoding ++ drop (length encoding) after), length before + length encoding)
  pub short_buffer :
      (before after : List ℕ)
      → length after < length encoding
      → w (before ++ after) (length before) ≡ err short

-- The same for a `try_write`, which begins at the head of its slice.
pub record Encodes {E : Type 0} (t : List ℕ → Outcome E (List ℕ × ℕ)) (short : E)
    (encoding : List ℕ) : Type 0 where
  pub fits :
      (buffer : List ℕ)
      → length encoding ≤ length buffer
      → t buffer ≡ ok (encoding ++ drop (length encoding) buffer, length encoding)
  pub short_buffer : (buffer : List ℕ) → length buffer < length encoding → t buffer ≡ err short

-- A buffer with the encoding at its head, where it has room for it.
abbrev pub put : {E : Type 0} → E → List ℕ → List ℕ → Outcome E (List ℕ × ℕ)
put short encoding buffer =
    if leb (length encoding) (length buffer)
    then ok (encoding ++ drop (length encoding) buffer, length encoding)
    else err short

pub Encodes-put :
    {E : Type 0} {t : List ℕ → Outcome E (List ℕ × ℕ)} {short : E} {encoding : List ℕ}
    → Encodes t short encoding
    → (buffer : List ℕ) → t buffer ≡ put short encoding buffer
Encodes-put {encoding} h buffer = elim (le_or_lt (length encoding) (length buffer)) [
  | inl room ↦ rw (le→leb (length encoding) (length buffer) room) (h.fits buffer room)
  | inr lack ↦ rw (lt→not_leb (length encoding) (length buffer) lack) (h.short_buffer buffer lack)
]

module _ {E : Type 0} where
  pub Writes-skip : {short : E} → Writes skip short []
  Writes-skip = record {
    fits = λ before after h. ap (λ (n : ℕ). ok (before ++ after, n)) (omega arith);
    short_buffer = λ before after h. absurd (omega arith);
  }

  pub Encodes-start :
      {w : Writer E} {short : E} {encoding : List ℕ}
      → Writes w short encoding
      → Encodes (from_zero w) short encoding
  Encodes-start {encoding} h = record {
    fits = λ buffer room.
        h.fits [] buffer room
        ∙ ap (λ (n : ℕ). ok (encoding ++ drop (length encoding) buffer, n)) (omega arith);
    short_buffer = λ buffer lack. h.short_buffer [] buffer lack;
  }

  pub Writes-then :
      {v w : Writer E} {short : E} {first second : List ℕ}
      → Writes v short first
      → Writes w short second
      → Writes (v ⨾ w) short (first ++ second)
  Writes-then {v} {w} {short} {first} {second} h k = record {
    fits = λ before after room. both before after (rw length-append at room);
    short_buffer = λ before after lack. fails before after (rw length-append at lack);
  }
    where
      behind : List ℕ → List ℕ → List ℕ
      behind before after = before ++ (first ++ drop (length first) after)

      enters :
          (before after : List ℕ)
          → length first ≤ length after
          → (v ⨾ w) (before ++ after) (length before)
            ≡ w ((before ++ first) ++ drop (length first) after) (length (before ++ first))
      enters before after room =
          rw (h.fits before after room, append_assoc before first, length-append before first)

      both :
          (before after : List ℕ)
          → length first + length second ≤ length after
          → (v ⨾ w) (before ++ after) (length before)
            ≡ ok (
              before ++ ((first ++ second) ++ drop (length (first ++ second)) after),
              length before + length (first ++ second),
            )
      both before after room =
          enters before after (omega arith)
          ∙ k.fits (before ++ first) (drop (length first) after)
              (omega (arith, length-drop (length first) after))
          ∙ rw
              (
                length-append first second,
                length-append before first,
                append_assoc before first,
                append_assoc first second,
                drop-drop (length second) (length first) after,
              )
              (ap
                (λ (n : ℕ).
                  ok
                    (before ++ (first ++ (second ++ drop (length first + length second) after)), n))
                (omega arith))

      fails :
          (before after : List ℕ)
          → length after < length first + length second
          → (v ⨾ w) (before ++ after) (length before) ≡ err short
      fails before after lack = elim (le_or_lt (length first) (length after)) [
        | inl room ↦
            enters before after room
            ∙ k.short_buffer (before ++ first) (drop (length first) after)
                (omega (arith, length-drop (length first) after))
        | inr none_at_all ↦ rw (h.short_buffer before after none_at_all)
      ]

-- With room for `needed` octets behind the offset, `w` ends with `result` and writes no more.
pub record Stops {E : Type 0} (w : Writer E) (result : Outcome E (List ℕ × ℕ)) (needed : ℕ)
    : Type 0 where
  pub ends :
      (before after : List ℕ) → needed ≤ length after → w (before ++ after) (length before) ≡ result

module _ {E : Type 0} where
  pub Stops-start :
      {w : Writer E} {result : Outcome E (List ℕ × ℕ)} {needed : ℕ} (buffer : List ℕ)
      → Stops w result needed
      → needed ≤ length buffer
      → from_zero w buffer ≡ result
  Stops-start buffer h room = h.ends [] buffer room

  pub Stops-then :
      {v w : Writer E} {short : E} {first : List ℕ} {result : Outcome E (List ℕ × ℕ)} {needed : ℕ}
      → Writes v short first
      → Stops w result needed
      → Stops (v ⨾ w) result (length first + needed)
  Stops-then {v} {w} {first} {result} h k = record {
    ends = λ before after room. rw (h.fits before after (omega arith)) (
        rw (append_assoc before first, length-append before first) at
          (k.ends (before ++ first) (drop (length first) after)
            (omega (arith, length-drop (length first) after))));
  }

  -- The first of two steps may end the body.
  pub Stops-here :
      {v : Writer E} (w : Writer E) {result : Outcome E (List ℕ × ℕ)} {needed : ℕ}
      → Stops v result needed
      → and_then result (λ p. w p.0 p.1) ≡ result
      → Stops (v ⨾ w) result needed
  Stops-here w h same = record { ends = λ before after room. rw (h.ends before after room) same }
