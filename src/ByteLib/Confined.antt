-- ===== src/ByteLib/Confined.antt =====
-- Writers that end without a panic on every buffer, with the offset still within it.
use mathlib.Core.Path.{subst}
use rust_ieee.Base.{
  ℕ, ◌+◌, ◌≤◌, arith, List, ◌++◌, length, length-append, length-take, take, drop, take-append-drop,
  inl, inr, le_or_lt,
}
use rust_ieee.Outcome.{Outcome, ok, err, panic, and_then, Writer, ◌⨾◌, skip}
use rust_ieee.ByteLib.{ByteLib}
use rust_ieee.ByteLib.Laws.{Writes}
use rust_ieee.ByteLib.Bounds.{Returns}

-- No panic, and the offset is at most the length of the buffer.
abbrev pub Within : {E : Type 0} → Outcome E (List ℕ × ℕ) → Type 0
Within (ok (bytes, offset)) = offset ≤ length bytes
Within (err e) = Unit
Within panic = ⊥

pub Within-Returns : {E : Type 0} (o : Outcome E (List ℕ × ℕ)) → Within o → Returns o
Within-Returns (ok p) h = tt
Within-Returns (err e) h = tt
Within-Returns panic h = h

pub record Confined {E : Type 0} (w : Writer E) : Type 0 where
  pub ends : (bytes : List ℕ) (offset : ℕ) → offset ≤ length bytes → Within (w bytes offset)

module _ {E : Type 0} where
  pub Confined-skip : Confined {E = E} skip
  Confined-skip = record { ends = λ bytes offset room. room }

  pub Confined-then : {v w : Writer E} → Confined v → Confined w → Confined (v ⨾ w)
  Confined-then {v} {w} h k = record {
    ends = λ bytes offset room. next (v bytes offset) (h.ends bytes offset room);
  }
    where
      next : (o : Outcome E (List ℕ × ℕ)) → Within o → Within (and_then o (λ p. w p.0 p.1))
      next (ok (bytes, offset)) within = k.ends bytes offset within
      next (err e) within = tt
      next panic within = within

  -- A writer that puts an encoding is confined.
  pub Confined-Writes :
      {w : Writer E} {short : E} {encoding : List ℕ} → Writes w short encoding → Confined w
  Confined-Writes {w} {short} {encoding} h = record {
    ends = λ bytes offset room.
        subst (λ xs. Within (w xs offset)) (take-append-drop offset bytes)
          (subst (λ n. Within (w (take offset bytes ++ drop offset bytes) n))
            (omega (arith, length-take offset bytes))
            (split (take offset bytes) (drop offset bytes)));
  }
    where
      split : (before after : List ℕ) → Within (w (before ++ after) (length before))
      split before after = elim (le_or_lt (length encoding) (length after)) [
        | inl room ↦ rw (h.fits before after room) (
            omega (
              arith,
              length-append before (encoding ++ drop (length encoding) after),
              length-append encoding (drop (length encoding) after),
            ))
        | inr lack ↦ rw (h.short_buffer before after lack) tt
      ]

module _ ⦃b : ByteLib⦄ where
  pub Confined-write :
      {t : List ℕ → Outcome b.Error (List ℕ × ℕ)}
      → ((bytes : List ℕ) → Within (t bytes))
      → Confined (b.write_with t)
  Confined-write {t} h = record {
    ends = λ bytes offset room.
        rw (b.write_with_lem t bytes offset room)
          (shifted bytes offset room (t (drop offset bytes)) (h (drop offset bytes)));
  }
    where
      shifted :
          (bytes : List ℕ) (offset : ℕ)
          → offset ≤ length bytes
          → (o : Outcome b.Error (List ℕ × ℕ)) → Within o
          → Within (and_then o (λ p. ok (take offset bytes ++ p.0, offset + p.1)))
      shifted bytes offset room (ok (out, n)) within =
          omega (arith, length-append (take offset bytes) out, length-take offset bytes)
      shifted bytes offset room (err e) within = tt
      shifted bytes offset room panic within = within
