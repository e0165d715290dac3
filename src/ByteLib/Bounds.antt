-- ===== src/ByteLib/Bounds.antt =====
-- Readers on arbitrary input: they do not panic, and they stay inside the slice.
use rust_ieee.Base.{ℕ, ◌+◌, ◌≤◌, ◌≡◌, arith, List, inl, inr, length, drop, length-drop, le_or_lt}
use rust_ieee.Base.Octets.{Endian}
use rust_ieee.Outcome.{Outcome, ok, err, panic, and_then, Reader, ◌>>=◌, pure, lift, from_zero}
use rust_ieee.ByteLib.{ByteLib, Width, size_of}
use rust_ieee.ByteLib.Laws.{read_int, check_rest}

-- No panic, and a result whose offset lies between `low` and `high`.
abbrev pub EndsWithin : {E A : Type 0} → ℕ → ℕ → Outcome E (A × ℕ) → Type 0
EndsWithin low high (ok p) = (low ≤ p.1) × (p.1 ≤ high)
EndsWithin low high (err e) = Unit
EndsWithin low high panic = ⊥

-- No panic.
abbrev pub Returns {ℓ κ} : {E : Type ℓ} {A : Type κ} → Outcome E A → Type 0
Returns (ok a) = Unit
Returns (err e) = Unit
Returns panic = ⊥

pub record Bounded {E A : Type 0} (r : Reader E A) : Type 0 where
  pub ends :
      (bytes : List ℕ) (offset : ℕ)
      → offset ≤ length bytes
      → EndsWithin offset (length bytes) (r bytes offset)

-- A `try_read` on any slice.
pub record Total {E A : Type 0} (t : List ℕ → Outcome E (A × ℕ)) : Type 0 where
  pub ends : (bytes : List ℕ) → EndsWithin 0 (length bytes) (t bytes)

module _ {E A : Type 0} where
  pub Bounded-pure : (a : A) → Bounded {E = E} (pure a)
  Bounded-pure a = record { ends = λ bytes offset h. omega arith }

  pub Bounded-lift : (o : Outcome E A) → Returns o → Bounded {E = E} (lift o)
  Bounded-lift (ok a) h = record { ends = λ bytes offset h. omega arith }
  Bounded-lift (err e) h = record { ends = λ bytes offset h. tt }
  Bounded-lift panic h = absurd h

  pub Total-start : {r : Reader E A} → Bounded r → Total (from_zero r)
  Total-start h = record { ends = λ bytes. h.ends bytes 0 (omega arith) }

module _ {E A B : Type 0} where
  EndsWithin-and_then :
      (low high : ℕ) (o : Outcome E (A × ℕ)) (f : A × ℕ → Outcome E (B × ℕ))
      → EndsWithin low high o
      → ((p : A × ℕ) → low ≤ p.1 → p.1 ≤ high → EndsWithin p.1 high (f p))
      → EndsWithin low high (and_then o f)
  EndsWithin-and_then low high (ok p) f h k = widen (f p) (k p h.0 h.1)
    where
      widen : (q : Outcome E (B × ℕ)) → EndsWithin p.1 high q → EndsWithin low high q
      widen (ok r) g = omega arith
      widen (err e) g = tt
      widen panic g = g
  EndsWithin-and_then low high (err e) f h k = tt
  EndsWithin-and_then low high panic f h k = absurd h

  pub Bounded-bind :
      (f : A → Reader E B) {r : Reader E A}
      → Bounded r
      → ((a : A) → Bounded (f a))
      → Bounded (r >>= f)
  Bounded-bind f {r} h k = record {
    ends = λ bytes offset room.
        EndsWithin-and_then offset (length bytes) (r bytes offset) (λ p. f p.0 bytes p.1)
          (h.ends bytes offset room) (λ p lo hi. (k p.0).ends bytes p.1 hi);
  }

module _ ⦃b : ByteLib⦄ where
  shifted :
      {A : Type 0} (offset n : ℕ) (o : Outcome b.Error (A × ℕ))
      → EndsWithin 0 n o
      → EndsWithin offset (offset + n) (and_then o (λ p. ok (p.0, offset + p.1)))
  shifted offset n (ok p) h = omega arith
  shifted offset n (err e) h = tt
  shifted offset n panic h = h

  pub Bounded-read :
      {A : Type 0} {t : List ℕ → Outcome b.Error (A × ℕ)} → Total t → Bounded (b.read_with t)
  Bounded-read {t} h = record {
    ends = λ bytes offset room. rw (b.read_with_lem t bytes offset room) (
        rw (rest_ends bytes offset room) at (
          shifted offset (length (drop offset bytes)) (t (drop offset bytes))
            (h.ends (drop offset bytes))));
  }
    where
      rest_ends :
          (bytes : List ℕ) (offset : ℕ)
          → offset ≤ length bytes
          → offset + length (drop offset bytes) ≡ length bytes
      rest_ends bytes offset room = omega (arith, length-drop offset bytes)

  Total-uint : (w : Width) (e : Endian) → Total (b.read_uint w e)
  Total-uint w e = record {
    ends = λ bytes. elim (le_or_lt (size_of w) (length bytes)) [
      | inl room ↦ rw (b.read_uint_ok w e bytes room) (omega arith)
      | inr lack ↦ rw (b.read_uint_short w e bytes lack) tt
    ];
  }

  pub Bounded-int : (w : Width) (e : Endian) → Bounded (read_int w e)
  Bounded-int w e = Bounded-read (Total-uint w e)

  pub Bounded-check_rest : (n : ℕ) → Bounded (check_rest n)
  Bounded-check_rest n = record {
    ends = λ bytes offset room. elim (le_or_lt n (length (drop offset bytes))) [
      | inl enough ↦ rw (b.check_len_ok (drop offset bytes) n enough) (omega arith)
      | inr lack ↦ rw (b.check_len_short (drop offset bytes) n lack) tt
    ];
  }
