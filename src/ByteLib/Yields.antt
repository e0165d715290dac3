-- ===== src/ByteLib/Yields.antt =====
-- What readers return on arbitrary octets: the rules by which a property of the values of a reader
-- is put together from those of its parts.
use mathlib.Core.Path.{subst}
use rust_ieee.Base.{
  ℕ, ◌+◌, ◌^◌, ◌≤◌, ◌<◌, ◌≡◌, arith, List, inl, inr, length, take, drop, length-take, length-drop,
  le_or_lt, All, All-take, All-drop,
}
use rust_ieee.Base.Octets.{Endian, IsByte, value, value-lt}
use rust_ieee.Outcome.{Outcome, ok, err, panic, and_then, Reader, ◌>>=◌, pure, lift, from_zero}
use rust_ieee.ByteLib.{ByteLib, Width, size_of}
use rust_ieee.ByteLib.Bounds.{EndsWithin, Bounded}
use rust_ieee.ByteLib.Laws.{read_int, check_rest}

abbrev pub AreOctets : List ℕ → Type 0
AreOctets bytes = All IsByte bytes

-- A value that is returned has the property.
abbrev pub OnValue : {E A : Type 0} → (A → Type 0) → Outcome E A → Type 0
OnValue P (ok a) = P a
OnValue P (err e) = Unit
OnValue P panic = Unit

-- So has one that is returned with an offset, which is at most `high`.
abbrev pub OnOk : {E A : Type 0} → (A → Type 0) → ℕ → Outcome E (A × ℕ) → Type 0
OnOk P high (ok (a, n)) = P a × (n ≤ high)
OnOk P high (err e) = Unit
OnOk P high panic = Unit

pub record Yields {E A : Type 0} (r : Reader E A) (P : A → Type 0) : Type 0 where
  pub yields :
      (bytes : List ℕ) (offset : ℕ)
      → AreOctets bytes
      → offset ≤ length bytes
      → OnOk P (length bytes) (r bytes offset)

-- The same for a `try_read`.
pub record Gives {E A : Type 0} (t : List ℕ → Outcome E (A × ℕ)) (P : A → Type 0) : Type 0 where
  pub gives : (bytes : List ℕ) → AreOctets bytes → OnOk P (length bytes) (t bytes)

module _ {E A : Type 0} {P : A → Type 0} where
  pub Yields-pure : (a : A) → P a → Yields {E = E} (pure a) P
  Yields-pure a h = record { yields = λ bytes offset octets room. (h, room) }

  pub Yields-lift : (o : Outcome E A) → OnValue P o → Yields {E = E} (lift o) P
  Yields-lift (ok a) h = record { yields = λ bytes offset octets room. (h, room) }
  Yields-lift (err e) h = record { yields = λ bytes offset octets room. tt }
  Yields-lift panic h = record { yields = λ bytes offset octets room. tt }

  pub Gives-start : {r : Reader E A} → Yields r P → Gives (from_zero r) P
  Gives-start h = record { gives = λ bytes octets. h.yields bytes 0 octets (omega arith) }

pub OnOk-value :
    {E A : Type 0} (P : A → Type 0) (high : ℕ) (o : Outcome E (A × ℕ)) (a : A) (n : ℕ)
    → OnOk P high o
    → o ≡ ok (a, n)
    → P a
OnOk-value P high o a n h e = (subst (OnOk P high) e h).0

pub OnValue-any : {E A : Type 0} (o : Outcome E A) → OnValue (λ a. Unit {0}) o
OnValue-any (ok a) = tt
OnValue-any (err e) = tt
OnValue-any panic = tt

-- A reader that stays inside the slice, of whose values nothing is said.
pub Yields-any : {E A : Type 0} {r : Reader E A} → Bounded r → Yields r (λ a. Unit {0})
Yields-any {E} {A} {r} h = record {
  yields = λ bytes offset octets room.
      within (length bytes) offset (r bytes offset) (h.ends bytes offset room);
}
  where
    within :
        (high low : ℕ) (o : Outcome E (A × ℕ)) → EndsWithin low high o → OnOk (λ a. Unit {0}) high o
    within high low (ok p) h = (tt, h.1)
    within high low (err e) h = tt
    within high low panic h = tt

module _ {E A : Type 0} {P Q : A → Type 0} where
  pub Yields-weaken : {r : Reader E A} → ((a : A) → P a → Q a) → Yields r P → Yields r Q
  Yields-weaken {r} f h = record {
    yields = λ bytes offset octets room.
        weaker (length bytes) (r bytes offset) (h.yields bytes offset octets room);
  }
    where
      weaker : (high : ℕ) (o : Outcome E (A × ℕ)) → OnOk P high o → OnOk Q high o
      weaker high (ok (a, n)) (ha, within) = (f a ha, within)
      weaker high (err e) k = tt
      weaker high panic k = tt

module _ {E A B : Type 0} {P : A → Type 0} {Q : B → Type 0} where
  pub Yields-bind :
      (f : A → Reader E B) {r : Reader E A}
      → Yields r P
      → ((a : A) → P a → Yields (f a) Q)
      → Yields (r >>= f) Q
  Yields-bind f {r} h k = record {
    yields = λ bytes offset octets room.
        bound bytes octets (r bytes offset) (h.yields bytes offset octets room);
  }
    where
      bound :
          (bytes : List ℕ)
          → AreOctets bytes
          → (o : Outcome E (A × ℕ)) → OnOk P (length bytes) o
          → OnOk Q (length bytes) (and_then o (λ p. f p.0 bytes p.1))
      bound bytes octets (ok (a, n)) (ha, within) = (k a ha).yields bytes n octets within
      bound bytes octets (err e) h = tt
      bound bytes octets panic h = tt

module _ ⦃b : ByteLib⦄ where
  pub Yields-read :
      {A : Type 0} {t : List ℕ → Outcome b.Error (A × ℕ)} {P : A → Type 0}
      → Gives t P
      → Yields (b.read_with t) P
  Yields-read {A} {t} {P} h = record {
    yields = λ bytes offset octets room. rw (b.read_with_lem t bytes offset room) (
        shifted bytes offset room (t (drop offset bytes))
          (h.gives (drop offset bytes) (All-drop IsByte offset bytes octets)));
  }
    where
      shifted :
          (bytes : List ℕ) (offset : ℕ)
          → offset ≤ length bytes
          → (o : Outcome b.Error (A × ℕ)) → OnOk P (length (drop offset bytes)) o
          → OnOk P (length bytes) (and_then o (λ p. ok (p.0, offset + p.1)))
      shifted bytes offset room (ok (a, n)) (ha, within) =
          (ha, omega (arith, length-drop offset bytes))
      shifted bytes offset room (err e) h = tt
      shifted bytes offset room panic h = tt

  uint-Gives : (w : Width) (e : Endian) → Gives (b.read_uint w e) (λ v. v < 256 ^ size_of w)
  uint-Gives w e = record {
    gives = λ bytes octets. elim (le_or_lt (size_of w) (length bytes)) [
      | inl room ↦ rw (b.read_uint_ok w e bytes room) (fits bytes octets room, room)
      | inr lack ↦ rw (b.read_uint_short w e bytes lack) tt
    ];
  }
    where
      fits :
          (bytes : List ℕ)
          → AreOctets bytes
          → size_of w ≤ length bytes
          → value e (take (size_of w) bytes) < 256 ^ size_of w
      fits bytes octets room =
          let size : length (take (size_of w) bytes) ≡ size_of w =
            omega (arith, length-take (size_of w) bytes) in
          rw size at
            (value-lt e (take (size_of w) bytes) (All-take IsByte (size_of w) bytes octets))

  pub Yields-int : (w : Width) (e : Endian) → Yields (read_int w e) (λ v. v < 256 ^ size_of w)
  Yields-int w e = Yields-read (uint-Gives w e)

  pub Yields-check_rest : (n : ℕ) → Yields (check_rest n) (λ m. Unit)
  Yields-check_rest n = record {
    yields = λ bytes offset octets room. elim (le_or_lt n (length (drop offset bytes))) [
      | inl enough ↦ rw (b.check_len_ok (drop offset bytes) n enough) (tt, room)
      | inr lack ↦ rw (b.check_len_short (drop offset bytes) n lack) tt
    ];
  }
