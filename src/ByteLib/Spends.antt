-- ===== src/ByteLib/Spends.antt =====
-- What readers leave of a slice: the rules by which a relation between the octets behind the offset
-- before and after, and the value, is put together from those of the parts.
use mathlib.Core.Path.{subst}
use rust_ieee.Base.{ℕ, ◌+◌, ◌-◌, ◌≤◌, ◌≡◌, arith, List, length, drop, length-drop}
use rust_ieee.Outcome.{Outcome, ok, err, panic, and_then, Reader, ◌>>=◌, pure, lift, from_zero}
use rust_ieee.ByteLib.{ByteLib}
use rust_ieee.ByteLib.Bounds.{EndsWithin, Bounded}
use rust_ieee.ByteLib.Yields.{OnValue, OnOk, Yields}

-- From `left` octets behind the offset to those that are left of `high` behind the new one.
abbrev pub OnSpent : {E A : Type 0} → (ℕ → A → ℕ → Type 0) → ℕ → ℕ → Outcome E (A × ℕ) → Type 0
OnSpent R left high (ok (a, n)) = R left a (high - n) × (n ≤ high)
OnSpent R left high (err e) = Unit
OnSpent R left high panic = Unit

pub record Spends {E A : Type 0} (r : Reader E A) (R : ℕ → A → ℕ → Type 0) : Type 0 where
  pub spends :
      (bytes : List ℕ) (offset : ℕ)
      → offset ≤ length bytes
      → OnSpent R (length bytes - offset) (length bytes) (r bytes offset)

pub OnSpent-value :
    {E A : Type 0} (R : ℕ → A → ℕ → Type 0) (left high : ℕ) (o : Outcome E (A × ℕ)) (a : A) (n : ℕ)
    → OnSpent R left high o
    → o ≡ ok (a, n)
    → R left a (high - n)
OnSpent-value R left high o a n h e = (subst (OnSpent R left high) e h).0

module _ {E A : Type 0} {R : ℕ → A → ℕ → Type 0} where
  pub Spends-pure : (a : A) → ((k : ℕ) → R k a k) → Spends {E = E} (pure a) R
  Spends-pure a h = record { spends = λ bytes offset room. (h (length bytes - offset), room) }

  pub Spends-lift :
      (o : Outcome E A) → OnValue (λ a. (k : ℕ) → R k a k) o → Spends {E = E} (lift o) R
  Spends-lift (ok a) h = record { spends = λ bytes offset room. (h (length bytes - offset), room) }
  Spends-lift (err e) h = record { spends = λ bytes offset room. tt }
  Spends-lift panic h = record { spends = λ bytes offset room. tt }

-- A reader that stays within the slice does not leave more than there was.
pub Spends-any : {E A : Type 0} {r : Reader E A} → Bounded r → Spends r (λ k a k'. k' ≤ k)
Spends-any {E} {A} {r} h = record {
  spends =
      λ bytes offset room. left offset (length bytes) (r bytes offset) (h.ends bytes offset room);
}
  where
    left :
        (offset high : ℕ) (o : Outcome E (A × ℕ))
        → EndsWithin offset high o
        → OnSpent (λ k a k'. k' ≤ k) (high - offset) high o
    left offset high (ok (a, n)) ends = (omega arith, ends.1)
    left offset high (err e) ends = tt
    left offset high panic ends = tt

module _ {E A B : Type 0} {R : ℕ → A → ℕ → Type 0} {S : ℕ → B → ℕ → Type 0} where
  pub Spends-bind :
      (f : A → Reader E B) {r : Reader E A} (T : A → ℕ → B → ℕ → Type 0)
      → Spends r R
      → ((a : A) → Spends (f a) (T a))
      → ((a : A) (x : B) (k l m : ℕ) → R k a l → T a l x m → S k x m)
      → Spends (r >>= f) S
  Spends-bind f {r} T h each both = record {
    spends = λ bytes offset room.
        next bytes (length bytes - offset) (r bytes offset) (h.spends bytes offset room);
  }
    where
      after :
          (a : A) (k l high : ℕ) (o : Outcome E (B × ℕ))
          → R k a l
          → OnSpent (T a) l high o
          → OnSpent S k high o
      after a k l high (ok (x, n)) ra (tx, within) = (both a x k l (high - n) ra tx, within)
      after a k l high (err e) ra t = tt
      after a k l high panic ra t = tt

      next :
          (bytes : List ℕ) (k : ℕ) (o : Outcome E (A × ℕ))
          → OnSpent R k (length bytes) o
          → OnSpent S k (length bytes) (and_then o (λ p. f p.0 bytes p.1))
      next bytes k (ok (a, n)) (ra, within) =
          after a k (length bytes - n) (length bytes) (f a bytes n) ra
            ((each a).spends bytes n within)
      next bytes k (err e) h = tt
      next bytes k panic h = tt

-- What stands before may leave anything.
pub Spends-skip :
    {E A B : Type 0} (f : A → Reader E B) {r : Reader E A} (Q : B → ℕ → Type 0)
    → Bounded r
    → ((a : A) → Spends (f a) (λ k x m. Q x m))
    → Spends (r >>= f) (λ k x m. Q x m)
Spends-skip f Q h each = Spends-bind f (λ a k x m. Q x m) (Spends-any h) each (λ a x k l m le q. q)

module _ ⦃b : ByteLib⦄ where
  pub Spends-read :
      {A : Type 0} {t : List ℕ → Outcome b.Error (A × ℕ)} (R : ℕ → A → ℕ → Type 0)
      → ((bytes : List ℕ) → OnSpent R (length bytes) (length bytes) (t bytes))
      → Spends (b.read_with t) R
  Spends-read {A} {t} R h = record {
    spends = λ bytes offset room. rw (b.read_with_lem t bytes offset room) (
        shifted (length bytes) offset (length (drop offset bytes)) room (length-drop offset bytes)
          (t (drop offset bytes)) (h (drop offset bytes)));
  }
    where
      shifted :
          (high offset left : ℕ)
          → offset ≤ high
          → left ≡ high - offset
          → (o : Outcome b.Error (A × ℕ)) → OnSpent R left left o
          → OnSpent R (high - offset) high (and_then o (λ p. ok (p.0, offset + p.1)))
      shifted high offset left room e (ok (a, n)) (ra, within) = (
        subst (λ k. R k a (high - (offset + n))) e (subst (λ k. R left a k) (omega arith) ra),
        omega arith,
      )
      shifted high offset left room e (err x) h = tt
      shifted high offset left room e panic h = tt

pub Spends-start :
    {E A : Type 0} {r : Reader E A} {R : ℕ → A → ℕ → Type 0}
    → Spends r R
    → (bytes : List ℕ) → OnSpent R (length bytes) (length bytes) (from_zero r bytes)
Spends-start {r} {R} h bytes =
    subst (λ k. OnSpent R k (length bytes) (r bytes 0)) (omega arith)
      (h.spends bytes 0 (omega arith))

-- A reader that spends some octets returns within the slice.
pub Yields-Spends :
    {E A : Type 0} {r : Reader E A} {R : ℕ → A → ℕ → Type 0} → Spends r R → Yields r (λ a. Unit {0})
Yields-Spends {E} {A} {r} {R} h = record {
  yields = λ bytes offset octets room.
      forget (length bytes - offset) (length bytes) (r bytes offset) (h.spends bytes offset room);
}
  where
    forget :
        (left high : ℕ) (o : Outcome E (A × ℕ))
        → OnSpent R left high o
        → OnOk (λ a. Unit {0}) high o
    forget left high (ok (a, n)) (ra, within) = (tt, within)
    forget left high (err e) h = tt
    forget left high panic h = tt
