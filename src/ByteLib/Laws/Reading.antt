-- ===== src/ByteLib/Laws/Reading.antt =====
-- What a reader takes from a slice, and how readers compose.
use rust_ieee.Base.{
  ℕ, ◌+◌, ◌≡◌, refl, ap, ◌∙◌, arith, List, [], ◌++◌, append_assoc, length, length-append,
}
use rust_ieee.Outcome.{Outcome, ok, err, panic, and_then, Reader, ◌>>=◌, pure, lift, from_zero}

-- Where `encoding` stands at the offset and `rest` behind it, `r` returns `a` and moves the offset
-- to the end of `encoding`.
pub record Reads {E A : Type 0} (r : Reader E A) (encoding rest : List ℕ) (a : A) : Type 0 where
  pub at :
      (before : List ℕ)
      → r (before ++ (encoding ++ rest)) (length before) ≡ ok (a, length before + length encoding)

module _ {E A : Type 0} where
  pub Reads-pure : (a : A) (rest : List ℕ) → Reads {E = E} (pure a) [] rest a
  Reads-pure a rest = record { at = λ before. ap (λ (n : ℕ). ok (a, n)) (omega arith) }

  pub Reads-lift :
      {o : Outcome E A} {a : A} (rest : List ℕ) → o ≡ ok a → Reads {E = E} (lift o) [] rest a
  Reads-lift {a} rest e = record { at = λ before. rw e (ap (λ (n : ℕ). ok (a, n)) (omega arith)) }

  pub Reads-start :
      {r : Reader E A} {encoding rest : List ℕ} {a : A}
      → Reads r encoding rest a
      → from_zero r (encoding ++ rest) ≡ ok (a, length encoding)
  Reads-start {a} h = h.at [] ∙ ap (λ (n : ℕ). ok (a, n)) (omega arith)

module _ {E A B : Type 0} where
  pub Reads-bind :
      (f : A → Reader E B) {r : Reader E A} {first second rest : List ℕ} {a : A} {b : B}
      → Reads r first (second ++ rest) a
      → Reads (f a) second rest b
      → Reads (r >>= f) (first ++ second) rest b
  Reads-bind f {r} {first} {second} {rest} {a} {b} h k = record {
    at = λ before. rw (append_assoc first second rest) (
        ap (λ o. and_then o (λ p. f p.0 (before ++ (first ++ (second ++ rest))) p.1)) (h.at before)
        ∙ moved before);
  }
    where
      moved :
          (before : List ℕ)
          → f a (before ++ (first ++ (second ++ rest))) (length before + length first)
            ≡ ok (b, length before + length (first ++ second))
      moved before =
          rw (← append_assoc before first (second ++ rest), ← length-append before first)
            (k.at (before ++ first)
              ∙ ap (λ (n : ℕ). ok (b, n))
                  (omega (arith, length-append before first, length-append first second)))

  -- The last read of a body, whose result is built into a value.
  pub Reads-map :
      (make : A → B) {r : Reader E A} {encoding rest : List ℕ} {a : A}
      → Reads r encoding rest a
      → Reads (r >>= λ x. pure (make x)) encoding rest (make a)
  Reads-map make h = record {
    at = λ before. ap (λ o. and_then o (λ p. ok (make p.0, p.1))) (h.at before);
  }

  -- A read whose value is then decoded.
  pub Reads-decode :
      (decode : A → Outcome E B) {r : Reader E A} {encoding rest : List ℕ} {a : A} {b : B}
      → Reads r encoding rest a
      → decode a ≡ ok b
      → Reads (r >>= λ x. lift (decode x)) encoding rest b
  Reads-decode decode {encoding} {b} h e = record {
    at = λ before.
        ap (λ o. and_then o (λ p. and_then (decode p.0) (λ x. ok (x, p.1)))) (h.at before)
        ∙ ap (λ o. and_then o (λ x. ok (x, length before + length encoding))) e;
  }

-- An outcome without a value, as an outcome of any type.
abbrev pub failure : {E A : Type 0} → Outcome E ⊥ → Outcome E A
failure (ok v) = absurd v
failure (err e) = err e
failure panic = panic

-- Where `behind` stands at the offset, `r` ends without a value.
pub record Fails {E A : Type 0} (r : Reader E A) (behind : List ℕ) (o : Outcome E ⊥) : Type 0 where
  pub at : (before : List ℕ) → r (before ++ behind) (length before) ≡ failure o

module _ {E A B : Type 0} where
  failure-and_then : (o : Outcome E ⊥) (f : A → Outcome E B) → and_then (failure o) f ≡ failure o
  failure-and_then (ok v) f = absurd v
  failure-and_then (err e) f = refl
  failure-and_then panic f = refl

module _ {E A B : Type 0} where
  pub Fails-here :
      (f : A → Reader E B) {r : Reader E A} {behind : List ℕ} {o : Outcome E ⊥}
      → Fails r behind o
      → Fails (r >>= f) behind o
  Fails-here f {behind} {o} h = record {
    at = λ before.
        ap (λ x. and_then x (λ p. f p.0 (before ++ behind) p.1)) (h.at before)
        ∙ failure-and_then o (λ p. f p.0 (before ++ behind) p.1);
  }

  pub Fails-bind :
      (f : A → Reader E B) {r : Reader E A} {first second : List ℕ} {a : A} {o : Outcome E ⊥}
      → Reads r first second a
      → Fails (f a) second o
      → Fails (r >>= f) (first ++ second) o
  Fails-bind f {r} {first} {second} {a} {o} h k = record {
    at = λ before.
        ap (λ x. and_then x (λ p. f p.0 (before ++ (first ++ second)) p.1)) (h.at before)
        ∙ rw (← append_assoc before first second, ← length-append before first)
            (k.at (before ++ first));
  }

module _ {E A : Type 0} where
  pub Fails-start :
      {r : Reader E A} {behind : List ℕ} {o : Outcome E ⊥}
      → Fails r behind o
      → from_zero r behind ≡ failure o
  Fails-start h = h.at []
