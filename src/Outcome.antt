-- ===== src/Outcome.antt =====
-- How a Rust call ends: `Ok`, `Err` or a panic. `Reader` and `Writer` thread the `offset` that
-- the `TryRead` and `TryWrite` bodies keep in `let offset = &mut 0`.
use rust_ieee.Base.{ℕ, Option, none, some, List}

pub data Outcome {ℓ κ} (E : Type ℓ) (A : Type κ) : Type (ℓ ⊔ κ) where
  ok : A → Outcome E A
  err : E → Outcome E A
  panic : Outcome E A

-- The `?` operator.
abbrev pub and_then {ℓ κ μ} :
    {E : Type ℓ} {A : Type κ} {B : Type μ} → Outcome E A → (A → Outcome E B) → Outcome E B
and_then (ok a) f = f a
and_then (err e) f = err e
and_then panic f = panic

-- `Option::ok_or`.
abbrev pub ok_or {ℓ κ} : {E : Type ℓ} {A : Type κ} → Option A → E → Outcome E A
ok_or none e = err e
ok_or (some a) e = ok a

-- A value read from a slice, with the offset behind it.
abbrev pub Reader : Type 0 → Type 0 → Type 0
Reader E A = List ℕ → ℕ → Outcome E (A × ℕ)

-- The slice as it stands after the write, with the offset behind what was written.
abbrev pub Writer : Type 0 → Type 0
Writer E = List ℕ → ℕ → Outcome E (List ℕ × ℕ)

infixl 5 ◌>>=◌
infixr 6 ◌⨾◌
abbrev pub ◌>>=◌ : {E A B : Type 0} → Reader E A → (A → Reader E B) → Reader E B
◌>>=◌ r f bytes offset = and_then (r bytes offset) (λ p. f p.0 bytes p.1)

abbrev pub pure : {E A : Type 0} → A → Reader E A
pure a bytes offset = ok (a, offset)

-- A step that looks at neither the slice nor the offset.
abbrev pub lift : {E A : Type 0} → Outcome E A → Reader E A
lift o bytes offset = and_then o (λ a. ok (a, offset))

-- One write after the other.
abbrev pub ◌⨾◌ : {E : Type 0} → Writer E → Writer E → Writer E
◌⨾◌ v w bytes offset = and_then (v bytes offset) (λ p. w p.0 p.1)

abbrev pub skip : {E : Type 0} → Writer E
skip bytes offset = ok (bytes, offset)

-- `let offset = &mut 0` at the head of a body.
abbrev pub from_zero : {E A : Type 0} → (List ℕ → ℕ → Outcome E A) → List ℕ → Outcome E A
from_zero body bytes = body bytes 0

-- `Result::map_err`, which `?` applies with the `From` of the two error types.
abbrev pub map_err {ℓ κ μ} :
    {E : Type ℓ} {F : Type κ} {A : Type μ} → (E → F) → Outcome E A → Outcome F A
map_err f (ok a) = ok a
map_err f (err e) = err (f e)
map_err f panic = panic
