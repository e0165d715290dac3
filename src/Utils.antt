-- ===== src/Utils.antt =====
-- src/utils.rs: `OptionalFrom` and what `extended_enum!` derives for an enum of numbered variants.
use rust_ieee.Base.{ℕ, ◌<◌, ◌≡◌, ap, ◌∙◌, sym, Bool, true, Option, none, some, ◌==◌, ==_iff}
use rust_ieee.Outcome.{Outcome, ok, panic}
use mathlib.Core.Logic.{◌↔◌}

-- The two matches that the macro writes out for each enum, with what ties them together.
pub record ExtendedEnum (A : Type 0) : Type 0 where
  pub optional_from : ℕ → Option A
  pub into : A → ℕ
  pub optional_from-into : (a : A) → optional_from (into a) ≡ some a
  pub into-optional_from : (v : ℕ) (a : A) → optional_from v ≡ some a → into a ≡ v
  pub into-lt : (a : A) → into a < 256

module _ {A : Type 0} where
  abbrev pub or_panic : Option A → Outcome (Unit {0}) A
  or_panic none = panic
  or_panic (some a) = ok a

  -- `From<$ty>`, which panics on a number of no variant.
  unfoldable pub from : ExtendedEnum A → ℕ → Outcome (Unit {0}) A
  from e v = or_panic (e.optional_from v)

  -- `PartialEq<$name> for $ty`.
  unfoldable pub eq : ExtendedEnum A → ℕ → A → Bool
  eq e v a = v == e.into a

  or_panic-ok : (o : Option A) (a : A) → or_panic o ≡ ok a → o ≡ some a
  or_panic-ok none a h = cc
  or_panic-ok (some x) a h = cc

  -- A number equals a variant exactly when it converts to that variant.
  pub eq_iff-from : (e : ExtendedEnum A) (v : ℕ) (a : A) → (eq e v a ≡ true) ↔ (from e v ≡ ok a)
  unfolding eq from
  eq_iff-from e v a = (
    λ h. ap or_panic (ap e.optional_from ((==_iff v (e.into a)).0 h) ∙ e.optional_from-into a),
    λ h.
        (==_iff v (e.into a)).1
          (sym (e.into-optional_from v a (or_panic-ok (e.optional_from v) a h))),
  )
