-- ===== src/Target.antt =====
-- Integer arithmetic as a build of the crate does it.
use rust_ieee.Base.{
  ℕ, suc, ◌+◌, ◌-◌, ◌%◌, ◌^◌, ◌≤◌, ◌<◌, ◌≡◌, Bool, false, leb, ltb, if◌then◌else◌, inl, inr, le→leb,
  lt→ltb, lt→not_leb, Bool-cases, ◌⊎◌,
}
use rust_ieee.Outcome.{Outcome, ok, panic}

-- How the crate is built: whether arithmetic on integers is checked, and the width of `usize`.
pub record Target : Type 0 where
  pub overflow_checks : Bool
  pub usize_bits : ℕ

-- `a - b` on `usize`, for `a` and `b` of that type.
unfoldable pub sub_usize : {E : Type 0} → Target → ℕ → ℕ → Outcome E ℕ
sub_usize t a c =
    if leb c a
    then ok (a - c)
    else if t.overflow_checks
    then panic
    else ok (2 ^ t.usize_bits + a - c)

pub sub_usize-ok :
    {E : Type 0} (t : Target) (a c : ℕ)
    → (c ≤ a) ⊎ (t.overflow_checks ≡ false)
    → (n : ℕ) × (sub_usize {E = E} t a c ≡ ok n)
unfolding sub_usize
sub_usize-ok t a c (inl h) = (a - c, rw (le→leb c a h))
sub_usize-ok t a c (inr wraps) = elim (Bool-cases (leb c a)) [
  | inl e ↦ (a - c, rw e)
  | inr e ↦ (2 ^ t.usize_bits + a - c, rw (e, wraps))
]

pub sub_fits : {E : Type 0} (t : Target) (a c : ℕ) → c ≤ a → sub_usize {E = E} t a c ≡ ok (a - c)
unfolding sub_usize
sub_fits t a c h = rw (le→leb c a h)

pub sub_lacks :
    {E : Type 0} (t : Target) (a c : ℕ)
    → a < c
    → sub_usize {E = E} t a c ≡ (if t.overflow_checks then panic else ok (2 ^ t.usize_bits + a - c))
unfolding sub_usize
sub_lacks t a c h = rw (lt→not_leb c a h)

-- `a + 1` on `u32`, for `a` of that type.
unfoldable pub next_u32 : {E : Type 0} → Target → ℕ → Outcome E ℕ
next_u32 t a =
    if ltb (suc a) (2 ^ 32)
    then ok (suc a)
    else if t.overflow_checks
    then panic
    else ok (suc a % 2 ^ 32)

pub next_fits :
    {E : Type 0} (t : Target) (a : ℕ) → suc a < 2 ^ 32 → next_u32 {E = E} t a ≡ ok (suc a)
unfolding next_u32
next_fits t a h = rw (lt→ltb (suc a) (2 ^ 32) h)
