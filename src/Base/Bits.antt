-- ===== src/Base/Bits.antt =====
-- Masks and shifts of words as arithmetic, from the recursion on binary digits that the native
-- operations stand for.
use Prim.Native.Nat.{
  ℕ, zero, suc, ◌+◌, ◌*◌, ◌/◌, ◌%◌, ◌^◌, ◌-◌, ◌≤◌, ◌<◌, min, max, bit_and, bit_or, digits,
  bit_and-bitwise, bit_or-bitwise,
}
use mathlib.Core.Path.{◌≡◌, refl, ap}
use mathlib.Core.Bool.{Bool, true, ◌&&◌}
use native.Mathlib.Omega.{arith}
use native.Mathlib.Nat.{
  pow-suc, one-le-pow, div-add-mod', mod-lt, div-one, mul-one, div-div-eq-div-mul, mul-div_cancel,
}

-- `x << k` before the cut to a width, and `x >> k`.
infixl 75 ◌<<◌ ◌>>◌
abbrev pub ◌<<◌ : ℕ → ℕ → ℕ
x << k = x * 2 ^ k

abbrev pub ◌>>◌ : ℕ → ℕ → ℕ
x >> k = x / 2 ^ k

-- More fuel than the first number needs changes no digit.
module _ (alone : ℕ → ℕ) (digit : ℕ → ℕ → ℕ) where
  digits_enough :
      (k l x y : ℕ) → x ≤ k → x ≤ l → digits alone digit k x y ≡ digits alone digit l x y
  digits_enough zero zero x y hk hl = refl
  digits_enough zero (suc l) zero y hk hl = refl
  digits_enough zero (suc l) (suc x) y hk hl = absurd (omega arith)
  digits_enough (suc k) zero zero y hk hl = refl
  digits_enough (suc k) zero (suc x) y hk hl = absurd (omega arith)
  digits_enough (suc k) (suc l) zero y hk hl = refl
  digits_enough (suc k) (suc l) (suc x) y hk hl =
      rw (digits_enough k l (suc x / 2) (y / 2) (omega arith) (omega arith))

pub bit_and_digit : (x y : ℕ) → bit_and x y ≡ bit_and (x / 2) (y / 2) * 2 + min (x % 2) (y % 2)
bit_and_digit zero y = omega (arith, bit_and-bitwise 0 y, bit_and-bitwise 0 (y / 2))
bit_and_digit (suc x) y = omega (
  arith,
  bit_and-bitwise (suc x) y,
  bit_and-bitwise (suc x / 2) (y / 2),
  digits_enough (λ _. 0) min x (suc x / 2) (suc x / 2) (y / 2) (omega arith) (omega arith),
)

pub bit_or_digit : (x y : ℕ) → bit_or x y ≡ bit_or (x / 2) (y / 2) * 2 + max (x % 2) (y % 2)
bit_or_digit zero y = omega (arith, bit_or-bitwise 0 y, bit_or-bitwise 0 (y / 2))
bit_or_digit (suc x) y = omega (
  arith,
  bit_or-bitwise (suc x) y,
  bit_or-bitwise (suc x / 2) (y / 2),
  digits_enough (λ z. z) max x (suc x / 2) (suc x / 2) (y / 2) (omega arith) (omega arith),
)

zero-bit_or : (y : ℕ) → bit_or 0 y ≡ y
zero-bit_or y = bit_or-bitwise 0 y

zero-bit_and : (y : ℕ) → bit_and 0 y ≡ 0
zero-bit_and y = bit_and-bitwise 0 y

double_pow : (q k : ℕ) → q * 2 ^ suc k ≡ 2 * (q * 2 ^ k)
double_pow q k = omega (arith, ap (λ (t : ℕ). q * t) (pow-suc 2 k))

-- `low | high << k` is a sum where `low` fits `k` bits.
pub bit_or_above : (k low high : ℕ) → low < 2 ^ k → bit_or low (high << k) ≡ low + high * 2 ^ k
bit_or_above zero low high h = ground (arith, zero-bit_or (high * 2 ^ 0))
bit_or_above (suc k) low high h = ground (
  arith,
  bit_or_digit low (high * 2 ^ suc k),
  double_pow high k,
  pow-suc 2 k,
  bit_or_above k (low / 2) high (omega (arith, pow-suc 2 k)),
)

bit_or_comm_below : (k x y : ℕ) → x ≤ k → y ≤ k → bit_or x y ≡ bit_or y x
bit_or_comm_below zero x y hx hy = ground (arith, zero-bit_or 0)
bit_or_comm_below (suc k) x y hx hy = omega (
  arith,
  bit_or_digit x y,
  bit_or_digit y x,
  bit_or_comm_below k (x / 2) (y / 2) (omega arith) (omega arith),
)

pub bit_or_comm : (x y : ℕ) → bit_or x y ≡ bit_or y x
bit_or_comm x y = bit_or_comm_below (max x y) x y (omega arith) (omega arith)

bit_and-zero : (k x : ℕ) → x ≤ k → bit_and x 0 ≡ 0
bit_and-zero k zero h = zero-bit_and 0
bit_and-zero zero (suc x) h = absurd (omega arith)
bit_and-zero (suc k) (suc x) h =
    omega (arith, bit_and_digit (suc x) 0, bit_and-zero k (suc x / 2) (omega arith))

pub two_pow_pos : (m : ℕ) → 0 < 2 ^ m
two_pow_pos m = one-le-pow m 2 (omega arith)

low_field_fits : (m q r : ℕ) → r < 2 ^ m → bit_and (q * 2 ^ m + r) (2 ^ m - 1) ≡ r
low_field_fits zero q r h =
    omega (arith, bit_and-zero (q * 2 ^ 0 + r) (q * 2 ^ 0 + r) (omega arith))
low_field_fits (suc m) q r h = ground (
  arith,
  bit_and_digit (q * 2 ^ suc m + r) (2 ^ suc m - 1),
  double_pow q m,
  pow-suc 2 m,
  two_pow_pos m,
  low_field_fits m q (r / 2) (omega (arith, pow-suc 2 m)),
)

-- The mask of the `m` low bits takes the remainder by `2 ^ m`.
pub low_field : (m x : ℕ) → bit_and x (2 ^ m - 1) ≡ x % 2 ^ m
low_field m x = ground (
  arith,
  div-add-mod' x (2 ^ m),
  mod-lt x (two_pow_pos m),
  low_field_fits m (x / 2 ^ m) (x % 2 ^ m),
)

pub bit_and_shifted : (k x y : ℕ) → bit_and x (y << k) ≡ bit_and (x >> k) y << k
bit_and_shifted zero x y = ground (arith, div-one x, mul-one y, mul-one (bit_and x y))
bit_and_shifted (suc k) x y = ground (
  arith,
  bit_and_digit x (y * 2 ^ suc k),
  double_pow y k,
  double_pow (bit_and (x / 2 ^ suc k) y) k,
  pow-suc 2 k,
  div-div-eq-div-mul x 2 (2 ^ k),
  bit_and_shifted k (x / 2) y,
)

-- `(x & mask) >> k` is the field of `m` bits that starts at bit `k`.
pub bit_field : (k m x : ℕ) → bit_and x ((2 ^ m - 1) << k) >> k ≡ x / 2 ^ k % 2 ^ m
bit_field k m x =
    rw (bit_and_shifted k x (2 ^ m - 1), low_field m (x / 2 ^ k))
      (mul-div_cancel (x / 2 ^ k % 2 ^ m) (two_pow_pos k))

-- A test of one bit against its mask.
pub bit_set : (k x : ℕ) → bit_and x (1 << k) ≡ x / 2 ^ k % 2 * 2 ^ k
bit_set k x = rw (bit_and_shifted k x 1, low_field 1 (x / 2 ^ k)) refl

-- A test of every number below a bound, by evaluation.
unfoldable pub all_below : ℕ → (ℕ → Bool) → Bool
all_below zero test = true
all_below (suc n) test = test n && all_below n test

pub all_below_sound :
    (n : ℕ) (test : ℕ → Bool) (x : ℕ) → all_below n test ≡ true → x < n → test x ≡ true
unfolding all_below
all_below_sound zero test x h below = absurd (omega arith)
all_below_sound (suc n) test x h below = ground (arith, all_below_sound n test x)
