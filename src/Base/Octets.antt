-- ===== src/Base/Octets.antt =====
-- Unsigned integers as sequences of octets, in either byte order.
use Prim.Native.Nat.{ℕ, zero, suc, ◌+◌, ◌*◌, ◌/◌, ◌%◌, ◌^◌, ◌<◌}
use mathlib.Core.Path.{◌≡◌, refl, ap, ◌∙◌}
use mathlib.Core.Bool.{Bool, true, false, ◌&&◌}
use mathlib.Core.List.{List, [], ◌∷◌, reverse, reverse-reverse}
use native.Mathlib.Omega.{arith}
use native.Mathlib.Nat.{pow-suc}
use rust_ieee.Base.Tests.{◌==◌}
use rust_ieee.Base.Lists.{length, length-reverse, All, All-reverse}

pub data Endian : Type 0 where
  little big : Endian

abbrev pub IsByte : ℕ → Type 0
IsByte x = x < 256

-- The `n` low octets of `v`, least significant first.
abbrev pub le_octets : ℕ → ℕ → List ℕ
le_octets zero v = []
le_octets (suc n) v = (v % 256) ∷ le_octets n (v / 256)

abbrev pub le_value : List ℕ → ℕ
le_value [] = 0
le_value (x ∷ xs) = x + 256 * le_value xs

abbrev pub octets : Endian → ℕ → ℕ → List ℕ
octets Endian.little n v = le_octets n v
octets Endian.big n v = reverse (le_octets n v)

abbrev pub value : Endian → List ℕ → ℕ
value Endian.little xs = le_value xs
value Endian.big xs = le_value (reverse xs)

pub length-le_octets : (n v : ℕ) → length (le_octets n v) ≡ n
length-le_octets zero v = refl
length-le_octets (suc n) v = ap suc (length-le_octets n (v / 256))

pub length-octets : (e : Endian) (n v : ℕ) → length (octets e n v) ≡ n
length-octets Endian.little n v = length-le_octets n v
length-octets Endian.big n v = length-reverse (le_octets n v) ∙ length-le_octets n v

le_value-le_octets : (n v : ℕ) → v < 256 ^ n → le_value (le_octets n v) ≡ v
le_value-le_octets zero v h = omega arith
le_value-le_octets (suc n) v h =
    omega (arith, le_value-le_octets n (v / 256) (omega (arith, pow-suc 256 n)))

-- An integer that fits is read back from its octets, in the same byte order.
pub value-octets : (e : Endian) (n v : ℕ) → v < 256 ^ n → value e (octets e n v) ≡ v
value-octets Endian.little n v h = le_value-le_octets n v h
value-octets Endian.big n v h =
    ap le_value (reverse-reverse (le_octets n v)) ∙ le_value-le_octets n v h

pub le_value-lt : (xs : List ℕ) → All IsByte xs → le_value xs < 256 ^ length xs
le_value-lt [] h = omega arith
le_value-lt (x ∷ xs) (hx, hxs) = omega (arith, le_value-lt xs hxs, pow-suc 256 (length xs))

pub value-lt : (e : Endian) (xs : List ℕ) → All IsByte xs → value e xs < 256 ^ length xs
value-lt Endian.little xs h = le_value-lt xs h
value-lt Endian.big xs h =
    rw (← length-reverse xs) (le_value-lt (reverse xs) (All-reverse IsByte xs h))

-- One octet reads the same in both orders.
pub octets-one : (e : Endian) (v : ℕ) → v < 256 → octets e 1 v ≡ v ∷ []
octets-one Endian.little v h = ap (λ (x : ℕ). x ∷ []) (omega arith)
octets-one Endian.big v h = ap (λ (x : ℕ). x ∷ []) (omega arith)

-- A test for the same octets.
abbrev pub same_octets : List ℕ → List ℕ → Bool
same_octets [] [] = true
same_octets [] (y ∷ ys) = false
same_octets (x ∷ xs) [] = false
same_octets (x ∷ xs) (y ∷ ys) = (x == y) && same_octets xs ys

pub same_octets_sound : (xs ys : List ℕ) → same_octets xs ys ≡ true → xs ≡ ys
same_octets_sound [] [] e = refl
same_octets_sound [] (y ∷ ys) e = absurd (ground (arith, e))
same_octets_sound (x ∷ xs) [] e = absurd (ground (arith, e))
same_octets_sound (x ∷ xs) (y ∷ ys) e =
    let head : x ≡ y = ground (arith, e) in
    let rest = same_octets_sound xs ys (ground (arith, e)) in rw (head, rest)

pub same_octets_refl : (xs : List ℕ) → same_octets xs xs ≡ true
same_octets_refl [] = refl
same_octets_refl (x ∷ xs) = ground (arith, same_octets_refl xs)
