-- ===== src/Base/Flags.antt =====
-- Single bits of a word: how a flag is set and how it is tested.
use Prim.Native.Nat.{ℕ, ◌+◌, ◌*◌, ◌/◌, ◌%◌, ◌^◌, ◌<◌, bit_and, bit_or}
use mathlib.Core.Path.{◌≡◌}
use mathlib.Core.Bool.{Bool, true, false}
use native.Mathlib.Omega.{arith}
use rust_ieee.Base.Tests.{◌==◌, if◌then◌else◌}
use rust_ieee.Base.Bits.{◌<<◌, bit_set, bit_or_above, two_pow_pos}

abbrev pub flag_bit : Bool → ℕ
flag_bit true = 1
flag_bit false = 0

pub flag_bit-lt : (b : Bool) → flag_bit b < 2
flag_bit-lt true = omega arith
flag_bit-lt false = omega arith

-- `x | mask` where the flag is set, above the bits that are there.
pub or_flag :
    (k x : ℕ) (flag : Bool)
    → x < 2 ^ k
    → bit_or x (if flag then 1 << k else 0) ≡ x + flag_bit flag * 2 ^ k
or_flag k x true h = ground (arith, bit_or_above k x 1)
or_flag k x false h = ground (arith, bit_or_above k x 0)

-- `x & mask == mask` tests the bit of the mask.
pub test_flag :
    (k x : ℕ) (flag : Bool)
    → x / 2 ^ k % 2 ≡ flag_bit flag
    → (bit_and x (1 << k) == (1 << k)) ≡ flag
test_flag k x true h = ground (arith, bit_set k x, two_pow_pos k)
test_flag k x false h = ground (arith, bit_set k x, two_pow_pos k)
