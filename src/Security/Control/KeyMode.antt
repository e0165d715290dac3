-- ===== src/Security/Control/KeyMode.antt =====
-- `KeyIdentifierMode` of src/mac/frame/security/security_control.rs.
use rust_ieee.Base.{ℕ, ◌≡◌, refl, ◌<◌, arith, Option, ◌==◌, if◌then◌else◌}

pub data KeyIdentifierMode : Type 0 where
  none key_index key_source4 key_source8 : KeyIdentifierMode

unfoldable pub from_bits : ℕ → Option KeyIdentifierMode
from_bits bits =
    if bits == 0
    then Option.some KeyIdentifierMode.none
    else if bits == 1
    then Option.some KeyIdentifierMode.key_index
    else if bits == 2
    then Option.some KeyIdentifierMode.key_source4
    else if bits == 3
    then Option.some KeyIdentifierMode.key_source8
    else Option.none

abbrev pub to_bits : KeyIdentifierMode → ℕ
to_bits KeyIdentifierMode.none = 0
to_bits KeyIdentifierMode.key_index = 1
to_bits KeyIdentifierMode.key_source4 = 2
to_bits KeyIdentifierMode.key_source8 = 3

pub to_bits-lt : (m : KeyIdentifierMode) → to_bits m < 4
to_bits-lt KeyIdentifierMode.none = omega arith
to_bits-lt _ = omega arith

pub from_bits-to_bits : (m : KeyIdentifierMode) → from_bits (to_bits m) ≡ Option.some m
unfolding from_bits
from_bits-to_bits KeyIdentifierMode.none = refl
from_bits-to_bits _ = refl
