-- ===== src/Security/Control/Level.antt =====
-- `SecurityLevel` of src/mac/frame/security/security_control.rs.
use rust_ieee.Base.{ℕ, ◌≡◌, refl, ◌<◌, arith, Option, ◌==◌, if◌then◌else◌}

pub data SecurityLevel : Type 0 where
  none mic32 mic64 mic128 enc encmic32 encmic64 encmic128 : SecurityLevel

unfoldable pub from_bits : ℕ → Option SecurityLevel
from_bits bits =
    if bits == 0
    then Option.some SecurityLevel.none
    else if bits == 1
    then Option.some SecurityLevel.mic32
    else if bits == 2
    then Option.some SecurityLevel.mic64
    else if bits == 3
    then Option.some SecurityLevel.mic128
    else if bits == 4
    then Option.some SecurityLevel.enc
    else if bits == 5
    then Option.some SecurityLevel.encmic32
    else if bits == 6
    then Option.some SecurityLevel.encmic64
    else if bits == 7
    then Option.some SecurityLevel.encmic128
    else Option.none

abbrev pub to_bits : SecurityLevel → ℕ
to_bits SecurityLevel.none = 0
to_bits SecurityLevel.mic32 = 1
to_bits SecurityLevel.mic64 = 2
to_bits SecurityLevel.mic128 = 3
to_bits SecurityLevel.enc = 4
to_bits SecurityLevel.encmic32 = 5
to_bits SecurityLevel.encmic64 = 6
to_bits SecurityLevel.encmic128 = 7

abbrev pub get_mic_octet_size : SecurityLevel → ℕ
get_mic_octet_size SecurityLevel.none = 0
get_mic_octet_size SecurityLevel.enc = 0
get_mic_octet_size SecurityLevel.mic32 = 4
get_mic_octet_size SecurityLevel.encmic32 = 4
get_mic_octet_size SecurityLevel.mic64 = 8
get_mic_octet_size SecurityLevel.encmic64 = 8
get_mic_octet_size SecurityLevel.mic128 = 16
get_mic_octet_size SecurityLevel.encmic128 = 16

pub to_bits-lt : (l : SecurityLevel) → to_bits l < 8
to_bits-lt SecurityLevel.none = omega arith
to_bits-lt _ = omega arith

pub from_bits-to_bits : (l : SecurityLevel) → from_bits (to_bits l) ≡ Option.some l
unfolding from_bits
from_bits-to_bits SecurityLevel.none = refl
from_bits-to_bits _ = refl
