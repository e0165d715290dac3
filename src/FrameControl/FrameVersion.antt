-- ===== src/FrameControl/FrameVersion.antt =====
-- `FrameVersion` of src/mac/frame/frame_control.rs.
use rust_ieee.Base.{ℕ, ◌≡◌, refl, ◌<◌, arith, Option, none, some, ◌==◌, if◌then◌else◌}

pub data FrameVersion : Type 0 where
  ieee802154_2003 ieee802154_2006 ieee802154 : FrameVersion

unfoldable pub from_bits : ℕ → Option FrameVersion
from_bits bits =
    if bits == 0
    then some FrameVersion.ieee802154_2003
    else if bits == 1
    then some FrameVersion.ieee802154_2006
    else if bits == 2
    then some FrameVersion.ieee802154
    else none

-- The cast to an integer.
abbrev pub to_bits : FrameVersion → ℕ
to_bits FrameVersion.ieee802154_2003 = 0
to_bits FrameVersion.ieee802154_2006 = 1
to_bits FrameVersion.ieee802154 = 2

pub to_bits-lt : (v : FrameVersion) → to_bits v < 3
to_bits-lt FrameVersion.ieee802154_2003 = omega arith
to_bits-lt _ = omega arith

pub from_bits-to_bits : (v : FrameVersion) → from_bits (to_bits v) ≡ some v
unfolding from_bits
from_bits-to_bits FrameVersion.ieee802154_2003 = refl
from_bits-to_bits _ = refl
