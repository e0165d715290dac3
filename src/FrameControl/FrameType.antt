-- ===== src/FrameControl/FrameType.antt =====
-- `FrameType` of src/mac/frame/frame_control.rs. `data_frame` is its `Data`.
use rust_ieee.Base.{ℕ, ◌≡◌, refl, ◌<◌, arith, Option, none, some, ◌==◌, if◌then◌else◌}

pub data FrameType : Type 0 where
  beacon data_frame acknowledgement mac_command : FrameType

unfoldable pub from_bits : ℕ → Option FrameType
from_bits bits =
    if bits == 0
    then some FrameType.beacon
    else if bits == 1
    then some FrameType.data_frame
    else if bits == 2
    then some FrameType.acknowledgement
    else if bits == 3
    then some FrameType.mac_command
    else none

-- The cast to an integer.
abbrev pub to_bits : FrameType → ℕ
to_bits FrameType.beacon = 0
to_bits FrameType.data_frame = 1
to_bits FrameType.acknowledgement = 2
to_bits FrameType.mac_command = 3

pub to_bits-lt : (t : FrameType) → to_bits t < 4
to_bits-lt FrameType.beacon = omega arith
to_bits-lt _ = omega arith

pub from_bits-to_bits : (t : FrameType) → from_bits (to_bits t) ≡ some t
unfolding from_bits
from_bits-to_bits FrameType.beacon = refl
from_bits-to_bits _ = refl
