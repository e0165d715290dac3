-- ===== src/Tests.antt =====
-- The theorems at concrete inputs, on a little-endian host, with data of the source's tests.
mod Frames
mod Headers
mod Parts
mod Securing
mod Unsecuring
mod Writing
mod Extremes
mod Delivering
mod Verifying
use rust_ieee.Base.{ℕ, arith, true, false, Option, some, List, [], ◌∷◌}
use rust_ieee.Base.Octets.{Endian}
use rust_ieee.ByteLib.{ByteLib}
use rust_ieee.ByteLib.Concrete.{on_host}
use rust_ieee.Address.{Address}
use rust_ieee.FrameControl.FrameType.{FrameType}
use rust_ieee.FrameControl.FrameVersion.{FrameVersion}
use rust_ieee.Header.{Header, IsHeader}
use rust_ieee.Target.{Target}

abbrev pub host : ByteLib
host = on_host Endian.little

-- A debug build on a 64-bit target, and a release build.
abbrev pub debug : Target
debug = record { overflow_checks = true; usize_bits = 64 }

abbrev pub release : Target
release = record { overflow_checks = false; usize_bits = 64 }

-- The header of the example in the documentation of `Frame`.
abbrev pub data_header : Header
data_header = record {
  frame_type = FrameType.data_frame;
  frame_pending = false;
  ack_request = false;
  pan_id_compress = false;
  version = FrameVersion.ieee802154_2006;
  seq = 0;
  destination = some (Address.short (record { value = 0x1234 }) (record { value = 0x5678 }));
  source = some (Address.short (record { value = 0x1234 }) (record { value = 0x9abc }));
  auxiliary_security_header = Option.none;
}

abbrev pub header_octets : List ℕ
header_octets = 0x01 ∷ 0x98 ∷ 0x00 ∷ 0x34 ∷ 0x12 ∷ 0x78 ∷ 0x56 ∷ 0x34 ∷ 0x12 ∷ 0xbc ∷ 0x9a ∷ []

pub data_header-IsHeader : IsHeader data_header
data_header-IsHeader = record {
  seq_fits = omega arith;
  destination_fits = (omega arith, omega arith);
  source_fits = (omega arith, omega arith);
  security_fits = tt;
  compressible = tt;
}
