-- ===== src/FrameControl.antt =====
-- The frame control field: the masks and offsets of src/mac/frame/frame_control.rs as
-- src/mac/frame/header.rs uses them to take the field apart and to put it together.
pub mod FrameType
pub mod FrameVersion
pub mod Word
use rust_ieee.Base.{ℕ, ◌*◌, ◌^◌, ◌%◌, Bool, true, false, bit_and, bit_or, ltb}
use rust_ieee.Base.Bits.{◌<<◌, ◌>>◌}
use rust_ieee.Outcome.{Outcome, ok, and_then, map_err, ok_or}
use rust_ieee.Errors.{DecodeError, decode_error}
use rust_ieee.ByteLib.{ByteLib}
use rust_ieee.Address.{AddressMode}
use rust_ieee.Address.Mode

-- What the field says, as the header's `try_read` holds it in local variables.
pub record FrameControl : Type 0 where
  pub frame_type : FrameType.FrameType
  pub security : Bool
  pub frame_pending : Bool
  pub ack_request : Bool
  pub pan_id_compress : Bool
  pub dest_addr_mode : AddressMode
  pub version : FrameVersion.FrameVersion
  pub src_addr_mode : AddressMode

-- `b as u16`.
abbrev pub bool_bit : Bool → ℕ
bool_bit true = 1
bool_bit false = 0

-- `acc | x << k` on `u16`.
abbrev pub or_shifted : ℕ → ℕ → ℕ → ℕ
or_shifted acc x k = bit_or acc (x << k % 2 ^ 16)

-- `frame_control_raw` of the header's `try_write`.
unfoldable pub frame_control_raw : FrameControl → ℕ
frame_control_raw c =
    let field0 = FrameType.to_bits c.frame_type << 0 % 2 ^ 16 in
    let field1 = or_shifted field0 (bool_bit c.security) 3 in
    let field2 = or_shifted field1 (bool_bit c.frame_pending) 4 in
    let field3 = or_shifted field2 (bool_bit c.ack_request) 5 in
    let field4 = or_shifted field3 (bool_bit c.pan_id_compress) 6 in
    let field5 = or_shifted field4 (Mode.to_bits c.dest_addr_mode) 10 in
    let field6 = or_shifted field5 (FrameVersion.to_bits c.version) 12 in
    or_shifted field6 (Mode.to_bits c.src_addr_mode) 14

-- `((bits & mask) >> offset) as u8`.
abbrev pub field : ℕ → ℕ → ℕ → ℕ
field bits mask offset = bit_and bits mask >> offset % 2 ^ 8

module _ ⦃b : ByteLib⦄ where
  -- The first part of the header's `try_read`: the version is tested first, then the frame type
  -- and the two address modes.
  unfoldable pub decode : ℕ → Outcome b.Error FrameControl
  decode bits =
      let frame_type = field bits 0x0007 0 in
      let version = field bits 0x3000 12 in
      and_then
        (map_err decode_error
          (ok_or (FrameVersion.from_bits version) (DecodeError.invalid_frame_version version)))
        λ version'.
          and_then
            (map_err decode_error
              (ok_or (FrameType.from_bits frame_type) (DecodeError.invalid_frame_type frame_type)))
            λ frame_type'.
              and_then (map_err decode_error (Mode.from_bits (field bits 0x0C00 10))) λ dest_mode.
                and_then (map_err decode_error (Mode.from_bits (field bits 0xC000 14))) λ src_mode.
                  ok (record {
                    frame_type = frame_type';
                    security = ltb 0 (field bits 0x0008 3);
                    frame_pending = ltb 0 (field bits 0x0010 4);
                    ack_request = ltb 0 (field bits 0x0020 5);
                    pan_id_compress = ltb 0 (field bits 0x0040 6);
                    dest_addr_mode = dest_mode;
                    version = version';
                    src_addr_mode = src_mode;
                  })
