-- ===== src/Tests/Headers.antt =====
-- Headers, their frame control field and their auxiliary security header.
use rust_ieee.Base.{
  ℕ, ◌+◌, ◌≡◌, refl, arith, true, false, none, some, List, [], ◌∷◌, ◌++◌, length, replicate,
}
use rust_ieee.Base.Octets.{Endian}
use rust_ieee.Outcome.{ok}
use rust_ieee.ByteLib.Bounds.{EndsWithin}
use rust_ieee.Address.{AddressMode}
use rust_ieee.FrameControl.{FrameControl, decode, frame_control_raw}
use rust_ieee.FrameControl.FrameType.{FrameType}
use rust_ieee.FrameControl.FrameVersion.{FrameVersion}
use rust_ieee.FrameControl.Word.{frame_control_raw-eq-word, decode-frame_control_raw}
use rust_ieee.Security.AuxHeader.{AuxiliarySecurityHeader, KeySource}
use rust_ieee.Security.AuxHeader.Codec as AuxHeader
use rust_ieee.Security.AuxHeader.RoundTrip as AuxTrip
use rust_ieee.Security.Control.Level.{SecurityLevel}
use rust_ieee.Security.Control.KeyMode.{KeyIdentifierMode}
use rust_ieee.Security.Context.{SecurityContext, unimplemented_lookup}
use rust_ieee.Header.{Header}
use rust_ieee.Header.Write
use rust_ieee.Header.Read
use rust_ieee.Header.RoundTrip
use rust_ieee.Header.Size
use rust_ieee.Tests.{host, data_header, header_octets, data_header-IsHeader}

abbrev aux_header : AuxiliarySecurityHeader
aux_header = record {
  control = record {
    security_level = SecurityLevel.encmic32;
    key_id_mode = KeyIdentifierMode.key_source4;
  };
  frame_counter = 0x01020304;
  key_identifier = some (record { key_source = some (KeySource.short 0x0a0b0c0d); key_index = 7 });
}

abbrev context : SecurityContext
context = record { euid = 1; frame_counter = 0x01020304; key_provider = unimplemented_lookup }

abbrev secured_header : Header
secured_header = record data_header { auxiliary_security_header = some aux_header }

abbrev aux_octets : List ℕ
aux_octets = 0x15 ∷ 0x04 ∷ 0x03 ∷ 0x02 ∷ 0x01 ∷ 0x0d ∷ 0x0c ∷ 0x0b ∷ 0x0a ∷ 0x07 ∷ []

abbrev data_control : FrameControl
data_control = record {
  frame_type = FrameType.data_frame;
  security = false;
  frame_pending = false;
  ack_request = true;
  pan_id_compress = true;
  dest_addr_mode = AddressMode.short;
  version = FrameVersion.ieee802154_2003;
  src_addr_mode = AddressMode.extended;
}

header_round_trip_example :
    Read.try_read ⦃b = host⦄ (header_octets ++ (0xde ∷ 0xf0 ∷ [])) ≡ ok (data_header, 11)
header_round_trip_example =
    RoundTrip.header_round_trip ⦃b = host⦄ data_header 0 (0xde ∷ 0xf0 ∷ []) data_header-IsHeader

header_is_put_example :
    Write.try_write ⦃b = host⦄ data_header none (replicate 12 0xff)
    ≡ ok (header_octets ++ (0xff ∷ []), 11)
header_is_put_example =
    Write.header_is_put ⦃b = host⦄ data_header none (replicate 12 0xff) (omega arith) tt
      (refl, refl)

header_ends_example : EndsWithin 0 4 (Read.try_read ⦃b = host⦄ (0x01 ∷ 0x98 ∷ 0x00 ∷ 0x34 ∷ []))
header_ends_example = Read.header_ends ⦃b = host⦄ (0x01 ∷ 0x98 ∷ 0x00 ∷ 0x34 ∷ [])

get_octet_size-encoding_example :
    length (Write.encoding Endian.little 5 secured_header) + 0 ≡ 11 + 10
get_octet_size-encoding_example = Size.get_octet_size-encoding Endian.little 5 secured_header

aux_header_round_trip_example :
    AuxHeader.try_read ⦃b = host⦄ (aux_octets ++ (0xff ∷ [])) ≡ ok (aux_header, 10)
aux_header_round_trip_example =
    AuxTrip.aux_header_round_trip ⦃b = host⦄ aux_header 0x01020304 (0xff ∷ [])
      (omega arith, omega arith)

frame_control_raw-eq-word_example : frame_control_raw data_control ≡ 0xc861
frame_control_raw-eq-word_example = frame_control_raw-eq-word data_control

decode-frame_control_raw_example :
    decode ⦃b = host⦄ (frame_control_raw data_control) ≡ ok data_control
decode-frame_control_raw_example = decode-frame_control_raw data_control ⦃b = host⦄
