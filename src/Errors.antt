-- ===== src/Errors.antt =====
-- `DecodeError` and `EncodeError` of src/mac/frame/mod.rs, and their conversion to `byte::Error`.
use rust_ieee.Base.{ℕ}
use rust_ieee.ByteLib.{ByteLib}

pub data DecodeError : Type 0 where
  not_enough_bytes : DecodeError
  invalid_frame_type : ℕ → DecodeError
  security_enabled : DecodeError
  invalid_address_mode : ℕ → DecodeError
  invalid_frame_version : ℕ → DecodeError
  invalid_security_level : ℕ → DecodeError
  invalid_key_identifier_mode : ℕ → DecodeError
  missing_security_ctx : DecodeError
  aux_sec_header_absent : DecodeError
  invalid_value : DecodeError

pub data EncodeError : Type 0 where
  write_error : EncodeError
  missing_security_ctx : EncodeError
  unknown_error : EncodeError

module _ ⦃b : ByteLib⦄ where
  abbrev pub decode_error : DecodeError → b.Error
  decode_error DecodeError.not_enough_bytes = b.incomplete
  decode_error (DecodeError.invalid_frame_type _) = b.bad_input "InvalidFrameType"
  decode_error (DecodeError.invalid_address_mode _) = b.bad_input "InvalidAddressMode"
  decode_error (DecodeError.invalid_frame_version _) = b.bad_input "InvalidFrameVersion"
  decode_error DecodeError.invalid_value = b.bad_input "InvalidValue"
  decode_error (DecodeError.invalid_security_level _) = b.bad_input "InvalidSecurityLevel"
  decode_error (DecodeError.invalid_key_identifier_mode _) = b.bad_input "InvalidKeyIdentifierMode"
  decode_error DecodeError.missing_security_ctx = b.bad_input "MissingSecurityCtx"
  decode_error DecodeError.aux_sec_header_absent = b.bad_input "AuxSecHeaderAbsent"
  decode_error DecodeError.security_enabled =
      b.bad_input "SecurityEnabled (use Frame::try_read_and_unsecure)"

  abbrev pub encode_error : EncodeError → b.Error
  encode_error EncodeError.write_error = b.bad_input "WriteError"
  encode_error EncodeError.missing_security_ctx = b.bad_input "MissingSecurityCtx"
  encode_error EncodeError.unknown_error = b.bad_input "UnknownError"
