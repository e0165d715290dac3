-- ===== src/Security/Error.antt =====
-- `SecurityError` of src/mac/frame/security/mod.rs and its conversions.
use rust_ieee.ByteLib.{ByteLib}

module _ ⦃b : ByteLib⦄ where
  pub data SecurityError : Type 0 where
    security_not_enabled invalid_sec_context frame_too_long : SecurityError
    counter_error unavailable_key key_failure no_source_address : SecurityError
    no_destination_address transformation_error : SecurityError
    write_error : b.Error → SecurityError
    tag_write_error not_implemented aux_sec_header_absent : SecurityError
    key_identifier_mismatch unsupported_legacy unsupported_security : SecurityError
    unavailable_device key_lookup_address_type_mismatch : SecurityError

  -- `From<byte::Error> for SecurityError`.
  abbrev pub of_byte_error : b.Error → SecurityError
  of_byte_error e = SecurityError.write_error e

  -- `From<SecurityError> for byte::Error`.
  abbrev pub security_error : SecurityError → b.Error
  security_error SecurityError.invalid_sec_context = b.bad_input "InvalidSecContext"
  security_error SecurityError.frame_too_long = b.bad_input "FrameTooLong"
  security_error SecurityError.counter_error = b.bad_input "CounterError"
  security_error SecurityError.unavailable_key = b.bad_input "UnavailableKey"
  security_error SecurityError.key_failure = b.bad_input "KeyFailure"
  security_error SecurityError.no_source_address = b.bad_input "NoSourceAddress"
  security_error SecurityError.no_destination_address = b.bad_input "NoDstAddress"
  security_error SecurityError.transformation_error = b.bad_input "TransformationError"
  security_error SecurityError.tag_write_error = b.bad_input "TagWriteError"
  security_error SecurityError.security_not_enabled = b.bad_input "SecurityNotEnabled"
  security_error (SecurityError.write_error e) = e
  security_error SecurityError.not_implemented = b.bad_input "NotImplemented"
  security_error SecurityError.aux_sec_header_absent = b.bad_input "AuxSecHeaderAbsent"
  security_error SecurityError.key_identifier_mismatch = b.bad_input "KeyIdentifierMismatch"
  security_error SecurityError.unsupported_legacy = b.bad_input "UnsupportedLegacy"
  security_error SecurityError.unsupported_security = b.bad_input "UnsupportedSecurity"
  security_error SecurityError.unavailable_device = b.bad_input "UnavailableDevice"
  security_error SecurityError.key_lookup_address_type_mismatch =
      b.bad_input "KeyLookupAddressTypeMismatch"
