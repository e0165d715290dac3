-- ===== src/Security/AuxHeader/Codec.antt =====
-- `TryRead` and `TryWrite` of `AuxiliarySecurityHeader`,
-- src/mac/frame/security/auxiliary_security_header.rs.
use rust_ieee.Base.{ℕ, ◌≡◌, arith, Option, none, some, List, ◌++◌, length, length-append}
use rust_ieee.Base.Octets.{Endian, octets, length-octets}
use rust_ieee.Outcome.{Outcome, Reader, Writer, ◌>>=◌, ◌⨾◌, pure, skip, from_zero}
use rust_ieee.ByteLib.{ByteLib, Width}
use rust_ieee.ByteLib.Laws.{
  put, Encodes-put, read_int, write_int, Writes, Writes-int, Writes-skip, Writes-then, Encodes,
  Encodes-start,
}
use rust_ieee.ByteLib.Bounds.{
  Bounded, Bounded-bind, Bounded-int, Bounded-pure, Bounded-read, Total-start,
}
use rust_ieee.Security.AuxHeader.{AuxiliarySecurityHeader, KeyIdentifier, get_octet_size, IsKeyId}
use rust_ieee.Security.AuxHeader.KeyId
use rust_ieee.Security.AuxHeader.KeyId.{mode_of, read_key_identifier, read_key_identifier-Bounded}
use rust_ieee.Security.Context.{SecurityContext}
use rust_ieee.Security.Control.{SecurityControl}
use rust_ieee.Security.Control.Codec as Control

-- The control field with the key identifier mode that belongs to the key identifier.
abbrev pub set_mode : AuxiliarySecurityHeader → SecurityControl
set_mode a = record {
  security_level = a.control.security_level;
  key_id_mode = mode_of a.key_identifier;
}

-- The octets on the air, with the counter of the security context in place of the field.
abbrev pub encoding : Endian → ℕ → AuxiliarySecurityHeader → List ℕ
encoding host counter a =
    Control.encoding (set_mode a) ++ (octets host 4 counter ++ KeyId.encoding host a.key_identifier)

-- `get_octet_size` is the number of octets that are written.
pub get_octet_size_lem :
    (host : Endian) (counter : ℕ) (a : AuxiliarySecurityHeader)
    → length (encoding host counter a) ≡ get_octet_size a
get_octet_size_lem host counter a = omega (
  arith,
  length-append (octets host 4 counter) (KeyId.encoding host a.key_identifier),
  length-octets host 4 counter,
  KeyId.length-encoding host a.key_identifier,
)

module _ ⦃b : ByteLib⦄ where
  unfoldable pub read_fields : Reader b.Error AuxiliarySecurityHeader
  read_fields = do
    control ← b.read_with Control.try_read
    frame_counter ← read_int Width.u32 Endian.little
    key_identifier ← read_key_identifier control.key_id_mode
    pure (record {
      control = control;
      frame_counter = frame_counter;
      key_identifier = key_identifier;
    })

  unfoldable pub try_read : List ℕ → Outcome b.Error (AuxiliarySecurityHeader × ℕ)
  unfolding read_fields
  try_read = from_zero read_fields

  abbrev pub write_key_identifier : Option KeyIdentifier → Writer b.Error
  write_key_identifier none = skip
  write_key_identifier (some id) = b.write_with (KeyId.try_write id)

  unfoldable pub try_write :
      AuxiliarySecurityHeader → SecurityContext → List ℕ → Outcome b.Error (List ℕ × ℕ)
  try_write a context = from_zero (
      b.write_with (Control.try_write (set_mode a))
      ⨾ write_int Width.u32 b.native context.frame_counter
      ⨾ write_key_identifier a.key_identifier)

  write_key_identifier-Writes :
      (id : Option KeyIdentifier)
      → IsKeyId id
      → Writes (write_key_identifier id) b.incomplete (KeyId.encoding b.native id)
  write_key_identifier-Writes none h = Writes-skip
  write_key_identifier-Writes (some id) h = KeyId.write-Writes id h.1

  pub try_write-Encodes :
      (a : AuxiliarySecurityHeader) (context : SecurityContext)
      → IsKeyId a.key_identifier
      → Encodes (try_write a context) b.incomplete (encoding b.native context.frame_counter a)
  unfolding try_write
  try_write-Encodes a context h = Encodes-start (
      Writes-then (Control.write-Writes (set_mode a)) (
        Writes-then (Writes-int Width.u32 b.native context.frame_counter)
          (write_key_identifier-Writes a.key_identifier h)))

  pub read-Bounded : Bounded (b.read_with try_read)
  unfolding try_read
  read-Bounded = Bounded-read (
      Total-start (
        Bounded-bind _ Control.read-Bounded (λ control.
          Bounded-bind _ (Bounded-int Width.u32 Endian.little) (λ counter.
            Bounded-bind _ (read_key_identifier-Bounded control.key_id_mode)
              (λ id. Bounded-pure _)))))

  -- `try_write` puts the encoding, with the frame counter of the context and not that of the
  -- header, at the head of a buffer that has room for it and changes nothing else in it; in a
  -- buffer that is too short it fails with `Incomplete`. The key source has to fit its integer.
  pub aux_header_is_put :
      (a : AuxiliarySecurityHeader) (context : SecurityContext) (buffer : List ℕ)
      → IsKeyId a.key_identifier
      → try_write a context buffer
        ≡ put b.incomplete (encoding b.native context.frame_counter a) buffer
  aux_header_is_put a context buffer h = Encodes-put (try_write-Encodes a context h) buffer
