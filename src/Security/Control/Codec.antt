-- ===== src/Security/Control/Codec.antt =====
-- `TryRead` and `TryWrite` of `SecurityControl`, src/mac/frame/security/security_control.rs.
use rust_ieee.Base.{
  ℕ, ◌+◌, ◌*◌, ◌/◌, ◌%◌, ◌^◌, ◌<◌, ◌≡◌, ◌∙◌, arith, List, [], ◌∷◌, bit_and, bit_or,
}
use rust_ieee.Base.Bits.{◌<<◌, ◌>>◌, bit_field, bit_or_above}
use rust_ieee.Base.Octets.{Endian}
use rust_ieee.Outcome.{Outcome, ok, and_then, ok_or, map_err, ◌>>=◌, lift, from_zero}
use rust_ieee.Errors.{DecodeError, decode_error}
use rust_ieee.ByteLib.{ByteLib, Width}
use rust_ieee.ByteLib.Laws.{
  read_int, write_int, Reads, Reads-start, Reads-u8, Reads-decode, Reads-read, Encodes,
  Encodes-start, Writes, Writes-u8, Writes-write,
}
use rust_ieee.ByteLib.Bounds.{
  Bounded, Bounded-bind, Bounded-int, Bounded-lift, Bounded-read, Returns, Total-start,
}
use rust_ieee.Security.Control.{SecurityControl}
use rust_ieee.Security.Control.Level
use rust_ieee.Security.Control.Level.{SecurityLevel}
use rust_ieee.Security.Control.KeyMode
use rust_ieee.Security.Control.KeyMode.{KeyIdentifierMode}

-- The octet on the air: the level in bits 0 to 2, the mode in bits 3 and 4.
abbrev pub octet : SecurityControl → ℕ
octet c = Level.to_bits c.security_level + 8 * KeyMode.to_bits c.key_id_mode

abbrev pub encoding : SecurityControl → List ℕ
encoding c = octet c ∷ []

octet-lt : (c : SecurityControl) → octet c < 256
octet-lt c = omega (arith, Level.to_bits-lt c.security_level, KeyMode.to_bits-lt c.key_id_mode)

low_part : (c : SecurityControl) → octet c % 8 ≡ Level.to_bits c.security_level
low_part c = omega (arith, Level.to_bits-lt c.security_level)

high_part : (c : SecurityControl) → octet c / 8 % 4 ≡ KeyMode.to_bits c.key_id_mode
high_part c = omega (arith, Level.to_bits-lt c.security_level, KeyMode.to_bits-lt c.key_id_mode)

level_bits : (bits : ℕ) → bit_and bits 0x07 >> 0 ≡ bits % 8
level_bits bits = bit_field 0 3 bits ∙ omega arith

mode_bits : (bits : ℕ) → bit_and bits 0x18 >> 3 ≡ bits / 8 % 4
mode_bits bits = bit_field 3 2 bits

module _ ⦃b : ByteLib⦄ where
  -- `SecurityLevel::from_bits(bits).ok_or(…)?`.
  abbrev pub level_of : ℕ → Outcome b.Error SecurityLevel
  level_of bits =
      map_err decode_error (ok_or (Level.from_bits bits) (DecodeError.invalid_security_level bits))

  abbrev pub key_mode_of : ℕ → Outcome b.Error KeyIdentifierMode
  key_mode_of bits =
      map_err decode_error
        (ok_or (KeyMode.from_bits bits) (DecodeError.invalid_key_identifier_mode bits))

  -- The two fields of the octet, the level tested first.
  unfoldable pub decode : ℕ → Outcome b.Error SecurityControl
  decode bits = and_then (level_of (bit_and bits 0x07 >> 0)) λ level.
      and_then (key_mode_of (bit_and bits 0x18 >> 3))
        λ mode. ok (record { security_level = level; key_id_mode = mode })

  unfoldable pub try_read : List ℕ → Outcome b.Error (SecurityControl × ℕ)
  unfolding decode
  try_read = from_zero do bits ← read_int Width.u8 Endian.little; lift (decode bits)

  -- The octet that is written.
  abbrev pub control_bits : SecurityControl → ℕ
  control_bits c =
      bit_or (Level.to_bits c.security_level << 0 % 2 ^ 8)
        (KeyMode.to_bits c.key_id_mode << 3 % 2 ^ 8)

  unfoldable pub try_write : SecurityControl → List ℕ → Outcome b.Error (List ℕ × ℕ)
  try_write c = from_zero (write_int Width.u8 b.native (control_bits c))

  control_bits-octet : (c : SecurityControl) → control_bits c ≡ octet c
  control_bits-octet c = ground (
    arith,
    Level.to_bits-lt c.security_level,
    KeyMode.to_bits-lt c.key_id_mode,
    bit_or_above 3 (Level.to_bits c.security_level) (KeyMode.to_bits c.key_id_mode),
  )

  pub try_write-Encodes : (c : SecurityControl) → Encodes (try_write c) b.incomplete (encoding c)
  unfolding try_write
  try_write-Encodes c =
      Encodes-start {w = write_int Width.u8 b.native (control_bits c)}
        (rw (control_bits-octet c) (Writes-u8 b.native (octet c) (octet-lt c)))

  pub decode-octet : (c : SecurityControl) → decode (octet c) ≡ ok c
  unfolding decode
  decode-octet c = rw (
    level_bits (octet c),
    low_part c,
    Level.from_bits-to_bits,
    mode_bits (octet c),
    high_part c,
    KeyMode.from_bits-to_bits,
  )

  -- What `try_write` puts on the air is read back, whatever follows it.
  pub read-Reads :
      (c : SecurityControl) (rest : List ℕ) → Reads (b.read_with try_read) (encoding c) rest c
  unfolding try_read
  read-Reads c rest = Reads-read (
      Reads-start {encoding = encoding c}
        (Reads-decode decode (Reads-u8 Endian.little (octet c) rest (octet-lt c)) (decode-octet c)))

  pub write-Writes :
      (c : SecurityControl) → Writes (b.write_with (try_write c)) b.incomplete (encoding c)
  write-Writes c = Writes-write (try_write-Encodes c)

  decode-Returns : (bits : ℕ) → Returns (decode bits)
  unfolding decode Level.from_bits KeyMode.from_bits
  decode-Returns bits = ground arith

  pub read-Bounded : Bounded (b.read_with try_read)
  unfolding try_read
  read-Bounded = Bounded-read (
      Total-start (
        Bounded-bind _ (Bounded-int Width.u8 Endian.little)
          (λ bits. Bounded-lift (decode bits) (decode-Returns bits))))
