-- ===== src/Security/AuxHeader/RoundTrip.antt =====
-- What an auxiliary security header reads as once it has been written.
use rust_ieee.Base.{ℕ, ◌^◌, ◌<◌, ◌≡◌, List, ◌++◌, length}
use rust_ieee.Base.Octets.{Endian, octets, value, value-octets, length-octets}
use rust_ieee.Outcome.{ok}
use rust_ieee.ByteLib.{ByteLib, Width}
use rust_ieee.ByteLib.Laws.{Reads, Reads-bind, Reads-octets, Reads-map, Reads-read, Reads-start}
use rust_ieee.Security.AuxHeader.{AuxiliarySecurityHeader, IsKeyId}
use rust_ieee.Security.AuxHeader.KeyId.{read_key_identifier-Reads}
use rust_ieee.Security.AuxHeader.Codec.{set_mode, encoding, read_fields, try_read}
use rust_ieee.Security.Control.Codec as Control

-- The header as the receiver sees it: the mode that fits the key identifier, and the counter that
-- the octets of the host's byte order stand for when they are read in little endian.
abbrev pub received : Endian → ℕ → AuxiliarySecurityHeader → AuxiliarySecurityHeader
received host counter a = record {
  control = set_mode a;
  frame_counter = value Endian.little (octets host 4 counter);
  key_identifier = a.key_identifier;
}

-- On a little-endian host the counter arrives as it was sent.
pub received_little :
    (counter : ℕ) (a : AuxiliarySecurityHeader)
    → counter < 2 ^ 32
    → received Endian.little counter a
      ≡ record { control = set_mode a; frame_counter = counter; key_identifier = a.key_identifier }
received_little counter a h = rw (value-octets Endian.little 4 counter h)

module _ ⦃b : ByteLib⦄ where
  read_fields-Reads :
      (a : AuxiliarySecurityHeader) (counter : ℕ) (rest : List ℕ)
      → IsKeyId a.key_identifier
      → Reads read_fields (encoding b.native counter a) rest (received b.native counter a)
  unfolding read_fields
  read_fields-Reads a counter rest h = Reads-bind _ (Control.read-Reads (set_mode a) _) (
      Reads-bind _
        (Reads-octets Width.u32 Endian.little (octets b.native 4 counter) _
          (length-octets b.native 4 counter))
        (Reads-map _ (read_key_identifier-Reads a.key_identifier rest h)))

  -- What `try_write` puts on the air is read as `received`, whatever follows it.
  pub aux_header_round_trip :
      (a : AuxiliarySecurityHeader) (counter : ℕ) (rest : List ℕ)
      → IsKeyId a.key_identifier
      → try_read (encoding b.native counter a ++ rest)
        ≡ ok (received b.native counter a, length (encoding b.native counter a))
  unfolding try_read
  aux_header_round_trip a counter rest h = Reads-start (read_fields-Reads a counter rest h)

  pub read-Reads :
      (a : AuxiliarySecurityHeader) (counter : ℕ) (rest : List ℕ)
      → IsKeyId a.key_identifier
      → Reads
          (b.read_with try_read)
          (encoding b.native counter a)
          rest
          (received b.native counter a)
  read-Reads a counter rest h = Reads-read (aux_header_round_trip a counter rest h)
