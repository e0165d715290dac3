-- ===== src/Security/AuxHeader/KeyId.antt =====
-- `KeyIdentifier`: how it is written, and how `AuxiliarySecurityHeader` reads it,
-- src/mac/frame/security/auxiliary_security_header.rs.
use rust_ieee.Base.{
  ℕ, ◌<◌, ◌≡◌, refl, arith, Option, none, some, List, [], ◌∷◌, ◌++◌, length, length-append,
}
use rust_ieee.Base.Octets.{Endian, octets, length-octets}
use rust_ieee.Outcome.{Outcome, Reader, Writer, ◌>>=◌, ◌⨾◌, pure, skip, from_zero}
use rust_ieee.ByteLib.{ByteLib, Width}
use rust_ieee.ByteLib.Laws.{
  read_int, write_int, Reads, Reads-bind, Reads-int, Reads-u8, Reads-map, Reads-pure, Encodes-start,
  Writes, Writes-int, Writes-skip, Writes-then, Writes-u8, Writes-write,
}
use rust_ieee.ByteLib.Bounds.{Bounded, Bounded-bind, Bounded-int, Bounded-pure}
use rust_ieee.Security.AuxHeader.{KeySource, KeyIdentifier, key_octet_size, IsSource, IsKeyId}
use rust_ieee.Security.Control.KeyMode.{KeyIdentifierMode}

-- The mode that `try_write` of the header puts into the control field.
abbrev pub source_mode : Option KeySource → KeyIdentifierMode
source_mode (some (KeySource.short _)) = KeyIdentifierMode.key_source4
source_mode (some (KeySource.long _)) = KeyIdentifierMode.key_source8
source_mode none = KeyIdentifierMode.key_index

abbrev pub mode_of : Option KeyIdentifier → KeyIdentifierMode
mode_of (some id) = source_mode id.key_source
mode_of none = KeyIdentifierMode.none

-- The key source is in the byte order of the host.
abbrev pub source_encoding : Endian → Option KeySource → List ℕ
source_encoding host (some (KeySource.short s)) = octets host 4 s
source_encoding host (some (KeySource.long s)) = octets host 8 s
source_encoding host none = []

abbrev pub encoding : Endian → Option KeyIdentifier → List ℕ
encoding host (some id) = source_encoding host id.key_source ++ (id.key_index ∷ [])
encoding host none = []

pub length-encoding :
    (host : Endian) (id : Option KeyIdentifier) → length (encoding host id) ≡ key_octet_size id
length-encoding host none = refl
length-encoding host (some id) = by_source id.key_source
  where
    by_source :
        (s : Option KeySource)
        → length (source_encoding host s ++ (id.key_index ∷ []))
          ≡ key_octet_size (some (record { key_source = s; key_index = id.key_index }))
    by_source none = refl
    by_source (some (KeySource.short s)) =
        omega (arith, length-append (octets host 4 s) (id.key_index ∷ []), length-octets host 4 s)
    by_source (some (KeySource.long s)) =
        omega (arith, length-append (octets host 8 s) (id.key_index ∷ []), length-octets host 8 s)

module _ ⦃b : ByteLib⦄ where
  abbrev pub write_source : Option KeySource → Writer b.Error
  write_source (some (KeySource.short s)) = write_int Width.u32 b.native s
  write_source (some (KeySource.long s)) = write_int Width.u64 b.native s
  write_source none = skip

  unfoldable pub try_write : KeyIdentifier → List ℕ → Outcome b.Error (List ℕ × ℕ)
  try_write id = from_zero (write_source id.key_source ⨾ write_int Width.u8 b.native id.key_index)

  -- The part of `AuxiliarySecurityHeader::try_read` behind the frame counter.
  unfoldable pub read_key_identifier : KeyIdentifierMode → Reader b.Error (Option KeyIdentifier)
  read_key_identifier KeyIdentifierMode.none = pure none
  read_key_identifier KeyIdentifierMode.key_index = do
    key_index ← read_int Width.u8 b.native
    pure (some (record { key_source = none; key_index = key_index }))
  read_key_identifier KeyIdentifierMode.key_source4 = do
    source ← read_int Width.u32 b.native
    key_index ← read_int Width.u8 b.native
    pure (some (record { key_source = some (KeySource.short source); key_index = key_index }))
  read_key_identifier KeyIdentifierMode.key_source8 = do
    source ← read_int Width.u64 b.native
    key_index ← read_int Width.u8 b.native
    pure (some (record { key_source = some (KeySource.long source); key_index = key_index }))

  write_source-Writes :
      (s : Option KeySource) → Writes (write_source s) b.incomplete (source_encoding b.native s)
  write_source-Writes none = Writes-skip
  write_source-Writes (some (KeySource.short s)) = Writes-int Width.u32 b.native s
  write_source-Writes (some (KeySource.long s)) = Writes-int Width.u64 b.native s

  pub write-Writes :
      (id : KeyIdentifier)
      → id.key_index < 256
      → Writes (b.write_with (try_write id)) b.incomplete (encoding b.native (some id))
  unfolding try_write
  write-Writes id h = Writes-write (
      Encodes-start
        (Writes-then (write_source-Writes id.key_source) (Writes-u8 b.native id.key_index h)))

  read_by_source :
      (s : Option KeySource) (i : ℕ) (rest : List ℕ)
      → IsSource s
      → i < 256
      → Reads
          (read_key_identifier (source_mode s))
          (source_encoding b.native s ++ (i ∷ []))
          rest
          (some (record { key_source = s; key_index = i }))
  unfolding read_key_identifier
  read_by_source none i rest h hi = Reads-map _ (Reads-u8 b.native i rest hi)
  read_by_source (some (KeySource.short s)) i rest h hi =
      Reads-bind _ (Reads-int Width.u32 b.native s _ h) (Reads-map _ (Reads-u8 b.native i rest hi))
  read_by_source (some (KeySource.long s)) i rest h hi =
      Reads-bind _ (Reads-int Width.u64 b.native s _ h) (Reads-map _ (Reads-u8 b.native i rest hi))

  pub read_key_identifier-Reads :
      (id : Option KeyIdentifier) (rest : List ℕ)
      → IsKeyId id
      → Reads (read_key_identifier (mode_of id)) (encoding b.native id) rest id
  read_key_identifier-Reads none rest h = unfold read_key_identifier in Reads-pure none rest
  read_key_identifier-Reads (some id) rest h =
      read_by_source id.key_source id.key_index rest h.0 h.1

  pub read_key_identifier-Bounded : (m : KeyIdentifierMode) → Bounded (read_key_identifier m)
  unfolding read_key_identifier
  read_key_identifier-Bounded KeyIdentifierMode.none = Bounded-pure none
  read_key_identifier-Bounded KeyIdentifierMode.key_index =
      Bounded-bind _ (Bounded-int Width.u8 b.native) (λ i. Bounded-pure _)
  read_key_identifier-Bounded KeyIdentifierMode.key_source4 =
      Bounded-bind _ (Bounded-int Width.u32 b.native)
        (λ s. Bounded-bind _ (Bounded-int Width.u8 b.native) (λ i. Bounded-pure _))
  read_key_identifier-Bounded KeyIdentifierMode.key_source8 =
      Bounded-bind _ (Bounded-int Width.u64 b.native)
        (λ s. Bounded-bind _ (Bounded-int Width.u8 b.native) (λ i. Bounded-pure _))
