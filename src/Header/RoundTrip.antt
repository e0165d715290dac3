-- ===== src/Header/RoundTrip.antt =====
-- What a header reads as once it has been written.
use rust_ieee.Base.{
  ℕ, ◌≤◌, ◌≡◌, refl, arith, Bool, true, false, ◌||◌, not, Option, none, some, List, [], ◌++◌,
  length, drop,
}
use rust_ieee.Base.Octets.{Endian}
use rust_ieee.Outcome.{ok}
use rust_ieee.ByteLib.{ByteLib, Width}
use rust_ieee.ByteLib.Laws.{
  Reads, Reads-bind, Reads-check_rest, Reads-int, Reads-lift, Reads-map, Reads-pure, Reads-start,
  Reads-u8,
}
use rust_ieee.Address.{Address}
use rust_ieee.Address.Mode
use rust_ieee.Address.Codec.{read_full, read_full-Reads, read_compressed-Reads}
use rust_ieee.FrameControl.Word.{word, word-lt, decode-word}
use rust_ieee.Security.AuxHeader.{AuxiliarySecurityHeader}
use rust_ieee.Security.AuxHeader.RoundTrip as AuxHeader
use rust_ieee.Security.Context.{SecurityContext}
use rust_ieee.Header.{
  Header, IsHeader, IsCompressible, IsAddressOrNone, IsSecurityHeader, frame_control, is_some,
}
use rust_ieee.Header.Write.{
  encoding, destination_encoding, source_encoding, security_encoding, counter_of, try_write,
  try_write-Encodes,
}
use rust_ieee.Header.Read.{
  check_destination, read_source, read_security, read_source_and_security, read_addresses,
  read_fields, try_read,
}

abbrev pub received_security :
    Endian → ℕ → Option AuxiliarySecurityHeader → Option AuxiliarySecurityHeader
received_security host counter none = none
received_security host counter (some a) = some (AuxHeader.received host counter a)

-- The header as the receiver sees it: only the security header can differ.
abbrev pub received : Endian → ℕ → Header → Header
received host counter h = record h {
  auxiliary_security_header = received_security host counter h.auxiliary_security_header;
}

pub source_is_there :
    (compress : Bool) (destination source : Option Address)
    → IsCompressible compress destination source
    → (is_some source || not compress) ≡ true
source_is_there false destination none h = refl
source_is_there false destination (some s) h = refl
source_is_there true destination (some s) h = refl
source_is_there true none none h = absurd h
source_is_there true (some d) none h = absurd h

module _ ⦃b : ByteLib⦄ where
  read_destination-Reads :
      (a : Option Address) (rest : List ℕ)
      → IsAddressOrNone a
      → Reads (read_full (Mode.of_option a)) (destination_encoding a) rest a
  read_destination-Reads none rest h = unfold read_full in Reads-pure none rest
  read_destination-Reads (some (Address.short p a)) rest h =
      read_full-Reads (Address.short p a) rest h
  read_destination-Reads (some (Address.extended p a)) rest h =
      read_full-Reads (Address.extended p a) rest h

  read_source-Reads :
      (compress : Bool) (destination source : Option Address) (rest : List ℕ)
      → IsAddressOrNone source
      → IsCompressible compress destination source
      → Reads
          (read_source compress (Mode.of_option source) destination)
          (source_encoding source compress)
          rest
          source
  read_source-Reads false destination none rest h k = read_destination-Reads none rest h
  read_source-Reads false destination (some a) rest h k = read_destination-Reads (some a) rest h
  read_source-Reads true none none rest h k = absurd k
  read_source-Reads true none (some s) rest h k = absurd k
  read_source-Reads true (some d) none rest h k = absurd k
  read_source-Reads true (some d) (some (Address.short p a)) rest h k =
      read_compressed-Reads (Address.short p a) d rest h k
  read_source-Reads true (some d) (some (Address.extended p a)) rest h k =
      read_compressed-Reads (Address.extended p a) d rest h k

  read_security-Reads :
      (a : Option AuxiliarySecurityHeader) (counter : ℕ) (rest : List ℕ)
      → IsSecurityHeader a
      → Reads
          (read_security (is_some a))
          (security_encoding b.native counter a)
          rest
          (received_security b.native counter a)
  read_security-Reads none counter rest h = Reads-pure none rest
  read_security-Reads (some a) counter rest h = Reads-map _ (AuxHeader.read-Reads a counter rest h)

  checked :
      (compress : Bool) (destination source : Option Address)
      → IsCompressible compress destination source
      → check_destination compress destination ≡ ok destination
  checked false destination source h = refl
  checked true (some d) source h = refl
  checked true none none h = absurd h
  checked true none (some s) h = absurd h

  read_source_and_security-Reads :
      (h : Header) (counter : ℕ) (rest : List ℕ)
      → IsHeader h
      → Reads
          (read_source_and_security (frame_control h) h.seq h.destination)
          (source_encoding h.source h.pan_id_compress
            ++ security_encoding b.native counter h.auxiliary_security_header)
          rest
          (received b.native counter h)
  read_source_and_security-Reads h counter rest v =
      Reads-bind _
        (read_source-Reads h.pan_id_compress h.destination h.source _ v.source_fits v.compressible)
        (Reads-map _ (read_security-Reads h.auxiliary_security_header counter rest v.security_fits))

  read_addresses-Reads :
      (h : Header) (counter : ℕ) (rest : List ℕ)
      → IsHeader h
      → Reads
          (read_addresses (frame_control h) h.seq)
          (destination_encoding h.destination
            ++ (source_encoding h.source h.pan_id_compress
                ++ security_encoding b.native counter h.auxiliary_security_header))
          rest
          (received b.native counter h)
  read_addresses-Reads h counter rest v =
      Reads-bind _ (read_destination-Reads h.destination _ v.destination_fits) (
        Reads-bind _ {first = []}
          (Reads-lift _ (checked h.pan_id_compress h.destination h.source v.compressible))
          (read_source_and_security-Reads h counter rest v))

  read_fields-Reads :
      (h : Header) (counter : ℕ) (rest : List ℕ)
      → IsHeader h
      → Reads read_fields (encoding b.native counter h) rest (received b.native counter h)
  unfolding read_fields
  read_fields-Reads h counter rest v =
      Reads-bind _ {first = []}
        (Reads-check_rest 3 (encoding b.native counter h ++ rest) (omega arith))
        (Reads-bind _
          (Reads-int Width.u16 Endian.little (word (frame_control h)) _ (word-lt (frame_control h)))
          (Reads-bind _ {first = []} (Reads-lift _ (decode-word (frame_control h))) (
            Reads-bind _ (Reads-u8 b.native h.seq _ v.seq_fits)
              (read_addresses-Reads h counter rest v))))

  -- The octets of a valid header, with anything behind them, are read as the header as the
  -- receiver sees it, and exactly they are taken.
  pub header_round_trip :
      (h : Header) (counter : ℕ) (rest : List ℕ)
      → IsHeader h
      → try_read (encoding b.native counter h ++ rest)
        ≡ ok (received b.native counter h, length (encoding b.native counter h))
  unfolding try_read
  header_round_trip h counter rest v = Reads-start (read_fields-Reads h counter rest v)

  -- With room in the buffer a valid header with its context is written, and reading the buffer
  -- gives the header as the receiver sees it and the number of octets that were written.
  pub written_header_is_read :
      (h : Header) (context : Option SecurityContext) (buffer : List ℕ)
      → IsHeader h
      → (is_some context || not (is_some h.auxiliary_security_header)) ≡ true
      → length (encoding b.native (counter_of context) h) ≤ length buffer
      → (out : List ℕ) × (try_write h context buffer
          ≡ ok (out, length (encoding b.native (counter_of context) h)))
        × (try_read out
            ≡ ok (
              received b.native (counter_of context) h,
              length (encoding b.native (counter_of context) h),
            ))
  written_header_is_read h context buffer v has_context room =
      let octets' = encoding b.native (counter_of context) h in
      let rest = drop (length octets') buffer in
      (
        octets' ++ rest,
        (try_write-Encodes h context v.seq_fits v.security_fits (
          source_is_there h.pan_id_compress h.destination h.source v.compressible,
          has_context,
        )).fits
            buffer room,
        header_round_trip h (counter_of context) rest v,
      )
