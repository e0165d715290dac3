-- ===== src/Header/Write.antt =====
-- `TryWrite` of `Header`, src/mac/frame/header.rs.
use rust_ieee.Base.{
  ℕ, ◌<◌, ◌≡◌, Bool, true, false, ◌&&◌, ◌||◌, not, Option, none, some, List, [], ◌∷◌, ◌++◌,
  if◌then◌else◌,
}
use rust_ieee.Base.Octets.{Endian, octets}
use mathlib.Core.Path.{subst}
use rust_ieee.Outcome.{Outcome, err, panic, Writer, ◌⨾◌, skip, from_zero}
use rust_ieee.Errors.{EncodeError, encode_error}
use rust_ieee.ByteLib.{ByteLib, Width}
use rust_ieee.ByteLib.Laws.{
  put, Encodes-put, write_int, Writes, Writes-int, Writes-skip, Writes-then, Writes-u8,
  Writes-write, Encodes, Encodes-start,
}
use rust_ieee.Address.{Address, AddressEncoding}
use rust_ieee.Address.Codec as Address
use rust_ieee.FrameControl.{frame_control_raw}
use rust_ieee.FrameControl.Word.{word, frame_control_raw-eq-word}
use rust_ieee.Security.AuxHeader.{AuxiliarySecurityHeader}
use rust_ieee.Security.AuxHeader.Codec as AuxHeader
use rust_ieee.Security.Context.{SecurityContext}
use rust_ieee.Header.{Header, is_some, frame_control, IsSecurityHeader}

abbrev pub destination_encoding : Option Address → List ℕ
destination_encoding none = []
destination_encoding (some a) = Address.encoding AddressEncoding.normal a

abbrev pub source_encoding : Option Address → Bool → List ℕ
source_encoding none compress = []
source_encoding (some a) true = Address.encoding AddressEncoding.compressed a
source_encoding (some a) false = Address.encoding AddressEncoding.normal a

abbrev pub security_encoding : Endian → ℕ → Option AuxiliarySecurityHeader → List ℕ
security_encoding host counter none = []
security_encoding host counter (some a) = AuxHeader.encoding host counter a

-- The octets of a header on the air: the frame control field, the sequence number, the addresses
-- and the auxiliary security header, with `counter` for its frame counter.
abbrev pub encoding : Endian → ℕ → Header → List ℕ
encoding host counter h =
    octets Endian.little 2 (word (frame_control h))
    ++ ((h.seq ∷ [])
        ++ (destination_encoding h.destination
            ++ (source_encoding h.source h.pan_id_compress
                ++ security_encoding host counter h.auxiliary_security_header)))

-- The frame counter of the context; without one no counter is written.
abbrev pub counter_of : Option SecurityContext → ℕ
counter_of none = 0
counter_of (some c) = c.frame_counter

-- `try_write` of `h` reaches no panic and misses no context.
abbrev pub IsWritable : Header → Option SecurityContext → Type 0
IsWritable h context =
    ((is_some h.source || not h.pan_id_compress) ≡ true)
    × ((is_some context || not (is_some h.auxiliary_security_header)) ≡ true)

module _ ⦃b : ByteLib⦄ where
  abbrev pub write_destination : Option Address → Writer b.Error
  write_destination none = skip
  write_destination (some a) = b.write_with (Address.try_write a AddressEncoding.normal)

  abbrev pub write_panic : Writer b.Error
  write_panic bytes offset = panic

  -- The last case panics: "frame control request compress source address without contain this
  -- address".
  abbrev pub write_source : Option Address → Bool → Writer b.Error
  write_source (some a) true = b.write_with (Address.try_write a AddressEncoding.compressed)
  write_source (some a) false = b.write_with (Address.try_write a AddressEncoding.normal)
  write_source none false = skip
  write_source none true = write_panic

  abbrev fail : EncodeError → Writer b.Error
  fail e bytes offset = err (encode_error e)

  abbrev write_with_context :
      Option AuxiliarySecurityHeader → Option SecurityContext → Writer b.Error
  write_with_context (some a) (some c) = b.write_with (AuxHeader.try_write a c)
  write_with_context (some a) none = fail EncodeError.unknown_error
  write_with_context none context = fail EncodeError.unknown_error

  abbrev pub write_security :
      Option AuxiliarySecurityHeader → Option SecurityContext → Writer b.Error
  write_security header context =
      if is_some header && not (is_some context)
      then fail EncodeError.missing_security_ctx
      else if is_some header
      then write_with_context header context
      else skip

  unfoldable pub write_fields : Header → Option SecurityContext → Writer b.Error
  write_fields h context =
      write_int Width.u16 Endian.little (frame_control_raw (frame_control h))
      ⨾ write_int Width.u8 b.native h.seq
      ⨾ write_destination h.destination
      ⨾ write_source h.source h.pan_id_compress
      ⨾ write_security h.auxiliary_security_header context

  unfoldable pub try_write : Header → Option SecurityContext → List ℕ → Outcome b.Error (List ℕ × ℕ)
  unfolding write_fields
  try_write h context = from_zero (write_fields h context)

  pub write_frame_control-Writes :
      (h : Header)
      → Writes
          (write_int Width.u16 Endian.little (frame_control_raw (frame_control h)))
          b.incomplete
          (octets Endian.little 2 (word (frame_control h)))
  write_frame_control-Writes h =
      subst
        (λ (n : ℕ).
          Writes (write_int Width.u16 Endian.little (frame_control_raw (frame_control h)))
            b.incomplete (octets Endian.little 2 n))
        (frame_control_raw-eq-word (frame_control h))
        (Writes-int Width.u16 Endian.little (frame_control_raw (frame_control h)))

  pub write_destination-Writes :
      (a : Option Address) → Writes (write_destination a) b.incomplete (destination_encoding a)
  write_destination-Writes none = Writes-skip
  write_destination-Writes (some a) =
      Writes-write (Address.try_write-Encodes a AddressEncoding.normal)

  pub write_source-Writes :
      (a : Option Address) (compress : Bool)
      → (is_some a || not compress) ≡ true
      → Writes (write_source a compress) b.incomplete (source_encoding a compress)
  write_source-Writes none true h = cc
  write_source-Writes none false h = Writes-skip
  write_source-Writes (some a) true h =
      Writes-write (Address.try_write-Encodes a AddressEncoding.compressed)
  write_source-Writes (some a) false h =
      Writes-write (Address.try_write-Encodes a AddressEncoding.normal)

  write_security-Writes :
      (a : Option AuxiliarySecurityHeader) (context : Option SecurityContext)
      → IsSecurityHeader a
      → (is_some context || not (is_some a)) ≡ true
      → Writes
          (write_security a context)
          b.incomplete
          (security_encoding b.native (counter_of context) a)
  write_security-Writes none none k h = Writes-skip
  write_security-Writes none (some c) k h = Writes-skip
  write_security-Writes (some a) none k h = cc
  write_security-Writes (some a) (some c) k h = Writes-write (AuxHeader.try_write-Encodes a c k)

  pub try_write-Encodes :
      (h : Header) (context : Option SecurityContext)
      → h.seq < 256
      → IsSecurityHeader h.auxiliary_security_header
      → IsWritable h context
      → Encodes (try_write h context) b.incomplete (encoding b.native (counter_of context) h)
  unfolding try_write
  try_write-Encodes h context hseq hsec hw = Encodes-start (
      Writes-then (write_frame_control-Writes h) (
        Writes-then (Writes-u8 b.native h.seq hseq) (
          Writes-then (write_destination-Writes h.destination) (
            Writes-then (write_source-Writes h.source h.pan_id_compress hw.0)
              (write_security-Writes h.auxiliary_security_header context hsec hw.1)))))

  -- Where a source is there if it is to be compressed, and a context if there is a security
  -- header, and the sequence number and the key source fit, `try_write` puts the encoding of the
  -- header at the head of a buffer that has room for it and changes nothing else in it; in a
  -- buffer that is too short it fails with `Incomplete`.
  pub header_is_put :
      (h : Header) (context : Option SecurityContext) (buffer : List ℕ)
      → h.seq < 256
      → IsSecurityHeader h.auxiliary_security_header
      → IsWritable h context
      → try_write h context buffer
        ≡ put b.incomplete (encoding b.native (counter_of context) h) buffer
  header_is_put h context buffer hseq hsec hw =
      Encodes-put (try_write-Encodes h context hseq hsec hw) buffer
