-- ===== src/Header/Refuse.antt =====
-- How `TryWrite` of `Header` ends where it cannot write the header, src/mac/frame/header.rs.
use rust_ieee.Base.{
  ℕ, ◌+◌, ◌<◌, ◌≤◌, ◌≡◌, refl, arith, true, ◌||◌, not, Option, none, some, List, length,
}
use rust_ieee.Outcome.{err, panic}
use rust_ieee.Errors.{EncodeError, encode_error}
use rust_ieee.ByteLib.{ByteLib}
use rust_ieee.ByteLib.Laws.{Stops, Stops-here, Stops-start, Stops-then, Writes-u8}
use rust_ieee.Header.{Header, is_some}
use rust_ieee.Header.Write.{
  destination_encoding, source_encoding, write_source, write_security, try_write,
  write_frame_control-Writes, write_destination-Writes, write_source-Writes,
}
use rust_ieee.Security.Context.{SecurityContext}
use rust_ieee.Security.AuxHeader.{AuxiliarySecurityHeader}

module _ ⦃b : ByteLib⦄ where
  -- Where the source is to be compressed and there is none, `try_write` panics once the frame
  -- control field, the sequence number and the destination are written.
  pub try_write_panics :
      (h : Header) (context : Option SecurityContext) (buffer : List ℕ)
      → h.seq < 256
      → h.source ≡ none
      → h.pan_id_compress ≡ true
      → 3 + length (destination_encoding h.destination) ≤ length buffer
      → try_write h context buffer ≡ panic
  unfolding try_write
  try_write_panics h context buffer hseq no_source compress room =
      Stops-start buffer
        (Stops-then (write_frame_control-Writes h) (
          Stops-then (Writes-u8 b.native h.seq hseq)
            (Stops-then (write_destination-Writes h.destination) (Stops-here _ panics refl))))
        (omega arith)
    where
      panics : Stops (write_source h.source h.pan_id_compress) panic 0
      panics = record { ends = λ before after k. rw (no_source, compress) }

  -- Where the header has a security header and no context is given, `try_write` fails with
  -- `MissingSecurityCtx` once everything before the security header is written.
  pub try_write_misses_context :
      (h : Header) (a : AuxiliarySecurityHeader) (buffer : List ℕ)
      → h.seq < 256
      → (is_some h.source || not h.pan_id_compress) ≡ true
      → h.auxiliary_security_header ≡ some a
      → 3
          + length (destination_encoding h.destination)
          + length (source_encoding h.source h.pan_id_compress)
        ≤ length buffer
      → try_write h none buffer ≡ err (encode_error EncodeError.missing_security_ctx)
  unfolding try_write
  try_write_misses_context h a buffer hseq hsource e room =
      Stops-start buffer
        (Stops-then (write_frame_control-Writes h) (
          Stops-then (Writes-u8 b.native h.seq hseq) (
            Stops-then (write_destination-Writes h.destination)
              (Stops-then (write_source-Writes h.source h.pan_id_compress hsource) misses))))
        (omega arith)
    where
      misses :
          Stops
            (write_security h.auxiliary_security_header none)
            (err (encode_error EncodeError.missing_security_ctx))
            0
      misses = record { ends = λ before after k. rw e }
