-- ===== src/Header/Returning.antt =====
-- Where `TryWrite` of `Header` panics on a header that `TryRead` returned,
-- src/mac/frame/header.rs.
use mathlib.Core.Logic.{◌↔◌}
use mathlib.Core.Path.{subst}
use rust_ieee.Base.{
  ℕ, ◌+◌, ◌≤◌, ◌≡◌, refl, arith, Bool, true, false, ◌||◌, not, Option, none, some, List, length,
  Bool-cases, inl, inr,
}
use rust_ieee.Outcome.{ok, panic}
use rust_ieee.ByteLib.{ByteLib}
use rust_ieee.ByteLib.Laws.{Writes-u8, Writes-write}
use rust_ieee.ByteLib.Bounds.{Returns}
use rust_ieee.ByteLib.Yields.{AreOctets, OnOk-value}
use rust_ieee.ByteLib.Confined.{
  Within, Within-Returns, Confined, Confined-skip, Confined-then, Confined-Writes,
}
use rust_ieee.Address.{Address}
use rust_ieee.Security.AuxHeader.{AuxiliarySecurityHeader}
use rust_ieee.Security.AuxHeader.Codec as AuxHeader
use rust_ieee.Security.Context.{SecurityContext}
use rust_ieee.Header.{Header, IsHeader, IsSecurityHeader, is_some}
use rust_ieee.Header.Read.{try_read}
use rust_ieee.Header.Write.{
  destination_encoding, write_security, write_fields, try_write, write_frame_control-Writes,
  write_destination-Writes, write_source-Writes,
}
use rust_ieee.Header.RoundTrip.{source_is_there}
use rust_ieee.Header.Refuse.{try_write_panics}
use rust_ieee.Header.Valid.{IsReadHeader, header-Gives, read-IsHeader}

missing :
    (source : Option Address) (compress : Bool)
    → (is_some source || not compress) ≡ false
    → (compress ≡ true) × (source ≡ none)
missing none true e = (refl, refl)
missing none false e = absurd (ground (arith, e))
missing (some a) compress e = absurd (ground (arith, e))

module _ ⦃b : ByteLib⦄ where
  write_security-Confined :
      (a : Option AuxiliarySecurityHeader) (context : Option SecurityContext)
      → IsSecurityHeader a
      → Confined (write_security a context)
  write_security-Confined none none h = Confined-skip
  write_security-Confined none (some c) h = Confined-skip
  write_security-Confined (some a) none h = record { ends = λ bytes offset room. tt }
  write_security-Confined (some a) (some c) h =
      Confined-Writes (Writes-write (AuxHeader.try_write-Encodes a c h))

  -- A valid header is written, or an error is returned.
  pub header-Within :
      (h : Header) (context : Option SecurityContext)
      → IsHeader h
      → (buffer : List ℕ) → Within (try_write h context buffer)
  unfolding try_write write_fields
  header-Within h context v buffer =
      let there = source_is_there h.pan_id_compress h.destination h.source v.compressible in
      let fields = Confined-then (Confined-Writes (write_frame_control-Writes h)) (
        Confined-then (Confined-Writes (Writes-u8 b.native h.seq v.seq_fits)) (
          Confined-then (Confined-Writes (write_destination-Writes h.destination)) (
            Confined-then (Confined-Writes (write_source-Writes h.source h.pan_id_compress there))
              (write_security-Confined h.auxiliary_security_header context v.security_fits)))) in
      fields.ends buffer 0 (omega arith)

  -- For a header that is read from any octets, and a buffer with room for what the header has before
  -- its source: writing it, with a security context or without, panics exactly where it asks to
  -- compress a source and has none.
  pub rewriting_panics_iff :
      (bytes : List ℕ) (h : Header) (n : ℕ) (context : Option SecurityContext) (buffer : List ℕ)
      → AreOctets bytes
      → try_read bytes ≡ ok (h, n)
      → 3 + length (destination_encoding h.destination) ≤ length buffer
      → (try_write h context buffer ≡ panic) ↔ ((h.pan_id_compress ≡ true) × (h.source ≡ none))
  rewriting_panics_iff bytes h n context buffer octets e room =
      let v =
        OnOk-value IsReadHeader (length bytes) (try_read bytes) h n
          (header-Gives.gives bytes octets) e in
      (
        λ panics. elim (Bool-cases (is_some h.source || not h.pan_id_compress)) [
          | inl there ↦ absurd (
              subst Returns panics (
                Within-Returns (try_write h context buffer)
                  (header-Within h context (read-IsHeader h v there) buffer)))
          | inr lacks ↦ missing h.source h.pan_id_compress lacks
        ],
        λ (compress, no_source).
            try_write_panics h context buffer v.seq_fits no_source compress room,
      )
