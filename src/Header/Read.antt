-- ===== src/Header/Read.antt =====
-- `TryRead` of `Header`, src/mac/frame/header.rs.
use rust_ieee.Base.{
  length, ℕ, ◌≡◌, Bool, true, false, ◌&&◌, not, Option, none, some, List, if◌then◌else◌, Bool-cases,
  inl, inr,
}
use rust_ieee.Base.Octets.{Endian}
use rust_ieee.Outcome.{Outcome, ok, err, Reader, ◌>>=◌, pure, lift, from_zero}
use rust_ieee.ByteLib.{ByteLib, Width}
use rust_ieee.ByteLib.Laws.{read_int, check_rest}
use rust_ieee.ByteLib.Bounds.{
  EndsWithin, Bounded, Bounded-bind, Bounded-check_rest, Bounded-int, Bounded-lift, Bounded-pure,
  Bounded-read, Total, Total-start,
}
use rust_ieee.Address.{Address, AddressMode}
use rust_ieee.Address.Codec.{read_full, read_compressed, read_full-Bounded, read_compressed-Bounded}
use rust_ieee.FrameControl.{FrameControl, decode}
use rust_ieee.FrameControl.Word.{decode-Returns}
use rust_ieee.Security.AuxHeader.{AuxiliarySecurityHeader}
use rust_ieee.Security.AuxHeader.Codec as AuxHeader
use rust_ieee.Header.{Header, is_some}

module _ ⦃b : ByteLib⦄ where
  -- With compression a destination must be there.
  abbrev pub check_destination : Bool → Option Address → Outcome b.Error (Option Address)
  check_destination compress destination =
      if compress && not (is_some destination)
      then err (b.bad_input "InvalidAddressMode")
      else ok destination

  abbrev pub read_source : Bool → AddressMode → Option Address → Reader b.Error (Option Address)
  read_source true mode destination = read_compressed mode destination
  read_source false mode destination = read_full mode

  abbrev pub read_security : Bool → Reader b.Error (Option AuxiliarySecurityHeader)
  read_security true = do header ← b.read_with AuxHeader.try_read; pure (some header)
  read_security false = pure none

  abbrev pub read_source_and_security : FrameControl → ℕ → Option Address → Reader b.Error Header
  read_source_and_security c seq destination = do
    source ← read_source c.pan_id_compress c.src_addr_mode destination
    security ← read_security c.security
    pure (record {
      frame_type = c.frame_type;
      frame_pending = c.frame_pending;
      ack_request = c.ack_request;
      pan_id_compress = c.pan_id_compress;
      version = c.version;
      seq = seq;
      destination = destination;
      source = source;
      auxiliary_security_header = security;
    })

  abbrev pub read_addresses : FrameControl → ℕ → Reader b.Error Header
  read_addresses c seq = do
    destination ← read_full c.dest_addr_mode
    checked ← lift (check_destination c.pan_id_compress destination)
    read_source_and_security c seq checked

  unfoldable pub read_fields : Reader b.Error Header
  read_fields = do
    enough ← check_rest 3
    bits ← read_int Width.u16 Endian.little
    c ← lift (decode bits)
    seq ← read_int Width.u8 b.native
    read_addresses c seq

  unfoldable pub try_read : List ℕ → Outcome b.Error (Header × ℕ)
  unfolding read_fields
  try_read = from_zero read_fields

  read_security-Bounded : (s : Bool) → Bounded (read_security s)
  read_security-Bounded true = Bounded-bind _ AuxHeader.read-Bounded (λ a. Bounded-pure (some a))
  read_security-Bounded false = Bounded-pure none

  read_source-Bounded :
      (compress : Bool) (mode : AddressMode) (destination : Option Address)
      → (compress && not (is_some destination)) ≡ false
      → Bounded (read_source compress mode destination)
  read_source-Bounded true mode none h = cc
  read_source-Bounded true mode (some d) h = read_compressed-Bounded mode d
  read_source-Bounded false mode destination h = read_full-Bounded mode

  read_source_and_security-Bounded :
      (c : FrameControl) (seq : ℕ) (destination : Option Address)
      → (c.pan_id_compress && not (is_some destination)) ≡ false
      → Bounded (read_source_and_security c seq destination)
  read_source_and_security-Bounded c seq destination h =
      Bounded-bind _ (read_source-Bounded c.pan_id_compress c.src_addr_mode destination h)
        (λ source. Bounded-bind _ (read_security-Bounded c.security) (λ s. Bounded-pure _))

  -- Behind the test the `unwrap` of the destination does not panic.
  read_checked-Bounded :
      (c : FrameControl) (seq : ℕ) (destination : Option Address)
      → Bounded (
          lift (check_destination c.pan_id_compress destination) >>= read_source_and_security c seq)
  read_checked-Bounded c seq destination =
      elim (Bool-cases (c.pan_id_compress && not (is_some destination))) [
        | inl refused ↦ record { ends = λ bytes offset room. rw refused tt }
        | inr passed ↦ record {
          ends = λ bytes offset room.
              rw passed (
                (read_source_and_security-Bounded c seq destination passed).ends bytes offset room);
        }
      ]

  read_fields-Bounded : Bounded read_fields
  unfolding read_fields
  read_fields-Bounded = Bounded-bind _ (Bounded-check_rest 3) (λ enough.
      Bounded-bind _ (Bounded-int Width.u16 Endian.little) (λ bits.
        Bounded-bind _ (Bounded-lift (decode bits) (decode-Returns bits)) (λ c.
          Bounded-bind _ (Bounded-int Width.u8 b.native) (λ seq.
            Bounded-bind _ (read_full-Bounded c.dest_addr_mode)
              (λ destination. read_checked-Bounded c seq destination)))))

  pub try_read-Total : Total try_read
  unfolding try_read
  try_read-Total = Total-start read_fields-Bounded

  pub read-Bounded : Bounded (b.read_with try_read)
  read-Bounded = Bounded-read try_read-Total

  -- On any slice `try_read` returns a header or an error and does not panic; the octets that it
  -- says it took are at most those of the slice.
  pub header_ends : (bytes : List ℕ) → EndsWithin 0 (length bytes) (try_read bytes)
  header_ends bytes = try_read-Total.ends bytes
