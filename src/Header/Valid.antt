-- ===== src/Header/Valid.antt =====
-- What `TryRead` of `Header` returns on arbitrary octets, src/mac/frame/header.rs.
use rust_ieee.Base.{
  ℕ, ◌<◌, ◌≡◌, refl, arith, Bool, true, false, ◌&&◌, ◌||◌, not, Option, none, some, List, ◌++◌,
  length,
}
use rust_ieee.Base.Octets.{Endian}
use rust_ieee.Outcome.{ok}
use rust_ieee.ByteLib.{ByteLib, Width}
use rust_ieee.ByteLib.Yields.{
  AreOctets, OnValue, OnValue-any, OnOk-value, Yields, Gives, Gives-start, Yields-any, Yields-bind,
  Yields-check_rest, Yields-int, Yields-lift, Yields-pure, Yields-read, Yields-weaken,
}
use rust_ieee.Address.{Address, AddressMode, IsAddress, pan_id}
use rust_ieee.Address.PanId
use rust_ieee.Address.ShortAddress
use rust_ieee.Address.ExtendedAddress
use rust_ieee.Address.Codec.{read_full, read_compressed, unwrap_pan_id}
use rust_ieee.FrameControl.{FrameControl, decode}
use rust_ieee.Security.AuxHeader.{IsKeyId}
use rust_ieee.Security.AuxHeader.KeyId.{read_key_identifier}
use rust_ieee.Security.AuxHeader.Codec as AuxHeader
use rust_ieee.Security.Control.KeyMode.{KeyIdentifierMode}
use rust_ieee.Security.Control.Codec as Control
use rust_ieee.ByteLib.Laws.{read_int}
use rust_ieee.Header.Write.{encoding}
use rust_ieee.Header.RoundTrip.{received, header_round_trip}
use rust_ieee.Header.{Header, IsHeader, IsCompressible, IsAddressOrNone, IsSecurityHeader, is_some}
use rust_ieee.Header.Read.{
  check_destination, read_source, read_security, read_source_and_security, read_addresses,
  read_fields, try_read,
}

-- Compression is accepted where there is a destination, whose PAN is then that of a source; the
-- source may be missing.
abbrev pub IsAccepted : Bool → Option Address → Option Address → Type 0
IsAccepted false destination source = Unit
IsAccepted true (some d) (some s) = pan_id s ≡ pan_id d
IsAccepted true (some d) none = Unit
IsAccepted true none source = ⊥

-- The numbers fit their integers, and compression is as the reader accepts it.
pub record IsReadHeader (h : Header) : Type 0 where
  pub seq_fits : h.seq < 256
  pub destination_fits : IsAddressOrNone h.destination
  pub source_fits : IsAddressOrNone h.source
  pub security_fits : IsSecurityHeader h.auxiliary_security_header
  pub accepted : IsAccepted h.pan_id_compress h.destination h.source

module _ ⦃b : ByteLib⦄ where
  pub pan_id-Yields : Yields (b.read_with PanId.try_read) PanId.IsWord
  unfolding PanId.try_read
  pan_id-Yields =
      Yields-read
        (Gives-start (Yields-bind _ (Yields-int Width.u16 Endian.little) (λ v h. Yields-pure _ h)))

  pub short_address-Yields : Yields (b.read_with ShortAddress.try_read) ShortAddress.IsWord
  unfolding ShortAddress.try_read
  short_address-Yields =
      Yields-read
        (Gives-start (Yields-bind _ (Yields-int Width.u16 Endian.little) (λ v h. Yields-pure _ h)))

  pub extended_address-Yields : Yields (b.read_with ExtendedAddress.try_read) ExtendedAddress.IsWord
  unfolding ExtendedAddress.try_read
  extended_address-Yields =
      Yields-read
        (Gives-start (Yields-bind _ (Yields-int Width.u64 Endian.little) (λ v h. Yields-pure _ h)))

  read_full-Yields : (m : AddressMode) → Yields (read_full m) IsAddressOrNone
  unfolding read_full
  read_full-Yields AddressMode.none = Yields-pure none tt
  read_full-Yields AddressMode.short =
      Yields-bind _ pan_id-Yields
        (λ p hp. Yields-bind _ short_address-Yields (λ a ha. Yields-pure _ (hp, ha)))
  read_full-Yields AddressMode.extended =
      Yields-bind _ pan_id-Yields
        (λ p hp. Yields-bind _ extended_address-Yields (λ a ha. Yields-pure _ (hp, ha)))

  -- A source, by the destination.
  abbrev IsSource : Bool → Option Address → Option Address → Type 0
  IsSource compress destination source =
      IsAddressOrNone source × IsAccepted compress destination source

  pan_id_fits : (a : Address) → IsAddress a → PanId.IsWord (pan_id a)
  pan_id_fits (Address.short p a) h = h.0
  pan_id_fits (Address.extended p a) h = h.0

  read_compressed-Yields :
      (m : AddressMode) (d : Address)
      → IsAddress d
      → Yields (read_compressed m (some d)) (IsSource true (some d))
  unfolding read_compressed unwrap_pan_id
  read_compressed-Yields AddressMode.none d h = Yields-pure none (tt, tt)
  read_compressed-Yields AddressMode.short d h =
      Yields-bind _ (Yields-pure (pan_id d) refl) (λ (p : PanId.PanId) (e : p ≡ pan_id d).
        Yields-bind _ short_address-Yields
          (λ a ha. Yields-pure (some (Address.short p a)) ((rw e (pan_id_fits d h), ha), e)))
  read_compressed-Yields AddressMode.extended d h =
      Yields-bind _ (Yields-pure (pan_id d) refl) (λ (p : PanId.PanId) (e : p ≡ pan_id d).
        Yields-bind _ extended_address-Yields
          (λ a ha. Yields-pure (some (Address.extended p a)) ((rw e (pan_id_fits d h), ha), e)))

  -- Behind the test of the destination.
  abbrev IsChecked : Bool → Option Address → Type 0
  IsChecked compress destination =
      IsAddressOrNone destination × ((compress && not (is_some destination)) ≡ false)

  read_source-Yields :
      (compress : Bool) (m : AddressMode) (destination : Option Address)
      → IsChecked compress destination
      → Yields (read_source compress m destination) (IsSource compress destination)
  read_source-Yields true m none h = absurd (ground (arith, h))
  read_source-Yields true m (some d) h = read_compressed-Yields m d h.0
  read_source-Yields false m destination h = Yields-weaken (λ s hs. (hs, tt)) (read_full-Yields m)

  u8-Yields : (e : Endian) → Yields (read_int Width.u8 e) (λ v. v < 256)
  u8-Yields e = Yields-int Width.u8 e

  key_identifier-Yields : (m : KeyIdentifierMode) → Yields (read_key_identifier m) IsKeyId
  unfolding read_key_identifier
  key_identifier-Yields KeyIdentifierMode.none = Yields-pure none tt
  key_identifier-Yields KeyIdentifierMode.key_index =
      Yields-bind _ (u8-Yields b.native) (λ i hi. Yields-pure _ (tt, hi))
  key_identifier-Yields KeyIdentifierMode.key_source4 =
      Yields-bind _ (Yields-int Width.u32 b.native)
        (λ s hs. Yields-bind _ (u8-Yields b.native) (λ i hi. Yields-pure _ (hs, hi)))
  key_identifier-Yields KeyIdentifierMode.key_source8 =
      Yields-bind _ (Yields-int Width.u64 b.native)
        (λ s hs. Yields-bind _ (u8-Yields b.native) (λ i hi. Yields-pure _ (hs, hi)))

  aux_header-Yields : Yields (b.read_with AuxHeader.try_read) (λ a. IsKeyId a.key_identifier)
  unfolding AuxHeader.try_read AuxHeader.read_fields
  aux_header-Yields = Yields-read (
      Gives-start (
        Yields-bind _ (Yields-any Control.read-Bounded) (λ c hc.
          Yields-bind _ (Yields-int Width.u32 Endian.little) (λ n hn.
            Yields-bind _ (key_identifier-Yields c.key_id_mode) (λ i hi. Yields-pure _ hi)))))

  read_security-Yields : (s : Bool) → Yields (read_security s) IsSecurityHeader
  read_security-Yields true = Yields-bind _ aux_header-Yields (λ a h. Yields-pure (some a) h)
  read_security-Yields false = Yields-pure none tt

  source_and_security-Yields :
      (c : FrameControl) (seq : ℕ) (destination : Option Address)
      → seq < 256
      → IsChecked c.pan_id_compress destination
      → Yields (read_source_and_security c seq destination) IsReadHeader
  source_and_security-Yields c seq destination fits h =
      Yields-bind _ (read_source-Yields c.pan_id_compress c.src_addr_mode destination h)
        (λ source hs. Yields-bind _ (read_security-Yields c.security) (λ a ha.
          Yields-pure _ (record {
            seq_fits = fits;
            destination_fits = h.0;
            source_fits = hs.0;
            security_fits = ha;
            accepted = hs.1;
          })))

  check_destination-OnValue :
      (compress : Bool) (destination : Option Address)
      → IsAddressOrNone destination
      → OnValue (IsChecked compress) (check_destination compress destination)
  check_destination-OnValue true none h = tt
  check_destination-OnValue true (some d) h = (h, refl)
  check_destination-OnValue false destination h = (h, refl)

  read_addresses-Yields :
      (c : FrameControl) (seq : ℕ) → seq < 256 → Yields (read_addresses c seq) IsReadHeader
  read_addresses-Yields c seq fits =
      Yields-bind _ (read_full-Yields c.dest_addr_mode) (λ destination h.
        Yields-bind _
          (Yields-lift (check_destination c.pan_id_compress destination)
            (check_destination-OnValue c.pan_id_compress destination h))
          (λ checked h'. source_and_security-Yields c seq checked fits h'))

  read_fields-Yields : Yields read_fields IsReadHeader
  unfolding read_fields
  read_fields-Yields = Yields-bind _ (Yields-check_rest 3) (λ enough h.
      Yields-bind _ (Yields-int Width.u16 Endian.little) (λ bits h'.
        Yields-bind _ (Yields-lift (decode bits) (OnValue-any (decode bits))) (λ c hc.
          Yields-bind _ (u8-Yields b.native) (λ seq fits. read_addresses-Yields c seq fits))))

  pub header-Gives : Gives try_read IsReadHeader
  unfolding try_read
  header-Gives = Gives-start read_fields-Yields

  -- Where compression asks for a source that is there, what is read can be written.
  written_compress :
      (compress : Bool) (destination source : Option Address)
      → IsAccepted compress destination source
      → (is_some source || not compress) ≡ true
      → IsCompressible compress destination source
  written_compress false destination source h e = tt
  written_compress true none source h e = absurd h
  written_compress true (some d) none h e = absurd (ground (arith, e))
  written_compress true (some d) (some s) h e = h

  pub read-IsHeader :
      (h : Header)
      → IsReadHeader h
      → (is_some h.source || not h.pan_id_compress) ≡ true
      → IsHeader h
  read-IsHeader h v e = record {
    seq_fits = v.seq_fits;
    destination_fits = v.destination_fits;
    source_fits = v.source_fits;
    security_fits = v.security_fits;
    compressible = written_compress h.pan_id_compress h.destination h.source v.accepted e;
  }

  -- A header that is read from any octets, with a source where it asks to compress one, is valid:
  -- its numbers fit their integers, and with compression there is a destination whose PAN is that of
  -- the source. The octets that it has on the air with any counter are read again as the header with
  -- that counter, and exactly they are taken.
  pub header_is_read_again :
      (bytes : List ℕ) (h : Header) (n counter : ℕ) (rest : List ℕ)
      → AreOctets bytes
      → try_read bytes ≡ ok (h, n)
      → (is_some h.source || not h.pan_id_compress) ≡ true
      → IsHeader h
        × (try_read (encoding b.native counter h ++ rest)
            ≡ ok (received b.native counter h, length (encoding b.native counter h)))
  header_is_read_again bytes h n counter rest octets e source =
      let v =
        OnOk-value IsReadHeader (length bytes) (try_read bytes) h n
          (header-Gives.gives bytes octets) e in
      let valid = read-IsHeader h v source in (valid, header_round_trip h counter rest valid)
