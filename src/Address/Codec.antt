-- ===== src/Address/Codec.antt =====
-- `TryWrite` of an `Address`, and the address part of `TryRead` of a `Header`,
-- src/mac/frame/header.rs.
use rust_ieee.Base.{ℕ, ◌≡◌, Option, none, some, List, ◌++◌}
use rust_ieee.Outcome.{Outcome, panic, Reader, Writer, ◌>>=◌, ◌⨾◌, pure, lift, from_zero}
use rust_ieee.ByteLib.{ByteLib}
use rust_ieee.ByteLib.Laws.{Reads, Reads-bind, Reads-map, Encodes, Encodes-start, Writes-then}
use rust_ieee.ByteLib.Bounds.{Bounded, Bounded-bind, Bounded-pure}
use rust_ieee.Address.{Address, AddressMode, AddressEncoding, IsAddress, pan_id}
use rust_ieee.Address.PanId
use rust_ieee.Address.PanId.{PanId}
use rust_ieee.Address.ShortAddress
use rust_ieee.Address.ExtendedAddress
use rust_ieee.Address.Mode.{of_address}

-- The octets of an address on the air.
abbrev pub encoding : AddressEncoding → Address → List ℕ
encoding AddressEncoding.normal (Address.short pan a) =
    PanId.encoding pan ++ ShortAddress.encoding a
encoding AddressEncoding.compressed (Address.short pan a) = ShortAddress.encoding a
encoding AddressEncoding.normal (Address.extended pan a) =
    PanId.encoding pan ++ ExtendedAddress.encoding a
encoding AddressEncoding.compressed (Address.extended pan a) = ExtendedAddress.encoding a

module _ ⦃b : ByteLib⦄ where
  write_fields : Address → AddressEncoding → Writer b.Error
  write_fields (Address.short pan a) AddressEncoding.normal =
      b.write_with (PanId.try_write pan) ⨾ b.write_with (ShortAddress.try_write a)
  write_fields (Address.short pan a) AddressEncoding.compressed =
      b.write_with (ShortAddress.try_write a)
  write_fields (Address.extended pan a) AddressEncoding.normal =
      b.write_with (PanId.try_write pan) ⨾ b.write_with (ExtendedAddress.try_write a)
  write_fields (Address.extended pan a) AddressEncoding.compressed =
      b.write_with (ExtendedAddress.try_write a)

  unfoldable pub try_write : Address → AddressEncoding → List ℕ → Outcome b.Error (List ℕ × ℕ)
  unfolding write_fields
  try_write a enc = from_zero (write_fields a enc)

  -- An address with its PAN identifier in front, as the mode says.
  unfoldable pub read_full : AddressMode → Reader b.Error (Option Address)
  read_full AddressMode.none = pure none
  read_full AddressMode.short = do
    pan ← b.read_with PanId.try_read
    a ← b.read_with ShortAddress.try_read
    pure (some (Address.short pan a))
  read_full AddressMode.extended = do
    pan ← b.read_with PanId.try_read
    a ← b.read_with ExtendedAddress.try_read
    pure (some (Address.extended pan a))

  -- `destination.unwrap().pan_id()`.
  unfoldable pub unwrap_pan_id : Option Address → Reader b.Error PanId
  unwrap_pan_id none = lift panic
  unwrap_pan_id (some a) = pure (pan_id a)

  -- An address without its PAN identifier, which is taken from the destination.
  unfoldable pub read_compressed : AddressMode → Option Address → Reader b.Error (Option Address)
  read_compressed AddressMode.none destination = pure none
  read_compressed AddressMode.short destination = do
    pan ← unwrap_pan_id destination
    a ← b.read_with ShortAddress.try_read
    pure (some (Address.short pan a))
  read_compressed AddressMode.extended destination = do
    pan ← unwrap_pan_id destination
    a ← b.read_with ExtendedAddress.try_read
    pure (some (Address.extended pan a))

  pub try_write-Encodes :
      (a : Address) (enc : AddressEncoding)
      → Encodes (try_write a enc) b.incomplete (encoding enc a)
  unfolding try_write
  try_write-Encodes (Address.short pan a) AddressEncoding.normal =
      Encodes-start (Writes-then (PanId.write-Writes pan) (ShortAddress.write-Writes a))
  try_write-Encodes (Address.short pan a) AddressEncoding.compressed =
      Encodes-start (ShortAddress.write-Writes a)
  try_write-Encodes (Address.extended pan a) AddressEncoding.normal =
      Encodes-start (Writes-then (PanId.write-Writes pan) (ExtendedAddress.write-Writes a))
  try_write-Encodes (Address.extended pan a) AddressEncoding.compressed =
      Encodes-start (ExtendedAddress.write-Writes a)

  pub read_full-Reads :
      (a : Address) (rest : List ℕ)
      → IsAddress a
      → Reads (read_full (of_address a)) (encoding AddressEncoding.normal a) rest (some a)
  unfolding read_full
  read_full-Reads (Address.short pan a) rest h =
      Reads-bind _ (PanId.read-Reads pan _ h.0) (Reads-map _ (ShortAddress.read-Reads a rest h.1))
  read_full-Reads (Address.extended pan a) rest h =
      Reads-bind _ (PanId.read-Reads pan _ h.0)
        (Reads-map _ (ExtendedAddress.read-Reads a rest h.1))

  -- The PAN identifier comes from the destination, so it is read back only if the two agree.
  pub read_compressed-Reads :
      (a destination : Address) (rest : List ℕ)
      → IsAddress a
      → pan_id a ≡ pan_id destination
      → Reads
          (read_compressed (of_address a) (some destination))
          (encoding AddressEncoding.compressed a)
          rest
          (some a)
  unfolding read_compressed unwrap_pan_id
  read_compressed-Reads (Address.short pan a) destination rest h e =
      rw (← e) (Reads-map _ (ShortAddress.read-Reads a rest h.1))
  read_compressed-Reads (Address.extended pan a) destination rest h e =
      rw (← e) (Reads-map _ (ExtendedAddress.read-Reads a rest h.1))

  pub read_full-Bounded : (m : AddressMode) → Bounded (read_full m)
  unfolding read_full
  read_full-Bounded AddressMode.none = Bounded-pure none
  read_full-Bounded AddressMode.short =
      Bounded-bind _ PanId.read-Bounded
        (λ pan. Bounded-bind _ ShortAddress.read-Bounded (λ a. Bounded-pure _))
  read_full-Bounded AddressMode.extended =
      Bounded-bind _ PanId.read-Bounded
        (λ pan. Bounded-bind _ ExtendedAddress.read-Bounded (λ a. Bounded-pure _))

  -- With a destination the `unwrap` does not panic.
  pub read_compressed-Bounded :
      (m : AddressMode) (destination : Address) → Bounded (read_compressed m (some destination))
  unfolding read_compressed unwrap_pan_id
  read_compressed-Bounded AddressMode.none destination = Bounded-pure none
  read_compressed-Bounded AddressMode.short destination =
      Bounded-bind _ (Bounded-pure (pan_id destination)) (λ pan.
        Bounded-bind _ ShortAddress.read-Bounded (λ a. Bounded-pure (some (Address.short pan a))))
  read_compressed-Bounded AddressMode.extended destination =
      Bounded-bind _ (Bounded-pure (pan_id destination)) (λ pan.
        Bounded-bind _ ExtendedAddress.read-Bounded
          (λ a. Bounded-pure (some (Address.extended pan a))))
