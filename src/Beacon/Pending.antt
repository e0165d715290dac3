-- ===== src/Beacon/Pending.antt =====
-- `PendingAddress` of src/mac/beacon.rs. Its arrays of seven addresses are lists.
pub mod RoundTrip
use rust_ieee.Base.{
  ℕ, ◌+◌, ◌*◌, ◌%◌, ◌^◌, List, ◌++◌, bit_and, bit_or, take, drop, replicate, leb, if◌then◌else◌,
}
use rust_ieee.Base.Bits.{◌<<◌, ◌>>◌}
use rust_ieee.Outcome.{Outcome, panic, Reader, Writer, ◌>>=◌, ◌⨾◌, pure, from_zero}
use rust_ieee.ByteLib.{ByteLib, Width}
use rust_ieee.ByteLib.Laws.{read_int, write_int, check_rest}
use rust_ieee.ByteLib.Bounds.{
  Bounded, Bounded-bind, Bounded-check_rest, Bounded-int, Bounded-pure, Bounded-read, Total-start,
}
use rust_ieee.ByteLib.Loops.{read_many, read_many-Bounded, write_many}
use rust_ieee.Address.ShortAddress
use rust_ieee.Address.ShortAddress.{ShortAddress}
use rust_ieee.Address.ExtendedAddress
use rust_ieee.Address.ExtendedAddress.{ExtendedAddress}

pub record PendingAddress : Type 0 where
  pub short_address_count : ℕ
  pub short_addresses : List ShortAddress
  pub extended_address_count : ℕ
  pub extended_addresses : List ExtendedAddress

abbrev pub no_short : List ShortAddress
no_short = replicate 7 ShortAddress.broadcast

abbrev pub no_extended : List ExtendedAddress
no_extended = replicate 7 ExtendedAddress.broadcast

-- `PendingAddress::new`.
abbrev pub new : PendingAddress
new = record {
  short_address_count = 0;
  short_addresses = no_short;
  extended_address_count = 0;
  extended_addresses = no_extended;
}

-- The methods `short_addresses` and `extended_addresses`.
abbrev pub used_short : PendingAddress → List ShortAddress
used_short p = take p.short_address_count p.short_addresses

abbrev pub used_extended : PendingAddress → List ExtendedAddress
used_extended p = take p.extended_address_count p.extended_addresses

abbrev pub short_mask : ℕ
short_mask = 0x07

abbrev pub extended_mask : ℕ
extended_mask = 0x70

-- `it_s_magic`.
unfoldable pub header_byte : PendingAddress → ℕ
header_byte p =
    bit_or (bit_and ((p.extended_address_count % 2 ^ 8) << 4 % 2 ^ 8) extended_mask)
      (bit_and (p.short_address_count % 2 ^ 8) short_mask)

-- `mem::size_of` of the two newtypes.
abbrev pub short_size : ℕ
short_size = 2

abbrev pub extended_size : ℕ
extended_size = 8

abbrev pub short_count : ℕ → ℕ
short_count byte = bit_and byte short_mask

abbrev pub extended_count : ℕ → ℕ
extended_count byte = bit_and byte extended_mask >> 4

-- What `try_read` returns: the addresses that it read stand in front in the arrays.
unfoldable pub of_parts : ℕ → List ShortAddress → List ExtendedAddress → PendingAddress
of_parts byte short extended = record {
  short_address_count = short_count byte;
  short_addresses = short ++ drop (short_count byte) no_short;
  extended_address_count = extended_count byte;
  extended_addresses = extended ++ drop (extended_count byte) no_extended;
}

module _ ⦃b : ByteLib⦄ where
  abbrev pub write_short : ShortAddress → Writer b.Error
  write_short a = b.write_with (ShortAddress.try_write a)

  abbrev pub write_extended : ExtendedAddress → Writer b.Error
  write_extended a = b.write_with (ExtendedAddress.try_write a)

  abbrev pub write_panic : Writer b.Error
  write_panic bytes offset = panic

  -- The two assertions come first.
  unfoldable pub write_fields : PendingAddress → Writer b.Error
  write_fields p =
      if leb p.short_address_count 7
      then if leb p.extended_address_count 7
        then write_int Width.u8 b.native (header_byte p)
          ⨾ write_many write_short (used_short p)
          ⨾ write_many write_extended (used_extended p)
        else write_panic
      else write_panic

  unfoldable pub try_write : PendingAddress → List ℕ → Outcome b.Error (List ℕ × ℕ)
  unfolding write_fields
  try_write p = from_zero (write_fields p)

  unfoldable pub read_fields : Reader b.Error PendingAddress
  read_fields = do
    byte ← read_int Width.u8 b.native
    enough ← check_rest (short_count byte * short_size + extended_count byte * extended_size)
    short ← read_many (b.read_with ShortAddress.try_read) (short_count byte)
    extended ← read_many (b.read_with ExtendedAddress.try_read) (extended_count byte)
    pure (of_parts byte short extended)

  unfoldable pub try_read : List ℕ → Outcome b.Error (PendingAddress × ℕ)
  unfolding read_fields
  try_read = from_zero read_fields

  pub read-Bounded : Bounded (b.read_with try_read)
  unfolding try_read read_fields
  read-Bounded = Bounded-read (
      Total-start (
        Bounded-bind _ (Bounded-int Width.u8 b.native) (λ byte.
          Bounded-bind _ (Bounded-check_rest _) (λ enough.
            Bounded-bind _ (read_many-Bounded _ (short_count byte) ShortAddress.read-Bounded)
              (λ short.
                Bounded-bind _
                  (read_many-Bounded _ (extended_count byte) ExtendedAddress.read-Bounded)
                  (λ extended. Bounded-pure _))))))
