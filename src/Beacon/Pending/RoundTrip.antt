-- ===== src/Beacon/Pending/RoundTrip.antt =====
-- Writing and reading `PendingAddress` of src/mac/beacon.rs.
use mathlib.Core.Path.{subst}
use rust_ieee.Base.{
  ℕ, ◌+◌, ◌*◌, ◌%◌, ◌^◌, ◌<◌, ◌≤◌, ◌≡◌, refl, sym, ◌∙◌, arith, List, [], ◌∷◌, ◌++◌, bit_and, length,
  length-append, drop, All, le→leb,
}
use rust_ieee.Base.Bits.{
  ◌<<◌, ◌>>◌, low_field, bit_field, bit_or_above, bit_or_comm, bit_and_shifted,
}
use rust_ieee.Base.Octets.{Endian, length-octets}
use rust_ieee.Outcome.{Reader}
use rust_ieee.ByteLib.{ByteLib}
use rust_ieee.ByteLib.Laws.{
  Reads, Reads-bind, Reads-check_rest, Reads-map, Reads-read, Reads-start, Reads-u8, Writes,
  Writes-then, Writes-u8, Writes-write, Encodes-start,
}
use rust_ieee.ByteLib.Loops.{
  read_many, read_many-Reads, write_many-Writes, encode_many, length-encode_many,
}
use rust_ieee.Address.ShortAddress
use rust_ieee.Address.ShortAddress.{ShortAddress}
use rust_ieee.Address.ExtendedAddress
use rust_ieee.Address.ExtendedAddress.{ExtendedAddress}
use rust_ieee.Beacon.Pending.{
  PendingAddress, no_short, no_extended, extended_mask, used_short, used_extended, short_count,
  extended_count, header_byte, of_parts, write_fields, try_write, read_fields, try_read,
}

-- There are at most seven addresses of each kind, which fit their integers, and the rest of each
-- array is the broadcast address.
pub record IsPending (p : PendingAddress) : Type 0 where
  pub short_fits : p.short_address_count ≤ 7
  pub extended_fits : p.extended_address_count ≤ 7
  pub all_short : length (used_short p) ≡ p.short_address_count
  pub all_extended : length (used_extended p) ≡ p.extended_address_count
  pub short_words : All ShortAddress.IsWord (used_short p)
  pub extended_words : All ExtendedAddress.IsWord (used_extended p)
  pub others_short : p.short_addresses ≡ used_short p ++ drop p.short_address_count no_short
  pub others_extended :
      p.extended_addresses ≡ used_extended p ++ drop p.extended_address_count no_extended

abbrev header_sum : PendingAddress → ℕ
header_sum p = p.short_address_count + 16 * p.extended_address_count

abbrev short_octets : PendingAddress → List ℕ
short_octets p = encode_many ShortAddress.encoding (used_short p)

abbrev extended_octets : PendingAddress → List ℕ
extended_octets p = encode_many ExtendedAddress.encoding (used_extended p)

abbrev pub encoding : PendingAddress → List ℕ
encoding p = (header_sum p ∷ []) ++ (short_octets p ++ extended_octets p)

header_sum-lt : (p : PendingAddress) → IsPending p → header_sum p < 256
header_sum-lt p v = omega (arith, v.short_fits, v.extended_fits)

short-sum : (p : PendingAddress) → IsPending p → short_count (header_sum p) ≡ p.short_address_count
short-sum p v = ground (arith, low_field 3 (header_sum p), v.short_fits)

extended-sum :
    (p : PendingAddress) → IsPending p → extended_count (header_sum p) ≡ p.extended_address_count
extended-sum p v = ground (arith, bit_field 4 3 (header_sum p), v.short_fits, v.extended_fits)

low_part :
    (p : PendingAddress)
    → IsPending p
    → p.short_address_count % 2 ^ 8 % 2 ^ 3 ≡ p.short_address_count
low_part p v = omega (arith, v.short_fits)

high_part :
    (p : PendingAddress)
    → IsPending p
    → bit_and ((p.extended_address_count % 2 ^ 8) << 4 % 2 ^ 8) extended_mask
      ≡ p.extended_address_count << 4
high_part p v =
    rw
      (
        bit_and_shifted 4 ((p.extended_address_count % 2 ^ 8) << 4 % 2 ^ 8) 7,
        low_field 3 (((p.extended_address_count % 2 ^ 8) << 4 % 2 ^ 8) >> 4),
      )
      (omega (arith, v.extended_fits))

-- The two masked counts do not meet.
header_byte-sum : (p : PendingAddress) → IsPending p → header_byte p ≡ header_sum p
unfolding header_byte
header_byte-sum p v =
    rw
      (
        high_part p v,
        low_field 3 (p.short_address_count % 2 ^ 8),
        low_part p v,
        bit_or_comm (p.extended_address_count << 4) p.short_address_count,
        bit_or_above 4 p.short_address_count p.extended_address_count (omega (arith, v.short_fits)),
      )
      (omega arith)

of_parts-sum :
    (p : PendingAddress)
    → IsPending p
    → of_parts (header_sum p) (used_short p) (used_extended p) ≡ p
unfolding of_parts
of_parts-sum p v = rw (short-sum p v, extended-sum p v, ← v.others_short, ← v.others_extended) refl

length-short : (a : ShortAddress) → length (ShortAddress.encoding a) ≡ 2
length-short a = length-octets Endian.little 2 a.value

length-extended : (a : ExtendedAddress) → length (ExtendedAddress.encoding a) ≡ 8
length-extended a = length-octets Endian.little 8 a.value

enough :
    (p : PendingAddress) (rest : List ℕ)
    → IsPending p
    → short_count (header_sum p) * 2 + extended_count (header_sum p) * 8
      ≤ length ((short_octets p ++ extended_octets p) ++ rest)
enough p rest v =
    rw (short-sum p v, extended-sum p v)
      (omega (
        arith,
        length-append (short_octets p ++ extended_octets p) rest,
        length-append (short_octets p) (extended_octets p),
        length-encode_many ShortAddress.encoding (used_short p) 2 length-short,
        length-encode_many ExtendedAddress.encoding (used_extended p) 8 length-extended,
        v.all_short,
        v.all_extended,
      ))

module _ ⦃b : ByteLib⦄ where
  pub write-Writes :
      (p : PendingAddress)
      → IsPending p
      → Writes (b.write_with (try_write p)) b.incomplete (encoding p)
  unfolding try_write write_fields
  write-Writes p v = Writes-write (
      Encodes-start {w = write_fields p} (
        rw
          (
            le→leb p.short_address_count 7 v.short_fits,
            le→leb p.extended_address_count 7 v.extended_fits,
            header_byte-sum p v,
          )
          (Writes-then (Writes-u8 b.native (header_sum p) (header_sum-lt p v)) (
            Writes-then
              (write_many-Writes ShortAddress.encoding ShortAddress.IsWord (used_short p)
                (λ a h. ShortAddress.write-Writes a) v.short_words)
              (write_many-Writes ExtendedAddress.encoding ExtendedAddress.IsWord (used_extended p)
                (λ a h. ExtendedAddress.write-Writes a) v.extended_words)))))

  -- `n` items are read back where `n` is how many there are.
  read_counted :
      {A : Type 0} (t : Reader b.Error A) (encode : A → List ℕ) (IsGood : A → Type 0)
      (items : List A) (n : ℕ) (rest : List ℕ)
      → ((a : A) (rest : List ℕ) → IsGood a → Reads t (encode a) rest a)
      → length items ≡ n
      → All IsGood items
      → Reads (read_many t n) (encode_many encode items) rest items
  read_counted t encode IsGood items n rest h e good =
      rw (← e) (read_many-Reads encode IsGood items rest h good)

  read_fields-Reads :
      (p : PendingAddress) (rest : List ℕ)
      → IsPending p
      → Reads read_fields
          (encoding p)
          rest
          (of_parts (header_sum p) (used_short p) (used_extended p))
  unfolding read_fields
  read_fields-Reads p rest v =
      Reads-bind _ (Reads-u8 b.native (header_sum p) _ (header_sum-lt p v)) (
        Reads-bind _ {first = []} (Reads-check_rest _ _ (enough p rest v)) (
          Reads-bind _
            (read_counted _ ShortAddress.encoding ShortAddress.IsWord (used_short p) _ _
              ShortAddress.read-Reads (v.all_short ∙ sym (short-sum p v)) v.short_words)
            (Reads-map _ (
              read_counted _ ExtendedAddress.encoding ExtendedAddress.IsWord (used_extended p) _
                rest ExtendedAddress.read-Reads (v.all_extended ∙ sym (extended-sum p v))
                v.extended_words))))

  pub read-Reads :
      (p : PendingAddress) (rest : List ℕ)
      → IsPending p
      → Reads (b.read_with try_read) (encoding p) rest p
  unfolding try_read
  read-Reads p rest v = Reads-read (
      Reads-start (
        subst (λ t. Reads read_fields (encoding p) rest t) (of_parts-sum p v)
          (read_fields-Reads p rest v)))
