-- ===== src/Header/Size.antt =====
-- `Header::get_octet_size` against the octets that `try_write` puts on the air,
-- src/mac/frame/header.rs.
use rust_ieee.Base.{
  ℕ, ◌+◌, ◌≡◌, arith, Bool, true, false, Option, none, some, ◌++◌, length, length-append,
}
use rust_ieee.Base.Octets.{Endian}
use rust_ieee.Address.{Address}
use rust_ieee.Header.{Header, get_octet_size, address_octet_size}
use rust_ieee.Header.Write.{encoding, destination_encoding, source_encoding, security_encoding}
use rust_ieee.Security.AuxHeader.{AuxiliarySecurityHeader}
use rust_ieee.Security.AuxHeader as Aux
use rust_ieee.Security.AuxHeader.Codec as AuxHeader

-- The PAN identifier that compression leaves out.
abbrev pub saved_octets : Option Address → Bool → ℕ
saved_octets (some _) true = 2
saved_octets (some _) false = 0
saved_octets none compress = 0

abbrev pub security_octet_size : Option AuxiliarySecurityHeader → ℕ
security_octet_size none = 0
security_octet_size (some a) = Aux.get_octet_size a

length-destination : (a : Option Address) → length (destination_encoding a) ≡ address_octet_size a
length-destination none = omega arith
length-destination (some (Address.short p a)) = omega arith
length-destination (some (Address.extended p a)) = omega arith

length-source :
    (a : Option Address) (compress : Bool)
    → length (source_encoding a compress) + saved_octets a compress ≡ address_octet_size a
length-source none compress = omega arith
length-source (some (Address.short p a)) true = omega arith
length-source (some (Address.short p a)) false = omega arith
length-source (some (Address.extended p a)) true = omega arith
length-source (some (Address.extended p a)) false = omega arith

length-security :
    (host : Endian) (counter : ℕ) (a : Option AuxiliarySecurityHeader)
    → length (security_encoding host counter a) ≡ security_octet_size a
length-security host counter none = omega arith
length-security host counter (some a) = AuxHeader.get_octet_size_lem host counter a

-- The octets of a header, with the two of a PAN identifier that compression leaves out, are as many
-- as `get_octet_size` counts and those of the security header together.
pub get_octet_size-encoding :
    (host : Endian) (counter : ℕ) (h : Header)
    → length (encoding host counter h) + saved_octets h.source h.pan_id_compress
      ≡ get_octet_size h + security_octet_size h.auxiliary_security_header
get_octet_size-encoding host counter h =
    let dst = destination_encoding h.destination in
    let src = source_encoding h.source h.pan_id_compress in
    let sec = security_encoding host counter h.auxiliary_security_header in
    omega (
      arith,
      length-append dst (src ++ sec),
      length-append src sec,
      length-destination h.destination,
      length-source h.source h.pan_id_compress,
      length-security host counter h.auxiliary_security_header,
    )
