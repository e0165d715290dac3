-- ===== src/Address/Mode.antt =====
-- The conversions of `AddressMode`, src/mac/frame/frame_control.rs.
use rust_ieee.Base.{ℕ, ◌≡◌, refl, Option, none, some, ◌==◌, if◌then◌else◌}
use rust_ieee.Outcome.{Outcome, ok, err}
use rust_ieee.Errors.{DecodeError}
use rust_ieee.Address.{Address, AddressMode, broadcast}

-- `From<Address>`.
abbrev pub of_address : Address → AddressMode
of_address (Address.short _ _) = AddressMode.short
of_address (Address.extended _ _) = AddressMode.extended

-- `From<Option<Address>>`.
abbrev pub of_option : Option Address → AddressMode
of_option (some (Address.short _ _)) = AddressMode.short
of_option (some (Address.extended _ _)) = AddressMode.extended
of_option none = AddressMode.none

-- The cast to an integer.
abbrev pub to_bits : AddressMode → ℕ
to_bits AddressMode.none = 0
to_bits AddressMode.short = 2
to_bits AddressMode.extended = 3

unfoldable pub from_bits : ℕ → Outcome DecodeError AddressMode
from_bits bits =
    if bits == 0
    then ok AddressMode.none
    else if bits == 2
    then ok AddressMode.short
    else if bits == 3
    then ok AddressMode.extended
    else err (DecodeError.invalid_address_mode bits)

pub from_bits-to_bits : (m : AddressMode) → from_bits (to_bits m) ≡ ok m
unfolding from_bits
from_bits-to_bits AddressMode.none = refl
from_bits-to_bits AddressMode.short = refl
from_bits-to_bits AddressMode.extended = refl

pub of_option-broadcast : (m : AddressMode) → of_option (broadcast m) ≡ m
of_option-broadcast AddressMode.none = refl
of_option-broadcast AddressMode.short = refl
of_option-broadcast AddressMode.extended = refl
