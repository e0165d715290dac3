-- ===== src/Beacon/SlotInfo/Mask.antt =====
-- The direction mask of `GuaranteedTimeSlotInformation`: one bit for each slot,
-- src/mac/beacon.rs.
use rust_ieee.Base.{
  ℕ, suc, ◌+◌, ◌*◌, ◌/◌, ◌%◌, ◌^◌, ◌<◌, ◌≤◌, ◌≡◌, refl, arith, Bool, true, false, List, [], ◌∷◌,
  bit_and, bit_or, length, ◌==◌, if◌then◌else◌, ◌∙◌, ap,
}
use rust_ieee.Base.Bits.{◌<<◌, ◌>>◌, bit_or_above}
use rust_ieee.Base.Flags.{flag_bit, flag_bit-lt, test_flag}
use rust_ieee.Beacon.Slot.{GuaranteedTimeSlotDescriptor, Direction, is_transmit, direction_transmit}
use native.Mathlib.Nat.{add-mul, pow-suc, pow-le-pow_right}

-- The loop of `try_write` over the slots: `dir` is the bit of the next slot.
unfoldable pub direction_mask : List GuaranteedTimeSlotDescriptor → ℕ → ℕ → ℕ
direction_mask [] dir mask = mask
direction_mask (s ∷ slots) dir mask =
    direction_mask slots (dir << 1 % 2 ^ 8) (if direction_transmit s then bit_or mask dir else mask)

-- The direction that `try_read` takes from the lowest bit.
abbrev pub direction_of : ℕ → Direction
direction_of mask = if bit_and mask 1 == 1 then Direction.transmit else Direction.receive

-- The mask as a number: the bit of the first slot is the lowest.
abbrev pub bits : List GuaranteedTimeSlotDescriptor → ℕ
bits [] = 0
bits (s ∷ slots) = flag_bit (direction_transmit s) + 2 * bits slots

pub bits-lt : (slots : List GuaranteedTimeSlotDescriptor) → bits slots < 2 ^ length slots
bits-lt [] = omega arith
bits-lt (s ∷ slots) =
    omega (arith, bits-lt slots, flag_bit-lt (direction_transmit s), pow-suc 2 (length slots))

pub bits-half :
    (s : GuaranteedTimeSlotDescriptor) (slots : List GuaranteedTimeSlotDescriptor)
    → bits (s ∷ slots) >> 1 ≡ bits slots
bits-half s slots = omega (arith, flag_bit-lt (direction_transmit s))

lowest_bit :
    (s : GuaranteedTimeSlotDescriptor) (slots : List GuaranteedTimeSlotDescriptor)
    → bits (s ∷ slots) / 2 ^ 0 % 2 ≡ flag_bit (direction_transmit s)
lowest_bit s slots = omega (arith, flag_bit-lt (direction_transmit s))

direction_of_flag :
    (d : Direction) → (if is_transmit d then Direction.transmit else Direction.receive) ≡ d
direction_of_flag Direction.receive = refl
direction_of_flag Direction.transmit = refl

pub direction_of-bits :
    (s : GuaranteedTimeSlotDescriptor) (slots : List GuaranteedTimeSlotDescriptor)
    → direction_of (bits (s ∷ slots)) ≡ s.direction
direction_of-bits s slots =
    rw (test_flag 0 (bits (s ∷ slots)) (direction_transmit s) (lowest_bit s slots))
      (direction_of_flag s.direction)

-- The bit of a slot stays inside the octet up to the seventh slot.
next_bit : (k : ℕ) → k < 7 → (2 ^ k) << 1 % 2 ^ 8 ≡ 2 ^ suc k
next_bit k h =
    ground
      (arith, pow-suc 2 k, pow-le-pow_right {n = 2} (omega arith) {i = suc k} {j = 7} (omega arith))

or_if :
    (k mask : ℕ) (flag : Bool)
    → mask < 2 ^ k
    → (if flag then bit_or mask (2 ^ k) else mask) ≡ mask + flag_bit flag * 2 ^ k
or_if k mask true h = ground (arith, bit_or_above k mask 1)
or_if k mask false h = omega arith

grows : (k mask : ℕ) (flag : Bool) → mask < 2 ^ k → mask + flag_bit flag * 2 ^ k < 2 ^ suc k
grows k mask true h = omega (arith, pow-suc 2 k)
grows k mask false h = omega (arith, pow-suc 2 k)

placed :
    (k mask : ℕ) (flag : Bool) (n : ℕ)
    → mask + flag_bit flag * 2 ^ k + n * 2 ^ suc k ≡ mask + (flag_bit flag + 2 * n) * 2 ^ k
placed k mask flag n = omega (
  arith,
  pow-suc 2 k,
  add-mul (flag_bit flag) (2 * n) (2 ^ k),
  ap (λ (t : ℕ). n * t) (pow-suc 2 k),
)

mask_loop :
    (slots : List GuaranteedTimeSlotDescriptor) (k mask : ℕ)
    → k + length slots ≤ 7
    → mask < 2 ^ k
    → direction_mask slots (2 ^ k) mask ≡ mask + bits slots * 2 ^ k
unfolding direction_mask
mask_loop [] k mask h low = omega arith
mask_loop (s ∷ slots) k mask h low =
    rw (next_bit k (omega arith), or_if k mask (direction_transmit s) low)
      (mask_loop slots (suc k) (mask + flag_bit (direction_transmit s) * 2 ^ k) (omega arith)
          (grows k mask (direction_transmit s) low)
        ∙ placed k mask (direction_transmit s) (bits slots))

-- The loop of `try_write` builds that number.
pub direction_mask-bits :
    (slots : List GuaranteedTimeSlotDescriptor)
    → length slots ≤ 7
    → direction_mask slots 1 0 ≡ bits slots
direction_mask-bits slots h = mask_loop slots 0 0 (omega arith) (omega arith) ∙ omega arith
