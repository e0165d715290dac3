-- ===== src/Address/PanId.antt =====
-- The newtype `PanId` of src/mac/frame/header.rs.
use rust_ieee.Base.{ℕ, ◌^◌, ◌<◌, ◌≡◌, List, ◌++◌, length}
use rust_ieee.Base.Octets.{Endian, octets}
use rust_ieee.Outcome.{Outcome, ok, ◌>>=◌, pure, from_zero}
use rust_ieee.ByteLib.{ByteLib, Width}
use rust_ieee.ByteLib.Laws.{
  read_int, write_int, Reads, Reads-start, Reads-int_as, Reads-read, Encodes, Encodes-start, Writes,
  Writes-int, Writes-write,
}
use rust_ieee.ByteLib.Bounds.{
  Bounded, Bounded-bind, Bounded-int, Bounded-pure, Bounded-read, Total-start,
}

pub record PanId : Type 0 where
  pub value : ℕ

-- `broadcast` and, where there is one, the constant `BROADCAST`.
abbrev pub broadcast : PanId
broadcast = record { value = 0xffff }

-- The value fits the integer of the newtype.
abbrev pub IsWord : PanId → Type 0
IsWord a = a.value < 2 ^ 16

-- The octets on the air.
abbrev pub encoding : PanId → List ℕ
encoding a = octets Endian.little 2 a.value

module _ ⦃b : ByteLib⦄ where
  unfoldable pub try_read : List ℕ → Outcome b.Error (PanId × ℕ)
  try_read = from_zero do v ← read_int Width.u16 Endian.little; pure (record { value = v })

  unfoldable pub try_write : PanId → List ℕ → Outcome b.Error (List ℕ × ℕ)
  try_write a = from_zero (write_int Width.u16 Endian.little a.value)

  pub try_write-Encodes : (a : PanId) → Encodes (try_write a) b.incomplete (encoding a)
  unfolding try_write
  try_write-Encodes a = Encodes-start (Writes-int Width.u16 Endian.little a.value)

  pub try_read-encoding :
      (a : PanId) (rest : List ℕ)
      → IsWord a
      → try_read (encoding a ++ rest) ≡ ok (a, length (encoding a))
  unfolding try_read
  try_read-encoding a rest h =
      Reads-start (Reads-int_as (λ v. record { value = v }) Width.u16 Endian.little a.value rest h)

  pub read-Reads :
      (a : PanId) (rest : List ℕ) → IsWord a → Reads (b.read_with try_read) (encoding a) rest a
  read-Reads a rest h = Reads-read (try_read-encoding a rest h)

  pub write-Writes : (a : PanId) → Writes (b.write_with (try_write a)) b.incomplete (encoding a)
  write-Writes a = Writes-write (try_write-Encodes a)

  pub read-Bounded : Bounded (b.read_with try_read)
  unfolding try_read
  read-Bounded =
      Bounded-read
        (Total-start (Bounded-bind _ (Bounded-int Width.u16 Endian.little) (λ v. Bounded-pure _)))
