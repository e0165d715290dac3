-- ===== src/ByteLib.antt =====
-- The crate `byte` (version 0.2), of which the program only has the interface: reading and
-- writing integers and slices at an offset. Each law is the documented behaviour of an operation.
pub mod Laws
pub mod Bounds
pub mod Yields
pub mod Spends
pub mod Confined
pub mod Loops
pub mod Concrete
use Prim.Native.String.{String}
use rust_ieee.Base.{ℕ, ◌+◌, ◌≤◌, ◌<◌, ◌≡◌, List, ◌++◌, length, take, drop}
use rust_ieee.Base.Octets.{Endian, octets, value}
use rust_ieee.Outcome.{Outcome, ok, err, and_then}

-- The integers that the crate reads and writes.
pub data Width : Type 0 where
  u8 u16 u32 u64 : Width

-- `mem::size_of` of an integer.
abbrev pub size_of : Width → ℕ
size_of Width.u8 = 1
size_of Width.u16 = 2
size_of Width.u32 = 4
size_of Width.u64 = 8

pub record ByteLib : Type 1 where
  -- `byte::Error`, with the two variants that the program builds.
  pub Error : Type 0
  pub incomplete : Error
  pub bad_input : String → Error
  -- `byte::ctx::NATIVE`, the byte order of the host, which is the default context.
  pub native : Endian
  pub check_len : List ℕ → ℕ → Outcome Error ℕ
  pub check_len_ok : (bytes : List ℕ) (n : ℕ) → n ≤ length bytes → check_len bytes n ≡ ok n
  pub check_len_short :
      (bytes : List ℕ) (n : ℕ) → length bytes < n → check_len bytes n ≡ err incomplete
  -- `BytesExt::read_with`: read behind the offset, and move it by what was read.
  pub read_with :
      {A : Type 0} → (List ℕ → Outcome Error (A × ℕ)) → List ℕ → ℕ → Outcome Error (A × ℕ)
  pub read_with_lem :
      {A : Type 0} (t : List ℕ → Outcome Error (A × ℕ)) (bytes : List ℕ) (offset : ℕ)
      → offset ≤ length bytes
      → read_with t bytes offset ≡ and_then (t (drop offset bytes)) (λ p. ok (p.0, offset + p.1))
  -- `BytesExt::write_with`: write behind the offset, and move it by what was written.
  pub write_with : (List ℕ → Outcome Error (List ℕ × ℕ)) → List ℕ → ℕ → Outcome Error (List ℕ × ℕ)
  pub write_with_lem :
      (t : List ℕ → Outcome Error (List ℕ × ℕ)) (bytes : List ℕ) (offset : ℕ)
      → offset ≤ length bytes
      → write_with t bytes offset
        ≡ and_then (t (drop offset bytes)) (λ p. ok (take offset bytes ++ p.0, offset + p.1))
  -- `TryRead` and `TryWrite` of the unsigned integers.
  pub read_uint : Width → Endian → List ℕ → Outcome Error (ℕ × ℕ)
  pub read_uint_ok :
      (w : Width) (e : Endian) (bytes : List ℕ)
      → size_of w ≤ length bytes
      → read_uint w e bytes ≡ ok (value e (take (size_of w) bytes), size_of w)
  pub read_uint_short :
      (w : Width) (e : Endian) (bytes : List ℕ)
      → length bytes < size_of w
      → read_uint w e bytes ≡ err incomplete
  pub write_uint : Width → Endian → ℕ → List ℕ → Outcome Error (List ℕ × ℕ)
  pub write_uint_ok :
      (w : Width) (e : Endian) (v : ℕ) (bytes : List ℕ)
      → size_of w ≤ length bytes
      → write_uint w e v bytes ≡ ok (octets e (size_of w) v ++ drop (size_of w) bytes, size_of w)
  pub write_uint_short :
      (w : Width) (e : Endian) (v : ℕ) (bytes : List ℕ)
      → length bytes < size_of w
      → write_uint w e v bytes ≡ err incomplete
  -- `TryRead` of a slice with the context `Bytes::Len`, and `TryWrite` of a slice.
  pub read_slice : ℕ → List ℕ → Outcome Error (List ℕ × ℕ)
  pub read_slice_ok :
      (n : ℕ) (bytes : List ℕ) → n ≤ length bytes → read_slice n bytes ≡ ok (take n bytes, n)
  pub read_slice_short :
      (n : ℕ) (bytes : List ℕ) → length bytes < n → read_slice n bytes ≡ err incomplete
  pub write_slice : List ℕ → List ℕ → Outcome Error (List ℕ × ℕ)
  pub write_slice_ok :
      (s bytes : List ℕ)
      → length s ≤ length bytes
      → write_slice s bytes ≡ ok (s ++ drop (length s) bytes, length s)
  pub write_slice_short :
      (s bytes : List ℕ) → length bytes < length s → write_slice s bytes ≡ err incomplete
