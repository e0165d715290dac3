-- ===== src/ByteLib/Concrete.antt =====
-- An implementation of the interface `ByteLib` on a host of either byte order. It shows that the
-- laws can hold together, and it is what the tests run on.
use Prim.Native.String.{String}
use rust_ieee.Base.{
  ℕ, ◌+◌, ◌≤◌, ◌<◌, ◌≡◌, arith, List, ◌++◌, length, take, drop, leb, if◌then◌else◌,
}
use rust_ieee.Base.Octets.{Endian, octets, value}
use rust_ieee.Outcome.{Outcome, ok, err, and_then}
use rust_ieee.ByteLib.{ByteLib, size_of}

pub data ByteError : Type 0 where
  incomplete : ByteError
  bad_offset : ℕ → ByteError
  bad_input : String → ByteError

-- The outcome where `n` octets are there, and `Incomplete` where they are not.
abbrev pub needs : {A : Type 0} → ℕ → List ℕ → A → Outcome ByteError A
needs n bytes a = if leb n (length bytes) then ok a else err incomplete

pub needs_ok :
    {A : Type 0} (n : ℕ) (bytes : List ℕ) (a : A) → n ≤ length bytes → needs n bytes a ≡ ok a
needs_ok n bytes a h = ground arith

pub needs_short :
    {A : Type 0} (n : ℕ) (bytes : List ℕ) (a : A)
    → length bytes < n
    → needs n bytes a ≡ err incomplete
needs_short n bytes a h = ground arith

abbrev pub within : {A : Type 0} → List ℕ → ℕ → Outcome ByteError A → Outcome ByteError A
within bytes offset o = if leb offset (length bytes) then o else err (bad_offset offset)

pub within_ok :
    {A : Type 0} (bytes : List ℕ) (offset : ℕ) (o : Outcome ByteError A)
    → offset ≤ length bytes
    → within bytes offset o ≡ o
within_ok bytes offset o h = ground arith

abbrev pub on_host : Endian → ByteLib
on_host host = record {
  Error = ByteError;
  incomplete = incomplete;
  bad_input = bad_input;
  native = host;
  check_len = λ bytes n. needs n bytes n;
  check_len_ok = λ bytes n. needs_ok n bytes n;
  check_len_short = λ bytes n. needs_short n bytes n;
  read_with = λ t bytes offset.
      within bytes offset (and_then (t (drop offset bytes)) (λ p. ok (p.0, offset + p.1)));
  read_with_lem = λ t bytes offset. within_ok bytes offset _;
  write_with = λ t bytes offset.
      within bytes offset
        (and_then (t (drop offset bytes)) (λ p. ok (take offset bytes ++ p.0, offset + p.1)));
  write_with_lem = λ t bytes offset. within_ok bytes offset _;
  read_uint = λ w e bytes. needs (size_of w) bytes (value e (take (size_of w) bytes), size_of w);
  read_uint_ok = λ w e bytes. needs_ok (size_of w) bytes _;
  read_uint_short = λ w e bytes. needs_short (size_of w) bytes _;
  write_uint = λ w e v bytes.
      needs (size_of w) bytes (octets e (size_of w) v ++ drop (size_of w) bytes, size_of w);
  write_uint_ok = λ w e v bytes. needs_ok (size_of w) bytes _;
  write_uint_short = λ w e v bytes. needs_short (size_of w) bytes _;
  read_slice = λ n bytes. needs n bytes (take n bytes, n);
  read_slice_ok = λ n bytes. needs_ok n bytes _;
  read_slice_short = λ n bytes. needs_short n bytes _;
  write_slice = λ s bytes. needs (length s) bytes (s ++ drop (length s) bytes, length s);
  write_slice_ok = λ s bytes. needs_ok (length s) bytes _;
  write_slice_short = λ s bytes. needs_short (length s) bytes _;
}
