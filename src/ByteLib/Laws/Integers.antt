-- ===== src/ByteLib/Laws/Integers.antt =====
-- Integers and slices, read and written through the interface of the crate `byte`.
use rust_ieee.Base.{
  ℕ, ◌+◌, ◌^◌, ◌≤◌, ◌<◌, ◌≡◌, sym, ap, ◌∙◌, arith, List, [], ◌∷◌, ◌++◌, length, take, drop,
  length-append, take-append, drop-append,
}
use rust_ieee.Base.Octets.{Endian, octets, value, length-octets, value-octets, octets-one}
use mathlib.Core.Path.{subst}
use rust_ieee.Outcome.{Outcome, ok, err, and_then, Reader, Writer, ◌>>=◌, pure}
use rust_ieee.ByteLib.Laws.Reading.{Reads, Fails, Reads-map}
use rust_ieee.ByteLib.Laws.Writing.{Writes, Encodes}
use rust_ieee.ByteLib.{ByteLib, Width, size_of}

take-octets : (e : Endian) (n v : ℕ) (rest : List ℕ) → take n (octets e n v ++ rest) ≡ octets e n v
take-octets e n v rest =
    ap (λ (k : ℕ). take k (octets e n v ++ rest)) (sym (length-octets e n v))
    ∙ take-append (octets e n v) rest

-- `bytes.read_with(offset, e)` and `bytes.write_with(offset, v, e)` on an integer. With no context
-- the byte order is `native`.
module _ ⦃b : ByteLib⦄ where
  abbrev pub read_int : Width → Endian → Reader b.Error ℕ
  read_int w e = b.read_with (b.read_uint w e)

  abbrev pub write_int : Width → Endian → ℕ → Writer b.Error
  write_int w e v = b.write_with (b.write_uint w e v)

  pub Reads-read :
      {A : Type 0} {t : List ℕ → Outcome b.Error (A × ℕ)} {encoding rest : List ℕ} {a : A}
      → t (encoding ++ rest) ≡ ok (a, length encoding)
      → Reads (b.read_with t) encoding rest a
  Reads-read {t} {encoding} {rest} {a} h = record {
    at = λ before.
        b.read_with_lem t (before ++ (encoding ++ rest)) (length before)
          (omega (arith, length-append before (encoding ++ rest)))
        ∙ rw (drop-append before (encoding ++ rest), h);
  }

  -- Any octets of the right number are read as the integer that they stand for.
  pub Reads-octets :
      (w : Width) (e : Endian) (bytes rest : List ℕ)
      → length bytes ≡ size_of w
      → Reads (read_int w e) bytes rest (value e bytes)
  Reads-octets w e bytes rest h = Reads-read (
      b.read_uint_ok w e (bytes ++ rest) (omega (arith, length-append bytes rest))
      ∙ rw (← h, take-append bytes rest))

  int_ends :
      (w : Width) (e : Endian) (v : ℕ) (rest : List ℕ)
      → v < 256 ^ size_of w
      → ◌≡◌ {A = Outcome b.Error (ℕ × ℕ)}
          (ok (value e (take (size_of w) (octets e (size_of w) v ++ rest)), size_of w))
          (ok (v, length (octets e (size_of w) v)))
  int_ends w e v rest h = rw (
    take-octets e (size_of w) v rest,
    value-octets e (size_of w) v h,
    length-octets e (size_of w) v,
  )

  pub Reads-int :
      (w : Width) (e : Endian) (v : ℕ) (rest : List ℕ)
      → v < 256 ^ size_of w
      → Reads (read_int w e) (octets e (size_of w) v) rest v
  Reads-int w e v rest h = Reads-read (
      b.read_uint_ok w e (octets e (size_of w) v ++ rest)
        (omega (arith, length-append (octets e (size_of w) v) rest, length-octets e (size_of w) v))
      ∙ int_ends w e v rest h)

  pub Writes-write :
      {t : List ℕ → Outcome b.Error (List ℕ × ℕ)} {encoding : List ℕ}
      → Encodes t b.incomplete encoding
      → Writes (b.write_with t) b.incomplete encoding
  Writes-write {t} {encoding} h = record {
    fits =
        λ before after room. enters before after ∙ rw (h.fits after room, take-append before after);
    short_buffer = λ before after lack. enters before after ∙ rw (h.short_buffer after lack);
  }
    where
      enters :
          (before after : List ℕ)
          → b.write_with t (before ++ after) (length before)
            ≡ and_then
                (t after)
                (λ p. ok (take (length before) (before ++ after) ++ p.0, length before + p.1))
      enters before after =
          b.write_with_lem t (before ++ after) (length before)
            (omega (arith, length-append before after))
          ∙ rw (drop-append before after)

  pub Encodes-int :
      (w : Width) (e : Endian) (v : ℕ)
      → Encodes (b.write_uint w e v) b.incomplete (octets e (size_of w) v)
  Encodes-int w e v = record {
    fits = λ buffer room.
        rw (length-octets e (size_of w) v)
          (b.write_uint_ok w e v buffer (rw (length-octets e (size_of w) v) at room));
    short_buffer =
        λ buffer lack. b.write_uint_short w e v buffer (rw (length-octets e (size_of w) v) at lack);
  }

  pub Writes-int :
      (w : Width) (e : Endian) (v : ℕ)
      → Writes (write_int w e v) b.incomplete (octets e (size_of w) v)
  Writes-int w e v = Writes-write (Encodes-int w e v)

  pub Writes-slice : (s : List ℕ) → Writes (b.write_with (b.write_slice s)) b.incomplete s
  Writes-slice s =
      Writes-write (record { fits = b.write_slice_ok s; short_buffer = b.write_slice_short s })

  -- An integer that is wrapped as soon as it is read.
  pub Reads-int_as :
      {A : Type 0} (make : ℕ → A) (w : Width) (e : Endian) (v : ℕ) (rest : List ℕ)
      → v < 256 ^ size_of w
      → Reads (read_int w e >>= λ n. pure (make n)) (octets e (size_of w) v) rest (make v)
  Reads-int_as make w e v rest h = Reads-map make (Reads-int w e v rest h)

  -- `check_len(&bytes[*offset..], n)?`, of which only the refusal matters.
  abbrev pub check_rest : ℕ → Reader b.Error ℕ
  check_rest n bytes offset = and_then (b.check_len (drop offset bytes) n) (λ _. ok (n, offset))

  pub Reads-check_rest : (n : ℕ) (rest : List ℕ) → n ≤ length rest → Reads (check_rest n) [] rest n
  Reads-check_rest n rest h = record {
    at = λ before.
        rw (drop-append before rest, b.check_len_ok rest n h)
          (ap (λ (m : ℕ). ok (n, m)) (omega arith));
  }

  -- A single octet, for which the byte order does not matter.
  pub Reads-u8 :
      (e : Endian) (v : ℕ) (rest : List ℕ) → v < 256 → Reads (read_int Width.u8 e) (v ∷ []) rest v
  Reads-u8 e v rest h =
      subst (λ (o : List ℕ). Reads (read_int Width.u8 e) o rest v) (octets-one e v h)
        (Reads-int Width.u8 e v rest h)

  pub Writes-u8 :
      (e : Endian) (v : ℕ) → v < 256 → Writes (write_int Width.u8 e v) b.incomplete (v ∷ [])
  Writes-u8 e v h =
      subst (λ (o : List ℕ). Writes (write_int Width.u8 e v) b.incomplete o) (octets-one e v h)
        (Writes-int Width.u8 e v)

  -- `check_len` refuses a rest that is too short.
  pub Fails-check_rest :
      (n : ℕ) (rest : List ℕ) → length rest < n → Fails (check_rest n) rest (err b.incomplete)
  Fails-check_rest n rest h = record {
    at = λ before. rw (drop-append before rest, b.check_len_short rest n h);
  }
