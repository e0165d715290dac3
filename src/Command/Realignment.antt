-- ===== src/Command/Realignment.antt =====
-- `CoordinatorRealignmentData` of src/mac/command.rs.
use rust_ieee.Base.{
  ℕ, ◌<◌, ◌≡◌, arith, Option, none, some, List, [], ◌∷◌, ◌++◌, length, length-append, ltb,
  if◌then◌else◌, Bool-cases, inl, inr, lt→ltb,
}
use rust_ieee.Outcome.{Outcome, ok, Reader, Writer, ◌>>=◌, ◌⨾◌, pure, skip, from_zero}
use rust_ieee.ByteLib.{ByteLib, Width}
use rust_ieee.ByteLib.Laws.{
  read_int, write_int, check_rest, Reads, Reads-bind, Reads-check_rest, Reads-map, Reads-read,
  Reads-start, Reads-u8, Writes, Writes-skip, Writes-then, Writes-u8, Writes-write, Encodes-start,
}
use rust_ieee.ByteLib.Bounds.{
  Bounded, Bounded-bind, Bounded-check_rest, Bounded-int, Bounded-pure, Bounded-read, Total-start,
}
use rust_ieee.Address.PanId
use rust_ieee.Address.PanId.{PanId}
use rust_ieee.Address.ShortAddress
use rust_ieee.Address.ShortAddress.{ShortAddress}

pub record CoordinatorRealignmentData : Type 0 where
  pub pan_id : PanId
  pub coordinator_address : ShortAddress
  pub channel : ℕ
  pub device_address : ShortAddress
  pub channel_page : Option ℕ

abbrev pub IsPage : Option ℕ → Type 0
IsPage none = Unit
IsPage (some p) = p < 256

-- The numbers fit their integers.
pub record IsData (d : CoordinatorRealignmentData) : Type 0 where
  pub pan_id_fits : PanId.IsWord d.pan_id
  pub coordinator_fits : ShortAddress.IsWord d.coordinator_address
  pub channel_fits : d.channel < 256
  pub device_fits : ShortAddress.IsWord d.device_address
  pub page_fits : IsPage d.channel_page

-- Without a channel page nothing may follow: the next octet would be taken for one.
abbrev pub MayPrecede : Option ℕ → List ℕ → Type 0
MayPrecede none rest = rest ≡ []
MayPrecede (some p) rest = Unit

abbrev pub page_encoding : Option ℕ → List ℕ
page_encoding none = []
page_encoding (some p) = p ∷ []

abbrev pub encoding : CoordinatorRealignmentData → List ℕ
encoding d =
    PanId.encoding d.pan_id
    ++ (ShortAddress.encoding d.coordinator_address
        ++ ((d.channel ∷ [])
            ++ (ShortAddress.encoding d.device_address ++ page_encoding d.channel_page)))

module _ ⦃b : ByteLib⦄ where
  abbrev pub write_page : Option ℕ → Writer b.Error
  write_page none = skip
  write_page (some p) = write_int Width.u8 b.native p

  unfoldable pub try_write : CoordinatorRealignmentData → List ℕ → Outcome b.Error (List ℕ × ℕ)
  try_write d = from_zero (
      b.write_with (PanId.try_write d.pan_id)
      ⨾ b.write_with (ShortAddress.try_write d.coordinator_address)
      ⨾ write_int Width.u8 b.native d.channel
      ⨾ b.write_with (ShortAddress.try_write d.device_address)
      ⨾ write_page d.channel_page)

  -- `if bytes.len() > *offset { Some(bytes.read(offset)?) } else { None }`.
  unfoldable pub read_page : Reader b.Error (Option ℕ)
  read_page bytes offset =
      if ltb offset (length bytes)
      then (read_int Width.u8 b.native >>= λ p. pure (some p)) bytes offset
      else pure none bytes offset

  unfoldable pub read_fields : Reader b.Error CoordinatorRealignmentData
  read_fields = do
    enough ← check_rest 7
    pan_id ← b.read_with PanId.try_read
    coordinator_address ← b.read_with ShortAddress.try_read
    channel ← read_int Width.u8 b.native
    device_address ← b.read_with ShortAddress.try_read
    channel_page ← read_page
    pure (record {
      pan_id = pan_id;
      coordinator_address = coordinator_address;
      channel = channel;
      device_address = device_address;
      channel_page = channel_page;
    })

  unfoldable pub try_read : List ℕ → Outcome b.Error (CoordinatorRealignmentData × ℕ)
  unfolding read_fields
  try_read = from_zero read_fields

  write_page-Writes :
      (p : Option ℕ) → IsPage p → Writes (write_page p) b.incomplete (page_encoding p)
  write_page-Writes none h = Writes-skip
  write_page-Writes (some p) h = Writes-u8 b.native p h

  pub write-Writes :
      (d : CoordinatorRealignmentData)
      → IsData d
      → Writes (b.write_with (try_write d)) b.incomplete (encoding d)
  unfolding try_write
  write-Writes d v = Writes-write (
      Encodes-start (
        Writes-then (PanId.write-Writes d.pan_id) (
          Writes-then (ShortAddress.write-Writes d.coordinator_address) (
            Writes-then (Writes-u8 b.native d.channel v.channel_fits) (
              Writes-then (ShortAddress.write-Writes d.device_address)
                (write_page-Writes d.channel_page v.page_fits))))))

  read_page-Reads :
      (p : Option ℕ) (rest : List ℕ)
      → IsPage p
      → MayPrecede p rest
      → Reads read_page (page_encoding p) rest p
  unfolding read_page
  read_page-Reads none rest h k = record {
    at = λ before. rw k (ground (arith, length-append before ([] ++ [])));
  }
  read_page-Reads (some p) rest h k = record {
    at = λ before.
        let more = Reads-map some (Reads-u8 b.native p rest h) in
        rw
          (lt→ltb (length before) (length (before ++ (p ∷ rest)))
            (omega (arith, length-append before (p ∷ rest))))
          (more.at before);
  }

  read_fields-Reads :
      (d : CoordinatorRealignmentData) (rest : List ℕ)
      → IsData d
      → MayPrecede d.channel_page rest
      → Reads read_fields (encoding d) rest d
  unfolding read_fields
  read_fields-Reads d rest v k =
      Reads-bind _ {first = []} (Reads-check_rest 7 (encoding d ++ rest) (omega arith)) (
        Reads-bind _ (PanId.read-Reads d.pan_id _ v.pan_id_fits) (
          Reads-bind _ (ShortAddress.read-Reads d.coordinator_address _ v.coordinator_fits) (
            Reads-bind _ (Reads-u8 b.native d.channel _ v.channel_fits) (
              Reads-bind _ (ShortAddress.read-Reads d.device_address _ v.device_fits)
                (Reads-map _ (read_page-Reads d.channel_page rest v.page_fits k))))))

  pub try_read-encoding :
      (d : CoordinatorRealignmentData) (rest : List ℕ)
      → IsData d
      → MayPrecede d.channel_page rest
      → try_read (encoding d ++ rest) ≡ ok (d, length (encoding d))
  unfolding try_read
  try_read-encoding d rest v k = Reads-start (read_fields-Reads d rest v k)

  pub read-Reads :
      (d : CoordinatorRealignmentData) (rest : List ℕ)
      → IsData d
      → MayPrecede d.channel_page rest
      → Reads (b.read_with try_read) (encoding d) rest d
  read-Reads d rest v k = Reads-read (try_read-encoding d rest v k)

  read_page-Bounded : Bounded read_page
  unfolding read_page
  read_page-Bounded = record {
    ends = λ bytes offset room. elim (Bool-cases (ltb offset (length bytes))) [
      | inl more ↦ rw more (
          (Bounded-bind (λ p. pure (some p)) (Bounded-int Width.u8 b.native)
              (λ p. Bounded-pure (some p))).ends
            bytes offset room)
      | inr done ↦ rw done (omega arith)
    ];
  }

  pub read-Bounded : Bounded (b.read_with try_read)
  unfolding try_read read_fields
  read-Bounded = Bounded-read (
      Total-start (
        Bounded-bind _ (Bounded-check_rest 7) (λ enough. Bounded-bind _ PanId.read-Bounded (λ p.
          Bounded-bind _ ShortAddress.read-Bounded (λ c.
            Bounded-bind _ (Bounded-int Width.u8 b.native) (λ n.
              Bounded-bind _ ShortAddress.read-Bounded
                (λ d. Bounded-bind _ read_page-Bounded (λ g. Bounded-pure _))))))))
