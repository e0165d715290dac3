-- ===== src/FrameControl/Word.antt =====
-- The frame control field as a sum of its parts, and what is read back from it.
use rust_ieee.Base.{
  ℕ, ◌+◌, ◌*◌, ◌/◌, ◌%◌, ◌^◌, ◌-◌, ◌<◌, ◌≡◌, refl, ◌∙◌, arith, Bool, true, false, ltb,
}
use rust_ieee.Base.Bits.{◌<<◌, bit_field, bit_or_above}
use rust_ieee.Outcome.{ok}
use rust_ieee.ByteLib.{ByteLib}
use rust_ieee.ByteLib.Bounds.{Returns}
use rust_ieee.Address.{AddressMode}
use rust_ieee.Address.Mode
use rust_ieee.FrameControl.{FrameControl, bool_bit, or_shifted, frame_control_raw, field, decode}
use rust_ieee.FrameControl.FrameType
use rust_ieee.FrameControl.FrameVersion

-- Frame type in bits 0 to 2, four flags in bits 3 to 6, the destination's mode in bits 10 and 11,
-- the version in bits 12 and 13, the source's mode in bits 14 and 15; the others are 0.
abbrev pub word : FrameControl → ℕ
word c =
    FrameType.to_bits c.frame_type
    + bool_bit c.security * 8
    + bool_bit c.frame_pending * 16
    + bool_bit c.ack_request * 32
    + bool_bit c.pan_id_compress * 64
    + Mode.to_bits c.dest_addr_mode * 1024
    + FrameVersion.to_bits c.version * 4096
    + Mode.to_bits c.src_addr_mode * 16384

bool_bit-lt : (x : Bool) → bool_bit x < 2
bool_bit-lt true = omega arith
bool_bit-lt false = omega arith

mode-lt : (m : AddressMode) → Mode.to_bits m < 4
mode-lt AddressMode.none = omega arith
mode-lt _ = omega arith

-- One more field above the bits that are there.
or_shifted-sum :
    (acc x k : ℕ) → acc < 2 ^ k → x * 2 ^ k < 2 ^ 16 → or_shifted acc x k ≡ acc + x * 2 ^ k
or_shifted-sum acc x k low fits = ground (arith, bit_or_above k acc x)

-- The flags and the frame type, below the modes and the version.
low_word :
    (t s p a c : ℕ)
    → t < 4
    → s < 2
    → p < 2
    → a < 2
    → c < 2
    → or_shifted (or_shifted (or_shifted (or_shifted (t * 2 ^ 0 % 2 ^ 16) s 3) p 4) a 5) c 6
      ≡ t + s * 8 + p * 16 + a * 32 + c * 64
low_word t s p a c ht hs hp ha hc =
    rw
      (
        or_shifted-sum (t * 2 ^ 0 % 2 ^ 16) s 3 (omega arith) (omega arith),
        or_shifted-sum (t * 2 ^ 0 % 2 ^ 16 + s * 2 ^ 3) p 4 (omega arith) (omega arith),
        or_shifted-sum (t * 2 ^ 0 % 2 ^ 16 + s * 2 ^ 3 + p * 2 ^ 4) a 5 (omega arith) (omega arith),
        or_shifted-sum (t * 2 ^ 0 % 2 ^ 16 + s * 2 ^ 3 + p * 2 ^ 4 + a * 2 ^ 5) c 6 (omega arith)
            (omega arith),
      )
      (omega arith)

high_word :
    (low d v m : ℕ)
    → low < 128
    → d < 4
    → v < 3
    → m < 4
    → or_shifted (or_shifted (or_shifted low d 10) v 12) m 14
      ≡ low + d * 1024 + v * 4096 + m * 16384
high_word low d v m hl hd hv hm =
    rw
      (
        or_shifted-sum low d 10 (omega arith) (omega arith),
        or_shifted-sum (low + d * 2 ^ 10) v 12 (omega arith) (omega arith),
        or_shifted-sum (low + d * 2 ^ 10 + v * 2 ^ 12) m 14 (omega arith) (omega arith),
      )
      refl

field_lem : (k m x : ℕ) → field x ((2 ^ m - 1) << k) k ≡ x / 2 ^ k % 2 ^ m % 2 ^ 8
field_lem k m x = rw (bit_field k m x)

flag : (x : Bool) → ltb 0 (bool_bit x) ≡ x
flag true = refl
flag false = refl

-- Each field of a sum of fields that fit.
module _ (t s p a c d v m : ℕ) (ht : t < 4) (hs : s < 2) (hp : p < 2) (ha : a < 2) (hc : c < 2)
    (hd : d < 4) (hv : v < 3) (hm : m < 4) where
  abbrev sum : ℕ
  sum = t + s * 8 + p * 16 + a * 32 + c * 64 + d * 1024 + v * 4096 + m * 16384

  fields :
      (field sum 0x0007 0 ≡ t)
      × (field sum 0x0008 3 ≡ s)
      × (field sum 0x0010 4 ≡ p)
      × (field sum 0x0020 5 ≡ a)
      × (field sum 0x0040 6 ≡ c)
      × (field sum 0x0C00 10 ≡ d)
      × (field sum 0x3000 12 ≡ v)
      × (field sum 0xC000 14 ≡ m)
  fields = (
    field_lem 0 3 sum ∙ omega arith,
    field_lem 3 1 sum ∙ omega arith,
    field_lem 4 1 sum ∙ omega arith,
    field_lem 5 1 sum ∙ omega arith,
    field_lem 6 1 sum ∙ omega arith,
    field_lem 10 2 sum ∙ omega arith,
    field_lem 12 2 sum ∙ omega arith,
    field_lem 14 2 sum ∙ omega arith,
  )

module _ (c : FrameControl) where
  pub word-lt : word c < 2 ^ 16
  word-lt = omega (
    arith,
    FrameType.to_bits-lt c.frame_type,
    bool_bit-lt c.security,
    bool_bit-lt c.frame_pending,
    bool_bit-lt c.ack_request,
    bool_bit-lt c.pan_id_compress,
    mode-lt c.dest_addr_mode,
    FrameVersion.to_bits-lt c.version,
    mode-lt c.src_addr_mode,
  )

  -- The field that is written is the sum of its parts.
  pub frame_control_raw-eq-word : frame_control_raw c ≡ word c
  unfolding frame_control_raw
  frame_control_raw-eq-word =
      rw
        (low_word (FrameType.to_bits c.frame_type) (bool_bit c.security) (bool_bit c.frame_pending)
          (bool_bit c.ack_request) (bool_bit c.pan_id_compress) (FrameType.to_bits-lt c.frame_type)
          (bool_bit-lt c.security) (bool_bit-lt c.frame_pending) (bool_bit-lt c.ack_request)
          (bool_bit-lt c.pan_id_compress))
        (high_word _ (Mode.to_bits c.dest_addr_mode) (FrameVersion.to_bits c.version)
          (Mode.to_bits c.src_addr_mode)
          (omega (
            arith,
            FrameType.to_bits-lt c.frame_type,
            bool_bit-lt c.security,
            bool_bit-lt c.frame_pending,
            bool_bit-lt c.ack_request,
            bool_bit-lt c.pan_id_compress,
          ))
          (mode-lt c.dest_addr_mode) (FrameVersion.to_bits-lt c.version) (mode-lt c.src_addr_mode))

  -- The reader takes the field apart into what it was put together from.
  pub decode-word : ⦃b : ByteLib⦄ → decode (word c) ≡ ok c
  unfolding decode
  decode-word =
      let (type', sec, pend, ack, comp, dst, ver, src) =
        fields (FrameType.to_bits c.frame_type) (bool_bit c.security) (bool_bit c.frame_pending)
          (bool_bit c.ack_request) (bool_bit c.pan_id_compress) (Mode.to_bits c.dest_addr_mode)
          (FrameVersion.to_bits c.version) (Mode.to_bits c.src_addr_mode)
          (FrameType.to_bits-lt c.frame_type) (bool_bit-lt c.security) (bool_bit-lt c.frame_pending)
          (bool_bit-lt c.ack_request) (bool_bit-lt c.pan_id_compress) (mode-lt c.dest_addr_mode)
          (FrameVersion.to_bits-lt c.version) (mode-lt c.src_addr_mode) in
      rw (
        ver,
        FrameVersion.from_bits-to_bits,
        type',
        FrameType.from_bits-to_bits,
        dst,
        Mode.from_bits-to_bits,
        src,
        Mode.from_bits-to_bits,
        sec,
        flag c.security,
        pend,
        flag c.frame_pending,
        ack,
        flag c.ack_request,
        comp,
        flag c.pan_id_compress,
      )

  -- The frame control field that the writer builds is taken apart by the reader into the frame
  -- type, the version, the flags and the address modes that it was built from.
  pub decode-frame_control_raw : ⦃b : ByteLib⦄ → decode (frame_control_raw c) ≡ ok c
  decode-frame_control_raw = rw frame_control_raw-eq-word decode-word

-- Any word is taken apart or refused.
pub decode-Returns : ⦃b : ByteLib⦄ → (bits : ℕ) → Returns (decode bits)
unfolding decode FrameVersion.from_bits FrameType.from_bits Mode.from_bits
decode-Returns bits = ground arith
