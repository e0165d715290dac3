-- ===== src/Frame/Unsecure/RoundTrip.antt =====
-- What a secured frame reads as, src/mac/frame/mod.rs.
use mathlib.Core.Path.{subst}
use rust_ieee.Base.{
  ℕ, suc, ◌+◌, ◌^◌, ◌≤◌, ◌<◌, ◌≡◌, refl, sym, ap, ◌∙◌, arith, true, some, List, [], ◌∷◌, ◌++◌,
  length, length-append, append-nil, le→leb, take-append, drop-append,
}
use rust_ieee.Base.Octets.{Endian, octets, value, value-octets}
use rust_ieee.Outcome.{Outcome, ok, map_err}
use rust_ieee.Target.{Target}
use rust_ieee.ByteLib.{ByteLib}
use rust_ieee.ByteLib.Laws.{Reads, Reads-bind, Reads-map, Reads-read, Reads-start}
use rust_ieee.Address.{Address}
use rust_ieee.FrameControl.FrameType.{FrameType}
use rust_ieee.Security.AuxHeader.{AuxiliarySecurityHeader, get_frame_counter}
use rust_ieee.Security.AuxHeader.RoundTrip as AuxTrip
use rust_ieee.Security.Ccm.{Ccm}
use rust_ieee.Security.Context.{SecurityContext, AddressingMode}
use rust_ieee.Security.Device.{DeviceDescriptor, DeviceDescriptorLookup}
use rust_ieee.Security.Error.{of_byte_error}
use rust_ieee.Security.Nonce.{calculate_nonce}
use rust_ieee.Security.Secure.{transform}
use rust_ieee.Security.Secure.Cipher.{HasTag}
use rust_ieee.Security.Unsecure.{unsecure_frame}
use rust_ieee.Security.Unsecure.Admitted.{IsAdmitted}
use rust_ieee.Security.Unsecure.Inverse.{payload_is_unsecured}
use rust_ieee.Header.{Header, IsHeader, has_security}
use rust_ieee.Header.Write as HeaderWrite
use rust_ieee.Header.RoundTrip as HeaderTrip
use rust_ieee.Frame.{Frame, FrameContent, FooterMode}
use rust_ieee.Frame.RoundTrip.{content-Reads, read_bytes-Reads, size-Reads}
use rust_ieee.Frame.Write.{new}
use rust_ieee.Frame.Unsecure.{
  read_head, read_payload, unsecured, unsecure_behind, read_unsecured, read_behind,
  try_read_and_unsecure,
}

-- The receiver sees the same frame, with the counter of the sender.
pub received-IsAdmitted :
    (host : Endian) (counter : ℕ) (h : Header) (a : AuxiliarySecurityHeader) (c : SecurityContext)
    (address : Address) (key : ℕ × List ℕ)
    → IsAdmitted h a c address key
    → IsAdmitted
        (HeaderTrip.received host counter h)
        (AuxTrip.received host counter a)
        c
        address
        key
received-IsAdmitted host counter h a c address key v = record {
  secured = ap (HeaderTrip.received_security host counter) v.secured;
  has_data = v.has_data;
  recent = v.recent;
  has_level = v.has_level;
  has_source = v.has_source;
  has_key = v.has_key;
}

pub received_counter :
    (host : Endian) (counter : ℕ) (a : AuxiliarySecurityHeader)
    → host ≡ Endian.little
    → counter < 2 ^ 32
    → get_frame_counter (AuxTrip.received host counter a) ≡ counter
received_counter host counter a e below =
    ap (λ (e : Endian). value Endian.little (octets e 4 counter)) e
    ∙ value-octets Endian.little 4 counter below

module _ ⦃b : ByteLib⦄ where
  pub data_head-Reads :
      (h : Header) (counter : ℕ) (rest : List ℕ)
      → IsHeader h
      → h.frame_type ≡ FrameType.data_frame
      → Reads read_head
          (HeaderWrite.encoding b.native counter h)
          rest
          (HeaderTrip.received b.native counter h, FrameContent.data_content)
  unfolding read_head
  data_head-Reads h counter rest v e =
      subst
        (λ x.
          Reads read_head x rest
            (HeaderTrip.received b.native counter h, FrameContent.data_content))
        (append-nil (HeaderWrite.encoding b.native counter h))
        (Reads-bind _ {first = HeaderWrite.encoding b.native counter h}
          (Reads-read (HeaderTrip.header_round_trip h counter rest v))
          (Reads-map _ (content-Reads h FrameContent.data_content rest (sym e) tt tt)))

  pub payload-Reads :
      (t : Target) (h : Header) (c : FrameContent) (payload tag : List ℕ)
      → Reads
          (read_payload t h c (length tag))
          payload
          tag
          (record { header = h; content = c; payload = payload; footer = 0 ∷ 0 ∷ [] })
  payload-Reads t h c payload tag =
      Reads-bind _ {first = []} (size-Reads t payload tag (length tag) refl)
        (Reads-map _ (read_bytes-Reads payload tag))

  -- What the receiver makes of the frame.
  abbrev pub received_frame : Header → ℕ → List ℕ → Frame
  received_frame h counter payload = record {
    header = HeaderTrip.received b.native counter h;
    content = FrameContent.data_content;
    payload = payload;
    footer = 0 ∷ 0 ∷ [];
  }

  module _ (t : Target) (ccm : Ccm) (devices : DeviceDescriptorLookup) where
    -- The device after a frame with this counter.
    abbrev pub moved : Address → DeviceDescriptor → ℕ → devices.Store → devices.Store
    moved address d counter s =
        devices.assign AddressingMode.src_addr_mode address
          (record d { frame_counter = suc counter })
          (devices.lookup_device AddressingMode.src_addr_mode address s).0

    pub sealed_unsecured :
        (h : Header) (a : AuxiliarySecurityHeader) (c : SecurityContext) (s : devices.Store)
        (id : ℕ) (key : List ℕ) (address : Address) (d : DeviceDescriptor) (counter : ℕ)
        (plain part tag : List ℕ)
        → b.native ≡ Endian.little
        → IsAdmitted h a c address (id, key)
        → HasTag a.control.security_level
        → (devices.lookup_device AddressingMode.src_addr_mode address s).1 ≡ some d
        → d.frame_counter ≤ counter
        → counter < 0xFFFFFFFF
        → transform ccm a.control.security_level key
            (calculate_nonce id counter a.control.security_level)
            plain
          ≡ some (part, tag)
        → unsecure_frame t ccm devices
            (HeaderTrip.received b.native counter h)
            (part ++ tag)
            c
            FooterMode.none
            s
          ≡ (moved address d counter s, ok (plain ++ tag, length tag))
    sealed_unsecured h a c s id key address d counter plain part tag little v level found fresh
          below sealed =
        let same = received_counter b.native counter a little (omega arith) in
        subst
          (λ (n : ℕ).
            unsecure_frame t ccm devices (HeaderTrip.received b.native counter h) (part ++ tag) c
              FooterMode.none s
            ≡ (moved address d n s, ok (plain ++ tag, length tag)))
          same
          (payload_is_unsecured t ccm devices (HeaderTrip.received b.native counter h)
            (AuxTrip.received b.native counter a) c s id key address d plain part tag
            (received-IsAdmitted b.native counter h a c address (id, key) v) level found
            (rw same fresh) (rw same below) (rw same sealed))

    -- Behind the header of a secured frame `unsecure_frame` works.
    behind :
        (h : Header) (c : SecurityContext) (s : devices.Store) (counter : ℕ)
        (before sealed : List ℕ)
        → has_security (HeaderTrip.received b.native counter h) ≡ true
        → unsecure_behind t ccm devices
            (HeaderTrip.received b.native counter h)
            (new FooterMode.none (some c))
            (before ++ sealed)
            (length before)
            s
          ≡ unsecured t ccm devices (before ++ sealed) (length before) (
              unsecure_frame t ccm devices
                (HeaderTrip.received b.native counter h)
                sealed
                c
                FooterMode.none
                s)
    behind h c s counter before sealed secured = rw (
      secured,
      le→leb (length before) (length (before ++ sealed))
          (omega (arith, length-append before sealed)),
      drop-append before sealed,
    )

    -- Reading the octets of a secured data frame with anything behind its header.
    pub secured_data-read :
        (h : Header) (c : SecurityContext) (s : devices.Store) (counter : ℕ) (sealed : List ℕ)
        → IsHeader h
        → h.frame_type ≡ FrameType.data_frame
        → has_security (HeaderTrip.received b.native counter h) ≡ true
        → try_read_and_unsecure t ccm devices
            (HeaderWrite.encoding b.native counter h ++ sealed)
            (new FooterMode.none (some c))
            s
          ≡ read_unsecured t ccm devices
              (HeaderTrip.received b.native counter h)
              FrameContent.data_content
              (length (HeaderWrite.encoding b.native counter h))
              (unsecured t ccm devices
                (HeaderWrite.encoding b.native counter h ++ sealed)
                (length (HeaderWrite.encoding b.native counter h))
                (unsecure_frame t ccm devices
                  (HeaderTrip.received b.native counter h)
                  sealed
                  c
                  FooterMode.none
                  s))
    unfolding try_read_and_unsecure
    secured_data-read h c s counter sealed v e secured =
        let enc = HeaderWrite.encoding b.native counter h in
        let h' = HeaderTrip.received b.native counter h in
        ap (read_behind t ccm devices (new FooterMode.none (some c)) (enc ++ sealed) s)
          (Reads-start (data_head-Reads h counter sealed v e))
        ∙ ap (read_unsecured t ccm devices h' FrameContent.data_content (length enc))
            (behind h c s counter enc sealed secured)

    -- What `unsecure_frame` makes of the octets behind the header of a data frame is the payload.
    pub secured_is_read :
        (h : Header) (c : SecurityContext) (s s' : devices.Store) (counter : ℕ)
        (sealed plain tag : List ℕ)
        → IsHeader h
        → h.frame_type ≡ FrameType.data_frame
        → has_security (HeaderTrip.received b.native counter h) ≡ true
        → unsecure_frame t ccm devices
            (HeaderTrip.received b.native counter h)
            sealed
            c
            FooterMode.none
            s
          ≡ (s', ok (plain ++ tag, length tag))
        → try_read_and_unsecure t ccm devices
            (HeaderWrite.encoding b.native counter h ++ sealed)
            (new FooterMode.none (some c))
            s
          ≡ (
            s',
            ok (
              received_frame h counter plain,
              length (HeaderWrite.encoding b.native counter h) + length plain,
            ),
          )
    secured_is_read h c s s' counter sealed plain tag v e secured opened =
        let enc = HeaderWrite.encoding b.native counter h in
        let h' = HeaderTrip.received b.native counter h in
        let rest = read_unsecured t ccm devices h' FrameContent.data_content (length enc) in
        secured_data-read h c s counter sealed v e secured
        ∙ ap (λ r. rest (unsecured t ccm devices (enc ++ sealed) (length enc) r)) opened
        ∙ ap (λ (before : List ℕ). rest (s', ok (before ++ (plain ++ tag), length tag)))
            (take-append enc sealed)
        ∙ ap (λ (o : Outcome b.Error (Frame × ℕ)). (s', map_err of_byte_error o))
            ((payload-Reads t h' FrameContent.data_content plain tag).at enc)
