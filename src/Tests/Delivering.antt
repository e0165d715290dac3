-- ===== src/Tests/Delivering.antt =====
-- Messages over a channel that loses and repeats frames, and what is read from octets.
use rust_ieee.Base.{
  ℕ, Bool, true, Option, ◌&&◌, ltb, ◌<◌, ◌≤◌, ◌≡◌, refl, arith, none, some, List, [], ◌∷◌, ◌++◌,
  length, replicate,
}
use rust_ieee.Base.Octets.{Endian}
use mathlib.Core.Logic.{◌↔◌}
use rust_ieee.Outcome.{ok, panic}
use rust_ieee.Address.{Address}
use rust_ieee.Address.Mode
use rust_ieee.Address.PanId
use rust_ieee.Address.ShortAddress
use rust_ieee.Address.Codec as AddressCodec
use rust_ieee.FrameControl
use rust_ieee.FrameControl.FrameType
use rust_ieee.FrameControl.FrameVersion
use rust_ieee.Security.Secure
use rust_ieee.ByteLib.Yields.{AreOctets}
use rust_ieee.Header.{Header, IsHeader}
use rust_ieee.Header.Read
use rust_ieee.Header.RoundTrip.{header_round_trip}
use rust_ieee.Header.Valid.{header_is_read_again}
use rust_ieee.Header.Write.{encoding, try_write}
use rust_ieee.Header.Returning.{rewriting_panics_iff}
use rust_ieee.Frame.{FrameContent, FooterMode}
use rust_ieee.Frame.RoundTrip.{frame_round_trip}
use rust_ieee.Frame.Valid.{Survives, frame_is_read_again}
use rust_ieee.Tests.Frames.{data_frame}
use rust_ieee.Frame.Delivery.{Message, exchange, log_of_all, advanced, AreDeliverable}
use rust_ieee.Frame.Delivery.Once.{messages_are_delivered_once}
use rust_ieee.Frame.Secured.{IsSecurable}
use rust_ieee.Frame.Write.{new}
use rust_ieee.Tests.{host, debug, data_header, data_header-IsHeader, header_octets}
use rust_ieee.Tests.Securing.{plain_ccm, aux_header, secured_header, context}
use rust_ieee.Tests.Unsecuring.{
  one_device, device_at, source_address, receiver, header_at-IsAdmitted,
}
use rust_ieee.Tests.Writing.{secured_header-IsHeader}

abbrev message : ℕ → List ℕ → Message
message copies payload = record {
  header = secured_header;
  aux = aux_header;
  plain = payload;
  footer = 0 ∷ 0 ∷ [];
  buffer = replicate 40 0xff;
  copies = copies;
  id = 1;
  key = replicate 16 0x11;
  part = payload;
  tag = replicate 4 0;
}

-- The first message is repeated, the second is lost.
abbrev messages : List Message
messages = message 2 (0xde ∷ 0xf0 ∷ []) ∷ message 0 (1 ∷ []) ∷ message 1 (2 ∷ []) ∷ []

message-IsSecurable :
    (n : ℕ) (payload : List ℕ)
    → n < 0xFFFFFFFF
    → length payload ≤ 2
    → IsSecurable plain_ccm secured_header aux_header
        (record context { frame_counter = n })
        1
        (replicate 16 0x11)
        payload
        payload
        (replicate 4 0)
message-IsSecurable n payload below short = record {
  small = omega arith;
  has_tag = tt;
  below = below;
  has_key = refl;
  sealed = unfold Secure.transform in refl;
}

messages-AreDeliverable :
    AreDeliverable ⦃b = host⦄ debug plain_ccm one_device receiver source_address context messages
messages-AreDeliverable =
    let v = secured_header-IsHeader in
    let v' = header_at-IsAdmitted 0 in
    let first = message-IsSecurable 5 (0xde ∷ 0xf0 ∷ []) (omega arith) (omega arith) in
    let second = message-IsSecurable 6 (1 ∷ []) (omega arith) (omega arith) in
    let third = message-IsSecurable 7 (2 ∷ []) (omega arith) (omega arith) in
    (v, first, v', omega arith, (v, second, v', omega arith, (v, third, v', omega arith, tt)))

messages_are_delivered_once_example :
    (s' : one_device.Store) × (exchange ⦃b = host⦄ debug plain_ccm one_device receiver messages
        (new FooterMode.none (some context))
        (device_at 3)
      ≡ (log_of_all ⦃b = host⦄ messages, new FooterMode.none (some (advanced context 3)), s'))
messages_are_delivered_once_example =
    messages_are_delivered_once ⦃b = host⦄ debug plain_ccm one_device receiver source_address
      messages context (device_at 3) 3 refl messages-AreDeliverable (device_at 3, refl, refl)
      (omega arith)

-- A test for octets.
abbrev all_small : List ℕ → Bool
all_small [] = true
all_small (x ∷ xs) = ltb x 256 && all_small xs

all_small-AreOctets : (xs : List ℕ) → all_small xs ≡ true → AreOctets xs
all_small-AreOctets [] h = tt
all_small-AreOctets (x ∷ xs) h = (ground (arith, h), all_small-AreOctets xs (ground (arith, h)))

header_is_read_again_example :
    IsHeader data_header
    × (Read.try_read ⦃b = host⦄ (encoding Endian.little 0 data_header ++ (7 ∷ []))
        ≡ ok (data_header, length (encoding Endian.little 0 data_header)))
header_is_read_again_example =
    header_is_read_again ⦃b = host⦄ (header_octets ++ (0xde ∷ 0xf0 ∷ [])) data_header 11 0 (7 ∷ [])
      (all_small-AreOctets (header_octets ++ (0xde ∷ 0xf0 ∷ [])) refl)
      (header_round_trip ⦃b = host⦄ data_header 0 (0xde ∷ 0xf0 ∷ []) data_header-IsHeader) refl

-- A source that is to be compressed and is not there, as octets and as it is read.
abbrev sourceless : Header
sourceless = record data_header { source = none; pan_id_compress = true }

abbrev sourceless_octets : List ℕ
sourceless_octets = 0x41 ∷ 0x18 ∷ 0x00 ∷ 0x34 ∷ 0x12 ∷ 0x78 ∷ 0x56 ∷ []

sourceless_is_read : Read.try_read ⦃b = host⦄ sourceless_octets ≡ ok (sourceless, 7)
unfolding Read.try_read Read.read_fields FrameControl.decode FrameVersion.from_bits
    FrameType.from_bits Mode.from_bits AddressCodec.read_full AddressCodec.read_compressed
    PanId.try_read ShortAddress.try_read
sourceless_is_read = refl

rewriting_panics_iff_example :
    (try_write ⦃b = host⦄ sourceless none (replicate 7 0xff) ≡ panic)
    ↔ (◌≡◌ {A = Bool} true true × ◌≡◌ {A = Option Address} none none)
rewriting_panics_iff_example =
    rewriting_panics_iff ⦃b = host⦄ sourceless_octets sourceless 7 none (replicate 7 0xff)
      (all_small-AreOctets sourceless_octets refl) sourceless_is_read (omega arith)

frame_is_read_again_example :
    Survives ⦃b = host⦄ plain_ccm debug FooterMode.explicit none (replicate 15 0) data_frame
frame_is_read_again_example =
    frame_is_read_again ⦃b = host⦄ plain_ccm debug FooterMode.explicit none
      (header_octets ++ (0xde ∷ 0xf0 ∷ 0x12 ∷ 0x34 ∷ [])) (replicate 15 0) data_frame 15
      (all_small-AreOctets (header_octets ++ (0xde ∷ 0xf0 ∷ 0x12 ∷ 0x34 ∷ [])) refl)
      (frame_round_trip ⦃b = host⦄ debug FooterMode.explicit data_header FrameContent.data_content
        (0xde ∷ 0xf0 ∷ []) 0x3412 data_header-IsHeader refl refl tt tt (omega arith))
      refl tt (omega arith)
