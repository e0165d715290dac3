-- ===== src/Frame/Delivery.antt =====
-- Secured frames of one sender to one receiver, one after the other, over a channel that loses and
-- repeats frames: `TryWrite` of `Frame` and `Frame::try_read_and_unsecure`, src/mac/frame/mod.rs.
pub mod Copies
pub mod Once
use mathlib.Core.Path.{subst}
use rust_ieee.Base.{
  ℕ, zero, suc, ◌+◌, ◌≤◌, ◌<◌, ◌≡◌, refl, sym, ap, ◌∙◌, arith, Option, none, some, List, [], ◌∷◌,
  ◌++◌, take, length, replicate,
}
use rust_ieee.Base.Octets.{Endian}
use rust_ieee.Outcome.{Outcome, ok, err, panic}
use rust_ieee.Target.{Target}
use rust_ieee.ByteLib.{ByteLib}
use rust_ieee.Address.{Address}
use rust_ieee.Security.AuxHeader.{AuxiliarySecurityHeader, get_frame_counter}
use rust_ieee.Security.AuxHeader.RoundTrip as AuxTrip
use rust_ieee.Security.Ccm.{Ccm}
use rust_ieee.Security.Context.{SecurityContext, AddressingMode}
use rust_ieee.Security.Device.{DeviceDescriptor, DeviceDescriptorLookup}
use rust_ieee.Security.Error.{SecurityError}
use rust_ieee.Security.Unsecure.{unsecure_frame}
use rust_ieee.Security.Unsecure.Admitted.{IsAdmitted, admitted}
use rust_ieee.Security.Unsecure.Replay.{CounterIs, found_again}
use rust_ieee.Security.Unsecure.Window.{refused}
use rust_ieee.Header.{Header, IsHeader, is_some}
use rust_ieee.Header.Write as HeaderWrite
use rust_ieee.Header.RoundTrip as HeaderTrip
use rust_ieee.Frame.{Frame, FrameContent, FooterMode}
use rust_ieee.Frame.Write.{FrameSerDesContext, new, try_write}
use rust_ieee.Frame.Secured.{IsSecurable, sealed_octets, sealed_is_put, sealed_is_read}
use rust_ieee.Frame.Unsecure.{unsecured, read_unsecured, try_read_and_unsecure}
use rust_ieee.Frame.Unsecure.RoundTrip.{
  moved, received_counter, received-IsAdmitted, secured_data-read,
}

-- A message: its header and payload, the buffer that it is written to, how often the channel
-- delivers it, and what the cipher makes of it under its key.
pub record Message : Type 0 where
  pub header : Header
  pub aux : AuxiliarySecurityHeader
  pub plain : List ℕ
  pub footer : List ℕ
  pub buffer : List ℕ
  pub copies : ℕ
  pub id : ℕ
  pub key : List ℕ
  pub part : List ℕ
  pub tag : List ℕ

abbrev pub frame_of : Message → Frame
frame_of m = record {
  header = m.header;
  content = FrameContent.data_content;
  payload = m.plain;
  footer = m.footer;
}

abbrev pub advanced : SecurityContext → ℕ → SecurityContext
advanced sender n = record sender { frame_counter = sender.frame_counter + n }

module _ ⦃b : ByteLib⦄ where
  -- What reading a frame gives the receiver.
  abbrev pub Log : Type 0
  Log = List (Outcome SecurityError (List ℕ))

  -- Of the copies of a message the first is received, the others are refused as replays.
  abbrev pub log_of : ℕ → List ℕ → Log
  log_of zero plain = []
  log_of (suc n) plain = ok plain ∷ replicate n (err SecurityError.counter_error)

  abbrev pub log_of_all : List Message → Log
  log_of_all [] = []
  log_of_all (m ∷ ms) = log_of m.copies m.plain ++ log_of_all ms

  -- The channel delivers the octets that were written; what could not be written is not sent.
  abbrev pub on_air : ℕ → Outcome b.Error (List ℕ × ℕ) → List (List ℕ)
  on_air copies (ok (out, n)) = replicate copies (take n out)
  on_air copies (err e) = []
  on_air copies panic = []

  abbrev pub entry : Outcome SecurityError (Frame × ℕ) → Outcome SecurityError (List ℕ)
  entry (ok (f, n)) = ok f.payload
  entry (err e) = err e
  entry panic = panic

  module _ (t : Target) (ccm : Ccm) (devices : DeviceDescriptorLookup)
      (receiver : SecurityContext) where
    -- The receiver reads what arrives, in turn.
    unfoldable pub receive_all : List (List ℕ) → devices.Store → Log × devices.Store
    receive_all [] s = ([], s)
    receive_all (octets ∷ rest) s =
        let r =
          try_read_and_unsecure t ccm devices octets (new FooterMode.none (some receiver)) s in
        let later = receive_all rest r.0 in (entry r.1 ∷ later.0, later.1)

    -- The sender writes the messages, in turn.
    unfoldable pub exchange :
        List Message → FrameSerDesContext → devices.Store → Log × FrameSerDesContext × devices.Store
    exchange [] c s = ([], c, s)
    exchange (m ∷ ms) c s =
        let w = try_write ccm (frame_of m) c m.buffer in
        let r = receive_all (on_air m.copies w.1) s in
        let later = exchange ms w.0 r.1 in (r.0 ++ later.0, later.1, later.2)

    module _ (address : Address) where
      -- The headers are valid, the sender can secure the messages with its counters in turn, there is
      -- room for them, and the receiver admits them: their version is after 2003, they come from the
      -- address, and it has their key and the identifier of the sender.
      abbrev pub AreDeliverable : SecurityContext → List Message → Type 0
      AreDeliverable sender [] = Unit
      AreDeliverable sender (m ∷ ms) =
          IsHeader m.header
          × IsSecurable ccm m.header m.aux sender m.id m.key m.plain m.part m.tag
          × IsAdmitted m.header m.aux receiver address (sender.euid, m.key)
          × (length (HeaderWrite.encoding b.native sender.frame_counter m.header)
                + (length m.plain + length m.tag)
              ≤ length m.buffer)
          × AreDeliverable (record sender { frame_counter = suc sender.frame_counter }) ms
