-- ===== src/Frame/Delivery/Copies.antt =====
-- The copies of one secured frame at its receiver, `Frame::try_read_and_unsecure` of
-- src/mac/frame/mod.rs.
use mathlib.Core.Path.{subst}
use rust_ieee.Base.{
  ℕ, zero, suc, ◌≤◌, ◌<◌, ◌≡◌, refl, sym, ap, ◌∙◌, arith, some, List, ◌∷◌, ◌++◌, length, replicate,
}
use rust_ieee.Base.Octets.{Endian}
use rust_ieee.Outcome.{Outcome, err}
use rust_ieee.Target.{Target}
use rust_ieee.ByteLib.{ByteLib}
use rust_ieee.Address.{Address}
use rust_ieee.Security.AuxHeader.{AuxiliarySecurityHeader}
use rust_ieee.Security.AuxHeader.RoundTrip as AuxTrip
use rust_ieee.Security.Ccm.{Ccm}
use rust_ieee.Security.Context.{SecurityContext, AddressingMode}
use rust_ieee.Security.Device.{DeviceDescriptorLookup}
use rust_ieee.Security.Error.{SecurityError}
use rust_ieee.Security.Unsecure.Admitted.{IsAdmitted, admitted}
use rust_ieee.Security.Unsecure.Replay.{CounterIs, found_again}
use rust_ieee.Security.Unsecure.Window.{refused}
use rust_ieee.Header.{Header, IsHeader, is_some}
use rust_ieee.Header.Write as HeaderWrite
use rust_ieee.Header.RoundTrip as HeaderTrip
use rust_ieee.Frame.{Frame, FrameContent, FooterMode}
use rust_ieee.Frame.Write.{new}
use rust_ieee.Frame.Secured.{IsSecurable, sealed_octets, sealed_is_read}
use rust_ieee.Frame.Unsecure.{unsecured, read_unsecured, try_read_and_unsecure}
use rust_ieee.Frame.Unsecure.RoundTrip.{
  moved, received_counter, received-IsAdmitted, secured_data-read,
}
use rust_ieee.Frame.Delivery.{Log, Message, log_of, entry, receive_all}

module _ ⦃b : ByteLib⦄ where
  module _ (t : Target) (ccm : Ccm) (devices : DeviceDescriptorLookup)
      (receiver : SecurityContext) where
    module _ (address : Address) where
      -- A frame whose counter is behind that of the device.
      replayed_octets :
          (h : Header) (a : AuxiliarySecurityHeader) (s : devices.Store) (key : ℕ × List ℕ)
          (counter n : ℕ) (part tag : List ℕ)
          → b.native ≡ Endian.little
          → IsHeader h
          → IsAdmitted h a receiver address key
          → counter < 0xFFFFFFFF
          → counter < n
          → CounterIs t ccm devices address s n
          → try_read_and_unsecure t ccm devices
              (sealed_octets h counter part tag)
              (new FooterMode.none (some receiver))
              s
            ≡ (
              (devices.lookup_device AddressingMode.src_addr_mode address s).0,
              err SecurityError.counter_error,
            )
      replayed_octets h a s key counter n part tag little v v' below behind here =
          let h' = HeaderTrip.received b.native counter h in
          let a' = AuxTrip.received b.native counter a in
          let w = received-IsAdmitted b.native counter h a receiver address key v' in
          let enc = HeaderWrite.encoding b.native counter h in
          let same = received_counter b.native counter a little (omega arith) in
          secured_data-read t ccm devices h receiver s counter (part ++ tag) v v'.has_data
            (ap is_some w.secured)
          ∙ ap
              (λ (r : devices.Store × Outcome SecurityError (List ℕ × ℕ)).
                read_unsecured t ccm devices h' FrameContent.data_content (length enc)
                  (unsecured t ccm devices (enc ++ (part ++ tag)) (length enc) r))
              (admitted t ccm devices h' a' receiver address key (part ++ tag) s w
                ∙ refused t ccm devices address a' key (part ++ tag) s n (omega arith) here)

      -- The octets are a replay for a receiver whose device is at `n`.
      abbrev IsReplay : List ℕ → ℕ → Type 0
      IsReplay octets n =
          (s : devices.Store)
          → CounterIs t ccm devices address s n
          → try_read_and_unsecure t ccm devices octets (new FooterMode.none (some receiver)) s ≡ (
            (devices.lookup_device AddressingMode.src_addr_mode address s).0,
            err SecurityError.counter_error,
          )

      -- The receiver ends with this log, and with the device at most at this counter.
      abbrev pub EndsWith : Log × devices.Store → Log → ℕ → Type 0
      EndsWith r log bound =
          (r.0 ≡ log) × (n : ℕ) × CounterIs t ccm devices address r.1 n × (n ≤ bound)

      first_read :
          (octets : List ℕ) (rest : List (List ℕ)) (s s' : devices.Store)
          (o : Outcome SecurityError (Frame × ℕ)) (log : Log) (n : ℕ)
          → try_read_and_unsecure t ccm devices octets (new FooterMode.none (some receiver)) s
            ≡ (s', o)
          → EndsWith (receive_all t ccm devices receiver rest s') log n
          → EndsWith (receive_all t ccm devices receiver (octets ∷ rest) s) (entry o ∷ log) n
      unfolding receive_all
      first_read octets rest s s' o log n e (same, m, there, le) =
          subst
            (λ (r : devices.Store × Outcome SecurityError (Frame × ℕ)).
              EndsWith
                (
                  entry r.1 ∷ (receive_all t ccm devices receiver rest r.0).0,
                  (receive_all t ccm devices receiver rest r.0).1,
                )
                (entry o ∷ log) n)
            (sym e) (ap (λ (l : Log). entry o ∷ l) same, m, there, le)

      replays_refused :
          (k : ℕ) (octets : List ℕ) (s : devices.Store) (n : ℕ)
          → IsReplay octets n
          → CounterIs t ccm devices address s n
          → EndsWith
              (receive_all t ccm devices receiver (replicate k octets) s)
              (replicate k (err SecurityError.counter_error))
              n
      unfolding receive_all
      replays_refused zero octets s n replay here = (refl, n, here, omega arith)
      replays_refused (suc k) octets s n replay here =
          first_read octets (replicate k octets) s _ _ _ n (replay s here) (
            replays_refused k octets
              (devices.lookup_device AddressingMode.src_addr_mode address s).0 n replay
              (found_again t ccm devices address s n here))

      -- A message that can be delivered, in as many copies as the channel makes of it.
      pub copies_received :
          (m : Message) (sender : SecurityContext) (s : devices.Store) (n : ℕ)
          → b.native ≡ Endian.little
          → IsHeader m.header
          → IsSecurable ccm m.header m.aux sender m.id m.key m.plain m.part m.tag
          → IsAdmitted m.header m.aux receiver address (sender.euid, m.key)
          → CounterIs t ccm devices address s n
          → n ≤ sender.frame_counter
          → (copies : ℕ)
          → EndsWith
              (receive_all t ccm devices receiver
                (replicate copies (sealed_octets m.header sender.frame_counter m.part m.tag))
                s)
              (log_of copies m.plain)
              (suc sender.frame_counter)
      unfolding receive_all
      copies_received m sender s n little v can v' here fresh zero = (refl, n, here, omega arith)
      copies_received m sender s n little v can v' (d, found, count) fresh (suc k) =
          let octets = sealed_octets m.header sender.frame_counter m.part m.tag in
          let s' = moved t ccm devices address d sender.frame_counter s in
          let after : CounterIs t ccm devices address s' (suc sender.frame_counter) = (
            record d { frame_counter = suc sender.frame_counter },
            devices.lookup_assign AddressingMode.src_addr_mode address s d
                (record d { frame_counter = suc sender.frame_counter }) found,
            refl,
          ) in
          let replay : IsReplay octets (suc sender.frame_counter) = λ x there.
            replayed_octets m.header m.aux x (sender.euid, m.key) sender.frame_counter
              (suc sender.frame_counter) m.part m.tag little v v' can.below (omega arith) there in
          first_read octets (replicate k octets) s s' _ _ (suc sender.frame_counter)
            (sealed_is_read t ccm devices m.header m.aux sender receiver s m.id m.key address d
              m.plain m.part m.tag little v can v' found (omega (arith, count)))
            (replays_refused k octets s' (suc sender.frame_counter) replay after)
