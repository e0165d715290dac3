-- ===== src/Frame/Delivery/Once.antt =====
-- Messages from a sender to a receiver, `TryWrite` of `Frame` and `Frame::try_read_and_unsecure` of
-- src/mac/frame/mod.rs.
use rust_ieee.Base.{
  ℕ, suc, ◌≤◌, ◌≡◌, ap, ◌∙◌, arith, some, List, [], ◌∷◌, ◌++◌, take, length, replicate,
}
use rust_ieee.Base.Octets.{Endian}
use rust_ieee.Outcome.{Outcome, ok}
use rust_ieee.Target.{Target}
use rust_ieee.ByteLib.{ByteLib}
use rust_ieee.Address.{Address}
use rust_ieee.Security.Ccm.{Ccm}
use rust_ieee.Security.Context.{SecurityContext}
use rust_ieee.Security.Device.{DeviceDescriptorLookup}
use rust_ieee.Security.Unsecure.Replay.{CounterIs}
use rust_ieee.Frame.{FooterMode}
use rust_ieee.Frame.Write.{FrameSerDesContext, new, try_write}
use rust_ieee.Frame.Secured.{sealed_octets, sealed_is_put}
use rust_ieee.Frame.Delivery.{
  Log, Message, frame_of, advanced, log_of, log_of_all, on_air, receive_all, exchange,
  AreDeliverable,
}
use rust_ieee.Frame.Delivery.Copies.{copies_received}

module _ ⦃b : ByteLib⦄ where
  module _ (t : Target) (ccm : Ccm) (devices : DeviceDescriptorLookup)
      (receiver : SecurityContext) where
    abbrev Exchanged : Type 0
    Exchanged = Log × FrameSerDesContext × devices.Store

    -- One message that is written, and what follows.
    exchange_step :
        (m : Message) (ms : List Message) (c c' c'' : FrameSerDesContext) (s s' : devices.Store)
        (out octets : List ℕ) (k : ℕ) (log later : Log)
        → try_write ccm (frame_of m) c m.buffer ≡ (c', ok (out, k))
        → take k out ≡ octets
        → (receive_all t ccm devices receiver (replicate m.copies octets) s).0 ≡ log
        → exchange t ccm devices receiver ms c'
            (receive_all t ccm devices receiver (replicate m.copies octets) s).1
          ≡ (later, c'', s')
        → exchange t ccm devices receiver (m ∷ ms) c s ≡ (log ++ later, c'', s')
    unfolding exchange
    exchange_step m ms c c' c'' s s' out octets k log later written air received rest =
        let first = receive_all t ccm devices receiver (replicate m.copies octets) s in
        let joined : Log × devices.Store → FrameSerDesContext → Exchanged = λ r x. (
          r.0 ++ (exchange t ccm devices receiver ms x r.1).0,
          (exchange t ccm devices receiver ms x r.1).1,
          (exchange t ccm devices receiver ms x r.1).2,
        ) in
        ap
          (λ (w : FrameSerDesContext × Outcome b.Error (List ℕ × ℕ)).
            joined (receive_all t ccm devices receiver (on_air m.copies w.1) s) w.0)
          written
        ∙ ap
            (λ (x : List ℕ).
              joined (receive_all t ccm devices receiver (replicate m.copies x) s) c')
            air
        ∙ ap (λ (l : Exchanged). (first.0 ++ l.0, l.1, l.2)) rest
        ∙ ap (λ (l : Log). (l ++ later, c'', s')) received

    module _ (address : Address) where
      -- On a little-endian host, for messages that are deliverable from one sender to one receiver:
      -- data frames with valid headers, of a version after 2003, all from the one source address,
      -- with a level that has a tag, small enough for a packet and for their buffers, whose counters
      -- are below the maximum, for which sender and receiver find the same key, the receiver
      -- together with the identifier of the sender, and which the cipher seals; and where the
      -- receiver has a device for the address whose counter is not above that of the sender. Over a
      -- channel that delivers each written frame any number of times before the next one, the
      -- receiver gets the payload of every such message that arrives at all exactly once and in
      -- order, and refuses every further copy with `CounterError`; the counter of the sender has
      -- advanced by one for each message.
      pub messages_are_delivered_once :
          (ms : List Message) (sender : SecurityContext) (s : devices.Store) (n : ℕ)
          → b.native ≡ Endian.little
          → AreDeliverable t ccm devices receiver address sender ms
          → CounterIs t ccm devices address s n
          → n ≤ sender.frame_counter
          → (s' : devices.Store) × (exchange t ccm devices receiver ms
                (new FooterMode.none (some sender))
                s
              ≡ (log_of_all ms, new FooterMode.none (some (advanced sender (length ms))), s'))
      unfolding exchange
      messages_are_delivered_once [] sender s n little deliverable here fresh = (
        s,
        ap (λ (k : ℕ). ([], new FooterMode.none (some (record sender { frame_counter = k })), s))
            (omega arith),
      )
      messages_are_delivered_once (m ∷ ms) sender s n little (v, can, v', room, rest) here fresh =
          let (out, written, air) =
            sealed_is_put t ccm devices m.header m.aux sender receiver m.id m.key address m.plain
              m.part m.tag m.footer m.buffer v can v' room in
          let octets = sealed_octets m.header sender.frame_counter m.part m.tag in
          let c' = record sender { frame_counter = suc sender.frame_counter } in
          let (log, n', there, le) =
            copies_received t ccm devices receiver address m sender s n little v can v' here fresh
              m.copies in
          let (s', later) =
            messages_are_delivered_once ms c'
              (receive_all t ccm devices receiver (replicate m.copies octets) s).1 n' little rest
              there le in
          (
            s',
            exchange_step m ms (new FooterMode.none (some sender)) (new FooterMode.none (some c'))
                  (new FooterMode.none (some (advanced c' (length ms)))) s s' out octets _
                  (log_of m.copies m.plain) (log_of_all ms) written air log later
                ∙ ap
                    (λ (k : ℕ). (
                      log_of_all (m ∷ ms),
                      new FooterMode.none (some (record sender { frame_counter = k })),
                      s',
                    ))
                    (omega arith),
          )
