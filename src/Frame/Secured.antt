-- ===== src/Frame/Secured.antt =====
-- A secured frame from its sender, `TryWrite` of `Frame`, to its receiver,
-- `Frame::try_read_and_unsecure`, src/mac/frame/mod.rs.
use rust_ieee.Base.{
  ℕ, suc, ◌+◌, ◌≤◌, ◌<◌, ◌≡◌, ap, ◌∙◌, arith, some, List, ◌++◌, take, drop, length, length-append,
  length-drop, append_assoc, take-append,
}
use rust_ieee.Base.Octets.{Endian}
use rust_ieee.Outcome.{ok}
use rust_ieee.Target.{Target}
use rust_ieee.ByteLib.{ByteLib}
use rust_ieee.Address.{Address}
use rust_ieee.Security.AuxHeader.{AuxiliarySecurityHeader}
use rust_ieee.Security.Ccm.{Ccm}
use rust_ieee.Security.Context.{SecurityContext, AddressingMode}
use rust_ieee.Security.Device.{DeviceDescriptor, DeviceDescriptorLookup}
use rust_ieee.Security.Nonce.{calculate_nonce}
use rust_ieee.Security.Secure.{packet_size, transform}
use rust_ieee.Security.Secure.Cipher.{HasTag, length-transform}
use rust_ieee.Security.Secure.Payload.{payload_is_secured}
use rust_ieee.Security.Unsecure.Admitted.{IsAdmitted}
use rust_ieee.Header.{Header, IsHeader, is_some}
use rust_ieee.Header.Write as HeaderWrite
use rust_ieee.Frame.{FrameContent, FooterMode}
use rust_ieee.Frame.Write.{new, try_write}
use rust_ieee.Frame.Write.Secured.{secured_is_put}
use rust_ieee.Frame.Unsecure.{try_read_and_unsecure}
use rust_ieee.Frame.Unsecure.RoundTrip.{
  received-IsAdmitted, received_frame, moved, sealed_unsecured, secured_is_read,
}

-- What was written is a part of the buffer.
taken :
    (enc part tag rest : List ℕ) (n : ℕ)
    → length part ≡ n
    → take (length enc + (n + length tag)) (enc ++ (part ++ (tag ++ rest))) ≡ enc ++ (part ++ tag)
taken enc part tag rest n e =
    rw (← append_assoc part tag rest, ← append_assoc enc (part ++ tag) rest)
      (ap (λ (k : ℕ). take k ((enc ++ (part ++ tag)) ++ rest))
          (omega (arith, length-append enc (part ++ tag), length-append part tag, e))
        ∙ take-append (enc ++ (part ++ tag)) rest)

-- The sender has the key and a counter to secure the payload of this header to this text and tag.
pub record IsSecurable (ccm : Ccm) (h : Header) (a : AuxiliarySecurityHeader)
    (sender : SecurityContext) (id : ℕ) (key plain part tag : List ℕ) : Type 0 where
  pub small : packet_size h a plain ≤ 127
  pub has_tag : HasTag a.control.security_level
  pub below : sender.frame_counter < 0xFFFFFFFF
  pub has_key :
      sender.key_provider.lookup_key_descriptor AddressingMode.dst_addr_mode a.key_identifier
        h.destination
      ≡ some (id, key)
  pub sealed :
      transform ccm a.control.security_level key
        (calculate_nonce sender.euid sender.frame_counter a.control.security_level)
        plain
      ≡ some (part, tag)

module _ ⦃b : ByteLib⦄ where
  -- The octets on the air.
  abbrev pub sealed_octets : Header → ℕ → List ℕ → List ℕ → List ℕ
  sealed_octets h counter part tag = HeaderWrite.encoding b.native counter h ++ (part ++ tag)

module _ ⦃b : ByteLib⦄ (t : Target) (ccm : Ccm) (devices : DeviceDescriptorLookup) where
  pub sealed_is_put :
      (h : Header) (a : AuxiliarySecurityHeader) (sender receiver : SecurityContext) (id : ℕ)
      (key : List ℕ) (address : Address) (plain part tag footer bytes : List ℕ)
      → IsHeader h
      → IsSecurable ccm h a sender id key plain part tag
      → IsAdmitted h a receiver address (sender.euid, key)
      → length (HeaderWrite.encoding b.native sender.frame_counter h) + (length plain + length tag)
        ≤ length bytes
      → (out : List ℕ) × (try_write ccm
            (record {
              header = h;
              content = FrameContent.data_content;
              payload = plain;
              footer = footer;
            })
            (new FooterMode.none (some sender))
            bytes
          ≡ (
            new FooterMode.none (some (record sender { frame_counter = suc sender.frame_counter })),
            ok (
              out,
              length (HeaderWrite.encoding b.native sender.frame_counter h)
                  + length plain
                  + length tag,
            ),
          ))
        × (take
              (length (HeaderWrite.encoding b.native sender.frame_counter h)
                + length plain
                + length tag)
              out
            ≡ sealed_octets h sender.frame_counter part tag)
  sealed_is_put h a sender receiver id key address plain part tag footer bytes v can v' room =
      let enc = HeaderWrite.encoding b.native sender.frame_counter h in
      let buffer = drop (length enc) bytes in
      let rest = drop (length plain + length tag) buffer in
      let short = length-transform ccm a.control.security_level key _ plain part tag can.sealed in
      let secured =
        payload_is_secured ccm h plain a sender buffer id key part tag v'.secured v'.has_data
          can.small can.has_tag can.below can.has_key can.sealed
          (omega (arith, length-drop (length enc) bytes)) in
      (
        enc ++ (part ++ (tag ++ rest)),
        secured_is_put ccm h plain footer sender _ bytes _ _ v (omega arith) secured
            ∙ ap
                (λ (n : ℕ). (
                  new FooterMode.none
                      (some (record sender { frame_counter = suc sender.frame_counter })),
                  ok (enc ++ (part ++ (tag ++ rest)), n),
                ))
                (omega arith),
        ap (λ (n : ℕ). take n (enc ++ (part ++ (tag ++ rest)))) (omega arith)
            ∙ taken enc part tag rest (length plain) short,
      )

  pub sealed_is_read :
      (h : Header) (a : AuxiliarySecurityHeader) (sender receiver : SecurityContext)
      (s : devices.Store) (id : ℕ) (key : List ℕ) (address : Address) (d : DeviceDescriptor)
      (plain part tag : List ℕ)
      → b.native ≡ Endian.little
      → IsHeader h
      → IsSecurable ccm h a sender id key plain part tag
      → IsAdmitted h a receiver address (sender.euid, key)
      → (devices.lookup_device AddressingMode.src_addr_mode address s).1 ≡ some d
      → d.frame_counter ≤ sender.frame_counter
      → try_read_and_unsecure t ccm devices
          (sealed_octets h sender.frame_counter part tag)
          (new FooterMode.none (some receiver))
          s
        ≡ (
          moved t ccm devices address d sender.frame_counter s,
          ok (
            received_frame h sender.frame_counter plain,
            length (HeaderWrite.encoding b.native sender.frame_counter h) + length plain,
          ),
        )
  sealed_is_read h a sender receiver s id key address d plain part tag little v can v' found fresh =
      let admitted' = received-IsAdmitted b.native sender.frame_counter h a receiver address _ v' in
      secured_is_read t ccm devices h receiver s _ sender.frame_counter (part ++ tag) plain tag v
        v'.has_data (ap is_some admitted'.secured)
        (sealed_unsecured t ccm devices h a receiver s sender.euid key address d
          sender.frame_counter plain part tag little v' can.has_tag found fresh can.below
          can.sealed)

  -- On a little-endian host, a valid data frame that the sender can secure, of a version after 2003
  -- and from an address, is written into a buffer with room for it, and the counter of the sender
  -- advances. Where the receiver finds for the source the sender's identifier, the same key and a
  -- device whose counter is not above the sender's, what was written is read back with the plain
  -- payload; the header differs at most in the security header, which carries the sender's counter,
  -- and the device is one past that. The size that is returned leaves out the tag.
  pub secured_frame_round_trip :
      (h : Header) (a : AuxiliarySecurityHeader) (sender receiver : SecurityContext)
      (s : devices.Store) (id : ℕ) (key : List ℕ) (address : Address) (d : DeviceDescriptor)
      (plain part tag footer bytes : List ℕ)
      → b.native ≡ Endian.little
      → IsHeader h
      → IsSecurable ccm h a sender id key plain part tag
      → IsAdmitted h a receiver address (sender.euid, key)
      → (devices.lookup_device AddressingMode.src_addr_mode address s).1 ≡ some d
      → d.frame_counter ≤ sender.frame_counter
      → length (HeaderWrite.encoding b.native sender.frame_counter h) + (length plain + length tag)
        ≤ length bytes
      → (out : List ℕ) × (size : ℕ) × (try_write ccm
            (record {
              header = h;
              content = FrameContent.data_content;
              payload = plain;
              footer = footer;
            })
            (new FooterMode.none (some sender))
            bytes
          ≡ (
            new FooterMode.none (some (record sender { frame_counter = suc sender.frame_counter })),
            ok (out, size + length tag),
          ))
        × (try_read_and_unsecure t ccm devices
              (take (size + length tag) out)
              (new FooterMode.none (some receiver))
              s
            ≡ (
              moved t ccm devices address d sender.frame_counter s,
              ok (received_frame h sender.frame_counter plain, size),
            ))
  secured_frame_round_trip h a sender receiver s id key address d plain part tag footer bytes little
        v can v' found fresh room =
      let (out, written, air) =
        sealed_is_put h a sender receiver id key address plain part tag footer bytes v can v'
          room in
      (
        out,
        length (HeaderWrite.encoding b.native sender.frame_counter h) + length plain,
        written,
        ap
              (λ (x : List ℕ).
                try_read_and_unsecure t ccm devices x (new FooterMode.none (some receiver)) s)
              air
            ∙ sealed_is_read h a sender receiver s id key address d plain part tag little v can v'
                found fresh,
      )
