-- ===== src/Frame/Unsecure/Sealed.antt =====
-- Where a frame with security that `Frame::try_read_and_unsecure` of src/mac/frame/mod.rs returns
-- comes from.
use rust_ieee.Base.{ℕ, ◌≡◌, sym, ap, ◌∙◌, true, some, List, ◌++◌, take, drop, take-append-drop}
use rust_ieee.Outcome.{ok, from_zero}
use rust_ieee.Target.{Target}
use rust_ieee.ByteLib.{ByteLib}
use rust_ieee.Address.{Address}
use rust_ieee.Security.AuxHeader.{AuxiliarySecurityHeader, get_frame_counter}
use rust_ieee.Security.Ccm.{Ccm, IsVerifying}
use rust_ieee.Security.Context.{SecurityContext}
use rust_ieee.Security.Device.{DeviceDescriptorLookup}
use rust_ieee.Security.Nonce.{calculate_nonce}
use rust_ieee.Security.Secure.{transform}
use rust_ieee.Security.Unsecure.Admitted.{IsAdmitted}
use rust_ieee.Security.Unsecure.Opening.{tag_start}
use rust_ieee.Security.Unsecure.Sealed.{transform-restore}
use rust_ieee.Header.{has_security}
use rust_ieee.Frame.{Frame}
use rust_ieee.Frame.Write.{FrameSerDesContext}
use rust_ieee.Frame.Unsecure.{read_head, try_read_and_unsecure}
use rust_ieee.Frame.Unsecure.Authentic.{received_frame_is_authentic}

module _ ⦃b : ByteLib⦄ where
  -- Behind the header and the content stand the octets that `secure_frame` makes of the payload: the
  -- data and the tag, with the key that the receiver has for the sender and the nonce of the frame.
  pub record Originates (ccm : Ccm) (ctx : FrameSerDesContext) (buf : List ℕ) (f : Frame)
      : Type 0 where
    pub aux : AuxiliarySecurityHeader
    pub context : SecurityContext
    pub address : Address
    pub key : ℕ × List ℕ
    pub offset : ℕ
    pub part : List ℕ
    pub tag : List ℕ
    pub configured : ctx.security_ctx ≡ some context
    pub head : from_zero read_head buf ≡ ok ((f.header, f.content), offset)
    pub admitted : IsAdmitted f.header aux context address key
    pub sealed :
        transform ccm aux.control.security_level key.1
          (calculate_nonce key.0 (get_frame_counter aux) aux.control.security_level)
          f.payload
        ≡ some (part, tag)
    pub on_air : drop offset buf ≡ part ++ tag

  -- With a cipher that verifies its tags: where `try_read_and_unsecure` returns a frame with a
  -- security header, it is an admitted data frame, and the octets behind its header and content are
  -- exactly what securing its payload makes, with the key that the receiver has for the sender and
  -- the nonce of the sender's identifier, the counter and the level of the frame.
  pub received_frame_was_sealed :
      (t : Target) (ccm : Ccm) (devices : DeviceDescriptorLookup) (ctx : FrameSerDesContext)
      (buf : List ℕ) (s s' : devices.Store) (f : Frame) (n : ℕ)
      → IsVerifying ccm
      → try_read_and_unsecure t ccm devices buf ctx s ≡ (s', ok (f, n))
      → has_security f.header ≡ true
      → Originates ccm ctx buf f
  received_frame_was_sealed t ccm devices ctx buf s s' f n v e secured =
      let r = received_frame_is_authentic t ccm devices ctx buf s s' f n e secured in
      let a = r.authentic in
      let behind = drop r.offset buf in
      let start = tag_start a.aux behind in
      record {
        aux = a.aux;
        context = r.context;
        address = a.address;
        key = a.key;
        offset = r.offset;
        part = take start behind;
        tag = drop start behind;
        configured = r.configured;
        head = r.head;
        admitted = a.admitted;
        sealed =
            ap
              (λ x.
                transform ccm a.aux.control.security_level a.key.1
                  (calculate_nonce a.key.0 (get_frame_counter a.aux) a.aux.control.security_level)
                  x)
              r.has_payload
            ∙ transform-restore ccm v a.aux.control.security_level a.key.1
                (calculate_nonce a.key.0 (get_frame_counter a.aux) a.aux.control.security_level)
                a.opens.part (take start behind) (drop start behind) a.opens.opened;
        on_air = sym (take-append-drop start behind);
      }
