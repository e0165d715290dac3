-- ===== src/Frame/Write/Secured.antt =====
-- What `TryWrite` of `Frame` puts into the buffer for a secured frame, src/mac/frame/mod.rs.
use mathlib.Core.Path.{subst}
use rust_ieee.Base.{
  ℕ, ◌+◌, ◌≤◌, ◌≡◌, refl, ap, ◌∙◌, arith, some, List, [], ◌++◌, drop, length, length-append,
  append-nil, le→leb, take-append, drop-append,
}
use rust_ieee.Outcome.{ok}
use rust_ieee.ByteLib.{ByteLib}
use rust_ieee.ByteLib.Laws.{Writes}
use rust_ieee.Security.Ccm.{Ccm}
use rust_ieee.Security.Context.{SecurityContext}
use rust_ieee.Security.Secure.{secure_frame}
use rust_ieee.Header.{Header, IsHeader}
use rust_ieee.Header.Write as HeaderWrite
use rust_ieee.Frame.{FrameContent, FooterMode}
use rust_ieee.Frame.Write.{new, write_head, try_write}
use rust_ieee.Frame.Write.Plain.{write_head-Writes}

module _ ⦃b : ByteLib⦄ where
  pub data_head-Writes :
      (h : Header) (s : SecurityContext)
      → IsHeader h
      → Writes
          (write_head h FrameContent.data_content (some s))
          b.incomplete
          (HeaderWrite.encoding b.native s.frame_counter h)
  data_head-Writes h s v =
      subst (Writes (write_head h FrameContent.data_content (some s)) b.incomplete)
        (append-nil (HeaderWrite.encoding b.native s.frame_counter h))
        (write_head-Writes h FrameContent.data_content (some s) v tt refl)

  pub head_of_data :
      (h : Header) (s : SecurityContext) (bytes : List ℕ)
      → IsHeader h
      → length (HeaderWrite.encoding b.native s.frame_counter h) ≤ length bytes
      → write_head h FrameContent.data_content (some s) bytes 0
        ≡ ok (
          HeaderWrite.encoding b.native s.frame_counter h
              ++ drop (length (HeaderWrite.encoding b.native s.frame_counter h)) bytes,
          length (HeaderWrite.encoding b.native s.frame_counter h),
        )
  head_of_data h s bytes v room =
      (data_head-Writes h s v).fits [] bytes room
      ∙ ap
          (λ (n : ℕ). ok (
            HeaderWrite.encoding b.native s.frame_counter h
                ++ drop (length (HeaderWrite.encoding b.native s.frame_counter h)) bytes,
            n,
          ))
          (omega arith)

  -- What `secure_frame` puts behind the header stands there, and the context is what it leaves.
  pub secured_is_put :
      (ccm : Ccm) (h : Header) (plain footer : List ℕ) (s s' : SecurityContext)
      (bytes sealed : List ℕ) (size : ℕ)
      → IsHeader h
      → length (HeaderWrite.encoding b.native s.frame_counter h) ≤ length bytes
      → secure_frame ccm h plain s FooterMode.none
          (drop (length (HeaderWrite.encoding b.native s.frame_counter h)) bytes)
        ≡ (s', ok (sealed, size))
      → try_write ccm
          (record {
            header = h;
            content = FrameContent.data_content;
            payload = plain;
            footer = footer;
          })
          (new FooterMode.none (some s))
          bytes
        ≡ (
          new FooterMode.none (some s'),
          ok (
            HeaderWrite.encoding b.native s.frame_counter h ++ sealed,
            length (HeaderWrite.encoding b.native s.frame_counter h) + size,
          ),
        )
  unfolding try_write
  secured_is_put ccm h plain footer s s' bytes sealed size v room secured =
      let enc = HeaderWrite.encoding b.native s.frame_counter h in
      let rest = drop (length enc) bytes in
      rw
        (
          head_of_data h s bytes v room,
          le→leb (length enc) (length (enc ++ rest)) (omega (arith, length-append enc rest)),
          drop-append enc rest,
          secured,
        )
        (ap
          (λ (before : List ℕ).
            (new FooterMode.none (some s'), ok (before ++ sealed, length enc + size)))
          (take-append enc rest))
