-- ===== src/Frame/Unsecure.antt =====
-- `Frame::try_read_and_unsecure` of src/mac/frame/mod.rs. It returns the store of the devices as it
-- is afterwards, also where it fails.
pub mod RoundTrip
pub mod Agreement
pub mod Short
pub mod Returning
pub mod Authentic
pub mod Sealed
use rust_ieee.Base.{
  ℕ, ◌+◌, Bool, true, false, Option, none, some, List, [], ◌∷◌, ◌++◌, take, drop, length, leb,
  if◌then◌else◌,
}
use rust_ieee.Outcome.{Outcome, ok, err, panic, map_err, Reader, ◌>>=◌, pure, from_zero}
use rust_ieee.Target.{Target}
use rust_ieee.ByteLib.{ByteLib}
use rust_ieee.Security.Ccm.{Ccm}
use rust_ieee.Security.Context.{SecurityContext}
use rust_ieee.Security.Device.{DeviceDescriptorLookup}
use rust_ieee.Security.Error.{SecurityError, of_byte_error}
use rust_ieee.Security.Unsecure.{unsecure_frame}
use rust_ieee.Header.{Header, has_security}
use rust_ieee.Header.Read as HeaderRead
use rust_ieee.Frame.{Frame, FrameContent}
use rust_ieee.Frame.Content
use rust_ieee.Frame.Read.{payload_size, read_bytes}
use rust_ieee.Frame.Write.{FrameSerDesContext}

module _ ⦃b : ByteLib⦄ where
  unfoldable pub read_head : Reader b.Error (Header × FrameContent)
  read_head = do
    header ← b.read_with HeaderRead.try_read
    content ← b.read_with (Content.try_read header.frame_type)
    pure (header, content)

  module _ (t : Target) where
    -- The payload without the tag, and the frame.
    abbrev pub read_payload : Header → FrameContent → ℕ → Reader b.Error Frame
    read_payload h c tag_size = do
      n ← payload_size t tag_size
      payload ← read_bytes n
      pure (record { header = h; content = c; payload = payload; footer = 0 ∷ 0 ∷ [] })

    module _ (ccm : Ccm) (devices : DeviceDescriptorLookup) where
      abbrev pub Result : Type 0
      Result = devices.Store × Outcome SecurityError (Frame × ℕ)

      -- The match on the result of `unsecure_frame`: the whole buffer and the length of the tag.
      abbrev pub unsecured :
          List ℕ
          → ℕ
          → devices.Store × Outcome SecurityError (List ℕ × ℕ)
          → devices.Store × Outcome SecurityError (List ℕ × ℕ)
      unsecured buf offset (s, ok (behind, size)) = (s, ok (take offset buf ++ behind, size))
      unsecured buf offset (s, err SecurityError.security_not_enabled) = (s, ok (buf, 0))
      unsecured buf offset (s, err e) = (s, err e)
      unsecured buf offset (s, panic) = (s, panic)

      -- The slice `buf[*offset..]` exists where the offset is within the buffer.
      abbrev pub unsecure_with :
          Header
          → FrameSerDesContext
          → Option SecurityContext
          → List ℕ
          → ℕ
          → devices.Store
          → devices.Store × Outcome SecurityError (List ℕ × ℕ)
      unsecure_with h ctx none buf offset s = (s, err SecurityError.invalid_sec_context)
      unsecure_with h ctx (some sec_ctx) buf offset s =
          if leb offset (length buf)
          then unsecured buf offset
              (unsecure_frame t ccm devices h (drop offset buf) sec_ctx ctx.footer_mode s)
          else (s, panic)

      abbrev pub unsecure_behind :
          Header
          → FrameSerDesContext
          → List ℕ
          → ℕ
          → devices.Store
          → devices.Store × Outcome SecurityError (List ℕ × ℕ)
      unsecure_behind h ctx buf offset s =
          if has_security h
          then unsecure_with h ctx ctx.security_ctx buf offset s
          else (s, ok (buf, 0))

      abbrev pub read_unsecured :
          Header → FrameContent → ℕ → devices.Store × Outcome SecurityError (List ℕ × ℕ) → Result
      read_unsecured h c offset (s, ok (buf, tag_size)) =
          (s, map_err of_byte_error (read_payload h c tag_size buf offset))
      read_unsecured h c offset (s, err e) = (s, err e)
      read_unsecured h c offset (s, panic) = (s, panic)

      abbrev pub read_behind :
          FrameSerDesContext
          → List ℕ
          → devices.Store
          → Outcome b.Error ((Header × FrameContent) × ℕ)
          → Result
      read_behind ctx buf s (ok (head, offset)) =
          read_unsecured head.0 head.1 offset (unsecure_behind head.0 ctx buf offset s)
      read_behind ctx buf s (err e) = (s, err (of_byte_error e))
      read_behind ctx buf s panic = (s, panic)

      unfoldable pub try_read_and_unsecure : List ℕ → FrameSerDesContext → devices.Store → Result
      try_read_and_unsecure buf ctx s = read_behind ctx buf s (from_zero read_head buf)
