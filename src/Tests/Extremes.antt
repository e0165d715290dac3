-- ===== src/Tests/Extremes.antt =====
-- Unsecuring at the edges: the last counter, a frame without its tag, a frame after others.
use mathlib.Core.Path.{subst}
use rust_ieee.Base.{ℕ, sym, ◌≡◌, refl, arith, some, List, [], ◌∷◌, ◌++◌, replicate}
use rust_ieee.Outcome.{ok, panic, from_zero}
use rust_ieee.ByteLib.Bounds.{Returns}
use rust_ieee.ByteLib.Laws.{Reads-start}
use rust_ieee.Security.Control.Level.{SecurityLevel}
use rust_ieee.Security.Device.{DeviceDescriptor}
use rust_ieee.Security.Nonce.{calculate_nonce}
use rust_ieee.Security.Secure
use rust_ieee.Security.Unsecure.{unsecure_frame}
use rust_ieee.Security.Unsecure.Overflow.{last_counter_wraps}
use rust_ieee.Security.Unsecure.Progress.{fresh_frame_is_accepted}
use rust_ieee.Security.Unsecure.Window.{Arrival, receive}
use rust_ieee.Header.Write as HeaderWrite
use rust_ieee.Frame.{FooterMode}
use rust_ieee.Frame.Write.{new}
use rust_ieee.Frame.Unsecure.{read_head, try_read_and_unsecure}
use rust_ieee.Frame.Unsecure.Returning.{HasTagRoom, unsecuring_ends}
use rust_ieee.Frame.Unsecure.RoundTrip.{data_head-Reads}
use rust_ieee.Frame.Unsecure.Short.{short_frame_panics}
use rust_ieee.Base.Octets.{Endian}
use rust_ieee.Tests.{host, debug, release}
use rust_ieee.Tests.Securing.{plain_ccm}
use rust_ieee.Tests.Unsecuring.{
  one_device, device_at, source_address, receiver, aux_at, header_at, header_at-IsAdmitted, sealed,
}
use rust_ieee.Tests.Writing.{secured_header-IsHeader}

sealed_last :
    Secure.transform plain_ccm SecurityLevel.encmic32
      (replicate 16 0x11)
      (calculate_nonce 0x0102030405060708 0xFFFFFFFF SecurityLevel.encmic32)
      (0xde ∷ 0xf0 ∷ [])
    ≡ some (0xde ∷ 0xf0 ∷ [], replicate 4 0)
sealed_last = unfold Secure.transform in refl

last_counter_wraps_example :
    unsecure_frame ⦃b = host⦄ release plain_ccm one_device
      (header_at 0xFFFFFFFF)
      (0xde ∷ 0xf0 ∷ 0 ∷ 0 ∷ 0 ∷ 0 ∷ [])
      receiver
      FooterMode.none
      (device_at 3)
    ≡ (device_at 0, ok (0xde ∷ 0xf0 ∷ 0 ∷ 0 ∷ 0 ∷ 0 ∷ [], 4))
last_counter_wraps_example =
    last_counter_wraps ⦃b = host⦄ release plain_ccm one_device (header_at 0xFFFFFFFF)
      (aux_at 0xFFFFFFFF) receiver (device_at 3) 0x0102030405060708 (replicate 16 0x11)
      source_address (device_at 3) (0xde ∷ 0xf0 ∷ []) (0xde ∷ 0xf0 ∷ []) (replicate 4 0)
      (header_at-IsAdmitted 0xFFFFFFFF) tt refl (omega arith) refl sealed_last

-- Two octets stand where the four of the tag should be.
short_frame_panics_example :
    try_read_and_unsecure ⦃b = host⦄ release plain_ccm one_device
      (HeaderWrite.encoding Endian.little 5 (header_at 0) ++ (0 ∷ 0 ∷ []))
      (new FooterMode.none (some receiver))
      (device_at 3)
    ≡ (device_at 3, panic)
short_frame_panics_example =
    short_frame_panics ⦃b = host⦄ release plain_ccm one_device (header_at 0) (aux_at 0) receiver
      (device_at 3) (0x0102030405060708, replicate 16 0x11) source_address (device_at 3) 5
      (0 ∷ 0 ∷ []) secured_header-IsHeader (header_at-IsAdmitted 0) tt refl (omega arith)
      (omega arith) (omega arith)

abbrev earlier : List Arrival
earlier =
    record { header = header_at 3; buffer = 0xde ∷ [] }
    ∷ record { header = header_at 4; buffer = 0xde ∷ 0xf0 ∷ 0 ∷ 0 ∷ 0 ∷ 0 ∷ [] }
    ∷ []

fresh_frame_is_accepted_example :
    (s' : DeviceDescriptor) × (unsecure_frame ⦃b = host⦄ debug plain_ccm one_device
        (header_at 5)
        (0xde ∷ 0xf0 ∷ 0 ∷ 0 ∷ 0 ∷ 0 ∷ [])
        receiver
        FooterMode.none
        (receive ⦃b = host⦄ debug plain_ccm one_device earlier receiver FooterMode.none
          (device_at 3)).1
      ≡ (s', ok (0xde ∷ 0xf0 ∷ 0 ∷ 0 ∷ 0 ∷ 0 ∷ [], 4)))
fresh_frame_is_accepted_example =
    fresh_frame_is_accepted ⦃b = host⦄ debug plain_ccm one_device (header_at 5) (aux_at 5) receiver
      FooterMode.none earlier (device_at 3) 3 0x0102030405060708 (replicate 16 0x11) source_address
      (0xde ∷ 0xf0 ∷ []) (0xde ∷ 0xf0 ∷ []) (replicate 4 0)
      (refl, omega arith, (refl, omega arith, tt)) (omega arith, (omega arith, tt))
      (device_at 3, refl, refl) (omega arith) (omega arith) (header_at-IsAdmitted 5) tt sealed

-- A secured frame with octets behind its header that no cipher made.
abbrev forged : List ℕ
forged = HeaderWrite.encoding Endian.little 5 (header_at 0) ++ replicate 6 0xee

forged-HasTagRoom : HasTagRoom ⦃b = host⦄ forged (from_zero (read_head ⦃b = host⦄) forged)
forged-HasTagRoom =
    subst (HasTagRoom ⦃b = host⦄ forged)
      (sym (
        Reads-start (
          data_head-Reads ⦃b = host⦄ (header_at 0) 5 (replicate 6 0xee) secured_header-IsHeader
            refl)))
      (omega arith)

unsecuring_ends_example :
    Returns
      (try_read_and_unsecure ⦃b = host⦄ release plain_ccm one_device forged
        (new FooterMode.none (some receiver))
        (device_at 3)).1
unsecuring_ends_example =
    unsecuring_ends ⦃b = host⦄ release plain_ccm one_device (some receiver) forged (device_at 3)
      refl forged-HasTagRoom
