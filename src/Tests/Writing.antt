-- ===== src/Tests/Writing.antt =====
-- Writing a frame and reading it back, with and without security.
use rust_ieee.Base.{ℕ, ◌+◌, ◌≡◌, refl, arith, none, some, List, [], ◌∷◌, ◌++◌, take, replicate}
use rust_ieee.Outcome.{ok, map_err, from_zero}
use rust_ieee.ByteLib.Laws.{put}
use rust_ieee.ByteLib.Concrete.{ByteError}
use rust_ieee.Security.Error.{of_byte_error}
use rust_ieee.Header.{IsHeader}
use rust_ieee.Frame.{Frame, FrameContent, FooterMode}
use rust_ieee.FrameControl
use rust_ieee.FrameControl.FrameVersion
use rust_ieee.FrameControl.FrameType
use rust_ieee.Address.Mode
use rust_ieee.Address.PanId
use rust_ieee.Address.ShortAddress
use rust_ieee.Address.Codec as AddressCodec
use rust_ieee.Header.Read as HeaderRead
use rust_ieee.Frame.Content
use rust_ieee.Frame.Read as FrameRead
use rust_ieee.Frame.RoundTrip.{encoding}
use rust_ieee.Frame.Secured.{secured_frame_round_trip}
use rust_ieee.Frame.Write.{new, no_security, try_write}
use rust_ieee.Frame.Write.Plain.{frame_of, frame_is_put}
use rust_ieee.Frame.Write.RoundTrip.{written_frame_is_read}
use rust_ieee.Frame.Write.Bounds.{FitsPacket, secured_frame_fits}
use rust_ieee.Frame.Unsecure.{read_head, try_read_and_unsecure}
use rust_ieee.Frame.Unsecure.Agreement.{IsPlain, plain_reads_agree}
use rust_ieee.Frame.Unsecure.RoundTrip.{received_frame}
use rust_ieee.Tests.{host, debug, data_header, data_header-IsHeader, header_octets}
use rust_ieee.Tests.Securing.{plain_ccm, aux_header, secured_header, context}
use rust_ieee.Tests.Unsecuring.{
  one_device, device_at, source_address, receiver, header_at-IsAdmitted, sealed,
}

-- The example in the documentation of `Frame`.
abbrev plain_frame : Frame
plain_frame = frame_of data_header FrameContent.data_content (0xde ∷ 0xf0 ∷ []) 0x3412

frame_is_put_example :
    try_write ⦃b = host⦄ plain_ccm plain_frame (no_security FooterMode.explicit) (replicate 32 0)
    ≡ (
      no_security FooterMode.explicit,
      put ByteError.incomplete
          (encoding ⦃b = host⦄ FooterMode.explicit data_header FrameContent.data_content
            (0xde ∷ 0xf0 ∷ [])
            0x3412)
          (replicate 32 0),
    )
frame_is_put_example =
    frame_is_put ⦃b = host⦄ plain_ccm FooterMode.explicit none data_header FrameContent.data_content
      (0xde ∷ 0xf0 ∷ []) 0x3412 (replicate 32 0) data_header-IsHeader refl tt tt

written_frame_is_read_example :
    (out : List ℕ) × (size : ℕ) × (try_write ⦃b = host⦄ plain_ccm plain_frame
        (no_security FooterMode.explicit)
        (replicate 32 0)
      ≡ (no_security FooterMode.explicit, ok (out, size)))
    × (FrameRead.try_read ⦃b = host⦄ debug FooterMode.explicit (take size out)
        ≡ ok (plain_frame, size))
written_frame_is_read_example =
    written_frame_is_read ⦃b = host⦄ plain_ccm debug FooterMode.explicit none data_header
      FrameContent.data_content (0xde ∷ 0xf0 ∷ []) 0x3412 (replicate 32 0) data_header-IsHeader refl
      refl tt tt (omega arith) tt (omega arith)

-- The header of the example in the documentation, and a payload.
abbrev plain_octets : List ℕ
plain_octets = header_octets ++ (0xde ∷ 0xf0 ∷ [])

plain_octets-IsPlain : IsPlain ⦃b = host⦄ (from_zero (read_head ⦃b = host⦄) plain_octets)
unfolding read_head HeaderRead.try_read HeaderRead.read_fields Content.try_read FrameControl.decode
    FrameVersion.from_bits FrameType.from_bits Mode.from_bits AddressCodec.read_full PanId.try_read
    ShortAddress.try_read
plain_octets-IsPlain = refl

plain_reads_agree_example :
    try_read_and_unsecure ⦃b = host⦄ debug plain_ccm one_device plain_octets
      (no_security FooterMode.none)
      (device_at 3)
    ≡ (
      device_at 3,
      map_err
          (of_byte_error ⦃b = host⦄)
          (FrameRead.try_read ⦃b = host⦄ debug FooterMode.none plain_octets),
    )
plain_reads_agree_example =
    plain_reads_agree ⦃b = host⦄ debug plain_ccm one_device (no_security FooterMode.none)
      plain_octets (device_at 3) plain_octets-IsPlain

pub secured_header-IsHeader : IsHeader secured_header
secured_header-IsHeader = record {
  seq_fits = omega arith;
  destination_fits = (omega arith, omega arith);
  source_fits = (omega arith, omega arith);
  security_fits = tt;
  compressible = tt;
}

secured_frame_round_trip_example :
    (out : List ℕ) × (size : ℕ) × (try_write ⦃b = host⦄ plain_ccm
        (record {
          header = secured_header;
          content = FrameContent.data_content;
          payload = 0xde ∷ 0xf0 ∷ [];
          footer = 0 ∷ 0 ∷ [];
        })
        (new FooterMode.none (some context))
        (replicate 40 0xff)
      ≡ (new FooterMode.none (some (record context { frame_counter = 6 })), ok (out, size + 4)))
    × (try_read_and_unsecure ⦃b = host⦄ debug plain_ccm one_device
          (take (size + 4) out)
          (new FooterMode.none (some receiver))
          (device_at 3)
        ≡ (device_at 6, ok (received_frame ⦃b = host⦄ secured_header 5 (0xde ∷ 0xf0 ∷ []), size)))
secured_frame_round_trip_example =
    secured_frame_round_trip ⦃b = host⦄ debug plain_ccm one_device secured_header aux_header context
      receiver (device_at 3) 1 (replicate 16 0x11) source_address (device_at 3) (0xde ∷ 0xf0 ∷ [])
      (0xde ∷ 0xf0 ∷ []) (replicate 4 0) (0 ∷ 0 ∷ []) (replicate 40 0xff) refl
      secured_header-IsHeader
      (record {
        small = omega arith;
        has_tag = tt;
        below = omega arith;
        has_key = refl;
        sealed = sealed;
      })
      (header_at-IsAdmitted 0) refl (omega arith) (omega arith)

secured_frame_fits_example :
    FitsPacket ⦃b = host⦄
      (try_write ⦃b = host⦄ plain_ccm
        (frame_of secured_header FrameContent.data_content (replicate 105 7) 0)
        (new FooterMode.none (some context))
        (replicate 125 0)).1
secured_frame_fits_example =
    secured_frame_fits ⦃b = host⦄ plain_ccm secured_header aux_header (replicate 105 7) 0 context
      FooterMode.none (replicate 125 0) refl secured_header-IsHeader
