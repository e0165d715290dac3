-- ===== src/Tests/Frames.antt =====
-- Frames.
use rust_ieee.Base.{ℕ, ◌≡◌, refl, arith, List, [], ◌∷◌, ◌++◌}
use rust_ieee.Outcome.{ok, panic}
use rust_ieee.ByteLib.Bounds.{EndsWithin}
use rust_ieee.Frame.{Frame, FrameContent, FooterMode}
use rust_ieee.Frame.Read
use rust_ieee.Frame.RoundTrip
use rust_ieee.Frame.Underflow
use rust_ieee.Tests.{host, debug, release, data_header, header_octets, data_header-IsHeader}

abbrev payload_and_footer : List ℕ
payload_and_footer = 0xde ∷ 0xf0 ∷ 0x12 ∷ 0x34 ∷ []

abbrev pub data_frame : Frame
data_frame = record {
  header = data_header;
  content = FrameContent.data_content;
  payload = 0xde ∷ 0xf0 ∷ [];
  footer = 0x12 ∷ 0x34 ∷ [];
}

frame_round_trip_example :
    Read.try_read ⦃b = host⦄ debug FooterMode.explicit (header_octets ++ payload_and_footer)
    ≡ ok (data_frame, 15)
frame_round_trip_example =
    RoundTrip.frame_round_trip ⦃b = host⦄ debug FooterMode.explicit data_header
      FrameContent.data_content (0xde ∷ 0xf0 ∷ []) 0x3412 data_header-IsHeader refl refl tt tt
      (omega arith)

explicit_footer_underflows_example :
    Read.try_read ⦃b = host⦄ debug FooterMode.explicit (header_octets ++ (0xde ∷ [])) ≡ panic
explicit_footer_underflows_example =
    Underflow.explicit_footer_underflows ⦃b = host⦄ debug data_header FrameContent.data_content
      (0xde ∷ []) data_header-IsHeader refl refl tt tt (omega arith) (omega arith)

frame_ends_example :
    EndsWithin 0 12
      (Read.try_read ⦃b = host⦄ release FooterMode.explicit (header_octets ++ (0xde ∷ [])))
frame_ends_example =
    Read.frame_ends ⦃b = host⦄ release FooterMode.explicit (header_octets ++ (0xde ∷ [])) refl
