-- ===== src/Tests/Verifying.antt =====
-- What a receiver has checked, and writing into a short buffer.
use rust_ieee.Base.{
  Bool, true, false, ◌≡◌, Option, none, ℕ, refl, arith, some, List, [], ◌∷◌, replicate,
}
use rust_ieee.ByteLib.Bounds.{Returns}
use rust_ieee.Security.Secure
use rust_ieee.Base.Octets.{same_octets, same_octets_refl, same_octets_sound}
use rust_ieee.Security.Ccm.{Ccm, IsVerifying}
use rust_ieee.Frame.Unsecure.Sealed.{Originates, received_frame_was_sealed}
use rust_ieee.Frame.{FrameContent, FooterMode}
use rust_ieee.Frame.Write.{new, try_write}
use rust_ieee.Frame.Write.Returning.{writing_ends}
use rust_ieee.Frame.Write.Plain.{frame_of}
use rust_ieee.Frame.Secured.{sealed_octets, sealed_is_read}
use rust_ieee.Frame.Unsecure.RoundTrip.{received_frame}
use rust_ieee.Frame.Unsecure.Authentic.{AuthenticFrame, received_frame_is_authentic}
use rust_ieee.Tests.{host, debug}
use rust_ieee.Tests.Securing.{plain_ccm, plain_cipher, aux_header, secured_header, context}
use rust_ieee.Tests.Unsecuring.{
  one_device, device_at, source_address, receiver, header_at-IsAdmitted, sealed,
}
use rust_ieee.Tests.Writing.{secured_header-IsHeader}

abbrev octets : List ℕ
octets = sealed_octets ⦃b = host⦄ secured_header 5 (0xde ∷ 0xf0 ∷ []) (replicate 4 0)

received_frame_is_authentic_example :
    AuthenticFrame ⦃b = host⦄ debug plain_ccm one_device
      (new FooterMode.none (some receiver))
      octets
      (device_at 3)
      (received_frame ⦃b = host⦄ secured_header 5 (0xde ∷ 0xf0 ∷ []))
received_frame_is_authentic_example =
    received_frame_is_authentic ⦃b = host⦄ debug plain_ccm one_device
      (new FooterMode.none (some receiver)) octets (device_at 3) (device_at 6)
      (received_frame ⦃b = host⦄ secured_header 5 (0xde ∷ 0xf0 ∷ [])) _
      (sealed_is_read ⦃b = host⦄ debug plain_ccm one_device secured_header aux_header context
        receiver (device_at 3) 1 (replicate 16 0x11) source_address (device_at 3) (0xde ∷ 0xf0 ∷ [])
        (0xde ∷ 0xf0 ∷ []) (replicate 4 0) refl secured_header-IsHeader
        (record {
          small = omega arith;
          has_tag = tt;
          below = omega arith;
          has_key = refl;
          sealed = sealed;
        })
        (header_at-IsAdmitted 0) refl (omega arith))
      refl

-- A secured frame, where there is room for the payload but not for the tag.
writing_ends_example :
    Returns
      (try_write ⦃b = host⦄ plain_ccm
        (frame_of secured_header FrameContent.data_content (0xde ∷ 0xf0 ∷ []) 0)
        (new FooterMode.none (some context))
        (replicate 20 0)).1
writing_ends_example =
    writing_ends ⦃b = host⦄ plain_ccm
      (frame_of secured_header FrameContent.data_content (0xde ∷ 0xf0 ∷ []) 0) FooterMode.none
      (some context) (replicate 20 0) secured_header-IsHeader tt tt

-- A cipher that leaves the data as it is, and compares the tag.
abbrev compared : Bool → List ℕ → Option (List ℕ)
compared true cipher = some cipher
compared false cipher = none

abbrev comparing_ccm : Ccm
comparing_ccm = record plain_ccm {
  decrypt = λ n key nonce aad cipher tag. compared (same_octets tag (replicate n 0)) cipher;
  decrypt_encrypt = λ n key nonce aad plain cipher tag e.
      let (same, tags) = plain_cipher n plain cipher tag e in
      rw (← same, ← tags, same_octets_refl (replicate n 0));
}

compared_sound :
    (n : ℕ) (plain cipher tag : List ℕ) (o : Bool)
    → same_octets tag (replicate n 0) ≡ o
    → compared o cipher ≡ some plain
    → ◌≡◌ {A = Option (List ℕ × List ℕ)} (some (plain, replicate n 0)) (some (cipher, tag))
compared_sound n plain cipher tag false e h = absurd (ground (arith, h))
compared_sound n plain cipher tag true e h =
    let tags = same_octets_sound tag (replicate n 0) e in
    let same : cipher ≡ plain = cc in rw (tags, same)

comparing_ccm-IsVerifying : IsVerifying comparing_ccm
comparing_ccm-IsVerifying = record {
  encrypt_decrypt =
      λ n key nonce aad plain cipher tag e. compared_sound n plain cipher tag _ refl e;
}

received_frame_was_sealed_example :
    Originates ⦃b = host⦄ comparing_ccm
      (new FooterMode.none (some receiver))
      octets
      (received_frame ⦃b = host⦄ secured_header 5 (0xde ∷ 0xf0 ∷ []))
received_frame_was_sealed_example =
    received_frame_was_sealed ⦃b = host⦄ debug comparing_ccm one_device
      (new FooterMode.none (some receiver)) octets (device_at 3) (device_at 6)
      (received_frame ⦃b = host⦄ secured_header 5 (0xde ∷ 0xf0 ∷ [])) 18 comparing_ccm-IsVerifying
      (sealed_is_read ⦃b = host⦄ debug comparing_ccm one_device secured_header aux_header context
        receiver (device_at 3) 1 (replicate 16 0x11) source_address (device_at 3) (0xde ∷ 0xf0 ∷ [])
        (0xde ∷ 0xf0 ∷ []) (replicate 4 0) refl secured_header-IsHeader
        (record {
          small = omega arith;
          has_tag = tt;
          below = omega arith;
          has_key = refl;
          sealed = unfold Secure.transform in refl;
        })
        (header_at-IsAdmitted 0) refl (omega arith))
      refl
