-- ===== src/Tests/Securing.antt =====
-- The nonce and the securing of a frame, with a cipher that leaves the data as it is.
use rust_ieee.Base.{
  ℕ, ◌≡◌, ◌≢◌, ◌++◌, refl, sym, ap, ◌∙◌, arith, Option, some, List, [], ◌∷◌, length, replicate,
  length-replicate,
}
use rust_ieee.Outcome.{ok}
use rust_ieee.Security.AuxHeader.{AuxiliarySecurityHeader}
use rust_ieee.Security.Ccm.{Ccm}
use rust_ieee.Security.Context.{SecurityContext}
use rust_ieee.Security.Control.Level.{SecurityLevel}
use rust_ieee.Security.Control.KeyMode.{KeyIdentifierMode}
use rust_ieee.Security.Nonce.{calculate_nonce, calculate_nonce_injective, calculate_nonce-octets}
use rust_ieee.Security.Secure
use rust_ieee.Security.Secure.{secure_frame}
use rust_ieee.Security.Secure.Counter.{Uses, secured_frame_advances}
use rust_ieee.Security.Secure.Payload.{payload_is_secured}
use rust_ieee.Security.Secure.Session.{Departure, AskedUnder, send, no_nonce_twice}
use rust_ieee.Header.{Header}
use rust_ieee.Frame.{FooterMode}
use rust_ieee.Tests.{host, data_header}

pub plain_cipher :
    (n : ℕ) (plain cipher tag : List ℕ)
    → ◌≡◌ {A = Option (List ℕ × List ℕ)} (some (plain, replicate n 0)) (some (cipher, tag))
    → (plain ≡ cipher) × (replicate n 0 ≡ tag)
plain_cipher n plain cipher tag e = (cc, cc)

abbrev pub plain_ccm : Ccm
plain_ccm = record {
  encrypt = λ n key nonce aad plain. some (plain, replicate n 0);
  decrypt = λ n key nonce aad cipher tag. some cipher;
  encrypt_length = λ n key nonce aad plain cipher tag e. (
    ap length (sym ((plain_cipher n plain cipher tag e).0)),
    ap length (sym ((plain_cipher n plain cipher tag e).1)) ∙ length-replicate n 0,
  );
  decrypt_encrypt =
      λ n key nonce aad plain cipher tag e. ap some (sym ((plain_cipher n plain cipher tag e).0));
}

abbrev pub aux_header : AuxiliarySecurityHeader
aux_header = record {
  control = record {
    security_level = SecurityLevel.encmic32;
    key_id_mode = KeyIdentifierMode.none;
  };
  frame_counter = 0;
  key_identifier = Option.none;
}

abbrev pub secured_header : Header
secured_header = record data_header { auxiliary_security_header = some aux_header }

abbrev pub context : SecurityContext
context = record {
  euid = 0x0102030405060708;
  frame_counter = 5;
  key_provider = record { lookup_key_descriptor = λ mode id address. some (1, replicate 16 0x11) };
}

payload_is_secured_example :
    secure_frame ⦃b = host⦄ plain_ccm secured_header
      (0xde ∷ 0xf0 ∷ [])
      context
      FooterMode.none
      (replicate 7 0xff)
    ≡ (record context { frame_counter = 6 }, ok (0xde ∷ 0xf0 ∷ 0 ∷ 0 ∷ 0 ∷ 0 ∷ 0xff ∷ [], 6))
payload_is_secured_example =
    payload_is_secured ⦃b = host⦄ plain_ccm secured_header (0xde ∷ 0xf0 ∷ []) aux_header context
      (replicate 7 0xff) 1 (replicate 16 0x11) (0xde ∷ 0xf0 ∷ []) (replicate 4 0) refl refl
      (omega arith) tt (omega arith) refl sealed (omega arith)
  where
    sealed :
        Secure.transform plain_ccm SecurityLevel.encmic32
          (replicate 16 0x11)
          (calculate_nonce 0x0102030405060708 5 SecurityLevel.encmic32)
          (0xde ∷ 0xf0 ∷ [])
        ≡ some (0xde ∷ 0xf0 ∷ [], replicate 4 0)
    sealed = unfold Secure.transform in refl

secured_frame_advances_example :
    Uses ⦃b = host⦄ context
      (secure_frame ⦃b = host⦄ plain_ccm secured_header (0xde ∷ []) context FooterMode.none [])
secured_frame_advances_example =
    secured_frame_advances ⦃b = host⦄ plain_ccm secured_header (0xde ∷ []) aux_header context
      FooterMode.none [] refl refl

calculate_nonce-octets_example :
    calculate_nonce 0x0102030405060708 5 SecurityLevel.encmic32
    ≡ 8 ∷ 7 ∷ 6 ∷ 5 ∷ 4 ∷ 3 ∷ 2 ∷ 1 ∷ 5 ∷ 0 ∷ 0 ∷ 0 ∷ 5 ∷ []
calculate_nonce-octets_example = calculate_nonce-octets 0x0102030405060708 5 SecurityLevel.encmic32

calculate_nonce_injective_example :
    ◌≡◌ {A = ℕ} 1 1 × ◌≡◌ {A = ℕ} 5 5 × (SecurityLevel.encmic32 ≡ SecurityLevel.encmic32)
calculate_nonce_injective_example =
    calculate_nonce_injective 1 5 SecurityLevel.encmic32 1 5 SecurityLevel.encmic32 (omega arith)
      (omega arith) (omega arith) (omega arith) refl

abbrev departure : ℕ → Departure
departure octet = record {
  header = secured_header;
  aux = aux_header;
  payload = octet ∷ [];
  buffer = replicate 5 0xff;
}

abbrev departures : List Departure
departures = departure 0xde ∷ departure 0xf0 ∷ []

-- The context behind the first frame.
abbrev context_behind : SecurityContext
context_behind = record context { frame_counter = 6 }

sent_in_turn : send ⦃b = host⦄ plain_ccm FooterMode.none departures context ≡ (
  [] ++ ((departure 0xde, context) ∷ ([] ++ ((departure 0xf0, context_behind) ∷ []))),
  record context { frame_counter = 7 },
)
unfolding send secure_frame Secure.secure_with_key Secure.transform
sent_in_turn = refl

no_nonce_twice_example :
    (x : List ℕ) × (y : List ℕ) × AskedUnder ⦃b = host⦄ plain_ccm FooterMode.none
      (departure 0xde, context)
      x
    × AskedUnder ⦃b = host⦄ plain_ccm FooterMode.none (departure 0xf0, context_behind) y
    × (x ≢ y)
no_nonce_twice_example =
    no_nonce_twice ⦃b = host⦄ plain_ccm FooterMode.none departures context
      (record context { frame_counter = 7 }) [] (departure 0xde, context) []
      (departure 0xf0, context_behind) [] (refl, refl, (refl, refl, tt)) (omega arith) (omega arith)
      sent_in_turn
