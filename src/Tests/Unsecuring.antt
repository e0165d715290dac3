-- ===== src/Tests/Unsecuring.antt =====
-- The unsecuring of a frame, with the cipher of Tests/Securing and one device.
use rust_ieee.Base.{ℕ, ◌<◌, ◌≡◌, refl, arith, false, some, List, [], ◌∷◌, ◌++◌, replicate}
use rust_ieee.Outcome.{ok, err}
use rust_ieee.Target.{next_u32}
use rust_ieee.Address.{Address}
use rust_ieee.Security.AuxHeader.{AuxiliarySecurityHeader}
use rust_ieee.Security.Context.{SecurityContext}
use rust_ieee.Security.Control.Level.{SecurityLevel}
use rust_ieee.Security.Device.{DeviceDescriptor, DeviceDescriptorLookup}
use rust_ieee.Security.Error.{SecurityError}
use rust_ieee.Security.Nonce.{calculate_nonce}
use rust_ieee.Security.Secure
use rust_ieee.Security.Unsecure
use rust_ieee.Security.Unsecure.{unsecure_frame}
use rust_ieee.Security.Unsecure.Admitted.{IsAdmitted}
use rust_ieee.Security.Unsecure.Inverse.{payload_is_unsecured}
use rust_ieee.Security.Unsecure.Window.{
  Arrival, Refines, receive, receive-Refines, no_counter_twice, replayed_frame_is_refused,
}
use rust_ieee.Header.{Header}
use rust_ieee.Frame.{FooterMode}
use rust_ieee.Tests.{host, debug}
use rust_ieee.Tests.Securing.{plain_ccm, aux_header, secured_header}

-- A store of one device, which is found at every address.
abbrev pub one_device : DeviceDescriptorLookup
one_device = record {
  Store = DeviceDescriptor;
  lookup_device = λ mode address s. (s, some s);
  assign = λ mode address new s. new;
  lookup_again = λ mode address s. refl;
  lookup_assign = λ mode address s old new e. refl;
}

abbrev pub device_at : ℕ → DeviceDescriptor
device_at n = record { frame_counter = n; exempt = false }

abbrev pub source_address : Address
source_address = Address.short (record { value = 0x1234 }) (record { value = 0x9abc })

abbrev pub receiver : SecurityContext
receiver = record {
  euid = 9;
  frame_counter = 0;
  key_provider = record {
    lookup_key_descriptor = λ mode id address. some (0x0102030405060708, replicate 16 0x11);
  };
}

-- The secured header as it arrives with a counter.
abbrev pub aux_at : ℕ → AuxiliarySecurityHeader
aux_at n = record aux_header { frame_counter = n }

abbrev pub header_at : ℕ → Header
header_at n = record secured_header { auxiliary_security_header = some (aux_at n) }

pub header_at-IsAdmitted :
    (n : ℕ)
    → IsAdmitted
        (header_at n)
        (aux_at n)
        receiver
        source_address
        (0x0102030405060708, replicate 16 0x11)
header_at-IsAdmitted n = record {
  secured = refl;
  has_data = refl;
  recent = refl;
  has_level = refl;
  has_source = refl;
  has_key = refl;
}

pub sealed :
    Secure.transform plain_ccm SecurityLevel.encmic32
      (replicate 16 0x11)
      (calculate_nonce 0x0102030405060708 5 SecurityLevel.encmic32)
      (0xde ∷ 0xf0 ∷ [])
    ≡ some (0xde ∷ 0xf0 ∷ [], replicate 4 0)
sealed = unfold Secure.transform in refl

payload_is_unsecured_example :
    unsecure_frame ⦃b = host⦄ debug plain_ccm one_device
      (header_at 5)
      (0xde ∷ 0xf0 ∷ 0 ∷ 0 ∷ 0 ∷ 0 ∷ [])
      receiver
      FooterMode.none
      (device_at 3)
    ≡ (device_at 6, ok (0xde ∷ 0xf0 ∷ 0 ∷ 0 ∷ 0 ∷ 0 ∷ [], 4))
payload_is_unsecured_example =
    payload_is_unsecured ⦃b = host⦄ debug plain_ccm one_device (header_at 5) (aux_at 5) receiver
      (device_at 3) 0x0102030405060708 (replicate 16 0x11) source_address (device_at 3)
      (0xde ∷ 0xf0 ∷ []) (0xde ∷ 0xf0 ∷ []) (replicate 4 0) (header_at-IsAdmitted 5) tt refl
      (omega arith) (omega arith) sealed

-- Two frames with successive counters.
abbrev arrivals : List Arrival
arrivals =
    record { header = header_at 5; buffer = 0xde ∷ 0xf0 ∷ 0 ∷ 0 ∷ 0 ∷ 0 ∷ [] }
    ∷ record { header = header_at 6; buffer = 0xde ∷ 0xf0 ∷ 0 ∷ 0 ∷ 0 ∷ 0 ∷ [] }
    ∷ []

received_in_turn :
    receive ⦃b = host⦄ debug plain_ccm one_device arrivals receiver FooterMode.none (device_at 3)
    ≡ ([] ++ (5 ∷ ([] ++ (6 ∷ []))), device_at 7)
unfolding receive Unsecure.unsecure_frame Unsecure.unsecure_from Unsecure.do_unsecure
    Unsecure.restore next_u32
received_in_turn = refl

receive-Refines_example :
    Refines ⦃b = host⦄ debug plain_ccm one_device source_address 3 (
      receive ⦃b = host⦄ debug plain_ccm one_device arrivals receiver FooterMode.none (device_at 3))
receive-Refines_example =
    receive-Refines ⦃b = host⦄ debug plain_ccm one_device source_address arrivals receiver
      FooterMode.none (device_at 3) 3 (refl, omega arith, (refl, omega arith, tt))
      (device_at 3, refl, refl)

no_counter_twice_example : 5 < 6
no_counter_twice_example =
    no_counter_twice ⦃b = host⦄ debug plain_ccm one_device source_address arrivals receiver
      FooterMode.none (device_at 3) (device_at 7) 3 [] 5 [] 6 []
      (refl, omega arith, (refl, omega arith, tt)) (device_at 3, refl, refl) received_in_turn

accepted_once :
    unsecure_frame ⦃b = host⦄ debug plain_ccm one_device
      (header_at 5)
      (0xde ∷ 0xf0 ∷ 0 ∷ 0 ∷ 0 ∷ 0 ∷ [])
      receiver
      FooterMode.none
      (device_at 3)
    ≡ (device_at 6, ok (0xde ∷ 0xf0 ∷ 0 ∷ 0 ∷ 0 ∷ 0 ∷ [], 4))
unfolding Unsecure.unsecure_frame Unsecure.unsecure_from Unsecure.do_unsecure Unsecure.restore
    next_u32
accepted_once = refl

replayed_frame_is_refused_example :
    unsecure_frame ⦃b = host⦄ debug plain_ccm one_device
      (header_at 5)
      (1 ∷ 2 ∷ [])
      receiver
      FooterMode.none
      (device_at 6)
    ≡ (device_at 6, err SecurityError.counter_error)
replayed_frame_is_refused_example =
    replayed_frame_is_refused ⦃b = host⦄ debug plain_ccm one_device source_address (header_at 5)
      (header_at 5) (aux_at 5) receiver (0x0102030405060708, replicate 16 0x11)
      (0xde ∷ 0xf0 ∷ 0 ∷ 0 ∷ 0 ∷ 0 ∷ []) (1 ∷ 2 ∷ []) (device_at 3) (device_at 6)
      (0xde ∷ 0xf0 ∷ 0 ∷ 0 ∷ 0 ∷ 0 ∷ [], 4) 3 refl (omega arith) (device_at 3, refl, refl)
      accepted_once (header_at-IsAdmitted 5) (omega arith)
