-- ===== src/Security/Unsecure/Progress.antt =====
-- A fresh frame is accepted, whatever came before it: `unsecure_frame` of
-- src/mac/frame/security/mod.rs.
use rust_ieee.Base.{ℕ, ◌≤◌, ◌<◌, ◌≡◌, arith, some, List, [], ◌∷◌, ◌++◌, length}
use rust_ieee.Outcome.{Outcome, ok, err, panic}
use rust_ieee.Target.{Target}
use rust_ieee.ByteLib.{ByteLib}
use rust_ieee.Address.{Address}
use rust_ieee.Security.AuxHeader.{AuxiliarySecurityHeader, get_frame_counter}
use rust_ieee.Security.Ccm.{Ccm}
use rust_ieee.Security.Context.{SecurityContext}
use rust_ieee.Security.Device.{DeviceDescriptorLookup}
use rust_ieee.Security.Error.{SecurityError}
use rust_ieee.Security.Nonce.{calculate_nonce}
use rust_ieee.Security.Secure.{transform}
use rust_ieee.Security.Secure.Cipher.{HasTag}
use rust_ieee.Security.Unsecure.{unsecure_frame}
use rust_ieee.Security.Unsecure.Admitted.{IsAdmitted}
use rust_ieee.Security.Unsecure.Inverse.{payload_is_unsecured}
use rust_ieee.Security.Unsecure.Replay.{counter_of, CounterIs}
use rust_ieee.Security.Unsecure.Window.{Arrival, AreFrom, Window, note, receive, receive-Refines}
use rust_ieee.Header.{Header}
use rust_ieee.Frame.{FooterMode}

abbrev AreBelow : ℕ → List ℕ → Type 0
AreBelow bound [] = Unit
AreBelow bound (c ∷ cs) = (c < bound) × AreBelow bound cs

-- The counters of the frames are below the bound.
abbrev pub ArriveBelow : ℕ → List Arrival → Type 0
ArriveBelow bound [] = Unit
ArriveBelow bound (f ∷ fs) =
    (counter_of f.header.auxiliary_security_header < bound) × ArriveBelow bound fs

Window-le :
    {n m : ℕ} (bound : ℕ) (cs : List ℕ) → Window n cs m → n ≤ bound → AreBelow bound cs → m ≤ bound
Window-le bound [] Window.stay le below = le
Window-le bound (c ∷ cs) (Window.move fresh w) le (lt, below) =
    Window-le bound cs w (omega arith) below

module _ ⦃b : ByteLib⦄ (t : Target) (ccm : Ccm) (devices : DeviceDescriptorLookup) where
  note-AreBelow :
      (bound frame : ℕ) (later : devices.Store → List ℕ × devices.Store)
      (r : devices.Store × Outcome SecurityError (List ℕ × ℕ))
      → frame < bound
      → ((s : devices.Store) → AreBelow bound (later s).0)
      → AreBelow bound (note t ccm devices frame later r).0
  note-AreBelow bound frame later (s, ok r) lt below = (lt, below s)
  note-AreBelow bound frame later (s, err e) lt below = below s
  note-AreBelow bound frame later (s, panic) lt below = below s

  receive-AreBelow :
      (bound : ℕ) (fs : List Arrival) (c : SecurityContext) (mode : FooterMode) (s : devices.Store)
      → ArriveBelow bound fs
      → AreBelow bound (receive t ccm devices fs c mode s).0
  unfolding receive
  receive-AreBelow bound [] c mode s below = tt
  receive-AreBelow bound (f ∷ fs) c mode s (lt, below) =
      note-AreBelow bound (counter_of f.header.auxiliary_security_header)
        (receive t ccm devices fs c mode) (unsecure_frame t ccm devices f.header f.buffer c mode s)
        lt (λ s. receive-AreBelow bound fs c mode s below)

  -- After any frames from an address, accepted or not, whose counters are below the maximum and that
  -- of the next one, an admitted frame from it with a tag level, a counter below the maximum and not
  -- behind the device's at the start, and a payload and a tag that the cipher made with the key and
  -- the nonce of the sender, is unsecured to the plain payload.
  pub fresh_frame_is_accepted :
      (h : Header) (a : AuxiliarySecurityHeader) (c : SecurityContext) (mode : FooterMode)
      (fs : List Arrival) (s : devices.Store) (n id : ℕ) (key : List ℕ) (address : Address)
      (plain part tag : List ℕ)
      → AreFrom address fs
      → ArriveBelow (get_frame_counter a) fs
      → CounterIs t ccm devices address s n
      → n ≤ get_frame_counter a
      → get_frame_counter a < 0xFFFFFFFF
      → IsAdmitted h a c address (id, key)
      → HasTag a.control.security_level
      → transform ccm a.control.security_level key
          (calculate_nonce id (get_frame_counter a) a.control.security_level)
          plain
        ≡ some (part, tag)
      → (s' : devices.Store) × (unsecure_frame t ccm devices h
            (part ++ tag)
            c
            FooterMode.none
            (receive t ccm devices fs c mode s).1
          ≡ (s', ok (plain ++ tag, length tag)))
  fresh_frame_is_accepted h a c mode fs s n id key address plain part tag from lower here fresh
        below v level sealed =
      let (m, (d, found, count), run) =
        receive-Refines t ccm devices address fs c mode s n from here in
      let bound =
        Window-le (get_frame_counter a) (receive t ccm devices fs c mode s).0 run fresh
          (receive-AreBelow (get_frame_counter a) fs c mode s lower) in
      (
        _,
        payload_is_unsecured t ccm devices h a c (receive t ccm devices fs c mode s).1 id key
            address d plain part tag v level found (omega arith) below sealed,
      )
