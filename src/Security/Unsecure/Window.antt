-- ===== src/Security/Unsecure/Window.antt =====
-- The frames of one device, one after the other, through `unsecure_frame` of
-- src/mac/frame/security/mod.rs, against an abstract window for replays.
use mathlib.Core.Path.{subst}
use rust_ieee.Base.{ℕ, suc, ◌≤◌, ◌<◌, ◌≡◌, ◌∙◌, arith, some, List, [], ◌∷◌, ◌++◌}
use rust_ieee.Outcome.{Outcome, ok, err, panic}
use rust_ieee.Target.{Target}
use rust_ieee.ByteLib.{ByteLib}
use rust_ieee.Address.{Address}
use rust_ieee.Security.AuxHeader.{AuxiliarySecurityHeader, get_frame_counter}
use rust_ieee.Security.Ccm.{Ccm}
use rust_ieee.Security.Context.{SecurityContext, AddressingMode}
use rust_ieee.Security.Device.{DeviceDescriptorLookup}
use rust_ieee.Security.Error.{SecurityError}
use rust_ieee.Security.Unsecure.{unsecure_from, unsecure_frame}
use rust_ieee.Security.Unsecure.Admitted.{IsAdmitted, admitted}
use rust_ieee.Security.Unsecure.Replay.{
  counter_of, replayed, CounterIs, Moves, unsecure_frame-Moves,
}
use rust_ieee.Header.{Header}
use rust_ieee.Frame.{FooterMode}

-- The abstract receiver knows the least counter that it still takes. It takes a counter from there
-- on, and then only larger ones; it may ignore any counter. `Window n cs m`: from `n`, having taken
-- `cs`, it is at `m`.
pub data Window : ℕ → List ℕ → ℕ → Type 0 where
  stay : {n : ℕ} → Window n [] n
  move : {n m c : ℕ} {cs : List ℕ} → n ≤ c → Window (suc c) cs m → Window n (c ∷ cs) m

above : {n m : ℕ} (ys : List ℕ) (d : ℕ) (zs : List ℕ) → Window n (ys ++ (d ∷ zs)) m → n ≤ d
above [] d zs (Window.move le w) = le
above (y ∷ ys) d zs (Window.move le w) = omega (arith, above ys d zs w)

increases :
    {n m : ℕ} (xs : List ℕ) (c : ℕ) (ys : List ℕ) (d : ℕ) (zs : List ℕ)
    → Window n (xs ++ (c ∷ (ys ++ (d ∷ zs)))) m
    → c < d
increases [] c ys d zs (Window.move le w) = above ys d zs w
increases (x ∷ xs) c ys d zs (Window.move le w) = increases xs c ys d zs w

-- A frame as it arrives.
pub record Arrival : Type 0 where
  pub header : Header
  pub buffer : List ℕ

-- The frames carry the address, and counters below the maximum.
abbrev pub AreFrom : Address → List Arrival → Type 0
AreFrom address [] = Unit
AreFrom address (f ∷ fs) =
    (f.header.source ≡ some address)
    × (counter_of f.header.auxiliary_security_header < 0xFFFFFFFF)
    × AreFrom address fs

module _ ⦃b : ByteLib⦄ (t : Target) (ccm : Ccm) (devices : DeviceDescriptorLookup) where
  -- The counter is noted where the frame is accepted.
  abbrev pub note :
      ℕ
      → (devices.Store → List ℕ × devices.Store)
      → devices.Store × Outcome SecurityError (List ℕ × ℕ)
      → List ℕ × devices.Store
  note counter later (s, ok r) = (counter ∷ (later s).0, (later s).1)
  note counter later (s, err e) = later s
  note counter later (s, panic) = later s

  -- The frames are unsecured in turn: the counters of those that are accepted, and the store.
  unfoldable pub receive :
      List Arrival → SecurityContext → FooterMode → devices.Store → List ℕ × devices.Store
  receive [] c mode s = ([], s)
  receive (f ∷ fs) c mode s =
      note (counter_of f.header.auxiliary_security_header) (receive fs c mode)
        (unsecure_frame t ccm devices f.header f.buffer c mode s)

  module _ (address : Address) where
    -- What was taken is a run of the window to the counter of the device.
    abbrev pub Refines : ℕ → List ℕ × devices.Store → Type 0
    Refines n (taken, s) = (m : ℕ) × CounterIs t ccm devices address s m × Window n taken m

    note-Refines :
        (later : devices.Store → List ℕ × devices.Store) (n frame : ℕ)
        (r : devices.Store × Outcome SecurityError (List ℕ × ℕ))
        → ((s : devices.Store) (k : ℕ) → CounterIs t ccm devices address s k → Refines k (later s))
        → Moves t ccm devices address n frame r
        → Refines n (note frame later r)
    note-Refines later n frame (s, ok r) refines (fresh, here) =
        let (m, there, run) = refines s (suc frame) here in (m, there, Window.move fresh run)
    note-Refines later n frame (s, err e) refines here = refines s n here
    note-Refines later n frame (s, panic) refines here = refines s n here

    -- Frames from one address with counters below the maximum, unsecured in turn from any store
    -- that knows the address, refine the window: the counters of the accepted frames are a run of
    -- the abstract receiver from the counter of the device before to its counter afterwards.
    pub receive-Refines :
        (fs : List Arrival) (c : SecurityContext) (mode : FooterMode) (s : devices.Store) (n : ℕ)
        → AreFrom address fs
        → CounterIs t ccm devices address s n
        → Refines n (receive fs c mode s)
    unfolding receive
    receive-Refines [] c mode s n from here = (n, here, Window.stay)
    receive-Refines (f ∷ fs) c mode s n (from, below, rest) here =
        note-Refines (receive fs c mode) n (counter_of f.header.auxiliary_security_header)
          (unsecure_frame t ccm devices f.header f.buffer c mode s)
          (λ s k there. receive-Refines fs c mode s k rest there)
          (unsecure_frame-Moves t ccm devices address f.header f.buffer c mode s n from below here)

    -- Among frames from one address with counters below the maximum, unsecured in turn from a store
    -- that knows the address, a frame accepted later has a larger counter than one accepted
    -- earlier; in particular no counter is accepted twice.
    pub no_counter_twice :
        (fs : List Arrival) (c : SecurityContext) (mode : FooterMode) (s s' : devices.Store) (n : ℕ)
        (xs : List ℕ) (earlier : ℕ) (ys : List ℕ) (later : ℕ) (zs : List ℕ)
        → AreFrom address fs
        → CounterIs t ccm devices address s n
        → receive fs c mode s ≡ (xs ++ (earlier ∷ (ys ++ (later ∷ zs))), s')
        → earlier < later
    no_counter_twice fs c mode s s' n xs earlier ys later zs from here e =
        let (m, _, run) = subst (Refines n) e (receive-Refines fs c mode s n from here) in
        increases xs earlier ys later zs run

    pub refused :
        (a : AuxiliarySecurityHeader) (key : ℕ × List ℕ) (buffer : List ℕ) (s : devices.Store)
        (n : ℕ)
        → get_frame_counter a < n
        → CounterIs t ccm devices address s n
        → unsecure_from t ccm devices a key buffer address
            (devices.lookup_device AddressingMode.src_addr_mode address s)
          ≡ (
            (devices.lookup_device AddressingMode.src_addr_mode address s).0,
            err SecurityError.counter_error,
          )
    unfolding unsecure_from
    refused a key buffer s n behind (d, found, count) =
        rw (found, replayed d.frame_counter (get_frame_counter a) (rw count behind))

    -- Once a frame from an address with a counter below the maximum has been unsecured, an admitted
    -- frame from that address whose counter is not larger is refused with `CounterError`, whatever
    -- it carries, and leaves no trace but that of the lookup; the frame itself sent again is such.
    pub replayed_frame_is_refused :
        (h h' : Header) (a' : AuxiliarySecurityHeader) (c : SecurityContext) (key : ℕ × List ℕ)
        (buffer buffer' : List ℕ) (s s' : devices.Store) (r : List ℕ × ℕ) (n : ℕ)
        → h.source ≡ some address
        → counter_of h.auxiliary_security_header < 0xFFFFFFFF
        → CounterIs t ccm devices address s n
        → unsecure_frame t ccm devices h buffer c FooterMode.none s ≡ (s', ok r)
        → IsAdmitted h' a' c address key
        → get_frame_counter a' ≤ counter_of h.auxiliary_security_header
        → unsecure_frame t ccm devices h' buffer' c FooterMode.none s' ≡ (
          (devices.lookup_device AddressingMode.src_addr_mode address s').0,
          err SecurityError.counter_error,
        )
    replayed_frame_is_refused h h' a' c key buffer buffer' s s' r n from below here accepted v old =
        let (_, there) =
          subst (Moves t ccm devices address n (counter_of h.auxiliary_security_header)) accepted (
            unsecure_frame-Moves t ccm devices address h buffer c FooterMode.none s n from below
              here) in
        admitted t ccm devices h' a' c address key buffer' s' v
        ∙ refused a' key buffer' s' (suc (counter_of h.auxiliary_security_header)) (omega arith)
            there
