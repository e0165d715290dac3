-- ===== src/Security/Secure/Session.antt =====
-- The frames that one context secures, one after the other: `secure_frame` of
-- src/mac/frame/security/mod.rs.
use mathlib.Core.Path.{subst}
use rust_ieee.Base.{
  ℕ, suc, ◌^◌, ◌≤◌, ◌<◌, ◌≡◌, ◌≢◌, refl, sym, arith, false, some, List, [], ◌∷◌, ◌++◌, ◌⊎◌, inl,
  inr,
}
use rust_ieee.Outcome.{Outcome, ok, err, panic}
use rust_ieee.ByteLib.{ByteLib}
use rust_ieee.Security.AuxHeader.{AuxiliarySecurityHeader}
use rust_ieee.Security.Ccm.{Ccm}
use rust_ieee.Security.Context.{SecurityContext}
use rust_ieee.Security.Error.{SecurityError}
use rust_ieee.Security.Nonce.{calculate_nonce, calculate_nonce_injective}
use rust_ieee.Security.Secure.{is_no_security, secure_frame}
use rust_ieee.Security.Secure.Asked.{Asks, secured-Asks}
use rust_ieee.Security.Secure.Counter.{IsAdvanced, Uses, secured_frame_advances}
use rust_ieee.Header.{Header}
use rust_ieee.Frame.{FooterMode}

-- A frame to be secured, with its security header and the buffer that it goes to.
pub record Departure : Type 0 where
  pub header : Header
  pub aux : AuxiliarySecurityHeader
  pub payload : List ℕ
  pub buffer : List ℕ

-- The frames carry their security headers, whose levels are not none.
abbrev pub AreSecured : List Departure → Type 0
AreSecured [] = Unit
AreSecured (f ∷ fs) =
    (f.header.auxiliary_security_header ≡ some f.aux)
    × (is_no_security f.aux.control.security_level ≡ false)
    × AreSecured fs

-- A frame and the context that it is secured with.
abbrev pub Sent : Type 0
Sent = Departure × SecurityContext

module _ ⦃b : ByteLib⦄ (ccm : Ccm) (mode : FooterMode) where
  -- The frame is noted with its context where it is secured.
  abbrev noted :
      Sent
      → (SecurityContext → List Sent × SecurityContext)
      → SecurityContext × Outcome SecurityError (List ℕ × ℕ)
      → List Sent × SecurityContext
  noted sent later (c, ok r) = (sent ∷ (later c).0, (later c).1)
  noted sent later (c, err e) = later c
  noted sent later (c, panic) = later c

  -- The frames are secured in turn: those where it succeeds, and the context afterwards.
  unfoldable pub send : List Departure → SecurityContext → List Sent × SecurityContext
  send [] c = ([], c)
  send (f ∷ fs) c = noted (f, c) (send fs) (secure_frame ccm f.header f.payload c mode f.buffer)

  -- In the run of `secure_frame` for this frame the cipher is asked under this nonce and no other.
  abbrev pub AskedUnder : Sent → List ℕ → Type 0
  AskedUnder s x = Asks ccm s.0.header s.0.payload s.1 mode s.0.buffer x

  abbrev nonce_of : Sent → List ℕ
  nonce_of s = calculate_nonce s.1.euid s.1.frame_counter s.0.aux.control.security_level

  -- Frames of an address that ask under nonces of it with counters that begin at a number and rise.
  abbrev Rise : ℕ → ℕ → List Sent → Type 0
  Rise euid from [] = Unit
  Rise euid from (s ∷ ss) =
      AskedUnder s (nonce_of s)
      × (s.1.euid ≡ euid)
      × (from ≤ s.1.frame_counter)
      × (s.1.frame_counter < 2 ^ 32)
      × Rise euid (suc s.1.frame_counter) ss

  Rise-lower : (euid n : ℕ) (ss : List Sent) → Rise euid (suc n) ss → Rise euid n ss
  Rise-lower euid n [] r = tt
  Rise-lower euid n (s ∷ ss) (asked, e, le, below, rest) = (asked, e, omega arith, below, rest)

  -- A frame behind the beginning has its place among the counters.
  Rise-nth :
      (euid n : ℕ) (rs : List Sent) (s : Sent) (ss : List Sent)
      → Rise euid n (rs ++ (s ∷ ss))
      → AskedUnder s (nonce_of s)
        × (s.1.euid ≡ euid)
        × (n ≤ s.1.frame_counter)
        × (s.1.frame_counter < 2 ^ 32)
        × Rise euid (suc s.1.frame_counter) ss
  Rise-nth euid n [] s ss r = r
  Rise-nth euid n (r ∷ rs) s ss (_, _, le, _, rest) =
      let (asked, e, le', below, rest') = Rise-nth euid (suc r.1.frame_counter) rs s ss rest in
      (asked, e, omega arith, below, rest')

  abbrev Rises : (SecurityContext → List Sent × SecurityContext) → Type 0
  Rises later =
      (x : SecurityContext) → x.frame_counter < 2 ^ 32 → Rise x.euid x.frame_counter (later x).0

  -- The context after an advance, or as it was.
  next-Rise :
      (c c' : SecurityContext) (later : SecurityContext → List Sent × SecurityContext)
      → IsAdvanced c c'
      → Rises later
      → c.frame_counter < 2 ^ 32
      → Rise c.euid (suc c.frame_counter) (later c').0
  next-Rise c c' later (below, same) rises fits =
      subst (λ x. Rise c.euid (suc c.frame_counter) (later x).0) (sym same)
        (rises (record c { frame_counter = suc c.frame_counter }) (omega arith))

  kept-Rise :
      (c c' : SecurityContext) (later : SecurityContext → List Sent × SecurityContext)
      → IsAdvanced c c' ⊎ (c' ≡ c)
      → Rises later
      → c.frame_counter < 2 ^ 32
      → Rise c.euid c.frame_counter (later c').0
  kept-Rise c c' later (inl moved) rises fits =
      Rise-lower c.euid c.frame_counter (later c').0 (next-Rise c c' later moved rises fits)
  kept-Rise c c' later (inr same) rises fits =
      subst (λ x. Rise c.euid c.frame_counter (later x).0) (sym same) (rises c fits)

  noted-Rise :
      (f : Departure) (c : SecurityContext) (later : SecurityContext → List Sent × SecurityContext)
      (r : SecurityContext × Outcome SecurityError (List ℕ × ℕ))
      → f.header.auxiliary_security_header ≡ some f.aux
      → is_no_security f.aux.control.security_level ≡ false
      → secure_frame ccm f.header f.payload c mode f.buffer ≡ r
      → Uses c r
      → Rises later
      → c.frame_counter < 2 ^ 32
      → Rise c.euid c.frame_counter (noted (f, c) later r).0
  noted-Rise f c later (c', ok o) aux level e moved rises fits = (
    secured-Asks ccm f.header f.payload f.aux c c' mode f.buffer o aux level e,
    refl,
    omega arith,
    fits,
    next-Rise c c' later moved rises fits,
  )
  noted-Rise f c later (c', err x) aux level e moved rises fits =
      kept-Rise c c' later moved rises fits
  noted-Rise f c later (c', panic) aux level e moved rises fits =
      kept-Rise c c' later moved rises fits

  send-Rise :
      (fs : List Departure) (c : SecurityContext)
      → AreSecured fs
      → c.frame_counter < 2 ^ 32
      → Rise c.euid c.frame_counter (send fs c).0
  unfolding send
  send-Rise [] c secured fits = tt
  send-Rise (f ∷ fs) c (has_aux, level, rest) fits =
      noted-Rise f c (send fs) (secure_frame ccm f.header f.payload c mode f.buffer) has_aux level
        refl (secured_frame_advances ccm f.header f.payload f.aux c mode f.buffer has_aux level)
        (λ x small. send-Rise fs x rest small) fits

  -- Of the frames with a security level that a context secures in turn, failures between them or
  -- not, where its address and counter fit their integers, any two ask the cipher under different
  -- nonces. The nonce of a run is told by the cipher: with one that refuses this nonce the run
  -- fails, and with any that encrypts alike under it the run is the same.
  pub no_nonce_twice :
      (fs : List Departure) (c c' : SecurityContext) (rs : List Sent) (earlier : Sent)
      (ss : List Sent) (later : Sent) (ts : List Sent)
      → AreSecured fs
      → c.euid < 2 ^ 64
      → c.frame_counter < 2 ^ 32
      → send fs c ≡ (rs ++ (earlier ∷ (ss ++ (later ∷ ts))), c')
      → (x : List ℕ) × (y : List ℕ) × AskedUnder earlier x × AskedUnder later y × (x ≢ y)
  no_nonce_twice fs c c' rs earlier ss later ts secured small fits e =
      let all = subst (λ r. Rise c.euid c.frame_counter r.0) e (send-Rise fs c secured fits) in
      let (first, same, _, below, rest) =
        Rise-nth c.euid c.frame_counter rs earlier (ss ++ (later ∷ ts)) all in
      let (second, same', le, below', _) =
        Rise-nth c.euid (suc earlier.1.frame_counter) ss later ts rest in
      (
        nonce_of earlier,
        nonce_of later,
        first,
        second,
        λ twice.
            let (_, counters, _) =
              calculate_nonce_injective earlier.1.euid earlier.1.frame_counter
                earlier.0.aux.control.security_level later.1.euid later.1.frame_counter
                later.0.aux.control.security_level (omega arith) (omega arith) below below' twice in
            omega arith,
      )
