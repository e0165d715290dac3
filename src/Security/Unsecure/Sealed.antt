-- ===== src/Security/Unsecure/Sealed.antt =====
-- What a cipher that verifies its tags opens was sealed with it, for the levels that
-- `unsecure_frame` of src/mac/frame/security/mod.rs knows.
use rust_ieee.Base.{ℕ, ◌≡◌, refl, sym, arith, Option, none, some, List, []}
use rust_ieee.Security.Ccm.{Ccm, IsVerifying}
use rust_ieee.Security.Control.Level.{SecurityLevel}
use rust_ieee.Security.Secure.{authenticated, transform}
use rust_ieee.Security.Unsecure.{verified, restore}
use rust_ieee.Security.Unsecure.Cipher.{empty}

module _ (ccm : Ccm) (v : IsVerifying ccm) where
  -- Data that is only verified.
  verified-transform :
      (n : ℕ) (key nonce part front tag : List ℕ) (o : Option (List ℕ))
      → ccm.decrypt n key nonce front [] tag ≡ o
      → verified front o ≡ some part
      → authenticated part (ccm.encrypt n key nonce part []) ≡ some (front, tag)
  verified-transform n key nonce part front tag none e h = absurd (ground (arith, h))
  verified-transform n key nonce part front tag (some x) e h =
      let made = v.encrypt_decrypt n key nonce front x [] tag e in
      let nothing : x ≡ [] =
        empty x (sym ((ccm.encrypt_length n key nonce front x [] tag made).0)) in
      let same : front ≡ part = cc in rw (← same, rw nothing at made) refl

  pub transform-restore :
      (l : SecurityLevel) (key nonce part front tag : List ℕ)
      → restore ccm l key nonce front tag ≡ some part
      → transform ccm l key nonce part ≡ some (front, tag)
  unfolding transform restore
  transform-restore SecurityLevel.none key nonce part front tag e = absurd (ground (arith, e))
  transform-restore SecurityLevel.enc key nonce part front tag e = absurd (ground (arith, e))
  transform-restore SecurityLevel.mic32 key nonce part front tag e =
      verified-transform 4 key nonce part front tag _ refl e
  transform-restore SecurityLevel.mic64 key nonce part front tag e =
      verified-transform 8 key nonce part front tag _ refl e
  transform-restore SecurityLevel.mic128 key nonce part front tag e =
      verified-transform 16 key nonce part front tag _ refl e
  transform-restore SecurityLevel.encmic32 key nonce part front tag e =
      v.encrypt_decrypt 4 key nonce [] part front tag e
  transform-restore SecurityLevel.encmic64 key nonce part front tag e =
      v.encrypt_decrypt 8 key nonce [] part front tag e
  transform-restore SecurityLevel.encmic128 key nonce part front tag e =
      v.encrypt_decrypt 16 key nonce [] part front tag e
