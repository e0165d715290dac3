-- ===== src/Security/Unsecure/Cipher.antt =====
-- The cipher undoes what it did, for the levels that `unsecure_frame` of
-- src/mac/frame/security/mod.rs knows.
use rust_ieee.Base.{ℕ, ◌≡◌, refl, arith, Option, none, some, List, [], ◌∷◌, length}
use rust_ieee.Security.Ccm.{Ccm}
use rust_ieee.Security.Control.Level.{SecurityLevel, get_mic_octet_size}
use rust_ieee.Security.Secure.{authenticated, transform}
use rust_ieee.Security.Unsecure.{verified, restore}

-- What `restore` needs to know of a tag that `transform` made.
abbrev IsUndone : Option (List ℕ) → List ℕ → List ℕ → ℕ → Type 0
IsUndone restored plain tag n = (restored ≡ some plain) × (length tag ≡ n)

pub empty : (xs : List ℕ) → length xs ≡ 0 → xs ≡ []
empty [] h = refl
empty (x ∷ xs) h = absurd (omega arith)

pair_eq :
    (part plain cipher tag t : List ℕ)
    → authenticated plain (some (cipher, t)) ≡ some (part, tag)
    → (plain ≡ part) × (t ≡ tag)
pair_eq part plain cipher tag t e = (cc, cc)

module _ (ccm : Ccm) where
  verified_by :
      (n : ℕ) (key nonce plain part tag : List ℕ) (o : Option (List ℕ × List ℕ))
      → ccm.encrypt n key nonce plain [] ≡ o
      → authenticated plain o ≡ some (part, tag)
      → IsUndone (verified part (ccm.decrypt n key nonce part [] tag)) plain tag n
  verified_by n key nonce plain part tag none e h = absurd (ground (arith, h))
  verified_by n key nonce plain part tag (some (cipher, t)) e h =
      let (same, tags) = pair_eq part plain cipher tag t h in
      let (short, size) = ccm.encrypt_length n key nonce plain [] cipher t e in
      let undone = ccm.decrypt_encrypt n key nonce plain [] cipher t e in
      let none_left = empty cipher short in rw (← same, ← tags, rw none_left at undone) (refl, size)

  pub restore-transform :
      (l : SecurityLevel) (key nonce plain part tag : List ℕ)
      → transform ccm l key nonce plain ≡ some (part, tag)
      → IsUndone (restore ccm l key nonce part tag) plain tag (get_mic_octet_size l)
  unfolding transform restore
  restore-transform SecurityLevel.none key nonce plain part tag e = absurd (ground (arith, e))
  restore-transform SecurityLevel.enc key nonce plain part tag e = absurd (ground (arith, e))
  restore-transform SecurityLevel.mic32 key nonce plain part tag e =
      verified_by 4 key nonce plain part tag _ refl e
  restore-transform SecurityLevel.mic64 key nonce plain part tag e =
      verified_by 8 key nonce plain part tag _ refl e
  restore-transform SecurityLevel.mic128 key nonce plain part tag e =
      verified_by 16 key nonce plain part tag _ refl e
  restore-transform SecurityLevel.encmic32 key nonce plain part tag e = (
    ccm.decrypt_encrypt 4 key nonce [] plain part tag e,
    (ccm.encrypt_length 4 key nonce [] plain part tag e).1,
  )
  restore-transform SecurityLevel.encmic64 key nonce plain part tag e = (
    ccm.decrypt_encrypt 8 key nonce [] plain part tag e,
    (ccm.encrypt_length 8 key nonce [] plain part tag e).1,
  )
  restore-transform SecurityLevel.encmic128 key nonce plain part tag e = (
    ccm.decrypt_encrypt 16 key nonce [] plain part tag e,
    (ccm.encrypt_length 16 key nonce [] plain part tag e).1,
  )
