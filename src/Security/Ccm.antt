-- ===== src/Security/Ccm.antt =====
-- The crate `ccm` (authenticated encryption over the block cipher of the user), of which the program
-- only has the interface. Each law is documented behaviour.
use rust_ieee.Base.{ℕ, ◌≡◌, arith, Bool, true, false, Option, none, some, List, length}
use rust_ieee.Base.Octets.{same_octets, same_octets_refl}

pub record Ccm : Type 0 where
  -- `encrypt_in_place_detached` for a tag of so many octets: key, nonce, associated data and buffer
  -- to the buffer as it is afterwards and the tag.
  pub encrypt : ℕ → List ℕ → List ℕ → List ℕ → List ℕ → Option (List ℕ × List ℕ)
  -- `decrypt_in_place_detached`: key, nonce, associated data, buffer and tag to the buffer as it is
  -- afterwards.
  pub decrypt : ℕ → List ℕ → List ℕ → List ℕ → List ℕ → List ℕ → Option (List ℕ)
  pub encrypt_length :
      (n : ℕ) (key nonce aad plain cipher tag : List ℕ)
      → encrypt n key nonce aad plain ≡ some (cipher, tag)
      → (length cipher ≡ length plain) × (length tag ≡ n)
  pub decrypt_encrypt :
      (n : ℕ) (key nonce aad plain cipher tag : List ℕ)
      → encrypt n key nonce aad plain ≡ some (cipher, tag)
      → decrypt n key nonce aad cipher tag ≡ some plain

-- Decryption computes the tag of what it decrypts and compares it with the tag that is given, so that
-- it succeeds only on what encryption makes.
pub record IsVerifying (ccm : Ccm) : Type 0 where
  pub encrypt_decrypt :
      (n : ℕ) (key nonce aad plain cipher tag : List ℕ)
      → ccm.decrypt n key nonce aad cipher tag ≡ some plain
      → ccm.encrypt n key nonce aad plain ≡ some (cipher, tag)

-- What is left of a result of the cipher where it refuses.
abbrev pub refuse {ℓ} : {A : Type ℓ} → Bool → Option A → Option A
refuse true o = none
refuse false o = o

pub refuse-some {ℓ} :
    {A : Type ℓ} (refused : Bool) (o : Option A) (a : A) → refuse refused o ≡ some a → o ≡ some a
refuse-some true o a e = absurd (ground (arith, e))
refuse-some false o a e = e

-- The cipher, but that it encrypts nothing under this nonce.
abbrev pub forbid : List ℕ → Ccm → Ccm
forbid x ccm = record ccm {
  encrypt =
      λ n key nonce aad plain. refuse (same_octets nonce x) (ccm.encrypt n key nonce aad plain);
  encrypt_length = λ n key nonce aad plain cipher tag e.
      ccm.encrypt_length n key nonce aad plain cipher tag
        (refuse-some (same_octets nonce x) (ccm.encrypt n key nonce aad plain) (cipher, tag) e);
  decrypt_encrypt = λ n key nonce aad plain cipher tag e.
      ccm.decrypt_encrypt n key nonce aad plain cipher tag
        (refuse-some (same_octets nonce x) (ccm.encrypt n key nonce aad plain) (cipher, tag) e);
}

pub forbid_self :
    (x : List ℕ) (ccm : Ccm) (n : ℕ) (key aad plain : List ℕ)
    → (forbid x ccm).encrypt n key x aad plain ≡ none
forbid_self x ccm n key aad plain = rw (same_octets_refl x)

-- The two ciphers encrypt alike under this nonce.
abbrev pub Alike : List ℕ → Ccm → Ccm → Type 0
Alike x ccm ccm' =
    (n : ℕ) (key aad plain : List ℕ)
    → ccm'.encrypt n key x aad plain ≡ ccm.encrypt n key x aad plain
