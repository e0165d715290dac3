-- ===== src/Security/Secure/Cipher.antt =====
-- The cipher on data that `secure_frame` of src/mac/frame/security/mod.rs hands to it.
use rust_ieee.Base.{ℕ, ◌≡◌, refl, ap, false, Option, none, some, List, [], length}
use rust_ieee.Security.Ccm.{Ccm}
use rust_ieee.Security.Control.Level.{SecurityLevel}
use rust_ieee.Security.Secure.{is_no_security, authenticated, transform}

-- The levels with a tag.
abbrev pub HasTag : SecurityLevel → Type 0
HasTag SecurityLevel.none = ⊥
HasTag SecurityLevel.enc = ⊥
HasTag _ = Unit

pub is_no_security-HasTag : (l : SecurityLevel) → HasTag l → is_no_security l ≡ false
is_no_security-HasTag SecurityLevel.none h = absurd h
is_no_security-HasTag _ h = refl

pub length-authenticated :
    (part plain tag : List ℕ) (o : Option (List ℕ × List ℕ))
    → authenticated plain o ≡ some (part, tag)
    → part ≡ plain
length-authenticated part plain tag none e = cc
length-authenticated part plain tag (some p) e = cc

pub length-transform :
    (ccm : Ccm) (l : SecurityLevel) (key nonce plain part tag : List ℕ)
    → transform ccm l key nonce plain ≡ some (part, tag)
    → length part ≡ length plain
unfolding transform
length-transform ccm SecurityLevel.none key nonce plain part tag e = cc
length-transform ccm SecurityLevel.enc key nonce plain part tag e = cc
length-transform ccm SecurityLevel.mic32 key nonce plain part tag e =
    ap length (length-authenticated part plain tag _ e)
length-transform ccm SecurityLevel.mic64 key nonce plain part tag e =
    ap length (length-authenticated part plain tag _ e)
length-transform ccm SecurityLevel.mic128 key nonce plain part tag e =
    ap length (length-authenticated part plain tag _ e)
length-transform ccm SecurityLevel.encmic32 key nonce plain part tag e =
    (ccm.encrypt_length 4 key nonce [] plain part tag e).0
length-transform ccm SecurityLevel.encmic64 key nonce plain part tag e =
    (ccm.encrypt_length 8 key nonce [] plain part tag e).0
length-transform ccm SecurityLevel.encmic128 key nonce plain part tag e =
    (ccm.encrypt_length 16 key nonce [] plain part tag e).0
