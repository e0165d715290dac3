-- ===== src/Security/Unsecure/Opening.antt =====
-- What the cipher part of `unsecure_frame` of src/mac/frame/security/mod.rs gives.
use rust_ieee.Base.{
  ℕ, suc, ◌^◌, ◌-◌, ◌≤◌, ◌≡◌, refl, arith, false, Option, none, some, List, ◌++◌, take, drop,
  length, leb, ltb, Bool-cases, inl, inr,
}
use rust_ieee.Outcome.{Outcome, ok, err, panic, and_then}
use rust_ieee.Target.{Target, next_u32}
use rust_ieee.ByteLib.{ByteLib}
use rust_ieee.Security.AuxHeader.{AuxiliarySecurityHeader, get_frame_counter}
use rust_ieee.Security.Ccm.{Ccm}
use rust_ieee.Security.Control.Level.{SecurityLevel, get_mic_octet_size}
use rust_ieee.Security.Device.{DeviceDescriptor}
use rust_ieee.Security.Error.{SecurityError}
use rust_ieee.Security.Nonce.{calculate_nonce}
use rust_ieee.Security.Secure.{is_no_security}
use rust_ieee.Security.Unsecure.{restore, Unsecured, accept, do_unsecure, unsecure_level}

-- Where the tag starts in the buffer.
abbrev pub tag_start : AuxiliarySecurityHeader → List ℕ → ℕ
tag_start a buffer = length buffer - get_mic_octet_size a.control.security_level

-- The cipher opened the buffer without its tag, with the key and the nonce of the sender, for that
-- tag; the result is what it gave, with the tag behind it.
pub record Opens (ccm : Ccm) (a : AuxiliarySecurityHeader) (key : ℕ × List ℕ) (buffer out : List ℕ)
    (taglen : ℕ) : Type 0 where
  pub part : List ℕ
  pub holds_tag : get_mic_octet_size a.control.security_level ≤ length buffer
  pub opened :
      restore ccm a.control.security_level key.1
        (calculate_nonce key.0 (get_frame_counter a) a.control.security_level)
        (take (tag_start a buffer) buffer)
        (drop (tag_start a buffer) buffer)
      ≡ some part
  pub joined : out ≡ part ++ drop (tag_start a buffer) buffer
  pub size : taglen ≡ get_mic_octet_size a.control.security_level

module _ ⦃b : ByteLib⦄ where
  -- Not the error that stands for a frame without security.
  abbrev pub IsOther : SecurityError → Type 0
  IsOther SecurityError.security_not_enabled = ⊥
  IsOther _ = Unit

  -- A value has the property, and an error says something else than that there is no security.
  abbrev pub Checked : {A : Type 0} → (A → Type 0) → Outcome SecurityError A → Type 0
  Checked P (ok a) = P a
  Checked P (err e) = IsOther e
  Checked P panic = Unit

  next_u32-Checked : (t : Target) (n : ℕ) → Checked (λ m. Unit {0}) (next_u32 t n)
  unfolding next_u32
  next_u32-Checked t n = elim (Bool-cases (ltb (suc n) (2 ^ 32))) [
    | inl e ↦ rw e tt
    | inr e ↦ elim (Bool-cases t.overflow_checks) [
      | inl e' ↦ rw (e, e') tt
      | inr e' ↦ rw (e, e') tt
    ]
  ]

module _ ⦃b : ByteLib⦄ (t : Target) (ccm : Ccm) where
  module _ (a : AuxiliarySecurityHeader) (key : ℕ × List ℕ) (buffer : List ℕ) where
    abbrev pub OpensTo : Unsecured → Type 0
    OpensTo u = Opens ccm a key buffer u.buffer u.taglen

    abbrev nonce : List ℕ
    nonce = calculate_nonce key.0 (get_frame_counter a) a.control.security_level

    counted-Checked :
        (u : ℕ → Unsecured)
        → ((n : ℕ) → OpensTo (u n))
        → (o : Outcome SecurityError ℕ) → Checked (λ m. Unit {0}) o
        → Checked OpensTo (and_then o (λ n. ok (u n)))
    counted-Checked u h (ok n) other = h n
    counted-Checked u h (err e) other = other
    counted-Checked u h panic other = tt

    accept-Checked :
        (o : Option (List ℕ))
        → get_mic_octet_size a.control.security_level ≤ length buffer
        → restore ccm a.control.security_level key.1 nonce
            (take (tag_start a buffer) buffer)
            (drop (tag_start a buffer) buffer)
          ≡ o
        → Checked OpensTo (
            accept t ccm a
              (drop (tag_start a buffer) buffer)
              (get_mic_octet_size a.control.security_level)
              o)
    accept-Checked none room e = tt
    accept-Checked (some part) room e =
        counted-Checked
          (λ n. record {
            counter = n;
            buffer = part ++ drop (tag_start a buffer) buffer;
            taglen = get_mic_octet_size a.control.security_level;
          })
          (λ n. record { part = part; holds_tag = room; opened = e; joined = refl; size = refl })
          (next_u32 t (get_frame_counter a)) (next_u32-Checked t (get_frame_counter a))

    do_unsecure-Checked : Checked OpensTo (do_unsecure t ccm a key.1 nonce buffer)
    unfolding do_unsecure
    do_unsecure-Checked =
        elim (Bool-cases (leb (get_mic_octet_size a.control.security_level) (length buffer))) [
          | inl e ↦ rw e (accept-Checked _ (ground (arith, e)) refl)
          | inr e ↦ rw e tt
        ]

    pub level-Checked :
        (l : SecurityLevel) (d : DeviceDescriptor)
        → is_no_security l ≡ false
        → Checked OpensTo (unsecure_level t ccm l a key.1 nonce buffer d)
    level-Checked SecurityLevel.none d e = absurd (ground (arith, e))
    level-Checked SecurityLevel.enc d e = tt
    level-Checked _ d e = do_unsecure-Checked
