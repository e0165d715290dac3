-- ===== src/Security/Nonce.antt =====
-- `calculate_nonce` of src/mac/frame/security/mod.rs.
use rust_ieee.Base.{
  ℕ, zero, suc, ◌+◌, ◌*◌, ◌/◌, ◌%◌, ◌^◌, ◌<◌, ◌≡◌, refl, sym, ap, ◌∙◌, arith, some, List, [], ◌∷◌,
  ◌++◌, bit_and, take, drop,
}
use mathlib.Core.Path.{ap₂}
use native.Mathlib.Nat.{pow-suc, div-div-eq-div-mul, div-one}
use rust_ieee.Base.Bits.{◌>>◌, low_field}
use rust_ieee.Base.Octets.{Endian, octets, le_octets, value, value-octets}
use rust_ieee.Security.Control.Level
use rust_ieee.Security.Control.Level.{SecurityLevel}

-- The loop over the indices from `i`: `n` octets of `v`.
unfoldable pub nonce_octets : ℕ → ℕ → ℕ → List ℕ
nonce_octets zero i v = []
nonce_octets (suc n) i v = (bit_and (v >> (8 * i)) 0xFF % 2 ^ 8) ∷ nonce_octets n (suc i) v

-- The thirteen octets: eight, four and the last one.
unfoldable pub calculate_nonce : ℕ → ℕ → SecurityLevel → List ℕ
calculate_nonce source_addr frame_counter sec_level =
    nonce_octets 8 0 source_addr
    ++ (nonce_octets 4 0 frame_counter ++ (Level.to_bits sec_level ∷ []))

pow_octet : (k : ℕ) → 2 ^ suc (suc (suc (suc (suc (suc (suc (suc k))))))) ≡ 2 ^ k * 256
pow_octet k = omega (
  arith,
  pow-suc 2 k,
  pow-suc 2 (suc k),
  pow-suc 2 (suc (suc k)),
  pow-suc 2 (suc (suc (suc k))),
  pow-suc 2 (suc (suc (suc (suc k)))),
  pow-suc 2 (suc (suc (suc (suc (suc k))))),
  pow-suc 2 (suc (suc (suc (suc (suc (suc k)))))),
  pow-suc 2 (suc (suc (suc (suc (suc (suc (suc k))))))),
)

next_shift : (i v : ℕ) → v / 2 ^ (8 * suc i) ≡ v / 2 ^ (8 * i) / 256
next_shift i v =
    ap (λ (k : ℕ). v / 2 ^ k) (omega arith)
    ∙ ap (λ (d : ℕ). v / d) (pow_octet (8 * i))
    ∙ sym (div-div-eq-div-mul v (2 ^ (8 * i)) 256)

nonce_octets-le : (n i v : ℕ) → nonce_octets n i v ≡ le_octets n (v / 2 ^ (8 * i))
unfolding nonce_octets
nonce_octets-le zero i v = refl
nonce_octets-le (suc n) i v =
    ap₂ ◌∷◌ (ground (arith, low_field 8 (v / 2 ^ (8 * i))))
      (nonce_octets-le n (suc i) v ∙ ap (le_octets n) (next_shift i v))

nonce_octets-octets : (n v : ℕ) → nonce_octets n 0 v ≡ octets Endian.little n v
nonce_octets-octets n v = nonce_octets-le n 0 v ∙ ap (le_octets n) (div-one v)

-- The nonce is the address, the counter and the level, each in little endian.
pub calculate_nonce-octets :
    (s c : ℕ) (l : SecurityLevel)
    → calculate_nonce s c l
      ≡ octets Endian.little 8 s ++ (octets Endian.little 4 c ++ (Level.to_bits l ∷ []))
unfolding calculate_nonce
calculate_nonce-octets s c l = rw (nonce_octets-octets 8 s, nonce_octets-octets 4 c)

abbrev layout : ℕ → ℕ → SecurityLevel → List ℕ
layout s c l = octets Endian.little 8 s ++ (octets Endian.little 4 c ++ (Level.to_bits l ∷ []))

source_of :
    (s c : ℕ) (l : SecurityLevel) → s < 2 ^ 64 → value Endian.little (take 8 (layout s c l)) ≡ s
source_of s c l h = value-octets Endian.little 8 s h

counter_of :
    (s c : ℕ) (l : SecurityLevel)
    → c < 2 ^ 32
    → value Endian.little (take 4 (drop 8 (layout s c l))) ≡ c
counter_of s c l h = value-octets Endian.little 4 c h

level_injective :
    (l l' : SecurityLevel) → Level.to_bits l + 256 * 0 ≡ Level.to_bits l' + 256 * 0 → l ≡ l'
level_injective l l' e =
    let both : some l ≡ some l' =
      sym (Level.from_bits-to_bits l)
      ∙ ap Level.from_bits (omega (arith, e))
      ∙ Level.from_bits-to_bits l' in
    cc

-- Two nonces that agree come from the same address, the same counter and the same level, where the
-- addresses and the counters fit their integers: no nonce is used for two counters.
pub calculate_nonce_injective :
    (s c : ℕ) (l : SecurityLevel) (s' c' : ℕ) (l' : SecurityLevel)
    → s < 2 ^ 64
    → s' < 2 ^ 64
    → c < 2 ^ 32
    → c' < 2 ^ 32
    → calculate_nonce s c l ≡ calculate_nonce s' c' l'
    → (s ≡ s') × (c ≡ c') × (l ≡ l')
calculate_nonce_injective s c l s' c' l' hs hs' hc hc' e =
    let same = sym (calculate_nonce-octets s c l) ∙ e ∙ calculate_nonce-octets s' c' l' in
    (
      sym (source_of s c l hs)
          ∙ ap (λ o. value Endian.little (take 8 o)) same
          ∙ source_of s' c' l' hs',
      sym (counter_of s c l hc)
          ∙ ap (λ o. value Endian.little (take 4 (drop 8 o))) same
          ∙ counter_of s' c' l' hc',
      level_injective l l' (ap (λ o. value Endian.little (drop 4 (drop 8 o))) same),
    )
