-- ===== src/ByteLib/Loops.antt =====
-- `for` loops that read or write one item after the other.
use rust_ieee.Base.{ℕ, zero, suc, ◌*◌, ◌≡◌, arith, List, [], ◌∷◌, ◌++◌, length, length-append, All}
use rust_ieee.Outcome.{Reader, Writer, ◌>>=◌, ◌⨾◌, pure, skip}
use rust_ieee.ByteLib.Laws.{
  Reads, Reads-bind, Reads-map, Reads-pure, Writes, Writes-skip, Writes-then,
}
use rust_ieee.ByteLib.Bounds.{Bounded, Bounded-bind, Bounded-pure}

module _ {E A : Type 0} where
  unfoldable pub read_many : Reader E A → ℕ → Reader E (List A)
  read_many r zero = pure []
  read_many r (suc n) = do a ← r; as' ← read_many r n; pure (a ∷ as')

  unfoldable pub write_many : (A → Writer E) → List A → Writer E
  write_many w [] = skip
  write_many w (a ∷ as') = w a ⨾ write_many w as'

abbrev pub encode_many {ℓ} : {A : Type ℓ} → (A → List ℕ) → List A → List ℕ
encode_many encode [] = []
encode_many encode (a ∷ as') = encode a ++ encode_many encode as'

module _ {E A : Type 0} where
  pub write_many-Writes {κ} :
      {w : A → Writer E} {short : E} (encode : A → List ℕ) (IsGood : A → Type κ) (as' : List A)
      → ((a : A) → IsGood a → Writes (w a) short (encode a))
      → All IsGood as'
      → Writes (write_many w as') short (encode_many encode as')
  unfolding write_many
  write_many-Writes encode IsGood [] h good = Writes-skip
  write_many-Writes encode IsGood (a ∷ as') h good =
      Writes-then (h a good.0) (write_many-Writes encode IsGood as' h good.1)

  pub read_many-Reads {κ} :
      {r : Reader E A} (encode : A → List ℕ) (IsGood : A → Type κ) (as' : List A) (rest : List ℕ)
      → ((a : A) (rest : List ℕ) → IsGood a → Reads r (encode a) rest a)
      → All IsGood as'
      → Reads (read_many r (length as')) (encode_many encode as') rest as'
  unfolding read_many
  read_many-Reads encode IsGood [] rest h good = Reads-pure [] rest
  read_many-Reads encode IsGood (a ∷ as') rest h good =
      Reads-bind _ (h a _ good.0) (Reads-map _ (read_many-Reads encode IsGood as' rest h good.1))

  pub read_many-Bounded : (r : Reader E A) (n : ℕ) → Bounded r → Bounded (read_many r n)
  unfolding read_many
  read_many-Bounded r zero h = Bounded-pure []
  read_many-Bounded r (suc n) h =
      Bounded-bind _ h (λ a. Bounded-bind _ (read_many-Bounded r n h) (λ as'. Bounded-pure _))

pub length-encode_many {ℓ} :
    {A : Type ℓ} (encode : A → List ℕ) (as' : List A) (n : ℕ)
    → ((a : A) → length (encode a) ≡ n)
    → length (encode_many encode as') ≡ length as' * n
length-encode_many encode [] n h = omega arith
length-encode_many encode (a ∷ as') n h = omega (
  arith,
  length-append (encode a) (encode_many encode as'),
  h a,
  length-encode_many encode as' n h,
)
