-- ===== src/Prelude/Results.antt =====
-- Fallible code: a value, or the error that the source throws.
use mathlib.Core.Path.{◌≡◌, refl}
use mathlib.Core.Bool.{Bool, true, false}

pub data Result {ℓ κ} (E : Type ℓ) (A : Type κ) : Type (ℓ ⊔ κ) where
  ok : A → Result E A
  err : E → Result E A

module _ {ℓ κ ι} {E : Type ℓ} {A : Type κ} {B : Type ι} where
  infixl 5 ◌>>=◌
  abbrev pub ◌>>=◌ : Result E A → (A → Result E B) → Result E B
  ok value >>= next = next value
  err thrown >>= next = err thrown

  -- What a successful chain shows of its first step.
  pub first_of_chain :
      (first : Result E A) (next : A → Result E B) {result : B}
      → (first >>= next) ≡ ok result
      → (value : A) × (first ≡ ok value) × (next value ≡ ok result)
  first_of_chain (err thrown) next h = cc
  first_of_chain (ok value) next h = (value, refl, h)

module _ {ℓ κ} {E : Type ℓ} {B : Type κ} where
  infixl 5 ◌>>◌
  abbrev pub ◌>>◌ : Result E (Unit {0}) → Result E B → Result E B
  err thrown >> next = err thrown
  ok _ >> next = next

-- `if (!test) throw error;`
abbrev pub guard {ℓ} : {E : Type ℓ} → Bool → E → Result E (Unit {0})
guard false error = err error
guard true error = ok tt

-- `P` holds of the value, if there is one.
abbrev pub Holds {ℓ κ ι} : {E : Type ℓ} {A : Type κ} → (A → Type ι) → Result E A → Type ι
Holds P (err _) = Unit
Holds P (ok value) = P value

module _ {ℓ κ ι} {E : Type ℓ} {A : Type κ} (P : A → Type ι) where
  pub Holds-guard :
      (test : Bool) (error : E) (next : Result E A)
      → (test ≡ true → Holds P next)
      → Holds P (guard test error >> next)
  Holds-guard false error next h = tt
  Holds-guard true error next h = h refl

  pub Holds-after :
      (first : Result E (Unit {0})) (next : Result E A) → Holds P next → Holds P (first >> next)
  Holds-after (err _) next h = tt
  Holds-after (ok _) next h = h

  pub Holds-chain {ο υ} :
      {B : Type ο} (Q : B → Type υ) (first : Result E B) (next : B → Result E A)
      → Holds Q first
      → ((value : B) → Q value → Holds P (next value))
      → Holds P (first >>= next)
  Holds-chain Q (err _) next h k = tt
  Holds-chain Q (ok value) next h k = k value h
