-- ===== src/Common/Results.antt =====
-- Code that may raise: a value or an exception of the type `E`.
use mathlib.Core.Path.{◌≡◌, refl}
use mathlib.Core.Logic.{◌⊎◌, inl, inr}
use mathlib.Core.Bool.{Bool, true, false}

pub data Result {ℓ} (E : Type ℓ) (A : Type ℓ) : Type ℓ where
  ok : A → Result E A
  raised : E → Result E A

module _ {ℓ} {E : Type ℓ} where
  -- an exception skips what follows
  infixl 5 ◌>>=◌ ◌>>◌
  abbrev pub ◌>>=◌ : {A B : Type ℓ} → Result E A → (A → Result E B) → Result E B
  raised e >>= next = raised e
  ok a >>= next = next a

  abbrev pub ◌>>◌ : {A B : Type ℓ} → Result E A → Result E B → Result E B
  ◌>>◌ m next = m >>= λ ignored. next

  -- `if test: raise e`
  abbrev pub raise_if : Bool → E → Result E Unit
  raise_if test e = elim test [ true ↦ raised e | false ↦ ok tt ]

  pub Result-cases :
      {A : Type ℓ} (r : Result E A) → ((a : A) × (r ≡ ok a)) ⊎ ((e : E) × (r ≡ raised e))
  Result-cases (ok a) = inl (a, refl)
  Result-cases (raised e) = inr (e, refl)
