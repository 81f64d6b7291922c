-- ===== src/Prelude/Exec.antt =====
-- Methods of a class that mutate it and may throw: the state comes back beside an error too, since
-- what was written before the throw stays written. `loops` is the outcome of a call that never
-- returns.

pub mod Keeps
pub mod Ends
use mathlib.Core.Path.{◌≡◌, refl}
use mathlib.Core.Logic.{◌⊎◌, inl, inr}

pub data Outcome {ℓ} (E A : Type ℓ) : Type ℓ where
  returns : A → Outcome E A
  throws : E → Outcome E A
  loops : Outcome E A

abbrev pub Exec {ℓ} : Type ℓ → Type ℓ → Type ℓ → Type ℓ
Exec S E A = S → Outcome E A × S

module _ {ℓ} {S E A : Type ℓ} where
  abbrev pub pure : A → Exec S E A
  pure a s = (returns a, s)

  abbrev pub throw : E → Exec S E A
  throw e s = (throws e, s)

  abbrev pub gets : (S → A) → Exec S E A
  gets f s = (returns (f s), s)

module _ {ℓ} {S E A B : Type ℓ} where
  abbrev pub continue : Outcome E A → (A → Exec S E B) → Exec S E B
  continue (returns a) f s = f a s
  continue (throws e) f s = (throws e, s)
  continue loops f s = (loops, s)

  infixl 5 ◌>>=◌ ◌>>◌
  abbrev pub ◌>>=◌ : Exec S E A → (A → Exec S E B) → Exec S E B
  ◌>>=◌ m f s = continue (m s).0 f (m s).1

  abbrev pub ◌>>◌ : Exec S E A → Exec S E B → Exec S E B
  m >> n = m >>= λ _. n

module _ {ℓ} {E A : Type ℓ} where
  pub Outcome-cases :
      (o : Outcome E A) → ((a : A) × (o ≡ returns a)) ⊎ ((e : E) × (o ≡ throws e)) ⊎ (o ≡ loops)
  Outcome-cases (returns a) = inl (a, refl)
  Outcome-cases (throws e) = inr (inl (e, refl))
  Outcome-cases loops = inr (inr refl)
