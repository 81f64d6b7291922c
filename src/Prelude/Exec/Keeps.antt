-- ===== src/Prelude/Exec/Keeps.antt =====
-- A predicate on the state that holds after a method, whether it returns or throws, if it held before.
use mathlib.Core.Bool.{Bool, true, false}
use lean_capnproto.Prelude.Tests.{if◌then◌else◌}
use lean_capnproto.Prelude.Exec.{
  Exec, Outcome, returns, throws, loops, continue, pure, throw, ◌>>=◌,
}

pub record Keeps {ℓ κ} {S E A : Type ℓ} (P : S → Type κ) (m : Exec S E A) : Type (ℓ ⊔ κ) where
  pub after : (s : S) → P s → P (m s).1

module _ {ℓ κ} {S E A B : Type ℓ} {P : S → Type κ} where
  continue_after :
      (o : Outcome E A) (f : A → Exec S E B) (s : S)
      → ((a : A) → Keeps P (f a))
      → P s
      → P (continue o f s).1
  continue_after (returns a) f s k h = (k a).after s h
  continue_after (throws e) f s k h = h
  continue_after loops f s k h = h

  pub Keeps-bind :
      {m : Exec S E A} {f : A → Exec S E B}
      → Keeps P m
      → ((a : A) → Keeps P (f a))
      → Keeps P (m >>= f)
  Keeps-bind {m} {f} km kf = record {
    after = λ s h. continue_after (m s).0 f (m s).1 kf (km.after s h);
  }

module _ {ℓ κ} {S E A : Type ℓ} {P : S → Type κ} where
  pub Keeps-pure : (a : A) → Keeps P (pure {S = S} {E = E} a)
  Keeps-pure a = record { after = λ s h. h }

  pub Keeps-throw : (e : E) → Keeps P (throw {S = S} {A = A} e)
  Keeps-throw e = record { after = λ s h. h }

  pub Keeps-if :
      {m n : Exec S E A} (b : Bool) → Keeps P m → Keeps P n → Keeps P (if b then m else n)
  Keeps-if true km kn = km
  Keeps-if false km kn = kn

module _ {ℓ κ} {S E A B : Type ℓ} where
  -- The same where the second method keeps it from this one state.
  pub continue_holds :
      (P : S → Type κ) (o : Outcome E A) (f : A → Exec S E B) (s : S)
      → ((a : A) → P (f a s).1)
      → P s
      → P (continue o f s).1
  continue_holds P (returns a) f s k h = k a
  continue_holds P (throws e) f s k h = h
  continue_holds P loops f s k h = h
