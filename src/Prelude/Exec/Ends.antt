-- ===== src/Prelude/Exec/Ends.antt =====
-- Methods that come to an end from a state of one kind, in a state of another kind.
use mathlib.Core.Path.{refl}
use mathlib.Core.Logic.{◌≢◌}
use mathlib.Core.Bool.{Bool, true, false}
use native.Mathlib.Omega.{arith}
use lean_capnproto.Prelude.Tests.{if◌then◌else◌}
use lean_capnproto.Prelude.Exec.{
  Exec, Outcome, returns, throws, loops, continue, pure, throw, ◌>>=◌,
}

pub record Ends {S E A : Type 0} (P Q : S → Type 0) (m : Exec S E A) : Type 0 where
  pub ends : (s : S) → P s → ((m s).0 ≢ loops) × Q (m s).1

module _ {S E A : Type 0} {P Q : S → Type 0} (weaken : (s : S) → P s → Q s) where
  pub Ends-pure : (a : A) → Ends P Q (pure {S = S} {E = E} a)
  Ends-pure a = record { ends = λ s h. ((λ e. ground (arith, e)), weaken s h) }

  pub Ends-throw : (e : E) → Ends P Q (throw {S = S} {A = A} e)
  Ends-throw e = record { ends = λ s h. ((λ q. ground (arith, q)), weaken s h) }

module _ {S E A B : Type 0} {Q R : S → Type 0} (weaken : (s : S) → Q s → R s) where
  continue-Ends :
      (o : Outcome E A) (f : A → Exec S E B) (s : S)
      → o ≢ loops
      → Q s
      → ((a : A) → Ends Q R (f a))
      → ((continue o f s).0 ≢ loops) × R (continue o f s).1
  continue-Ends (returns a) f s n h k = (k a).ends s h
  continue-Ends (throws e) f s n h k = ((λ q. ground (arith, q)), weaken s h)
  continue-Ends loops f s n h k = absurd (n refl)

  pub Ends-bind :
      {P : S → Type 0} {m : Exec S E A} {f : A → Exec S E B}
      → Ends P Q m
      → ((a : A) → Ends Q R (f a))
      → Ends P R (m >>= f)
  Ends-bind {P} {m} {f} em ef = record {
    ends = λ s h. let (n, q) = em.ends s h in continue-Ends (m s).0 f (m s).1 n q ef;
  }

module _ {S E A : Type 0} {P Q : S → Type 0} where
  pub Ends-if :
      {m n : Exec S E A} (b : Bool) → Ends P Q m → Ends P Q n → Ends P Q (if b then m else n)
  Ends-if true em en = em
  Ends-if false em en = en
