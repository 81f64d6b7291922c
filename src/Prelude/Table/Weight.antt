-- ===== src/Prelude/Table/Weight.antt =====
-- Tables with one entry for each key, and sums over their values.
use lean_capnproto.Prelude.Table.{
  Table, find, contains, erase, assign, contains-erase, erase_missing,
}
use Prim.Native.Nat.{ℕ, ◌+◌}
use mathlib.Core.Path.{◌≡◌}
use mathlib.Core.Bool.{false}
use mathlib.Core.Option.{some}
use mathlib.Core.List.{[], ◌∷◌}
use native.Mathlib.Omega.{arith}

module _ {ℓ} {V : Type ℓ} where
  abbrev pub Distinct : Table V → Type 0
  Distinct [] = Unit {0}
  Distinct ((j, v) ∷ t) = (contains j t ≡ false) × Distinct t

  -- The sum of `f` over the values.
  unfoldable pub weight : (V → ℕ) → Table V → ℕ
  weight f [] = 0
  weight f ((j, v) ∷ t) = f v + weight f t

  pub erase-Distinct : (k : ℕ) (t : Table V) → Distinct t → Distinct (erase k t)
  unfolding erase
  erase-Distinct k [] d = tt
  erase-Distinct k ((j, v) ∷ t) d = ground (arith, erase-Distinct k t d.1, contains-erase k j t)

  pub assign-Distinct : (k : ℕ) (v : V) (t : Table V) → Distinct t → Distinct (assign k v t)
  unfolding assign
  assign-Distinct k v t d = (ground (arith, contains-erase k k t), erase-Distinct k t d)

  -- Taking an entry out takes its share.
  pub weight-erase :
      (f : V → ℕ) (k : ℕ) (t : Table V) (v : V)
      → Distinct t
      → find k t ≡ some v
      → weight f (erase k t) + f v ≡ weight f t
  unfolding find erase weight
  weight-erase f k [] v d h = cc
  weight-erase f k ((j, w) ∷ t) v d h = ground (arith, weight-erase f k t v d.1, erase_missing k t)

  pub weight-assign :
      (f : V → ℕ) (k : ℕ) (t : Table V) (v : V)
      → contains k t ≡ false
      → weight f (assign k v t) ≡ weight f t + f v
  unfolding assign weight
  weight-assign f k t v h = ground (arith, erase_missing k t h)
