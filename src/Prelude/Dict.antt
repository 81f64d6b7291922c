-- ===== src/Prelude/Dict.antt =====
-- `std::unordered_map` with strings as keys.
use lean_capnproto.Prelude.Tests.{if◌then◌else◌}
use lean_capnproto.Prelude.Strings.{same, same_self}
use Prim.Native.Nat.{ℕ}
use mathlib.Core.Path.{◌≡◌, refl, ap, ap₂}
use mathlib.Core.Bool.{true}
use mathlib.Core.Option.{Option, none, some}
use mathlib.Core.List.{List, [], ◌∷◌}
use native.Mathlib.Omega.{arith}

abbrev pub Dict {ℓ} : Type ℓ → Type ℓ
Dict V = List (List ℕ × V)

pub same_sound : (xs ys : List ℕ) → same xs ys ≡ true → xs ≡ ys
same_sound [] [] h = refl
same_sound [] (y ∷ ys) h = cc
same_sound (x ∷ xs) [] h = cc
same_sound (x ∷ xs) (y ∷ ys) h =
    let (first, rest) : (x ≡ y) × (same xs ys ≡ true) = ground arith in
    ap₂ (λ (a : ℕ) (l : List ℕ). a ∷ l) first (same_sound xs ys rest)

-- Two keys that are the same are not told apart by a third.
same_third : (i k j : List ℕ) → same i k ≡ true → same i j ≡ same k j
same_third i k j h = ap (λ l. same l j) (same_sound i k h)

same_second : (i k j : List ℕ) → same k j ≡ true → same i k ≡ same i j
same_second i k j h = ap (same i) (same_sound k j h)

module _ {ℓ} {V : Type ℓ} where
  unfoldable pub lookup : List ℕ → Dict V → Option V
  lookup k [] = none
  lookup k ((j, v) ∷ t) = if same j k then some v else lookup k t

  unfoldable pub delete : List ℕ → Dict V → Dict V
  delete k [] = []
  delete k ((j, v) ∷ t) = if same j k then delete k t else (j, v) ∷ delete k t

  -- `map[k] = v`, and `map.emplace(k, v)` where `k` is not a key
  unfoldable pub put : List ℕ → V → Dict V → Dict V
  unfolding delete
  put k v t = (k, v) ∷ delete k t

  pub lookup-delete :
      (k j : List ℕ) (t : Dict V) → lookup j (delete k t) ≡ (if same k j then none else lookup j t)
  unfolding lookup delete
  lookup-delete k j [] = ground arith
  lookup-delete k j ((i, v) ∷ t) =
      ground (arith, lookup-delete k j t, same_third i k j, same_second i k j)

  pub lookup-put :
      (k j : List ℕ) (v : V) (t : Dict V)
      → lookup j (put k v t) ≡ (if same k j then some v else lookup j t)
  unfolding lookup put
  lookup-put k j v t = ground (arith, lookup-delete k j t)

  pub lookup-put_self : (k : List ℕ) (v : V) (t : Dict V) → lookup k (put k v t) ≡ some v
  lookup-put_self k v t = rw (lookup-put k k v t, same_self k) refl
