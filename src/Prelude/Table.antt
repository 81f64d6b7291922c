-- ===== src/Prelude/Table.antt =====
-- `std::unordered_map` with integer keys. The program never depends on its order, except where it
-- walks over the whole map; a table has one entry for each key.
pub mod Weight
use lean_capnproto.Prelude.Tests.{◌==◌, if◌then◌else◌, Option-cases}
use lean_capnproto.Prelude.Lists.{length}
use Prim.Native.Nat.{ℕ, ◌≤◌, ◌<◌}
use mathlib.Core.Path.{◌≡◌, refl}
use mathlib.Core.Logic.{inl, inr}
use mathlib.Core.Bool.{Bool, true, false, ◌||◌}
use mathlib.Core.Option.{Option, none, some}
use mathlib.Core.List.{List, [], ◌∷◌}
use native.Mathlib.Omega.{arith}

abbrev pub Table {ℓ} : Type ℓ → Type ℓ
Table V = List (ℕ × V)

-- Membership in a set of numbers kept as a list.
unfoldable pub elem : ℕ → List ℕ → Bool
elem k [] = false
elem k (j ∷ l) = j == k || elem k l

-- `set.erase(k)`
unfoldable pub remove : ℕ → List ℕ → List ℕ
remove k [] = []
remove k (j ∷ l) = if j == k then remove k l else j ∷ remove k l

-- `set.insert(k)`
unfoldable pub insert : ℕ → List ℕ → List ℕ
insert k l = k ∷ remove k l

module _ {ℓ} {V : Type ℓ} where
  abbrev pub keys : Table V → List ℕ
  keys [] = []
  keys ((j, v) ∷ t) = j ∷ keys t

  unfoldable pub find : ℕ → Table V → Option V
  find k [] = none
  find k ((j, v) ∷ t) = if j == k then some v else find k t

  unfoldable pub contains : ℕ → Table V → Bool
  contains k [] = false
  contains k ((j, v) ∷ t) = j == k || contains k t

  unfoldable pub erase : ℕ → Table V → Table V
  erase k [] = []
  erase k ((j, v) ∷ t) = if j == k then erase k t else (j, v) ∷ erase k t

  -- `map[k] = v`, and `map.emplace(k, v)` where `k` is not a key
  unfoldable pub assign : ℕ → V → Table V → Table V
  unfolding erase
  assign k v t = (k, v) ∷ erase k t

  pub find-erase :
      (k j : ℕ) (t : Table V) → find j (erase k t) ≡ (if k == j then none else find j t)
  unfolding find erase
  find-erase k j [] = ground arith
  find-erase k j ((i, v) ∷ t) = ground (arith, find-erase k j t)

  pub find-assign :
      (k j : ℕ) (v : V) (t : Table V)
      → find j (assign k v t) ≡ (if k == j then some v else find j t)
  unfolding find assign
  find-assign k j v t = ground (arith, find-erase k j t)

  pub contains-keys : (k : ℕ) (t : Table V) → contains k t ≡ elem k (keys t)
  unfolding contains elem
  contains-keys k [] = refl
  contains-keys k ((j, v) ∷ t) = ground (arith, contains-keys k t)

  pub contains-erase :
      (k j : ℕ) (t : Table V) → contains j (erase k t) ≡ (if k == j then false else contains j t)
  unfolding contains erase
  contains-erase k j [] = ground arith
  contains-erase k j ((i, v) ∷ t) = ground (arith, contains-erase k j t)

  pub contains-assign :
      (k j : ℕ) (v : V) (t : Table V)
      → contains j (assign k v t) ≡ (if k == j then true else contains j t)
  unfolding contains assign
  contains-assign k j v t = ground (arith, contains-erase k j t)

  pub find_absent : (k : ℕ) (t : Table V) → contains k t ≡ false → find k t ≡ none
  unfolding contains find
  find_absent k [] h = refl
  find_absent k ((j, v) ∷ t) h = ground (arith, find_absent k t)

  pub contains_unfound : (k : ℕ) (t : Table V) → find k t ≡ none → contains k t ≡ false
  unfolding contains find
  contains_unfound k [] h = refl
  contains_unfound k ((j, v) ∷ t) h = ground (arith, contains_unfound k t)

  pub contains_found : (k : ℕ) (t : Table V) (v : V) → find k t ≡ some v → contains k t ≡ true
  unfolding contains find
  contains_found k [] w h = cc
  contains_found k ((j, v) ∷ t) w h = ground (arith, contains_found k t w)

  pub contains-some : (k : ℕ) (t : Table V) → contains k t ≡ true → (v : V) × (find k t ≡ some v)
  unfolding contains find
  contains-some k t h = elim (Option-cases (find k t)) [
    | inr e ↦ e
    | inl e ↦ absurd (ground (arith, contains_unfound k t e))
  ]

  pub erase_missing : (k : ℕ) (t : Table V) → contains k t ≡ false → erase k t ≡ t
  unfolding contains erase
  erase_missing k [] h = refl
  erase_missing k ((j, v) ∷ t) h = ground (arith, erase_missing k t)

  pub length-keys : (t : Table V) → length (keys t) ≡ length t
  length-keys [] = refl
  length-keys ((j, v) ∷ t) = omega (arith, length-keys t)

  pub length-erase_le : (k : ℕ) (t : Table V) → length (erase k t) ≤ length t
  unfolding erase
  length-erase_le k [] = omega arith
  length-erase_le k ((j, v) ∷ t) = ground (arith, length-erase_le k t)

pub elem-remove :
    (k j : ℕ) (l : List ℕ) → elem j (remove k l) ≡ (if k == j then false else elem j l)
unfolding elem remove
elem-remove k j [] = ground arith
elem-remove k j (i ∷ l) = ground (arith, elem-remove k j l)

pub elem-insert : (k j : ℕ) (l : List ℕ) → elem j (insert k l) ≡ (if k == j then true else elem j l)
unfolding elem insert
elem-insert k j l = ground (arith, elem-remove k j l)

pub length-remove_le : (k : ℕ) (l : List ℕ) → length (remove k l) ≤ length l
unfolding remove
length-remove_le k [] = omega arith
length-remove_le k (j ∷ l) = ground (arith, length-remove_le k l)

-- Removing a member makes the list shorter.
pub length-remove_lt : (k : ℕ) (l : List ℕ) → elem k l ≡ true → length (remove k l) < length l
unfolding elem remove
length-remove_lt k [] h = cc
length-remove_lt k (j ∷ l) h = ground (arith, length-remove_lt k l, length-remove_le k l)

pub ruleset table_laws = (find-erase, find-assign, elem-remove, elem-insert)
