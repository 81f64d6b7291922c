-- ===== src/Prelude/Alloc.antt =====
-- The search for a fresh id that every table of the program makes:
--     id = next++;  while (busy(id)) id = next++;
-- `next` is an unsigned counter that wraps at `m`. The fuel bounds the rounds; `none` stands for a
-- search that goes on.
use lean_capnproto.Prelude.Tests.{◌==◌, if◌then◌else◌, Bool-cases}
use lean_capnproto.Prelude.Lists.{length}
use lean_capnproto.Prelude.Table.{
  Table, elem, remove, elem-remove, length-remove_lt, keys, contains, contains-keys, length-keys,
}
use Prim.Native.Nat.{ℕ, zero, suc, ◌+◌, ◌%◌, ◌≤◌, ◌<◌}
use mathlib.Core.Path.{◌≡◌, refl, sym, ap, ◌∙◌, fun_ext}
use mathlib.Core.Logic.{inl, inr}
use mathlib.Core.Bool.{Bool, false}
use mathlib.Core.Option.{Option, none, some}
use mathlib.Core.List.{List}
use native.Mathlib.Omega.{arith}
use native.Mathlib.Nat.{mod-add-mod}

module _ (m : ℕ) where
  unfoldable pub allocate : (ℕ → Bool) → ℕ → ℕ → Option (ℕ × ℕ)
  allocate busy zero next = none
  allocate busy (suc fuel) next =
      let more = allocate busy fuel ((next + 1) % m) in
      if busy next then more else some (next, (next + 1) % m)

  -- An id that is found is not busy.
  pub allocate-free :
      (busy : ℕ → Bool) (fuel next id next' : ℕ)
      → allocate busy fuel next ≡ some (id, next')
      → busy id ≡ false
  unfolding allocate
  allocate-free busy zero next id next' h = cc
  allocate-free busy (suc fuel) next id next' h = elim (Bool-cases (busy next)) [
    | inl b ↦ allocate-free busy fuel ((next + 1) % m) id next' (rw (b, allocate) at h)
    | inr b ↦ ground arith
  ]

  -- The id and the counter stay below the modulus.
  pub allocate-lt :
      (busy : ℕ → Bool) (fuel next id next' : ℕ)
      → next < m
      → allocate busy fuel next ≡ some (id, next')
      → (id < m) × (next' < m)
  unfolding allocate
  allocate-lt busy zero next id next' lt h = cc
  allocate-lt busy (suc fuel) next id next' lt h = elim (Bool-cases (busy next)) [
    | inl b ↦ allocate-lt busy fuel ((next + 1) % m) id next' (omega arith) (rw (b, allocate) at h)
    | inr b ↦ ground arith
  ]

module _ (m : ℕ) where
  -- Fewer than `m` steps after `k` the counter is not at `k` again, so that `k` plays no part.
  allocate-remove :
      (k : ℕ) (l : List ℕ) (fuel d : ℕ)
      → k < m
      → d + fuel < m
      → allocate m (λ i. elem i (remove k l)) fuel ((k + 1 + d) % m)
        ≡ allocate m (λ i. elem i l) fuel ((k + 1 + d) % m)
  unfolding allocate
  allocate-remove k l zero d hk hd = refl
  allocate-remove k l (suc fuel) d hk hd =
      let next : ((k + 1 + d) % m + 1) % m ≡ (k + 1 + suc d) % m =
        rw mod-add-mod (ap (λ (t : ℕ). t % m) (omega arith)) in
      let other : ((k == ((k + 1 + d) % m)) ≡ false) = grind arith in
      rw next (ground (arith, elem-remove k ((k + 1 + d) % m) l, allocate-remove k l fuel (suc d)))

  allocate-remove_next :
      (k : ℕ) (l : List ℕ) (fuel : ℕ)
      → k < m
      → suc fuel ≤ m
      → allocate m (λ i. elem i (remove k l)) fuel ((k + 1) % m)
        ≡ allocate m (λ i. elem i l) fuel ((k + 1) % m)
  allocate-remove_next k l fuel hk hd =
      let e : k + 1 + 0 ≡ k + 1 = omega arith in
      rw e at (allocate-remove k l fuel 0 hk (omega arith))

  allocate-elem :
      (fuel : ℕ) (l : List ℕ) (next : ℕ)
      → length l < fuel
      → fuel ≤ m
      → next < m
      → (r : ℕ × ℕ) × (allocate m (λ i. elem i l) fuel next ≡ some r)
  unfolding allocate
  allocate-elem zero l next short small lt = absurd (omega arith)
  allocate-elem (suc fuel) l next short small lt = elim (Bool-cases (elem next l)) [
    | inr b ↦ ((next, (next + 1) % m), rw b)
    | inl b ↦
        let (r, e) =
          allocate-elem fuel (remove next l) ((next + 1) % m)
            (omega (arith, length-remove_lt next l b)) (omega arith) (omega arith) in
        (r, rw b (sym (allocate-remove_next next l fuel lt small) ∙ e))
  ]

  -- With more rounds than busy ids, and no more than the counter has values, an id is found.
  pub allocate_total :
      (busy : ℕ → Bool) (l : List ℕ) (fuel next : ℕ)
      → ((i : ℕ) → busy i ≡ elem i l)
      → length l < fuel
      → fuel ≤ m
      → next < m
      → (r : ℕ × ℕ) × (allocate m busy fuel next ≡ some r)
  allocate_total busy l fuel next same short small lt =
      rw (fun_ext same) (allocate-elem fuel l next short small lt)

  -- The search over a table's ids, with one round more than the table has entries.
  pub allocate-contains {ℓ} :
      {V : Type ℓ} (t : Table V) (next : ℕ)
      → length t < m
      → next < m
      → (r : ℕ × ℕ) × (allocate m (λ i. contains i t) (length t + 1) next ≡ some r)
  allocate-contains t next room lt =
      allocate_total (λ i. contains i t) (keys t) (length t + 1) next (λ i. contains-keys i t)
        (omega (arith, length-keys t)) (omega arith) lt
