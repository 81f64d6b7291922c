-- ===== src/KjPromises/Ids.antt =====
-- ffi/kj_async_bridge.cpp: each promise id is live, retired or unknown, and never two of them.
use lean_capnproto.Prelude.{
  ℕ, ◌+◌, ◌^◌, ◌<◌, ◌≡◌, true, false, none, some, List, [], ◌∷◌, arith, if◌then◌else◌, ◌⊎◌, inl,
  inr, Bool-cases, Option-cases, length,
}
use lean_capnproto.Prelude.Exec.{returns, throws}
use lean_capnproto.Prelude.Exec.Keeps.{Keeps, Keeps-bind, Keeps-pure, Keeps-throw}
use lean_capnproto.Prelude.Table.{
  find, contains, assign, elem, remove, contains-erase, contains-assign, elem-insert, elem-remove,
  contains_found,
}
use lean_capnproto.Prelude.Table.Weight.{Distinct, erase-Distinct, assign-Distinct}
use lean_capnproto.Prelude.Alloc.{allocate, allocate-lt}
use lean_capnproto.KjPromises.{
  Kj, Runtime, add_promise, retire, take_promise, take_all, promise_all_start, race_loop,
  promise_race_start, consumed_promise, unknown_promise, promise_then_start, promise_catch_start,
  skip_retired, wait_for, await_promise, cancel_promise, release_promise, no_promises,
}

-- The tables have one entry for each id, the counter is a `uint32_t`, and no live id is retired.
pub record IsWell {P : Type 0} (s : Runtime P) : Type 0 where
  pub counter : s.next_promise_id < 2 ^ 32
  pub distinct : Distinct s.promises
  pub apart : (i : ℕ) → elem i s.retired_promise_ids ≡ true → contains i s.promises ≡ false

module _ (kj : Kj) where
  open kj use {Promise, Failure, wait}

  pub retire-IsWell : (id : ℕ) (s : Runtime Promise) → IsWell s → IsWell (retire kj id s)
  unfolding retire
  retire-IsWell id s h = record {
    counter = h.counter;
    distinct = erase-Distinct id s.promises h.distinct;
    apart = λ i.
        ground (
          arith,
          h.apart i,
          contains-erase id i s.promises,
          elem-insert id i s.retired_promise_ids,
        );
  }

  add_assigned :
      (s : Runtime Promise) (p : Promise) (id next : ℕ)
      → IsWell s
      → next < 2 ^ 32
      → IsWell (record s {
        promises = assign id p s.promises;
        next_promise_id = next;
        retired_promise_ids = remove id s.retired_promise_ids;
      })
  add_assigned s p id next h small = record {
    counter = small;
    distinct = assign-Distinct id p s.promises h.distinct;
    apart = λ i. ground (
      arith,
      h.apart i,
      contains-assign id i p s.promises,
      elem-remove id i s.retired_promise_ids,
    );
  }

  pub add_promise-IsWell : (p : Promise) → Keeps IsWell (add_promise kj p)
  unfolding add_promise
  add_promise-IsWell p = record {
    after = λ s h.
        let busy = λ (i : ℕ). contains i s.promises in
        let fuel = length s.promises + 1 in
        elim (Option-cases (allocate (2 ^ 32) busy fuel s.next_promise_id)) [
          | inl e ↦ rw (e, add_promise) h
          | inr ((id, next), e) ↦
              rw (e, add_promise)
                (add_assigned s p id next h
                  (allocate-lt (2 ^ 32) busy fuel s.next_promise_id id next h.counter e).1)
        ];
  }

  -- How a lookup that takes a promise out ends.
  pub take_promise-cases :
      (id : ℕ) (s : Runtime Promise)
      → ((p : Promise) × (find id s.promises ≡ some p)
          × (take_promise kj id s ≡ (returns p, retire kj id s)))
        ⊎ ((find id s.promises ≡ none)
            × (take_promise kj id s ≡ (
              throws (
                  if elem id s.retired_promise_ids
                  then consumed_promise id
                  else unknown_promise id),
              s,
            )))
  unfolding take_promise
  take_promise-cases id s = elim (Option-cases (find id s.promises)) [
    | inr (p, e) ↦ inl (p, e, rw (e, take_promise))
    | inl e ↦ inr (e, rw (e, take_promise) (ground arith))
  ]

  pub take_promise-IsWell : (id : ℕ) → Keeps IsWell (take_promise kj id)
  take_promise-IsWell id = record {
    after = λ s h. elim (take_promise-cases id s) [
      | inl (p, _, e) ↦ rw e (retire-IsWell id s h)
      | inr (_, e) ↦ rw e h
    ];
  }

  take_all-IsWell : (ids : List ℕ) → Keeps IsWell (take_all kj ids)
  unfolding take_all
  take_all-IsWell [] = Keeps-pure []
  take_all-IsWell (id ∷ ids) =
      Keeps-bind (take_promise-IsWell id)
        λ p. Keeps-bind (take_all-IsWell ids) λ ps. Keeps-pure (p ∷ ps)

  race_loop-IsWell : (p : Promise) (ids : List ℕ) → Keeps IsWell (race_loop kj p ids)
  unfolding race_loop
  race_loop-IsWell p [] = Keeps-pure p
  race_loop-IsWell p (id ∷ ids) =
      Keeps-bind (take_promise-IsWell id) λ q. race_loop-IsWell (kj.exclusive_join p q) ids

  skip_retired-IsWell : (id : ℕ) → Keeps IsWell (skip_retired kj id)
  unfolding skip_retired
  skip_retired-IsWell id = record {
    after = λ s h. elim (Bool-cases (elem id s.retired_promise_ids)) [
      | inl e ↦ rw (e, skip_retired) h
      | inr e ↦ rw (e, skip_retired) h
    ];
  }

  wait_for-IsWell : (p : Promise) → Keeps IsWell (wait_for kj p)
  unfolding wait_for
  wait_for-IsWell p = record {
    after = λ s h. elim (Option-cases (wait p)) [
      | inl e ↦ rw (e, wait_for) h
      | inr (f, e) ↦ rw (e, wait_for) h
    ];
  }

  pub promise_all_start-IsWell : (ids : List ℕ) → Keeps IsWell (promise_all_start kj ids)
  unfolding promise_all_start
  promise_all_start-IsWell ids =
      Keeps-bind (take_all-IsWell ids) λ ps. add_promise-IsWell (kj.join ps)

  pub promise_race_start-IsWell : (ids : List ℕ) → Keeps IsWell (promise_race_start kj ids)
  unfolding promise_race_start
  promise_race_start-IsWell [] = Keeps-throw no_promises
  promise_race_start-IsWell (id ∷ ids) =
      Keeps-bind (take_promise-IsWell id)
        λ first. Keeps-bind (race_loop-IsWell first ids) add_promise-IsWell

  pub promise_then_start-IsWell : (i j : ℕ) → Keeps IsWell (promise_then_start kj i j)
  unfolding promise_then_start
  promise_then_start-IsWell i j =
      Keeps-bind (take_promise-IsWell i)
        λ p. Keeps-bind (take_promise-IsWell j) λ q. add_promise-IsWell (kj.and_then p q)

  pub promise_catch_start-IsWell : (i j : ℕ) → Keeps IsWell (promise_catch_start kj i j)
  unfolding promise_catch_start
  promise_catch_start-IsWell i j =
      Keeps-bind (take_promise-IsWell i)
        λ p. Keeps-bind (take_promise-IsWell j) λ q. add_promise-IsWell (kj.recover p q)

  pub await_promise-IsWell : (id : ℕ) → Keeps IsWell (await_promise kj id)
  unfolding await_promise
  await_promise-IsWell id = record {
    after = λ s h. elim (Option-cases (find id s.promises)) [
      | inl e ↦ rw (e, await_promise) ((skip_retired-IsWell id).after s h)
      | inr (p, e) ↦ rw (e, await_promise) ((wait_for-IsWell p).after _ (retire-IsWell id s h))
    ];
  }

  -- A canceled promise keeps its id.
  canceled-IsWell :
      (id : ℕ) (s : Runtime Promise) (p q : Promise)
      → IsWell s
      → find id s.promises ≡ some p
      → IsWell (record s { promises = assign id q s.promises })
  canceled-IsWell id s p q h e = record {
    counter = h.counter;
    distinct = assign-Distinct id q s.promises h.distinct;
    apart = λ i.
        ground
          (arith, h.apart i, contains-assign id i q s.promises, contains_found id s.promises p e);
  }

  pub cancel_promise-IsWell : (id : ℕ) → Keeps IsWell (cancel_promise kj id)
  unfolding cancel_promise
  cancel_promise-IsWell id = record {
    after = λ s h. elim (Option-cases (find id s.promises)) [
      | inl e ↦ rw (e, cancel_promise) ((skip_retired-IsWell id).after s h)
      | inr (p, e) ↦ rw (e, cancel_promise) (canceled-IsWell id s p (kj.cancel p) h e)
    ];
  }

  pub release_promise-IsWell : (id : ℕ) → Keeps IsWell (release_promise kj id)
  unfolding release_promise
  release_promise-IsWell id = record {
    after = λ s h. elim (Option-cases (find id s.promises)) [
      | inl e ↦ rw (e, release_promise) ((skip_retired-IsWell id).after s h)
      | inr (p, e) ↦ rw (e, release_promise) (retire-IsWell id s h)
    ];
  }
