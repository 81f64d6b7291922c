-- ===== src/Targets/Resolves/Held.antt =====
-- ffi/rpc_bridge_runtime.cpp, promise capabilities: the queue of held resolves and the set of their
-- fulfillers agree.
use lean_capnproto.Prelude.{
  ℕ, ◌≡◌, refl, Bool, true, false, ◌||◌, some, List, [], ◌∷◌, ◌++◌, ◌==◌, arith, if◌then◌else◌, inl,
  inr, Bool-cases, Option-cases,
}
use lean_capnproto.Prelude.Exec.{returns, Outcome-cases}
use lean_capnproto.Prelude.Exec.Keeps.{Keeps, continue_holds}
use lean_capnproto.Prelude.Table.{
  find, contains, elem, remove, contains-erase, contains_found, elem-insert, elem-remove,
}
use lean_capnproto.Targets.{HeldResolve, PendingPromiseCapability, Settlement, Rpc, State}
use lean_capnproto.Targets.Resolves.{
  take_held, settle, check_fulfill, promise_capability_fulfill_now, hold_resolve,
  promise_capability_fulfill, drop_held_promise_capability_resolve, flush_loop,
  flush_held_promise_capability_resolves, reject_found, promise_capability_reject, release_found,
  promise_capability_release,
}

abbrev pub ids_of : List HeldResolve → List ℕ
ids_of [] = []
ids_of (r ∷ held) = r.fulfiller_id ∷ ids_of held

abbrev pub NoRepeat : List ℕ → Type 0
NoRepeat [] = Unit
NoRepeat (id ∷ ids) = (elem id ids ≡ false) × NoRepeat ids

-- The set holds the ids of the queue, none of them twice in it, and each of them is an id of a pending
-- promise capability.
pub record IsHeld {rpc : Rpc} (s : State rpc) : Type 0 where
  pub same : (i : ℕ) → elem i s.held_ids ≡ elem i (ids_of s.held_resolves)
  pub once : NoRepeat (ids_of s.held_resolves)
  pub pending : (i : ℕ) → elem i s.held_ids ≡ true → contains i s.fulfillers ≡ true

elem-append :
    (i j : ℕ) (t : ℕ) (held : List HeldResolve)
    → elem i (ids_of (held ++ (record { fulfiller_id = j; target = t } ∷ [])))
      ≡ (elem i (ids_of held) || j == i)
unfolding elem
elem-append i j t [] = ground arith
elem-append i j t (r ∷ held) = ground (arith, elem-append i j t held)

append-NoRepeat :
    (j t : ℕ) (held : List HeldResolve)
    → NoRepeat (ids_of held)
    → elem j (ids_of held) ≡ false
    → NoRepeat (ids_of (held ++ (record { fulfiller_id = j; target = t } ∷ [])))
unfolding elem
append-NoRepeat j t [] n h = (refl, tt)
append-NoRepeat j t (r ∷ held) n h = (
  ground (arith, elem-append r.fulfiller_id j t held, n.0, h),
  append-NoRepeat j t held n.1 (ground (arith, h)),
)

-- With no repetition, taking an id out of the queue leaves the others.
take_held-elem :
    (i j : ℕ) (held : List HeldResolve)
    → NoRepeat (ids_of held)
    → elem i (ids_of (take_held j held)) ≡ (if j == i then false else elem i (ids_of held))
unfolding elem take_held
take_held-elem i j [] n = ground arith
take_held-elem i j (r ∷ held) n = ground (arith, take_held-elem i j held n.1, n.0)

take_held-NoRepeat :
    (j : ℕ) (held : List HeldResolve)
    → NoRepeat (ids_of held)
    → NoRepeat (ids_of (take_held j held))
unfolding take_held
take_held-NoRepeat j [] n = tt
take_held-NoRepeat j (r ∷ held) n = elim (Bool-cases (r.fulfiller_id == j)) [
  | inl e ↦ rw (e, take_held) n.1
  | inr e ↦
      rw (e, take_held)
        (
          ground (arith, take_held-elem r.fulfiller_id j held n.1, n.0),
          take_held-NoRepeat j held n.1,
        )
]

module _ (rpc : Rpc) where
  open rpc use {Client}

  pub check_fulfill-found :
      (id target : ℕ) (s : State rpc) (p : PendingPromiseCapability) (cap : Client)
      → check_fulfill rpc id target s ≡ returns (p, cap)
      → find id s.fulfillers ≡ some p
  unfolding check_fulfill
  check_fulfill-found id target s p cap h = ground (arith, h)

  -- A fulfiller that is not held may be called.
  settle-IsHeld :
      (id : ℕ) (p : PendingPromiseCapability) (o : Settlement Client) (s : State rpc)
      → IsHeld s
      → elem id s.held_ids ≡ false
      → IsHeld (settle rpc id p o s)
  unfolding settle
  settle-IsHeld id p o s h free = record {
    same = h.same;
    once = h.once;
    pending = λ i e. ground (arith, h.pending i e, contains-erase id i s.fulfillers);
  }

  fulfill_now-IsHeld :
      (id target : ℕ) (s : State rpc)
      → IsHeld s
      → elem id s.held_ids ≡ false
      → IsHeld (promise_capability_fulfill_now rpc id target s).1
  unfolding promise_capability_fulfill_now
  fulfill_now-IsHeld id target s h free = elim (Outcome-cases (check_fulfill rpc id target s)) [
    | inl ((p, cap), e) ↦ rw (e, promise_capability_fulfill_now) (settle-IsHeld id p _ s h free)
    | inr (inl (er, e)) ↦ rw (e, promise_capability_fulfill_now) h
    | inr (inr e) ↦ rw (e, promise_capability_fulfill_now) h
  ]

  drop_resolve-IsHeld :
      (id : ℕ) (s : State rpc) → IsHeld s → IsHeld (drop_held_promise_capability_resolve rpc id s)
  unfolding drop_held_promise_capability_resolve
  drop_resolve-IsHeld id s h = elim (Bool-cases (elem id s.held_ids)) [
    | inr e ↦ rw (e, drop_held_promise_capability_resolve) h
    | inl e ↦
        rw (e, drop_held_promise_capability_resolve)
          (record {
            same = λ i. ground (
              arith,
              h.same i,
              elem-remove id i s.held_ids,
              take_held-elem i id s.held_resolves h.once,
            );
            once = take_held-NoRepeat id s.held_resolves h.once;
            pending = λ i e. ground (arith, h.pending i, elem-remove id i s.held_ids);
          })
  ]

  -- A dropped id is held no more.
  drop_resolve-free :
      (id : ℕ) (s : State rpc)
      → elem id (drop_held_promise_capability_resolve rpc id s).held_ids ≡ false
  unfolding drop_held_promise_capability_resolve
  drop_resolve-free id s = ground (arith, elem-remove id id s.held_ids)

  -- Popping the front of the queue.
  pop-IsHeld :
      (r : HeldResolve) (held : List HeldResolve) (s : State rpc)
      → IsHeld s
      → s.held_resolves ≡ r ∷ held
      → IsHeld (record s { held_resolves = held; held_ids = remove r.fulfiller_id s.held_ids })
  unfolding elem
  pop-IsHeld r held s h e =
      let once = rw e at h.once in
      record {
        same = λ i.
            let before = rw e at (h.same i) in
            ground (arith, before, once.0, elem-remove r.fulfiller_id i s.held_ids);
        once = once.1;
        pending = λ i e. ground (arith, h.pending i, elem-remove r.fulfiller_id i s.held_ids);
      }

  fulfill_now-queue :
      (id target : ℕ) (s : State rpc)
      → (promise_capability_fulfill_now rpc id target s).1.held_resolves ≡ s.held_resolves
  unfolding promise_capability_fulfill_now settle
  fulfill_now-queue id target s = elim (Outcome-cases (check_fulfill rpc id target s)) [
    | inl ((p, cap), e) ↦ rw (e, promise_capability_fulfill_now)
    | inr (inl (er, e)) ↦ rw (e, promise_capability_fulfill_now)
    | inr (inr e) ↦ rw (e, promise_capability_fulfill_now)
  ]

  flush_loop-IsHeld :
      (held : List HeldResolve) (s : State rpc)
      → IsHeld s
      → s.held_resolves ≡ held
      → IsHeld (flush_loop rpc held s).1
  unfolding flush_loop
  flush_loop-IsHeld [] s h e = h
  flush_loop-IsHeld (r ∷ held) s h e =
      let popped = record s { held_resolves = held; held_ids = remove r.fulfiller_id s.held_ids } in
      let now = promise_capability_fulfill_now rpc r.fulfiller_id r.target popped in
      let free : elem r.fulfiller_id popped.held_ids ≡ false =
        ground (arith, elem-remove r.fulfiller_id r.fulfiller_id s.held_ids) in
      let after =
        fulfill_now-IsHeld r.fulfiller_id r.target popped (pop-IsHeld r held s h e) free in
      let rest =
        flush_loop-IsHeld held now.1 after (fulfill_now-queue r.fulfiller_id r.target popped) in
      continue_holds IsHeld now.0 _ now.1
        (λ _.
          continue_holds IsHeld (flush_loop rpc held now.1).0 _ (flush_loop rpc held now.1).1
            (λ _. rest) rest)
        after

  hold_resolve-IsHeld :
      (id target : ℕ) (s : State rpc)
      → IsHeld s
      → elem id s.held_ids ≡ false
      → IsHeld (hold_resolve rpc id target s).1
  unfolding hold_resolve
  hold_resolve-IsHeld id target s h free = elim (Outcome-cases (check_fulfill rpc id target s)) [
    | inr (inl (er, e)) ↦ rw (e, hold_resolve) h
    | inr (inr e) ↦ rw (e, hold_resolve) h
    | inl ((p, cap), e) ↦
        rw (e, hold_resolve)
          (record {
            same = λ i. ground (
              arith,
              h.same i,
              elem-insert id i s.held_ids,
              elem-append i id target s.held_resolves,
            );
            once =
                append-NoRepeat id target s.held_resolves h.once (ground (arith, h.same id, free));
            pending = λ i l. ground (
              arith,
              h.pending i,
              elem-insert id i s.held_ids,
              contains_found id s.fulfillers p (check_fulfill-found id target s p cap e),
            );
          })
  ]

  unheld-IsHeld :
      (hold : Bool) (id target : ℕ) (s : State rpc)
      → IsHeld s
      → elem id s.held_ids ≡ false
      → IsHeld
          (if hold
            then hold_resolve rpc id target s
            else promise_capability_fulfill_now rpc id target s).1
  unheld-IsHeld true id target s h e = hold_resolve-IsHeld id target s h e
  unheld-IsHeld false id target s h e = fulfill_now-IsHeld id target s h e

  pub promise_capability_fulfill-IsHeld :
      (id target : ℕ) → Keeps (IsHeld {rpc = rpc}) (promise_capability_fulfill rpc id target)
  unfolding promise_capability_fulfill
  promise_capability_fulfill-IsHeld id target = record {
    after = λ s h. elim (Bool-cases (elem id s.held_ids)) [
      | inl e ↦ rw (e, promise_capability_fulfill) h
      | inr e ↦ rw (e, promise_capability_fulfill) (unheld-IsHeld s.hold_resolves id target s h e)
    ];
  }

  pub flush-IsHeld : Keeps (IsHeld {rpc = rpc}) (flush_held_promise_capability_resolves rpc)
  unfolding flush_held_promise_capability_resolves
  flush-IsHeld = record { after = λ s h. flush_loop-IsHeld s.held_resolves s h refl }

  pub promise_capability_reject-IsHeld :
      (id tag : ℕ) (message detail : List ℕ)
      → Keeps (IsHeld {rpc = rpc}) (promise_capability_reject rpc id tag message detail)
  unfolding promise_capability_reject reject_found
  promise_capability_reject-IsHeld id tag message detail = record {
    after = λ s h.
        let s1 = drop_held_promise_capability_resolve rpc id s in
        elim (Option-cases (find id s1.fulfillers)) [
          | inl e ↦ rw (e, reject_found) (drop_resolve-IsHeld id s h)
          | inr (p, e) ↦
              rw (e, reject_found)
                (settle-IsHeld id p _ s1 (drop_resolve-IsHeld id s h) (drop_resolve-free id s))
        ];
  }

  pub promise_capability_release-IsHeld :
      (id : ℕ) → Keeps (IsHeld {rpc = rpc}) (promise_capability_release rpc id)
  unfolding promise_capability_release release_found
  promise_capability_release-IsHeld id = record {
    after = λ s h.
        let s1 = drop_held_promise_capability_resolve rpc id s in
        elim (Option-cases (find id s1.fulfillers)) [
          | inl e ↦ rw (e, release_found) (drop_resolve-IsHeld id s h)
          | inr (p, e) ↦
              rw (e, release_found)
                (settle-IsHeld id p _ s1 (drop_resolve-IsHeld id s h) (drop_resolve-free id s))
        ];
  }
