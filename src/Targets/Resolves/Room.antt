-- ===== src/Targets/Resolves/Room.antt =====
-- ffi/rpc_bridge_runtime.cpp: every handler for targets and promise capabilities comes to an end, as
-- long as the tables have room.
use lean_capnproto.Prelude.{
  ℕ, suc, ◌+◌, ◌%◌, ◌^◌, ◌<◌, ◌≢◌, arith, Bool, true, false, List, [], ◌∷◌, ◌==◌, if◌then◌else◌,
  inl, inr, length, Option-cases, Bool-cases,
}
use lean_capnproto.Prelude.Exec.{throws, loops, Outcome-cases}
use lean_capnproto.Prelude.Exec.Ends.{Ends, Ends-pure, Ends-throw, Ends-bind, Ends-if}
use lean_capnproto.Prelude.Table.{find, contains, assign, elem, length-erase_le}
use lean_capnproto.Prelude.Alloc.{allocate-contains, allocate-lt}
use lean_capnproto.Targets.{
  Rpc, State, HeldResolve, Settlement, fulfilled, rejected, RemoteException, held_already,
  PendingPromiseCapability, unknown_target, add_target, retain_owners, retain_found, retain_target,
  drop_target_if_present, release_target, release_targets,
}
use lean_capnproto.Targets.Resolves.{
  add_promise_capability_fulfiller, new_promise_capability, settle, check_fulfill,
  promise_capability_fulfill_now, hold_resolve, promise_capability_fulfill, flush_loop,
  flush_held_promise_capability_resolves, drop_held_promise_capability_resolve, reject_found,
  make_exception, promise_capability_reject, release_found, released_exception,
  promise_capability_release, set_resolve_hold_enabled,
}

module _ (rpc : Rpc) where
  open rpc use {Client}

  -- Room for `n` more targets and `k` more promise capabilities.
  pub record Fits (n k : ℕ) (s : State rpc) : Type 0 where
    pub targets : length s.targets + n < 2 ^ 32
    pub fulfillers : length s.fulfillers + k < 2 ^ 32
    pub next_target : s.next_target_id < 2 ^ 32
    pub next_fulfiller : s.next_fulfiller_id < 2 ^ 32

  add_target-Ends : (n k : ℕ) (cap : Client) → Ends (Fits (suc n) k) (Fits n k) (add_target rpc cap)
  unfolding add_target assign
  add_target-Ends n k cap = record {
    ends = λ s h.
        let ((id, next), e) =
          allocate-contains (2 ^ 32) s.targets s.next_target_id (omega (arith, h.targets))
            h.next_target in
        let (small, next_small) =
          allocate-lt (2 ^ 32) (λ i. contains i s.targets) (length s.targets + 1) s.next_target_id
            id next h.next_target e in
        rw (e, add_target)
          (
            (λ q. ground (arith, q)),
            record {
              targets = omega (arith, h.targets, length-erase_le id s.targets);
              fulfillers = h.fulfillers;
              next_target = next_small;
              next_fulfiller = h.next_fulfiller;
            },
          );
  }

  add_fulfiller-Ends :
      (n k : ℕ) (p : PendingPromiseCapability)
      → Ends (Fits n (suc k)) (Fits n k) (add_promise_capability_fulfiller rpc p)
  unfolding add_promise_capability_fulfiller assign
  add_fulfiller-Ends n k p = record {
    ends = λ s h.
        let ((id, next), e) =
          allocate-contains (2 ^ 32) s.fulfillers s.next_fulfiller_id (omega (arith, h.fulfillers))
            h.next_fulfiller in
        let (small, next_small) =
          allocate-lt (2 ^ 32) (λ i. contains i s.fulfillers) (length s.fulfillers + 1)
            s.next_fulfiller_id id next h.next_fulfiller e in
        rw (e, add_promise_capability_fulfiller)
          (
            (λ q. ground (arith, q)),
            record {
              targets = h.targets;
              fulfillers = omega (arith, h.fulfillers, length-erase_le id s.fulfillers);
              next_target = h.next_target;
              next_fulfiller = next_small;
            },
          );
  }

  pub fewer : (n k : ℕ) (s : State rpc) → Fits (suc n) (suc k) s → Fits n k s
  fewer n k s h = record {
    targets = omega (arith, h.targets);
    fulfillers = omega (arith, h.fulfillers);
    next_target = h.next_target;
    next_fulfiller = h.next_fulfiller;
  }

  fewer_targets : (n k : ℕ) (s : State rpc) → Fits (suc n) k s → Fits n k s
  fewer_targets n k s h = record {
    targets = omega (arith, h.targets);
    fulfillers = h.fulfillers;
    next_target = h.next_target;
    next_fulfiller = h.next_fulfiller;
  }

  pub fewer_fulfillers : (n k : ℕ) (s : State rpc) → Fits n (suc k) s → Fits n k s
  fewer_fulfillers n k s h = record {
    targets = h.targets;
    fulfillers = omega (arith, h.fulfillers);
    next_target = h.next_target;
    next_fulfiller = h.next_fulfiller;
  }

  pub new_promise_capability-Ends :
      (n k : ℕ) (client : Client) (fulfiller : ℕ)
      → Ends (Fits (suc n) (suc k)) (Fits n k) (new_promise_capability rpc client fulfiller)
  unfolding new_promise_capability
  new_promise_capability-Ends n k client fulfiller =
      Ends-bind (fewer_fulfillers n k) (add_target-Ends n (suc k) client) λ target.
        Ends-bind (λ s h. h)
          (add_fulfiller-Ends n k (record { fulfiller = fulfiller; promise_target = target }))
          λ id. Ends-pure (λ s h. h) (target, id)

  module _ (n k : ℕ) where
    abbrev Fit : State rpc → Type 0
    Fit = Fits n k

    retain_owners-Ends : (target retained : ℕ) → Ends Fit Fit (retain_owners rpc target retained)
    unfolding retain_owners
    retain_owners-Ends target retained = record {
      ends = λ s h. (
        (λ q. ground (arith, q)),
        record {
          targets = h.targets;
          fulfillers = h.fulfillers;
          next_target = h.next_target;
          next_fulfiller = h.next_fulfiller;
        },
      );
    }

    drop_target-Ends : (target : ℕ) → Ends Fit Fit (drop_target_if_present rpc target)
    unfolding drop_target_if_present
    drop_target-Ends target = record {
      ends = λ s h. (
        (λ q. ground (arith, q)),
        record {
          targets = omega (arith, h.targets, length-erase_le target s.targets);
          fulfillers = h.fulfillers;
          next_target = h.next_target;
          next_fulfiller = h.next_fulfiller;
        },
      );
    }

    pub release_target-Ends : (target : ℕ) → Ends Fit Fit (release_target rpc target)
    unfolding release_target
    release_target-Ends target =
        Ends-bind (λ s h. h) (drop_target-Ends target)
          λ dropped.
            Ends-if dropped (Ends-pure (λ s h. h) tt)
              (Ends-throw (λ s h. h) (unknown_target target))

    pub release_targets-Ends : (targets : List ℕ) → Ends Fit Fit (release_targets rpc targets)
    unfolding release_targets
    release_targets-Ends [] = Ends-pure (λ s h. h) tt
    release_targets-Ends (target ∷ targets) =
        Ends-bind (λ s h. h)
          (Ends-if (target == 0) (Ends-pure (λ s h. h) tt) (release_target-Ends target))
          λ _. release_targets-Ends targets

    retain_found-Ends :
        (target : ℕ) (cap : Client) → Ends (Fits (suc n) k) Fit (retain_found rpc target cap)
    unfolding retain_found
    retain_found-Ends target cap =
        Ends-bind (λ s h. h) (add_target-Ends n k cap)
          λ retained.
            Ends-bind (λ s h. h) (retain_owners-Ends target retained)
              λ _. Ends-pure (λ s h. h) retained

    pub retain_target-Ends : (target : ℕ) → Ends (Fits (suc n) k) Fit (retain_target rpc target)
    unfolding retain_target
    retain_target-Ends target = record {
      ends = λ s h. elim (Option-cases (find target s.targets)) [
        | inl e ↦ rw (e, retain_target) ((λ q. ground (arith, q)), fewer_targets n k s h)
        | inr (cap, e) ↦ rw (e, retain_target) ((retain_found-Ends target cap).ends s h)
      ];
    }

    -- A fulfiller leaves its table.
    settled :
        (id : ℕ) (p : PendingPromiseCapability) (outcome : Settlement Client) (s : State rpc)
        → Fit s
        → Fit (settle rpc id p outcome s)
    unfolding settle
    settled id p outcome s h = record {
      targets = h.targets;
      fulfillers = omega (arith, h.fulfillers, length-erase_le id s.fulfillers);
      next_target = h.next_target;
      next_fulfiller = h.next_fulfiller;
    }

    -- The held resolves are not among the tables.
    aside :
        (s : State rpc) (held : List HeldResolve) (held_ids : List ℕ)
        → Fit s
        → Fit (record s { held_resolves = held; held_ids = held_ids })
    aside s held held_ids h = record {
      targets = h.targets;
      fulfillers = h.fulfillers;
      next_target = h.next_target;
      next_fulfiller = h.next_fulfiller;
    }

    check_fulfill_ends : (id target : ℕ) (s : State rpc) → check_fulfill rpc id target s ≢ loops
    unfolding check_fulfill
    check_fulfill_ends id target s q = ground (arith, q)

    fulfill_now-Ends : (id target : ℕ) → Ends Fit Fit (promise_capability_fulfill_now rpc id target)
    unfolding promise_capability_fulfill_now
    fulfill_now-Ends id target = record {
      ends = λ s h. elim (Outcome-cases (check_fulfill rpc id target s)) [
        | inl ((p, cap), e) ↦
            rw (e, promise_capability_fulfill_now)
              ((λ q. ground (arith, q)), settled id p (fulfilled cap) s h)
        | inr (inl (x, e)) ↦ rw (e, promise_capability_fulfill_now) ((λ q. ground (arith, q)), h)
        | inr (inr e) ↦ absurd (check_fulfill_ends id target s e)
      ];
    }

    hold_resolve-Ends : (id target : ℕ) → Ends Fit Fit (hold_resolve rpc id target)
    unfolding hold_resolve
    hold_resolve-Ends id target = record {
      ends = λ s h. elim (Outcome-cases (check_fulfill rpc id target s)) [
        | inl ((p, cap), e) ↦ rw (e, hold_resolve) ((λ q. ground (arith, q)), aside s _ _ h)
        | inr (inl (x, e)) ↦ rw (e, hold_resolve) ((λ q. ground (arith, q)), h)
        | inr (inr e) ↦ absurd (check_fulfill_ends id target s e)
      ];
    }

    fulfill_as-Ends :
        (id target : ℕ) (b c : Bool)
        → Ends Fit Fit (λ s.
          if b
          then (throws held_already, s)
          else if c
          then hold_resolve rpc id target s
          else promise_capability_fulfill_now rpc id target s)
    fulfill_as-Ends id target true c = Ends-throw (λ s h. h) held_already
    fulfill_as-Ends id target false true = hold_resolve-Ends id target
    fulfill_as-Ends id target false false = fulfill_now-Ends id target

    pub promise_capability_fulfill-Ends :
        (id target : ℕ) → Ends Fit Fit (promise_capability_fulfill rpc id target)
    unfolding promise_capability_fulfill
    promise_capability_fulfill-Ends id target = record {
      ends = λ s h. (fulfill_as-Ends id target (elem id s.held_ids) s.hold_resolves).ends s h;
    }

    flush_loop-Ends : (held : List HeldResolve) → Ends Fit Fit (flush_loop rpc held)
    unfolding flush_loop
    flush_loop-Ends [] = Ends-pure (λ s h. h) 0
    flush_loop-Ends (r ∷ held) = record {
      ends = λ s h.
          (Ends-bind (λ s h. h) (fulfill_now-Ends r.fulfiller_id r.target)
              λ _.
                Ends-bind (λ s h. h) (flush_loop-Ends held)
                  λ flushed. Ends-pure (λ s h. h) ((flushed + 1) % 2 ^ 64)).ends
            _ (aside s held _ h);
    }

    pub flush-Ends : Ends Fit Fit (flush_held_promise_capability_resolves rpc)
    unfolding flush_held_promise_capability_resolves
    flush-Ends = record { ends = λ s h. (flush_loop-Ends s.held_resolves).ends s h }

    dropped : (id : ℕ) (s : State rpc) → Fit s → Fit (drop_held_promise_capability_resolve rpc id s)
    unfolding drop_held_promise_capability_resolve
    dropped id s h = elim (Bool-cases (elem id s.held_ids)) [
      | inl e ↦ rw (e, drop_held_promise_capability_resolve) (aside s _ _ h)
      | inr e ↦ rw (e, drop_held_promise_capability_resolve) h
    ]

    reject_found-Ends : (id : ℕ) (ex : RemoteException) → Ends Fit Fit (reject_found rpc id ex)
    unfolding reject_found
    reject_found-Ends id ex = record {
      ends = λ s h. elim (Option-cases (find id s.fulfillers)) [
        | inl e ↦ rw (e, reject_found) ((λ q. ground (arith, q)), h)
        | inr (p, e) ↦
            rw (e, reject_found) ((λ q. ground (arith, q)), settled id p (rejected ex) s h)
      ];
    }

    pub promise_capability_reject-Ends :
        (id tag : ℕ) (message detail : List ℕ)
        → Ends Fit Fit (promise_capability_reject rpc id tag message detail)
    unfolding promise_capability_reject
    promise_capability_reject-Ends id tag message detail = record {
      ends =
          λ s h. (reject_found-Ends id (make_exception tag message detail)).ends _ (dropped id s h);
    }

    release_found-Ends : (id : ℕ) → Ends Fit Fit (release_found rpc id)
    unfolding release_found
    release_found-Ends id = record {
      ends = λ s h. elim (Option-cases (find id s.fulfillers)) [
        | inl e ↦ rw (e, release_found) ((λ q. ground (arith, q)), h)
        | inr (p, e) ↦
            rw (e, release_found)
              ((λ q. ground (arith, q)), settled id p (rejected released_exception) s h)
      ];
    }

    pub promise_capability_release-Ends :
        (id : ℕ) → Ends Fit Fit (promise_capability_release rpc id)
    unfolding promise_capability_release
    promise_capability_release-Ends id = record {
      ends = λ s h. (release_found-Ends id).ends _ (dropped id s h);
    }

    pub set_hold-Ends : (enabled : Bool) → Ends Fit Fit (set_resolve_hold_enabled rpc enabled)
    unfolding set_resolve_hold_enabled
    set_hold-Ends enabled = record {
      ends = λ s h. (
        (λ q. ground (arith, q)),
        record {
          targets = h.targets;
          fulfillers = h.fulfillers;
          next_target = h.next_target;
          next_fulfiller = h.next_fulfiller;
        },
      );
    }
