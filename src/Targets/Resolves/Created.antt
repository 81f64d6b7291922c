-- ===== src/Targets/Resolves/Created.antt =====
-- ffi/rpc_bridge_runtime.cpp, promise capabilities: a new one is neither held nor was its fulfiller
-- called for it.
use lean_capnproto.Prelude.{ℕ, ◌+◌, ◌^◌, ◌==◌, arith, if◌then◌else◌, inl, inr, length, Option-cases}
use lean_capnproto.Prelude.Exec.{Outcome, continue, returns, throws, loops}
use lean_capnproto.Prelude.Exec.Keeps.{Keeps, Keeps-bind, Keeps-pure}
use lean_capnproto.Prelude.Table.{contains, assign, contains-assign}
use lean_capnproto.Prelude.Table.Weight.{assign-Distinct, weight-assign}
use lean_capnproto.Prelude.Alloc.{allocate, allocate-free}
use lean_capnproto.Targets.{PendingPromiseCapability, Rpc, State, TargetError, add_target}
use lean_capnproto.Targets.Apart.{add_target-Keeps}
use lean_capnproto.Targets.Resolves.{add_promise_capability_fulfiller, new_promise_capability}
use lean_capnproto.Targets.Resolves.Held.{IsHeld}
use lean_capnproto.Targets.Resolves.Settled.{Accounted, is_fulfiller}

-- 1 where a call returned.
abbrev pub returned : {A E : Type 0} → Outcome E A → ℕ
returned (returns a) = 1
returned (throws e) = 0
returned loops = 0

module _ (rpc : Rpc) where
  open rpc use {Client}

  add_fulfiller-IsHeld :
      (p : PendingPromiseCapability)
      → Keeps (IsHeld {rpc = rpc}) (add_promise_capability_fulfiller rpc p)
  unfolding add_promise_capability_fulfiller
  add_fulfiller-IsHeld p = record {
    after = λ s h.
        elim (Option-cases (
          allocate (2 ^ 32) (λ i. contains i s.fulfillers) (length s.fulfillers + 1)
            s.next_fulfiller_id)) [
              | inl e ↦ rw (e, add_promise_capability_fulfiller) h
              | inr ((id, next), e) ↦
                  rw (e, add_promise_capability_fulfiller)
                    (record {
                      same = h.same;
                      once = h.once;
                      pending =
                          λ i q. ground (arith, h.pending i q, contains-assign id i p s.fulfillers);
                    })
            ];
  }

  -- The sum of the calls and the pending ones of a fulfiller goes up with a new one.
  add_fulfiller-Accounted :
      (f n : ℕ) (p : PendingPromiseCapability) (s : State rpc)
      → Accounted f n s
      → let r = add_promise_capability_fulfiller rpc p s in
        Accounted f (n + (if p.fulfiller == f then returned r.0 else 0)) r.1
  unfolding add_promise_capability_fulfiller
  add_fulfiller-Accounted f n p s h =
      let busy = λ (i : ℕ). contains i s.fulfillers in
      let fuel = length s.fulfillers + 1 in
      elim (Option-cases (allocate (2 ^ 32) busy fuel s.next_fulfiller_id)) [
        | inl e ↦
            rw (e, add_promise_capability_fulfiller)
              (record { distinct = h.distinct; total = ground (arith, h.total) })
        | inr ((id, next), e) ↦
            let free = allocate-free (2 ^ 32) busy fuel s.next_fulfiller_id id next e in
            rw (e, add_promise_capability_fulfiller)
              (record {
                distinct = assign-Distinct id p s.fulfillers h.distinct;
                total =
                    ground (arith, h.total, weight-assign (is_fulfiller f) id s.fulfillers p free);
              })
      ]

  -- The target's number beside the id changes no count.
  paired :
      (f n k target : ℕ) (r : Outcome (TargetError) ℕ × State rpc)
      → Accounted f (n + (if k == f then returned r.0 else 0)) r.1
      → let q =
          continue {B = ℕ × ℕ} r.0 (λ (id : ℕ) (s : State rpc). (returns (target, id), s)) r.1 in
        Accounted f (n + (if k == f then returned q.0 else 0)) q.1
  paired f n k target (returns id, s) h = h
  paired f n k target (throws e, s) h = h
  paired f n k target (loops, s) h = h

  pub new_promise_capability-Accounted :
      (f n fulfiller : ℕ) (client : Client) (s : State rpc)
      → Accounted f n s
      → let r = new_promise_capability rpc client fulfiller s in
        Accounted f (n + (if fulfiller == f then returned r.0 else 0)) r.1
  unfolding new_promise_capability add_target
  new_promise_capability-Accounted f n fulfiller client s h =
      elim (Option-cases
        (allocate (2 ^ 32) (λ i. contains i s.targets) (length s.targets + 1) s.next_target_id)) [
          | inl e ↦
              rw (e, new_promise_capability, add_target)
                (record { distinct = h.distinct; total = ground (arith, h.total) })
          | inr ((target, next), e) ↦
              rw (e, new_promise_capability, add_target)
                (paired f n fulfiller target _ (
                  add_fulfiller-Accounted f n
                    (record { fulfiller = fulfiller; promise_target = target })
                    (record s { targets = assign target client s.targets; next_target_id = next })
                    (record { distinct = h.distinct; total = h.total })))
        ]

  pub new_promise_capability-IsHeld :
      (client : Client) (fulfiller : ℕ)
      → Keeps (IsHeld {rpc = rpc}) (new_promise_capability rpc client fulfiller)
  unfolding new_promise_capability
  new_promise_capability-IsHeld client fulfiller =
      Keeps-bind
        (add_target-Keeps rpc IsHeld
          (λ s targets next l n h. record { same = h.same; once = h.once; pending = h.pending })
          client)
        λ target.
          Keeps-bind
            (add_fulfiller-IsHeld (record { fulfiller = fulfiller; promise_target = target }))
            λ id. Keeps-pure (target, id)
