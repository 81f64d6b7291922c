-- ===== src/Targets/Resolves/Settled.antt =====
-- ffi/rpc_bridge_runtime.cpp, promise capabilities: no fulfiller is called twice.
use lean_capnproto.Prelude.{
  ℕ, ◌+◌, ◌%◌, ◌^◌, ◌≡◌, Bool, true, false, some, List, [], ◌∷◌, ◌++◌, ◌==◌, arith, if◌then◌else◌,
  inl, inr, Bool-cases, Option-cases,
}
use lean_capnproto.Prelude.Exec.{Outcome-cases}
use lean_capnproto.Prelude.Exec.Keeps.{Keeps, Keeps-bind, Keeps-pure}
use lean_capnproto.Prelude.Table.{Table, find, elem, remove}
use lean_capnproto.Prelude.Table.Weight.{Distinct, weight, erase-Distinct, weight-erase}
use lean_capnproto.Targets.{HeldResolve, PendingPromiseCapability, Settlement, Rpc, State}
use lean_capnproto.Targets.Resolves.{
  settle, check_fulfill, promise_capability_fulfill_now, hold_resolve, promise_capability_fulfill,
  drop_held_promise_capability_resolve, flush_loop, flush_held_promise_capability_resolves,
  reject_found, promise_capability_reject, release_found, promise_capability_release,
}
use lean_capnproto.Targets.Resolves.Held.{check_fulfill-found}

abbrev pub is_fulfiller : ℕ → PendingPromiseCapability → ℕ
is_fulfiller f p = if p.fulfiller == f then 1 else 0

-- How often the fulfiller was called.
abbrev calls_of : {C : Type 0} → ℕ → List (ℕ × Settlement C) → ℕ
calls_of f [] = 0
calls_of f ((g, o) ∷ l) = (if g == f then 1 else 0) + calls_of f l

-- How many pending promise capabilities have the fulfiller.
abbrev pending_of : ℕ → Table PendingPromiseCapability → ℕ
pending_of f t = weight (is_fulfiller f) t

calls_of-append :
    {C : Type 0} (f g : ℕ) (o : Settlement C) (l : List (ℕ × Settlement C))
    → calls_of f (l ++ ((g, o) ∷ [])) ≡ calls_of f l + (if g == f then 1 else 0)
calls_of-append f g o [] = ground arith
calls_of-append f g o ((h, q) ∷ l) = ground (arith, calls_of-append f g o l)

-- The fulfiller's calls and its pending promise capabilities together are `n`.
pub record Accounted {rpc : Rpc} (f n : ℕ) (s : State rpc) : Type 0 where
  pub distinct : Distinct s.fulfillers
  pub total : calls_of f s.settlements + pending_of f s.fulfillers ≡ n

module _ (rpc : Rpc) (f n : ℕ) where
  open rpc use {Client}

  settle-Accounted :
      (id : ℕ) (p : PendingPromiseCapability) (o : Settlement Client) (s : State rpc)
      → find id s.fulfillers ≡ some p
      → Accounted f n s
      → Accounted f n (settle rpc id p o s)
  unfolding settle
  settle-Accounted id p o s e h = record {
    distinct = erase-Distinct id s.fulfillers h.distinct;
    total = ground (
      arith,
      h.total,
      weight-erase (is_fulfiller f) id s.fulfillers p h.distinct e,
      calls_of-append f p.fulfiller o s.settlements,
    );
  }

  fulfill_now-Accounted :
      (id target : ℕ)
      → Keeps (Accounted {rpc = rpc} f n) (promise_capability_fulfill_now rpc id target)
  unfolding promise_capability_fulfill_now
  fulfill_now-Accounted id target = record {
    after = λ s h. elim (Outcome-cases (check_fulfill rpc id target s)) [
      | inl ((p, cap), e) ↦
          rw (e, promise_capability_fulfill_now)
            (settle-Accounted id p _ s (check_fulfill-found rpc id target s p cap e) h)
      | inr (inl (er, e)) ↦ rw (e, promise_capability_fulfill_now) h
      | inr (inr e) ↦ rw (e, promise_capability_fulfill_now) h
    ];
  }

  hold_resolve-Accounted :
      (id target : ℕ) → Keeps (Accounted {rpc = rpc} f n) (hold_resolve rpc id target)
  unfolding hold_resolve
  hold_resolve-Accounted id target = record {
    after = λ s h. elim (Outcome-cases (check_fulfill rpc id target s)) [
      | inl ((p, cap), e) ↦ rw (e, hold_resolve) (record { distinct = h.distinct; total = h.total })
      | inr (inl (er, e)) ↦ rw (e, hold_resolve) h
      | inr (inr e) ↦ rw (e, hold_resolve) h
    ];
  }

  unheld-Accounted :
      (hold : Bool) (id target : ℕ) (s : State rpc)
      → Accounted f n s
      → Accounted f n
          (if hold
            then hold_resolve rpc id target s
            else promise_capability_fulfill_now rpc id target s).1
  unheld-Accounted true id target s h = (hold_resolve-Accounted id target).after s h
  unheld-Accounted false id target s h = (fulfill_now-Accounted id target).after s h

  pub promise_capability_fulfill-Accounted :
      (id target : ℕ) → Keeps (Accounted {rpc = rpc} f n) (promise_capability_fulfill rpc id target)
  unfolding promise_capability_fulfill
  promise_capability_fulfill-Accounted id target = record {
    after = λ s h. elim (Bool-cases (elem id s.held_ids)) [
      | inl e ↦ rw (e, promise_capability_fulfill) h
      | inr e ↦ rw (e, promise_capability_fulfill) (unheld-Accounted s.hold_resolves id target s h)
    ];
  }

  flush_loop-Accounted :
      (held : List HeldResolve) → Keeps (Accounted {rpc = rpc} f n) (flush_loop rpc held)
  unfolding flush_loop
  flush_loop-Accounted [] = Keeps-pure 0
  flush_loop-Accounted (r ∷ held) = record {
    after = λ s h.
        let rest = Keeps-bind (fulfill_now-Accounted r.fulfiller_id r.target) λ _.
          Keeps-bind (flush_loop-Accounted held) λ flushed. Keeps-pure ((flushed + 1) % 2 ^ 64) in
        rest.after (record s { held_resolves = held; held_ids = remove r.fulfiller_id s.held_ids })
          (record { distinct = h.distinct; total = h.total });
  }

  pub flush-Accounted :
      Keeps (Accounted {rpc = rpc} f n) (flush_held_promise_capability_resolves rpc)
  unfolding flush_held_promise_capability_resolves
  flush-Accounted = record { after = λ s h. (flush_loop-Accounted s.held_resolves).after s h }

  drop_resolve-Accounted :
      (id : ℕ) (s : State rpc)
      → Accounted f n s
      → Accounted f n (drop_held_promise_capability_resolve rpc id s)
  unfolding drop_held_promise_capability_resolve
  drop_resolve-Accounted id s h = elim (Bool-cases (elem id s.held_ids)) [
    | inr e ↦ rw (e, drop_held_promise_capability_resolve) h
    | inl e ↦
        rw (e, drop_held_promise_capability_resolve)
          (record { distinct = h.distinct; total = h.total })
  ]

  pub promise_capability_reject-Accounted :
      (id tag : ℕ) (message detail : List ℕ)
      → Keeps (Accounted {rpc = rpc} f n) (promise_capability_reject rpc id tag message detail)
  unfolding promise_capability_reject reject_found
  promise_capability_reject-Accounted id tag message detail = record {
    after = λ s h.
        let s1 = drop_held_promise_capability_resolve rpc id s in
        elim (Option-cases (find id s1.fulfillers)) [
          | inl e ↦ rw (e, reject_found) (drop_resolve-Accounted id s h)
          | inr (p, e) ↦
              rw (e, reject_found) (settle-Accounted id p _ s1 e (drop_resolve-Accounted id s h))
        ];
  }

  pub promise_capability_release-Accounted :
      (id : ℕ) → Keeps (Accounted {rpc = rpc} f n) (promise_capability_release rpc id)
  unfolding promise_capability_release release_found
  promise_capability_release-Accounted id = record {
    after = λ s h.
        let s1 = drop_held_promise_capability_resolve rpc id s in
        elim (Option-cases (find id s1.fulfillers)) [
          | inl e ↦ rw (e, release_found) (drop_resolve-Accounted id s h)
          | inr (p, e) ↦
              rw (e, release_found) (settle-Accounted id p _ s1 e (drop_resolve-Accounted id s h))
        ];
  }
