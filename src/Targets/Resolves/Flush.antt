-- ===== src/Targets/Resolves/Flush.antt =====
-- ffi/rpc_bridge_runtime.cpp, `flushHeldPromiseCapabilityResolves`: the order of the calls, and the
-- state that is left.
use lean_capnproto.Prelude.{
  ℕ, suc, Option-cases, inl, inr, ◌+◌, ◌%◌, ◌^◌, ◌≡◌, refl, sym, ◌∙◌, false, none, List, [], ◌∷◌,
  ◌++◌, ◌==◌, arith, if◌then◌else◌, length,
}
use mathlib.Core.List.{append-nil, append_assoc}
use lean_capnproto.Prelude.Exec.{returns}
use lean_capnproto.Prelude.Table.{find, elem, remove, find-erase}
use lean_capnproto.Targets.{
  HeldResolve, PendingPromiseCapability, Settlement, fulfilled, Rpc, State,
}
use lean_capnproto.Targets.Resolves.{
  settle, check_fulfill, promise_capability_fulfill_now, flush_loop,
  flush_held_promise_capability_resolves,
}
use lean_capnproto.Targets.Resolves.Held.{ids_of, NoRepeat, IsHeld}

module _ (rpc : Rpc) where
  open rpc use {Client}

  -- Each held request would be let through: its promise capability and the target's capability.
  abbrev pub AllReady :
      List HeldResolve → List (PendingPromiseCapability × Client) → State rpc → Type 0
  AllReady [] [] s = Unit
  AllReady [] (o ∷ outs) s = ⊥
  AllReady (r ∷ held) [] s = ⊥
  AllReady (r ∷ held) (o ∷ outs) s =
      (check_fulfill rpc r.fulfiller_id r.target s ≡ returns o) × AllReady held outs s

  abbrev pub calls : List (PendingPromiseCapability × Client) → List (ℕ × Settlement Client)
  calls [] = []
  calls ((p, cap) ∷ outs) = (p.fulfiller, fulfilled cap) ∷ calls outs

  abbrev pub pop_front : HeldResolve → List HeldResolve → State rpc → State rpc
  pop_front r held s = record s {
    held_resolves = held;
    held_ids = remove r.fulfiller_id s.held_ids;
  }

  -- The state after the front of the queue was fulfilled, with the rest still in it.
  abbrev pub after_front :
      List HeldResolve
      → List (PendingPromiseCapability × Client)
      → List HeldResolve
      → State rpc
      → State rpc
  after_front [] outs back s = s
  after_front (r ∷ front) [] back s = s
  after_front (r ∷ front) ((p, cap) ∷ outs) back s =
      after_front front outs back
        (settle rpc r.fulfiller_id p (fulfilled cap) (pop_front r (front ++ back) s))

  -- A check depends on the targets and on the one promise capability.
  pub check_fulfill-same :
      (j target : ℕ) (s s' : State rpc)
      → find target s'.targets ≡ find target s.targets
      → find j s'.fulfillers ≡ find j s.fulfillers
      → check_fulfill rpc j target s' ≡ check_fulfill rpc j target s
  unfolding check_fulfill
  check_fulfill-same j target s s' et ef = elim (Option-cases (find j s.fulfillers)) [
    | inl e ↦ rw (ef ∙ e, e, check_fulfill)
    | inr (p, e) ↦ rw (ef ∙ e, check_fulfill) (rw (e, check_fulfill) (rw et))
  ]

  settled_find :
      (r : HeldResolve) (p : PendingPromiseCapability) (o : Settlement Client)
      (held : List HeldResolve) (s : State rpc) (j : ℕ)
      → find j (settle rpc r.fulfiller_id p o (pop_front r held s)).fulfillers
        ≡ (if r.fulfiller_id == j then none else find j s.fulfillers)
  unfolding settle
  settled_find r p o held s j = find-erase r.fulfiller_id j s.fulfillers

  pub AllReady-settle :
      (r : HeldResolve) (p : PendingPromiseCapability) (o : Settlement Client)
      (held : List HeldResolve) (more : List HeldResolve)
      (outs : List (PendingPromiseCapability × Client)) (s : State rpc)
      → elem r.fulfiller_id (ids_of more) ≡ false
      → AllReady more outs s
      → AllReady more outs (settle rpc r.fulfiller_id p o (pop_front r held s))
  unfolding elem settle
  AllReady-settle r p o held [] [] s n h = tt
  AllReady-settle r p o held [] (out ∷ outs) s n h = h
  AllReady-settle r p o held (m ∷ more) [] s n h = h
  AllReady-settle r p o held (m ∷ more) (out ∷ outs) s n h =
      let s' = settle rpc r.fulfiller_id p o (pop_front r held s) in
      let found : find m.fulfiller_id s'.fulfillers ≡ find m.fulfiller_id s.fulfillers =
        ground (arith, settled_find r p o held s m.fulfiller_id, n) in
      (
        check_fulfill-same m.fulfiller_id m.target s s' refl found ∙ h.0,
        AllReady-settle r p o held more outs s (ground (arith, n)) h.1,
      )

  pub fulfill_now-ready :
      (r : HeldResolve) (p : PendingPromiseCapability) (cap : Client) (held : List HeldResolve)
      (s : State rpc)
      → check_fulfill rpc r.fulfiller_id r.target s ≡ returns (p, cap)
      → promise_capability_fulfill_now rpc r.fulfiller_id r.target (pop_front r held s)
        ≡ (returns tt, settle rpc r.fulfiller_id p (fulfilled cap) (pop_front r held s))
  unfolding promise_capability_fulfill_now
  fulfill_now-ready r p cap held s h =
      let popped = pop_front r held s in
      let same = check_fulfill-same r.fulfiller_id r.target s popped refl refl in
      rw (same ∙ h, promise_capability_fulfill_now)

  flush_loop-ready :
      (held : List HeldResolve) (outs : List (PendingPromiseCapability × Client)) (s : State rpc)
      → AllReady held outs s
      → NoRepeat (ids_of held)
      → flush_loop rpc held s ≡ (returns (length held % 2 ^ 64), after_front held outs [] s)
  unfolding flush_loop
  flush_loop-ready [] [] s h n = refl
  flush_loop-ready [] (o ∷ outs) s h n = absurd h
  flush_loop-ready (r ∷ held) [] s h n = absurd h
  flush_loop-ready (r ∷ held) ((p, cap) ∷ outs) s h n =
      let s' = settle rpc r.fulfiller_id p (fulfilled cap) (pop_front r held s) in
      let rest =
        flush_loop-ready held outs s' (AllReady-settle r p (fulfilled cap) held held outs s n.0 h.1)
          n.1 in
      let count : (length held % 2 ^ 64 + 1) % 2 ^ 64 ≡ suc (length held) % 2 ^ 64 = omega arith in
      rw (fulfill_now-ready r p cap held s h.0) (rw rest (rw count (rw (append-nil held))))

  pub after_front-find :
      (front : List HeldResolve) (outs : List (PendingPromiseCapability × Client))
      (back : List HeldResolve) (s : State rpc)
      → AllReady front outs s
      → NoRepeat (ids_of front)
      → (j : ℕ)
      → find j (after_front front outs back s).fulfillers
        ≡ (if elem j (ids_of front) then none else find j s.fulfillers)
  unfolding elem
  after_front-find [] [] back s h n j = refl
  after_front-find [] (o ∷ outs) back s h n j = absurd h
  after_front-find (r ∷ front) [] back s h n j = absurd h
  after_front-find (r ∷ front) ((p, cap) ∷ outs) back s h n j =
      let s' = settle rpc r.fulfiller_id p (fulfilled cap) (pop_front r (front ++ back) s) in
      let ready = AllReady-settle r p (fulfilled cap) (front ++ back) front outs s n.0 h.1 in
      ground (
        arith,
        after_front-find front outs back s' ready n.1 j,
        settled_find r p (fulfilled cap) (front ++ back) s j,
      )

  pub after_front-settlements :
      (front : List HeldResolve) (outs : List (PendingPromiseCapability × Client))
      (back : List HeldResolve) (s : State rpc)
      → AllReady front outs s
      → NoRepeat (ids_of front)
      → (after_front front outs back s).settlements ≡ s.settlements ++ calls outs
  unfolding settle
  after_front-settlements [] [] back s h n = sym (append-nil s.settlements)
  after_front-settlements [] (o ∷ outs) back s h n = absurd h
  after_front-settlements (r ∷ front) [] back s h n = absurd h
  after_front-settlements (r ∷ front) ((p, cap) ∷ outs) back s h n =
      let s' = settle rpc r.fulfiller_id p (fulfilled cap) (pop_front r (front ++ back) s) in
      let ready = AllReady-settle r p (fulfilled cap) (front ++ back) front outs s n.0 h.1 in
      after_front-settlements front outs back s' ready n.1
      ∙ append_assoc s.settlements ((p.fulfiller, fulfilled cap) ∷ []) (calls outs)

  after_front-queue :
      (front : List HeldResolve) (outs : List (PendingPromiseCapability × Client))
      (back : List HeldResolve) (s : State rpc)
      → AllReady front outs s
      → NoRepeat (ids_of front)
      → s.held_resolves ≡ front ++ back
      → (after_front front outs back s).held_resolves ≡ back
  unfolding settle
  after_front-queue [] [] back s h n e = e
  after_front-queue [] (o ∷ outs) back s h n e = absurd h
  after_front-queue (r ∷ front) [] back s h n e = absurd h
  after_front-queue (r ∷ front) ((p, cap) ∷ outs) back s h n e =
      let s' = settle rpc r.fulfiller_id p (fulfilled cap) (pop_front r (front ++ back) s) in
      let ready = AllReady-settle r p (fulfilled cap) (front ++ back) front outs s n.0 h.1 in
      after_front-queue front outs back s' ready n.1 refl

  -- All requests of the queue were carried out, in order.
  abbrev pub FlushesAll : List (PendingPromiseCapability × Client) → State rpc → Type 0
  FlushesAll outs s =
      (s' : State rpc) × (flush_held_promise_capability_resolves rpc s
        ≡ (returns (length s.held_resolves % 2 ^ 64), s'))
      × (s'.settlements ≡ s.settlements ++ calls outs)
      × (s'.held_resolves ≡ [])
      × ((j : ℕ)
          → find j s'.fulfillers
            ≡ (if elem j (ids_of s.held_resolves) then none else find j s.fulfillers))

  -- Where the queue and the set of held ids agree and every held request may be fulfilled, `flushHeldPromiseCapabilityResolves` returns their
  -- number, has called their fulfillers in the order in which they were held, each with its target's
  -- capability, leaves no request in the queue, and takes just these promise capabilities out of the
  -- table.
  pub flush_held_promise_capability_resolves_lem :
      (outs : List (PendingPromiseCapability × Client)) (s : State rpc)
      → IsHeld s
      → AllReady s.held_resolves outs s
      → FlushesAll outs s
  unfolding flush_held_promise_capability_resolves
  flush_held_promise_capability_resolves_lem outs s w h = (
    after_front s.held_resolves outs [] s,
    flush_loop-ready s.held_resolves outs s h w.once,
    after_front-settlements s.held_resolves outs [] s h w.once,
    after_front-queue s.held_resolves outs [] s h w.once (sym (append-nil s.held_resolves)),
    after_front-find s.held_resolves outs [] s h w.once,
  )
