-- ===== src/Targets/Resolves/Stops.antt =====
-- ffi/rpc_bridge_runtime.cpp, `flushHeldPromiseCapabilityResolves`, where a held request turns out
-- impossible: its target may have been released meanwhile.
use lean_capnproto.Prelude.{ℕ, ◌≡◌, refl, ap, ◌∙◌, false, ◌||◌, List, [], ◌∷◌, ◌++◌, arith}
use lean_capnproto.Prelude.Exec.{throws}
use lean_capnproto.Prelude.Table.{find, elem, elem-remove}
use lean_capnproto.Targets.{
  HeldResolve, PendingPromiseCapability, fulfilled, Rpc, State, TargetError,
}
use lean_capnproto.Targets.Resolves.{
  settle, check_fulfill, promise_capability_fulfill_now, flush_loop,
  flush_held_promise_capability_resolves,
}
use lean_capnproto.Targets.Resolves.Held.{ids_of, NoRepeat, IsHeld}
use lean_capnproto.Targets.Resolves.Flush.{
  AllReady, AllReady-settle, calls, pop_front, after_front, after_front-find,
  after_front-settlements, check_fulfill-same, fulfill_now-ready,
}

elem-front :
    (i : ℕ) (front back : List HeldResolve)
    → elem i (ids_of (front ++ back)) ≡ (elem i (ids_of front) || elem i (ids_of back))
unfolding elem
elem-front i [] back = refl
elem-front i (r ∷ front) back = ground (arith, elem-front i front back)

front-NoRepeat :
    (front : List HeldResolve) (bad : HeldResolve) (rest : List HeldResolve)
    → NoRepeat (ids_of (front ++ (bad ∷ rest)))
    → (elem bad.fulfiller_id (ids_of front) ≡ false) × NoRepeat (ids_of front)
unfolding elem
front-NoRepeat [] bad rest h = (refl, tt)
front-NoRepeat (r ∷ front) bad rest (new, h) =
    let later = front-NoRepeat front bad rest h in
    let apart = elem-front r.fulfiller_id front (bad ∷ rest) in
    (ground (arith, new, apart, later.0), (ground (arith, new, apart), later.1))

module _ (rpc : Rpc) where
  open rpc use {Client}

  after_front-targets :
      (front : List HeldResolve) (outs : List (PendingPromiseCapability × Client))
      (back : List HeldResolve) (s : State rpc)
      → (after_front rpc front outs back s).targets ≡ s.targets
  unfolding settle
  after_front-targets [] outs back s = refl
  after_front-targets (r ∷ front) [] back s = refl
  after_front-targets (r ∷ front) ((p, cap) ∷ outs) back s =
      after_front-targets front outs back
        (settle rpc r.fulfiller_id p (fulfilled cap) (pop_front rpc r (front ++ back) s))

  flush_loop-stops :
      (front : List HeldResolve) (outs : List (PendingPromiseCapability × Client))
      (bad : HeldResolve) (rest : List HeldResolve) (e : TargetError) (s : State rpc)
      → AllReady rpc front outs s
      → NoRepeat (ids_of front)
      → check_fulfill rpc bad.fulfiller_id bad.target (after_front rpc front outs (bad ∷ rest) s)
        ≡ throws e
      → flush_loop rpc (front ++ (bad ∷ rest)) s
        ≡ (throws e, pop_front rpc bad rest (after_front rpc front outs (bad ∷ rest) s))
  unfolding flush_loop promise_capability_fulfill_now
  flush_loop-stops [] [] bad rest e s h n c =
      let popped = pop_front rpc bad rest s in
      let same = check_fulfill-same rpc bad.fulfiller_id bad.target s popped refl refl in
      rw (same ∙ c, promise_capability_fulfill_now)
  flush_loop-stops [] (o ∷ outs) bad rest e s h n c = absurd h
  flush_loop-stops (r ∷ front) [] bad rest e s h n c = absurd h
  flush_loop-stops (r ∷ front) ((p, cap) ∷ outs) bad rest e s h n c =
      let more = front ++ (bad ∷ rest) in
      let s' = settle rpc r.fulfiller_id p (fulfilled cap) (pop_front rpc r more s) in
      let ready = AllReady-settle rpc r p (fulfilled cap) more front outs s n.0 h.1 in
      let later = flush_loop-stops front outs bad rest e s' ready n.1 c in
      rw (fulfill_now-ready rpc r p cap more s h.0) (rw later)

  -- The requests before `bad` were carried out, and those of `rest` are left.
  abbrev pub FlushStops :
      List (PendingPromiseCapability × Client)
      → HeldResolve
      → List HeldResolve
      → TargetError
      → State rpc
      → Type 0
  FlushStops outs bad rest e s =
      (s' : State rpc) × (flush_held_promise_capability_resolves rpc s ≡ (throws e, s'))
      × (s'.settlements ≡ s.settlements ++ calls rpc outs)
      × (s'.held_resolves ≡ rest)
      × (elem bad.fulfiller_id s'.held_ids ≡ false)
      × (find bad.fulfiller_id s'.fulfillers ≡ find bad.fulfiller_id s.fulfillers)

  -- Where the queue and the set of held ids agree, and a held request cannot be fulfilled any more but
  -- all before it can,
  -- `flushHeldPromiseCapabilityResolves` throws that request's error. Those before it have called
  -- their fulfillers, in order; it is itself out of the queue and not held, its promise capability
  -- still pending; the requests behind it stay in the queue.
  pub flush_held_promise_capability_resolves_stops :
      (front : List HeldResolve) (outs : List (PendingPromiseCapability × Client))
      (bad : HeldResolve) (rest : List HeldResolve) (e : TargetError) (s : State rpc)
      → IsHeld s
      → s.held_resolves ≡ front ++ (bad ∷ rest)
      → AllReady rpc front outs s
      → check_fulfill rpc bad.fulfiller_id bad.target s ≡ throws e
      → FlushStops outs bad rest e s
  unfolding flush_held_promise_capability_resolves
  flush_held_promise_capability_resolves_stops front outs bad rest e s w q h c =
      let (new, n) = front-NoRepeat front bad rest (rw q at w.once) in
      let s1 = after_front rpc front outs (bad ∷ rest) s in
      let kept : find bad.fulfiller_id s1.fulfillers ≡ find bad.fulfiller_id s.fulfillers =
        ground (arith, after_front-find rpc front outs (bad ∷ rest) s h n bad.fulfiller_id, new) in
      let targets = ap (find bad.target) (after_front-targets front outs (bad ∷ rest) s) in
      let same = check_fulfill-same rpc bad.fulfiller_id bad.target s s1 targets kept in
      (
        pop_front rpc bad rest s1,
        ap (λ (l : List HeldResolve). flush_loop rpc l s) q
            ∙ flush_loop-stops front outs bad rest e s h n (same ∙ c),
        after_front-settlements rpc front outs (bad ∷ rest) s h n,
        refl,
        ground (arith, elem-remove bad.fulfiller_id bad.fulfiller_id s1.held_ids),
        kept,
      )
