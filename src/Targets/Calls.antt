-- ===== src/Targets/Calls.antt =====
-- ffi/rpc_bridge_runtime.cpp, class RuntimeLoop: any sequence of the modelled operations on targets,
-- peers and promise capabilities, as the worker thread runs them.
use lean_capnproto.Prelude.{ℕ, ◌+◌, Bool, Option, List, [], ◌∷◌, ◌==◌, arith, subst, if◌then◌else◌}
use lean_capnproto.Targets.{
  Rpc, State, add_target, retain_target, release_target, release_targets, drop_request_caps,
  drop_request_caps_except_all, drop_request_caps_except, add_loopback_peer, add_network_peer,
  response_caps,
}
use lean_capnproto.Targets.Apart.{
  Unrelated, retain_target-Keeps, release_target-Keeps, release_targets-Keeps, add_target-Keeps,
  drop_request_caps-Keeps, drop_except_all-Keeps, drop_except-Keeps, add_loopback_peer-Keeps,
  add_network_peer-Keeps, response_caps-Keeps,
}
use lean_capnproto.Targets.Resolves.{
  new_promise_capability, promise_capability_fulfill, flush_held_promise_capability_resolves,
  set_resolve_hold_enabled, promise_capability_reject, promise_capability_release,
}
use lean_capnproto.Targets.Resolves.Held.{
  IsHeld, promise_capability_fulfill-IsHeld, flush-IsHeld, promise_capability_reject-IsHeld,
  promise_capability_release-IsHeld,
}
use lean_capnproto.Targets.Resolves.Settled.{
  Accounted, promise_capability_fulfill-Accounted, flush-Accounted,
  promise_capability_reject-Accounted, promise_capability_release-Accounted,
}
use lean_capnproto.Targets.Resolves.Created.{
  returned, new_promise_capability-IsHeld, new_promise_capability-Accounted,
}

-- A call of an operation on targets and their peers.
pub data TargetCall (C L N : Type 0) : Type 0 where
  add : C → TargetCall C L N
  add_loopback : C → L → TargetCall C L N
  add_network : C → N → TargetCall C L N
  retain release : ℕ → TargetCall C L N
  release_all drop_all : List ℕ → TargetCall C L N
  drop_except_list : List ℕ → List ℕ → TargetCall C L N
  drop_except_one : List ℕ → ℕ → TargetCall C L N
  respond : List (Option C) → TargetCall C L N

-- A call of an operation on promise capabilities, or of one on targets.
pub data Call (C L N : Type 0) : Type 0 where
  on_target : TargetCall C L N → Call C L N
  new_capability : C → ℕ → Call C L N
  fulfill : ℕ → ℕ → Call C L N
  reject : ℕ → ℕ → List ℕ → List ℕ → Call C L N
  release_fulfiller : ℕ → Call C L N
  flush_held : Call C L N
  set_hold : Bool → Call C L N

module _ (rpc : Rpc) where
  open rpc use {Client, LoopbackPeer, NetworkPeer}

  call_target : TargetCall Client LoopbackPeer NetworkPeer → State rpc → State rpc
  call_target (add cap) s = (add_target rpc cap s).1
  call_target (add_loopback cap peer) s = (add_loopback_peer rpc cap peer s).1
  call_target (add_network cap peer) s = (add_network_peer rpc cap peer s).1
  call_target (retain target) s = (retain_target rpc target s).1
  call_target (release target) s = (release_target rpc target s).1
  call_target (release_all targets) s = (release_targets rpc targets s).1
  call_target (drop_all caps) s = (drop_request_caps rpc caps s).1
  call_target (drop_except_list caps kept) s = (drop_request_caps_except_all rpc caps kept s).1
  call_target (drop_except_one caps kept) s = (drop_request_caps_except rpc caps kept s).1
  call_target (respond hooks) s = (response_caps rpc hooks s).1

  pub call : Call Client LoopbackPeer NetworkPeer → State rpc → State rpc
  unfolding call_target
  call (on_target c) s = call_target c s
  call (new_capability client fulfiller) s = (new_promise_capability rpc client fulfiller s).1
  call (fulfill id target) s = (promise_capability_fulfill rpc id target s).1
  call (reject id tag message detail) s = (promise_capability_reject rpc id tag message detail s).1
  call (release_fulfiller id) s = (promise_capability_release rpc id s).1
  call flush_held s = (flush_held_promise_capability_resolves rpc s).1
  call (set_hold enabled) s = (set_resolve_hold_enabled rpc enabled s).1

  pub run : List (Call Client LoopbackPeer NetworkPeer) → State rpc → State rpc
  unfolding call
  run [] s = s
  run (c ∷ calls) s = run calls (call c s)

  -- How many promise capabilities of a fulfiller a call makes.
  abbrev made_by : ℕ → Call Client LoopbackPeer NetworkPeer → State rpc → ℕ
  made_by f (new_capability client fulfiller) s =
      if fulfiller == f then returned (new_promise_capability rpc client fulfiller s).0 else 0
  made_by f (on_target c) s = 0
  made_by f (fulfill id target) s = 0
  made_by f (reject id tag message detail) s = 0
  made_by f (release_fulfiller id) s = 0
  made_by f flush_held s = 0
  made_by f (set_hold enabled) s = 0

  pub made : ℕ → List (Call Client LoopbackPeer NetworkPeer) → State rpc → ℕ
  made f [] s = 0
  made f (c ∷ calls) s = made_by f c s + made f calls (call c s)

  module _ (P : State rpc → Type 0) (unrelated : Unrelated rpc P) where
    call_target-Keeps :
        (c : TargetCall Client LoopbackPeer NetworkPeer) (s : State rpc) → P s → P (call_target c s)
    unfolding call_target
    call_target-Keeps (add cap) s h = (add_target-Keeps rpc P unrelated cap).after s h
    call_target-Keeps (add_loopback cap peer) s h =
        (add_loopback_peer-Keeps rpc P unrelated cap peer).after s h
    call_target-Keeps (add_network cap peer) s h =
        (add_network_peer-Keeps rpc P unrelated cap peer).after s h
    call_target-Keeps (retain target) s h = (retain_target-Keeps rpc P unrelated target).after s h
    call_target-Keeps (release target) s h = (release_target-Keeps rpc P unrelated target).after s h
    call_target-Keeps (release_all targets) s h =
        (release_targets-Keeps rpc P unrelated targets).after s h
    call_target-Keeps (drop_all caps) s h = (drop_request_caps-Keeps rpc P unrelated caps).after s h
    call_target-Keeps (drop_except_list caps kept) s h =
        (drop_except_all-Keeps rpc P unrelated caps kept).after s h
    call_target-Keeps (drop_except_one caps kept) s h =
        (drop_except-Keeps rpc P unrelated caps kept).after s h
    call_target-Keeps (respond hooks) s h = (response_caps-Keeps rpc P unrelated hooks).after s h

  IsHeld-Unrelated : Unrelated rpc IsHeld
  IsHeld-Unrelated s targets next l n h = record {
    same = h.same;
    once = h.once;
    pending = h.pending;
  }

  Accounted-Unrelated : (f n : ℕ) → Unrelated rpc (Accounted f n)
  Accounted-Unrelated f n s targets next l m h = record { distinct = h.distinct; total = h.total }

  call-IsHeld :
      (c : Call Client LoopbackPeer NetworkPeer) (s : State rpc) → IsHeld s → IsHeld (call c s)
  unfolding call set_resolve_hold_enabled
  call-IsHeld (on_target c) s h = call_target-Keeps IsHeld IsHeld-Unrelated c s h
  call-IsHeld (new_capability client fulfiller) s h =
      (new_promise_capability-IsHeld rpc client fulfiller).after s h
  call-IsHeld (fulfill id target) s h = (promise_capability_fulfill-IsHeld rpc id target).after s h
  call-IsHeld (reject id tag message detail) s h =
      (promise_capability_reject-IsHeld rpc id tag message detail).after s h
  call-IsHeld (release_fulfiller id) s h = (promise_capability_release-IsHeld rpc id).after s h
  call-IsHeld flush_held s h = (flush-IsHeld rpc).after s h
  call-IsHeld (set_hold enabled) s h = record { same = h.same; once = h.once; pending = h.pending }

  nothing_made : (f n : ℕ) (s : State rpc) → Accounted f n s → Accounted f (n + 0) s
  nothing_made f n s h = record { distinct = h.distinct; total = omega (arith, h.total) }

  call-Accounted :
      (f n : ℕ) (c : Call Client LoopbackPeer NetworkPeer) (s : State rpc)
      → Accounted f n s
      → Accounted f (n + made_by f c s) (call c s)
  unfolding call set_resolve_hold_enabled
  call-Accounted f n (on_target c) s h =
      nothing_made f n _ (call_target-Keeps (Accounted f n) (Accounted-Unrelated f n) c s h)
  call-Accounted f n (new_capability client fulfiller) s h =
      new_promise_capability-Accounted rpc f n fulfiller client s h
  call-Accounted f n (fulfill id target) s h =
      nothing_made f n _ ((promise_capability_fulfill-Accounted rpc f n id target).after s h)
  call-Accounted f n (reject id tag message detail) s h =
      nothing_made f n _
        ((promise_capability_reject-Accounted rpc f n id tag message detail).after s h)
  call-Accounted f n (release_fulfiller id) s h =
      nothing_made f n _ ((promise_capability_release-Accounted rpc f n id).after s h)
  call-Accounted f n flush_held s h = nothing_made f n _ ((flush-Accounted rpc f n).after s h)
  call-Accounted f n (set_hold enabled) s h =
      nothing_made f n _ (record { distinct = h.distinct; total = h.total })

  -- Whatever is called of the operations on targets, their peers and promise capabilities, new ones
  -- included, and however the calls end, the queue of held resolves and the set of their ids agree if
  -- they agreed before: the same ids, none twice in the queue, each of a promise capability that is
  -- still pending.
  pub run-IsHeld :
      (calls : List (Call Client LoopbackPeer NetworkPeer)) (s : State rpc)
      → IsHeld s
      → IsHeld (run calls s)
  unfolding run
  run-IsHeld [] s h = h
  run-IsHeld (c ∷ calls) s h = run-IsHeld calls (call c s) (call-IsHeld c s h)

  -- In a state whose table of promise capabilities has one entry for each id: whatever is called of
  -- the operations on targets, their peers and promise capabilities, and however the calls end, the
  -- table stays so, and the calls of a fulfiller so far and the pending promise capabilities that have
  -- it go up in number, together, by the promise capabilities that are made with it and by no more: it
  -- is called just when one of them is taken out, so never more often than it was put in.
  pub run-Accounted :
      (f n : ℕ) (calls : List (Call Client LoopbackPeer NetworkPeer)) (s : State rpc)
      → Accounted f n s
      → Accounted f (n + made f calls s) (run calls s)
  unfolding run made
  run-Accounted f n [] s h = nothing_made f n s h
  run-Accounted f n (c ∷ calls) s h =
      subst (λ k. Accounted f k (run calls (call c s))) (omega arith)
        (run-Accounted f (n + made_by f c s) calls (call c s) (call-Accounted f n c s h))
