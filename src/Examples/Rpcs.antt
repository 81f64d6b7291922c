-- ===== src/Examples/Rpcs.antt =====
-- ffi/rpc_bridge_runtime.cpp: a runtime with two targets and two promise capabilities.
use lean_capnproto.Prelude.{ℕ, ◌+◌, refl, true, List, [], ◌∷◌, arith}
use lean_capnproto.Prelude.Table.{find, contains, elem}
use lean_capnproto.Prelude.Table.Weight.{weight}
use lean_capnproto.Targets.{
  PeerTable, Rpc, State, HeldResolve, PendingPromiseCapability, unknown_target,
  retain_peer_ownership, open_peer, release_targets,
}
use lean_capnproto.Targets.Peers.{IsCounted, retain_peer_ownership-IsCounted, open_peer-IsCounted}
use lean_capnproto.Targets.Lifetimes.{IsWell, release_targets-IsWell}
use lean_capnproto.Prelude.Exec.Keeps.{Keeps}
use lean_capnproto.Targets.Resolves.{check_fulfill}
use lean_capnproto.Targets.Resolves.Held.{IsHeld}
use lean_capnproto.Targets.Resolves.Flush.{FlushesAll, flush_held_promise_capability_resolves_lem}
use lean_capnproto.Targets.Resolves.Stops.{FlushStops, flush_held_promise_capability_resolves_stops}
use lean_capnproto.Targets.Resolves.Settled.{Accounted}
use lean_capnproto.Targets.Calls.{
  Call, on_target, add_loopback, release, new_capability, run, made, fulfill, flush_held, reject,
  run-IsHeld, run-Accounted,
}

-- Capabilities and peers that are known by number.
abbrev numbered : Rpc
numbered = record { Client = ℕ; LoopbackPeer = ℕ; NetworkPeer = ℕ }

abbrev no_peers : PeerTable ℕ
no_peers = record { peers = []; owner_by_target = []; owner_ref_count = [] }

-- Peer 1 has one target, number 1.
abbrev one_peer : PeerTable ℕ
one_peer = record {
  peers = (1, 70) ∷ [];
  owner_by_target = (1, 1) ∷ [];
  owner_ref_count = (1, 1) ∷ [];
}

one_peer-IsCounted : IsCounted one_peer
unfolding find contains weight
one_peer-IsCounted = record {
  distinct = (refl, tt);
  counts = λ o. ground arith;
  kept = λ o. ground arith;
}

retain_peer_ownership-IsCounted_example : IsCounted (retain_peer_ownership 1 2 one_peer)
unfolding contains
retain_peer_ownership-IsCounted_example =
    retain_peer_ownership-IsCounted 1 2 one_peer one_peer-IsCounted refl (omega arith)

open_peer-IsCounted_example : IsCounted (open_peer 2 71 one_peer)
unfolding contains
open_peer-IsCounted_example = open_peer-IsCounted 2 71 one_peer one_peer-IsCounted refl refl

abbrev capability : ℕ → ℕ → PendingPromiseCapability
capability f target = record { fulfiller = f; promise_target = target }

abbrev request : ℕ → ℕ → HeldResolve
request id target = record { fulfiller_id = id; target = target }

-- Targets 1 and 2; promise capabilities 1 and 2, whose resolves to target 1 and to `target` are held.
abbrev two_held : ℕ → State numbered
two_held target = record {
  targets = (1, 50) ∷ (2, 51) ∷ [];
  next_target_id = 3;
  loopback = one_peer;
  network = no_peers;
  fulfillers = (1, capability 90 2) ∷ (2, capability 91 2) ∷ [];
  next_fulfiller_id = 3;
  held_resolves = request 1 1 ∷ request 2 target ∷ [];
  held_ids = 1 ∷ 2 ∷ [];
  hold_resolves = true;
  settlements = [];
}

two_held-IsHeld : (target : ℕ) → IsHeld (two_held target)
unfolding elem contains
two_held-IsHeld target = record {
  same = λ i. refl;
  once = (refl, (refl, tt));
  pending = λ i h. ground arith;
}

release_targets-IsWell_example :
    Keeps (IsWell numbered) (release_targets numbered (1 ∷ 0 ∷ 9 ∷ 2 ∷ []))
release_targets-IsWell_example = release_targets-IsWell numbered (1 ∷ 0 ∷ 9 ∷ 2 ∷ [])

flush_held_promise_capability_resolves_lem_example :
    FlushesAll numbered ((capability 90 2, 50) ∷ (capability 91 2, 50) ∷ []) (two_held 1)
unfolding find check_fulfill
flush_held_promise_capability_resolves_lem_example =
    flush_held_promise_capability_resolves_lem numbered
      ((capability 90 2, 50) ∷ (capability 91 2, 50) ∷ []) (two_held 1) (two_held-IsHeld 1)
      (refl, (refl, tt))

flush_held_promise_capability_resolves_stops_example :
    FlushStops numbered
      ((capability 90 2, 50) ∷ [])
      (request 2 3)
      []
      (unknown_target 3)
      (two_held 3)
unfolding find check_fulfill
flush_held_promise_capability_resolves_stops_example =
    flush_held_promise_capability_resolves_stops numbered (request 1 1 ∷ [])
      ((capability 90 2, 50) ∷ []) (request 2 3) [] (unknown_target 3) (two_held 3)
      (two_held-IsHeld 3) refl (refl, tt) refl

two_held-Accounted : Accounted 90 1 (two_held 1)
unfolding contains weight
two_held-Accounted = record { distinct = (refl, (refl, tt)); total = refl }

abbrev calls : List (Call ℕ ℕ ℕ)
calls =
    on_target (add_loopback 52 71)
    ∷ new_capability 53 90
    ∷ fulfill 1 1
    ∷ flush_held
    ∷ reject 2 0 [] []
    ∷ on_target (release 1)
    ∷ []

run-IsHeld_example : IsHeld (run numbered calls (two_held 3))
run-IsHeld_example = run-IsHeld numbered calls (two_held 3) (two_held-IsHeld 3)

run-Accounted_example :
    Accounted 90 (1 + made numbered 90 calls (two_held 1)) (run numbered calls (two_held 1))
run-Accounted_example = run-Accounted numbered 90 1 calls (two_held 1) two_held-Accounted
