-- ===== src/Targets/Lifetimes.antt =====
-- ffi/rpc_bridge_runtime.cpp, class RuntimeLoop: retaining and releasing targets, with the peers that
-- they belong to.
use lean_capnproto.Prelude.{
  ℕ, ◌+◌, ◌^◌, ◌<◌, ◌≡◌, true, false, some, List, [], ◌∷◌, ◌==◌, arith, if◌then◌else◌, length,
}
use lean_capnproto.Prelude.Exec.{returns}
use lean_capnproto.Prelude.Exec.Keeps.{Keeps, Keeps-bind, Keeps-pure, Keeps-throw, Keeps-if}
use lean_capnproto.Prelude.Table.{Table, find, contains, erase, assign, contains-erase}
use lean_capnproto.Targets.{
  PeerTable, release_peer_ownership, Rpc, State, unknown_target, drop_target_if_present,
  retain_target, release_target, release_targets,
}
use lean_capnproto.Targets.Peers.{IsCounted, contains-release, release_peer_ownership-IsCounted}

-- Targets that belong to a peer are live.
abbrev OwnersLive : {P C : Type 0} → PeerTable P → Table C → Type 0
OwnersLive p targets = (i : ℕ) → contains i p.owner_by_target ≡ true → contains i targets ≡ true

module _ (rpc : Rpc) where
  open rpc use {Client, LoopbackPeer, NetworkPeer}

  pub record IsWell (s : State rpc) : Type 0 where
    pub loopback : IsCounted s.loopback
    pub network : IsCounted s.network
    pub loopback_live : OwnersLive s.loopback s.targets
    pub network_live : OwnersLive s.network s.targets

  -- Room for one more target: the counter is a `uint32_t`, and no table is full.
  pub record HasRoom (s : State rpc) : Type 0 where
    pub counter : s.next_target_id < 2 ^ 32
    pub targets : length s.targets < 2 ^ 32
    pub loopback : length s.loopback.owner_by_target + 1 < 2 ^ 32
    pub network : length s.network.owner_by_target + 1 < 2 ^ 32

released_live :
    {P C : Type 0} (target : ℕ) (p : PeerTable P) (targets : Table C)
    → OwnersLive p targets
    → OwnersLive (release_peer_ownership target p) (erase target targets)
released_live target p targets h i live =
    ground (arith, h i, contains-erase target i targets, contains-release target i p)

module _ (rpc : Rpc) where
  open rpc use {Client, LoopbackPeer, NetworkPeer}

  -- Dropping a target, live or not, keeps the state well-formed: each peer's count is the number of
  -- its targets, all of them live, and only peers with targets are kept.
  drop_target_if_present-IsWell :
      (target : ℕ) → Keeps (IsWell rpc) (drop_target_if_present rpc target)
  unfolding drop_target_if_present
  drop_target_if_present-IsWell target = record {
    after = λ s h. record {
      loopback = release_peer_ownership-IsCounted target s.loopback h.loopback;
      network = release_peer_ownership-IsCounted target s.network h.network;
      loopback_live = released_live target s.loopback s.targets h.loopback_live;
      network_live = released_live target s.network s.targets h.network_live;
    };
  }

  release_target-IsWell : (target : ℕ) → Keeps (IsWell rpc) (release_target rpc target)
  unfolding release_target
  release_target-IsWell target =
      Keeps-bind (drop_target_if_present-IsWell target)
        λ dropped. Keeps-if dropped (Keeps-pure tt) (Keeps-throw (unknown_target target))

  -- `releaseTargets` keeps the state well-formed, also where an unknown number makes it throw after
  -- some targets were released.
  pub release_targets-IsWell : (targets : List ℕ) → Keeps (IsWell rpc) (release_targets rpc targets)
  unfolding release_targets
  release_targets-IsWell [] = Keeps-pure tt
  release_targets-IsWell (target ∷ targets) =
      Keeps-bind (Keeps-if (target == 0) (Keeps-pure tt) (release_target-IsWell target))
        λ _. release_targets-IsWell targets

  abbrev added : Client → State rpc → ℕ × ℕ → State rpc
  added cap s r = record s { targets = assign r.0 cap s.targets; next_target_id = r.1 }

  -- The target has a new number beside its old one.
  abbrev pub RetainedAs : ℕ → Client → State rpc → Type 0
  RetainedAs target cap s =
      (id : ℕ) × (s' : State rpc) × (retain_target rpc target s ≡ (returns id, s'))
      × (contains id s.targets ≡ false)
      × (id < 2 ^ 32)
      × ((j : ℕ) → find j s'.targets ≡ (if id == j then some cap else find j s.targets))
      × IsWell rpc s'
