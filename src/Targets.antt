-- ===== src/Targets.antt =====
-- ffi/rpc_bridge_runtime.cpp, class RuntimeLoop: the capabilities that Lean holds by number, the
-- connections that stay open as long as one of their targets does, and promise capabilities with
-- resolves that may be held back. All of it runs on the runtime's worker thread.
pub mod Peers
pub mod Resolves
pub mod Lifetimes
pub mod Apart
pub mod Calls
use lean_capnproto.Prelude.{
  ℕ, ◌+◌, ◌-◌, ◌%◌, ◌^◌, Bool, true, false, ◌||◌, Option, none, some, List, [], ◌∷◌, ◌++◌, ◌==◌,
  ltb, if◌then◌else◌, length, c_str,
}
use lean_capnproto.Prelude.Exec.{Exec, returns, throws, loops, pure, throw, ◌>>=◌, ◌>>◌}
use lean_capnproto.Prelude.Table.{Table, find, contains, erase, assign, elem, insert, remove}
use lean_capnproto.Prelude.Alloc.{allocate}

-- One of the two groups of members for peers, which are kept by the number of their first target:
-- the peers, the peer that each target belongs to and the number of targets that each peer has.
pub record PeerTable (P : Type 0) : Type 0 where
  pub peers : Table P
  pub owner_by_target : Table ℕ
  pub owner_ref_count : Table ℕ

-- `map.emplace(k, v)`
abbrev pub emplace : {V : Type 0} → ℕ → V → Table V → Table V
emplace k v t = if contains k t then t else assign k v t

-- The count is emplaced where it is missing, and goes up in any case.
pub count_up : ℕ → Table ℕ → Table ℕ
count_up owner counts = elim (find owner counts) [
  | none ↦ assign owner 2 counts
  | some n ↦ assign owner ((n + 1) % 2 ^ 32) counts
]

module _ {P : Type 0} where
  pub retain_peer_ownership : ℕ → ℕ → PeerTable P → PeerTable P
  unfolding count_up
  retain_peer_ownership source retained p = elim (find source p.owner_by_target) [
    | none ↦ p
    | some owner ↦ record p {
      owner_by_target = emplace retained owner p.owner_by_target;
      owner_ref_count = count_up owner p.owner_ref_count;
    }
  ]

  pub count_down : ℕ → PeerTable P → PeerTable P
  count_down owner p = elim (find owner p.owner_ref_count) [
    | none ↦ p
    | some n ↦
        if ltb 1 n
        then record p { owner_ref_count = assign owner (n - 1) p.owner_ref_count }
        else record p {
          owner_ref_count = erase owner p.owner_ref_count;
          peers = erase owner p.peers;
        }
  ]

  pub release_peer_ownership : ℕ → PeerTable P → PeerTable P
  unfolding count_down
  release_peer_ownership target p = elim (find target p.owner_by_target) [
    | none ↦ p
    | some owner ↦ count_down owner (record p { owner_by_target = erase target p.owner_by_target })
  ]

  -- The three calls of `emplace` for a new peer.
  pub open_peer : ℕ → P → PeerTable P → PeerTable P
  open_peer target peer p = record {
    peers = emplace target peer p.peers;
    owner_by_target = emplace target target p.owner_by_target;
    owner_ref_count = emplace target 1 p.owner_ref_count;
  }

-- kj::Exception::Type
pub data ExceptionType : Type 0 where
  failed overloaded disconnected unimplemented : ExceptionType

pub record RemoteException : Type 0 where
  pub kind : ExceptionType
  pub description : List ℕ
  pub detail : Option (List ℕ)

-- What a fulfiller of KJ is called with.
pub data Settlement (C : Type 0) : Type 0 where
  fulfilled : C → Settlement C
  rejected : RemoteException → Settlement C

-- PendingPromiseCapability; a fulfiller of KJ is known by its number.
pub record PendingPromiseCapability : Type 0 where
  pub fulfiller : ℕ
  pub promise_target : ℕ

-- HeldPromiseCapabilityResolve
pub record HeldResolve : Type 0 where
  pub fulfiller_id : ℕ
  pub target : ℕ

-- What the program uses of Cap'n Proto: its capabilities, and the two kinds of peers.
pub record Rpc : Type 1 where
  pub Client : Type 0
  pub LoopbackPeer : Type 0
  pub NetworkPeer : Type 0

-- The members of the class that these operations use, with the calls of fulfillers so far.
pub record State (rpc : Rpc) : Type 0 where
  pub targets : Table rpc.Client
  pub next_target_id : ℕ
  pub loopback : PeerTable rpc.LoopbackPeer
  pub network : PeerTable rpc.NetworkPeer
  pub fulfillers : Table PendingPromiseCapability
  pub next_fulfiller_id : ℕ
  pub held_resolves : List HeldResolve
  pub held_ids : List ℕ
  pub hold_resolves : Bool
  pub settlements : List (ℕ × Settlement rpc.Client)

pub data TargetError : Type 0 where
  unknown_target unknown_fulfiller : ℕ → TargetError
  null_target own_target held_already : TargetError

module _ (rpc : Rpc) where
  open rpc use {Client, LoopbackPeer, NetworkPeer}

  abbrev pub Op : Type 0 → Type 0
  Op A = Exec (State rpc) TargetError A

  unfoldable pub add_target : Client → Op ℕ
  add_target cap s =
      elim (allocate (2 ^ 32) (λ i. contains i s.targets) (length s.targets + 1) s.next_target_id) [
        | none ↦ (loops, s)
        | some (id, next) ↦
            (returns id, record s { targets = assign id cap s.targets; next_target_id = next })
      ]

  pub drop_target_if_present : ℕ → Op Bool
  unfolding release_peer_ownership
  drop_target_if_present target s = (
    returns (contains target s.targets),
    record s {
      targets = erase target s.targets;
      loopback = release_peer_ownership target s.loopback;
      network = release_peer_ownership target s.network;
    },
  )

  pub retain_owners : ℕ → ℕ → Op (Unit {0})
  retain_owners target retained s = (
    returns tt,
    record s {
      loopback = retain_peer_ownership target retained s.loopback;
      network = retain_peer_ownership target retained s.network;
    },
  )

  pub retain_found : ℕ → Client → Op ℕ
  unfolding retain_owners
  retain_found target cap = do
    retained ← add_target cap
    retain_owners target retained >> pure retained

  pub retain_target : ℕ → Op ℕ
  unfolding retain_found
  retain_target target s = elim (find target s.targets) [
    | none ↦ (throws (unknown_target target), s)
    | some cap ↦ retain_found target cap s
  ]

  pub release_target : ℕ → Op (Unit {0})
  unfolding drop_target_if_present
  release_target target = do
    dropped ← drop_target_if_present target
    if dropped then pure tt else throw (unknown_target target)

  pub release_targets : List ℕ → Op (Unit {0})
  unfolding release_target
  release_targets [] = pure tt
  release_targets (target ∷ targets) =
      (if target == 0 then pure tt else release_target target) >> release_targets targets

  pub drop_request_caps : List ℕ → Op (Unit {0})
  unfolding drop_target_if_present
  drop_request_caps [] = pure tt
  drop_request_caps (cap ∷ caps) = drop_target_if_present cap >> drop_request_caps caps

  -- The loop of both functions `dropRequestCapsExcept`; `keep` tells which capabilities stay.
  pub drop_caps_unless : (ℕ → Bool) → List ℕ → Op (Unit {0})
  unfolding drop_target_if_present
  drop_caps_unless keep [] = pure tt
  drop_caps_unless keep (cap ∷ caps) =
      (if keep cap then pure true else drop_target_if_present cap) >> drop_caps_unless keep caps

  pub drop_request_caps_except_all : List ℕ → List ℕ → Op (Unit {0})
  unfolding drop_request_caps drop_caps_unless
  drop_request_caps_except_all caps [] = drop_request_caps caps
  drop_request_caps_except_all caps (c ∷ kept) =
      drop_caps_unless (λ cap. elem cap (remove 0 (c ∷ kept))) caps

  pub drop_request_caps_except : List ℕ → ℕ → Op (Unit {0})
  unfolding drop_caps_unless
  drop_request_caps_except caps kept = drop_caps_unless (λ cap. cap == 0 || cap == kept) caps

  -- The end of `registerLoopbackTarget`, and of `connectTargetPeer`.
  pub add_loopback_peer : Client → LoopbackPeer → Op ℕ
  unfolding open_peer
  add_loopback_peer cap peer = do
    target ← add_target cap
    λ s. (returns target, record s { loopback = open_peer target peer s.loopback })

  pub add_network_peer : Client → NetworkPeer → Op ℕ
  unfolding open_peer
  add_network_peer cap peer = do
    target ← add_target cap
    λ s. (returns target, record s { network = open_peer target peer s.network })

  -- The loop of `serializeResponse` over the capability table; null capabilities count as 0.
  pub response_caps : List (Option Client) → Op (List ℕ)
  response_caps [] = pure []
  response_caps (none ∷ hooks) = do caps ← response_caps hooks; pure (0 ∷ caps)
  response_caps (some cap ∷ hooks) = do
    target ← add_target cap
    caps ← response_caps hooks
    pure (target ∷ caps)
