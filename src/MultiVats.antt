-- ===== src/MultiVats.antt =====
-- ffi/rpc_bridge_runtime.cpp, class RuntimeLoop: the peers of a network of vats, which Lean holds by
-- number and which are found by their name too. It runs on the worker thread. The RPC systems of
-- Cap'n Proto and the restorers of Lean are a parameter (`Systems`).
pub mod Connections
pub mod SturdyRefs
pub mod Published
pub mod Kept
pub mod Untouched
pub mod Requested
pub mod Others
pub mod Restored
use lean_capnproto.Prelude.{
  ℕ, ◌+◌, ◌^◌, Bool, true, false, Option, none, some, List, [], ◌∷◌, length,
}
use lean_capnproto.Prelude.Exec.{Exec, Outcome, returns, throws, loops, pure, ◌>>=◌, ◌>>◌}
use lean_capnproto.Prelude.Table.{Table, find, contains, erase, assign}
use lean_capnproto.Prelude.Dict.{Dict, lookup, put, delete}
use lean_capnproto.Prelude.Alloc.{allocate}
use lean_capnproto.Targets.{Rpc, State, TargetError, unknown_target, add_target}
use lean_capnproto.Vats.{LeanVatId, HostIdMessage, set_lean_vat_id, VatIo, Network, VatError, add}

-- What the program uses beside the network: RPC systems over a vat, their bootstrap capabilities, and
-- the restorer of Lean, which has no result where it fails.
pub record Systems : Type 1 where
  pub rpc : Rpc
  pub io : VatIo
  pub System : Type 0
  pub make_client : ℕ → System
  pub make_server : ℕ → rpc.Client → System
  pub bootstrap : System → HostIdMessage → rpc.Client
  pub restore : ℕ → List ℕ → Bool → List ℕ → Option ℕ

-- `std::unordered_map` of the sturdy refs of one host, by object
abbrev pub HostRefs : Type 0 → Type 0
HostRefs C = Dict C

module _ (systems : Systems) where
  open systems use {rpc, io, System, make_client, make_server, bootstrap}

  pub record MultiVatPeer : Type 0 where
    pub name : List ℕ
    pub vat : ℕ
    pub rpc_system : System
    pub sturdy_ref_restorer : Option ℕ

  -- The members of the class that these operations use. `released` are the restorers given back.
  pub record Runtime : Type 0 where
    pub targets : State rpc
    pub generic_vat_network : Network io
    pub multi_vat_peers : Table MultiVatPeer
    pub next_multi_vat_peer_id : ℕ
    pub multi_vat_peer_ids_by_name : Dict ℕ
    pub sturdy_refs : Table (HostRefs rpc.Client)
    pub released : List ℕ

  pub data MultiVatError : Type 0 where
    unknown_peer no_refs_for_id : ℕ → MultiVatError
    unknown_host no_refs_for_host : List ℕ → MultiVatError
    no_connection : List ℕ → List ℕ → MultiVatError
    unknown_object restorer_failed out_of_range : MultiVatError
    target_error : TargetError → MultiVatError
    vat_error : VatError io → MultiVatError

  abbrev pub Op : Type 0 → Type 0
  Op A = Exec Runtime MultiVatError A

  unfoldable pub lift : {A E : Type 0} → (E → MultiVatError) → Outcome E A → Outcome MultiVatError A
  lift f (returns a) = returns a
  lift f (throws e) = throws (f e)
  lift f loops = loops

  -- An operation on the targets, or on the network.
  unfoldable pub on_targets : {A : Type 0} → Exec (State rpc) TargetError A → Op A
  unfolding lift
  on_targets m s = (lift target_error (m s.targets).0, record s { targets = (m s.targets).1 })

  unfoldable pub on_network : {A : Type 0} → Exec (Network io) (VatError io) A → Op A
  unfolding lift
  on_network m s = (
    lift vat_error (m s.generic_vat_network).0,
    record s { generic_vat_network = (m s.generic_vat_network).1 },
  )

  unfoldable add_peer_as : MultiVatPeer → Option (ℕ × ℕ) → Op ℕ
  add_peer_as peer none s = (loops, s)
  add_peer_as peer (some (id, next)) s = (
    returns id,
    record s {
      next_multi_vat_peer_id = next;
      multi_vat_peer_ids_by_name = put peer.name id s.multi_vat_peer_ids_by_name;
      multi_vat_peers = assign id peer s.multi_vat_peers;
    },
  )

  unfoldable add_multi_vat_peer : MultiVatPeer → Op ℕ
  unfolding add_peer_as
  add_multi_vat_peer peer s =
      add_peer_as peer
        (allocate (2 ^ 32) (λ i. contains i s.multi_vat_peers) (length s.multi_vat_peers + 1)
          s.next_multi_vat_peer_id)
        s

  unfoldable pub peer_found : ℕ → Option MultiVatPeer → Op MultiVatPeer
  peer_found id none s = (throws (unknown_peer id), s)
  peer_found id (some peer) s = (returns peer, s)

  unfoldable pub require_multi_vat_peer : ℕ → Op MultiVatPeer
  unfolding peer_found
  require_multi_vat_peer id s = peer_found id (find id s.multi_vat_peers) s

  unfoldable pub host_found : List ℕ → Option ℕ → Op MultiVatPeer
  unfolding require_multi_vat_peer
  host_found host none s = (throws (unknown_host host), s)
  host_found host (some id) s = require_multi_vat_peer id s

  unfoldable pub require_multi_vat_peer_by_host : List ℕ → Op MultiVatPeer
  unfolding host_found
  require_multi_vat_peer_by_host host s =
      host_found host (lookup host s.multi_vat_peer_ids_by_name) s

  abbrev new_peer : List ℕ → ℕ → System → MultiVatPeer
  new_peer name vat system = record {
    name = name;
    vat = vat;
    rpc_system = system;
    sturdy_ref_restorer = none;
  }

  unfoldable new_multi_vat_client : List ℕ → Op ℕ
  unfolding on_network add_multi_vat_peer
  new_multi_vat_client name = do
    vat ← on_network (add io name)
    add_multi_vat_peer (new_peer name vat (make_client vat))

  unfoldable server_for : List ℕ → ℕ → Option rpc.Client → Op ℕ
  unfolding on_network add_multi_vat_peer
  server_for name bootstrap_target none s =
      (throws (target_error (unknown_target bootstrap_target)), s)
  server_for name bootstrap_target (some cap) s =
      (do
        vat ← on_network (add io name)
        add_multi_vat_peer (new_peer name vat (make_server vat cap)))
        s

  unfoldable new_multi_vat_server : List ℕ → ℕ → Op ℕ
  unfolding server_for
  new_multi_vat_server name bootstrap_target s =
      server_for name bootstrap_target (find bootstrap_target s.targets.targets) s

  unfoldable release_peer : ℕ → MultiVatPeer → Op (Unit {0})
  release_peer id peer s = (
    returns tt,
    record s {
      multi_vat_peer_ids_by_name = delete peer.name s.multi_vat_peer_ids_by_name;
      sturdy_refs = erase id s.sturdy_refs;
      multi_vat_peers = erase id s.multi_vat_peers;
    },
  )

  unfoldable release_multi_vat_peer : ℕ → Op (Unit {0})
  unfolding release_peer
  release_multi_vat_peer id = do peer ← require_multi_vat_peer id; release_peer id peer

  unfoldable pub multi_vat_bootstrap : ℕ → LeanVatId → Op ℕ
  unfolding on_targets
  multi_vat_bootstrap source_id vat_id = do
    source ← require_multi_vat_peer source_id
    on_targets (add_target rpc (bootstrap source.rpc_system (set_lean_vat_id vat_id)))

  unfoldable multi_vat_bootstrap_peer : ℕ → ℕ → Bool → Op ℕ
  unfolding multi_vat_bootstrap
  multi_vat_bootstrap_peer source_id target_id unique = do
    target ← require_multi_vat_peer target_id
    multi_vat_bootstrap source_id (record { host = target.name; unique = unique })
