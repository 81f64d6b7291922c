-- ===== src/MultiVats/SturdyRefs.antt =====
-- ffi/rpc_bridge_runtime.cpp: the sturdy refs that a peer publishes under object ids, and restorers.
-- An object id is the bytes that `sturdyObjectKey` makes a string of.
use lean_capnproto.Prelude.{ℕ, ◌%◌, ◌^◌, Bool, Option, none, some, List, [], ◌∷◌, length}
use lean_capnproto.Prelude.Exec.{returns, throws, throw, ◌>>=◌, ◌>>◌}
use lean_capnproto.Prelude.Table.{find, erase, assign}
use lean_capnproto.Prelude.Dict.{lookup, put, delete}
use lean_capnproto.Targets.{unknown_target, add_target, retain_target}
use lean_capnproto.Vats.{LeanVatId}
use lean_capnproto.MultiVats.{
  Systems, HostRefs, Runtime, MultiVatPeer, Op, no_refs_for_id, no_refs_for_host, unknown_object,
  restorer_failed, out_of_range, target_error, on_targets, require_multi_vat_peer,
  require_multi_vat_peer_by_host,
}

abbrev pub or_empty_refs : {C : Type 0} → Option (HostRefs C) → HostRefs C
or_empty_refs none = []
or_empty_refs (some refs) = refs

module _ (systems : Systems) where
  open systems use {rpc, restore}

  unfoldable pub set_peer : ℕ → MultiVatPeer systems → Runtime systems → Runtime systems
  set_peer id peer s = record s { multi_vat_peers = assign id peer s.multi_vat_peers }

  -- `lean_dec` of the old restorer, if there is one
  unfoldable pub drop_restorer : Option ℕ → Runtime systems → Runtime systems
  drop_restorer none s = s
  drop_restorer (some restorer) s = record s { released = restorer ∷ s.released }

  unfoldable pub multi_vat_set_restorer : ℕ → ℕ → Op systems (Unit {0})
  unfolding set_peer drop_restorer
  multi_vat_set_restorer id restorer = do
    peer ← require_multi_vat_peer systems id
    λ s. (
      returns tt,
      set_peer id (record peer { sturdy_ref_restorer = some restorer })
          (drop_restorer peer.sturdy_ref_restorer s),
    )

  unfoldable pub multi_vat_clear_restorer : ℕ → Op systems (Unit {0})
  unfolding set_peer drop_restorer
  multi_vat_clear_restorer id = do
    peer ← require_multi_vat_peer systems id
    λ s. (
      returns tt,
      set_peer id (record peer { sturdy_ref_restorer = none })
          (drop_restorer peer.sturdy_ref_restorer s),
    )

  unfoldable pub set_refs : ℕ → HostRefs rpc.Client → Runtime systems → Runtime systems
  set_refs id refs s = record s { sturdy_refs = assign id refs s.sturdy_refs }

  unfoldable pub publish_target : ℕ → List ℕ → ℕ → Option rpc.Client → Op systems (Unit {0})
  unfolding set_refs
  publish_target id object target none s = (throws (target_error (unknown_target target)), s)
  publish_target id object target (some cap) s =
      (returns tt, set_refs id (put object cap (or_empty_refs (find id s.sturdy_refs))) s)

  unfoldable pub multi_vat_publish_sturdy_ref : ℕ → List ℕ → ℕ → Op systems (Unit {0})
  unfolding publish_target
  multi_vat_publish_sturdy_ref id object target = do
    require_multi_vat_peer systems id
    λ s. publish_target id object target (find target s.targets.targets) s

  -- A host without any sturdy refs has no entry.
  unfoldable pub put_or_drop : ℕ → HostRefs rpc.Client → Runtime systems → Runtime systems
  unfolding set_refs
  put_or_drop id [] s = record s { sturdy_refs = erase id s.sturdy_refs }
  put_or_drop id (r ∷ refs) s = set_refs id (r ∷ refs) s

  unfoldable pub unpublish_ref :
      ℕ → List ℕ → HostRefs rpc.Client → Option rpc.Client → Op systems (Unit {0})
  unfolding put_or_drop
  unpublish_ref id object refs none s = (throws unknown_object, s)
  unpublish_ref id object refs (some _) s = (returns tt, put_or_drop id (delete object refs) s)

  unfoldable pub unpublish_from : ℕ → List ℕ → Option (HostRefs rpc.Client) → Op systems (Unit {0})
  unfolding unpublish_ref
  unpublish_from id object none s = (throws (no_refs_for_id id), s)
  unpublish_from id object (some refs) s = unpublish_ref id object refs (lookup object refs) s

  unfoldable pub multi_vat_unpublish_sturdy_ref : ℕ → List ℕ → Op systems (Unit {0})
  unfolding unpublish_from
  multi_vat_unpublish_sturdy_ref id object = do
    require_multi_vat_peer systems id
    λ s. unpublish_from id object (find id s.sturdy_refs) s

  unfoldable pub multi_vat_clear_published_sturdy_refs : ℕ → Op systems (Unit {0})
  multi_vat_clear_published_sturdy_refs id = do
    require_multi_vat_peer systems id
    λ s. (returns tt, record s { sturdy_refs = erase id s.sturdy_refs })

  unfoldable multi_vat_published_sturdy_ref_count : ℕ → Op systems ℕ
  multi_vat_published_sturdy_ref_count id = do
    require_multi_vat_peer systems id
    λ s. (returns (length (or_empty_refs (find id s.sturdy_refs)) % 2 ^ 64), s)

  unfoldable pub restore_ref : Option rpc.Client → Op systems ℕ
  unfolding on_targets
  restore_ref none = throw unknown_object
  restore_ref (some cap) = on_targets systems (add_target rpc cap)

  unfoldable pub restore_from : List ℕ → List ℕ → Option (HostRefs rpc.Client) → Op systems ℕ
  unfolding restore_ref
  restore_from name object none = throw (no_refs_for_host name)
  restore_from name object (some refs) = restore_ref (lookup object refs)

  -- `multiVatPeerIdsByName_.at(host.name)` throws where the name is missing.
  unfoldable pub restore_at : List ℕ → List ℕ → Option ℕ → Op systems ℕ
  unfolding restore_from
  restore_at name object none s = (throws out_of_range, s)
  restore_at name object (some id) s = restore_from name object (find id s.sturdy_refs) s

  -- What the restorer returns is retained.
  unfoldable pub retain_restored : Option ℕ → Op systems ℕ
  unfolding on_targets
  retain_restored none = throw restorer_failed
  retain_restored (some target) = on_targets systems (retain_target rpc target)

  unfoldable pub restore_by :
      Option ℕ → List ℕ → MultiVatPeer systems → Bool → List ℕ → Op systems ℕ
  unfolding restore_at retain_restored
  restore_by (some restorer) source host unique object s =
      retain_restored (restore restorer source unique object) s
  restore_by none source host unique object s =
      restore_at host.name object (lookup host.name s.multi_vat_peer_ids_by_name) s

  unfoldable pub multi_vat_restore_sturdy_ref : ℕ → LeanVatId → List ℕ → Op systems ℕ
  unfolding restore_by
  multi_vat_restore_sturdy_ref source_id host_vat_id object = do
    source ← require_multi_vat_peer systems source_id
    host ← require_multi_vat_peer_by_host systems host_vat_id.host
    restore_by host.sturdy_ref_restorer source.name host host_vat_id.unique object
