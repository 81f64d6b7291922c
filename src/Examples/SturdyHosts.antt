-- ===== src/Examples/SturdyHosts.antt =====
-- The theorem on sturdy refs, at a runtime with two peers, a host and a guest.
use lean_capnproto.Prelude.{ℕ, ◌≡◌, arith, refl, false, none, length, List, [], ◌∷◌, codes}
use lean_capnproto.Prelude.Table.{find, assign, erase, contains}
use lean_capnproto.Prelude.Alloc.{allocate}
use lean_capnproto.Prelude.Dict.{lookup, put, delete}
use lean_capnproto.MultiVats.{
  Systems, Runtime, MultiVatPeer, require_multi_vat_peer, peer_found,
  require_multi_vat_peer_by_host, host_found, on_targets, lift,
}
use lean_capnproto.Targets.{add_target}
use lean_capnproto.Prelude.Exec.{returns}
use lean_capnproto.MultiVats.SturdyRefs.{
  multi_vat_publish_sturdy_ref, publish_target, set_refs, multi_vat_unpublish_sturdy_ref,
  unpublish_from, unpublish_ref, put_or_drop, multi_vat_restore_sturdy_ref, restore_by, restore_at,
  restore_from, restore_ref,
}
use lean_capnproto.MultiVats.Others.{Other, publish, unpublish, restore, others, other}
use lean_capnproto.MultiVats.Restored.{Serves, HasRoom, later, publish-Restores}
use lean_capnproto.Vats.Events.{fresh_network}
use lean_capnproto.Examples.Queues.{plain_rpc, one_target}
use lean_capnproto.Examples.VatRuns.{list_io}

-- A system is known by its vat, and all have one bootstrap capability.
abbrev numbered_systems : Systems
numbered_systems = record {
  rpc = plain_rpc;
  io = list_io;
  System = ℕ;
  make_client = λ vat. vat;
  make_server = λ vat _. vat;
  bootstrap = λ system _. 70;
  restore = λ _ _ _ _. none;
}

abbrev peer_named : List ℕ → MultiVatPeer numbered_systems
peer_named name = record { name = name; vat = 0; rpc_system = 0; sturdy_ref_restorer = none }

abbrev two_peers : Runtime numbered_systems
two_peers = record {
  targets = one_target;
  generic_vat_network = fresh_network list_io;
  multi_vat_peers = (1, peer_named (codes "host")) ∷ (2, peer_named (codes "guest")) ∷ [];
  next_multi_vat_peer_id = 3;
  multi_vat_peer_ids_by_name = (codes "host", 1) ∷ (codes "guest", 2) ∷ [];
  sturdy_refs = (1, (codes "other", 60) ∷ []) ∷ [];
  released = [];
}

-- The host publishes the same target again, and the guest restores that.
abbrev meanwhile : List (Other numbered_systems)
meanwhile =
    publish 1 (codes "more") 1
    ∷ restore 2 (record { host = codes "host"; unique = false }) (codes "more")
    ∷ unpublish 1 (codes "more")
    ∷ []

-- The restored target is the second one.
meanwhile_targets :
    ((later numbered_systems 1 (codes "object") 1 meanwhile two_peers).targets.next_target_id ≡ 3)
    × (length (later numbered_systems 1 (codes "object") 1 meanwhile two_peers).targets.targets ≡ 2)
unfolding find lookup put delete assign erase contains allocate others other
    multi_vat_publish_sturdy_ref publish_target set_refs require_multi_vat_peer peer_found
    multi_vat_unpublish_sturdy_ref unpublish_from unpublish_ref put_or_drop
    multi_vat_restore_sturdy_ref require_multi_vat_peer_by_host host_found restore_by restore_at
    restore_from restore_ref on_targets lift add_target
meanwhile_targets = (refl, refl)

meanwhile-HasRoom :
    HasRoom numbered_systems (later numbered_systems 1 (codes "object") 1 meanwhile two_peers)
meanwhile-HasRoom = record {
  counter = omega (arith, meanwhile_targets.0);
  targets = omega (arith, meanwhile_targets.1);
}

publish-Restores_example :
    ((multi_vat_publish_sturdy_ref numbered_systems 1 (codes "object") 1 two_peers).0 ≡ returns tt)
    × Serves numbered_systems 2 1
        (record { host = codes "host"; unique = false })
        (codes "object")
        50
        (later numbered_systems 1 (codes "object") 1 meanwhile two_peers)
unfolding find lookup
publish-Restores_example =
    publish-Restores numbered_systems two_peers 2 1 1 (peer_named (codes "guest"))
      (peer_named (codes "host")) false (codes "object") 50 meanwhile refl refl refl refl refl
      (refl, (tt, (refl, tt))) meanwhile-HasRoom
