-- ===== src/MultiVats/Requested.antt =====
-- ffi/rpc_bridge_runtime.cpp: what requests about one sturdy ref come to, where their lookups succeed.
use lean_capnproto.Prelude.{
  ℕ, ◌≡◌, refl, ap, ◌∙◌, arith, Bool, ◌&&◌, Option, none, some, List, ◌==◌, same, if◌then◌else◌,
}
use lean_capnproto.Prelude.Exec.{continue, returns, throws}
use lean_capnproto.Prelude.Table.{find}
use lean_capnproto.Prelude.Dict.{lookup, delete, lookup-delete}
use lean_capnproto.Targets.{add_target}
use lean_capnproto.MultiVats.{
  Systems, HostRefs, Runtime, MultiVatPeer, MultiVatError, Op, unknown_object, no_refs_for_host,
  on_targets, host_found, require_multi_vat_peer_by_host,
}
use lean_capnproto.MultiVats.SturdyRefs.{
  publish_target, multi_vat_publish_sturdy_ref, put_or_drop, unpublish_ref, unpublish_from,
  multi_vat_unpublish_sturdy_ref, restore_ref, restore_from, restore_at, restore_by,
  multi_vat_restore_sturdy_ref,
}
use lean_capnproto.MultiVats.Published.{
  in_refs, published, require_found, after_require, with_published, published-put_or_drop,
}

module _ (systems : Systems) where
  open systems use {rpc}

  pub restore_published :
      (name object : List ℕ) (o : Option (HostRefs rpc.Client)) (cap : rpc.Client)
      → in_refs systems object o ≡ some cap
      → restore_from systems name object o ≡ on_targets systems (add_target rpc cap)
  unfolding restore_from restore_ref
  restore_published name object none c e = absurd (ground (arith, e))
  restore_published name object (some refs) c e = ap (restore_ref systems) e

  pub restore_unpublished :
      (name object : List ℕ) (o : Option (HostRefs rpc.Client)) (s : Runtime systems)
      → in_refs systems object o ≡ none
      → (e : MultiVatError systems) × (restore_from systems name object o s ≡ (throws e, s))
  unfolding restore_from restore_ref
  restore_unpublished name object none s e = (no_refs_for_host name, refl)
  restore_unpublished name object (some refs) s e =
      (unknown_object, ap (λ c. restore_ref systems c s) e)

  -- Two peers, `host` of them without a restorer and found by its name.
  module _ (s : Runtime systems) (source id : ℕ) (from host : MultiVatPeer systems)
      (has_source : find source s.multi_vat_peers ≡ some from)
      (has_host : find id s.multi_vat_peers ≡ some host)
      (named : lookup host.name s.multi_vat_peer_ids_by_name ≡ some id)
      (plain : host.sturdy_ref_restorer ≡ none) where
    by_host_found : require_multi_vat_peer_by_host systems host.name s ≡ (returns host, s)
    unfolding require_multi_vat_peer_by_host host_found
    by_host_found =
        ap (λ o. host_found systems host.name o s) named ∙ require_found systems s id host has_host

    pub restore_here :
        (unique : Bool) (object : List ℕ)
        → multi_vat_restore_sturdy_ref systems source
            (record { host = host.name; unique = unique })
            object
            s
          ≡ restore_from systems host.name object (find id s.sturdy_refs) s
    unfolding multi_vat_restore_sturdy_ref restore_by restore_at
    restore_here unique object =
        let rest : MultiVatPeer systems → Op systems ℕ =
          λ p. restore_by systems p.sturdy_ref_restorer from.name p unique object in
        after_require systems s source from has_source _
        ∙ ap (λ r. continue r.0 rest r.1) by_host_found
        ∙ ap (λ o. restore_by systems o from.name host unique object s) plain
        ∙ ap (λ o. restore_at systems host.name object o s) named

  pub publish_found :
      (s : Runtime systems) (id target : ℕ) (object : List ℕ) (host : MultiVatPeer systems)
      → (cap : rpc.Client) → find id s.multi_vat_peers ≡ some host
      → find target s.targets.targets ≡ some cap
      → multi_vat_publish_sturdy_ref systems id object target s
        ≡ (returns tt, with_published systems id object cap s)
  unfolding multi_vat_publish_sturdy_ref publish_target
  publish_found s id target object host cap has_host live =
      after_require systems s id host has_host _
      ∙ ap (λ o. publish_target systems id object target o s) live

  module _ (s : Runtime systems) (id : ℕ) (object : List ℕ) (host : MultiVatPeer systems)
      (refs : HostRefs rpc.Client) (cap : rpc.Client)
      (has_host : find id s.multi_vat_peers ≡ some host)
      (has_refs : find id s.sturdy_refs ≡ some refs) (has_ref : lookup object refs ≡ some cap) where
    pub unpublish_found :
        multi_vat_unpublish_sturdy_ref systems id object s
        ≡ (returns tt, put_or_drop systems id (delete object refs) s)
    unfolding multi_vat_unpublish_sturdy_ref unpublish_from unpublish_ref
    unpublish_found =
        after_require systems s id host has_host _
        ∙ ap (λ o. unpublish_from systems id object o s) has_refs
        ∙ ap (λ o. unpublish_ref systems id object refs o s) has_ref

    pub published-unpublished :
        (i : ℕ) (o : List ℕ)
        → published systems (put_or_drop systems id (delete object refs) s) i o
          ≡ (if (id == i) && same object o then none else published systems s i o)
    unfolding published
    published-unpublished i o = ground (
      arith,
      published-put_or_drop systems s id (delete object refs) i o,
      lookup-delete object o refs,
    )
