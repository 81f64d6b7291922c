-- ===== src/MultiVats/Others.antt =====
-- ffi/rpc_bridge_runtime.cpp: any sequence of operations that concern other sturdy refs, other hosts'
-- restorers or the targets, while one sturdy ref stays published.
use lean_capnproto.Prelude.{
  ℕ, ◌≡◌, refl, ap, arith, Bool, false, ◌&&◌, Option, none, some, List, [], ◌∷◌, ◌==◌, same, inl,
  inr, Option-cases, All,
}
use lean_capnproto.Prelude.Exec.Keeps.{Keeps, Keeps-bind, Keeps-throw}
use lean_capnproto.Prelude.Table.{find, find-erase}
use lean_capnproto.Prelude.Dict.{lookup}
use lean_capnproto.Targets.{add_target, retain_target}
use lean_capnproto.Vats.{LeanVatId, set_lean_vat_id}
use lean_capnproto.MultiVats.{
  Systems, HostRefs, Runtime, MultiVatPeer, peer_found, require_multi_vat_peer, host_found,
  require_multi_vat_peer_by_host, multi_vat_bootstrap, unknown_object, no_refs_for_host,
  restorer_failed,
}
use lean_capnproto.MultiVats.SturdyRefs.{
  multi_vat_set_restorer, multi_vat_clear_restorer, multi_vat_publish_sturdy_ref, unpublish_ref,
  unpublish_from, multi_vat_unpublish_sturdy_ref, multi_vat_clear_published_sturdy_refs,
  restore_ref, restore_from, restore_at, retain_restored, restore_by, multi_vat_restore_sturdy_ref,
}
use lean_capnproto.MultiVats.Published.{in_refs, published}
use lean_capnproto.MultiVats.Kept.{Holds, unmoved, require-Keeps, on_targets-Keeps}
use lean_capnproto.MultiVats.Untouched.{
  Safe, set_restorer-Keeps, clear_restorer-Keeps, publish-Keeps, unpublished_elsewhere,
}

module _ (systems : Systems) where
  open systems use {rpc}

  -- What may happen in between.
  pub data Other : Type 0 where
    publish : ℕ → List ℕ → ℕ → Other
    unpublish : ℕ → List ℕ → Other
    clear : ℕ → Other
    restore : ℕ → LeanVatId → List ℕ → Other
    bootstrap : ℕ → LeanVatId → Other
    set_restorer : ℕ → ℕ → Other
    clear_restorer : ℕ → Other

  unfoldable pub other : Other → Runtime systems → Runtime systems
  other (publish i o target) s = (multi_vat_publish_sturdy_ref systems i o target s).1
  other (unpublish i o) s = (multi_vat_unpublish_sturdy_ref systems i o s).1
  other (clear i) s = (multi_vat_clear_published_sturdy_refs systems i s).1
  other (restore i vat_id o) s = (multi_vat_restore_sturdy_ref systems i vat_id o s).1
  other (bootstrap i vat_id) s = (multi_vat_bootstrap systems i vat_id s).1
  other (set_restorer i restorer) s = (multi_vat_set_restorer systems i restorer s).1
  other (clear_restorer i) s = (multi_vat_clear_restorer systems i s).1

  -- It publishes and unpublishes other sturdy refs only, and gives the host no restorer.
  abbrev pub IsApart : ℕ → List ℕ → Other → Type 0
  IsApart id object (publish i o target) = (id == i && same object o) ≡ false
  IsApart id object (unpublish i o) = (id == i && same object o) ≡ false
  IsApart id object (clear i) = (id == i) ≡ false
  IsApart id object (set_restorer i restorer) = (id == i) ≡ false
  IsApart id object (restore i vat_id o) = Unit {0}
  IsApart id object (bootstrap i vat_id) = Unit {0}
  IsApart id object (clear_restorer i) = Unit {0}

  unfoldable pub others : List Other → Runtime systems → Runtime systems
  unfolding other
  others [] s = s
  others (e ∷ events) s = others events (other e s)

  module _ (source id : ℕ) (name object : List ℕ) (c : rpc.Client) where
    unpublish_ref-Keeps :
        (j : ℕ) (o : List ℕ) (refs : HostRefs rpc.Client) (r : Option rpc.Client)
        (s : Runtime systems)
        → find j s.sturdy_refs ≡ some refs
        → (id == j && same object o) ≡ false
        → (Safe systems source id name object c) s
        → (Safe systems source id name object c) (unpublish_ref systems j o refs r s).1
    unfolding unpublish_ref
    unpublish_ref-Keeps j o refs none s e apart h = h
    unpublish_ref-Keeps j o refs (some r) s e apart h =
        unpublished_elsewhere systems source id name object c j o refs s e apart h

    unpublish_from-Keeps :
        (j : ℕ) (o : List ℕ) (r : Option (HostRefs rpc.Client)) (s : Runtime systems)
        → find j s.sturdy_refs ≡ r
        → (id == j && same object o) ≡ false
        → (Safe systems source id name object c) s
        → (Safe systems source id name object c) (unpublish_from systems j o r s).1
    unfolding unpublish_from
    unpublish_from-Keeps j o none s e apart h = h
    unpublish_from-Keeps j o (some refs) s e apart h =
        unpublish_ref-Keeps j o refs (lookup o refs) s e apart h

    unpublish-Keeps :
        (j : ℕ) (o : List ℕ)
        → (id == j && same object o) ≡ false
        → Keeps (Safe systems source id name object c) (multi_vat_unpublish_sturdy_ref systems j o)
    unfolding multi_vat_unpublish_sturdy_ref
    unpublish-Keeps j o apart =
        require-Keeps systems source id name object c j _
          λ q s e h. unpublish_from-Keeps j o (find j s.sturdy_refs) s refl apart h

    clear-Keeps :
        (j : ℕ)
        → (id == j) ≡ false
        → Keeps
            (Safe systems source id name object c)
            (multi_vat_clear_published_sturdy_refs systems j)
    unfolding multi_vat_clear_published_sturdy_refs published
    clear-Keeps j apart = require-Keeps systems source id name object c j _ λ q s e h.
        unmoved systems source id name object c s _ refl refl
          (ap (in_refs systems object) (ground (arith, apart, find-erase j id s.sturdy_refs))) h

    restore_ref-Keeps :
        (r : Option rpc.Client)
        → Keeps (Safe systems source id name object c) (restore_ref systems r)
    unfolding restore_ref
    restore_ref-Keeps none = Keeps-throw unknown_object
    restore_ref-Keeps (some cap) =
        on_targets-Keeps systems source id name object c (add_target rpc cap)

    restore_from-Keeps :
        (n o : List ℕ) (r : Option (HostRefs rpc.Client))
        → Keeps (Safe systems source id name object c) (restore_from systems n o r)
    unfolding restore_from
    restore_from-Keeps n o none = Keeps-throw (no_refs_for_host n)
    restore_from-Keeps n o (some refs) = restore_ref-Keeps (lookup o refs)

    restore_at-Keeps :
        (n o : List ℕ) (i : Option ℕ)
        → Keeps (Safe systems source id name object c) (restore_at systems n o i)
    unfolding restore_at
    restore_at-Keeps n o none = record { after = λ s h. h }
    restore_at-Keeps n o (some i) = record {
      after = λ s h. (restore_from-Keeps n o (find i s.sturdy_refs)).after s h;
    }

    retain_restored-Keeps :
        (t : Option ℕ) → Keeps (Safe systems source id name object c) (retain_restored systems t)
    unfolding retain_restored
    retain_restored-Keeps none = Keeps-throw restorer_failed
    retain_restored-Keeps (some target) =
        on_targets-Keeps systems source id name object c (retain_target rpc target)

    restore_by-Keeps :
        (r : Option ℕ) (n : List ℕ) (p : MultiVatPeer systems) (unique : Bool) (o : List ℕ)
        → Keeps (Safe systems source id name object c) (restore_by systems r n p unique o)
    unfolding restore_by
    restore_by-Keeps none n p unique o = record {
      after =
          λ s h. (restore_at-Keeps p.name o (lookup p.name s.multi_vat_peer_ids_by_name)).after s h;
    }
    restore_by-Keeps (some r) n p unique o = record {
      after = λ s h. (retain_restored-Keeps (systems.restore r n unique o)).after s h;
    }

    by_host-Keeps :
        (n : List ℕ) (i : Option ℕ)
        → Keeps (Safe systems source id name object c) (host_found systems n i)
    unfolding host_found require_multi_vat_peer peer_found
    by_host-Keeps n none = record { after = λ s h. h }
    by_host-Keeps n (some i) = record {
      after = λ s h. elim (Option-cases (find i s.multi_vat_peers)) [
        | inl e ↦ rw (e, peer_found) h
        | inr (p, e) ↦ rw (e, peer_found) h
      ];
    }

    require_by_host-Keeps :
        (n : List ℕ)
        → Keeps (Safe systems source id name object c) (require_multi_vat_peer_by_host systems n)
    unfolding require_multi_vat_peer_by_host
    require_by_host-Keeps n = record {
      after = λ s h. (by_host-Keeps n (lookup n s.multi_vat_peer_ids_by_name)).after s h;
    }

    restore-Keeps :
        (j : ℕ) (vat_id : LeanVatId) (o : List ℕ)
        → Keeps
            (Safe systems source id name object c)
            (multi_vat_restore_sturdy_ref systems j vat_id o)
    unfolding multi_vat_restore_sturdy_ref
    restore-Keeps j vat_id o = require-Keeps systems source id name object c j _ λ q s e h.
        (Keeps-bind (require_by_host-Keeps vat_id.host)
            λ p. restore_by-Keeps p.sturdy_ref_restorer q.name p vat_id.unique o).after
          s h

    bootstrap-Keeps :
        (j : ℕ) (vat_id : LeanVatId)
        → Keeps (Safe systems source id name object c) (multi_vat_bootstrap systems j vat_id)
    unfolding multi_vat_bootstrap
    bootstrap-Keeps j vat_id = require-Keeps systems source id name object c j _ λ q s e h.
        (on_targets-Keeps systems source id name object c
            (add_target rpc (systems.bootstrap q.rpc_system (set_lean_vat_id vat_id)))).after
          s h

    other-Safe :
        (e : Other) (s : Runtime systems)
        → IsApart id object e
        → (Safe systems source id name object c) s
        → (Safe systems source id name object c) (other e s)
    unfolding other
    other-Safe (publish i o target) s a h =
        (publish-Keeps systems source id name object c i o target a).after s h
    other-Safe (unpublish i o) s a h = (unpublish-Keeps i o a).after s h
    other-Safe (clear i) s a h = (clear-Keeps i a).after s h
    other-Safe (restore i vat_id o) s a h = (restore-Keeps i vat_id o).after s h
    other-Safe (bootstrap i vat_id) s a h = (bootstrap-Keeps i vat_id).after s h
    other-Safe (set_restorer i restorer) s a h =
        (set_restorer-Keeps systems source id name object c i restorer a).after s h
    other-Safe (clear_restorer i) s a h =
        (clear_restorer-Keeps systems source id name object c i).after s h

    pub others-Holds :
        (events : List Other) (s : Runtime systems)
        → All (IsApart id object) events
        → Holds systems source id name object c s
        → Holds systems source id name object c (others events s)
    unfolding others
    others-Holds [] s a h = h
    others-Holds (e ∷ events) s (a, rest) h =
        others-Holds events (other e s) rest (other-Safe e s a h)
