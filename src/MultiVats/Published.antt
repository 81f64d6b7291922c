-- ===== src/MultiVats/Published.antt =====
-- ffi/rpc_bridge_runtime.cpp: a sturdy ref can be restored from when it is published until it is
-- unpublished, and nothing else changes.
use lean_capnproto.Prelude.{
  ℕ, ◌≡◌, refl, ap, arith, ◌&&◌, Option, none, some, List, [], ◌∷◌, ◌==◌, same, if◌then◌else◌,
}
use lean_capnproto.Prelude.Exec.{continue, returns, ◌>>=◌}
use lean_capnproto.Prelude.Table.{find, find-assign, find-erase}
use lean_capnproto.Prelude.Dict.{lookup, put, lookup-put}
use lean_capnproto.MultiVats.{
  Systems, HostRefs, Runtime, MultiVatPeer, Op, peer_found, require_multi_vat_peer,
}
use lean_capnproto.MultiVats.SturdyRefs.{or_empty_refs, set_refs, put_or_drop}

module _ (systems : Systems) where
  open systems use {rpc}

  abbrev pub in_refs : List ℕ → Option (HostRefs rpc.Client) → Option rpc.Client
  in_refs object none = none
  in_refs object (some refs) = lookup object refs

  -- What is published for a host under an object id.
  unfoldable pub published : Runtime systems → ℕ → List ℕ → Option rpc.Client
  published s id object = in_refs object (find id s.sturdy_refs)

  module _ (s : Runtime systems) (id : ℕ) (peer : MultiVatPeer systems)
      (found : find id s.multi_vat_peers ≡ some peer) where
    pub require_found : require_multi_vat_peer systems id s ≡ (returns peer, s)
    unfolding require_multi_vat_peer peer_found
    require_found = ap (λ o. peer_found systems id o s) found

    pub after_require :
        {A : Type 0} (f : MultiVatPeer systems → Op systems A)
        → (require_multi_vat_peer systems id >>= f) s ≡ f peer s
    after_require f = ap (λ r. continue r.0 f r.1) require_found

  lookup-or_empty :
      (o : Option (HostRefs rpc.Client)) (object : List ℕ)
      → lookup object (or_empty_refs o) ≡ in_refs object o
  unfolding lookup
  lookup-or_empty none object = refl
  lookup-or_empty (some refs) object = refl

  abbrev pub with_published : ℕ → List ℕ → rpc.Client → Runtime systems → Runtime systems
  with_published id object cap s =
      set_refs systems id (put object cap (or_empty_refs (find id s.sturdy_refs))) s

  pub published-with_published :
      (s : Runtime systems) (id : ℕ) (object : List ℕ) (cap : rpc.Client) (i : ℕ) (o : List ℕ)
      → published (with_published id object cap s) i o
        ≡ (if (id == i) && same object o then some cap else published s i o)
  unfolding published set_refs
  published-with_published s id object cap i o =
      let refs = or_empty_refs (find id s.sturdy_refs) in
      ground (
        arith,
        find-assign id i (put object cap refs) s.sturdy_refs,
        lookup-put object o cap refs,
        lookup-or_empty (find id s.sturdy_refs) o,
      )

  pub published-put_or_drop :
      (s : Runtime systems) (id : ℕ) (refs : HostRefs rpc.Client) (i : ℕ) (o : List ℕ)
      → published (put_or_drop systems id refs s) i o
        ≡ (if id == i then lookup o refs else published s i o)
  unfolding published put_or_drop set_refs lookup
  published-put_or_drop s id [] i o = ground (arith, find-erase id i s.sturdy_refs)
  published-put_or_drop s id (r ∷ refs) i o =
      ground (arith, find-assign id i (r ∷ refs) s.sturdy_refs)

  -- Only the sturdy refs change.
  pub put_or_drop_peers :
      (id : ℕ) (refs : HostRefs rpc.Client) (s : Runtime systems)
      → ((put_or_drop systems id refs s).multi_vat_peers ≡ s.multi_vat_peers)
        × ((put_or_drop systems id refs s).multi_vat_peer_ids_by_name
            ≡ s.multi_vat_peer_ids_by_name)
  unfolding put_or_drop set_refs
  put_or_drop_peers id [] s = (refl, refl)
  put_or_drop_peers id (r ∷ refs) s = (refl, refl)
