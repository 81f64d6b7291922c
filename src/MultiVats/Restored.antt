-- ===== src/MultiVats/Restored.antt =====
-- ffi/rpc_bridge_runtime.cpp: publishing, restoring and unpublishing a sturdy ref.
use lean_capnproto.Prelude.{
  ℕ, ◌≡◌, refl, ap, ◌∙◌, arith, Bool, false, ◌&&◌, Option, none, some, List, ◌==◌, same, same_self,
  if◌then◌else◌, sym, subst, ◌+◌, ◌^◌, ◌<◌, length, All,
}
use lean_capnproto.Prelude.Exec.{returns, throws}
use lean_capnproto.Prelude.Table.{find, contains, assign, find-assign}
use lean_capnproto.Prelude.Alloc.{allocate-contains, allocate-free}
use lean_capnproto.Prelude.Dict.{lookup, delete}
use lean_capnproto.Targets.{add_target}
use lean_capnproto.Vats.{LeanVatId}
use lean_capnproto.MultiVats.{
  Systems, HostRefs, Runtime, MultiVatPeer, MultiVatError, on_targets, lift,
}
use lean_capnproto.MultiVats.SturdyRefs.{
  set_refs, multi_vat_publish_sturdy_ref, put_or_drop, multi_vat_unpublish_sturdy_ref,
  multi_vat_restore_sturdy_ref,
}
use lean_capnproto.MultiVats.Published.{
  in_refs, published, with_published, published-with_published, put_or_drop_peers,
}
use lean_capnproto.MultiVats.Kept.{Holds}
use lean_capnproto.MultiVats.Others.{Other, IsApart, others, others-Holds}
use lean_capnproto.MultiVats.Requested.{
  restore_published, restore_unpublished, restore_here, publish_found, unpublish_found,
  published-unpublished,
}

module _ (systems : Systems) where
  open systems use {rpc}

  -- A restored capability has a new number; no other number changes.
  pub record RestoresAs (source : ℕ) (vat_id : LeanVatId) (object : List ℕ) (c : rpc.Client)
      (s : Runtime systems) : Type 0 where
    pub target : ℕ
    pub after : Runtime systems
    pub outcome :
        multi_vat_restore_sturdy_ref systems source vat_id object s ≡ (returns target, after)
    pub fresh : contains target s.targets.targets ≡ false
    pub targets :
        (j : ℕ)
        → find j after.targets.targets ≡ (if target == j then some c else find j s.targets.targets)
    pub refs : after.sturdy_refs ≡ s.sturdy_refs

  -- What becomes of a sturdy ref in a state: it is restored, and may be unpublished, which ends that.
  pub record Serves (source id : ℕ) (vat_id : LeanVatId) (object : List ℕ) (c : rpc.Client)
      (s : Runtime systems) : Type 0 where
    pub restores : RestoresAs source vat_id object c s
    pub end : Runtime systems
    pub unpublished : multi_vat_unpublish_sturdy_ref systems id object s ≡ (returns tt, end)
    pub refused :
        (e : MultiVatError systems) × (multi_vat_restore_sturdy_ref systems source vat_id object end
          ≡ (throws e, end))
    pub others_kept :
        (i : ℕ) (o : List ℕ)
        → published systems end i o
          ≡ (if (id == i) && same object o then none else published systems s i o)

  -- Room for one more target.
  pub record HasRoom (s : Runtime systems) : Type 0 where
    pub counter : s.targets.next_target_id < 2 ^ 32
    pub targets : length s.targets.targets < 2 ^ 32

  added_as :
      (source : ℕ) (vat_id : LeanVatId) (object : List ℕ) (c : rpc.Client) (s : Runtime systems)
      → HasRoom s
      → multi_vat_restore_sturdy_ref systems source vat_id object s
        ≡ on_targets systems (add_target rpc c) s
      → RestoresAs source vat_id object c s
  unfolding on_targets add_target lift
  added_as source vat_id object c s room e =
      let t = s.targets in
      let ((id, next), found) =
        allocate-contains (2 ^ 32) t.targets t.next_target_id room.targets room.counter in
      record {
        target = id;
        after = record s {
          targets = record t { targets = assign id c t.targets; next_target_id = next };
        };
        outcome = e ∙ rw (found, add_target) refl;
        fresh =
            allocate-free (2 ^ 32) (λ i. contains i t.targets) (length t.targets + 1)
              t.next_target_id id next found;
        targets = λ j. find-assign id j c t.targets;
        refs = refl;
      }

  some_refs :
      (object : List ℕ) (c : rpc.Client) (o : Option (HostRefs rpc.Client))
      → in_refs systems object o ≡ some c
      → (refs : HostRefs rpc.Client) × (o ≡ some refs) × (lookup object refs ≡ some c)
  some_refs object c none e = absurd (ground (arith, e))
  some_refs object c (some refs) e = (refs, refl, e)

  Holds-Serves :
      (source id : ℕ) (p : MultiVatPeer systems) (unique : Bool) (object : List ℕ) (c : rpc.Client)
      (s : Runtime systems) (guest : MultiVatPeer systems)
      → find source s.multi_vat_peers ≡ some guest
      → find id s.multi_vat_peers ≡ some p
      → lookup p.name s.multi_vat_peer_ids_by_name ≡ some id
      → p.sturdy_ref_restorer ≡ none
      → published systems s id object ≡ some c
      → HasRoom s
      → Serves source id (record { host = p.name; unique = unique }) object c s
  unfolding published
  Holds-Serves source id p unique object c s guest has_source has_host named plain kept room =
      let at_host : LeanVatId = record { host = p.name; unique = unique } in
      let (refs, has_refs, has_ref) = some_refs object c (find id s.sturdy_refs) kept in
      let end = put_or_drop systems id (delete object refs) s in
      let (peers, names) = put_or_drop_peers systems id (delete object refs) s in
      let gone : published systems end id object ≡ none = ground (
        arith,
        published-unpublished systems s id object p refs c has_host has_refs has_ref id object,
        same_self object,
      ) in
      let (e, fails) =
        restore_unpublished systems p.name object (find id end.sturdy_refs) end gone in
      record {
        restores = added_as source at_host object c s room (
            restore_here systems s source id guest p has_source has_host named plain unique object
            ∙ ap (λ m. m s)
                (restore_published systems p.name object (find id s.sturdy_refs) c kept));
        end = end;
        unpublished = unpublish_found systems s id object p refs c has_host has_refs has_ref;
        refused = (
          e,
          restore_here systems end source id guest p (ap (find source) peers ∙ has_source)
                (ap (find id) peers ∙ has_host) (ap (lookup p.name) names ∙ named) plain unique
                object
              ∙ fails,
        );
        others_kept = published-unpublished systems s id object p refs c has_host has_refs has_ref;
      }

  served :
      (source id : ℕ) (name : List ℕ) (unique : Bool) (object : List ℕ) (c : rpc.Client)
      (s : Runtime systems)
      → Holds systems source id name object c s
      → HasRoom s
      → Serves source id (record { host = name; unique = unique }) object c s
  served source id name unique object c s h room =
      let p = h.host.peer in
      subst (λ (n : List ℕ). Serves source id (record { host = n; unique = unique }) object c s)
        h.host.called
        (Holds-Serves source id p unique object c s h.guest.peer h.guest.found h.host.found
          (ap (λ n. lookup n s.multi_vat_peer_ids_by_name) h.host.called ∙ h.named) h.host.plain
          h.kept room)

  -- The state after a sturdy ref was published and other things happened.
  abbrev pub later : ℕ → List ℕ → ℕ → List (Other systems) → Runtime systems → Runtime systems
  later id object target events s =
      others systems events (multi_vat_publish_sturdy_ref systems id object target s).1

  published_now :
      (s : Runtime systems) (source id target : ℕ) (from host : MultiVatPeer systems)
      → (object : List ℕ) (c : rpc.Client) → find source s.multi_vat_peers ≡ some from
      → find id s.multi_vat_peers ≡ some host
      → lookup host.name s.multi_vat_peer_ids_by_name ≡ some id
      → host.sturdy_ref_restorer ≡ none
      → Holds systems source id host.name object c (with_published systems id object c s)
  unfolding set_refs
  published_now s source id target from host object c has_source has_host named plain = record {
    guest = record { peer = from; found = has_source };
    host = record { peer = host; found = has_host; called = refl; plain = plain };
    named = named;
    kept =
        ground (arith, published-with_published systems s id object c id object, same_self object);
  }

  -- A peer `host` that has no restorer and is found by its name publishes a live target under an
  -- object id, which succeeds. After any sequence of requests that publish, unpublish or clear other
  -- sturdy refs, restore or bootstrap whatever, give restorers to other peers or clear them, if there
  -- is room for one more target: a peer that restores the object from the host's name gets a number
  -- that no target had, for the very capability, and no other target changes; the host may unpublish
  -- the object, which succeeds; restoring it then throws and changes nothing, and of all sturdy refs
  -- of all hosts only this one is gone.
  pub publish-Restores :
      (s : Runtime systems) (source id target : ℕ) (from host : MultiVatPeer systems)
      (unique : Bool)
      → (object : List ℕ) (c : rpc.Client) (events : List (Other systems))
      → find source s.multi_vat_peers ≡ some from
      → find id s.multi_vat_peers ≡ some host
      → lookup host.name s.multi_vat_peer_ids_by_name ≡ some id
      → host.sturdy_ref_restorer ≡ none
      → find target s.targets.targets ≡ some c
      → All (IsApart systems id object) events
      → HasRoom (later id object target events s)
      → ((multi_vat_publish_sturdy_ref systems id object target s).0 ≡ returns tt)
        × Serves source id
            (record { host = host.name; unique = unique })
            object
            c
            (later id object target events s)
  publish-Restores s source id target from host unique object c events has_source has_host named
        plain live apart room =
      let e = publish_found systems s id target object host c has_host live in
      let now =
        published_now s source id target from host object c has_source has_host named plain in
      let after = subst (Holds systems source id host.name object c) (ap (λ r. r.1) (sym e)) now in
      (
        ap (λ r. r.0) e,
        served source id host.name unique object c (later id object target events s)
            (others-Holds systems source id host.name object c events _ apart after) room,
      )
