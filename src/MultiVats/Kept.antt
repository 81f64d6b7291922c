-- ===== src/MultiVats/Kept.antt =====
-- ffi/rpc_bridge_runtime.cpp: what may happen to the peers and the sturdy refs while one sturdy ref
-- stays published.
use lean_capnproto.Prelude.{
  ℕ, ◌≡◌, refl, ap, sym, ◌∙◌, arith, true, false, Option, none, some, List, ◌==◌, inl, inr,
  Bool-cases, ◌⊎◌,
}
use lean_capnproto.Prelude.Exec.{Exec, continue, ◌>>=◌}
use lean_capnproto.Prelude.Exec.Keeps.{Keeps}
use lean_capnproto.Prelude.Table.{find, find-assign}
use lean_capnproto.Prelude.Dict.{lookup}
use lean_capnproto.Targets.{State, TargetError}
use lean_capnproto.MultiVats.{
  Systems, Runtime, MultiVatPeer, Op, peer_found, require_multi_vat_peer, on_targets,
}
use lean_capnproto.MultiVats.SturdyRefs.{set_peer}
use lean_capnproto.MultiVats.Published.{published}

module _ (systems : Systems) where
  open systems use {rpc}

  -- A peer that is named `name`, where a name is given, and has no restorer.
  pub record IsPlain (name : List ℕ) (s : Runtime systems) (id : ℕ) : Type 0 where
    pub peer : MultiVatPeer systems
    pub found : find id s.multi_vat_peers ≡ some peer
    pub called : peer.name ≡ name
    pub plain : peer.sturdy_ref_restorer ≡ none

  pub record IsThere (s : Runtime systems) (id : ℕ) : Type 0 where
    pub peer : MultiVatPeer systems
    pub found : find id s.multi_vat_peers ≡ some peer

  -- The host, found by its name and without a restorer, publishes a capability under an object id;
  -- the peer that may restore it is there.
  pub record Holds (source id : ℕ) (name object : List ℕ) (c : rpc.Client) (s : Runtime systems)
      : Type 0 where
    pub guest : IsThere s source
    pub host : IsPlain name s id
    pub named : lookup name s.multi_vat_peer_ids_by_name ≡ some id
    pub kept : published systems s id object ≡ some c

  abbrev name_or : List ℕ → Option (MultiVatPeer systems) → List ℕ
  name_or name none = name
  name_or name (some p) = p.name

  module _ (source id : ℕ) (name object : List ℕ) (c : rpc.Client) where
    abbrev pub Held : Runtime systems → Type 0
    Held = Holds source id name object c

    -- Only the peers, their names and the sturdy refs play a part.
    pub unmoved :
        (s s' : Runtime systems)
        → s'.multi_vat_peers ≡ s.multi_vat_peers
        → s'.multi_vat_peer_ids_by_name ≡ s.multi_vat_peer_ids_by_name
        → published systems s' id object ≡ published systems s id object
        → Held s
        → Held s'
    unmoved s s' p n q h = record {
      guest = record { peer = h.guest.peer; found = ap (find source) p ∙ h.guest.found };
      host = record {
        peer = h.host.peer;
        found = ap (find id) p ∙ h.host.found;
        called = h.host.called;
        plain = h.host.plain;
      };
      named = ap (lookup name) n ∙ h.named;
      kept = q ∙ h.kept;
    }

    required :
        {A : Type 0} (j : ℕ) (f : MultiVatPeer systems → Op systems A) (s : Runtime systems)
        (o : Option (MultiVatPeer systems))
        → find j s.multi_vat_peers ≡ o
        → ((q : MultiVatPeer systems) → find j s.multi_vat_peers ≡ some q → Held (f q s).1)
        → Held s
        → Held (continue (peer_found systems j o s).0 f (peer_found systems j o s).1).1
    unfolding peer_found
    required j f s none e k h = h
    required j f s (some q) e k h = k q e

    pub require-Keeps :
        {A : Type 0} (j : ℕ) (f : MultiVatPeer systems → Op systems A)
        → ((q : MultiVatPeer systems) (s : Runtime systems)
            → find j s.multi_vat_peers ≡ some q
            → Held s
            → Held (f q s).1)
        → Keeps Held (require_multi_vat_peer systems j >>= f)
    unfolding require_multi_vat_peer
    require-Keeps j f k = record {
      after = λ s h. required j f s (find j s.multi_vat_peers) refl (λ q e. k q s e h) h;
    }

    pub on_targets-Keeps :
        {A : Type 0} (m : Exec (State rpc) TargetError A) → Keeps Held (on_targets systems m)
    unfolding on_targets published
    on_targets-Keeps m = record { after = λ s h. unmoved s _ refl refl refl h }

    same_peer :
        (j : ℕ) (q p : MultiVatPeer systems) (s : Runtime systems)
        → find j s.multi_vat_peers ≡ some q
        → (j == id) ≡ true
        → find id s.multi_vat_peers ≡ some p
        → q.name ≡ p.name
    same_peer j q p s e b f =
        let k : j ≡ id = ground (arith, b) in
        let both : some q ≡ some p = sym e ∙ ap (λ (i : ℕ). find i s.multi_vat_peers) k ∙ f in
        ap (λ (o : Option (MultiVatPeer systems)). name_or name o) both

    -- A peer keeps its name; the host gets no restorer.
    pub changed :
        (j : ℕ) (p q : MultiVatPeer systems) (s : Runtime systems)
        → find j s.multi_vat_peers ≡ some q
        → p.name ≡ q.name
        → (j == id) ≡ false ⊎ (p.sturdy_ref_restorer ≡ none)
        → Held s
        → Held (set_peer systems j p s)
    unfolding set_peer published
    changed j p q s e n r h = record {
      guest = elim (Bool-cases (j == source)) [
        | inl b ↦ record { peer = p; found = find-assign j source p s.multi_vat_peers ∙ rw b refl }
        | inr b ↦ record {
          peer = h.guest.peer;
          found = find-assign j source p s.multi_vat_peers ∙ rw b h.guest.found;
        }
      ];
      host = elim (Bool-cases (j == id)) [
        | inl b ↦ record {
          peer = p;
          found = find-assign j id p s.multi_vat_peers ∙ rw b refl;
          called = n ∙ same_peer j q h.host.peer s e b h.host.found ∙ h.host.called;
          plain = elim r [ inl w ↦ absurd (ground (arith, b, w)) | inr w ↦ w ];
        }
        | inr b ↦ record {
          peer = h.host.peer;
          found = find-assign j id p s.multi_vat_peers ∙ rw b h.host.found;
          called = h.host.called;
          plain = h.host.plain;
        }
      ];
      named = h.named;
      kept = h.kept;
    }
