-- ===== src/Targets/Apart.antt =====
-- ffi/rpc_bridge_runtime.cpp, class RuntimeLoop: what the operations on targets and their peers leave
-- alone.
use lean_capnproto.Prelude.{
  ℕ, ◌+◌, Bool, true, Option, none, some, List, [], ◌∷◌, ◌==◌, Option-cases, inl, inr, length, ◌^◌,
  ◌||◌,
}
use lean_capnproto.Prelude.Exec.Keeps.{Keeps, Keeps-bind, Keeps-pure, Keeps-throw, Keeps-if}
use lean_capnproto.Prelude.Table.{Table, find, contains, elem, remove}
use lean_capnproto.Prelude.Alloc.{allocate}
use lean_capnproto.Targets.{
  PeerTable, Rpc, State, unknown_target, add_target, drop_target_if_present, retain_owners,
  retain_found, retain_target, release_target, release_targets, drop_request_caps, drop_caps_unless,
  drop_request_caps_except_all, drop_request_caps_except, add_loopback_peer, add_network_peer,
  response_caps,
}

module _ (rpc : Rpc) where
  open rpc use {Client, LoopbackPeer, NetworkPeer}

  -- A predicate that the targets and their peers have no part in.
  abbrev pub Unrelated : (State rpc → Type 0) → Type 0
  Unrelated P =
      (s : State rpc) (targets : Table Client) (next : ℕ) (l : PeerTable LoopbackPeer)
      (n : PeerTable NetworkPeer)
      → P s
      → P (record s { targets = targets; next_target_id = next; loopback = l; network = n })

  module _ (P : State rpc → Type 0) (unrelated : Unrelated P) where
    pub retain_target-Keeps : (target : ℕ) → Keeps P (retain_target rpc target)
    unfolding retain_target retain_found retain_owners add_target
    retain_target-Keeps target = record {
      after = λ s h. elim (Option-cases (find target s.targets)) [
        | inl e ↦ rw (e, retain_target) h
        | inr (cap, e) ↦ rw (e, retain_target) (found target cap s h)
      ];
    }
      where
        found :
            (target : ℕ) (cap : Client) (s : State rpc) → P s → P (retain_found rpc target cap s).1
        found target cap s h =
            elim (Option-cases (
              allocate (2 ^ 32) (λ i. contains i s.targets) (length s.targets + 1)
                s.next_target_id)) [
                  | inl e ↦ rw (e, add_target) h
                  | inr ((id, next), e) ↦ rw (e, add_target) (unrelated s _ _ _ _ h)
                ]

    drop_target-Keeps : (target : ℕ) → Keeps P (drop_target_if_present rpc target)
    unfolding drop_target_if_present
    drop_target-Keeps target = record { after = λ s h. unrelated s _ _ _ _ h }

    pub release_target-Keeps : (target : ℕ) → Keeps P (release_target rpc target)
    unfolding release_target
    release_target-Keeps target =
        Keeps-bind (drop_target-Keeps target)
          λ dropped. Keeps-if dropped (Keeps-pure tt) (Keeps-throw (unknown_target target))

    pub release_targets-Keeps : (targets : List ℕ) → Keeps P (release_targets rpc targets)
    unfolding release_targets
    release_targets-Keeps [] = Keeps-pure tt
    release_targets-Keeps (target ∷ targets) =
        Keeps-bind (Keeps-if (target == 0) (Keeps-pure tt) (release_target-Keeps target))
          λ _. release_targets-Keeps targets

    pub add_target-Keeps : (cap : Client) → Keeps P (add_target rpc cap)
    unfolding add_target
    add_target-Keeps cap = record {
      after = λ s h.
          elim (Option-cases (
            allocate (2 ^ 32) (λ i. contains i s.targets) (length s.targets + 1)
              s.next_target_id)) [
                | inl e ↦ rw (e, add_target) h
                | inr ((id, next), e) ↦ rw (e, add_target) (unrelated s _ _ _ _ h)
              ];
    }

    pub drop_request_caps-Keeps : (caps : List ℕ) → Keeps P (drop_request_caps rpc caps)
    unfolding drop_request_caps
    drop_request_caps-Keeps [] = Keeps-pure tt
    drop_request_caps-Keeps (cap ∷ caps) =
        Keeps-bind (drop_target-Keeps cap) λ _. drop_request_caps-Keeps caps

    drop_caps_unless-Keeps :
        (keep : ℕ → Bool) (caps : List ℕ) → Keeps P (drop_caps_unless rpc keep caps)
    unfolding drop_caps_unless
    drop_caps_unless-Keeps keep [] = Keeps-pure tt
    drop_caps_unless-Keeps keep (cap ∷ caps) =
        Keeps-bind (Keeps-if (keep cap) (Keeps-pure true) (drop_target-Keeps cap))
          λ _. drop_caps_unless-Keeps keep caps

    pub drop_except_all-Keeps :
        (caps kept : List ℕ) → Keeps P (drop_request_caps_except_all rpc caps kept)
    unfolding drop_request_caps_except_all
    drop_except_all-Keeps caps [] = drop_request_caps-Keeps caps
    drop_except_all-Keeps caps (c ∷ kept) =
        drop_caps_unless-Keeps (λ cap. elem cap (remove 0 (c ∷ kept))) caps

    pub drop_except-Keeps :
        (caps : List ℕ) (kept : ℕ) → Keeps P (drop_request_caps_except rpc caps kept)
    unfolding drop_request_caps_except
    drop_except-Keeps caps kept = drop_caps_unless-Keeps (λ cap. cap == 0 || cap == kept) caps

    pub add_loopback_peer-Keeps :
        (cap : Client) (peer : LoopbackPeer) → Keeps P (add_loopback_peer rpc cap peer)
    unfolding add_loopback_peer
    add_loopback_peer-Keeps cap peer =
        Keeps-bind (add_target-Keeps cap) λ _. record { after = λ s h. unrelated s _ _ _ _ h }

    pub add_network_peer-Keeps :
        (cap : Client) (peer : NetworkPeer) → Keeps P (add_network_peer rpc cap peer)
    unfolding add_network_peer
    add_network_peer-Keeps cap peer =
        Keeps-bind (add_target-Keeps cap) λ _. record { after = λ s h. unrelated s _ _ _ _ h }

    pub response_caps-Keeps : (hooks : List (Option Client)) → Keeps P (response_caps rpc hooks)
    unfolding response_caps
    response_caps-Keeps [] = Keeps-pure []
    response_caps-Keeps (none ∷ hooks) =
        Keeps-bind (response_caps-Keeps hooks) λ caps. Keeps-pure (0 ∷ caps)
    response_caps-Keeps (some cap ∷ hooks) =
        Keeps-bind (add_target-Keeps cap)
          λ target. Keeps-bind (response_caps-Keeps hooks) λ caps. Keeps-pure (target ∷ caps)
