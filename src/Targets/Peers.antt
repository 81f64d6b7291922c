-- ===== src/Targets/Peers.antt =====
-- ffi/rpc_bridge_runtime.cpp, `retainPeerOwnership` and `releasePeerOwnership`: a peer is kept exactly
-- as long as a target belongs to it.
use lean_capnproto.Prelude.{
  ℕ, ◌+◌, ◌-◌, ◌^◌, ◌%◌, ◌≤◌, ◌<◌, ◌≡◌, true, false, Option, none, some, [], ◌∷◌, ◌==◌, ltb, arith,
  if◌then◌else◌, ◌⊎◌, inl, inr, Bool-cases, Option-cases, length,
}
use lean_capnproto.Prelude.Table.{
  Table, find, contains, erase, assign, find-erase, find-assign, contains-erase, contains-assign,
  contains_unfound,
}
use lean_capnproto.Prelude.Table.Weight.{
  Distinct, weight, erase-Distinct, assign-Distinct, weight-erase, weight-assign,
}
use lean_capnproto.Targets.{
  PeerTable, emplace, count_up, retain_peer_ownership, count_down, release_peer_ownership,
  open_peer,
}

abbrev is_number : ℕ → ℕ → ℕ
is_number o v = if v == o then 1 else 0

-- How many targets belong to the peer `o`.
abbrev owned : ℕ → Table ℕ → ℕ
owned o owners = weight (is_number o) owners

abbrev pub counted : ℕ → Option ℕ
counted n = if n == 0 then none else some n

-- Each peer's count is the number of its targets, and the peers that have one are those that are kept.
pub record IsCounted {P : Type 0} (p : PeerTable P) : Type 0 where
  pub distinct : Distinct p.owner_by_target
  pub counts : (o : ℕ) → find o p.owner_ref_count ≡ counted (owned o p.owner_by_target)
  pub kept : (o : ℕ) → contains o p.peers ≡ ltb 0 (owned o p.owner_by_target)

owned_le-length : (o : ℕ) (t : Table ℕ) → owned o t ≤ length t
unfolding weight
owned_le-length o [] = omega arith
owned_le-length o ((j, v) ∷ t) = ground (arith, owned_le-length o t)

find-count_up :
    (owner j n : ℕ) (t : Table ℕ)
    → find owner t ≡ some n
    → n + 1 < 2 ^ 32
    → find j (count_up owner t) ≡ (if owner == j then some (n + 1) else find j t)
unfolding count_up
find-count_up owner j n t h small =
    let e : (n + 1) % 2 ^ 32 ≡ n + 1 = omega arith in
    rw (h, count_up) (rw e (find-assign owner j (n + 1) t))

-- A target's peer has at least that one.
owned-found :
    (target owner : ℕ) (t : Table ℕ) → Distinct t → find target t ≡ some owner → 1 ≤ owned owner t
owned-found target owner t d h = ground (arith, weight-erase (is_number owner) target t owner d h)

contains-emplace :
    (retained owner i : ℕ) (t : Table ℕ)
    → contains i (emplace retained owner t) ≡ true
    → (retained ≡ i) ⊎ (contains i t ≡ true)
contains-emplace retained owner i t h = ground (arith, contains-assign retained i owner t)

module _ {P : Type 0} where
  retained_counts :
      (source retained owner : ℕ) (p : PeerTable P)
      → IsCounted p
      → find source p.owner_by_target ≡ some owner
      → length p.owner_by_target + 1 < 2 ^ 32
      → (o : ℕ)
      → find o (count_up owner p.owner_ref_count)
        ≡ counted (owned o p.owner_by_target + is_number o owner)
  retained_counts source retained owner p h e room o =
      let n = owned owner p.owner_by_target in
      let before : find owner p.owner_ref_count ≡ some n =
        ground (arith, h.counts owner, owned-found source owner p.owner_by_target h.distinct e) in
      let small : n + 1 < 2 ^ 32 = omega (arith, owned_le-length owner p.owner_by_target, room) in
      ground (arith, find-count_up owner o n p.owner_ref_count before small, h.counts o)

  retained_well :
      (source retained owner : ℕ) (p : PeerTable P)
      → IsCounted p
      → find source p.owner_by_target ≡ some owner
      → contains retained p.owner_by_target ≡ false
      → length p.owner_by_target + 1 < 2 ^ 32
      → IsCounted (record p {
        owner_by_target = assign retained owner p.owner_by_target;
        owner_ref_count = count_up owner p.owner_ref_count;
      })
  retained_well source retained owner p h e new room = record {
    distinct = assign-Distinct retained owner p.owner_by_target h.distinct;
    counts = λ o.
        rw (weight-assign (is_number o) retained p.owner_by_target owner new)
          (retained_counts source retained owner p h e room o);
    kept = λ o. ground (
      arith,
      h.kept o,
      weight-assign (is_number o) retained p.owner_by_target owner new,
      owned-found source owner p.owner_by_target h.distinct e,
    );
  }

  -- Retaining a target under a number that belongs to no peer, with fewer than 2 ^ 32 - 1 targets of
  -- peers before, keeps every peer's count equal to the number of its targets, and keeps exactly the
  -- peers that have one, if that was so before.
  pub retain_peer_ownership-IsCounted :
      (source retained : ℕ) (p : PeerTable P)
      → IsCounted p
      → contains retained p.owner_by_target ≡ false
      → length p.owner_by_target + 1 < 2 ^ 32
      → IsCounted (retain_peer_ownership source retained p)
  unfolding retain_peer_ownership
  retain_peer_ownership-IsCounted source retained p h new room =
      elim (Option-cases (find source p.owner_by_target)) [
        | inl e ↦ rw (e, retain_peer_ownership) h
        | inr (owner, e) ↦
            rw (e, retain_peer_ownership)
              (rw new (retained_well source retained owner p h e new room))
      ]

  -- What `count_down` does where the count is known.
  count_down_known :
      (target owner n : ℕ) (p : PeerTable P)
      → IsCounted p
      → find target p.owner_by_target ≡ some owner
      → find owner p.owner_ref_count ≡ some n
      → IsCounted (count_down owner (record p { owner_by_target = erase target p.owner_by_target }))
  unfolding count_down
  count_down_known target owner n p h e c =
      let rest =
        λ (o : ℕ). weight-erase (is_number o) target p.owner_by_target owner h.distinct e in
      elim (Bool-cases (ltb 1 n)) [
        | inl many ↦
            rw (c, count_down)
              (rw many (record {
                distinct = erase-Distinct target p.owner_by_target h.distinct;
                counts = λ o.
                    ground
                      (arith, rest o, h.counts o, c, find-assign owner o (n - 1) p.owner_ref_count);
                kept = λ o. ground (arith, rest o, h.kept o, h.counts o, c);
              }))
        | inr one ↦
            rw (c, count_down)
              (rw one (record {
                distinct = erase-Distinct target p.owner_by_target h.distinct;
                counts = λ o.
                    ground (arith, rest o, h.counts o, c, find-erase owner o p.owner_ref_count);
                kept = λ o.
                    ground (arith, rest o, h.kept o, h.counts o, c, contains-erase owner o p.peers);
              }))
      ]

  pub release_peer_ownership-IsCounted :
      (target : ℕ) (p : PeerTable P) → IsCounted p → IsCounted (release_peer_ownership target p)
  unfolding release_peer_ownership
  release_peer_ownership-IsCounted target p h =
      elim (Option-cases (find target p.owner_by_target)) [
        | inl e ↦ rw (e, release_peer_ownership) h
        | inr (owner, e) ↦
            let known : find owner p.owner_ref_count ≡ some (owned owner p.owner_by_target) =
              ground
                (arith, h.counts owner, owned-found target owner p.owner_by_target h.distinct e) in
            rw (e, release_peer_ownership)
              (count_down_known target owner (owned owner p.owner_by_target) p h e known)
      ]

  -- Adding a peer under a number that is neither a target of a peer nor the number of one keeps every
  -- peer's count equal to the number of its targets, and exactly the peers that have one, if that was
  -- so before.
  pub open_peer-IsCounted :
      (target : ℕ) (peer : P) (p : PeerTable P)
      → IsCounted p
      → contains target p.owner_by_target ≡ false
      → contains target p.peers ≡ false
      → IsCounted (open_peer target peer p)
  unfolding open_peer
  open_peer-IsCounted target peer p h new free =
      let more = λ (o : ℕ). weight-assign (is_number o) target p.owner_by_target target new in
      let uncounted : contains target p.owner_ref_count ≡ false =
        contains_unfound target p.owner_ref_count
          (ground (arith, h.counts target, h.kept target, free)) in
      rw (new, free, uncounted)
        (record {
          distinct = assign-Distinct target target p.owner_by_target h.distinct;
          counts = λ o.
              ground (
                arith,
                more o,
                h.counts o,
                h.kept o,
                free,
                find-assign target o 1 p.owner_ref_count,
              );
          kept = λ o. ground (arith, more o, h.kept o, contains-assign target o peer p.peers);
        })

  count_down-owners :
      (owner : ℕ) (p : PeerTable P) → (count_down owner p).owner_by_target ≡ p.owner_by_target
  unfolding count_down
  count_down-owners owner p = elim (Option-cases (find owner p.owner_ref_count)) [
    | inl e ↦ rw (e, count_down)
    | inr (n, e) ↦ rw (e, count_down) (ground arith)
  ]

  pub contains-release :
      (target i : ℕ) (p : PeerTable P)
      → contains i (release_peer_ownership target p).owner_by_target
        ≡ (if target == i then false else contains i p.owner_by_target)
  unfolding release_peer_ownership
  contains-release target i p = elim (Option-cases (find target p.owner_by_target)) [
    | inl e ↦
        rw (e, release_peer_ownership) (ground (arith, contains_unfound target p.owner_by_target e))
    | inr (owner, e) ↦
        rw (e, release_peer_ownership)
          (rw
            (count_down-owners owner
              (record p { owner_by_target = erase target p.owner_by_target }))
            (contains-erase target i p.owner_by_target))
  ]

  pub contains-retain :
      (source retained i : ℕ) (p : PeerTable P)
      → contains i (retain_peer_ownership source retained p).owner_by_target ≡ true
      → (retained ≡ i) ⊎ (contains i p.owner_by_target ≡ true)
  unfolding retain_peer_ownership
  contains-retain source retained i p h = elim (Option-cases (find source p.owner_by_target)) [
    | inl e ↦ inr (rw (e, retain_peer_ownership) at h)
    | inr (owner, e) ↦
        contains-emplace retained owner i p.owner_by_target (rw (e, retain_peer_ownership) at h)
  ]
