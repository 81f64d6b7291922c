-- ===== src/Vats/Links.antt =====
-- ffi/rpc_bridge_generic_vat.cpp: what the vats and the two ends of a connection know of each other.
pub mod Quiet
pub mod Made
pub mod Joined
pub mod Gone
pub mod Connected
pub mod Introduced
pub mod Runs
use lean_capnproto.Prelude.{
  ℕ, zero, suc, ◌+◌, ◌≤◌, ◌≡◌, refl, sym, ap, ◌∙◌, Bool, true, false, Option, none, some, ◌==◌,
  if◌then◌else◌, arith, ◌⊎◌, inl, inr, Option-cases, Bool-cases,
}
use lean_capnproto.Prelude.Exec.{Exec, Outcome, returns, throws, loops, pure, throw, ◌>>=◌, ◌>>◌}
use lean_capnproto.Prelude.Exec.Keeps.{Keeps, Keeps-bind, Keeps-pure, Keeps-throw, Keeps-if}
use lean_capnproto.Prelude.Table.{
  Table, find, contains, erase, assign, find-erase, find-assign, contains-assign, contains_found,
}
use lean_capnproto.Vats.{
  VatIo, Vat, Network, Connection, Op, with_vat, with_connection, set_vat, set_connection,
}

module _ (io : VatIo) where
  -- The entry of a vat's `connections_` for another vat.
  unfoldable pub entry : Network io → ℕ → ℕ → Option ℕ
  entry s v w = elim (find v s.live_vats) [ none ↦ none | some vat ↦ find w vat.connections ]

  unfoldable pub partner_of : Network io → ℕ → Option ℕ
  partner_of s c = elim (find c s.live_connections) [
    | none ↦ none
    | some connection ↦ connection.partner
  ]

  -- The two vats of a connection, `none` if it is gone.
  unfoldable pub ends : Network io → ℕ → Option (ℕ × ℕ)
  ends s c = elim (find c s.live_connections) [
    | none ↦ none
    | some connection ↦ some (connection.vat, connection.peer_vat)
  ]

  -- The same, of a connection that is to be found among those of its vat.
  unfoldable pub home : Network io → ℕ → Option (ℕ × ℕ)
  home s c = elim (find c s.live_connections) [
    | none ↦ none
    | some connection ↦
        if connection.unique then none else some (connection.vat, connection.peer_vat)
  ]

  -- No vat has an entry for a connection that is gone or not its own, a partner's partner is the
  -- connection itself, which makes every partner a live one, and the vats of a connection are alive.
  pub record IsLinked (s : Network io) : Type 0 where
    pub entered : (v w c : ℕ) → entry s v w ≡ some c → home s c ≡ some (v, w)
    pub paired : (c d : ℕ) → partner_of s c ≡ some d → partner_of s d ≡ some c
    pub fresh : (c : ℕ) → s.next_connection ≤ c → find c s.live_connections ≡ none
    pub housed :
        (c v w : ℕ)
        → ends s c ≡ some (v, w)
        → (contains v s.live_vats ≡ true) × (contains w s.live_vats ≡ true)

  module _ {A : Type 0} (P : Network io → Type 0) where
    -- What is to be shown of a step that looks an object up.
    pub with_connection_after :
        (c : ℕ) (f : Connection io → Op io A) (s : Network io)
        → P s
        → ((a : Connection io) → find c s.live_connections ≡ some a → P (f a s).1)
        → P (with_connection io c f s).1
    unfolding with_connection
    with_connection_after c f s h k = elim (Option-cases (find c s.live_connections)) [
      | inl e ↦ rw (e, with_connection) h
      | inr (a, e) ↦ rw (e, with_connection) (k a e)
    ]

    pub with_vat_after :
        (v : ℕ) (f : Vat io → Op io A) (s : Network io)
        → P s
        → ((a : Vat io) → find v s.live_vats ≡ some a → P (f a s).1)
        → P (with_vat io v f s).1
    unfolding with_vat
    with_vat_after v f s h k = elim (Option-cases (find v s.live_vats)) [
      | inl e ↦ rw (e, with_vat) h
      | inr (a, e) ↦ rw (e, with_vat) (k a e)
    ]

  module _ (s : Network io) (c : ℕ) (a : Connection io) (j : ℕ) where
    pub partner_of-set_connection :
        partner_of (set_connection io c a s) j ≡ (if c == j then a.partner else partner_of s j)
    unfolding partner_of set_connection
    partner_of-set_connection = ground (arith, find-assign c j a s.live_connections)

    ends-set_connection :
        ends (set_connection io c a s) j ≡ (if c == j then some (a.vat, a.peer_vat) else ends s j)
    unfolding ends set_connection
    ends-set_connection = ground (arith, find-assign c j a s.live_connections)

    home-set_connection :
        home (set_connection io c a s) j
        ≡ (if c == j then (if a.unique then none else some (a.vat, a.peer_vat)) else home s j)
    unfolding home set_connection
    home-set_connection = ground (arith, find-assign c j a s.live_connections)

  pub entry-set_vat :
      (s : Network io) (v : ℕ) (a : Vat io) (i w : ℕ)
      → entry (set_vat io v a s) i w ≡ (if v == i then find w a.connections else entry s i w)
  unfolding entry set_vat
  entry-set_vat s v a i w = ground (arith, find-assign v i a s.live_vats)

  -- Two networks whose vats have the same connections, partners aside.
  pub record SamePlaces (s t : Network io) : Type 0 where
    pub entries : (v w : ℕ) → entry t v w ≡ entry s v w
    pub both_ends : (c : ℕ) → ends t c ≡ ends s c
    pub homes : (c : ℕ) → home t c ≡ home s c
    pub absent : (c : ℕ) → find c s.live_connections ≡ none → find c t.live_connections ≡ none
    pub counter : t.next_connection ≡ s.next_connection
    pub vats : (v : ℕ) → contains v s.live_vats ≡ true → contains v t.live_vats ≡ true

  pub SamePlaces-refl : (s : Network io) → SamePlaces s s
  SamePlaces-refl s = record {
    entries = λ v w. refl;
    both_ends = λ c. refl;
    homes = λ c. refl;
    absent = λ c q. q;
    counter = refl;
    vats = λ v q. q;
  }

  pub SamePlaces-trans : {s t u : Network io} → SamePlaces s t → SamePlaces t u → SamePlaces s u
  SamePlaces-trans e f = record {
    entries = λ v w. f.entries v w ∙ e.entries v w;
    both_ends = λ c. f.both_ends c ∙ e.both_ends c;
    homes = λ c. f.homes c ∙ e.homes c;
    absent = λ c q. f.absent c (e.absent c q);
    counter = f.counter ∙ e.counter;
    vats = λ v q. f.vats v (e.vats v q);
  }

  pub SamePlaces-IsLinked :
      (s t : Network io)
      → SamePlaces s t
      → ((c d : ℕ) → partner_of t c ≡ some d → partner_of t d ≡ some c)
      → IsLinked s
      → IsLinked t
  SamePlaces-IsLinked s t e paired h = record {
    entered = λ v w c q. e.homes c ∙ h.entered v w c (sym (e.entries v w) ∙ q);
    paired = paired;
    fresh = λ c le. e.absent c (h.fresh c (rw e.counter at le));
    housed = λ c v w q.
        let (front, back) = h.housed c v w (sym (e.both_ends c) ∙ q) in
        (e.vats v front, e.vats w back);
  }

  pub SameLinks : Network io → Network io → Type 0
  SameLinks s t = SamePlaces s t × ((c : ℕ) → partner_of t c ≡ partner_of s c)

  pub SameLinks-IsLinked : (s t : Network io) → SameLinks s t → IsLinked s → IsLinked t
  unfolding SameLinks
  SameLinks-IsLinked s t (e, partners) h =
      SamePlaces-IsLinked s t e (λ c d q. partners d ∙ h.paired c d (sym (partners c) ∙ q)) h

  module _ (s : Network io) (c : ℕ) (a : Connection io)
      (found : find c s.live_connections ≡ some a) where
    pub partner_of_found : partner_of s c ≡ a.partner
    unfolding partner_of
    partner_of_found = rw (found, partner_of) refl

    pub ends_found : ends s c ≡ some (a.vat, a.peer_vat)
    unfolding ends
    ends_found = rw (found, ends) refl

    pub home_found : home s c ≡ (if a.unique then none else some (a.vat, a.peer_vat))
    unfolding home
    home_found = rw (found, home) refl

    -- A step that changes neither the ends nor the kind of a connection.
    pub set_connection-SamePlaces :
        (b : Connection io)
        → b.vat ≡ a.vat
        → b.peer_vat ≡ a.peer_vat
        → b.unique ≡ a.unique
        → SamePlaces s (set_connection io c b s)
    unfolding set_connection entry
    set_connection-SamePlaces b hv hw hu = record {
      entries = λ v w. refl;
      both_ends = λ j. ground (arith, ends-set_connection s c b j, ends_found);
      homes = λ j. ground (arith, home-set_connection s c b j, home_found);
      absent = λ j q. ground (arith, find-assign c j b s.live_connections);
      counter = refl;
      vats = λ v q. q;
    }

    -- Nor its partner.
    pub set_connection-SameLinks :
        (b : Connection io)
        → b.partner ≡ a.partner
        → b.vat ≡ a.vat
        → b.peer_vat ≡ a.peer_vat
        → b.unique ≡ a.unique
        → SameLinks s (set_connection io c b s)
    unfolding SameLinks
    set_connection-SameLinks b hp hv hw hu = (
      set_connection-SamePlaces b hv hw hu,
      λ j. ground (arith, partner_of-set_connection s c b j, partner_of_found),
    )

  -- A step that leaves a vat's connections as they are.
  pub set_vat-SameLinks :
      (s : Network io) (v : ℕ) (a b : Vat io)
      → find v s.live_vats ≡ some a
      → b.connections ≡ a.connections
      → SameLinks s (set_vat io v b s)
  unfolding SameLinks set_vat entry partner_of ends home
  set_vat-SameLinks s v a b found hb = (
    record {
      entries = λ i w. ground (arith, find-assign v i b s.live_vats);
      both_ends = λ c. refl;
      homes = λ c. refl;
      absent = λ c q. q;
      counter = refl;
      vats = λ i q. ground (arith, contains-assign v i b s.live_vats);
    },
    λ c. refl,
  )

  -- A step that changes neither a vat nor a connection.
  pub aside-SameLinks :
      (s t : Network io)
      → t.live_vats ≡ s.live_vats
      → t.live_connections ≡ s.live_connections
      → t.next_connection ≡ s.next_connection
      → SameLinks s t
  unfolding SameLinks entry partner_of ends home
  aside-SameLinks s t hv hc hn = (
    record {
      entries =
          λ v w. ap (λ vs. elim (find v vs) [ none ↦ none | some vat ↦ find w vat.connections ]) hv;
      both_ends = λ c.
          ap
            (λ cs. elim (find c cs) [
              | none ↦ none
              | some connection ↦ some (connection.vat, connection.peer_vat)
            ])
            hc;
      homes = λ c.
          ap
            (λ cs. elim (find c cs) [
              | none ↦ none
              | some connection ↦
                  if connection.unique then none else some (connection.vat, connection.peer_vat)
            ])
            hc;
      absent = λ c q. rw hc q;
      counter = hn;
      vats = λ v q. rw hv q;
    },
    λ c. ap (λ cs. elim (find c cs) [ none ↦ none | some connection ↦ connection.partner ]) hc,
  )
