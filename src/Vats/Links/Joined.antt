-- ===== src/Vats/Links/Joined.antt =====
-- ffi/rpc_bridge_generic_vat.cpp: joining the two ends of a connection, and destroying one of them,
-- keep the links whole, although they do not hold in between.
use lean_capnproto.Prelude.{
  ℕ, ◌≡◌, refl, arith, Option, none, some, List, Bool-cases, inl, inr, ◌==◌,
}
use lean_capnproto.Prelude.Exec.{returns}
use lean_capnproto.Prelude.Exec.Keeps.{Keeps}
use lean_capnproto.Prelude.Table.{find, find-assign}
use lean_capnproto.Vats.{VatIo, Network, Connection, with_connection, set_connection}
use lean_capnproto.Vats.Connect.{set_partner, join_ends, attach}
use lean_capnproto.Vats.Links.{
  partner_of, IsLinked, SamePlaces, SamePlaces-trans, SamePlaces-IsLinked, with_connection_after,
  with_vat_after, set_connection-SamePlaces, partner_of-set_connection, partner_of_found,
}

module _ (io : VatIo) where
  abbrev Linked : Network io → Type 0
  Linked = IsLinked io

  -- The connection with a new partner.
  abbrev partnered : Option ℕ → List ℕ → Connection io → Connection io
  partnered partner name a = record a { partner = partner; partner_name = name }

  set_partner_found :
      (c : ℕ) (partner : Option ℕ) (name : List ℕ) (s : Network io) (a : Connection io)
      → find c s.live_connections ≡ some a
      → set_partner io c partner name s
        ≡ (returns tt, set_connection io c (partnered partner name a) s)
  unfolding set_partner with_connection
  set_partner_found c partner name s a e = rw (e, with_connection) refl

  -- The second lookup, after the first end has been written.
  other_found :
      (s : Network io) (this other : ℕ) (a b c : Connection io)
      → find other s.live_connections ≡ some b
      → (d : Connection io) × (find other (set_connection io this c s).live_connections ≡ some d)
  unfolding set_connection
  other_found s this other a b c e = elim (Bool-cases (this == other)) [
    | inl q ↦ (c, ground (arith, find-assign this other c s.live_connections))
    | inr q ↦ (b, ground (arith, find-assign this other c s.live_connections))
  ]

  -- Two ends without partners get each other.
  join_found-IsLinked :
      (s : Network io) (this other : ℕ) (name other_name : List ℕ) (a b : Connection io)
      → find this s.live_connections ≡ some a
      → find other s.live_connections ≡ some b
      → partner_of io s this ≡ none
      → partner_of io s other ≡ none
      → Linked s
      → Linked (join_ends io this other name other_name none none s).1
  unfolding join_ends
  join_found-IsLinked s this other name other_name a b e f alone lone h =
      let t = set_connection io this (partnered (some other) other_name a) s in
      let (d, g) = other_found s this other a b (partnered (some other) other_name a) f in
      let u = set_connection io other (partnered (some this) name d) t in
      let places : SamePlaces io s u =
        SamePlaces-trans io
          (set_connection-SamePlaces io s this a e (partnered (some other) other_name a) refl refl
            refl)
          (set_connection-SamePlaces io t other d g (partnered (some this) name d) refl refl
            refl) in
      let paired : (i j : ℕ) → partner_of io u i ≡ some j → partner_of io u j ≡ some i = λ i j q.
        ground (
          arith,
          partner_of-set_connection io s this (partnered (some other) other_name a) i,
          partner_of-set_connection io s this (partnered (some other) other_name a) j,
          partner_of-set_connection io t other (partnered (some this) name d) i,
          partner_of-set_connection io t other (partnered (some this) name d) j,
          h.paired i j,
        ) in
      rw
        (
          set_partner_found this (some other) other_name s a e,
          set_partner_found other (some this) name t d g,
        )
        (SamePlaces-IsLinked io s u places paired h)

  join_ends-IsLinked :
      (s : Network io) (this other : ℕ) (name other_name : List ℕ) (a b : Connection io)
      → find this s.live_connections ≡ some a
      → find other s.live_connections ≡ some b
      → (p q : Option ℕ) → partner_of io s this ≡ p
      → partner_of io s other ≡ q
      → Linked s
      → Linked (join_ends io this other name other_name p q s).1
  unfolding join_ends
  join_ends-IsLinked s this other name other_name a b e f (some _) _ hp hq h = h
  join_ends-IsLinked s this other name other_name a b e f none (some _) hp hq h = h
  join_ends-IsLinked s this other name other_name a b e f none none hp hq h =
      join_found-IsLinked s this other name other_name a b e f hp hq h

  pub attach-IsLinked : (this other : ℕ) → Keeps Linked (attach io this other)
  unfolding attach
  attach-IsLinked this other = record {
    after = λ s h. with_connection_after io Linked this _ s h λ a e.
        with_connection_after io Linked other _ s h λ b f.
          with_vat_after io Linked a.vat _ s h λ a_vat _.
            with_vat_after io Linked b.vat _ s h λ b_vat _.
              join_ends-IsLinked s this other a_vat.name b_vat.name a b e f a.partner b.partner
                (partner_of_found io s this a e) (partner_of_found io s other b f) h;
  }
