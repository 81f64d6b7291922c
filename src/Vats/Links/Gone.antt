-- ===== src/Vats/Links/Gone.antt =====
-- ffi/rpc_bridge_generic_vat.cpp: destroying a connection keeps the links of the others whole.
use lean_capnproto.Prelude.{
  ℕ, ◌≡◌, ◌≢◌, refl, arith, Bool, true, false, Option, none, some, Option-cases, inl, inr,
  if◌then◌else◌, ◌==◌,
}
use lean_capnproto.Prelude.Exec.{returns, ◌>>◌}
use lean_capnproto.Prelude.Exec.Keeps.{Keeps}
use lean_capnproto.Prelude.Table.{find, contains, erase, find-erase, contains-some}
use lean_capnproto.Vats.{
  VatIo, Vat, Network, Connection, with_vat, with_connection, set_vat, set_connection,
}
use lean_capnproto.Vats.Connect.{
  edit_connections, leave, leave_old, forget_partner, forget_by_partner, free_connection,
  destroy_connection,
}
use lean_capnproto.Vats.Links.{
  entry, partner_of, ends, home, IsLinked, SamePlaces, SamePlaces-refl, with_connection_after,
  set_connection-SamePlaces, partner_of-set_connection, entry-set_vat, partner_of_found, home_found,
  ends_found,
}
use lean_capnproto.Vats.Links.Made.{leave-IsLinked, entry_found}

module _ (io : VatIo) where
  abbrev Linked : Network io → Type 0
  Linked = IsLinked io

  -- The object is gone.
  abbrev without : ℕ → Network io → Network io
  without c s = (free_connection io c s).1

  module _ (s : Network io) (c j : ℕ) where
    partner_of-without :
        partner_of io (without c s) j ≡ (if c == j then none else partner_of io s j)
    unfolding partner_of free_connection
    partner_of-without = ground (arith, find-erase c j s.live_connections)

    ends-without : ends io (without c s) j ≡ (if c == j then none else ends io s j)
    unfolding ends free_connection
    ends-without = ground (arith, find-erase c j s.live_connections)

    home-without : home io (without c s) j ≡ (if c == j then none else home io s j)
    unfolding home free_connection
    home-without = ground (arith, find-erase c j s.live_connections)

  -- An object may go that no vat has an entry for, if the partners agree afterwards.
  without-IsLinked :
      (s t : Network io) (c : ℕ)
      → Linked s
      → SamePlaces io s t
      → ((v w : ℕ) → entry io s v w ≢ some c)
      → ((i j : ℕ)
          → partner_of io (without c t) i ≡ some j
          → partner_of io (without c t) j ≡ some i)
      → Linked (without c t)
  unfolding free_connection entry
  without-IsLinked s t c h e clear paired = record {
    entered = λ v w d q.
        ground (arith, home-without t c d, e.homes d, e.entries v w, h.entered v w d, clear v w);
    paired = paired;
    fresh =
        λ d le. ground (arith, find-erase c d t.live_connections, e.absent d, e.counter, h.fresh d);
    housed = λ d v w q.
        ground (arith, ends-without t c d, e.both_ends d, h.housed d v w, e.vats v, e.vats w);
  }

  forget_partner_found :
      (c : ℕ) (s : Network io) (a : Connection io)
      → find c s.live_connections ≡ some a
      → forget_partner io c s ≡ (returns tt, set_connection io c (record a { partner = none }) s)
  unfolding forget_partner with_connection
  forget_partner_found c s a e = rw (e, with_connection) refl

  -- A connection that is a partner is alive.
  partner_alive :
      (s : Network io) (p c : ℕ)
      → partner_of io s p ≡ some c
      → (a : Connection io) × (find p s.live_connections ≡ some a)
  unfolding partner_of
  partner_alive s p c q = elim (Option-cases (find p s.live_connections)) [
    | inr e ↦ e
    | inl e ↦ absurd (ground (arith, rw (e, partner_of) at q))
  ]

  -- Once no vat has an entry for it, the connection is taken from its partner and goes.
  forgotten-IsLinked :
      (s : Network io) (c : ℕ) (p : Option ℕ)
      → partner_of io s c ≡ p
      → ((v w : ℕ) → entry io s v w ≢ some c)
      → Linked s
      → Linked ((forget_by_partner io p >> free_connection io c) s).1
  unfolding forget_by_partner
  forgotten-IsLinked s c none hp clear h =
      without-IsLinked s s c h (SamePlaces-refl io s) clear λ i j q.
        ground
          (arith, partner_of-without s c i, partner_of-without s c j, h.paired i j, h.paired j i)
  forgotten-IsLinked s c (some p) hp clear h =
      let back = h.paired c p hp in
      let (a, e) = partner_alive s p c back in
      let t = set_connection io p (record a { partner = none }) s in
      rw (forget_partner_found p s a e) (
        without-IsLinked s t c h
          (set_connection-SamePlaces io s p a e (record a { partner = none }) refl refl refl) clear
          λ i j q. ground (
            arith,
            partner_of-without t c i,
            partner_of-without t c j,
            partner_of-set_connection io s p (record a { partner = none }) i,
            partner_of-set_connection io s p (record a { partner = none }) j,
            h.paired i j,
            h.paired p j,
            h.paired c j,
            h.paired j i,
          ))

  abbrev erased : ℕ → Vat io → Vat io
  erased w a = record a { connections = erase w a.connections }

  leave_found :
      (s : Network io) (v w : ℕ) (a : Vat io)
      → find v s.live_vats ≡ some a
      → leave io v w s ≡ (returns tt, set_vat io v (erased w a) s)
  unfolding leave edit_connections with_vat
  leave_found s v w a e = rw (e, with_vat) refl

  -- The vat's entry was the only one.
  left_clear :
      (s : Network io) (c v w : ℕ) (a : Vat io)
      → find v s.live_vats ≡ some a
      → home io s c ≡ some (v, w)
      → Linked s
      → (i j : ℕ) → entry io (set_vat io v (erased w a) s) i j ≢ some c
  left_clear s c v w a e at_home h i j q = ground (
    arith,
    entry-set_vat io s v (erased w a) i j,
    find-erase w j a.connections,
    entry_found io s v a j e,
    h.entered i j c,
  )

  destroyed-IsLinked :
      (s : Network io) (c v w : ℕ) (unique : Bool) (p : Option ℕ)
      → contains v s.live_vats ≡ true
      → home io s c ≡ (if unique then none else some (v, w))
      → partner_of io s c ≡ p
      → Linked s
      → Linked ((do leave_old io unique v w; forget_by_partner io p; free_connection io c) s).1
  unfolding leave_old set_vat partner_of
  destroyed-IsLinked s c v w true p live hm hp h =
      forgotten-IsLinked s c p hp (λ i j q. ground (arith, h.entered i j c)) h
  destroyed-IsLinked s c v w false p live hm hp h =
      let (a, e) = contains-some v s.live_vats live in
      let left : Linked (set_vat io v (erased w a) s) =
        rw (leave_found s v w a e) at ((leave-IsLinked io v w).after s h) in
      rw (leave_found s v w a e)
        (forgotten-IsLinked (set_vat io v (erased w a) s) c p hp (left_clear s c v w a e hm h) left)

  pub destroy_connection-IsLinked : (c : ℕ) → Keeps Linked (destroy_connection io c)
  unfolding destroy_connection
  destroy_connection-IsLinked c = record {
    after = λ s h. with_connection_after io Linked c _ s h λ a e.
        destroyed-IsLinked s c a.vat a.peer_vat a.unique a.partner
          (h.housed c a.vat a.peer_vat (ends_found io s c a e)).0 (home_found io s c a e)
          (partner_of_found io s c a e) h;
  }
