-- ===== src/Vats/Links/Made.antt =====
-- ffi/rpc_bridge_generic_vat.cpp: making, joining and destroying connections keeps the links whole.
use lean_capnproto.Prelude.{
  ℕ, ◌≡◌, refl, arith, Bool, true, false, none, some, List, if◌then◌else◌, ◌==◌,
}
use lean_capnproto.Prelude.Exec.{pure}
use lean_capnproto.Prelude.Exec.Keeps.{continue_holds, Keeps}
use lean_capnproto.Prelude.Table.{
  Table, find, contains, assign, erase, find-assign, find-erase, contains-assign, contains_found,
}
use lean_capnproto.Vats.{VatIo, Vat, Network, Connection, set_vat}
use lean_capnproto.Vats.Connect.{
  new_connection, allocate_connection, edit_connections, enter, enter_new, make_connection, leave,
}
use lean_capnproto.Vats.Links.{
  entry, partner_of, ends, home, IsLinked, with_vat_after, entry-set_vat,
}

module _ (io : VatIo) where
  abbrev Linked : Network io → Type 0
  Linked = IsLinked io

  -- The new object, which no vat knows of yet.
  abbrev with_new : Connection io → Network io → Network io
  with_new a s = (allocate_connection io a s).1

  module _ (s : Network io) (a : Connection io) (j : ℕ) where
    partner_of-with_new :
        partner_of io (with_new a s) j
        ≡ (if s.next_connection == j then a.partner else partner_of io s j)
    unfolding partner_of allocate_connection
    partner_of-with_new = ground (arith, find-assign s.next_connection j a s.live_connections)

    ends-with_new :
        ends io (with_new a s) j
        ≡ (if s.next_connection == j then some (a.vat, a.peer_vat) else ends io s j)
    unfolding ends allocate_connection
    ends-with_new = ground (arith, find-assign s.next_connection j a s.live_connections)

    home-with_new : home io (with_new a s) j ≡ (
        if s.next_connection == j
        then (if a.unique then none else some (a.vat, a.peer_vat))
        else home io s j)
    unfolding home allocate_connection
    home-with_new = ground (arith, find-assign s.next_connection j a s.live_connections)

  -- Nothing is known of a number that is still to be given out.
  module _ (s : Network io) (h : Linked s) where
    home_next : home io s s.next_connection ≡ none
    unfolding home
    home_next = rw (h.fresh s.next_connection (omega arith), home) refl

    partner_of_next : partner_of io s s.next_connection ≡ none
    unfolding partner_of
    partner_of_next = rw (h.fresh s.next_connection (omega arith), partner_of) refl

  allocate_connection-IsLinked :
      (s : Network io) (a : Connection io)
      → a.partner ≡ none
      → contains a.vat s.live_vats ≡ true
      → contains a.peer_vat s.live_vats ≡ true
      → Linked s
      → Linked (with_new a s)
  unfolding allocate_connection entry
  allocate_connection-IsLinked s a alone front back h = record {
    entered = λ v w c q. ground (arith, home-with_new s a c, h.entered v w c q, home_next s h);
    paired = λ c d q. ground (
      arith,
      partner_of-with_new s a c,
      partner_of-with_new s a d,
      h.paired c d,
      partner_of_next s h,
    );
    fresh = λ c le. ground (arith, find-assign s.next_connection c a s.live_connections, h.fresh c);
    housed = λ c v w q. ground (arith, ends-with_new s a c, h.housed c v w);
  }

  pub entry_found :
      (s : Network io) (v : ℕ) (a : Vat io) (w : ℕ)
      → find v s.live_vats ≡ some a
      → entry io s v w ≡ find w a.connections
  unfolding entry
  entry_found s v a w found = rw (found, entry) refl

  -- A vat may be given any connections that are its own.
  set_vat-IsLinked :
      (s : Network io) (v : ℕ) (a b : Vat io)
      → find v s.live_vats ≡ some a
      → ((w c : ℕ) → find w b.connections ≡ some c → home io s c ≡ some (v, w))
      → Linked s
      → Linked (set_vat io v b s)
  unfolding set_vat home partner_of ends
  set_vat-IsLinked s v a b found own h = record {
    entered = λ i w c q. ground (arith, entry-set_vat io s v b i w, own w c, h.entered i w c);
    paired = h.paired;
    fresh = h.fresh;
    housed = λ c i w q. ground (
      arith,
      h.housed c i w q,
      contains-assign v i b s.live_vats,
      contains-assign v w b s.live_vats,
    );
  }

  edit_connections-IsLinked :
      (s : Network io) (v : ℕ) (edit : Table ℕ → Table ℕ)
      → ((w c : ℕ) (a : Vat io)
          → find v s.live_vats ≡ some a
          → find w (edit a.connections) ≡ some c
          → home io s c ≡ some (v, w))
      → Linked s
      → Linked (edit_connections io v edit s).1
  unfolding edit_connections
  edit_connections-IsLinked s v edit own h = with_vat_after io Linked v _ s h λ a e.
      set_vat-IsLinked s v a (record a { connections = edit a.connections }) e (λ w c. own w c a e)
        h

  enter-IsLinked :
      (s : Network io) (v w c : ℕ)
      → home io s c ≡ some (v, w)
      → Linked s
      → Linked (enter io v w c s).1
  unfolding enter
  enter-IsLinked s v w c at_home h =
      edit_connections-IsLinked s v (assign w c)
        (λ j d a e q.
          ground (arith, find-assign w j c a.connections, entry_found s v a j e, h.entered v j d))
        h

  pub leave-IsLinked : (v w : ℕ) → Keeps Linked (leave io v w)
  unfolding leave
  leave-IsLinked v w = record {
    after = λ s h.
        edit_connections-IsLinked s v (erase w)
          (λ j d a e q.
            ground (arith, find-erase w j a.connections, entry_found s v a j e, h.entered v j d))
          h;
  }

  module _ (s : Network io) (v w : ℕ) (name : List ℕ) (front : contains v s.live_vats ≡ true)
      (back : contains w s.live_vats ≡ true) (h : Linked s) where
    new-IsLinked : (unique : Bool) → Linked (with_new (new_connection io v w unique name) s)
    unfolding new_connection
    new-IsLinked unique =
        allocate_connection-IsLinked s (new_connection io v w unique name) refl front back h

    home_new :
        home io (with_new (new_connection io v w false name) s) s.next_connection ≡ some (v, w)
    unfolding new_connection
    home_new = ground (arith, home-with_new s (new_connection io v w false name) s.next_connection)

    -- Once both vats are found, the constructor makes an object of them and enters it.
    enter_new-IsLinked :
        (unique : Bool)
        → Linked
            (enter_new io v w unique s.next_connection
              (with_new (new_connection io v w unique name) s)).1
    unfolding enter_new
    enter_new-IsLinked true = new-IsLinked true
    enter_new-IsLinked false =
        let a = new_connection io v w false name in
        enter-IsLinked (with_new a s) v w s.next_connection home_new (new-IsLinked false)

  pub make_connection-IsLinked :
      (v w : ℕ) (unique : Bool) → Keeps Linked (make_connection io v w unique)
  unfolding make_connection allocate_connection
  make_connection-IsLinked v w unique = record {
    after = λ s h. with_vat_after io Linked v _ s h λ a e. with_vat_after io Linked w _ s h λ b f.
        let made =
          enter_new-IsLinked s v w b.name (contains_found v s.live_vats a e)
            (contains_found w s.live_vats b f) h unique in
        continue_holds Linked _ (λ _. pure s.next_connection) _ (λ _. made) made;
  }
