-- ===== src/Vats/Links/Connected.antt =====
-- ffi/rpc_bridge_generic_vat.cpp: adding a vat, connecting to one and the counting of owners keep the
-- links whole.
use lean_capnproto.Prelude.{
  ℕ, ◌+◌, ◌≡◌, refl, arith, Bool, true, false, same, ltb, Option, none, some, List, Option-cases,
  Bool-cases, inl, inr,
}
use lean_capnproto.Prelude.Exec.Keeps.{Keeps, Keeps-bind, Keeps-pure, Keeps-throw, Keeps-if}
use lean_capnproto.Prelude.Table.{find, assign, find-assign, contains-assign}
use lean_capnproto.Prelude.Dict.{put}
use lean_capnproto.Vats.{
  LeanVatId, VatIo, Vat, Network, set_vat, add, find_vat, unknown_vat_host, make_vat,
}
use lean_capnproto.Vats.Connect.{
  open_connection, connect_by_vat_id, connect_known, push_accept, add_reference, remove_reference,
  drop_reference, connect_to_host,
}
use lean_capnproto.Vats.Links.{
  entry, partner_of, ends, home, IsLinked, SameLinks-IsLinked, with_connection_after,
  with_vat_after, set_connection-SameLinks, set_vat-SameLinks,
}
use lean_capnproto.Vats.Links.Quiet.{Keeps-with_connection}
use lean_capnproto.Vats.Links.Made.{make_connection-IsLinked}
use lean_capnproto.Vats.Links.Joined.{attach-IsLinked}
use lean_capnproto.Vats.Links.Gone.{destroy_connection-IsLinked}

module _ (io : VatIo) where
  open io use {Value}

  abbrev Linked : Network io → Type 0
  Linked = IsLinked io

  -- A step that changes a vat, but not its connections.
  pub edit_vat-IsLinked :
      (v : ℕ) (s : Network io) (a b : Vat io)
      → find v s.live_vats ≡ some a
      → b.connections ≡ a.connections
      → Linked s
      → Linked (set_vat io v b s)
  edit_vat-IsLinked v s a b e q h =
      SameLinks-IsLinked io s (set_vat io v b s) (set_vat-SameLinks io s v a b e q) h

  push_accept-IsLinked : (v c : ℕ) → Keeps Linked (push_accept io v c)
  unfolding push_accept
  push_accept-IsLinked v c = record {
    after = λ s h. with_vat_after io Linked v _ s h λ a e. edit_vat-IsLinked v s a _ e refl h;
  }

  open_connection-IsLinked :
      (v d : ℕ) (unique : Bool) → Keeps Linked (open_connection io v d unique)
  unfolding open_connection
  open_connection-IsLinked v d unique = Keeps-bind (make_connection-IsLinked io v d unique) λ local.
      Keeps-bind (make_connection-IsLinked io d v unique) λ remote.
        Keeps-bind (attach-IsLinked io local remote)
          λ _. Keeps-bind (push_accept-IsLinked d remote) λ _. Keeps-pure (some local)

  pub add_reference-IsLinked : (c : ℕ) → Keeps Linked (add_reference io c)
  unfolding add_reference
  add_reference-IsLinked c = record {
    after = λ s h. with_connection_after io Linked c _ s h λ a e.
        SameLinks-IsLinked io s _ (set_connection-SameLinks io s c a e _ refl refl refl refl) h;
  }

  remove_reference-IsLinked : (c : ℕ) → Keeps Linked (remove_reference io c)
  unfolding remove_reference
  remove_reference-IsLinked c = record {
    after = λ s h. with_connection_after io Linked c _ s h λ a e.
        SameLinks-IsLinked io s _ (set_connection-SameLinks io s c a e _ refl refl refl refl) h;
  }

  pub drop_reference-IsLinked : (c : ℕ) → Keeps Linked (drop_reference io c)
  unfolding drop_reference
  drop_reference-IsLinked c = Keeps-with_connection io c _ λ a.
      Keeps-if (ltb 1 a.references) (remove_reference-IsLinked c) (destroy_connection-IsLinked io c)

  connect_known-IsLinked :
      (v d : ℕ) (unique : Bool) (known : Option ℕ)
      → Keeps Linked (connect_known io v d unique known)
  unfolding connect_known
  connect_known-IsLinked v d true known = open_connection-IsLinked v d true
  connect_known-IsLinked v d false (some c) =
      Keeps-bind (add_reference-IsLinked c) λ _. Keeps-pure (some c)
  connect_known-IsLinked v d false none = open_connection-IsLinked v d false

  connect_to_host-IsLinked :
      (v : ℕ) (id : LeanVatId) (a : Vat io) (d : Option ℕ)
      → Keeps Linked (connect_to_host io v id a d)
  unfolding connect_to_host
  connect_to_host-IsLinked v id a none = Keeps-throw (unknown_vat_host id.host)
  connect_to_host-IsLinked v id a (some d) =
      connect_known-IsLinked v d id.unique (find d a.connections)

  pub connect_by_vat_id-IsLinked :
      (v : ℕ) (id : LeanVatId) → Keeps Linked (connect_by_vat_id io v id)
  unfolding connect_by_vat_id
  connect_by_vat_id-IsLinked v id = record {
    after = λ s h. with_vat_after io Linked v _ s h λ a e. elim (Bool-cases (same id.host a.name)) [
      | inl q ↦ rw q h
      | inr q ↦ rw q ((connect_to_host-IsLinked v id a (find_vat io id.host s)).after s h)
    ];
  }

  new_vat-IsLinked :
      (name : List ℕ) (s : Network io)
      → Linked s
      → Linked (record s {
        vats = put name s.next_vat s.vats;
        live_vats = assign s.next_vat (make_vat io name) s.live_vats;
        next_vat = s.next_vat + 1;
      })
  unfolding entry partner_of ends home make_vat find
  new_vat-IsLinked name s h = record {
    entered = λ v w c q.
        ground (arith, find-assign s.next_vat v (make_vat io name) s.live_vats, h.entered v w c);
    paired = h.paired;
    fresh = h.fresh;
    housed = λ c v w q. ground (
      arith,
      h.housed c v w q,
      contains-assign s.next_vat v (make_vat io name) s.live_vats,
      contains-assign s.next_vat w (make_vat io name) s.live_vats,
    );
  }

  pub add-IsLinked : (name : List ℕ) → Keeps Linked (add io name)
  unfolding add
  add-IsLinked name = record {
    after = λ s h. elim (Option-cases (find_vat io name s)) [
      | inr (v, e) ↦ rw (e, add) h
      | inl e ↦ rw (e, add) (new_vat-IsLinked name s h)
    ];
  }
