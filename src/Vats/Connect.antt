-- ===== src/Vats/Connect.antt =====
-- ffi/rpc_bridge_generic_vat.cpp: how connections between vats are made, found and destroyed.
use lean_capnproto.Prelude.{
  ℕ, ◌+◌, ◌-◌, Bool, true, false, Option, none, some, List, [], same, ltb, if◌then◌else◌,
}
use lean_capnproto.Prelude.Exec.{returns, pure, throw, ◌>>=◌, ◌>>◌}
use lean_capnproto.Prelude.Table.{Table, find, assign, erase}
use lean_capnproto.Vats.{
  LeanVatId, HostIdMessage, decode_lean_vat_id, set_lean_vat_id, VatIo, Vat, Connection, Op,
  unknown_vat_host, requirement_failed, with_vat, with_connection, set_vat, set_connection,
  find_vat, no_counts,
}

module _ (io : VatIo) where
  open io use {Queue, empty_queue, push, pop}

  unfoldable pub new_connection : ℕ → ℕ → Bool → List ℕ → Connection io
  unfolding set_lean_vat_id
  new_connection vat peer_vat unique peer_name = record {
    references = 1;
    vat = vat;
    peer_vat = peer_vat;
    unique = unique;
    peer_vat_id = set_lean_vat_id (record { host = peer_name; unique = unique });
    partner = none;
    partner_name = [];
    network_exception = none;
    message_queue = empty_queue;
    fulfill_on_end = none;
    idle = true;
    initiated_idle_shutdown = false;
    blocked = false;
    held = [];
    ready = [];
    on_send_handler = none;
    protocol_message_counts = no_counts io;
    protocol_message_trace = [];
  }

  -- A new object, under its own number.
  unfoldable pub allocate_connection : Connection io → Op io ℕ
  allocate_connection connection s = (
    returns s.next_connection,
    record s {
      live_connections = assign s.next_connection connection s.live_connections;
      next_connection = s.next_connection + 1;
    },
  )

  unfoldable pub edit_connections : ℕ → (Table ℕ → Table ℕ) → Op io (Unit {0})
  edit_connections v edit =
      with_vat io v
        λ vat s. (returns tt, set_vat io v (record vat { connections = edit vat.connections }) s)

  -- `vat_.connections_[&peerVat_] = this`
  unfoldable pub enter : ℕ → ℕ → ℕ → Op io (Unit {0})
  unfolding edit_connections
  enter vat peer_vat c = edit_connections vat (assign peer_vat c)

  -- Only a connection that is not unique can be found again.
  unfoldable pub enter_new : ℕ → ℕ → Bool → ℕ → Op io (Unit {0})
  unfolding enter
  enter_new vat peer_vat true c = pure tt
  enter_new vat peer_vat false c = enter vat peer_vat c

  -- ConnectionImpl's constructor, which has both vats by reference
  unfoldable pub make_connection : ℕ → ℕ → Bool → Op io ℕ
  unfolding new_connection enter_new
  make_connection vat peer_vat unique = with_vat io vat λ _. with_vat io peer_vat λ peer. do
    c ← allocate_connection (new_connection vat peer_vat unique peer.name)
    enter_new vat peer_vat unique c
    pure c

  unfoldable pub set_partner : ℕ → Option ℕ → List ℕ → Op io (Unit {0})
  set_partner c partner name = with_connection io c λ connection s. (
    returns tt,
    set_connection io c (record connection { partner = partner; partner_name = name }) s,
  )

  unfoldable pub join_ends : ℕ → ℕ → List ℕ → List ℕ → Option ℕ → Option ℕ → Op io (Unit {0})
  unfolding set_partner
  join_ends this other name other_name (some _) _ = throw requirement_failed
  join_ends this other name other_name none (some _) = throw requirement_failed
  join_ends this other name other_name none none =
      set_partner this (some other) other_name >> set_partner other (some this) name

  -- Connects two ends that have no partner yet.
  unfoldable pub attach : ℕ → ℕ → Op io (Unit {0})
  attach this other = with_connection io this λ a. with_connection io other λ b.
      with_vat io a.vat λ a_vat.
        with_vat io b.vat λ b_vat. join_ends this other a_vat.name b_vat.name a.partner b.partner

  -- `vat_.connections_.erase(&peerVat_)`
  unfoldable pub leave : ℕ → ℕ → Op io (Unit {0})
  unfolding edit_connections
  leave vat peer_vat = edit_connections vat (erase peer_vat)

  unfoldable pub leave_old : Bool → ℕ → ℕ → Op io (Unit {0})
  unfolding leave
  leave_old true vat peer_vat = pure tt
  leave_old false vat peer_vat = leave vat peer_vat

  unfoldable pub forget_partner : ℕ → Op io (Unit {0})
  forget_partner c =
      with_connection io c
        λ connection s. (returns tt, set_connection io c (record connection { partner = none }) s)

  unfoldable pub forget_by_partner : Option ℕ → Op io (Unit {0})
  unfolding forget_partner
  forget_by_partner none = pure tt
  forget_by_partner (some partner) = forget_partner partner

  -- The memory goes back, after the destructor's body.
  unfoldable pub free_connection : ℕ → Op io (Unit {0})
  free_connection c s = (returns tt, record s { live_connections = erase c s.live_connections })

  -- ConnectionImpl's destructor
  unfoldable pub destroy_connection : ℕ → Op io (Unit {0})
  destroy_connection c = with_connection io c λ connection. do
    leave_old connection.unique connection.vat connection.peer_vat
    forget_by_partner connection.partner
    free_connection c

  -- `kj::addRef`
  unfoldable pub add_reference : ℕ → Op io (Unit {0})
  add_reference c = with_connection io c λ connection s. (
    returns tt,
    set_connection io c (record connection { references = connection.references + 1 }) s,
  )

  unfoldable pub remove_reference : ℕ → Op io (Unit {0})
  remove_reference c = with_connection io c λ connection s. (
    returns tt,
    set_connection io c (record connection { references = connection.references - 1 }) s,
  )

  -- An owner lets go; the last one destroys the object.
  unfoldable pub drop_reference : ℕ → Op io (Unit {0})
  drop_reference c =
      with_connection io c λ connection.
        if ltb 1 connection.references then remove_reference c else destroy_connection c

  unfoldable pub push_accept : ℕ → ℕ → Op io (Unit {0})
  push_accept v c =
      with_vat io v λ vat s.
        (returns tt, set_vat io v (record vat { accept_queue = push c vat.accept_queue }) s)

  -- The two ends of a new connection. The references that the two local variables hold are the ones
  -- that the accept queue and the caller are left with.
  unfoldable pub open_connection : ℕ → ℕ → Bool → Op io (Option ℕ)
  open_connection v destination unique = do
    local ← make_connection v destination unique
    remote ← make_connection destination v unique
    attach local remote
    push_accept destination remote
    pure (some local)

  -- A connection that is there already is shared.
  unfoldable pub connect_known : ℕ → ℕ → Bool → Option ℕ → Op io (Option ℕ)
  unfolding open_connection add_reference
  connect_known v destination true _ = open_connection v destination true
  connect_known v destination false (some c) = add_reference c >> pure (some c)
  connect_known v destination false none = open_connection v destination false

  unfoldable pub connect_to_host : ℕ → LeanVatId → Vat io → Option ℕ → Op io (Option ℕ)
  unfolding connect_known
  connect_to_host v host_id vat none = throw (unknown_vat_host host_id.host)
  connect_to_host v host_id vat (some destination) =
      connect_known v destination host_id.unique (find destination vat.connections)

  unfoldable pub connect_by_vat_id : ℕ → LeanVatId → Op io (Option ℕ)
  unfolding connect_to_host
  connect_by_vat_id v host_id = with_vat io v λ vat s.
      if same host_id.host vat.name
      then (returns none, s)
      else connect_to_host v host_id vat (find_vat io host_id.host s) s

  unfoldable connect : ℕ → HostIdMessage → Op io (Option ℕ)
  connect v host_id = connect_by_vat_id v (decode_lean_vat_id host_id)

  unfoldable pub accept_popped : ℕ → Vat io → Option (ℕ × Queue ℕ) → Op io (Option ℕ)
  accept_popped v vat none s = (returns none, s)
  accept_popped v vat (some (c, rest)) s =
      (returns (some c), set_vat io v (record vat { accept_queue = rest }) s)

  -- `none` while no connection waits.
  unfoldable pub accept : ℕ → Op io (Option ℕ)
  unfolding accept_popped
  accept v = with_vat io v λ vat. accept_popped v vat (pop vat.accept_queue)

  unfoldable pub get_connection_to : ℕ → ℕ → Op io (Option ℕ)
  get_connection_to v other = with_vat io v λ vat s. (returns (find other vat.connections), s)
