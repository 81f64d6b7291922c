-- ===== src/Vats/Traffic.antt =====
-- ffi/rpc_bridge_generic_vat.cpp: the messages on a connection, from the sender's side over its held
-- and ready tasks to the partner's queue, and how a connection is blocked, shut down and cut off.
use lean_capnproto.Prelude.{
  ℕ, ◌+◌, ◌%◌, ◌^◌, Bool, true, false, not, Option, none, some, List, [], ◌∷◌, ◌++◌, if◌then◌else◌,
}
use lean_capnproto.Prelude.Exec.{returns, pure, throw, ◌>>◌}
use lean_capnproto.Prelude.Table.{Table}
use lean_capnproto.Vats.{
  VatIo, MessageKind, resolve, disembargo, other, Connection, Op, requirement_failed,
  network_failed, with_vat, with_connection, set_vat, set_connection, no_counts,
}

-- How a call of `receiveIncomingMessage` goes on.
pub data Received (M : Type 0) : Type 0 where
  waits ended : Received M
  message : M → Received M

-- How a call of `shutdown` goes on: it is done, goes on with the event loop, or waits for this
-- fulfiller.
pub data Shutdown : Type 0 where
  done later : Shutdown
  until : ℕ → Shutdown

module _ (io : VatIo) where
  open io use {Failure, Message, which, Queue, push, pop, reject_all}

  -- A step that only changes the connection's own members.
  unfoldable pub update_connection : ℕ → (Connection io → Connection io) → Op io (Unit {0})
  update_connection c f =
      with_connection io c λ connection s. (returns tt, set_connection io c (f connection) s)

  -- The fulfiller of `shutdown`, if there is one, is called.
  unfoldable pub fulfill_end : Option ℕ → Op io (Unit {0})
  fulfill_end none s = (returns tt, s)
  fulfill_end (some f) s = (returns tt, record s { fulfilled = f ∷ s.fulfilled })

  unfoldable pub initiate_idle_shutdown : ℕ → Op io (Unit {0})
  initiate_idle_shutdown c = with_connection io c λ connection s.
      fulfill_end connection.fulfill_on_end (
        set_connection io c
          (record connection {
            initiated_idle_shutdown = true;
            message_queue = push none connection.message_queue;
          })
          s)

  -- The tasks are dropped with their set.
  unfoldable pub disconnected : Failure → Connection io → Connection io
  disconnected exception connection = record connection {
    message_queue = reject_all exception connection.message_queue;
    network_exception = some exception;
    held = [];
    ready = [];
  }

  unfoldable pub disconnect : ℕ → Failure → Op io (Unit {0})
  disconnect c exception = update_connection c (disconnected exception)

  -- A new block takes the place of the current one, whose fulfiller goes with it: what waited for it
  -- fails, and `taskFailed` takes no notice.
  unfoldable pub block : ℕ → Op io (Unit {0})
  block c = update_connection c λ connection. record connection { blocked = true; held = [] }

  unfoldable pub unblock : ℕ → Op io (Unit {0})
  unblock c = update_connection c λ connection. record connection {
    blocked = false;
    held = [];
    ready = connection.ready ++ connection.held;
  }

  unfoldable pub on_send : ℕ → (Message → Bool) → Op io (Unit {0})
  on_send c handler =
      update_connection c λ connection. record connection { on_send_handler = some handler }

  unfoldable pub record_kind : MessageKind → Connection io → Connection io
  record_kind resolve connection =
      let counts = connection.protocol_message_counts in
      record connection {
        protocol_message_counts = record counts {
          resolve_count = (counts.resolve_count + 1) % 2 ^ 64;
        };
        protocol_message_trace = connection.protocol_message_trace ++ (1 ∷ []);
      }
  record_kind disembargo connection =
      let counts = connection.protocol_message_counts in
      record connection {
        protocol_message_counts = record counts {
          disembargo_count = (counts.disembargo_count + 1) % 2 ^ 64;
        };
        protocol_message_trace = connection.protocol_message_trace ++ (2 ∷ []);
      }
  record_kind other connection = connection

  unfoldable pub record_protocol_message : Message → Connection io → Connection io
  unfolding record_kind
  record_protocol_message m = record_kind (which m)

  unfoldable pub reset_protocol_message_counts : ℕ → Op io (Unit {0})
  reset_protocol_message_counts c =
      update_connection c λ connection. record connection { protocol_message_counts = no_counts io }

  unfoldable pub reset_protocol_message_trace : ℕ → Op io (Unit {0})
  reset_protocol_message_trace c =
      update_connection c λ connection. record connection { protocol_message_trace = [] }

  -- `newOutgoingMessage` asks for a connection that is not idle.
  unfoldable new_outgoing_message : ℕ → Op io (Unit {0})
  new_outgoing_message c =
      with_connection io c
        λ connection. if connection.idle then throw requirement_failed else pure tt

  abbrev pub accepted_by : Option (Message → Bool) → Message → Bool
  accepted_by none m = true
  accepted_by (some handler) m = handler m

  -- The task of a message: it waits for the current block, or runs with the event loop.
  unfoldable pub add_task : Message → Connection io → Connection io
  add_task m connection =
      if connection.blocked
      then record connection { held = connection.held ++ (m ∷ []) }
      else record connection { ready = connection.ready ++ (m ∷ []) }

  unfoldable pub count_sent : ℕ → Op io (Unit {0})
  count_sent v =
      with_vat io v
        λ vat s. (returns tt, set_vat io v (record vat { sent = (vat.sent + 1) % 2 ^ 64 }) s)

  -- The message counts, and its task is added.
  unfoldable pub send_accepted : ℕ → Message → ℕ → Op io (Unit {0})
  unfolding record_protocol_message count_sent add_task
  send_accepted c m v = do
    update_connection c (record_protocol_message m)
    count_sent v
    update_connection c (add_task m)

  unfoldable pub send_checked : ℕ → Message → Connection io → Option Failure → Op io (Unit {0})
  unfolding send_accepted
  send_checked c m connection (some _) = pure tt
  send_checked c m connection none =
      if accepted_by connection.on_send_handler m then send_accepted c m connection.vat else pure tt

  -- OutgoingRpcMessageImpl::send
  unfoldable pub send : ℕ → Message → Op io (Unit {0})
  unfolding send_checked
  send c m =
      with_connection io c λ connection. send_checked c m connection connection.network_exception

  unfoldable pub push_message : Option Message → Connection io → Connection io
  push_message m connection = record connection { message_queue = push m connection.message_queue }

  unfoldable pub push_to_partner : Option ℕ → Message → Op io (Unit {0})
  push_to_partner none m = pure tt
  push_to_partner (some partner) m = update_connection partner (push_message (some m))

  unfoldable pub run_ready : ℕ → Option ℕ → List Message → Op io (Unit {0})
  unfolding push_to_partner
  run_ready c partner [] = pure tt
  run_ready c partner (m ∷ rest) =
      update_connection c (λ a. record a { ready = rest }) >> push_to_partner partner m

  -- The event loop runs the first ready task: the message goes to the partner, if there is one.
  unfoldable pub run_task : ℕ → Op io (Unit {0})
  unfolding run_ready
  run_task c = with_connection io c λ connection. run_ready c connection.partner connection.ready

  unfoldable pub count_received : ℕ → Op io (Unit {0})
  count_received v =
      with_vat io v λ vat s.
        (returns tt, set_vat io v (record vat { received = (vat.received + 1) % 2 ^ 64 }) s)

  -- What follows once the queue has a value.
  unfoldable pub receive_value : Connection io → Option Message → Op io (Received Message)
  unfolding fulfill_end
  receive_value connection none = fulfill_end connection.fulfill_on_end >> pure ended
  receive_value connection (some m) = count_received connection.vat >> pure (message m)

  unfoldable pub receive_popped :
      ℕ
      → Connection io
      → Option (Option Message × Queue (Option Message))
      → Op io (Received Message)
  unfolding receive_value
  receive_popped c connection none = pure waits
  receive_popped c connection (some (value, rest)) = do
    update_connection c (λ a. record a { message_queue = rest })
    receive_value connection value

  unfoldable pub receive_checked : ℕ → Connection io → Option Failure → Op io (Received Message)
  unfolding receive_popped
  receive_checked c connection (some e) = throw (network_failed e)
  receive_checked c connection none =
      if connection.initiated_idle_shutdown
      then pure ended
      else receive_popped c connection (pop connection.message_queue)

  unfoldable pub receive_incoming_message : ℕ → Op io (Received Message)
  unfolding receive_checked
  receive_incoming_message c =
      with_connection io c λ connection. receive_checked c connection connection.network_exception

  unfoldable pub end_queue : Option ℕ → Op io Shutdown
  end_queue none = pure done
  end_queue (some partner) = with_connection io partner λ p s. (
    returns (until s.next_fulfiller),
    set_connection io partner
        (record p {
          message_queue = push none p.message_queue;
          fulfill_on_end = some s.next_fulfiller;
        })
        (record s { next_fulfiller = s.next_fulfiller + 1 }),
  )

  -- The later half of `shutdown`, which the event loop runs: the partner's queue ends.
  unfoldable pub end_partner : ℕ → Op io Shutdown
  unfolding end_queue
  end_partner c = with_connection io c λ connection. end_queue connection.partner

  unfoldable pub shut_partner : Option ℕ → Op io Shutdown
  shut_partner none = pure done
  shut_partner (some partner) =
      with_connection io partner λ p. if p.initiated_idle_shutdown then pure done else pure later

  unfoldable pub shutdown : ℕ → Op io Shutdown
  unfolding shut_partner
  shutdown c = with_connection io c λ connection. shut_partner connection.partner

  unfoldable pub set_idle : ℕ → Bool → Op io (Unit {0})
  set_idle c idle = with_connection io c λ connection.
      if (if idle then connection.idle else not connection.idle)
      then throw requirement_failed
      else update_connection c (λ a. record a { idle = idle })

  -- GenericVat's destructor, over the connections that the vat has
  unfoldable pub disconnect_all : Failure → Table ℕ → Op io (Unit {0})
  disconnect_all exception [] = pure tt
  disconnect_all exception ((_, c) ∷ rest) = disconnect c exception >> disconnect_all exception rest

  unfoldable pub destroy_vat : ℕ → Failure → Op io (Unit {0})
  unfolding disconnect_all
  destroy_vat v exception = with_vat io v λ vat. disconnect_all exception vat.connections
