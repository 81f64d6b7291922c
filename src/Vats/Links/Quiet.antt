-- ===== src/Vats/Links/Quiet.antt =====
-- ffi/rpc_bridge_generic_vat.cpp: the traffic on a connection changes nothing that the vats and ends
-- know of each other.
use lean_capnproto.Prelude.{
  ℕ, ◌+◌, ◌≡◌, refl, ap, arith, Bool, not, Option, none, some, List, [], ◌∷◌, if◌then◌else◌,
}
use lean_capnproto.Prelude.Exec.Keeps.{Keeps, Keeps-bind, Keeps-pure, Keeps-throw, Keeps-if}
use lean_capnproto.Prelude.Table.{Table}
use lean_capnproto.Vats.{
  VatIo, MessageKind, Vat, Network, Connection, Op, with_vat, with_connection, set_connection,
  network_failed, requirement_failed,
}
use lean_capnproto.Vats.Traffic.{
  ended, waits, done, message, update_connection, fulfill_end, initiate_idle_shutdown, disconnected,
  disconnect, record_kind, record_protocol_message, accepted_by, add_task, count_sent, send,
  push_message, push_to_partner, run_ready, run_task, send_accepted, send_checked, receive_popped,
  receive_checked, end_queue, count_received, receive_value, receive_incoming_message, end_partner,
  set_idle, disconnect_all, destroy_vat,
}
use lean_capnproto.Vats.Links.{
  IsLinked, aside-SameLinks, SameLinks-IsLinked, with_connection_after, with_vat_after,
  set_connection-SameLinks, set_vat-SameLinks,
}

module _ (io : VatIo) where
  open io use {Failure, Queue, Message, which, push, pop}

  -- A change of a connection that its links do not show.
  abbrev links_of : Connection io → Option ℕ × ℕ × ℕ × Bool
  links_of a = (a.partner, a.vat, a.peer_vat, a.unique)

  abbrev IsQuiet : (Connection io → Connection io) → Type 0
  IsQuiet f = (a : Connection io) → links_of (f a) ≡ links_of a

  abbrev Linked : Network io → Type 0
  Linked = IsLinked io

  module _ {A : Type 0} where
    pub Keeps-with_connection :
        (c : ℕ) (f : Connection io → Op io A)
        → ((a : Connection io) → Keeps Linked (f a))
        → Keeps Linked (with_connection io c f)
    Keeps-with_connection c f k = record {
      after = λ s h. with_connection_after io Linked c f s h (λ a _. (k a).after s h);
    }

    pub Keeps-with_vat :
        (v : ℕ) (f : Vat io → Op io A)
        → ((a : Vat io) → Keeps Linked (f a))
        → Keeps Linked (with_vat io v f)
    Keeps-with_vat v f k = record {
      after = λ s h. with_vat_after io Linked v f s h (λ a _. (k a).after s h);
    }

  pub update_connection-IsLinked :
      (c : ℕ) (f : Connection io → Connection io)
      → IsQuiet f
      → Keeps Linked (update_connection io c f)
  unfolding update_connection
  update_connection-IsLinked c f q = record {
    after = λ s h. with_connection_after io Linked c _ s h λ a e.
        SameLinks-IsLinked io s (set_connection io c (f a) s)
          (set_connection-SameLinks io s c a e (f a) (ap (λ l. l.0) (q a)) (ap (λ l. l.1) (q a))
            (ap (λ l. l.2) (q a)) (ap (λ l. l.3) (q a)))
          h;
  }

  pub aside-IsLinked :
      (s t : Network io)
      → t.live_vats ≡ s.live_vats
      → t.live_connections ≡ s.live_connections
      → t.next_connection ≡ s.next_connection
      → Linked s
      → Linked t
  aside-IsLinked s t hv hc hn = SameLinks-IsLinked io s t (aside-SameLinks io s t hv hc hn)

  fulfill_end-IsLinked : (f : Option ℕ) → Keeps Linked (fulfill_end io f)
  unfolding fulfill_end
  fulfill_end-IsLinked none = record { after = λ s h. h }
  fulfill_end-IsLinked (some f) = record { after = λ s h. aside-IsLinked s _ refl refl refl h }

  pub initiate_idle_shutdown-IsLinked : (c : ℕ) → Keeps Linked (initiate_idle_shutdown io c)
  unfolding initiate_idle_shutdown
  initiate_idle_shutdown-IsLinked c = record {
    after = λ s h. with_connection_after io Linked c _ s h λ a e.
        (fulfill_end-IsLinked a.fulfill_on_end).after _
          (SameLinks-IsLinked io s _ (set_connection-SameLinks io s c a e _ refl refl refl refl) h);
  }

  pub disconnect-IsLinked : (c : ℕ) (exception : Failure) → Keeps Linked (disconnect io c exception)
  unfolding disconnect disconnected
  disconnect-IsLinked c exception =
      update_connection-IsLinked c (disconnected io exception) λ a. refl

  record_kind-IsQuiet : (k : MessageKind) → IsQuiet (record_kind io k)
  unfolding record_kind
  record_kind-IsQuiet k = λ a. ground arith

  add_task-IsQuiet : (m : Message) → IsQuiet (add_task io m)
  unfolding add_task
  add_task-IsQuiet m = λ a. ground arith

  -- A step that changes neither a vat's connections nor anything else of the links.
  count_sent-IsLinked : (v : ℕ) → Keeps Linked (count_sent io v)
  unfolding count_sent
  count_sent-IsLinked v = record {
    after = λ s h.
        with_vat_after io Linked v _ s h
          λ a e. SameLinks-IsLinked io s _ (set_vat-SameLinks io s v a _ e refl) h;
  }

  count_received-IsLinked : (v : ℕ) → Keeps Linked (count_received io v)
  unfolding count_received
  count_received-IsLinked v = record {
    after = λ s h.
        with_vat_after io Linked v _ s h
          λ a e. SameLinks-IsLinked io s _ (set_vat-SameLinks io s v a _ e refl) h;
  }

  send_accepted-IsLinked : (c : ℕ) (m : Message) (v : ℕ) → Keeps Linked (send_accepted io c m v)
  unfolding send_accepted record_protocol_message
  send_accepted-IsLinked c m v =
      Keeps-bind (update_connection-IsLinked c _ (record_kind-IsQuiet (which m))) λ _.
        Keeps-bind (count_sent-IsLinked v)
          λ _. update_connection-IsLinked c (add_task io m) (add_task-IsQuiet m)

  send_checked-IsLinked :
      (c : ℕ) (m : Message) (a : Connection io) (e : Option Failure)
      → Keeps Linked (send_checked io c m a e)
  unfolding send_checked
  send_checked-IsLinked c m a (some e) = Keeps-pure tt
  send_checked-IsLinked c m a none =
      Keeps-if (accepted_by io a.on_send_handler m) (send_accepted-IsLinked c m a.vat)
        (Keeps-pure tt)

  pub send-IsLinked : (c : ℕ) (m : Message) → Keeps Linked (send io c m)
  unfolding send
  send-IsLinked c m = Keeps-with_connection c _ λ a. send_checked-IsLinked c m a a.network_exception

  push_to_partner-IsLinked :
      (partner : Option ℕ) (m : Message) → Keeps Linked (push_to_partner io partner m)
  unfolding push_to_partner push_message
  push_to_partner-IsLinked none m = Keeps-pure tt
  push_to_partner-IsLinked (some p) m = update_connection-IsLinked p _ λ a. refl

  run_ready-IsLinked :
      (c : ℕ) (partner : Option ℕ) (tasks : List Message)
      → Keeps Linked (run_ready io c partner tasks)
  unfolding run_ready
  run_ready-IsLinked c partner [] = Keeps-pure tt
  run_ready-IsLinked c partner (m ∷ rest) =
      Keeps-bind (update_connection-IsLinked c _ (λ a. refl))
        λ _. push_to_partner-IsLinked partner m

  pub run_task-IsLinked : (c : ℕ) → Keeps Linked (run_task io c)
  unfolding run_task
  run_task-IsLinked c = Keeps-with_connection c _ λ a. run_ready-IsLinked c a.partner a.ready

  receive_value-IsLinked :
      (a : Connection io) (value : Option Message) → Keeps Linked (receive_value io a value)
  unfolding receive_value
  receive_value-IsLinked a none =
      Keeps-bind (fulfill_end-IsLinked a.fulfill_on_end) λ _. Keeps-pure ended
  receive_value-IsLinked a (some m) =
      Keeps-bind (count_received-IsLinked a.vat) λ _. Keeps-pure (message m)

  receive_popped-IsLinked :
      (c : ℕ) (a : Connection io) (popped : Option (Option Message × Queue (Option Message)))
      → Keeps Linked (receive_popped io c a popped)
  unfolding receive_popped
  receive_popped-IsLinked c a none = Keeps-pure waits
  receive_popped-IsLinked c a (some (value, rest)) =
      Keeps-bind (update_connection-IsLinked c _ (λ b. refl)) λ _. receive_value-IsLinked a value

  receive_checked-IsLinked :
      (c : ℕ) (a : Connection io) (e : Option Failure) → Keeps Linked (receive_checked io c a e)
  unfolding receive_checked
  receive_checked-IsLinked c a (some f) = Keeps-throw (network_failed f)
  receive_checked-IsLinked c a none =
      Keeps-if a.initiated_idle_shutdown (Keeps-pure ended)
        (receive_popped-IsLinked c a (pop a.message_queue))

  pub receive_incoming_message-IsLinked : (c : ℕ) → Keeps Linked (receive_incoming_message io c)
  unfolding receive_incoming_message
  receive_incoming_message-IsLinked c =
      Keeps-with_connection c _ λ a. receive_checked-IsLinked c a a.network_exception

  end_queue-IsLinked : (partner : Option ℕ) → Keeps Linked (end_queue io partner)
  unfolding end_queue
  end_queue-IsLinked none = Keeps-pure done
  end_queue-IsLinked (some p) = record {
    after = λ s h. with_connection_after io Linked p _ s h λ b e.
        let t = record s { next_fulfiller = s.next_fulfiller + 1 } in
        SameLinks-IsLinked io t _ (set_connection-SameLinks io t p b e _ refl refl refl refl)
          (aside-IsLinked s t refl refl refl h);
  }

  pub end_partner-IsLinked : (c : ℕ) → Keeps Linked (end_partner io c)
  unfolding end_partner
  end_partner-IsLinked c = Keeps-with_connection c _ λ a. end_queue-IsLinked a.partner

  disconnect_all-IsLinked :
      (exception : Failure) (t : Table ℕ) → Keeps Linked (disconnect_all io exception t)
  unfolding disconnect_all
  disconnect_all-IsLinked exception [] = Keeps-pure tt
  disconnect_all-IsLinked exception ((_, c) ∷ t) =
      Keeps-bind (disconnect-IsLinked c exception) λ _. disconnect_all-IsLinked exception t

  destroy_vat-IsLinked : (v : ℕ) (exception : Failure) → Keeps Linked (destroy_vat io v exception)
  unfolding destroy_vat
  destroy_vat-IsLinked v exception =
      Keeps-with_vat v _ λ a. disconnect_all-IsLinked exception a.connections

  pub set_idle-IsLinked : (c : ℕ) (idle : Bool) → Keeps Linked (set_idle io c idle)
  unfolding set_idle
  set_idle-IsLinked c idle = Keeps-with_connection c _ λ a.
      Keeps-if (if idle then a.idle else not a.idle) (Keeps-throw requirement_failed)
        (update_connection-IsLinked c _ (λ b. refl))
