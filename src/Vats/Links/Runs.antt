-- ===== src/Vats/Links/Runs.antt =====
-- ffi/rpc_bridge_generic_vat.cpp: whatever happens to a network of vats, its links stay whole.
use lean_capnproto.Prelude.{ℕ, List, [], ◌∷◌, ◌≡◌, arith, refl, Option, none, some}
use lean_capnproto.Prelude.Exec.Keeps.{Keeps, Keeps-pure, Keeps-if}
use lean_capnproto.Prelude.Table.{find}
use lean_capnproto.Vats.{VatIo, Vat, Network, set_forwarding_enabled, reset_forwarding_stats}
use lean_capnproto.Vats.Connect.{accept, accept_popped}
use lean_capnproto.Vats.Events.{
  Event, adds, connects, accepts, references, drops, runs, receives, shuts, finishes, idles, blocks,
  unblocks, resets_counts, resets_trace, sends, sets_idle, disconnects, on_sends, introduces,
  completes, contacts, forwards, may_forward, embargoes, resets_forwarding, sets_forwarding, awaits,
  drops_token, step, run, fresh_network,
}
use lean_capnproto.Vats.Traffic.{
  shutdown, shut_partner, done, later, block, unblock, on_send, reset_protocol_message_counts,
  reset_protocol_message_trace,
}
use lean_capnproto.Vats.ThirdParty.{generate_embargo_id}
use lean_capnproto.Vats.Links.{entry, partner_of, ends, home, IsLinked, with_vat_after}
use lean_capnproto.Vats.Links.Quiet.{
  Keeps-with_connection, update_connection-IsLinked, aside-IsLinked,
  initiate_idle_shutdown-IsLinked, disconnect-IsLinked, send-IsLinked, run_task-IsLinked,
  receive_incoming_message-IsLinked, end_partner-IsLinked, set_idle-IsLinked,
}
use lean_capnproto.Vats.Links.Connected.{
  edit_vat-IsLinked, add-IsLinked, connect_by_vat_id-IsLinked, add_reference-IsLinked,
  drop_reference-IsLinked,
}
use lean_capnproto.Vats.Links.Introduced.{
  introduce_to-IsLinked, connect_to_introduced-IsLinked, can_forward-IsLinked, forward-IsLinked,
  await_third_party-IsLinked, drop_token-IsLinked, complete_third_party-IsLinked,
}

module _ (io : VatIo) where
  open io use {Queue, pop}

  accept_popped-IsLinked :
      (v : ℕ) (a : Vat io) (popped : Option (ℕ × Queue ℕ)) (s : Network io)
      → find v s.live_vats ≡ some a
      → IsLinked io s
      → IsLinked io (accept_popped io v a popped s).1
  unfolding accept_popped
  accept_popped-IsLinked v a none s e h = h
  accept_popped-IsLinked v a (some (c, rest)) s e h = edit_vat-IsLinked io v s a _ e refl h

  accept-IsLinked : (v : ℕ) → Keeps (IsLinked io) (accept io v)
  unfolding accept
  accept-IsLinked v = record {
    after = λ s h.
        with_vat_after io (IsLinked io) v _ s h
          λ a e. accept_popped-IsLinked v a (pop a.accept_queue) s e h;
  }

  shut_partner-IsLinked : (p : Option ℕ) → Keeps (IsLinked io) (shut_partner io p)
  unfolding shut_partner
  shut_partner-IsLinked none = Keeps-pure done
  shut_partner-IsLinked (some p) =
      Keeps-with_connection io p _
        λ b. Keeps-if b.initiated_idle_shutdown (Keeps-pure done) (Keeps-pure later)

  shutdown-IsLinked : (c : ℕ) → Keeps (IsLinked io) (shutdown io c)
  unfolding shutdown
  shutdown-IsLinked c = Keeps-with_connection io c _ λ a. shut_partner-IsLinked a.partner

  step-IsLinked : (e : Event io) (s : Network io) → IsLinked io s → IsLinked io (step io e s)
  unfolding step block unblock on_send reset_protocol_message_counts reset_protocol_message_trace
      generate_embargo_id set_forwarding_enabled reset_forwarding_stats
  step-IsLinked (adds name) = (add-IsLinked io name).after
  step-IsLinked (connects v id) = (connect_by_vat_id-IsLinked io v id).after
  step-IsLinked (accepts v) = (accept-IsLinked v).after
  step-IsLinked (references c) = (add_reference-IsLinked io c).after
  step-IsLinked (drops c) = (drop_reference-IsLinked io c).after
  step-IsLinked (runs c) = (run_task-IsLinked io c).after
  step-IsLinked (receives c) = (receive_incoming_message-IsLinked io c).after
  step-IsLinked (shuts c) = (shutdown-IsLinked c).after
  step-IsLinked (finishes c) = (end_partner-IsLinked io c).after
  step-IsLinked (idles c) = (initiate_idle_shutdown-IsLinked io c).after
  step-IsLinked (blocks c) = (update_connection-IsLinked io c _ (λ a. refl)).after
  step-IsLinked (unblocks c) = (update_connection-IsLinked io c _ (λ a. refl)).after
  step-IsLinked (resets_counts c) = (update_connection-IsLinked io c _ (λ a. refl)).after
  step-IsLinked (resets_trace c) = (update_connection-IsLinked io c _ (λ a. refl)).after
  step-IsLinked (sends c m) = (send-IsLinked io c m).after
  step-IsLinked (sets_idle c idle) = (set_idle-IsLinked io c idle).after
  step-IsLinked (disconnects c e) = (disconnect-IsLinked io c e).after
  step-IsLinked (on_sends c handler) = (update_connection-IsLinked io c _ (λ a. refl)).after
  step-IsLinked (introduces c d) = (introduce_to-IsLinked io c d).after
  step-IsLinked (completes c token) = (complete_third_party-IsLinked io c token).after
  step-IsLinked (contacts c contact) = (connect_to_introduced-IsLinked io c contact).after
  step-IsLinked (forwards c contact) = (forward-IsLinked io c contact).after
  step-IsLinked may_forward = (can_forward-IsLinked io).after
  step-IsLinked embargoes = λ s h. aside-IsLinked io s _ refl refl refl h
  step-IsLinked resets_forwarding = λ s h. aside-IsLinked io s _ refl refl refl h
  step-IsLinked (sets_forwarding enabled) = λ s h. aside-IsLinked io s _ refl refl refl h
  step-IsLinked (awaits c token value) = (await_third_party-IsLinked io c token value).after
  step-IsLinked (drops_token handle) = (drop_token-IsLinked io handle).after

  fresh_network-IsLinked : IsLinked io (fresh_network io)
  unfolding entry partner_of ends home find
  fresh_network-IsLinked = record {
    entered = λ v w c q. ground arith;
    paired = λ c d q. ground arith;
    fresh = λ c le. refl;
    housed = λ c v w q. ground arith;
  }

  run_links : (es : List (Event io)) (s : Network io) → IsLinked io s → IsLinked io (run io es s)
  unfolding run
  run_links [] s h = h
  run_links (e ∷ es) s h = run_links es (step io e s) (step-IsLinked e s h)

  -- After any sequence of operations on a new network (adding vats, connecting, accepting, sending,
  -- delivering, receiving, blocking, disconnecting, shutting down, introducing, forwarding, awaiting
  -- and completing exchanges, and giving references back, the last of which destroys the connection)
  -- no vat has an entry for a connection that is gone or that is not its own connection to that peer,
  -- the partner of a connection is alive and has the connection as its own partner, and the two vats
  -- of every connection are alive.
  pub run-IsLinked : (es : List (Event io)) → IsLinked io (run io es (fresh_network io))
  run-IsLinked es = run_links es (fresh_network io) fresh_network-IsLinked
