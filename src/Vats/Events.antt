-- ===== src/Vats/Events.antt =====
-- ffi/rpc_bridge_generic_vat.cpp: everything that the RPC systems of the vats, the runtime and the
-- event loop do to a network, as events, and what a sequence of them leads to.
use lean_capnproto.Prelude.{ℕ, Bool, List, [], ◌∷◌}
use lean_capnproto.Vats.{
  LeanVatId, ContactMessage, VatIo, Network, Op, add, set_forwarding_enabled,
  reset_forwarding_stats,
}
use lean_capnproto.Vats.Connect.{connect_by_vat_id, accept, add_reference, drop_reference}
use lean_capnproto.Vats.Traffic.{
  send, run_task, receive_incoming_message, end_partner, shutdown, set_idle, initiate_idle_shutdown,
  disconnect, block, unblock, on_send, reset_protocol_message_counts, reset_protocol_message_trace,
}
use lean_capnproto.Vats.ThirdParty.{
  introduce_to, connect_to_introduced, can_forward_third_party_to_contact,
  forward_third_party_to_contact, await_third_party, drop_token, complete_third_party,
  generate_embargo_id,
}

module _ (io : VatIo) where
  open io use {Failure, Message, Value}

  pub data Event : Type 0 where
    adds : List ℕ → Event
    connects : ℕ → LeanVatId → Event
    accepts references drops runs receives shuts finishes idles blocks unblocks : ℕ → Event
    resets_counts resets_trace : ℕ → Event
    sends : ℕ → Message → Event
    sets_idle : ℕ → Bool → Event
    disconnects : ℕ → Failure → Event
    on_sends : ℕ → (Message → Bool) → Event
    introduces completes : ℕ → ℕ → Event
    contacts forwards : ℕ → ContactMessage → Event
    may_forward embargoes resets_forwarding : Event
    sets_forwarding : Bool → Event
    awaits : ℕ → ℕ → Value → Event
    drops_token : ℕ × ℕ → Event

  abbrev pub after : {A : Type 0} → Op io A → Network io → Network io
  after m s = (m s).1

  unfoldable pub step : Event → Network io → Network io
  step (adds name) = after (add io name)
  step (connects v id) = after (connect_by_vat_id io v id)
  step (accepts v) = after (accept io v)
  step (references c) = after (add_reference io c)
  step (drops c) = after (drop_reference io c)
  step (runs c) = after (run_task io c)
  step (receives c) = after (receive_incoming_message io c)
  step (shuts c) = after (shutdown io c)
  step (finishes c) = after (end_partner io c)
  step (idles c) = after (initiate_idle_shutdown io c)
  step (blocks c) = after (block io c)
  step (unblocks c) = after (unblock io c)
  step (resets_counts c) = after (reset_protocol_message_counts io c)
  step (resets_trace c) = after (reset_protocol_message_trace io c)
  step (sends c m) = after (send io c m)
  step (sets_idle c idle) = after (set_idle io c idle)
  step (disconnects c e) = after (disconnect io c e)
  step (on_sends c handler) = after (on_send io c handler)
  step (introduces c d) = after (introduce_to io c d)
  step (completes c token) = after (complete_third_party io c token)
  step (contacts c contact) = after (connect_to_introduced io c contact)
  step (forwards c contact) = after (forward_third_party_to_contact io c contact)
  step may_forward = after (can_forward_third_party_to_contact io)
  step embargoes = after (generate_embargo_id io)
  step resets_forwarding = reset_forwarding_stats io
  step (sets_forwarding enabled) = set_forwarding_enabled io enabled
  step (awaits c token value) = after (await_third_party io c token value)
  step (drops_token handle) = after (drop_token io handle)

  unfoldable pub run : List Event → Network io → Network io
  run [] s = s
  run (e ∷ es) s = run es (step e s)

  -- GenericVatNetwork, as its members are initialised
  abbrev pub fresh_network : Network io
  fresh_network = record {
    vats = [];
    token_counter = 0;
    forwarding_enabled = Bool.false;
    forward_count = 0;
    denied_forward_count = 0;
    live_vats = [];
    next_vat = 0;
    live_connections = [];
    next_connection = 0;
    exchanges = [];
    next_exchange = 0;
    next_fulfiller = 0;
    fulfilled = [];
    embargo_counter = 0;
  }
