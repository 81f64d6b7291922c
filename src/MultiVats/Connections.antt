-- ===== src/MultiVats/Connections.antt =====
-- ffi/rpc_bridge_runtime.cpp: what Lean may ask of the network and do to the connection from one peer
-- to another.
use lean_capnproto.Prelude.{ℕ, Bool, true, false, Option, none, some, List, [], ◌∷◌}
use lean_capnproto.Prelude.Exec.{pure, throw, ◌>>=◌}
use lean_capnproto.Completions.{ProtocolMessageCounts}
use lean_capnproto.Wire.Words.{append_uint16_le}
use lean_capnproto.Vats.{with_connection, set_forwarding_enabled, reset_forwarding_stats}
use lean_capnproto.Vats.Connect.{get_connection_to}
use lean_capnproto.Vats.Traffic.{block, unblock, disconnect, reset_protocol_message_trace}
use lean_capnproto.MultiVats.{
  Systems, Runtime, Op, no_connection, on_network, require_multi_vat_peer,
}

module _ (systems : Systems) where
  open systems use {io}

  unfoldable multi_vat_set_forwarding_enabled : Bool → Runtime systems → Runtime systems
  multi_vat_set_forwarding_enabled enabled s = record s {
    generic_vat_network = set_forwarding_enabled io enabled s.generic_vat_network;
  }

  unfoldable multi_vat_reset_forwarding_stats : Runtime systems → Runtime systems
  multi_vat_reset_forwarding_stats s = record s {
    generic_vat_network = reset_forwarding_stats io s.generic_vat_network;
  }

  abbrev multi_vat_forward_count : Runtime systems → ℕ
  multi_vat_forward_count s = s.generic_vat_network.forward_count

  abbrev multi_vat_third_party_token_count : Runtime systems → ℕ
  multi_vat_third_party_token_count s = s.generic_vat_network.token_counter

  abbrev multi_vat_denied_forward_count : Runtime systems → ℕ
  multi_vat_denied_forward_count s = s.generic_vat_network.denied_forward_count

  abbrev is_connected : Option ℕ → Bool
  is_connected none = false
  is_connected (some _) = true

  unfoldable multi_vat_has_connection : ℕ → ℕ → Op systems Bool
  unfolding on_network
  multi_vat_has_connection from_id to_id = do
    source ← require_multi_vat_peer systems from_id
    target ← require_multi_vat_peer systems to_id
    connection ← on_network systems (get_connection_to io source.vat target.vat)
    pure (is_connected connection)

  unfoldable connection_found : List ℕ → List ℕ → Option ℕ → Op systems ℕ
  connection_found from_name to_name none = throw (no_connection from_name to_name)
  connection_found from_name to_name (some c) = pure c

  -- The lookups at the head of each operation on a connection.
  unfoldable connection_between : ℕ → ℕ → Op systems ℕ
  unfolding connection_found on_network
  connection_between from_id to_id = do
    source ← require_multi_vat_peer systems from_id
    target ← require_multi_vat_peer systems to_id
    connection ← on_network systems (get_connection_to io source.vat target.vat)
    connection_found source.name target.name connection

  unfoldable multi_vat_connection_block : ℕ → ℕ → Op systems (Unit {0})
  unfolding connection_between on_network
  multi_vat_connection_block from_id to_id = do
    c ← connection_between from_id to_id
    on_network systems (block io c)

  unfoldable multi_vat_connection_unblock : ℕ → ℕ → Op systems (Unit {0})
  unfolding connection_between on_network
  multi_vat_connection_unblock from_id to_id = do
    c ← connection_between from_id to_id
    on_network systems (unblock io c)

  -- The exception is the one that KJ makes of the type, the message and the detail.
  unfoldable multi_vat_connection_disconnect : ℕ → ℕ → io.Failure → Op systems (Unit {0})
  unfolding connection_between on_network
  multi_vat_connection_disconnect from_id to_id exception = do
    c ← connection_between from_id to_id
    on_network systems (disconnect io c exception)

  unfoldable multi_vat_connection_resolve_disembargo_counts :
      ℕ → ℕ → Op systems ProtocolMessageCounts
  unfolding connection_between on_network
  multi_vat_connection_resolve_disembargo_counts from_id to_id = do
    c ← connection_between from_id to_id
    on_network systems (with_connection io c λ a. pure a.protocol_message_counts)

  -- Each tag as two bytes.
  unfoldable trace_bytes : List ℕ → List ℕ → List ℕ
  trace_bytes out [] = out
  trace_bytes out (tag ∷ trace) = trace_bytes (append_uint16_le out tag) trace

  unfoldable multi_vat_connection_resolve_disembargo_trace : ℕ → ℕ → Op systems (List ℕ)
  unfolding connection_between on_network trace_bytes
  multi_vat_connection_resolve_disembargo_trace from_id to_id = do
    c ← connection_between from_id to_id
    trace ← on_network systems (with_connection io c λ a. pure a.protocol_message_trace)
    pure (trace_bytes [] trace)

  unfoldable multi_vat_connection_reset_resolve_disembargo_trace : ℕ → ℕ → Op systems (Unit {0})
  unfolding connection_between on_network
  multi_vat_connection_reset_resolve_disembargo_trace from_id to_id = do
    c ← connection_between from_id to_id
    on_network systems (reset_protocol_message_trace io c)
