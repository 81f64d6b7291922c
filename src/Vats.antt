-- ===== src/Vats.antt =====
-- ffi/rpc_bridge_generic_vat.h and rpc_bridge_generic_vat.cpp: a network of vats inside one process.
-- Vats and connections are shared objects, which are known here by their numbers in the order of
-- their creation; a reference to an object that is gone is the error `dangling`, where the program
-- would have undefined behaviour. All of it runs on the runtime's worker thread. KJ's queues and the
-- messages of Cap'n Proto are a parameter (`VatIo`).
pub mod Connect
pub mod Traffic
pub mod ThirdParty
pub mod Links
pub mod Events
pub mod Introductions
pub mod Meetings
use lean_capnproto.Prelude.{
  ℕ, zero, suc, ◌+◌, ◌%◌, ◌^◌, Bool, true, false, not, Option, none, some, List, [], ◌∷◌, ◌==◌,
  if◌then◌else◌, c_str,
}
use lean_capnproto.Prelude.Exec.{Exec, returns, throws}
use lean_capnproto.Prelude.Table.{Table, find, assign}
use lean_capnproto.Prelude.Dict.{Dict, lookup, put}
use lean_capnproto.Completions.{ProtocolMessageCounts}

pub record LeanVatId : Type 0 where
  pub host : List ℕ
  pub unique : Bool

pub record LeanThirdPartyContact : Type 0 where
  pub path : LeanVatId
  pub token : ℕ
  pub sent_by : List ℕ

-- The messages `TestSturdyRefHostId` and `TestThirdPartyToContact`, with the fields that the program
-- sets.
pub record HostIdMessage : Type 0 where
  pub host : List ℕ
  pub unique : Bool

pub record ContactMessage : Type 0 where
  pub path : HostIdMessage
  pub token : ℕ
  pub sent_by : List ℕ

-- Both ways the host passes as a C string.
unfoldable pub decode_lean_vat_id : HostIdMessage → LeanVatId
decode_lean_vat_id message = record { host = c_str message.host; unique = message.unique }

unfoldable pub set_lean_vat_id : LeanVatId → HostIdMessage
set_lean_vat_id vat_id = record { host = c_str vat_id.host; unique = vat_id.unique }

unfoldable pub decode_third_party_contact : ContactMessage → LeanThirdPartyContact
unfolding decode_lean_vat_id
decode_third_party_contact message = record {
  path = decode_lean_vat_id message.path;
  token = message.token;
  sent_by = c_str message.sent_by;
}

unfoldable pub set_third_party_contact : LeanThirdPartyContact → ContactMessage
unfolding set_lean_vat_id
set_third_party_contact contact = record {
  path = set_lean_vat_id contact.path;
  token = contact.token;
  sent_by = c_str contact.sent_by;
}

-- `Message::Reader::which()`, as far as the program tells the kinds apart
pub data MessageKind : Type 0 where
  resolve disembargo other : MessageKind

-- What the program uses of KJ and Cap'n Proto: exceptions, messages, what a third party hands over,
-- and queues between producers and consumers. `pop` has no result while nothing is there.
pub record VatIo : Type 1 where
  pub Failure : Type 0
  pub Message : Type 0
  pub Value : Type 0
  pub which : Message → MessageKind
  pub Queue : Type 0 → Type 0
  pub empty_queue : {A : Type 0} → Queue A
  pub push : {A : Type 0} → A → Queue A → Queue A
  pub pop : {A : Type 0} → Queue A → Option (A × Queue A)
  pub reject_all : {A : Type 0} → Failure → Queue A → Queue A

module _ (io : VatIo) where
  open io use {Failure, Message, Value, Queue, empty_queue}

  -- ConnectionImpl. `references` counts the owners. Of the tasks, `held` waits for the end of the
  -- current block and `ready` runs when the event loop comes to it.
  pub record Connection : Type 0 where
    pub references : ℕ
    pub vat : ℕ
    pub peer_vat : ℕ
    pub unique : Bool
    pub peer_vat_id : HostIdMessage
    pub partner : Option ℕ
    pub partner_name : List ℕ
    pub network_exception : Option Failure
    pub message_queue : Queue (Option Message)
    pub fulfill_on_end : Option ℕ
    pub idle : Bool
    pub initiated_idle_shutdown : Bool
    pub blocked : Bool
    pub held : List Message
    pub ready : List Message
    pub on_send_handler : Option (Message → Bool)
    pub protocol_message_counts : ProtocolMessageCounts
    pub protocol_message_trace : List ℕ

  -- GenericVat
  pub record Vat : Type 0 where
    pub name : List ℕ
    pub sent : ℕ
    pub received : ℕ
    pub connections : Table ℕ
    pub accept_queue : Queue ℕ
    pub tph_exchanges : Table ℕ

  -- GenericVatNetwork, with the objects that are alive. An exchange is known by the value that its
  -- promise is fulfilled with.
  pub record Network : Type 0 where
    pub vats : Dict ℕ
    pub token_counter : ℕ
    pub forwarding_enabled : Bool
    pub forward_count : ℕ
    pub denied_forward_count : ℕ
    pub live_vats : Table Vat
    pub next_vat : ℕ
    pub live_connections : Table Connection
    pub next_connection : ℕ
    pub exchanges : Table (Option Value)
    pub next_exchange : ℕ
    pub next_fulfiller : ℕ
    pub fulfilled : List ℕ
    pub embargo_counter : ℕ

  pub data VatError : Type 0 where
    vat_already_exists unknown_vat_host : List ℕ → VatError
    requirement_failed dangling : VatError
    network_failed : Failure → VatError

  abbrev pub Op : Type 0 → Type 0
  Op A = Exec Network VatError A

  abbrev pub no_counts : ProtocolMessageCounts
  no_counts = record { resolve_count = 0; disembargo_count = 0 }

  unfoldable pub with_vat : {A : Type 0} → ℕ → (Vat → Op A) → Op A
  with_vat v f s = elim (find v s.live_vats) [ none ↦ (throws dangling, s) | some vat ↦ f vat s ]

  unfoldable pub with_connection : {A : Type 0} → ℕ → (Connection → Op A) → Op A
  with_connection c f s = elim (find c s.live_connections) [
    | none ↦ (throws dangling, s)
    | some connection ↦ f connection s
  ]

  unfoldable pub set_vat : ℕ → Vat → Network → Network
  set_vat v vat s = record s { live_vats = assign v vat s.live_vats }

  unfoldable pub set_connection : ℕ → Connection → Network → Network
  set_connection c connection s = record s {
    live_connections = assign c connection s.live_connections;
  }

  -- GenericVatNetwork::newToken
  unfoldable pub new_token : Op ℕ
  new_token s =
      let token = (s.token_counter + 1) % 2 ^ 64 in
      (returns token, record s { token_counter = token })

  unfoldable pub set_forwarding_enabled : Bool → Network → Network
  set_forwarding_enabled enabled s = record s { forwarding_enabled = enabled }

  unfoldable pub reset_forwarding_stats : Network → Network
  reset_forwarding_stats s = record s { forward_count = 0; denied_forward_count = 0 }

  unfoldable pub increment_forward_count : Network → Network
  increment_forward_count s = record s { forward_count = (s.forward_count + 1) % 2 ^ 64 }

  unfoldable pub increment_denied_forward_count : Network → Network
  increment_denied_forward_count s = record s {
    denied_forward_count = (s.denied_forward_count + 1) % 2 ^ 64;
  }

  -- GenericVatNetwork::find
  abbrev pub find_vat : List ℕ → Network → Option ℕ
  find_vat name s = lookup name s.vats

  -- GenericVat's constructor
  unfoldable pub make_vat : List ℕ → Vat
  make_vat name = record {
    name = name;
    sent = 0;
    received = 0;
    connections = [];
    accept_queue = empty_queue;
    tph_exchanges = [];
  }

  -- GenericVatNetwork::add
  unfoldable pub add : List ℕ → Op ℕ
  unfolding make_vat
  add name s = elim (find_vat name s) [
    | some v ↦ (throws (vat_already_exists name), s)
    | none ↦ (
      returns s.next_vat,
      record s {
        vats = put name s.next_vat s.vats;
        live_vats = assign s.next_vat (make_vat name) s.live_vats;
        next_vat = s.next_vat + 1;
      },
    )
  ]
