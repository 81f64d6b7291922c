-- ===== src/Examples/VatRuns.antt =====
-- The theorems on networks of vats, at a small network: alice, who is connected to bob and to carol,
-- with queues that are lists and messages that are numbers.
use lean_capnproto.Prelude.{
  ℕ, refl, true, false, Option, none, some, List, [], ◌∷◌, ◌==◌, if◌then◌else◌, ◌++◌, codes,
}
use lean_capnproto.Prelude.Table.{find}
use lean_capnproto.Vats.{
  VatIo, MessageKind, resolve, disembargo, other, Vat, Network, Connection, LeanVatId,
}
use lean_capnproto.Vats.Events.{Event, adds, connects, drops, run, fresh_network}
use lean_capnproto.Vats.Links.{IsLinked}
use lean_capnproto.Vats.Links.Runs.{run-IsLinked}
use lean_capnproto.Vats.Introductions.{Introduced, introduce_to-Introduced}
use lean_capnproto.Vats.Meetings.{Meets, await_third_party-Meets}

abbrev pub kind_of : ℕ → MessageKind
kind_of m = if m == 1 then resolve else if m == 2 then disembargo else other

abbrev pub pop_list : {A : Type 0} → List A → Option (A × List A)
pop_list [] = none
pop_list (x ∷ xs) = some (x, xs)

abbrev pub list_io : VatIo
list_io = record {
  Failure = ℕ;
  Message = ℕ;
  Value = ℕ;
  which = kind_of;
  Queue = List;
  empty_queue = [];
  push = λ {A} (x : A) q. q ++ (x ∷ []);
  pop = λ {A} (q : List A). pop_list q;
  reject_all = λ {A} (e : ℕ) (q : List A). q;
}

abbrev plain_host : List ℕ → LeanVatId
plain_host name = record { host = name; unique = false }

abbrev alice : List ℕ
alice = codes "alice"

abbrev bob : List ℕ
bob = codes "bob"

abbrev carol : List ℕ
carol = codes "carol"

abbrev three_vats : List (Event list_io)
three_vats =
    adds alice
    ∷ adds bob
    ∷ adds carol
    ∷ connects 0 (plain_host bob)
    ∷ connects 0 (plain_host carol)
    ∷ connects 1 (plain_host carol)
    ∷ []

run-IsLinked_example :
    IsLinked list_io (run list_io (three_vats ++ (drops 0 ∷ [])) (fresh_network list_io))
run-IsLinked_example = run-IsLinked list_io (three_vats ++ (drops 0 ∷ []))

abbrev end_of : ℕ → ℕ → List ℕ → Connection list_io
end_of vat peer name = record {
  references = 1;
  vat = vat;
  peer_vat = peer;
  unique = false;
  peer_vat_id = record { host = name; unique = false };
  partner = none;
  partner_name = name;
  network_exception = none;
  message_queue = [];
  fulfill_on_end = none;
  idle = true;
  initiated_idle_shutdown = false;
  blocked = false;
  held = [];
  ready = [];
  on_send_handler = none;
  protocol_message_counts = record { resolve_count = 0; disembargo_count = 0 };
  protocol_message_trace = [];
}

-- The connections are those to the other vats.
abbrev vat_with : List ℕ → List (ℕ × ℕ) → Vat list_io
vat_with name connections = record {
  name = name;
  sent = 0;
  received = 0;
  connections = connections;
  accept_queue = [];
  tph_exchanges = [];
}

abbrev vat_alice : Vat list_io
vat_alice = vat_with alice ((1, 0) ∷ (2, 2) ∷ [])

abbrev vat_bob : Vat list_io
vat_bob = vat_with bob ((0, 1) ∷ (2, 4) ∷ [])

-- The vats and the connections of the run above, before the connection is dropped.
abbrev linked_vats : Network list_io
linked_vats = record (fresh_network list_io) {
  vats = (alice, 0) ∷ (bob, 1) ∷ (carol, 2) ∷ [];
  next_vat = 3;
  next_connection = 6;
  forwarding_enabled = true;
  live_vats = (0, vat_alice) ∷ (1, vat_bob) ∷ (2, vat_with carol ((0, 3) ∷ (1, 5) ∷ [])) ∷ [];
  live_connections =
      (0, end_of 0 1 bob)
      ∷ (1, end_of 1 0 alice)
      ∷ (2, end_of 0 2 carol)
      ∷ (3, end_of 2 0 alice)
      ∷ (4, end_of 1 2 carol)
      ∷ (5, end_of 2 1 bob)
      ∷ [];
}

introduce_to-Introduced_example :
    Introduced list_io linked_vats 0 2 1 1 5 vat_alice
      (end_of 0 2 carol)
      (end_of 1 0 alice)
      (end_of 2 1 bob)
unfolding find
introduce_to-Introduced_example =
    introduce_to-Introduced list_io linked_vats 0 2 1 1 5 (end_of 0 1 bob) (end_of 0 2 carol)
      (end_of 1 0 alice) (end_of 1 0 alice) (end_of 2 1 bob) vat_alice vat_bob refl refl refl refl
      refl refl refl refl refl refl refl refl

await_third_party-Meets_example : Meets list_io linked_vats 0 2 7 42
unfolding find
await_third_party-Meets_example =
    await_third_party-Meets list_io linked_vats 0 2 7 42 (end_of 0 1 bob) (end_of 0 2 carol)
      vat_alice refl refl refl refl refl
