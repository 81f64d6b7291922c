-- ===== src/Examples/Payloads.antt =====
-- ffi/rpc_bridge_payload_ref.cpp: a registry with one raw payload and one of Lean objects.
use lean_capnproto.Prelude.{ℕ, ◌≤◌, ◌≡◌, refl, true, none, some, [], ◌∷◌, arith}
use lean_capnproto.Prelude.Table.{contains, find}
use lean_capnproto.Prelude.Table.Weight.{weight}
use lean_capnproto.PayloadRef.{
  Registry, Entry, RawBytes, Retained, retained_lean, release, release_for_runtime,
}
use lean_capnproto.PayloadRef.Fresh.{HasRoom, RegistersFresh, register_fresh}
use lean_capnproto.PayloadRef.Counts.{
  held, token_held, Owned, Conserved, owned_by, unless_owned, release-Conserved,
  release_for_runtime_lem,
}
use lean_capnproto.PayloadRef.Token.Laws.{
  SharesRaw, Shares, Restores, register_raw-retain, register-retain, retain-reset, Moves,
  move_assign-counts,
}

abbrev some_bytes : RawBytes
some_bytes = record { message = 1 ∷ []; caps = [] }

abbrev lean_payload : Entry
lean_payload = record {
  runtime_id = 9;
  message_bytes = some 100;
  cap_bytes = some 101;
  raw_bytes = none;
}

-- Each object has one reference.
abbrev one_entry : Registry
one_entry = record { refs = (1, lean_payload) ∷ []; next = 2; counts = λ p. 1 }

one_entry-HasRoom : HasRoom one_entry
one_entry-HasRoom = record { counter = omega arith; room = omega arith }

one_entry-Owned : Owned one_entry
unfolding contains weight held
one_entry-Owned = record { distinct = (refl, tt); alive = λ p. ground arith }

register_fresh_example : RegistersFresh 9 200 201 true one_entry
register_fresh_example = register_fresh one_entry 9 200 201 true one_entry-HasRoom

register_raw-retain_example : SharesRaw 9 some_bytes one_entry
register_raw-retain_example = register_raw-retain one_entry 9 some_bytes one_entry-HasRoom

register-retain_example : Shares 9 200 201 true one_entry
register-retain_example = register-retain one_entry 9 200 201 true one_entry-HasRoom

one_entry-found : find 1 one_entry.refs ≡ some lean_payload
unfolding find
one_entry-found = refl

retain-reset_example : Restores 1 100 one_entry
retain-reset_example = retain-reset one_entry 1 100 lean_payload one_entry-found

release-Conserved_example : Conserved 100 one_entry (release 9 1 one_entry).1
release-Conserved_example = release-Conserved one_entry 9 1 100 one_entry-Owned

release_for_runtime_lem_example :
    ((release_for_runtime 9 one_entry).0 ≡ weight (owned_by 9) one_entry.refs)
    × ((j : ℕ)
        → find j (release_for_runtime 9 one_entry).1.refs ≡ unless_owned 9 (find j one_entry.refs))
    × ((p : ℕ) → Conserved p one_entry (release_for_runtime 9 one_entry).1)
    × Owned (release_for_runtime 9 one_entry).1
release_for_runtime_lem_example = release_for_runtime_lem one_entry 9 one_entry-Owned

abbrev first_token : Retained
first_token = retained_lean 9 (some 100) (some 101)

abbrev second_token : Retained
second_token = retained_lean 9 (some 102) (some 101)

first_token-held : token_held 100 first_token ≤ 1
unfolding token_held
first_token-held = omega arith

move_assign-counts_example : Moves first_token second_token (λ p. 1) 100
move_assign-counts_example =
    move_assign-counts first_token second_token (λ p. 1) 100 first_token-held
