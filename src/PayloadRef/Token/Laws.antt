-- ===== src/PayloadRef/Token/Laws.antt =====
-- ffi/rpc_bridge_payload_ref.cpp and its header: what a payload's life from registration to the
-- token's end gives back.
use lean_capnproto.Prelude.{
  ℕ, ◌+◌, ◌≤◌, ◌≡◌, refl, ap, Bool, Option, none, some, List, arith, length,
}
use lean_capnproto.Prelude.Exec.{returns}
use lean_capnproto.Prelude.Table.{Table, find, assign, find-assign}
use lean_capnproto.PayloadRef.{
  Registry, Entry, RawBytes, Retained, retained_lean, retained_raw, retain_entry, retain,
  retain_inputs, register, register_raw, inc,
}
use lean_capnproto.PayloadRef.Fresh.{
  HasRoom, lean_entry, raw_entry, register_entry, register_raw_fresh,
}
use lean_capnproto.PayloadRef.Counts.{token_held, retain_known}
use lean_capnproto.PayloadRef.Token.{message_data, message_size, reset, move, move_assign}

retain_assigned :
    (id next : ℕ) (e : Entry) (refs : Table Entry) (counts : ℕ → ℕ)
    → let s : Registry = record { refs = assign id e refs; next = next; counts = counts } in
      retain id s ≡ (some (retain_entry e s).0, (retain_entry e s).1)
retain_assigned id next e refs counts =
    retain_known _ id e (ground (arith, find-assign id id e refs))

-- The payload is shared under the id that it was given.
abbrev pub SharesRaw : ℕ → RawBytes → Registry → Type 0
SharesRaw runtime_id raw s =
    (id : ℕ) × (s' : Registry) × (register_raw runtime_id raw s ≡ (returns id, s'))
    × (retain id s' ≡ (some (retained_raw runtime_id (some raw)), s'))

-- With room in the registry, a payload that was registered raw is found under its id and shared unchanged, and sharing it
-- touches no count.
pub register_raw-retain :
    (s : Registry) (runtime_id : ℕ) (raw : RawBytes) → HasRoom s → SharesRaw runtime_id raw s
register_raw-retain s runtime_id raw h =
    let (id, next, e, fresh) = register_raw_fresh s runtime_id raw h in
    (id, _, e, unfold retain_entry in retain_assigned id next (raw_entry runtime_id raw) s.refs _)

-- The payload is shared under the id that it was given.
abbrev pub Shares : ℕ → ℕ → ℕ → Bool → Registry → Type 0
Shares runtime_id message caps keep s =
    (id : ℕ) × (s' : Registry) × (register runtime_id (some message) (some caps) keep s
      ≡ (returns id, s'))
    × ((retain id s').0 ≡ some (retained_lean runtime_id (some message) (some caps)))
    × ((retain id s').1.counts ≡ inc (some caps) (inc (some message) s'.counts))

-- With room in the registry, two Lean byte arrays that were registered are found under their id and
-- shared as they are, with one more reference to each.
pub register-retain :
    (s : Registry) (runtime_id message caps : ℕ) (keep : Bool)
    → HasRoom s
    → Shares runtime_id message caps keep s
register-retain s runtime_id message caps keep h =
    let (id, next, e, fresh) = register_entry s runtime_id message caps keep h in
    let shared =
      retain_assigned id next (lean_entry runtime_id message caps) s.refs
        (retain_inputs keep (some message) (some caps) s).counts in
    (
      id,
      _,
      e,
      (unfold retain_entry in ap (λ (r : Option Retained × Registry). r.0) shared),
      (unfold retain_entry in ap (λ (r : Option Retained × Registry). r.1.counts) shared),
    )

-- A token and its end leave the count as it was.
abbrev pub Restores : ℕ → ℕ → Registry → Type 0
Restores id p s =
    (t : Retained) × ((retain id s).0 ≡ some t)
    × ((reset t (retain id s).1.counts).1 p ≡ s.counts p)
    × ((retain id s).1.refs ≡ s.refs)

-- For an id that is known, `retain` gives a token whose end restores the count of every object, and
-- leaves the registry as it is.
pub retain-reset : (s : Registry) (id p : ℕ) (e : Entry) → find id s.refs ≡ some e → Restores id p s
retain-reset s id p e h = (
  (retain_entry e s).0,
  rw (retain_known s id e h),
  rw (retain_known s id e h) (unfold reset retain_entry in ground arith),
  rw (retain_known s id e h) (unfold retain_entry in ground arith),
)

-- What a move assignment leaves: this token, the other one and the count of an object.
abbrev pub Moves : Retained → Retained → (ℕ → ℕ) → ℕ → Type 0
Moves this other counts p =
    let r = move_assign this other counts in
    (r.0.runtime_id ≡ other.runtime_id)
    × (r.0.message_bytes ≡ other.message_bytes)
    × (r.0.cap_bytes ≡ other.cap_bytes)
    × (r.0.raw_bytes ≡ other.raw_bytes)
    × (r.1.message_bytes ≡ none)
    × (r.1.cap_bytes ≡ none)
    × (r.1.raw_bytes ≡ none)
    × (r.2 p + token_held p this ≡ counts p)

-- In a move assignment to a token that owns no more references than there are, the token gives back
-- what it owned, which is all that changes the counts, and then has the runtime id, the byte arrays
-- and the raw bytes of the other one, which is left with no byte array and no raw bytes.
pub move_assign-counts :
    (this other : Retained) (counts : ℕ → ℕ) (p : ℕ)
    → token_held p this ≤ counts p
    → Moves this other counts p
unfolding move_assign move reset token_held
move_assign-counts this other counts p h = (refl, refl, refl, refl, refl, refl, refl, ground arith)

-- The sizes are those of the data, and 0 where the pointer is null.
message_size-data :
    (contents : ℕ → List ℕ) (t : Retained)
    → message_size contents t
      ≡ (elim (message_data contents t) [ none ↦ 0 | some bytes ↦ length bytes ])
unfolding message_size message_data
message_size-data contents t = ground arith
