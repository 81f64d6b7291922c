-- ===== src/PayloadRef/Fresh.antt =====
-- ffi/rpc_bridge_payload_ref.cpp: the ids that the registry gives out.
use lean_capnproto.Prelude.{
  ℕ, ◌+◌, ◌^◌, ◌≤◌, ◌<◌, ◌≡◌, ◌≢◌, ◌⊎◌, refl, Bool, true, false, Option, none, some, ◌∷◌, arith,
  length, ◌==◌, if◌then◌else◌,
}
use lean_capnproto.Prelude.Exec.{returns, throws}
use lean_capnproto.Prelude.Table.{contains, elem, keys, assign, contains-keys, length-keys}
use lean_capnproto.Prelude.Alloc.{allocate, allocate-free, allocate-lt, allocate_total}
use lean_capnproto.PayloadRef.{
  Registry, Entry, RawBytes, id_taken, allocate_id_locked, emplace, retain_inputs, register,
  register_raw, missing_byte_arrays,
}

-- The counter is a `uint32_t`, and there is an id left besides 0.
pub record HasRoom (s : Registry) : Type 0 where
  pub counter : s.next < 2 ^ 32
  pub room : length s.refs + 2 ≤ 2 ^ 32

-- An id that no entry has, and that is not 0.
abbrev IsFresh : Registry → ℕ → Type 0
IsFresh s id = (id ≢ 0) × (id < 2 ^ 32) × (contains id s.refs ≡ false)

id_taken-elem : (s : Registry) (i : ℕ) → id_taken s.refs i ≡ elem i (0 ∷ keys s.refs)
unfolding id_taken elem
id_taken-elem s i = ground (arith, contains-keys i s.refs)

not_taken :
    (s : Registry) (id : ℕ) → id_taken s.refs id ≡ false → (id ≢ 0) × (contains id s.refs ≡ false)
unfolding id_taken
not_taken s id h = ground arith

-- The id that is given out, with the counter behind it.
abbrev Allocated : Registry → ℕ × ℕ → Type 0
Allocated s r =
    (allocate_id_locked s ≡ (returns r.0, record s { next = r.1 })) × IsFresh s r.0 × (r.1 < 2 ^ 32)

Allocated-of_found :
    (s : Registry) (r : ℕ × ℕ)
    → HasRoom s
    → allocate (2 ^ 32) (id_taken s.refs) (length s.refs + 2) s.next ≡ some r
    → Allocated s r
unfolding allocate_id_locked
Allocated-of_found s (id, next) h e =
    let free = allocate-free (2 ^ 32) (id_taken s.refs) (length s.refs + 2) s.next id next e in
    let (small, small') =
      allocate-lt (2 ^ 32) (id_taken s.refs) (length s.refs + 2) s.next id next h.counter e in
    let (nonzero, absent) = not_taken s id free in
    (rw (e, allocate_id_locked), (nonzero, small, absent), small')

allocate_id_locked-fresh : (s : Registry) → HasRoom s → (r : ℕ × ℕ) × Allocated s r
allocate_id_locked-fresh s h =
    let (r, e) =
      allocate_total (2 ^ 32) (id_taken s.refs) (0 ∷ keys s.refs) (length s.refs + 2) s.next
        (id_taken-elem s) (omega (arith, length-keys s.refs)) h.room h.counter in
    (r, Allocated-of_found s r h e)

abbrev pub lean_entry : ℕ → ℕ → ℕ → Entry
lean_entry runtime_id message caps = record {
  runtime_id = runtime_id;
  message_bytes = some message;
  cap_bytes = some caps;
  raw_bytes = none;
}

abbrev pub raw_entry : ℕ → RawBytes → Entry
raw_entry runtime_id raw = record {
  runtime_id = runtime_id;
  message_bytes = none;
  cap_bytes = none;
  raw_bytes = some raw;
}

-- How many of two byte arrays an object is.
abbrev uses : ℕ → ℕ → ℕ → ℕ
uses message caps p = (if message == p then 1 else 0) + (if caps == p then 1 else 0)

-- The registry has one new entry, under a fresh id, and the two byte arrays have one more reference
-- each if that is asked for.
abbrev pub RegistersFresh : ℕ → ℕ → ℕ → Bool → Registry → Type 0
RegistersFresh runtime_id message caps retain s =
    (id : ℕ) × (s' : Registry) × (register runtime_id (some message) (some caps) retain s
      ≡ (returns id, s'))
    × IsFresh s id
    × (s'.refs ≡ assign id (lean_entry runtime_id message caps) s.refs)
    × ((p : ℕ) → s'.counts p ≡ s.counts p + (if retain then uses message caps p else 0))

pub register_entry :
    (s : Registry) (runtime_id message caps : ℕ) (retain : Bool)
    → HasRoom s
    → (id : ℕ) × (next : ℕ) × (register runtime_id (some message) (some caps) retain s ≡ (
      returns id,
      record {
        refs = assign id (lean_entry runtime_id message caps) s.refs;
        next = next;
        counts = (retain_inputs retain (some message) (some caps) s).counts;
      },
    ))
      × IsFresh s id
unfolding register retain_inputs
register_entry s runtime_id message caps true h =
    let s' = retain_inputs true (some message) (some caps) s in
    let room : HasRoom s' = record { counter = h.counter; room = h.room } in
    let (r, (e, fresh, _)) = allocate_id_locked-fresh s' room in
    (r.0, r.1, rw e (unfold emplace in refl), fresh)
register_entry s runtime_id message caps false h =
    let (r, (e, fresh, _)) = allocate_id_locked-fresh s h in
    (r.0, r.1, rw e (unfold emplace in refl), fresh)

retained_counts :
    (retain : Bool) (message caps p : ℕ) (s : Registry)
    → (retain_inputs retain (some message) (some caps) s).counts p
      ≡ s.counts p + (if retain then uses message caps p else 0)
unfolding retain_inputs
retained_counts true message caps p s = ground arith
retained_counts false message caps p s = omega arith

-- With room in the registry, `registerRuntimePayloadRef` of two objects returns: an id that is not
-- 0, fits 32 bits and was not in use, under which the registry holds just the new entry besides the
-- old ones. If asked, each of the two objects gets one more reference (two if both are one object);
-- no other count changes, and none at all if not asked.
pub register_fresh :
    (s : Registry) (runtime_id message caps : ℕ) (retain : Bool)
    → HasRoom s
    → RegistersFresh runtime_id message caps retain s
register_fresh s runtime_id message caps retain h =
    let (id, next, e, fresh) = register_entry s runtime_id message caps retain h in
    (id, _, e, fresh, refl, λ p. retained_counts retain message caps p s)

-- A null byte array is refused, and nothing changes.
register_null :
    (s : Registry) (runtime_id : ℕ) (message caps : Option ℕ) (retain : Bool)
    → (message ≡ none) ⊎ (caps ≡ none)
    → register runtime_id message caps retain s ≡ (throws missing_byte_arrays, s)
unfolding register
register_null s runtime_id message caps retain h = ground arith

-- The registry has one new entry, under a fresh id.
abbrev RegistersRawFresh : ℕ → RawBytes → Registry → Type 0
RegistersRawFresh runtime_id raw s =
    (id : ℕ) × (next : ℕ) × (register_raw runtime_id raw s ≡ (
      returns id,
      record { refs = assign id (raw_entry runtime_id raw) s.refs; next = next; counts = s.counts },
    ))
    × IsFresh s id

-- With room in the registry, `registerRuntimePayloadRefFromRawCallResult` returns: an id that is not
-- 0, fits 32 bits and was not in use, under which the registry holds just the new raw entry besides
-- the old ones; no count changes.
pub register_raw_fresh :
    (s : Registry) (runtime_id : ℕ) (raw : RawBytes)
    → HasRoom s
    → RegistersRawFresh runtime_id raw s
unfolding register_raw
register_raw_fresh s runtime_id raw h =
    let (r, (e, fresh, _)) = allocate_id_locked-fresh s h in
    (r.0, r.1, rw e (unfold emplace in refl), fresh)
