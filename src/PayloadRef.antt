-- ===== src/PayloadRef.antt =====
-- ffi/rpc_bridge_payload_ref.cpp: the process-wide registry of payloads that Lean holds by id.
-- A Lean object is its address, `none` the null pointer; `counts` are the reference counts of the
-- objects. A `shared_ptr` to constant bytes is the value. Every function holds the registry's mutex
-- from before it reads the registry until it returns, so a call is one step; `lean_mark_mt` changes
-- no count.
pub mod Fresh
pub mod Token
pub mod Counts
use lean_capnproto.Prelude.{
  ℕ, zero, suc, ◌+◌, ◌-◌, ◌^◌, Bool, true, false, not, ◌&&◌, ◌||◌, Option, none, some, List, [],
  ◌∷◌, ◌==◌, if◌then◌else◌, length,
}
use lean_capnproto.Prelude.Exec.{Exec, Outcome, returns, throws, loops, pure, throw, ◌>>=◌}
use lean_capnproto.Prelude.Table.{Table, find, contains, erase, assign}
use lean_capnproto.Prelude.Alloc.{allocate}

pub record RawBytes : Type 0 where
  pub message : List ℕ
  pub caps : List ℕ

pub record Entry : Type 0 where
  pub runtime_id : ℕ
  pub message_bytes : Option ℕ
  pub cap_bytes : Option ℕ
  pub raw_bytes : Option RawBytes

abbrev pub is_some {ℓ} : {A : Type ℓ} → Option A → Bool
is_some none = false
is_some (some a) = true

abbrev pub has_lean_bytes : Entry → Bool
has_lean_bytes e = is_some e.message_bytes && is_some e.cap_bytes

-- The registry's globals, and the reference counts.
pub record Registry : Type 0 where
  pub refs : Table Entry
  pub next : ℕ
  pub counts : ℕ → ℕ

pub data RefError : Type 0 where
  missing_byte_arrays : RefError

-- lean_inc and lean_dec; the callers test for null.
abbrev pub inc : Option ℕ → (ℕ → ℕ) → ℕ → ℕ
inc none counts p = counts p
inc (some o) counts p = if o == p then counts p + 1 else counts p

abbrev pub dec : Option ℕ → (ℕ → ℕ) → ℕ → ℕ
dec none counts p = counts p
dec (some o) counts p = if o == p then counts p - 1 else counts p

-- `id == 0 || refs.find(id) != refs.end()`
unfoldable pub id_taken : Table Entry → ℕ → Bool
id_taken refs id = id == 0 || contains id refs

-- One more round than there are taken ids is enough.
pub allocate_id_locked : Exec Registry RefError ℕ
allocate_id_locked s = elim (allocate (2 ^ 32) (id_taken s.refs) (length s.refs + 2) s.next) [
  | none ↦ (loops, s)
  | some (id, next) ↦ (returns id, record s { next = next })
]

-- `refs.emplace(id, entry)`, for an id that is not in use
pub emplace : Entry → ℕ → Exec Registry RefError ℕ
emplace e id s = (returns id, record s { refs = assign id e s.refs })

pub retain_inputs : Bool → Option ℕ → Option ℕ → Registry → Registry
retain_inputs retain message caps s =
    if retain then record s { counts = inc caps (inc message s.counts) } else s

pub register : ℕ → Option ℕ → Option ℕ → Bool → Exec Registry RefError ℕ
register runtime_id message caps retain s =
    let e : Entry = record {
      runtime_id = runtime_id;
      message_bytes = message;
      cap_bytes = caps;
      raw_bytes = none;
    } in
    if not (is_some message) || not (is_some caps)
    then (throws missing_byte_arrays, s)
    else (allocate_id_locked >>= emplace e) (retain_inputs retain message caps s)

pub register_raw : ℕ → RawBytes → Exec Registry RefError ℕ
register_raw runtime_id raw = do
  id ← allocate_id_locked
  emplace
      (record {
        runtime_id = runtime_id;
        message_bytes = none;
        cap_bytes = none;
        raw_bytes = some raw;
      })
      id

-- `RetainedRuntimePayloadRef`, the token by which a caller shares an entry's payload.
pub record Retained : Type 0 where
  pub runtime_id : ℕ
  pub message_bytes : Option ℕ
  pub cap_bytes : Option ℕ
  pub raw_bytes : Option RawBytes

-- The two constructors of the token.
abbrev pub retained_lean : ℕ → Option ℕ → Option ℕ → Retained
retained_lean id message caps = record {
  runtime_id = id;
  message_bytes = message;
  cap_bytes = caps;
  raw_bytes = none;
}

abbrev pub retained_raw : ℕ → Option RawBytes → Retained
retained_raw id raw = record {
  runtime_id = id;
  message_bytes = none;
  cap_bytes = none;
  raw_bytes = raw;
}

pub retain_entry : Entry → Registry → Retained × Registry
retain_entry e s =
    if has_lean_bytes e
    then (
      retained_lean e.runtime_id e.message_bytes e.cap_bytes,
      record s { counts = inc e.cap_bytes (inc e.message_bytes s.counts) },
    )
    else (retained_raw e.runtime_id e.raw_bytes, s)

pub retain : ℕ → Registry → Option Retained × Registry
retain id s = elim (find id s.refs) [
  | none ↦ (none, s)
  | some e ↦ let (token, s') = retain_entry e s in (some token, s')
]

-- The counts after the registry let go of an entry.
pub let_go : Entry → (ℕ → ℕ) → ℕ → ℕ
let_go e counts = if has_lean_bytes e then dec e.cap_bytes (dec e.message_bytes counts) else counts

pub data Released : Type 0 where
  released unknown_id different_runtime : Released

pub release : ℕ → ℕ → Registry → Released × Registry
release runtime_id id s = elim (find id s.refs) [
  | none ↦ (unknown_id, s)
  | some e ↦
      if not (e.runtime_id == runtime_id)
      then (different_runtime, s)
      else (released, record s { refs = erase id s.refs; counts = let_go e s.counts })
]

-- The loop over the map: what is left, the counts, and how many entries went.
pub release_loop : ℕ → Table Entry → (ℕ → ℕ) → ℕ → Table Entry × (ℕ → ℕ) × ℕ
release_loop runtime_id [] counts n = ([], counts, n)
release_loop runtime_id ((id, e) ∷ refs) counts n = elim (e.runtime_id == runtime_id) [
  | true ↦ release_loop runtime_id refs (let_go e counts) (n + 1)
  | false ↦
      let (left, counts', n') = release_loop runtime_id refs counts n in
      ((id, e) ∷ left, counts', n')
]

pub release_for_runtime : ℕ → Registry → ℕ × Registry
release_for_runtime runtime_id s =
    let (left, counts, n) = release_loop runtime_id s.refs s.counts 0 in
    (n, record s { refs = left; counts = counts })
