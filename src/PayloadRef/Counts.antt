-- ===== src/PayloadRef/Counts.antt =====
-- ffi/rpc_bridge_payload_ref.cpp: the reference counts that the registry and its tokens own.
use lean_capnproto.Prelude.{
  ℕ, ◌+◌, ◌≤◌, ◌≡◌, ◌≢◌, ◌⊎◌, refl, ◌∙◌, false, Option, none, some, [], ◌∷◌, ◌==◌, arith,
  if◌then◌else◌, inl, inr, Bool-cases, Option-cases,
}
use lean_capnproto.Prelude.Table.{Table, find, contains, erase, find_absent, find-erase}
use lean_capnproto.Prelude.Table.Weight.{Distinct, weight, erase-Distinct, weight-erase}
use lean_capnproto.PayloadRef.{
  Registry, Entry, Retained, released, unknown_id, different_runtime, has_lean_bytes, let_go,
  retain_entry, retain, release, release_loop, release_for_runtime,
}

abbrev refers : ℕ → Option ℕ → ℕ
refers p none = 0
refers p (some o) = if o == p then 1 else 0

-- How many references to the object `p` an entry owns, and a token.
unfoldable pub held : ℕ → Entry → ℕ
held p e = if has_lean_bytes e then refers p e.message_bytes + refers p e.cap_bytes else 0

unfoldable pub token_held : ℕ → Retained → ℕ
token_held p t = refers p t.message_bytes + refers p t.cap_bytes

-- The objects are alive: each has at least the references that the registry owns.
pub record Owned (s : Registry) : Type 0 where
  pub distinct : Distinct s.refs
  pub alive : (p : ℕ) → weight (held p) s.refs ≤ s.counts p

let_go-held :
    (e : Entry) (counts : ℕ → ℕ) (p : ℕ)
    → held p e ≤ counts p
    → let_go e counts p + held p e ≡ counts p
unfolding let_go held
let_go-held e counts p h = ground arith

retain_entry-held :
    (e : Entry) (s : Registry) (p : ℕ)
    → (retain_entry e s).1.counts p ≡ s.counts p + token_held p (retain_entry e s).0
unfolding retain_entry token_held
retain_entry-held e s p = ground arith

-- What an operation did to the count of `p`, set off against what the registry owns.
abbrev pub Conserved : ℕ → Registry → Registry → Type 0
Conserved p s s' = s'.counts p + weight (held p) s.refs ≡ s.counts p + weight (held p) s'.refs

release_known-Conserved :
    (s : Registry) (id p : ℕ) (e : Entry)
    → Owned s
    → find id s.refs ≡ some e
    → Conserved p s (record s { refs = erase id s.refs; counts = let_go e s.counts })
release_known-Conserved s id p e own h =
    omega (
      arith,
      own.alive p,
      weight-erase (held p) id s.refs e own.distinct h,
      let_go-held e s.counts p,
    )

-- For a registry whose objects are alive, and however `releaseRuntimePayloadRef` ends, the count of an object falls by exactly the references
-- that the registry no longer owns.
pub release-Conserved :
    (s : Registry) (runtime_id id p : ℕ) → Owned s → Conserved p s (release runtime_id id s).1
unfolding release
release-Conserved s runtime_id id p own = elim (Option-cases (find id s.refs)) [
  | inl e ↦ rw (e, release)
  | inr (e, h) ↦ rw (h, release) (ground (arith, release_known-Conserved s id p e own h))
]

released_alive :
    (s : Registry) (id : ℕ) (e : Entry)
    → Owned s
    → find id s.refs ≡ some e
    → Owned (record s { refs = erase id s.refs; counts = let_go e s.counts })
released_alive s id e own h = record {
  distinct = erase-Distinct id s.refs own.distinct;
  alive = λ p. omega (
    arith,
    own.alive p,
    release_known-Conserved s id p e own h,
    weight-erase (held p) id s.refs e own.distinct h,
    let_go-held e s.counts p,
  );
}

release-Owned : (s : Registry) (runtime_id id : ℕ) → Owned s → Owned (release runtime_id id s).1
unfolding release
release-Owned s runtime_id id own = elim (Option-cases (find id s.refs)) [
  | inl e ↦ rw (e, release) own
  | inr (e, h) ↦ elim (Bool-cases (e.runtime_id == runtime_id)) [
    | inl same ↦ rw (h, release) (rw same (released_alive s id e own h))
    | inr other ↦ rw (h, release) (rw other own)
  ]
]

pub retain_known :
    (s : Registry) (id : ℕ) (e : Entry)
    → find id s.refs ≡ some e
    → retain id s ≡ (some (retain_entry e s).0, (retain_entry e s).1)
unfolding retain
retain_known s id e h = rw (h, retain)

-- The share of one entry in the number of those that a runtime owns.
abbrev pub owned_by : ℕ → Entry → ℕ
owned_by runtime_id e = if e.runtime_id == runtime_id then 1 else 0

release_loop-counts :
    (runtime_id p : ℕ) (refs : Table Entry) (counts : ℕ → ℕ) (n : ℕ)
    → weight (held p) refs ≤ counts p
    → ((release_loop runtime_id refs counts n).1 p + weight (held p) refs
        ≡ counts p + weight (held p) (release_loop runtime_id refs counts n).0)
      × ((release_loop runtime_id refs counts n).2 ≡ n + weight (owned_by runtime_id) refs)
unfolding release_loop weight
release_loop-counts runtime_id p [] counts n h = (refl, omega arith)
release_loop-counts runtime_id p ((id, e) ∷ refs) counts n h = ground (
  arith,
  let_go-held e counts p,
  release_loop-counts runtime_id p refs (let_go e counts) (n + 1),
  release_loop-counts runtime_id p refs counts n,
)

-- The entries that are left are those of the other runtimes.
abbrev pub unless_owned : ℕ → Option Entry → Option Entry
unless_owned runtime_id none = none
unless_owned runtime_id (some e) = if e.runtime_id == runtime_id then none else some e

release_loop_absent :
    (runtime_id j : ℕ) (refs : Table Entry) (counts : ℕ → ℕ) (n : ℕ)
    → contains j refs ≡ false
    → contains j (release_loop runtime_id refs counts n).0 ≡ false
unfolding release_loop contains
release_loop_absent runtime_id j [] counts n h = refl
release_loop_absent runtime_id j ((id, e) ∷ refs) counts n h = ground (
  arith,
  release_loop_absent runtime_id j refs (let_go e counts) (n + 1),
  release_loop_absent runtime_id j refs counts n,
)

release_loop-find :
    (runtime_id j : ℕ) (refs : Table Entry) (counts : ℕ → ℕ) (n : ℕ)
    → Distinct refs
    → find j (release_loop runtime_id refs counts n).0 ≡ unless_owned runtime_id (find j refs)
unfolding release_loop find
release_loop-find runtime_id j [] counts n d = refl
release_loop-find runtime_id j ((id, e) ∷ refs) counts n d = ground (
  arith,
  find_absent id refs d.0,
  release_loop-find runtime_id j refs (let_go e counts) (n + 1) d.1,
  release_loop-find runtime_id j refs counts n d.1,
)

release_loop-Distinct :
    (runtime_id : ℕ) (refs : Table Entry) (counts : ℕ → ℕ) (n : ℕ)
    → Distinct refs
    → Distinct (release_loop runtime_id refs counts n).0
unfolding release_loop
release_loop-Distinct runtime_id [] counts n d = tt
release_loop-Distinct runtime_id ((id, e) ∷ refs) counts n d =
    elim (Bool-cases (e.runtime_id == runtime_id)) [
      | inl same ↦ rw (same, release_loop) (release_loop-Distinct runtime_id refs _ (n + 1) d.1)
      | inr other ↦
          rw (other, release_loop)
            (
              release_loop_absent runtime_id id refs counts n d.0,
              release_loop-Distinct runtime_id refs counts n d.1,
            )
    ]

-- For a registry whose objects are alive, `releaseRuntimePayloadRefsForRuntime` returns the number
-- of the runtime's entries, takes out exactly those, and lowers the count of every object by
-- exactly the references that they owned; the objects that are left are alive.
pub release_for_runtime_lem :
    (s : Registry) (runtime_id : ℕ)
    → Owned s
    → ((release_for_runtime runtime_id s).0 ≡ weight (owned_by runtime_id) s.refs)
      × ((j : ℕ)
          → find j (release_for_runtime runtime_id s).1.refs
            ≡ unless_owned runtime_id (find j s.refs))
      × ((p : ℕ) → Conserved p s (release_for_runtime runtime_id s).1)
      × Owned (release_for_runtime runtime_id s).1
unfolding release_for_runtime
release_for_runtime_lem s runtime_id own = (
  (release_loop-counts runtime_id 0 s.refs s.counts 0 (own.alive 0)).1 ∙ omega arith,
  λ j. release_loop-find runtime_id j s.refs s.counts 0 own.distinct,
  λ p. (release_loop-counts runtime_id p s.refs s.counts 0 (own.alive p)).0,
  record {
    distinct = release_loop-Distinct runtime_id s.refs s.counts 0 own.distinct;
    alive = λ p.
        omega (
          arith,
          own.alive p,
          (release_loop-counts runtime_id p s.refs s.counts 0 (own.alive p)).0,
        );
  },
)

-- What `releaseRuntimePayloadRef` answers, and what is left in the registry: an unknown id and an
-- entry of another runtime are refused and change nothing; otherwise only that entry goes.
release_lem :
    (s : Registry) (runtime_id id j : ℕ)
    → let r = release runtime_id id s in
      ((find id s.refs ≡ none) × (r ≡ (unknown_id, s)))
      ⊎ ((e : Entry) × (find id s.refs ≡ some e)
          × (e.runtime_id ≢ runtime_id)
          × (r ≡ (different_runtime, s)))
      ⊎ ((e : Entry) × (find id s.refs ≡ some e)
          × (e.runtime_id ≡ runtime_id)
          × (r.0 ≡ released)
          × (find j r.1.refs ≡ (if id == j then none else find j s.refs)))
unfolding release
release_lem s runtime_id id j = elim (Option-cases (find id s.refs)) [
  | inl e ↦ inl (e, rw (e, release))
  | inr (e, h) ↦ elim (Bool-cases (e.runtime_id == runtime_id)) [
    | inl same ↦ inr (
        inr (
          e,
          h,
          ground arith,
          rw (h, release) (rw same refl),
          rw (h, release) (rw same (find-erase id j s.refs)),
        ))
    | inr other ↦ inr (inl (e, h, ground arith, rw (h, release) (rw other refl)))
  ]
]
