-- ===== src/PayloadRef/Token.antt =====
-- ffi/rpc_bridge_payload_ref.h, `RetainedRuntimePayloadRef`: the token by which a caller shares a
-- payload. `contents` gives the bytes of a Lean byte array (Lean's runtime is not part of the
-- program). A data pointer and its size are read together: `none` is the null pointer.
pub mod Laws
use lean_capnproto.Prelude.{
  ℕ, Bool, Option, none, some, List, [], ◌∷◌, ◌&&◌, ◌==◌, if◌then◌else◌, length,
}
use lean_capnproto.PayloadRef.{RawBytes, Retained, is_some, dec}

abbrev non_empty : List ℕ → Option (List ℕ)
non_empty bytes = if length bytes == 0 then none else some bytes

-- RuntimePayloadRawBytes::messageData and capData
abbrev raw_message_data : RawBytes → Option (List ℕ)
raw_message_data raw = non_empty raw.message

abbrev raw_cap_data : RawBytes → Option (List ℕ)
raw_cap_data raw = non_empty raw.caps

-- The order of the tests in `messageData` and its three siblings.
lean_else_raw {ℓ} : {A : Type ℓ} → Option ℕ → Option RawBytes → (ℕ → A) → (RawBytes → A) → A → A
lean_else_raw (some o) raw lean from_raw empty = lean o
lean_else_raw none (some raw) lean from_raw empty = from_raw raw
lean_else_raw none none lean from_raw empty = empty

module _ (contents : ℕ → List ℕ) where
  pub message_data : Retained → Option (List ℕ)
  unfolding lean_else_raw
  message_data t =
      lean_else_raw t.message_bytes t.raw_bytes (λ o. some (contents o)) raw_message_data none

  pub message_size : Retained → ℕ
  unfolding lean_else_raw
  message_size t =
      lean_else_raw t.message_bytes t.raw_bytes (λ o. length (contents o))
        (λ raw. length raw.message) 0

  cap_data : Retained → Option (List ℕ)
  unfolding lean_else_raw
  cap_data t = lean_else_raw t.cap_bytes t.raw_bytes (λ o. some (contents o)) raw_cap_data none

  cap_size : Retained → ℕ
  unfolding lean_else_raw
  cap_size t =
      lean_else_raw t.cap_bytes t.raw_bytes (λ o. length (contents o)) (λ raw. length raw.caps) 0

-- Also the destructor: the references are given back.
pub reset : Retained → (ℕ → ℕ) → Retained × (ℕ → ℕ)
reset t counts = (
  record t { message_bytes = none; cap_bytes = none; raw_bytes = none },
  dec t.cap_bytes (dec t.message_bytes counts),
)

-- The move constructor: the new token and what is left of the old one.
pub move : Retained → Retained × Retained
move other = (other, record other { message_bytes = none; cap_bytes = none; raw_bytes = none })

-- Move assignment from another token: this token, the other and the counts.
pub move_assign : Retained → Retained → (ℕ → ℕ) → Retained × Retained × (ℕ → ℕ)
move_assign this other counts =
    let (_, counts') = reset this counts in let (new, old) = move other in (new, old, counts')

-- The caller takes over the reference.
take_message_bytes : Retained → Option ℕ × Retained
take_message_bytes t = (t.message_bytes, record t { message_bytes = none })

take_cap_bytes : Retained → Option ℕ × Retained
take_cap_bytes t = (t.cap_bytes, record t { cap_bytes = none })
