-- ===== src/Wire/Tables.antt =====
-- ffi/rpc_bridge_common.cpp, `decodeCapTable` and `decodePipelineOps`, and `decodeUint32Array` of
-- ffi/kj_async_bridge.cpp: arrays of words. The loops over `i` recur on the bytes from `data + i`
-- on; `size % 4 == 0` holds, so a shorter rest than one word is never met.
pub mod Laws
use lean_capnproto.Prelude.{ℕ, ◌%◌, List, [], ◌∷◌, ◌==◌, not, if◌then◌else◌, length}
use lean_capnproto.Prelude.Result.{Result, ok, err}
use lean_capnproto.Wire.Words.{read_uint16_le, read_uint32_le}

pub data SizeError : Type 0 where
  cap_table_size pipeline_ops_size uint32_array_size : SizeError

words32 : List ℕ → List ℕ
words32 (a ∷ b ∷ c ∷ d ∷ rest) = read_uint32_le (a ∷ b ∷ c ∷ d ∷ rest) ∷ words32 rest
words32 _ = []

words16 : List ℕ → List ℕ
words16 (a ∷ b ∷ rest) = read_uint16_le (a ∷ b ∷ rest) ∷ words16 rest
words16 _ = []

pub decode_cap_table : List ℕ → Result SizeError (List ℕ)
decode_cap_table bytes =
    if not (length bytes % 4 == 0) then err cap_table_size else ok (words32 bytes)

pub decode_pipeline_ops : List ℕ → Result SizeError (List ℕ)
decode_pipeline_ops bytes =
    if not (length bytes % 2 == 0) then err pipeline_ops_size else ok (words16 bytes)

pub decode_uint32_array : List ℕ → Result SizeError (List ℕ)
decode_uint32_array bytes =
    if not (length bytes % 4 == 0) then err uint32_array_size else ok (words32 bytes)
