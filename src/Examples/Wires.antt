-- ===== src/Examples/Wires.antt =====
-- ffi/kj_async_bridge.cpp and ffi/rpc_bridge_common.cpp: encoded headers and capability tables.
use lean_capnproto.Prelude.{ℕ, ◌≡◌, ◌↔◌, List, [], ◌∷◌, codes, arith}
use lean_capnproto.Prelude.Result.{ok}
use mathlib.Core.List.{foldl}
use lean_capnproto.Wire.Words.{append_uint16_le, append_uint32_le}
use lean_capnproto.Wire.Headers.{Headers, Bytes, decode_header_pairs, encode_header_pairs}
use lean_capnproto.Wire.Headers.Accepted.{decode_header_pairs_iff}
use lean_capnproto.Wire.Tables.{decode_cap_table, decode_pipeline_ops}
use lean_capnproto.Wire.Tables.Laws.{decode_cap_table_iff, decode_pipeline_ops_iff}

abbrev host_headers : Headers
host_headers = (codes "a", codes "b") ∷ []

abbrev host_bytes : Bytes
host_bytes = 1 ∷ 0 ∷ 0 ∷ 0 ∷ 1 ∷ 0 ∷ 0 ∷ 0 ∷ 97 ∷ 1 ∷ 0 ∷ 0 ∷ 0 ∷ 98 ∷ []

decode_header_pairs_iff_example :
    (decode_header_pairs host_bytes ≡ ok host_headers)
    ↔ (encode_header_pairs host_headers ≡ ok host_bytes)
decode_header_pairs_iff_example =
    decode_header_pairs_iff host_bytes host_headers (ground arith) (omega arith)

abbrev two_ids : List ℕ
two_ids = 7 ∷ 0 ∷ 0 ∷ 0 ∷ 0 ∷ 1 ∷ 0 ∷ 0 ∷ []

decode_cap_table_iff_example :
    (decode_cap_table two_ids ≡ ok (7 ∷ 256 ∷ []))
    ↔ (foldl append_uint32_le [] (7 ∷ 256 ∷ []) ≡ two_ids)
decode_cap_table_iff_example =
    decode_cap_table_iff two_ids (7 ∷ 256 ∷ []) (ground arith) (omega arith, (omega arith, tt))

decode_pipeline_ops_iff_example :
    (decode_pipeline_ops (7 ∷ 0 ∷ 0 ∷ 1 ∷ []) ≡ ok (7 ∷ 256 ∷ []))
    ↔ (foldl append_uint16_le [] (7 ∷ 256 ∷ []) ≡ 7 ∷ 0 ∷ 0 ∷ 1 ∷ [])
decode_pipeline_ops_iff_example =
    decode_pipeline_ops_iff (7 ∷ 0 ∷ 0 ∷ 1 ∷ []) (7 ∷ 256 ∷ []) (ground arith)
      (omega arith, (omega arith, tt))
