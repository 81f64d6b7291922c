-- ===== src/Wire/Tables/Laws.antt =====
-- Round trips of the word arrays of ffi/rpc_bridge_common.cpp.
use lean_capnproto.Prelude.{
  ℕ, ◌*◌, ◌%◌, ◌^◌, ◌<◌, ◌≡◌, ◌↔◌, refl, sym, ◌∙◌, List, [], ◌∷◌, ◌++◌, arith, length,
  length-append, All,
}
use lean_capnproto.Prelude.Result.{ok}
use lean_capnproto.Wire.Words.{
  IsByte, read_uint16_le, read_uint32_le, append_uint32_le, append_uint16_le,
}
use lean_capnproto.Wire.Words.Laws.{
  le_bytes, le_bytes-le_value, append_uint32_le-le_bytes, append_uint16_le-le_bytes,
  length-le_bytes, read-append_uint32, read-append_uint16, read_uint32_le-value,
  read_uint16_le-value,
}
use lean_capnproto.Wire.Tables.{words32, words16, decode_cap_table, decode_pipeline_ops}
use mathlib.Core.List.{foldl, append-nil, append_assoc}

-- The words of a table, each as `n` bytes.
unfoldable pub table_bytes : ℕ → List ℕ → List ℕ
table_bytes n [] = []
table_bytes n (v ∷ vs) = le_bytes n v ++ table_bytes n vs

pub append_all32 : (vs out : List ℕ) → foldl append_uint32_le out vs ≡ out ++ table_bytes 4 vs
unfolding table_bytes
append_all32 [] out = sym (append-nil out)
append_all32 (v ∷ vs) out =
    append_all32 vs (append_uint32_le out v) ∙ rw (append_uint32_le-le_bytes out v, append_assoc)

append_all16 : (vs out : List ℕ) → foldl append_uint16_le out vs ≡ out ++ table_bytes 2 vs
unfolding table_bytes
append_all16 [] out = sym (append-nil out)
append_all16 (v ∷ vs) out =
    append_all16 vs (append_uint16_le out v) ∙ rw (append_uint16_le-le_bytes out v, append_assoc)

length-table_bytes : (n : ℕ) (vs : List ℕ) → length (table_bytes n vs) ≡ n * length vs
unfolding table_bytes
length-table_bytes n [] = omega arith
length-table_bytes n (v ∷ vs) =
    rw (length-append, length-le_bytes, length-table_bytes n vs) (omega arith)

words32-table_bytes : (vs : List ℕ) → All (λ v. v < 2 ^ 32) vs → words32 (table_bytes 4 vs) ≡ vs
unfolding words32 table_bytes le_bytes
words32-table_bytes [] h = refl
words32-table_bytes (v ∷ vs) h =
    let head : read_uint32_le (le_bytes 4 v ++ table_bytes 4 vs) ≡ v =
      rw append_uint32_le-le_bytes at (read-append_uint32 v (table_bytes 4 vs) h.0) in
    rw (head, words32-table_bytes vs h.1)

words16-table_bytes : (vs : List ℕ) → All (λ v. v < 2 ^ 16) vs → words16 (table_bytes 2 vs) ≡ vs
unfolding words16 table_bytes le_bytes
words16-table_bytes [] h = refl
words16-table_bytes (v ∷ vs) h =
    let head : read_uint16_le (le_bytes 2 v ++ table_bytes 2 vs) ≡ v =
      rw append_uint16_le-le_bytes at (read-append_uint16 v (table_bytes 2 vs) h.0) in
    rw (head, words16-table_bytes vs h.1)

table_bytes-words32 :
    (bs : List ℕ) → All IsByte bs → length bs % 4 ≡ 0 → table_bytes 4 (words32 bs) ≡ bs
unfolding words32 table_bytes
table_bytes-words32 (a ∷ b ∷ c ∷ d ∷ rest) (ha, (hb, (hc, (hd, hr)))) e =
    let word : le_bytes 4 (read_uint32_le (a ∷ b ∷ c ∷ d ∷ rest)) ≡ a ∷ b ∷ c ∷ d ∷ [] =
      rw (read_uint32_le-value a b c d rest ha hb hc hd)
        (le_bytes-le_value (a ∷ b ∷ c ∷ d ∷ []) (ha, (hb, (hc, (hd, tt))))) in
    rw (word, table_bytes-words32 rest hr (omega arith))
table_bytes-words32 [] h e = refl
table_bytes-words32 (a ∷ []) h e = absurd (omega arith)
table_bytes-words32 (a ∷ b ∷ []) h e = absurd (omega arith)
table_bytes-words32 (a ∷ b ∷ c ∷ []) h e = absurd (omega arith)

table_bytes-words16 :
    (bs : List ℕ) → All IsByte bs → length bs % 2 ≡ 0 → table_bytes 2 (words16 bs) ≡ bs
unfolding words16 table_bytes
table_bytes-words16 (a ∷ b ∷ rest) (ha, (hb, hr)) e =
    let word : le_bytes 2 (read_uint16_le (a ∷ b ∷ rest)) ≡ a ∷ b ∷ [] =
      rw (read_uint16_le-value a b rest ha hb) (le_bytes-le_value (a ∷ b ∷ []) (ha, (hb, tt))) in
    rw (word, table_bytes-words16 rest hr (omega arith))
table_bytes-words16 [] h e = refl
table_bytes-words16 (a ∷ []) h e = absurd (omega arith)

decode_table_size :
    (bytes ids : List ℕ)
    → decode_cap_table bytes ≡ ok ids
    → (length bytes % 4 ≡ 0) × (words32 bytes ≡ ids)
unfolding decode_cap_table
decode_table_size bytes ids h = ground arith

decode_ops_size :
    (bytes ops : List ℕ)
    → decode_pipeline_ops bytes ≡ ok ops
    → (length bytes % 2 ≡ 0) × (words16 bytes ≡ ops)
unfolding decode_pipeline_ops
decode_ops_size bytes ops h = ground arith

-- For a payload of bytes and a list of 32-bit ids: `decodeCapTable` returns the ids exactly when
-- the payload is what appending each id with `appendUint32Le` to an empty buffer writes.
pub decode_cap_table_iff :
    (bytes ids : List ℕ)
    → All IsByte bytes
    → All (λ v. v < 2 ^ 32) ids
    → (decode_cap_table bytes ≡ ok ids) ↔ (foldl append_uint32_le [] ids ≡ bytes)
decode_cap_table_iff bytes ids hb hi = (written, decoded)
  where
    written : decode_cap_table bytes ≡ ok ids → foldl append_uint32_le [] ids ≡ bytes
    written h =
        let (size, e) = decode_table_size bytes ids h in
        append_all32 ids [] ∙ rw (← e) (table_bytes-words32 bytes hb size)

    decoded : foldl append_uint32_le [] ids ≡ bytes → decode_cap_table bytes ≡ ok ids
    decoded e =
        rw (← e, append_all32)
          (unfold decode_cap_table in
            rw (words32-table_bytes ids hi) (ground (arith, length-table_bytes 4 ids)))

-- For a payload of bytes and a list of 16-bit pointer indices: `decodePipelineOps` returns the
-- indices exactly when the payload is what appending each with `appendUint16Le` to an empty buffer
-- writes.
pub decode_pipeline_ops_iff :
    (bytes ops : List ℕ)
    → All IsByte bytes
    → All (λ v. v < 2 ^ 16) ops
    → (decode_pipeline_ops bytes ≡ ok ops) ↔ (foldl append_uint16_le [] ops ≡ bytes)
decode_pipeline_ops_iff bytes ops hb hi = (written, decoded)
  where
    written : decode_pipeline_ops bytes ≡ ok ops → foldl append_uint16_le [] ops ≡ bytes
    written h =
        let (size, e) = decode_ops_size bytes ops h in
        append_all16 ops [] ∙ rw (← e) (table_bytes-words16 bytes hb size)

    decoded : foldl append_uint16_le [] ops ≡ bytes → decode_pipeline_ops bytes ≡ ok ops
    decoded e =
        rw (← e, append_all16)
          (unfold decode_pipeline_ops in
            rw (words16-table_bytes ops hi) (ground (arith, length-table_bytes 2 ops)))
