-- ===== src/Wire/Headers.antt =====
-- ffi/kj_async_bridge.cpp, `encodeHeaderPairs` and `decodeHeaderPairs`: HTTP headers as one byte
-- array. A string is the list of its bytes. A vector holds less than 2 ^ 63 bytes, so the sums of
-- `size_t` do not wrap; memory that runs out is not modelled.
pub mod Laws
pub mod Accepted
use lean_capnproto.Prelude.{
  ℕ, zero, suc, ◌+◌, ◌-◌, ◌%◌, ◌^◌, Bool, List, [], ◌∷◌, ◌++◌, ◌==◌, ltb, not, ◌||◌, if◌then◌else◌,
  length, take, drop,
}
use lean_capnproto.Prelude.Result.{Result, ok, err, ◌>>=◌}
use lean_capnproto.Wire.Words.{read_uint32_le, append_uint32_le}

abbrev pub Bytes : Type 0
Bytes = List ℕ

abbrev pub Headers : Type 0
Headers = List (Bytes × Bytes)

-- The part of the input that a truncated length belongs to.
pub data What : Type 0 where
  header_list header_name_length header_value_length : What

pub data HeaderError : Type 0 where
  field_exceeds_uint32 truncated_name truncated_value trailing_bytes : HeaderError
  truncated_uint32 : What → HeaderError

abbrev pub uint32_max : ℕ
uint32_max = 2 ^ 32 - 1

pub encode_loop : Bytes → Headers → Result HeaderError Bytes
encode_loop out [] = ok out
encode_loop out ((name, value) ∷ rest) =
    let out1 = append_uint32_le out (length name % 2 ^ 32) ++ name in
    let out2 = append_uint32_le out1 (length value % 2 ^ 32) ++ value in
    let more = encode_loop out2 rest in
    if ltb uint32_max (length name) || ltb uint32_max (length value)
    then err field_exceeds_uint32
    else more

pub encode_header_pairs : Headers → Result HeaderError Bytes
encode_header_pairs headers = encode_loop (append_uint32_le [] (length headers % 2 ^ 32)) headers

-- The value and the new offset.
pub decode_uint32_le_checked : Bytes → ℕ → What → Result HeaderError (ℕ × ℕ)
decode_uint32_le_checked bytes offset what =
    if ltb (length bytes) (offset + 4)
    then err (truncated_uint32 what)
    else ok (read_uint32_le (drop offset bytes), offset + 4)

-- `std::string(bytes.data() + offset, size)` behind its check, with the new offset
pub decode_field : Bytes → ℕ → ℕ → HeaderError → Result HeaderError (Bytes × ℕ)
decode_field bytes offset size truncated =
    if ltb (length bytes) (offset + size)
    then err truncated
    else ok (take size (drop offset bytes), offset + size)

-- A length word and the string of that length, which the loop reads twice in each round.
pub decode_sized : Bytes → ℕ → What → HeaderError → Result HeaderError (Bytes × ℕ)
decode_sized bytes offset what truncated = do
  (size, offset1) ← decode_uint32_le_checked bytes offset what
  decode_field bytes offset1 size truncated

-- One round of the loop: a header and the new offset.
pub decode_pair : Bytes → ℕ → Result HeaderError ((Bytes × Bytes) × ℕ)
decode_pair bytes offset = do
  (name, offset1) ← decode_sized bytes offset header_name_length truncated_name
  (value, offset2) ← decode_sized bytes offset1 header_value_length truncated_value
  ok ((name, value), offset2)

-- The number counts the rounds left.
pub decode_loop : ℕ → Bytes → ℕ → Headers → Result HeaderError (Headers × ℕ)
decode_loop zero bytes offset out = ok (out, offset)
decode_loop (suc n) bytes offset out = do
  (pair, offset') ← decode_pair bytes offset
  decode_loop n bytes offset' (out ++ (pair ∷ []))

pub decode_header_pairs : Bytes → Result HeaderError Headers
decode_header_pairs bytes = do
  (count, offset) ← decode_uint32_le_checked bytes 0 header_list
  (out, offset') ← decode_loop count bytes offset []
  if not (offset' == length bytes) then err trailing_bytes else ok out
