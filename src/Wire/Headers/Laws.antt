-- ===== src/Wire/Headers/Laws.antt =====
-- The header format of ffi/kj_async_bridge.cpp: decoding what was encoded.
use lean_capnproto.Prelude.{
  ℕ, ◌+◌, ◌%◌, ◌^◌, ◌<◌, ◌≡◌, refl, sym, ◌∙◌, [], ◌∷◌, ◌++◌, arith, All, length, length-append,
  drop-append_self, take-append_self, false, ltb, inl, inr, Bool-cases,
}
use lean_capnproto.Prelude.Result.{ok, err}
use lean_capnproto.Wire.Words.{append_uint32_le}
use lean_capnproto.Wire.Words.Laws.{
  le_bytes, append_uint32_le-le_bytes, length-le_bytes, read-append_uint32,
}
use lean_capnproto.Wire.Headers.{
  Bytes, Headers, What, uint32_max, HeaderError, field_exceeds_uint32, encode_loop,
  encode_header_pairs, decode_uint32_le_checked, decode_field, decode_sized, decode_pair,
  decode_loop, decode_header_pairs, header_list, header_name_length, header_value_length,
  truncated_name, truncated_value,
}
use mathlib.Core.List.{append-nil, append_assoc}

-- A field behind its length, and the fields of all headers.
unfoldable pub field_bytes : Bytes → Bytes
field_bytes s = le_bytes 4 (length s) ++ s

unfoldable pub pairs_bytes : Headers → Bytes
pairs_bytes [] = []
pairs_bytes ((name, value) ∷ rest) = field_bytes name ++ (field_bytes value ++ pairs_bytes rest)

abbrev pub FieldsFit : Headers → Type 0
FieldsFit hs = All (λ (h : Bytes × Bytes). (length h.0 < 2 ^ 32) × (length h.1 < 2 ^ 32)) hs

append_field :
    (out s : Bytes)
    → length s < 2 ^ 32
    → append_uint32_le out (length s % 2 ^ 32) ++ s ≡ out ++ field_bytes s
unfolding field_bytes
append_field out s h =
    let e : length s % 2 ^ 32 ≡ length s = omega arith in
    rw (e, append_uint32_le-le_bytes, append_assoc)

fits_test : (s : Bytes) → length s < 2 ^ 32 → ltb uint32_max (length s) ≡ false
fits_test s h = ground arith

encode_loop_step :
    (out name value : Bytes) (rest : Headers)
    → length name < 2 ^ 32
    → length value < 2 ^ 32
    → encode_loop out ((name, value) ∷ rest)
      ≡ encode_loop ((out ++ field_bytes name) ++ field_bytes value) rest
unfolding encode_loop
encode_loop_step out name value rest hn hv = rw (fits_test name hn) (
    rw (fits_test value hv)
      (rw (append_field out name hn) (rw (append_field (out ++ field_bytes name) value hv))))

pub encode_loop-pairs_bytes :
    (hs : Headers) (out : Bytes) → FieldsFit hs → encode_loop out hs ≡ ok (out ++ pairs_bytes hs)
unfolding pairs_bytes
encode_loop-pairs_bytes [] out h = rw append-nil (unfold encode_loop in refl)
encode_loop-pairs_bytes ((name, value) ∷ rest) out h =
    encode_loop_step out name value rest h.0.0 h.0.1
    ∙ encode_loop-pairs_bytes rest _ h.1
    ∙ rw (append_assoc, append_assoc)

-- The test for room, and what stands behind a prefix.
room :
    (pre mid rest : Bytes) → ltb (length (pre ++ (mid ++ rest))) (length pre + length mid) ≡ false
room pre mid rest = ground (arith, length-append pre (mid ++ rest), length-append mid rest)

decode_word :
    (pre rest : Bytes) (v : ℕ) (what : What)
    → v < 2 ^ 32
    → decode_uint32_le_checked (pre ++ (le_bytes 4 v ++ rest)) (length pre) what
      ≡ ok (v, length (pre ++ le_bytes 4 v))
unfolding decode_uint32_le_checked
decode_word pre rest v what h =
    let test = rw (length-le_bytes 4 v) at (room pre (le_bytes 4 v) rest) in
    let word = rw append_uint32_le-le_bytes at (read-append_uint32 v rest h) in
    rw (test, drop-append_self, word, length-append, length-le_bytes)

decode_text :
    (pre s rest : Bytes) (e : HeaderError)
    → decode_field (pre ++ (s ++ rest)) (length pre) (length s) e ≡ ok (s, length (pre ++ s))
unfolding decode_field
decode_text pre s rest e = rw (room pre s rest, drop-append_self, take-append_self, length-append)

-- A field behind its length is read back from where it was written.
decode_word_at :
    (bytes pre s rest : Bytes) (what : What)
    → bytes ≡ pre ++ (field_bytes s ++ rest)
    → length s < 2 ^ 32
    → decode_uint32_le_checked bytes (length pre) what
      ≡ ok (length s, length (pre ++ le_bytes 4 (length s)))
unfolding field_bytes
decode_word_at bytes pre s rest what e h =
    rw (e, append_assoc) (decode_word pre (s ++ rest) (length s) what h)

decode_text_at :
    (bytes pre s rest : Bytes) (e : HeaderError)
    → bytes ≡ pre ++ (field_bytes s ++ rest)
    → decode_field bytes (length (pre ++ le_bytes 4 (length s))) (length s) e
      ≡ ok (s, length (pre ++ field_bytes s))
unfolding field_bytes
decode_text_at bytes pre s rest e b =
    rw (b, append_assoc, ← append_assoc pre, ← append_assoc pre)
      (decode_text (pre ++ le_bytes 4 (length s)) s rest e)

decode_pair-written :
    (bytes pre name value rest : Bytes)
    → bytes ≡ pre ++ (field_bytes name ++ (field_bytes value ++ rest))
    → length name < 2 ^ 32
    → length value < 2 ^ 32
    → decode_pair bytes (length pre)
      ≡ ok ((name, value), length ((pre ++ field_bytes name) ++ field_bytes value))
unfolding decode_pair decode_sized
decode_pair-written bytes pre name value rest b hn hv =
    let b' = b ∙ sym (append_assoc pre (field_bytes name) (field_bytes value ++ rest)) in
    rw (decode_word_at bytes pre name _ header_name_length b hn) (
      rw (decode_text_at bytes pre name _ truncated_name b) (
        rw (decode_word_at bytes (pre ++ field_bytes name) value rest header_value_length b' hv)
          (rw (decode_text_at bytes (pre ++ field_bytes name) value rest truncated_value b'))))

decode_loop-written :
    (hs : Headers) (bytes pre rest : Bytes) (out : Headers)
    → bytes ≡ pre ++ (pairs_bytes hs ++ rest)
    → FieldsFit hs
    → decode_loop (length hs) bytes (length pre) out
      ≡ ok (out ++ hs, length (pre ++ pairs_bytes hs))
unfolding decode_loop pairs_bytes
decode_loop-written [] bytes pre rest out b h = rw (append-nil, append-nil)
decode_loop-written ((name, value) ∷ hs) bytes pre rest out b h =
    let b1 : bytes ≡ pre ++ (field_bytes name ++ (field_bytes value ++ (pairs_bytes hs ++ rest))) =
      b ∙ simp append_assoc in
    let b2 : bytes ≡ ((pre ++ field_bytes name) ++ field_bytes value) ++ (pairs_bytes hs ++ rest) =
      b1 ∙ simp append_assoc in
    rw (decode_pair-written bytes pre name value _ b1 h.0.0 h.0.1)
      (decode_loop-written hs bytes _ rest (out ++ ((name, value) ∷ [])) b2 h.1 ∙ simp append_assoc)

pub encode_header_pairs-bytes :
    (hs : Headers)
    → length hs < 2 ^ 32
    → FieldsFit hs
    → encode_header_pairs hs ≡ ok (le_bytes 4 (length hs) ++ pairs_bytes hs)
unfolding encode_header_pairs
encode_header_pairs-bytes hs count fit =
    let e : length hs % 2 ^ 32 ≡ length hs = omega arith in
    rw (e, append_uint32_le-le_bytes) (encode_loop-pairs_bytes hs (le_bytes 4 (length hs)) fit)

pub decode_header_pairs-bytes :
    (hs : Headers)
    → length hs < 2 ^ 32
    → FieldsFit hs
    → decode_header_pairs (le_bytes 4 (length hs) ++ pairs_bytes hs) ≡ ok hs
unfolding decode_header_pairs
decode_header_pairs-bytes hs count fit =
    let all = le_bytes 4 (length hs) ++ pairs_bytes hs in
    let b : all ≡ le_bytes 4 (length hs) ++ (pairs_bytes hs ++ []) = rw append-nil in
    rw (decode_word [] (pairs_bytes hs) (length hs) header_list count)
      (rw (decode_loop-written hs all (le_bytes 4 (length hs)) [] [] b fit) (ground arith))

-- A field too long for its length word makes `encodeHeaderPairs` throw.
pub encode_loop_too_long :
    (hs : Headers) (out : Bytes) → ¬ FieldsFit hs → encode_loop out hs ≡ err field_exceeds_uint32
unfolding encode_loop
encode_loop_too_long [] out h = absurd (h tt)
encode_loop_too_long ((name, value) ∷ rest) out h =
    elim (Bool-cases (ltb uint32_max (length name))) [
      | inl e ↦ rw e
      | inr e ↦ elim (Bool-cases (ltb uint32_max (length value))) [
        | inl e' ↦ rw (e, e')
        | inr e' ↦
            rw (e, e')
              (encode_loop_too_long rest _ (λ r. h ((too_long name e, too_long value e'), r)))
      ]
    ]
  where
    too_long : (s : Bytes) → ltb uint32_max (length s) ≡ false → length s < 2 ^ 32
    too_long s e = ground arith
