-- ===== src/Wire/Words.antt =====
-- ffi/rpc_bridge_common.cpp (and the same functions in ffi/kj_async_bridge.cpp): little-endian
-- words. A `uint8_t*` is the list of the bytes from it on, and a `std::vector<uint8_t>` a list.
pub mod Laws
use lean_capnproto.Prelude.{
  ℕ, ◌*◌, ◌/◌, ◌%◌, ◌^◌, ◌<◌, bit_and, bit_or, List, [], ◌∷◌, ◌++◌, get_or,
}

abbrev pub IsByte : ℕ → Type 0
IsByte b = b < 256

-- `data[i]`; the callers see to it that `i` is in range.
abbrev pub at : List ℕ → ℕ → ℕ
at data' i = get_or data' i 0

abbrev pub push_back : List ℕ → ℕ → List ℕ
push_back out b = out ++ (b ∷ [])

-- `static_cast<uint8_t>((value >> shift) & 0xff)`
abbrev pub byte_at : ℕ → ℕ → ℕ
byte_at value shift = bit_and (value / 2 ^ shift) 0xff % 2 ^ 8

-- `static_cast<uintN_t>(data[i]) << shift`, N being `w`
abbrev pub shifted : ℕ → ℕ → ℕ → ℕ
shifted w b shift = b * 2 ^ shift % 2 ^ w

pub read_uint32_le : List ℕ → ℕ
read_uint32_le d =
    bit_or (bit_or (bit_or (at d 0) (shifted 32 (at d 1) 8)) (shifted 32 (at d 2) 16))
      (shifted 32 (at d 3) 24)

-- The operands are promoted to `int`, and the return converts to `uint16_t`.
pub read_uint16_le : List ℕ → ℕ
read_uint16_le d = bit_or (at d 0) (shifted 31 (at d 1) 8) % 2 ^ 16

pub read_uint64_le : List ℕ → ℕ
read_uint64_le d =
    bit_or
      (bit_or
        (bit_or
          (bit_or
            (bit_or (bit_or (bit_or (at d 0) (shifted 64 (at d 1) 8)) (shifted 64 (at d 2) 16))
              (shifted 64 (at d 3) 24))
            (shifted 64 (at d 4) 32))
          (shifted 64 (at d 5) 40))
        (shifted 64 (at d 6) 48))
      (shifted 64 (at d 7) 56)

pub append_uint32_le : List ℕ → ℕ → List ℕ
append_uint32_le out value =
    let out1 = push_back out (bit_and value 0xff % 2 ^ 8) in
    let out2 = push_back out1 (byte_at value 8) in
    let out3 = push_back out2 (byte_at value 16) in push_back out3 (byte_at value 24)

pub append_uint16_le : List ℕ → ℕ → List ℕ
append_uint16_le out value =
    push_back (push_back out (bit_and value 0xff % 2 ^ 8)) (byte_at value 8)

pub append_uint64_le : List ℕ → ℕ → List ℕ
append_uint64_le out value =
    let out1 = push_back out (bit_and value 0xff % 2 ^ 8) in
    let out2 = push_back out1 (byte_at value 8) in
    let out3 = push_back out2 (byte_at value 16) in
    let out4 = push_back out3 (byte_at value 24) in
    let out5 = push_back out4 (byte_at value 32) in
    let out6 = push_back out5 (byte_at value 40) in
    let out7 = push_back out6 (byte_at value 48) in push_back out7 (byte_at value 56)
