-- ===== src/Wire/Words/Laws.antt =====
-- What the little-endian readers and writers of ffi/rpc_bridge_common.cpp compute.
use lean_capnproto.Prelude.{
  ℕ, zero, suc, ◌+◌, ◌*◌, ◌/◌, ◌%◌, ◌^◌, ◌<◌, bit_and, bit_or, ◌≡◌, refl, ap, ◌∙◌, List, [], ◌∷◌,
  ◌++◌, arith,
}
use lean_capnproto.Prelude.{bit_or-shift, mask_byte, length, All}
use lean_capnproto.Wire.Words.{
  IsByte, shifted, read_uint16_le, read_uint32_le, read_uint64_le, append_uint16_le,
  append_uint32_le, append_uint64_le,
}
use mathlib.Core.List.{append_assoc}
use native.Mathlib.Nat.{mod-eq_of_lt, pow-suc}

-- The `n` low bytes of a number, lowest first, and the number that bytes stand for.
unfoldable pub le_bytes : ℕ → ℕ → List ℕ
le_bytes zero v = []
le_bytes (suc n) v = v % 256 ∷ le_bytes n (v / 256)

unfoldable pub le_value : List ℕ → ℕ
le_value [] = 0
le_value (b ∷ bs) = b + 256 * le_value bs

low_byte : (v : ℕ) → bit_and v 0xff % 2 ^ 8 ≡ v % 256
low_byte v = rw (mask_byte v) (omega arith)

quot_1 : (v : ℕ) → v / 2 ^ 8 ≡ v / 256
quot_1 v = omega arith

quot_2 : (v : ℕ) → v / 2 ^ 16 ≡ v / 256 / 256
quot_2 v = omega arith

quot_3 : (v : ℕ) → v / 2 ^ 24 ≡ v / 256 / 256 / 256
quot_3 v = omega arith

quot_4 : (v : ℕ) → v / 2 ^ 32 ≡ v / 256 / 256 / 256 / 256
quot_4 v = omega arith

quot_5 : (v : ℕ) → v / 2 ^ 40 ≡ v / 256 / 256 / 256 / 256 / 256
quot_5 v = omega arith

quot_6 : (v : ℕ) → v / 2 ^ 48 ≡ v / 256 / 256 / 256 / 256 / 256 / 256
quot_6 v = omega arith

quot_7 : (v : ℕ) → v / 2 ^ 56 ≡ v / 256 / 256 / 256 / 256 / 256 / 256 / 256
quot_7 v = omega arith

ruleset bytes_of = (append_assoc, low_byte, quot_1, quot_2, quot_3, quot_4, quot_5, quot_6, quot_7)

-- `appendUint32Le` writes the four low bytes of its argument, lowest first.
pub append_uint32_le-le_bytes :
    (out : List ℕ) (v : ℕ) → append_uint32_le out v ≡ out ++ le_bytes 4 v
unfolding append_uint32_le le_bytes
append_uint32_le-le_bytes out v = simp bytes_of

pub append_uint16_le-le_bytes :
    (out : List ℕ) (v : ℕ) → append_uint16_le out v ≡ out ++ le_bytes 2 v
unfolding append_uint16_le le_bytes
append_uint16_le-le_bytes out v = simp bytes_of

pub append_uint64_le-le_bytes :
    (out : List ℕ) (v : ℕ) → append_uint64_le out v ≡ out ++ le_bytes 8 v
unfolding append_uint64_le le_bytes
append_uint64_le-le_bytes out v = simp bytes_of

-- Bits above `k` added to a number below 2 ^ k.
join :
    (w k acc b : ℕ) → acc < 2 ^ k → b * 2 ^ k < 2 ^ w → bit_or acc (shifted w b k) ≡ acc + b * 2 ^ k
join w k acc b low fits = rw (mod-eq_of_lt fits) (bit_or-shift k acc b low)

pub read_uint16_le-value :
    (a b : ℕ) (rest : List ℕ)
    → IsByte a
    → IsByte b
    → read_uint16_le (a ∷ b ∷ rest) ≡ le_value (a ∷ b ∷ [])
unfolding read_uint16_le le_value
read_uint16_le-value a b rest ha hb = rw (join 31 8 a b ha (omega arith)) (omega arith)

pub read_uint32_le-value :
    (a b c d : ℕ) (rest : List ℕ)
    → IsByte a
    → IsByte b
    → IsByte c
    → IsByte d
    → read_uint32_le (a ∷ b ∷ c ∷ d ∷ rest) ≡ le_value (a ∷ b ∷ c ∷ d ∷ [])
unfolding read_uint32_le le_value
read_uint32_le-value a b c d rest ha hb hc hd = rw (join 32 8 a b ha (omega arith)) (
    rw (join 32 16 (a + b * 2 ^ 8) c (omega arith) (omega arith))
      (rw (join 32 24 (a + b * 2 ^ 8 + c * 2 ^ 16) d (omega arith) (omega arith)) (omega arith)))

-- `readUint64Le` reads its eight bytes as the number of which they are the bytes, lowest first.
pub read_uint64_le-value :
    (a b c d e f g h : ℕ) (rest : List ℕ)
    → All IsByte (a ∷ b ∷ c ∷ d ∷ e ∷ f ∷ g ∷ h ∷ [])
    → read_uint64_le (a ∷ b ∷ c ∷ d ∷ e ∷ f ∷ g ∷ h ∷ rest)
      ≡ le_value (a ∷ b ∷ c ∷ d ∷ e ∷ f ∷ g ∷ h ∷ [])
unfolding read_uint64_le le_value
read_uint64_le-value a b c d e f g h rest (ha, (hb, (hc, (hd, (he, (hf, (hg, (hh, _)))))))) =
    let s2 = a + b * 2 ^ 8 in
    let s3 = s2 + c * 2 ^ 16 in
    let s4 = s3 + d * 2 ^ 24 in
    let s5 = s4 + e * 2 ^ 32 in
    let s6 = s5 + f * 2 ^ 40 in
    let s7 = s6 + g * 2 ^ 48 in
    rw (join 64 8 a b (omega arith) (omega arith)) (
      rw (join 64 16 s2 c (omega arith) (omega arith)) (
        rw (join 64 24 s3 d (omega arith) (omega arith)) (
          rw (join 64 32 s4 e (omega arith) (omega arith)) (
            rw (join 64 40 s5 f (omega arith) (omega arith)) (
              rw (join 64 48 s6 g (omega arith) (omega arith))
                (rw (join 64 56 s7 h (omega arith) (omega arith)) (omega arith)))))))

pub le_bytes-IsByte : (n v : ℕ) → All IsByte (le_bytes n v)
unfolding le_bytes
le_bytes-IsByte zero v = tt
le_bytes-IsByte (suc n) v = (omega arith, le_bytes-IsByte n (v / 256))

pub length-le_bytes : (n v : ℕ) → length (le_bytes n v) ≡ n
unfolding le_bytes
length-le_bytes zero v = refl
length-le_bytes (suc n) v = ap suc (length-le_bytes n (v / 256))

pub le_value-le_bytes : (n v : ℕ) → v < 256 ^ n → le_value (le_bytes n v) ≡ v
unfolding le_bytes le_value
le_value-le_bytes zero v h = omega arith
le_value-le_bytes (suc n) v h =
    omega (arith, le_value-le_bytes n (v / 256) (omega (arith, pow-suc 256 n)))

-- Reading back what was appended to the end of a buffer, whatever follows it.
pub read-append_uint16 :
    (v : ℕ) (rest : List ℕ) → v < 2 ^ 16 → read_uint16_le (append_uint16_le [] v ++ rest) ≡ v
unfolding le_bytes
read-append_uint16 v rest h =
    rw append_uint16_le-le_bytes
      (read_uint16_le-value _ _ rest (omega arith) (omega arith) ∙ le_value-le_bytes 2 v h)

pub read-append_uint32 :
    (v : ℕ) (rest : List ℕ) → v < 2 ^ 32 → read_uint32_le (append_uint32_le [] v ++ rest) ≡ v
unfolding le_bytes
read-append_uint32 v rest h = rw append_uint32_le-le_bytes (
    read_uint32_le-value _ _ _ _ rest (omega arith) (omega arith) (omega arith) (omega arith)
    ∙ le_value-le_bytes 4 v h)

pub read-append_uint64 :
    (v : ℕ) (rest : List ℕ) → v < 2 ^ 64 → read_uint64_le (append_uint64_le [] v ++ rest) ≡ v
unfolding le_bytes
read-append_uint64 v rest h =
    rw append_uint64_le-le_bytes
      (read_uint64_le-value _ _ _ _ _ _ _ _ rest (le_bytes-IsByte 8 v) ∙ le_value-le_bytes 8 v h)

-- Bytes are what their value is written as.
pub le_bytes-le_value : (bs : List ℕ) → All IsByte bs → le_bytes (length bs) (le_value bs) ≡ bs
unfolding le_bytes le_value
le_bytes-le_value [] h = refl
le_bytes-le_value (b ∷ bs) h =
    let low : (b + 256 * le_value bs) % 256 ≡ b = omega (arith, h.0) in
    let high : (b + 256 * le_value bs) / 256 ≡ le_value bs = omega (arith, h.0) in
    rw (low, high, le_bytes-le_value bs h.1)
