-- ===== src/Wire/Headers/Accepted.antt =====
-- The header format of ffi/kj_async_bridge.cpp: only what was encoded is accepted.
use lean_capnproto.Prelude.{
  ℕ, zero, suc, ◌+◌, ◌^◌, ◌≤◌, ◌<◌, ◌≡◌, ◌↔◌, ◌⊎◌, inl, inr, refl, sym, ap, ◌∙◌, [], ◌∷◌, ◌++◌,
  arith, All, length, take, drop, not, ◌==◌, if◌then◌else◌,
}
use lean_capnproto.Prelude.Result.{ok, err, >>=-eq-ok, ok-injective}
use lean_capnproto.Wire.Words.{IsByte, read_uint32_le}
use lean_capnproto.Wire.Words.Laws.{le_bytes, le_value, le_bytes-le_value, read_uint32_le-value}
use lean_capnproto.Wire.Headers.{
  Bytes, Headers, What, HeaderError, encode_header_pairs, decode_uint32_le_checked, decode_field,
  decode_sized, decode_pair, decode_loop, decode_header_pairs, header_list, header_name_length,
  header_value_length, truncated_name, truncated_value, trailing_bytes,
}
use lean_capnproto.Wire.Headers.Laws.{
  field_bytes, pairs_bytes, FieldsFit, encode_header_pairs-bytes, decode_header_pairs-bytes,
  encode_loop_too_long,
}
use native.Mathlib.Decide.{dec_lt}
use mathlib.Core.Path.{subst}
use mathlib.Core.List.{append-nil, append_assoc}

All-drop : (n : ℕ) (bs : Bytes) → All IsByte bs → All IsByte (drop n bs)
All-drop zero bs h = h
All-drop (suc n) [] h = h
All-drop (suc n) (b ∷ bs) h = All-drop n bs h.1

drop-drop : (n k : ℕ) (bs : Bytes) → drop k (drop n bs) ≡ drop (n + k) bs
drop-drop zero k bs = let e : k ≡ 0 + k = omega arith in ap (λ j. drop j bs) e
drop-drop (suc n) zero [] = let e : suc n ≡ suc n + 0 = omega arith in ap {A = ℕ} (λ j. drop j []) e
drop-drop (suc n) (suc k) [] =
    let e : suc (n + suc k) ≡ suc n + suc k = omega arith in ap {A = ℕ} (λ j. drop j []) e
drop-drop (suc n) k (b ∷ bs) =
    let e : suc (n + k) ≡ suc n + k = omega arith in drop-drop n k bs ∙ ap (λ j. drop j (b ∷ bs)) e

-- The first four bytes of an input that has them are those of the word that they are read as.
word_front :
    (bs : Bytes)
    → All IsByte bs
    → 4 ≤ length bs
    → (bs ≡ le_bytes 4 (read_uint32_le bs) ++ drop 4 bs) × (read_uint32_le bs < 2 ^ 32)
unfolding le_value
word_front (a ∷ b ∷ c ∷ d ∷ rest) (ha, (hb, (hc, (hd, hr)))) l =
    rw (read_uint32_le-value a b c d rest ha hb hc hd)
      (rw (le_bytes-le_value (a ∷ b ∷ c ∷ d ∷ []) (ha, (hb, (hc, (hd, tt))))), omega arith)
word_front [] h l = absurd (omega arith)
word_front (a ∷ []) h l = absurd (omega arith)
word_front (a ∷ b ∷ []) h l = absurd (omega arith)
word_front (a ∷ b ∷ c ∷ []) h l = absurd (omega arith)

take-append-drop_front :
    (n : ℕ) (bs : Bytes) → n ≤ length bs → (bs ≡ take n bs ++ drop n bs) × (length (take n bs) ≡ n)
take-append-drop_front zero bs h = (refl, refl)
take-append-drop_front (suc n) [] h = absurd (omega arith)
take-append-drop_front (suc n) (b ∷ bs) h =
    let (e, l) = take-append-drop_front n bs (omega arith) in (ap (λ r. b ∷ r) e, ap suc l)

length-drop : (n : ℕ) (bs : Bytes) → n ≤ length bs → length (drop n bs) + n ≡ length bs
length-drop zero bs h = omega arith
length-drop (suc n) [] h = absurd (omega arith)
length-drop (suc n) (b ∷ bs) h = omega (arith, length-drop n bs (omega arith))

module _ (bytes : Bytes) (all : All IsByte bytes) where
  decode_word_parts :
      (offset v offset' : ℕ) (what : What)
      → decode_uint32_le_checked bytes offset what ≡ ok (v, offset')
      → (offset + 4 ≤ length bytes)
        × (read_uint32_le (drop offset bytes) ≡ v)
        × (offset' ≡ offset + 4)
  unfolding decode_uint32_le_checked
  decode_word_parts offset v offset' what h = ground arith

  decode_field_parts :
      (offset size offset' : ℕ) (s : Bytes) (e : HeaderError)
      → decode_field bytes offset size e ≡ ok (s, offset')
      → (offset + size ≤ length bytes)
        × (take size (drop offset bytes) ≡ s)
        × (offset' ≡ offset + size)
  unfolding decode_field
  decode_field_parts offset size offset' s e h = ground arith

  -- A word that was read is the next four bytes of the input.
  decode_word_ok :
      (offset v offset' : ℕ) (what : What)
      → decode_uint32_le_checked bytes offset what ≡ ok (v, offset')
      → (drop offset bytes ≡ le_bytes 4 v ++ drop offset' bytes)
        × (v < 2 ^ 32)
        × (offset' ≤ length bytes)
  decode_word_ok offset v offset' what h =
      let (r, w, o) = decode_word_parts offset v offset' what h in
      let l : 4 ≤ length (drop offset bytes) =
        omega (arith, length-drop offset bytes (omega arith)) in
      let (front, small) = word_front (drop offset bytes) (All-drop offset bytes all) l in
      (rw (← w, o, ← drop-drop offset 4 bytes) front, rw (← w) small, omega arith)

  decode_field_ok :
      (offset size offset' : ℕ) (s : Bytes) (e : HeaderError)
      → decode_field bytes offset size e ≡ ok (s, offset')
      → (drop offset bytes ≡ s ++ drop offset' bytes) × (length s ≡ size) × (offset' ≤ length bytes)
  decode_field_ok offset size offset' s e h =
      let (r, t, o) = decode_field_parts offset size offset' s e h in
      let l : size ≤ length (drop offset bytes) =
        omega (arith, length-drop offset bytes (omega arith)) in
      let (front, len) = take-append-drop_front size (drop offset bytes) l in
      (rw (← t, o, ← drop-drop offset size bytes) front, rw (← t) len, omega arith)

  -- A field behind its length was read between two offsets.
  abbrev SizedAt : ℕ → Bytes × ℕ → Type 0
  SizedAt offset r =
      (drop offset bytes ≡ field_bytes r.0 ++ drop r.1 bytes)
      × (length r.0 < 2 ^ 32)
      × (r.1 ≤ length bytes)

  SizedAt-of_parts :
      (offset size offset1 : ℕ) (r : Bytes × ℕ) (what : What) (e : HeaderError)
      → decode_uint32_le_checked bytes offset what ≡ ok (size, offset1)
      → decode_field bytes offset1 size e ≡ ok r
      → SizedAt offset r
  unfolding field_bytes
  SizedAt-of_parts offset size offset1 (s, offset2) what e hw hf =
      let (b, small, _) = decode_word_ok offset size offset1 what hw in
      let (b', l, o) = decode_field_ok offset1 size offset2 s e hf in
      (b ∙ rw (b', l, append_assoc), rw l small, o)

  decode_sized_ok :
      (offset : ℕ) (r : Bytes × ℕ) (what : What) (e : HeaderError)
      → decode_sized bytes offset what e ≡ ok r
      → SizedAt offset r
  unfolding decode_sized
  decode_sized_ok offset r what e h =
      let (w, hw, hf) = >>=-eq-ok (decode_uint32_le_checked bytes offset what) _ h in
      SizedAt-of_parts offset w.0 w.1 r what e hw hf

  abbrev PairAt : ℕ → (Bytes × Bytes) × ℕ → Type 0
  PairAt offset r =
      (drop offset bytes ≡ field_bytes r.0.0 ++ (field_bytes r.0.1 ++ drop r.1 bytes))
      × ((length r.0.0 < 2 ^ 32) × (length r.0.1 < 2 ^ 32))
      × (r.1 ≤ length bytes)

  PairAt-of_parts :
      (offset : ℕ) (name value : Bytes × ℕ)
      → SizedAt offset name
      → SizedAt name.1 value
      → PairAt offset ((name.0, value.0), value.1)
  PairAt-of_parts offset name value (b, l, _) (b', l', o) = (b ∙ rw b', (l, l'), o)

  decode_pair_ok :
      (offset : ℕ) (r : (Bytes × Bytes) × ℕ) → decode_pair bytes offset ≡ ok r → PairAt offset r
  unfolding decode_pair
  decode_pair_ok offset r h =
      let (name, hn, h1) =
        >>=-eq-ok (decode_sized bytes offset header_name_length truncated_name) _ h in
      let (value, hv, h2) =
        >>=-eq-ok (decode_sized bytes name.1 header_value_length truncated_value) _ h1 in
      subst (PairAt offset) (ok-injective h2) (
        PairAt-of_parts offset name value (decode_sized_ok offset name _ _ hn)
          (decode_sized_ok name.1 value _ _ hv))

  -- The headers that the loop added, and where it read them.
  abbrev LoopAt : ℕ → ℕ → Headers → Headers × ℕ → Type 0
  LoopAt n offset out r =
      (hs : Headers) × (r.0 ≡ out ++ hs)
      × (length hs ≡ n)
      × FieldsFit hs
      × (drop offset bytes ≡ pairs_bytes hs ++ drop r.1 bytes)
      × (r.1 ≤ length bytes)

  LoopAt-step :
      (n offset : ℕ) (out : Headers) (p : (Bytes × Bytes) × ℕ) (r : Headers × ℕ)
      → PairAt offset p
      → LoopAt n p.1 (out ++ (p.0 ∷ [])) r
      → LoopAt (suc n) offset out r
  unfolding pairs_bytes
  LoopAt-step n offset out ((name, value), o) r (b, fit, _) (hs, e, l, fits, b', o') = (
    (name, value) ∷ hs,
    e ∙ append_assoc out ((name, value) ∷ []) hs,
    ap suc l,
    (fit, fits),
    b ∙ rw (b', append_assoc, append_assoc),
    o',
  )

  decode_loop_ok :
      (n offset : ℕ) (out : Headers) (r : Headers × ℕ)
      → offset ≤ length bytes
      → decode_loop n bytes offset out ≡ ok r
      → LoopAt n offset out r
  unfolding decode_loop
  decode_loop_ok zero offset out r l h =
      subst (LoopAt 0 offset out) (ok-injective h)
        ([], sym (append-nil out), refl, tt, (unfold pairs_bytes in refl), l)
  decode_loop_ok (suc n) offset out r l h =
      let (p, hp, h1) = >>=-eq-ok (decode_pair bytes offset) _ h in
      let at = decode_pair_ok offset p hp in
      LoopAt-step n offset out p r at (decode_loop_ok n p.1 (out ++ (p.0 ∷ [])) r at.2 h1)

drop_all : (bs : Bytes) → drop (length bs) bs ≡ []
drop_all [] = refl
drop_all (b ∷ bs) = drop_all bs

-- What the last test of `decodeHeaderPairs` lets through.
no_trailing :
    (bytes : Bytes) (r : Headers × ℕ) (hs : Headers)
    → (if not (r.1 == length bytes) then err trailing_bytes else ok r.0) ≡ ok hs
    → (r.1 ≡ length bytes) × (r.0 ≡ hs)
no_trailing bytes r hs h = ground arith

accepted_bytes :
    (bytes : Bytes) (all : All IsByte bytes) (count offset : ℕ) (hs : Headers) (r : Headers × ℕ)
    → (bytes ≡ le_bytes 4 count ++ drop offset bytes)
    → count < 2 ^ 32
    → LoopAt bytes all count offset [] r
    → (r.1 ≡ length bytes) × (r.0 ≡ hs)
    → encode_header_pairs hs ≡ ok bytes
accepted_bytes bytes all count offset hs r w small (hs', e, l, fits, b, _) (last, same) =
    let rest : drop r.1 bytes ≡ [] = rw last (drop_all bytes) in
    let whole : bytes ≡ le_bytes 4 (length hs') ++ pairs_bytes hs' =
      w ∙ rw (b, rest, append-nil, l) in
    rw (← same, e) (encode_header_pairs-bytes hs' (rw l small) fits ∙ ap ok (sym whole))

decoded→encoded :
    (bytes : Bytes) (hs : Headers)
    → All IsByte bytes
    → decode_header_pairs bytes ≡ ok hs
    → encode_header_pairs hs ≡ ok bytes
unfolding decode_header_pairs
decoded→encoded bytes hs all h =
    let (w, hw, h1) = >>=-eq-ok (decode_uint32_le_checked bytes 0 header_list) _ h in
    let (r, hr, h2) = >>=-eq-ok (decode_loop w.0 bytes w.1 []) _ h1 in
    let (b, small, o) = decode_word_ok bytes all 0 w.0 w.1 header_list hw in
    accepted_bytes bytes all w.0 w.1 hs r b small (decode_loop_ok bytes all w.0 w.1 [] r o hr)
      (no_trailing bytes r hs h2)

FieldsFit-dec : (hs : Headers) → FieldsFit hs ⊎ ¬ FieldsFit hs
FieldsFit-dec [] = inl tt
FieldsFit-dec ((name, value) ∷ rest) = elim (FieldsFit-dec rest) [
  | inr no_rest ↦ inr (λ f. no_rest f.1)
  | inl fits ↦ elim (dec_lt (length name) (2 ^ 32)) [
    | no n ↦ inr (λ f. n f.0.0)
    | yes a ↦ elim (dec_lt (length value) (2 ^ 32)) [
      | no n ↦ inr (λ f. n f.0.1)
      | yes b ↦ inl ((a, b), fits)
    ]
  ]
]

encoded→decoded :
    (bytes : Bytes) (hs : Headers)
    → length hs < 2 ^ 32
    → encode_header_pairs hs ≡ ok bytes
    → decode_header_pairs bytes ≡ ok hs
encoded→decoded bytes hs count h = elim (FieldsFit-dec hs) [
  | inl fits ↦
      let e = ok-injective (sym (encode_header_pairs-bytes hs count fits) ∙ h) in
      rw e at (decode_header_pairs-bytes hs count fits)
  | inr long ↦ unfold encode_header_pairs in cc (encode_loop_too_long hs _ long, h)
]

-- For fewer than 2 ^ 32 headers and an array of bytes: `decodeHeaderPairs` returns the headers
-- exactly when `encodeHeaderPairs` writes the array for them. So what was encoded is read back, and
-- any other array (truncated, padded, or with another count) is refused.
pub decode_header_pairs_iff :
    (bytes : Bytes) (hs : Headers)
    → All IsByte bytes
    → length hs < 2 ^ 32
    → (decode_header_pairs bytes ≡ ok hs) ↔ (encode_header_pairs hs ≡ ok bytes)
decode_header_pairs_iff bytes hs all count =
    (decoded→encoded bytes hs all, encoded→decoded bytes hs count)
