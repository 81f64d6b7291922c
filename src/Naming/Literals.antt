-- ===== src/Naming/Literals.antt =====
-- plugin/capnpc-lean4.c++, `escapeString`: the literal is read back as the text.
use lean_capnproto.Prelude.{
  ℕ, ◌≡◌, refl, Bool, true, false, not, Option, none, some, [], ◌∷◌, ◌++◌, map, ◌==◌, ltb, arith,
  if◌then◌else◌, ◌&&◌, ◌||◌,
}
use mathlib.Core.List.{append_assoc}
use lean_capnproto.Naming.{Text, escape_char, escape_string}

-- What a backslash and the character behind it stand for in Lean, for those of `escapeString`.
abbrev unescape : ℕ → Option ℕ
unescape c =
    if c == 92 || c == 34
    then some c
    else if c == 110
    then some 10
    else if c == 114
    then some 13
    else if c == 116
    then some 9
    else none

abbrev push_char : Option ℕ → Option (Text × Text) → Option (Text × Text)
push_char none r = none
push_char (some c) none = none
push_char (some c) (some (s, rest)) = some (c ∷ s, rest)

-- How a string literal is read behind its opening quote: its characters up to the closing quote, and
-- what is behind that. The first argument tells whether a backslash was just read.
pub read_literal : Bool → Text → Option (Text × Text)
read_literal escaped [] = none
read_literal true (c ∷ s) = push_char (unescape c) (read_literal false s)
read_literal false (c ∷ s) = elim (c == 34) [
  | true ↦ some ([], s)
  | false ↦ elim (c == 92) [
    | true ↦ read_literal true s
    | false ↦ push_char (some c) (read_literal false s)
  ]
]

-- A control character other than the three with an escape of their own reads as a space.
abbrev pub visible : ℕ → ℕ
visible c = if ltb c 32 && not (c == 10 || c == 13 || c == 9) then 32 else c

read-escape_char :
    (c : ℕ) (more : Text)
    → read_literal false (escape_char c ++ more)
      ≡ push_char (some (visible c)) (read_literal false more)
unfolding read_literal escape_char
read-escape_char c more = ground arith

-- The text of a literal, escaped, is read back up to the closing quote and no further, whatever
-- stands behind it: as the same text, with a space for each control character other than '\n', '\r'
-- and '\t'.
pub read-escape_string :
    (text rest : Text)
    → read_literal false (escape_string text ++ (34 ∷ rest)) ≡ some (map visible text, rest)
unfolding read_literal escape_string
read-escape_string [] rest = refl
read-escape_string (c ∷ text) rest =
    rw (append_assoc (escape_char c) (escape_string text) (34 ∷ rest)) (
      rw (read-escape_char c (escape_string text ++ (34 ∷ rest)))
        (rw (read-escape_string text rest)))
