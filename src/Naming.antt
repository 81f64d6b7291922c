-- ===== src/Naming.antt =====
-- plugin/capnpc-lean4.c++: the names that the generated Lean files and their declarations get from
-- the names in a Cap'n Proto schema, and the text of string literals. A character is its code; the
-- character classes of <cctype> are those of the "C" locale.
pub mod Identifiers
pub mod Paths
pub mod Literals
pub mod TypeNames
use lean_capnproto.Prelude.{
  ℕ, zero, suc, ◌+◌, ◌-◌, Bool, true, false, ◌&&◌, ◌||◌, Option, none, some, List, [], ◌∷◌, ◌++◌,
  map, ◌==◌, ltb, leb, if◌then◌else◌, length, take, drop, get_or, codes, same, is_one_of, c_str,
}
use lean_capnproto.Prelude.Table.{Table, find, assign}

abbrev pub Text : Type 0
Text = List ℕ

abbrev pub in_range : ℕ → ℕ → ℕ → Bool
in_range low high c = leb low c && leb c high

abbrev pub is_digit : ℕ → Bool
is_digit = in_range 48 57

abbrev pub is_ident_char : ℕ → Bool
is_ident_char c = is_digit c || in_range 65 90 c || in_range 97 122 c || c == 95

abbrev pub keywords : List Text
keywords =
    codes "abbrev"
    ∷ codes "attribute"
    ∷ codes "by"
    ∷ codes "class"
    ∷ codes "def"
    ∷ codes "derive"
    ∷ codes "do"
    ∷ codes "else"
    ∷ codes "end"
    ∷ codes "extends"
    ∷ codes "forall"
    ∷ codes "fun"
    ∷ codes "if"
    ∷ codes "import"
    ∷ codes "in"
    ∷ codes "inductive"
    ∷ codes "instance"
    ∷ codes "let"
    ∷ codes "match"
    ∷ codes "mutual"
    ∷ codes "namespace"
    ∷ codes "open"
    ∷ codes "partial"
    ∷ codes "private"
    ∷ codes "protected"
    ∷ codes "section"
    ∷ codes "structure"
    ∷ codes "theorem"
    ∷ codes "then"
    ∷ codes "universe"
    ∷ codes "variable"
    ∷ codes "where"
    ∷ codes "return"
    ∷ []

unfoldable pub is_lean_keyword : Text → Bool
is_lean_keyword ident = is_one_of ident keywords

-- The three steps of `sanitizeIdentifier`.
pub replace_other_chars : Text → Text
replace_other_chars [] = []
replace_other_chars (c ∷ s) = (if is_ident_char c then c else 95) ∷ replace_other_chars s

pub guard_head : Text → Text
guard_head [] = 95 ∷ []
guard_head (c ∷ s) = if is_digit c then 95 ∷ c ∷ s else c ∷ s

pub guard_keyword : Text → Text
guard_keyword s = if is_lean_keyword s then 95 ∷ s else s

pub sanitize_identifier : Text → Text
sanitize_identifier ident = guard_keyword (guard_head (replace_other_chars ident))

abbrev upper_head : Text → Text
upper_head [] = []
upper_head (c ∷ s) = (if in_range 97 122 c then (c - 97) + 65 else c) ∷ s

pub capitalize_identifier : Text → Text
capitalize_identifier ident = upper_head (c_str ident)

-- A part that ends is kept when it is not empty.
unfoldable pub keep_part : Text → List Text → List Text
keep_part [] parts = parts
keep_part (c ∷ s) parts = (c ∷ s) ∷ parts

-- The loop of `splitPath` and `splitOnChar`; `part` is the text from `start` up to the position.
pub split_loop : (ℕ → Bool) → Text → Text → List Text
unfolding keep_part
split_loop is_sep part [] = keep_part part []
split_loop is_sep part (c ∷ text) =
    if is_sep c
    then keep_part part (split_loop is_sep [] text)
    else split_loop is_sep (part ++ (c ∷ [])) text

pub split_path : Text → List Text
split_path path = split_loop (λ c. c == 47 || c == 92) [] path

pub split_on_char : Text → ℕ → List Text
split_on_char text sep = split_loop (λ c. c == sep) [] text

pub strip_capnp_extension : Text → Text
strip_capnp_extension name =
    if leb 6 (length name) && same (drop (length name - 6) name) (codes ".capnp")
    then take (length name - 6) name
    else name

-- All parts but the last lose the characters that no identifier has, the last its extension first.
pub sanitize_parts : Text → List Text → List Text
unfolding sanitize_identifier strip_capnp_extension
sanitize_parts part [] = sanitize_identifier (strip_capnp_extension part) ∷ []
sanitize_parts part (next ∷ parts) = sanitize_identifier part ∷ sanitize_parts next parts

pub file_segments : List Text → List Text
unfolding sanitize_parts
file_segments [] = codes "Schema" ∷ []
file_segments (part ∷ parts) = sanitize_parts part parts

pub path_to_module_segments : Text → List Text
unfolding split_path file_segments
path_to_module_segments filename = codes "Capnp" ∷ codes "Gen" ∷ file_segments (split_path filename)

pub join_rest : ℕ → List Text → Text
join_rest sep [] = []
join_rest sep (s ∷ segments) = sep ∷ (c_str s ++ join_rest sep segments)

pub join_segments : List Text → ℕ → Text
join_segments [] sep = []
join_segments (s ∷ segments) sep = c_str s ++ join_rest sep segments

pub output_path : List Text → Text
unfolding join_segments
output_path segments = join_segments segments 47 ++ codes ".lean"

pub escape_char : ℕ → Text
escape_char c =
    if c == 92
    then 92 ∷ 92 ∷ []
    else if c == 34
    then 92 ∷ 34 ∷ []
    else if c == 10
    then codes "\\n"
    else if c == 13
    then codes "\\r"
    else if c == 9
    then codes "\\t"
    else if ltb c 32
    then 32 ∷ []
    else c ∷ []

pub escape_string : Text → Text
unfolding escape_char
escape_string [] = []
escape_string (c ∷ text) = escape_char c ++ escape_string text
