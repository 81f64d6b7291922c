-- ===== src/Naming/TypeNames.antt =====
-- plugin/capnpc-lean4.c++: the module and the type name of each schema node.
pub mod Laws
use lean_capnproto.Prelude.{
  ℕ, zero, suc, Bool, Option, none, some, List, [], ◌∷◌, ◌++◌, ◌==◌, if◌then◌else◌, length, take,
  drop, get_or, codes, same,
}
use lean_capnproto.Prelude.Table.{Table, find, assign}
use lean_capnproto.Naming.{
  Text, sanitize_identifier, capitalize_identifier, split_on_char, path_to_module_segments,
  join_segments,
}

-- QualifiedName
pub record QualifiedName : Type 0 where
  pub module_name : Text
  pub type_name : Text

-- The scan of `splitDisplayName` for a ':', from position `i` down.
pub scan_display_name : Text → ℕ → Text × Text
scan_display_name name zero = (name, [])
scan_display_name name (suc idx) =
    if get_or name idx 0 == 58
    then (take idx name, drop (suc idx) name)
    else scan_display_name name idx

pub split_display_name : Text → Text × Text
unfolding scan_display_name
split_display_name name = scan_display_name name (length name)

-- What `buildNameTable` reads of a node that the schema loader returns; `is_group` is false for one
-- that is no struct.
pub record Node : Type 0 where
  pub id : ℕ
  pub display_name : Text
  pub is_group : Bool

pub sanitize_all : List Text → List Text
sanitize_all [] = []
sanitize_all (part ∷ parts) = sanitize_identifier part ∷ sanitize_all parts

-- A group's own name, the last one, is capitalized and ends in "Group".
name_group : List Text → List Text
unfolding capitalize_identifier
name_group [] = []
name_group (part ∷ []) = (capitalize_identifier part ++ codes "Group") ∷ []
name_group (part ∷ (next ∷ parts)) = part ∷ name_group (next ∷ parts)

pub type_name_of : Bool → Text → Text
unfolding sanitize_all name_group
type_name_of is_group type_path =
    if length type_path == 0
    then []
    else let sanitized = sanitize_all (split_on_char type_path 46) in
      join_segments (if is_group then name_group sanitized else sanitized) 46

pub qualified_name : Node → QualifiedName
unfolding split_display_name type_name_of
qualified_name n =
    let (file_path, type_path) = split_display_name n.display_name in
    record {
      module_name = join_segments (path_to_module_segments file_path) 46;
      type_name = type_name_of n.is_group type_path;
    }

pub add_names : List Node → Table QualifiedName → Table QualifiedName
add_names [] names = names
add_names (n ∷ nodes) names = add_names nodes (assign n.id (qualified_name n) names)

pub build_name_table : List Node → Table QualifiedName
unfolding add_names
build_name_table nodes = add_names nodes []

spell_name : QualifiedName → Text → Text
spell_name q current_module =
    if length q.type_name == 0
    then codes "Capnp.Unknown"
    else if same q.module_name current_module
    then q.type_name
    else q.module_name ++ (46 ∷ q.type_name)

qualified_type_name : Table QualifiedName → ℕ → Text → Text
unfolding spell_name
qualified_type_name names type_id current_module = elim (find type_id names) [
  | none ↦ codes "Capnp.Unknown"
  | some q ↦ spell_name q current_module
]
