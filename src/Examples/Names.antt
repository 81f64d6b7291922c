-- ===== src/Examples/Names.antt =====
-- plugin/capnpc-lean4.c++: names and literals.
use lean_capnproto.Prelude.{◌≡◌, ◌↔◌, refl, false, some, [], ◌∷◌, ◌++◌, All, map, codes}
use lean_capnproto.Naming.{
  sanitize_identifier, split_on_char, join_segments, path_to_module_segments, output_path,
  escape_string, is_lean_keyword,
}
use lean_capnproto.Naming.Identifiers.{
  IsIdentifier, is_ident_char-IsIdentChar, out_of_range, unreserved,
  sanitize_identifier-IsIdentifier,
}
use lean_capnproto.Naming.Paths.{
  split_on_char-join_segments, path_to_module_segments-All, output_path_iff,
}
use lean_capnproto.Naming.Literals.{read_literal, visible, read-escape_string}
use lean_capnproto.Naming.TypeNames.{Node, split_display_name}
use lean_capnproto.Naming.TypeNames.Laws.{split_display_name-colon}

sanitize_identifier-IsIdentifier_example : IsIdentifier (sanitize_identifier (codes "2-in"))
sanitize_identifier-IsIdentifier_example = sanitize_identifier-IsIdentifier (codes "2-in")

foo-IsIdentifier : IsIdentifier (codes "foo")
unfolding is_lean_keyword
foo-IsIdentifier = record {
  chars = (
    is_ident_char-IsIdentChar 102 refl,
    (is_ident_char-IsIdentChar 111 refl, (is_ident_char-IsIdentChar 111 refl, tt)),
  );
  head = out_of_range 48 57 102 refl;
  no_keyword = unreserved (codes "foo") refl;
}

split_on_char-join_segments_example :
    split_on_char (join_segments (codes "foo" ∷ codes "foo" ∷ []) 46) 46
    ≡ codes "foo" ∷ codes "foo" ∷ []
split_on_char-join_segments_example =
    split_on_char-join_segments (codes "foo" ∷ codes "foo" ∷ []) 46
      (foo-IsIdentifier, (foo-IsIdentifier, tt)) refl

path_to_module_segments-All_example : All IsIdentifier (path_to_module_segments (codes "a/b.capnp"))
path_to_module_segments-All_example = path_to_module_segments-All (codes "a/b.capnp")

output_path_iff_example :
    (output_path (path_to_module_segments (codes "a/b.capnp"))
      ≡ output_path (path_to_module_segments (codes "a/b")))
    ↔ (join_segments (path_to_module_segments (codes "a/b.capnp")) 46
        ≡ join_segments (path_to_module_segments (codes "a/b")) 46)
output_path_iff_example = output_path_iff (codes "a/b.capnp") (codes "a/b")

read-escape_string_example :
    read_literal false (escape_string (codes "a\"b\n") ++ (34 ∷ codes ")"))
    ≡ some (map visible (codes "a\"b\n"), codes ")")
read-escape_string_example = read-escape_string (codes "a\"b\n") (codes ")")

split_display_name-colon_example :
    split_display_name (codes "c:/x.capnp" ++ (58 ∷ codes "A.B"))
    ≡ (codes "c:/x.capnp", codes "A.B")
split_display_name-colon_example =
    split_display_name-colon (codes "c:/x.capnp") (codes "A.B") (refl, (refl, (refl, tt)))

abbrev foo_node : Node
foo_node = record { id = 7; display_name = codes "x.capnp:Foo"; is_group = false }

abbrev bar_node : Node
bar_node = record { id = 8; display_name = codes "x.capnp:Bar"; is_group = false }
