-- ===== src/Naming/Paths.antt =====
-- plugin/capnpc-lean4.c++: module names and output paths are read back as the segments.
use lean_capnproto.Prelude.{
  ℕ, ◌≡◌, ◌↔◌, refl, sym, ap, ◌∙◌, Bool, true, false, List, [], ◌∷◌, ◌++◌, ◌==◌, arith, All, length,
  length-append, take-append_self, codes, c_str, ◌||◌,
}
use lean_capnproto.Naming.{
  Text, is_ident_char, keep_part, split_loop, split_path, split_on_char, sanitize_parts,
  file_segments, path_to_module_segments, join_rest, join_segments, output_path,
  strip_capnp_extension, sanitize_identifier, guard_keyword, guard_head, replace_other_chars,
  is_lean_keyword,
}
use mathlib.Core.Path.{subst}
use mathlib.Core.List.{append-nil, append_assoc}
use lean_capnproto.Naming.Identifiers.{
  IsIdentChar, IsIdentifier, IsIdentChar-is_ident_char, sanitize_identifier-IsIdentifier,
}

c_str-id : (s : Text) → All IsIdentChar s → c_str s ≡ s
c_str-id [] h = refl
c_str-id (c ∷ s) h = ground (arith, h.0, c_str-id s h.1)

abbrev AllIdentifiers : List Text → Type 0
AllIdentifiers = All IsIdentifier

-- No character of an identifier separates.
abbrev Parts : (ℕ → Bool) → Type 0
Parts is_sep = (c : ℕ) → is_ident_char c ≡ true → is_sep c ≡ false

module _ (is_sep : ℕ → Bool) (parts : Parts is_sep) where
  -- The loop runs over an identifier without a cut.
  split_loop-skip :
      (part s rest : Text)
      → All IsIdentChar s
      → split_loop is_sep part (s ++ rest) ≡ split_loop is_sep (part ++ s) rest
  unfolding split_loop
  split_loop-skip part [] rest h = rw (append-nil part)
  split_loop-skip part (c ∷ s) rest h =
      let later = split_loop-skip (part ++ (c ∷ [])) s rest h.1 in
      rw (parts c (IsIdentChar-is_ident_char c h.0)) (rw later (rw (append_assoc part (c ∷ []) s)))

  keep_part-identifier :
      (s : Text) (segments : List Text) → IsIdentifier s → keep_part s segments ≡ s ∷ segments
  unfolding keep_part
  keep_part-identifier [] segments h = absurd h.head
  keep_part-identifier (c ∷ s) segments h = refl

  split_loop-join_rest :
      (sep : ℕ) (s : Text) (segments : List Text)
      → is_sep sep ≡ true
      → IsIdentifier s
      → AllIdentifiers segments
      → split_loop is_sep s (join_rest sep segments) ≡ s ∷ segments
  unfolding split_loop join_rest
  split_loop-join_rest sep s [] e h hs = keep_part-identifier s [] h
  split_loop-join_rest sep s (t ∷ segments) e h (ht, hs) =
      let skip = split_loop-skip [] t (join_rest sep segments) ht.chars in
      let later = split_loop-join_rest sep t segments e ht hs in
      rw (e, c_str-id t ht.chars) (rw skip (rw later (keep_part-identifier s (t ∷ segments) h)))

  split-join :
      (sep : ℕ) (segments : List Text)
      → is_sep sep ≡ true
      → AllIdentifiers segments
      → split_loop is_sep [] (join_segments segments sep) ≡ segments
  unfolding split_loop join_segments keep_part
  split-join sep [] e h = refl
  split-join sep (s ∷ segments) e (h, hs) = rw (c_str-id s h.chars) (
      rw (split_loop-skip [] s (join_rest sep segments) h.chars)
        (split_loop-join_rest sep s segments e h hs))

-- Identifiers that are joined with a separator that no identifier has are read back by splitting at it.
pub split_on_char-join_segments :
    (segments : List Text) (sep : ℕ)
    → All IsIdentifier segments
    → is_ident_char sep ≡ false
    → split_on_char (join_segments segments sep) sep ≡ segments
unfolding split_on_char
split_on_char-join_segments segments sep h e =
    split-join (λ c. c == sep) (λ c i. ground (arith, e, i)) sep segments (ground arith) h

split_path-join_segments :
    (segments : List Text)
    → AllIdentifiers segments
    → split_path (join_segments segments 47) ≡ segments
unfolding split_path
split_path-join_segments segments h =
    split-join (λ c. c == 47 || c == 92) (λ c i. ground (arith, i)) 47 segments refl h

sanitize_parts-AllIdentifiers :
    (part : Text) (parts : List Text) → AllIdentifiers (sanitize_parts part parts)
unfolding sanitize_parts
sanitize_parts-AllIdentifiers part [] =
    (sanitize_identifier-IsIdentifier (strip_capnp_extension part), tt)
sanitize_parts-AllIdentifiers part (next ∷ parts) =
    (sanitize_identifier-IsIdentifier part, sanitize_parts-AllIdentifiers next parts)

word-IsIdentifier : (s : Text) → sanitize_identifier s ≡ s → IsIdentifier s
word-IsIdentifier s e = subst IsIdentifier e (sanitize_identifier-IsIdentifier s)

schema-IsIdentifier : IsIdentifier (codes "Schema")
unfolding sanitize_identifier guard_keyword guard_head replace_other_chars is_lean_keyword
schema-IsIdentifier = word-IsIdentifier (codes "Schema") refl

capnp-IsIdentifier : IsIdentifier (codes "Capnp")
unfolding sanitize_identifier guard_keyword guard_head replace_other_chars is_lean_keyword
capnp-IsIdentifier = word-IsIdentifier (codes "Capnp") refl

gen-IsIdentifier : IsIdentifier (codes "Gen")
unfolding sanitize_identifier guard_keyword guard_head replace_other_chars is_lean_keyword
gen-IsIdentifier = word-IsIdentifier (codes "Gen") refl

file_segments-AllIdentifiers : (parts : List Text) → AllIdentifiers (file_segments parts)
unfolding file_segments
file_segments-AllIdentifiers [] = (schema-IsIdentifier, tt)
file_segments-AllIdentifiers (part ∷ parts) = sanitize_parts-AllIdentifiers part parts

-- Every segment of a module name, whatever the schema file is called, is not empty, has only ASCII
-- letters, digits and '_', has no digit in front, and is none of the 33 reserved words.
pub path_to_module_segments-All :
    (filename : Text) → All IsIdentifier (path_to_module_segments filename)
unfolding path_to_module_segments
path_to_module_segments-All filename =
    (capnp-IsIdentifier, (gen-IsIdentifier, file_segments-AllIdentifiers (split_path filename)))

append-cancel : (a b e : Text) → a ++ e ≡ b ++ e → a ≡ b
append-cancel a b e h =
    let same_length : length a ≡ length b =
      omega (arith, length-append a e, length-append b e, ap (λ (t : Text). length t) h) in
    sym (take-append_self a e) ∙ rw (h, same_length) (take-append_self b e)

output_path-injective :
    (f g : List Text) → AllIdentifiers f → AllIdentifiers g → output_path f ≡ output_path g → f ≡ g
unfolding output_path
output_path-injective f g hf hg h =
    let joined = append-cancel (join_segments f 47) (join_segments g 47) (codes ".lean") h in
    sym (split_path-join_segments f hf) ∙ ap split_path joined ∙ split_path-join_segments g hg

module_name-injective :
    (f g : List Text)
    → AllIdentifiers f
    → AllIdentifiers g
    → join_segments f 46 ≡ join_segments g 46
    → f ≡ g
module_name-injective f g hf hg h =
    sym (split_on_char-join_segments f 46 hf refl)
    ∙ ap (λ (t : Text). split_on_char t 46) h
    ∙ split_on_char-join_segments g 46 hg refl

-- Two schema files are generated into the same output file exactly when their modules have the same
-- name.
pub output_path_iff :
    (f g : Text)
    → (output_path (path_to_module_segments f) ≡ output_path (path_to_module_segments g)) ↔ (
        join_segments (path_to_module_segments f) 46 ≡ join_segments (path_to_module_segments g) 46)
output_path_iff f g =
    let hf = path_to_module_segments-All f in
    let hg = path_to_module_segments-All g in
    let a = path_to_module_segments f in
    let b = path_to_module_segments g in
    (
      (λ h. ap (λ (s : List Text). join_segments s 46) (output_path-injective a b hf hg h)),
      (λ h. ap output_path (module_name-injective a b hf hg h)),
    )
