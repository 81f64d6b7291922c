-- ===== src/Naming/Identifiers.antt =====
-- plugin/capnpc-lean4.c++, `sanitizeIdentifier`: what it returns is an identifier.
use lean_capnproto.Prelude.{
  ℕ, ◌≤◌, ◌≡◌, ◌≢◌, ◌⊎◌, refl, sym, ap, ◌∙◌, true, false, List, [], ◌∷◌, arith, Bool-cases, inl,
  inr, All, codes, same, same_self, is_one_of,
}
use lean_capnproto.Prelude.Dict.{same_sound}
use lean_capnproto.Naming.{
  Text, in_range, is_digit, is_ident_char, keywords, is_lean_keyword, replace_other_chars,
  guard_head, guard_keyword, sanitize_identifier,
}

abbrev IsDigit : ℕ → Type 0
IsDigit c = (48 ≤ c) × (c ≤ 57)

-- An ASCII letter, a digit or '_'.
abbrev pub IsIdentChar : ℕ → Type 0
IsIdentChar c = ((97 ≤ c) × (c ≤ 122)) ⊎ ((65 ≤ c) × (c ≤ 90)) ⊎ IsDigit c ⊎ (c ≡ 95)

abbrev StartsWell : Text → Type 0
StartsWell [] = ⊥
StartsWell (c ∷ s) = ¬ IsDigit c

-- The words that the generated names are to stay clear of.
abbrev reserved : List Text
reserved =
    codes "abbrev"
    ∷ codes "attribute"
    ∷ codes "by"
    ∷ codes "class"
    ∷ codes "def"
    ∷ codes "derive"
    ∷ codes "do"
    ∷ codes "else"
    ∷ codes "end"
    ∷ codes "extends"
    ∷ codes "forall"
    ∷ codes "fun"
    ∷ codes "if"
    ∷ codes "import"
    ∷ codes "in"
    ∷ codes "inductive"
    ∷ codes "instance"
    ∷ codes "let"
    ∷ codes "match"
    ∷ codes "mutual"
    ∷ codes "namespace"
    ∷ codes "open"
    ∷ codes "partial"
    ∷ codes "private"
    ∷ codes "protected"
    ∷ codes "section"
    ∷ codes "structure"
    ∷ codes "theorem"
    ∷ codes "then"
    ∷ codes "universe"
    ∷ codes "variable"
    ∷ codes "where"
    ∷ codes "return"
    ∷ []

-- What the generator takes for an identifier: letters, digits and '_', no digit in front, not empty
-- and no reserved word.
pub record IsIdentifier (s : Text) : Type 0 where
  pub chars : All IsIdentChar s
  pub head : StartsWell s
  pub no_keyword : All (λ w. s ≢ w) reserved

in_range-le : (low high c : ℕ) → in_range low high c ≡ true → (low ≤ c) × (c ≤ high)
in_range-le low high c h = ground (arith, h)

pub out_of_range : (low high c : ℕ) → in_range low high c ≡ false → ¬ ((low ≤ c) × (c ≤ high))
out_of_range low high c h (a, b) = ground (arith, h, a, b)

pub is_ident_char-IsIdentChar : (c : ℕ) → is_ident_char c ≡ true → IsIdentChar c
is_ident_char-IsIdentChar c h = ground (arith, h)

pub IsIdentChar-is_ident_char : (c : ℕ) → IsIdentChar c → is_ident_char c ≡ true
IsIdentChar-is_ident_char c h = ground (arith, h)

not_one_of : (s : Text) (words : List Text) → is_one_of s words ≡ false → All (λ w. s ≢ w) words
not_one_of s [] h = tt
not_one_of s (w ∷ words) h = (
  (λ e. ground (arith, h, sym (same_self s) ∙ ap (same s) e)),
  not_one_of s words (ground (arith, h)),
)

one_of_none : (s : Text) (words : List Text) → All (λ w. s ≢ w) words → is_one_of s words ≡ false
one_of_none s [] h = refl
one_of_none s (w ∷ words) (n, h) = elim (Bool-cases (same s w)) [
  | inl e ↦ absurd (n (same_sound s w e))
  | inr e ↦ rw e (one_of_none s words h)
]

pub unreserved : (s : Text) → is_lean_keyword s ≡ false → All (λ w. s ≢ w) reserved
unfolding is_lean_keyword
unreserved s h = not_one_of s keywords h

replaced : (s : Text) → All IsIdentChar (replace_other_chars s)
unfolding replace_other_chars
replaced [] = tt
replaced (c ∷ s) = elim (Bool-cases (is_ident_char c)) [
  | inl e ↦ rw (e, replace_other_chars) (is_ident_char-IsIdentChar c e, replaced s)
  | inr e ↦ rw (e, replace_other_chars) (inr (inr (inr refl)), replaced s)
]

guarded_chars : (s : Text) → All IsIdentChar s → All IsIdentChar (guard_head s)
unfolding guard_head
guarded_chars [] h = (inr (inr (inr refl)), tt)
guarded_chars (c ∷ s) h = elim (Bool-cases (is_digit c)) [
  | inl e ↦ rw (e, guard_head) (inr (inr (inr refl)), h)
  | inr e ↦ rw (e, guard_head) h
]

underscore_apart : ¬ IsDigit 95
underscore_apart (a, b) = omega (arith, b)

guarded_head : (s : Text) → StartsWell (guard_head s)
unfolding guard_head
guarded_head [] = underscore_apart
guarded_head (c ∷ s) = elim (Bool-cases (is_digit c)) [
  | inl e ↦ rw (e, guard_head) underscore_apart
  | inr e ↦ rw (e, guard_head) (out_of_range 48 57 c e)
]

-- No keyword starts with '_'.
underscore_no_keyword : (s : Text) → is_lean_keyword (95 ∷ s) ≡ false
unfolding is_lean_keyword
underscore_no_keyword s = refl

guard_keyword-IsIdentifier :
    (s : Text) → All IsIdentChar s → StartsWell s → IsIdentifier (guard_keyword s)
unfolding guard_keyword
guard_keyword-IsIdentifier s h w = elim (Bool-cases (is_lean_keyword s)) [
  | inl e ↦
      rw (e, guard_keyword)
        (record {
          chars = (inr (inr (inr refl)), h);
          head = underscore_apart;
          no_keyword = unreserved (95 ∷ s) (underscore_no_keyword s);
        })
  | inr e ↦ rw (e, guard_keyword) (record { chars = h; head = w; no_keyword = unreserved s e })
]

-- Whatever name the schema has, `sanitizeIdentifier` returns a name that is not empty, has only ASCII
-- letters, digits and '_', has no digit in front, and is none of the 33 words that are reserved here.
-- (It may be '_' alone, and a word that Lean reserves beside these.)
pub sanitize_identifier-IsIdentifier : (s : Text) → IsIdentifier (sanitize_identifier s)
unfolding sanitize_identifier
sanitize_identifier-IsIdentifier s =
    guard_keyword-IsIdentifier (guard_head (replace_other_chars s))
      (guarded_chars (replace_other_chars s) (replaced s)) (guarded_head (replace_other_chars s))

replace-id : (s : Text) → All IsIdentChar s → replace_other_chars s ≡ s
unfolding replace_other_chars
replace-id [] h = refl
replace-id (c ∷ s) h = rw (IsIdentChar-is_ident_char c h.0, replace-id s h.1)

guard_head-id : (s : Text) → StartsWell s → guard_head s ≡ s
unfolding guard_head
guard_head-id [] h = absurd h
guard_head-id (c ∷ s) h = elim (Bool-cases (is_digit c)) [
  | inl e ↦ absurd (h (in_range-le 48 57 c e))
  | inr e ↦ rw (e, guard_head)
]

keyword_free : (s : Text) → All (λ w. s ≢ w) reserved → is_lean_keyword s ≡ false
unfolding is_lean_keyword
keyword_free s h = one_of_none s keywords h

-- `sanitizeIdentifier` leaves such a name as it is.
sanitize_identifier-id : (s : Text) → IsIdentifier s → sanitize_identifier s ≡ s
unfolding sanitize_identifier guard_keyword
sanitize_identifier-id s h =
    rw (replace-id s h.chars)
      (rw (guard_head-id s h.head) (rw (keyword_free s h.no_keyword, guard_keyword)))
