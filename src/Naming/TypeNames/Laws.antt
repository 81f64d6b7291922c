-- ===== src/Naming/TypeNames/Laws.antt =====
-- plugin/capnpc-lean4.c++: which names the table of type names has.
use lean_capnproto.Prelude.{
  ℕ, zero, suc, ◌+◌, ◌≡◌, refl, false, List, [], ◌∷◌, ◌++◌, ◌==◌, arith, length, drop, get_or, All,
  take-append_self, length-append,
}
use lean_capnproto.Prelude.Table.{Table}
use lean_capnproto.Naming.{Text}
use lean_capnproto.Naming.TypeNames.{scan_display_name, split_display_name, Node}

-- The characters are no ':'.
abbrev NoColon : Text → Type 0
NoColon s = All (λ (c : ℕ). (c == 58) ≡ false) s

NoColon-at : (s : Text) (i : ℕ) → NoColon s → (get_or s i 0 == 58) ≡ false
NoColon-at [] i h = refl
NoColon-at (c ∷ s) zero h = h.0
NoColon-at (c ∷ s) (suc i) h = NoColon-at s i h.1

get_or-behind : (s t : Text) (i : ℕ) → get_or (s ++ t) (length s + i) 0 ≡ get_or t i 0
get_or-behind [] t i = let e : 0 + i ≡ i = omega arith in rw e
get_or-behind (c ∷ s) t i =
    let e : suc (length s) + i ≡ suc (length s + i) = omega arith in rw (e, get_or-behind s t i)

drop-behind : (s t : Text) (c : ℕ) → drop (suc (length s)) (s ++ (c ∷ t)) ≡ t
drop-behind [] t c = refl
drop-behind (d ∷ s) t c = drop-behind s t c

scan-colon :
    (file type : Text) (k : ℕ)
    → NoColon type
    → scan_display_name (file ++ (58 ∷ type)) (suc (length file + k)) ≡ (file, type)
unfolding scan_display_name
scan-colon file type zero h =
    let e : length file + 0 ≡ length file = omega arith in
    let at = get_or-behind file (58 ∷ type) 0 in
    rw at (rw (e, take-append_self file (58 ∷ type), drop-behind file type 58))
scan-colon file type (suc k) h =
    let e : length file + suc k ≡ suc (length file + k) = omega arith in
    let at = get_or-behind file (58 ∷ type) (suc k) in
    rw at (rw (NoColon-at type k h) (rw e (scan-colon file type k h)))

-- `splitDisplayName` cuts a name at its last ':', the one behind which there is no other, into what
-- is before it and what is behind it.
pub split_display_name-colon :
    (file type : Text) → NoColon type → split_display_name (file ++ (58 ∷ type)) ≡ (file, type)
unfolding split_display_name
split_display_name-colon file type h =
    let e : length (file ++ (58 ∷ type)) ≡ suc (length file + length type) =
      omega (arith, length-append file (58 ∷ type)) in
    rw e (scan-colon file type (length type) h)

abbrev Absent : ℕ → List Node → Type 0
Absent id nodes = All (λ (n : Node). (n.id == id) ≡ false) nodes
