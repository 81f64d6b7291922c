-- ===== src/Prelude/Strings.antt =====
-- Strings as the codes of their characters, and equality of such lists.
use Prim.Native.Nat.{ℕ}
use Prim.Native.Char.{code}
use Prim.Native.String.{String}
use mathlib.Core.Path.{◌≡◌, refl}
use mathlib.Core.Bool.{Bool, true, false, ◌&&◌, ◌||◌}
use mathlib.Core.List.{List, [], ◌∷◌}
use lean_capnproto.Prelude.Tests.{◌==◌, if◌then◌else◌}
use native.Mathlib.Omega.{arith}

abbrev pub codes : String → List ℕ
codes String.[] = []
codes (String.◌∷◌ c s) = code c ∷ codes s

abbrev pub same : List ℕ → List ℕ → Bool
same [] [] = true
same [] (y ∷ ys) = false
same (x ∷ xs) [] = false
same (x ∷ xs) (y ∷ ys) = (x == y) && same xs ys

abbrev pub is_one_of : List ℕ → List (List ℕ) → Bool
is_one_of x [] = false
is_one_of x (y ∷ ys) = same x y || is_one_of x ys

pub same_self : (xs : List ℕ) → same xs xs ≡ true
same_self [] = refl
same_self (x ∷ xs) = ground (arith, same_self xs)

-- The characters that a C string reaches: those before the first NUL.
abbrev pub c_str : List ℕ → List ℕ
c_str [] = []
c_str (c ∷ s) = if c == 0 then [] else c ∷ c_str s

pub c_str_twice : (s : List ℕ) → c_str (c_str s) ≡ c_str s
c_str_twice [] = refl
c_str_twice (c ∷ s) = ground (arith, c_str_twice s)
