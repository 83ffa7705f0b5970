-- ===== src/Common/Text.antt =====
-- Strings as lists of code units, and the letters of ASCII in lower case.
use Prim.Native.Char.{code}
use Prim.Native.Nat.{ℕ, ◌+◌}
use Prim.Native.String.{String}
use mathlib.Core.Path.{◌≡◌, refl, ap₂}
use native.Mathlib.Omega.{arith}
use mathlib.Core.Bool.{Bool, true, false, ◌&&◌}
use mathlib.Core.List.{List, [], ◌∷◌, map}
use yohira.Common.Tests.{leb, ◌==◌, if◌then◌else◌}

-- `String` has its own `[]` and `∷`.
abbrev pub codes : String → List ℕ
codes String.[] = []
codes (String.◌∷◌ c s) = code c ∷ codes s

-- `x === y`
unfoldable pub same_text : List ℕ → List ℕ → Bool
same_text [] [] = true
same_text [] (y ∷ ys) = false
same_text (x ∷ xs) [] = false
same_text (x ∷ xs) (y ∷ ys) = (x == y) && same_text xs ys

-- `text.toLowerCase()` of a text of ASCII
unfoldable pub to_lower : ℕ → ℕ
to_lower c = if leb b'A' c && leb c b'Z' then c + 32 else c

abbrev pub to_lower_case : List ℕ → List ℕ
to_lower_case = map to_lower

-- `values.includes(value)`
unfoldable pub includes : List ℕ → ℕ → Bool
includes [] c = false
includes (v ∷ vs) c = if v == c then true else includes vs c

pub same_text-eq : (x y : List ℕ) → same_text x y ≡ true → x ≡ y
unfolding same_text
same_text-eq [] [] h = refl
same_text-eq [] (c ∷ y) h = cc
same_text-eq (c ∷ x) [] h = cc
same_text-eq (c ∷ x) (d ∷ y) h =
    let head : c ≡ d = ground (arith, h) in
    let tail : same_text x y ≡ true = ground (arith, h) in
    ap₂ (λ c x. c ∷ x) head (same_text-eq x y tail)
