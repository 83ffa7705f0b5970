-- ===== src/Common/Positions.antt =====
-- Where a text that is read by indexes goes on as a known text.
use Prim.Native.Nat.{ℕ, zero, suc, ◌+◌, ◌-◌}
use mathlib.Core.Path.{◌≡◌, refl, sym, ap, ◌∙◌}
use mathlib.Core.List.{List, [], ◌∷◌, ◌++◌}
use mathlib.Core.Option.{none, some}
use native.Mathlib.Omega.{arith}
use yohira.Common.Lists.{
  length, length-append, get_elem?, get_or, drop, drop-drop, take-append, drop-append,
}
use yohira.Common.Bytes.{slice}

-- From index `s` on, the input is the text `rest`.
pub record At (input : List ℕ) (s : ℕ) (rest : List ℕ) : Type 0 where
  pub goes_on : drop s input ≡ rest
  pub within : s + length rest ≡ length input

pub At-advance :
    (input : List ℕ) (s : ℕ) (xs ys : List ℕ) → At input s (xs ++ ys) → At input (s + length xs) ys
At-advance input s xs ys a = record {
  goes_on =
      sym (drop-drop s (length xs) input) ∙ ap (drop (length xs)) a.goes_on ∙ drop-append xs ys;
  within = omega (arith, a.within, length-append xs ys);
}

pub At-next : (input : List ℕ) (s c : ℕ) (ys : List ℕ) → At input s (c ∷ ys) → At input (s + 1) ys
At-next input s c ys a = At-advance input s (c ∷ []) ys a

get_or-drop : (xs : List ℕ) (s c : ℕ) (ys : List ℕ) → drop s xs ≡ c ∷ ys → get_or xs s 0 ≡ c
get_or-drop [] zero c ys h = ground arith
get_or-drop [] (suc s) c ys h = ground arith
get_or-drop (x ∷ xs) zero c ys h = ground arith
get_or-drop (x ∷ xs) (suc s) c ys h = get_or-drop xs s c ys h

module _ {input : List ℕ} {s : ℕ} where
  pub At-get_or : (c : ℕ) (ys : List ℕ) → At input s (c ∷ ys) → get_or input s 0 ≡ c
  At-get_or c ys a = get_or-drop input s c ys a.goes_on

  pub At-slice : (xs ys : List ℕ) → At input s (xs ++ ys) → slice input s (s + length xs) ≡ xs
  At-slice xs ys a =
      let same : s + length xs - s ≡ length xs = omega arith in
      rw (same, a.goes_on) (take-append xs ys)

get_elem?-drop :
    (xs : List ℕ) (s c : ℕ) (ys : List ℕ) → drop s xs ≡ c ∷ ys → get_elem? xs s ≡ some c
get_elem?-drop [] zero c ys h = ground arith
get_elem?-drop [] (suc s) c ys h = ground arith
get_elem?-drop (x ∷ xs) zero c ys h = ground arith
get_elem?-drop (x ∷ xs) (suc s) c ys h = get_elem?-drop xs s c ys h

get_elem?_end : (xs : List ℕ) (s : ℕ) → s ≡ length xs → get_elem? xs s ≡ none
get_elem?_end [] s h = refl
get_elem?_end (x ∷ xs) zero h = absurd (omega arith)
get_elem?_end (x ∷ xs) (suc s) h = get_elem?_end xs s (omega arith)

module _ {input : List ℕ} {s : ℕ} where
  pub At-get_elem? : (c : ℕ) (ys : List ℕ) → At input s (c ∷ ys) → get_elem? input s ≡ some c
  At-get_elem? c ys a = get_elem?-drop input s c ys a.goes_on

  pub At-end : At input s [] → get_elem? input s ≡ none
  At-end a = get_elem?_end input s (omega (arith, a.within))
