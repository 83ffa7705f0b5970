-- ===== src/HttpHeaders/Utilities/Positions.antt =====
-- HeaderUtilities.ts where the input goes on as a known text.
use yohira.Common.{
  ℕ, zero, suc, ◌+◌, ◌≡◌, refl, ap, Bool, true, false, not, ◌&&◌, ◌||◌, List, [], ◌∷◌, ltb, ◌==◌,
  length, arith, ok,
}
use yohira.HttpHeaders.Rules.{get_whitespace_length, at_index, sp}
use yohira.HttpHeaders.Rules.Positions.{
  At, At-next, At-get_or, NotBlank, get_whitespace_length_zero, get_whitespace_length_one,
}
use yohira.HttpHeaders.Utilities.{comma, skip_separators, get_next_non_empty_or_whitespace_index}

-- A text that begins with no white space and no separator.
abbrev pub IsContent : List ℕ → Type 0
IsContent [] = Unit {0}
IsContent (c ∷ cs) = NotBlank (c ∷ cs) × ((c == comma) ≡ false)

IsContent-NotBlank : (rest : List ℕ) → IsContent rest → NotBlank rest
IsContent-NotBlank [] h = tt
IsContent-NotBlank (c ∷ cs) h = h.0

pub skip_no_blank :
    (input : List ℕ) (s : ℕ) (rest : List ℕ)
    → At input s rest
    → NotBlank rest
    → s + get_whitespace_length input s ≡ s
skip_no_blank input s rest a h = omega (arith, get_whitespace_length_zero input s rest a h)

pub skip_one_blank :
    (input : List ℕ) (s : ℕ) (rest : List ℕ)
    → At input s (sp ∷ rest)
    → NotBlank rest
    → s + get_whitespace_length input s ≡ s + 1
skip_one_blank input s rest a h = omega (arith, get_whitespace_length_one input s rest a h)

module _ (input : List ℕ) where
  At-content :
      (s : ℕ) (rest : List ℕ)
      → At input s rest
      → IsContent rest
      → (ltb (length input) s ≡ false)
        × (((s == length input) || not (at_index input s == comma)) ≡ true)
        × ((ltb s (length input) && (at_index input s == comma)) ≡ false)
  At-content s [] a h =
      (ground (arith, a.within), ground (arith, a.within), ground (arith, a.within))
  At-content s (c ∷ cs) a h =
      let here = At-get_or c cs a in
      let other : (at_index input s == comma) ≡ false = rw here h.1 in
      (ground (arith, a.within), ground (arith, a.within), ground (arith, a.within))

  -- Where there is no separator nothing is skipped.
  pub next_index-content :
      (s : ℕ) (many : Bool) (rest : List ℕ)
      → At input s rest
      → IsContent rest
      → get_next_non_empty_or_whitespace_index input s many ≡ ok (s, false)
  unfolding get_next_non_empty_or_whitespace_index
  next_index-content s many rest a h =
      let (inside, stop, end) = At-content s rest a h in
      rw (skip_no_blank input s rest a (IsContent-NotBlank rest h), inside, stop) refl

  skip_separators-content :
      (f s : ℕ) (rest : List ℕ) → At input s rest → IsContent rest → skip_separators f input s ≡ s
  unfolding skip_separators
  skip_separators-content zero s rest a h = refl
  skip_separators-content (suc f) s rest a h =
      let (inside, stop, end) = At-content s rest a h in rw end refl

  -- A separator is skipped with the space behind it.
  pub next_index-separator :
      (s : ℕ) (rest : List ℕ)
      → At input s (comma ∷ sp ∷ rest)
      → IsContent rest
      → get_next_non_empty_or_whitespace_index input s true ≡ ok (s + 1 + 1, true)
  unfolding get_next_non_empty_or_whitespace_index
  next_index-separator s rest a h =
      let inside : ltb (length input) s ≡ false = ground (arith, a.within) in
      let before : (s == length input) ≡ false = ground (arith, a.within) in
      let b = At-next input s comma (sp ∷ rest) a in
      let c = At-next input (s + 1) sp rest b in
      rw
        (
          skip_no_blank input s (comma ∷ sp ∷ rest) a (refl, refl),
          inside,
          before,
          At-get_or comma (sp ∷ rest) a,
          skip_one_blank input (s + 1) rest b (IsContent-NotBlank rest h),
        )
        (ap (λ k. ok (k, true)) (skip_separators-content (length input) (s + 1 + 1) rest c h))
