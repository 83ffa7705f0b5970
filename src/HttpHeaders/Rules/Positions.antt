-- ===== src/HttpHeaders/Rules/Positions.antt =====
-- HttpRuleParser.ts where the input goes on as a known text.
use yohira.Common.{
  ℕ, suc, ◌≡◌, refl, sym, ap, ◌∙◌, Bool, true, false, List, [], ◌∷◌, ◌++◌, leb, leb→le, ◌==◌,
  ==_iff, length, length-append, none, some, All, includes, arith, Bool-cases, inl, inr,
}
pub use yohira.Common.{At, At-advance, At-next, At-get_or, At-slice}
use yohira.HttpHeaders.Rules.{
  token_chars, index_of_any_except, get_token_length, is_blank, cr, sp, whitespace_from,
  get_whitespace_length,
}

abbrev pub is_token_char : ℕ → Bool
is_token_char c = includes token_chars c

abbrev pub IsToken : List ℕ → Type 0
IsToken = All (λ c. is_token_char c ≡ true)

-- A text that a token before it does not reach into.
abbrev pub Stops : List ℕ → Type 0
Stops [] = Unit
Stops (c ∷ cs) = is_token_char c ≡ false

-- A text that begins with no white space.
abbrev pub NotBlank : List ℕ → Type 0
NotBlank [] = Unit
NotBlank (c ∷ cs) = (is_blank c ≡ false) × ((c == cr) ≡ false)

module _ {input : List ℕ} {s : ℕ} where
  pub At-leb : (c : ℕ) (ys : List ℕ) → At input s (c ∷ ys) → leb (length input) s ≡ false
  At-leb c ys a = ground (arith, a.within)

-- What getTokenLength makes of the text that is left.
abbrev token_from : List ℕ → ℕ
token_from subspan = elim (index_of_any_except subspan token_chars) [
  | none ↦ length subspan
  | some i ↦ i
]

index_of-token : (ts rest : List ℕ) → IsToken ts → Stops rest → token_from (ts ++ rest) ≡ length ts
unfolding index_of_any_except
index_of-token [] [] h k = refl
index_of-token [] (c ∷ cs) h k = ground arith
index_of-token (t ∷ ts) rest h k = ground (arith, index_of-token ts rest h.1 k)

-- getTokenLength at a token.
pub get_token_length-At :
    (input : List ℕ) (s : ℕ) (ts rest : List ℕ)
    → At input s (ts ++ rest)
    → IsToken ts
    → Stops rest
    → get_token_length input s ≡ length ts
unfolding get_token_length
get_token_length-At input s ts rest a h k = elim (Bool-cases (leb (length input) s)) [
  | inl p ↦ rw p (omega (arith, a.within, length-append ts rest, leb→le _ _ p))
  | inr p ↦ rw p (ap token_from a.goes_on ∙ index_of-token ts rest h k)
]

whitespace_from_zero : (rest : List ℕ) → NotBlank rest → whitespace_from rest ≡ 0
unfolding whitespace_from
whitespace_from_zero [] h = refl
whitespace_from_zero (c ∷ []) h = rw h.0 refl
whitespace_from_zero (c ∷ d ∷ []) h = ground arith
whitespace_from_zero (c ∷ d ∷ e ∷ cs) h = ground arith

whitespace_from-sp : (rest : List ℕ) → whitespace_from (sp ∷ rest) ≡ suc (whitespace_from rest)
unfolding whitespace_from
whitespace_from-sp [] = refl
whitespace_from-sp (c ∷ []) = refl
whitespace_from-sp (c ∷ d ∷ cs) = refl

-- getWhitespaceLength where there is none.
pub get_whitespace_length_zero :
    (input : List ℕ) (s : ℕ) (rest : List ℕ)
    → At input s rest
    → NotBlank rest
    → get_whitespace_length input s ≡ 0
unfolding get_whitespace_length
get_whitespace_length_zero input s rest a h = elim (Bool-cases (leb (length input) s)) [
  | inl p ↦ rw p refl
  | inr p ↦ rw (p, a.goes_on) (whitespace_from_zero rest h)
]

-- getWhitespaceLength at one space.
pub get_whitespace_length_one :
    (input : List ℕ) (s : ℕ) (rest : List ℕ)
    → At input s (sp ∷ rest)
    → NotBlank rest
    → get_whitespace_length input s ≡ 1
unfolding get_whitespace_length
get_whitespace_length_one input s rest a h =
    rw (At-leb sp rest a, a.goes_on, whitespace_from-sp rest, whitespace_from_zero rest h) refl

-- A character that is no token character differs from one that is.
pub is_token_char-ne :
    (c d : ℕ) → is_token_char c ≡ true → is_token_char d ≡ false → (c == d) ≡ false
is_token_char-ne c d h k = elim (Bool-cases (c == d)) [
  | inl p ↦ let same : c ≡ d = (==_iff c d).0 p in cc (sym h ∙ ap is_token_char same ∙ k)
  | inr p ↦ p
]
