-- ===== src/HttpHeaders/Rules/Bounds.antt =====
-- The lengths that HttpRuleParser.ts returns end inside the input.
use yohira.Common.{
  ℕ, zero, suc, ◌+◌, ◌-◌, ◌≤◌, ◌<◌, ◌≡◌, refl, true, false, List, [], ◌∷◌, leb, ◌==◌, length, drop,
  length-drop, some, Result, ok, err, arith, Bool-cases, Option-cases, inl, inr,
}
use yohira.HttpHeaders.Rules.{
  HeaderError, HttpParseResult, token_chars, index_of_any_except, get_token_length, whitespace_from,
  get_whitespace_length, at_index, quote, get_quoted_pair_length, is_quoted_pair, closing,
  scan_expression, expression_at, get_expression_length, get_quoted_string_length, parsed,
  not_parsed, invalid_format,
}

-- A run that ends with a value, of which P holds.
abbrev pub Gives : {A : Type 0} → Result HeaderError A → (A → Type 0) → Type 0
Gives {A} m P = (a : A) × (m ≡ ok a) × P a

index_of_any_except-lt :
    (xs values : List ℕ) (i : ℕ) → index_of_any_except xs values ≡ some i → i < length xs
unfolding index_of_any_except
index_of_any_except-lt [] values i h = ground arith
index_of_any_except-lt (x ∷ xs) values zero h = omega arith
index_of_any_except-lt (x ∷ xs) values (suc i) h =
    ground (arith, index_of_any_except-lt xs values i)

pub get_token_length-le :
    (input : List ℕ) (s : ℕ) → s ≤ length input → s + get_token_length input s ≤ length input
unfolding get_token_length
get_token_length-le input s le =
    elim (Option-cases (index_of_any_except (drop s input) token_chars)) [
      | inl e ↦ rw e (ground (arith, length-drop s input))
      | inr (i, e) ↦ rw e (
          ground
            (arith, index_of_any_except-lt (drop s input) token_chars i e, length-drop s input))
    ]

whitespace_from-le : (xs : List ℕ) → whitespace_from xs ≤ length xs
unfolding whitespace_from
whitespace_from-le [] = omega arith
whitespace_from-le (c ∷ []) = ground arith
whitespace_from-le (c ∷ d ∷ []) = ground (arith, whitespace_from-le (d ∷ []))
whitespace_from-le (c ∷ d ∷ e ∷ cs) =
    ground (arith, whitespace_from-le (d ∷ e ∷ cs), whitespace_from-le cs)

pub get_whitespace_length-le :
    (input : List ℕ) (s : ℕ) → s ≤ length input → s + get_whitespace_length input s ≤ length input
unfolding get_whitespace_length
get_whitespace_length-le input s le =
    ground (arith, whitespace_from-le (drop s input), length-drop s input)

module _ (input : List ℕ) (start : ℕ) where
  -- The loop over a quoted text.
  scan-Gives :
      (f current count : ℕ)
      → start < current
      → current ≤ length input
      → length input < f + current
      → Gives
          (scan_expression f input quote quote false start current count)
          (λ r. start + r.1 ≤ length input)
  unfolding scan_expression closing
  scan-Gives zero current count st le h = absurd (omega arith)
  scan-Gives (suc f) current count st le h = elim (Bool-cases (leb (length input) current)) [
    | inl p ↦ ((invalid_format, 0), rw p refl, omega arith)
    | inr p ↦
        elim (Bool-cases (is_quoted_pair input current (get_quoted_pair_length input current))) [
          | inl q ↦
              let (r, e, b) =
                scan-Gives f (current + 2) count (omega (arith, st)) (pair-le _ q)
                  (omega (arith, h)) in
              (r, rw (p, q) e, b)
          | inr q ↦ elim (Bool-cases (at_index input current == quote)) [
            | inl u ↦ ((parsed, current - start + 1), rw (p, q, u) refl, ground (arith, p, st))
            | inr u ↦
                let (r, e, b) =
                  scan-Gives f (current + 1) count (omega (arith, st)) (ground (arith, p))
                    (omega (arith, h)) in
                (r, rw (p, q, u) e, b)
          ]
        ]
  ]
    where
      pair-le :
          (r : Result HeaderError (HttpParseResult × ℕ))
          → is_quoted_pair input current r ≡ true
          → current + 2 ≤ length input
      pair-le (ok (parsed, n)) h = ground arith
      pair-le (ok (not_parsed, n)) h = ground arith
      pair-le (ok (invalid_format, n)) h = ground arith
      pair-le (err e) h = ground arith

-- getQuotedStringLength inside the input throws nothing.
pub get_quoted_string_length-Gives :
    (input : List ℕ) (s : ℕ)
    → s < length input
    → Gives (get_quoted_string_length input s) (λ r. s + r.1 ≤ length input)
unfolding get_quoted_string_length get_expression_length expression_at
get_quoted_string_length-Gives input s lt =
    let inside : leb (length input) s ≡ false = ground arith in
    elim (Bool-cases (at_index input s == quote)) [
      | inl q ↦
          let (r, e, b) =
            scan-Gives input s (length input) (s + 1) 0 (omega arith) (omega arith) (omega arith) in
          (r, rw (inside, q) e, b)
      | inr q ↦ ((not_parsed, 0), rw (inside, q) refl, omega arith)
    ]
