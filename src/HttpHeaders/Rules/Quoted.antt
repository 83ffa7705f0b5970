-- ===== src/HttpHeaders/Rules/Quoted.antt =====
-- getQuotedStringLength and getExpressionLength of HttpRuleParser.ts.
use yohira.Common.{
  ℕ, zero, suc, ◌+◌, ◌-◌, ◌≤◌, ◌<◌, ◌≡◌, ◌≢◌, refl, ap, ◌∙◌, Bool, true, false, ◌&&◌, List, [], ◌∷◌,
  ◌++◌, ltb, leb, ◌==◌, length, length-append, All, arith, Bool-cases, inl, inr, ok, err, Result,
  and_then,
}
use yohira.HttpHeaders.Rules.{
  HeaderError, HttpParseResult, at_index, quote, backslash, get_quoted_pair_length, Scan,
  scan_expression, expression_at, closing, get_expression_length, get_quoted_string_length, parsed,
  not_parsed, invalid_format, out_of_fuel, is_quoted_pair,
}
use yohira.HttpHeaders.Rules.Positions.{At, At-next, At-get_or, At-leb}

-- Text that stands between quotes as it is.
abbrev pub IsPlain : List ℕ → Type 0
IsPlain = All (λ c. ((c == quote) ≡ false) × ((c == backslash) ≡ false))

-- A turn of the loop at a character that is no backslash.
scan_turn :
    (f : ℕ) (input : List ℕ) (start current count : ℕ)
    → leb (length input) current ≡ false
    → (at_index input current == backslash) ≡ false
    → scan_expression (suc f) input quote quote false start current count
      ≡ closing (scan_expression f input quote quote false) input quote start current count
unfolding scan_expression get_quoted_pair_length
scan_turn f input start current count h k = rw (h, k) refl

module _ (input : List ℕ) (start count : ℕ) (rest : List ℕ) where
  scan-plain :
      (body : List ℕ) (f current : ℕ)
      → length body < f
      → IsPlain body
      → At input current (body ++ quote ∷ rest)
      → scan_expression f input quote quote false start current count
        ≡ ok (parsed, current + length body - start + 1)
  unfolding closing
  scan-plain body zero current lt h a = elim lt [ ]
  scan-plain [] (suc f) current lt h a =
      let here = At-get_or quote rest a in
      let room = At-leb quote rest a in
      scan_turn f input start current count room (rw here refl)
      ∙ rw (room, here) (ap (λ k. ok (parsed, k)) (omega arith))
  scan-plain (c ∷ body) (suc f) current lt h a =
      let here = At-get_or c (body ++ quote ∷ rest) a in
      let room = At-leb c (body ++ quote ∷ rest) a in
      let next : current + 1 + length body ≡ current + suc (length body) = omega arith in
      scan_turn f input start current count room (rw here h.0.1)
      ∙ rw (room, here, h.0.0)
          (scan-plain body f (current + 1) (omega (arith, lt)) h.1 (At-next input current c _ a)
            ∙ ap (λ k. ok (parsed, k - start + 1)) next)

-- getQuotedStringLength at a quoted text.
pub get_quoted_string_length-At :
    (input : List ℕ) (s : ℕ) (body rest : List ℕ)
    → IsPlain body
    → At input s (quote ∷ body ++ quote ∷ rest)
    → get_quoted_string_length input s ≡ ok (parsed, length body + 2)
unfolding get_quoted_string_length get_expression_length expression_at
get_quoted_string_length-At input s body rest h a =
    let here = At-get_or quote (body ++ quote ∷ rest) a in
    let room = At-leb quote (body ++ quote ∷ rest) a in
    let size : s + 1 + length body - s + 1 ≡ length body + 2 = omega arith in
    rw (room, here)
      (scan-plain input s 0 rest body (length input) (s + 1)
          (omega (arith, a.within, length-append body (quote ∷ rest))) h (At-next input s quote _ a)
        ∙ ap (λ k. ok (parsed, k)) size)

-- The loop with enough fuel, with what its nested calls need.
abbrev Ends : Result HeaderError (HttpParseResult × ℕ) → Type 0
Ends r = r ≢ err out_of_fuel

and_then-Ends :
    (m : Result HeaderError (HttpParseResult × ℕ))
    → Ends m
    → (k : HttpParseResult × ℕ → Result HeaderError (HttpParseResult × ℕ))
    → ((x : HttpParseResult × ℕ) → Ends (k x))
    → Ends (and_then m k)
and_then-Ends (ok a) h k e = e a
and_then-Ends (err x) h k e = λ p. h (ground arith)

is_quoted_pair-le :
    (input : List ℕ) (current : ℕ) (r : Result HeaderError (HttpParseResult × ℕ))
    → is_quoted_pair input current r ≡ true
    → current + 2 ≤ length input
is_quoted_pair-le input current (ok (parsed, n)) h = ground arith
is_quoted_pair-le input current (ok (not_parsed, n)) h = ground arith
is_quoted_pair-le input current (ok (invalid_format, n)) h = ground arith
is_quoted_pair-le input current (err e) h = ground arith

module _ (input : List ℕ) (open_char close_char : ℕ) (nests : Bool) where
  -- What follows a nested call.
  abbrev behind : Scan → ℕ → ℕ → ℕ → HttpParseResult × ℕ → Result HeaderError (HttpParseResult × ℕ)
  behind scan start current count r = elim r.0 [
    | parsed ↦ closing scan input close_char start (current + r.1) count
    | not_parsed ↦ closing scan input close_char start current count
    | invalid_format ↦ ok (invalid_format, 0)
  ]

  closing-Ends :
      (scan : Scan) (start current count : ℕ)
      → (ltb current (length input) ≡ true → Ends (scan start (current + 1) count))
      → Ends (closing scan input close_char start current count)
  unfolding closing
  closing-Ends scan start current count h = ground arith

  expression_at-Ends :
      (scan : Scan) (start count : ℕ)
      → (ltb start (length input) ≡ true → Ends (scan start (start + 1) count))
      → Ends (expression_at scan input open_char start count)
  unfolding expression_at
  expression_at-Ends scan start count h = ground arith

  scan_expression-Ends :
      (f start current count : ℕ)
      → current ≤ length input
      → length input < f + current
      → Ends (scan_expression f input open_char close_char nests start current count)
  unfolding scan_expression
  scan_expression-Ends zero start current count le h = absurd (omega arith)
  scan_expression-Ends (suc f) start current count le h =
      let scan = scan_expression f input open_char close_char nests in
      let close = λ (i : ℕ) (more : current ≤ i).
        closing-Ends scan start i count (λ q.
          scan_expression-Ends f start (i + 1) count (ground arith) (omega (arith, h, more))) in
      let pair = is_quoted_pair input current (get_quoted_pair_length input current) in
      let nested = nests && (at_index input current == open_char) in
      elim (Bool-cases (leb (length input) current)) [
        | inl p ↦ rw p (λ e. cc)
        | inr p ↦ elim (Bool-cases pair) [
          | inl q ↦
              rw (p, q)
                (scan_expression-Ends f start (current + 2) count
                  (is_quoted_pair-le input current _ q) (omega (arith, h)))
          | inr q ↦ elim (Bool-cases nested) [
            | inr r ↦ rw (p, q, r) (close current (omega arith))
            | inl r ↦ elim (Bool-cases (ltb 5 (count + 1))) [
              | inl u ↦ rw (p, q, r, u) (λ e. cc)
              | inr u ↦
                  rw (p, q, r, u)
                    (and_then-Ends (expression_at scan input open_char current (count + 1))
                      (expression_at-Ends scan current (count + 1) (λ v.
                        scan_expression-Ends f current (current + 1) (count + 1) (ground arith)
                          (omega (arith, h))))
                      _
                      (λ (r, n). elim r as (λ r. Ends (behind scan start current count (r, n))) [
                        | parsed ↦ close (current + n) (omega arith)
                        | not_parsed ↦ close current (omega arith)
                        | invalid_format ↦ λ e. cc
                      ]))
            ]
          ]
        ]
      ]

-- getExpressionLength always comes to an end: the turns that the loop and its nested calls are given
-- are enough, for every input, start, pair of characters and nested count.
pub get_expression_length-ends :
    (input : List ℕ) (start open_char close_char : ℕ) (nests : Bool) (count : ℕ)
    → get_expression_length input start open_char close_char nests count ≢ err out_of_fuel
unfolding get_expression_length
get_expression_length-ends input start open_char close_char nests count =
    expression_at-Ends input open_char close_char nests _ start count (λ q.
      scan_expression-Ends input open_char close_char nests (length input) start (start + 1) count
        (ground arith) (omega arith))
