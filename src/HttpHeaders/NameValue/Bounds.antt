-- ===== src/HttpHeaders/NameValue/Bounds.antt =====
-- HeaderUtilities.ts, NameValueHeaderValue.ts and the parser of many values throw nothing, and move on.
use yohira.Common.{
  ℕ, zero, suc, ◌+◌, ◌-◌, ◌≤◌, ◌<◌, ◌≡◌, refl, Bool, true, false, not, ◌&&◌, ◌||◌, List, ltb, leb,
  ◌==◌, length, slice, Option, none, some, Result, ok, arith, Bool-cases, inl, inr,
}
use yohira.HttpHeaders.Rules.{
  HeaderError, get_token_length, get_whitespace_length, at_index, get_quoted_string_length, parsed,
  not_parsed, invalid_format,
}
use yohira.HttpHeaders.Rules.Bounds.{
  Gives, get_token_length-le, get_whitespace_length-le, get_quoted_string_length-Gives,
}
use yohira.HttpHeaders.Utilities.{
  comma, skip_separators, get_next_non_empty_or_whitespace_index, attempt, HeaderParser,
  finish_value, parse_at, try_parse_text, try_parse_value,
}
use yohira.HttpHeaders.NameValue.{
  name_value, get_value_length, get_value_part, get_name_value_length,
}

module _ (input : List ℕ) where
  skip_separators_bounds :
      (f s : ℕ)
      → s ≤ length input
      → (s ≤ skip_separators f input s) × (skip_separators f input s ≤ length input)
  unfolding skip_separators
  skip_separators_bounds zero s le = (omega arith, le)
  skip_separators_bounds (suc f) s le =
      elim (Bool-cases (ltb s (length input) && (at_index input s == comma))) [
        | inl p ↦
            let next = s + 1 in
            let inside : next ≤ length input = ground arith in
            let (low, high) =
              skip_separators_bounds f (next + get_whitespace_length input next)
                (get_whitespace_length-le input next inside) in
            (rw p (omega (arith, low)), rw p high)
        | inr p ↦ (rw p (omega arith), rw p le)
      ]

  pub next_index-Gives :
      (s : ℕ) (many : Bool)
      → s ≤ length input
      → Gives
          (get_next_non_empty_or_whitespace_index input s many)
          (λ r. (s ≤ r.0) × (r.0 ≤ length input))
  unfolding get_next_non_empty_or_whitespace_index
  next_index-Gives s many le =
      let current = s + get_whitespace_length input s in
      let within = get_whitespace_length-le input s le in
      let inside : ltb (length input) s ≡ false = ground arith in
      elim (Bool-cases ((current == length input) || not (at_index input current == comma))) [
        | inl p ↦ ((current, false), rw (inside, p) refl, (omega arith, within))
        | inr p ↦
            let room : current + 1 ≤ length input = ground (arith, within, p) in
            let next = current + 1 + get_whitespace_length input (current + 1) in
            let next_within = get_whitespace_length-le input (current + 1) room in
            elim (Bool-cases many) [
              | inl q ↦
                  let (low, high) = skip_separators_bounds (length input) next next_within in
                  (
                    (skip_separators (length input) input next, true),
                    rw (inside, p, q) refl,
                    (omega (arith, low), high),
                  )
              | inr q ↦ ((next, true), rw (inside, p, q) refl, (omega arith, next_within))
            ]
      ]

  get_value_length-Gives :
      (s : ℕ) → s ≤ length input → Gives (get_value_length input s) (λ n. s + n ≤ length input)
  unfolding get_value_length
  get_value_length-Gives s le = elim (Bool-cases (leb (length input) s)) [
    | inl p ↦ (0, rw p refl, omega (arith, le))
    | inr p ↦ elim (Bool-cases (get_token_length input s == 0)) [
      | inl q ↦
          let ((r, n), e, b) = get_quoted_string_length-Gives input s (ground arith) in
          elim r
              as (λ r.
                get_quoted_string_length input s ≡ ok (r, n)
                → Gives (get_value_length input s) (λ n. s + n ≤ length input)) [
                  | parsed ↦ λ e. (n, rw (p, q, e) refl, b)
                  | not_parsed ↦ λ e. (0, rw (p, q, e) refl, omega (arith, le))
                  | invalid_format ↦ λ e. (0, rw (p, q, e) refl, omega (arith, le))
                ]
            e
      | inr q ↦ (get_token_length input s, rw (p, q) refl, get_token_length-le input s le)
    ]
  ]

  -- What getNameValueLength returns: a length inside the input.
  pub get_name_value_length-Gives :
      (s : ℕ)
      → s ≤ length input
      → Gives (get_name_value_length input s) (λ r. s + r.0 ≤ length input)
  unfolding get_name_value_length get_value_part
  get_name_value_length-Gives s le =
      let n = get_token_length input s in
      let behind = s + n in
      let b = get_token_length-le input s le in
      let current = behind + get_whitespace_length input behind in
      let c = get_whitespace_length-le input behind b in
      elim (Bool-cases ((length input == 0) || leb (length input) s)) [
        | inl p ↦ ((0, none), rw p refl, omega (arith, le))
        | inr p ↦ elim (Bool-cases (n == 0)) [
          | inl q ↦ ((0, none), rw (p, q) refl, omega (arith, le))
          | inr q ↦
              elim (Bool-cases
                ((current == length input) || not (at_index input current == b'='))) [
                  | inl u ↦
                      let d = get_whitespace_length-le input current c in
                      (
                        (
                          current + get_whitespace_length input current - s,
                          some (name_value (slice input s (s + n)) none),
                        ),
                        rw (p, q, u) refl,
                        omega (arith, d),
                      )
                  | inr u ↦
                      let room : current + 1 ≤ length input = ground (arith, c, u) in
                      let start = current + 1 + get_whitespace_length input (current + 1) in
                      let d = get_whitespace_length-le input (current + 1) room in
                      let (k, e, f) = get_value_length-Gives start d in
                      let g = get_whitespace_length-le input (start + k) f in
                      (
                        (
                          start + k + get_whitespace_length input (start + k) - s,
                          some (
                              name_value (slice input s (s + n))
                                (some (slice input start (start + k)))),
                        ),
                        rw (p, q, u, e) refl,
                        omega (arith, g),
                      )
                ]
        ]
      ]

  finish-Gives :
      {T : Type 0} (p : HeaderParser T) (index behind : ℕ) (result : Option T)
      → behind ≤ length input
      → Gives (finish_value p input index behind result) (λ a.
        (a.success ≡ true → (behind ≤ a.index) × (a.index ≤ length input))
        × (a.success ≡ false → a.index ≡ index))
  unfolding finish_value
  finish-Gives p index behind result le =
      let many = p.supports_multiple_values in
      let ((i, b), e, bounds) = next_index-Gives behind many le in
      elim (Bool-cases ((b && not many) || (not b && ltb i (length input)))) [
        | inl q ↦ (attempt false index none, rw (e, q) refl, (λ h. cc, λ h. refl))
        | inr q ↦ (attempt true i result, rw (e, q) refl, (λ h. bounds, λ h. cc))
      ]

ignored : (b : Bool) → (b && not true) ≡ false
ignored true = refl
ignored false = refl

-- tryParseValue inside the input throws nothing, and goes forward where it returns true.
module _ {T : Type 0} (get : List ℕ → ℕ → Result HeaderError (ℕ × Option T)) where
  -- A parser of many values.
  abbrev many_parser : HeaderParser T
  many_parser = record { supports_multiple_values = true; get_parsed_value_length = get }

  pub try_parse_value-Gives :
      (input : List ℕ) (s : ℕ)
      → s ≤ length input
      → ((s : ℕ) → s ≤ length input → Gives (get input s) (λ r. s + r.0 ≤ length input))
      → Gives (try_parse_value many_parser (some input) s) (λ a.
        (a.success ≡ true → (a.index ≤ length input) × (s < length input → s < a.index))
        × (a.success ≡ false → a.index ≡ s))
  unfolding try_parse_value try_parse_text parse_at
  try_parse_value-Gives input s le inside_of =
      elim (Bool-cases ((length input == 0) || (s == length input))) [
        | inl q ↦ (attempt true s none, rw q refl, (λ h. (le, λ lt. ground arith), λ h. cc))
        | inr q ↦
            let ((i, b), e, (low, high)) = next_index-Gives input s true le in
            elim (Bool-cases (i == length input)) [
              | inl u ↦ (
                attempt true i none,
                rw (q, e, ignored b, u) refl,
                (λ h. (high, λ lt. ground arith), λ h. cc),
              )
              | inr u ↦
                  let ((n, result), f, inside) = inside_of i high in
                  elim (Bool-cases (n == 0)) [
                    | inl v ↦ (
                      attempt false s none,
                      rw (q, e, ignored b, u, f, v) refl,
                      (λ h. cc, λ h. refl),
                    )
                    | inr v ↦
                        let (a, g, moved) =
                          finish-Gives input many_parser s (i + n) result inside in
                        (
                          a,
                          rw (q, e, ignored b, u, f, v) g,
                          (λ h. ((moved.0 h).1, λ lt. ground (arith, (moved.0 h).0)), moved.1),
                        )
                  ]
            ]
      ]
