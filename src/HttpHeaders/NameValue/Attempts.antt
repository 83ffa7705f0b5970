-- ===== src/HttpHeaders/NameValue/Attempts.antt =====
-- BaseHeaderParser.tryParseValue over the parser of many names and values.
use yohira.Common.{
  ℕ, ◌+◌, ◌<◌, ◌≡◌, refl, ◌∙◌, true, false, List, [], ◌∷◌, ◌++◌, ltb, ◌==◌, if◌then◌else◌, length,
  length-append, arith, some, ok, includes,
}
use yohira.HttpHeaders.Rules.{sp}
use yohira.HttpHeaders.Rules.Positions.{At, At-advance, At-next, IsToken, is_token_char-ne}
use yohira.HttpHeaders.Utilities.{
  comma, attempt, try_parse_text, try_parse_value, parse_at, finish_value,
}
use yohira.HttpHeaders.Utilities.Positions.{IsContent, next_index-content, next_index-separator}
use yohira.HttpHeaders.NameValue.{
  NameValueHeaderValue, item_text, get_name_value_length, multiple_value_parser,
}
use yohira.HttpHeaders.NameValue.Items.{IsPrintable, alone, valued, get_name_value_length-At}

pub token-IsContent : (ts rest : List ℕ) → IsToken ts → 0 < length ts → IsContent (ts ++ rest)
unfolding includes
token-IsContent [] rest h lt = elim lt [ ]
token-IsContent (t ∷ ts) rest h lt =
    let a = is_token_char-ne t 32 h.0 refl in
    let b = is_token_char-ne t 9 h.0 refl in
    ((rw (a, b) refl, is_token_char-ne t 13 h.0 refl), is_token_char-ne t 44 h.0 refl)

append-IsContent : (xs ys : List ℕ) → 0 < length xs → IsContent xs → IsContent (xs ++ ys)
append-IsContent [] ys lt h = elim lt [ ]
append-IsContent (x ∷ xs) ys lt h = h

pub item_text-pos : (v : NameValueHeaderValue) → IsPrintable v → 0 < length (item_text v)
unfolding item_text
item_text-pos _ (alone n h lt) = omega (arith, length-append n [])
item_text-pos _ (valued n v h lt w) =
    omega (arith, length-append n (if length v == 0 then [] else b'=' ∷ v))

pub item_text-IsContent :
    (v : NameValueHeaderValue) (rest : List ℕ) → IsPrintable v → IsContent (item_text v ++ rest)
unfolding item_text
item_text-IsContent v rest p = append-IsContent (item_text v) rest (item_text-pos v p) (begins v p)
  where
    begins : (v : NameValueHeaderValue) → IsPrintable v → IsContent (item_text v)
    begins _ (alone n h lt) = token-IsContent n [] h lt
    begins _ (valued n v h lt w) = token-IsContent n _ h lt

module _ (input : List ℕ) where
  -- The steps that a value at `s` takes, whatever follows it.
  attempt-At :
      (s : ℕ) (v : NameValueHeaderValue) (rest : List ℕ)
      → IsPrintable v
      → At input s (item_text v ++ rest)
      → get_name_value_length input s ≡ ok (length (item_text v), some v)
      → try_parse_value multiple_value_parser (some input) s
        ≡ finish_value multiple_value_parser input s (s + length (item_text v)) (some v)
  unfolding try_parse_value try_parse_text parse_at
  attempt-At s v rest p a e =
      let long = length-append (item_text v) rest in
      let positive = item_text-pos v p in
      let some_input : (length input == 0) ≡ false = ground (arith, a.within, long, positive) in
      let before : (s == length input) ≡ false = ground (arith, a.within, long, positive) in
      let some_text : (length (item_text v) == 0) ≡ false = ground (arith, positive) in
      rw
        (
          some_input,
          before,
          next_index-content input s true (item_text v ++ rest) a (item_text-IsContent v rest p),
          before,
          e,
          some_text,
        )
        refl

  -- The last value.
  pub attempt_last :
      (s : ℕ) (v : NameValueHeaderValue)
      → IsPrintable v
      → At input s (item_text v ++ [])
      → (try_parse_value multiple_value_parser (some input) s
          ≡ ok (attempt true (s + length (item_text v)) (some v)))
        × (s + length (item_text v) ≡ length input)
  unfolding finish_value
  attempt_last s v p a =
      let b = At-advance input s (item_text v) [] a in
      let i = s + length (item_text v) in
      let end : ltb i (length input) ≡ false = ground (arith, b.within) in
      (
        attempt-At s v [] p a (get_name_value_length-At input s v [] p a tt)
            ∙ rw (next_index-content input i true [] b tt, end) refl,
        omega (arith, b.within),
      )

  -- A value with another behind it.
  pub attempt_more :
      (s : ℕ) (v : NameValueHeaderValue) (rest : List ℕ)
      → IsPrintable v
      → IsContent rest
      → At input s (item_text v ++ comma ∷ sp ∷ rest)
      → (try_parse_value multiple_value_parser (some input) s
          ≡ ok (attempt true (s + length (item_text v) + 1 + 1) (some v)))
        × At input (s + length (item_text v) + 1 + 1) rest
  unfolding finish_value
  attempt_more s v rest p h a =
      let b = At-advance input s (item_text v) (comma ∷ sp ∷ rest) a in
      let i = s + length (item_text v) in
      (
        attempt-At s v (comma ∷ sp ∷ rest) p a
              (get_name_value_length-At input s v (comma ∷ sp ∷ rest) p a refl)
            ∙ rw (next_index-separator input i rest b h) refl,
        At-next input (i + 1) sp rest (At-next input i comma (sp ∷ rest) b),
      )
