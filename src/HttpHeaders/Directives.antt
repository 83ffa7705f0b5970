-- ===== src/HttpHeaders/Directives.antt =====
-- packages/http.headers/src/CacheControlHeaderValue.ts: trySetCacheControlValues, getCacheControlLength
-- and parse.
pub mod Reading
pub mod Total
pub mod RoundTrip
pub mod Setting
pub mod HeaderNames
pub mod Printing
use yohira.Common.{
  ℕ, zero, suc, ◌+◌, ◌-◌, Bool, true, false, not, ◌&&◌, ◌||◌, List, [], ◌∷◌, ◌++◌, ltb, leb, ◌==◌,
  if◌then◌else◌, length, slice, Option, none, some, Result, ok, err, and_then, codes, same_text,
  to_lower_case, ℤ,
}
use yohira.Base.TimeSpan.{TimeSpan, from_seconds}
use yohira.HttpHeaders.Rules.{
  HeaderError, get_token_length, at_index, quote, out_of_fuel, no_cache_directives,
}
use yohira.HttpHeaders.Utilities.{
  NumberText, HeaderParser, Attempt, get_next_non_empty_or_whitespace_index, try_parse_value,
  try_parse_text, parse_value, try_parse_non_negative_int32,
}
use yohira.HttpHeaders.NameValue.{
  NameValueHeaderValue, multiple_value_parser, same_ignoring_case, text_of,
}
use yohira.HttpHeaders.CacheControl.{
  CacheControl, new_cache_control, public_string, private_string, max_age_string,
  shared_max_age_string, no_cache_string, no_store_string, max_stale_string, min_fresh_string,
  no_transform_string, only_if_cached_string, must_revalidate_string, proxy_revalidate_string,
}

-- The branches of the switch over the name; `extension` is its default.
pub data Directive : Type 0 where
  public max_age private no_cache no_store shared_max_age max_stale min_fresh no_transform
        only_if_cached must_revalidate proxy_revalidate extension :
      Directive

abbrev names : List ℕ → Option (List ℕ) → Bool
names constant name = same_ignoring_case (some constant) name

unfoldable pub directive_of : Option (List ℕ) → Directive
directive_of name =
    let n = length (text_of name) in
    if n == 6
    then (if names public_string name then public else extension)
    else if n == 7
    then (if names max_age_string name
        then max_age
        else if names private_string name
        then private
        else extension)
    else if n == 8
    then (if names no_cache_string name
        then no_cache
        else if names no_store_string name
        then no_store
        else if names shared_max_age_string name
        then shared_max_age
        else extension)
    else if n == 9
    then (if names max_stale_string name
        then max_stale
        else if names min_fresh_string name
        then min_fresh
        else extension)
    else if n == 12
    then (if names no_transform_string name then no_transform else extension)
    else if n == 14
    then (if names only_if_cached_string name then only_if_cached else extension)
    else if n == 15
    then (if names must_revalidate_string name then must_revalidate else extension)
    else if n == 16
    then (if names proxy_revalidate_string name then proxy_revalidate else extension)
    else extension

-- Whether trySetTokenOnlyValue returns true, and so sets its field.
unfoldable pub is_token_only : Option (List ℕ) → Bool
is_token_only none = true
is_token_only (some value) = false

-- The loop of trySetOptionalTokenList, on fuel: the tokens, or `none` at an invalid character.
unfoldable pub token_list :
    ℕ → List ℕ → ℕ → ℕ → List (List ℕ) → Result HeaderError (Option (List (List ℕ)))
token_list zero text max_length current tokens = err out_of_fuel
token_list (suc fuel) text max_length current tokens =
    let rest = and_then (get_next_non_empty_or_whitespace_index text current true) λ r.
      let n = get_token_length text r.0 in
      let more =
        token_list fuel text max_length (r.0 + n) (tokens ++ slice text r.0 (r.0 + n) ∷ []) in
      if r.0 == max_length then ok (some tokens) else if n == 0 then ok none else more in
    if ltb current max_length then rest else ok (some tokens)

-- The destination behind its values: `undefined` as long as nothing is pushed.
abbrev pub pushed : Option (List (List ℕ)) → List (List ℕ) → Option (List (List ℕ))
pushed none [] = none
pushed none (t ∷ ts) = some (t ∷ ts)
pushed (some values) tokens = some (values ++ tokens)

-- trySetOptionalTokenList: `none` where it returns false.
unfoldable pub try_set_optional_token_list :
    Option (List ℕ) → Option (List (List ℕ)) → Result HeaderError (Option (Option (List (List ℕ))))
try_set_optional_token_list none destination = ok (some destination)
try_set_optional_token_list (some text) destination =
    let max_length = length text - 1 in
    if ltb (length text) 3
      || (not (at_index text 0 == quote) || not (at_index text max_length == quote))
    then ok none
    else (and_then (token_list (length text) text max_length 1 []) λ r. elim r [
      | none ↦ ok none
      | some tokens ↦ if length tokens == 0 then ok none else ok (some (pushed destination tokens))
    ])

abbrev pub when_set : {T : Type 0} → Option T → (T → CacheControl) → Option CacheControl
when_set none f = none
when_set (some value) f = some (f value)

abbrev pub when : Bool → CacheControl → Option CacheControl
when true c = some c
when false c = none

-- The loop of getCacheControlLength, on fuel: the names and values, or `none` where one does not
-- parse.
unfoldable pub name_values :
    ℕ
    → List ℕ
    → ℕ
    → List NameValueHeaderValue
    → Result HeaderError (Option (List NameValueHeaderValue))
name_values zero input current values = err out_of_fuel
name_values (suc fuel) input current values =
    let rest = and_then (try_parse_value multiple_value_parser (some input) current) λ a.
      let found = elim a.parsed_value as (λ _. List NameValueHeaderValue) [
        | none ↦ values
        | some v ↦ values ++ v ∷ []
      ] in
      let more = name_values fuel input a.index found in if a.success then more else ok none in
    if ltb current (length input) then rest else ok (some values)

module _ (t : NumberText) where
  -- trySetTimeSpan: `none` where it returns false.
  unfoldable pub try_set_time_span : Option (List ℕ) → Option TimeSpan
  try_set_time_span none = none
  try_set_time_span (some text) = elim (try_parse_non_negative_int32 t (some text)) [
    | none ↦ none
    | some seconds ↦ some (from_seconds seconds)
  ]

  -- One turn of the loop of trySetCacheControlValues; `none` where it returns false.
  unfoldable pub set_directive :
      CacheControl → NameValueHeaderValue → Directive → Result HeaderError (Option CacheControl)
  set_directive c v public = ok (when (is_token_only v.value) (record c { public = true }))
  set_directive c v max_age =
      ok (when_set (try_set_time_span v.value) (λ s. record c { max_age = some s }))
  set_directive c v private =
      and_then (try_set_optional_token_list v.value c.private_headers)
        λ r. ok (when_set r (λ hs. record c { private = true; private_headers = hs }))
  set_directive c v no_cache =
      and_then (try_set_optional_token_list v.value c.no_cache_headers)
        λ r. ok (when_set r (λ hs. record c { no_cache = true; no_cache_headers = hs }))
  set_directive c v no_store = ok (when (is_token_only v.value) (record c { no_store = true }))
  set_directive c v shared_max_age =
      ok (when_set (try_set_time_span v.value) (λ s. record c { shared_max_age = some s }))
  set_directive c v max_stale =
      if is_token_only v.value
      then ok (some (record c { max_stale = true }))
      else ok (
          when_set (try_set_time_span v.value)
            (λ s. record c { max_stale_limit = some s; max_stale = true }))
  set_directive c v min_fresh =
      ok (when_set (try_set_time_span v.value) (λ s. record c { min_fresh = some s }))
  set_directive c v no_transform =
      ok (when (is_token_only v.value) (record c { no_transform = true }))
  set_directive c v only_if_cached =
      ok (when (is_token_only v.value) (record c { only_if_cached = true }))
  set_directive c v must_revalidate =
      ok (when (is_token_only v.value) (record c { must_revalidate = true }))
  set_directive c v proxy_revalidate =
      ok (when (is_token_only v.value) (record c { proxy_revalidate = true }))
  set_directive c v extension =
      let old : List NameValueHeaderValue = elim c.extensions [
        | none ↦ []
        | some values ↦ values
      ] in
      ok (some (record c { extensions = some (old ++ v ∷ []) }))

  unfoldable pub try_set_cache_control_values :
      CacheControl → List NameValueHeaderValue → Result HeaderError (Option CacheControl)
  try_set_cache_control_values c [] = ok (some c)
  try_set_cache_control_values c (v ∷ vs) =
      and_then (set_directive c v (directive_of v.name))
        λ r. elim r [ none ↦ ok none | some c' ↦ try_set_cache_control_values c' vs ]

  unfoldable pub get_cache_control_length :
      List ℕ → ℕ → Result HeaderError (ℕ × Option CacheControl)
  get_cache_control_length input start_index =
      if (length input == 0) || leb (length input) start_index
      then ok (0, none)
      else (and_then (name_values (suc (length input)) input start_index []) λ r. elim r [
        | none ↦ ok (0, none)
        | some values ↦ and_then (try_set_cache_control_values new_cache_control values) λ c.
            elim c [
              | none ↦ ok (0, none)
              | some result ↦ ok (length input - start_index, some result)
            ]
      ])

  abbrev pub parser : HeaderParser CacheControl
  parser = record {
    supports_multiple_values = true;
    get_parsed_value_length = get_cache_control_length;
  }

  unfoldable pub parse : List ℕ → Result HeaderError CacheControl
  parse input =
      and_then (parse_value parser input 0)
        λ r. elim r [ none ↦ err no_cache_directives | some result ↦ ok result ]

  unfoldable pub try_parse : Option (List ℕ) → Result HeaderError (Option CacheControl)
  try_parse input =
      and_then (try_parse_value parser input 0) λ a. ok (if a.success then a.parsed_value else none)
