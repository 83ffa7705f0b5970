-- ===== src/Routing/Patterns/Parser.antt =====
-- packages/routing/src/patterns/RoutePatternParser.ts. A false return with the context's error is the
-- error that parseRoutePattern throws for it. `lower` is toLowerCase.
pub mod Progress
pub mod Parameters
pub mod Scanning
pub mod Segments
pub mod Forms
pub mod RoundTrip
pub mod Checks
pub mod Ends
use yohira.Common.{
  ℕ, zero, suc, ◌+◌, ◌-◌, Bool, true, false, not, ◌&&◌, ◌||◌, List, [], ◌∷◌, ◌++◌, ltb, leb, ◌==◌,
  if◌then◌else◌, length, get_elem?, slice, Option, none, some, Result, ok, err, and_then, codes,
  includes, same_text,
}
use yohira.Routing.Patterns.{
  RouteError, RoutePatternPart, RoutePattern, is_catch_all, is_optional, is_parameter, starts_with,
  last_is, parse_route_parameter, create_literal_part, create_separator_part, create_pattern,
  literal, parameter, separator, tilde, consecutive_separators, incomplete_parameter,
  unescaped_brace, catch_all_optional, catch_all_mixed, optional_preceded, optional_followed,
  consecutive_parameters, catch_all_not_last, assertion_failed, infinite_loop, out_of_fuel,
  invalid_literal, invalid_parameter_name, repeated_parameter_name,
}

unfoldable pub trim_prefix : List ℕ → Result RouteError (List ℕ)
trim_prefix [] = ok []
trim_prefix (c ∷ []) = if c == b'/' then ok [] else if c == b'~' then err tilde else ok (c ∷ [])
trim_prefix (c ∷ d ∷ cs) =
    if (c == b'~') && (d == b'/')
    then ok cs
    else if c == b'/'
    then ok (d ∷ cs)
    else if c == b'~'
    then err tilde
    else ok (c ∷ d ∷ cs)

-- `context.current === c`
abbrev pub current_is : List ℕ → ℕ → ℕ → Bool
current_is template index c = elim (get_elem? template index) [ none ↦ false | some x ↦ x == c ]

-- `text.replaceAll('cc', 'c')`
unfoldable pub replace_pairs : ℕ → List ℕ → List ℕ
replace_pairs c [] = []
replace_pairs c (x ∷ []) = x ∷ []
replace_pairs c (x ∷ y ∷ xs) = elim ((x == c) && (y == c)) [
  | true ↦ c ∷ replace_pairs c xs
  | false ↦ x ∷ replace_pairs c (y ∷ xs)
]

abbrev pub decode : List ℕ → List ℕ
decode text = replace_pairs b'{' (replace_pairs b'}' text)

-- The loop of parseLiteral, on fuel: the index where it stops.
unfoldable pub literal_end : ℕ → List ℕ → ℕ → Result RouteError ℕ
literal_end zero template index = err out_of_fuel
literal_end (suc fuel) template index =
    let next =
      if ltb (index + 1) (length template)
      then literal_end fuel template (index + 1)
      else ok (index + 1) in
    let behind =
      if ltb (index + 2) (length template)
      then literal_end fuel template (index + 2)
      else ok (index + 2) in
    if current_is template index b'/'
    then ok index
    else if current_is template index b'{'
    then (if not (ltb (index + 1) (length template))
        then err incomplete_parameter
        else if current_is template (index + 1) b'{'
        then behind
        else ok index)
    else if current_is template index b'}'
    then (if not (ltb (index + 1) (length template))
        then err incomplete_parameter
        else if current_is template (index + 1) b'}'
        then behind
        else err incomplete_parameter)
    else next

unfoldable pub is_valid_literal : List ℕ → Result RouteError (Unit {0})
is_valid_literal text = if includes text b'?' then err (invalid_literal text) else ok tt

-- parseLiteral: the part, and the index behind it.
unfoldable pub parse_literal : List ℕ → ℕ → Result RouteError (RoutePatternPart × ℕ)
parse_literal template index =
    and_then (literal_end (suc (length template)) template index) λ behind.
      let decoded = decode (slice template index behind) in
      and_then (is_valid_literal decoded)
        λ _. and_then (create_literal_part decoded) λ part. ok (part, behind)

-- The loop of parseParameter, on fuel.
unfoldable pub parameter_end : ℕ → List ℕ → ℕ → Result RouteError ℕ
parameter_end zero template index = err out_of_fuel
parameter_end (suc fuel) template index =
    let next = parameter_end fuel template (index + 1) in
    let behind = parameter_end fuel template (index + 2) in
    let escaped = if ltb (index + 2) (length template) then behind else err incomplete_parameter in
    if current_is template index b'{'
    then (if not (ltb (index + 1) (length template))
        then err incomplete_parameter
        else if current_is template (index + 1) b'{'
        then escaped
        else err unescaped_brace)
    else if current_is template index b'}'
    then (if not (ltb (index + 1) (length template))
        then ok (index + 1)
        else if current_is template (index + 1) b'}'
        then escaped
        else ok (index + 1))
    else if ltb (index + 1) (length template)
    then next
    else err incomplete_parameter

abbrev pub invalid_parameter_name_chars : List ℕ
invalid_parameter_name_chars = codes "/{}?*"

abbrev pub has_any : List ℕ → List ℕ → Bool
has_any text [] = false
has_any text (c ∷ cs) = includes text c || has_any text cs

abbrev pub name_of : RoutePatternPart → List ℕ
name_of (parameter name kind encode_slashes) = name
name_of _ = []

-- Is the text in the set?
unfoldable pub member : List (List ℕ) → List ℕ → Bool
member [] text = false
member (n ∷ names) text = if same_text n text then true else member names text

module _ (lower : List ℕ → List ℕ) where
  -- The parameter names with one more.
  unfoldable pub is_valid_parameter_name :
      List (List ℕ) → List ℕ → Result RouteError (List (List ℕ))
  is_valid_parameter_name parameter_names name =
      if (length name == 0) || has_any name invalid_parameter_name_chars
      then err (invalid_parameter_name name)
      else if member parameter_names (lower name)
      then err (repeated_parameter_name name)
      else ok (lower name ∷ parameter_names)

  -- parseParameter at an open brace: the part, the index behind it, and the names.
  unfoldable pub parse_parameter :
      List ℕ → ℕ → List (List ℕ) → Result RouteError (RoutePatternPart × ℕ × List (List ℕ))
  parse_parameter template index parameter_names =
      if not (current_is template index b'{')
      then err assertion_failed
      else (and_then (parameter_end (suc (length template)) template (index + 1)) λ behind.
          let text = slice template index behind in
          let decoded = decode (slice text 1 (length text - 1)) in
          let part = parse_route_parameter decoded in
          if same_text text (codes "{}")
          then err (invalid_parameter_name [])
          else if starts_with decoded (codes "*") && last_is b'?' decoded
          then err catch_all_optional
          else and_then (is_valid_parameter_name parameter_names (name_of part))
              λ names. ok (part, behind, names))

-- The three loops of isSegmentValid.
unfoldable pub any_catch_all : List RoutePatternPart → Bool
any_catch_all [] = false
any_catch_all (p ∷ ps) = is_catch_all p || any_catch_all ps

-- A part ahead of an optional parameter becomes a separator.
unfoldable pub separate : RoutePatternPart → Result RouteError RoutePatternPart
separate (parameter name kind encode_slashes) = err optional_preceded
separate (literal content) =
    if same_text content (codes ".") then create_separator_part content else err optional_preceded
separate (separator content) = create_separator_part content

unfoldable pub separate_optional : List RoutePatternPart → Result RouteError (List RoutePatternPart)
separate_optional [] = ok []
separate_optional (p ∷ []) = ok (p ∷ [])
separate_optional (p ∷ q ∷ []) =
    if is_optional p
    then err optional_followed
    else if is_optional q
    then and_then (separate p) (λ s. ok (s ∷ q ∷ []))
    else ok (p ∷ q ∷ [])
separate_optional (p ∷ q ∷ r ∷ ps) =
    let rest = separate_optional (q ∷ r ∷ ps) in
    if is_optional p then err optional_followed else and_then rest (λ qs. ok (p ∷ qs))

unfoldable pub no_consecutive : Bool → List RoutePatternPart → Bool
no_consecutive last [] = true
no_consecutive last (p ∷ ps) = not (is_parameter p && last) && no_consecutive (is_parameter p) ps

unfoldable pub is_segment_valid : List RoutePatternPart → Result RouteError (List RoutePatternPart)
is_segment_valid parts =
    if any_catch_all parts && ltb 1 (length parts)
    then err catch_all_mixed
    else and_then (separate_optional parts) λ separated.
      if no_consecutive false separated then ok separated else err consecutive_parameters

module _ (lower : List ℕ → List ℕ) where
  -- One turn of the loop of parseSegment: the part, the index behind it, and the names.
  unfoldable pub parse_part :
      List ℕ → ℕ → List (List ℕ) → Result RouteError (RoutePatternPart × ℕ × List (List ℕ))
  parse_part template index names =
      let as_literal = and_then (parse_literal template index) (λ r. ok (r.0, r.1, names)) in
      if current_is template index b'{'
      then (if not (ltb (index + 1) (length template))
          then err incomplete_parameter
          else if current_is template (index + 1) b'{'
          then as_literal
          else parse_parameter lower template index names)
      else as_literal

  -- The loop of parseSegment, on fuel: the parts, the index behind them, and the names.
  unfoldable pub parse_parts :
      ℕ
      → List ℕ
      → ℕ
      → List (List ℕ)
      → List RoutePatternPart
      → Result RouteError (List RoutePatternPart × ℕ × List (List ℕ))
  parse_parts zero template index names parts = err out_of_fuel
  parse_parts (suc fuel) template index names parts =
      and_then (parse_part template index names) λ r.
        let more = parse_parts fuel template r.1 r.2 (parts ++ r.0 ∷ []) in
        if current_is template r.1 b'/' || leb (length template) r.1
        then ok (parts ++ r.0 ∷ [], r.1, r.2)
        else if leb r.1 index
        then err infinite_loop
        else more

  unfoldable pub parse_segment :
      List ℕ → ℕ → List (List ℕ) → Result RouteError (List RoutePatternPart × ℕ × List (List ℕ))
  parse_segment template index names =
      and_then (parse_parts (suc (length template)) template index names [])
        λ r. and_then (is_segment_valid r.0) λ parts. ok (parts, r.1, r.2)

  -- The loop of parseRoutePattern, on fuel, from the index that moveNext leads to.
  unfoldable pub parse_segments :
      ℕ
      → List ℕ
      → ℕ
      → List (List ℕ)
      → List (List RoutePatternPart)
      → Result RouteError (List (List RoutePatternPart))
  parse_segments zero template index names segments = err out_of_fuel
  parse_segments (suc fuel) template index names segments =
      let turn = and_then (parse_segment template index names) λ r.
        let more = parse_segments fuel template (r.1 + 1) r.2 (segments ++ r.0 ∷ []) in
        if ltb r.1 (length template) && not (current_is template r.1 b'/')
        then err assertion_failed
        else if leb r.1 index
        then err infinite_loop
        else more in
      if not (ltb index (length template))
      then ok segments
      else if current_is template index b'/'
      then err consecutive_separators
      else turn

-- A catch-all parameter only as the last part of the last segment.
unfoldable pub catch_all_last : List RoutePatternPart → Bool → Bool
catch_all_last [] last_segment = true
catch_all_last (p ∷ []) last_segment = not (is_catch_all p) || last_segment
catch_all_last (p ∷ q ∷ ps) last_segment =
    not (is_catch_all p) && catch_all_last (q ∷ ps) last_segment

unfoldable pub is_all_valid : List (List RoutePatternPart) → Bool
is_all_valid [] = true
is_all_valid (s ∷ []) = catch_all_last s true
is_all_valid (s ∷ t ∷ ss) = catch_all_last s false && is_all_valid (t ∷ ss)

unfoldable pub parse_route_pattern : (List ℕ → List ℕ) → List ℕ → Result RouteError RoutePattern
parse_route_pattern lower pattern_text = and_then (trim_prefix pattern_text) λ template.
    and_then (parse_segments lower (suc (length template)) template 0 [] []) λ segments.
      if is_all_valid segments then create_pattern pattern_text segments else err catch_all_not_last
