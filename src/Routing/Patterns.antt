-- ===== src/Routing/Patterns.antt =====
-- packages/routing/src/patterns: the parts of a route pattern, RouteParameterParser.ts,
-- RoutePatternFactory.ts, and packages/routing/src/template/RoutePrecedence.ts.
pub mod Parser
pub mod Precedence
mod Tests
use yohira.Common.{
  ℕ, zero, suc, ◌+◌, ◌-◌, ◌*◌, ◌^◌, Bool, true, false, not, ◌&&◌, ◌||◌, List, [], ◌∷◌, ◌++◌, ltb,
  ◌==◌, if◌then◌else◌, length, get_elem?, get_or, slice, Option, none, some, Result, ok, err,
  and_then, codes, includes, leb,
}

pub data RouteError : Type 0 where
  tilde consecutive_separators incomplete_parameter unescaped_brace catch_all_optional
        catch_all_mixed optional_preceded optional_followed consecutive_parameters
        catch_all_not_last empty_part not_supported assertion_failed infinite_loop out_of_fuel :
      RouteError
  invalid_literal : List ℕ → RouteError
  invalid_parameter_name : List ℕ → RouteError
  repeated_parameter_name : List ℕ → RouteError

pub data RoutePatternParameterKind : Type 0 where
  standard optional catch_all : RoutePatternParameterKind

pub data RoutePatternPart : Type 0 where
  literal : List ℕ → RoutePatternPart
  parameter : List ℕ → RoutePatternParameterKind → Bool → RoutePatternPart
  separator : List ℕ → RoutePatternPart

abbrev pub is_literal : RoutePatternPart → Bool
is_literal (literal content) = true
is_literal _ = false

abbrev pub is_parameter : RoutePatternPart → Bool
is_parameter (parameter name kind encode_slashes) = true
is_parameter _ = false

abbrev pub is_separator : RoutePatternPart → Bool
is_separator (separator content) = true
is_separator _ = false

abbrev pub is_catch_all : RoutePatternPart → Bool
is_catch_all (parameter name catch_all encode_slashes) = true
is_catch_all _ = false

abbrev pub is_optional : RoutePatternPart → Bool
is_optional (parameter name optional encode_slashes) = true
is_optional _ = false

-- `debuggerToString`, of a part, and of the parts of a segment.
abbrev pub stars : RoutePatternParameterKind → Bool → List ℕ
stars catch_all true = codes "*"
stars catch_all false = codes "**"
stars _ encode_slashes = []

abbrev pub question : RoutePatternParameterKind → List ℕ
question optional = codes "?"
question _ = []

unfoldable pub part_text : RoutePatternPart → List ℕ
part_text (literal content) = content
part_text (parameter name kind encode_slashes) =
    b'{' ∷ (stars kind encode_slashes ++ (name ++ (question kind ++ b'}' ∷ [])))
part_text (separator content) = content

unfoldable pub segment_text : List RoutePatternPart → List ℕ
segment_text [] = []
segment_text (p ∷ ps) = part_text p ++ segment_text ps

-- The text joined by `/`.
unfoldable pub pattern_text : List (List RoutePatternPart) → List ℕ
pattern_text [] = []
pattern_text (s ∷ []) = segment_text s
pattern_text (s ∷ t ∷ ss) = segment_text s ++ b'/' ∷ pattern_text (t ∷ ss)

-- The loop of parseRouteParameter, for so many characters left.
unfoldable pub parameter_name : ℕ → List ℕ → ℕ → ℕ → List ℕ
parameter_name zero parameter_text start_index current_index = []
parameter_name (suc left) parameter_text start_index current_index =
    let c = get_or parameter_text current_index 0 in
    let rest = parameter_name left parameter_text start_index (current_index + 1) in
    if ((c == b':') || (c == b'=')) && not (start_index == current_index)
    then slice parameter_text start_index current_index
    else if left == 0
    then slice parameter_text start_index (current_index + 1)
    else rest

abbrev pub starts_with : List ℕ → List ℕ → Bool
starts_with text [] = true
starts_with [] (p ∷ ps) = false
starts_with (c ∷ text) (p ∷ ps) = (c == p) && starts_with text ps

abbrev pub last_is : ℕ → List ℕ → Bool
last_is c [] = false
last_is c (x ∷ []) = x == c
last_is c (x ∷ y ∷ xs) = last_is c (y ∷ xs)

-- `end_index` is here the index behind the last character of the name.
unfoldable pub parse_route_parameter : List ℕ → RoutePatternPart
parse_route_parameter [] = parameter [] standard true
parse_route_parameter (c ∷ cs) =
    let text = c ∷ cs in
    let doubled = starts_with text (codes "**") in
    let starred = c == b'*' in
    let start_index = if doubled then 2 else if starred then 1 else 0 in
    let optional_sign = last_is b'?' text in
    let end_index = if optional_sign then length text - 1 else length text in
    let kind =
      if optional_sign then optional else if doubled || starred then catch_all else standard in
    parameter (parameter_name (end_index - start_index) text start_index start_index) kind
      (not doubled)

-- `createLiteralPart` and `createSeparatorPart`.
unfoldable pub create_literal_part : List ℕ → Result RouteError RoutePatternPart
create_literal_part [] = err empty_part
create_literal_part (c ∷ cs) =
    if includes (c ∷ cs) b'?' then err (invalid_literal (c ∷ cs)) else ok (literal (c ∷ cs))

unfoldable pub create_separator_part : List ℕ → Result RouteError RoutePatternPart
create_separator_part [] = err empty_part
create_separator_part (c ∷ cs) = ok (separator (c ∷ cs))

-- The digit of a segment; `none` is what is thrown for a separator alone, and for want of a part.
unfoldable pub compute_inbound_precedence_digit : List RoutePatternPart → Option ℕ
compute_inbound_precedence_digit [] = none
compute_inbound_precedence_digit (literal content ∷ []) = some 1
compute_inbound_precedence_digit (parameter name catch_all encode_slashes ∷ []) = some 5
compute_inbound_precedence_digit (parameter name kind encode_slashes ∷ []) = some 3
compute_inbound_precedence_digit (separator content ∷ []) = none
compute_inbound_precedence_digit (p ∷ q ∷ ps) = some 2

-- `numerator / 10 ^ places`: the code adds the same fractions in floating point.
pub record Decimal : Type 0 where
  pub numerator : ℕ
  pub places : ℕ

-- The loop of computeInbound from the i-th segment on, where `precedence / 10 ^ (i - 1)` is the sum.
unfoldable pub add_digits : ℕ → ℕ → List (List RoutePatternPart) → Result RouteError Decimal
add_digits i precedence [] = ok (record { numerator = precedence; places = i - 1 })
add_digits i precedence (s ∷ ss) = elim (compute_inbound_precedence_digit s) [
  | none ↦ err not_supported
  | some digit ↦
      if leb 10 digit then err assertion_failed else add_digits (i + 1) (precedence * 10 + digit) ss
]

unfoldable pub compute_inbound : List (List RoutePatternPart) → Result RouteError Decimal
compute_inbound = add_digits 0 0

pub record RoutePattern : Type 0 where
  pub inbound_precedence : Decimal
  pub raw_text : List ℕ
  pub parameters : List RoutePatternPart
  pub path_segments : List (List RoutePatternPart)

-- `visitPart` makes an equal parameter part.
unfoldable pub visit_part : RoutePatternPart → RoutePatternPart
visit_part (parameter name kind encode_slashes) = parameter name kind encode_slashes
visit_part part = part

unfoldable pub visit_segment : List RoutePatternPart → List RoutePatternPart
visit_segment [] = []
visit_segment (p ∷ ps) = visit_part p ∷ visit_segment ps

unfoldable pub parameters_of : List RoutePatternPart → List RoutePatternPart
parameters_of [] = []
parameters_of (p ∷ ps) = if is_parameter p then p ∷ parameters_of ps else parameters_of ps

unfoldable pub visit_segments : List (List RoutePatternPart) → List (List RoutePatternPart)
visit_segments [] = []
visit_segments (s ∷ ss) = visit_segment s ∷ visit_segments ss

unfoldable pub all_parameters : List (List RoutePatternPart) → List RoutePatternPart
all_parameters [] = []
all_parameters (s ∷ ss) = parameters_of (visit_segment s) ++ all_parameters ss

-- createPatternCore, with the constructor of RoutePattern.
unfoldable pub create_pattern :
    List ℕ → List (List RoutePatternPart) → Result RouteError RoutePattern
create_pattern raw_text segments =
    and_then (compute_inbound (visit_segments segments)) λ precedence. ok (record {
      inbound_precedence = precedence;
      raw_text = raw_text;
      parameters = all_parameters segments;
      path_segments = visit_segments segments;
    })
