-- ===== src/HttpHeaders/NameValue.antt =====
-- packages/http.headers/src/NameValueHeaderValue.ts.
pub mod Bounds
pub mod Items
pub mod Attempts
use yohira.Common.{
  ℕ, zero, suc, ◌+◌, ◌-◌, Bool, true, false, not, ◌&&◌, ◌||◌, List, [], ◌∷◌, ◌++◌, ltb, leb, ◌==◌,
  if◌then◌else◌, length, slice, Option, none, some, Result, ok, err, and_then, codes, same_text,
  to_lower_case,
}
use yohira.HttpHeaders.Rules.{
  HeaderError, get_token_length, get_whitespace_length, get_quoted_string_length, at_index, quote,
  parsed, not_parsed, invalid_format, assertion_failed,
}
use yohira.HttpHeaders.Utilities.{HeaderParser}

-- The two segments; `none` is one without a buffer.
pub record NameValueHeaderValue : Type 0 where
  pub name : Option (List ℕ)
  pub value : Option (List ℕ)

abbrev pub name_value : List ℕ → Option (List ℕ) → NameValueHeaderValue
name_value name value = record { name = some name; value = value }

-- `segment.toString()`
abbrev pub text_of : Option (List ℕ) → List ℕ
text_of none = []
text_of (some text) = text

-- What toString appends for one name and value.
unfoldable pub item_text : NameValueHeaderValue → List ℕ
item_text v =
    text_of v.name ++ (if length (text_of v.value) == 0 then [] else b'=' ∷ text_of v.value)

-- The loop of toString.
unfoldable pub append_items : List NameValueHeaderValue → List ℕ → Bool → List ℕ → List ℕ
append_items [] separator leading_separator destination = destination
append_items (v ∷ vs) separator leading_separator destination =
    let separated =
      if leading_separator || ltb 0 (length destination)
      then (destination ++ separator) ++ codes " "
      else destination in
    append_items vs separator leading_separator (separated ++ item_text v)

unfoldable pub append_to : Option (List NameValueHeaderValue) → List ℕ → Bool → List ℕ → List ℕ
append_to none separator leading_separator destination = destination
append_to (some values) separator leading_separator destination =
    append_items values separator leading_separator destination

-- `x.toLowerCase().equals(y.toLowerCase())`
unfoldable pub same_ignoring_case : Option (List ℕ) → Option (List ℕ) → Bool
same_ignoring_case none none = true
same_ignoring_case none (some y) = false
same_ignoring_case (some x) none = false
same_ignoring_case (some x) (some y) = same_text (to_lower_case x) (to_lower_case y)

unfoldable pub find_in : List NameValueHeaderValue → List ℕ → Option NameValueHeaderValue
find_in [] name = none
find_in (v ∷ vs) name =
    let rest = find_in vs name in if same_ignoring_case v.name (some name) then some v else rest

unfoldable pub find :
    Option (List NameValueHeaderValue) → List ℕ → Result HeaderError (Option NameValueHeaderValue)
find values [] = err assertion_failed
find none (c ∷ cs) = ok none
find (some values) (c ∷ cs) = ok (find_in values (c ∷ cs))

-- `equals`, from the test for a value on.
abbrev pub same_value : Option (List ℕ) → Option (List ℕ) → Bool
same_value none y = length (text_of y) == 0
same_value (some []) y = length (text_of y) == 0
same_value (some (c ∷ cs)) none = false
same_value (some (c ∷ cs)) (some y) =
    if c == quote
    then same_text (c ∷ cs) y
    else same_text (to_lower_case (c ∷ cs)) (to_lower_case y)

unfoldable pub equals : NameValueHeaderValue → NameValueHeaderValue → Bool
equals x y = same_ignoring_case x.name y.name && same_value x.value y.value

unfoldable pub get_value_length : List ℕ → ℕ → Result HeaderError ℕ
get_value_length input start_index =
    let value_length = get_token_length input start_index in
    if leb (length input) start_index
    then ok 0
    else if value_length == 0
    then (and_then (get_quoted_string_length input start_index)
        λ r. elim r.0 [ parsed ↦ ok r.1 | not_parsed ↦ ok 0 | invalid_format ↦ ok 0 ])
    else ok value_length

-- Behind the sign `=`.
unfoldable pub get_value_part :
    List ℕ → ℕ → List ℕ → ℕ → Result HeaderError (ℕ × Option NameValueHeaderValue)
get_value_part input start_index name separator =
    let current = separator + 1 + get_whitespace_length input (separator + 1) in
    and_then (get_value_length input current) λ value_length.
      let behind = current + value_length in
      ok (
        behind + get_whitespace_length input behind - start_index,
        some (name_value name (some (slice input current (current + value_length)))),
      )

unfoldable pub get_name_value_length :
    List ℕ → ℕ → Result HeaderError (ℕ × Option NameValueHeaderValue)
get_name_value_length input start_index =
    let name_length = get_token_length input start_index in
    let name = slice input start_index (start_index + name_length) in
    let behind = start_index + name_length in
    let current = behind + get_whitespace_length input behind in
    if (length input == 0) || leb (length input) start_index
    then ok (0, none)
    else if name_length == 0
    then ok (0, none)
    else if (current == length input) || not (at_index input current == b'=')
    then ok
        (current + get_whitespace_length input current - start_index, some (name_value name none))
    else get_value_part input start_index name current

abbrev pub multiple_value_parser : HeaderParser NameValueHeaderValue
multiple_value_parser = record {
  supports_multiple_values = true;
  get_parsed_value_length = get_name_value_length;
}
