-- ===== src/HttpHeaders/Rules.antt =====
-- packages/http.headers/src/HttpRuleParser.ts, HttpParseResult.ts, and indexOfAnyExcept of
-- packages/base/src/MemoryExtensions.ts. The input is the list of the code units of a StringSegment.
pub mod Bounds
pub mod Positions
pub mod Quoted
use yohira.Common.{
  ℕ, zero, suc, ◌+◌, ◌-◌, Bool, true, false, not, ◌&&◌, ◌||◌, List, [], ◌∷◌, ltb, leb, ◌==◌,
  if◌then◌else◌, length, drop, get_or, Option, none, some, Result, ok, err, and_then, codes,
  includes,
}

pub data HeaderError : Type 0 where
  assertion_failed out_of_range out_of_fuel no_cache_directives : HeaderError
  invalid_values : ℕ → HeaderError

pub data HttpParseResult : Type 0 where
  parsed not_parsed invalid_format : HttpParseResult

abbrev pub token_chars : List ℕ
token_chars = codes "!#$%&'*+-.0123456789ABCDEFGHIJKLMNOPQRSTUVWXYZ^_`abcdefghijklmnopqrstuvwxyz|~"

abbrev pub max_nested_count : ℕ
max_nested_count = 5

abbrev pub cr : ℕ
cr = 13

abbrev pub lf : ℕ
lf = 10

abbrev pub sp : ℕ
sp = 32

abbrev pub tab : ℕ
tab = 9

-- The index of the first character that is none of the values; `none` is -1.
unfoldable pub index_of_any_except : List ℕ → List ℕ → Option ℕ
index_of_any_except [] values = none
index_of_any_except (c ∷ cs) values =
    let rest : Option ℕ = elim (index_of_any_except cs values) [
      | none ↦ none
      | some i ↦ some (suc i)
    ] in
    if includes values c then rest else some 0

unfoldable pub get_token_length : List ℕ → ℕ → ℕ
get_token_length input start_index =
    if leb (length input) start_index
    then 0
    else let subspan = drop start_index input in
      elim (index_of_any_except subspan token_chars) [ none ↦ length subspan | some i ↦ i ]

abbrev pub is_blank : ℕ → Bool
is_blank c = (c == sp) || (c == tab)

-- The loop over the characters from `current` on: how many of them are skipped. A line break is
-- skipped with the blank behind it.
unfoldable pub whitespace_from : List ℕ → ℕ
whitespace_from [] = 0
whitespace_from (c ∷ []) = if is_blank c then 1 else 0
whitespace_from (c ∷ d ∷ []) = elim (is_blank c) [
  | true ↦ suc (whitespace_from (d ∷ []))
  | false ↦ 0
]
whitespace_from (c ∷ d ∷ e ∷ cs) = elim (is_blank c) [
  | true ↦ suc (whitespace_from (d ∷ e ∷ cs))
  | false ↦ elim ((c == cr) && ((d == lf) && is_blank e)) [
    | true ↦ whitespace_from cs + 3
    | false ↦ 0
  ]
]

unfoldable pub get_whitespace_length : List ℕ → ℕ → ℕ
get_whitespace_length input start_index =
    if leb (length input) start_index then 0 else whitespace_from (drop start_index input)

-- `input.at(index)`, where the index is known to be in range
abbrev pub at_index : List ℕ → ℕ → ℕ
at_index input index = get_or input index 0

abbrev pub backslash : ℕ
backslash = 92

-- The result, and the length that is set.
unfoldable pub get_quoted_pair_length : List ℕ → ℕ → Result HeaderError (HttpParseResult × ℕ)
get_quoted_pair_length input start_index =
    if leb (length input) start_index
    then err assertion_failed
    else if not (at_index input start_index == backslash)
    then ok (not_parsed, 0)
    else if ltb (length input) (start_index + 2) || ltb 127 (at_index input (start_index + 1))
    then ok (invalid_format, 0)
    else ok (parsed, 2)

abbrev pub is_quoted_pair : List ℕ → ℕ → Result HeaderError (HttpParseResult × ℕ) → Bool
is_quoted_pair input current (ok (parsed, n)) = ltb (current + 2) (length input)
is_quoted_pair input current _ = false

-- What is scanned from where: the start, the current index, and the nested count.
abbrev Scan : Type 0
Scan = ℕ → ℕ → ℕ → Result HeaderError (HttpParseResult × ℕ)

-- The tests ahead of the loop.
unfoldable pub expression_at : Scan → List ℕ → ℕ → ℕ → ℕ → Result HeaderError (HttpParseResult × ℕ)
expression_at scan input open_char start_index nested_count =
    if leb (length input) start_index
    then err assertion_failed
    else if at_index input start_index == open_char
    then scan start_index (start_index + 1) nested_count
    else ok (not_parsed, 0)

-- The test for the closing character, with what follows if it is another one.
unfoldable pub closing : Scan → List ℕ → ℕ → ℕ → ℕ → ℕ → Result HeaderError (HttpParseResult × ℕ)
closing scan input close_char start_index current nested_count =
    if leb (length input) current
    then err out_of_range
    else if at_index input current == close_char
    then ok (parsed, current - start_index + 1)
    else scan start_index (current + 1) nested_count

-- The loop, on fuel. The nested count is counted down again on every way out of a nested call.
unfoldable pub scan_expression : ℕ → List ℕ → ℕ → ℕ → Bool → Scan
scan_expression zero input open_char close_char supports_nesting start_index current nested_count =
    err out_of_fuel
scan_expression (suc fuel) input open_char close_char supports_nesting start_index current
      nested_count =
    let scan = scan_expression fuel input open_char close_char supports_nesting in
    let behind_pair = scan start_index (current + 2) nested_count in
    let close = λ (i : ℕ). closing scan input close_char start_index i nested_count in
    let nested = and_then (expression_at scan input open_char current (nested_count + 1)) λ r.
      elim r.0 [
        | parsed ↦ close (current + r.1)
        | not_parsed ↦ close current
        | invalid_format ↦ ok (invalid_format, 0)
      ] in
    if leb (length input) current
    then ok (invalid_format, 0)
    else if is_quoted_pair input current (get_quoted_pair_length input current)
    then behind_pair
    else if supports_nesting && (at_index input current == open_char)
    then (if ltb max_nested_count (nested_count + 1) then ok (invalid_format, 0) else nested)
    else close current

unfoldable pub get_expression_length :
    List ℕ → ℕ → ℕ → ℕ → Bool → ℕ → Result HeaderError (HttpParseResult × ℕ)
get_expression_length input start_index open_char close_char supports_nesting nested_count =
    expression_at (scan_expression (length input) input open_char close_char supports_nesting) input
      open_char start_index nested_count

abbrev pub quote : ℕ
quote = 34

unfoldable pub get_quoted_string_length : List ℕ → ℕ → Result HeaderError (HttpParseResult × ℕ)
get_quoted_string_length input start_index =
    get_expression_length input start_index quote quote false 0
