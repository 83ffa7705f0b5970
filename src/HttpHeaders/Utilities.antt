-- ===== src/HttpHeaders/Utilities.antt =====
-- packages/http.headers/src/HeaderUtilities.ts and BaseHeaderParser.ts with HttpHeaderParser.ts.
pub mod Positions
pub mod Collections
use yohira.Common.{
  ℕ, zero, suc, ◌+◌, ◌-◌, Bool, true, false, not, ◌&&◌, ◌||◌, List, [], ◌∷◌, ltb, leb, ◌==◌,
  if◌then◌else◌, length, set, get_or, replicate, Option, none, some, Result, ok, err, and_then, ℤ,
  pos,
}
use yohira.HttpHeaders.Rules.{HeaderError, get_whitespace_length, at_index}
use yohira.HttpHeaders.Rules.{assertion_failed, invalid_values}

abbrev pub comma : ℕ
comma = 44

-- `while (current < input.length && input.at(current) === ',')`, for as many turns as there are
-- characters left.
unfoldable pub skip_separators : ℕ → List ℕ → ℕ → ℕ
skip_separators zero input current = current
skip_separators (suc fuel) input current =
    let next = current + 1 in
    let rest = skip_separators fuel input (next + get_whitespace_length input next) in
    if ltb current (length input) && (at_index input current == comma) then rest else current

-- The index, and whether a separator was found.
unfoldable pub get_next_non_empty_or_whitespace_index :
    List ℕ → ℕ → Bool → Result HeaderError (ℕ × Bool)
get_next_non_empty_or_whitespace_index input start_index skip_empty_values =
    let current = start_index + get_whitespace_length input start_index in
    let next = current + 1 + get_whitespace_length input (current + 1) in
    if ltb (length input) start_index
    then err assertion_failed
    else if (current == length input) || not (at_index input current == comma)
    then ok (current, false)
    else if skip_empty_values
    then ok (skip_separators (length input) input next, true)
    else ok (next, true)

-- What tryParseValue returns, and what it leaves in `index` and `parsedValue`.
pub record Attempt {ℓ} (T : Type ℓ) : Type ℓ where
  pub success : Bool
  pub index : ℕ
  pub parsed_value : Option T

abbrev pub attempt {ℓ} : {T : Type ℓ} → Bool → ℕ → Option T → Attempt T
attempt success index parsed_value = record {
  success = success;
  index = index;
  parsed_value = parsed_value;
}

-- A BaseHeaderParser: its field, and its abstract method.
pub record HeaderParser (T : Type 0) : Type 0 where
  pub supports_multiple_values : Bool
  pub get_parsed_value_length : List ℕ → ℕ → Result HeaderError (ℕ × Option T)

module _ {T : Type 0} (p : HeaderParser T) where
  -- Behind the value.
  unfoldable pub finish_value : List ℕ → ℕ → ℕ → Option T → Result HeaderError (Attempt T)
  finish_value value index behind result =
      and_then (get_next_non_empty_or_whitespace_index value behind p.supports_multiple_values) λ r.
        if (r.1 && not p.supports_multiple_values) || (not r.1 && ltb r.0 (length value))
        then ok (attempt false index none)
        else ok (attempt true r.0 result)

  -- From the first character of the value on.
  unfoldable pub parse_at : List ℕ → ℕ → ℕ → Result HeaderError (Attempt T)
  parse_at value index current = and_then (p.get_parsed_value_length value current) λ r.
      if r.0 == 0
      then ok (attempt false index none)
      else finish_value value index (current + r.0) r.1

  unfoldable pub try_parse_text : List ℕ → ℕ → Result HeaderError (Attempt T)
  try_parse_text value index =
      let many = p.supports_multiple_values in
      if (length value == 0) || (index == length value)
      then ok (attempt many index none)
      else and_then (get_next_non_empty_or_whitespace_index value index many) λ r.
        if r.1 && not many
        then ok (attempt false index none)
        else if r.0 == length value
        then ok (attempt many (if many then r.0 else index) none)
        else parse_at value index r.0

  -- `none` is a StringSegment without a buffer.
  unfoldable pub try_parse_value : Option (List ℕ) → ℕ → Result HeaderError (Attempt T)
  try_parse_value none index = ok (attempt p.supports_multiple_values index none)
  try_parse_value (some value) index = try_parse_text value index

  unfoldable pub parse_value : List ℕ → ℕ → Result HeaderError (Option T)
  parse_value value index =
      if ltb (length value) index
      then err assertion_failed
      else and_then (try_parse_value (some value) index)
          λ a. if a.success then ok a.parsed_value else err (invalid_values a.index)

-- The inner loop of areEqualCollections: `already_found` with the mark of the item that is found.
module _ {ℓ} {T : Type ℓ} (equals : T → T → Bool) where
  unfoldable pub find_item : T → List T → List Bool → Option (List Bool)
  find_item x [] found = none
  find_item x (y ∷ ys) [] = none
  find_item x (y ∷ ys) (mark ∷ marks) =
      let rest : Option (List Bool) = elim (find_item x ys marks) [
        | none ↦ none
        | some new ↦ some (mark ∷ new)
      ] in
      if not mark && equals x y then some (true ∷ marks) else rest

  unfoldable pub find_all : List T → List T → List Bool → Bool
  find_all [] ys found = true
  find_all (x ∷ xs) ys found = elim (find_item x ys found) [
    | none ↦ false
    | some new ↦ find_all xs ys new
  ]

  unfoldable pub are_equal_collections : Option (List T) → Option (List T) → Bool
  are_equal_collections none none = true
  are_equal_collections none (some y) = length y == 0
  are_equal_collections (some x) none = length x == 0
  are_equal_collections (some x) (some y) =
      if not (length x == length y)
      then false
      else if length x == 0
      then true
      else find_all x y (replicate (length x) false)

-- What JavaScript makes of a text by `Number`, where that is an integer, and of an integer by
-- `toString`.
pub record NumberText : Type 0 where
  pub number : List ℕ → Option ℤ
  pub to_string : ℤ → List ℕ

-- The number parsed, if tryParseNonNegativeInt32 returns true.
unfoldable pub try_parse_non_negative_int32 : NumberText → Option (List ℕ) → Option ℤ
try_parse_non_negative_int32 t none = none
try_parse_non_negative_int32 t (some []) = none
try_parse_non_negative_int32 t (some (c ∷ cs)) = t.number (c ∷ cs)
