-- ===== src/Routing/JumpTables.antt =====
-- packages/routing/src/matching: ZeroEntryJumpTable, SingleEntryAsciiJumpTable, SingleEntryJumpTable,
-- DictionaryJumpTable, Ascii and JumpTableBuilder, with packages/base/src/CaseInsensitiveMap.ts.
-- JavaScript's `toLowerCase` is the parameter `lower`.
pub mod Lookup
use yohira.Common.{
  ℕ, ◌+◌, Bool, true, false, ◌&&◌, List, [], ◌∷◌, ltb, leb, ◌==◌, if◌then◌else◌, not, length,
  Option, none, some, ℤ, pos, negsuc, eqb_ℤ, Result, ok, err,
}
use yohira.Routing.Tokenizer.{PathSegment, text}

-- `===` on strings.
unfoldable pub eqb : List ℕ → List ℕ → Bool
eqb [] [] = true
eqb [] (y ∷ ys) = false
eqb (x ∷ xs) [] = false
eqb (x ∷ xs) (y ∷ ys) = x == y && eqb xs ys

-- A Map's entries, the oldest first. A key that is there keeps its place.
abbrev pub Entries : Type 0
Entries = List (List ℕ × ℤ)

unfoldable pub map_get : Entries → List ℕ → Option ℤ
map_get [] k = none
map_get ((j, v) ∷ m) k = if eqb j k then some v else map_get m k

unfoldable pub map_set : Entries → List ℕ → ℤ → Entries
map_set [] k v = (k, v) ∷ []
map_set ((j, w) ∷ m) k v = if eqb j k then (j, v) ∷ m else (j, w) ∷ map_set m k v

pub data JumpTable : Type 0 where
  zero_entry : (default_destination exit_destination : ℤ) → JumpTable
  single_entry_ascii :
      (default_destination exit_destination : ℤ) (text : List ℕ) (destination : ℤ) → JumpTable
  single_entry :
      (default_destination exit_destination : ℤ) (text : List ℕ) (destination : ℤ) → JumpTable
  dictionary : (default_destination exit_destination : ℤ) (entries : Entries) → JumpTable

pub data JumpTableError : Type 0 where
  default_not_set exit_not_set : JumpTableError

unfoldable pub is_ascii : List ℕ → Bool
is_ascii [] = true
is_ascii (c ∷ cs) = if ltb 127 c then false else is_ascii cs

-- The value of a lookup, or `defaultDestination`.
abbrev pub or_default : Option ℤ → ℤ → ℤ
or_default (some d) default = d
or_default none default = default

module _ (lower : List ℕ → List ℕ) where
  -- `asciiIgnoreCaseEquals`
  abbrev pub ignore_case_equals : List ℕ → List ℕ → Bool
  ignore_case_equals a b = eqb (lower a) (lower b)

  -- CaseInsensitiveMap's `get` and `set`.
  abbrev pub ci_get : Entries → List ℕ → Option ℤ
  ci_get m k = map_get m (lower k)

  abbrev pub ci_set : Entries → List ℕ → ℤ → Entries
  ci_set m k v = map_set m (lower k) v

  -- The constructor of DictionaryJumpTable, from the entries already in the map.
  unfoldable pub fill_map : Entries → Entries → Entries
  fill_map m [] = m
  fill_map m ((k, v) ∷ entries) = fill_map (ci_set m k v) entries

  -- The `getDestination` of each table.
  abbrev pub zero_entry_destination : ℤ → ℤ → PathSegment → ℤ
  zero_entry_destination default exit segment = if segment.length == 0 then exit else default

  abbrev pub single_entry_ascii_destination : ℤ → ℤ → List ℕ → ℤ → List ℕ → PathSegment → ℤ
  single_entry_ascii_destination default exit t destination path segment =
      if segment.length == 0
      then exit
      else if not (segment.length == length t)
      then default
      else if ignore_case_equals (text path segment) t
      then destination
      else default

  abbrev pub single_entry_destination : ℤ → ℤ → List ℕ → ℤ → List ℕ → PathSegment → ℤ
  single_entry_destination default exit t destination path segment =
      if segment.length == 0
      then exit
      else if segment.length == length t && ignore_case_equals (text path segment) t
      then destination
      else default

  abbrev pub dictionary_destination : ℤ → ℤ → Entries → List ℕ → PathSegment → ℤ
  dictionary_destination default exit m path segment =
      if segment.length == 0 then exit else or_default (ci_get m (text path segment)) default

  unfoldable pub get_destination : JumpTable → List ℕ → PathSegment → ℤ
  get_destination (zero_entry default exit) path segment =
      zero_entry_destination default exit segment
  get_destination (single_entry_ascii default exit t destination) path segment =
      single_entry_ascii_destination default exit t destination path segment
  get_destination (single_entry default exit t destination) path segment =
      single_entry_destination default exit t destination path segment
  get_destination (dictionary default exit m) path segment =
      dictionary_destination default exit m path segment

  -- The choice of `buildJumpTable` among the tables; no entries and no array of them are alike.
  unfoldable pub choose_table : ℤ → ℤ → Entries → JumpTable
  choose_table default exit [] = zero_entry default exit
  choose_table default exit ((t, destination) ∷ []) =
      if is_ascii t
      then single_entry_ascii default exit t destination
      else single_entry default exit t destination
  choose_table default exit (e ∷ f ∷ entries) =
      dictionary default exit (fill_map [] (e ∷ f ∷ entries))

  -- `buildJumpTable`, where -1 is the destination that is not set.
  unfoldable pub build_jump_table : ℤ → ℤ → Entries → Result JumpTableError JumpTable
  build_jump_table default exit entries =
      if eqb_ℤ default (negsuc 0)
      then err default_not_set
      else if eqb_ℤ exit (negsuc 0)
      then err exit_not_set
      else ok (choose_table default exit entries)
