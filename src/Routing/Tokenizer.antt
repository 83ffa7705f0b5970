-- ===== src/Routing/Tokenizer.antt =====
-- packages/routing/src/matching/FastPathTokenizer.ts and PathSegment.ts. A string is the list of its
-- code units.
pub mod Split
use yohira.Common.{
  ℕ, zero, suc, ◌+◌, Bool, true, false, List, [], ◌∷◌, ltb, ◌==◌, if◌then◌else◌, length, drop,
  slice, Option, none, some,
}

pub record PathSegment : Type 0 where
  pub start : ℕ
  pub length : ℕ

-- `/`
abbrev pub slash : ℕ
slash = 47

-- `span.indexOf(c)`, where `none` is -1.
abbrev pub index_of : ℕ → List ℕ → Option ℕ
index_of c [] = none
index_of c (x ∷ xs) =
    if x == c then some 0 else elim (index_of c xs) [ none ↦ none | some i ↦ some (suc i) ]

-- The loop, and the segment behind it. `room` is how many more segments the array has place for.
unfoldable pub tokenize_from : ℕ → List ℕ → ℕ → List PathSegment
tokenize_from zero path start = []
tokenize_from (suc room) path start =
    let span = drop start path in
    elim (index_of slash span) [
      | some end ↦
          record { start = start; length = end } ∷ tokenize_from room path (start + end + 1)
      | none ↦
          if ltb 0 (length span) then record { start = start; length = length span } ∷ [] else []
    ]

-- `tokenize` into an array of `room` segments; their count is the length of the list.
unfoldable pub tokenize : List ℕ → ℕ → List PathSegment
tokenize [] room = []
tokenize path room = tokenize_from room path 1

-- `path.substring(segment.start, segment.start + segment.length)`
abbrev pub text : List ℕ → PathSegment → List ℕ
text path segment = slice path segment.start (segment.start + segment.length)
