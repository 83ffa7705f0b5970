-- ===== src/Primitives/StringSegment.antt =====
-- packages/extensions.primitives/src/StringSegment.ts. A string is the list of its code units.
pub mod Values
pub mod Indexes
use yohira.Common.{
  ℕ, zero, suc, min, max, ◌+◌, ◌-◌, Bool, true, false, ◌&&◌, ◌||◌, List, [], ◌∷◌, ◌==◌, length,
  get_elem?, slice, Option, none, some, Result, ok, err, and_then, if◌then◌else◌, same_text, ℤ, pos,
  negsuc, pos_part, is_neg, not, ltb_ℤ, eqb_ℤ, ◌+ℤ◌, ◌-ℤ◌,
}

pub data SegmentError : Type 0 where
  invalid_segment out_of_range assertion_failed : SegmentError

pub record StringSegment : Type 0 where
  pub buffer : Option (List ℕ)
  pub offset : ℤ
  pub length : ℤ

-- `text.substring(start, end)`: both are clamped, and swapped if they are out of order.
unfoldable pub js_substring : List ℕ → ℤ → ℤ → List ℕ
js_substring text start end =
    let a = min (pos_part start) (length text) in
    let b = min (pos_part end) (length text) in slice text (min a b) (max a b)

-- `text[index]`
unfoldable pub char_at : List ℕ → ℤ → Option ℕ
char_at text (pos n) = get_elem? text n
char_at text (negsuc n) = none

abbrev pub from : Option (List ℕ) → StringSegment
from none = record { buffer = none; offset = pos 0; length = pos 0 }
from (some text) = record { buffer = some text; offset = pos 0; length = pos (length text) }

unfoldable pub from_segment : Option (List ℕ) → ℤ → ℤ → Result SegmentError StringSegment
from_segment none offset size = err invalid_segment
from_segment (some text) offset size =
    if ltb_ℤ (pos (length text)) offset || ltb_ℤ (pos (length text) -ℤ offset) size
    then err invalid_segment
    else ok (record { buffer = some text; offset = offset; length = size })

abbrev pub empty : StringSegment
empty = from (some [])

unfoldable pub is_null_or_empty : StringSegment → Bool
is_null_or_empty s = elim s.buffer [ none ↦ true | some text ↦ eqb_ℤ s.length (pos 0) ]

unfoldable pub value_of : Option (List ℕ) → ℤ → ℤ → Option (List ℕ)
value_of none offset size = none
value_of (some text) offset size = some (js_substring text offset (offset +ℤ size))

unfoldable pub value : StringSegment → Option (List ℕ)
value s = value_of s.buffer s.offset s.length

unfoldable pub same_value : Option (List ℕ) → Option (List ℕ) → Bool
same_value none none = true
same_value none (some y) = false
same_value (some x) none = false
same_value (some x) (some y) = same_text x y

unfoldable pub equals : StringSegment → StringSegment → Bool
equals s other = same_value (value s) (value other)

unfoldable pub at : StringSegment → ℤ → Result SegmentError (Option ℕ)
at s index =
    if is_neg index || not (ltb_ℤ index s.length)
    then err out_of_range
    else elim s.buffer as (λ _. Result SegmentError (Option ℕ)) [
      | none ↦ err assertion_failed
      | some text ↦ ok (char_at text (s.offset +ℤ index))
    ]

-- The test that substring and subsegment share.
unfoldable pub is_outside : StringSegment → ℤ → ℤ → Bool
is_outside s offset size = is_neg offset || (is_neg size || ltb_ℤ s.length (offset +ℤ size))

unfoldable pub substring : StringSegment → ℤ → ℤ → Result SegmentError (List ℕ)
substring s offset size = elim s.buffer as (λ _. Result SegmentError (List ℕ)) [
  | none ↦ err invalid_segment
  | some text ↦
      if is_outside s offset size
      then err invalid_segment
      else ok (js_substring text (s.offset +ℤ offset) (s.offset +ℤ offset +ℤ size))
]

unfoldable pub subsegment : StringSegment → ℤ → ℤ → Result SegmentError StringSegment
subsegment s offset size = elim s.buffer as (λ _. Result SegmentError StringSegment) [
  | none ↦ err invalid_segment
  | some text ↦
      if is_outside s offset size
      then err invalid_segment
      else from_segment (some text) (s.offset +ℤ offset) size
]

-- `text.indexOf(c)`; `none` is -1.
unfoldable pub find_char : ℕ → List ℕ → Option ℕ
find_char c [] = none
find_char c (x ∷ text) =
    let rest : Option ℕ = elim (find_char c text) [ none ↦ none | some i ↦ some (suc i) ] in
    if x == c then some 0 else rest

-- What was found, less the offset of the segment.
unfoldable pub shifted : ℤ → Option ℕ → ℤ
shifted offset none = negsuc 0
shifted offset (some i) = pos i -ℤ offset

unfoldable pub index_of_core : StringSegment → ℕ → ℤ → ℤ → Result SegmentError ℤ
index_of_core s c start count = elim s.buffer as (λ _. Result SegmentError ℤ) [
  | none ↦ ok (negsuc 0)
  | some text ↦
      if ltb_ℤ s.length start
      then err out_of_range
      else if ltb_ℤ (s.length -ℤ start) count
      then err out_of_range
      else and_then (substring s start count) (λ found. ok (shifted s.offset (find_char c found)))
]

-- `indexOf(c)`
unfoldable pub index_of : StringSegment → ℕ → Result SegmentError ℤ
index_of s c = index_of_core s c (pos 0) s.length
