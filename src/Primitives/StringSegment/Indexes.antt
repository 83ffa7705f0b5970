-- ===== src/Primitives/StringSegment/Indexes.antt =====
-- StringSegment.ts: what indexOf returns on a segment.
use yohira.Common.{
  ℕ, ◌+◌, ◌≤◌, ◌≡◌, ◌↔◌, refl, sym, ap, ◌∙◌, true, false, List, length, leb, slice, some, Result,
  ok, err, arith, pos, ℤ, ltb_ℤ, ◌-ℤ◌, slice_whole, length-slice,
}
use yohira.Primitives.StringSegment.{SegmentError, find_char, shifted, index_of_core, index_of}
use yohira.Primitives.StringSegment.Values.{segment_of, substring-segment_of}

value_of_ok : ℤ → Result SegmentError ℤ → ℤ
value_of_ok d (ok n) = n
value_of_ok d (err e) = d

module _ (text : List ℕ) (start size : ℕ) (w : start + size ≤ length text) where
  index_of-segment_of :
      (c : ℕ)
      → index_of (segment_of text start size) c
        ≡ ok (shifted (pos start) (find_char c (slice text start (start + size))))
  unfolding index_of index_of_core ◌-ℤ◌
  index_of-segment_of c =
      let low : ltb_ℤ (pos size) (pos 0) ≡ false = ground arith in
      let fits : ltb_ℤ (pos size -ℤ pos 0) (pos size) ≡ false = ground arith in
      let inside : leb (0 + size) size ≡ true = ground arith in
      let whole : slice (slice text start (start + size)) 0 (0 + size)
          ≡ slice text start (start + size) =
        let v = slice text start (start + size) in
        let long : size ≡ length v = omega (arith, length-slice text start (start + size), w) in
        ap (λ n. slice v 0 (0 + n)) long ∙ slice_whole v in
      rw (low, fits, substring-segment_of text start size w 0 size, inside, whole) refl

moved_back : (start j : ℕ) → pos j -ℤ pos start ≡ pos j → start ≡ 0
unfolding ◌-ℤ◌
moved_back start j e = ground (arith, e)

not_moved : (start j : ℕ) → start ≡ 0 → pos j -ℤ pos start ≡ pos j
unfolding ◌-ℤ◌
not_moved start j e = ground (arith, e)

-- For a segment within its text in which the character stands first at index j: indexOf returns j
-- exactly where the segment begins at the start of the text. The offset is taken off the index.
pub index_of-found :
    (text : List ℕ) (start size c j : ℕ)
    → start + size ≤ length text
    → find_char c (slice text start (start + size)) ≡ some j
    → (index_of (segment_of text start size) c ≡ ok (pos j)) ↔ (start ≡ 0)
unfolding shifted ◌-ℤ◌ value_of_ok
index_of-found text start size c j w h =
    let found = index_of-segment_of text start size w c ∙ ap (λ o. ok (shifted (pos start) o)) h in
    (
      λ e. moved_back start j (ap (value_of_ok (pos 0)) (sym found ∙ e)),
      λ e. found ∙ ap ok (not_moved start j e),
    )
