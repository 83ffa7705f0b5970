-- ===== src/Primitives/Tests.antt =====
-- Runs of segments.
use yohira.Common.{
  ℕ, ◌≡◌, ◌↔◌, refl, get_elem?, slice, some, ok, err, and_then, ltb, leb, if◌then◌else◌, arith, pos,
  codes,
}
use yohira.Primitives.StringSegment
use yohira.Primitives.StringSegment.{
  invalid_segment, out_of_range, value, at, substring, subsegment, index_of,
}
use yohira.Primitives.StringSegment.Values.{segment_of, segment_of-acts}
use yohira.Primitives.StringSegment.Indexes.{index_of-found}

-- `bcd` in `abcde`
segment_of-acts_example :
    (at (segment_of (codes "abcde") 1 3) (pos 2)
      ≡ (if ltb 2 3 then ok (get_elem? (slice (codes "abcde") 1 4) 2) else err out_of_range))
    × (substring (segment_of (codes "abcde") 1 3) (pos 2) (pos 2)
        ≡ (if leb 4 3 then ok (slice (slice (codes "abcde") 1 4) 2 4) else err invalid_segment))
    × (and_then (subsegment (segment_of (codes "abcde") 1 3) (pos 2) (pos 2)) (λ s. ok (value s))
        ≡ (if leb 4 3
            then ok (some (slice (slice (codes "abcde") 1 4) 2 4))
            else err invalid_segment))
segment_of-acts_example = segment_of-acts (codes "abcde") 1 3 2 2 (ground arith)

index_of-found_example :
    (index_of (segment_of (codes "abcde") 1 3) b'd' ≡ ok (pos 2)) ↔ (◌≡◌ {A = ℕ} 1 0)
unfolding StringSegment.find_char
index_of-found_example = index_of-found (codes "abcde") 1 3 b'd' 2 (ground arith) refl
