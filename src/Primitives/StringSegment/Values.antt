-- ===== src/Primitives/StringSegment/Values.antt =====
-- StringSegment.ts: a segment acts as its value does.
use yohira.Common.{
  ℕ, zero, suc, min, max, ◌+◌, ◌-◌, ◌≤◌, ◌<◌, ◌≡◌, inl, inr, refl, sym, ap, ◌∙◌, false, not, List,
  [], ◌∷◌, length, get_elem?, take, drop, slice, slice-slice, some, ok, err, and_then, ltb, leb,
  if◌then◌else◌, Bool-cases, arith, pos, ltb_ℤ, ◌-ℤ◌, pos-+ℤ,
}
use yohira.Primitives.StringSegment.{
  invalid_segment, out_of_range, StringSegment, js_substring, char_at, from_segment, value,
  value_of, at, is_outside, substring, subsegment,
}

-- The segment of `size` characters of the text from `start` on.
abbrev pub segment_of : List ℕ → ℕ → ℕ → StringSegment
segment_of text start size = record { buffer = some text; offset = pos start; length = pos size }

js_substring-slice :
    (text : List ℕ) (a b : ℕ)
    → a ≤ b
    → b ≤ length text
    → js_substring text (pos a) (pos b) ≡ slice text a b
unfolding js_substring
js_substring-slice text a b h k =
    let start : min a (length text) ≡ a = omega arith in
    let end : min b (length text) ≡ b = omega arith in
    let first : min a b ≡ a = omega arith in
    let last : max a b ≡ b = omega arith in rw (start, end, first, last) refl

get_elem?-skip :
    (text : List ℕ) (start i : ℕ) → get_elem? (drop start text) i ≡ get_elem? text (start + i)
get_elem?-skip text zero i = let same : 0 + i ≡ i = omega arith in ap (get_elem? text) (sym same)
get_elem?-skip [] (suc start) i = refl
get_elem?-skip (c ∷ text) (suc start) i =
    let same : suc (start + i) ≡ suc start + i = omega arith in
    get_elem?-skip text start i ∙ ap (get_elem? (c ∷ text)) same

get_elem?-take : (text : List ℕ) (n i : ℕ) → i < n → get_elem? (take n text) i ≡ get_elem? text i
get_elem?-take [] zero i h = refl
get_elem?-take [] (suc n) i h = refl
get_elem?-take (c ∷ text) zero i h = absurd (omega (arith, h))
get_elem?-take (c ∷ text) (suc n) zero h = refl
get_elem?-take (c ∷ text) (suc n) (suc i) h = get_elem?-take text n i (omega (arith, h))

module _ (text : List ℕ) (start size : ℕ) (w : start + size ≤ length text) where
  pub value-segment_of : value (segment_of text start size) ≡ some (slice text start (start + size))
  unfolding value value_of
  value-segment_of =
      rw (pos-+ℤ start size)
        (ap some (js_substring-slice text start (start + size) (omega arith) w))

  get_elem?-slice :
      (i : ℕ)
      → i < size
      → get_elem? (slice text start (start + size)) i ≡ get_elem? text (start + i)
  get_elem?-slice i h =
      let long : start + size - start ≡ size = omega arith in
      rw long (get_elem?-take (drop start text) size i h ∙ get_elem?-skip text start i)

  at-segment_of :
      (i : ℕ)
      → at (segment_of text start size) (pos i) ≡ (
          if ltb i size
          then ok (get_elem? (slice text start (start + size)) i)
          else err out_of_range)
  unfolding at char_at
  at-segment_of i =
      let left : i + 0 ≡ i = omega arith in
      let right : size + 0 ≡ size = omega arith in
      elim (Bool-cases (ltb i size)) [
        | inl p ↦
            let found = get_elem?-slice i (ground (arith, p)) in
            rw (left, right, p, pos-+ℤ start i, found) refl
        | inr p ↦ rw (left, right, p) refl
      ]

  inside-segment_of :
      (i k : ℕ) → is_outside (segment_of text start size) (pos i) (pos k) ≡ not (leb (i + k) size)
  unfolding is_outside
  inside-segment_of i k = rw (pos-+ℤ i k) (ground arith)

  part_of :
      (i k : ℕ)
      → i + k ≤ size
      → slice text (start + i) (start + i + k) ≡ slice (slice text start (start + size)) i (i + k)
  part_of i k h =
      let back : start + i - start ≡ i = omega arith in
      sym (
        slice-slice text start (start + size) (start + i) k (omega arith) (inl (omega (arith, h)))
          w)
      ∙ ap (λ n. slice (slice text start (start + size)) n (n + k)) back

  pub substring-segment_of :
      (i k : ℕ)
      → substring (segment_of text start size) (pos i) (pos k) ≡ (
          if leb (i + k) size
          then ok (slice (slice text start (start + size)) i (i + k))
          else err invalid_segment)
  unfolding substring
  substring-segment_of i k = elim (Bool-cases (leb (i + k) size)) [
    | inl p ↦
        let h : i + k ≤ size = ground (arith, p) in
        let found =
          js_substring-slice text (start + i) (start + i + k) (omega arith) (omega (arith, h, w)) in
        rw (inside-segment_of i k, p, pos-+ℤ start i, pos-+ℤ (start + i) k, found, part_of i k h)
          refl
    | inr p ↦ rw (inside-segment_of i k, p) refl
  ]

  subsegment-segment_of :
      (i k : ℕ)
      → subsegment (segment_of text start size) (pos i) (pos k)
        ≡ (if leb (i + k) size then ok (segment_of text (start + i) k) else err invalid_segment)
  unfolding subsegment from_segment ◌-ℤ◌
  subsegment-segment_of i k = elim (Bool-cases (leb (i + k) size)) [
    | inl p ↦
        let h : i + k ≤ size = ground (arith, p) in
        let low : ltb_ℤ (pos (length text)) (pos (start + i)) ≡ false = ground (arith, h, w) in
        let fits : ltb_ℤ (pos (length text) -ℤ pos (start + i)) (pos k) ≡ false =
          ground (arith, h, w) in
        rw (inside-segment_of i k, p, pos-+ℤ start i, low, fits) refl
    | inr p ↦ rw (inside-segment_of i k, p) refl
  ]

-- For a segment within its text: at, substring and subsegment find in the segment what stands at the
-- same places of its value, and throw past its end.
pub segment_of-acts :
    (text : List ℕ) (start size i k : ℕ)
    → start + size ≤ length text
    → (at (segment_of text start size) (pos i) ≡ (
        if ltb i size
        then ok (get_elem? (slice text start (start + size)) i)
        else err out_of_range))
      × (substring (segment_of text start size) (pos i) (pos k) ≡ (
          if leb (i + k) size
          then ok (slice (slice text start (start + size)) i (i + k))
          else err invalid_segment))
      × (and_then (subsegment (segment_of text start size) (pos i) (pos k)) (λ s. ok (value s)) ≡ (
          if leb (i + k) size
          then ok (some (slice (slice text start (start + size)) i (i + k)))
          else err invalid_segment))
segment_of-acts text start size i k w = (
  at-segment_of text start size w i,
  substring-segment_of text start size w i k,
  elim (Bool-cases (leb (i + k) size)) [
    | inl p ↦
        let h : i + k ≤ size = ground (arith, p) in
        let found =
          value-segment_of text (start + i) k (omega (arith, h, w))
          ∙ ap some (part_of text start size w i k h) in
        rw (subsegment-segment_of text start size w i k, p, found) refl
    | inr p ↦ rw (subsegment-segment_of text start size w i k, p) refl
  ],
)
