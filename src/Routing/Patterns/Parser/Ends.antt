-- ===== src/Routing/Patterns/Parser/Ends.antt =====
-- RoutePatternParser.ts: parseRoutePattern comes to an end, and none of its internal checks fails.
use yohira.Common.{
  ℕ, zero, suc, ◌+◌, ◌-◌, ◌<◌, ◌≡◌, ◌⊎◌, refl, true, false, not, ◌&&◌, ◌||◌, List, [], ◌∷◌, ◌++◌,
  ltb, leb, ◌==◌, length, slice, Result, ok, err, and_then, arith, inl, inr, same_text, codes, All,
}
use yohira.Routing.Patterns.{
  RouteError, RoutePatternPart, RoutePattern, starts_with, last_is, parse_route_parameter,
  create_pattern,
}
use yohira.Routing.Patterns.Parser.{
  trim_prefix, current_is, decode, parse_literal, has_any, member, invalid_parameter_name_chars,
  is_valid_parameter_name, parse_parameter, parse_part, parse_parts, parse_segment, parse_segments,
  is_all_valid, parse_route_pattern,
}
use yohira.Routing.Patterns.Parser.Progress.{
  is_internal, Safe, Safe-then, Safe-if, IsRead, All-push, Behind, BehindPart, Starts,
  parameter_end-Safe, parse_literal-Safe,
}
use yohira.Routing.Patterns.Parser.Checks.{AreRead, AreRead-push, is_segment_valid-Safe}
use yohira.Routing.Patterns.Precedence.{HasDigit, create_pattern-HasDigit}

parse_route_parameter-IsRead : (text : List ℕ) → IsRead (parse_route_parameter text)
unfolding parse_route_parameter
parse_route_parameter-IsRead [] = tt
parse_route_parameter-IsRead (c ∷ cs) = tt

abbrev AnyNames : List (List ℕ) → Type 0
AnyNames names = Unit {0}

module _ (template : List ℕ) (lower : List ℕ → List ℕ) where
  abbrev BehindTurn : ℕ → RoutePatternPart × ℕ × List (List ℕ) → Type 0
  BehindTurn index r = Behind template index r.1 × IsRead r.0

  -- What a segment leaves: its end is that of the template, or a separator.
  abbrev BehindSegment : ℕ → List RoutePatternPart × ℕ × List (List ℕ) → Type 0
  BehindSegment index r =
      Behind template index r.1
      × (((current_is template r.1 b'/' || leb (length template) r.1) ≡ true) × AreRead r.0)

  is_valid_parameter_name-Safe :
      (names : List (List ℕ)) (name : List ℕ)
      → Safe AnyNames (is_valid_parameter_name lower names name)
  unfolding is_valid_parameter_name
  is_valid_parameter_name-Safe names name =
      Safe-if AnyNames ((length name == 0) || has_any name invalid_parameter_name_chars) _ _
        (λ p. refl) λ p. Safe-if AnyNames (member names (lower name)) _ _ (λ q. refl) (λ q. tt)

  parse_parameter-Safe :
      (index : ℕ) (names : List (List ℕ))
      → index + 1 < length template
      → current_is template index b'{' ≡ true
      → Safe (BehindTurn index) (parse_parameter lower template index names)
  unfolding parse_parameter
  parse_parameter-Safe index names lt brace =
      Safe-if (BehindTurn index) (not (current_is template index b'{')) _ _ (λ p. cc)
        λ p.
          Safe-then (Behind template (index + 1)) (BehindTurn index) _ _
            (parameter_end-Safe template (suc (length template)) (index + 1) lt (omega arith))
            λ j (q, le).
              let text = slice template index j in
              let decoded = decode (slice text 1 (length text - 1)) in
              Safe-if (BehindTurn index) (same_text text (codes "{}")) _ _ (λ r. refl)
                λ r.
                  Safe-if (BehindTurn index)
                    (starts_with decoded (codes "*") && last_is b'?' decoded) _ _ (λ s. refl)
                    λ s.
                      Safe-then AnyNames (BehindTurn index) _ _
                        (is_valid_parameter_name-Safe names _)
                        λ _ _. ((omega (arith, q), le), parse_route_parameter-IsRead _)

  parse_part-Safe :
      (index : ℕ) (names : List (List ℕ))
      → Starts template index
      → Safe (BehindTurn index) (parse_part lower template index names)
  unfolding parse_part
  parse_part-Safe index names starts =
      Safe-if (BehindTurn index) (current_is template index b'{') _ _
        (λ p.
          Safe-if (BehindTurn index) (not (ltb (index + 1) (length template))) _ _ (λ q. refl)
            λ q.
              Safe-if (BehindTurn index) (current_is template (index + 1) b'{') _ _
                (λ r. as_literal (inr r))
                (λ r. parse_parameter-Safe index names (ground (arith, q)) p))
        (λ p. as_literal (inl p))
    where
      as_literal :
          (current_is template index b'{' ≡ false) ⊎ (current_is template (index + 1) b'{' ≡ true)
          → Safe
              (BehindTurn index)
              (and_then (parse_literal template index) (λ r. ok (r.0, r.1, names)))
      as_literal start =
          Safe-then (BehindPart template index) (BehindTurn index) _ _
            (parse_literal-Safe template index starts start) (λ r b. b)

  parse_parts-Safe :
      (f index : ℕ) (names : List (List ℕ)) (parts : List RoutePatternPart)
      → Starts template index
      → length template < f + index
      → All IsRead parts
      → Safe (BehindSegment index) (parse_parts lower f template index names parts)
  unfolding parse_parts
  parse_parts-Safe zero index names parts starts h c = absurd (omega (arith, starts.0))
  parse_parts-Safe (suc f) index names parts starts h c =
      Safe-then (BehindTurn index) (BehindSegment index) _ _ (parse_part-Safe index names starts)
        λ (part, j, names') ((lt, le), content).
          Safe-if (BehindSegment index) (current_is template j b'/' || leb (length template) j) _ _
            (λ p. ((lt, le), (p, AreRead-push parts part c content)))
            λ p.
              Safe-if (BehindSegment index) (leb j index) _ _ (λ q. absurd (ground (arith, q, lt)))
                λ q. weaken j lt _ (
                  parse_parts-Safe f j names' (parts ++ part ∷ [])
                    (ground (arith, p), ground (arith, p)) (omega (arith, h, lt))
                    (All-push IsRead parts part c content))
    where
      weaken :
          (j : ℕ)
          → index < j
          → (m : Result RouteError (List RoutePatternPart × ℕ × List (List ℕ)))
          → Safe (BehindSegment j) m
          → Safe (BehindSegment index) m
      weaken j lt (ok r) s = ((omega (arith, lt, s.0.0), s.0.1), s.1)
      weaken j lt (err e) s = s

abbrev HaveDigits : List (List RoutePatternPart) → Type 0
HaveDigits segments = All HasDigit segments

module _ (template : List ℕ) (lower : List ℕ → List ℕ) where
  -- A segment's end, and its parts once they are checked.
  abbrev SegmentEnd : ℕ → List RoutePatternPart × ℕ × List (List ℕ) → Type 0
  SegmentEnd index r =
      Behind template index r.1
      × (((current_is template r.1 b'/' || leb (length template) r.1) ≡ true) × HasDigit r.0)

  parse_segment-Safe :
      (index : ℕ) (names : List (List ℕ))
      → Starts template index
      → Safe (SegmentEnd index) (parse_segment lower template index names)
  unfolding parse_segment
  parse_segment-Safe index names starts =
      Safe-then (BehindSegment template lower index) (SegmentEnd index) _ _
        (parse_parts-Safe template lower (suc (length template)) index names [] starts (omega arith)
          tt)
        λ (parts, j, names') (b, (stops, content)).
          Safe-then HasDigit (SegmentEnd index) _ _ (is_segment_valid-Safe parts content)
            (λ _ digit. (b, (stops, digit)))

  parse_segments-Safe :
      (f index : ℕ) (names : List (List ℕ)) (segments : List (List RoutePatternPart))
      → 0 < f
      → length template < f + index
      → All HasDigit segments
      → Safe HaveDigits (parse_segments lower f template index names segments)
  unfolding parse_segments
  parse_segments-Safe zero index names segments pos h digits = elim pos [ ]
  parse_segments-Safe (suc f) index names segments pos h digits =
      Safe-if HaveDigits (not (ltb index (length template))) _ _ (λ p. digits)
        λ p.
          Safe-if HaveDigits (current_is template index b'/') _ _ (λ q. refl)
            λ q.
              Safe-then (SegmentEnd index) HaveDigits _ _
                (parse_segment-Safe index names (ground (arith, p), q))
                λ (parts, j, names') ((lt, le), (stops, digit)).
                  Safe-if HaveDigits (ltb j (length template) && not (current_is template j b'/')) _
                    _ (λ r. absurd (ground (arith, r, stops)))
                    λ r.
                      Safe-if HaveDigits (leb j index) _ _ (λ u. absurd (ground (arith, u, lt)))
                        (λ u.
                          parse_segments-Safe f (j + 1) names' (segments ++ parts ∷ [])
                            (omega (arith, h, lt, le)) (omega (arith, h, lt))
                            (All-push HasDigit segments parts digits digit))

abbrev AnyTemplate : List ℕ → Type 0
AnyTemplate template = Unit {0}

abbrev AnyPattern : RoutePattern → Type 0
AnyPattern pattern_of = Unit {0}

trim_prefix-Safe : (pattern_text : List ℕ) → Safe AnyTemplate (trim_prefix pattern_text)
unfolding trim_prefix
trim_prefix-Safe [] = tt
trim_prefix-Safe (c ∷ []) =
    Safe-if AnyTemplate (c == b'/') _ _ (λ p. tt)
      λ p. Safe-if AnyTemplate (c == b'~') _ _ (λ q. refl) (λ q. tt)
trim_prefix-Safe (c ∷ d ∷ cs) =
    Safe-if AnyTemplate ((c == b'~') && (d == b'/')) _ _ (λ p. tt)
      λ p.
        Safe-if AnyTemplate (c == b'/') _ _ (λ q. tt)
          λ q. Safe-if AnyTemplate (c == b'~') _ _ (λ r. refl) (λ r. tt)

create_pattern-Safe :
    (raw_text : List ℕ) (segments : List (List RoutePatternPart))
    → All HasDigit segments
    → Safe AnyPattern (create_pattern raw_text segments)
create_pattern-Safe raw_text segments digits =
    let (precedence, summed, made) = create_pattern-HasDigit raw_text segments digits in rw made tt

parse_route_pattern-Safe :
    (lower : List ℕ → List ℕ) (pattern_text : List ℕ)
    → Safe AnyPattern (parse_route_pattern lower pattern_text)
unfolding parse_route_pattern
parse_route_pattern-Safe lower pattern_text =
    Safe-then AnyTemplate AnyPattern _ _ (trim_prefix-Safe pattern_text) λ template _.
      Safe-then HaveDigits AnyPattern _ _
        (parse_segments-Safe template lower (suc (length template)) 0 [] [] (omega arith)
          (omega arith) tt)
        λ segments digits.
          Safe-if AnyPattern (is_all_valid segments) _ _
            (λ p. create_pattern-Safe pattern_text segments digits) (λ p. refl)

-- For every pattern: parseRoutePattern returns a pattern, or throws an error that describes the
-- pattern. It never throws for a loop that does not move on, for an assertion, for an empty part or
-- for a segment without a precedence, and the fuel of its loops does not run out.
pub parse_route_pattern-ends :
    (lower : List ℕ → List ℕ) (pattern_text : List ℕ)
    → ((p : RoutePattern) × (parse_route_pattern lower pattern_text ≡ ok p))
      ⊎ ((e : RouteError) × (parse_route_pattern lower pattern_text ≡ err e)
          × (is_internal e ≡ false))
parse_route_pattern-ends lower pattern_text =
    outcome (parse_route_pattern lower pattern_text) refl
      (parse_route_pattern-Safe lower pattern_text)
  where
    outcome :
        (m : Result RouteError RoutePattern)
        → parse_route_pattern lower pattern_text ≡ m
        → Safe AnyPattern m
        → ((p : RoutePattern) × (parse_route_pattern lower pattern_text ≡ ok p))
          ⊎ ((e : RouteError) × (parse_route_pattern lower pattern_text ≡ err e)
              × (is_internal e ≡ false))
    outcome (ok p) h s = inl (p, h)
    outcome (err e) h s = inr (e, h, s)
