-- ===== src/Routing/Patterns/Tests.antt =====
-- Runs of the route pattern parser.
use yohira.Common.{ℕ, ◌≡◌, ◌⊎◌, refl, true, false, List, [], ◌∷◌, map, Result, ok, err, codes}
use yohira.Common
use yohira.Routing.Tests.{lower}
use yohira.Routing.Patterns
use yohira.Routing.Patterns.{
  RouteError, RoutePatternPart, RoutePattern, Decimal, compute_inbound, literal, parameter,
  separator, standard, optional, catch_all, pattern_text, all_parameters,
  compute_inbound_precedence_digit, consecutive_separators, catch_all_not_last, optional_preceded,
  repeated_parameter_name,
}
use yohira.Routing.Patterns.Parser
use yohira.Routing.Patterns.Parser.{parse_route_pattern}
use yohira.Routing.Patterns.Parser.Parameters.{two_stars}
use yohira.Routing.Patterns.Parser.Forms.{
  IsPattern, next_segment, last_segment, mixed, alone, end_literal, then_separator, end_optional,
  text, name, IsName,
}
use yohira.Routing.Patterns.Parser.Progress.{is_internal}
use yohira.Routing.Patterns.Parser.Ends.{parse_route_pattern-ends}
use yohira.Routing.Patterns.Parser.RoundTrip.{parse_route_pattern-pattern_text}

-- `files/{a}.{b?}/{**c}`
abbrev segments : List (List RoutePatternPart)
segments =
    (literal (codes "files") ∷ [])
    ∷ (parameter (codes "a") standard true
        ∷ separator (codes ".")
        ∷ parameter (codes "b") optional true
        ∷ [])
    ∷ (parameter (codes "c") catch_all false ∷ [])
    ∷ []

-- 1.25
segments_precedence : compute_inbound segments ≡ ok (record { numerator = 125; places = 2 })
unfolding compute_inbound Patterns.add_digits Patterns.compute_inbound_precedence_digit
segments_precedence = refl

-- A separator alone has no digit.
separator_precedence :
    compute_inbound ((separator (codes ".") ∷ []) ∷ []) ≡ err Patterns.not_supported
unfolding compute_inbound Patterns.add_digits Patterns.compute_inbound_precedence_digit
separator_precedence = refl

segments_text : pattern_text segments ≡ codes "files/{a}.{b?}/{**c}"
unfolding pattern_text Patterns.segment_text Patterns.part_text
segments_text = refl

segments-IsPattern : IsPattern segments
unfolding Parser.any_catch_all
segments-IsPattern =
    next_segment _ _ _
      (mixed _ (
        end_literal _ (
          text b'f' (codes "iles") (
            (refl, refl, refl, refl),
            (
              (refl, refl, refl, refl),
              (
                (refl, refl, refl, refl),
                ((refl, refl, refl, refl), ((refl, refl, refl, refl), tt)),
              ),
            ),
          ))))
      refl
      (next_segment _ _ _ (mixed _ (then_separator _ _ a (end_optional _ b))) refl
        (last_segment _ (alone _ _ _ c two_stars)))
  where
    a : IsName (codes "a")
    a = name b'a' [] (((refl, refl, refl), (refl, refl), (refl, refl)), tt)

    b : IsName (codes "b")
    b = name b'b' [] (((refl, refl, refl), (refl, refl), (refl, refl)), tt)

    c : IsName (codes "c")
    c = name b'c' [] (((refl, refl, refl), (refl, refl), (refl, refl)), tt)

parse_route_pattern-pattern_text_example :
    (precedence : Decimal) × (compute_inbound segments ≡ ok precedence)
    × (parse_route_pattern lower (b'/' ∷ pattern_text segments)
        ≡ ok (record {
          inbound_precedence = precedence;
          raw_text = b'/' ∷ pattern_text segments;
          parameters = all_parameters segments;
          path_segments = segments;
        }))
unfolding Parser.member Common.same_text
parse_route_pattern-pattern_text_example =
    parse_route_pattern-pattern_text lower segments segments-IsPattern
      (tt, (((refl, (refl, tt))), ((refl, tt), tt)))

-- A brace that is not closed.
parse_route_pattern-ends_example :
    ((p : RoutePattern) × (parse_route_pattern lower (codes "/a/{b") ≡ ok p))
    ⊎ ((e : RouteError) × (parse_route_pattern lower (codes "/a/{b") ≡ err e)
        × (is_internal e ≡ false))
parse_route_pattern-ends_example = parse_route_pattern-ends lower (codes "/a/{b")
