-- ===== src/Routing/Patterns/Parser/Checks.antt =====
-- RoutePatternParser.ts: isSegmentValid, and the precedence of what it leaves.
use yohira.Common.{refl, false, ◌&&◌, List, [], ◌∷◌, ◌++◌, ltb, length, same_text, codes, All}
use yohira.Routing.Patterns.{
  RoutePatternPart, create_separator_part, literal, parameter, separator, is_optional,
}
use yohira.Routing.Patterns.Precedence.{
  HasDigit, literal-HasDigit, parameter-HasDigit, parts-HasDigit, cons-HasDigit,
}
use yohira.Routing.Patterns.Parser.{
  any_catch_all, separate, separate_optional, no_consecutive, is_segment_valid,
}
use yohira.Routing.Patterns.Parser.Progress.{Safe, Safe-then, Safe-if, IsRead, All-push}

-- The parts that a segment is read as: one at least.
abbrev pub AreRead : List RoutePatternPart → Type 0
AreRead [] = ⊥
AreRead (p ∷ ps) = All IsRead (p ∷ ps)

pub AreRead-push :
    (parts : List RoutePatternPart) (part : RoutePatternPart)
    → All IsRead parts
    → IsRead part
    → AreRead (parts ++ part ∷ [])
AreRead-push [] part c d = (d, tt)
AreRead-push (p ∷ ps) part c d = (c.0, All-push IsRead ps part c.1 d)

abbrev AnyPart : RoutePatternPart → Type 0
AnyPart part = Unit {0}

separate-Safe : (part : RoutePatternPart) → IsRead part → Safe AnyPart (separate part)
unfolding separate create_separator_part same_text
separate-Safe (parameter name kind encode_slashes) h = refl
separate-Safe (literal []) h = refl
separate-Safe (literal (c ∷ cs)) h =
    Safe-if AnyPart (same_text (c ∷ cs) (codes ".")) _ _ (λ p. tt) (λ p. refl)
separate-Safe (separator content) h = absurd h

-- A separator is only made ahead of a parameter: a part alone stays as it is read.
separate_optional-Safe :
    (parts : List RoutePatternPart) → AreRead parts → Safe HasDigit (separate_optional parts)
unfolding separate_optional
separate_optional-Safe [] h = absurd h
separate_optional-Safe (literal content ∷ []) h = literal-HasDigit content
separate_optional-Safe (parameter name kind encode_slashes ∷ []) h =
    parameter-HasDigit name kind encode_slashes
separate_optional-Safe (separator content ∷ []) h = absurd h.0
separate_optional-Safe (p ∷ q ∷ []) h =
    Safe-if HasDigit (is_optional p) _ _ (λ a. refl)
      λ a.
        Safe-if HasDigit (is_optional q) _ _
          (λ b. Safe-then AnyPart HasDigit _ _ (separate-Safe p h.0) (λ s c. parts-HasDigit s q []))
          (λ b. parts-HasDigit p q [])
separate_optional-Safe (p ∷ q ∷ r ∷ ps) h =
    Safe-if HasDigit (is_optional p) _ _ (λ a. refl)
      λ a.
        Safe-then HasDigit HasDigit _ _ (separate_optional-Safe (q ∷ r ∷ ps) h.1)
          (λ qs c. cons-HasDigit p qs c)

pub is_segment_valid-Safe :
    (parts : List RoutePatternPart) → AreRead parts → Safe HasDigit (is_segment_valid parts)
unfolding is_segment_valid
is_segment_valid-Safe parts h =
    Safe-if HasDigit (any_catch_all parts && ltb 1 (length parts)) _ _ (λ p. refl)
      λ p.
        Safe-then HasDigit HasDigit _ _ (separate_optional-Safe parts h)
          λ separated c. Safe-if HasDigit (no_consecutive false separated) _ _ (λ q. c) (λ q. refl)
