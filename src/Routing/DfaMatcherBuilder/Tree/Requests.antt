-- ===== src/Routing/DfaMatcherBuilder/Tree/Requests.antt =====
-- DfaMatcherBuilder from its endpoints to the answer of DfaMatcher.match.
use yohira.Common.{ℕ, ◌≡◌, refl, true, false, List, [], ◌∷◌, map, Option, some, ok, All, arith}
use yohira.Routing.Patterns.{RoutePatternPart, literal, parameter, separator}
use yohira.Routing.DfaMatcher.{DfaState, select_default, match_request}
use yohira.Routing.DfaMatcherBuilder.{DfaMatcherBuilder, DfaNode, has_complex_segment, build}
use yohira.Routing.DfaMatcherBuilder.Layout.{IsRoutable}
use yohira.Routing.DfaMatcherBuilder.Matching.{Answers, match_request-build}
use yohira.Routing.DfaMatcherBuilder.Tree.{RouteEndpoint}
use yohira.Routing.DfaMatcherBuilder.Tree.Worker.{build_dfa_tree}
use yohira.Routing.DfaMatcherBuilder.Tree.Growth.{IsGrown-IsBuildable}
use yohira.Routing.DfaMatcherBuilder.Tree.Levels.{
  is_plain, IsPlain, IsPlainEndpoint, build_dfa_tree-IsGrown,
}

plain_is_simple :
    (ss : List (List RoutePatternPart)) → All IsPlain ss → has_complex_segment ss ≡ false
unfolding has_complex_segment is_plain
plain_is_simple [] h = refl
plain_is_simple ((literal x ∷ []) ∷ ss) h = plain_is_simple ss h.1
plain_is_simple ((parameter x y z ∷ []) ∷ ss) h = plain_is_simple ss h.1
plain_is_simple ((separator x ∷ []) ∷ ss) h = absurd (ground (arith, h.0))
plain_is_simple ([] ∷ ss) h = absurd (ground (arith, h.0))
plain_is_simple ((literal x ∷ q ∷ s) ∷ ss) h = absurd (ground (arith, h.0))
plain_is_simple ((parameter x y z ∷ q ∷ s) ∷ ss) h = absurd (ground (arith, h.0))
plain_is_simple ((separator x ∷ q ∷ s) ∷ ss) h = absurd (ground (arith, h.0))

module _ {E : Type 0} (this : DfaMatcherBuilder E) where
  -- The path segments are those of the endpoint's route, each one literal or one parameter.
  abbrev pub IsRouteOf : RouteEndpoint E → Type 0
  IsRouteOf e = (this.path_segments e.endpoint ≡ some e.path_segments) × All IsPlain e.path_segments

  routes_plain :
      (es : List (RouteEndpoint E))
      → All IsRouteOf es
      → All (IsPlainEndpoint (IsRoutable this.path_segments)) es
  routes_plain [] h = tt
  routes_plain (e ∷ es) h = (
    ((e.path_segments, h.0.0, plain_is_simple e.path_segments h.0.1), h.0.1),
    routes_plain es h.1,
  )

-- From the endpoints to the answer: if every endpoint is a route whose segments are each one
-- literal or one parameter, and there are neither node builder policies nor endpoint selector
-- policies, then buildDfaTree makes a tree, build makes from it an array of states without a
-- hole, and match with the default selector on it, for every request and path, sets an endpoint
-- or none, or reports an ambiguity; it meets no missing state and no code that is not
-- implemented, and its loops end.
pub match_request-build_dfa_tree :
    {E Request : Type 0} (S : Type 0) (this : DfaMatcherBuilder E)
    (endpoints : List (RouteEndpoint E)) (request : Request) (path : List ℕ) (context : Option E)
    → All (IsRouteOf this) endpoints
    → this.endpoint_selector_policies ≡ []
    → (root : DfaNode E S Request) × (states : List (DfaState E Request)) × (count : ℕ)
      × (build_dfa_tree this.lower endpoints ≡ ok root)
      × (build this root ≡ ok (map some states, count))
      × Answers (match_request this.lower true select_default states count request path context)
match_request-build_dfa_tree {E} {Request} S this endpoints request path context routes no_policy =
    let (root, made, grown) =
      build_dfa_tree-IsGrown S Request (IsRoutable this.path_segments) this.lower endpoints
        (routes_plain this endpoints routes) in
    let (states, count, built, answers) =
      match_request-build this root request path context
        (IsGrown-IsBuildable this.path_segments root grown) no_policy in
    (root, states, count, made, built, answers)
