-- ===== src/Routing/DfaMatcherBuilder/Tree.antt =====
-- packages/routing/src/matching/DfaMatcherBuilder.ts: what DfaBuilderWorker makes of a node for a
-- segment, without labels, and for a builder without node builder policies: the policies' visit then
-- only sorts the matches, as `addNode` does again. A reference to a node is the list of links that
-- leads to it from the root; nodes are made at such a place, and never moved.
pub mod Growth
pub mod Worker
pub mod Levels
pub mod Requests
use yohira.Common.{
  ℕ, zero, suc, ◌+◌, ◌-◌, max, Bool, true, false, List, [], ◌∷◌, ◌++◌, map, length, drop, get_elem?,
  set, ltb, ◌==◌, if◌then◌else◌, Option, none, some, ℤ, pos, negsuc, Result, ok, err, and_then,
}
use yohira.Routing.JumpTables.{eqb}
use yohira.Routing.Patterns.{
  RoutePatternPart, literal, parameter, catch_all, optional, is_catch_all,
  compute_inbound_precedence_digit,
}
use yohira.Routing.DfaMatcherBuilder as Builder
use yohira.Routing.DfaMatcherBuilder.{
  DfaNode, node, Literals, nil, Link, absent, self, child, end, BuildError, not_supported,
}

-- Of a RouteEndpoint, the path segments of its route pattern.
pub record RouteEndpoint (E : Type 0) : Type 0 where
  pub endpoint : E
  pub path_segments : List (List RoutePatternPart)

pub data Step : Type 0 where
  to_literal : (key : List ℕ) → Step
  to_parameters : Step

abbrev pub Address : Type 0
Address = List Step

-- The last element.
unfoldable pub last_segment : List (List RoutePatternPart) → Option (List RoutePatternPart)
last_segment [] = none
last_segment (s ∷ []) = some s
last_segment (s ∷ t ∷ ss) = last_segment (t ∷ ss)

-- The last segment where it is simple and a catch-all.
abbrev pub catch_all_segment : Option (List RoutePatternPart) → Option (List RoutePatternPart)
catch_all_segment none = none
catch_all_segment (some (p ∷ [])) = if is_catch_all p then some (p ∷ []) else none
catch_all_segment (some s) = none

unfoldable pub get_current_segment :
    List (List RoutePatternPart) → ℕ → Option (List RoutePatternPart)
get_current_segment segments depth =
    if ltb depth (length segments)
    then get_elem? segments depth
    else catch_all_segment (last_segment segments)

-- `none` is a part that `computeInboundPrecedenceDigit` throws for.
unfoldable pub get_precedence_digit_at_depth : List (List RoutePatternPart) → ℕ → Option ℕ
get_precedence_digit_at_depth segments depth = elim (get_current_segment segments depth) [
  | none ↦ some 0
  | some segment ↦ compute_inbound_precedence_digit segment
]

-- The loop of `hasAdditionalRequiredSegments`, over the segments from the depth on.
unfoldable pub any_required : List (List RoutePatternPart) → Bool
any_required [] = false
any_required ((parameter name catch_all encode_slashes ∷ []) ∷ segments) = any_required segments
any_required ((parameter name optional encode_slashes ∷ []) ∷ segments) = any_required segments
any_required (s ∷ segments) = true

unfoldable pub has_additional_required_segments : List (List RoutePatternPart) → ℕ → Bool
has_additional_required_segments segments depth = any_required (drop depth segments)

-- `parent.pathDepth + 1`
abbrev pub next_depth : ℤ → ℤ
next_depth (pos d) = pos (suc d)
next_depth (negsuc zero) = pos 0
next_depth (negsuc (suc n)) = negsuc n

module _ {E S Request : Type 0} where
  -- `new DfaNode()` at a depth.
  abbrev pub new_node : ℤ → DfaNode E S Request
  new_node depth = node depth [] nil absent absent none end

  -- The catch-all node, which loops, with its first match.
  abbrev pub catch_all_node : ℤ → E → DfaNode E S Request
  catch_all_node depth e = node depth (e ∷ []) nil self self none end

  unfoldable pub add_match : E → DfaNode E S Request → DfaNode E S Request
  add_match e (node depth matches ls p c builder es) =
      node depth (matches ++ (e ∷ [])) ls p c builder es

  -- `literals.keys()`
  unfoldable pub keys : Literals E S Request → List (List ℕ)
  keys nil = []
  keys (Builder.literal key n ls) = key ∷ keys ls

  -- The map's entry, made at its end if it is not there.
  unfoldable pub literal_or_new : List ℕ → ℤ → Literals E S Request → Literals E S Request
  literal_or_new k depth nil = Builder.literal k (new_node depth) nil
  literal_or_new k depth (Builder.literal key n ls) =
      if eqb key k
      then Builder.literal key n ls
      else Builder.literal key n (literal_or_new k depth ls)

  -- `parameters`, made if it is not there.
  unfoldable pub parameters_or_new : ℤ → Link E S Request → Link E S Request
  parameters_or_new depth absent = child (new_node depth)
  parameters_or_new depth self = self
  parameters_or_new depth (child n) = child n

  abbrev pub parameters_step : Link E S Request → List Step
  parameters_step absent = []
  parameters_step l = to_parameters ∷ []

  -- The catch-all node, made if it is not there, with the match added.
  unfoldable pub catch_all_match : ℤ → E → Link E S Request → Link E S Request
  catch_all_match depth e absent = child (catch_all_node depth e)
  catch_all_match depth e self = self
  catch_all_match depth e (child n) = child (add_match e n)

  -- The body of the loop of `processSegment`: a parent, and the steps to the next parents.
  unfoldable pub process_parent :
      (List ℕ → List ℕ)
      → List RoutePatternPart
      → E
      → DfaNode E S Request
      → DfaNode E S Request × List Step
  process_parent lower (literal content ∷ []) e (node d matches ls p c builder es) = (
    node d matches (literal_or_new (lower content) (next_depth d) ls) p c builder es,
    to_literal (lower content) ∷ [],
  )
  process_parent lower (parameter name catch_all encode_slashes ∷ []) e
        (node d matches ls p c builder es) =
      (
        node d matches ls p (catch_all_match (next_depth d) e c) builder es,
        map to_literal (keys ls) ++ parameters_step p,
      )
  process_parent lower (parameter name kind encode_slashes ∷ []) e
        (node d matches ls p c builder es) =
      (
        node d matches ls (parameters_or_new (next_depth d) p) c builder es,
        map to_literal (keys ls) ++ (to_parameters ∷ []),
      )
  process_parent lower segment e (node d matches ls p c builder es) =
      (node d matches ls (parameters_or_new (next_depth d) p) c builder es, to_parameters ∷ [])

  -- A change of the node behind a literal, or behind a link.
  unfoldable pub at_literal :
      {A : Type 0}
      → (DfaNode E S Request → DfaNode E S Request × List A)
      → List ℕ
      → Literals E S Request
      → Literals E S Request × List A
  at_literal f k nil = (nil, [])
  at_literal f k (Builder.literal key n ls) =
      let rest = at_literal f k ls in
      if eqb key k
      then (Builder.literal key ((f n).0) ls, (f n).1)
      else (Builder.literal key n (rest.0), rest.1)

  unfoldable pub at_link :
      {A : Type 0}
      → (DfaNode E S Request → DfaNode E S Request × List A)
      → Link E S Request
      → Link E S Request × List A
  at_link f absent = (absent, [])
  at_link f self = (self, [])
  at_link f (child n) = (child ((f n).0), (f n).1)

  -- A change of the node at an address.
  unfoldable pub at_address :
      {A : Type 0}
      → Address
      → (DfaNode E S Request → DfaNode E S Request × List A)
      → DfaNode E S Request
      → DfaNode E S Request × List A
  at_address [] f n = f n
  at_address (to_literal k ∷ a) f (node d matches ls p c builder es) =
      let r = at_literal (at_address a f) k ls in (node d matches (r.0) p c builder es, r.1)
  at_address (to_parameters ∷ a) f (node d matches ls p c builder es) =
      let r = at_link (at_address a f) p in (node d matches ls (r.0) c builder es, r.1)

  -- `processSegment`, as the tree and the next parents.
  unfoldable pub process_segment :
      (List ℕ → List ℕ)
      → List RoutePatternPart
      → E
      → List Address
      → DfaNode E S Request
      → DfaNode E S Request × List Address
  process_segment lower segment e [] root = (root, [])
  process_segment lower segment e (a ∷ parents) root =
      let r = at_address a (process_parent lower segment e) root in
      let rest = process_segment lower segment e parents (r.0) in
      (rest.0, map (λ s. a ++ (s ∷ [])) (r.1) ++ rest.1)

  unfoldable pub add_matches : E → List Address → DfaNode E S Request → DfaNode E S Request
  add_matches e [] root = root
  add_matches e (a ∷ parents) root =
      add_matches e parents (at_address {A = Unit} a (λ n. (add_match e n, [])) root).0
