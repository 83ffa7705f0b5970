-- ===== src/Routing/DfaMatcherBuilder/Tree/Worker.antt =====
-- packages/routing/src/matching/DfaMatcherBuilder.ts: DfaBuilderWorker and buildDfaTree, the loops over
-- the work of a level and over the levels.
use yohira.Common.{
  ℕ, zero, suc, max, List, [], ◌∷◌, length, ◌==◌, if◌then◌else◌, Option, none, some, pos, Result,
  ok, err, and_then,
}
use yohira.Routing.Patterns.{RoutePatternPart}
use yohira.Routing.DfaMatcherBuilder.{DfaNode, BuildError, not_supported}
use yohira.Routing.DfaMatcherBuilder.Tree.{
  RouteEndpoint, Address, get_current_segment, get_precedence_digit_at_depth,
  has_additional_required_segments, new_node, process_segment, add_matches,
}

-- DfaBuilderWorkerWorkItem
pub record WorkItem (E : Type 0) : Type 0 where
  pub endpoint : RouteEndpoint E
  pub precedence_digit : ℕ
  pub parents : List Address

-- `nextWork.set(i, item)`, or `add` at the end.
unfoldable pub put {ℓ} : {A : Type ℓ} → ℕ → A → List A → List A
put i x [] = x ∷ []
put zero x (y ∷ ys) = x ∷ ys
put (suc i) x (y ∷ ys) = y ∷ put i x ys

abbrev pub next_item : {E : Type 0} → WorkItem E → ℕ → List Address → WorkItem E
next_item item digit parents = record {
  endpoint = item.endpoint;
  precedence_digit = digit;
  parents = parents;
}

-- What the loop of `processLevel` changes: the tree, and the next work with its count.
pub record Level (E S Request : Type 0) : Type 0 where
  pub root : DfaNode E S Request
  pub next_work : List (WorkItem E)
  pub next_work_count : ℕ

module _ {E S Request : Type 0} (lower : List ℕ → List ℕ) where
  -- A work item at a depth, where the digit of the next depth and the current segment are computed.
  unfoldable pub process_at :
      ℕ → WorkItem E → ℕ → Option (List RoutePatternPart) → Level E S Request → Level E S Request
  process_at depth item digit segment level =
      let e = item.endpoint.endpoint in
      let root =
        if has_additional_required_segments item.endpoint.path_segments depth
        then level.root
        else add_matches e item.parents level.root in
      elim segment [
        | none ↦ record level {
          root = root;
          next_work = put level.next_work_count (next_item item digit []) level.next_work;
        }
        | some s ↦
            let r = process_segment lower s e item.parents root in
            record {
              root = r.0;
              next_work = put level.next_work_count (next_item item digit (r.1)) level.next_work;
              next_work_count =
                  if length (r.1) == 0 then level.next_work_count else suc level.next_work_count;
            }
      ]

  -- The loop of `processLevel`, over all of the work, also over what is left in it of an earlier level.
  unfoldable pub process_items :
      ℕ → List (WorkItem E) → Level E S Request → Result BuildError (Level E S Request)
  process_items depth [] level = ok level
  process_items depth (item ∷ work) level =
      elim (get_precedence_digit_at_depth item.endpoint.path_segments (suc depth)) [
        | none ↦ err not_supported
        | some digit ↦ process_items depth work (
            process_at depth item digit (get_current_segment item.endpoint.path_segments depth)
              level)
      ]

  -- The loop over the depths: so many more levels, the work and the previous work, whose list is used
  -- for the next.
  unfoldable pub process_levels :
      ℕ
      → ℕ
      → List (WorkItem E)
      → List (WorkItem E)
      → DfaNode E S Request
      → Result BuildError (DfaNode E S Request)
  process_levels zero depth work previous_work root = ok root
  process_levels (suc n) depth work previous_work root =
      and_then
        (process_items depth work
          (record { root = root; next_work = previous_work; next_work_count = 0 }))
        λ level. process_levels n (suc depth) level.next_work work level.root

-- The first loop of `buildDfaTree`.
unfoldable pub seed_work :
    {E : Type 0} → List (RouteEndpoint E) → Result BuildError (List (WorkItem E))
seed_work [] = ok []
seed_work (e ∷ es) = elim (get_precedence_digit_at_depth e.path_segments 0) [
  | none ↦ err not_supported
  | some digit ↦
      and_then (seed_work es)
        λ work. ok (record { endpoint = e; precedence_digit = digit; parents = [] ∷ [] } ∷ work)
]

unfoldable pub max_depth : {E : Type 0} → List (RouteEndpoint E) → ℕ
max_depth [] = 0
max_depth (e ∷ es) = max (length e.path_segments) (max_depth es)

unfoldable pub build_dfa_tree :
    {E S Request : Type 0}
    → (List ℕ → List ℕ)
    → List (RouteEndpoint E)
    → Result BuildError (DfaNode E S Request)
build_dfa_tree lower endpoints =
    and_then (seed_work endpoints)
      λ work. process_levels lower (suc (max_depth endpoints)) 0 work [] (new_node (pos 0))
