-- ===== src/Routing/DfaMatcherBuilder/Tests.antt =====
-- The builder on a tree of four nodes: `/a`, whose node has an edge for the method 7, and `/{*rest}`.
use yohira.Common.{
  Result, err, true, ℕ, ◌≡◌, refl, ◌⊎◌, inl, inr, ◌∙◌, subst, sym, Bool-cases, List, [], ◌∷◌, map,
  ◌==◌, if◌then◌else◌, none, some, ℤ, pos, negsuc, Mem, ok,
}
use yohira.Routing.Tokenizer.{tokenize}
use yohira.Routing.DfaMatcher.{
  match_request, select_default, DfaState, find_candidate_set, follow_path, state_at,
}
use yohira.Routing.EndpointComparer.{compare_to}
use yohira.Routing.Patterns.{RoutePatternPart, literal}
use yohira.Routing.DfaMatcherBuilder.{
  BuildError, NodeBuilderPolicy, DfaMatcherBuilder, DfaNode, node, nil, literal, absent, self,
  child, end, edge, build,
}
use yohira.Routing.DfaMatcherBuilder.Layout.{
  below, IsRoutable, count_literals, IsBuildable, all_states,
}
use yohira.Routing.DfaMatcherBuilder.Numbering.{build-all_states}
use yohira.Routing.DfaMatcherBuilder.Arrival.{Ends, find_candidate_set-build}
use yohira.Routing.DfaMatcherBuilder.Matching.{Answers}
use yohira.Routing.DfaMatcherBuilder.Tree.Levels.{is_plain}
use yohira.Routing.DfaMatcherBuilder.Tree.Requests.{match_request-build_dfa_tree}
use yohira.Routing.DfaMatcherBuilder.Tree
use yohira.Routing.DfaMatcherBuilder.Tree.{RouteEndpoint}
use yohira.Routing.DfaMatcherBuilder.Tree.Worker.{build_dfa_tree}
use yohira.Routing.DfaMatcherBuilder.Walk.{
  KeysKeep, walk, next_place, literal_place, state_of_place,
}
use yohira.Routing.DfaMatcherBuilder.Following.{follow_path-walk}
use yohira.Routing.Tests.{lower, path}

-- The table of a policy whose states and requests are methods.
by_method : ℤ → List (ℕ × ℤ) → ℕ → ℤ
by_method exit [] method = exit
by_method exit ((m, d) ∷ edges) method =
    let rest = by_method exit edges method in if m == method then d else rest

by_method-answers :
    (exit : ℤ) (edges : List (ℕ × ℤ)) (method : ℕ)
    → (by_method exit edges method ≡ exit)
      ⊎ Mem (by_method exit edges method) (map (λ e. e.1) edges)
unfolding by_method
by_method-answers exit [] method = inl refl
by_method-answers exit ((m, d) ∷ edges) method = elim (Bool-cases (m == method)) [
  | inl e ↦ let here : by_method exit ((m, d) ∷ edges) method ≡ d = rw e refl in inr (inl here)
  | inr e ↦
      let there : by_method exit ((m, d) ∷ edges) method ≡ by_method exit edges method =
        rw e refl in
      elim (by_method-answers exit edges method) [
        | inl f ↦ inl (there ∙ f)
        | inr f ↦ inr (inr (subst (λ x. Mem x (map (λ e. e.1) edges)) (sym there) f))
      ]
]

abbrev methods : NodeBuilderPolicy ℕ ℕ
methods = record { jump_table = by_method; answers = by_method-answers }

abbrev builder : DfaMatcherBuilder ℕ
builder = record {
  lower = lower;
  path_segments = λ _. some ((literal (97 ∷ []) ∷ []) ∷ []);
  comparer = λ x y. compare_to (pos x) (pos y);
  endpoint_selector_policies = [];
}

abbrev for_method : DfaNode ℕ ℕ ℕ
for_method = node (negsuc 0) (10 ∷ []) nil absent absent none end

abbrev rest : DfaNode ℕ ℕ ℕ
rest = node (pos 1) (20 ∷ []) nil self self none end

abbrev root : DfaNode ℕ ℕ ℕ
root =
    node (pos 0) []
      (literal (97 ∷ []) (node (pos 1) [] nil absent absent (some methods) (edge 7 for_method end))
        nil)
      absent (child rest) none end

root-IsBuildable : IsBuildable builder.path_segments root
unfolding IsBuildable count_literals yohira.Routing.DfaMatcherBuilder.has_complex_segment
root-IsBuildable =
    let simple : IsRoutable builder.path_segments 10 =
      ((literal (97 ∷ []) ∷ []) ∷ [], refl, refl) in
    (
      tt,
      tt,
      tt,
      tt,
      ((tt, tt, tt, tt, tt, tt, tt, (((simple, tt), tt, tt, tt, tt, tt, tt, tt), tt)), tt),
      tt,
      ((simple, tt), refl, refl, tt, tt, tt, tt, tt),
      tt,
    )

build-all_states_example : build builder root ≡ ok (map some (all_states builder root), 2)
unfolding yohira.Routing.DfaMatcherBuilder.visit yohira.Routing.DfaMatcherBuilder.count_segments
build-all_states_example = build-all_states builder root root-IsBuildable

find_candidate_set-build_example :
    (states : List (DfaState ℕ ℕ)) × (count : ℕ) × (state : DfaState ℕ ℕ) × (build builder root
      ≡ ok (map some states, count))
    × (find_candidate_set lower states 7 path (tokenize path 2) ≡ ok state)
    × Ends builder state
find_candidate_set-build_example =
    find_candidate_set-build builder root 7 path (tokenize path 2) root-IsBuildable

root-KeysKeep : KeysKeep lower root
unfolding KeysKeep
root-KeysKeep = (((refl, (tt, tt, tt), tt), tt, (tt, tt, tt)))

-- `/a/bc` leads through `a` to no node behind it.
follow_path-walk_example :
    (states : List (DfaState ℕ ℕ)) × (count : ℕ) × (build builder root
      ≡ ok (map some states, count))
    × (follow_path lower states path (tokenize path 1) (pos 0) ≡ ok (pos 1))
    × (state_at states (pos 1)
        ≡ ok (state_of_place builder 4 (walk lower path (tokenize path 1) (some (0, root)))))
unfolding walk next_place literal_place below tokenize yohira.Routing.Tokenizer.tokenize_from
    yohira.Routing.JumpTables.eqb
follow_path-walk_example =
    follow_path-walk builder root path (tokenize path 1) root-IsBuildable root-KeysKeep
      ((refl, refl), tt)

-- `/a` and `/b/c`
abbrev endpoints : List (RouteEndpoint ℕ)
endpoints =
    record { endpoint = 10; path_segments = (literal (97 ∷ []) ∷ []) ∷ [] }
    ∷ record {
      endpoint = 20;
      path_segments = (literal (98 ∷ []) ∷ []) ∷ (literal (99 ∷ []) ∷ []) ∷ [];
    }
    ∷ []

abbrev segments_of : ℕ → List (List RoutePatternPart)
segments_of e =
    if e == 10
    then (literal (97 ∷ []) ∷ []) ∷ []
    else (literal (98 ∷ []) ∷ []) ∷ (literal (99 ∷ []) ∷ []) ∷ []

abbrev of_routes : DfaMatcherBuilder ℕ
of_routes = record builder { path_segments = λ e. some (segments_of e) }

match_request-build_dfa_tree_example :
    (root : DfaNode ℕ ℕ ℕ) × (states : List (DfaState ℕ ℕ)) × (count : ℕ) × (build_dfa_tree lower
        endpoints
      ≡ ok root)
    × (build of_routes root ≡ ok (map some states, count))
    × Answers (match_request lower true select_default states count 7 path none)
unfolding is_plain
match_request-build_dfa_tree_example =
    match_request-build_dfa_tree ℕ of_routes endpoints 7 path none
      ((refl, (refl, tt)), ((refl, (refl, (refl, tt))), tt)) refl

abbrev root_matches : Result BuildError (DfaNode ℕ ℕ ℕ) → List ℕ
root_matches (err e) = []
root_matches (ok (node depth matches literals parameters catch_all policy edges)) = matches

-- Work left from an earlier level is processed again: the root gets `/b/c` as a match.
root_matches_stale_work : root_matches (build_dfa_tree lower endpoints) ≡ 20 ∷ []
unfolding build_dfa_tree Tree.Worker.seed_work Tree.get_precedence_digit_at_depth
    Tree.get_current_segment Tree.Worker.process_levels Tree.Worker.process_items Tree.last_segment
    Tree.Worker.max_depth Tree.Worker.process_at Tree.Worker.put Tree.process_segment
    Tree.at_address Tree.process_parent Tree.has_additional_required_segments Tree.any_required
    Tree.add_matches Tree.add_match Tree.at_literal Tree.literal_or_new
    yohira.Routing.Patterns.compute_inbound_precedence_digit yohira.Routing.JumpTables.eqb
root_matches_stale_work = refl
