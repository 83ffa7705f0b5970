-- ===== src/Routing/DfaMatcherBuilder/Layout.antt =====
-- DfaMatcherBuilder.build: the numbers that `addNode` gives to the nodes of a tree, and the array of
-- states that it fills.
use yohira.Common.{
  ℕ, suc, ◌+◌, ◌≡◌, false, List, [], ◌∷◌, ◌++◌, map, Option, none, some, ℤ, pos, sort, All,
}
use yohira.Routing.JumpTables.{Entries, zero_entry, choose_table}
use yohira.Routing.DfaMatcher.{DfaState, new_candidate}
use yohira.Routing.Patterns.{RoutePatternPart}
use yohira.Routing.DfaMatcherBuilder.{
  NodeBuilderPolicy, DfaMatcherBuilder, DfaNode, node, Literals, nil, literal, Link, absent, self,
  child, PolicyEdges, end, edge, destinations, has_complex_segment, selector_policies,
}

-- How many nodes there are below a node.
unfoldable mutual
  pub below : {E S Request : Type 0} → DfaNode E S Request → ℕ
  below (node depth matches ls p c builder es) =
      count_literals ls + count_link p + count_link c + count_edges es

  pub count_literals : {E S Request : Type 0} → Literals E S Request → ℕ
  count_literals nil = 0
  count_literals (literal key n ls) = suc (below n) + count_literals ls

  pub count_link : {E S Request : Type 0} → Link E S Request → ℕ
  count_link absent = 0
  count_link self = 0
  count_link (child n) = suc (below n)

  pub count_edges : {E S Request : Type 0} → PolicyEdges E S Request → ℕ
  count_edges end = 0
  count_edges (edge s n es) = suc (below n) + count_edges es

-- The numbers of the nodes that a node leads to, from the next number on. `own` is the number of the
-- node itself.
unfoldable pub literal_numbers : {E S Request : Type 0} → ℕ → Literals E S Request → Entries
literal_numbers next nil = []
literal_numbers next (literal key n ls) =
    (key, pos next) ∷ literal_numbers (suc (next + below n)) ls

unfoldable pub link_number : {E S Request : Type 0} → ℕ → ℕ → Link E S Request → Option ℤ
link_number own next absent = none
link_number own next self = some (pos own)
link_number own next (child n) = some (pos next)

unfoldable pub edge_numbers : {E S Request : Type 0} → ℕ → PolicyEdges E S Request → List (S × ℤ)
edge_numbers next end = []
edge_numbers next (edge s n es) = (s, pos next) ∷ edge_numbers (suc (next + below n)) es

-- The policy's table of a node, where there is one.
unfoldable pub policy_table :
    {S Request : Type 0}
    → ℤ
    → Option (NodeBuilderPolicy S Request)
    → List (S × ℤ)
    → Option (Request → ℤ)
policy_table exit builder [] = none
policy_table exit none (e ∷ entries) = none
policy_table exit (some builder) (e ∷ entries) = some (builder.jump_table exit (e ∷ entries))

-- A node with edges has the builder that made them.
abbrev pub HasBuilder :
    {E S Request : Type 0} → Option (NodeBuilderPolicy S Request) → PolicyEdges E S Request → Type 0
HasBuilder builder end = Unit
HasBuilder none (edge s n es) = Unit {0} × ⊥
HasBuilder (some builder) (edge s n es) = Unit

-- A node that is its own has nothing numbered before that link.
abbrev pub Loops : {E S Request : Type 0} → ℕ → Link E S Request → Type 0
Loops before absent = Unit
Loops before self = before ≡ 0
Loops before (child n) = Unit

module _ {E : Type 0} (path_segments : E → Option (List (List RoutePatternPart))) where
  -- The endpoint is a route's, without a complex segment.
  abbrev pub IsRoutable : E → Type 0
  IsRoutable e =
      (segments : List (List RoutePatternPart)) × (path_segments e ≡ some segments)
      × (has_complex_segment segments ≡ false)

  unfoldable mutual
    pub IsBuildable : {S Request : Type 0} → DfaNode E S Request → Type 0
    IsBuildable (node depth matches ls p c builder es) =
        All IsRoutable matches
        × Loops (count_literals ls) p
        × Loops (count_literals ls + count_link p) c
        × HasBuilder builder es
        × AreBuildable ls
        × IsLinkBuildable p
        × IsLinkBuildable c
        × AreEdgesBuildable es

    pub AreBuildable : {S Request : Type 0} → Literals E S Request → Type 0
    AreBuildable nil = Unit
    AreBuildable (literal key n ls) = IsBuildable n × AreBuildable ls

    pub IsLinkBuildable : {S Request : Type 0} → Link E S Request → Type 0
    IsLinkBuildable absent = Unit
    IsLinkBuildable self = Unit
    IsLinkBuildable (child n) = IsBuildable n

    pub AreEdgesBuildable : {S Request : Type 0} → PolicyEdges E S Request → Type 0
    AreEdgesBuildable end = Unit
    AreEdgesBuildable (edge s n es) = IsBuildable n × AreEdgesBuildable es

module _ {E S Request : Type 0} (this : DfaMatcherBuilder E) (exit : ℕ) where
  -- The state of a node with the number `i`.
  unfoldable pub state_of : ℕ → DfaNode E S Request → DfaState E Request
  state_of i (node depth matches ls p c builder es) =
      let q = suc (i + count_literals ls) in
      let r = suc (i + count_literals ls + count_link p) in
      let t = suc (i + count_literals ls + count_link p + count_link c) in
      let d = destinations (pos exit) (link_number i q p) (link_number i r c) in
      record {
        candidates = map (λ e. new_candidate (some e) (pos 0)) (sort this.comparer matches);
        policies = selector_policies this.endpoint_selector_policies (sort this.comparer matches);
        path_transitions = choose_table this.lower (d.0) (d.1) (literal_numbers (suc i) ls);
        policy_transitions = policy_table (pos exit) builder (edge_numbers t es);
      }

  -- The states of a node with the number `i` and of those below it, in the order of their numbers.
  unfoldable mutual
    pub layout : ℕ → DfaNode E S Request → List (DfaState E Request)
    layout i (node depth matches ls p c builder es) =
        let q = suc (i + count_literals ls) in
        let r = suc (i + count_literals ls + count_link p) in
        let t = suc (i + count_literals ls + count_link p + count_link c) in
        state_of i (node depth matches ls p c builder es)
        ∷ (((literals_layout (suc i) ls ++ link_layout q p) ++ link_layout r c)
            ++ edges_layout t es)

    pub literals_layout : ℕ → Literals E S Request → List (DfaState E Request)
    literals_layout i nil = []
    literals_layout i (literal key n ls) = layout i n ++ literals_layout (suc (i + below n)) ls

    pub link_layout : ℕ → Link E S Request → List (DfaState E Request)
    link_layout i absent = []
    link_layout i self = []
    link_layout i (child n) = layout i n

    pub edges_layout : ℕ → PolicyEdges E S Request → List (DfaState E Request)
    edges_layout i end = []
    edges_layout i (edge s n es) = layout i n ++ edges_layout (suc (i + below n)) es

-- The exit state, which leads to itself.
abbrev pub exit_state : {E Request : Type 0} → ℕ → DfaState E Request
exit_state exit = record {
  candidates = [];
  policies = [];
  path_transitions = zero_entry (pos exit) (pos exit);
  policy_transitions = none;
}

-- The states of a tree of nodes, in the order of their numbers, and the exit state behind them.
unfoldable pub all_states :
    {E S Request : Type 0} → DfaMatcherBuilder E → DfaNode E S Request → List (DfaState E Request)
all_states this root = layout this (suc (below root)) 0 root ++ (exit_state (suc (below root)) ∷ [])
