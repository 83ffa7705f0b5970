-- ===== src/Routing/DfaMatcherBuilder.antt =====
-- packages/routing/src/matching/DfaNode.ts and DfaMatcherBuilder.ts: the nodes, their numbering, and the
-- states made of them; Tree is what makes the nodes from the endpoints. Each node is held by one link,
-- but a catch-all node, which is its own parameter and its own catch-all: that link is `self`. Matches
-- that are `undefined` are the empty list, which the code treats alike.
pub mod Filling
pub mod Layout
pub mod Sizes
pub mod States
pub mod Numbering
pub mod Places
pub mod Stands
pub mod Arrival
pub mod Matching
pub mod Tree
pub mod Walk
pub mod Following
mod Tests
use yohira.Common.{
  ℕ, zero, suc, ◌-◌, max, Bool, true, false, not, List, [], ◌∷◌, ◌==◌, if◌then◌else◌, length,
  replicate, Option, none, some, ℤ, pos, negsuc, done, thrown, Action, ◌>>=◌, pure, Result, ok, err,
  and_then, sort, map, Mem, ◌⊎◌, ◌≡◌,
}
use yohira.Routing.JumpTables.{Entries, JumpTable, JumpTableError, build_jump_table}
use yohira.Routing.DfaMatcher.{Candidate, DfaState, Policy, new_candidate}
use yohira.Routing.Patterns.{RoutePatternPart}

-- INodeBuilderPolicy, the part that numbering calls. The table's law is that of the interface's
-- documentation: it answers with the exit destination, its default, or with that of an edge.
pub record NodeBuilderPolicy (S Request : Type 0) : Type 0 where
  pub jump_table : ℤ → List (S × ℤ) → Request → ℤ
  pub answers :
      (exit : ℤ) (edges : List (S × ℤ)) (request : Request)
      → (jump_table exit edges request ≡ exit)
        ⊎ Mem (jump_table exit edges request) (map (λ e. e.1) edges)

-- IEndpointSelectorPolicy
pub record EndpointSelectorPolicy (E : Type 0) : Type 0 where
  pub applies_to_endpoints : List E → Bool
  pub apply : Policy E

mutual
  pub data DfaNode (E S Request : Type 0) : Type 0 where
    node :
        (path_depth : ℤ) (matches : List E) (literals : Literals E S Request)
        (parameters catch_all : Link E S Request)
        (node_builder : Option (NodeBuilderPolicy S Request))
        (policy_edges : PolicyEdges E S Request)
        → DfaNode E S Request

  -- A node's `literals`, with the map's keys in lower case.
  pub data Literals (E S Request : Type 0) : Type 0 where
    nil : Literals E S Request
    literal : (key : List ℕ) → DfaNode E S Request → Literals E S Request → Literals E S Request

  -- A node's `parameters` or `catchAll`.
  pub data Link (E S Request : Type 0) : Type 0 where
    absent self : Link E S Request
    child : DfaNode E S Request → Link E S Request

  pub data PolicyEdges (E S Request : Type 0) : Type 0 where
    end : PolicyEdges E S Request
    edge : (state : S) → DfaNode E S Request → PolicyEdges E S Request → PolicyEdges E S Request

pub data BuildError : Type 0 where
  -- `no_node_builder`: the table's builder is `undefined`, and its method cannot be called.
  not_implemented not_supported no_node_builder : BuildError
  jump_table_error : JumpTableError → BuildError

-- `visit`: every node once, a node behind those that it leads to. The visitor changes a value of
-- its own.
unfoldable mutual
  pub visit : {E S Request A : Type 0} → (DfaNode E S Request → A → A) → DfaNode E S Request → A → A
  visit f (node depth matches literals parameters catch_all builder edges) a =
      f (node depth matches literals parameters catch_all builder edges) (
        visit_edges f edges
          (visit_link f catch_all (visit_link f parameters (visit_literals f literals a))))

  pub visit_literals :
      {E S Request A : Type 0} → (DfaNode E S Request → A → A) → Literals E S Request → A → A
  visit_literals f nil a = a
  visit_literals f (literal key n literals) a = visit_literals f literals (visit f n a)

  pub visit_link :
      {E S Request A : Type 0} → (DfaNode E S Request → A → A) → Link E S Request → A → A
  visit_link f absent a = a
  visit_link f self a = a
  visit_link f (child n) a = visit f n a

  pub visit_edges :
      {E S Request A : Type 0} → (DfaNode E S Request → A → A) → PolicyEdges E S Request → A → A
  visit_edges f end a = a
  visit_edges f (edge state n edges) a = visit_edges f edges (visit f n a)

-- The two counts of `build`. A depth of -1 is that of a policy's node.
abbrev pub count_state : {E S Request : Type 0} → DfaNode E S Request → ℕ → ℕ
count_state n count = suc count

unfoldable pub count_segments : {E S Request : Type 0} → DfaNode E S Request → ℕ → ℕ
count_segments (node (pos d) matches literals parameters catch_all builder edges) count =
    max count d
count_segments (node (negsuc d) matches literals parameters catch_all builder edges) count = count

-- An array of JavaScript: a write past its end leaves holes between.
unfoldable pub set_at {ℓ} : {A : Type ℓ} → ℕ → A → List (Option A) → List (Option A)
set_at zero x [] = some x ∷ []
set_at zero x (y ∷ ys) = some x ∷ ys
set_at (suc i) x [] = none ∷ set_at i x []
set_at (suc i) x (y ∷ ys) = y ∷ set_at i x ys

-- `stateIndex`, and the array `states` that `addNode` fills.
pub record BuilderState (State : Type 0) : Type 0 where
  pub state_index : ℕ
  pub states : List (Option State)

abbrev pub at : {State : Type 0} → ℕ → List (Option State) → BuilderState State
at i states = record { state_index = i; states = states }

module _ {State : Type 0} where
  abbrev pub get_state_index : Action BuildError (BuilderState State) ℕ
  get_state_index s = done s.state_index s

  -- `this.stateIndex++`
  abbrev pub next_state_index : Action BuildError (BuilderState State) (Unit {0})
  next_state_index s = done tt (record s { state_index = suc s.state_index })

  -- `states[i] = state`
  abbrev pub set_state : ℕ → State → Action BuildError (BuilderState State) (Unit {0})
  set_state i state s = done tt (record s { states = set_at i state s.states })

  abbrev pub from_result :
      {A : Type 0} → Result BuildError A → Action BuildError (BuilderState State) A
  from_result (ok a) s = done a s
  from_result (err e) s = thrown e s

-- `currentDefaultDestination` and `currentExitDestination`, from the transitions to `parameters` and
-- `catchAll`. Where the two are one node, that node's transition is both.
abbrev pub destinations : ℤ → Option ℤ → Option ℤ → ℤ × ℤ
destinations exit (some p) (some c) = (p, c)
destinations exit (some p) none = (p, exit)
destinations exit none (some c) = (c, c)
destinations exit none none = (exit, exit)

abbrev pub from_jump_table : Result JumpTableError JumpTable → Result BuildError JumpTable
from_jump_table (ok table) = ok table
from_jump_table (err e) = err (jump_table_error e)

-- Some segment is not `isSimple`.
unfoldable pub has_complex_segment : List (List RoutePatternPart) → Bool
has_complex_segment [] = false
has_complex_segment (s ∷ ss) = if length s == 1 then has_complex_segment ss else true

-- `buildPolicy`
unfoldable pub build_policy :
    {S Request : Type 0}
    → ℤ
    → Option (NodeBuilderPolicy S Request)
    → List (S × ℤ)
    → Result BuildError (Option (Request → ℤ))
build_policy exit builder [] = ok none
build_policy exit none (e ∷ entries) = err no_node_builder
build_policy exit (some builder) (e ∷ entries) = ok (some (builder.jump_table exit (e ∷ entries)))

module _ {E : Type 0} (path_segments : E → Option (List (List RoutePatternPart))) where
  -- An endpoint without path segments is not an instance of RouteEndpoint.
  unfoldable pub create_candidate : E → ℤ → Result BuildError (Candidate E)
  create_candidate endpoint score = elim (path_segments endpoint) [
    | none ↦ err not_implemented
    | some segments ↦
        if has_complex_segment segments
        then err not_implemented
        else ok (new_candidate (some endpoint) score)
  ]

  -- Every endpoint has the first one's score, since priorities are not compared yet.
  unfoldable pub create_candidates : List E → Result BuildError (List (Candidate E))
  create_candidates [] = ok []
  create_candidates (e ∷ es) =
      and_then (create_candidate e (pos 0)) λ c. and_then (create_candidates es) λ cs. ok (c ∷ cs)

-- The loop over `endpointSelectorPolicies`, for the matches of a node.
unfoldable pub applying : {E : Type 0} → List (EndpointSelectorPolicy E) → List E → List (Policy E)
applying [] es = []
applying (p ∷ ps) es =
    if p.applies_to_endpoints es then p.apply ∷ applying ps es else applying ps es

unfoldable pub selector_policies :
    {E : Type 0} → List (EndpointSelectorPolicy E) → List E → List (Policy E)
selector_policies policies [] = []
selector_policies policies (e ∷ es) = applying policies (e ∷ es)

-- What the numbering depends on: the builder's fields `comparer` and `endpointSelectorPolicies`, and
-- two parameters, `toLowerCase` and the path segments of an endpoint's route. An endpoint without
-- them is not an instance of RouteEndpoint.
pub record DfaMatcherBuilder (E : Type 0) : Type 0 where
  pub lower : List ℕ → List ℕ
  pub path_segments : E → Option (List (List RoutePatternPart))
  pub comparer : E → E → ℤ
  pub endpoint_selector_policies : List (EndpointSelectorPolicy E)

module _ {E S Request : Type 0} (this : DfaMatcherBuilder E) (exit : ℤ) where
  -- The state that `addNode` makes of a node, from the matches and the transitions.
  unfoldable pub new_state :
      List E
      → ℤ × ℤ
      → Entries
      → Option (NodeBuilderPolicy S Request)
      → List (S × ℤ)
      → Result BuildError (DfaState E Request)
  new_state matches (default, current_exit) path_entries builder policy_entries =
      and_then (create_candidates this.path_segments (sort this.comparer matches)) λ candidates.
        and_then (from_jump_table (build_jump_table this.lower default current_exit path_entries))
          λ table. and_then (build_policy exit builder policy_entries) λ policy. ok (record {
            candidates = candidates;
            policies =
                selector_policies this.endpoint_selector_policies (sort this.comparer matches);
            path_transitions = table;
            policy_transitions = policy;
          })

  unfoldable mutual
    pub add_node : DfaNode E S Request → Action BuildError (BuilderState (DfaState E Request)) ℤ
    add_node (node depth matches literals parameters catch_all builder edges) =
        get_state_index >>= λ current. add_literals literals >>= λ path_entries.
        get_transition parameters >>= λ to_parameters. get_transition catch_all >>= λ to_catch_all.
        add_edges edges >>= λ policy_entries.
        from_result (
          new_state matches (destinations exit to_parameters to_catch_all) path_entries builder
            policy_entries)
        >>= λ state. set_state current state >>= λ _. pure (pos current)

    -- The loop over `literals`, as `pathEntries`.
    pub add_literals :
        Literals E S Request → Action BuildError (BuilderState (DfaState E Request)) Entries
    add_literals nil = pure []
    add_literals (literal key n literals) = next_state_index >>= λ _. add_node n >>= λ transition.
        add_literals literals >>= λ entries. pure ((key, transition) ∷ entries)

    -- `getTransition`, where there is a node to go to. For a node that is its own, it reads the
    -- index and changes nothing.
    pub get_transition :
        Link E S Request → Action BuildError (BuilderState (DfaState E Request)) (Option ℤ)
    get_transition absent = pure none
    get_transition self = get_state_index >>= λ i. pure (some (pos i))
    get_transition (child n) =
        next_state_index >>= λ _. add_node n >>= λ transition. pure (some transition)

    -- The loop over `policyEdges`, as `policyEntries`.
    pub add_edges :
        PolicyEdges E S Request
        → Action BuildError (BuilderState (DfaState E Request)) (List (S × ℤ))
    add_edges end = pure []
    add_edges (edge state n edges) = next_state_index >>= λ _. add_node n >>= λ transition.
        add_edges edges >>= λ entries. pure ((state, transition) ∷ entries)

-- `build`, from the tree: the array of states and the number of segments that the matcher is made
-- with.
unfoldable pub build :
    {E S Request : Type 0}
    → DfaMatcherBuilder E
    → DfaNode E S Request
    → Result BuildError (List (Option (DfaState E Request)) × ℕ)
build this root =
    let state_count = visit count_state root 1 in
    let max_segment_count = suc (visit count_segments root 0) in
    let exit = pos (state_count - 1) in
    elim (add_node this exit root (at 0 (replicate state_count none))) [
      | thrown e s ↦ err e
      | done i s ↦ and_then (from_jump_table (build_jump_table this.lower exit exit [])) λ table.
          ok (
            set_at (state_count - 1)
                (record {
                  candidates = [];
                  policies = [];
                  path_transitions = table;
                  policy_transitions = none;
                })
                s.states,
            max_segment_count,
          )
    ]
