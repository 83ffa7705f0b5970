-- ===== src/Routing/DfaMatcherBuilder/Numbering.antt =====
-- DfaMatcherBuilder.build: `addNode` fills the array of states with the layout of the tree.
use yohira.Common.{
  ℕ, suc, ◌+◌, ◌≡◌, refl, ap, ◌∙◌, List, [], ◌∷◌, ◌++◌, map, length-append, length-replicate,
  replicate, ◌-◌, Option, none, some, pos, Outcome, done, ◌>>=◌, ok, arith,
}
use yohira.Routing.JumpTables.{choose_table}
use yohira.Routing.DfaMatcher.{DfaState}
use yohira.Routing.DfaMatcherBuilder.{
  DfaMatcherBuilder, DfaNode, node, Literals, nil, literal, Link, absent, self, child, PolicyEdges,
  end, edge, BuildError, BuilderState, at, add_node, add_literals, get_transition, add_edges, visit,
  count_state, count_segments, build,
}
use yohira.Routing.DfaMatcherBuilder.Filling.{fill, fill_behind, fill_four, fill_end, fill-map}
use yohira.Routing.DfaMatcherBuilder.Layout.{
  all_states, exit_state, below, count_literals, count_link, count_edges, literal_numbers,
  link_number, edge_numbers, Loops, IsBuildable, AreBuildable, IsLinkBuildable, AreEdgesBuildable,
  state_of, layout, literals_layout, link_layout, edges_layout,
}
use yohira.Routing.DfaMatcherBuilder.Sizes.{
  length-layout, length-literals_layout, length-link_layout, visit_count,
}
use yohira.Routing.DfaMatcherBuilder.States.{number_ok, new_state_ok}

outcome :
    {State A : Type 0} {x y : A} {i j : ℕ} {a b : List (Option State)}
    → x ≡ y
    → i ≡ j
    → a ≡ b
    → ◌≡◌ {A = Outcome BuildError (BuilderState State) A} (done x (at i a)) (done y (at j b))
outcome {y} {i} {j} {a} p q r =
    ap (λ x. done x (at i a)) p ∙ (ap (λ k. done y (at k a)) q ∙ ap (λ c. done y (at j c)) r)

module _ {E S Request : Type 0} (this : DfaMatcherBuilder E) (exit : ℕ) where
  -- A node's number is the index at which it is added, and its states are written from there on.
  mutual
    unfolding add_node below layout fill IsBuildable literal_numbers link_number edge_numbers

    add_node_lem :
        (n : DfaNode E S Request) (i : ℕ) (a : List (Option (DfaState E Request)))
        → IsBuildable this.path_segments n
        → add_node this (pos exit) n (at i a)
          ≡ done (pos i) (at (i + below n) (fill i (layout this exit i n) a))
    add_node_lem (node depth matches ls p c builder es) i a h =
        let j = i + count_literals ls in
        let k = j + count_link p in
        let l = k + count_link c in
        let a1 = literals_layout this exit (suc i) ls in
        let a2 = link_layout this exit (suc j) p in
        let a3 = link_layout this exit (suc k) c in
        let a4 = edges_layout this exit (suc l) es in
        let f1 = fill (suc i) a1 a in
        let f2 = fill (suc j) a2 f1 in
        let f3 = fill (suc k) a3 f2 in
        let (routable, own, own_too, has, hs, hp, hc, he) = h in
        rw
          (
            add_literals_lem ls i a hs,
            get_transition_lem p i j (count_literals ls) f1 refl own hp,
            get_transition_lem c i k (count_literals ls + count_link p) f2 (omega arith) own_too hc,
            add_edges_lem es l f3 he,
            new_state_ok this exit i depth matches ls p c builder es routable has,
            ◌>>=◌,
          )
          (outcome refl (omega arith) (
            fill_four i j k l (state_of this exit i (node depth matches ls p c builder es)) a1 a2 a3
              a4 a (omega (arith, length-literals_layout this exit ls (suc i)))
              (omega (arith, length-link_layout this exit p (suc j)))
              (omega (arith, length-link_layout this exit c (suc k)))))

    add_literals_lem :
        (ls : Literals E S Request) (i : ℕ) (a : List (Option (DfaState E Request)))
        → AreBuildable this.path_segments ls
        → add_literals this (pos exit) ls (at i a)
          ≡ done
              (literal_numbers (suc i) ls)
              (at (i + count_literals ls) (fill (suc i) (literals_layout this exit (suc i) ls) a))
    add_literals_lem nil i a h = outcome refl (omega arith) refl
    add_literals_lem (literal key n ls) i a h =
        rw
          (
            add_node_lem n (suc i) a h.0,
            add_literals_lem ls (suc i + below n) (fill (suc i) (layout this exit (suc i) n) a) h.1,
            ◌>>=◌,
          )
          (outcome refl (omega arith) (
            fill_behind (suc i) (suc (suc i + below n)) (layout this exit (suc i) n)
              (literals_layout this exit (suc (suc i + below n)) ls) a
              (omega (arith, length-layout this exit n (suc i)))))

    get_transition_lem :
        (l : Link E S Request) (i j k : ℕ) (a : List (Option (DfaState E Request)))
        → j ≡ i + k
        → Loops k l
        → IsLinkBuildable this.path_segments l
        → get_transition this (pos exit) l (at j a)
          ≡ done
              (link_number i (suc j) l)
              (at (j + count_link l) (fill (suc j) (link_layout this exit (suc j) l) a))
    get_transition_lem absent i j k a e m h = outcome refl (omega arith) refl
    get_transition_lem self i j k a e m h =
        outcome (ap (λ n. some (pos n)) (omega (arith, e, m))) (omega arith) refl
    get_transition_lem (child n) i j k a e m h =
        rw (add_node_lem n (suc j) a h, ◌>>=◌) (outcome refl (omega arith) refl)

    add_edges_lem :
        (es : PolicyEdges E S Request) (i : ℕ) (a : List (Option (DfaState E Request)))
        → AreEdgesBuildable this.path_segments es
        → add_edges this (pos exit) es (at i a)
          ≡ done
              (edge_numbers (suc i) es)
              (at (i + count_edges es) (fill (suc i) (edges_layout this exit (suc i) es) a))
    add_edges_lem end i a h = outcome refl (omega arith) refl
    add_edges_lem (edge s n es) i a h =
        rw
          (
            add_node_lem n (suc i) a h.0,
            add_edges_lem es (suc i + below n) (fill (suc i) (layout this exit (suc i) n) a) h.1,
            ◌>>=◌,
          )
          (outcome refl (omega arith) (
            fill_behind (suc i) (suc (suc i + below n)) (layout this exit (suc i) n)
              (edges_layout this exit (suc (suc i + below n)) es) a
              (omega (arith, length-layout this exit n (suc i)))))

-- The states of a tree. If every match is a route's endpoint without a complex segment, a node with
-- policy edges has a node builder, and nothing is numbered before a link from a node to itself, then
-- build does not throw: its array has the state of every node, in the order in which the nodes are
-- numbered, from the root on, then the exit state, and no hole. The number of segments is one more
-- than the depth of the tree.
pub build-all_states :
    {E S Request : Type 0} (this : DfaMatcherBuilder E) (root : DfaNode E S Request)
    → IsBuildable this.path_segments root
    → build this root ≡ ok (map some (all_states this root), suc (visit count_segments root 0))
unfolding build all_states choose_table
build-all_states {E} {S} {Request} this root h =
    let n = suc (below root) in
    let states = layout this n 0 root in
    let holes : List (Option (DfaState E Request)) = replicate (visit count_state root 1) none in
    let last : visit count_state root 1 - 1 ≡ n = omega (arith, visit_count root 1) in
    rw (last, add_node_lem this n root 0 holes h, last, number_ok this.lower n n [], build)
      (ap (λ a. ok (a, suc (visit count_segments root 0)))
        (fill_end 0 n states (exit_state n) holes (omega (arith, length-layout this n root 0))
          ∙ fill-map (states ++ (exit_state n ∷ [])) holes (
              omega (
                arith,
                length-replicate {A = Option (DfaState E Request)} (visit count_state root 1) none,
                visit_count root 1,
                length-append states (exit_state n ∷ []),
                length-layout this n root 0,
              ))))
