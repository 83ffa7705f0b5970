-- ===== src/Routing/DfaMatcherBuilder/Arrival.antt =====
-- DfaMatcherBuilder.build with DfaMatcher.findCandidateSet: on the states that are built, matching
-- always arrives.
use yohira.Common.{
  sort, ℕ, zero, suc, ◌+◌, ◌≤◌, ◌<◌, ◌≡◌, refl, ap, ◌∙◌, inl, inr, List, [], ◌∷◌, map, length,
  get_elem?, none, some, ℤ, pos, ok, and_then-ok, err, arith,
}
use yohira.Routing.Tokenizer.{PathSegment}
use yohira.Routing.JumpTables.{get_destination, choose_table}
use yohira.Routing.DfaMatcher.{
  new_candidate, DfaState, state_at, follow_path, no_such_state, follow_policies,
  find_candidate_set,
}
use yohira.Routing.DfaMatcherBuilder.{
  selector_policies, DfaMatcherBuilder, DfaNode, node, visit, count_segments, build,
}
use yohira.Routing.DfaMatcherBuilder.Layout.{
  below, count_literals, count_link, edge_numbers, IsBuildable, state_of, layout, exit_state,
  all_states,
}
use yohira.Routing.DfaMatcher.Walk.{turn}
use yohira.Routing.DfaMatcherBuilder.Places.{Lies, Lies_refl, Lies-append, get_destination_lem}
use yohira.Routing.DfaMatcherBuilder.Sizes.{length-layout}
use yohira.Routing.DfaMatcherBuilder.Numbering.{build-all_states}
use yohira.Routing.DfaMatcherBuilder.Stands.{
  policy_cases, Stands, Arrives, parts, edges_arrive, state-Arrives, state_there, Stands-below,
}

-- A state without a policy table, for some endpoints: each is a candidate with the score 0 and without
-- flags, and the policies are those that apply to them.
abbrev pub Ends : {E Request : Type 0} → DfaMatcherBuilder E → DfaState E Request → Type 0
Ends {E} this state =
    (state.policy_transitions ≡ none)
    × (endpoints : List E) × (state.candidates
        ≡ map (λ e. new_candidate (some e) (pos 0)) endpoints)
    × (state.policies ≡ selector_policies this.endpoint_selector_policies endpoints)

exit_Ends :
    {E Request : Type 0} (this : DfaMatcherBuilder E) (exit : ℕ)
    → Ends {Request = Request} this (exit_state exit)
unfolding selector_policies
exit_Ends this exit = (refl, [], refl, refl)

module _ {E Request : Type 0} (S : Type 0) (this : DfaMatcherBuilder E) (exit : ℕ)
    (states : List (DfaState E Request))
    (exit_there : get_elem? states exit ≡ some (exit_state exit)) where
  arrival_state :
      (d : ℤ)
      → Arrives S this exit states d
      → (state : DfaState E Request) × (state_at states d ≡ ok state)
        × ((path : List ℕ) (segment : PathSegment)
            → Arrives S this exit states
                (get_destination this.lower state.path_transitions path segment))
  unfolding choose_table
  arrival_state d (inl e) = (
    exit_state exit,
    ap (state_at states) e
        ∙ ap (λ o. elim o [ none ↦ err no_such_state | some s ↦ ok s ]) exit_there,
    λ path segment.
        get_destination_lem (Arrives S this exit states) this.lower (pos exit) (pos exit) [] path
          segment (inl refl) (inl refl) tt,
  )
  arrival_state d (inr (i, n, e, h)) = (
    state_of this exit i n,
    ap (state_at states) e
        ∙ ap (λ o. elim o [ none ↦ err no_such_state | some s ↦ ok s ])
            (state_there S this exit states i n h),
    λ path segment. state-Arrives S this exit states i n path segment h,
  )

  follow_path-Arrives :
      (path : List ℕ) (segments : List PathSegment) (d : ℤ)
      → Arrives S this exit states d
      → (e : ℤ) × (follow_path this.lower states path segments d ≡ ok e)
        × Arrives S this exit states e
  unfolding follow_path
  follow_path-Arrives path [] d h = (d, refl, h)
  follow_path-Arrives path (s ∷ segments) d h =
      let (state, there, next) = arrival_state d h in
      let (e, run, last) =
        follow_path-Arrives path segments (get_destination this.lower state.path_transitions path s)
          (next path s) in
      (
        e,
        and_then-ok
              (λ state.
                follow_path this.lower states path segments
                  (get_destination this.lower state.path_transitions path s))
              there
            ∙ run,
        last,
      )

  exit_ends :
      (fuel : ℕ) (request : Request)
      → follow_policies (suc fuel) states request (pos exit) ≡ ok (exit_state exit)
  exit_ends fuel request =
      turn fuel states request exit (exit_state exit) {table = none} exit_there refl

  exit_ends_from :
      (fuel : ℕ) (request : Request)
      → 0 < fuel
      → follow_policies fuel states request (pos exit) ≡ ok (exit_state exit)
  exit_ends_from zero request h = absurd (omega (arith, h))
  exit_ends_from (suc fuel) request h = exit_ends fuel request

  follow_policies_arrives :
      (fuel : ℕ) (request : Request) (i : ℕ) (n : DfaNode E S Request)
      → Stands S this exit states i n
      → below n < fuel
      → (state : DfaState E Request) × (follow_policies fuel states request (pos i) ≡ ok state)
        × Ends this state
  unfolding below state_of
  follow_policies_arrives zero request i n h k = absurd (omega (arith, k))
  follow_policies_arrives (suc fuel) request i (node depth matches ls p c builder es) h k =
      let t = suc (i + count_literals ls + count_link p + count_link c) in
      let state = state_of this exit i (node depth matches ls p c builder es) in
      let entries = edge_numbers t es in
      let (there, _, _, _, edges) = parts S this exit states i depth matches ls p c builder es h in
      elim (policy_cases (pos exit) builder t es) [
        | inl e ↦ (
          state,
          turn fuel states request i state there e,
          (e, sort this.comparer matches, refl, refl),
        )
        | inr (b, e, some_edge) ↦
            let step = turn fuel states request i state there e in
            let d = b.jump_table (pos exit) entries request in
            elim (b.answers (pos exit) entries request) [
              | inl f ↦ (
                exit_state exit,
                step
                    ∙ (ap (follow_policies fuel states request) f
                        ∙ exit_ends_from fuel request (omega (arith, k, some_edge))),
                exit_Ends this exit,
              )
              | inr m ↦
                  let (j, o, f, stands, less) = edges_arrive S this exit states t es d edges m in
                  let (last, run, ends) =
                    follow_policies_arrives fuel request j o stands (omega (arith, k, less)) in
                  (last, step ∙ (ap (follow_policies fuel states request) f ∙ run), ends)
            ]
      ]

  policies_end :
      (fuel : ℕ) (request : Request) (d : ℤ)
      → length states ≤ fuel
      → 0 < fuel
      → Arrives S this exit states d
      → (state : DfaState E Request) × (follow_policies fuel states request d ≡ ok state)
        × Ends this state
  policies_end fuel request d k l (inl e) = (
    exit_state exit,
    ap (follow_policies fuel states request) e ∙ exit_ends_from fuel request l,
    exit_Ends this exit,
  )
  policies_end fuel request d k l (inr (i, n, e, h)) =
      let (state, run, ends) =
        follow_policies_arrives fuel request i n h
          (omega (arith, k, Stands-below S this exit states i n h)) in
      (state, ap (follow_policies fuel states request) e ∙ run, ends)

-- The two loops on the states of a tree.
pub find_candidate_set-all_states :
    {E S Request : Type 0} (this : DfaMatcherBuilder E) (root : DfaNode E S Request)
    (request : Request) (path : List ℕ) (segments : List PathSegment)
    → (state : DfaState E Request) × (find_candidate_set this.lower
          (all_states this root)
          request
          path
          segments
        ≡ ok state)
      × Ends this state
unfolding find_candidate_set Lies all_states
find_candidate_set-all_states {S} this root request path segments =
    let exit = suc (below root) in
    let states = all_states this root in
    let first = layout this exit 0 root in
    let long = length-layout this exit root 0 in
    let (stands, last) =
      Lies-append states 0 exit first (exit_state exit ∷ []) (omega (arith, long))
        (Lies_refl states) in
    let (d, walked, there) =
      follow_path-Arrives S this exit states last.0 path segments (pos 0)
        (inr (0, root, refl, stands)) in
    let some_state = Stands-below S this exit states 0 root stands in
    let (state, run, ends) =
      policies_end S this exit states last.0 (length states) request d (omega arith)
        (omega (arith, some_state)) there in
    (state, and_then-ok (λ d. follow_policies (length states) states request d) walked ∙ run, ends)

-- Matching arrives: if every match is a route's endpoint without a complex segment, a node with
-- policy edges has a node builder, and nothing is numbered before a link from a node to itself,
-- then build makes an array of states without a hole, and for every request, path and list of
-- segments findCandidateSet on it ends without an error. The state that it ends in has no
-- policy table; some endpoints, each with the score 0 and without flags, are its candidates,
-- and its policies are the endpoint selector policies that apply to them.
pub find_candidate_set-build :
    {E S Request : Type 0} (this : DfaMatcherBuilder E) (root : DfaNode E S Request)
    (request : Request) (path : List ℕ) (segments : List PathSegment)
    → IsBuildable this.path_segments root
    → (states : List (DfaState E Request)) × (count : ℕ) × (state : DfaState E Request) × (build
          this root
        ≡ ok (map some states, count))
      × (find_candidate_set this.lower states request path segments ≡ ok state)
      × Ends this state
find_candidate_set-build this root request path segments h =
    let (state, run, ends) = find_candidate_set-all_states this root request path segments in
    (
      all_states this root,
      suc (visit count_segments root 0),
      state,
      build-all_states this root h,
      run,
      ends,
    )
