-- ===== src/Routing/DfaMatcherBuilder/States.antt =====
-- DfaMatcherBuilder.addNode: the state that it makes of a node.
use yohira.Common.{
  ℕ, suc, ◌+◌, ◌≡◌, refl, List, [], ◌∷◌, map, Option, none, some, ℤ, pos, ok, sort, sort-All, All,
  arith,
}
use yohira.Routing.JumpTables.{Entries, choose_table, build_jump_table}
use yohira.Routing.DfaMatcher.{new_candidate}
use yohira.Routing.Patterns.{RoutePatternPart}
use yohira.Routing.DfaMatcherBuilder.{
  NodeBuilderPolicy, DfaMatcherBuilder, node, Literals, Link, absent, self, child, PolicyEdges, end,
  edge, destinations, from_jump_table, build_policy, create_candidate, create_candidates, new_state,
}
use yohira.Routing.DfaMatcherBuilder.Layout.{
  count_literals, count_link, literal_numbers, link_number, edge_numbers, policy_table, HasBuilder,
  IsRoutable, state_of,
}

create_candidates_ok :
    {E : Type 0} (path_segments : E → Option (List (List RoutePatternPart))) (es : List E)
    → All (IsRoutable path_segments) es
    → create_candidates path_segments es ≡ ok (map (λ e. new_candidate (some e) (pos 0)) es)
unfolding create_candidates create_candidate
create_candidates_ok path_segments [] h = refl
create_candidates_ok path_segments (e ∷ es) h =
    let (segments, found, simple) = h.0 in
    rw (found, create_candidates, create_candidate) rw (simple, create_candidates, create_candidate)
      rw (create_candidates_ok path_segments es h.1, create_candidates) refl

build_policy_ok :
    {E S Request : Type 0} (exit : ℤ) (builder : Option (NodeBuilderPolicy S Request))
    (es : PolicyEdges E S Request) (i : ℕ)
    → HasBuilder builder es
    → build_policy exit builder (edge_numbers i es)
      ≡ ok (policy_table exit builder (edge_numbers i es))
unfolding build_policy policy_table edge_numbers
build_policy_ok exit builder end i h = refl
build_policy_ok exit none (edge s n es) i h = absurd (h.1)
build_policy_ok exit (some builder) (edge s n es) i h = refl

pub number_ok :
    (lower : List ℕ → List ℕ) (a b : ℕ) (entries : Entries)
    → from_jump_table (build_jump_table lower (pos a) (pos b) entries)
      ≡ ok (choose_table lower (pos a) (pos b) entries)
unfolding build_jump_table
number_ok lower a b entries = ground arith

table_ok :
    {E S Request : Type 0} (lower : List ℕ → List ℕ) (exit i q r : ℕ) (p c : Link E S Request)
    (entries : Entries)
    → (let d = destinations (pos exit) (link_number i q p) (link_number i r c) in
        from_jump_table (build_jump_table lower (d.0) (d.1) entries)
        ≡ ok (choose_table lower (d.0) (d.1) entries))
unfolding link_number
table_ok lower exit i q r absent absent entries = number_ok lower exit exit entries
table_ok lower exit i q r absent self entries = number_ok lower i i entries
table_ok lower exit i q r absent (child n) entries = number_ok lower r r entries
table_ok lower exit i q r self absent entries = number_ok lower i exit entries
table_ok lower exit i q r self self entries = number_ok lower i i entries
table_ok lower exit i q r self (child n) entries = number_ok lower i r entries
table_ok lower exit i q r (child m) absent entries = number_ok lower q exit entries
table_ok lower exit i q r (child m) self entries = number_ok lower q i entries
table_ok lower exit i q r (child m) (child n) entries = number_ok lower q r entries

module _ {E S Request : Type 0} (this : DfaMatcherBuilder E) (exit : ℕ) where
  -- The state that `addNode` makes is the layout's.
  pub new_state_ok :
      (i : ℕ) (depth : ℤ) (matches : List E) (ls : Literals E S Request) (p c : Link E S Request)
      (builder : Option (NodeBuilderPolicy S Request)) (es : PolicyEdges E S Request)
      → All (IsRoutable this.path_segments) matches
      → HasBuilder builder es
      → new_state this
          (pos exit)
          matches
          (destinations
            (pos exit)
            (link_number i (suc (i + count_literals ls)) p)
            (link_number i (suc (i + count_literals ls + count_link p)) c))
          (literal_numbers (suc i) ls)
          builder
          (edge_numbers (suc (i + count_literals ls + count_link p + count_link c)) es)
        ≡ ok (state_of this exit i (node depth matches ls p c builder es))
  unfolding new_state state_of
  new_state_ok i depth matches ls p c builder es h k =
      rw
        (
          create_candidates_ok this.path_segments (sort this.comparer matches)
              (sort-All (IsRoutable this.path_segments) this.comparer matches h),
          table_ok this.lower exit i (suc (i + count_literals ls))
              (suc (i + count_literals ls + count_link p)) p c (literal_numbers (suc i) ls),
          build_policy_ok (pos exit) builder es
              (suc (i + count_literals ls + count_link p + count_link c)) k,
        )
        refl
