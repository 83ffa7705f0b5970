-- ===== src/Routing/DfaMatcherBuilder/Following.antt =====
-- DfaMatcherBuilder.build with DfaMatcher.findCandidateSet: following the states that are built is
-- walking in the tree of nodes.
use yohira.Common.{
  ℕ, suc, ◌+◌, ◌≡◌, refl, ap, ◌∙◌, inl, inr, Bool, Bool-cases, true, false, if◌then◌else◌, ◌==◌,
  List, [], ◌∷◌, map, get_elem?, Option, none, some, ℤ, pos, ok, err, and_then-ok, All, arith,
}
use yohira.Routing.Tokenizer.{PathSegment, text}
use yohira.Routing.JumpTables.{ignore_case_equals, or_default, get_destination, zero_entry}
use yohira.Routing.JumpTables.Lookup.{
  KeepsLength, last_match, or_else, get_destination-choose_table,
}
use yohira.Routing.DfaMatcher.{DfaState, state_at, follow_path, no_such_state}
use yohira.Routing.DfaMatcherBuilder.{
  DfaMatcherBuilder, DfaNode, node, Literals, nil, literal, Link, absent, self, child, destinations,
  visit, count_segments, build,
}
use yohira.Routing.DfaMatcherBuilder.Layout.{
  below, count_literals, count_link, literal_numbers, link_number, IsBuildable, state_of, layout,
  literals_layout, link_layout, exit_state, all_states,
}
use yohira.Routing.DfaMatcherBuilder.Sizes.{length-layout}
use yohira.Routing.DfaMatcherBuilder.Places.{Lies, Lies_refl, Lies-append}
use yohira.Routing.DfaMatcherBuilder.Numbering.{build-all_states}
use yohira.Routing.DfaMatcherBuilder.Stands.{Stands, parts, state_there}
use yohira.Routing.DfaMatcherBuilder.Walk.{
  Place, or_place, literal_place, link_place, next_place, walk, number, state_of_place, KeysKeep,
  LiteralsKeep, LinkKeeps, Spans,
}

abbrev as_number : {E S Request : Type 0} → Place E S Request → Option ℤ
as_number none = none
as_number (some (i, n)) = some (pos i)

step_number :
    {E S Request : Type 0} (exit : ℕ) (b : Bool) (l p c : Place E S Request)
    → (let d = destinations (pos exit) (as_number p) (as_number c) in
        (if b then d.1 else or_default (as_number l) (d.0))
        ≡ number exit (if b then c else or_place l (or_place p c)))
step_number exit true l (some p) (some c) = refl
step_number exit true l (some p) none = refl
step_number exit true l none (some c) = refl
step_number exit true l none none = refl
step_number exit false (some l) p c = refl
step_number exit false none (some p) (some c) = refl
step_number exit false none (some p) none = refl
step_number exit false none none (some c) = refl
step_number exit false none none none = refl

link_number_place :
    {E S Request : Type 0} (own i : ℕ) (n : DfaNode E S Request) (l : Link E S Request)
    → link_number own i l ≡ as_number (link_place (some (own, n)) i l)
unfolding link_number link_place
link_number_place own i n absent = refl
link_number_place own i n self = refl
link_number_place own i n (child m) = refl

or_else_place :
    {E S Request : Type 0} (x y : Place E S Request)
    → or_else (as_number x) (as_number y) ≡ as_number (or_place x y)
or_else_place (some x) y = refl
or_else_place none y = refl

last_match_place :
    {E S Request : Type 0} (lower : List ℕ → List ℕ) (t : List ℕ) (i : ℕ)
    (ls : Literals E S Request)
    → last_match lower (literal_numbers i ls) t ≡ as_number (literal_place lower t i ls)
unfolding literal_numbers literal_place
last_match_place lower t i nil = refl
last_match_place lower t i (literal key n ls) =
    let rest = last_match_place lower t (suc (i + below n)) ls in
    elim (Bool-cases (ignore_case_equals lower key t)) [
      | inl e ↦
          rw (e, rest) (or_else_place (literal_place lower t (suc (i + below n)) ls) (some (i, n)))
      | inr e ↦ rw (e, rest) (or_else_place (literal_place lower t (suc (i + below n)) ls) none)
    ]

module _ {E S Request : Type 0} (lower : List ℕ → List ℕ) where
  literals_keep :
      (i : ℕ) (ls : Literals E S Request)
      → LiteralsKeep lower ls
      → All (λ e. KeepsLength lower (e.0)) (literal_numbers i ls)
  unfolding KeysKeep literal_numbers
  literals_keep i nil h = tt
  literals_keep i (literal key n ls) h = (h.0, literals_keep (suc (i + below n)) ls h.2)

module _ {E Request : Type 0} (S : Type 0) (this : DfaMatcherBuilder E) (exit : ℕ)
    (states : List (DfaState E Request)) where
  -- The place is off the tree, or its states stand where they should.
  abbrev Good : Place E S Request → Type 0
  Good none = Unit
  Good (some (i, n)) = Stands S this exit states i n × KeysKeep this.lower n

  or_place-Good : (x y : Place E S Request) → Good x → Good y → Good (or_place x y)
  or_place-Good (some x) y h k = h
  or_place-Good none y h k = k

  if_Good : (b : Bool) (x y : Place E S Request) → Good x → Good y → Good (if b then x else y)
  if_Good true x y h k = h
  if_Good false x y h k = k

  literal_place-Good :
      (t : List ℕ) (i : ℕ) (ls : Literals E S Request)
      → Lies states i (literals_layout this exit i ls)
      → LiteralsKeep this.lower ls
      → Good (literal_place this.lower t i ls)
  unfolding literal_place layout KeysKeep
  literal_place-Good t i nil h k = tt
  literal_place-Good t i (literal key n ls) h k =
      let j = suc (i + below n) in
      let (first, rest) =
        Lies-append states i j (layout this exit i n) (literals_layout this exit j ls)
          (omega (arith, length-layout this exit n i)) h in
      or_place-Good _ _ (literal_place-Good t j ls rest k.2)
        (if_Good (ignore_case_equals this.lower key t) (some (i, n)) none (first, k.1) tt)

  link_place-Good :
      (here : Place E S Request) (i : ℕ) (l : Link E S Request)
      → Good here
      → Lies states i (link_layout this exit i l)
      → LinkKeeps this.lower l
      → Good (link_place here i l)
  unfolding link_place layout KeysKeep
  link_place-Good here i absent g h k = tt
  link_place-Good here i self g h k = g
  link_place-Good here i (child n) g h k = (h, k)

  next_place-Good :
      (path : List ℕ) (s : PathSegment) (i : ℕ) (n : DfaNode E S Request)
      → Good (some (i, n))
      → Good (next_place this.lower path s i n)
  unfolding next_place KeysKeep
  next_place-Good path s i (node depth matches ls p c builder es) h =
      let (_, first, second, third, _) =
        parts S this exit states i depth matches ls p c builder es h.0 in
      let (in_literals, in_parameters, in_catch_all) = h.1 in
      let good_c = link_place-Good _ _ c h third in_catch_all in
      if_Good _ _ _ good_c (
        or_place-Good _ _ (literal_place-Good _ _ ls first in_literals)
          (or_place-Good _ _ (link_place-Good _ _ p h second in_parameters) good_c))

  next_place_number :
      (path : List ℕ) (s : PathSegment) (i : ℕ) (n : DfaNode E S Request)
      → Spans this.lower path s
      → KeysKeep this.lower n
      → get_destination this.lower (state_of this exit i n).path_transitions path s
        ≡ number exit (next_place this.lower path s i n)
  unfolding next_place state_of KeysKeep
  next_place_number path s i (node depth matches ls p c builder es) h k =
      let n = node depth matches ls p c builder es in
      let q = suc (i + count_literals ls) in
      let r = suc (i + count_literals ls + count_link p) in
      let here = some (i, n) in
      let x = literal_place this.lower (text path s) (suc i) ls in
      let y = link_place here q p in
      let z = link_place here r c in
      let d = destinations (pos exit) (as_number y) (as_number z) in
      rw (link_number_place i q n p, link_number_place i r n c)
        (get_destination-choose_table this.lower (d.0) (d.1) (literal_numbers (suc i) ls) path s h.0
            h.1 (literals_keep this.lower (suc i) ls k.0)
          ∙ (ap (λ o. if s.length == 0 then d.1 else or_default o (d.0))
                (last_match_place this.lower (text path s) (suc i) ls)
              ∙ step_number exit (s.length == 0) x y z))

  module _ (exit_there : get_elem? states exit ≡ some (exit_state exit)) where
    -- The state at the number of a place.
    place_state :
        (x : Place E S Request)
        → Good x
        → state_at states (number exit x) ≡ ok (state_of_place this exit x)
    place_state none h = ap (λ o. elim o [ none ↦ err no_such_state | some s ↦ ok s ]) exit_there
    place_state (some (i, n)) h =
        ap (λ o. elim o [ none ↦ err no_such_state | some s ↦ ok s ])
          (state_there S this exit states i n h.0)

    exit_step :
        (path : List ℕ) (s : PathSegment)
        → get_destination this.lower (zero_entry (pos exit) (pos exit)) path s ≡ pos exit
    unfolding get_destination
    exit_step path s = elim (Bool-cases (s.length == 0)) [ inl e ↦ rw e refl | inr e ↦ rw e refl ]

    walk_off :
        (path : List ℕ) (segments : List PathSegment)
        → walk {E = E} {S = S} {Request = Request} this.lower path segments none ≡ none
    unfolding walk
    walk_off path [] = refl
    walk_off path (s ∷ segments) = refl

    follow_path_walks :
        (path : List ℕ) (segments : List PathSegment) (x : Place E S Request)
        → Good x
        → All (Spans this.lower path) segments
        → (follow_path this.lower states path segments (number exit x)
            ≡ ok (number exit (walk this.lower path segments x)))
          × Good (walk this.lower path segments x)
    unfolding follow_path walk
    follow_path_walks path [] x h k = (refl, h)
    follow_path_walks path (s ∷ segments) none h k =
        let (run, _) = follow_path_walks path segments none tt k.1 in
        (
          and_then-ok
                (λ state.
                  follow_path this.lower states path segments
                    (get_destination this.lower state.path_transitions path s))
                (place_state none tt)
              ∙ (ap (follow_path this.lower states path segments) (exit_step path s)
                  ∙ (run ∙ ap (λ x. ok (number exit x)) (walk_off path segments))),
          tt,
        )
    follow_path_walks path (s ∷ segments) (some (i, n)) h k =
        let (run, good) =
          follow_path_walks path segments (next_place this.lower path s i n)
            (next_place-Good path s i n h) k.1 in
        (
          and_then-ok
                (λ state.
                  follow_path this.lower states path segments
                    (get_destination this.lower state.path_transitions path s))
                (place_state (some (i, n)) h)
              ∙ (ap (follow_path this.lower states path segments)
                    (next_place_number path s i n k.0 h.1)
                  ∙ run),
          good,
        )

-- A path in the states is a walk in the tree: if every match is a route's endpoint without a
-- complex segment, a node with policy edges has a node builder, and nothing is numbered before
-- a link from a node to itself, and if the literals on the way and the segments keep their
-- length in lower case and the segments lie in the path, then build makes an array of states
-- without a hole, the first loop of findCandidateSet ends at the number of the place that a
-- walk from the root comes to, or at the exit state where the walk leaves the tree, and the
-- state there is that of the place.
pub follow_path-walk :
    {E S Request : Type 0} (this : DfaMatcherBuilder E) (root : DfaNode E S Request) (path : List ℕ)
    (segments : List PathSegment)
    → IsBuildable this.path_segments root
    → KeysKeep this.lower root
    → All (Spans this.lower path) segments
    → (let exit = suc (below root) in
        let place = walk this.lower path segments (some (0, root)) in
        (states : List (DfaState E Request)) × (count : ℕ) × (build this root
          ≡ ok (map some states, count))
        × (follow_path this.lower states path segments (pos 0) ≡ ok (number exit place))
        × (state_at states (number exit place) ≡ ok (state_of_place this exit place)))
unfolding Lies all_states
follow_path-walk {S} this root path segments h keys spans =
    let exit = suc (below root) in
    let states = all_states this root in
    let (stands, last) =
      Lies-append states 0 exit (layout this exit 0 root) (exit_state exit ∷ [])
        (omega (arith, length-layout this exit root 0)) (Lies_refl states) in
    let (run, good) =
      follow_path_walks S this exit states last.0 path segments (some (0, root)) (stands, keys)
        spans in
    (
      states,
      suc (visit count_segments root 0),
      build-all_states this root h,
      run,
      place_state S this exit states last.0 (walk this.lower path segments (some (0, root))) good,
    )
