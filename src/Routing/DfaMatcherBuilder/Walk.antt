-- ===== src/Routing/DfaMatcherBuilder/Walk.antt =====
-- DfaMatcher.findCandidateSet, its first loop: a walk in the tree of nodes, without the states.
use yohira.Common.{
  ℕ, suc, ◌+◌, ◌≡◌, if◌then◌else◌, ◌==◌, List, [], ◌∷◌, length, Option, none, some, ℤ, pos,
}
use yohira.Routing.Tokenizer.{PathSegment, text}
use yohira.Routing.JumpTables.{ignore_case_equals}
use yohira.Routing.JumpTables.Lookup.{KeepsLength}
use yohira.Routing.DfaMatcher.{DfaState}
use yohira.Routing.DfaMatcherBuilder.{
  DfaMatcherBuilder, DfaNode, node, Literals, nil, literal, Link, absent, self, child,
}
use yohira.Routing.DfaMatcherBuilder.Layout.{
  below, count_literals, count_link, state_of, exit_state,
}

-- A node of the tree, with its number, or no node: the path has left the tree.
abbrev pub Place : Type 0 → Type 0 → Type 0 → Type 0
Place E S Request = Option (ℕ × DfaNode E S Request)

module _ {E S Request : Type 0} where
  abbrev pub or_place : Place E S Request → Place E S Request → Place E S Request
  or_place (some x) y = some x
  or_place none y = y

  -- The node that the literal leads to, case ignored. The last of several is taken.
  unfoldable pub literal_place :
      (List ℕ → List ℕ) → List ℕ → ℕ → Literals E S Request → Place E S Request
  literal_place lower t i nil = none
  literal_place lower t i (literal key n ls) =
      or_place (literal_place lower t (suc (i + below n)) ls)
        (if ignore_case_equals lower key t then some (i, n) else none)

  unfoldable pub link_place : Place E S Request → ℕ → Link E S Request → Place E S Request
  link_place here i absent = none
  link_place here i self = here
  link_place here i (child n) = some (i, n)

  -- An empty segment goes to the catch-all node. Any other goes to the literal's node, or to the
  -- parameter's, or to the catch-all node.
  unfoldable pub next_place :
      (List ℕ → List ℕ) → List ℕ → PathSegment → ℕ → DfaNode E S Request → Place E S Request
  next_place lower path s i (node depth matches ls p c builder es) =
      let here = some (i, node depth matches ls p c builder es) in
      let q = suc (i + count_literals ls) in
      let r = suc (i + count_literals ls + count_link p) in
      let to_catch_all = link_place here r c in
      if s.length == 0
      then to_catch_all
      else or_place (literal_place lower (text path s) (suc i) ls)
          (or_place (link_place here q p) to_catch_all)

  unfoldable pub walk :
      (List ℕ → List ℕ) → List ℕ → List PathSegment → Place E S Request → Place E S Request
  walk lower path [] x = x
  walk lower path (s ∷ segments) none = none
  walk lower path (s ∷ segments) (some (i, n)) =
      walk lower path segments (next_place lower path s i n)

-- The number of a place's state.
abbrev pub number : {E S Request : Type 0} → ℕ → Place E S Request → ℤ
number exit none = pos exit
number exit (some (i, n)) = pos i

-- The state of a place: off the tree, the exit state.
abbrev pub state_of_place :
    {E S Request : Type 0} → DfaMatcherBuilder E → ℕ → Place E S Request → DfaState E Request
state_of_place this exit none = exit_state exit
state_of_place this exit (some (i, n)) = state_of this exit i n

-- The keys that a walk meets keep their length in lower case.
module _ {E S Request : Type 0} (lower : List ℕ → List ℕ) where
  unfoldable mutual
    pub KeysKeep : DfaNode E S Request → Type 0
    KeysKeep (node depth matches ls p c builder es) = LiteralsKeep ls × LinkKeeps p × LinkKeeps c

    pub LiteralsKeep : Literals E S Request → Type 0
    LiteralsKeep nil = Unit
    LiteralsKeep (literal key n ls) = KeepsLength lower key × KeysKeep n × LiteralsKeep ls

    pub LinkKeeps : Link E S Request → Type 0
    LinkKeeps absent = Unit
    LinkKeeps self = Unit
    LinkKeeps (child n) = KeysKeep n

-- The segment lies in the path, and keeps its length in lower case.
abbrev pub Spans : (List ℕ → List ℕ) → List ℕ → PathSegment → Type 0
Spans lower path s = (length (text path s) ≡ s.length) × KeepsLength lower (text path s)
