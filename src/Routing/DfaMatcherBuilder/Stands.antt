-- ===== src/Routing/DfaMatcherBuilder/Stands.antt =====
-- DfaMatcherBuilder.build: the places of a node and of those that it leads to among the states.
use yohira.Common.{
  ℕ, suc, ◌+◌, ◌<◌, ◌≡◌, refl, ◌⊎◌, inl, inr, List, ◌++◌, map, length, length-append, get_elem?,
  Option, none, some, ℤ, pos, All, Mem, arith,
}
use yohira.Routing.Tokenizer.{PathSegment}
use yohira.Routing.JumpTables.{get_destination}
use yohira.Routing.DfaMatcher.{DfaState}
use yohira.Routing.DfaMatcherBuilder.{
  NodeBuilderPolicy, DfaMatcherBuilder, DfaNode, node, Literals, nil, literal, Link, absent, self,
  child, PolicyEdges, end, edge, destinations,
}
use yohira.Routing.DfaMatcherBuilder.Layout.{
  below, count_literals, count_link, count_edges, literal_numbers, link_number, edge_numbers,
  policy_table, state_of, layout, literals_layout, link_layout, edges_layout,
}
use yohira.Routing.DfaMatcherBuilder.Places.{Lies, Lies-append, Lies-length, get_destination_lem}
use yohira.Routing.DfaMatcherBuilder.Sizes.{
  length-layout, length-literals_layout, length-link_layout,
}

pub policy_cases :
    {E S Request : Type 0} (exit : ℤ) (builder : Option (NodeBuilderPolicy S Request)) (i : ℕ)
    (es : PolicyEdges E S Request)
    → (policy_table exit builder (edge_numbers i es) ≡ none)
      ⊎ ((b : NodeBuilderPolicy S Request) × (policy_table exit builder (edge_numbers i es)
            ≡ some (b.jump_table exit (edge_numbers i es)))
          × (0 < count_edges es))
unfolding policy_table edge_numbers below
policy_cases exit builder i end = inl refl
policy_cases exit none i (edge s n es) = inl refl
policy_cases exit (some b) i (edge s n es) = inr (b, refl, omega arith)

module _ {E Request : Type 0} (S : Type 0) (this : DfaMatcherBuilder E) (exit : ℕ)
    (states : List (DfaState E Request)) where
  -- The node's states and those of the nodes below it are at their numbers.
  abbrev pub Stands : ℕ → DfaNode E S Request → Type 0
  Stands i n = Lies states i (layout this exit i n)

  -- The number is that of the exit state, or that of a node.
  abbrev pub Arrives : ℤ → Type 0
  Arrives d = (d ≡ pos exit) ⊎ ((i : ℕ) × (n : DfaNode E S Request) × (d ≡ pos i) × Stands i n)

  abbrev ArrivesIf : Option ℤ → Type 0
  ArrivesIf none = Unit
  ArrivesIf (some d) = Arrives d

  pub parts :
      (i : ℕ) (depth : ℤ) (matches : List E) (ls : Literals E S Request) (p c : Link E S Request)
      (builder : Option (NodeBuilderPolicy S Request)) (es : PolicyEdges E S Request)
      → Stands i (node depth matches ls p c builder es)
      → (let q = suc (i + count_literals ls) in
          let r = suc (i + count_literals ls + count_link p) in
          let t = suc (i + count_literals ls + count_link p + count_link c) in
          (get_elem? states i ≡ some (state_of this exit i (node depth matches ls p c builder es)))
          × Lies states (suc i) (literals_layout this exit (suc i) ls)
          × Lies states q (link_layout this exit q p)
          × Lies states r (link_layout this exit r c)
          × Lies states t (edges_layout this exit t es))
  unfolding Lies layout
  parts i depth matches ls p c builder es h =
      let q = suc (i + count_literals ls) in
      let r = suc (i + count_literals ls + count_link p) in
      let t = suc (i + count_literals ls + count_link p + count_link c) in
      let a = literals_layout this exit (suc i) ls in
      let b = link_layout this exit q p in
      let d = link_layout this exit r c in
      let e = edges_layout this exit t es in
      let m = length-literals_layout this exit ls (suc i) in
      let n = length-link_layout this exit p q in
      let o = length-link_layout this exit c r in
      let two = length-append a b in
      let three = length-append (a ++ b) d in
      let (abd, last) =
        Lies-append states (suc i) t ((a ++ b) ++ d) e (omega (arith, m, n, o, two, three)) h.1 in
      let (ab, third) = Lies-append states (suc i) r (a ++ b) d (omega (arith, m, n, two)) abd in
      let (first, second) = Lies-append states (suc i) q a b (omega (arith, m)) ab in
      (h.0, first, second, third, last)

  literals_arrive :
      (i : ℕ) (ls : Literals E S Request)
      → Lies states i (literals_layout this exit i ls)
      → All (λ e. Arrives (e.1)) (literal_numbers i ls)
  unfolding layout literal_numbers
  literals_arrive i nil h = tt
  literals_arrive i (literal key n ls) h =
      let j = suc (i + below n) in
      let (first, rest) =
        Lies-append states i j (layout this exit i n) (literals_layout this exit j ls)
          (omega (arith, length-layout this exit n i)) h in
      (inr (i, n, refl, first), literals_arrive j ls rest)

  link-Arrives :
      (own i : ℕ) (l : Link E S Request)
      → Arrives (pos own)
      → Lies states i (link_layout this exit i l)
      → ArrivesIf (link_number own i l)
  unfolding layout link_number
  link-Arrives own i absent h k = tt
  link-Arrives own i self h k = h
  link-Arrives own i (child n) h k = inr (i, n, refl, k)

  destinations_arrive :
      (p c : Option ℤ)
      → ArrivesIf p
      → ArrivesIf c
      → Arrives ((destinations (pos exit) p c).0) × Arrives ((destinations (pos exit) p c).1)
  destinations_arrive (some p) (some c) h k = (h, k)
  destinations_arrive (some p) none h k = (h, inl refl)
  destinations_arrive none (some c) h k = (k, k)
  destinations_arrive none none h k = (inl refl, inl refl)

  pub edges_arrive :
      (i : ℕ) (es : PolicyEdges E S Request) (d : ℤ)
      → Lies states i (edges_layout this exit i es)
      → Mem d (map (λ e. e.1) (edge_numbers i es))
      → (j : ℕ) × (n : DfaNode E S Request) × (d ≡ pos j) × Stands j n × (below n < count_edges es)
  unfolding layout edge_numbers below
  edges_arrive i end d h m = elim m.1 [ ]
  edges_arrive i (edge s n es) d h m =
      let j = suc (i + below n) in
      let (first, rest) =
        Lies-append states i j (layout this exit i n) (edges_layout this exit j es)
          (omega (arith, length-layout this exit n i)) h in
      elim m [
        | inl e ↦ (i, n, e, first, omega arith)
        | inr k ↦
            let (l, o, e, there, less) = edges_arrive j es d rest k in
            (l, o, e, there, omega (arith, less))
      ]

  pub state-Arrives :
      (i : ℕ) (n : DfaNode E S Request) (path : List ℕ) (segment : PathSegment)
      → Stands i n
      → Arrives (get_destination this.lower (state_of this exit i n).path_transitions path segment)
  unfolding state_of
  state-Arrives i (node depth matches ls p c builder es) path segment h =
      let q = suc (i + count_literals ls) in
      let r = suc (i + count_literals ls + count_link p) in
      let here : Arrives (pos i) = inr (i, node depth matches ls p c builder es, refl, h) in
      let (_, first, second, third, _) = parts i depth matches ls p c builder es h in
      let (default, exits) =
        destinations_arrive (link_number i q p) (link_number i r c) (link-Arrives i q p here second)
          (link-Arrives i r c here third) in
      get_destination_lem Arrives this.lower _ _ (literal_numbers (suc i) ls) path segment default
        exits (literals_arrive (suc i) ls first)

  pub state_there :
      (i : ℕ) (n : DfaNode E S Request)
      → Stands i n
      → get_elem? states i ≡ some (state_of this exit i n)
  state_there i (node depth matches ls p c builder es) h =
      (parts i depth matches ls p c builder es h).0

  pub Stands-below : (i : ℕ) (n : DfaNode E S Request) → Stands i n → below n < length states
  unfolding layout
  Stands-below i (node depth matches ls p c builder es) h =
      let n = node depth matches ls p c builder es in
      omega (arith, Lies-length states i _ _ h, length-layout this exit n i)
