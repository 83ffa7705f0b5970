-- ===== src/Routing/DfaMatcherBuilder/Sizes.antt =====
-- DfaMatcherBuilder.build: how many states a layout has, and how many nodes `visit` comes to.
use yohira.Common.{ℕ, suc, ◌+◌, ◌≡◌, refl, ◌++◌, length, length-append, arith}
use yohira.Routing.DfaMatcherBuilder.{
  DfaMatcherBuilder, DfaNode, node, Literals, nil, literal, Link, absent, self, child, PolicyEdges,
  end, edge, visit, visit_literals, visit_link, visit_edges, count_state,
}
use yohira.Routing.DfaMatcherBuilder.Layout.{
  below, count_literals, count_link, count_edges, layout, literals_layout, link_layout,
  edges_layout,
}

module _ {E S Request : Type 0} (this : DfaMatcherBuilder E) (exit : ℕ) where
  -- A layout has a state for the node and each below it.
  mutual
    unfolding below layout

    pub length-layout :
        (n : DfaNode E S Request) (i : ℕ) → length (layout this exit i n) ≡ suc (below n)
    length-layout (node depth matches ls p c builder es) i =
        let q = suc (i + count_literals ls) in
        let r = suc (i + count_literals ls + count_link p) in
        let t = suc (i + count_literals ls + count_link p + count_link c) in
        let a = literals_layout this exit (suc i) ls in
        let b = link_layout this exit q p in
        let d = link_layout this exit r c in
        let e = edges_layout this exit t es in
        omega (
          arith,
          length-append ((a ++ b) ++ d) e,
          length-append (a ++ b) d,
          length-append a b,
          length-literals_layout ls (suc i),
          length-link_layout p q,
          length-link_layout c r,
          length-edges_layout es t,
        )

    pub length-literals_layout :
        (ls : Literals E S Request) (i : ℕ)
        → length (literals_layout this exit i ls) ≡ count_literals ls
    length-literals_layout nil i = refl
    length-literals_layout (literal key n ls) i = omega (
      arith,
      length-append (layout this exit i n) (literals_layout this exit (suc (i + below n)) ls),
      length-layout n i,
      length-literals_layout ls (suc (i + below n)),
    )

    pub length-link_layout :
        (l : Link E S Request) (i : ℕ) → length (link_layout this exit i l) ≡ count_link l
    length-link_layout absent i = refl
    length-link_layout self i = refl
    length-link_layout (child n) i = length-layout n i

    pub length-edges_layout :
        (es : PolicyEdges E S Request) (i : ℕ)
        → length (edges_layout this exit i es) ≡ count_edges es
    length-edges_layout end i = refl
    length-edges_layout (edge s n es) i = omega (
      arith,
      length-append (layout this exit i n) (edges_layout this exit (suc (i + below n)) es),
      length-layout n i,
      length-edges_layout es (suc (i + below n)),
    )

-- `visit` comes to the node and to each below it, once.
mutual
  unfolding visit below

  pub visit_count :
      {E S Request : Type 0} (n : DfaNode E S Request) (k : ℕ)
      → visit count_state n k ≡ k + suc (below n)
  visit_count (node depth matches ls p c builder es) k = omega (
    arith,
    visit_literals_count ls k,
    visit_link_count p (visit_literals count_state ls k),
    visit_link_count c (visit_link count_state p (visit_literals count_state ls k)),
    visit_edges_count es
        (visit_link count_state c (visit_link count_state p (visit_literals count_state ls k))),
  )

  visit_literals_count :
      {E S Request : Type 0} (ls : Literals E S Request) (k : ℕ)
      → visit_literals count_state ls k ≡ k + count_literals ls
  visit_literals_count nil k = omega arith
  visit_literals_count (literal key n ls) k =
      omega (arith, visit_count n k, visit_literals_count ls (visit count_state n k))

  visit_link_count :
      {E S Request : Type 0} (l : Link E S Request) (k : ℕ)
      → visit_link count_state l k ≡ k + count_link l
  visit_link_count absent k = omega arith
  visit_link_count self k = omega arith
  visit_link_count (child n) k = visit_count n k

  visit_edges_count :
      {E S Request : Type 0} (es : PolicyEdges E S Request) (k : ℕ)
      → visit_edges count_state es k ≡ k + count_edges es
  visit_edges_count end k = omega arith
  visit_edges_count (edge s n es) k =
      omega (arith, visit_count n k, visit_edges_count es (visit count_state n k))
