-- ===== src/Routing/DfaMatcherBuilder/Tree/Growth.antt =====
-- DfaMatcherBuilder.buildDfaTree: the trees that it makes have the form that `build` relies on.
use yohira.Common.{
  ℕ, ◌≡◌, refl, sym, subst, inl, inr, Bool-cases, List, [], ◌∷◌, ◌++◌, Option, none, ℤ, All,
}
use yohira.Routing.JumpTables.{eqb}
use yohira.Routing.Patterns.{
  catch_all, standard, optional, RoutePatternPart, parameter, separator,
  compute_inbound_precedence_digit,
}
use yohira.Routing.Patterns as Patterns
use yohira.Routing.DfaMatcherBuilder.{
  DfaNode, node, Literals, nil, literal, Link, absent, self, child, end,
}
use yohira.Routing.DfaMatcherBuilder.Layout.{
  count_literals, IsRoutable, IsBuildable, AreBuildable, IsLinkBuildable, AreEdgesBuildable, Loops,
  HasBuilder,
}
use yohira.Routing.DfaMatcherBuilder.Tree.{
  to_literal, to_parameters, Address, add_match, literal_or_new, parameters_or_new, catch_all_match,
  process_parent, at_literal, at_link, at_address, process_segment, add_matches,
}

add_end :
    {E : Type 0} (P : E → Type 0) (es : List E) (e : E) → All P es → P e → All P (es ++ (e ∷ []))
add_end P [] e h k = (k, tt)
add_end P (d ∷ es) e h k = (h.0, add_end P es e h.1 k)

-- A tree as it grows: without policies, and loops at catch-all nodes alone, which lead nowhere else.
module _ {E S Request : Type 0} (P : E → Type 0) where
  abbrev pub IsLoop : Link E S Request → Type 0
  IsLoop absent = Unit
  IsLoop self = Unit {0} × ⊥
  IsLoop (child (node d matches ls p c builder es)) =
      All P matches × (ls ≡ nil) × (p ≡ self) × (c ≡ self) × (builder ≡ none) × (es ≡ end)

  unfoldable mutual
    pub IsGrown : DfaNode E S Request → Type 0
    IsGrown (node d matches ls p c builder es) =
        All P matches × AreGrown ls × IsLinkGrown p × IsLoop c × (builder ≡ none) × (es ≡ end)

    pub AreGrown : Literals E S Request → Type 0
    AreGrown nil = Unit
    AreGrown (literal key n ls) = IsGrown n × AreGrown ls

    pub IsLinkGrown : Link E S Request → Type 0
    IsLinkGrown absent = Unit
    IsLinkGrown self = Unit {0} × ⊥
    IsLinkGrown (child n) = IsGrown n

  add_match-IsGrown : (e : E) (n : DfaNode E S Request) → P e → IsGrown n → IsGrown (add_match e n)
  unfolding IsGrown add_match
  add_match-IsGrown e (node d matches ls p c builder es) k h =
      (add_end P matches e h.0 k, h.1, h.2, h.3, h.4, h.5)

  literal_or_new-AreGrown :
      (k : List ℕ) (d : ℤ) (ls : Literals E S Request)
      → AreGrown ls
      → AreGrown (literal_or_new k d ls)
  unfolding IsGrown literal_or_new
  literal_or_new-AreGrown k d nil h = ((tt, tt, tt, tt, refl, refl), tt)
  literal_or_new-AreGrown k d (literal key n ls) h = elim (Bool-cases (eqb key k)) [
    | inl e ↦ rw e h
    | inr e ↦ rw e (h.0, literal_or_new-AreGrown k d ls h.1)
  ]

  parameters_or_new-IsLinkGrown :
      (d : ℤ) (p : Link E S Request) → IsLinkGrown p → IsLinkGrown (parameters_or_new d p)
  unfolding IsGrown parameters_or_new
  parameters_or_new-IsLinkGrown d absent h = (tt, tt, tt, tt, refl, refl)
  parameters_or_new-IsLinkGrown d self h = h
  parameters_or_new-IsLinkGrown d (child n) h = h

  catch_all_match-IsLoop :
      (d : ℤ) (e : E) (c : Link E S Request) → P e → IsLoop c → IsLoop (catch_all_match d e c)
  unfolding catch_all_match add_match
  catch_all_match-IsLoop d e absent k h = ((k, tt), refl, refl, refl, refl, refl)
  catch_all_match-IsLoop d e self k h = h
  catch_all_match-IsLoop d e (child (node d' matches ls p c builder es)) k h =
      (add_end P matches e h.0 k, h.1, h.2, h.3, h.4, h.5)

  process_parent-IsGrown :
      (lower : List ℕ → List ℕ) (s : List RoutePatternPart) (e : E) (n : DfaNode E S Request)
      → P e
      → IsGrown n
      → IsGrown ((process_parent lower s e n).0)
  unfolding IsGrown process_parent
  process_parent-IsGrown lower (Patterns.literal x ∷ []) e (node d matches ls p c builder es) k h =
      (h.0, literal_or_new-AreGrown _ _ ls h.1, h.2, h.3, h.4, h.5)
  process_parent-IsGrown lower (parameter x catch_all y ∷ []) e (node d matches ls p c builder es) k
        h =
      (h.0, h.1, h.2, catch_all_match-IsLoop _ e c k h.3, h.4, h.5)
  process_parent-IsGrown lower (parameter x standard y ∷ []) e (node d matches ls p c builder es) k
        h =
      (h.0, h.1, parameters_or_new-IsLinkGrown _ p h.2, h.3, h.4, h.5)
  process_parent-IsGrown lower (parameter x optional y ∷ []) e (node d matches ls p c builder es) k
        h =
      (h.0, h.1, parameters_or_new-IsLinkGrown _ p h.2, h.3, h.4, h.5)
  process_parent-IsGrown lower (separator x ∷ []) e (node d matches ls p c builder es) k h =
      (h.0, h.1, parameters_or_new-IsLinkGrown _ p h.2, h.3, h.4, h.5)
  process_parent-IsGrown lower ([]) e (node d matches ls p c builder es) k h =
      (h.0, h.1, parameters_or_new-IsLinkGrown _ p h.2, h.3, h.4, h.5)
  process_parent-IsGrown lower (Patterns.literal x ∷ q ∷ s) e (node d matches ls p c builder es) k
        h =
      (h.0, h.1, parameters_or_new-IsLinkGrown _ p h.2, h.3, h.4, h.5)
  process_parent-IsGrown lower (parameter x catch_all z ∷ q ∷ s) e
        (node d matches ls p c builder es) k h =
      (h.0, h.1, parameters_or_new-IsLinkGrown _ p h.2, h.3, h.4, h.5)
  process_parent-IsGrown lower (parameter x standard z ∷ q ∷ s) e (node d matches ls p c builder es)
        k h =
      (h.0, h.1, parameters_or_new-IsLinkGrown _ p h.2, h.3, h.4, h.5)
  process_parent-IsGrown lower (parameter x optional z ∷ q ∷ s) e (node d matches ls p c builder es)
        k h =
      (h.0, h.1, parameters_or_new-IsLinkGrown _ p h.2, h.3, h.4, h.5)
  process_parent-IsGrown lower (separator x ∷ q ∷ s) e (node d matches ls p c builder es) k h =
      (h.0, h.1, parameters_or_new-IsLinkGrown _ p h.2, h.3, h.4, h.5)

  at_literal-AreGrown :
      {A : Type 0} (f : DfaNode E S Request → DfaNode E S Request × List A) (k : List ℕ)
      (ls : Literals E S Request)
      → ((n : DfaNode E S Request) → IsGrown n → IsGrown ((f n).0))
      → AreGrown ls
      → AreGrown ((at_literal f k ls).0)
  unfolding IsGrown at_literal
  at_literal-AreGrown f k nil g h = h
  at_literal-AreGrown f k (literal key n ls) g h = elim (Bool-cases (eqb key k)) [
    | inl e ↦ rw e (g n h.0, h.1)
    | inr e ↦ rw e (h.0, at_literal-AreGrown f k ls g h.1)
  ]

  at_link-IsLinkGrown :
      {A : Type 0} (f : DfaNode E S Request → DfaNode E S Request × List A) (l : Link E S Request)
      → ((n : DfaNode E S Request) → IsGrown n → IsGrown ((f n).0))
      → IsLinkGrown l
      → IsLinkGrown ((at_link f l).0)
  unfolding IsGrown at_link
  at_link-IsLinkGrown f absent g h = h
  at_link-IsLinkGrown f self g h = h
  at_link-IsLinkGrown f (child n) g h = g n h

  at_address-IsGrown :
      {A : Type 0} (a : Address) (f : DfaNode E S Request → DfaNode E S Request × List A)
      → ((n : DfaNode E S Request) → IsGrown n → IsGrown ((f n).0))
      → (n : DfaNode E S Request) → IsGrown n
      → IsGrown ((at_address a f n).0)
  unfolding IsGrown at_address
  at_address-IsGrown [] f g n h = g n h
  at_address-IsGrown (to_literal k ∷ a) f g (node d matches ls p c builder es) h = (
    h.0,
    at_literal-AreGrown (at_address a f) k ls (at_address-IsGrown a f g) h.1,
    h.2,
    h.3,
    h.4,
    h.5,
  )
  at_address-IsGrown (to_parameters ∷ a) f g (node d matches ls p c builder es) h = (
    h.0,
    h.1,
    at_link-IsLinkGrown (at_address a f) p (at_address-IsGrown a f g) h.2,
    h.3,
    h.4,
    h.5,
  )

  pub process_segment-IsGrown :
      (lower : List ℕ → List ℕ) (s : List RoutePatternPart) (e : E) (parents : List Address)
      (n : DfaNode E S Request)
      → P e
      → IsGrown n
      → IsGrown ((process_segment lower s e parents n).0)
  unfolding process_segment
  process_segment-IsGrown lower s e [] n k h = h
  process_segment-IsGrown lower s e (a ∷ parents) n k h =
      process_segment-IsGrown lower s e parents _ k (
        at_address-IsGrown a (process_parent lower s e) (λ m. process_parent-IsGrown lower s e m k)
          n h)

  pub add_matches-IsGrown :
      (e : E) (parents : List Address) (n : DfaNode E S Request)
      → P e
      → IsGrown n
      → IsGrown (add_matches e parents n)
  unfolding add_matches
  add_matches-IsGrown e [] n k h = h
  add_matches-IsGrown e (a ∷ parents) n k h = add_matches-IsGrown e parents _ k (
      at_address-IsGrown {A = Unit} a (λ n. (add_match e n, [])) (λ m. add_match-IsGrown e m k) n h)

-- A finished tree is one that `build` numbers.
loop-IsBuildable :
    {E S Request : Type 0} (path_segments : E → Option (List (List RoutePatternPart)))
    (c : Link E S Request)
    → IsLoop (IsRoutable path_segments) c
    → IsLinkBuildable path_segments c × ((k : ℕ) → Loops k c)
unfolding IsBuildable count_literals
loop-IsBuildable path_segments absent h = (tt, λ k. tt)
loop-IsBuildable path_segments self h = absurd (h.1)
loop-IsBuildable path_segments (child (node d matches ls p c builder es)) (all, e, f, g, _, i) = (
  subst (λ x. IsBuildable path_segments (node d matches x p c builder es)) (sym e)
      (subst (λ x. IsBuildable path_segments (node d matches nil x c builder es)) (sym f)
        (subst (λ x. IsBuildable path_segments (node d matches nil self x builder es)) (sym g)
          (subst (λ x. IsBuildable path_segments (node d matches nil self self builder x)) (sym i)
            (all, refl, refl, tt, tt, tt, tt, tt)))),
  λ k. tt,
)

mutual
  unfolding IsGrown IsBuildable

  pub IsGrown-IsBuildable :
      {E S Request : Type 0} (path_segments : E → Option (List (List RoutePatternPart)))
      (n : DfaNode E S Request)
      → IsGrown (IsRoutable path_segments) n
      → IsBuildable path_segments n
  IsGrown-IsBuildable path_segments (node d matches ls p c builder es)
        (all, hs, hp, hc, _, no_edges) =
      let (p_ok, p_loops) = IsLinkGrown-IsLinkBuildable path_segments p hp in
      let (c_ok, c_loops) = loop-IsBuildable path_segments c hc in
      (
        all,
        p_loops _,
        c_loops _,
        subst (λ x. HasBuilder builder x) (sym no_edges) tt,
        AreGrown-AreBuildable path_segments ls hs,
        p_ok,
        c_ok,
        subst (λ x. AreEdgesBuildable path_segments x) (sym no_edges) tt,
      )

  AreGrown-AreBuildable :
      {E S Request : Type 0} (path_segments : E → Option (List (List RoutePatternPart)))
      (ls : Literals E S Request)
      → AreGrown (IsRoutable path_segments) ls
      → AreBuildable path_segments ls
  AreGrown-AreBuildable path_segments nil h = tt
  AreGrown-AreBuildable path_segments (literal key n ls) h =
      (IsGrown-IsBuildable path_segments n h.0, AreGrown-AreBuildable path_segments ls h.1)

  IsLinkGrown-IsLinkBuildable :
      {E S Request : Type 0} (path_segments : E → Option (List (List RoutePatternPart)))
      (l : Link E S Request)
      → IsLinkGrown (IsRoutable path_segments) l
      → IsLinkBuildable path_segments l × ((k : ℕ) → Loops k l)
  IsLinkGrown-IsLinkBuildable path_segments absent h = (tt, λ k. tt)
  IsLinkGrown-IsLinkBuildable path_segments self h = absurd (h.1)
  IsLinkGrown-IsLinkBuildable path_segments (child n) h =
      (IsGrown-IsBuildable path_segments n h, λ k. tt)
