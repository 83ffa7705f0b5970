-- ===== src/Routing/DfaMatcherBuilder/Tree/Levels.antt =====
-- DfaMatcherBuilder.buildDfaTree: its loops over the levels end without an error.
use yohira.Common.{
  ℕ, zero, suc, ◌≡◌, refl, ◌∙◌, inl, inr, Bool, true, false, Bool-cases, List, [], ◌∷◌, length,
  get_elem?, ltb, if◌then◌else◌, Option, none, some, pos, ok, and_then-ok, All, arith,
}
use yohira.Routing.Patterns.{
  RoutePatternPart, literal, parameter, separator, catch_all, standard, optional, is_catch_all,
  compute_inbound_precedence_digit,
}
use yohira.Routing.DfaMatcherBuilder.{DfaNode}
use yohira.Routing.DfaMatcherBuilder.Tree.{
  RouteEndpoint, Address, last_segment, catch_all_segment, get_current_segment,
  get_precedence_digit_at_depth, has_additional_required_segments, new_node, process_segment,
  add_matches,
}
use yohira.Routing.DfaMatcherBuilder.Tree.Worker.{
  WorkItem, put, Level, next_item, process_at, process_items, process_levels, seed_work, max_depth,
  build_dfa_tree,
}
use yohira.Routing.DfaMatcherBuilder.Tree.Growth.{
  IsGrown, process_segment-IsGrown, add_matches-IsGrown,
}

-- A segment that is one literal or one parameter.
unfoldable pub is_plain : List RoutePatternPart → Bool
is_plain (literal content ∷ []) = true
is_plain (parameter name kind encode_slashes ∷ []) = true
is_plain segment = false

abbrev pub IsPlain : List RoutePatternPart → Type 0
IsPlain s = is_plain s ≡ true

abbrev Holds : {A : Type 0} → (A → Type 0) → Option A → Type 0
Holds P none = Unit
Holds P (some x) = P x

get_elem?-Holds :
    {A : Type 0} (P : A → Type 0) (xs : List A) (i : ℕ) → All P xs → Holds P (get_elem? xs i)
get_elem?-Holds P [] i h = tt
get_elem?-Holds P (x ∷ xs) zero h = h.0
get_elem?-Holds P (x ∷ xs) (suc i) h = get_elem?-Holds P xs i h.1

last_segment-Holds :
    (ss : List (List RoutePatternPart)) → All IsPlain ss → Holds IsPlain (last_segment ss)
unfolding last_segment
last_segment-Holds [] h = tt
last_segment-Holds (s ∷ []) h = h.0
last_segment-Holds (s ∷ t ∷ ss) h = last_segment-Holds (t ∷ ss) h.1

catch_all_segment-Holds :
    (o : Option (List RoutePatternPart)) → Holds IsPlain o → Holds IsPlain (catch_all_segment o)
catch_all_segment-Holds none h = tt
catch_all_segment-Holds (some []) h = tt
catch_all_segment-Holds (some (p ∷ [])) h = elim (Bool-cases (is_catch_all p)) [
  | inl e ↦ rw e h
  | inr e ↦ rw e tt
]
catch_all_segment-Holds (some (p ∷ q ∷ ps)) h = tt

get_current_segment-Holds :
    (ss : List (List RoutePatternPart)) (depth : ℕ)
    → All IsPlain ss
    → Holds IsPlain (get_current_segment ss depth)
unfolding get_current_segment
get_current_segment-Holds ss depth h = elim (Bool-cases (ltb depth (length ss))) [
  | inl e ↦ rw e (get_elem?-Holds IsPlain ss depth h)
  | inr e ↦ rw e (catch_all_segment-Holds (last_segment ss) (last_segment-Holds ss h))
]

digit_of_plain :
    (s : List RoutePatternPart)
    → IsPlain s
    → (digit : ℕ) × (compute_inbound_precedence_digit s ≡ some digit)
unfolding is_plain compute_inbound_precedence_digit
digit_of_plain (literal x ∷ []) h = (1, refl)
digit_of_plain (parameter x catch_all y ∷ []) h = (5, refl)
digit_of_plain (parameter x standard y ∷ []) h = (3, refl)
digit_of_plain (parameter x optional y ∷ []) h = (3, refl)
digit_of_plain [] h = ground arith
digit_of_plain (separator x ∷ []) h = ground arith
digit_of_plain (literal x ∷ q ∷ s) h = ground arith
digit_of_plain (parameter x y z ∷ q ∷ s) h = ground arith
digit_of_plain (separator x ∷ q ∷ s) h = ground arith

digit_of_option :
    (o : Option (List RoutePatternPart))
    → Holds IsPlain o
    → (digit : ℕ) × (elim o [ none ↦ some 0 | some s ↦ compute_inbound_precedence_digit s ]
        ≡ some digit)
digit_of_option none h = (0, refl)
digit_of_option (some s) h = digit_of_plain s h

digit_there :
    (ss : List (List RoutePatternPart)) (depth : ℕ)
    → All IsPlain ss
    → (digit : ℕ) × (get_precedence_digit_at_depth ss depth ≡ some digit)
unfolding get_precedence_digit_at_depth
digit_there ss depth h =
    digit_of_option (get_current_segment ss depth) (get_current_segment-Holds ss depth h)

put-All :
    {A : Type 0} (Q : A → Type 0) (i : ℕ) (x : A) (xs : List A)
    → Q x
    → All Q xs
    → All Q (put i x xs)
unfolding put
put-All Q i x [] q h = (q, tt)
put-All Q zero x (y ∷ ys) q h = (q, h.1)
put-All Q (suc i) x (y ∷ ys) q h = (h.0, put-All Q i x ys q h.1)

-- An endpoint of the kind that is asked for, each segment of it one literal or one parameter.
abbrev pub IsPlainEndpoint : {E : Type 0} → (E → Type 0) → RouteEndpoint E → Type 0
IsPlainEndpoint P e = P e.endpoint × All IsPlain e.path_segments

module _ {E : Type 0} (S Request : Type 0) (P : E → Type 0) (lower : List ℕ → List ℕ) where
  abbrev OnPlain : WorkItem E → Type 0
  OnPlain item = IsPlainEndpoint P item.endpoint

  abbrev Grows : Level E S Request → Type 0
  Grows level = IsGrown P level.root × All OnPlain level.next_work

  matched-IsGrown :
      (b : Bool) (e : E) (parents : List Address) (root : DfaNode E S Request)
      → P e
      → IsGrown P root
      → IsGrown P (if b then root else add_matches e parents root)
  matched-IsGrown true e parents root k h = h
  matched-IsGrown false e parents root k h = add_matches-IsGrown P e parents root k h

  process_at-Grows :
      (depth : ℕ) (item : WorkItem E) (digit : ℕ) (segment : Option (List RoutePatternPart))
      (level : Level E S Request)
      → OnPlain item
      → Grows level
      → Grows (process_at lower depth item digit segment level)
  unfolding process_at
  process_at-Grows depth item digit none level q h = (
    matched-IsGrown (has_additional_required_segments item.endpoint.path_segments depth) _
        item.parents level.root q.0 h.0,
    put-All OnPlain level.next_work_count (next_item item digit []) level.next_work q h.1,
  )
  process_at-Grows depth item digit (some s) level q h =
      let e = item.endpoint.endpoint in
      let root =
        if has_additional_required_segments item.endpoint.path_segments depth
        then level.root
        else add_matches e item.parents level.root in
      (
        process_segment-IsGrown P lower s e item.parents root q.0 (
            matched-IsGrown (has_additional_required_segments item.endpoint.path_segments depth) e
              item.parents level.root q.0 h.0),
        put-All OnPlain level.next_work_count
            (next_item item digit ((process_segment lower s e item.parents root).1)) level.next_work
            q h.1,
      )

  process_items-Grows :
      (depth : ℕ) (work : List (WorkItem E)) (level : Level E S Request)
      → All OnPlain work
      → Grows level
      → (next : Level E S Request) × (process_items lower depth work level ≡ ok next) × Grows next
  unfolding process_items
  process_items-Grows depth [] level q h = (level, refl, h)
  process_items-Grows depth (item ∷ work) level q h =
      let (digit, there) = digit_there item.endpoint.path_segments (suc depth) q.0.1 in
      let segment = get_current_segment item.endpoint.path_segments depth in
      rw (there, process_items)
        (process_items-Grows depth work (process_at lower depth item digit segment level) q.1
          (process_at-Grows depth item digit segment level q.0 h))

  process_levels-IsGrown :
      (n depth : ℕ) (work previous : List (WorkItem E)) (root : DfaNode E S Request)
      → All OnPlain work
      → All OnPlain previous
      → IsGrown P root
      → (tree : DfaNode E S Request) × (process_levels lower n depth work previous root ≡ ok tree)
        × IsGrown P tree
  unfolding process_levels
  process_levels-IsGrown zero depth work previous root q r h = (root, refl, h)
  process_levels-IsGrown (suc n) depth work previous root q r h =
      let start : Level E S Request = record {
        root = root;
        next_work = previous;
        next_work_count = 0;
      } in
      let (level, run, grown) = process_items-Grows depth work start q (h, r) in
      let (tree, rest, last) =
        process_levels-IsGrown n (suc depth) level.next_work work level.root grown.1 q grown.0 in
      (
        tree,
        and_then-ok (λ level. process_levels lower n (suc depth) level.next_work work level.root)
              run
            ∙ rest,
        last,
      )

  seed_work-OnPlain :
      (es : List (RouteEndpoint E))
      → All (IsPlainEndpoint P) es
      → (work : List (WorkItem E)) × (seed_work es ≡ ok work) × All OnPlain work
  unfolding seed_work
  seed_work-OnPlain [] h = ([], refl, tt)
  seed_work-OnPlain (e ∷ es) h =
      let (digit, there) = digit_there e.path_segments 0 h.0.1 in
      let (work, run, all) = seed_work-OnPlain es h.1 in
      (
        record { endpoint = e; precedence_digit = digit; parents = [] ∷ [] } ∷ work,
        rw (there, seed_work) rw (run, seed_work) refl,
        (h.0, all),
      )

  pub build_dfa_tree-IsGrown :
      (es : List (RouteEndpoint E))
      → All (IsPlainEndpoint P) es
      → (tree : DfaNode E S Request) × (build_dfa_tree lower es ≡ ok tree) × IsGrown P tree
  unfolding build_dfa_tree IsGrown
  build_dfa_tree-IsGrown es h =
      let (work, run, all) = seed_work-OnPlain es h in
      let (tree, rest, grown) =
        process_levels-IsGrown (suc (max_depth es)) 0 work [] (new_node (pos 0)) all tt
          (tt, tt, tt, tt, refl, refl) in
      (
        tree,
        and_then-ok (λ work. process_levels lower (suc (max_depth es)) 0 work [] (new_node (pos 0)))
              run
            ∙ rest,
        grown,
      )
