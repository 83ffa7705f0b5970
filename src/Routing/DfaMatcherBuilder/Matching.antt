-- ===== src/Routing/DfaMatcherBuilder/Matching.antt =====
-- DfaMatcherBuilder.build with DfaMatcher.match: the errors that a request can meet.
use yohira.Common.{
  ℕ, ◌≡◌, refl, sym, ap, ap₂, suc, subst, ◌∙◌, ◌⊎◌, inl, inr, true, List, [], ◌∷◌, map, Option,
  some, pos, Outcome, done, thrown, Result, ok, err, and_then, and_then-ok,
}
use yohira.Routing.Tokenizer.{tokenize}
use yohira.Routing.Candidates.{CandidateState}
use yohira.Routing.Selector.{SelectorError, select}
use yohira.Routing.DfaMatcher.{
  DfaState, Policy, MatchError, selector_error, new_candidate, candidate_states, select_default,
  select_endpoint_with_policies, match_all, match_candidates, match_request, as_choice,
}
use yohira.Routing.DfaMatcherBuilder.{
  DfaMatcherBuilder, DfaNode, applying, selector_policies, build, visit, count_segments,
}
use yohira.Routing.DfaMatcherBuilder.Layout.{IsBuildable, all_states}
use yohira.Routing.DfaMatcherBuilder.Arrival.{find_candidate_set-all_states}
use yohira.Routing.DfaMatcherBuilder.Numbering.{build-all_states}

module _ {E : Type 0} where
  -- A result, or the report of an ambiguity.
  abbrev pub Answers : Result (MatchError E) (Option E) → Type 0
  Answers r =
      ((endpoint : Option E) × (r ≡ ok endpoint))
      ⊎ ((e : SelectorError E) × (r ≡ err (selector_error e)))

  candidate_states_ok :
      (es : List E)
      → candidate_states (map (λ e. new_candidate (some e) (pos 0)) es)
        ≡ ok (map (λ e. record { endpoint = some e; score = pos 0 }) es)
  unfolding candidate_states new_candidate
  candidate_states_ok [] = refl
  candidate_states_ok (e ∷ es) = rw (candidate_states_ok es, candidate_states) refl

  as_choice-Answers :
      (states : List (CandidateState E)) (o : Outcome (SelectorError E) (Option E) (Unit {0}))
      → Answers (and_then (as_choice states o) λ choice. ok (choice.1))
  as_choice-Answers states (done _ context) = inl (context, refl)
  as_choice-Answers states (thrown e context) = inr (e, refl)

  match_all-Answers :
      (selector : Policy E) (es : List E) (context : Option E)
      → Answers (match_all true selector (map (λ e. new_candidate (some e) (pos 0)) es) [] context)
  unfolding match_all select_endpoint_with_policies
  match_all-Answers selector es context =
      rw (candidate_states_ok es, match_all)
        (as_choice-Answers _
          (select (map (λ e. record { endpoint = some e; score = pos 0 }) es) context))

  match_candidates-Answers :
      (selector : Policy E) (es : List E) (context : Option E)
      → Answers
          (match_candidates true selector (map (λ e. new_candidate (some e) (pos 0)) es) [] context)
  unfolding match_candidates new_candidate
  match_candidates-Answers selector [] context = inl (context, refl)
  match_candidates-Answers selector (e ∷ []) context = inl (some e, refl)
  match_candidates-Answers selector (e ∷ f ∷ es) context =
      match_all-Answers selector (e ∷ f ∷ es) context

  no_policies : (es : List E) → selector_policies [] es ≡ []
  unfolding selector_policies applying
  no_policies [] = refl
  no_policies (e ∷ es) = refl

-- From a tree to the answer.
pub match_request-build :
    {E S Request : Type 0} (this : DfaMatcherBuilder E) (root : DfaNode E S Request)
    (request : Request) (path : List ℕ) (context : Option E)
    → IsBuildable this.path_segments root
    → this.endpoint_selector_policies ≡ []
    → (states : List (DfaState E Request)) × (count : ℕ) × (build this root
        ≡ ok (map some states, count))
      × Answers (match_request this.lower true select_default states count request path context)
unfolding match_request
match_request-build this root request path context h no_policy =
    let count = suc (visit count_segments root 0) in
    let states = all_states this root in
    let (state, run, (_, endpoints, candidates, policies)) =
      find_candidate_set-all_states this root request path (tokenize path count) in
    let none_apply : state.policies ≡ [] =
      policies ∙ (ap (λ ps. selector_policies ps endpoints) no_policy ∙ no_policies endpoints) in
    let same =
      and_then-ok
        (λ state. match_candidates true select_default state.candidates state.policies context) run
      ∙ ap₂ (λ cs ps. match_candidates true select_default cs ps context) candidates none_apply in
    (
      states,
      count,
      build-all_states this root h,
      subst Answers (sym same) (match_candidates-Answers select_default endpoints context),
    )
