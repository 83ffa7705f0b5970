-- ===== src/Routing/DfaMatcher/FastPath.antt =====
-- DfaMatcher.match: the path for one candidate against the one for any number.
use yohira.Common.{
  ℕ, ◌≡◌, refl, Bool, true, false, not, List, [], ◌∷◌, ◌==◌, Bool-cases, inl, inr, if◌then◌else◌,
  Option, is_neg, ok, err, done, and_then, and_then-ok, sym, ap, ◌∙◌, arith,
}
use yohira.Routing.Candidates.{CandidateState, is_valid}
use yohira.Routing.Selector.{select}
use yohira.Routing.DfaMatcher.{
  Candidate, Policy, candidate_states, match_all, match_candidates, select_endpoint_with_policies,
  choose, not_implemented, as_choice, has_unsupported,
}

unsupported_none : (flags : ℕ) → (flags == 0) ≡ true → has_unsupported flags ≡ false
unsupported_none flags h =
    let zero_flags : flags ≡ 0 = ground arith in ap has_unsupported zero_flags

module _ {E : Type 0} where
  select_one :
      (c : CandidateState E) (context : Option E)
      → is_neg c.score ≡ false
      → select (c ∷ []) context ≡ done tt c.endpoint
  unfolding select is_valid
  select_one c context h = ap (λ b. if not b then done tt c.endpoint else done tt context) h

  one_lem :
      (selector : Policy E) (c : Candidate E) (context : Option E)
      → is_neg c.score ≡ false
      → (c.flags == 0) ≡ true
      → match_all true selector (c ∷ []) [] context ≡ ok c.endpoint
  unfolding match_all candidate_states select_endpoint_with_policies
  one_lem selector c context h p =
      let state : CandidateState E = record { endpoint = c.endpoint; score = c.score } in
      let states : candidate_states (c ∷ []) ≡ ok (state ∷ []) =
        ap (λ b. if b then err not_implemented else ok (state ∷ [])) (unsupported_none c.flags p) in
      and_then-ok
        (λ states. and_then (choose true selector [] (states, context)) λ choice. ok (choice.1))
        states
      ∙ ap (λ o. and_then (as_choice (state ∷ []) o) λ choice. ok (choice.1))
          (select_one state context h)

  -- The fast path changes nothing. Where candidates are found and the first one's score is not
  -- negative, `match` ends as it would without its path for a single candidate: whatever the flags,
  -- policies, selector and context, errors included.
  pub match_candidates-match_all :
      (is_default : Bool) (selector : Policy E) (c : Candidate E) (cs : List (Candidate E))
      (policies : List (Policy E)) (context : Option E)
      → is_neg c.score ≡ false
      → match_candidates is_default selector (c ∷ cs) policies context
        ≡ match_all is_default selector (c ∷ cs) policies context
  unfolding match_candidates match_all candidate_states select is_valid
  match_candidates-match_all is_default selector c (d ∷ cs) policies context h = refl
  match_candidates-match_all is_default selector c [] (p ∷ policies) context h = refl
  match_candidates-match_all false selector c [] [] context h = refl
  match_candidates-match_all true selector c [] [] context h = elim (Bool-cases (c.flags == 0)) [
    | inl p ↦ rw p (sym (one_lem selector c context h p))
    | inr p ↦ rw p refl
  ]
