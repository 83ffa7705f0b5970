-- ===== src/Routing/DfaMatcher/Walk.antt =====
-- DfaMatcher.findCandidateSet: its loop over the policies' tables ends.
use yohira.Common.{
  ℕ, zero, suc, ◌+◌, ◌≤◌, ◌<◌, ◌≡◌, refl, List, [], ◌∷◌, length, get_elem?, Option, none, some,
  Option-cases, inl, inr, ℤ, pos, ok, err, and_then-ok, ap, ◌∙◌, arith,
}
use yohira.Routing.DfaMatcher.{DfaState, no_such_state, follow_policies}

pub get_elem?_within {ℓ} :
    {A : Type ℓ} (xs : List A) (i : ℕ) → i < length xs → (x : A) × (get_elem? xs i ≡ some x)
get_elem?_within [] i h = ground arith
get_elem?_within (x ∷ xs) zero h = (x, refl)
get_elem?_within (x ∷ xs) (suc i) h = get_elem?_within xs i (omega (arith, h))

module _ {E Request : Type 0} where
  -- A policy's table leads to a later state.
  abbrev pub LeadsOn : List (DfaState E Request) → Request → Type 0
  LeadsOn states request =
      (i : ℕ) (state : DfaState E Request) (table : Request → ℤ)
      → get_elem? states i ≡ some state
      → state.policy_transitions ≡ some table
      → (j : ℕ) × (table request ≡ pos j) × (i < j) × (j < length states)

  pub turn :
      (fuel : ℕ) (states : List (DfaState E Request)) (request : Request) (i : ℕ)
      (state : DfaState E Request) {table : Option (Request → ℤ)}
      → get_elem? states i ≡ some state
      → state.policy_transitions ≡ table
      → follow_policies (suc fuel) states request (pos i)
        ≡ elim table [ none ↦ ok state | some t ↦ follow_policies fuel states request (t request) ]
  unfolding follow_policies
  turn fuel states request i state h k =
      and_then-ok
        (λ s. elim s.policy_transitions [
          | none ↦ ok s
          | some t ↦ follow_policies fuel states request (t request)
        ])
        (ap (λ o. elim o [ none ↦ err no_such_state | some s ↦ ok s ]) h)
      ∙ ap
          (λ o. elim o [
            | none ↦ ok state
            | some t ↦ follow_policies fuel states request (t request)
          ])
          k

  -- The loop ends. Where every policy's table leads to a later state that exists, from any state, as
  -- many turns as there are states from it on are enough: the loop ends without an error, in a
  -- state without a table.
  pub follow_policies-ends :
      (fuel : ℕ) (states : List (DfaState E Request)) (request : Request) (i : ℕ)
      → LeadsOn states request
      → i < length states
      → length states ≤ fuel + i
      → (state : DfaState E Request) × (follow_policies fuel states request (pos i) ≡ ok state)
        × (state.policy_transitions ≡ none)
  unfolding follow_policies
  follow_policies-ends zero states request i leads h k = ground arith
  follow_policies-ends (suc fuel) states request i leads h k =
      let (state, there) = get_elem?_within states i h in
      elim (Option-cases state.policy_transitions) [
        | inl p ↦ (state, turn fuel states request i state there p, p)
        | inr (table, p) ↦
            let (j, leads_to, later, within) = leads i state table there p in
            let (last, run, ends) =
              follow_policies-ends fuel states request j leads within (omega (arith, k, later)) in
            (
              last,
              turn fuel states request i state there p
                  ∙ ap (follow_policies fuel states request) leads_to
                  ∙ run,
              ends,
            )
      ]
