-- ===== src/Routing/Selector.antt =====
-- packages/routing/src/matching/DefaultEndpointSelector.ts. Of the HTTP context, the state is the
-- endpoint that `setEndpoint` sets. The error carries the endpoints that its message names.
pub mod Priority
use yohira.Common.{
  Bool, true, false, not, List, [], ◌∷◌, if◌then◌else◌, Option, none, some, ℤ, ltb_ℤ, eqb_ℤ,
  Outcome, done, thrown, Action, Result, ok, err,
}
use yohira.Routing.Candidates.{CandidateState, is_valid}

pub data SelectorError (E : Type 0) : Type 0 where
  ambiguous : List (Option E) → SelectorError E

pub data Verdict : Type 0 where
  continue assign stop report : Verdict

-- What the loop of `processFinalCandidates` does with a candidate, from whether it is valid, the
-- score found so far and its own.
unfoldable pub verdict : Bool → Option ℤ → ℤ → Verdict
verdict false found score = continue
verdict true none score = assign
verdict true (some f) score =
    if ltb_ℤ f score then stop else if eqb_ℤ f score then report else continue

module _ {E : Type 0} where
  -- The endpoints that `reportAmbiguity` collects.
  unfoldable pub matches : List (CandidateState E) → List (Option E)
  unfolding is_valid
  matches [] = []
  matches (c ∷ cs) = if is_valid c then c.endpoint ∷ matches cs else matches cs

  -- The loop, with the score and the endpoint found so far; `all` are the candidates that a report
  -- goes through.
  unfoldable pub process_final_candidates :
      List (CandidateState E)
      → Option ℤ
      → Option E
      → List (CandidateState E)
      → Result (SelectorError E) (Option E)
  process_final_candidates all found endpoint [] = ok endpoint
  process_final_candidates all found endpoint (c ∷ cs) = elim (verdict (is_valid c) found c.score) [
    | continue ↦ process_final_candidates all found endpoint cs
    | assign ↦ process_final_candidates all (some c.score) c.endpoint cs
    | stop ↦ ok endpoint
    | report ↦ err (ambiguous (matches all))
  ]

  -- What `processFinalCandidates` does behind its loop.
  abbrev pub settle :
      Result (SelectorError E) (Option E) → Action (SelectorError E) (Option E) (Unit {0})
  settle (err e) context = thrown e context
  settle (ok none) context = done tt context
  settle (ok (some e)) context = done tt (some e)

  -- The static `select`.
  unfoldable pub select : List (CandidateState E) → Action (SelectorError E) (Option E) (Unit {0})
  unfolding is_valid
  select [] context = done tt context
  select (c ∷ []) context = if is_valid c then done tt c.endpoint else done tt context
  select (c ∷ d ∷ cs) context =
      settle (process_final_candidates (c ∷ d ∷ cs) none none (c ∷ d ∷ cs)) context
