-- ===== src/Routing/DfaMatcher.antt =====
-- packages/routing/src/matching/DfaMatcher.ts, Candidate.ts and DfaState.ts, without the logging.
-- Parameters: `toLowerCase`; what a policy's table makes of the request; the policies that are
-- applied to a candidate set, and a selector that is not the default one, as actions.
pub mod Walk
pub mod FastPath
use yohira.Common.{
  ℕ, zero, suc, ◌/◌, ◌%◌, Bool, true, false, not, ◌&&◌, List, [], ◌∷◌, ◌==◌, if◌then◌else◌, length,
  get_elem?, Option, none, some, ℤ, pos, negsuc, Outcome, done, thrown, Result, ok, err, and_then,
}
use yohira.Routing.Tokenizer.{PathSegment, tokenize}
use yohira.Routing.JumpTables.{JumpTable, get_destination}
use yohira.Routing.Candidates.{CandidateState}
use yohira.Routing.Selector.{SelectorError, select}

pub record Candidate (E : Type 0) : Type 0 where
  pub endpoint : Option E
  pub score : ℤ
  pub flags : ℕ

pub data MatchError (E : Type 0) : Type 0 where
  -- A state that is not there is `undefined`, and its fields cannot be read.
  no_such_state not_implemented : MatchError E
  selector_error : SelectorError E → MatchError E
  -- No error of the code: the loop over the policies' tables does not end within the fuel.
  out_of_fuel : MatchError E

-- The candidates' states, and the endpoint of the HTTP context.
abbrev pub Choice : Type 0 → Type 0
Choice E = List (CandidateState E) × Option E

abbrev pub Policy : Type 0 → Type 0
Policy E = Choice E → Result (MatchError E) (Choice E)

pub record DfaState (E Request : Type 0) : Type 0 where
  pub candidates : List (Candidate E)
  pub policies : List (Policy E)
  pub path_transitions : JumpTable
  pub policy_transitions : Option (Request → ℤ)

-- `flags & HasSlots`, `& HasComplexSegments` or `& HasConstraints` is not zero.
abbrev pub has_unsupported : ℕ → Bool
has_unsupported flags = not (flags % 8 == 0 && (flags / 8 % 2 == 0 && flags / 16 % 2 == 0))

module _ {E : Type 0} where
  -- The constructor of Candidate.
  unfoldable pub new_candidate : Option E → ℤ → Candidate E
  new_candidate endpoint score = record { endpoint = endpoint; score = score; flags = 0 }

  -- `states[destination]`
  abbrev pub state_at :
      {Request : Type 0}
      → List (DfaState E Request)
      → ℤ
      → Result (MatchError E) (DfaState E Request)
  state_at states (negsuc n) = err no_such_state
  state_at states (pos n) = elim (get_elem? states n) [
    | none ↦ err no_such_state
    | some state ↦ ok state
  ]

  -- The first loop of `findCandidateSet`.
  unfoldable pub follow_path :
      {Request : Type 0}
      → (List ℕ → List ℕ)
      → List (DfaState E Request)
      → List ℕ
      → List PathSegment
      → ℤ
      → Result (MatchError E) ℤ
  follow_path lower states path [] destination = ok destination
  follow_path lower states path (segment ∷ segments) destination =
      and_then (state_at states destination) λ state.
        follow_path lower states path segments
          (get_destination lower state.path_transitions path segment)

  -- The second loop, to the state that it ends in.
  unfoldable pub follow_policies :
      {Request : Type 0}
      → ℕ
      → List (DfaState E Request)
      → Request
      → ℤ
      → Result (MatchError E) (DfaState E Request)
  follow_policies zero states request destination = err out_of_fuel
  follow_policies (suc fuel) states request destination =
      and_then (state_at states destination) λ state. elim state.policy_transitions [
        | none ↦ ok state
        | some table ↦ follow_policies fuel states request (table request)
      ]

  -- `findCandidateSet`, as the state whose candidates and policies it returns. As many turns as
  -- there are states are enough where no table leads back.
  unfoldable pub find_candidate_set :
      {Request : Type 0}
      → (List ℕ → List ℕ)
      → List (DfaState E Request)
      → Request
      → List ℕ
      → List PathSegment
      → Result (MatchError E) (DfaState E Request)
  find_candidate_set lower states request path segments =
      and_then (follow_path lower states path segments (pos 0))
        λ destination. follow_policies (length states) states request destination

  -- The loop that fills `candidateState`.
  unfoldable pub candidate_states :
      List (Candidate E) → Result (MatchError E) (List (CandidateState E))
  candidate_states [] = ok []
  candidate_states (c ∷ cs) =
      if has_unsupported c.flags
      then err not_implemented
      else and_then (candidate_states cs)
          λ states. ok (record { endpoint = c.endpoint; score = c.score } ∷ states)

  abbrev pub as_choice :
      List (CandidateState E)
      → Outcome (SelectorError E) (Option E) (Unit {0})
      → Result (MatchError E) (Choice E)
  as_choice states (done _ context) = ok (states, context)
  as_choice states (thrown e _) = err (selector_error e)

  -- DefaultEndpointSelector.select on the context.
  abbrev pub select_default : Policy E
  select_default (states, context) = as_choice states (select states context)

  unfoldable pub select_endpoint_with_policies : Policy E → List (Policy E) → Policy E
  select_endpoint_with_policies selector [] choice = selector choice
  select_endpoint_with_policies selector (policy ∷ policies) choice =
      and_then (policy choice) λ applied. elim (applied.1) [
        | some _ ↦ ok applied
        | none ↦ select_endpoint_with_policies selector policies applied
      ]

  -- The three ways out of `match`; without policies, the selector chooses at once.
  abbrev pub choose : Bool → Policy E → List (Policy E) → Policy E
  choose true selector policies = select_endpoint_with_policies select_default policies
  choose false selector policies = select_endpoint_with_policies selector policies

  -- `match` behind the fast path.
  unfoldable pub match_all :
      Bool
      → Policy E
      → List (Candidate E)
      → List (Policy E)
      → Option E
      → Result (MatchError E) (Option E)
  match_all is_default selector candidates policies context =
      and_then (candidate_states candidates) λ states.
        and_then (choose is_default selector policies (states, context)) λ choice. ok (choice.1)

  -- `match` on what `findCandidateSet` found, as the endpoint that the context has then.
  unfoldable pub match_candidates :
      Bool
      → Policy E
      → List (Candidate E)
      → List (Policy E)
      → Option E
      → Result (MatchError E) (Option E)
  match_candidates is_default selector [] policies context = ok context
  match_candidates is_default selector (c ∷ []) [] context =
      if is_default && c.flags == 0
      then ok c.endpoint
      else match_all is_default selector (c ∷ []) [] context
  match_candidates is_default selector candidates policies context =
      match_all is_default selector candidates policies context

  unfoldable pub match_request :
      {Request : Type 0}
      → (List ℕ → List ℕ)
      → Bool
      → Policy E
      → List (DfaState E Request)
      → ℕ
      → Request
      → List ℕ
      → Option E
      → Result (MatchError E) (Option E)
  match_request lower is_default selector states max_segment_count request path context =
      and_then (find_candidate_set lower states request path (tokenize path max_segment_count))
        λ state. match_candidates is_default selector state.candidates state.policies context
