-- ===== src/Runtime/Assess.antt =====
-- The assessment of a case, its policy evaluation, and the requests for consent and evidence
-- (packages/agent_runtime/src/return_agent_runtime/{graph,policy}.py).
use shopee_hachathonteam.Prelude.{
  suc, Bool, true, false, not, ◌&&◌, none, some, List, [], ◌∷◌, Result, ok, err, ◌==◌, ltb, leb,
  if◌then◌else◌, all_of, any_of, keep_if,
}
use shopee_hachathonteam.Policy.{PolicyPathId, cooling_off, damaged_on_arrival, path_rank}
use shopee_hachathonteam.Policy.Evaluate.{
  PolicyError, eligible, needs_information, OutcomeReason, claim_contradicted, ItemPolicyEvaluation,
}
use shopee_hachathonteam.Runtime.{
  retrieve_policy, prepare_memory_query, evaluate_policy, confirm_policy_path, request_evidence,
  propose_decision, specialist_required, policy_confirmation_declined, evidence_budget_exceeded,
  contract_violation, PendingConfirmation, AgentState, Outcome, returns, resumed, evidence_limit,
  goto, fail,
}

pub data AssessAnswer : Type 0 where
  assess_failed : AssessAnswer
  assessed : (insufficient : Bool) → AssessAnswer

unfoldable pub assess_case_node : AssessAnswer → AgentState → Outcome
assess_case_node assess_failed s = returns (fail contract_violation s)
assess_case_node (assessed insufficient) s =
    returns (routed (record s { has_missing_evidence = insufficient }))
  where
    routed : AgentState → AgentState
    routed t =
        if t.policy_is_v2
        then goto evaluate_policy t
        else (if insufficient
            then (if leb evidence_limit t.evidence_round
                then fail evidence_budget_exceeded t
                else record t {
                  evidence_round = suc t.evidence_round;
                  has_evidence_request = true;
                  route = request_evidence;
                })
            else record t { has_evidence_request = false; route = propose_decision })

abbrev pub is_eligible : ItemPolicyEvaluation → Bool
is_eligible o = elim o.status [ eligible ↦ true | _ ↦ false ]

abbrev pub needs_evidence : ItemPolicyEvaluation → Bool
needs_evidence o = elim o.status [ needs_information ↦ true | _ ↦ false ]

-- `x.reason_codes == ["CLAIM_CONTRADICTED"]`
abbrev pub is_only_contradicted : List OutcomeReason → Bool
is_only_contradicted (claim_contradicted ∷ []) = true
is_only_contradicted _ = false

-- `x.path_id is path`
abbrev pub on_path : PolicyPathId → ItemPolicyEvaluation → Bool
on_path path o = path_rank o.path_id == path_rank path

-- `path is not other`
abbrev pub same_path : PolicyPathId → PolicyPathId → Bool
same_path a b = path_rank a == path_rank b

-- The routing of `evaluate_policy_node`, from the outcomes and the path that is selected.
unfoldable pub route_evaluation : List ItemPolicyEvaluation → PolicyPathId → AgentState → AgentState
route_evaluation outcomes path s =
    if all_of is_eligible selected
    then goto propose_decision s
    else (if same_path path damaged_on_arrival
          && all_of is_eligible (keep_if (on_path cooling_off) outcomes)
        then record s {
          pending_confirmation = some (record { path_id = cooling_off; original_path_id = path });
          route = confirm_policy_path;
        }
        else (if all_of needs_evidence selected
              && ltb s.evidence_round evidence_limit
              && s.has_missing_evidence
            then record s {
              has_evidence_request = true;
              evidence_round = suc s.evidence_round;
              route = request_evidence;
            }
            else (if all_of (λ o. is_only_contradicted o.reason_codes) selected
                  && not (any_of is_eligible outcomes)
                then goto propose_decision s
                else fail specialist_required s)))
  where
    selected : List ItemPolicyEvaluation
    selected = keep_if (on_path path) outcomes

unfoldable pub evaluate_policy_node :
    Result PolicyError (List ItemPolicyEvaluation) → AgentState → Outcome
unfolding route_evaluation
evaluate_policy_node (err _) s = returns (fail contract_violation s)
evaluate_policy_node (ok outcomes) s = elim s.selected_path [
  | none ↦ returns (fail contract_violation s)
  | some path ↦ returns (route_evaluation outcomes path s)
]

-- `unbound` is a request that is not bound to the rules in force; a reply may be to another request.
pub data ConfirmationAnswer : Type 0 where
  unbound : ConfirmationAnswer
  replied : (same_request accepted : Bool) → ConfirmationAnswer

-- The reply of the buyer to a pending confirmation.
unfoldable pub route_confirmation :
    PendingConfirmation → (same_request accepted : Bool) → AgentState → AgentState
route_confirmation request false accepted s = fail contract_violation s
route_confirmation request true true s = record s {
  selected_path = some request.path_id;
  pending_confirmation = none;
  route = retrieve_policy;
}
route_confirmation request true false s =
    if not (same_path request.path_id request.original_path_id)
      && s.has_missing_evidence
      && ltb s.evidence_round evidence_limit
    then record s {
      pending_confirmation = none;
      has_evidence_request = true;
      evidence_round = suc s.evidence_round;
      route = request_evidence;
    }
    else fail policy_confirmation_declined s

unfoldable pub confirm_policy_path_node : ConfirmationAnswer → AgentState → Outcome
unfolding route_confirmation
confirm_policy_path_node unbound s = returns (fail contract_violation s)
confirm_policy_path_node (replied same_request accepted) s = elim s.pending_confirmation [
  | none ↦ returns (fail contract_violation s)
  | some request ↦ resumed (route_confirmation request same_request accepted s)
]

-- `valid` says that the reply's artifacts are distinct and resolve to evidence that fits the request.
unfoldable pub request_evidence_node : (valid : Bool) → AgentState → Outcome
request_evidence_node valid s =
    if s.has_evidence_request
    then resumed (if valid then goto prepare_memory_query s else fail contract_violation s)
    else returns (fail contract_violation s)
