-- ===== src/Runtime/Intake.antt =====
-- The nodes up to the retrieved memory (packages/agent_runtime/src/return_agent_runtime/graph.py).
use shopee_hachathonteam.Prelude.{suc, Bool, true, false, none, some, leb, if◌then◌else◌}
use shopee_hachathonteam.Policy.{PolicyPathId}
use shopee_hachathonteam.Runtime.{
  parse_request, request_clarification, load_case_context, retrieve_policy, prepare_memory_query,
  retrieve_memory, assess_case, clarification_budget_exceeded, policy_ambiguous, policy_not_found,
  contract_violation, AgentState, Outcome, returns, resumed, clarification_limit, goto, fail,
}

pub data IntakeAnswer : Type 0 where
  intake_failed intake_incomplete intake_complete : IntakeAnswer

pub data ContextAnswer : Type 0 where
  context_failed : ContextAnswer
  context_loaded : (single_item : Bool) → ContextAnswer

-- A v2 bundle carries the path that the provider selected.
pub data PolicyAnswer : Type 0 where
  policy_failed bundle_ambiguous bundle_not_found : PolicyAnswer
  bundle_v1 : PolicyAnswer
  bundle_v2 : (selected_path_id : PolicyPathId) → PolicyAnswer

pub data QueryAnswer : Type 0 where
  evidence_failed summary_unavailable summary_ready : QueryAnswer

-- `reason_missing` is an intent without a reason code.
pub data RetrievalAnswer : Type 0 where
  reason_missing retrieval_unavailable retrieved : RetrievalAnswer

unfoldable pub parse_request_node : IntakeAnswer → AgentState → Outcome
parse_request_node intake_failed s = returns (fail contract_violation s)
parse_request_node intake_incomplete s =
    if leb clarification_limit s.clarification_round
    then returns (fail clarification_budget_exceeded s)
    else returns (record s {
      clarification_round = suc s.clarification_round;
      has_clarification_request = true;
      route = request_clarification;
    })
parse_request_node intake_complete s = returns (record s {
  has_clarification_request = false;
  route = if s.has_case_context then retrieve_policy else load_case_context;
})

-- `valid` says that the reply is a new turn of the buyer.
unfoldable pub request_clarification_node : (valid : Bool) → AgentState → Outcome
request_clarification_node valid s =
    if s.has_clarification_request
    then resumed (if valid then goto parse_request s else fail contract_violation s)
    else returns (fail contract_violation s)

unfoldable pub load_case_context_node : ContextAnswer → AgentState → Outcome
load_case_context_node context_failed s = returns (fail contract_violation s)
load_case_context_node (context_loaded single_item) s = returns (record s {
  has_case_context = true;
  route = if single_item then retrieve_policy else parse_request;
})

-- The selection that was confirmed stays; the first bundle of v2 makes one.
unfoldable pub retrieve_policy_node : PolicyAnswer → AgentState → Outcome
retrieve_policy_node policy_failed s = returns (fail contract_violation s)
retrieve_policy_node bundle_ambiguous s = returns (fail policy_ambiguous s)
retrieve_policy_node bundle_not_found s = returns (fail policy_not_found s)
retrieve_policy_node bundle_v1 s =
    returns (record s { policy_is_v2 = false; route = prepare_memory_query })
retrieve_policy_node (bundle_v2 selected) s = returns (record s {
  policy_is_v2 = true;
  selected_path = some (elim s.selected_path [ none ↦ selected | some path ↦ path ]);
  route = prepare_memory_query;
})

unfoldable pub prepare_memory_query_node : QueryAnswer → AgentState → Outcome
prepare_memory_query_node evidence_failed s = returns (fail contract_violation s)
prepare_memory_query_node summary_unavailable s = returns (goto assess_case s)
prepare_memory_query_node summary_ready s = returns (goto retrieve_memory s)

unfoldable pub retrieve_memory_node : RetrievalAnswer → AgentState → Outcome
retrieve_memory_node reason_missing s = returns (fail contract_violation s)
retrieve_memory_node retrieval_unavailable s = returns (goto assess_case s)
retrieve_memory_node retrieved s = returns (goto assess_case s)
