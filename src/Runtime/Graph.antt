-- ===== src/Runtime/Graph.antt =====
-- `build_graph` of packages/agent_runtime/src/return_agent_runtime/graph.py: a step runs the node that
-- `_route` names, and a run is a sequence of steps from the initial state.
use shopee_hachathonteam.Prelude.{ℕ, suc, ◌≡◌, ◌≢◌, Bool, false, List, Result}
use shopee_hachathonteam.Policy.Evaluate.{PolicyError, ItemPolicyEvaluation}
use shopee_hachathonteam.Runtime.{
  Node, parse_request, request_clarification, load_case_context, retrieve_policy,
  prepare_memory_query, retrieve_memory, assess_case, evaluate_policy, confirm_policy_path,
  request_evidence, propose_decision, external_verification, reviewer, record_revision_event,
  await_human_review, emit_resolution_handoff, enqueue_memory_distillation, terminate_automation,
  end, AgentState, Outcome, returns,
}
use shopee_hachathonteam.Runtime.Intake.{
  IntakeAnswer, ContextAnswer, PolicyAnswer, QueryAnswer, RetrievalAnswer, parse_request_node,
  request_clarification_node, load_case_context_node, retrieve_policy_node,
  prepare_memory_query_node, retrieve_memory_node,
}
use shopee_hachathonteam.Runtime.Assess.{
  AssessAnswer, ConfirmationAnswer, assess_case_node, evaluate_policy_node,
  confirm_policy_path_node, request_evidence_node,
}
use shopee_hachathonteam.Runtime.Decide.{
  ProposeAnswer, VerifyAnswer, ReviewAnswer, AwaitAnswer, propose_decision_node,
  external_verification_node, reviewer_node, record_revision_event_node, await_human_review_node,
  emit_resolution_handoff_node, enqueue_memory_distillation_node, terminate_automation_node,
}

-- What the model, the providers and the buyer would answer to each node.
pub record Answers : Type 0 where
  pub intake : IntakeAnswer
  pub turn_valid : Bool
  pub context : ContextAnswer
  pub policy : PolicyAnswer
  pub query : QueryAnswer
  pub retrieval : RetrievalAnswer
  pub assessment : AssessAnswer
  pub evaluation : Result PolicyError (List ItemPolicyEvaluation)
  pub confirmation : ConfirmationAnswer
  pub evidence_valid : Bool
  pub proposal : ProposeAnswer
  pub verification : VerifyAnswer
  pub review : ReviewAnswer
  pub revision_built : Bool
  pub human_review : AwaitAnswer
  pub resolution_built : Bool

unfoldable pub run_node : Answers → Node → AgentState → Outcome
run_node a parse_request s = parse_request_node a.intake s
run_node a request_clarification s = request_clarification_node a.turn_valid s
run_node a load_case_context s = load_case_context_node a.context s
run_node a retrieve_policy s = retrieve_policy_node a.policy s
run_node a prepare_memory_query s = prepare_memory_query_node a.query s
run_node a retrieve_memory s = retrieve_memory_node a.retrieval s
run_node a assess_case s = assess_case_node a.assessment s
run_node a evaluate_policy s = evaluate_policy_node a.evaluation s
run_node a confirm_policy_path s = confirm_policy_path_node a.confirmation s
run_node a request_evidence s = request_evidence_node a.evidence_valid s
run_node a propose_decision s = propose_decision_node a.proposal s
run_node a external_verification s = external_verification_node a.verification s
run_node a reviewer s = reviewer_node a.review s
run_node a record_revision_event s = record_revision_event_node a.revision_built s
run_node a await_human_review s = await_human_review_node a.human_review s
run_node a emit_resolution_handoff s = emit_resolution_handoff_node a.resolution_built s
run_node a enqueue_memory_distillation s = enqueue_memory_distillation_node s
run_node a terminate_automation s = terminate_automation_node s
run_node a end s = returns s

-- One step of the graph.
abbrev pub step : Answers → AgentState → Outcome
step a s = run_node a s.route s

-- The states of a run, whatever is answered, with the interrupts passed.
pub data Reach (s : AgentState) : AgentState → Type 0 where
  here : Reach s s
  next : {t : AgentState} → Reach s t → (a : Answers) → t.route ≢ end → Reach s (step a t).state

-- A run of some length without an interrupt, up to a state.
pub data Quiet (s : AgentState) : ℕ → AgentState → Type 0 where
  rest : Quiet s 0 s
  more :
      {n : ℕ} {t : AgentState}
      → Quiet s n t
      → (a : Answers) → t.route ≢ end
      → (step a t).waited ≡ false
      → Quiet s (suc n) (step a t).state
