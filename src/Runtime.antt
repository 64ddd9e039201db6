-- ===== src/Runtime.antt =====
-- The agent's graph (packages/agent_runtime/src/return_agent_runtime/{state,graph,policy}.py): its
-- working state and its budgets. A call of the model or of a provider, with the validation of what it
-- returned, gives an answer, which is an argument of the node that makes the call.
pub mod Intake
pub mod Assess
pub mod Decide
pub mod Graph
pub mod Budgets
pub mod Progress
pub mod Authority
pub mod Tests
use shopee_hachathonteam.Prelude.{ℕ, Bool, true, false, Option, none, some, Ref}
use shopee_hachathonteam.Policy.{PolicyPathId}
use shopee_hachathonteam.Gates.Money.{GateReason}
use shopee_hachathonteam.Gates.Risk.{RiskReason}

-- The names of the nodes, which `_route` holds.
pub data Node : Type 0 where
  parse_request request_clarification load_case_context retrieve_policy prepare_memory_query
        retrieve_memory :
      Node
  assess_case evaluate_policy confirm_policy_path request_evidence propose_decision
        external_verification :
      Node
  reviewer record_revision_event await_human_review emit_resolution_handoff
        enqueue_memory_distillation :
      Node
  terminate_automation end : Node

pub data EscalationReason : Type 0 where
  specialist_required policy_confirmation_declined clarification_budget_exceeded
        evidence_budget_exceeded :
      EscalationReason
  verification_budget_exceeded propose_budget_exceeded verification_unavailable policy_ambiguous :
      EscalationReason
  policy_not_found conflicting_revisions contract_violation : EscalationReason

-- `review_routing_reason`: why a human must review.
pub data RoutingReason : Type 0 where
  by_gate : (reason : GateReason) → RoutingReason
  by_risk : (reason : RiskReason) → RoutingReason
  revision_budget_exceeded : RoutingReason

-- The paths of a pending confirmation: the one it switches to and the one it comes from.
pub record PendingConfirmation : Type 0 where
  pub path_id : PolicyPathId
  pub original_path_id : PolicyPathId

-- The parts of the state that the routing reads; a `has_` field says that the value is not None, and
-- `has_missing_evidence` that the assessment carries an evidence request.
pub record AgentState : Type 0 where
  pub route : Node
  pub clarification_round : ℕ
  pub evidence_round : ℕ
  pub verification_round : ℕ
  pub revision_round : ℕ
  pub propose_round : ℕ
  pub has_case_context : Bool
  pub has_clarification_request : Bool
  pub has_evidence_request : Bool
  pub has_missing_evidence : Bool
  pub has_handoff : Bool
  pub has_pending_review : Bool
  pub has_feedback : Bool
  pub has_human_result : Bool
  pub has_resolution : Bool
  pub has_manual_escalation : Bool
  pub policy_is_v2 : Bool
  pub selected_path : Option PolicyPathId
  pub pending_confirmation : Option PendingConfirmation
  pub human_review_ref : Option Ref
  pub routing_reason : Option RoutingReason
  pub escalation_reason : Option EscalationReason

-- What a node leaves, and whether it interrupted the run and was resumed with a reply.
pub record Outcome : Type 0 where
  pub state : AgentState
  pub waited : Bool

abbrev pub returns : AgentState → Outcome
returns s = record { state = s; waited = false }

abbrev pub resumed : AgentState → Outcome
resumed s = record { state = s; waited = true }

abbrev pub clarification_limit : ℕ
clarification_limit = 2

abbrev pub evidence_limit : ℕ
evidence_limit = 2

abbrev pub verification_limit : ℕ
verification_limit = 2

abbrev pub revision_limit : ℕ
revision_limit = 3

-- `1 + VERIFICATION_LIMIT + REVISION_LIMIT`
abbrev pub propose_limit : ℕ
propose_limit = 6

abbrev pub graph_recursion_limit : ℕ
graph_recursion_limit = 100

abbrev pub goto : Node → AgentState → AgentState
goto node s = record s { route = node }

-- `_fail`
abbrev pub fail : EscalationReason → AgentState → AgentState
fail reason s = record s { escalation_reason = some reason; route = terminate_automation }

abbrev pub initial_state : AgentState
initial_state = record {
  route = parse_request;
  clarification_round = 0;
  evidence_round = 0;
  verification_round = 0;
  revision_round = 0;
  propose_round = 0;
  has_case_context = false;
  has_clarification_request = false;
  has_evidence_request = false;
  has_missing_evidence = false;
  has_handoff = false;
  has_pending_review = false;
  has_feedback = false;
  has_human_result = false;
  has_resolution = false;
  has_manual_escalation = false;
  policy_is_v2 = false;
  selected_path = none;
  pending_confirmation = none;
  human_review_ref = none;
  routing_reason = none;
  escalation_reason = none;
}
