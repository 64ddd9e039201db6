-- ===== src/Runtime/Progress.antt =====
-- A run ends or waits within the recursion limit of the graph.
use shopee_hachathonteam.Prelude.{
  ℕ, zero, suc, ◌+◌, ◌*◌, ◌-◌, ◌≡◌, ◌≢◌, ◌≤◌, ◌<◌, refl, Bool, true, false, if◌then◌else◌, arith,
  is_none,
}
use shopee_hachathonteam.Runtime.{
  Node, parse_request, request_clarification, load_case_context, retrieve_policy,
  prepare_memory_query, retrieve_memory, assess_case, evaluate_policy, confirm_policy_path,
  request_evidence, propose_decision, external_verification, reviewer, record_revision_event,
  await_human_review, emit_resolution_handoff, enqueue_memory_distillation, terminate_automation,
  end, AgentState, propose_limit, graph_recursion_limit,
}
use shopee_hachathonteam.Runtime.Intake.{
  parse_request_node, request_clarification_node, load_case_context_node, retrieve_policy_node,
  prepare_memory_query_node, retrieve_memory_node,
}
use shopee_hachathonteam.Runtime.Assess.{
  assess_case_node, evaluate_policy_node, route_evaluation, confirm_policy_path_node,
  route_confirmation, request_evidence_node,
}
use shopee_hachathonteam.Runtime.Decide.{
  propose_decision_node, proposed, external_verification_node, reviewer_node,
  record_revision_event_node, await_human_review_node, emit_resolution_handoff_node,
  enqueue_memory_distillation_node, terminate_automation_node,
}
use shopee_hachathonteam.Runtime.Graph.{Answers, run_node, Quiet, rest, more}

-- How far a node is from the end of a run, within one proposal.
abbrev pub rank : Node → Bool → ℕ
rank end has_context = 0
rank terminate_automation has_context = 1
rank enqueue_memory_distillation has_context = 2
rank request_clarification has_context = 2
rank request_evidence has_context = 2
rank confirm_policy_path has_context = 2
rank emit_resolution_handoff has_context = 3
rank await_human_review has_context = 4
rank propose_decision has_context = 10
rank record_revision_event has_context = 11
rank reviewer has_context = 12
rank external_verification has_context = 13
rank evaluate_policy has_context = 14
rank assess_case has_context = 15
rank retrieve_memory has_context = 16
rank prepare_memory_query has_context = 17
rank retrieve_policy has_context = 18
rank parse_request true = 19
rank load_case_context has_context = 20
rank parse_request false = 21

-- A bound on the steps that are left before the run ends or waits.
abbrev pub steps_left : AgentState → ℕ
steps_left s =
    rank s.route s.has_case_context
    + (if is_none s.human_review_ref then 1 else 0)
    + 4 * (propose_limit - s.propose_round)

node_decreases :
    (n : Node) (a : Answers) (s : AgentState)
    → s.route ≡ n
    → n ≢ end
    → (run_node a n s).waited ≡ false
    → steps_left (run_node a n s).state < steps_left s
unfolding run_node parse_request_node request_clarification_node load_case_context_node
    retrieve_policy_node prepare_memory_query_node retrieve_memory_node assess_case_node
    evaluate_policy_node confirm_policy_path_node request_evidence_node propose_decision_node
    external_verification_node reviewer_node record_revision_event_node await_human_review_node
    emit_resolution_handoff_node enqueue_memory_distillation_node terminate_automation_node
    route_evaluation route_confirmation proposed
node_decreases parse_request a s at running quiet = ground arith
node_decreases request_clarification a s at running quiet = ground arith
node_decreases load_case_context a s at running quiet = ground arith
node_decreases retrieve_policy a s at running quiet = ground arith
node_decreases prepare_memory_query a s at running quiet = ground arith
node_decreases retrieve_memory a s at running quiet = ground arith
node_decreases assess_case a s at running quiet = ground arith
node_decreases evaluate_policy a s at running quiet = ground arith
node_decreases confirm_policy_path a s at running quiet = ground arith
node_decreases request_evidence a s at running quiet = ground arith
node_decreases propose_decision a s at running quiet = ground arith
node_decreases external_verification a s at running quiet = ground arith
node_decreases reviewer a s at running quiet = ground arith
node_decreases record_revision_event a s at running quiet = ground arith
node_decreases await_human_review a s at running quiet = ground arith
node_decreases emit_resolution_handoff a s at running quiet = ground arith
node_decreases enqueue_memory_distillation a s at running quiet = ground arith
node_decreases terminate_automation a s at running quiet = ground arith
node_decreases end a s at running quiet = absurd (running refl)

rank_le : (n : Node) (b : Bool) → rank n b ≤ 21
rank_le n b = ground arith

Quiet-left : {s t : AgentState} (n : ℕ) → Quiet s n t → n + steps_left t ≤ steps_left s
Quiet-left zero rest = omega arith
Quiet-left (suc n) (more {t} q a running quiet) =
    ground (arith, Quiet-left {t = t} n q, node_decreases t.route a t refl running quiet)

-- From any state, whatever the model and the providers answer, a run without a reply of the buyer or a
-- reviewer makes at most 46 steps: it ends or waits before the recursion limit of the graph.
pub Quiet-bounded :
    {s t : AgentState} (n : ℕ) → Quiet s n t → (n ≤ 46) × (n < graph_recursion_limit)
Quiet-bounded {s} {t} n q = (
  ground (arith, Quiet-left n q, rank_le s.route s.has_case_context),
  ground (arith, Quiet-left n q, rank_le s.route s.has_case_context),
)
