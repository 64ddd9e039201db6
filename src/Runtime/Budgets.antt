-- ===== src/Runtime/Budgets.antt =====
-- How often a run asks and proposes, by the rounds that its state counts and their budgets.
use shopee_hachathonteam.Prelude.{ℕ, ◌+◌, ◌≡◌, ◌≤◌, refl, Bool, true, ◌&&◌, leb, arith}
use shopee_hachathonteam.Runtime.{
  Node, parse_request, request_clarification, load_case_context, retrieve_policy,
  prepare_memory_query, retrieve_memory, assess_case, evaluate_policy, confirm_policy_path,
  request_evidence, propose_decision, external_verification, reviewer, record_revision_event,
  await_human_review, emit_resolution_handoff, enqueue_memory_distillation, terminate_automation,
  end, AgentState, initial_state, clarification_limit, evidence_limit, verification_limit,
  revision_limit, propose_limit,
}
use shopee_hachathonteam.Runtime.Intake.{
  parse_request_node, request_clarification_node, load_case_context_node, retrieve_policy_node,
  prepare_memory_query_node, retrieve_memory_node,
}
use shopee_hachathonteam.Runtime.Assess.{
  assess_case_node, evaluate_policy_node, route_evaluation, confirm_policy_path_node,
  route_confirmation, request_evidence_node,
}
use shopee_hachathonteam.Runtime.Decide.{
  propose_decision_node, proposed, external_verification_node, reviewer_node,
  record_revision_event_node, await_human_review_node, emit_resolution_handoff_node,
  enqueue_memory_distillation_node, terminate_automation_node,
}
use shopee_hachathonteam.Runtime.Graph.{Answers, run_node, step, Reach, here, next}

-- A revision that is about to be recorded counts.
abbrev pub pending_revision : Node → ℕ
pending_revision record_revision_event = 1
pending_revision _ = 0

abbrev pub is_within : AgentState → Bool
is_within s =
    leb s.clarification_round clarification_limit
    && leb s.evidence_round evidence_limit
    && leb s.verification_round verification_limit
    && leb (s.revision_round + pending_revision s.route) revision_limit
    && leb s.propose_round propose_limit

node_within :
    (n : Node) (a : Answers) (s : AgentState)
    → s.route ≡ n
    → is_within s ≡ true
    → is_within (run_node a n s).state ≡ true
unfolding run_node parse_request_node request_clarification_node load_case_context_node
    retrieve_policy_node prepare_memory_query_node retrieve_memory_node assess_case_node
    evaluate_policy_node confirm_policy_path_node request_evidence_node propose_decision_node
    external_verification_node reviewer_node record_revision_event_node await_human_review_node
    emit_resolution_handoff_node enqueue_memory_distillation_node terminate_automation_node
    route_evaluation route_confirmation proposed
node_within parse_request a s at w = ground arith
node_within request_clarification a s at w = ground arith
node_within load_case_context a s at w = ground arith
node_within retrieve_policy a s at w = ground arith
node_within prepare_memory_query a s at w = ground arith
node_within retrieve_memory a s at w = ground arith
node_within assess_case a s at w = ground arith
node_within evaluate_policy a s at w = ground arith
node_within confirm_policy_path a s at w = ground arith
node_within request_evidence a s at w = ground arith
node_within propose_decision a s at w = ground arith
node_within external_verification a s at w = ground arith
node_within reviewer a s at w = ground arith
node_within record_revision_event a s at w = ground arith
node_within await_human_review a s at w = ground arith
node_within emit_resolution_handoff a s at w = ground arith
node_within enqueue_memory_distillation a s at w = ground arith
node_within terminate_automation a s at w = ground arith
node_within end a s at w = ground arith

reach_within : {s t : AgentState} → Reach s t → is_within s ≡ true → is_within t ≡ true
reach_within here w = w
reach_within (next {t} r a running) w = node_within t.route a t refl (reach_within r w)

-- What a step from one node to another is, as one or none.
abbrev pub clarification : (before after : Node) → ℕ
clarification before request_clarification = 1
clarification before _ = 0

abbrev pub evidence_asked : (before after : Node) → ℕ
evidence_asked before request_evidence = 1
evidence_asked before _ = 0

abbrev pub failed_verification : (before after : Node) → ℕ
failed_verification external_verification propose_decision = 1
failed_verification _ _ = 0

abbrev pub revision : (before after : Node) → ℕ
revision record_revision_event propose_decision = 1
revision _ _ = 0

abbrev pub proposal : (before after : Node) → ℕ
proposal before external_verification = 1
proposal before _ = 0

-- How many steps of a run are such steps.
abbrev pub count : (Node → Node → ℕ) → {s t : AgentState} → Reach s t → ℕ
count f here = 0
count f (next {t} r a running) = count f r + f t.route (step a t).state.route

-- Such steps are counted in the state.
abbrev is_counted : (before after : AgentState) → Bool
is_counted s t =
    leb (s.clarification_round + clarification s.route t.route) t.clarification_round
    && leb (s.evidence_round + evidence_asked s.route t.route) t.evidence_round
    && leb (s.verification_round + failed_verification s.route t.route) t.verification_round
    && leb (s.revision_round + revision s.route t.route) t.revision_round
    && leb (s.propose_round + proposal s.route t.route) t.propose_round

node_counted :
    (n : Node) (a : Answers) (s : AgentState)
    → s.route ≡ n
    → is_counted s (run_node a n s).state ≡ true
unfolding run_node parse_request_node request_clarification_node load_case_context_node
    retrieve_policy_node prepare_memory_query_node retrieve_memory_node assess_case_node
    evaluate_policy_node confirm_policy_path_node request_evidence_node propose_decision_node
    external_verification_node reviewer_node record_revision_event_node await_human_review_node
    emit_resolution_handoff_node enqueue_memory_distillation_node terminate_automation_node
    route_evaluation route_confirmation proposed
node_counted parse_request a s at = ground arith
node_counted request_clarification a s at = ground arith
node_counted load_case_context a s at = ground arith
node_counted retrieve_policy a s at = ground arith
node_counted prepare_memory_query a s at = ground arith
node_counted retrieve_memory a s at = ground arith
node_counted assess_case a s at = ground arith
node_counted evaluate_policy a s at = ground arith
node_counted confirm_policy_path a s at = ground arith
node_counted request_evidence a s at = ground arith
node_counted propose_decision a s at = ground arith
node_counted external_verification a s at = ground arith
node_counted reviewer a s at = ground arith
node_counted record_revision_event a s at = ground arith
node_counted await_human_review a s at = ground arith
node_counted emit_resolution_handoff a s at = ground arith
node_counted enqueue_memory_distillation a s at = ground arith
node_counted terminate_automation a s at = ground arith
node_counted end a s at = ground arith

reach_counted :
    {s : AgentState}
    → (r : Reach initial_state s)
    → (count clarification r ≤ s.clarification_round)
      × (count evidence_asked r ≤ s.evidence_round)
      × (count failed_verification r ≤ s.verification_round)
      × (count revision r ≤ s.revision_round)
      × (count proposal r ≤ s.propose_round)
reach_counted here = (ground arith, ground arith, ground arith, ground arith, ground arith)
reach_counted (next {t} r a running) =
    let (c, e, v, d, p) = reach_counted r in
    let counted = node_counted t.route a t refl in
    (ground arith, ground arith, ground arith, ground arith, ground arith)

-- However the model, the providers and the buyer answer, of the steps of a run at most two lead to a
-- request for clarification and at most two to a request for evidence, at most two lead from the
-- verification and at most three from a recorded revision back to the proposal, and at most six lead to
-- the verification of a proposal. Drafts that wait for the buyer's consent are not verified and are not
-- counted.
pub rounds_within :
    (s : AgentState) (r : Reach initial_state s)
    → (count clarification r ≤ 2)
      × (count evidence_asked r ≤ 2)
      × (count failed_verification r ≤ 2)
      × (count revision r ≤ 3)
      × (count proposal r ≤ 6)
rounds_within s r =
    let w = reach_within r refl in
    let (c, e, v, d, p) = reach_counted r in
    (ground arith, ground arith, ground arith, ground arith, ground arith)
