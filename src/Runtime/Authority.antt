-- ===== src/Runtime/Authority.antt =====
-- Who may end a run with a resolution.
use shopee_hachathonteam.Prelude.{
  ◌≡◌, ◌≢◌, refl, inl, inr, ◌⊎◌, Bool, true, false, not, ◌&&◌, arith, is_none, none, some,
}
use shopee_hachathonteam.Gates.Money.{human_required, consistent_result}
use shopee_hachathonteam.Gates.Risk.{consistent, consistent_status}
use shopee_hachathonteam.Runtime.{
  Node, parse_request, request_clarification, load_case_context, retrieve_policy,
  prepare_memory_query, retrieve_memory, assess_case, evaluate_policy, confirm_policy_path,
  request_evidence, propose_decision, external_verification, reviewer, record_revision_event,
  await_human_review, emit_resolution_handoff, enqueue_memory_distillation, terminate_automation,
  end, AgentState, initial_state,
}
use shopee_hachathonteam.Runtime.Intake.{
  parse_request_node, request_clarification_node, load_case_context_node, retrieve_policy_node,
  prepare_memory_query_node, retrieve_memory_node,
}
use shopee_hachathonteam.Runtime.Assess.{
  assess_case_node, evaluate_policy_node, route_evaluation, confirm_policy_path_node,
  route_confirmation, request_evidence_node,
}
use shopee_hachathonteam.Runtime.Decide.{
  propose_decision_node, proposed, external_verification_node, reviewer_node,
  record_revision_event_node, await_human_review_node, emit_resolution_handoff_node,
  enqueue_memory_distillation_node, terminate_automation_node, ReviewAnswer, approves,
  review_failed, revises,
}
use shopee_hachathonteam.Runtime.Graph.{Answers, run_node, step, Reach, here, next}

-- The gates of an approval pass the validators of their models.
abbrev pub are_valid : ReviewAnswer → Bool
are_valid (approves gate none) = consistent_result gate
are_valid (approves gate (some risk)) = consistent_result gate && consistent risk
are_valid _ = true

-- The reviewer approved, and the status of neither gate asks for a human.
abbrev pub IsClear : ReviewAnswer → Type 0
IsClear (approves gate none) = gate.status ≢ human_required
IsClear (approves gate (some risk)) =
    (gate.status ≢ human_required) × (risk.status ≢ human_required)
IsClear _ = ⊥

-- What authorizes a step into the resolution: an approval that the gates pass, or the result of a human
-- review that was submitted.
abbrev pub Authorizes : Answers → AgentState → Type 0
Authorizes a s =
    ((s.route ≡ reviewer) × (s.has_handoff ≡ true) × IsClear a.review)
    ⊎ ((s.route ≡ await_human_review)
        × (s.has_handoff ≡ true)
        × (is_none s.human_review_ref ≡ false)
        × (a.human_review.entry_valid ≡ true)
        × (a.human_review.fetch_valid ≡ true)
        × (a.human_review.has_result ≡ true))

abbrev pub is_emit : Node → Bool
is_emit emit_resolution_handoff = true
is_emit _ = false

reviewer-IsClear :
    (review : ReviewAnswer) (s : AgentState)
    → are_valid review ≡ true
    → is_emit (reviewer_node review s).state.route ≡ true
    → (s.has_handoff ≡ true) × IsClear review
unfolding reviewer_node consistent_result consistent consistent_status
reviewer-IsClear review_failed s valid emits = absurd (ground arith)
reviewer-IsClear revises s valid emits = absurd (ground arith)
reviewer-IsClear (approves gate none) s valid emits = (ground arith, λ e. ground arith)
reviewer-IsClear (approves gate (some risk)) s valid emits =
    (ground arith, (λ e. ground arith, λ e. ground arith))

node_authorized :
    (n : Node) (a : Answers) (s : AgentState)
    → s.route ≡ n
    → are_valid a.review ≡ true
    → is_emit (run_node a n s).state.route ≡ true
    → Authorizes a s
unfolding run_node parse_request_node request_clarification_node load_case_context_node
    retrieve_policy_node prepare_memory_query_node retrieve_memory_node assess_case_node
    evaluate_policy_node confirm_policy_path_node request_evidence_node propose_decision_node
    external_verification_node record_revision_event_node await_human_review_node
    emit_resolution_handoff_node enqueue_memory_distillation_node terminate_automation_node
    route_evaluation route_confirmation proposed
node_authorized parse_request a s at valid emits = absurd (ground arith)
node_authorized request_clarification a s at valid emits = absurd (ground arith)
node_authorized load_case_context a s at valid emits = absurd (ground arith)
node_authorized retrieve_policy a s at valid emits = absurd (ground arith)
node_authorized prepare_memory_query a s at valid emits = absurd (ground arith)
node_authorized retrieve_memory a s at valid emits = absurd (ground arith)
node_authorized assess_case a s at valid emits = absurd (ground arith)
node_authorized evaluate_policy a s at valid emits = absurd (ground arith)
node_authorized confirm_policy_path a s at valid emits = absurd (ground arith)
node_authorized request_evidence a s at valid emits = absurd (ground arith)
node_authorized propose_decision a s at valid emits = absurd (ground arith)
node_authorized external_verification a s at valid emits = absurd (ground arith)
node_authorized reviewer a s at valid emits =
    let (there, clear) = reviewer-IsClear a.review s valid emits in inl (at, there, clear)
node_authorized record_revision_event a s at valid emits = absurd (ground arith)
node_authorized await_human_review a s at valid emits =
    inr (at, ground arith, ground arith, ground arith, ground arith, ground arith)
node_authorized emit_resolution_handoff a s at valid emits = absurd (ground arith)
node_authorized enqueue_memory_distillation a s at valid emits = absurd (ground arith)
node_authorized terminate_automation a s at valid emits = absurd (ground arith)
node_authorized end a s at valid emits = absurd (ground arith)

-- When the gates of an approval pass their validators, a step leads to the node that emits the
-- resolution only from the reviewer, with an approval for which neither gate has the status
-- HUMAN_REQUIRED, or from a human review with a valid entry that was submitted and whose result was
-- fetched; in both there is a proposal.
pub emits_authorized :
    (a : Answers) (s : AgentState)
    → are_valid a.review ≡ true
    → is_emit (step a s).state.route ≡ true
    → Authorizes a s
emits_authorized a s valid emits = node_authorized s.route a s refl valid emits

-- The terminal results that a state may have: exactly one of the two at the end, the resolution alone
-- just before it, and none anywhere else.
abbrev pub is_consistent : Node → (has_resolution has_manual_escalation : Bool) → Bool
is_consistent end true m = not m
is_consistent end false m = m
is_consistent enqueue_memory_distillation r m = r && not m
is_consistent _ r m = not r && not m

abbrev pub has_one_ending : AgentState → Bool
has_one_ending s = is_consistent s.route s.has_resolution s.has_manual_escalation

node_one_ending :
    (n : Node) (a : Answers) (s : AgentState)
    → s.route ≡ n
    → n ≢ end
    → has_one_ending s ≡ true
    → has_one_ending (run_node a n s).state ≡ true
unfolding run_node parse_request_node request_clarification_node load_case_context_node
    retrieve_policy_node prepare_memory_query_node retrieve_memory_node assess_case_node
    evaluate_policy_node confirm_policy_path_node request_evidence_node propose_decision_node
    external_verification_node reviewer_node record_revision_event_node await_human_review_node
    emit_resolution_handoff_node enqueue_memory_distillation_node terminate_automation_node
    route_evaluation route_confirmation proposed
node_one_ending parse_request a s at running w = ground arith
node_one_ending request_clarification a s at running w = ground arith
node_one_ending load_case_context a s at running w = ground arith
node_one_ending retrieve_policy a s at running w = ground arith
node_one_ending prepare_memory_query a s at running w = ground arith
node_one_ending retrieve_memory a s at running w = ground arith
node_one_ending assess_case a s at running w = ground arith
node_one_ending evaluate_policy a s at running w = ground arith
node_one_ending confirm_policy_path a s at running w = ground arith
node_one_ending request_evidence a s at running w = ground arith
node_one_ending propose_decision a s at running w = ground arith
node_one_ending external_verification a s at running w = ground arith
node_one_ending reviewer a s at running w = ground arith
node_one_ending record_revision_event a s at running w = ground arith
node_one_ending await_human_review a s at running w = ground arith
node_one_ending emit_resolution_handoff a s at running w = ground arith
node_one_ending enqueue_memory_distillation a s at running w = ground arith
node_one_ending terminate_automation a s at running w = ground arith
node_one_ending end a s at running w = absurd (running refl)

reach_one_ending :
    {s t : AgentState} → Reach s t → has_one_ending s ≡ true → has_one_ending t ≡ true
reach_one_ending here w = w
reach_one_ending (next {t} r a running) w =
    node_one_ending t.route a t refl running (reach_one_ending r w)

-- A run that has ended has a resolution or a manual escalation, and never both; a run that goes on has
-- no manual escalation.
pub one_ending :
    (s : AgentState)
    → Reach initial_state s
    → ((s.route ≡ end) × (s.has_resolution ≡ not s.has_manual_escalation))
      ⊎ ((s.route ≢ end) × (s.has_manual_escalation ≡ false))
one_ending s r = cases s.route refl (reach_one_ending r refl)
  where
    cases :
        (n : Node)
        → s.route ≡ n
        → is_consistent n s.has_resolution s.has_manual_escalation ≡ true
        → ((s.route ≡ end) × (s.has_resolution ≡ not s.has_manual_escalation))
          ⊎ ((s.route ≢ end) × (s.has_manual_escalation ≡ false))
    cases end at w = inl (at, ground arith)
    cases parse_request at w = inr ((λ e. ground arith), ground arith)
    cases request_clarification at w = inr ((λ e. ground arith), ground arith)
    cases load_case_context at w = inr ((λ e. ground arith), ground arith)
    cases retrieve_policy at w = inr ((λ e. ground arith), ground arith)
    cases prepare_memory_query at w = inr ((λ e. ground arith), ground arith)
    cases retrieve_memory at w = inr ((λ e. ground arith), ground arith)
    cases assess_case at w = inr ((λ e. ground arith), ground arith)
    cases evaluate_policy at w = inr ((λ e. ground arith), ground arith)
    cases confirm_policy_path at w = inr ((λ e. ground arith), ground arith)
    cases request_evidence at w = inr ((λ e. ground arith), ground arith)
    cases propose_decision at w = inr ((λ e. ground arith), ground arith)
    cases external_verification at w = inr ((λ e. ground arith), ground arith)
    cases reviewer at w = inr ((λ e. ground arith), ground arith)
    cases record_revision_event at w = inr ((λ e. ground arith), ground arith)
    cases await_human_review at w = inr ((λ e. ground arith), ground arith)
    cases emit_resolution_handoff at w = inr ((λ e. ground arith), ground arith)
    cases enqueue_memory_distillation at w = inr ((λ e. ground arith), ground arith)
    cases terminate_automation at w = inr ((λ e. ground arith), ground arith)
