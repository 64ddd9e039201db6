-- ===== src/Runtime/Tests.antt =====
-- A run that is approved at once, and a run whose first steps are quiet.
use shopee_hachathonteam.Prelude.{
  ◌≡◌, ◌≢◌, ◌≤◌, ◌<◌, ◌⊎◌, refl, true, false, not, none, some, [], ok, arith,
}
use shopee_hachathonteam.Gates.Money.{pass, ReviewGateResult, consistent_result}
use shopee_hachathonteam.Runtime.{AgentState, end, initial_state, graph_recursion_limit}
use shopee_hachathonteam.Runtime.Intake.{
  intake_complete, context_loaded, bundle_v1, summary_ready, retrieved, parse_request_node,
  load_case_context_node, retrieve_policy_node, prepare_memory_query_node, retrieve_memory_node,
}
use shopee_hachathonteam.Runtime.Assess.{assessed, replied, assess_case_node}
use shopee_hachathonteam.Runtime.Decide.{
  drafted, verified, approves, propose_decision_node, proposed, external_verification_node,
  reviewer_node, emit_resolution_handoff_node, enqueue_memory_distillation_node,
}
use shopee_hachathonteam.Runtime.Graph.{
  Answers, run_node, step, Reach, here, next, Quiet, rest, more,
}
use shopee_hachathonteam.Runtime.Budgets.{
  count, clarification, evidence_asked, failed_verification, revision, proposal, rounds_within,
}
use shopee_hachathonteam.Runtime.Progress.{Quiet-bounded}
use shopee_hachathonteam.Runtime.Authority.{Authorizes, emits_authorized, one_ending}

abbrev gate : ReviewGateResult
gate = record {
  config_version = 1;
  config_hash = 1;
  status = pass;
  amount = 300;
  currency = 0;
  threshold = some 5000;
  reason = none;
}

abbrev answers : Answers
answers = record {
  intake = intake_complete;
  turn_valid = true;
  context = context_loaded true;
  policy = bundle_v1;
  query = summary_ready;
  retrieval = retrieved;
  assessment = assessed false;
  evaluation = ok [];
  confirmation = replied true true;
  evidence_valid = true;
  proposal = drafted false;
  verification = verified;
  review = approves gate none;
  revision_built = true;
  human_review = record {
    entry_valid = true;
    submitted = some 1;
    fetch_valid = true;
    has_result = true;
    poll_valid = true;
  };
  resolution_built = true;
}

abbrev after : AgentState → AgentState
after s = (step answers s).state

abbrev reviewing : AgentState
reviewing = after (after (after (after (after (after (after (after initial_state)))))))

abbrev ended : AgentState
ended = after (after (after reviewing))

to_review : Reach initial_state reviewing
unfolding run_node parse_request_node load_case_context_node retrieve_policy_node
    prepare_memory_query_node retrieve_memory_node assess_case_node propose_decision_node proposed
    external_verification_node
to_review =
    next
      (next
        (next
          (next
            (next
              (next (next (next here answers (λ e. ground arith)) answers (λ e. ground arith))
                answers (λ e. ground arith))
              answers (λ e. ground arith))
            answers (λ e. ground arith))
          answers (λ e. ground arith))
        answers (λ e. ground arith))
      answers (λ e. ground arith)

to_end : Reach initial_state ended
unfolding run_node parse_request_node load_case_context_node retrieve_policy_node
    prepare_memory_query_node retrieve_memory_node assess_case_node propose_decision_node proposed
    external_verification_node reviewer_node emit_resolution_handoff_node
    enqueue_memory_distillation_node
to_end =
    next (next (next to_review answers (λ e. ground arith)) answers (λ e. ground arith)) answers
      (λ e. ground arith)

rounds_within_example :
    (count clarification to_end ≤ 2)
    × (count evidence_asked to_end ≤ 2)
    × (count failed_verification to_end ≤ 2)
    × (count revision to_end ≤ 3)
    × (count proposal to_end ≤ 6)
rounds_within_example = rounds_within ended to_end

two-Quiet : Quiet initial_state 2 (after (after initial_state))
unfolding run_node parse_request_node load_case_context_node
two-Quiet = more (more rest answers (λ e. ground arith) refl) answers (λ e. ground arith) refl

Quiet-bounded_example : (2 ≤ 46) × (2 < graph_recursion_limit)
Quiet-bounded_example = Quiet-bounded 2 two-Quiet

emits_authorized_example : Authorizes answers reviewing
unfolding run_node parse_request_node load_case_context_node retrieve_policy_node
    prepare_memory_query_node retrieve_memory_node assess_case_node propose_decision_node proposed
    external_verification_node reviewer_node consistent_result
emits_authorized_example = emits_authorized answers reviewing refl refl

one_ending_example :
    ((ended.route ≡ end) × (ended.has_resolution ≡ not ended.has_manual_escalation))
    ⊎ ((ended.route ≢ end) × (ended.has_manual_escalation ≡ false))
one_ending_example = one_ending ended to_end
