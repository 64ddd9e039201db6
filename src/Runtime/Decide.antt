-- ===== src/Runtime/Decide.antt =====
-- The proposal, its verification and reviews, and the ends of a run
-- (packages/agent_runtime/src/return_agent_runtime/graph.py).
use shopee_hachathonteam.Prelude.{
  suc, Bool, true, false, ◌&&◌, ◌||◌, Option, none, some, Ref, leb, if◌then◌else◌,
}
use shopee_hachathonteam.Gates.Money.{GateStatus, human_required, ReviewGateResult}
use shopee_hachathonteam.Gates.Risk.{UserRiskGateResult}
use shopee_hachathonteam.Policy.{PolicyPathId}
use shopee_hachathonteam.Runtime.{
  confirm_policy_path, request_evidence, propose_decision, external_verification, reviewer,
  record_revision_event, await_human_review, emit_resolution_handoff, enqueue_memory_distillation,
  end, evidence_budget_exceeded, verification_budget_exceeded, propose_budget_exceeded,
  verification_unavailable, conflicting_revisions, contract_violation, RoutingReason, by_gate,
  by_risk, revision_budget_exceeded, AgentState, Outcome, returns, resumed, evidence_limit,
  verification_limit, revision_limit, propose_limit, goto, fail,
}

-- A draft may repeat the handoff that it revises, and may need the buyer's consent to a return.
pub data ProposeAnswer : Type 0 where
  propose_failed conflicting : ProposeAnswer
  asks_evidence : (valid : Bool) → ProposeAnswer
  drafted : (repeats : Bool) → ProposeAnswer
  drafted_for_consent : (repeats : Bool) → (path_id : PolicyPathId) → ProposeAnswer

-- A draft that repeats the handoff is refused when there is something to revise.
abbrev pub is_refused : Bool → AgentState → Bool
is_refused repeats s = (s.has_pending_review || s.has_feedback) && repeats

-- The answers to a proposal within the budget.
unfoldable pub proposed : ProposeAnswer → AgentState → AgentState
proposed propose_failed s =
    fail contract_violation (record s { propose_round = suc s.propose_round })
proposed conflicting s =
    fail conflicting_revisions (record s { propose_round = suc s.propose_round })
proposed (asks_evidence false) s =
    fail contract_violation (record s { propose_round = suc s.propose_round })
proposed (asks_evidence true) s =
    if leb evidence_limit s.evidence_round
    then fail evidence_budget_exceeded (record s { propose_round = suc s.propose_round })
    else record s {
      propose_round = suc s.propose_round;
      evidence_round = suc s.evidence_round;
      has_evidence_request = true;
      route = request_evidence;
    }
proposed (drafted repeats) s =
    if is_refused repeats s
    then fail contract_violation (record s { propose_round = suc s.propose_round })
    else record s {
      propose_round = suc s.propose_round;
      has_handoff = true;
      has_evidence_request = false;
      has_pending_review = false;
      has_feedback = false;
      route = external_verification;
    }
proposed (drafted_for_consent repeats path) s =
    if is_refused repeats s
    then fail contract_violation (record s { propose_round = suc s.propose_round })
    else record s {
      pending_confirmation = some (record { path_id = path; original_path_id = path });
      route = confirm_policy_path;
    }

unfoldable pub propose_decision_node : ProposeAnswer → AgentState → Outcome
unfolding proposed
propose_decision_node a s =
    if leb propose_limit s.propose_round
    then returns (fail propose_budget_exceeded s)
    else returns (proposed a s)

pub data VerifyAnswer : Type 0 where
  verify_failed verified unavailable has_issues : VerifyAnswer

unfoldable pub external_verification_node : VerifyAnswer → AgentState → Outcome
external_verification_node a s =
    if s.has_handoff then returns (by_answer a) else returns (fail contract_violation s)
  where
    by_answer : VerifyAnswer → AgentState
    by_answer verify_failed = fail contract_violation s
    by_answer verified = record s { has_feedback = false; route = reviewer }
    by_answer unavailable = fail verification_unavailable s
    by_answer has_issues =
        if leb verification_limit s.verification_round
        then fail verification_budget_exceeded (record s { has_feedback = true })
        else record s {
          has_feedback = true;
          verification_round = suc s.verification_round;
          route = propose_decision;
        }

-- The reviewer's verdict, with the gates that are evaluated for an approval; a case that is not v2 has
-- no risk gate.
pub data ReviewAnswer : Type 0 where
  review_failed revises : ReviewAnswer
  approves : ReviewGateResult → Option UserRiskGateResult → ReviewAnswer

abbrev pub needs_human : GateStatus → Bool
needs_human human_required = true
needs_human _ = false

-- `risk.reason if risk and risk.status == "HUMAN_REQUIRED" else None`
abbrev pub reason_of_risk : Option UserRiskGateResult → Option RoutingReason
reason_of_risk none = none
reason_of_risk (some risk) =
    if needs_human risk.status
    then elim risk.reason [ none ↦ none | some r ↦ some (by_risk r) ]
    else none

abbrev pub reason_of : ReviewGateResult → Option UserRiskGateResult → Option RoutingReason
reason_of gate risk =
    if needs_human gate.status
    then elim gate.reason [ none ↦ none | some r ↦ some (by_gate r) ]
    else reason_of_risk risk

-- Where a review by a human starts over.
abbrev pub to_human : RoutingReason → AgentState → AgentState
to_human reason s = record s {
  routing_reason = some reason;
  human_review_ref = none;
  has_human_result = false;
  route = await_human_review;
}

unfoldable pub reviewer_node : ReviewAnswer → AgentState → Outcome
reviewer_node a s =
    if s.has_handoff then returns (by_verdict a) else returns (fail contract_violation s)
  where
    by_reason : Option RoutingReason → AgentState
    by_reason none = record s { routing_reason = none; route = emit_resolution_handoff }
    by_reason (some reason) = to_human reason s

    by_verdict : ReviewAnswer → AgentState
    by_verdict review_failed = fail contract_violation s
    by_verdict (approves gate risk) = by_reason (reason_of gate risk)
    by_verdict revises =
        if leb revision_limit s.revision_round
        then to_human revision_budget_exceeded s
        else record s {
          has_pending_review = true;
          routing_reason = none;
          route = record_revision_event;
        }

unfoldable pub record_revision_event_node : (built : Bool) → AgentState → Outcome
record_revision_event_node built s =
    if s.has_pending_review && built
    then returns (record s { revision_round = suc s.revision_round; route = propose_decision })
    else returns (fail contract_violation s)

-- The calls of the human review: whether the entry is valid, the reference of a submission that did not
-- fail, whether the result could be fetched and is there, and whether the reply is a poll.
pub record AwaitAnswer : Type 0 where
  pub entry_valid : Bool
  pub submitted : Option Ref
  pub fetch_valid : Bool
  pub has_result : Bool
  pub poll_valid : Bool

unfoldable pub await_human_review_node : AwaitAnswer → AgentState → Outcome
await_human_review_node a s =
    if s.has_handoff && a.entry_valid
    then by_ref s.human_review_ref
    else returns (fail contract_violation s)
  where
    submit : Option Ref → Outcome
    submit none = returns (fail contract_violation s)
    submit (some ref) =
        returns (record s { human_review_ref = some ref; route = await_human_review })

    by_ref : Option Ref → Outcome
    by_ref none = submit a.submitted
    by_ref (some ref) =
        if a.fetch_valid
        then (if a.has_result
            then returns (record s { has_human_result = true; route = emit_resolution_handoff })
            else resumed
                (if a.poll_valid then goto await_human_review s else fail contract_violation s))
        else returns (fail contract_violation s)

unfoldable pub emit_resolution_handoff_node : (built : Bool) → AgentState → Outcome
emit_resolution_handoff_node built s =
    if built
    then returns (record s { has_resolution = true; route = enqueue_memory_distillation })
    else returns (fail contract_violation s)

unfoldable pub enqueue_memory_distillation_node : AgentState → Outcome
enqueue_memory_distillation_node s = returns (goto end s)

-- The edge from this node leads to the end.
unfoldable pub terminate_automation_node : AgentState → Outcome
terminate_automation_node s = returns (record s { has_manual_escalation = true; route = end })
