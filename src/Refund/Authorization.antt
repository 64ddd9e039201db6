-- ===== src/Refund/Authorization.antt =====
-- The resolutions that are to be authorized, and the reasons of a rejection, for `_authorization_rejection`
-- (apps/api/src/return_agent/capabilities/refund.py).
pub mod Rules
pub mod Sound
pub mod Tests
use shopee_hachathonteam.Prelude.{
  ℕ, Bool, true, false, ◌&&◌, ◌||◌, not, Option, none, some, List, [], ◌∷◌, Ref, Result, ok, err,
  ◌>>=◌, ◌>>◌, raise_if, or_raise, ◌==◌, ltb, is_none, subset, map, same_list, if◌then◌else◌,
  Equality, same,
}
use native.Mathlib.Decide.{ℕ_discrete}
use shopee_hachathonteam.Gates.Money.{
  full_refund, decline, pass, ReviewGateResult, GateStatus, evaluate_review_gate,
}
use shopee_hachathonteam.Gates.Risk.{UserRiskGateResult, UserRiskSnapshot, evaluate_user_risk}
use shopee_hachathonteam.Policy.{OrderSnapshot}
use shopee_hachathonteam.HumanReview.Messages.{
  ReturnRequirement, AgentReturnDecision, ProposedDecision, ProposedDecisionHandoff, ReviewResult,
  HumanReviewDossier, corrected_refund, corrected_decline, CorrectedDecision, HumanDecision,
  human_approve, human_reject, human_edit, handoff_equality, gate_equality, risk_gate_equality,
}
use shopee_hachathonteam.HumanReview.Rules.{
  is_approve, total_of, validate_human_review_entry, GateConfigs, ReviewError,
}
use shopee_hachathonteam.HumanReview.Provider.{
  HumanReviewRecord, Surroundings, validate_persisted_dossier_snapshot,
}
use shopee_hachathonteam.Refund.{RefundError, data_integrity, invalid_value}

pub data OutcomeSource : Type 0 where
  by_reviewer by_human_approve by_human_edit by_human_reject : OutcomeSource

-- The return decision of a resolution: the Agent's, or the requirement that the human review set.
pub data ReturnDecision : Type 0 where
  by_agent : AgentReturnDecision → ReturnDecision
  by_human : (requirement : ReturnRequirement) → ReturnDecision

-- Its source is HUMAN_REVIEW.
abbrev pub is_by_human : ReturnDecision → Bool
is_by_human (by_agent d) = false
is_by_human (by_human requirement) = true

-- A refund of the final decision.
pub record RefundDecision : Type 0 where
  pub refund_scope : List Ref
  pub amount : ℕ
  pub currency : Ref
  pub return_decision : ReturnDecision
  pub reason_code : Ref

pub data FinalDecision : Type 0 where
  refund : RefundDecision → FinalDecision
  declined : FinalDecision

-- The parts of `ResolutionHandoff` that the authorization reads.
pub record ResolutionHandoff : Type 0 where
  pub case_ref : Ref
  pub handoff_id : Ref
  pub outcome_source : OutcomeSource
  pub execution_blocked : Bool
  pub final_decision : FinalDecision
  pub review_result : ReviewResult
  pub review_gate : Option ReviewGateResult
  pub user_risk_gate : Option UserRiskGateResult

-- `PersistedAuthorization`; `is_pass` says that the verification's status is PASS.
pub record PersistedAuthorization : Type 0 where
  pub handoff : ProposedDecisionHandoff
  pub is_pass : Bool
  pub human_record : Option HumanReviewRecord

pub data Rejection : Type 0 where
  execution_blocked final_decision_declined authorization_not_found case_ref_mismatch : Rejection
  original_proposal_not_refund verification_not_passed review_not_approved final_decision_mismatch :
      Rejection
  review_gate_invalid human_authorization_required user_risk_gate_missing
        user_risk_snapshot_invalid :
      Rejection
  user_risk_gate_invalid human_review_not_authorized outcome_source_not_executable : Rejection
  human_edit_decision_invalid refund_scope_not_authorized refund_scope_unavailable
        refund_amount_mismatch :
      Rejection
  refund_amount_exceeds_maximum refund_currency_mismatch : Rejection

RefundDecision-discrete : Discrete RefundDecision
RefundDecision-discrete = hlevel (ℕ_discrete)

FinalDecision-discrete : Discrete FinalDecision
FinalDecision-discrete = hlevel (RefundDecision-discrete)

ReturnRequirement-discrete : Discrete ReturnRequirement
ReturnRequirement-discrete = hlevel (ℕ_discrete)

ReviewResult-discrete : Discrete ReviewResult
ReviewResult-discrete = hlevel (ℕ_discrete)

instance pub final_equality : Equality FinalDecision
final_equality = record { decide = FinalDecision-discrete }

instance pub requirement_equality : Equality ReturnRequirement
requirement_equality = record { decide = ReturnRequirement-discrete }

instance pub stored_review_equality : Equality (Option ReviewResult)
stored_review_equality = record { decide = hlevel (ReviewResult-discrete) }

abbrev pub is_pass_status : GateStatus → Bool
is_pass_status pass = true
is_pass_status _ = false
