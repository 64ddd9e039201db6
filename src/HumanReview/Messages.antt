-- ===== src/HumanReview/Messages.antt =====
-- The messages of a human review (models.py of the contracts), and their equality.
use shopee_hachathonteam.Prelude.{ℕ, Bool, Option, List, Ref, Equality}
use native.Mathlib.Decide.{ℕ_discrete}
use shopee_hachathonteam.Gates.Money.{ResolutionAction, GateStatus, GateReason, ReviewGateResult}
use shopee_hachathonteam.Gates.Risk.{UserRiskLevel, UserRiskSnapshot, UserRiskGateResult}
use shopee_hachathonteam.Policy.{PolicyPathId, ReturnPolicy, ClaimFinding, PolicyBundle}
use shopee_hachathonteam.Runtime.{RoutingReason}

-- The requirement of a return decision; `details` stands for its other fields.
pub record ReturnRequirement : Type 0 where
  pub required : Bool
  pub details : Ref

-- The return decision of the Agent, with its source: the policy, or the model's judgment on a basis.
pub data AgentReturnDecision : Type 0 where
  from_policy : (requirement : ReturnRequirement) → AgentReturnDecision
  from_judgment : (basis_refs : List Ref) → (requirement : ReturnRequirement) → AgentReturnDecision

-- `return_decision.requirement`
abbrev pub requirement_of : AgentReturnDecision → ReturnRequirement
requirement_of (from_policy requirement) = requirement
requirement_of (from_judgment basis requirement) = requirement

-- A decline has no return decision, and that field of it is not read.
pub record ProposedDecision : Type 0 where
  pub action : ResolutionAction
  pub refund_scope : List Ref
  pub amount : ℕ
  pub currency : Ref
  pub return_decision : AgentReturnDecision
  pub reason_code : Ref

-- `is_v2` is `handoff_version == "2.0"`; `body` stands for the fields that are only compared.
pub record ProposedDecisionHandoff : Type 0 where
  pub handoff_id : Ref
  pub case_ref : Ref
  pub is_v2 : Bool
  pub revision_round : ℕ
  pub proposed_decision : ProposedDecision
  pub policy_bundle_version : Ref
  pub evidence_refs : List Ref
  pub body : Ref

pub data ReviewVerdict : Type 0 where
  approve revise : ReviewVerdict

pub record ReviewResult : Type 0 where
  pub verdict : ReviewVerdict
  pub reviewer_claim_findings : List ClaimFinding
  pub body : Ref

-- A clause, with its path when it is of v2. `needs_user_evidence` says that one of its required claims is
-- satisfiable by evidence of the user.
pub record PolicyClause : Type 0 where
  pub path_id : Option PolicyPathId
  pub allows_refund : Bool
  pub allows_decline : Bool
  pub return_policy : ReturnPolicy
  pub needs_user_evidence : Bool

pub record ReviewBundle : Type 0 where
  pub policy_bundle_version : Ref
  pub policy : PolicyBundle
  pub selected_path_id : PolicyPathId
  pub clauses : List PolicyClause
  pub body : Ref

-- `last_proposal` is `proposal_history[-1]` and `last_review` is `review_history[-1]`, of lists that are
-- not empty; `order_ref` and `currency` are those of `order_snapshot`.
pub record HumanReviewDossier : Type 0 where
  pub claimed_line_item_ids : List Ref
  pub routing_reason : RoutingReason
  pub review_gate : Option ReviewGateResult
  pub user_risk_snapshot : Option UserRiskSnapshot
  pub user_risk_gate : Option UserRiskGateResult
  pub order_ref : Ref
  pub currency : Ref
  pub policy_bundle : ReviewBundle
  pub last_proposal : ProposedDecisionHandoff
  pub last_review : ReviewResult
  pub body : Ref

pub data CorrectedDecision : Type 0 where
  corrected_refund :
      (scope : List Ref)
      → ReturnRequirement
      → (policy_findings : Option (List ClaimFinding)) → CorrectedDecision
  corrected_decline : CorrectedDecision

-- The decision of a human, with the correction of an edit.
pub data HumanDecision : Type 0 where
  human_approve human_reject : HumanDecision
  human_edit : (corrected : CorrectedDecision) → (correction_reason_code : Ref) → HumanDecision

GateStatus-discrete : Discrete GateStatus
GateStatus-discrete = hlevel

GateReason-discrete : Discrete GateReason
GateReason-discrete = hlevel

RiskLevel-discrete : Discrete UserRiskLevel
RiskLevel-discrete = hlevel

ReviewGateResult-discrete : Discrete ReviewGateResult
ReviewGateResult-discrete = hlevel (ℕ_discrete)

UserRiskGateResult-discrete : Discrete UserRiskGateResult
UserRiskGateResult-discrete = hlevel (ℕ_discrete)

UserRiskSnapshot-discrete : Discrete UserRiskSnapshot
UserRiskSnapshot-discrete = hlevel (ℕ_discrete)

RoutingReason-discrete : Discrete RoutingReason
RoutingReason-discrete = hlevel

ProposedDecisionHandoff-discrete : Discrete ProposedDecisionHandoff
ProposedDecisionHandoff-discrete = hlevel (ℕ_discrete)

ReviewResult-discrete : Discrete ReviewResult
ReviewResult-discrete = hlevel (ℕ_discrete)

ReviewBundle-discrete : Discrete ReviewBundle
ReviewBundle-discrete = hlevel (ℕ_discrete)

HumanReviewDossier-discrete : Discrete HumanReviewDossier
HumanReviewDossier-discrete = hlevel (ℕ_discrete)

instance pub handoff_equality : Equality ProposedDecisionHandoff
handoff_equality = record { decide = ProposedDecisionHandoff-discrete }

instance pub review_equality : Equality ReviewResult
review_equality = record { decide = ReviewResult-discrete }

instance pub bundle_equality : Equality ReviewBundle
bundle_equality = record { decide = ReviewBundle-discrete }

instance pub dossier_equality : Equality (Option HumanReviewDossier)
dossier_equality = record { decide = hlevel (HumanReviewDossier-discrete) }

instance pub gate_equality : Equality (Option ReviewGateResult)
gate_equality = record { decide = hlevel (ReviewGateResult-discrete) }

instance pub risk_gate_equality : Equality (Option UserRiskGateResult)
risk_gate_equality = record { decide = hlevel (UserRiskGateResult-discrete) }

instance pub snapshot_equality : Equality UserRiskSnapshot
snapshot_equality = record { decide = UserRiskSnapshot-discrete }

instance pub routing_equality : Equality (Option RoutingReason)
routing_equality = record { decide = hlevel (RoutingReason-discrete) }
