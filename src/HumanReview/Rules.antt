-- ===== src/HumanReview/Rules.antt =====
-- Who may ask for a human review, and what a human may decide (validation.py of the contracts).
use shopee_hachathonteam.Prelude.{
  ℕ, ◌+◌, Bool, true, false, ◌&&◌, ◌||◌, not, Option, none, some, List, [], ◌∷◌, Ref, Result, ok,
  err, ◌>>=◌, ◌>>◌, raise_if, ◌==◌, ltb, is_none, subset, any_of, all_of, keep_if, map,
  if◌then◌else◌, first_of?, same,
}
use shopee_hachathonteam.Gates.Money.{
  ResolutionAction, decline, full_refund, ReviewerGateConfig, evaluate_review_gate,
}
use shopee_hachathonteam.Gates.Risk.{
  UserRiskSnapshot, UserRiskGateResult, UserRiskConfig, evaluate_user_risk,
  not_applicable_user_risk_gate, unavailable_user_risk_gate,
}
use shopee_hachathonteam.Policy.{
  ReturnPolicy, return_required, return_not_required, model_judgment, OrderSnapshot, path_rank,
}
use shopee_hachathonteam.Runtime.{by_gate, by_risk, revision_budget_exceeded}
use shopee_hachathonteam.Runtime.Decide.{reason_of}
use shopee_hachathonteam.HumanReview.Messages.{
  requirement_of, ProposedDecisionHandoff, ReviewVerdict, approve, revise, ReviewResult,
  PolicyClause, ReviewBundle, HumanReviewDossier, CorrectedDecision, corrected_refund,
  corrected_decline, HumanDecision, human_approve, human_reject, human_edit, handoff_equality,
  review_equality, bundle_equality, gate_equality, risk_gate_equality, routing_equality,
}

-- `invalid` is a ContractInvariantError or another ValueError, `review_conflict` is
-- HumanReviewConflictError and `review_not_found` HumanReviewNotFoundError.
pub data ReviewError : Type 0 where
  invalid review_conflict review_not_found : ReviewError

abbrev pub review_revision_limit : ℕ
review_revision_limit = 3

abbrev pub is_approve : ReviewVerdict → Bool
is_approve approve = true
is_approve revise = false

-- A gate's own validator that raises is a ValueError.
abbrev pub or_invalid {ℓ} : {A : Type ℓ} → Result (Unit {0}) A → Result ReviewError A
or_invalid (ok a) = ok a
or_invalid (err _) = err invalid

-- `active_clauses`
unfoldable pub active_clauses : ReviewBundle → List PolicyClause
active_clauses bundle =
    if bundle.policy.is_v2
    then keep_if
        (λ c. elim c.path_id [
          | none ↦ false
          | some p ↦ path_rank p == path_rank bundle.selected_path_id
        ])
        bundle.clauses
    else bundle.clauses

abbrev pub allows : ResolutionAction → PolicyClause → Bool
allows full_refund c = c.allows_refund
allows decline c = c.allows_decline

abbrev pub requires_return : ReturnPolicy → Bool
requires_return return_required = true
requires_return _ = false

abbrev pub waives_return : ReturnPolicy → Bool
waives_return return_not_required = true
waives_return _ = false

-- `_validate_action_against_policy`
unfoldable pub validate_action_against_policy :
    ResolutionAction → ReviewBundle → Result ReviewError ReturnPolicy
unfolding active_clauses
validate_action_against_policy action bundle = do
  raise_if (elim bundle.clauses [ [] ↦ true | _ ∷ _ ↦ false ]) invalid
  raise_if (not (all_of (allows action) (active_clauses bundle))) invalid
  let required = any_of (λ c. requires_return c.return_policy) (active_clauses bundle)
  let waived = any_of (λ c. waives_return c.return_policy) (active_clauses bundle)
  raise_if (required && waived) invalid
  ok (if required then return_required else if waived then return_not_required else model_judgment)

abbrev pub corrected_action : CorrectedDecision → ResolutionAction
corrected_action (corrected_refund _ _ _) = full_refund
corrected_action corrected_decline = decline

abbrev pub corrected_scope : CorrectedDecision → List Ref
corrected_scope (corrected_refund scope _ _) = scope
corrected_scope corrected_decline = []

-- The amount of an item, and of a scope; an item that the order lacks is refused before.
abbrev pub amount_of : OrderSnapshot → Ref → ℕ
amount_of order item = elim (first_of? (λ x. x.line_item_id == item) order.line_items) [
  | none ↦ 0
  | some x ↦ x.refundable_amount
]

abbrev pub total_of : OrderSnapshot → List Ref → ℕ
total_of order [] = 0
total_of order (item ∷ items) = amount_of order item + total_of order items

-- The rules on a refund's return and evidence.
unfoldable pub check_refund :
    CorrectedDecision
    → HumanReviewDossier
    → ReviewBundle
    → ReturnPolicy
    → Result ReviewError (Unit {0})
unfolding active_clauses
check_refund corrected_decline dossier bundle policy = ok tt
check_refund (corrected_refund scope requirement findings) dossier bundle policy = do
  raise_if (requires_return policy && not requirement.required) invalid
  raise_if (waives_return policy && requirement.required) invalid
  raise_if
      (elim dossier.last_proposal.evidence_refs [ [] ↦ true | _ ∷ _ ↦ false ]
        && any_of (λ c. c.needs_user_evidence) (active_clauses bundle))
      invalid

-- `validate_human_decision`, with the currency of the order that is current.
unfoldable pub validate_human_decision :
    CorrectedDecision
    → HumanReviewDossier
    → OrderSnapshot
    → (currency : Ref) → ReviewBundle
    → Result ReviewError ℕ
unfolding validate_action_against_policy check_refund
validate_human_decision decision dossier order currency bundle = do
  raise_if (not (order.order_ref == dossier.order_ref)) invalid
  raise_if (not (same bundle dossier.policy_bundle)) invalid
  policy ← validate_action_against_policy (corrected_action decision) bundle
  raise_if (not (subset (corrected_scope decision) dossier.claimed_line_item_ids)) invalid
  raise_if (not (subset (corrected_scope decision) (map (λ x. x.line_item_id) order.line_items)))
      invalid
  raise_if (not (currency == dossier.currency)) invalid
  raise_if (ltb order.refundable_amount_max (total_of order (corrected_scope decision))) invalid
  check_refund decision dossier bundle policy
  ok (total_of order (corrected_scope decision))

-- `human_corrected_decision`
unfoldable pub human_corrected_decision :
    HumanDecision → ProposedDecisionHandoff → CorrectedDecision
human_corrected_decision (human_edit corrected code) handoff = corrected
human_corrected_decision human_reject handoff = corrected_decline
human_corrected_decision human_approve handoff = elim handoff.proposed_decision.action [
  | decline ↦ corrected_decline
  | full_refund ↦
      corrected_refund handoff.proposed_decision.refund_scope
        (requirement_of handoff.proposed_decision.return_decision) none
]

-- The configurations of the gates, with their digests.
pub record GateConfigs : Type 0 where
  pub monetary_fingerprint : ReviewerGateConfig → Ref
  pub risk_fingerprint : UserRiskConfig → Ref
  pub monetary : ReviewerGateConfig
  pub risk : UserRiskConfig

-- The user-risk gate that a v2 handoff must have.
unfoldable pub expected_risk :
    GateConfigs
    → ProposedDecisionHandoff
    → Option UserRiskSnapshot
    → Result ReviewError UserRiskGateResult
expected_risk g handoff snapshot = elim handoff.proposed_decision.action [
  | decline ↦ or_invalid (not_applicable_user_risk_gate g.risk_fingerprint g.risk)
  | full_refund ↦ elim snapshot [
    | none ↦ or_invalid (unavailable_user_risk_gate g.risk_fingerprint g.risk)
    | some s ↦
        raise_if
          (not (s.case_ref == handoff.case_ref)
            || not (s.reason_code == handoff.proposed_decision.reason_code))
          invalid
        >> or_invalid (evaluate_user_risk g.risk_fingerprint full_refund s g.risk)
  ]
]

-- The user-risk gate of the dossier, which v1 does not use.
unfoldable pub check_risk :
    GateConfigs
    → ProposedDecisionHandoff
    → HumanReviewDossier
    → Result ReviewError (Option UserRiskGateResult)
unfolding expected_risk
check_risk g handoff dossier =
    if handoff.is_v2
    then (expected_risk g handoff dossier.user_risk_snapshot >>= λ risk.
        raise_if (not (same dossier.user_risk_gate (some risk))) invalid >> ok (some risk))
    else (raise_if
          (not (is_none dossier.user_risk_gate) || not (is_none dossier.user_risk_snapshot)) invalid
        >> ok none)

-- The entry of a review that a gate asks for.
unfoldable pub check_gate_entry :
    GateConfigs
    → ProposedDecisionHandoff
    → ReviewResult
    → HumanReviewDossier
    → Result ReviewError (Unit {0})
unfolding check_risk
check_gate_entry g handoff review dossier = do
  let decision = handoff.proposed_decision
  expected ← or_invalid (
      evaluate_review_gate g.monetary_fingerprint decision.action decision.amount decision.currency
        g.monetary)
  raise_if (not (is_approve review.verdict) || not (same dossier.review_gate (some expected)))
      invalid
  risk ← check_risk g handoff dossier
  raise_if (not (same (reason_of expected risk) (some dossier.routing_reason))) invalid

-- `validate_human_review_entry`
unfoldable pub validate_human_review_entry :
    GateConfigs
    → ProposedDecisionHandoff
    → ReviewResult
    → HumanReviewDossier
    → Result ReviewError (Unit {0})
unfolding check_gate_entry
validate_human_review_entry g handoff review dossier = do
  raise_if (not (same dossier.last_proposal handoff) || not (same dossier.last_review review))
      invalid
  elim dossier.routing_reason [
    | revision_budget_exceeded ↦
        raise_if
          (is_approve review.verdict
            || ltb handoff.revision_round review_revision_limit
            || not (is_none dossier.review_gate)
            || not (is_none dossier.user_risk_gate)
            || not (is_none dossier.user_risk_snapshot))
          invalid
    | by_gate _ ↦ check_gate_entry g handoff review dossier
    | by_risk _ ↦ check_gate_entry g handoff review dossier
  ]
