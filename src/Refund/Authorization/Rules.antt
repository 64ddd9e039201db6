-- ===== src/Refund/Authorization/Rules.antt =====
-- `_authorization_rejection` with its helpers and `_validate_human_edit` of SqlAlchemyRefundExecutionProvider
-- (apps/api/src/return_agent/capabilities/refund.py).
use shopee_hachathonteam.Prelude.{
  Bool, true, false, ◌&&◌, ◌||◌, not, Option, none, some, List, Ref, Result, ok, err, ◌>>=◌, ◌>>◌,
  raise_if, ◌==◌, ltb, is_none, subset, map, same_list, if◌then◌else◌, same,
}
use shopee_hachathonteam.Gates.Money.{full_refund, decline, evaluate_review_gate}
use shopee_hachathonteam.Gates.Risk.{evaluate_user_risk}
use shopee_hachathonteam.Policy.{OrderSnapshot}
use shopee_hachathonteam.HumanReview.Messages.{
  ReturnRequirement, ProposedDecision, ProposedDecisionHandoff, corrected_refund, HumanDecision,
  human_approve, human_edit, handoff_equality, gate_equality, risk_gate_equality,
}
use shopee_hachathonteam.HumanReview.Rules.{
  is_approve, total_of, validate_human_review_entry, ReviewError,
}
use shopee_hachathonteam.HumanReview.Provider.{Surroundings, validate_persisted_dossier_snapshot}
use shopee_hachathonteam.Refund.{RefundError, data_integrity, invalid_value}
use shopee_hachathonteam.Refund.Authorization.{
  execution_blocked, final_decision_declined, authorization_not_found, case_ref_mismatch,
  original_proposal_not_refund, verification_not_passed, review_not_approved,
  final_decision_mismatch, review_gate_invalid, human_authorization_required,
  user_risk_gate_missing, user_risk_snapshot_invalid, user_risk_gate_invalid,
  human_review_not_authorized, outcome_source_not_executable, human_edit_decision_invalid,
  refund_scope_not_authorized, refund_scope_unavailable, refund_amount_mismatch,
  refund_amount_exceeds_maximum, refund_currency_mismatch, FinalDecision, OutcomeSource,
  PersistedAuthorization, Rejection, ResolutionHandoff, by_human_approve, by_human_edit,
  by_human_reject, by_reviewer, declined, final_equality, is_pass_status, refund, ReturnDecision,
  is_by_human, by_agent, by_human, requirement_equality, stored_review_equality,
}

-- `_matches_original_proposal`: the final decision is what the Agent's proposal says.
unfoldable pub matches_original_proposal : ResolutionHandoff → ProposedDecisionHandoff → Bool
matches_original_proposal r handoff = elim d.action [
  | decline ↦ false
  | full_refund ↦ same r.final_decision (
      refund (record {
        refund_scope = d.refund_scope;
        amount = d.amount;
        currency = d.currency;
        return_decision = by_agent d.return_decision;
        reason_code = d.reason_code;
      }))
]
  where
    d : ProposedDecision
    d = handoff.proposed_decision

-- The return decision is the human's, with this requirement.
abbrev pub is_set_by_human : ReturnRequirement → ReturnDecision → Bool
is_set_by_human requirement (by_agent d) = false
is_set_by_human requirement (by_human r) = same requirement r

-- The stored decision of the human is the one that the resolution carries out.
unfoldable pub matches_decision : OutcomeSource → FinalDecision → HumanDecision → Bool
matches_decision by_human_approve final human_approve = true
matches_decision by_human_edit (refund f)
      (human_edit (corrected_refund scope requirement findings) code) =
    same_list scope f.refund_scope && is_set_by_human requirement f.return_decision
matches_decision source final decision = false

-- A call whose ValueError makes the authorization fail.
abbrev pub holds {ℓ} : {A : Type ℓ} → Result ReviewError A → Bool
holds (ok _) = true
holds (err _) = false

-- `_matches_human_authorization`
unfoldable pub matches_human_authorization :
    Surroundings → ResolutionHandoff → PersistedAuthorization → Result RefundError Bool
unfolding matches_decision validate_human_review_entry validate_persisted_dossier_snapshot
matches_human_authorization s r a = elim a.human_record [
  | none ↦ ok false
  | some stored ↦ elim stored.result_payload [
    | none ↦ ok false
    | some result ↦ elim stored.dossier_payload [
      | none ↦ ok false
      | some dossier ↦
          if is_none stored.reviewed_at
            || not (same stored.handoff_payload a.handoff)
            || not (same stored.review_payload (some r.review_result))
            || not (holds (validate_human_review_entry s.configs a.handoff r.review_result dossier))
            || not (holds (validate_persisted_dossier_snapshot s dossier r.case_ref))
            || not (same r.review_gate dossier.review_gate)
            || not (same r.user_risk_gate dossier.user_risk_gate)
          then ok false
          else (raise_if
                (not (
                    stored.payload_hash
                    == s.hash stored.handoff_payload stored.review_payload stored.dossier_payload)
                  || not (stored.case_ref == r.case_ref))
                data_integrity
              >> ok (matches_decision r.outcome_source r.final_decision result.decision))
    ]
  ]
]

-- The user-risk gate of a refund under v2 that the reviewer approved.
unfoldable pub risk_rejection :
    Surroundings → ResolutionHandoff → ProposedDecisionHandoff → Option Rejection
risk_rejection s r handoff = elim r.user_risk_gate [
  | none ↦ some user_risk_gate_missing
  | some gate ↦ elim gate.snapshot_ref [
    | none ↦ some user_risk_gate_missing
    | some ref ↦ elim (s.snapshot ref) [
      | none ↦ some user_risk_snapshot_invalid
      | some snapshot ↦
          if not (snapshot.case_ref == r.case_ref)
            || not (snapshot.reason_code == handoff.proposed_decision.reason_code)
          then some user_risk_snapshot_invalid
          else (elim (evaluate_user_risk s.configs.risk_fingerprint handoff.proposed_decision.action
              snapshot s.configs.risk) [
                | err _ ↦ some user_risk_snapshot_invalid
                | ok expected ↦
                    if not (same (some gate) (some expected))
                    then some user_risk_gate_invalid
                    else if is_pass_status expected.status
                    then none
                    else some human_authorization_required
              ])
    ]
  ]
]

-- The branch for the reviewer's approval.
unfoldable pub reviewer_rejection :
    Surroundings
    → ResolutionHandoff
    → ProposedDecisionHandoff
    → Result RefundError (Option Rejection)
unfolding matches_original_proposal risk_rejection
reviewer_rejection s r handoff =
    if not (is_approve r.review_result.verdict)
    then ok (some review_not_approved)
    else if not (matches_original_proposal r handoff)
    then ok (some final_decision_mismatch)
    else (elim (evaluate_review_gate s.configs.monetary_fingerprint d.action d.amount d.currency
        s.configs.monetary) [
          | err _ ↦ err invalid_value
          | ok gate ↦
              if not (same r.review_gate (some gate))
              then ok (some review_gate_invalid)
              else if not (is_pass_status gate.status)
              then ok (some human_authorization_required)
              else if handoff.is_v2
              then ok (risk_rejection s r handoff)
              else ok none
        ])
  where
    d : ProposedDecision
    d = handoff.proposed_decision

-- The branches for a human's decision.
unfoldable pub human_rejection :
    Surroundings
    → ResolutionHandoff
    → PersistedAuthorization
    → (copies_proposal : Bool) → Result RefundError (Option Rejection)
unfolding matches_human_authorization matches_original_proposal
human_rejection s r a copies_proposal = do
  fits ← matches_human_authorization s r a
  ok (
      if not fits
      then some human_review_not_authorized
      else if copies_proposal && not (matches_original_proposal r a.handoff)
      then some final_decision_mismatch
      else none)

-- The branches by the source of the outcome.
unfoldable pub source_rejection :
    Surroundings
    → ResolutionHandoff
    → PersistedAuthorization
    → OutcomeSource
    → Result RefundError (Option Rejection)
unfolding reviewer_rejection human_rejection
source_rejection s r a by_reviewer = reviewer_rejection s r a.handoff
source_rejection s r a by_human_approve = human_rejection s r a true
source_rejection s r a by_human_edit = human_rejection s r a false
source_rejection s r a by_human_reject = ok (some outcome_source_not_executable)

abbrev pub is_declined : FinalDecision → Bool
is_declined declined = true
is_declined (refund _) = false

abbrev pub is_edit : OutcomeSource → Bool
is_edit by_human_edit = true
is_edit _ = false

abbrev pub proposes_refund : ProposedDecisionHandoff → Bool
proposes_refund handoff = elim handoff.proposed_decision.action [
  | full_refund ↦ true
  | decline ↦ false
]

-- `_authorization_rejection`: none when the refund is authorized.
unfoldable pub authorization_rejection :
    Surroundings
    → ResolutionHandoff
    → Option PersistedAuthorization
    → Result RefundError (Option Rejection)
unfolding source_rejection
authorization_rejection s r authorization =
    if r.execution_blocked
    then ok (some execution_blocked)
    else if is_declined r.final_decision
    then ok (some final_decision_declined)
    else (elim authorization [
      | none ↦ ok (some authorization_not_found)
      | some a ↦
          if not (r.case_ref == a.handoff.case_ref)
          then ok (some case_ref_mismatch)
          else if not (proposes_refund a.handoff) && not (is_edit r.outcome_source)
          then ok (some original_proposal_not_refund)
          else if not a.is_pass
          then ok (some verification_not_passed)
          else source_rejection s r a r.outcome_source
    ])

-- `_validate_human_edit`
unfoldable pub validate_human_edit :
    FinalDecision
    → OrderSnapshot
    → (currency : Ref) → (claimed_line_item_ids : List Ref) → Option Rejection
validate_human_edit declined order currency claimed = some human_edit_decision_invalid
validate_human_edit (refund f) order currency claimed =
    if not (is_by_human f.return_decision)
    then some human_edit_decision_invalid
    else if not (subset f.refund_scope claimed)
    then some refund_scope_not_authorized
    else if not (subset f.refund_scope (map (λ x. x.line_item_id) order.line_items))
    then some refund_scope_unavailable
    else if not (f.amount == total_of order f.refund_scope)
    then some refund_amount_mismatch
    else if ltb order.refundable_amount_max f.amount
    then some refund_amount_exceeds_maximum
    else if not (f.currency == currency)
    then some refund_currency_mismatch
    else none
