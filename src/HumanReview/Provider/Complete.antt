-- ===== src/HumanReview/Provider/Complete.antt =====
-- `complete_for_case` of SqlAlchemyHumanReviewProvider
-- (apps/api/src/return_agent/capabilities/human_review.py).
use shopee_hachathonteam.Prelude.{
  Bool, true, false, ◌&&◌, ◌||◌, not, Option, none, some, List, Ref, Instant, Result, ok, err,
  ◌>>=◌, ◌>>◌, raise_if, or_raise, ◌==◌, is_none, all_of, keep_if, if◌then◌else◌, same,
}
use shopee_hachathonteam.Gates.Money.{decline, full_refund}
use shopee_hachathonteam.Policy.{ClaimFinding}
use shopee_hachathonteam.Policy.Evaluate.{ItemPolicyEvaluation, evaluate_policy}
use shopee_hachathonteam.Runtime.Assess.{is_eligible, on_path}
use shopee_hachathonteam.HumanReview.Messages.{
  ReviewBundle, HumanReviewDossier, CorrectedDecision, corrected_refund, corrected_decline,
  HumanDecision, human_reject, human_edit, handoff_equality, review_equality, dossier_equality,
  snapshot_equality,
}
use shopee_hachathonteam.HumanReview.Rules.{
  ReviewError, invalid, review_conflict, review_not_found, human_corrected_decision,
  validate_human_decision, validate_human_review_entry, corrected_action,
}
use shopee_hachathonteam.HumanReview.Provider.{
  HumanReviewRecord, HumanReviewResult, LoadedContext, ReviewDecision, Surroundings, latest_of,
  or_conflict, save_review, validate_persisted_dossier_snapshot,
}

-- The findings that a refund under v2 is evaluated on: the reviewer's, or those of an edit.
abbrev pub findings_of :
    HumanDecision → CorrectedDecision → HumanReviewDossier → Option (List ClaimFinding)
findings_of (human_edit _ _) (corrected_refund _ _ findings) dossier = findings
findings_of (human_edit _ _) corrected_decline dossier = none
findings_of _ corrected dossier = some dossier.last_review.reviewer_claim_findings

abbrev pub is_reject : HumanDecision → Bool
is_reject human_reject = true
is_reject _ = false

-- The evaluation of a refund that a human decides under v2, which must be eligible on the selected path.
unfoldable pub evaluate_decision :
    Surroundings
    → HumanDecision
    → CorrectedDecision
    → HumanReviewDossier
    → LoadedContext
    → ReviewBundle
    → Result ReviewError (Option (List ItemPolicyEvaluation))
evaluate_decision s decision corrected dossier loaded bundle = elim (corrected_action corrected) [
  | decline ↦ ok none
  | full_refund ↦
      if bundle.policy.is_v2 && not (is_reject decision)
      then (or_raise (findings_of decision corrected dossier) invalid >>= λ findings.
          elim (evaluate_policy loaded.case_context loaded.order bundle.policy
            dossier.claimed_line_item_ids findings dossier.last_proposal.evidence_refs) [
              | err _ ↦ err invalid
              | ok outcomes ↦ do
                raise_if
                    (not (all_of is_eligible (keep_if (on_path bundle.selected_path_id) outcomes)))
                    invalid
                raise_if (not (s.saves outcomes)) invalid
                ok (some outcomes)
            ])
      else ok none
]

-- The checks against the current order and policy.
unfoldable pub adjudicate :
    Surroundings
    → HumanDecision
    → HumanReviewDossier
    → (case_ref : Ref) → Result ReviewError (Option (List ItemPolicyEvaluation))
unfolding human_corrected_decision validate_human_decision evaluate_decision
adjudicate s decision dossier case_ref = do
  loaded ← or_raise (s.context case_ref) invalid
  bundle ← or_raise (s.bundle dossier.policy_bundle.policy_bundle_version) invalid
  raise_if (not (s.applicable loaded.case_context bundle)) invalid
  raise_if (not (s.handoff_valid dossier.last_proposal bundle loaded.order)) invalid
  let corrected = human_corrected_decision decision dossier.last_proposal
  amount ← validate_human_decision corrected dossier loaded.order loaded.currency bundle
  evaluate_decision s decision corrected dossier loaded bundle

-- The checks of `complete_for_case` on the stored row.
unfoldable pub check_stored :
    Surroundings
    → HumanReviewRecord
    → (case_ref : Ref) → HumanReviewDossier
    → Result ReviewError (Unit {0})
unfolding validate_persisted_dossier_snapshot validate_human_review_entry
check_stored s r case_ref dossier = do
  or_conflict (validate_persisted_dossier_snapshot s dossier case_ref)
  review ← or_raise r.review_payload review_conflict
  or_conflict (validate_human_review_entry s.configs r.handoff_payload review dossier)
  raise_if (not (r.payload_hash == s.hash r.handoff_payload r.review_payload r.dossier_payload))
      review_conflict
  v ← or_raise (s.verification r.handoff_id) review_conflict
  raise_if (not v.is_pass || not (same v.handoff_payload r.handoff_payload)) review_conflict

-- `complete_for_case`
unfoldable pub complete_for_case :
    Surroundings
    → List HumanReviewRecord
    → (case_ref : Ref) → ReviewDecision
    → (now : Instant) → Result ReviewError (HumanReviewResult × List HumanReviewRecord)
unfolding latest_of check_stored adjudicate save_review
complete_for_case s rows case_ref decision now = do
  r ← or_raise (latest_of case_ref rows) review_not_found
  raise_if (not (is_none r.result_payload)) review_conflict
  raise_if (not (decision.handoff_id == r.handoff_id)) review_conflict
  dossier ← or_raise r.dossier_payload review_conflict
  check_stored s r case_ref dossier
  evaluation ← or_conflict (adjudicate s decision.decision dossier case_ref)
  let result : HumanReviewResult = record {
    decision = decision.decision;
    note = decision.note;
    final_resolution_ref = s.resolution_ref r.review_ref;
    reviewed_at = now;
    policy_evaluation = evaluation;
  }
  ok (result, save_review (record r { result_payload = some result; reviewed_at = some now }) rows)
