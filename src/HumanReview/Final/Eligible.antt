-- ===== src/HumanReview/Final/Eligible.antt =====
-- A refund that a human decides under v2.
use shopee_hachathonteam.Prelude.{
  ℕ, ◌≤◌, ◌≡◌, subst, ap, true, false, Option, some, List, Ref, Instant, ok, inl, inr, arith,
  Option-cases, Result-cases, all_of, keep_if, subset,
}
use shopee_hachathonteam.Policy.Evaluate.{ItemPolicyEvaluation, evaluate_policy}
use shopee_hachathonteam.Policy.{ClaimFinding}
use shopee_hachathonteam.Gates.Money.{full_refund}
use shopee_hachathonteam.Runtime.Assess.{is_eligible, on_path}
use shopee_hachathonteam.HumanReview.Messages.{
  HumanReviewDossier, ReviewBundle, dossier_equality, handoff_equality, CorrectedDecision,
  HumanDecision,
}
use shopee_hachathonteam.HumanReview.Rules.{
  corrected_action, corrected_scope, human_corrected_decision, total_of, validate_human_decision,
}
use shopee_hachathonteam.HumanReview.Entry.{validate_human_decision_bounds}
use shopee_hachathonteam.HumanReview.Provider.{
  HumanReviewResult, HumanReviewRecord, ReviewDecision, Surroundings, LoadedContext, latest_of,
}
use shopee_hachathonteam.HumanReview.Provider.Complete.{
  adjudicate, evaluate_decision, complete_for_case, is_reject, findings_of,
}
use shopee_hachathonteam.HumanReview.Final.{completed}

-- The context and the bundle that a completion was checked against.
adjudicated_on :
    (s : Surroundings) (decision : HumanDecision) (dossier : HumanReviewDossier) (case_ref : Ref)
    (evaluation : Option (List ItemPolicyEvaluation))
    → adjudicate s decision dossier case_ref ≡ ok evaluation
    → (loaded : LoadedContext) × (bundle : ReviewBundle) × (amount : ℕ) × (s.context case_ref
        ≡ some loaded)
      × (validate_human_decision
            (human_corrected_decision decision dossier.last_proposal)
            dossier
            loaded.order
            loaded.currency
            bundle
          ≡ ok amount)
      × (evaluate_decision s decision
            (human_corrected_decision decision dossier.last_proposal)
            dossier
            loaded
            bundle
          ≡ ok evaluation)
unfolding adjudicate
adjudicated_on s decision dossier case_ref evaluation h = elim (Option-cases (s.context case_ref)) [
  | inl missing ↦ absurd (ground arith)
  | inr (loaded, has) ↦ elim (Option-cases (s.bundle dossier.policy_bundle.policy_bundle_version)) [
    | inl missing ↦ absurd (ground arith)
    | inr (bundle, stored) ↦
        elim (Result-cases (
          validate_human_decision (human_corrected_decision decision dossier.last_proposal) dossier
            loaded.order loaded.currency bundle)) [
              | inr (e, raised) ↦ absurd (ground arith)
              | inl (amount, valid) ↦ (loaded, bundle, amount, has, valid, ground arith)
            ]
  ]
]

evaluated :
    (s : Surroundings) (decision : HumanDecision) (corrected : CorrectedDecision)
    (dossier : HumanReviewDossier) (loaded : LoadedContext) (bundle : ReviewBundle)
    (evaluation : Option (List ItemPolicyEvaluation))
    → evaluate_decision s decision corrected dossier loaded bundle ≡ ok evaluation
    → corrected_action corrected ≡ full_refund
    → bundle.policy.is_v2 ≡ true
    → is_reject decision ≡ false
    → (findings : List ClaimFinding) × (outcomes : List ItemPolicyEvaluation) × (findings_of
          decision corrected dossier
        ≡ some findings)
      × (evaluation ≡ some outcomes)
      × (evaluate_policy loaded.case_context loaded.order bundle.policy
            dossier.claimed_line_item_ids findings dossier.last_proposal.evidence_refs
          ≡ ok outcomes)
      × (all_of is_eligible (keep_if (on_path bundle.selected_path_id) outcomes) ≡ true)
unfolding evaluate_decision
evaluated s decision corrected dossier loaded bundle evaluation h refund v2 kept =
    elim (Option-cases (findings_of decision corrected dossier)) [
      | inl missing ↦ absurd (ground arith)
      | inr (findings, found) ↦
          elim (Result-cases (
            evaluate_policy loaded.case_context loaded.order bundle.policy
              dossier.claimed_line_item_ids findings dossier.last_proposal.evidence_refs)) [
                | inr (e, raised) ↦ absurd (ground arith)
                | inl (outcomes, verdicts) ↦
                    (findings, outcomes, found, ground arith, verdicts, ground arith)
              ]
    ]

-- The context and the findings that the decision was evaluated on, and what the evaluation says.
abbrev pub IsDecidedOn :
    Surroundings → Ref → ReviewDecision → HumanReviewResult → HumanReviewDossier → Type 0
IsDecidedOn s case_ref d result dossier =
    let corrected = human_corrected_decision d.decision dossier.last_proposal in
    (loaded : LoadedContext) × (findings : List ClaimFinding) × (outcomes : List
      ItemPolicyEvaluation)
    × (s.context case_ref ≡ some loaded)
    × (total_of loaded.order (corrected_scope corrected) ≤ loaded.order.refundable_amount_max)
    × (subset (corrected_scope corrected) dossier.claimed_line_item_ids ≡ true)
    × (findings_of d.decision corrected dossier ≡ some findings)
    × (result.policy_evaluation ≡ some outcomes)
    × (evaluate_policy loaded.case_context loaded.order dossier.policy_bundle.policy
          dossier.claimed_line_item_ids findings dossier.last_proposal.evidence_refs
        ≡ ok outcomes)
    × (all_of is_eligible (keep_if (on_path dossier.policy_bundle.selected_path_id) outcomes)
        ≡ true)

decided_on :
    (s : Surroundings) (case_ref : Ref) (d : ReviewDecision) (result : HumanReviewResult)
    (dossier : HumanReviewDossier)
    → corrected_action (human_corrected_decision d.decision dossier.last_proposal) ≡ full_refund
    → dossier.policy_bundle.policy.is_v2 ≡ true
    → is_reject d.decision ≡ false
    → adjudicate s d.decision dossier case_ref ≡ ok result.policy_evaluation
    → IsDecidedOn s case_ref d result dossier
decided_on s case_ref d result dossier refund v2 positive h =
    let (loaded, bundle, amount, has, valid, verdict) =
      adjudicated_on s d.decision dossier case_ref result.policy_evaluation h in
    let corrected = human_corrected_decision d.decision dossier.last_proposal in
    let (same_bundle, order, currency, claimed, listed, total, covered, returns) =
      validate_human_decision_bounds corrected dossier loaded.order loaded.currency bundle valid in
    let (findings, outcomes, found, carried, verdicts, eligible) =
      evaluated s d.decision corrected dossier loaded dossier.policy_bundle result.policy_evaluation
        (subst
          (λ b.
            evaluate_decision s d.decision corrected dossier loaded b ≡ ok result.policy_evaluation)
          same_bundle verdict)
        refund v2 positive in
    (loaded, findings, outcomes, has, omega arith, claimed, found, carried, verdicts, eligible)

-- A refund that a human decided, by an approval or an edit, on a dossier whose policy bundle is of v2: its items
-- are claimed by the case and the order's maximum covers their sum; it was evaluated by the policy of that bundle
-- on the context of the case, the result carries the evaluation, and each of its outcomes on the selected path is
-- ELIGIBLE.
pub decided_refund_eligible :
    (s : Surroundings) (rows rows' : List HumanReviewRecord) (case_ref : Ref) (d : ReviewDecision)
    (now : Instant) (result : HumanReviewResult) (r : HumanReviewRecord)
    (dossier : HumanReviewDossier)
    → complete_for_case s rows case_ref d now ≡ ok (result, rows')
    → latest_of case_ref rows ≡ some r
    → r.dossier_payload ≡ some dossier
    → corrected_action (human_corrected_decision d.decision dossier.last_proposal) ≡ full_refund
    → dossier.policy_bundle.policy.is_v2 ≡ true
    → is_reject d.decision ≡ false
    → IsDecidedOn s case_ref d result dossier
decided_refund_eligible s rows rows' case_ref d now result r dossier h latest kept refund v2
      positive =
    let c = completed s rows rows' case_ref d now result h in
    let row : c.review ≡ r = ground (arith, c.latest) in
    let stored : c.dossier ≡ dossier = ground (arith, c.kept, ap (λ x. x.dossier_payload) row) in
    decided_on s case_ref d result dossier refund v2 positive (
      subst (λ x. adjudicate s d.decision x case_ref ≡ ok result.policy_evaluation) stored
        c.adjudicated)
