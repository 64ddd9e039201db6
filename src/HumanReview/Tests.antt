-- ===== src/HumanReview/Tests.antt =====
-- A refund that the reviewer objects to until its revisions are used, and that a human approves.
use shopee_hachathonteam.Prelude.{
  ◌+◌, ◌≡◌, ◌≤◌, refl, arith, true, false, none, some, [], ◌∷◌, ok, err, ◌⊎◌, same_refl,
}
use shopee_hachathonteam.Gates.Money.{full_refund}
use shopee_hachathonteam.Gates.Tests.{limits, fingerprint, rules, fingerprint_of}
use shopee_hachathonteam.Policy.{damaged_on_arrival, model_judgment}
use shopee_hachathonteam.Policy.Tests.{
  facts_7, order, context, bundle, findings, evidence, outcome, evaluated_order,
}
use shopee_hachathonteam.Runtime.{revision_budget_exceeded}
use shopee_hachathonteam.HumanReview.Messages.{
  from_judgment, ProposedDecisionHandoff, approve, revise, ReviewResult, ReviewBundle,
  HumanReviewDossier, human_approve, handoff_equality, review_equality, dossier_equality,
  bundle_equality,
}
use shopee_hachathonteam.HumanReview.Rules.{
  validate_human_review_entry, review_conflict, human_corrected_decision, validate_human_decision,
  validate_action_against_policy, active_clauses, check_refund,
}
use shopee_hachathonteam.HumanReview.Provider.{
  HumanReviewRecord, HumanReviewResult, ReviewDecision, Surroundings, by_handoff, submit_for_review,
  check_submission, validate_persisted_dossier_snapshot, latest_of, save_review,
}
use shopee_hachathonteam.HumanReview.Provider.Complete.{
  check_stored, adjudicate, evaluate_decision, complete_for_case,
}
use shopee_hachathonteam.HumanReview.Entry.{AsksHuman, validate_human_review_entry_asks}
use shopee_hachathonteam.HumanReview.Submit.{submit_again}
use shopee_hachathonteam.HumanReview.Final.Eligible.{IsDecidedOn, decided_refund_eligible}
use shopee_hachathonteam.HumanReview.Final.{complete_for_case_writes}

abbrev pub handoff_70 : ProposedDecisionHandoff
handoff_70 = record {
  handoff_id = 70;
  case_ref = 10;
  is_v2 = true;
  revision_round = 3;
  proposed_decision = record {
    action = full_refund;
    refund_scope = 7 ∷ [];
    amount = 300;
    currency = 0;
    return_decision = from_judgment (91 ∷ []) (record { required = false; details = 0 });
    reason_code = 3;
  };
  policy_bundle_version = 8;
  evidence_refs = evidence;
  body = 0;
}

abbrev pub objection : ReviewResult
objection = record { verdict = revise; reviewer_claim_findings = findings; body = 1 }

abbrev pub bundle_8 : ReviewBundle
bundle_8 = record {
  policy_bundle_version = 8;
  policy = bundle;
  selected_path_id = damaged_on_arrival;
  clauses =
      record {
        path_id = some damaged_on_arrival;
        allows_refund = true;
        allows_decline = true;
        return_policy = model_judgment;
        needs_user_evidence = true;
      }
      ∷ [];
  body = 0;
}

abbrev pub dossier_70 : HumanReviewDossier
dossier_70 = record {
  claimed_line_item_ids = 7 ∷ [];
  routing_reason = revision_budget_exceeded;
  review_gate = none;
  user_risk_snapshot = none;
  user_risk_gate = none;
  order_ref = 50;
  currency = 0;
  policy_bundle = bundle_8;
  last_proposal = handoff_70;
  last_review = objection;
  body = 0;
}

abbrev pub around : Surroundings
around = record {
  configs = record {
    monetary_fingerprint = fingerprint;
    risk_fingerprint = fingerprint_of;
    monetary = limits;
    risk = rules;
  };
  hash = λ handoff review dossier. elim review [ none ↦ 0 | some r ↦ r.body ];
  review_ref = λ id. id + 1000;
  resolution_ref = λ id. id + 2000;
  case = λ id. none;
  snapshot = λ id. none;
  verification = λ id. some (record { is_pass = true; handoff_payload = handoff_70 });
  context = λ id. some (record { case_context = context; order = order facts_7; currency = 0 });
  bundle = λ version. some bundle_8;
  applicable = λ c b. true;
  handoff_valid = λ h b o. true;
  saves = λ os. true;
}

abbrev pub row_70 : HumanReviewRecord
row_70 = record {
  review_ref = 1070;
  handoff_id = 70;
  case_ref = 10;
  payload_hash = 1;
  handoff_payload = handoff_70;
  review_payload = some objection;
  dossier_payload = some dossier_70;
  result_payload = none;
  submitted_at = 20;
  reviewed_at = none;
}

pub entered : validate_human_review_entry around.configs handoff_70 objection dossier_70 ≡ ok tt
unfolding validate_human_review_entry
entered = ground (arith, same_refl handoff_70, same_refl objection)

submitted :
    submit_for_review around [] handoff_70 objection (some dossier_70) 20 ≡ ok (1070, row_70 ∷ [])
unfolding submit_for_review check_submission validate_persisted_dossier_snapshot by_handoff
submitted = ground (arith, same_refl handoff_70, same_refl objection, entered)

abbrev pub result_70 : HumanReviewResult
result_70 = record {
  decision = human_approve;
  note = 4;
  final_resolution_ref = 3070;
  reviewed_at = 25;
  policy_evaluation = some (outcome ∷ []);
}

abbrev pub decided_70 : HumanReviewRecord
decided_70 = record row_70 { result_payload = some result_70; reviewed_at = some 25 }

abbrev approval : ReviewDecision
approval = record { handoff_id = 70; decision = human_approve; note = 4 }

stored : check_stored around row_70 10 dossier_70 ≡ ok tt
unfolding check_stored validate_persisted_dossier_snapshot
stored = ground (arith, entered, same_refl handoff_70)

approved : adjudicate around human_approve dossier_70 10 ≡ ok (some (outcome ∷ []))
unfolding adjudicate human_corrected_decision validate_human_decision validate_action_against_policy
    active_clauses check_refund evaluate_decision
approved = ground (arith, same_refl bundle_8, evaluated_order)

completed : complete_for_case around (row_70 ∷ []) 10 approval 25 ≡ ok (result_70, decided_70 ∷ [])
unfolding complete_for_case latest_of save_review
completed = ground (arith, stored, approved)

validate_human_review_entry_asks_example :
    (handoff_70 ≡ handoff_70)
    × (objection ≡ objection)
    × (((revise ≡ revise)
          × (3 ≤ 3)
          × (dossier_70.review_gate ≡ none)
          × (dossier_70.user_risk_gate ≡ none))
        ⊎ ((revise ≡ approve) × AsksHuman around.configs handoff_70 dossier_70))
validate_human_review_entry_asks_example =
    validate_human_review_entry_asks around.configs handoff_70 objection dossier_70 entered

submit_again_example :
    (submit_for_review around (row_70 ∷ []) handoff_70 objection (some dossier_70) 30
      ≡ ok (1070, row_70 ∷ []))
    × (submit_for_review around (row_70 ∷ []) handoff_70 (record objection { body = 2 }) none 30
        ≡ err review_conflict)
submit_again_example =
    submit_again around [] (row_70 ∷ []) handoff_70 objection (record objection { body = 2 })
      (some dossier_70) none 20 30 {ref = 1070} submitted refl

complete_for_case_writes_example :
    (r : HumanReviewRecord) × (by_handoff 70 (row_70 ∷ []) ≡ some r)
    × (r.result_payload ≡ none)
    × (by_handoff 70 (decided_70 ∷ [])
        ≡ some (record r { result_payload = some result_70; reviewed_at = some 25 }))
complete_for_case_writes_example =
    complete_for_case_writes around (row_70 ∷ []) (decided_70 ∷ []) 10 70 approval 25 result_70 refl
      completed

decided_refund_eligible_example : IsDecidedOn around 10 approval result_70 dossier_70
unfolding latest_of human_corrected_decision
decided_refund_eligible_example =
    decided_refund_eligible around (row_70 ∷ []) (decided_70 ∷ []) 10 approval 25 result_70 row_70
      dossier_70 completed refl refl refl refl refl
