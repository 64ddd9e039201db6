-- ===== src/HumanReview/Provider.antt =====
-- `SqlAlchemyHumanReviewProvider` (apps/api/src/return_agent/capabilities/human_review.py) over the
-- table `human_reviews` (db/models.py): submissions and results, with
-- `validate_persisted_dossier_snapshot` (user_risk.py).
pub mod Complete
use shopee_hachathonteam.Prelude.{
  Bool, true, false, ◌&&◌, ◌||◌, not, Option, none, some, List, [], ◌∷◌, Ref, Instant, Result, ok,
  err, ◌>>=◌, ◌>>◌, raise_if, or_raise, ◌==◌, ltb, leb, is_none, all_of, keep_if, if◌then◌else◌,
  same, first_of?,
}
use shopee_hachathonteam.Gates.Money.{decline, full_refund}
use shopee_hachathonteam.Gates.Risk.{UserRiskSnapshot}
use shopee_hachathonteam.Policy.{CaseContext, OrderSnapshot, ClaimFinding}
use shopee_hachathonteam.Policy.Evaluate.{ItemPolicyEvaluation, evaluate_policy}
use shopee_hachathonteam.Runtime.Assess.{is_eligible, on_path}
use shopee_hachathonteam.HumanReview.Messages.{
  ProposedDecisionHandoff, ReviewResult, ReviewBundle, HumanReviewDossier, CorrectedDecision,
  corrected_refund, corrected_decline, HumanDecision, human_reject, human_edit, handoff_equality,
  review_equality, dossier_equality, snapshot_equality,
}
use shopee_hachathonteam.HumanReview.Rules.{
  ReviewError, invalid, review_conflict, review_not_found, review_revision_limit, is_approve,
  GateConfigs, human_corrected_decision, validate_human_decision, validate_human_review_entry,
  corrected_action,
}

-- `HumanReviewResult`; `note` stands for the reviewer and the note.
pub record HumanReviewResult : Type 0 where
  pub decision : HumanDecision
  pub note : Ref
  pub final_resolution_ref : Ref
  pub reviewed_at : Instant
  pub policy_evaluation : Option (List ItemPolicyEvaluation)

-- A row of `human_reviews`.
pub record HumanReviewRecord : Type 0 where
  pub review_ref : Ref
  pub handoff_id : Ref
  pub case_ref : Ref
  pub payload_hash : Ref
  pub handoff_payload : ProposedDecisionHandoff
  pub review_payload : Option ReviewResult
  pub dossier_payload : Option HumanReviewDossier
  pub result_payload : Option HumanReviewResult
  pub submitted_at : Instant
  pub reviewed_at : Option Instant

-- `ReviewDecision`
pub record ReviewDecision : Type 0 where
  pub handoff_id : Ref
  pub decision : HumanDecision
  pub note : Ref

-- The columns of the case that a risk snapshot is compared with.
pub record CaseFacts : Type 0 where
  pub case_ref : Ref
  pub user_ref : Ref
  pub is_v2 : Bool
  pub created_at : Instant

-- A row of `handoff_verifications`: whether its status is PASS, and its handoff.
pub record Verification : Type 0 where
  pub is_pass : Bool
  pub handoff_payload : ProposedDecisionHandoff

-- What the case context provider loads, when its validator accepts it.
pub record LoadedContext : Type 0 where
  pub case_context : CaseContext
  pub order : OrderSnapshot
  pub currency : Ref

-- What the provider reads of other tables and other code. `context` is none where the provider is
-- missing or raises; `applicable` and `handoff_valid` are validate_applicable_policy_bundle and
-- validate_proposed_decision_handoff, `saves` is whether save_evaluation stores an evaluation without an
-- error, and `snapshot` is a stored risk snapshot whose digest fits.
pub record Surroundings : Type 0 where
  pub configs : GateConfigs
  pub hash : ProposedDecisionHandoff → Option ReviewResult → Option HumanReviewDossier → Ref
  pub review_ref : Ref → Ref
  pub resolution_ref : Ref → Ref
  pub case : Ref → Option CaseFacts
  pub snapshot : Ref → Option UserRiskSnapshot
  pub verification : Ref → Option Verification
  pub context : Ref → Option LoadedContext
  pub bundle : Ref → Option ReviewBundle
  pub applicable : CaseContext → ReviewBundle → Bool
  pub handoff_valid : ProposedDecisionHandoff → ReviewBundle → OrderSnapshot → Bool
  pub saves : List ItemPolicyEvaluation → Bool

unfoldable pub by_handoff : Ref → List HumanReviewRecord → Option HumanReviewRecord
by_handoff id [] = none
by_handoff id (r ∷ rs) = if r.handoff_id == id then some r else by_handoff id rs

-- An UPDATE of the row that has the record's key.
unfoldable pub save_review : HumanReviewRecord → List HumanReviewRecord → List HumanReviewRecord
save_review r [] = []
save_review r (x ∷ xs) = if x.handoff_id == r.handoff_id then r ∷ xs else x ∷ save_review r xs

-- `except ValueError: raise HumanReviewConflictError`
abbrev pub or_conflict {ℓ} : {A : Type ℓ} → Result ReviewError A → Result ReviewError A
or_conflict (ok a) = ok a
or_conflict (err _) = err review_conflict

-- `validate_persisted_dossier_snapshot`
unfoldable pub validate_persisted_dossier_snapshot :
    Surroundings → HumanReviewDossier → (case_ref : Ref) → Result ReviewError (Unit {0})
validate_persisted_dossier_snapshot s dossier case_ref = elim dossier.user_risk_snapshot [
  | none ↦ ok tt
  | some risk ↦ do
    stored ← or_raise (s.snapshot risk.snapshot_ref) invalid
    raise_if (not (same stored risk)) invalid
    case ← or_raise (s.case case_ref) invalid
    raise_if
        (not case.is_v2
          || not (risk.case_ref == case.case_ref)
          || not (risk.user_ref == case.user_ref)
          || not (risk.as_of == case.created_at)
          || not (risk.reason_code == dossier.last_proposal.proposed_decision.reason_code))
        invalid
]

-- The checks on a submission before its transaction.
unfoldable pub check_submission :
    Surroundings
    → ProposedDecisionHandoff
    → ReviewResult
    → Option HumanReviewDossier
    → Result ReviewError (Unit {0})
unfolding validate_human_review_entry
check_submission s handoff review none =
    raise_if (is_approve review.verdict || ltb handoff.revision_round review_revision_limit)
      review_conflict
check_submission s handoff review (some dossier) = do
  raise_if (not (same dossier.last_proposal handoff) || not (same dossier.last_review review))
      review_conflict
  or_conflict (validate_human_review_entry s.configs handoff review dossier)

-- `submit_for_review`: the row of a handoff is written once, and its reference is returned.
unfoldable pub submit_for_review :
    Surroundings
    → List HumanReviewRecord
    → ProposedDecisionHandoff
    → ReviewResult
    → Option HumanReviewDossier
    → (now : Instant) → Result ReviewError (Ref × List HumanReviewRecord)
unfolding check_submission validate_persisted_dossier_snapshot by_handoff
submit_for_review s rows handoff review dossier now = do
  check_submission s handoff review dossier
  elim dossier [
    | none ↦ ok tt
    | some d ↦ or_conflict (validate_persisted_dossier_snapshot s d handoff.case_ref)
  ]
  elim (by_handoff handoff.handoff_id rows) [
    | none ↦ ok (s.review_ref handoff.handoff_id, row ∷ rows)
    | some old ↦ do
      raise_if (not (old.payload_hash == s.hash handoff (some review) dossier)) review_conflict
      raise_if (not (same old.dossier_payload dossier)) review_conflict
      ok (old.review_ref, rows)
  ]
  where
    row : HumanReviewRecord
    row = record {
      review_ref = s.review_ref handoff.handoff_id;
      handoff_id = handoff.handoff_id;
      case_ref = handoff.case_ref;
      payload_hash = s.hash handoff (some review) dossier;
      handoff_payload = handoff;
      review_payload = some review;
      dossier_payload = dossier;
      result_payload = none;
      submitted_at = now;
      reviewed_at = none;
    }

-- `fetch_result`
unfoldable pub fetch_result :
    List HumanReviewRecord → (review_ref : Ref) → Result ReviewError (Option HumanReviewResult)
fetch_result rows ref = do
  r ← or_raise (first_of? (λ r. r.review_ref == ref) rows) review_not_found
  ok r.result_payload

-- The row of the case that was submitted last; of rows of one instant, the first.
unfoldable pub latest_of : Ref → List HumanReviewRecord → Option HumanReviewRecord
latest_of case_ref [] = none
latest_of case_ref (r ∷ rs) =
    let rest = latest_of case_ref rs in
    if r.case_ref == case_ref
    then elim rest [
      | none ↦ some r
      | some x ↦ some (if leb x.submitted_at r.submitted_at then r else x)
    ]
    else rest

-- `pending_review_ref`
unfoldable pub pending_review_ref :
    List HumanReviewRecord → (case_ref : Ref) → Result ReviewError Ref
unfolding latest_of
pending_review_ref rows case_ref = do
  r ← or_raise (latest_of case_ref (keep_if (λ x. is_none x.result_payload) rows)) review_not_found
  ok r.review_ref
