-- ===== src/HumanReview/Final.antt =====
-- The result of a human review.
pub mod Eligible
use shopee_hachathonteam.Prelude.{
  ℕ, ◌≤◌, ◌≡◌, sym, subst, ap, ◌∙◌, true, false, Option, none, some, List, [], ◌∷◌, Ref, Instant,
  ok, inl, inr, arith, ◌==◌, Bool-cases, Option-cases, Result-cases, if◌then◌else◌, same, all_of,
  keep_if, map, mem, distinct, subset,
}
use shopee_hachathonteam.Policy.Evaluate.{ItemPolicyEvaluation, evaluate_policy}
use shopee_hachathonteam.Policy.{ClaimFinding}
use shopee_hachathonteam.Gates.Money.{full_refund}
use shopee_hachathonteam.Runtime.Assess.{is_eligible, on_path}
use shopee_hachathonteam.HumanReview.Messages.{
  HumanReviewDossier, ReviewBundle, dossier_equality, handoff_equality, CorrectedDecision,
  HumanDecision,
}
use shopee_hachathonteam.HumanReview.Rules.{
  corrected_action, corrected_scope, human_corrected_decision, total_of, validate_human_decision,
}
use shopee_hachathonteam.HumanReview.Entry.{validate_human_decision_bounds}
use shopee_hachathonteam.HumanReview.Provider.{
  HumanReviewResult, HumanReviewRecord, ReviewDecision, Surroundings, LoadedContext, by_handoff,
  save_review, latest_of,
}
use shopee_hachathonteam.HumanReview.Provider.Complete.{
  check_stored, adjudicate, evaluate_decision, complete_for_case, is_reject, findings_of,
}

pub by_handoff-save_review :
    (id : Ref) (r old : HumanReviewRecord) (rows : List HumanReviewRecord)
    → by_handoff r.handoff_id rows ≡ some old
    → by_handoff id (save_review r rows)
      ≡ (if r.handoff_id == id then some r else by_handoff id rows)
unfolding by_handoff save_review
by_handoff-save_review id r old [] h = absurd (ground arith)
by_handoff-save_review id r old (x ∷ xs) h = ground (arith, by_handoff-save_review id r old xs)

-- The unique column of the table.
abbrev pub handoffs : List HumanReviewRecord → List Ref
handoffs rows = map (λ r. r.handoff_id) rows

latest_of-mem :
    (case_ref : Ref) (rows : List HumanReviewRecord) (r : HumanReviewRecord)
    → latest_of case_ref rows ≡ some r
    → mem r.handoff_id (handoffs rows) ≡ true
unfolding latest_of
latest_of-mem case_ref [] r h = absurd (ground arith)
latest_of-mem case_ref (x ∷ xs) r h = elim (Option-cases (latest_of case_ref xs)) [
  | inl empty ↦ ground arith
  | inr (y, there) ↦ ground (arith, latest_of-mem case_ref xs y there)
]

latest_of-row :
    (case_ref : Ref) (rows : List HumanReviewRecord) (r : HumanReviewRecord)
    → latest_of case_ref rows ≡ some r
    → distinct (handoffs rows) ≡ true
    → by_handoff r.handoff_id rows ≡ some r
unfolding latest_of by_handoff
latest_of-row case_ref [] r h keys = absurd (ground arith)
latest_of-row case_ref (x ∷ xs) r h keys = elim (Option-cases (latest_of case_ref xs)) [
  | inl empty ↦ ground arith
  | inr (y, there) ↦
      let listed = latest_of-mem case_ref xs y there in
      let row = latest_of-row case_ref xs y there (ground arith) in
      elim (Bool-cases (x.handoff_id == y.handoff_id)) [
        | inr other ↦ ground arith
        | inl same ↦
            let is : x.handoff_id ≡ y.handoff_id = ground arith in
            absurd (
              repeats x.handoff_id (handoffs xs) (ground arith)
                (subst (λ k. mem k (handoffs xs) ≡ true) (sym is) listed))
      ]
]
  where
    repeats : (a : Ref) (xs : List Ref) → mem a xs ≡ false → mem a xs ≡ true → ⊥
    repeats a xs out within = ground arith

-- What a completion went through.
pub record Completed (s : Surroundings) (rows rows' : List HumanReviewRecord) (case_ref : Ref)
    (d : ReviewDecision) (now : Instant) (result : HumanReviewResult) : Type 0 where
  pub review : HumanReviewRecord
  pub dossier : HumanReviewDossier
  pub latest : latest_of case_ref rows ≡ some review
  pub undecided : review.result_payload ≡ none
  pub current : d.handoff_id ≡ review.handoff_id
  pub kept : review.dossier_payload ≡ some dossier
  pub stored : check_stored s review case_ref dossier ≡ ok tt
  pub adjudicated : adjudicate s d.decision dossier case_ref ≡ ok result.policy_evaluation
  pub decided : result.decision ≡ d.decision
  pub written :
      rows'
      ≡ save_review (record review { result_payload = some result; reviewed_at = some now }) rows

pub completed :
    (s : Surroundings) (rows rows' : List HumanReviewRecord) (case_ref : Ref) (d : ReviewDecision)
    (now : Instant) (result : HumanReviewResult)
    → complete_for_case s rows case_ref d now ≡ ok (result, rows')
    → Completed s rows rows' case_ref d now result
unfolding complete_for_case
completed s rows rows' case_ref d now result h = elim (Option-cases (latest_of case_ref rows)) [
  | inl missing ↦ absurd (ground arith)
  | inr (r, latest) ↦ elim (Option-cases r.dossier_payload) [
    | inl historical ↦ absurd (ground arith)
    | inr (dossier, kept) ↦ elim (Result-cases (check_stored s r case_ref dossier)) [
      | inr (e, raised) ↦ absurd (ground arith)
      | inl (u, stored) ↦ elim (Result-cases (adjudicate s d.decision dossier case_ref)) [
        | inr (e, raised) ↦ absurd (ground arith)
        | inl (evaluation, adjudicated) ↦ record {
          review = r;
          dossier = dossier;
          latest = latest;
          undecided = ground arith;
          current = ground arith;
          kept = kept;
          stored = stored;
          adjudicated = ground arith;
          decided = ground arith;
          written = ground arith;
        }
      ]
    ]
  ]
]

-- A result is final: with distinct handoffs, a completion, of any case and with any decision, gives a
-- result to the review of its decision's handoff, which had none, and leaves every other row as it is.
pub complete_for_case_writes :
    (s : Surroundings) (rows rows' : List HumanReviewRecord) (case_ref other : Ref)
    (d : ReviewDecision) (now : Instant) (result : HumanReviewResult)
    → distinct (handoffs rows) ≡ true
    → complete_for_case s rows case_ref d now ≡ ok (result, rows')
    → (r : HumanReviewRecord) × (by_handoff d.handoff_id rows ≡ some r)
      × (r.result_payload ≡ none)
      × (by_handoff other rows' ≡ (
          if d.handoff_id == other
          then some (record r { result_payload = some result; reviewed_at = some now })
          else by_handoff other rows))
complete_for_case_writes s rows rows' case_ref other d now result keys h =
    let c = completed s rows rows' case_ref d now result h in
    let row = latest_of-row case_ref rows c.review c.latest keys in
    let after : HumanReviewRecord = record c.review {
      result_payload = some result;
      reviewed_at = some now;
    } in
    (
      c.review,
      ground (arith, c.current),
      c.undecided,
      ap (λ rs. by_handoff other rs) c.written
          ∙ ground (arith, by_handoff-save_review other after c.review rows, c.current),
    )
