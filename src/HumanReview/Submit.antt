-- ===== src/HumanReview/Submit.antt =====
-- A submission for a human review, and its repetition.
use shopee_hachathonteam.Prelude.{
  ◌≡◌, refl, sym, subst, true, false, Option, none, some, List, Ref, Instant, ok, err, inl, inr,
  arith, ◌==◌, Option-cases, Result-cases, same, same→eq, same_refl, Result,
}
use shopee_hachathonteam.HumanReview.Messages.{
  ProposedDecisionHandoff, ReviewResult, HumanReviewDossier, dossier_equality, handoff_equality,
}
use shopee_hachathonteam.HumanReview.Rules.{ReviewError, review_conflict}
use shopee_hachathonteam.HumanReview.Provider.{
  HumanReviewRecord, Surroundings, by_handoff, check_submission,
  validate_persisted_dossier_snapshot, submit_for_review, or_conflict,
}

check_submission_conflict :
    (s : Surroundings) (handoff : ProposedDecisionHandoff) (review : ReviewResult)
    (dossier : Option HumanReviewDossier) (e : ReviewError)
    → check_submission s handoff review dossier ≡ err e
    → e ≡ review_conflict
unfolding check_submission
check_submission_conflict s handoff review none e h = ground arith
check_submission_conflict s handoff review (some d) e h = ground arith

-- The check of the stored risk snapshot, which only a dossier has.
abbrev snapshot_check :
    Surroundings
    → ProposedDecisionHandoff
    → Option HumanReviewDossier
    → Result ReviewError (Unit {0})
snapshot_check s handoff dossier = elim dossier [
  | none ↦ ok tt
  | some d ↦ or_conflict (validate_persisted_dossier_snapshot s d handoff.case_ref)
]

snapshot_check_conflict :
    (s : Surroundings) (handoff : ProposedDecisionHandoff) (dossier : Option HumanReviewDossier)
    (e : ReviewError)
    → snapshot_check s handoff dossier ≡ err e
    → e ≡ review_conflict
snapshot_check_conflict s handoff none e h = absurd (ground arith)
snapshot_check_conflict s handoff (some d) e h = ground arith

-- The row of a submission that was accepted.
accepted_row :
    (s : Surroundings) (rows rows' : List HumanReviewRecord) (handoff : ProposedDecisionHandoff)
    (review : ReviewResult) (dossier : Option HumanReviewDossier) (now : Instant) (ref : Ref)
    → submit_for_review s rows handoff review dossier now ≡ ok (ref, rows')
    → (r : HumanReviewRecord) × (by_handoff handoff.handoff_id rows' ≡ some r)
      × (r.payload_hash ≡ s.hash handoff (some review) dossier)
      × (r.dossier_payload ≡ dossier)
      × (r.review_ref ≡ ref)
      × (check_submission s handoff review dossier ≡ ok tt)
      × (snapshot_check s handoff dossier ≡ ok tt)
unfolding submit_for_review
accepted_row s rows rows' handoff review dossier now ref h =
    elim (Result-cases (check_submission s handoff review dossier)) [
      | inr (e, raised) ↦ absurd (ground arith)
      | inl (u, checked) ↦ elim (Result-cases (snapshot_check s handoff dossier)) [
        | inr (e, raised) ↦ absurd (ground arith)
        | inl (v, stored) ↦ elim (Option-cases (by_handoff handoff.handoff_id rows)) [
          | inl new ↦ (
            record {
              review_ref = s.review_ref handoff.handoff_id;
              handoff_id = handoff.handoff_id;
              case_ref = handoff.case_ref;
              payload_hash = s.hash handoff (some review) dossier;
              handoff_payload = handoff;
              review_payload = some review;
              dossier_payload = dossier;
              result_payload = none;
              submitted_at = now;
              reviewed_at = none;
            },
            unfold by_handoff in ground arith,
            refl,
            refl,
            ground arith,
            checked,
            stored,
          )
          | inr (old, there) ↦ (
            old,
            ground arith,
            ground arith,
            same→eq old.dossier_payload dossier (ground arith),
            ground arith,
            checked,
            stored,
          )
        ]
      ]
    ]

-- After a submission that was accepted, with a review and a dossier of another digest for the same handoff: the
-- submission that is repeated returns the same reference and writes nothing, and the other one is refused.
pub submit_again :
    (s : Surroundings) (rows rows' : List HumanReviewRecord) (handoff : ProposedDecisionHandoff)
    (review other : ReviewResult) (dossier changed : Option HumanReviewDossier)
    (now later : Instant) {ref : Ref}
    → submit_for_review s rows handoff review dossier now ≡ ok (ref, rows')
    → (s.hash handoff (some review) dossier == s.hash handoff (some other) changed) ≡ false
    → (submit_for_review s rows' handoff review dossier later ≡ ok (ref, rows'))
      × (submit_for_review s rows' handoff other changed later ≡ err review_conflict)
unfolding submit_for_review
submit_again s rows rows' handoff review other dossier changed now later {ref} h differs =
    let (r, there, digest, own, named, checked, stored) =
      accepted_row s rows rows' handoff review dossier now ref h in
    let equal : same r.dossier_payload dossier ≡ true =
      subst (λ d. same d dossier ≡ true) (sym own) (same_refl dossier) in
    (
      ground arith,
      elim (Result-cases (check_submission s handoff other changed)) [
        | inr (e, raised) ↦
            let is = check_submission_conflict s handoff other changed e raised in ground arith
        | inl (u, passed) ↦ elim (Result-cases (snapshot_check s handoff changed)) [
          | inr (e, raised) ↦
              let is = snapshot_check_conflict s handoff changed e raised in ground arith
          | inl (v, fits) ↦ ground arith
        ]
      ],
    )
