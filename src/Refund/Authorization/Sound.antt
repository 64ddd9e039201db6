-- ===== src/Refund/Authorization/Sound.antt =====
-- What is behind a refund that is authorized.
pub mod Sources
use shopee_hachathonteam.Prelude.{
  ◌≡◌, refl, Bool, true, false, Option, none, some, List, Ref, ok, inl, inr, ◌⊎◌, arith, Bool-cases,
  Option-cases, Result-cases, same, same→eq, subset, map, ◌≤◌,
}
use shopee_hachathonteam.Gates.Money.{
  ResolutionAction, full_refund, decline, pass, ReviewGateResult, GateStatus, evaluate_review_gate,
}
use shopee_hachathonteam.Gates.Risk.{UserRiskGateResult, UserRiskSnapshot, evaluate_user_risk}
use shopee_hachathonteam.Policy.{OrderSnapshot}
use shopee_hachathonteam.HumanReview.Messages.{
  ProposedDecisionHandoff, HumanReviewDossier, handoff_equality, risk_gate_equality, gate_equality,
}
use shopee_hachathonteam.HumanReview.Rules.{is_approve, validate_human_review_entry, total_of}
use shopee_hachathonteam.HumanReview.Provider.{HumanReviewRecord, HumanReviewResult, Surroundings}
use shopee_hachathonteam.Refund.Authorization.{
  by_agent, OutcomeSource, by_reviewer, by_human_approve, by_human_edit, by_human_reject,
  RefundDecision, FinalDecision, refund, declined, ResolutionHandoff, PersistedAuthorization,
  is_pass_status, final_equality, stored_review_equality,
}
use shopee_hachathonteam.Refund.Authorization.Rules.{
  matches_original_proposal, matches_decision, matches_human_authorization, risk_rejection,
  reviewer_rejection, human_rejection, source_rejection, is_declined, authorization_rejection,
  validate_human_edit,
}

-- The final decision is the proposal's refund.
abbrev pub CopiesProposal : ResolutionHandoff → ProposedDecisionHandoff → Type 0
CopiesProposal r handoff =
    (handoff.proposed_decision.action ≡ full_refund)
    × (r.final_decision
        ≡ refund (record {
          refund_scope = handoff.proposed_decision.refund_scope;
          amount = handoff.proposed_decision.amount;
          currency = handoff.proposed_decision.currency;
          return_decision = by_agent handoff.proposed_decision.return_decision;
          reason_code = handoff.proposed_decision.reason_code;
        }))

-- The user-risk gate, computed anew on the stored facts of this case, passes.
abbrev pub PassesRisk : Surroundings → ResolutionHandoff → ProposedDecisionHandoff → Type 0
PassesRisk s r handoff =
    (ref : Ref) × (snapshot : UserRiskSnapshot) × (gate : UserRiskGateResult) × (s.snapshot ref
      ≡ some snapshot)
    × (snapshot.case_ref ≡ r.case_ref)
    × (evaluate_user_risk s.configs.risk_fingerprint handoff.proposed_decision.action snapshot
          s.configs.risk
        ≡ ok gate)
    × (r.user_risk_gate ≡ some gate)
    × (gate.status ≡ pass)

-- The reviewer approved, and both gates, computed anew with the configurations in force, pass.
abbrev pub ReviewerAuthorized : Surroundings → ResolutionHandoff → ProposedDecisionHandoff → Type 0
ReviewerAuthorized s r handoff =
    (is_approve r.review_result.verdict ≡ true)
    × CopiesProposal r handoff
    × ((gate : ReviewGateResult) × (evaluate_review_gate s.configs.monetary_fingerprint
            handoff.proposed_decision.action handoff.proposed_decision.amount
            handoff.proposed_decision.currency s.configs.monetary
          ≡ ok gate)
        × (r.review_gate ≡ some gate)
        × (gate.status ≡ pass))
    × ((handoff.is_v2 ≡ false) ⊎ PassesRisk s r handoff)

-- A stored review of this handoff and this case, which was entered by the rules, has the human's result
-- that the resolution carries out.
abbrev pub HumanAuthorized : Surroundings → ResolutionHandoff → PersistedAuthorization → Type 0
HumanAuthorized s r a =
    (stored : HumanReviewRecord) × (result : HumanReviewResult) × (dossier : HumanReviewDossier)
    × (a.human_record ≡ some stored)
    × (stored.result_payload ≡ some result)
    × (stored.dossier_payload ≡ some dossier)
    × (stored.handoff_payload ≡ a.handoff)
    × (stored.case_ref ≡ r.case_ref)
    × (stored.payload_hash
        ≡ s.hash stored.handoff_payload stored.review_payload stored.dossier_payload)
    × (validate_human_review_entry s.configs a.handoff r.review_result dossier ≡ ok tt)
    × (matches_decision r.outcome_source r.final_decision result.decision ≡ true)

pass_status : (s : GateStatus) → is_pass_status s ≡ true → s ≡ pass
pass_status s h = ground arith

action-cases : (a : ResolutionAction) → (a ≡ full_refund) ⊎ (a ≡ decline)
action-cases full_refund = inl refl
action-cases decline = inr refl

copies :
    (r : ResolutionHandoff) (handoff : ProposedDecisionHandoff)
    → matches_original_proposal r handoff ≡ true
    → CopiesProposal r handoff
unfolding matches_original_proposal
copies r handoff h = elim (action-cases handoff.proposed_decision.action) [
  | inr is_decline ↦ absurd (ground arith)
  | inl is_refund ↦ (is_refund, same→eq r.final_decision _ (ground arith))
]

risk_passes :
    (s : Surroundings) (r : ResolutionHandoff) (handoff : ProposedDecisionHandoff)
    → risk_rejection s r handoff ≡ none
    → PassesRisk s r handoff
unfolding risk_rejection
risk_passes s r handoff h = elim (Option-cases r.user_risk_gate) [
  | inl missing ↦ absurd (ground arith)
  | inr (gate, has) ↦ elim (Option-cases gate.snapshot_ref) [
    | inl missing ↦ absurd (ground arith)
    | inr (ref, named) ↦ elim (Option-cases (s.snapshot ref)) [
      | inl missing ↦ absurd (ground arith)
      | inr (snapshot, stored) ↦
          elim (Result-cases (
            evaluate_user_risk s.configs.risk_fingerprint handoff.proposed_decision.action snapshot
              s.configs.risk)) [
                | inr (e, raised) ↦ absurd (ground arith)
                | inl (expected, computed) ↦ elim (Bool-cases (same (some gate) (some expected))) [
                  | inr differs ↦ absurd (ground arith)
                  | inl fits ↦
                      let is = same→eq (some gate) (some expected) fits in
                      (
                        ref,
                        snapshot,
                        expected,
                        stored,
                        ground arith,
                        computed,
                        ground arith,
                        pass_status expected.status (ground arith),
                      )
                ]
              ]
    ]
  ]
]

risk_passes_by :
    (s : Surroundings) (r : ResolutionHandoff) (handoff : ProposedDecisionHandoff) (v2 : Bool)
    → (v2 ≡ false) ⊎ (risk_rejection s r handoff ≡ none)
    → (v2 ≡ false) ⊎ PassesRisk s r handoff
risk_passes_by s r handoff v2 (inl plain) = inl plain
risk_passes_by s r handoff v2 (inr passes) = inr (risk_passes s r handoff passes)

pub reviewer_authorizes :
    (s : Surroundings) (r : ResolutionHandoff) (handoff : ProposedDecisionHandoff)
    → reviewer_rejection s r handoff ≡ ok none
    → ReviewerAuthorized s r handoff
unfolding reviewer_rejection
reviewer_authorizes s r handoff h = elim (Bool-cases (is_approve r.review_result.verdict)) [
  | inr refused ↦ absurd (ground arith)
  | inl approved ↦ elim (Bool-cases (matches_original_proposal r handoff)) [
    | inr differs ↦ absurd (ground arith)
    | inl fits ↦
        elim (Result-cases (
          evaluate_review_gate s.configs.monetary_fingerprint handoff.proposed_decision.action
            handoff.proposed_decision.amount handoff.proposed_decision.currency
            s.configs.monetary)) [
              | inr (e, raised) ↦ absurd (ground arith)
              | inl (gate, computed) ↦ elim (Bool-cases (same r.review_gate (some gate))) [
                | inr other ↦ absurd (ground arith)
                | inl stored ↦ (
                  approved,
                  copies r handoff fits,
                  (
                    gate,
                    computed,
                    same→eq r.review_gate (some gate) stored,
                    pass_status gate.status (ground arith),
                  ),
                  risk_passes_by s r handoff handoff.is_v2 (ground arith),
                )
              ]
            ]
  ]
]

human_authorizes :
    (s : Surroundings) (r : ResolutionHandoff) (a : PersistedAuthorization)
    → matches_human_authorization s r a ≡ ok true
    → HumanAuthorized s r a
unfolding matches_human_authorization
human_authorizes s r a h = elim (Option-cases a.human_record) [
  | inl missing ↦ absurd (ground arith)
  | inr (stored, has) ↦ elim (Option-cases stored.result_payload) [
    | inl pending ↦ absurd (ground arith)
    | inr (result, decided) ↦ elim (Option-cases stored.dossier_payload) [
      | inl missing ↦ absurd (ground arith)
      | inr (dossier, kept) ↦ elim (Bool-cases (same stored.handoff_payload a.handoff)) [
        | inr differs ↦ absurd (ground arith)
        | inl fits ↦
            elim (Result-cases
              (validate_human_review_entry s.configs a.handoff r.review_result dossier)) [
                | inr (e, raised) ↦ absurd (ground arith)
                | inl (tt, entered) ↦ (
                  stored,
                  result,
                  dossier,
                  has,
                  decided,
                  kept,
                  same→eq stored.handoff_payload a.handoff fits,
                  ground arith,
                  ground arith,
                  entered,
                  ground arith,
                )
              ]
      ]
    ]
  ]
]

pub human_rejection_lem :
    (s : Surroundings) (r : ResolutionHandoff) (a : PersistedAuthorization) (copies_proposal : Bool)
    → human_rejection s r a copies_proposal ≡ ok none
    → HumanAuthorized s r a × (copies_proposal ≡ true → CopiesProposal r a.handoff)
unfolding human_rejection
human_rejection_lem s r a copies_proposal h =
    elim (Result-cases (matches_human_authorization s r a)) [
      | inr (e, raised) ↦ absurd (ground arith)
      | inl (fits, matched) ↦
          (human_authorizes s r a (ground arith), λ copied. copies r a.handoff (ground arith))
    ]
