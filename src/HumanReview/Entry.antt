-- ===== src/HumanReview/Entry.antt =====
-- Who reaches a human review, and what bounds the decision of a human.
use shopee_hachathonteam.Prelude.{
  ℕ, ◌≤◌, ◌≡◌, refl, true, false, Option, none, some, List, Ref, ok, inl, inr, ◌⊎◌, arith, is_none,
  subset, map, Bool-cases, Result-cases, same, same→eq,
}
use shopee_hachathonteam.Gates.Money.{
  GateStatus, human_required, ReviewGateResult, evaluate_review_gate, full_refund,
}
use shopee_hachathonteam.Gates.Risk.{UserRiskGateResult}
use shopee_hachathonteam.Policy.{ClaimFinding, OrderSnapshot, return_required, return_not_required}
use shopee_hachathonteam.Runtime.{RoutingReason, by_gate, by_risk, revision_budget_exceeded}
use shopee_hachathonteam.Runtime.Decide.{reason_of, needs_human}
use shopee_hachathonteam.HumanReview.Messages.{
  ProposedDecisionHandoff, approve, revise, ReviewResult, HumanReviewDossier, ReviewBundle,
  CorrectedDecision, corrected_refund, handoff_equality, review_equality, bundle_equality,
  gate_equality, risk_gate_equality, routing_equality, ReturnRequirement,
}
use shopee_hachathonteam.HumanReview.Rules.{
  GateConfigs, expected_risk, check_risk, check_gate_entry, validate_human_review_entry,
  validate_human_decision, validate_action_against_policy, corrected_scope, total_of, check_refund,
  review_revision_limit,
}

-- A gate asks for a human: the monetary gate of the dossier, or the user-risk gate of the dossier.
abbrev pub AsksHuman : GateConfigs → ProposedDecisionHandoff → HumanReviewDossier → Type 0
AsksHuman g handoff dossier =
    (gate : ReviewGateResult) × (evaluate_review_gate g.monetary_fingerprint
        handoff.proposed_decision.action handoff.proposed_decision.amount
        handoff.proposed_decision.currency g.monetary
      ≡ ok gate)
    × (dossier.review_gate ≡ some gate)
    × ((gate.status ≡ human_required)
        ⊎ ((risk : UserRiskGateResult) × (dossier.user_risk_gate ≡ some risk)
            × (risk.status ≡ human_required)))

needs_human_status : (s : GateStatus) → needs_human s ≡ true → s ≡ human_required
needs_human_status s h = ground arith

-- A reason comes from a gate that asks for a human.
reason_of_asks :
    (gate : ReviewGateResult) (risk : Option UserRiskGateResult)
    → is_none (reason_of gate risk) ≡ false
    → (gate.status ≡ human_required)
      ⊎ ((r : UserRiskGateResult) × (risk ≡ some r) × (r.status ≡ human_required))
reason_of_asks gate none h = inl (needs_human_status gate.status (ground arith))
reason_of_asks gate (some r) h = elim (Bool-cases (needs_human gate.status)) [
  | inl asks ↦ inl (needs_human_status gate.status asks)
  | inr passes ↦ inr (r, refl, needs_human_status r.status (ground arith))
]

check_risk_gate :
    (g : GateConfigs) (handoff : ProposedDecisionHandoff) (dossier : HumanReviewDossier)
    (r : UserRiskGateResult)
    → check_risk g handoff dossier ≡ ok (some r)
    → dossier.user_risk_gate ≡ some r
unfolding check_risk
check_risk_gate g handoff dossier r h = elim (Bool-cases handoff.is_v2) [
  | inr v1 ↦ absurd (ground arith)
  | inl v2 ↦ elim (Result-cases (expected_risk g handoff dossier.user_risk_snapshot)) [
    | inr (e, raised) ↦ absurd (ground arith)
    | inl (risk, computed) ↦ elim (Bool-cases (same dossier.user_risk_gate (some risk))) [
      | inr differs ↦ absurd (ground arith)
      | inl fits ↦ let is = same→eq dossier.user_risk_gate (some risk) fits in ground arith
    ]
  ]
]

-- The entry that a gate asks for was approved by the reviewer.
check_gate_entry_asks :
    (g : GateConfigs) (handoff : ProposedDecisionHandoff) (review : ReviewResult)
    (dossier : HumanReviewDossier)
    → check_gate_entry g handoff review dossier ≡ ok tt
    → (review.verdict ≡ approve) × AsksHuman g handoff dossier
unfolding check_gate_entry
check_gate_entry_asks g handoff review dossier h =
    let d = handoff.proposed_decision in
    elim (Result-cases
      (evaluate_review_gate g.monetary_fingerprint d.action d.amount d.currency g.monetary)) [
        | inr (e, raised) ↦ absurd (ground arith)
        | inl (gate, computed) ↦ elim (Result-cases (check_risk g handoff dossier)) [
          | inr (e, raised) ↦ absurd (ground arith)
          | inl (risk, checked) ↦
              elim (Bool-cases (same (reason_of gate risk) (some dossier.routing_reason))) [
                | inr differs ↦ absurd (ground arith)
                | inl fits ↦
                    let reason = same→eq (reason_of gate risk) (some dossier.routing_reason) fits in
                    let own = same→eq dossier.review_gate (some gate) (ground arith) in
                    (
                      ground arith,
                      (
                        gate,
                        computed,
                        own,
                        elim (reason_of_asks gate risk (ground arith)) [
                          | inl money ↦ inl money
                          | inr (r, is, asks) ↦
                              inr (r, check_risk_gate g handoff dossier r (ground arith), asks)
                        ],
                      ),
                    )
              ]
        ]
      ]

-- A human review is entered only in two ways: the reviewer objects after all revisions were used, with
-- no gate; or the reviewer approves, and the monetary gate that the configuration computes, or the
-- user-risk gate of the dossier, asks for a human.
pub validate_human_review_entry_asks :
    (g : GateConfigs) (handoff : ProposedDecisionHandoff) (review : ReviewResult)
    (dossier : HumanReviewDossier)
    → validate_human_review_entry g handoff review dossier ≡ ok tt
    → (dossier.last_proposal ≡ handoff)
      × (dossier.last_review ≡ review)
      × (((review.verdict ≡ revise)
            × (review_revision_limit ≤ handoff.revision_round)
            × (dossier.review_gate ≡ none)
            × (dossier.user_risk_gate ≡ none))
          ⊎ ((review.verdict ≡ approve) × AsksHuman g handoff dossier))
unfolding validate_human_review_entry
validate_human_review_entry_asks g handoff review dossier h = (
  same→eq dossier.last_proposal handoff (ground arith),
  same→eq dossier.last_review review (ground arith),
  by_reason dossier.routing_reason refl,
)
  where
    by_reason :
        (reason : RoutingReason)
        → dossier.routing_reason ≡ reason
        → ((review.verdict ≡ revise)
            × (review_revision_limit ≤ handoff.revision_round)
            × (dossier.review_gate ≡ none)
            × (dossier.user_risk_gate ≡ none))
          ⊎ ((review.verdict ≡ approve) × AsksHuman g handoff dossier)
    by_reason revision_budget_exceeded is =
        inl (ground arith, ground arith, ground arith, ground arith)
    by_reason (by_gate r) is = inr (check_gate_entry_asks g handoff review dossier (ground arith))
    by_reason (by_risk r) is = inr (check_gate_entry_asks g handoff review dossier (ground arith))

-- What a human may decide: on the order and the policy of the dossier, within the items that the user
-- claimed and that the order still has, with the sum of their amounts, which the order's maximum covers,
-- and a return exactly as the policy asks, where it asks for one or waives it.
pub validate_human_decision_bounds :
    (decision : CorrectedDecision) (dossier : HumanReviewDossier) (order : OrderSnapshot)
    (currency : Ref) (bundle : ReviewBundle) {amount : ℕ}
    → validate_human_decision decision dossier order currency bundle ≡ ok amount
    → (bundle ≡ dossier.policy_bundle)
      × (order.order_ref ≡ dossier.order_ref)
      × (currency ≡ dossier.currency)
      × (subset (corrected_scope decision) dossier.claimed_line_item_ids ≡ true)
      × (subset (corrected_scope decision) (map (λ x. x.line_item_id) order.line_items) ≡ true)
      × (amount ≡ total_of order (corrected_scope decision))
      × (amount ≤ order.refundable_amount_max)
      × ((scope : List Ref) (requirement : ReturnRequirement)
            (findings : Option (List ClaimFinding))
          → decision ≡ corrected_refund scope requirement findings
          → ((validate_action_against_policy full_refund bundle ≡ ok return_required)
              → requirement.required ≡ true)
            × ((validate_action_against_policy full_refund bundle ≡ ok return_not_required)
                → requirement.required ≡ false))
unfolding validate_human_decision
validate_human_decision_bounds decision dossier order currency bundle h = (
  same→eq bundle dossier.policy_bundle (ground arith),
  ground arith,
  ground arith,
  ground arith,
  ground arith,
  ground arith,
  ground arith,
  λ scope requirement findings is.
      (λ asks. unfold check_refund in ground arith, λ waives. unfold check_refund in ground arith),
)
