-- ===== src/Refund/Authorization/Sound/Sources.antt =====
-- The sources of a refund that is authorized, and the edit of a human.
use shopee_hachathonteam.Prelude.{
  ◌≡◌, refl, true, false, Option, none, some, List, Ref, ok, inl, inr, ◌⊎◌, arith, Option-cases,
  subset, map, ◌≤◌,
}
use shopee_hachathonteam.Policy.{OrderSnapshot}
use shopee_hachathonteam.HumanReview.Messages.{handoff_equality, risk_gate_equality, gate_equality}
use shopee_hachathonteam.HumanReview.Rules.{total_of}
use shopee_hachathonteam.HumanReview.Provider.{Surroundings}
use shopee_hachathonteam.Refund.Authorization.{
  is_by_human, OutcomeSource, by_reviewer, by_human_approve, by_human_edit, by_human_reject,
  RefundDecision, FinalDecision, refund, declined, ResolutionHandoff, PersistedAuthorization,
  final_equality, stored_review_equality,
}
use shopee_hachathonteam.Refund.Authorization.Rules.{
  source_rejection, is_declined, authorization_rejection, validate_human_edit,
}
use shopee_hachathonteam.Refund.Authorization.Sound.{
  CopiesProposal, HumanAuthorized, ReviewerAuthorized, human_rejection_lem, reviewer_authorizes,
}

-- What a refund without a rejection rests on: the source of its outcome is the reviewer, an approving human or an
-- editing one, each with the authority it needs.
abbrev pub Authorized : Surroundings → ResolutionHandoff → PersistedAuthorization → Type 0
Authorized s r a =
    ((r.outcome_source ≡ by_reviewer) × ReviewerAuthorized s r a.handoff)
    ⊎ ((r.outcome_source ≡ by_human_approve) × HumanAuthorized s r a × CopiesProposal r a.handoff)
    ⊎ ((r.outcome_source ≡ by_human_edit) × HumanAuthorized s r a)

source_authorizes :
    (s : Surroundings) (r : ResolutionHandoff) (a : PersistedAuthorization) (source : OutcomeSource)
    → r.outcome_source ≡ source
    → source_rejection s r a source ≡ ok none
    → Authorized s r a
unfolding source_rejection
source_authorizes s r a by_reviewer is h = inl (is, reviewer_authorizes s r a.handoff h)
source_authorizes s r a by_human_approve is h =
    let known = human_rejection_lem s r a true h in inr (inl (is, known.0, known.1 refl))
source_authorizes s r a by_human_edit is h = inr (inr (is, (human_rejection_lem s r a false h).0))
source_authorizes s r a by_human_reject is h = absurd (ground arith)

-- A refund without a rejection is not blocked and not declined, its authorization is stored for the same case with
-- a verification that passed, and its outcome's source has the authority: the reviewer's approval of exactly this
-- proposal with every gate, computed anew, passing; a human's approval, stored with the review of this handoff,
-- of exactly this proposal; or a human's stored edit that the final decision carries out.
pub authorization_rejection-Authorized :
    (s : Surroundings) (r : ResolutionHandoff) (authorization : Option PersistedAuthorization)
    → authorization_rejection s r authorization ≡ ok none
    → (a : PersistedAuthorization) × (authorization ≡ some a)
      × (r.execution_blocked ≡ false)
      × (is_declined r.final_decision ≡ false)
      × (r.case_ref ≡ a.handoff.case_ref)
      × (a.is_pass ≡ true)
      × Authorized s r a
unfolding authorization_rejection
authorization_rejection-Authorized s r authorization h = elim (Option-cases authorization) [
  | inl missing ↦ absurd (ground arith)
  | inr (a, has) ↦ (
    a,
    has,
    ground arith,
    ground arith,
    ground arith,
    ground arith,
    source_authorizes s r a r.outcome_source refl (ground arith),
  )
]

-- A human's edit that passes the last check refunds, by the human's decision, items that the case claims and that
-- the order has, in the case's currency, the sum of their prices and no more than the order allows.
pub validate_human_edit_bounds :
    (final : FinalDecision) (order : OrderSnapshot) (currency : Ref) (claimed : List Ref)
    → validate_human_edit final order currency claimed ≡ none
    → (f : RefundDecision) × (final ≡ refund f)
      × (is_by_human f.return_decision ≡ true)
      × (subset f.refund_scope claimed ≡ true)
      × (subset f.refund_scope (map (λ x. x.line_item_id) order.line_items) ≡ true)
      × (f.amount ≡ total_of order f.refund_scope)
      × (f.amount ≤ order.refundable_amount_max)
      × (f.currency ≡ currency)
unfolding validate_human_edit
validate_human_edit_bounds declined order currency claimed h = absurd (ground arith)
validate_human_edit_bounds (refund f) order currency claimed h =
    (f, refl, ground arith, ground arith, ground arith, ground arith, ground arith, ground arith)
