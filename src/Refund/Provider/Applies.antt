-- ===== src/Refund/Provider/Applies.antt =====
-- What is behind a call of the application that moves the money.
pub mod Executed
use shopee_hachathonteam.Prelude.{
  ℕ, suc, ◌≤◌, ◌≡◌, refl, Bool, true, false, none, some, List, [], ◌∷◌, Ref, Instant, ok, inl, inr,
  ◌⊎◌, arith, is_none, Bool-cases, Option-cases, Result-cases,
}
use shopee_hachathonteam.Policy.{OrderSnapshot}
use shopee_hachathonteam.HumanReview.Messages.{HumanReviewDossier}
use shopee_hachathonteam.HumanReview.Rules.{total_of}
use shopee_hachathonteam.Refund.{
  RefundRequest, Execution, Ledger, is_in_progress, execution_by, by_handoff, insert_execution,
}
use shopee_hachathonteam.Refund.Start.{
  is_unstarted, reject_row, new_execution, find_by_handoff, create_rejected,
}
use shopee_hachathonteam.Refund.Authorization.{
  RefundDecision, refund, ResolutionHandoff, PersistedAuthorization,
}
use shopee_hachathonteam.Refund.Authorization.Rules.{
  is_edit, authorization_rejection, validate_human_edit,
}
use shopee_hachathonteam.Refund.Authorization.Sound.Sources.{
  Authorized, authorization_rejection-Authorized, validate_human_edit_bounds,
}
use shopee_hachathonteam.Refund.Provider.{
  ExecuteRefundRequest, Provider, Release, released, fulfillment_pending, refused, Run, Verdict,
  refuse, fail, proceed, decide, is_human, current_valid, human_valid, dossier_of, check_released,
  check_order,
}
use shopee_hachathonteam.Refund.Provider.Execute.{
  terminal_or_resume, carry_out, execute_step, execute,
}
use shopee_hachathonteam.Refund.Provider.Returns.{create_rejected-settled}

abbrev pub is_called : Run → Bool
is_called r = elim r.calls [ [] ↦ false | _ ∷ _ ↦ true ]

-- The execution of the request is in progress, and its application was started before.
abbrev pub IsStarted : ExecuteRefundRequest → Ledger → Type 0
IsStarted r l =
    (e : Execution) × ((by_handoff r.request.handoff_id l.executions ≡ some e)
      ⊎ (by_handoff r.resolution.handoff_id l.executions ≡ some e))
    × (is_in_progress e.state ≡ true)
    × (is_none e.application_started_at ≡ false)

-- The decision of a human passes the checks against the order that is current, and an edit pays the sum of its
-- items, within the maximum.
abbrev pub IsCurrent : Provider → ResolutionHandoff → PersistedAuthorization → Type 0
IsCurrent p r a =
    (order : OrderSnapshot) × (currency : Ref) × (p.order r.case_ref ≡ some (order, currency))
    × (current_valid p r a order ≡ true)
    × ((is_human r.outcome_source ≡ false) ⊎ (human_valid p r a order currency ≡ true))
    × ((is_edit r.outcome_source ≡ false)
        ⊎ ((f : RefundDecision) × (r.final_decision ≡ refund f)
            × (f.amount ≡ total_of order f.refund_scope)
            × (f.amount ≤ order.refundable_amount_max)))

-- The request was decided: its authorization is stored and sound, the fulfillment of a v2 case released it, and
-- it is valid against the order that is current.
abbrev pub IsDecided : Provider → ExecuteRefundRequest → Type 0
IsDecided p r =
    (a : PersistedAuthorization) × (p.authorization r.resolution.handoff_id ≡ ok (some a))
    × (r.resolution.case_ref ≡ a.handoff.case_ref)
    × Authorized p.review r.resolution a
    × ((a.handoff.is_v2 ≡ false) ⊎ (p.release r.resolution ≡ released))
    × IsCurrent p r.resolution a

release-cases :
    (x : Release) → (x ≡ released) ⊎ ((x ≡ fulfillment_pending) ⊎ ((why : Ref) × (x ≡ refused why)))
release-cases released = inl refl
release-cases fulfillment_pending = inr (inl refl)
release-cases (refused why) = inr (inr (why, refl))

edit_within :
    (p : Provider) (r : ResolutionHandoff) (a : PersistedAuthorization) (order : OrderSnapshot)
    (currency : Ref) (dossier : HumanReviewDossier)
    → validate_human_edit r.final_decision order currency dossier.claimed_line_item_ids ≡ none
    → (f : RefundDecision) × (r.final_decision ≡ refund f)
      × (f.amount ≡ total_of order f.refund_scope)
      × (f.amount ≤ order.refundable_amount_max)
edit_within p r a order currency dossier passes =
    let (f, is, human, claimed, listed, total, covered, paid) =
      validate_human_edit_bounds r.final_decision order currency dossier.claimed_line_item_ids
        passes in
    (f, is, total, covered)

check_order-IsCurrent :
    (p : Provider) (r : ResolutionHandoff) (a : PersistedAuthorization) (order_ref : Ref)
    → check_order p r a ≡ proceed order_ref
    → IsCurrent p r a
unfolding check_order
check_order-IsCurrent p r a order_ref h = elim (Option-cases (p.order r.case_ref)) [
  | inl missing ↦ absurd (ground arith)
  | inr ((order, currency), has) ↦ elim (Bool-cases (is_edit r.outcome_source)) [
    | inr plain ↦ (order, currency, has, ground arith, human order currency has, inl plain)
    | inl edits ↦ elim (Option-cases (dossier_of a)) [
      | inl missing ↦ absurd (ground arith)
      | inr (dossier, kept) ↦ (
        order,
        currency,
        has,
        ground arith,
        human order currency has,
        inr (edit_within p r a order currency dossier (ground arith)),
      )
    ]
  ]
]
  where
    human :
        (order : OrderSnapshot) (currency : Ref)
        → p.order r.case_ref ≡ some (order, currency)
        → (is_human r.outcome_source ≡ false) ⊎ (human_valid p r a order currency ≡ true)
    human order currency has = elim (Bool-cases (is_human r.outcome_source)) [
      | inr machine ↦ inl machine
      | inl person ↦ inr (ground arith)
    ]

check_released-IsCurrent :
    (p : Provider) (r : ResolutionHandoff) (a : PersistedAuthorization) (order_ref : Ref)
    → check_released p r a ≡ proceed order_ref
    → ((a.handoff.is_v2 ≡ false) ⊎ (p.release r ≡ released)) × IsCurrent p r a
unfolding check_released
check_released-IsCurrent p r a order_ref h = elim (Bool-cases a.handoff.is_v2) [
  | inr old ↦ (inl old, check_order-IsCurrent p r a order_ref (ground arith))
  | inl new ↦ elim (release-cases (p.release r)) [
    | inl free ↦ (inr free, check_order-IsCurrent p r a order_ref (ground arith))
    | inr (inl waits) ↦ absurd (ground arith)
    | inr (inr (why, is)) ↦ absurd (ground arith)
  ]
]

pub decide-IsDecided :
    (p : Provider) (r : ExecuteRefundRequest) (order_ref : Ref)
    → decide p r ≡ proceed order_ref
    → IsDecided p r
unfolding decide
decide-IsDecided p r order_ref h = elim (Result-cases (p.authorization r.resolution.handoff_id)) [
  | inr (x, failed) ↦ absurd (ground arith)
  | inl (stored, loaded) ↦
      elim (Result-cases (authorization_rejection p.review r.resolution stored)) [
        | inr (x, failed) ↦ absurd (ground arith)
        | inl (answer, checked) ↦ elim (Option-cases answer) [
          | inr (why, rejects) ↦ absurd (ground arith)
          | inl passes ↦
              let (a, has, unblocked, refunds, own, verified, authorized) =
                authorization_rejection-Authorized p.review r.resolution stored (ground arith) in
              let (free, current) =
                check_released-IsCurrent p r.resolution a order_ref (ground arith) in
              (a, ground arith, own, authorized, free, current)
        ]
      ]
]
