-- ===== src/Refund/Provider.antt =====
-- What SqlAlchemyRefundExecutionProvider (apps/api/src/return_agent/capabilities/refund.py) calls, and how
-- `execute` decides on a new request.
pub mod Execute
pub mod Returns
pub mod Applies
pub mod Tests
use shopee_hachathonteam.Prelude.{
  ℕ, zero, suc, Bool, true, false, ◌&&◌, ◌||◌, not, Option, none, some, List, [], ◌∷◌, Ref, Instant,
  Result, ok, err, ◌==◌, is_none, if◌then◌else◌, map, mem, keep_if, sorted,
}
use shopee_hachathonteam.Policy.{OrderSnapshot, ClaimFinding}
use shopee_hachathonteam.HumanReview.Messages.{
  ProposedDecisionHandoff, ReviewResult, ReviewBundle, HumanReviewDossier,
}
use shopee_hachathonteam.HumanReview.Rules.{validate_human_decision, human_corrected_decision}
use shopee_hachathonteam.HumanReview.Provider.{HumanReviewRecord, HumanReviewResult, Surroundings}
use shopee_hachathonteam.Refund.{
  RefundRequest, succeeded, rejected, ExecutionState, applied, declined, ApplicationResult,
  Execution, Ledger, RefundError, data_integrity, invalid_value, is_in_progress, execution_by,
}
use shopee_hachathonteam.Refund.Start.{find_by_handoff, start_pending, create_rejected}
use shopee_hachathonteam.Refund.Reserve.{mark_application_started}
use shopee_hachathonteam.Refund.Complete.{complete}
use shopee_hachathonteam.Refund.Authorization.{
  OutcomeSource, by_human_approve, by_human_edit, FinalDecision, refund, ResolutionHandoff,
  PersistedAuthorization, Rejection,
}
use shopee_hachathonteam.Refund.Authorization.Rules.{
  is_edit, authorization_rejection, validate_human_edit,
}

-- `ExecuteRefundRequest`: what the ledger keeps of it, its resolution, and whether that has a policy evaluation.
pub record ExecuteRefundRequest : Type 0 where
  pub request : RefundRequest
  pub resolution : ResolutionHandoff
  pub is_evaluated : Bool

-- What `check_release` answers: it returns, it raises RETURN_FULFILLMENT_PENDING, or another ValueError.
pub data Release : Type 0 where
  released fulfillment_pending : Release
  refused : Ref → Release

-- The reason of a rejection that the provider records.
pub data Reason : Type 0 where
  unauthorized : Rejection → Reason
  release_refused : Ref → Reason
  authorization_config_unavailable current_handoff_invalid human_decision_invalid : Reason

-- `unavailable` is RefundExecutionUnavailableError, `raised` is an error of the repository; `exhausted` is the
-- end of the fuel.
pub data ProviderError : Type 0 where
  unavailable exhausted : ProviderError
  raised : RefundError → ProviderError

-- What the provider calls: the tables of a human review, the digest and the parser of a request, the loaders of
-- the configurations, of the authorization and of the current order, `check_release` on the tables of the
-- fulfillment, the validators of the handoff and of its review, and the application that moves the money, none
-- where it raises. `between` is what other transactions do while the request is decided, and `during` while the
-- application runs.
pub record Provider : Type 0 where
  pub review : Surroundings
  pub hash : ExecuteRefundRequest → Ref
  pub parse : RefundRequest → ExecuteRefundRequest
  pub execution_ref : (handoff_id : Ref) → Ref
  pub code : Reason → Ref
  pub order_subject : Ref
  pub configs_load : Bool
  pub authorization : (handoff_id : Ref) → Result RefundError (Option PersistedAuthorization)
  pub release : ResolutionHandoff → Release
  pub order : (case_ref : Ref) → Option (OrderSnapshot × Ref)
  pub bundle : (version : Ref) → Option ReviewBundle
  pub handoff_valid : ProposedDecisionHandoff → ReviewBundle → OrderSnapshot → Bool
  pub review_valid :
      ReviewResult → ProposedDecisionHandoff → ReviewBundle → OrderSnapshot → List Ref → Bool
  pub apply : (execution_ref : Ref) → ResolutionHandoff → Option ApplicationResult
  pub between : Ledger → Ledger
  pub during : Ledger → Ledger

-- The tables after a call, the executions that the application was called for, and the answer.
pub record Run : Type 0 where
  pub ledger : Ledger
  pub calls : List Ref
  pub returned : Result ProviderError Execution

-- What is decided on a request that is new.
pub data Verdict : Type 0 where
  refuse : Reason → Verdict
  fail : ProviderError → Verdict
  proceed : (order_ref : Ref) → Verdict

abbrev pub is_human : OutcomeSource → Bool
is_human by_human_approve = true
is_human by_human_edit = true
is_human _ = false

abbrev pub dossier_of : PersistedAuthorization → Option HumanReviewDossier
dossier_of a = elim a.human_record [ none ↦ none | some r ↦ r.dossier_payload ]

abbrev pub result_of : PersistedAuthorization → Option HumanReviewResult
result_of a = elim a.human_record [ none ↦ none | some r ↦ r.result_payload ]

-- Each element once.
unfoldable pub as_set : List Ref → List Ref
as_set [] = []
as_set (x ∷ xs) = let rest = as_set xs in if mem x rest then rest else x ∷ rest

-- `claimed_items`: those of the dossier, or those that the review's findings name, or else those of the proposal.
unfoldable pub claimed_items :
    Provider → ResolutionHandoff → PersistedAuthorization → Option (List Ref)
unfolding as_set
claimed_items p r a =
    if is_human r.outcome_source
    then elim (dossier_of a) [ none ↦ none | some dossier ↦ some dossier.claimed_line_item_ids ]
    else some (elim named [
      | [] ↦ a.handoff.proposed_decision.refund_scope
      | x ∷ xs ↦ sorted (as_set (x ∷ xs))
    ])
  where
    named : List Ref
    named =
        keep_if (λ s. not (s == p.order_subject))
          (map (λ f. f.subject) r.review_result.reviewer_claim_findings)

-- The handoff and its review are valid against the current order.
unfoldable pub current_valid :
    Provider → ResolutionHandoff → PersistedAuthorization → OrderSnapshot → Bool
unfolding claimed_items
current_valid p r a order = elim (p.bundle a.handoff.policy_bundle_version) [
  | none ↦ false
  | some bundle ↦ p.handoff_valid a.handoff bundle order && elim (claimed_items p r a) [
    | none ↦ false
    | some claimed ↦ p.review_valid r.review_result a.handoff bundle order claimed
  ]
]

abbrev pub amount_of_final : FinalDecision → Option Ref
amount_of_final (refund f) = some f.amount
amount_of_final _ = none

abbrev pub pays : FinalDecision → Ref → Bool
pays final amount = elim (amount_of_final final) [ none ↦ false | some x ↦ x == amount ]

abbrev pub is_human_approve : OutcomeSource → Bool
is_human_approve by_human_approve = true
is_human_approve _ = false

-- The human's decision is valid against the current order, and an approval pays its amount.
unfoldable pub human_valid :
    Provider → ResolutionHandoff → PersistedAuthorization → OrderSnapshot → (currency : Ref) → Bool
human_valid p r a order currency = elim (dossier_of a) [
  | none ↦ false
  | some dossier ↦ elim (result_of a) [
    | none ↦ false
    | some result ↦ elim (p.bundle a.handoff.policy_bundle_version) [
      | none ↦ false
      | some bundle ↦
          elim (validate_human_decision (human_corrected_decision result.decision a.handoff) dossier
            order currency bundle) [
              | err _ ↦ false
              | ok amount ↦ not (is_human_approve r.outcome_source) || pays r.final_decision amount
            ]
    ]
  ]
]

-- The checks against the order that is current.
unfoldable pub check_order : Provider → ResolutionHandoff → PersistedAuthorization → Verdict
unfolding current_valid human_valid
check_order p r a = elim (p.order r.case_ref) [
  | none ↦ fail unavailable
  | some current ↦
      if not (current_valid p r a current.0)
      then refuse current_handoff_invalid
      else if is_human r.outcome_source && not (human_valid p r a current.0 current.1)
      then refuse human_decision_invalid
      else if is_edit r.outcome_source
      then (elim (dossier_of a) [
        | none ↦ refuse human_decision_invalid
        | some dossier ↦
            elim (validate_human_edit r.final_decision current.0 current.1
              dossier.claimed_line_item_ids) [
                | some why ↦ refuse (unauthorized why)
                | none ↦ proceed current.0.order_ref
              ]
      ])
      else proceed current.0.order_ref
]

unfoldable pub check_released : Provider → ResolutionHandoff → PersistedAuthorization → Verdict
unfolding check_order
check_released p r a =
    if a.handoff.is_v2
    then (elim (p.release r) [
      | fulfillment_pending ↦ fail unavailable
      | refused why ↦ refuse (release_refused why)
      | released ↦ check_order p r a
    ])
    else check_order p r a

-- `execute` from the configurations to the last rejection.
unfoldable pub decide : Provider → ExecuteRefundRequest → Verdict
unfolding authorization_rejection check_released
decide p r =
    if r.is_evaluated && not p.configs_load
    then refuse authorization_config_unavailable
    else (elim (p.authorization r.resolution.handoff_id) [
      | err x ↦ fail (raised x)
      | ok authorization ↦ elim (authorization_rejection p.review r.resolution authorization) [
        | err x ↦ fail (raised x)
        | ok (some why) ↦ refuse (unauthorized why)
        | ok none ↦ elim authorization [
          | none ↦ fail (raised invalid_value)
          | some a ↦ check_released p r.resolution a
        ]
      ]
    ])
