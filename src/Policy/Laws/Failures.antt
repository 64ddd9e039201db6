-- ===== src/Policy/Laws/Failures.antt =====
-- The system predicates of a path and the reasons that they give.
use shopee_hachathonteam.Prelude.{
  ◌≡◌, refl, inl, inr, true, List, [], ◌∷◌, ◌++◌, map, Ref, ◌==◌, arith, All, Bool-cases,
}
use shopee_hachathonteam.Policy.{
  PolicyPathId, cooling_off, damaged_on_arrival, wrong_item, undelivered_item, SystemPredicate,
  within_path_window, transaction_in_scope, single_refundable_item, no_exception_established,
  receipt_confirmed, purchase_spec_available, no_pending_split_delivery, payment_scope_available,
  nondelivery_confirmed, OrderSnapshot, CaseContext, PolicyPath, path_rank,
}
use shopee_hachathonteam.Policy.Predicates.{
  PredicateFinding, PredicateStatus, pass, fail, unknown, predicate_value,
}
use shopee_hachathonteam.Policy.Evaluate.{
  eligible, ineligible, OutcomeReason, path_not_effective, predicate_not_passed, claim_contradicted,
  user_evidence_required, is_late_only, is_fail, failures_of, not_passed, is_effective, by_failures,
}

-- Every system predicate of the path passes, and the path is effective at the submission.
abbrev pub IsPassed : CaseContext → OrderSnapshot → List Ref → Ref → PolicyPath → Type 0
IsPassed context order scope item path =
    All (λ p. (predicate_value context order item path.path_id scope p).status ≡ pass)
      path.system_predicates
    × (is_effective context.first_valid_submitted_at path ≡ true)

pub not_passed-All :
    (value : SystemPredicate → PredicateFinding) (ps : List SystemPredicate)
    → not_passed (map value ps) ≡ []
    → All (λ p. (value p).status ≡ pass) ps
unfolding not_passed
not_passed-All value [] h = tt
not_passed-All value (p ∷ ps) h = ground (arith, not_passed-All value ps)

append_one_absurd : (xs : List OutcomeReason) (x : OutcomeReason) → xs ++ (x ∷ []) ≡ [] → ⊥
append_one_absurd [] x h = ground arith
append_one_absurd (y ∷ ys) x h = ground arith

pub no_failures :
    (context : CaseContext) (order : OrderSnapshot) (scope : List Ref) (item : Ref)
    (path : PolicyPath)
    → failures_of context path
        (map (predicate_value context order item path.path_id scope) path.system_predicates)
      ≡ []
    → IsPassed context order scope item path
unfolding failures_of
no_failures context order scope item path h =
    elim (Bool-cases (is_effective context.first_valid_submitted_at path)) [
      | inl on ↦ (
        not_passed-All (predicate_value context order item path.path_id scope)
            path.system_predicates (ground arith),
        on,
      )
      | inr off ↦ absurd (
          append_one_absurd
            (not_passed
              (map (predicate_value context order item path.path_id scope) path.system_predicates))
            path_not_effective (ground arith))
    ]

pub by_failures_ne_eligible :
    (p : PolicyPathId) (w : PredicateStatus) (fs : List OutcomeReason)
    → by_failures p w fs ≡ eligible
    → ⊥
by_failures_ne_eligible p w fs h = (ground arith)

pub by_failures-ineligible :
    (p : PolicyPathId) (w : PredicateStatus) (fs : List OutcomeReason)
    → by_failures p w fs ≡ ineligible
    → (fs ≡ predicate_not_passed within_path_window ∷ []) × (w ≡ fail) × (p ≡ cooling_off)
by_failures-ineligible p w fs h =
    (late fs (ground arith), failed w (ground arith), cooling p (ground arith))
  where
    late :
        (fs : List OutcomeReason)
        → is_late_only fs ≡ true
        → fs ≡ predicate_not_passed within_path_window ∷ []
    late [] e = absurd (ground arith)
    late (predicate_not_passed within_path_window ∷ []) e = refl
    late (predicate_not_passed within_path_window ∷ f ∷ fs) e = absurd (ground arith)
    late (predicate_not_passed transaction_in_scope ∷ fs) e = absurd (ground arith)
    late (predicate_not_passed single_refundable_item ∷ fs) e = absurd (ground arith)
    late (predicate_not_passed no_exception_established ∷ fs) e = absurd (ground arith)
    late (predicate_not_passed receipt_confirmed ∷ fs) e = absurd (ground arith)
    late (predicate_not_passed purchase_spec_available ∷ fs) e = absurd (ground arith)
    late (predicate_not_passed nondelivery_confirmed ∷ fs) e = absurd (ground arith)
    late (predicate_not_passed no_pending_split_delivery ∷ fs) e = absurd (ground arith)
    late (predicate_not_passed payment_scope_available ∷ fs) e = absurd (ground arith)
    late (path_not_effective ∷ fs) e = absurd (ground arith)
    late (claim_contradicted ∷ fs) e = absurd (ground arith)
    late (user_evidence_required ∷ fs) e = absurd (ground arith)

    failed : (w : PredicateStatus) → is_fail w ≡ true → w ≡ fail
    failed fail e = refl
    failed pass e = absurd (ground arith)
    failed unknown e = absurd (ground arith)

    cooling : (p : PolicyPathId) → (path_rank p == path_rank cooling_off) ≡ true → p ≡ cooling_off
    cooling cooling_off e = refl
    cooling damaged_on_arrival e = absurd (ground arith)
    cooling wrong_item e = absurd (ground arith)
    cooling undelivered_item e = absurd (ground arith)
