-- ===== src/Policy/Laws/Item.antt =====
-- The verdict on one item and one path, from the predicates and the cited findings.
use shopee_hachathonteam.Prelude.{
  List-cases, ◌≡◌, inl, inr, ◌⊎◌, List, [], ◌∷◌, map, Ref, ok, arith, All, Any, Result-cases,
}
use shopee_hachathonteam.Policy.{
  cooling_off, within_path_window, nondelivery_confirmed, contradicted, OrderSnapshot, CaseContext,
  ClaimFinding, PolicyPath,
}
use shopee_hachathonteam.Policy.Predicates.{fail, predicate_value}
use shopee_hachathonteam.Policy.Evaluate.{
  eligible, ineligible, predicate_not_passed, ItemPolicyEvaluation, evaluate_item, failures_of,
  claim_statuses,
}
use shopee_hachathonteam.Policy.Laws.Claims.{
  IsCited, IsEstablished, claim_statuses-IsEstablished, claim_statuses-contradicted,
  by_claims-eligible, by_claims-ineligible,
}
use shopee_hachathonteam.Policy.Laws.Failures.{
  IsPassed, no_failures, by_failures_ne_eligible, by_failures-ineligible,
}

-- An item is ELIGIBLE on a path only when every system predicate of the path passes, the path is in
-- effect at the submission, every claim that the path requires of the user has a SUPPORTED finding that
-- cites evidence of the bundle, and a finding on the system's claim repeats the trusted facts.
pub evaluate_item-eligible :
    (context : CaseContext) (order : OrderSnapshot) (scope : List Ref)
    (findings : List ClaimFinding) (refs : List Ref) (item : Ref) (path : PolicyPath)
    {o : ItemPolicyEvaluation}
    → evaluate_item context order scope findings refs item path ≡ ok o
    → o.status ≡ eligible
    → IsPassed context order scope item path
      × All
          (IsEstablished
            (predicate_value context order item path.path_id scope nondelivery_confirmed).source_ref
            findings
            refs
            item)
          path.required_claim_ids
unfolding evaluate_item
evaluate_item-eligible context order scope findings refs item path {o} h e =
    let value = predicate_value context order item path.path_id scope in
    let failures = failures_of context path (map value path.system_predicates) in
    let expected = (value nondelivery_confirmed).source_ref in
    elim (List-cases failures) [
      | inr (f, fs, failed) ↦ absurd (
          by_failures_ne_eligible path.path_id (value within_path_window).status (f ∷ fs)
            (ground arith))
      | inl clean ↦
          elim (Result-cases (claim_statuses expected refs findings item path.required_claim_ids)) [
            | inr (error, raised) ↦ absurd (ground arith)
            | inl (statuses, told) ↦
                let (c, u) = by_claims-eligible statuses (ground arith) in
                (
                  no_failures context order scope item path clean,
                  claim_statuses-IsEstablished expected refs findings item path.required_claim_ids
                      {statuses = statuses} told c u,
                )
          ]
    ]

-- An item is INELIGIBLE on a path only by established facts: the submission is after the window of the
-- cooling-off path and nothing else failed, or everything passed and a claim that the path requires has
-- a CONTRADICTED finding that cites evidence of the bundle.
pub evaluate_item-ineligible :
    (context : CaseContext) (order : OrderSnapshot) (scope : List Ref)
    (findings : List ClaimFinding) (refs : List Ref) (item : Ref) (path : PolicyPath)
    {o : ItemPolicyEvaluation}
    → evaluate_item context order scope findings refs item path ≡ ok o
    → o.status ≡ ineligible
    → ((path.path_id ≡ cooling_off)
        × ((predicate_value context order item path.path_id scope within_path_window).status ≡ fail)
        × (o.reason_codes ≡ predicate_not_passed within_path_window ∷ []))
      ⊎ (IsPassed context order scope item path
          × Any (IsCited findings refs item contradicted) path.required_claim_ids)
unfolding evaluate_item
evaluate_item-ineligible context order scope findings refs item path {o} h e =
    let value = predicate_value context order item path.path_id scope in
    let failures = failures_of context path (map value path.system_predicates) in
    let expected = (value nondelivery_confirmed).source_ref in
    elim (List-cases failures) [
      | inr (f, fs, failed) ↦
          let (late, window, cooling) =
            by_failures-ineligible path.path_id (value within_path_window).status (f ∷ fs)
              (ground arith) in
          inl (cooling, window, ground arith)
      | inl clean ↦
          elim (Result-cases (claim_statuses expected refs findings item path.required_claim_ids)) [
            | inr (error, raised) ↦ absurd (ground arith)
            | inl (statuses, told) ↦ inr (
              no_failures context order scope item path clean,
              claim_statuses-contradicted expected refs findings item path.required_claim_ids
                  {statuses = statuses} told (by_claims-ineligible statuses (ground arith)),
            )
          ]
    ]
