-- ===== src/Policy/Evaluate.antt =====
-- `evaluate_policy` of apps/contracts/src/return_agent_contracts/policy_v2.py, up to the digests that
-- bind its result to the inputs.
use shopee_hachathonteam.Prelude.{
  Bool, true, false, ◌&&◌, ◌||◌, not, Option, none, some, List, [], ◌∷◌, ◌++◌, map, Ref, Instant,
  Result, ok, ◌>>=◌, ◌>>◌, raise_if, ◌==◌, ltb, is_none, first_of?, any_of, length, distinct,
  subset, mem, if◌then◌else◌,
}
use shopee_hachathonteam.Policy.{
  PolicyPathId, cooling_off, SystemPredicate, within_path_window, nondelivery_confirmed, ClaimId,
  item_confirmed_undelivered, ClaimStatus, supported, unsupported, contradicted, OrderSnapshot,
  CaseContext, ClaimFinding, PolicyPath, PolicyBundle, path_rank, claim_rank,
}
use shopee_hachathonteam.Policy.Predicates.{
  PredicateFinding, PredicateStatus, pass, fail, predicate_value,
}

pub data PolicyStatus : Type 0 where
  eligible ineligible needs_information specialist_required : PolicyStatus

pub data OutcomeReason : Type 0 where
  predicate_not_passed : (predicate : SystemPredicate) → OutcomeReason
  path_not_effective claim_contradicted user_evidence_required : OutcomeReason

pub record ItemPolicyEvaluation : Type 0 where
  pub line_item_id : Ref
  pub path_id : PolicyPathId
  pub status : PolicyStatus
  pub predicates : List PredicateFinding
  pub claim_refs : List ClaimId
  pub reason_codes : List OutcomeReason

pub data PolicyError : Type 0 where
  explicit_v2_inputs scope_mismatch duplicate_findings contradicts_delivery uncited_claim
        no_evaluations duplicate_evaluated_path :
      PolicyError

abbrev pub is_pass : PredicateStatus → Bool
is_pass pass = true
is_pass _ = false

-- `[p.predicate.value for p in predicates if p.status != "PASS"]`
unfoldable pub not_passed : List PredicateFinding → List OutcomeReason
not_passed [] = []
not_passed (p ∷ ps) =
    if is_pass p.status then not_passed ps else predicate_not_passed p.predicate ∷ not_passed ps

abbrev pub is_effective : Option Instant → PolicyPath → Bool
is_effective none path = false
is_effective (some instant) path =
    not (ltb instant path.effective_from)
    && not (elim path.effective_to [ none ↦ false | some last ↦ ltb last instant ])

-- `failures == ["WITHIN_PATH_WINDOW"]`
abbrev pub is_late_only : List OutcomeReason → Bool
is_late_only (predicate_not_passed within_path_window ∷ []) = true
is_late_only _ = false

abbrev pub is_fail : PredicateStatus → Bool
is_fail fail = true
is_fail _ = false

-- `by_pair.get((claim, item_id))`
unfoldable pub finding_for : ClaimId → Ref → List ClaimFinding → Option ClaimFinding
finding_for claim item findings =
    first_of? (λ f. (claim_rank f.claim_id == claim_rank claim) && (f.subject == item)) findings

-- `len(by_pair) != len(findings)`
unfoldable pub has_duplicates : List ClaimFinding → Bool
unfolding finding_for
has_duplicates [] = false
has_duplicates (f ∷ fs) = not (is_none (finding_for f.claim_id f.subject fs)) || has_duplicates fs

abbrev pub is_supported : ClaimStatus → Bool
is_supported supported = true
is_supported _ = false

abbrev pub is_unsupported : ClaimStatus → Bool
is_unsupported unsupported = true
is_unsupported _ = false

abbrev pub is_contradicted : ClaimStatus → Bool
is_contradicted contradicted = true
is_contradicted _ = false

-- `expected_ref in refs`, where the expected reference may be None.
abbrev pub cites : Option Ref → List Ref → Bool
cites none refs = false
cites (some ref) refs = mem ref refs

-- The claim of the system: a finding may only repeat what the trusted delivery facts say.
unfoldable pub system_claim : Option Ref → Option ClaimFinding → Result PolicyError ClaimStatus
system_claim expected none = ok supported
system_claim expected (some f) =
    raise_if (not (is_supported f.status) || not (cites expected f.supporting_evidence_refs))
      contradicts_delivery
    >> ok supported

-- The other claims: a finding that decides must cite evidence of the bound bundle.
unfoldable pub evidence_claim :
    (evidence_refs : List Ref) → Option ClaimFinding → Result PolicyError ClaimStatus
evidence_claim refs none = ok unsupported
evidence_claim refs (some f) =
    raise_if
      (not (is_unsupported f.status)
        && ((length f.supporting_evidence_refs == 0)
            || not (subset f.supporting_evidence_refs refs)))
      uncited_claim
    >> ok f.status

abbrev pub claim_status :
    (expected : Option Ref)
    → (evidence_refs : List Ref) → ClaimId
    → Option ClaimFinding
    → Result PolicyError ClaimStatus
claim_status expected refs item_confirmed_undelivered f = system_claim expected f
claim_status expected refs claim f = evidence_claim refs f

-- The loop over `path.required_claim_ids`.
unfoldable pub claim_statuses :
    (expected : Option Ref)
    → (evidence_refs : List Ref) → List ClaimFinding
    → (item_id : Ref) → List ClaimId
    → Result PolicyError (List ClaimStatus)
unfolding finding_for system_claim evidence_claim
claim_statuses expected refs findings item [] = ok []
claim_statuses expected refs findings item (claim ∷ claims) = do
  status ← claim_status expected refs claim (finding_for claim item findings)
  rest ← claim_statuses expected refs findings item claims
  ok (status ∷ rest)

-- The status and the reasons from the statuses of the claims.
abbrev pub by_claims : List ClaimStatus → PolicyStatus × List OutcomeReason
by_claims statuses =
    if any_of is_contradicted statuses
    then (ineligible, claim_contradicted ∷ [])
    else (if any_of is_unsupported statuses
        then (needs_information, user_evidence_required ∷ [])
        else (eligible, []))

abbrev pub by_failures : PolicyPathId → PredicateStatus → List OutcomeReason → PolicyStatus
by_failures path window failures =
    if is_late_only failures && is_fail window && (path_rank path == path_rank cooling_off)
    then ineligible
    else specialist_required

-- The system predicates that are not passed, and the effective interval.
unfoldable pub failures_of : CaseContext → PolicyPath → List PredicateFinding → List OutcomeReason
unfolding not_passed
failures_of context path predicates =
    not_passed predicates
    ++ (if is_effective context.first_valid_submitted_at path then [] else path_not_effective ∷ [])

-- The body of the loop: one item on one path.
unfoldable pub evaluate_item :
    CaseContext
    → OrderSnapshot
    → (scope : List Ref) → List ClaimFinding
    → (evidence_refs : List Ref) → (item_id : Ref) → PolicyPath
    → Result PolicyError ItemPolicyEvaluation
unfolding predicate_value failures_of claim_statuses
evaluate_item context order scope findings refs item path = decide failures
  where
    value : SystemPredicate → PredicateFinding
    value = predicate_value context order item path.path_id scope

    predicates : List PredicateFinding
    predicates = map value path.system_predicates

    failures : List OutcomeReason
    failures = failures_of context path predicates

    outcome : PolicyStatus × List OutcomeReason → ItemPolicyEvaluation
    outcome (status, reasons) = record {
      line_item_id = item;
      path_id = path.path_id;
      status = status;
      predicates = predicates;
      claim_refs = path.required_claim_ids;
      reason_codes = reasons;
    }

    decide : List OutcomeReason → Result PolicyError ItemPolicyEvaluation
    decide [] = do
      statuses ←
          claim_statuses (value nondelivery_confirmed).source_ref refs findings item
            path.required_claim_ids
      ok (outcome (by_claims statuses))
    decide (f ∷ fs) =
        ok (outcome (by_failures path.path_id (value within_path_window).status (f ∷ fs), f ∷ fs))

module _ (context : CaseContext) (order : OrderSnapshot) (scope : List Ref)
    (findings : List ClaimFinding) (refs : List Ref) where
  unfoldable pub evaluate_paths :
      (item_id : Ref) → List PolicyPath → Result PolicyError (List ItemPolicyEvaluation)
  unfolding evaluate_item
  evaluate_paths item [] = ok []
  evaluate_paths item (path ∷ paths) = do
    outcome ← evaluate_item context order scope findings refs item path
    rest ← evaluate_paths item paths
    ok (outcome ∷ rest)

  unfoldable pub evaluate_items :
      List Ref → List PolicyPath → Result PolicyError (List ItemPolicyEvaluation)
  unfolding evaluate_paths
  evaluate_items [] paths = ok []
  evaluate_items (item ∷ items) paths = do
    here ← evaluate_paths item paths
    rest ← evaluate_items items paths
    ok (here ++ rest)

-- `len(set(pairs)) != len(pairs)` of the pairs of an item and a path.
unfoldable pub repeats_pair : List ItemPolicyEvaluation → Bool
repeats_pair [] = false
repeats_pair (o ∷ os) =
    any_of (λ x. (x.line_item_id == o.line_item_id) && (path_rank x.path_id == path_rank o.path_id))
      os
    || repeats_pair os

-- The last two tests are the validators of `PolicyEvaluation`.
unfoldable pub evaluate_policy :
    CaseContext
    → OrderSnapshot
    → PolicyBundle
    → (claimed_line_item_ids : List Ref) → List ClaimFinding
    → (evidence_refs : List Ref) → Result PolicyError (List ItemPolicyEvaluation)
unfolding has_duplicates evaluate_items repeats_pair
evaluate_policy context order bundle scope findings refs = do
  raise_if (not context.is_v2 || not bundle.is_v2 || (length scope == 0) || not (distinct scope))
      explicit_v2_inputs
  raise_if
      (not (context.order_ref == order.order_ref)
        || not (subset scope (map (λ x. x.line_item_id) order.line_items)))
      scope_mismatch
  raise_if (has_duplicates findings) duplicate_findings
  outcomes ← evaluate_items context order scope findings refs scope bundle.paths
  raise_if (length outcomes == 0) no_evaluations
  raise_if (repeats_pair outcomes) duplicate_evaluated_path
  ok outcomes
