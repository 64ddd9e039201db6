-- ===== src/Policy/Laws/Outcome.antt =====
-- What an ELIGIBLE outcome of a whole order rests on.
use shopee_hachathonteam.Prelude.{
  ◌≡◌, sym, All-map, false, ap, subst, true, some, List, [], ◌∷◌, Ref, ok, mem, arith, All, Any,
  inl, inr,
}
use shopee_hachathonteam.Policy.{
  PolicyPathId, nondelivery_confirmed, OrderSnapshot, CaseContext, ClaimFinding, PolicyPath,
  PolicyBundle, fixed_logic, ItemPolicyFacts,
}
use shopee_hachathonteam.Policy.Predicates.{predicate_value, details_of, source_of}
use shopee_hachathonteam.Policy.Evaluate.{
  eligible, ItemPolicyEvaluation, evaluate_item, evaluate_policy, has_duplicates,
}
use shopee_hachathonteam.Policy.Laws.Item.{evaluate_item-eligible}
use shopee_hachathonteam.Policy.Laws.Claims.{IsEstablished}
use shopee_hachathonteam.Policy.Laws.Findings.{IsShown, IsEstablished-IsShown}
use shopee_hachathonteam.Policy.Laws.Terms.{IsRefundable}
use shopee_hachathonteam.Policy.Laws.Facts.{passes-IsRefundable}
use shopee_hachathonteam.Policy.Laws.Order.{item_pair, items_Any, evaluate_policy-items}

-- The outcome is of this path, its item is refundable on it, and the findings show every claim that the
-- path requires.
abbrev pub IsFounded :
    CaseContext
    → OrderSnapshot
    → (scope : List Ref) → List ClaimFinding
    → (evidence_refs : List Ref) → ItemPolicyEvaluation
    → PolicyPath
    → Type 0
IsFounded context order scope findings refs o path =
    (o.path_id ≡ path.path_id)
    × (r : IsRefundable context order scope o.line_item_id path) × All
        (IsShown r.details.investigation_ref findings refs o.line_item_id) path.required_claim_ids

-- The investigation that the trusted facts name is the expected reference.
expected_ref :
    (context : CaseContext) (order : OrderSnapshot) (scope : List Ref) (item : Ref)
    (id : PolicyPathId) (details : ItemPolicyFacts)
    → details_of order item ≡ some details
    → (predicate_value context order item id scope nondelivery_confirmed).source_ref
      ≡ details.investigation_ref
unfolding predicate_value
expected_ref context order scope item id details there =
    ap (λ d. source_of d (λ x. x.investigation_ref)) there

module _ (context : CaseContext) (order : OrderSnapshot) (scope : List Ref)
    (findings : List ClaimFinding) (refs : List Ref) (o : ItemPolicyEvaluation)
    (is_eligible : o.status ≡ eligible) (unique : has_duplicates findings ≡ false) where
  item-IsFounded :
      (item : Ref) (path : PolicyPath) (x : ItemPolicyEvaluation)
      → fixed_logic path ≡ true
      → evaluate_item context order scope findings refs item path ≡ ok x
      → x ≡ o
      → (o.line_item_id ≡ item) × IsFounded context order scope findings refs o path
  item-IsFounded item path x fixed h same =
      let told : evaluate_item context order scope findings refs item path ≡ ok o =
        subst (λ y. evaluate_item context order scope findings refs item path ≡ ok y) same h in
      let (of_item, of_path) = item_pair context order scope findings refs item path o told in
      let at_item =
        subst (λ i. evaluate_item context order scope findings refs i path ≡ ok o) (sym of_item)
          told in
      let (passed, claims) =
        evaluate_item-eligible context order scope findings refs o.line_item_id path at_item
          is_eligible in
      let r = passes-IsRefundable context order scope o.line_item_id path fixed passed in
      let known =
        expected_ref context order scope o.line_item_id path.path_id r.details r.with_details in
      let established =
        subst (λ e. All (IsEstablished e findings refs o.line_item_id) path.required_claim_ids)
          known claims in
      let expected = r.details.investigation_ref in
      let shown =
        All-map (IsEstablished expected findings refs o.line_item_id)
          (IsShown expected findings refs o.line_item_id)
          (IsEstablished-IsShown expected findings refs o.line_item_id unique)
          path.required_claim_ids established in
      let founded : IsFounded context order scope findings refs o path = (of_path, r, shown) in
      (of_item, founded)

  paths-IsFounded :
      (item : Ref) (paths : List PolicyPath)
      → All (λ path. fixed_logic path ≡ true) paths
      → Any
          (λ path.
            (x : ItemPolicyEvaluation) × (evaluate_item context order scope findings refs item path
              ≡ ok x)
            × (x ≡ o))
          paths
      → (o.line_item_id ≡ item) × Any (IsFounded context order scope findings refs o) paths
  paths-IsFounded item [] fixed a = elim a [ ]
  paths-IsFounded item (path ∷ paths) fixed (inl (x, h, same)) =
      let (of_item, founded) = item-IsFounded item path x fixed.0 h same in (of_item, inl founded)
  paths-IsFounded item (path ∷ paths) fixed (inr later) =
      let (of_item, founded) = paths-IsFounded item paths fixed.1 later in (of_item, inr founded)

  items-IsFounded :
      (items : List Ref) (paths : List PolicyPath)
      → All (λ path. fixed_logic path ≡ true) paths
      → Any
          (λ item.
            Any
              (λ path.
                (x : ItemPolicyEvaluation) × (evaluate_item context order scope findings refs item
                    path
                  ≡ ok x)
                × (x ≡ o))
              paths)
          items
      → (mem o.line_item_id items ≡ true)
        × Any (IsFounded context order scope findings refs o) paths
  items-IsFounded [] paths fixed a = elim a [ ]
  items-IsFounded (item ∷ items) paths fixed (inl found) =
      let (of_item, founded) = paths-IsFounded item paths fixed found in (ground arith, founded)
  items-IsFounded (item ∷ items) paths fixed (inr later) =
      let (listed, founded) = items-IsFounded items paths fixed later in (ground arith, founded)

unique_findings :
    (context : CaseContext) (order : OrderSnapshot) (bundle : PolicyBundle) (scope : List Ref)
    (findings : List ClaimFinding) (refs : List Ref) {os : List ItemPolicyEvaluation}
    → evaluate_policy context order bundle scope findings refs ≡ ok os
    → has_duplicates findings ≡ false
unfolding evaluate_policy
unique_findings context order bundle scope findings refs h = ground arith

-- When the validators accept the paths of the bundle, each ELIGIBLE outcome of an evaluation is of a
-- claimed item and of a path of the bundle on which the item is refundable: the transaction is in the
-- scope of the policy, the item is one unit and no bundle, the only claimed one, without an exception,
-- neither cancelled nor refunded nor reserved for another case, with a positive amount that the order
-- covers; the case was submitted by the deadline and while the path was in effect; the delivery or the
-- purchase is as the path asks. And the findings show every claim that the path requires: there is a
-- SUPPORTED finding of the claim on the item that cites evidence of the bundle, and for a non-delivery,
-- which the order's facts establish, no finding on the item is other than SUPPORTED by the investigation
-- that these facts name.
pub evaluate_policy-eligible :
    (context : CaseContext) (order : OrderSnapshot) (bundle : PolicyBundle) (scope : List Ref)
    (findings : List ClaimFinding) (refs : List Ref) (o : ItemPolicyEvaluation)
    {os : List ItemPolicyEvaluation}
    → All (λ path. fixed_logic path ≡ true) bundle.paths
    → evaluate_policy context order bundle scope findings refs ≡ ok os
    → Any (λ x. x ≡ o) os
    → o.status ≡ eligible
    → (mem o.line_item_id scope ≡ true)
      × Any (IsFounded context order scope findings refs o) bundle.paths
evaluate_policy-eligible context order bundle scope findings refs o {os} fixed h member e =
    items-IsFounded context order scope findings refs o e
      (unique_findings context order bundle scope findings refs h) scope bundle.paths fixed
      (items_Any context order scope findings refs (λ x. x ≡ o) scope bundle.paths os
        (evaluate_policy-items context order bundle scope findings refs h) member)
