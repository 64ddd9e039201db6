-- ===== src/Policy/Laws/Facts.antt =====
-- What an ELIGIBLE verdict on a fixed path says of the order.
use shopee_hachathonteam.Prelude.{
  ℕ, ◌≡◌, refl, ap, sym, ◌∙◌, subst, inl, inr, ◌⊎◌, Bool, true, false, ◌||◌, ltb, same_option,
  Option, none, some, List, Ref, Instant, ok, is_none, length, arith, All, ◌≤◌,
}
use shopee_hachathonteam.Policy.{
  PolicyPathId, cooling_off, damaged_on_arrival, wrong_item, undelivered_item, SystemPredicate,
  OrderSnapshot, CaseContext, ClaimFinding, PolicyPath, fixed_logic, path_predicates,
  common_predicates, ItemPolicyFacts, OrderLineItem, PathDeadline, business, mall, personal,
  unknown_seller, SellerType, OrderPolicyFacts,
}
use shopee_hachathonteam.Policy.Predicates.{
  pass, predicate_value, found, payment_value, window_value, single_item_value, nondelivery_value,
  split_value, receipt_value, spec_value, in_scope_value, no_exception_value, is_eligible_seller,
  item_of, details_of, deadline_of,
}
use shopee_hachathonteam.Policy.Evaluate.{
  eligible, is_effective, ItemPolicyEvaluation, evaluate_item,
}
use shopee_hachathonteam.Policy.Laws.Item.{evaluate_item-eligible}
use shopee_hachathonteam.Policy.Laws.Lookups.{details-of_item, line-of_item, deadline-of_path}
use shopee_hachathonteam.Policy.Laws.Terms.{
  IsInScope, IsPayable, IsSuited, IsEffective, IsRefundable,
}
use shopee_hachathonteam.Policy.Laws.Failures.{IsPassed}
use shopee_hachathonteam.Policy.Laws.FixedLogic.{fixed_logic-predicates}

found-pass : (v : Option Bool) → found v ≡ pass → v ≡ some true
found-pass none h = absurd (ground arith)
found-pass (some true) h = refl
found-pass (some false) h = absurd (ground arith)

All-common :
    (P : SystemPredicate → Type 0) (id : PolicyPathId)
    → All P (path_predicates id)
    → All P common_predicates
All-common P cooling_off (a, (b, (c, (d, (e, rest))))) = (a, (b, (c, (d, (e, tt)))))
All-common P damaged_on_arrival h = h
All-common P wrong_item (a, (b, (c, (d, (e, rest))))) = (a, (b, (c, (d, (e, tt)))))
All-common P undelivered_item (a, (b, (c, (d, (e, rest))))) = (a, (b, (c, (d, (e, tt)))))

facts-IsInScope :
    (context : CaseContext) (order : OrderSnapshot) (f : Option OrderPolicyFacts)
    → in_scope_value context order f ≡ some true
    → (facts : OrderPolicyFacts) × (f ≡ some facts) × IsInScope context order facts
facts-IsInScope context order none h = absurd (ground arith)
facts-IsInScope context order (some facts) h = (
  facts,
  refl,
  record {
    on_platform = ground arith;
    by_seller = seller facts.seller_type (ground arith);
    physical = ground arith;
    domestic = ground arith;
    in_market = ground arith;
    in_currency = ground arith;
  },
)
  where
    seller : (t : SellerType) → is_eligible_seller t ≡ true → (t ≡ business) ⊎ (t ≡ mall)
    seller business e = inl refl
    seller mall e = inr refl
    seller personal e = absurd (ground arith)
    seller unknown_seller e = absurd (ground arith)

free_of_others :
    (r : Option Ref) (case_ref : Ref)
    → (is_none r || same_option r (some case_ref)) ≡ true
    → (r ≡ none) ⊎ (r ≡ some case_ref)
free_of_others none case_ref h = inl refl
free_of_others (some x) case_ref h = inr (ground arith)

one : (r : Option ℕ) → same_option r (some 1) ≡ true → r ≡ some 1
one none h = absurd (ground arith)
one (some n) h = ground arith

item-IsPayable :
    (context : CaseContext) (order : OrderSnapshot) (scope : List Ref) (d : Option ItemPolicyFacts)
    (l : Option OrderLineItem)
    → single_item_value d l scope ≡ some true
    → no_exception_value d ≡ some true
    → payment_value context order d l ≡ some true
    → (details : ItemPolicyFacts) × (line : OrderLineItem) × (d ≡ some details)
      × (l ≡ some line)
      × (length scope ≡ 1)
      × IsPayable context order details line
item-IsPayable context order scope none l s e p = absurd (ground arith)
item-IsPayable context order scope (some details) none s e p = absurd (ground arith)
item-IsPayable context order scope (some details) (some line) s e p = (
  details,
  line,
  refl,
  refl,
  ground arith,
  record {
    one_unit = ground arith;
    returnable = one details.returnable_quantity (ground arith);
    no_bundle = ground arith;
    no_exception = ground arith;
    exception_sourced = ground arith;
    not_cancelled = ground arith;
    not_refunded = ground arith;
    unreserved = free_of_others details.reservation_case_ref context.case_ref (ground arith);
    positive = ground arith;
    covered = ground arith;
  },
)

in_window :
    (deadline : Option PathDeadline) (submitted : Option Instant)
    → window_value deadline submitted ≡ some true
    → (d : PathDeadline) × (at : Instant) × (deadline ≡ some d)
      × (submitted ≡ some at)
      × (at ≤ d.deadline_at)
in_window none s h = absurd (ground arith)
in_window (some d) none h = absurd (ground arith)
in_window (some d) (some at) h = (d, at, refl, refl, ground arith)

submitted-IsEffective :
    (submitted : Option Instant) (path : PolicyPath) (at : Instant)
    → submitted ≡ some at
    → is_effective submitted path ≡ true
    → IsEffective path at
submitted-IsEffective submitted path at there h =
    (ground arith, until path.effective_to (ground arith))
  where
    until :
        (to : Option Instant)
        → (elim to [ none ↦ false | some last ↦ ltb last at ]) ≡ false
        → (to ≡ none) ⊎ ((last : Instant) × (to ≡ some last) × (at ≤ last))
    until none e = inl refl
    until (some last) e = inr (last, refl, ground arith)

module _ (context : CaseContext) (order : OrderSnapshot) (item : Ref) (scope : List Ref)
    (details : ItemPolicyFacts) (there : details_of order item ≡ some details) where
  passes-IsSuited :
      (id : PolicyPathId)
      → All
          (λ p. (predicate_value context order item id scope p).status ≡ pass)
          (path_predicates id)
      → IsSuited details id
  unfolding predicate_value
  passes-IsSuited cooling_off (a, (b, (c, (d, (e, (receipt, rest)))))) =
      let value = found-pass (receipt_value (details_of order item)) receipt in
      (ground arith, ground arith, ground arith)
  passes-IsSuited damaged_on_arrival h = tt
  passes-IsSuited wrong_item (a, (b, (c, (d, (e, (spec, rest)))))) =
      let value = found-pass (spec_value (details_of order item)) spec in
      (ground arith, ground arith, ground arith)
  passes-IsSuited undelivered_item (a, (b, (c, (d, (e, (nondelivery, (split, rest))))))) =
      let value = found-pass (nondelivery_value (details_of order item)) nondelivery in
      let pending = found-pass (split_value (details_of order item)) split in
      (ground arith, ground arith, ground arith)

-- The system predicates of a path, when all of them pass, say what the facts must be.
pub passes-IsRefundable :
    (context : CaseContext) (order : OrderSnapshot) (scope : List Ref) (item : Ref)
    (path : PolicyPath)
    → fixed_logic path ≡ true
    → IsPassed context order scope item path
    → IsRefundable context order scope item path
unfolding predicate_value
passes-IsRefundable context order scope item path fixed (passed, on) =
    let P : SystemPredicate → Type 0 =
      λ p. (predicate_value context order item path.path_id scope p).status ≡ pass in
    let all : All P (path_predicates path.path_id) =
      subst (All P) (fixed_logic-predicates path fixed) passed in
    let (in_scope, (single, (exception, (window, (payment, rest))))) =
      All-common P path.path_id all in
    let d = details_of order item in
    let due = deadline_of d path.path_id in
    let (facts, with_facts, is_in_scope) =
      facts-IsInScope context order order.policy_facts
        (found-pass (in_scope_value context order order.policy_facts) in_scope) in
    let (details, line, with_details, with_line, one, is_payable) =
      item-IsPayable context order scope d (item_of order item)
        (found-pass (single_item_value d (item_of order item) scope) single)
        (found-pass (no_exception_value d) exception)
        (found-pass (payment_value context order d (item_of order item)) payment) in
    let (deadline, at, with_deadline, submitted, by) =
      in_window due context.first_valid_submitted_at
        (found-pass (window_value due context.first_valid_submitted_at) window) in
    let due_of : deadline_of (some details) path.path_id ≡ some deadline =
      sym (ap (λ x. deadline_of x path.path_id) with_details) ∙ with_deadline in
    record {
      facts = facts;
      details = details;
      line = line;
      deadline = deadline;
      at = at;
      with_facts = with_facts;
      with_details = with_details;
      with_line = with_line;
      with_deadline = due_of;
      of_item = (
        details-of_item order item facts details with_facts with_details,
        line-of_item order item line with_line,
      );
      of_path = deadline-of_path details path.path_id deadline due_of;
      submitted = submitted;
      single = one;
      in_time = by;
      effective = submitted-IsEffective context.first_valid_submitted_at path at submitted on;
      is_in_scope = is_in_scope;
      is_payable = is_payable;
      is_suited = passes-IsSuited context order item scope details with_details path.path_id all;
    }

-- On a path that its validator accepts, an item that is ELIGIBLE has facts of the order, its line, and
-- a deadline of the path, such that: the scope has one item; the transaction is in the scope of the
-- policy; the item is one unit and no bundle, has no exception, is neither cancelled nor refunded nor
-- reserved for another case, and its positive amount is within what the order covers; the case was
-- submitted by the deadline and while the path was in effect; and the delivery or the purchase is as
-- the path asks.
pub eligible-IsPayable :
    (context : CaseContext) (order : OrderSnapshot) (scope : List Ref)
    (findings : List ClaimFinding) (refs : List Ref) (item : Ref) (path : PolicyPath)
    {o : ItemPolicyEvaluation}
    → fixed_logic path ≡ true
    → evaluate_item context order scope findings refs item path ≡ ok o
    → o.status ≡ eligible
    → IsRefundable context order scope item path
eligible-IsPayable context order scope findings refs item path {o} fixed h e =
    let (passed, claims) = evaluate_item-eligible context order scope findings refs item path h e in
    passes-IsRefundable context order scope item path fixed passed
