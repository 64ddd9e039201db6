-- ===== src/Policy/Predicates.antt =====
-- The system predicates of Policy v2: `_predicate_values` of
-- apps/contracts/src/return_agent_contracts/policy_v2.py.
use shopee_hachathonteam.Prelude.{
  Bool, true, false, ◌&&◌, ◌||◌, not, Option, none, some, List, Ref, Instant, ◌==◌, ltb, leb,
  is_none, first_of?, length, same_option,
}
use shopee_hachathonteam.Policy.{
  PolicyPathId, SystemPredicate, transaction_in_scope, single_refundable_item,
  no_exception_established, within_path_window, receipt_confirmed, purchase_spec_available,
  nondelivery_confirmed, no_pending_split_delivery, payment_scope_available, Platform, shopee_tw,
  SellerType, business, mall, ProductType, general_physical, received, confirmed_undelivered,
  unknown_delivery, ExceptionStatus, none_confirmed, unknown_exception, PathDeadline,
  ItemPolicyFacts, OrderPolicyFacts, OrderLineItem, OrderSnapshot, CaseContext, path_rank,
}

pub data PredicateStatus : Type 0 where
  pass fail unknown : PredicateStatus

pub record PredicateFinding : Type 0 where
  pub predicate : SystemPredicate
  pub status : PredicateStatus
  pub source_ref : Option Ref

-- `"UNKNOWN" if value is None else "PASS" if value else "FAIL"`
abbrev pub found : Option Bool → PredicateStatus
found none = unknown
found (some true) = pass
found (some false) = fail

abbrev pub is_shopee_tw : Platform → Bool
is_shopee_tw shopee_tw = true
is_shopee_tw _ = false

-- `seller_type in {"BUSINESS", "MALL"}`
abbrev pub is_eligible_seller : SellerType → Bool
is_eligible_seller business = true
is_eligible_seller mall = true
is_eligible_seller _ = false

abbrev pub is_general_physical : ProductType → Bool
is_general_physical general_physical = true
is_general_physical _ = false

-- `value is False`, on a value that may be None.
abbrev pub is_false : Option Bool → Bool
is_false (some false) = true
is_false _ = false

-- The three look-ups of `_predicate_values`.
abbrev pub item_of : OrderSnapshot → Ref → Option OrderLineItem
item_of order item = first_of? (λ x. x.line_item_id == item) order.line_items

abbrev pub details_of : OrderSnapshot → Ref → Option ItemPolicyFacts
details_of order item = elim order.policy_facts [
  | none ↦ none
  | some facts ↦ first_of? (λ x. x.line_item_id == item) facts.items
]

abbrev pub deadline_of : Option ItemPolicyFacts → PolicyPathId → Option PathDeadline
deadline_of none path = none
deadline_of (some details) path =
    first_of? (λ d. path_rank d.policy_path_id == path_rank path) details.deadlines

abbrev pub in_scope_value : CaseContext → OrderSnapshot → Option OrderPolicyFacts → Option Bool
in_scope_value context order none = none
in_scope_value context order (some facts) = some (
    is_shopee_tw facts.platform
    && is_eligible_seller facts.seller_type
    && is_general_physical facts.product_type
    && is_false facts.cross_border
    && context.is_tw
    && order.is_twd)

abbrev pub single_item_value :
    Option ItemPolicyFacts → Option OrderLineItem → List Ref → Option Bool
single_item_value (some details) (some item) scope = some (
    (length scope == 1)
    && (item.quantity == 1)
    && same_option details.returnable_quantity (some 1)
    && is_false details.is_bundle)
single_item_value _ _ scope = none

abbrev pub exception_value : ExceptionStatus → Option Ref → Option Bool
exception_value e none = none
exception_value unknown_exception (some source) = none
exception_value none_confirmed (some source) = some true
exception_value _ (some source) = some false

abbrev pub no_exception_value : Option ItemPolicyFacts → Option Bool
no_exception_value none = none
no_exception_value (some details) = exception_value details.exception details.exception_source_ref

abbrev pub window_value : Option PathDeadline → Option Instant → Option Bool
window_value (some deadline) (some submitted_at) = some (leb submitted_at deadline.deadline_at)
window_value _ _ = none

abbrev pub payable :
    CaseContext
    → OrderSnapshot
    → ItemPolicyFacts
    → OrderLineItem
    → (cancelled refunded : Bool) → Bool
payable context order details item cancelled refunded =
    not cancelled
    && not refunded
    && (is_none details.reservation_case_ref
        || same_option details.reservation_case_ref (some context.case_ref))
    && ltb 0 item.refundable_amount
    && leb item.refundable_amount order.refundable_amount_max

abbrev pub payment_value :
    CaseContext → OrderSnapshot → Option ItemPolicyFacts → Option OrderLineItem → Option Bool
payment_value context order (some details) (some item) = elim details.cancelled [
  | none ↦ none
  | some cancelled ↦ elim details.refunded [
    | none ↦ none
    | some refunded ↦ some (payable context order details item cancelled refunded)
  ]
]
payment_value context order _ _ = none

abbrev pub receipt_value : Option ItemPolicyFacts → Option Bool
receipt_value none = none
receipt_value (some details) = elim details.delivery_status [
  | unknown_delivery ↦ none
  | received ↦ some (not (is_none details.received_at) && ltb 0 (length details.shipment_refs))
  | _ ↦ some false
]

abbrev pub spec_value : Option ItemPolicyFacts → Option Bool
spec_value none = none
spec_value (some details) = some (
    not (is_none details.transaction_version)
    && not (is_none details.purchased_sku)
    && not (is_none details.purchased_specification))

abbrev pub nondelivery_value : Option ItemPolicyFacts → Option Bool
nondelivery_value none = none
nondelivery_value (some details) = elim details.delivery_status [
  | unknown_delivery ↦ none
  | confirmed_undelivered ↦ some (not (is_none details.investigation_ref))
  | _ ↦ some false
]

abbrev pub split_value : Option ItemPolicyFacts → Option Bool
split_value none = none
split_value (some details) = elim details.pending_split_delivery [
  | none ↦ none
  | some pending ↦ some (not pending)
]

abbrev pub source_of : Option ItemPolicyFacts → (ItemPolicyFacts → Option Ref) → Option Ref
source_of none f = none
source_of (some details) f = f details

-- `_predicate_values(...)[predicate]`
unfoldable pub predicate_value :
    CaseContext
    → OrderSnapshot
    → (item_id : Ref) → PolicyPathId
    → (scope : List Ref) → SystemPredicate
    → PredicateFinding
predicate_value context order item path scope p = record {
  predicate = p;
  status = found (value p);
  source_ref = source p;
}
  where
    details : Option ItemPolicyFacts
    details = details_of order item

    deadline : Option PathDeadline
    deadline = deadline_of details path

    value : SystemPredicate → Option Bool
    value transaction_in_scope = in_scope_value context order order.policy_facts
    value single_refundable_item = single_item_value details (item_of order item) scope
    value no_exception_established = no_exception_value details
    value within_path_window = window_value deadline context.first_valid_submitted_at
    value payment_scope_available = payment_value context order details (item_of order item)
    value receipt_confirmed = receipt_value details
    value purchase_spec_available = spec_value details
    value nondelivery_confirmed = nondelivery_value details
    value no_pending_split_delivery = split_value details

    source : SystemPredicate → Option Ref
    source transaction_in_scope = elim order.policy_facts [
      | none ↦ none
      | some facts ↦ some facts.source_ref
    ]
    source no_exception_established = source_of details (λ d. d.exception_source_ref)
    source within_path_window = elim deadline [ none ↦ none | some d ↦ some d.rule_source_ref ]
    source nondelivery_confirmed = source_of details (λ d. d.investigation_ref)
    source _ = source_of details (λ d. some d.source_ref)
