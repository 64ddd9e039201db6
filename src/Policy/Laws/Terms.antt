-- ===== src/Policy/Laws/Terms.antt =====
-- What makes an item refundable on a path, said of the facts themselves.
use shopee_hachathonteam.Prelude.{
  ◌≡◌, ◌⊎◌, true, false, none, some, List, Ref, Instant, is_none, length, ◌≤◌, ◌<◌,
}
use shopee_hachathonteam.Policy.{
  PolicyPathId, cooling_off, damaged_on_arrival, wrong_item, undelivered_item, OrderSnapshot,
  CaseContext, PolicyPath, ItemPolicyFacts, OrderLineItem, PathDeadline, OrderPolicyFacts,
  confirmed_undelivered, received, shopee_tw, business, mall, general_physical, none_confirmed,
}
use shopee_hachathonteam.Policy.Predicates.{item_of, details_of, deadline_of}

-- The transaction is one that the policy is for.
pub record IsInScope (context : CaseContext) (order : OrderSnapshot) (facts : OrderPolicyFacts)
    : Type 0 where
  pub on_platform : facts.platform ≡ shopee_tw
  pub by_seller : (facts.seller_type ≡ business) ⊎ (facts.seller_type ≡ mall)
  pub physical : facts.product_type ≡ general_physical
  pub domestic : facts.cross_border ≡ some false
  pub in_market : context.is_tw ≡ true
  pub in_currency : order.is_twd ≡ true

-- The facts let the item be refunded: it is one unit and no bundle, with no exception to its return,
-- neither cancelled nor refunded nor reserved for another case, and with an amount that the order still
-- covers.
pub record IsPayable (context : CaseContext) (order : OrderSnapshot) (details : ItemPolicyFacts)
    (line : OrderLineItem) : Type 0 where
  pub one_unit : line.quantity ≡ 1
  pub returnable : details.returnable_quantity ≡ some 1
  pub no_bundle : details.is_bundle ≡ some false
  pub no_exception : details.exception ≡ none_confirmed
  pub exception_sourced : is_none details.exception_source_ref ≡ false
  pub not_cancelled : details.cancelled ≡ some false
  pub not_refunded : details.refunded ≡ some false
  pub unreserved :
      (details.reservation_case_ref ≡ none) ⊎ (details.reservation_case_ref ≡ some context.case_ref)
  pub positive : 0 < line.refundable_amount
  pub covered : line.refundable_amount ≤ order.refundable_amount_max

-- What the facts must say of the delivery or the purchase for this path.
abbrev pub IsSuited : ItemPolicyFacts → PolicyPathId → Type 0
IsSuited details cooling_off =
    (details.delivery_status ≡ received)
    × (is_none details.received_at ≡ false)
    × (0 < length details.shipment_refs)
IsSuited details damaged_on_arrival = Unit
IsSuited details wrong_item =
    (is_none details.transaction_version ≡ false)
    × (is_none details.purchased_sku ≡ false)
    × (is_none details.purchased_specification ≡ false)
IsSuited details undelivered_item =
    (details.delivery_status ≡ confirmed_undelivered)
    × (is_none details.investigation_ref ≡ false)
    × (details.pending_split_delivery ≡ some false)

-- The path is in effect at this time.
abbrev pub IsEffective : PolicyPath → Instant → Type 0
IsEffective path at =
    (path.effective_from ≤ at)
    × ((path.effective_to ≡ none)
        ⊎ ((last : Instant) × (path.effective_to ≡ some last) × (at ≤ last)))

-- The item may be refunded on the path, by the facts of the order and the time of the submission.
pub record IsRefundable (context : CaseContext) (order : OrderSnapshot) (scope : List Ref)
    (item : Ref) (path : PolicyPath) : Type 0 where
  pub facts : OrderPolicyFacts
  pub details : ItemPolicyFacts
  pub line : OrderLineItem
  pub deadline : PathDeadline
  pub at : Instant
  pub with_facts : order.policy_facts ≡ some facts
  pub with_details : details_of order item ≡ some details
  pub with_line : item_of order item ≡ some line
  pub with_deadline : deadline_of (some details) path.path_id ≡ some deadline
  pub of_item : (details.line_item_id ≡ item) × (line.line_item_id ≡ item)
  pub of_path : deadline.policy_path_id ≡ path.path_id
  pub submitted : context.first_valid_submitted_at ≡ some at
  pub single : length scope ≡ 1
  pub in_time : at ≤ deadline.deadline_at
  pub effective : IsEffective path at
  pub is_in_scope : IsInScope context order facts
  pub is_payable : IsPayable context order details line
  pub is_suited : IsSuited details path.path_id
