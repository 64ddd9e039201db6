-- ===== src/Policy.antt =====
-- Policy v2: the fixed return paths and the facts that eligibility is computed from
-- (apps/contracts/src/return_agent_contracts/policy_v2.py, with the fields of models.py it reads).
pub mod Predicates
pub mod Evaluate
pub mod Laws
pub mod Tests
use shopee_hachathonteam.Prelude.{
  ℕ, Bool, true, false, ◌&&◌, ◌||◌, not, Option, none, some, List, [], ◌∷◌, ◌++◌, map, Ref, Instant,
  ◌==◌, ltb, is_none, same_list,
}

pub data PolicyPathId : Type 0 where
  cooling_off damaged_on_arrival wrong_item undelivered_item : PolicyPathId

pub data SystemPredicate : Type 0 where
  transaction_in_scope single_refundable_item no_exception_established within_path_window :
      SystemPredicate
  receipt_confirmed purchase_spec_available nondelivery_confirmed no_pending_split_delivery
        payment_scope_available :
      SystemPredicate

-- The claims of the registry that the v2 paths require.
pub data ClaimId : Type 0 where
  item_confirmed_undelivered item_physically_damaged damage_present_on_arrival wrong_item_received :
      ClaimId

pub data ClaimStatus : Type 0 where
  supported unsupported contradicted : ClaimStatus

pub data ReturnPolicy : Type 0 where
  return_required return_not_required model_judgment : ReturnPolicy

pub data Platform : Type 0 where
  shopee_tw other_platform unknown_platform : Platform

pub data SellerType : Type 0 where
  business mall personal unknown_seller : SellerType

pub data ProductType : Type 0 where
  general_physical special unknown_product : ProductType

pub data DeliveryStatus : Type 0 where
  received confirmed_undelivered in_transit unknown_delivery : DeliveryStatus

pub data ExceptionStatus : Type 0 where
  none_confirmed established unknown_exception disputed : ExceptionStatus

pub record PathDeadline : Type 0 where
  pub policy_path_id : PolicyPathId
  pub deadline_at : Instant
  pub rule_source_ref : Ref

-- `purchased_sku` and `purchased_specification` are the two keys of `purchased_spec` that are read,
-- missing when the dictionary has an empty text for them.
pub record ItemPolicyFacts : Type 0 where
  pub line_item_id : Ref
  pub source_ref : Ref
  pub transaction_version : Option Ref
  pub purchased_sku : Option Ref
  pub purchased_specification : Option Ref
  pub delivery_status : DeliveryStatus
  pub received_at : Option Instant
  pub shipment_refs : List Ref
  pub investigation_ref : Option Ref
  pub pending_split_delivery : Option Bool
  pub returnable_quantity : Option ℕ
  pub exception : ExceptionStatus
  pub exception_source_ref : Option Ref
  pub is_bundle : Option Bool
  pub cancelled : Option Bool
  pub refunded : Option Bool
  pub reservation_case_ref : Option Ref
  pub deadlines : List PathDeadline

pub record OrderPolicyFacts : Type 0 where
  pub platform : Platform
  pub seller_type : SellerType
  pub product_type : ProductType
  pub cross_border : Option Bool
  pub source_ref : Ref
  pub items : List ItemPolicyFacts

pub record OrderLineItem : Type 0 where
  pub line_item_id : Ref
  pub quantity : ℕ
  pub refundable_amount : ℕ

-- `is_twd` is `currency == "TWD"`.
pub record OrderSnapshot : Type 0 where
  pub order_ref : Ref
  pub is_twd : Bool
  pub line_items : List OrderLineItem
  pub refundable_amount_max : ℕ
  pub policy_facts : Option OrderPolicyFacts

-- `is_tw` is `market == "TW"`, and `is_v2` is `policy_schema_version == "v2"`.
pub record CaseContext : Type 0 where
  pub case_ref : Ref
  pub order_ref : Ref
  pub is_tw : Bool
  pub is_v2 : Bool
  pub first_valid_submitted_at : Option Instant

pub record ClaimFinding : Type 0 where
  pub claim_id : ClaimId
  pub subject : Ref
  pub status : ClaimStatus
  pub supporting_evidence_refs : List Ref

pub record PolicyPath : Type 0 where
  pub path_id : PolicyPathId
  pub required_claim_ids : List ClaimId
  pub system_predicates : List SystemPredicate
  pub return_policy : ReturnPolicy
  pub effective_from : Instant
  pub effective_to : Option Instant

pub record PolicyBundle : Type 0 where
  pub is_v2 : Bool
  pub paths : List PolicyPath

-- The position of a member in its enumeration, which is what `is` compares.
abbrev pub path_rank : PolicyPathId → ℕ
path_rank cooling_off = 0
path_rank damaged_on_arrival = 1
path_rank wrong_item = 2
path_rank undelivered_item = 3

abbrev pub claim_rank : ClaimId → ℕ
claim_rank item_confirmed_undelivered = 0
claim_rank item_physically_damaged = 1
claim_rank damage_present_on_arrival = 2
claim_rank wrong_item_received = 3

abbrev pub path_claims : PolicyPathId → List ClaimId
path_claims cooling_off = []
path_claims damaged_on_arrival = item_physically_damaged ∷ damage_present_on_arrival ∷ []
path_claims wrong_item = wrong_item_received ∷ []
path_claims undelivered_item = item_confirmed_undelivered ∷ []

abbrev pub common_predicates : List SystemPredicate
common_predicates =
    transaction_in_scope ∷ single_refundable_item ∷ no_exception_established ∷ within_path_window
    ∷ payment_scope_available ∷ []

abbrev pub path_predicates : PolicyPathId → List SystemPredicate
path_predicates cooling_off = common_predicates ++ (receipt_confirmed ∷ [])
path_predicates damaged_on_arrival = common_predicates
path_predicates wrong_item = common_predicates ++ (purchase_spec_available ∷ [])
path_predicates undelivered_item =
    common_predicates ++ (nondelivery_confirmed ∷ no_pending_split_delivery ∷ [])

abbrev pub path_return_policy : PolicyPathId → ReturnPolicy
path_return_policy damaged_on_arrival = model_judgment
path_return_policy undelivered_item = return_not_required
path_return_policy _ = return_required

abbrev pub predicate_rank : SystemPredicate → ℕ
predicate_rank transaction_in_scope = 0
predicate_rank single_refundable_item = 1
predicate_rank no_exception_established = 2
predicate_rank within_path_window = 3
predicate_rank receipt_confirmed = 4
predicate_rank purchase_spec_available = 5
predicate_rank nondelivery_confirmed = 6
predicate_rank no_pending_split_delivery = 7
predicate_rank payment_scope_available = 8

abbrev pub return_policy_rank : ReturnPolicy → ℕ
return_policy_rank return_required = 0
return_policy_rank return_not_required = 1
return_policy_rank model_judgment = 2

-- The validator `_fixed_logic` of a path.
unfoldable pub fixed_logic : PolicyPath → Bool
fixed_logic path =
    same_list (map claim_rank path.required_claim_ids) (map claim_rank (path_claims path.path_id))
    && same_list (map predicate_rank path.system_predicates)
        (map predicate_rank (path_predicates path.path_id))
    && (return_policy_rank path.return_policy
        == return_policy_rank (path_return_policy path.path_id))
    && not (elim path.effective_to [ none ↦ false | some last ↦ ltb last path.effective_from ])
