-- ===== src/Policy/Tests.antt =====
-- Policy v2 on one order with a damaged item.
use shopee_hachathonteam.Prelude.{
  ◌≡◌, refl, inl, true, false, none, some, List, [], ◌∷◌, map, Ref, ok, mem, Any,
}
use shopee_hachathonteam.Policy.{
  cooling_off, damaged_on_arrival, undelivered_item, item_physically_damaged,
  damage_present_on_arrival, supported, model_judgment, shopee_tw, mall, general_physical, received,
  none_confirmed, ItemPolicyFacts, OrderPolicyFacts, OrderLineItem, OrderSnapshot, CaseContext,
  ClaimFinding, PolicyPath, PolicyBundle, path_predicates, common_predicates, fixed_logic,
}
use shopee_hachathonteam.Policy.Predicates.{predicate_value}
use shopee_hachathonteam.Policy.Evaluate.{
  eligible, ItemPolicyEvaluation, evaluate_item, evaluate_policy, evaluate_items, evaluate_paths,
  failures_of, not_passed, claim_statuses, finding_for, evidence_claim, has_duplicates,
  repeats_pair,
}
use shopee_hachathonteam.Policy.Laws.Facts.{eligible-IsPayable}
use shopee_hachathonteam.Policy.Laws.Terms.{IsRefundable}
use shopee_hachathonteam.Policy.Laws.Outcome.{IsFounded, evaluate_policy-eligible}

abbrev pub facts_7 : ItemPolicyFacts
facts_7 = record {
  line_item_id = 7;
  source_ref = 30;
  transaction_version = some 1;
  purchased_sku = some 2;
  purchased_specification = some 3;
  delivery_status = received;
  received_at = some 5;
  shipment_refs = 40 ∷ [];
  investigation_ref = none;
  pending_split_delivery = some false;
  returnable_quantity = some 1;
  exception = none_confirmed;
  exception_source_ref = some 31;
  is_bundle = some false;
  cancelled = some false;
  refunded = some false;
  reservation_case_ref = none;
  deadlines =
      record { policy_path_id = damaged_on_arrival; deadline_at = 20; rule_source_ref = 32 }
      ∷ record { policy_path_id = undelivered_item; deadline_at = 20; rule_source_ref = 33 }
      ∷ record { policy_path_id = cooling_off; deadline_at = 9; rule_source_ref = 34 }
      ∷ [];
}

abbrev facts : ItemPolicyFacts → OrderPolicyFacts
facts item = record {
  platform = shopee_tw;
  seller_type = mall;
  product_type = general_physical;
  cross_border = some false;
  source_ref = 36;
  items = item ∷ [];
}

abbrev line_7 : OrderLineItem
line_7 = record { line_item_id = 7; quantity = 1; refundable_amount = 300 }

abbrev pub order : ItemPolicyFacts → OrderSnapshot
order item = record {
  order_ref = 50;
  is_twd = true;
  line_items = line_7 ∷ [];
  refundable_amount_max = 300;
  policy_facts = some (facts item);
}

abbrev pub context : CaseContext
context = record {
  case_ref = 10;
  order_ref = 50;
  is_tw = true;
  is_v2 = true;
  first_valid_submitted_at = some 12;
}

abbrev damaged : PolicyPath
damaged = record {
  path_id = damaged_on_arrival;
  required_claim_ids = item_physically_damaged ∷ damage_present_on_arrival ∷ [];
  system_predicates = path_predicates damaged_on_arrival;
  return_policy = model_judgment;
  effective_from = 1;
  effective_to = none;
}

abbrev pub bundle : PolicyBundle
bundle = record { is_v2 = true; paths = damaged ∷ [] }

abbrev pub findings : List ClaimFinding
findings =
    record {
      claim_id = item_physically_damaged;
      subject = 7;
      status = supported;
      supporting_evidence_refs = 60 ∷ [];
    }
    ∷ record {
      claim_id = damage_present_on_arrival;
      subject = 7;
      status = supported;
      supporting_evidence_refs = 60 ∷ 61 ∷ [];
    }
    ∷ []

abbrev pub evidence : List Ref
evidence = 60 ∷ 61 ∷ []

abbrev pub outcome : ItemPolicyEvaluation
outcome = record {
  line_item_id = 7;
  path_id = damaged_on_arrival;
  status = eligible;
  predicates =
      map (predicate_value context (order facts_7) 7 damaged_on_arrival (7 ∷ [])) common_predicates;
  claim_refs = item_physically_damaged ∷ damage_present_on_arrival ∷ [];
  reason_codes = [];
}

evaluated : evaluate_item context (order facts_7) (7 ∷ []) findings evidence 7 damaged ≡ ok outcome
unfolding evaluate_item failures_of not_passed predicate_value claim_statuses finding_for
    evidence_claim
evaluated = refl

eligible-IsPayable_example : IsRefundable context (order facts_7) (7 ∷ []) 7 damaged
unfolding fixed_logic
eligible-IsPayable_example =
    eligible-IsPayable context (order facts_7) (7 ∷ []) findings evidence 7 damaged {o = outcome}
      refl evaluated refl

pub evaluated_order :
    evaluate_policy context (order facts_7) bundle (7 ∷ []) findings evidence ≡ ok (outcome ∷ [])
unfolding evaluate_policy evaluate_items evaluate_paths evaluate_item failures_of not_passed
    predicate_value claim_statuses finding_for evidence_claim has_duplicates repeats_pair
evaluated_order = refl

evaluate_policy-eligible_example :
    (mem outcome.line_item_id (7 ∷ []) ≡ true)
    × Any (IsFounded context (order facts_7) (7 ∷ []) findings evidence outcome) bundle.paths
unfolding fixed_logic
evaluate_policy-eligible_example =
    evaluate_policy-eligible context (order facts_7) bundle (7 ∷ []) findings evidence outcome
      {os = outcome ∷ []} (refl, tt) evaluated_order (inl refl) refl
