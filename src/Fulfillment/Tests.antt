-- ===== src/Fulfillment/Tests.antt =====
-- One return, from the consent to the refund.
use shopee_hachathonteam.Prelude.{
  ℕ, ◌≡◌, refl, true, false, none, some, List, [], ◌∷◌, Ref, Instant, ok, err,
}
use shopee_hachathonteam.Case.{
  CaseStatus, observing, awaiting_return_confirmation, awaiting_return, awaiting_return_inspection,
  executing, CaseRecord, CaseEventRecord, agent_event, Tables, lock, append_event,
  lock_case_and_highest_sequence, highest_sequence, case_by, save_case, touch, is_allowed,
  allowed_transitions,
}
use shopee_hachathonteam.Case as Case
use shopee_hachathonteam.Refund.{Reservation}
use shopee_hachathonteam.Fulfillment.{
  AuthorizationPayload, return_consent, Authorization, ReturnEvent, return_arrived,
  inspection_passed, Receipt, Books, identity_reused, authorization_by, save_authorization,
  receipt_of, receipt_in,
}
use shopee_hachathonteam.Fulfillment.Returns.{
  confirm_return, accept_return_event, accept_locked, respond, arrive, inspect, transition,
  move_case,
}
use shopee_hachathonteam.Fulfillment.Release.{
  Canonical, authorize, consent_of, check_release, check_owned, authorization_of_case,
}
use shopee_hachathonteam.Fulfillment.Ordered.{is_consented, is_arrived, is_inspected}
use shopee_hachathonteam.Fulfillment.Ordered.Released.{
  authorizes, confirms, accepts, Reach, here, next, executing_is_inspected, check_release-owned,
}
use shopee_hachathonteam.Fulfillment.Replay.{accept_again}

abbrev hash : AuthorizationPayload → Ref
hash p = p.requirement_hash

abbrev canonical : Canonical
canonical _ = none

abbrev payload : AuthorizationPayload
payload = record {
  resolution = record {
    handoff_id = 1;
    case_ref = 10;
    line_item_ids = 7 ∷ [];
    return_required = true;
    body = 0;
  };
  order_ref = 50;
  requirement_hash = 8;
  monetary_config_hash = 2;
  risk_config_hash = 3;
}

abbrev case_of : CaseStatus → Instant → CaseRecord
case_of status now = record {
  case_ref = 10;
  thread_id = 11;
  order_ref = 50;
  user_ref = 5;
  is_v2 = true;
  status = status;
  updated_at = now;
}

abbrev told : ℕ → CaseEventRecord
told seq = record { case_ref = 10; seq = seq; payload = agent_event false 0 }

abbrev books0 : Books
books0 = record {
  authorizations = [];
  receipts = [];
  tables = record { cases = case_of observing 1 ∷ []; events = [] };
}

abbrev opened : Authorization
opened = record {
  authorization_ref = 90;
  case_ref = 10;
  execution_ref = 100;
  payload = payload;
  payload_hash = 8;
  state = awaiting_return_confirmation;
  confirmation_payload = none;
  arrived_event_id = none;
  inspection_event_id = none;
  execution_result = none;
  reason = none;
  lease_owner = none;
  lease_until = none;
  created_at = 2;
}

abbrev books1 : Books
books1 = record {
  authorizations = opened ∷ [];
  receipts = [];
  tables = record { cases = case_of awaiting_return_confirmation 2 ∷ []; events = told 1 ∷ [] };
}

abbrev agreed : Authorization
agreed = record opened {
  state = awaiting_return;
  confirmation_payload = some (return_consent 90 8 true 4);
}

abbrev books2 : Books
books2 = record {
  authorizations = agreed ∷ [];
  receipts = [];
  tables = record { cases = case_of awaiting_return 3 ∷ []; events = told 2 ∷ told 1 ∷ [] };
}

abbrev arrival : ReturnEvent
arrival = record {
  event_id = 200;
  producer_id = 6;
  case_ref = 10;
  authorization_ref = 90;
  line_item_id = 7;
  occurred_at = 5;
  payload = return_arrived 1;
}

abbrev arrival_receipt : Receipt
arrival_receipt = record {
  producer_id = 6;
  event_id = 200;
  authorization_ref = 90;
  event = arrival;
  accepted_at = 6;
  state = awaiting_return_inspection;
}

abbrev arrived : Authorization
arrived = record agreed { state = awaiting_return_inspection; arrived_event_id = some 200 }

abbrev books3 : Books
books3 = record {
  authorizations = arrived ∷ [];
  receipts = arrival_receipt ∷ [];
  tables = record {
    cases = case_of awaiting_return_inspection 6 ∷ [];
    events = told 3 ∷ told 2 ∷ told 1 ∷ [];
  };
}

abbrev inspection : ReturnEvent
inspection = record arrival { event_id = 201; occurred_at = 7; payload = inspection_passed 200 1 }

abbrev inspection_receipt : Receipt
inspection_receipt = record {
  producer_id = 6;
  event_id = 201;
  authorization_ref = 90;
  event = inspection;
  accepted_at = 8;
  state = executing;
}

abbrev released : Authorization
released = record arrived { state = executing; inspection_event_id = some 201 }

abbrev books4 : Books
books4 = record {
  authorizations = released ∷ [];
  receipts = inspection_receipt ∷ arrival_receipt ∷ [];
  tables = record {
    cases = case_of executing 8 ∷ [];
    events = told 4 ∷ told 3 ∷ told 2 ∷ told 1 ∷ [];
  };
}

step1 : authorize hash canonical books0 90 100 payload none 0 2 ≡ ok books1
unfolding authorize consent_of transition move_case lock Case.transition append_event
    lock_case_and_highest_sequence highest_sequence case_by save_case touch is_allowed
    allowed_transitions save_authorization authorization_by
step1 = refl

step2 : confirm_return books1 10 90 8 true 4 0 3 ≡ ok books2
unfolding confirm_return transition move_case lock Case.transition append_event
    lock_case_and_highest_sequence highest_sequence case_by save_case touch is_allowed
    allowed_transitions save_authorization authorization_by
step2 = refl

step3 : accept_return_event hash none books2 arrival 0 6 ≡ ok (arrival_receipt, books3)
unfolding accept_return_event accept_locked respond arrive receipt_of receipt_in transition
    move_case lock Case.transition append_event lock_case_and_highest_sequence highest_sequence
    case_by save_case touch is_allowed allowed_transitions save_authorization authorization_by
step3 = refl

step4 : accept_return_event hash none books3 inspection 0 8 ≡ ok (inspection_receipt, books4)
unfolding accept_return_event accept_locked respond inspect receipt_of receipt_in transition
    move_case lock Case.transition append_event lock_case_and_highest_sequence highest_sequence
    case_by save_case touch is_allowed allowed_transitions save_authorization authorization_by
step4 = refl

run : Reach hash canonical books0 books4
run =
    next
      (next
        (next (next here (authorizes 90 100 payload none 0 2 step1))
          (confirms 10 90 8 true 4 0 3 step2))
        (accepts none arrival 0 6 arrival_receipt step3))
      (accepts none inspection 0 8 inspection_receipt step4)

executing_is_inspected_example :
    (is_consented canonical released ≡ true)
    × (is_arrived books4.receipts released ≡ true)
    × (is_inspected books4.receipts released ≡ true)
unfolding authorization_by
executing_is_inspected_example =
    executing_is_inspected hash canonical books0 books4 90 released refl run refl refl refl

abbrev reserved : List Reservation
reserved = record { order_ref = 50; line_item_ref = 7; execution_ref = 100 } ∷ []

check_release-owned_example :
    check_release hash canonical books4 reserved payload.resolution 2 3
    ≡ check_owned 50 100 reserved (7 ∷ [])
unfolding authorization_of_case
check_release-owned_example =
    check_release-owned hash canonical books0 books4 released reserved refl run refl refl

abbrev forged : ReturnEvent
forged = record arrival { occurred_at = 6 }

seen_arrival :
    accept_return_event hash (receipt_of 6 200 books2.receipts) books2 arrival 0 6
    ≡ ok (arrival_receipt, books3)
unfolding receipt_of
seen_arrival = step3

accept_again_example :
    (accept_return_event hash (receipt_of 6 200 books3.receipts) books3 arrival 0 9
      ≡ ok (arrival_receipt, books3))
    × (accept_return_event hash (receipt_of 6 200 books3.receipts) books3 forged 0 9
        ≡ err identity_reused)
accept_again_example =
    accept_again hash books2 books3 arrival forged 0 0 6 9 arrival_receipt seen_arrival refl refl
      refl
