-- ===== src/Fulfillment/Returns.antt =====
-- The buyer's confirmation of a return and the trusted return events: `transition` and
-- `accept_return_event` of apps/api/src/return_agent/capabilities/fulfillment.py, and `confirm_return`
-- of apps/api/src/return_agent/policy_routes.py.
use shopee_hachathonteam.Prelude.{
  Bool, true, false, ◌&&◌, ◌||◌, not, Option, none, some, List, ◌∷◌, Ref, Instant, Result, ok, err,
  ◌>>=◌, ◌>>◌, raise_if, or_raise, ◌==◌, ltb, is_none, mem, same_option, if◌then◌else◌,
}
use shopee_hachathonteam.Case.{
  CaseStatus, awaiting_return_confirmation, awaiting_return, awaiting_return_inspection, executing,
  resolved, escalated, value, same_status, Tables, StoreError, agent_event, lock, append_event,
}
use shopee_hachathonteam.Case as Case
use shopee_hachathonteam.Fulfillment.{
  Authorization, AuthorizationPayload, Consent, return_consent, policy_consent, return_disputed,
  return_late, ReturnPayload, return_arrived, inspection_passed, inspection_disputed,
  return_overdue, ReturnEvent, Receipt, Books, FulfillmentError, identity_reused,
  authorization_mismatch, reference_used, item_or_time_mismatch, arrival_out_of_order,
  inspection_out_of_order, arrival_binding_mismatch, overdue_out_of_order, confirmation_mismatch,
  confirmation_recorded, confirmation_inactive, store_error, authorization_by, save_authorization,
  receipt_of, receipt_in, same_event, same_flag,
}

-- An error of the case store leaves the transaction as it is.
abbrev pub from_store {ℓ} : {A : Type ℓ} → Result StoreError A → Result FulfillmentError A
from_store (ok a) = ok a
from_store (err e) = err (store_error e)

abbrev pub is_final : CaseStatus → Bool
is_final s = same_status s resolved || same_status s escalated

-- The case's part of `transition`: its status, and the events that tell the buyer. `reason` is the
-- content of the state change.
unfoldable pub move_case :
    Tables
    → (case_ref authorization_ref : Ref) → CaseStatus
    → (reason : Ref) → Instant
    → Result StoreError Tables
move_case t case_ref authorization_ref target reason now = do
  case ← lock t case_ref
  let moved : Result StoreError Tables = do
    t1 ← Case.transition t case_ref target now
    t2 ← append_event t1 case_ref (agent_event false reason)
    if is_final target
        then append_event t2 case_ref (agent_event false authorization_ref)
        else ok t2
  if same_status case.status target then ok t else moved

-- `transition`: the row with its new state is written with the case.
unfoldable pub transition :
    Books → Authorization → CaseStatus → (reason : Ref) → Instant → Result FulfillmentError Books
unfolding move_case save_authorization
transition b record_ target reason now = do
  t ← from_store (move_case b.tables record_.case_ref record_.authorization_ref target reason now)
  ok (record b {
    authorizations = save_authorization (record record_ { state = target }) b.authorizations;
    tables = t;
  })

-- `record.confirmation_payload.get("input") == raw`
abbrev pub same_input : Consent → Ref → Ref → Bool → Ref → Bool
same_input (return_consent a h accept key) authorization hash answer idempotency =
    (a == authorization) && (h == hash) && same_flag accept answer && (key == idempotency)
same_input (policy_consent _ _ _ _) authorization hash answer idempotency = false

unfoldable pub confirm_return :
    Books
    → (case_ref authorization_ref return_requirement_hash : Ref) → (accept : Bool)
    → (idempotency_key reason : Ref) → Instant
    → Result FulfillmentError Books
unfolding authorization_by transition
confirm_return b case_ref ref hash accept key reason now = do
  r ← or_raise (authorization_by ref b.authorizations) confirmation_mismatch
  raise_if (not (r.case_ref == case_ref) || not (r.payload.requirement_hash == hash))
      confirmation_mismatch
  answered r r.confirmation_payload
  where
    answered : Authorization → Option Consent → Result FulfillmentError Books
    answered r (some consent) =
        raise_if (not (same_input consent ref hash accept key)) confirmation_recorded >> ok b
    answered r none = do
      raise_if (not (same_status r.state awaiting_return_confirmation)) confirmation_inactive
      transition b (record r { confirmation_payload = some (return_consent ref hash accept key) })
          (if accept then awaiting_return else escalated) reason now

-- What an accepted event does to the authorization, with the state that it leads to.
unfoldable pub arrive :
    Authorization → ReturnEvent → Result FulfillmentError (Authorization × CaseStatus)
arrive r e = do
  raise_if (not (same_status r.state awaiting_return) || not (is_none r.arrived_event_id))
      arrival_out_of_order
  ok (record r { arrived_event_id = some e.event_id }, awaiting_return_inspection)

abbrev pub is_arrival : ReturnPayload → Bool
is_arrival (return_arrived _) = true
is_arrival _ = false

unfoldable pub inspect :
    List Receipt
    → Authorization
    → ReturnEvent
    → (arrived_event_id : Ref) → CaseStatus
    → Result FulfillmentError (Authorization × CaseStatus)
unfolding receipt_in
inspect receipts r e arrived target = do
  raise_if
      (not (same_status r.state awaiting_return_inspection)
        || not (same_option (some arrived) r.arrived_event_id))
      inspection_out_of_order
  arrival ← or_raise (receipt_in r.authorization_ref arrived receipts) inspection_out_of_order
  raise_if (ltb e.occurred_at arrival.event.occurred_at) inspection_out_of_order
  raise_if
      (not (is_arrival arrival.event.payload)
        || not (arrival.event.line_item_id == e.line_item_id)
        || not (arrival.event.case_ref == e.case_ref))
      arrival_binding_mismatch
  ok (record r { inspection_event_id = some e.event_id }, target)

unfoldable pub respond :
    List Receipt
    → Authorization
    → ReturnEvent
    → ReturnPayload
    → Result FulfillmentError (Authorization × CaseStatus)
unfolding arrive inspect
respond receipts r e (return_arrived _) = arrive r e
respond receipts r e (inspection_passed arrived _) = inspect receipts r e arrived executing
respond receipts r e (inspection_disputed arrived _) =
    inspect receipts (record r { reason = some return_disputed }) e arrived escalated
respond receipts r e (return_overdue _) =
    raise_if
      (not (same_status r.state awaiting_return)
        && not (same_status r.state awaiting_return_inspection))
      overdue_out_of_order
    >> ok (record r { reason = some return_late }, escalated)

-- A producer's event that is stored: a replay must have the same content.
abbrev pub replayed : Receipt → ReturnEvent → Books → Result FulfillmentError (Receipt × Books)
replayed previous e b =
    raise_if (not (same_event previous.event e)) identity_reused >> ok (previous, b)

-- The body of `accept_return_event` once the authorization is locked.
unfoldable pub accept_locked :
    (content_hash : AuthorizationPayload → Ref)
    → Books
    → ReturnEvent
    → (reason : Ref) → Instant
    → Result FulfillmentError (Receipt × Books)
unfolding authorization_by receipt_of receipt_in respond transition
accept_locked content_hash b e reason now = do
  r ← or_raise (authorization_by e.authorization_ref b.authorizations) authorization_mismatch
  raise_if (not (r.case_ref == e.case_ref) || not (r.payload_hash == content_hash r.payload))
      authorization_mismatch
  rechecked r (receipt_of e.producer_id e.event_id b.receipts)
  where
    accepted : Authorization × CaseStatus → Result FulfillmentError (Receipt × Books)
    accepted (r', target) = do
      b' ← transition b r' target reason now
      let receipt : Receipt = record {
        producer_id = e.producer_id;
        event_id = e.event_id;
        authorization_ref = r'.authorization_ref;
        event = e;
        accepted_at = now;
        state = target;
      }
      ok (receipt, record b' { receipts = receipt ∷ b'.receipts })

    rechecked : Authorization → Option Receipt → Result FulfillmentError (Receipt × Books)
    rechecked r (some previous) = replayed previous e b
    rechecked r none = do
      raise_if (not (is_none (receipt_in e.authorization_ref e.event_id b.receipts))) reference_used
      raise_if
          (not (mem e.line_item_id r.payload.resolution.line_item_ids)
            || ltb e.occurred_at r.created_at)
          item_or_time_mismatch
      changed ← respond b.receipts r e e.payload
      accepted changed

-- `accept_return_event`; `seen` is the receipt, if any, that the first look-up finds before the lock.
unfoldable pub accept_return_event :
    (content_hash : AuthorizationPayload → Ref)
    → (seen : Option Receipt) → Books
    → ReturnEvent
    → (reason : Ref) → Instant
    → Result FulfillmentError (Receipt × Books)
unfolding accept_locked
accept_return_event content_hash (some previous) b e reason now = replayed previous e b
accept_return_event content_hash none b e reason now = accept_locked content_hash b e reason now
