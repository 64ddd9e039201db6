-- ===== src/Fulfillment.antt =====
-- Return fulfillment: the tables `return_authorizations` and `return_event_receipts`
-- (apps/api/src/return_agent/db/models.py) and the messages of
-- apps/contracts/src/return_agent_contracts/fulfillment.py. The digest of a payload is a parameter of
-- the operations that compute it.
pub mod Returns
pub mod Release
pub mod Ordered
pub mod Replay
pub mod Tests
use shopee_hachathonteam.Prelude.{
  ℕ, Bool, true, false, ◌&&◌, ◌||◌, not, Option, none, some, List, [], ◌∷◌, Ref, Instant, ◌==◌,
  same_list, if◌then◌else◌, first_of?,
}
use shopee_hachathonteam.Case.{CaseStatus, Tables, StoreError}

-- The parts of a `ResolutionHandoff` that fulfillment reads; `body` stands for the rest.
pub record Resolution : Type 0 where
  pub handoff_id : Ref
  pub case_ref : Ref
  pub line_item_ids : List Ref
  pub return_required : Bool
  pub body : Ref

-- `record.payload`; the order of the pinned context is its `order_ref`.
pub record AuthorizationPayload : Type 0 where
  pub resolution : Resolution
  pub order_ref : Ref
  pub requirement_hash : Ref
  pub monetary_config_hash : Ref
  pub risk_config_hash : Ref

-- `confirmation_payload`: the buyer's answer to the return, or the policy confirmation of the proposal.
pub data Consent : Type 0 where
  return_consent :
      (authorization_ref return_requirement_hash : Ref)
      → (accept : Bool) → (idempotency_key : Ref) → Consent
  policy_consent :
      (request_ref return_requirement_hash : Ref) → (accepted : Bool) → (content : Ref) → Consent

pub data PaymentStatus : Type 0 where
  payment_succeeded payment_rejected : PaymentStatus

pub data EscalationReason : Type 0 where
  return_disputed return_late refund_authorization_rejected : EscalationReason

-- `state` is a status of the case, stored as its text.
pub record Authorization : Type 0 where
  pub authorization_ref : Ref
  pub case_ref : Ref
  pub execution_ref : Ref
  pub payload : AuthorizationPayload
  pub payload_hash : Ref
  pub state : CaseStatus
  pub confirmation_payload : Option Consent
  pub arrived_event_id : Option Ref
  pub inspection_event_id : Option Ref
  pub execution_result : Option PaymentStatus
  pub reason : Option EscalationReason
  pub lease_owner : Option Ref
  pub lease_until : Option Instant
  pub created_at : Instant

pub data ReturnPayload : Type 0 where
  return_arrived : (tracking_ref : Ref) → ReturnPayload
  inspection_passed inspection_disputed : (arrived_event_id inspection_ref : Ref) → ReturnPayload
  return_overdue : (deadline_ref : Ref) → ReturnPayload

pub record ReturnEvent : Type 0 where
  pub event_id : Ref
  pub producer_id : Ref
  pub case_ref : Ref
  pub authorization_ref : Ref
  pub line_item_id : Ref
  pub occurred_at : Instant
  pub payload : ReturnPayload

-- A row with its event and the state that its receipt reports.
pub record Receipt : Type 0 where
  pub producer_id : Ref
  pub event_id : Ref
  pub authorization_ref : Ref
  pub event : ReturnEvent
  pub accepted_at : Instant
  pub state : CaseStatus

pub record Books : Type 0 where
  pub authorizations : List Authorization
  pub receipts : List Receipt
  pub tables : Tables

pub data FulfillmentError : Type 0 where
  identity_reused authorization_mismatch reference_used item_or_time_mismatch : FulfillmentError
  arrival_out_of_order inspection_out_of_order arrival_binding_mismatch overdue_out_of_order :
      FulfillmentError
  confirmation_mismatch confirmation_recorded confirmation_inactive : FulfillmentError
  authorization_invalid config_changed fulfillment_pending receipt_missing : FulfillmentError
  inspection_mismatch consent_mismatch ownership_changed : FulfillmentError
  store_error : (error : StoreError) → FulfillmentError

unfoldable pub authorization_by : Ref → List Authorization → Option Authorization
authorization_by ref [] = none
authorization_by ref (a ∷ rows) =
    if a.authorization_ref == ref then some a else authorization_by ref rows

-- An UPDATE of the row that has the record's key.
unfoldable pub save_authorization : Authorization → List Authorization → List Authorization
save_authorization r [] = []
save_authorization r (a ∷ rows) =
    if a.authorization_ref == r.authorization_ref then r ∷ rows else a ∷ save_authorization r rows

-- The row of a producer's event.
unfoldable pub receipt_of : (producer_id event_id : Ref) → List Receipt → Option Receipt
receipt_of producer id rs = first_of? (λ r. (r.producer_id == producer) && (r.event_id == id)) rs

-- The row of an event of an authorization.
unfoldable pub receipt_in : (authorization_ref event_id : Ref) → List Receipt → Option Receipt
receipt_in authorization id rs =
    first_of? (λ r. (r.authorization_ref == authorization) && (r.event_id == id)) rs

abbrev pub same_payload : ReturnPayload → ReturnPayload → Bool
same_payload (return_arrived a) (return_arrived b) = a == b
same_payload (inspection_passed a i) (inspection_passed b j) = (a == b) && (i == j)
same_payload (inspection_disputed a i) (inspection_disputed b j) = (a == b) && (i == j)
same_payload (return_overdue a) (return_overdue b) = a == b
same_payload _ _ = false

-- `event_payload == raw`
abbrev pub same_event : ReturnEvent → ReturnEvent → Bool
same_event a b =
    (a.event_id == b.event_id)
    && (a.producer_id == b.producer_id)
    && (a.case_ref == b.case_ref)
    && (a.authorization_ref == b.authorization_ref)
    && (a.line_item_id == b.line_item_id)
    && (a.occurred_at == b.occurred_at)
    && same_payload a.payload b.payload

abbrev pub same_flag : Bool → Bool → Bool
same_flag true b = b
same_flag false b = not b

abbrev pub same_resolution : Resolution → Resolution → Bool
same_resolution a b =
    (a.handoff_id == b.handoff_id)
    && (a.case_ref == b.case_ref)
    && same_list a.line_item_ids b.line_item_ids
    && same_flag a.return_required b.return_required
    && (a.body == b.body)
