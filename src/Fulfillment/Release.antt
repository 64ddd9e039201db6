-- ===== src/Fulfillment/Release.antt =====
-- Opening an authorization, the check before the refund is executed, and the fulfillment worker: the
-- end of `register_authorization`, `check_release` and `FulfillmentWorker.run_once` of
-- apps/api/src/return_agent/capabilities/fulfillment.py.
use shopee_hachathonteam.Prelude.{
  ℕ, ◌+◌, Bool, true, false, ◌&&◌, ◌||◌, not, Option, none, some, List, [], ◌∷◌, Ref, Instant,
  Result, ok, ◌>>=◌, ◌>>◌, raise_if, or_raise, ◌==◌, leb, is_none, mem, same_option, if◌then◌else◌,
  any_of, length, first_of?,
}
use shopee_hachathonteam.Case.{
  CaseStatus, awaiting_return_confirmation, awaiting_return, executing, resolved, escalated,
  same_status, integrity_error,
}
use shopee_hachathonteam.Fulfillment.{
  Authorization, AuthorizationPayload, Resolution, Consent, return_consent, policy_consent,
  refund_authorization_rejected, PaymentStatus, payment_succeeded, payment_rejected, ReturnPayload,
  inspection_passed, ReturnEvent, Receipt, Books, FulfillmentError, authorization_mismatch,
  authorization_invalid, config_changed, fulfillment_pending, receipt_missing, inspection_mismatch,
  consent_mismatch, ownership_changed, store_error, authorization_by, save_authorization,
  receipt_in, same_resolution,
}
use shopee_hachathonteam.Fulfillment.Returns.{transition}
use shopee_hachathonteam.Refund.{Reservation, owner}

-- The stored response of a policy confirmation, by its request.
abbrev pub Canonical : Type 0
Canonical = Ref → Option Ref

-- The consent that a proposal already carries: an accepted policy confirmation with this requirement.
unfoldable pub consent_of :
    Canonical → (requirement_hash : Ref) → Option Consent → Result FulfillmentError (Option Consent)
consent_of canonical hash none = ok none
consent_of canonical hash (some (return_consent _ _ _ _)) = ok none
consent_of canonical hash (some (policy_consent request h accepted content)) =
    if accepted && (h == hash)
    then raise_if (not (same_option (canonical request) (some content))) consent_mismatch
      >> ok (some (policy_consent request h accepted content))
    else ok none

abbrev pub opening_state : (required : Bool) → Option Consent → CaseStatus
opening_state false consent = executing
opening_state true none = awaiting_return_confirmation
opening_state true (some consent) = awaiting_return

-- The unique columns of the table.
abbrev pub collides : Authorization → Authorization → Bool
collides a b = a.case_ref == b.case_ref || a.execution_ref == b.execution_ref

-- The end of `register_authorization`, for a proposal that is verified.
unfoldable pub authorize :
    (content_hash : AuthorizationPayload → Ref)
    → Canonical
    → Books
    → (authorization_ref execution_ref : Ref) → AuthorizationPayload
    → Option Consent
    → (reason : Ref) → Instant
    → Result FulfillmentError Books
unfolding authorization_by consent_of transition
authorize content_hash canonical b ref execution payload confirmation reason now = do
  raise_if (not (length payload.resolution.line_item_ids == 1)) authorization_invalid
  existing (authorization_by ref b.authorizations)
  where
    existing : Option Authorization → Result FulfillmentError Books
    existing (some a) =
        raise_if (not (a.payload_hash == content_hash payload)) authorization_mismatch >> ok b
    existing none = do
      consent ← consent_of canonical payload.requirement_hash confirmation
      let row : Authorization = record {
        authorization_ref = ref;
        case_ref = payload.resolution.case_ref;
        execution_ref = execution;
        payload = payload;
        payload_hash = content_hash payload;
        state = opening_state payload.resolution.return_required consent;
        confirmation_payload = consent;
        arrived_event_id = none;
        inspection_event_id = none;
        execution_result = none;
        reason = none;
        lease_owner = none;
        lease_until = none;
        created_at = now;
      }
      raise_if (any_of (collides row) b.authorizations) (store_error integrity_error)
      transition (record b { authorizations = row ∷ b.authorizations }) row row.state reason now

-- The authorization of a case, which is unique.
unfoldable pub authorization_of_case : Ref → List Authorization → Option Authorization
authorization_of_case ref rows = first_of? (λ a. a.case_ref == ref) rows

-- The consent that binds a return: the buyer's answer, or a persisted policy confirmation.
abbrev pub consent_binds : Canonical → (authorization_ref requirement_hash : Ref) → Consent → Bool
consent_binds canonical ref hash (return_consent a h accept key) =
    accept && (a == ref) && (h == hash)
consent_binds canonical ref hash (policy_consent request h accepted content) =
    accepted && same_option (canonical request) (some content) && (h == hash)

-- `event.event_type == "INSPECTION_PASSED"` with the arrival of the authorization.
abbrev pub passes : ReturnPayload → Option Ref → Bool
passes (inspection_passed arrived _) expected = same_option (some arrived) expected
passes _ expected = false

abbrev pub is_bound : Authorization → Resolution → ReturnEvent → Bool
is_bound r resolution e =
    (length resolution.line_item_ids == 1)
    && mem e.line_item_id resolution.line_item_ids
    && (e.case_ref == resolution.case_ref)
    && (e.authorization_ref == r.authorization_ref)
    && passes e.payload r.arrived_event_id

unfoldable pub check_return :
    Canonical → List Receipt → Authorization → Resolution → Result FulfillmentError (Unit {0})
unfolding receipt_in
check_return canonical receipts r resolution = do
  consent ← or_raise r.confirmation_payload fulfillment_pending
  raise_if (is_none r.arrived_event_id) fulfillment_pending
  inspection ← or_raise r.inspection_event_id fulfillment_pending
  receipt ← or_raise (receipt_in r.authorization_ref inspection receipts) receipt_missing
  raise_if (not (is_bound r resolution receipt.event)) inspection_mismatch
  raise_if (not (consent_binds canonical r.authorization_ref r.payload.requirement_hash consent))
      consent_mismatch

-- The loop over the items: each is reserved by the authorization's execution.
unfoldable pub check_owned :
    (order_ref execution_ref : Ref)
    → List Reservation
    → List Ref
    → Result FulfillmentError (Unit {0})
check_owned order execution reservations [] = ok tt
check_owned order execution reservations (item ∷ items) =
    raise_if (not (same_option (owner order item reservations) (some execution))) ownership_changed
    >> check_owned order execution reservations items

unfoldable pub check_release :
    (content_hash : AuthorizationPayload → Ref)
    → Canonical
    → Books
    → List Reservation
    → Resolution
    → (monetary_fingerprint risk_fingerprint : Ref) → Result FulfillmentError (Unit {0})
unfolding authorization_of_case check_return check_owned
check_release content_hash canonical b reservations resolution monetary risk = do
  r ← or_raise (authorization_of_case resolution.case_ref b.authorizations) authorization_invalid
  raise_if
      (not (r.payload_hash == content_hash r.payload)
        || not (same_resolution r.payload.resolution resolution))
      authorization_invalid
  raise_if
      (not (r.payload.monetary_config_hash == monetary) || not (r.payload.risk_config_hash == risk))
      config_changed
  raise_if (not (same_status r.state executing)) fulfillment_pending
  if resolution.return_required then check_return canonical b.receipts r resolution else ok tt
  check_owned r.payload.order_ref r.execution_ref reservations resolution.line_item_ids

-- `lease_until.is_(None) or lease_until <= now`
abbrev pub is_ready : Instant → Authorization → Bool
is_ready now a =
    same_status a.state executing && elim a.lease_until [ none ↦ true | some until ↦ leb until now ]

-- The oldest row that is ready and that no other transaction has locked.
unfoldable pub next_ready :
    (is_locked : Ref → Bool) → Instant → List Authorization → Option Authorization
next_ready is_locked now [] = none
next_ready is_locked now (a ∷ rows) =
    let rest = next_ready is_locked now rows in
    if is_ready now a && not (is_locked a.authorization_ref)
    then elim rest [
      | none ↦ some a
      | some r ↦ some (if leb a.created_at r.created_at then a else r)
    ]
    else rest

-- The first transaction of `run_once`: the row that the worker leases, if any.
unfoldable pub lease_next :
    (is_locked : Ref → Bool)
    → (owner : Ref) → (lease_seconds : ℕ) → Instant
    → Books
    → Option Authorization × Books
unfolding next_ready save_authorization
lease_next is_locked worker lease now b = leased (next_ready is_locked now b.authorizations)
  where
    leased : Option Authorization → Option Authorization × Books
    leased none = (none, b)
    leased (some a) =
        let a' : Authorization = record a {
          lease_owner = some worker;
          lease_until = some (now + lease);
        } in
        (some a', record b { authorizations = save_authorization a' b.authorizations })

abbrev pub is_succeeded : PaymentStatus → Bool
is_succeeded payment_succeeded = true
is_succeeded payment_rejected = false

-- The second transaction of `run_once`, with the result of the execution.
unfoldable pub settle :
    (owner authorization_ref : Ref)
    → PaymentStatus
    → (reason : Ref) → Instant
    → Books
    → Result FulfillmentError Books
unfolding authorization_by transition
settle worker ref result reason now b = do
  r ← or_raise (authorization_by ref b.authorizations) authorization_invalid
  let row : Authorization = record r {
    execution_result = some result;
    reason = if is_succeeded result then none else some refund_authorization_rejected;
    lease_owner = none;
    lease_until = none;
  }
  let settled : Result FulfillmentError Books =
      transition b row (if is_succeeded result then resolved else escalated) reason now
  if same_status r.state executing && same_option r.lease_owner (some worker) then settled else ok b
