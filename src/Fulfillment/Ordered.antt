-- ===== src/Fulfillment/Ordered.antt =====
-- The order of a return: consent, arrival, inspection, and only then the execution of the refund.
pub mod Rows
pub mod Events
pub mod Operations
pub mod Released
use shopee_hachathonteam.Prelude.{
  ℕ, ◌≡◌, ◌≤◌, refl, inl, inr, ◌⊎◌, Bool, true, false, ◌&&◌, ◌||◌, not, Option, none, some, List,
  [], ◌∷◌, Ref, Instant, ◌==◌, ltb, leb, is_none, mem, same_option, if◌then◌else◌, length,
}
use shopee_hachathonteam.Case.{
  CaseStatus, awaiting_return_confirmation, awaiting_return, awaiting_return_inspection, executing,
  resolved, escalated, same_status,
}
use shopee_hachathonteam.Fulfillment.{
  Authorization, AuthorizationPayload, Consent, Receipt, ReturnPayload, inspection_passed,
  receipt_in,
}
use shopee_hachathonteam.Fulfillment.Returns.{is_arrival}
use shopee_hachathonteam.Fulfillment.Release.{Canonical, consent_binds, passes}

-- The buyer agreed to the return that the authorization requires.
abbrev pub is_consented : Canonical → Authorization → Bool
is_consented canonical r = elim r.confirmation_payload [
  | none ↦ false
  | some consent ↦ consent_binds canonical r.authorization_ref r.payload.requirement_hash consent
]

-- A receipt of the authorization's own case and item.
abbrev pub is_own : Authorization → Receipt → Bool
is_own r p =
    (p.event.authorization_ref == r.authorization_ref)
    && (p.event.case_ref == r.case_ref)
    && mem p.event.line_item_id r.payload.resolution.line_item_ids

-- The receipt of the accepted arrival.
abbrev pub is_arrived : List Receipt → Authorization → Bool
is_arrived receipts r = elim r.arrived_event_id [
  | none ↦ false
  | some id ↦ elim (receipt_in r.authorization_ref id receipts) [
    | none ↦ false
    | some p ↦ is_own r p && is_arrival p.event.payload
  ]
]

-- The receipt of an inspection that passed, of the accepted arrival.
abbrev pub is_inspected : List Receipt → Authorization → Bool
is_inspected receipts r = elim r.inspection_event_id [
  | none ↦ false
  | some id ↦ elim (receipt_in r.authorization_ref id receipts) [
    | none ↦ false
    | some p ↦ is_own r p && passes p.event.payload r.arrived_event_id
  ]
]

-- What an authorization of a state must have.
abbrev pub is_staged : Canonical → List Receipt → Authorization → CaseStatus → Bool
is_staged canonical receipts r awaiting_return_confirmation = is_none r.arrived_event_id
is_staged canonical receipts r awaiting_return =
    is_consented canonical r && is_none r.arrived_event_id
is_staged canonical receipts r awaiting_return_inspection =
    is_consented canonical r && is_arrived receipts r
is_staged canonical receipts r executing =
    not r.payload.resolution.return_required
    || (is_consented canonical r && is_arrived receipts r && is_inspected receipts r)
is_staged canonical receipts r _ = true

-- A row that is well-formed and has what its state must have.
abbrev pub is_ordered :
    (content_hash : AuthorizationPayload → Ref) → Canonical → List Receipt → Authorization → Bool
is_ordered content_hash canonical receipts r =
    (r.payload_hash == content_hash r.payload)
    && (r.case_ref == r.payload.resolution.case_ref)
    && (length r.payload.resolution.line_item_ids == 1)
    && is_staged canonical receipts r r.state
