-- ===== src/Fulfillment/Ordered/Released.antt =====
-- From empty tables, whatever workers and buyers do: what an authorization in execution has behind it,
-- and what the check before the refund can still refuse.
use shopee_hachathonteam.Prelude.{
  ℕ, ◌≡◌, refl, inl, inr, Bool, true, Option, some, List, [], ◌∷◌, Ref, Instant, ◌==◌, ok,
  same_list, length, arith, All, Bool-cases, Option-cases, subst, first_of?,
}
use shopee_hachathonteam.Case.{executing}
use shopee_hachathonteam.Fulfillment.{
  Authorization, AuthorizationPayload, Resolution, Consent, Receipt, ReturnEvent, Books,
  PaymentStatus, authorization_by, receipt_in, same_resolution,
}
use shopee_hachathonteam.Refund.{Reservation}
use shopee_hachathonteam.Fulfillment.Returns.{confirm_return, accept_return_event}
use shopee_hachathonteam.Fulfillment.Release.{
  Canonical, authorize, lease_next, settle, check_release, check_return, check_owned,
  authorization_of_case,
}
use shopee_hachathonteam.Fulfillment.Ordered.{is_ordered, is_consented, is_arrived, is_inspected}
use shopee_hachathonteam.Fulfillment.Ordered.Rows.{All-authorization_by}
use shopee_hachathonteam.Fulfillment.Ordered.Events.{
  IsOrdered, accept_return_event-IsOrdered, confirm_return-IsOrdered,
}
use shopee_hachathonteam.Fulfillment.Ordered.Operations.{
  authorize-IsOrdered, lease_next-IsOrdered, settle-IsOrdered,
}

module _ (content_hash : AuthorizationPayload → Ref) (canonical : Canonical) where
  -- A committed transaction of fulfillment.
  pub data Step (b : Books) : Books → Type 0 where
    authorizes :
        (ref execution : Ref) (payload : AuthorizationPayload) (confirmation : Option Consent)
        (reason : Ref) (now : Instant) {b' : Books}
        → authorize content_hash canonical b ref execution payload confirmation reason now ≡ ok b'
        → Step b b'
    confirms :
        (case_ref ref hash : Ref) (accept : Bool) (key reason : Ref) (now : Instant) {b' : Books}
        → confirm_return b case_ref ref hash accept key reason now ≡ ok b'
        → Step b b'
    accepts :
        (seen : Option Receipt) (e : ReturnEvent) (reason : Ref) (now : Instant) (p : Receipt)
        {b' : Books}
        → accept_return_event content_hash seen b e reason now ≡ ok (p, b')
        → Step b b'
    leases :
        (is_locked : Ref → Bool) (worker : Ref) (lease : ℕ) (now : Instant)
        → Step b (lease_next is_locked worker lease now b).1
    settles :
        (worker ref : Ref) (result : PaymentStatus) (reason : Ref) (now : Instant) {b' : Books}
        → settle worker ref result reason now b ≡ ok b'
        → Step b b'

  pub data Reach (b : Books) : Books → Type 0 where
    here : Reach b b
    next : {c d : Books} → Reach b c → Step c d → Reach b d

  -- Every committed transaction keeps the order of every return.
  pub Step-IsOrdered :
      {b b' : Books}
      → Step b b'
      → IsOrdered content_hash canonical b
      → IsOrdered content_hash canonical b'
  Step-IsOrdered {b} {b'} (authorizes ref execution payload confirmation reason now h) o =
      authorize-IsOrdered content_hash canonical b b' ref execution payload confirmation reason now
        o h
  Step-IsOrdered {b} {b'} (confirms case_ref ref hash accept key reason now h) o =
      confirm_return-IsOrdered content_hash canonical b b' case_ref ref hash accept key reason now o
        h
  Step-IsOrdered {b} {b'} (accepts seen e reason now p h) o =
      accept_return_event-IsOrdered content_hash canonical seen b b' e reason now p o h
  Step-IsOrdered {b} (leases is_locked worker lease now) o =
      lease_next-IsOrdered content_hash canonical is_locked worker lease now b o
  Step-IsOrdered {b} {b'} (settles worker ref result reason now h) o =
      settle-IsOrdered content_hash canonical worker ref result reason now b b' o h

  Reach-IsOrdered :
      {b c : Books}
      → Reach b c
      → IsOrdered content_hash canonical b
      → IsOrdered content_hash canonical c
  Reach-IsOrdered here o = o
  Reach-IsOrdered (next r st) o = Step-IsOrdered st (Reach-IsOrdered r o)

All-first :
    {A : Type 0} (P : A → Type 0) (p : A → Bool) (xs : List A) (a : A)
    → first_of? p xs ≡ some a
    → All P xs
    → P a
All-first P p [] a h o = absurd (ground arith)
All-first P p (x ∷ xs) a h o = elim (Bool-cases (p x)) [
  | inl hit ↦ let same : x ≡ a = ground arith in subst P same o.0
  | inr miss ↦ All-first P p xs a (ground arith) o.1
]

-- From empty tables, after any transactions: an authorization that is in execution and that requires a
-- return has the buyer's consent to that return, a receipt that its item arrived, and a receipt that the
-- inspection of this arrival passed, all of them of its own case.
pub executing_is_inspected :
    (content_hash : AuthorizationPayload → Ref) (canonical : Canonical) (b c : Books) (ref : Ref)
    (r : Authorization)
    → b.authorizations ≡ []
    → Reach content_hash canonical b c
    → authorization_by ref c.authorizations ≡ some r
    → r.state ≡ executing
    → r.payload.resolution.return_required ≡ true
    → (is_consented canonical r ≡ true)
      × (is_arrived c.receipts r ≡ true)
      × (is_inspected c.receipts r ≡ true)
executing_is_inspected content_hash canonical b c ref r fresh steps there state required =
    let o = Reach-IsOrdered content_hash canonical steps (ground arith) in
    let row =
      All-authorization_by (λ r. is_ordered content_hash canonical c.receipts r ≡ true) ref
        c.authorizations r there o in
    (ground arith, ground arith, ground arith)

same_list_refl : (xs : List Ref) → same_list xs xs ≡ true
same_list_refl [] = refl
same_list_refl (x ∷ xs) = ground (arith, same_list_refl xs)

same_resolution_refl : (a : Resolution) → same_resolution a a ≡ true
same_resolution_refl a = ground (arith, same_list_refl a.line_item_ids)

-- An authorization with its consent, arrival and inspection passes the check of the return.
check_return-granted :
    (canonical : Canonical) (receipts : List Receipt) (r : Authorization)
    → is_consented canonical r ≡ true
    → is_arrived receipts r ≡ true
    → is_inspected receipts r ≡ true
    → r.case_ref ≡ r.payload.resolution.case_ref
    → length r.payload.resolution.line_item_ids ≡ 1
    → check_return canonical receipts r r.payload.resolution ≡ ok tt
unfolding check_return
check_return-granted canonical receipts r consented arrived inspected own one =
    elim (Option-cases r.confirmation_payload) [
      | inl silent ↦ absurd (ground arith)
      | inr (consent, given) ↦ elim (Option-cases r.inspection_event_id) [
        | inl early ↦ absurd (ground arith)
        | inr (id, noted) ↦ elim (Option-cases (receipt_in r.authorization_ref id receipts)) [
          | inl missing ↦ absurd (ground arith)
          | inr (p, there) ↦ ground arith
        ]
      ]
    ]

-- From empty tables, after any transactions: for the authorization in execution of a case, the check
-- before the refund, with its resolution and the configurations that it pins, refuses only when an item
-- is not reserved by its execution.
pub check_release-owned :
    (content_hash : AuthorizationPayload → Ref) (canonical : Canonical) (b c : Books)
    (r : Authorization) (reservations : List Reservation)
    → b.authorizations ≡ []
    → Reach content_hash canonical b c
    → authorization_of_case r.payload.resolution.case_ref c.authorizations ≡ some r
    → r.state ≡ executing
    → check_release content_hash canonical c reservations r.payload.resolution
        r.payload.monetary_config_hash r.payload.risk_config_hash
      ≡ check_owned r.payload.order_ref r.execution_ref reservations
          r.payload.resolution.line_item_ids
unfolding check_release check_return authorization_of_case
check_release-owned content_hash canonical b c r reservations fresh steps there state =
    let o = Reach-IsOrdered content_hash canonical steps (ground arith) in
    let row =
      All-first (λ r. is_ordered content_hash canonical c.receipts r ≡ true)
        (λ a. a.case_ref == r.payload.resolution.case_ref) c.authorizations r there o in
    elim (Bool-cases r.payload.resolution.return_required) [
      | inl required ↦ ground (
        arith,
        same_resolution_refl r.payload.resolution,
        check_return-granted canonical c.receipts r,
      )
      | inr free ↦ ground (arith, same_resolution_refl r.payload.resolution)
    ]
