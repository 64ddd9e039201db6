-- ===== src/Fulfillment/Ordered/Operations.antt =====
-- Opening an authorization, leasing it and settling it keep the order of a return.
use shopee_hachathonteam.Prelude.{
  ℕ, ◌+◌, ◌≡◌, refl, inl, inr, Bool, true, false, ◌&&◌, not, Option, none, some, List, [], ◌∷◌, Ref,
  Instant, ◌==◌, ok, leb, same_option, if◌then◌else◌, length, arith, All, Bool-cases, Option-cases,
  Result-cases, subst,
}
use shopee_hachathonteam.Case.{executing, resolved, escalated, same_status}
use shopee_hachathonteam.Fulfillment.{
  Authorization, AuthorizationPayload, Consent, return_consent, policy_consent, Books,
  PaymentStatus, refund_authorization_rejected, authorization_by, save_authorization,
}
use shopee_hachathonteam.Fulfillment.Release.{
  Canonical, consent_binds, consent_of, opening_state, authorize, lease_next, next_ready, settle,
  is_ready, is_succeeded,
}
use shopee_hachathonteam.Fulfillment.Ordered.{is_ordered}
use shopee_hachathonteam.Fulfillment.Ordered.Events.{IsOrdered, transition-IsOrdered}
use shopee_hachathonteam.Fulfillment.Ordered.Rows.{All-authorization_by, All-save}

-- A consent that a proposal carries binds the requirement.
consent_of-binds :
    (canonical : Canonical) (ref hash : Ref) (confirmation : Option Consent) (c : Consent)
    → consent_of canonical hash confirmation ≡ ok (some c)
    → consent_binds canonical ref hash c ≡ true
unfolding consent_of
consent_of-binds canonical ref hash none c h = absurd (ground arith)
consent_of-binds canonical ref hash (some (return_consent a b d e)) c h = absurd (ground arith)
consent_of-binds canonical ref hash (some (policy_consent request k accepted content)) c h =
    ground arith

next_ready-All :
    (P : Authorization → Type 0) (is_locked : Ref → Bool) (now : Instant)
    (rows : List Authorization) (a : Authorization)
    → next_ready is_locked now rows ≡ some a
    → All P rows
    → P a
unfolding next_ready
next_ready-All P is_locked now [] a h o = absurd (ground arith)
next_ready-All P is_locked now (x ∷ rows) a h o =
    elim (Option-cases (next_ready is_locked now rows)) [
      | inl last ↦ let same : x ≡ a = ground arith in subst P same o.0
      | inr (y, later) ↦
          elim (Bool-cases (
            is_ready now x
            && not (is_locked x.authorization_ref)
            && leb x.created_at y.created_at)) [
              | inl first ↦ let same : x ≡ a = ground arith in subst P same o.0
              | inr after ↦ next_ready-All P is_locked now rows a (ground arith) o.1
            ]
    ]

module _ (content_hash : AuthorizationPayload → Ref) (canonical : Canonical) where
  -- An authorization that is opened is in order.
  pub authorize-IsOrdered :
      (b b' : Books) (ref execution : Ref) (payload : AuthorizationPayload)
      (confirmation : Option Consent) (reason : Ref) (now : Instant)
      → IsOrdered content_hash canonical b
      → authorize content_hash canonical b ref execution payload confirmation reason now ≡ ok b'
      → IsOrdered content_hash canonical b'
  unfolding authorize
  authorize-IsOrdered b b' ref execution payload confirmation reason now o h =
      elim (Option-cases (authorization_by ref b.authorizations)) [
        | inr (a, there) ↦
            let same : b ≡ b' = ground arith in subst (IsOrdered content_hash canonical) same o
        | inl new ↦
            elim (Result-cases (consent_of canonical payload.requirement_hash confirmation)) [
              | inr (e, raised) ↦ absurd (ground arith)
              | inl (consent, agreed) ↦
                  let row : Authorization = record {
                    authorization_ref = ref;
                    case_ref = payload.resolution.case_ref;
                    execution_ref = execution;
                    payload = payload;
                    payload_hash = content_hash payload;
                    state = opening_state payload.resolution.return_required consent;
                    confirmation_payload = consent;
                    arrived_event_id = none;
                    inspection_event_id = none;
                    execution_result = none;
                    reason = none;
                    lease_owner = none;
                    lease_until = none;
                    created_at = now;
                  } in
                  let fits : is_ordered content_hash canonical b.receipts row ≡ true =
                    opened payload.resolution.return_required consent refl agreed (ground arith) in
                  transition-IsOrdered content_hash canonical
                    (record b { authorizations = row ∷ b.authorizations }) b' row row.state reason
                    now (ground arith) (fits, o) fits
            ]
      ]
    where
      opened :
          (required : Bool) (consent : Option Consent)
          → payload.resolution.return_required ≡ required
          → consent_of canonical payload.requirement_hash confirmation ≡ ok consent
          → (length payload.resolution.line_item_ids == 1) ≡ true
          → is_ordered content_hash canonical b.receipts (record {
            authorization_ref = ref;
            case_ref = payload.resolution.case_ref;
            execution_ref = execution;
            payload = payload;
            payload_hash = content_hash payload;
            state = opening_state required consent;
            confirmation_payload = consent;
            arrived_event_id = none;
            inspection_event_id = none;
            execution_result = none;
            reason = none;
            lease_owner = none;
            lease_until = none;
            created_at = now;
          })
            ≡ true
      opened false consent r agreed one = ground arith
      opened true none r agreed one = ground arith
      opened true (some c) r agreed one =
          ground
            (arith, consent_of-binds canonical ref payload.requirement_hash confirmation c agreed)

  -- Leasing a row keeps the order.
  pub lease_next-IsOrdered :
      (is_locked : Ref → Bool) (worker : Ref) (lease : ℕ) (now : Instant) (b : Books)
      → IsOrdered content_hash canonical b
      → IsOrdered content_hash canonical (lease_next is_locked worker lease now b).1
  unfolding lease_next
  lease_next-IsOrdered is_locked worker lease now b o =
      elim (Option-cases (next_ready is_locked now b.authorizations)) [
        | inl idle ↦
            let same : b ≡ (lease_next is_locked worker lease now b).1 = ground arith in
            subst (IsOrdered content_hash canonical) same o
        | inr (a, ready) ↦
            let before =
              next_ready-All (λ r. is_ordered content_hash canonical b.receipts r ≡ true) is_locked
                now b.authorizations a ready o in
            let a' : Authorization = record a {
              lease_owner = some worker;
              lease_until = some (now + lease);
            } in
            let same : record b { authorizations = save_authorization a' b.authorizations }
                ≡ (lease_next is_locked worker lease now b).1 =
              ground arith in
            subst (IsOrdered content_hash canonical) same (
              All-save (λ r. is_ordered content_hash canonical b.receipts r ≡ true) a'
                b.authorizations (ground arith) o)
      ]

  -- Settling an executed authorization keeps the order.
  pub settle-IsOrdered :
      (worker ref : Ref) (result : PaymentStatus) (reason : Ref) (now : Instant) (b b' : Books)
      → IsOrdered content_hash canonical b
      → settle worker ref result reason now b ≡ ok b'
      → IsOrdered content_hash canonical b'
  unfolding settle
  settle-IsOrdered worker ref result reason now b b' o h =
      elim (Option-cases (authorization_by ref b.authorizations)) [
        | inl missing ↦ absurd (ground arith)
        | inr (r, there) ↦
            let before =
              All-authorization_by (λ r. is_ordered content_hash canonical b.receipts r ≡ true) ref
                b.authorizations r there o in
            let row : Authorization = record r {
              execution_result = some result;
              reason = if is_succeeded result then none else some refund_authorization_rejected;
              lease_owner = none;
              lease_until = none;
            } in
            elim (Bool-cases
              (same_status r.state executing && same_option r.lease_owner (some worker))) [
                | inr lost ↦
                    let same : b ≡ b' = ground arith in
                    subst (IsOrdered content_hash canonical) same o
                | inl mine ↦ elim (Bool-cases (is_succeeded result)) [
                  | inl paid ↦
                      transition-IsOrdered content_hash canonical b b' row resolved reason now
                        (ground arith) o (ground arith)
                  | inr unpaid ↦
                      transition-IsOrdered content_hash canonical b b' row escalated reason now
                        (ground arith) o (ground arith)
                ]
              ]
      ]
