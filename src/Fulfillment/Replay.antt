-- ===== src/Fulfillment/Replay.antt =====
-- A return event that is delivered again.
use shopee_hachathonteam.Prelude.{
  ◌≡◌, inl, inr, true, false, some, ◌∷◌, Ref, Instant, ok, err, arith, Option-cases, Result-cases,
}
use shopee_hachathonteam.Fulfillment.{
  AuthorizationPayload, Receipt, ReturnEvent, ReturnPayload, return_arrived, inspection_passed,
  inspection_disputed, return_overdue, Books, identity_reused, receipt_of, same_event, same_payload,
  authorization_by,
}
use shopee_hachathonteam.Fulfillment.Returns.{
  accept_return_event, accept_locked, respond, transition,
}

same_payload_refl : (p : ReturnPayload) → same_payload p p ≡ true
same_payload_refl (return_arrived a) = ground arith
same_payload_refl (inspection_passed a i) = ground arith
same_payload_refl (inspection_disputed a i) = ground arith
same_payload_refl (return_overdue d) = ground arith

same_event_refl : (e : ReturnEvent) → same_event e e ≡ true
same_event_refl e = ground (arith, same_payload_refl e.payload)

-- The receipt of an accepted event is found, with the same content.
accepted_found :
    (content_hash : AuthorizationPayload → Ref) (b b' : Books) (e : ReturnEvent) (reason : Ref)
    (now : Instant) (p : Receipt)
    → accept_return_event content_hash
        (receipt_of e.producer_id e.event_id b.receipts)
        b
        e
        reason
        now
      ≡ ok (p, b')
    → (receipt_of e.producer_id e.event_id b'.receipts ≡ some p) × (same_event p.event e ≡ true)
unfolding accept_return_event accept_locked
accepted_found content_hash b b' e reason now p h =
    elim (Option-cases (receipt_of e.producer_id e.event_id b.receipts)) [
      | inr (old, there) ↦ (ground arith, ground arith)
      | inl new ↦ elim (Option-cases (authorization_by e.authorization_ref b.authorizations)) [
        | inl missing ↦ absurd (ground arith)
        | inr (r, found) ↦ elim (Result-cases (respond b.receipts r e e.payload)) [
          | inr (x, raised) ↦ absurd (ground arith)
          | inl (changed, responded) ↦
              elim (Result-cases (transition b changed.0 changed.1 reason now)) [
                | inr (y, stopped) ↦ absurd (ground arith)
                | inl (b1, moved) ↦
                    let itself = same_event_refl e in
                    let receipt : Receipt = record {
                      producer_id = e.producer_id;
                      event_id = e.event_id;
                      authorization_ref = changed.0.authorization_ref;
                      event = e;
                      accepted_at = now;
                      state = changed.1;
                    } in
                    let written : record b1 { receipts = receipt ∷ b1.receipts } ≡ b' =
                      ground arith in
                    let is_p : receipt ≡ p = ground arith in
                    (unfold receipt_of in ground arith, ground arith)
              ]
        ]
      ]
    ]

-- After a return event was accepted, the same event changes nothing and gets the same receipt, and
-- another content under its identity is refused.
pub accept_again :
    (content_hash : AuthorizationPayload → Ref) (b b' : Books) (e f : ReturnEvent)
    (reason again : Ref) (now later : Instant) (p : Receipt)
    → accept_return_event content_hash
        (receipt_of e.producer_id e.event_id b.receipts)
        b
        e
        reason
        now
      ≡ ok (p, b')
    → f.producer_id ≡ e.producer_id
    → f.event_id ≡ e.event_id
    → same_event p.event f ≡ false
    → (accept_return_event content_hash
          (receipt_of e.producer_id e.event_id b'.receipts)
          b'
          e
          again
          later
        ≡ ok (p, b'))
      × (accept_return_event content_hash
            (receipt_of f.producer_id f.event_id b'.receipts)
            b'
            f
            again
            later
          ≡ err identity_reused)
unfolding accept_return_event
accept_again content_hash b b' e f reason again now later p h producer id other =
    let (found, same) = accepted_found content_hash b b' e reason now p h in
    (ground arith, ground arith)
