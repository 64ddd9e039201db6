-- ===== src/Fulfillment/Ordered/Events.antt =====
-- Every operation of fulfillment keeps the order of a return.
use shopee_hachathonteam.Prelude.{
  ◌≡◌, ◌∙◌, ap, refl, inl, inr, Bool, true, Option, none, some, List, ◌∷◌, Ref, Instant, ok, mem,
  arith, All, All-map, Bool-cases, Option-cases, Result-cases, subst, subst₂, sym,
}
use shopee_hachathonteam.Case.{
  CaseStatus, awaiting_return_confirmation, awaiting_return, awaiting_return_inspection, executing,
  escalated, same_status,
}
use shopee_hachathonteam.Fulfillment.{
  Authorization, AuthorizationPayload, return_consent, Receipt, ReturnEvent, ReturnPayload,
  return_arrived, inspection_passed, inspection_disputed, return_overdue, Books, authorization_by,
  save_authorization, receipt_in, receipt_of,
}
use shopee_hachathonteam.Fulfillment.Returns.{
  transition, move_case, confirm_return, arrive, inspect, respond, accept_locked,
  accept_return_event,
}
use shopee_hachathonteam.Fulfillment.Release.{Canonical}
use shopee_hachathonteam.Fulfillment.Ordered.{is_ordered, is_consented, is_arrived}
use shopee_hachathonteam.Fulfillment.Ordered.Rows.{
  All-authorization_by, All-save, authorization_by_key, arrived-cons, ordered-cons,
}

-- The rows that a transition leaves.
transition-rows :
    (b b' : Books) (r : Authorization) (target : CaseStatus) (reason : Ref) (now : Instant)
    → transition b r target reason now ≡ ok b'
    → (save_authorization (record r { state = target }) b.authorizations ≡ b'.authorizations)
      × (b.receipts ≡ b'.receipts)
unfolding transition
transition-rows b b' r target reason now h =
    elim (Result-cases (move_case b.tables r.case_ref r.authorization_ref target reason now)) [
      | inr (e, raised) ↦ absurd (ground arith)
      | inl (t, moved) ↦ (ground arith, ground arith)
    ]

is_awaiting_return : (s : CaseStatus) → same_status s awaiting_return ≡ true → s ≡ awaiting_return
is_awaiting_return s h = ground arith

is_awaiting_inspection :
    (s : CaseStatus)
    → same_status s awaiting_return_inspection ≡ true
    → s ≡ awaiting_return_inspection
is_awaiting_inspection s h = ground arith

is_awaiting_confirmation :
    (s : CaseStatus)
    → same_status s awaiting_return_confirmation ≡ true
    → s ≡ awaiting_return_confirmation
is_awaiting_confirmation s h = ground arith

is_executing : (s : CaseStatus) → same_status s executing ≡ true → s ≡ executing
is_executing s h = ground arith

module _ (content_hash : AuthorizationPayload → Ref) (canonical : Canonical) where
  abbrev pub IsOrdered : Books → Type 0
  IsOrdered b = All (λ r. is_ordered content_hash canonical b.receipts r ≡ true) b.authorizations

  -- A transition keeps the order when the row that it writes is in order.
  pub transition-IsOrdered :
      (b b' : Books) (r : Authorization) (target : CaseStatus) (reason : Ref) (now : Instant)
      → transition b r target reason now ≡ ok b'
      → IsOrdered b
      → is_ordered content_hash canonical b.receipts (record r { state = target }) ≡ true
      → IsOrdered b'
  transition-IsOrdered b b' r target reason now h o row =
      let (saved, kept) = transition-rows b b' r target reason now h in
      let all =
        All-save (λ r. is_ordered content_hash canonical b.receipts r ≡ true)
          (record r { state = target }) b.authorizations row o in
      subst₂ (λ rs rows. All (λ r. is_ordered content_hash canonical rs r ≡ true) rows) kept saved
        all

  -- The row that a new event leaves is in order, with the receipt of the event.
  respond-ordered :
      (receipts : List Receipt) (r r' : Authorization) (e : ReturnEvent) (payload : ReturnPayload)
      (target : CaseStatus) (p : Receipt)
      → e.payload ≡ payload
      → p.event ≡ e
      → p.authorization_ref ≡ e.authorization_ref
      → p.event_id ≡ e.event_id
      → r.authorization_ref ≡ e.authorization_ref
      → r.case_ref ≡ e.case_ref
      → mem e.line_item_id r.payload.resolution.line_item_ids ≡ true
      → receipt_in e.authorization_ref e.event_id receipts ≡ none
      → is_ordered content_hash canonical receipts r ≡ true
      → respond receipts r e payload ≡ ok (r', target)
      → is_ordered content_hash canonical (p ∷ receipts) (record r' { state = target }) ≡ true
  unfolding respond arrive inspect
  respond-ordered receipts r r' e (return_arrived t) target p is ev ref id a c m new o h =
      let state = is_awaiting_return r.state (ground arith) in unfold receipt_in in ground arith
  respond-ordered receipts r r' e (inspection_passed t i) target p is ev ref id a c m new o h =
      let state = is_awaiting_inspection r.state (ground arith) in
      let staged : (is_consented canonical r ≡ true) × (is_arrived receipts r ≡ true) =
        (ground arith, ground arith) in
      let kept = arrived-cons p receipts r (ground arith) staged.1 in
      let here : receipt_in r.authorization_ref e.event_id (p ∷ receipts) ≡ some p =
        unfold receipt_in in ground arith in
      ground arith
  respond-ordered receipts r r' e (inspection_disputed t i) target p is ev ref id a c m new o h =
      ground arith
  respond-ordered receipts r r' e (return_overdue t) target p is ev ref id a c m new o h =
      ground arith

  respond-same :
      (receipts : List Receipt) (r r' : Authorization) (e : ReturnEvent) (payload : ReturnPayload)
      (target : CaseStatus)
      → respond receipts r e payload ≡ ok (r', target)
      → r'.authorization_ref ≡ r.authorization_ref
  unfolding respond arrive inspect
  respond-same receipts r r' e (return_arrived t) target h = ground arith
  respond-same receipts r r' e (inspection_passed t i) target h = ground arith
  respond-same receipts r r' e (inspection_disputed t i) target h = ground arith
  respond-same receipts r r' e (return_overdue t) target h = ground arith

  -- The row and the receipt of an accepted event, on rows that are in order.
  write_receipt :
      (b b1 b' : Books) (r' : Authorization) (target : CaseStatus) (reason : Ref) (now : Instant)
      (p : Receipt)
      → IsOrdered b
      → transition b r' target reason now ≡ ok b1
      → b1.authorizations ≡ b'.authorizations
      → p ∷ b1.receipts ≡ b'.receipts
      → receipt_in p.authorization_ref p.event_id b.receipts ≡ none
      → is_ordered content_hash canonical (p ∷ b.receipts) (record r' { state = target }) ≡ true
      → IsOrdered b'
  write_receipt b b1 b' r' target reason now p o moved rows receipts new row =
      let (saved, kept) = transition-rows b b1 r' target reason now moved in
      let P : Authorization → Type 0 =
        λ r. is_ordered content_hash canonical (p ∷ b.receipts) r ≡ true in
      let grown : All P b.authorizations =
        All-map (λ r. is_ordered content_hash canonical b.receipts r ≡ true) P
          (λ r. ordered-cons content_hash canonical p b.receipts r new) b.authorizations o in
      subst₂ (λ rs rows. All (λ r. is_ordered content_hash canonical rs r ≡ true) rows)
        (ap (λ rs. p ∷ rs) kept ∙ receipts) (saved ∙ rows)
        (All-save P (record r' { state = target }) b.authorizations row grown)

  accept_locked-IsOrdered :
      (b b' : Books) (e : ReturnEvent) (reason : Ref) (now : Instant) (p : Receipt)
      → IsOrdered b
      → accept_locked content_hash b e reason now ≡ ok (p, b')
      → IsOrdered b'
  unfolding accept_locked
  accept_locked-IsOrdered b b' e reason now p o h =
      elim (Option-cases (authorization_by e.authorization_ref b.authorizations)) [
        | inl missing ↦ absurd (ground arith)
        | inr (r, there) ↦ elim (Option-cases (receipt_of e.producer_id e.event_id b.receipts)) [
          | inr (old, replay) ↦ let same : b ≡ b' = ground arith in subst IsOrdered same o
          | inl fresh ↦ elim (Option-cases (receipt_in e.authorization_ref e.event_id b.receipts)) [
            | inr (q, used) ↦ absurd (ground arith)
            | inl new ↦
                let case_matches : r.case_ref ≡ e.case_ref = ground arith in
                let has_item : mem e.line_item_id r.payload.resolution.line_item_ids ≡ true =
                  ground arith in
                elim (Result-cases (respond b.receipts r e e.payload)) [
                  | inr (x, raised) ↦ absurd (ground arith)
                  | inl (changed, responded) ↦
                      elim (Result-cases (transition b changed.0 changed.1 reason now)) [
                        | inr (y, stopped) ↦ absurd (ground arith)
                        | inl (b1, moved) ↦
                            let same =
                              respond-same b.receipts r changed.0 e e.payload changed.1 responded in
                            let key =
                              authorization_by_key e.authorization_ref b.authorizations r there in
                            let before =
                              All-authorization_by
                                (λ r. is_ordered content_hash canonical b.receipts r ≡ true)
                                e.authorization_ref b.authorizations r there o in
                            let receipt : Receipt = record {
                              producer_id = e.producer_id;
                              event_id = e.event_id;
                              authorization_ref = changed.0.authorization_ref;
                              event = e;
                              accepted_at = now;
                              state = changed.1;
                            } in
                            let written : record b1 { receipts = receipt ∷ b1.receipts } ≡ b' =
                              ground arith in
                            let at : changed.0.authorization_ref ≡ e.authorization_ref =
                              same ∙ key in
                            write_receipt b b1 b' changed.0 changed.1 reason now receipt o moved
                              (ap (λ x. x.authorizations) written) (ap (λ x. x.receipts) written)
                              (subst (λ a. receipt_in a e.event_id b.receipts ≡ none) (sym at) new)
                              (respond-ordered b.receipts r changed.0 e e.payload changed.1 receipt
                                refl refl at refl key case_matches has_item new before responded)
                      ]
                ]
          ]
        ]
      ]

  -- A return event that is accepted, or replayed, keeps the order, whatever the first look-up saw.
  pub accept_return_event-IsOrdered :
      (seen : Option Receipt) (b b' : Books) (e : ReturnEvent) (reason : Ref) (now : Instant)
      (p : Receipt)
      → IsOrdered b
      → accept_return_event content_hash seen b e reason now ≡ ok (p, b')
      → IsOrdered b'
  unfolding accept_return_event
  accept_return_event-IsOrdered (some old) b b' e reason now p o h =
      let same : b ≡ b' = ground arith in subst IsOrdered same o
  accept_return_event-IsOrdered none b b' e reason now p o h =
      accept_locked-IsOrdered b b' e reason now p o h

  -- The buyer's confirmation keeps the order.
  pub confirm_return-IsOrdered :
      (b b' : Books) (case_ref ref hash : Ref) (accept : Bool) (key reason : Ref) (now : Instant)
      → IsOrdered b
      → confirm_return b case_ref ref hash accept key reason now ≡ ok b'
      → IsOrdered b'
  unfolding confirm_return
  confirm_return-IsOrdered b b' case_ref ref hash accept key reason now o h =
      elim (Option-cases (authorization_by ref b.authorizations)) [
        | inl missing ↦ absurd (ground arith)
        | inr (r, there) ↦ elim (Option-cases r.confirmation_payload) [
          | inr (consent, given) ↦ let same : b ≡ b' = ground arith in subst IsOrdered same o
          | inl open_question ↦
              let key_of = authorization_by_key ref b.authorizations r there in
              let before =
                All-authorization_by (λ r. is_ordered content_hash canonical b.receipts r ≡ true)
                  ref b.authorizations r there o in
              let state = is_awaiting_confirmation r.state (ground arith) in
              let row : Authorization = record r {
                confirmation_payload = some (return_consent ref hash accept key);
              } in
              elim (Bool-cases accept) [
                | inl agreed ↦
                    transition-IsOrdered b b' row awaiting_return reason now (ground arith) o
                      (ground arith)
                | inr refused ↦
                    transition-IsOrdered b b' row escalated reason now (ground arith) o
                      (ground arith)
              ]
        ]
      ]
