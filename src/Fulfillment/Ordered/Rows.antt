-- ===== src/Fulfillment/Ordered/Rows.antt =====
-- The invariant under the updates of a row and a new receipt.
use shopee_hachathonteam.Prelude.{
  ◌≡◌, inl, inr, true, none, some, List, [], ◌∷◌, Ref, ◌==◌, arith, All, Bool-cases, Option-cases,
  subst,
}
use shopee_hachathonteam.Case.{
  CaseStatus, observing, awaiting_policy_confirmation, awaiting_clarification, awaiting_evidence,
  awaiting_human_review, awaiting_return_confirmation, awaiting_return, awaiting_return_inspection,
  executing, resolved, escalated,
}
use shopee_hachathonteam.Fulfillment.{
  Authorization, AuthorizationPayload, Receipt, authorization_by, save_authorization, receipt_in,
}
use shopee_hachathonteam.Fulfillment.Release.{Canonical}
use shopee_hachathonteam.Fulfillment.Ordered.{is_ordered, is_staged, is_arrived, is_inspected}

module _ {ℓ} (P : Authorization → Type ℓ) where
  -- A property of all rows holds of the row that a key finds.
  pub All-authorization_by :
      (ref : Ref) (rows : List Authorization) (r : Authorization)
      → authorization_by ref rows ≡ some r
      → All P rows
      → P r
  unfolding authorization_by
  All-authorization_by ref [] r h a = absurd (ground arith)
  All-authorization_by ref (x ∷ rows) r h a = elim (Bool-cases (x.authorization_ref == ref)) [
    | inl hit ↦ let same : x ≡ r = ground arith in subst P same a.0
    | inr miss ↦ All-authorization_by ref rows r (ground arith) a.1
  ]

  -- An update by a row that has the property keeps it of all rows.
  pub All-save :
      (r : Authorization) (rows : List Authorization)
      → P r
      → All P rows
      → All P (save_authorization r rows)
  unfolding save_authorization
  All-save r [] p a = tt
  All-save r (x ∷ rows) p a = elim (Bool-cases (x.authorization_ref == r.authorization_ref)) [
    | inl hit ↦ rw hit (p, a.1)
    | inr miss ↦ rw miss (a.0, All-save r rows p a.1)
  ]

pub authorization_by_key :
    (ref : Ref) (rows : List Authorization) (r : Authorization)
    → authorization_by ref rows ≡ some r
    → r.authorization_ref ≡ ref
unfolding authorization_by
authorization_by_key ref [] r h = absurd (ground arith)
authorization_by_key ref (x ∷ rows) r h = ground (arith, authorization_by_key ref rows r)

-- A receipt under a new reference leaves the others where they were.
pub receipt_in-cons :
    (a id : Ref) (p : Receipt) (receipts : List Receipt) (q : Receipt)
    → receipt_in p.authorization_ref p.event_id receipts ≡ none
    → receipt_in a id receipts ≡ some q
    → receipt_in a id (p ∷ receipts) ≡ some q
unfolding receipt_in
receipt_in-cons a id p receipts q new h = ground arith

pub arrived-cons :
    (p : Receipt) (receipts : List Receipt) (r : Authorization)
    → receipt_in p.authorization_ref p.event_id receipts ≡ none
    → is_arrived receipts r ≡ true
    → is_arrived (p ∷ receipts) r ≡ true
arrived-cons p receipts r new h = elim (Option-cases r.arrived_event_id) [
  | inl absent ↦ absurd (ground arith)
  | inr (id, has) ↦ elim (Option-cases (receipt_in r.authorization_ref id receipts)) [
    | inl missing ↦ absurd (ground arith)
    | inr (q, there) ↦ ground (arith, receipt_in-cons r.authorization_ref id p receipts q new there)
  ]
]

inspected-cons :
    (p : Receipt) (receipts : List Receipt) (r : Authorization)
    → receipt_in p.authorization_ref p.event_id receipts ≡ none
    → is_inspected receipts r ≡ true
    → is_inspected (p ∷ receipts) r ≡ true
inspected-cons p receipts r new h = elim (Option-cases r.inspection_event_id) [
  | inl absent ↦ absurd (ground arith)
  | inr (id, has) ↦ elim (Option-cases (receipt_in r.authorization_ref id receipts)) [
    | inl missing ↦ absurd (ground arith)
    | inr (q, there) ↦ ground (arith, receipt_in-cons r.authorization_ref id p receipts q new there)
  ]
]

staged-cons :
    (canonical : Canonical) (p : Receipt) (receipts : List Receipt) (r : Authorization)
    (state : CaseStatus)
    → receipt_in p.authorization_ref p.event_id receipts ≡ none
    → is_staged canonical receipts r state ≡ true
    → is_staged canonical (p ∷ receipts) r state ≡ true
staged-cons canonical p receipts r awaiting_return_inspection new h =
    ground (arith, arrived-cons p receipts r new)
staged-cons canonical p receipts r executing new h =
    ground (arith, arrived-cons p receipts r new, inspected-cons p receipts r new)
staged-cons canonical p receipts r awaiting_return_confirmation new h = h
staged-cons canonical p receipts r awaiting_return new h = h
staged-cons canonical p receipts r observing new h = h
staged-cons canonical p receipts r awaiting_policy_confirmation new h = h
staged-cons canonical p receipts r awaiting_clarification new h = h
staged-cons canonical p receipts r awaiting_evidence new h = h
staged-cons canonical p receipts r awaiting_human_review new h = h
staged-cons canonical p receipts r resolved new h = h
staged-cons canonical p receipts r escalated new h = h

-- A new receipt keeps every row in order.
pub ordered-cons :
    (content_hash : AuthorizationPayload → Ref) (canonical : Canonical) (p : Receipt)
    (receipts : List Receipt) (r : Authorization)
    → receipt_in p.authorization_ref p.event_id receipts ≡ none
    → is_ordered content_hash canonical receipts r ≡ true
    → is_ordered content_hash canonical (p ∷ receipts) r ≡ true
ordered-cons content_hash canonical p receipts r new h =
    let staged = staged-cons canonical p receipts r r.state new (ground arith) in ground arith
