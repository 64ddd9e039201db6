-- ===== src/Refund/Success.antt =====
-- What a refund that was applied leaves in the ledger.
use shopee_hachathonteam.Prelude.{
  ◌≡◌, inl, inr, true, Option, none, some, List, [], ◌∷◌, Ref, Instant, arith, All, Option-cases,
  Result-cases, ok, any_of,
}
use shopee_hachathonteam.Refund.{
  applied, succeeded, Execution, RefundedItem, Ledger, CaseOwner, save_execution, execution_by,
  is_in_progress,
}
use shopee_hachathonteam.Refund.Complete.{
  finish, finish_row, announce, announce_case, store_items, case_owner, insert_item, refunded_by,
  complete, clashes,
}
use shopee_hachathonteam.Refund.Start.{locked_execution}

-- What a success announces touches neither the executions nor the reservations nor the items.
announce_case-same :
    (l : Ledger) (e : Execution) (c : Option CaseOwner) (application : Ref) (at : Instant)
    {l' : Ledger}
    → announce_case l e c application at ≡ ok l'
    → (l.executions ≡ l'.executions) × (l.reservations ≡ l'.reservations) × (l.items ≡ l'.items)
unfolding announce_case announce
announce_case-same l e none application at h = (ground arith, ground arith, ground arith)
announce_case-same l e (some c) application at h = (ground arith, ground arith, ground arith)

-- The rows of a success: the execution is SUCCEEDED, the reservations are as they were.
pub finish_applied :
    (l : Ledger) (e : Execution) (application : Ref) (at now : Instant) {e' : Execution}
    {l' : Ledger}
    → finish l e (applied application at) now ≡ ok (e', l')
    → (order : Ref) × (e.order_ref ≡ some order)
      × (store_items order e.execution_ref at e.request.line_item_ids l.items ≡ ok l'.items)
      × (e' ≡ finish_row e (applied application at) now)
      × (save_execution e' l.executions ≡ l'.executions)
      × (l.reservations ≡ l'.reservations)
unfolding finish
finish_applied l e application at now {e'} {l'} h = elim (Option-cases e.order_ref) [
  | inl homeless ↦ absurd (ground arith)
  | inr (order, has) ↦
      elim (Result-cases (store_items order e.execution_ref at e.request.line_item_ids l.items)) [
        | inr (error, stuck) ↦ absurd (ground arith)
        | inl (items, stored) ↦ announced order has items stored
      ]
]
  where
    row : Execution
    row = finish_row e (applied application at) now

    announced :
        (order : Ref)
        → e.order_ref ≡ some order
        → (items : List RefundedItem)
        → store_items order e.execution_ref at e.request.line_item_ids l.items ≡ ok items
        → (order : Ref) × (e.order_ref ≡ some order)
          × (store_items order e.execution_ref at e.request.line_item_ids l.items ≡ ok l'.items)
          × (e' ≡ row)
          × (save_execution e' l.executions ≡ l'.executions)
          × (l.reservations ≡ l'.reservations)
    announced order has items stored =
        let l1 : Ledger = record l {
          executions = save_execution row l.executions;
          items = items;
        } in
        elim (Result-cases
          (announce_case l1 row (case_owner e.request.case_ref l.cases) application at)) [
            | inr (error, stuck) ↦ absurd (ground arith)
            | inl (l2, said) ↦
                let same =
                  announce_case-same l1 row (case_owner e.request.case_ref l.cases) application at
                    said in
                (order, has, ground arith, ground arith, ground arith, ground arith)
          ]

clash_of_refunded :
    (o i : Ref) (r : RefundedItem) (rs : List RefundedItem) (x : Ref)
    → r.order_ref ≡ o
    → r.line_item_ref ≡ i
    → refunded_by o i rs ≡ some x
    → any_of (clashes r) rs ≡ true
unfolding refunded_by
clash_of_refunded o i r [] x p q h = absurd (ground arith)
clash_of_refunded o i r (y ∷ rs) x p q h = ground (arith, clash_of_refunded o i r rs x)

-- A refunded item stays with the execution that refunded it.
refunded_by-insert :
    (o i : Ref) (r : RefundedItem) (rs : List RefundedItem) (x : Ref)
    → refunded_by o i rs ≡ some x
    → refunded_by o i (insert_item r rs) ≡ some x
unfolding refunded_by insert_item
refunded_by-insert o i r rs x h = ground (arith, clash_of_refunded o i r rs x)

refunded_by-store :
    (o i order ref : Ref) (at : Instant) (items : List Ref) (rs : List RefundedItem)
    {rs' : List RefundedItem} (x : Ref)
    → store_items order ref at items rs ≡ ok rs'
    → refunded_by o i rs ≡ some x
    → refunded_by o i rs' ≡ some x
unfolding store_items
refunded_by-store o i order ref at [] rs x e h = ground arith
refunded_by-store o i order ref at (item ∷ items) rs {rs'} x e h =
    let r : RefundedItem = record {
      execution_ref = ref;
      line_item_ref = item;
      order_ref = order;
      applied_at = at;
    } in
    ground (
      arith,
      refunded_by-store o i order ref at items (insert_item r rs) {rs' = rs'} x,
      refunded_by-insert o i r rs x h,
    )

store_items-refunded :
    (order ref : Ref) (at : Instant) (items : List Ref) (rs : List RefundedItem)
    {rs' : List RefundedItem}
    → store_items order ref at items rs ≡ ok rs'
    → All (λ i. refunded_by order i rs' ≡ some ref) items
unfolding store_items
store_items-refunded order ref at [] rs e = tt
store_items-refunded order ref at (item ∷ items) rs {rs'} e =
    let r : RefundedItem = record {
      execution_ref = ref;
      line_item_ref = item;
      order_ref = order;
      applied_at = at;
    } in
    ground (
      arith,
      store_items-refunded order ref at items (insert_item r rs) {rs' = rs'},
      refunded_by-store order item order ref at items (insert_item r rs) {rs' = rs'} ref,
    )

-- An execution in progress that is completed with an applied result becomes SUCCEEDED, every item of
-- its scope is recorded as refunded by it, and an item refunded before stays with its execution.
pub complete_applied :
    (l : Ledger) (ref hash application : Ref) (at now : Instant) (e : Execution) {e' : Execution}
    {l' : Ledger}
    → execution_by ref l.executions ≡ some e
    → is_in_progress e.state ≡ true
    → complete l ref hash (applied application at) now ≡ ok (e', l')
    → (order : Ref) × (e.order_ref ≡ some order)
      × (e'.state ≡ succeeded)
      × All (λ i. refunded_by order i l'.items ≡ some e.execution_ref) e.request.line_item_ids
      × ((o i x : Ref) → refunded_by o i l.items ≡ some x → refunded_by o i l'.items ≡ some x)
unfolding complete locked_execution finish_row
complete_applied l ref hash application at now e {e'} {l'} found running h =
    let done : finish l e (applied application at) now ≡ ok (e', l') = ground arith in
    let (order, has, stored, row, saved, kept) = finish_applied l e application at now done in
    (
      order,
      has,
      ground arith,
      store_items-refunded order e.execution_ref at e.request.line_item_ids l.items stored,
      λ o i x old.
          refunded_by-store o i order e.execution_ref at e.request.line_item_ids l.items x stored
            old,
    )
