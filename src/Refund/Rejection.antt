-- ===== src/Refund/Rejection.antt =====
-- What the two ways of rejecting an execution do with the items that it has reserved.
use shopee_hachathonteam.Prelude.{
  ◌≡◌, ◌≢◌, refl, true, false, not, none, some, List, [], ◌∷◌, Ref, Instant, arith, ok, ◌==◌,
  keep_if, same_option,
}
use shopee_hachathonteam.Refund.{
  RefundRequest, rejected, declined, Execution, Ledger, Reservation, execution_by, by_handoff,
  is_in_progress, insert_execution, owner, insert_reservation,
}
use shopee_hachathonteam.Refund.Start.{
  create_rejected, is_unstarted, reject_row, new_execution, locked_execution,
}
use shopee_hachathonteam.Refund.Reserve.{reserve_all}
use shopee_hachathonteam.Refund.Complete.{complete, finish, finish_row}
use shopee_hachathonteam.Refund.Rows.{execution_by_key}

by_handoff-insert :
    (id : Ref) (r : Execution) (es : List Execution) (e : Execution)
    → by_handoff id es ≡ some e
    → by_handoff id (insert_execution r es) ≡ some e
unfolding by_handoff insert_execution
by_handoff-insert id r es e h = ground arith

-- Rejecting an execution that was registered, and so holds its items, leaves them held: the row becomes
-- REJECTED, and no other execution can reserve the item.
pub create_rejected-keeps_items :
    (l l' : Ledger) (ref : Ref) (request : RefundRequest) (hash : Ref) (reasons : List Ref)
    (now : Instant) (x e : Execution) (order item other : Ref) (items : List Ref)
    → by_handoff request.handoff_id l.executions ≡ some e
    → is_unstarted e ≡ true
    → owner order item l.reservations ≡ some e.execution_ref
    → other ≢ e.execution_ref
    → create_rejected l ref request hash reasons now ≡ ok (x, l')
    → (x.state ≡ rejected)
      × (owner order item l'.reservations ≡ some e.execution_ref)
      × (reserve_all order other (item ∷ items) l'.reservations ≡ none)
unfolding create_rejected reserve_all insert_reservation reject_row
create_rejected-keeps_items l l' ref request hash reasons now x e order item other items found
      unstarted held apart h =
    let fresh = reject_row (new_execution ref request hash none now) reasons now in
    let by = by_handoff-insert request.handoff_id fresh l.executions e found in
    let same : l.reservations ≡ l'.reservations = ground arith in
    let kept : owner order item l'.reservations ≡ some e.execution_ref = ground arith in
    (ground arith, kept, refused l'.reservations kept)
  where
    refused :
        (rs : List Reservation)
        → owner order item rs ≡ some e.execution_ref
        → reserve_all order other (item ∷ items) rs ≡ none
    refused rs k = ground arith

owner-released :
    (order item ref : Ref) (rs : List Reservation)
    → same_option (owner order item (keep_if (λ r. not (r.execution_ref == ref)) rs)) (some ref)
      ≡ false
unfolding owner
owner-released order item ref [] = refl
owner-released order item ref (r ∷ rs) = ground (arith, owner-released order item ref rs)

-- An execution in progress that is completed with a rejection gives up every item of every order.
pub declined-releases :
    (l l' : Ledger) (ref hash : Ref) (reasons : List Ref) (at now : Instant) (e x : Execution)
    (order item : Ref)
    → execution_by ref l.executions ≡ some e
    → is_in_progress e.state ≡ true
    → complete l ref hash (declined reasons at) now ≡ ok (x, l')
    → (x.state ≡ rejected) × (same_option (owner order item l'.reservations) (some ref) ≡ false)
unfolding complete locked_execution finish finish_row
declined-releases l l' ref hash reasons at now e x order item found running h =
    let key = execution_by_key ref l.executions e found in
    let gone = owner-released order item ref l.reservations in (ground arith, ground arith)
