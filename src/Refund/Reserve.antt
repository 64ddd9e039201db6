-- ===== src/Refund/Reserve.antt =====
-- The reservation of items before the mutation is attempted (capabilities/refund.py), and the one
-- that `register_authorization` makes (capabilities/fulfillment.py).
use shopee_hachathonteam.Prelude.{
  ◌||◌, not, Option, none, some, List, [], ◌∷◌, Ref, Instant, Result, ok, err, ◌>>=◌, ◌>>◌,
  raise_if, or_raise, ◌==◌, if◌then◌else◌, is_none, sorted, same_option,
}
use shopee_hachathonteam.Refund.{
  RefundRequest, Execution, Reservation, Ledger, RefundError, data_integrity, invalid_value,
  is_in_progress, execution_by, save_execution, insert_execution, owner, insert_reservation,
}
use shopee_hachathonteam.Refund.Start.{locked_execution, reject_row, is_unstarted, new_execution}

-- The loop over the sorted scope inside the savepoint: `none` when another execution owns an item.
unfoldable pub reserve_all :
    (order execution_ref : Ref) → List Ref → List Reservation → Option (List Reservation)
unfolding insert_reservation owner
reserve_all order ref [] rs = some rs
reserve_all order ref (item ∷ items) rs =
    let rs' =
      insert_reservation (record { order_ref = order; line_item_ref = item; execution_ref = ref })
        rs in
    let rest = reserve_all order ref items rs' in
    if same_option (owner order item rs') (some ref) then rest else none

-- The reason code REFUND_ITEM_RESERVED.
abbrev pub refund_item_reserved : Ref
refund_item_reserved = 0

-- `if record.application_started_at is None`: the time and the row's stamp are set once.
abbrev pub started : Execution → Instant → Execution
started e now = record e {
  application_started_at = some (elim e.application_started_at [ none ↦ now | some at ↦ at ]);
  updated_at = if is_none e.application_started_at then now else e.updated_at;
}

-- After the savepoint: the scope is reserved, or the reservations are those from before it.
unfoldable pub settle_reservation :
    Ledger
    → Execution
    → Option (List Reservation)
    → Instant
    → Result RefundError (Execution × Ledger)
unfolding reject_row save_execution
settle_reservation l e (some rs) now =
    let e' = started e now in
    ok (e', record l { executions = save_execution e' l.executions; reservations = rs })
settle_reservation l e none now =
    if is_none e.application_started_at
    then ok (
      reject_row e (refund_item_reserved ∷ []) now,
      record l {
        executions = save_execution (reject_row e (refund_item_reserved ∷ []) now) l.executions;
      },
    )
    else err data_integrity

unfoldable pub mark_application_started :
    Ledger → (execution_ref hash : Ref) → Instant → Result RefundError (Execution × Ledger)
unfolding locked_execution reserve_all settle_reservation
mark_application_started l ref hash now = do
  e ← locked_execution l ref hash
  let unfinished : Result RefundError (Execution × Ledger) = do
    order ← or_raise e.order_ref data_integrity
    settle_reservation l e (reserve_all order ref (sorted e.request.line_item_ids) l.reservations)
        now
  if is_in_progress e.state then unfinished else ok (e, l)

-- The reservations of `register_authorization`: each item, in sorted order, or a ValueError.
unfoldable pub reserve_or_raise :
    (order execution_ref : Ref)
    → List Ref
    → List Reservation
    → Result RefundError (List Reservation)
unfolding reserve_all
reserve_or_raise order ref items rs =
    or_raise (reserve_all order ref (sorted items) rs) invalid_value

-- The ledger part of `register_authorization`: the execution is opened under its own reference, must
-- be new or an unstarted one with the same content, and reserves its scope.
unfoldable pub register_execution :
    Ledger
    → (execution_ref : Ref) → RefundRequest
    → (hash order_ref : Ref) → Instant
    → Result RefundError (Execution × Ledger)
unfolding new_execution insert_execution execution_by reserve_or_raise
register_execution l ref request hash order now = do
  let es = insert_execution (new_execution ref request hash (some order) now) l.executions
  e ← or_raise (execution_by ref es) invalid_value
  raise_if (not (e.payload_hash == hash) || not (is_unstarted e)) invalid_value
  rs ← reserve_or_raise order ref request.line_item_ids l.reservations
  ok (e, record l { executions = es; reservations = rs })
