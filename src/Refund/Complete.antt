-- ===== src/Refund/Complete.antt =====
-- The end of an execution: `complete` (capabilities/refund.py) with the rows that a success writes.
use shopee_hachathonteam.Prelude.{
  Bool, false, ◌&&◌, ◌||◌, not, Option, none, some, List, [], ◌∷◌, Ref, Instant, Result, ok, err,
  ◌>>=◌, ◌>>◌, raise_if, or_raise, ◌==◌, if◌then◌else◌, same_option, keep_if, any_of,
}
use shopee_hachathonteam.Refund.{
  succeeded, rejected, ApplicationResult, applied, declined, Execution, RefundedItem, CaseOwner,
  RiskEvent, Ledger, RefundError, data_integrity, immutable_fact, integrity_error, is_in_progress,
  save_execution,
}
use shopee_hachathonteam.Refund.Start.{locked_execution}

-- The owner of a successful item, by the unique order and line item.
unfoldable pub refunded_by : Ref → Ref → List RefundedItem → Option Ref
refunded_by order item [] = none
refunded_by order item (r ∷ rs) =
    if r.order_ref == order && r.line_item_ref == item
    then some r.execution_ref
    else refunded_by order item rs

-- Whether the row meets one of the two unique keys.
abbrev pub clashes : RefundedItem → RefundedItem → Bool
clashes a b =
    a.line_item_ref == b.line_item_ref
    && (a.order_ref == b.order_ref || a.execution_ref == b.execution_ref)

-- `_insert_do_nothing` for a successful item.
unfoldable pub insert_item : RefundedItem → List RefundedItem → List RefundedItem
insert_item r rs = if any_of (clashes r) rs then rs else r ∷ rs

-- The loop of `_store_successful_items`.
unfoldable pub store_items :
    (order execution_ref : Ref)
    → (applied_at : Instant) → List Ref
    → List RefundedItem
    → Result RefundError (List RefundedItem)
unfolding insert_item refunded_by
store_items order ref at [] rs = ok rs
store_items order ref at (item ∷ items) rs =
    let rs' =
      insert_item
        (record { execution_ref = ref; line_item_ref = item; order_ref = order; applied_at = at })
        rs in
    let rest = store_items order ref at items rs' in
    if same_option (refunded_by order item rs') (some ref) then rest else err data_integrity

unfoldable pub case_owner : Ref → List CaseOwner → Option CaseOwner
case_owner ref [] = none
case_owner ref (c ∷ cs) = if c.case_ref == ref then some c else case_owner ref cs

unfoldable pub risk_event_by : Ref → List RiskEvent → Option RiskEvent
risk_event_by ref [] = none
risk_event_by ref (e ∷ es) = if e.case_ref == ref then some e else risk_event_by ref es

-- `append_risk_event` for REFUND_SUCCEEDED: a replay must carry the same facts.
unfoldable pub append_risk_event : RiskEvent → List RiskEvent → Result RefundError (List RiskEvent)
unfolding risk_event_by
append_risk_event e es = replay (risk_event_by e.case_ref es)
  where
    replay : Option RiskEvent → Result RefundError (List RiskEvent)
    replay none = ok (e ∷ es)
    replay (some old) =
        if old.user_ref == e.user_ref
          && old.order_ref == e.order_ref
          && old.reason_code == e.reason_code
          && old.occurred_at == e.occurred_at
        then ok es
        else err immutable_fact

-- The part of `complete` for a v2 case: the outbox row and the risk event.
unfoldable pub announce :
    Ledger → Execution → CaseOwner → (application_ref : Ref) → Instant → Result RefundError Ledger
unfolding append_risk_event
announce l e c application at = do
  raise_if (any_of (λ o. o.resolution_ref == e.request.handoff_id) l.outbox) integrity_error
  events ←
      append_risk_event
        (record {
          case_ref = c.case_ref;
          user_ref = c.user_ref;
          order_ref = c.order_ref;
          reason_code = e.request.reason_code;
          occurred_at = at;
        })
        l.risk_events
  ok (record l {
    risk_events = events;
    outbox =
        record {
          resolution_ref = e.request.handoff_id;
          execution_ref = e.execution_ref;
          application_ref = application;
          applied_at = at;
          published = false;
        }
        ∷ l.outbox;
  })

-- What a success does in a v2 case; a missing or a v1 case adds nothing.
unfoldable pub announce_case :
    Ledger → Execution → Option CaseOwner → Ref → Instant → Result RefundError Ledger
unfolding announce
announce_case l e none application at = ok l
announce_case l e (some c) application at = if c.is_v2 then announce l e c application at else ok l

unfoldable pub finish_row : Execution → ApplicationResult → Instant → Execution
finish_row e result now = record e {
  application_result = some result;
  state = elim result [ applied _ _ ↦ succeeded | declined _ _ ↦ rejected ];
  completed_at = some now;
  updated_at = now;
}

-- `complete` on an execution in progress, by the status of the application's result.
unfoldable pub finish :
    Ledger → Execution → ApplicationResult → Instant → Result RefundError (Execution × Ledger)
unfolding finish_row save_execution store_items case_owner announce_case
finish l e (applied application at) now = do
  let e' = finish_row e (applied application at) now
  order ← or_raise e.order_ref data_integrity
  items ← store_items order e.execution_ref at e.request.line_item_ids l.items
  let l' = record l { executions = save_execution e' l.executions; items = items }
  l'' ← announce_case l' e' (case_owner e.request.case_ref l.cases) application at
  ok (e', l'')
finish l e (declined reasons at) now =
    let e' = finish_row e (declined reasons at) now in
    ok (
      e',
      record l {
        executions = save_execution e' l.executions;
        reservations = keep_if (λ r. not (r.execution_ref == e.execution_ref)) l.reservations;
      },
    )

unfoldable pub complete :
    Ledger
    → (execution_ref hash : Ref) → ApplicationResult
    → Instant
    → Result RefundError (Execution × Ledger)
unfolding locked_execution finish
complete l ref hash result now = do
  e ← locked_execution l ref hash
  if is_in_progress e.state then finish l e result now else ok (e, l)
