-- ===== src/Refund/Terminal.antt =====
-- Terminal executions: a recorded outcome is never rewritten, and a replay returns it.
use shopee_hachathonteam.Prelude.{
  ◌≡◌, inl, inr, true, false, Option, none, some, List, [], ◌∷◌, Ref, Instant, arith, ok,
  Option-cases, Bool-cases, ◌==◌, sorted,
}
use shopee_hachathonteam.Refund.{
  RefundRequest, ApplicationResult, applied, declined, Execution, Ledger, Reservation, execution_by,
  by_handoff, is_in_progress, insert_execution, save_execution,
}
use shopee_hachathonteam.Refund.Start.{
  start_pending, create_rejected, is_unstarted, reject_row, new_execution, locked_execution,
}
use shopee_hachathonteam.Refund.Reserve.{
  mark_application_started, register_execution, settle_reservation, started, reserve_all,
}
use shopee_hachathonteam.Refund.Complete.{complete, finish, finish_row}
use shopee_hachathonteam.Refund.Success.{finish_applied}
use shopee_hachathonteam.Refund.Rows.{
  execution_by-save, execution_by_key, execution_by-by_handoff, IsKeyed, insert_execution-IsKeyed,
}
use shopee_hachathonteam.Refund.Ownership.{IsSound}
use shopee_hachathonteam.Refund.Ownership.Once.{Step, starts, registers, rejects, marks, completes}

execution_by-insert :
    (ref : Ref) (r : Execution) (es : List Execution) (e : Execution)
    → execution_by ref es ≡ some e
    → execution_by ref (insert_execution r es) ≡ some e
unfolding execution_by insert_execution
execution_by-insert ref r es e h = ground arith

-- Writing a row that was in progress leaves a terminal row as it is.
execution_by-save_other :
    (ref : Ref) (r old : Execution) (es : List Execution) (e : Execution)
    → execution_by r.execution_ref es ≡ some old
    → is_in_progress old.state ≡ true
    → execution_by ref es ≡ some e
    → is_in_progress e.state ≡ false
    → execution_by ref (save_execution r es) ≡ some e
execution_by-save_other ref r old es e found running h over =
    ground (arith, execution_by-save ref r es old found)

rejects_kept :
    (l m : Ledger) (ref r : Ref) (request : RefundRequest) (hash : Ref) (reasons : List Ref)
    (now : Instant) (x e : Execution)
    → IsKeyed l.executions
    → create_rejected l r request hash reasons now ≡ ok (x, m)
    → execution_by ref l.executions ≡ some e
    → is_in_progress e.state ≡ false
    → execution_by ref m.executions ≡ some e
unfolding create_rejected reject_row
rejects_kept l m ref r request hash reasons now x e k h found over =
    let fresh = reject_row (new_execution r request hash none now) reasons now in
    let es = insert_execution fresh l.executions in
    let kept = execution_by-insert ref fresh l.executions e found in
    elim (Option-cases (by_handoff request.handoff_id es)) [
      | inl missing ↦ absurd (ground arith)
      | inr (y, by) ↦ elim (Bool-cases (is_unstarted y)) [
        | inl unstarted ↦ ground (
          arith,
          execution_by-save_other ref (reject_row y reasons now) y es e
              (execution_by-by_handoff request.handoff_id es y
                (insert_execution-IsKeyed fresh l.executions k) by)
              (ground arith) kept over,
        )
        | inr other ↦ ground arith
      ]
    ]

settle_kept :
    (l m : Ledger) (ref : Ref) (old : Execution) (rs : Option (List Reservation)) (now : Instant)
    (x e : Execution)
    → execution_by old.execution_ref l.executions ≡ some old
    → is_in_progress old.state ≡ true
    → settle_reservation l old rs now ≡ ok (x, m)
    → execution_by ref l.executions ≡ some e
    → is_in_progress e.state ≡ false
    → execution_by ref m.executions ≡ some e
unfolding settle_reservation reject_row
settle_kept l m ref old (some rs) now x e at running h found over =
    ground (
      arith,
      execution_by-save_other ref (started old now) old l.executions e at running found over,
    )
settle_kept l m ref old none now x e at running h found over = ground (
  arith,
  execution_by-save_other ref (reject_row old (0 ∷ []) now) old l.executions e at running found
      over,
)

marks_kept :
    (l m : Ledger) (ref r hash : Ref) (now : Instant) (x e : Execution)
    → mark_application_started l r hash now ≡ ok (x, m)
    → execution_by ref l.executions ≡ some e
    → is_in_progress e.state ≡ false
    → execution_by ref m.executions ≡ some e
unfolding mark_application_started locked_execution
marks_kept l m ref r hash now x e h found over = elim (Option-cases (execution_by r l.executions)) [
  | inl missing ↦ absurd (ground arith)
  | inr (old, at) ↦ elim (Option-cases old.order_ref) [
    | inl homeless ↦ ground arith
    | inr (order, has) ↦ elim (Bool-cases (is_in_progress old.state)) [
      | inr done ↦ ground arith
      | inl running ↦
          let key = execution_by_key r l.executions old at in
          settle_kept l m ref old
            (reserve_all order r (sorted old.request.line_item_ids) l.reservations) now x e
            (ground arith) running (ground arith) found over
    ]
  ]
]

finish_kept :
    (l m : Ledger) (ref : Ref) (old : Execution) (result : ApplicationResult) (now : Instant)
    (x e : Execution)
    → execution_by old.execution_ref l.executions ≡ some old
    → is_in_progress old.state ≡ true
    → finish l old result now ≡ ok (x, m)
    → execution_by ref l.executions ≡ some e
    → is_in_progress e.state ≡ false
    → execution_by ref m.executions ≡ some e
unfolding finish_row
finish_kept l m ref old (applied application t) now x e at running h found over =
    let (order, has, stored, row, saved, kept) = finish_applied l old application t now h in
    ground (
      arith,
      execution_by-save_other ref (finish_row old (applied application t) now) old l.executions e at
          running found over,
    )
finish_kept l m ref old (declined reasons t) now x e at running h found over =
    unfold finish in
    ground (
      arith,
      execution_by-save_other ref (finish_row old (declined reasons t) now) old l.executions e at
          running found over,
    )

-- Once an execution has its outcome, no transaction of any worker changes its row.
pub terminal_row_kept :
    (l m : Ledger) (ref : Ref) (e : Execution)
    → IsSound l
    → Step l m
    → execution_by ref l.executions ≡ some e
    → is_in_progress e.state ≡ false
    → execution_by ref m.executions ≡ some e
unfolding start_pending register_execution complete locked_execution
terminal_row_kept l m ref e s (starts r request hash order now x h) found over =
    let fresh = new_execution r request hash (some order) now in
    let es = insert_execution fresh l.executions in
    elim (Option-cases (by_handoff request.handoff_id es)) [
      | inl missing ↦ absurd (ground arith)
      | inr (y, by) ↦ ground (arith, execution_by-insert ref fresh l.executions e found)
    ]
terminal_row_kept l m ref e s (registers r request hash order now x h) found over =
    let fresh = new_execution r request hash (some order) now in
    let es = insert_execution fresh l.executions in
    ground (arith, execution_by-insert ref fresh l.executions e found)
terminal_row_kept l m ref e s (rejects r request hash reasons now x h) found over =
    rejects_kept l m ref r request hash reasons now x e s.keyed h found over
terminal_row_kept l m ref e s (marks r hash now x h) found over =
    marks_kept l m ref r hash now x e h found over
terminal_row_kept l m ref e s (completes r hash result now old x at attempted h) found over =
    let key = execution_by_key r l.executions old at in
    elim (Bool-cases (is_in_progress old.state)) [
      | inl running ↦
          finish_kept l m ref old result now x e (ground arith) running (ground arith) found over
      | inr done ↦ ground arith
    ]

-- The row that a completion returns is the one it stores, and it is terminal.
finish_stored :
    (l m : Ledger) (ref : Ref) (e : Execution) (result : ApplicationResult) (now : Instant)
    (x : Execution)
    → execution_by ref l.executions ≡ some e
    → finish l e result now ≡ ok (x, m)
    → (execution_by ref m.executions ≡ some x)
      × (is_in_progress x.state ≡ false)
      × (x.payload_hash ≡ e.payload_hash)
unfolding finish finish_row
finish_stored l m ref e (applied application at) now x found h =
    let (order, has, stored, row, saved, kept) = finish_applied l e application at now h in
    let key = execution_by_key ref l.executions e found in
    let r = finish_row e (applied application at) now in
    let at_ref = execution_by-save ref r l.executions e (ground arith) in
    (ground arith, ground arith, ground arith)
finish_stored l m ref e (declined reasons at) now x found h =
    let key = execution_by_key ref l.executions e found in
    let r = finish_row e (declined reasons at) now in
    let at_ref = execution_by-save ref r l.executions e (ground arith) in
    (ground arith, ground arith, ground arith)

-- A second completion of an execution that has its outcome returns the stored row and changes nothing,
-- whatever the second result says.
pub complete_again :
    (l m : Ledger) (ref hash : Ref) (first second : ApplicationResult) (now later : Instant)
    (x : Execution)
    → complete l ref hash first now ≡ ok (x, m)
    → complete m ref hash second later ≡ ok (x, m)
unfolding complete locked_execution
complete_again l m ref hash first second now later x h =
    elim (Option-cases (execution_by ref l.executions)) [
      | inl missing ↦ absurd (ground arith)
      | inr (e, found) ↦ elim (Bool-cases (e.payload_hash == hash)) [
        | inr other ↦ absurd (ground arith)
        | inl same ↦ elim (Bool-cases (is_in_progress e.state)) [
          | inl running ↦
              let (stored, over, kept) = finish_stored l m ref e first now x found (ground arith) in
              ground arith
          | inr done ↦ ground arith
        ]
      ]
    ]
