-- ===== src/Refund/Start.antt =====
-- Opening an execution of the refund ledger, or recording its rejection (capabilities/refund.py).
use shopee_hachathonteam.Prelude.{
  Bool, ◌&&◌, not, Option, none, some, List, Ref, Instant, Result, ok, ◌>>=◌, ◌>>◌, raise_if,
  or_raise, ◌==◌, if◌then◌else◌, is_none,
}
use shopee_hachathonteam.Refund.{
  RefundRequest, in_progress, rejected, declined, Execution, Ledger, RefundError, conflict,
  data_integrity, is_in_progress, execution_by, by_handoff, save_execution, insert_execution,
}

-- `_require_matching_payload`
abbrev pub require_matching : Execution → Ref → Result RefundError (Unit {0})
require_matching e hash = raise_if (not (e.payload_hash == hash)) conflict

unfoldable pub find_by_handoff : Ledger → Ref → Ref → Result RefundError (Option Execution)
unfolding by_handoff
find_by_handoff l id hash = elim (by_handoff id l.executions) [
  | none ↦ ok none
  | some e ↦ require_matching e hash >> ok (some e)
]

unfoldable pub new_execution :
    (execution_ref : Ref) → RefundRequest → (hash : Ref) → Option Ref → Instant → Execution
new_execution ref request hash order now = record {
  execution_ref = ref;
  handoff_id = request.handoff_id;
  case_ref = request.case_ref;
  payload_hash = hash;
  request = request;
  order_ref = order;
  state = in_progress;
  application_result = none;
  application_started_at = none;
  completed_at = none;
  updated_at = now;
}

unfoldable pub start_pending :
    Ledger
    → (execution_ref : Ref) → RefundRequest
    → (hash order_ref : Ref) → Instant
    → Result RefundError (Execution × Ledger)
unfolding new_execution insert_execution by_handoff
start_pending l ref request hash order now = do
  let es = insert_execution (new_execution ref request hash (some order) now) l.executions
  e ← or_raise (by_handoff request.handoff_id es) data_integrity
  require_matching e hash
  ok (e, record l { executions = es })

-- A row with its terminal columns for a rejection.
unfoldable pub reject_row : Execution → List Ref → Instant → Execution
reject_row e reasons now = record e {
  state = rejected;
  application_result = some (declined reasons now);
  completed_at = some now;
  updated_at = now;
}

abbrev pub is_unstarted : Execution → Bool
is_unstarted e = is_in_progress e.state && is_none e.application_started_at

unfoldable pub create_rejected :
    Ledger
    → (execution_ref : Ref) → RefundRequest
    → (hash : Ref) → (reasons : List Ref) → Instant
    → Result RefundError (Execution × Ledger)
unfolding new_execution insert_execution by_handoff reject_row save_execution
create_rejected l ref request hash reasons now = do
  let fresh = reject_row (new_execution ref request hash none now) reasons now
  let es = insert_execution fresh l.executions
  e ← or_raise (by_handoff request.handoff_id es) data_integrity
  require_matching e hash
  let e' = if is_unstarted e then reject_row e reasons now else e
  let es' = if is_unstarted e then save_execution e' es else es
  ok (e', record l { executions = es' })

-- `_locked_execution`
unfoldable pub locked_execution : Ledger → Ref → Ref → Result RefundError Execution
unfolding execution_by
locked_execution l ref hash = do
  e ← or_raise (execution_by ref l.executions) data_integrity
  require_matching e hash
  ok e
