-- ===== src/Refund.antt =====
-- The refund ledger: `SqlAlchemyRefundExecutionRepository` of
-- apps/api/src/return_agent/capabilities/refund.py over the tables of db/models.py, with
-- `append_risk_event` of capabilities/user_risk.py. A transaction is a function from the tables to a
-- result: one that raises is rolled back, so an error carries no tables. The clock is an argument.
-- The operations are in the modules Start, Reserve and Complete; the proofs are in the others.
pub mod Rows
pub mod Start
pub mod Reserve
pub mod Complete
pub mod Success
pub mod Ownership
pub mod Terminal
pub mod Tests
pub mod Rejection
pub mod Authorization
pub mod Provider
use shopee_hachathonteam.Prelude.{
  ℕ, ◌≡◌, Bool, true, false, ◌&&◌, ◌||◌, not, Option, none, some, List, [], ◌∷◌, Ref, Instant,
  Result, ok, err, ◌>>=◌, ◌>>◌, raise_if, or_raise, ◌==◌, leb, if◌then◌else◌, is_none, sorted,
  same_option, keep_if, any_of,
}

pub record RefundRequest : Type 0 where
  pub handoff_id : Ref
  pub case_ref : Ref
  pub line_item_ids : List Ref
  pub reason_code : Ref
  pub body : Ref

pub data ExecutionState : Type 0 where
  in_progress succeeded rejected : ExecutionState

pub data ApplicationResult : Type 0 where
  applied : (application_ref : Ref) → (applied_at : Instant) → ApplicationResult
  declined : (reason_codes : List Ref) → (rejected_at : Instant) → ApplicationResult

pub record Execution : Type 0 where
  pub execution_ref : Ref
  pub handoff_id : Ref
  pub case_ref : Ref
  pub payload_hash : Ref
  pub request : RefundRequest
  pub order_ref : Option Ref
  pub state : ExecutionState
  pub application_result : Option ApplicationResult
  pub application_started_at : Option Instant
  pub completed_at : Option Instant
  pub updated_at : Instant

pub record Reservation : Type 0 where
  pub order_ref : Ref
  pub line_item_ref : Ref
  pub execution_ref : Ref

pub record RefundedItem : Type 0 where
  pub execution_ref : Ref
  pub line_item_ref : Ref
  pub order_ref : Ref
  pub applied_at : Instant

pub record CaseOwner : Type 0 where
  pub case_ref : Ref
  pub user_ref : Ref
  pub order_ref : Ref
  pub is_v2 : Bool

-- A REFUND_SUCCEEDED row of `user_risk_events`; the table has one for each case at most.
pub record RiskEvent : Type 0 where
  pub case_ref : Ref
  pub user_ref : Ref
  pub order_ref : Ref
  pub reason_code : Ref
  pub occurred_at : Instant

pub record Outbox : Type 0 where
  pub resolution_ref : Ref
  pub execution_ref : Ref
  pub application_ref : Ref
  pub applied_at : Instant
  pub published : Bool

pub record Ledger : Type 0 where
  pub executions : List Execution
  pub reservations : List Reservation
  pub items : List RefundedItem
  pub cases : List CaseOwner
  pub risk_events : List RiskEvent
  pub outbox : List Outbox

pub data RefundError : Type 0 where
  conflict data_integrity immutable_fact integrity_error invalid_value : RefundError

abbrev pub is_in_progress : ExecutionState → Bool
is_in_progress in_progress = true
is_in_progress _ = false

unfoldable pub execution_by : Ref → List Execution → Option Execution
execution_by ref [] = none
execution_by ref (e ∷ es) = if e.execution_ref == ref then some e else execution_by ref es

unfoldable pub by_handoff : Ref → List Execution → Option Execution
by_handoff id [] = none
by_handoff id (e ∷ es) = if e.handoff_id == id then some e else by_handoff id es

-- An UPDATE of the row that has the record's key.
unfoldable pub save_execution : Execution → List Execution → List Execution
save_execution r [] = []
save_execution r (e ∷ es) =
    if e.execution_ref == r.execution_ref then r ∷ es else e ∷ save_execution r es

-- `_insert_do_nothing` on the key `execution_ref` and the unique `handoff_id`.
unfoldable pub insert_execution : Execution → List Execution → List Execution
unfolding execution_by by_handoff
insert_execution r es =
    if is_none (execution_by r.execution_ref es) && is_none (by_handoff r.handoff_id es)
    then r ∷ es
    else es

-- `session.get(RefundItemReservation, (order_ref, item))`: who holds the item.
unfoldable pub owner : Ref → Ref → List Reservation → Option Ref
owner order item [] = none
owner order item (r ∷ rs) =
    if r.order_ref == order && r.line_item_ref == item
    then some r.execution_ref
    else owner order item rs

-- `_insert_do_nothing` on the key of the order and the item.
unfoldable pub insert_reservation : Reservation → List Reservation → List Reservation
unfolding owner
insert_reservation r rs = if is_none (owner r.order_ref r.line_item_ref rs) then r ∷ rs else rs
