-- ===== src/Bridge.antt =====
-- The bridge between the Agent service and the cases (apps/api/src/return_agent/agent_bridge.py) over
-- the tables of apps/api/src/return_agent/db/agent_bridge.py: events of the service are projected into
-- a case, poison events are rejected, and commands are published from an outbox.
pub mod Project
pub mod Reject
pub mod Consume
pub mod Rows
pub mod Order
pub mod Replay
pub mod Settle
pub mod Poison
pub mod Outbox
pub mod Acknowledge
pub mod Tests
use shopee_hachathonteam.Prelude.{
  ℕ, Bool, true, false, Option, none, some, List, [], ◌∷◌, Ref, Instant, ◌==◌, if◌then◌else◌,
}
use shopee_hachathonteam.Case.{CaseStatus, Tables, StoreError}
use shopee_hachathonteam.Runtime.{Node}

pub data NodeExecutionPhase : Type 0 where
  enter exit error : NodeExecutionPhase

pub data ResolutionAction : Type 0 where
  full_refund decline : ResolutionAction

pub record ResolutionHandoff : Type 0 where
  pub handoff_id : Ref
  pub action : ResolutionAction
  pub execution_blocked : Bool

-- A view is what the adapter to the user interface makes of the request, and none where it raises.
pub data Interrupt : Type 0 where
  policy_confirmation : (request_ref case_ref request : Ref) → Interrupt
  clarification evidence_request human_review : (view : Option Ref) → Interrupt

pub record Observation : Type 0 where
  pub phase : NodeExecutionPhase
  pub node : Node
  pub task_ref : Ref
  pub review_gate : Option Ref
  pub memory_retrieval : Option Ref

pub data EventPayload : Type 0 where
  node_observed : Observation → EventPayload
  interrupted : Interrupt → EventPayload
  run_resolved : ResolutionHandoff → EventPayload
  run_escalated : EventPayload
  run_failed : (failed_node : Option Node) → (retryable : Bool) → EventPayload

pub record AgentServiceEvent : Type 0 where
  pub event_id : Ref
  pub command_id : Ref
  pub case_ref : Ref
  pub thread_id : Ref
  pub event_index : ℕ
  pub occurred_at : Instant
  pub payload : EventPayload

-- The code of an error that the user sees.
pub data ErrorCode : Type 0 where
  refund_execution_rejected agent_event_rejected agent_run_failed agent_node_error : ErrorCode

-- The reason of a change of status.
pub data Reason : Type 0 where
  refund_completed refund_rejected event_invalid escalation_requested run_failure : Reason
  awaits_policy_confirmation awaits_clarification awaits_evidence awaits_review : Reason
  refund_handoff final_handoff no_mutation : Reason

-- What the bridge appends to the transcript of a case.
pub data UiEvent : Type 0 where
  node_enter node_exit : (task_ref : Ref) → (review_gate : Option Ref) → UiEvent
  memory_retrieval : (observation : Ref) → UiEvent
  interrupt : (view : Ref) → UiEvent
  state_change : (from_status to_status : CaseStatus) → Reason → UiEvent
  failure : ErrorCode → (retryable : Bool) → UiEvent
  done : (terminal_ref : Ref) → CaseStatus → UiEvent

-- A row of `processed_agent_events`.
pub record Processed : Type 0 where
  pub event_id : Ref
  pub case_ref : Ref
  pub command_id : Ref
  pub event_index : ℕ
  pub payload_hash : Ref

-- A row of `agent_event_projection_cursors`; `updated_at` is read by nothing.
pub record Cursor : Type 0 where
  pub command_id : Ref
  pub case_ref : Ref
  pub last_event_index : ℕ
  pub terminated_at : Option Instant
  pub termination_event_id : Option Ref

-- A row of `rejected_agent_events`, with its diagnostic texts left out.
pub record Rejected : Type 0 where
  pub source_message_id : Ref
  pub event_id : Option Ref
  pub case_ref : Option Ref

pub record Confirmation : Type 0 where
  pub request_ref : Ref
  pub case_ref : Ref
  pub request : Ref

pub record Board : Type 0 where
  pub tables : Tables
  pub processed : List Processed
  pub cursors : List Cursor
  pub rejected : List Rejected
  pub confirmations : List Confirmation

-- `gap` is AgentEventGapError, `invalid` InvalidAgentEventError and `unavailable`
-- RefundExecutionUnavailableError; `raised` is an error of the store that is not translated.
pub data ProjectError : Type 0 where
  gap invalid unavailable : ProjectError
  raised : StoreError → ProjectError

unfoldable pub processed_by : Ref → List Processed → Option Processed
processed_by id [] = none
processed_by id (p ∷ ps) = if p.event_id == id then some p else processed_by id ps

unfoldable pub cursor_by : Ref → List Cursor → Option Cursor
cursor_by id [] = none
cursor_by id (c ∷ cs) = if c.command_id == id then some c else cursor_by id cs

-- An UPDATE of the row that has the record's key.
unfoldable pub save_cursor : Cursor → List Cursor → List Cursor
save_cursor r [] = []
save_cursor r (c ∷ cs) = if c.command_id == r.command_id then r ∷ cs else c ∷ save_cursor r cs

unfoldable pub rejected_by : Ref → List Rejected → Option Rejected
rejected_by id [] = none
rejected_by id (r ∷ rs) = if r.source_message_id == id then some r else rejected_by id rs

unfoldable pub confirmation_by : Ref → List Confirmation → Option Confirmation
confirmation_by ref [] = none
confirmation_by ref (c ∷ cs) = if c.request_ref == ref then some c else confirmation_by ref cs
