-- ===== src/Bridge/Project.antt =====
-- The index of an event and the record of its projection, in `AgentEventProjector.project`
-- (apps/api/src/return_agent/agent_bridge.py).
pub mod Apply
use shopee_hachathonteam.Prelude.{
  ℕ, ◌+◌, Bool, true, false, ◌&&◌, ◌||◌, not, Option, none, some, List, ◌∷◌, Ref, Instant, Result,
  ok, err, ◌>>=◌, ◌>>◌, raise_if, or_raise, ◌==◌, ltb, is_none, if◌then◌else◌,
}
use shopee_hachathonteam.Case.{
  CaseStatus, observing, awaiting_policy_confirmation, awaiting_clarification, awaiting_evidence,
  awaiting_human_review, executing, resolved, escalated, CaseRecord, Tables, StoreError,
  agent_event, append_event, lock, transition,
}
use shopee_hachathonteam.Runtime.{
  Node, parse_request, request_clarification, request_evidence, confirm_policy_path,
  await_human_review, emit_resolution_handoff, terminate_automation,
}
use shopee_hachathonteam.Bridge.{
  enter, exit, error, full_refund, decline, ResolutionHandoff, Interrupt, policy_confirmation,
  clarification, evidence_request, human_review, Observation, node_observed, interrupted,
  run_resolved, run_escalated, run_failed, AgentServiceEvent, refund_execution_rejected,
  agent_run_failed, agent_node_error, Reason, refund_completed, refund_rejected,
  escalation_requested, run_failure, awaits_policy_confirmation, awaits_clarification,
  awaits_evidence, awaits_review, refund_handoff, final_handoff, no_mutation, UiEvent, node_enter,
  node_exit, memory_retrieval, interrupt, state_change, failure, done, Processed, Cursor,
  Confirmation, Board, ProjectError, gap, invalid, raised, processed_by, cursor_by, save_cursor,
  confirmation_by,
}

-- `status`, and the reference of the execution.
pub record RefundExecution : Type 0 where
  pub execution_ref : Ref
  pub succeeded : Bool

-- What the first transaction did.
pub data Outcome : Type 0 where
  replayed projected refund_pending : Outcome

abbrev pub is_refund_pending : Outcome → Bool
is_refund_pending refund_pending = true
is_refund_pending _ = false

-- `except (CaseNotFoundError, IllegalTransitionError, ...): raise InvalidAgentEventError`
abbrev pub applicable {ℓ} : {A : Type ℓ} → Result StoreError A → Result ProjectError A
applicable (ok a) = ok a
applicable (err e) = err invalid

-- An error of the store that leaves the projector as it is.
abbrev pub untranslated {ℓ} : {A : Type ℓ} → Result StoreError A → Result ProjectError A
untranslated (ok a) = ok a
untranslated (err e) = err (raised e)

abbrev pub is_interrupt : UiEvent → Bool
is_interrupt (interrupt view) = true
is_interrupt _ = false

-- `expected_index`, and the two ways to miss it.
unfoldable pub check_index : ℕ → ℕ → Result ProjectError (Unit {0})
check_index expected index =
    raise_if (ltb expected index) gap >> raise_if (ltb index expected) invalid

unfoldable pub check_cursor : AgentServiceEvent → Option Cursor → Result ProjectError (Unit {0})
unfolding check_index
check_cursor e none = check_index 1 e.event_index
check_cursor e (some c) = do
  raise_if (not (c.case_ref == e.case_ref)) invalid
  raise_if (not (is_none c.terminated_at)) invalid
  check_index (c.last_event_index + 1) e.event_index

-- The row is the event's.
abbrev pub same_processed : Processed → AgentServiceEvent → (hash : Ref) → Bool
same_processed p e hash =
    p.case_ref == e.case_ref
    && p.command_id == e.command_id
    && p.event_index == e.event_index
    && p.payload_hash == hash

-- `_record_processed`
unfoldable pub record_processed : Board → AgentServiceEvent → (hash : Ref) → Option Cursor → Board
unfolding save_cursor
record_processed b e hash cursor = record b {
  processed = row ∷ b.processed;
  cursors = advanced cursor;
}
  where
    row : Processed
    row = record {
      event_id = e.event_id;
      case_ref = e.case_ref;
      command_id = e.command_id;
      event_index = e.event_index;
      payload_hash = hash;
    }

    advanced : Option Cursor → List Cursor
    advanced none =
        record {
          command_id = e.command_id;
          case_ref = e.case_ref;
          last_event_index = e.event_index;
          terminated_at = none;
          termination_event_id = none;
        }
        ∷ b.cursors
    advanced (some c) = save_cursor (record c { last_event_index = e.event_index }) b.cursors
