-- ===== src/Bridge/Project/Apply.antt =====
-- What an event does to its case (`_apply` and the methods that it calls), and the two transactions of
-- `AgentEventProjector.project` (apps/api/src/return_agent/agent_bridge.py).
use shopee_hachathonteam.Prelude.{
  ◌+◌, Bool, false, ◌||◌, not, Option, none, some, List, ◌∷◌, Ref, Instant, Result, ok, err, ◌>>=◌,
  ◌>>◌, raise_if, or_raise, ◌==◌, is_none, if◌then◌else◌,
}
use shopee_hachathonteam.Case.{
  CaseStatus, observing, awaiting_policy_confirmation, awaiting_clarification, awaiting_evidence,
  awaiting_human_review, executing, resolved, escalated, CaseRecord, Tables, StoreError,
  agent_event, append_event, lock, transition,
}
use shopee_hachathonteam.Runtime.{
  Node, parse_request, request_clarification, request_evidence, confirm_policy_path,
  await_human_review, emit_resolution_handoff, terminate_automation,
}
use shopee_hachathonteam.Bridge.{
  enter, exit, error, full_refund, decline, ResolutionHandoff, Interrupt, policy_confirmation,
  clarification, evidence_request, human_review, Observation, node_observed, interrupted,
  run_resolved, run_escalated, run_failed, AgentServiceEvent, refund_execution_rejected,
  agent_run_failed, agent_node_error, Reason, refund_completed, refund_rejected,
  escalation_requested, run_failure, awaits_policy_confirmation, awaits_clarification,
  awaits_evidence, awaits_review, refund_handoff, final_handoff, no_mutation, UiEvent, node_enter,
  node_exit, memory_retrieval, interrupt, state_change, failure, done, Cursor, Confirmation, Board,
  ProjectError, gap, invalid, processed_by, cursor_by, confirmation_by,
}
use shopee_hachathonteam.Bridge.Project.{
  Outcome, RefundExecution, applicable, check_cursor, is_interrupt, is_refund_pending, projected,
  record_processed, refund_pending, replayed, same_processed, untranslated,
}

-- `encode` writes an event of the transcript as JSON.
module _ (encode : Instant → Node → UiEvent → Ref) where
  -- `append_agent_event`
  unfoldable pub append_ui : Tables → Ref → Instant → Node → UiEvent → Result StoreError Tables
  append_ui t ref at node event =
      append_event t ref (agent_event (is_interrupt event) (encode at node event))

  -- `_transition`
  unfoldable pub move :
      Tables
      → Ref
      → CaseStatus
      → Node
      → (occurred_at : Instant) → Reason
      → (now : Instant) → Result StoreError Tables
  unfolding append_ui
  move t ref target node at reason now = do
    case ← lock t ref
    t' ← transition t ref target now
    append_ui t' ref at node (state_change case.status target reason)

  -- `_transition` to a final status, and `_done`.
  unfoldable pub close :
      Tables
      → Ref
      → CaseStatus
      → Node
      → (occurred_at : Instant) → Reason
      → (terminal_ref : Ref) → (now : Instant) → Result StoreError Tables
  unfolding move append_ui
  close t ref target node at reason terminal now = do
    t' ← move t ref target node at reason now
    append_ui t' ref at node (done terminal target)

  -- `_project_node`
  unfoldable pub project_node : Tables → Ref → Instant → Observation → Result StoreError Tables
  unfolding append_ui
  project_node t ref at o = elim o.phase [
    | error ↦ append_ui t ref at o.node (failure agent_node_error false)
    | enter ↦ append_ui t ref at o.node (node_enter o.task_ref o.review_gate) >>= retrieval
    | exit ↦ append_ui t ref at o.node (node_exit o.task_ref o.review_gate) >>= retrieval
  ]
    where
      retrieval : Tables → Result StoreError Tables
      retrieval t' = elim o.memory_retrieval [
        | none ↦ ok t'
        | some m ↦ append_ui t' ref at o.node (memory_retrieval m)
      ]

  -- The interrupt in the transcript, and the status that waits for its reply.
  unfoldable pub pause :
      Tables
      → Ref
      → Instant
      → Node
      → CaseStatus
      → Reason
      → (view : Option Ref) → (now : Instant) → Result ProjectError Tables
  unfolding append_ui move
  pause t ref at node target reason view now = do
    v ← or_raise view invalid
    t' ← applicable (append_ui t ref at node (interrupt v))
    applicable (move t' ref target node at reason now)

  -- The request of a policy confirmation is stored once.
  unfoldable pub keep_request :
      CaseRecord → Ref → Ref → Ref → List Confirmation → Result ProjectError (List Confirmation)
  unfolding confirmation_by
  keep_request case request_ref case_ref request rows = do
    raise_if (not (case_ref == case.case_ref) || not case.is_v2) invalid
    elim (confirmation_by request_ref rows) [
      | none ↦
          ok (
            record { request_ref = request_ref; case_ref = case.case_ref; request = request }
            ∷ rows)
      | some old ↦ raise_if (not (old.request == request)) invalid >> ok rows
    ]

  -- `_project_interrupt`
  unfoldable pub project_interrupt :
      Board → CaseRecord → Instant → Interrupt → (now : Instant) → Result ProjectError Board
  unfolding pause keep_request
  project_interrupt b case at (policy_confirmation request_ref case_ref request) now = do
    rows ← keep_request case request_ref case_ref request b.confirmations
    t ←
        pause b.tables case.case_ref at confirm_policy_path awaiting_policy_confirmation
          awaits_policy_confirmation (some request) now
    ok (record b { tables = t; confirmations = rows })
  project_interrupt b case at (clarification view) now = do
    t ←
        pause b.tables case.case_ref at request_clarification awaiting_clarification
          awaits_clarification view now
    ok (record b { tables = t })
  project_interrupt b case at (evidence_request view) now = do
    t ← pause b.tables case.case_ref at request_evidence awaiting_evidence awaits_evidence view now
    ok (record b { tables = t })
  project_interrupt b case at (human_review view) now = do
    t ←
        pause b.tables case.case_ref at await_human_review awaiting_human_review awaits_review view
          now
    ok (record b { tables = t })

  -- `register` is register_authorization, which opens the authorization of a v2 refund, as far as it
  -- writes the case; none where it raises.
  module _ (register : Tables → CaseRecord → ResolutionHandoff → Option Tables) where
    -- `_project_resolution`
    unfoldable pub project_resolution :
        Tables
        → CaseRecord
        → Instant
        → ResolutionHandoff
        → (now : Instant) → Result ProjectError (Tables × Outcome)
    unfolding move close
    project_resolution t case at h now = elim h.action [
      | full_refund ↦
          if case.is_v2
          then (or_raise (register t case h) invalid >>= λ t'. ok (t', projected))
          else if not h.execution_blocked
          then refund case.status
          else final
      | decline ↦ final
    ]
      where
        refund : CaseStatus → Result ProjectError (Tables × Outcome)
        refund observing =
            applicable
              (move t case.case_ref executing emit_resolution_handoff at refund_handoff now)
            >>= λ t'. ok (t', refund_pending)
        refund executing = ok (t, refund_pending)
        refund _ = err invalid

        final : Result ProjectError (Tables × Outcome)
        final = do
          t1 ←
              applicable
                (move t case.case_ref executing emit_resolution_handoff at final_handoff now)
          t2 ← applicable (
              close t1 case.case_ref resolved emit_resolution_handoff at no_mutation h.handoff_id
                now)
          ok (t2, projected)

    -- `_apply`
    unfoldable pub apply :
        Board
        → CaseRecord
        → AgentServiceEvent
        → (now : Instant) → Result ProjectError (Board × Outcome)
    unfolding project_node project_interrupt project_resolution close append_ui
    apply b case e now = elim e.payload [
      | node_observed o ↦ applicable (project_node b.tables e.case_ref e.occurred_at o) >>= λ t.
          ok (record b { tables = t }, projected)
      | interrupted i ↦ project_interrupt b case e.occurred_at i now >>= λ b'. ok (b', projected)
      | run_resolved h ↦ project_resolution b.tables case e.occurred_at h now >>= λ r.
          ok (record b { tables = r.0 }, r.1)
      | run_escalated ↦
          applicable (
            close b.tables case.case_ref escalated terminate_automation e.occurred_at
              escalation_requested e.event_id now)
          >>= λ t. ok (record b { tables = t }, projected)
      | run_failed failed_node retryable ↦
          let node : Node = elim failed_node [ none ↦ parse_request | some n ↦ n ] in
          applicable (
            append_ui b.tables case.case_ref e.occurred_at node
              (failure agent_run_failed retryable))
          >>= λ t.
              applicable
                (close t case.case_ref escalated node e.occurred_at run_failure e.event_id now)
              >>= λ t'. ok (record b { tables = t' }, projected)
    ]

    -- An event that is not processed yet.
    unfoldable pub project_new :
        Board
        → CaseRecord
        → AgentServiceEvent
        → (hash : Ref) → (now : Instant) → Result ProjectError (Board × Outcome)
    unfolding check_cursor apply record_processed
    project_new b case e hash now = do
      raise_if (not (case.thread_id == e.thread_id)) invalid
      check_cursor e (cursor_by e.command_id b.cursors)
      r ← apply b case e now
      ok (
        (if is_refund_pending r.1
            then r.0
            else record_processed r.0 e hash (cursor_by e.command_id b.cursors)),
        r.1,
      )

    -- The first transaction of `project`.
    unfoldable pub begin_projection :
        Board
        → AgentServiceEvent
        → (hash : Ref) → (now : Instant) → Result ProjectError (Board × Outcome)
    unfolding project_new processed_by
    begin_projection b e hash now = do
      case ← applicable (lock b.tables e.case_ref)
      elim (processed_by e.event_id b.processed) [
        | some p ↦ if same_processed p e hash then ok (b, replayed) else err invalid
        | none ↦ project_new b case e hash now
      ]

  -- The refund's end in the case: resolved, or an error and escalated.
  unfoldable pub settle_case :
      Tables → Ref → RefundExecution → (now : Instant) → Result StoreError Tables
  unfolding close append_ui
  settle_case t ref r now =
      if r.succeeded
      then close t ref resolved emit_resolution_handoff now refund_completed r.execution_ref now
      else (append_ui t ref now emit_resolution_handoff (failure refund_execution_rejected false)
          >>= λ t'.
              close t' ref escalated emit_resolution_handoff now refund_rejected r.execution_ref
                now)

  -- `_complete_refund`, the second transaction of a refund.
  unfoldable pub complete_refund :
      Board
      → AgentServiceEvent
      → RefundExecution
      → (hash : Ref) → (now : Instant) → Result ProjectError Board
  unfolding settle_case record_processed processed_by
  complete_refund b e r hash now = do
    case ← untranslated (lock b.tables e.case_ref)
    let cursor = cursor_by e.command_id b.cursors
    let finish : Result ProjectError Board = do
      raise_if (out_of_order cursor) gap
      t ← untranslated (settle_case b.tables case.case_ref r now)
      ok (record_processed (record b { tables = t }) e hash cursor)
    if is_none (processed_by e.event_id b.processed) then finish else ok b
    where
      out_of_order : Option Cursor → Bool
      out_of_order none = false
      out_of_order (some c) = not (c.last_event_index + 1 == e.event_index)
