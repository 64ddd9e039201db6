-- ===== src/Bridge/Reject.antt =====
-- `AgentEventProjector.reject` (apps/api/src/return_agent/agent_bridge.py): a poison event is kept, its
-- command is terminated, and its case is escalated.
use shopee_hachathonteam.Prelude.{
  Bool, false, ◌&&◌, ◌||◌, Option, none, some, List, ◌∷◌, Ref, Instant, Result, ok, ◌>>=◌, ◌==◌,
  is_none, if◌then◌else◌,
}
use shopee_hachathonteam.Case.{
  CaseStatus, resolved, escalated, CaseRecord, Tables, StoreError, case_by, same_status,
}
use shopee_hachathonteam.Runtime.{Node, terminate_automation}
use shopee_hachathonteam.Bridge.{
  agent_event_rejected, event_invalid, UiEvent, failure, Cursor, Board, cursor_by, save_cursor,
  rejected_by,
}
use shopee_hachathonteam.Bridge.Project.Apply.{append_ui, close}

-- The message that is rejected, with the references that its event has or that its body shows.
pub record PoisonMessage : Type 0 where
  pub source_message_id : Ref
  pub event_id : Option Ref
  pub command_id : Option Ref
  pub case_ref : Option Ref

-- The cursor of the command ends: a new one that projected nothing, or the case's own that goes on.
unfoldable pub terminate_cursor :
    (command_id : Option Ref)
    → (case_ref event_ref : Ref) → (now : Instant) → List Cursor
    → List Cursor
unfolding cursor_by save_cursor
terminate_cursor none case_ref event_ref now cs = cs
terminate_cursor (some command) case_ref event_ref now cs = elim (cursor_by command cs) [
  | none ↦
      record {
        command_id = command;
        case_ref = case_ref;
        last_event_index = 0;
        terminated_at = some now;
        termination_event_id = some event_ref;
      }
      ∷ cs
  | some c ↦
      if c.case_ref == case_ref && is_none c.terminated_at
      then save_cursor
          (record c { terminated_at = some now; termination_event_id = some event_ref }) cs
      else cs
]

abbrev pub is_closed : CaseStatus → Bool
is_closed s = same_status s resolved || same_status s escalated

-- `encode` writes a transcript's event as JSON, and `rejected_ref` makes `rejected:<message>`.
module _ (encode : Instant → Node → UiEvent → Ref) (rejected_ref : Ref → Ref) where
  -- `event_id or f"rejected:{source_message_id}"`
  abbrev pub termination_event_id : PoisonMessage → Ref
  termination_event_id m = elim m.event_id [
    | none ↦ rejected_ref m.source_message_id
    | some id ↦ id
  ]

  -- What a rejection does to the case that the message names.
  unfoldable pub escalate :
      Tables → CaseRecord → (event_ref : Ref) → (now : Instant) → Result StoreError Tables
  unfolding append_ui close
  escalate t case event_ref now =
      if is_closed case.status
      then ok t
      else (append_ui encode t case.case_ref now terminate_automation
            (failure agent_event_rejected false)
          >>= λ t'.
              close encode t' case.case_ref escalated terminate_automation now event_invalid
                event_ref now)

  unfoldable pub reject_case :
      Board → PoisonMessage → CaseRecord → (now : Instant) → Result StoreError Board
  unfolding terminate_cursor escalate
  reject_case b m case now = do
    t ← escalate b.tables case (termination_event_id m) now
    ok (record b {
      tables = t;
      cursors = terminate_cursor m.command_id case.case_ref (termination_event_id m) now b.cursors;
    })

  unfoldable pub reject : Board → PoisonMessage → (now : Instant) → Result StoreError Board
  unfolding rejected_by reject_case
  reject b m now =
      if is_none (rejected_by m.source_message_id b.rejected) then by_case m.case_ref else ok b
    where
      kept : Board
      kept = record b {
        rejected =
            record {
              source_message_id = m.source_message_id;
              event_id = m.event_id;
              case_ref = m.case_ref;
            }
            ∷ b.rejected;
      }

      by_case : Option Ref → Result StoreError Board
      by_case none = ok kept
      by_case (some ref) = elim (case_by ref b.tables.cases) [
        | none ↦ ok kept
        | some case ↦ reject_case kept m case now
      ]
