-- ===== src/Bridge/Poison.antt =====
-- The rejection of a poison event.
use shopee_hachathonteam.Prelude.{
  ◌≡◌, refl, sym, subst, ◌∙◌, ap, true, false, none, some, List, ◌∷◌, Ref, Instant, ok, inl, inr,
  ◌⊎◌, arith, ◌==◌, is_none, Bool-cases, Option-cases, ◌&&◌,
}
use shopee_hachathonteam.Case.{CaseStatus, escalated, CaseRecord, Tables, case_by, is_allowed}
use shopee_hachathonteam.Case.Transitions.{case_by_key}
use shopee_hachathonteam.Runtime.{Node, terminate_automation}
use shopee_hachathonteam.Bridge.{
  UiEvent, failure, agent_event_rejected, event_invalid, Board, Cursor, cursor_by, rejected_by,
}
use shopee_hachathonteam.Bridge.Reject.{
  PoisonMessage, is_closed, termination_event_id, escalate, reject_case, reject, terminate_cursor,
}
use shopee_hachathonteam.Bridge.Rows.{cursor_by-save_cursor, cursor_by_key}
use shopee_hachathonteam.Bridge.Settle.{append_ui_total, close_total, close_moves}

open_escalates : (s : CaseStatus) → is_closed s ≡ false → is_allowed s escalated ≡ true
unfolding is_allowed
open_escalates s h = ground arith

-- After a termination the command has a cursor, and one of this case is terminated.
terminate_cursor-terminates :
    (command case_ref event_ref : Ref) (now : Instant) (cs : List Cursor)
    → (c : Cursor) × (cursor_by command (terminate_cursor (some command) case_ref event_ref now cs)
        ≡ some c)
      × ((c.case_ref == case_ref) ≡ true → is_none c.terminated_at ≡ false)
unfolding terminate_cursor
terminate_cursor-terminates command case_ref event_ref now cs =
    elim (Option-cases (cursor_by command cs)) [
      | inl absent ↦ (
        record {
          command_id = command;
          case_ref = case_ref;
          last_event_index = 0;
          terminated_at = some now;
          termination_event_id = some event_ref;
        },
        unfold cursor_by in ground arith,
        λ own. ground arith,
      )
      | inr (c, there) ↦
          let key = cursor_by_key command cs c there in
          let ended : Cursor = record c {
            terminated_at = some now;
            termination_event_id = some event_ref;
          } in
          let written = cursor_by-save_cursor command ended c cs in
          elim (Bool-cases (c.case_ref == case_ref && is_none c.terminated_at)) [
            | inl goes_on ↦ (ended, ground (arith, written), λ own. ground arith)
            | inr over ↦ (c, ground arith, λ own. ground arith)
          ]
    ]

module _ (encode : Instant → Node → UiEvent → Ref) (rejected_ref : Ref → Ref) where
  -- The case of a rejected event ends as ESCALATED, or had ended.
  escalate_closes :
      (t : Tables) (case : CaseRecord) (ref event_ref : Ref) (now : Instant)
      → case_by ref t.cases ≡ some case
      → (t' : Tables) × (escalate encode rejected_ref t case event_ref now ≡ ok t')
        × (c : CaseRecord) × (case_by ref t'.cases ≡ some c)
        × (is_closed c.status ≡ true)
  unfolding escalate
  escalate_closes t case ref event_ref now there = elim (Bool-cases (is_closed case.status)) [
    | inl closed ↦ (t, ground arith, case, there, closed)
    | inr going ↦
        let key = case_by_key ref t.cases case there in
        let own : case_by case.case_ref t.cases ≡ some case =
          subst (λ x. case_by x t.cases ≡ some case) (sym key) there in
        let (t1, told, cases1) =
          append_ui_total encode t case.case_ref now terminate_automation
            (failure agent_event_rejected false) case own in
        let own1 : case_by case.case_ref t1.cases ≡ some case =
          ap (λ cs. case_by case.case_ref cs) cases1 ∙ own in
        let (t2, ended) =
          close_total encode t1 case.case_ref escalated terminate_automation now event_invalid
            event_ref now case own1 (open_escalates case.status going) in
        let (c, was, allowed, rows) =
          close_moves encode t1 t2 case.case_ref ref escalated terminate_automation now
            event_invalid event_ref now ended in
        (t2, ground arith, record c { status = escalated; updated_at = now }, ground arith, refl)
  ]

  pub reject_total :
      (b : Board) (m : PoisonMessage) (now : Instant)
      → rejected_by m.source_message_id b.rejected ≡ none
      → (b' : Board) × (reject encode rejected_ref b m now ≡ ok b')
        × (is_none (rejected_by m.source_message_id b'.rejected) ≡ false)
        × ((ref : Ref) (case : CaseRecord)
            → m.case_ref ≡ some ref
            → case_by ref b.tables.cases ≡ some case
            → ((c : CaseRecord) × (case_by ref b'.tables.cases ≡ some c)
                × (is_closed c.status ≡ true))
              × ((command : Ref)
                  → m.command_id ≡ some command
                  → (k : Cursor) × (cursor_by command b'.cursors ≡ some k)
                    × ((k.case_ref == ref) ≡ true → is_none k.terminated_at ≡ false)))
  unfolding reject reject_case rejected_by
  reject_total b m now new = elim (Option-cases m.case_ref) [
    | inl no_ref ↦ (kept, ground arith, ground arith, λ ref case named there. absurd (ground arith))
    | inr (ref, named) ↦ elim (Option-cases (case_by ref b.tables.cases)) [
      | inl missing ↦ (
        kept,
        ground arith,
        ground arith,
        λ r case same there.
            let is : ref ≡ r = ground arith in
            absurd (absent r case (subst (λ x. case_by x b.tables.cases ≡ none) is missing) there),
      )
      | inr (case, there) ↦
          let event_ref = termination_event_id encode rejected_ref m in
          let (t, closes, c, held, closed) =
            escalate_closes b.tables case ref event_ref now there in
          let key = case_by_key ref b.tables.cases case there in
          let cursors : List Cursor =
            terminate_cursor m.command_id case.case_ref event_ref now b.cursors in
          (
            record kept { tables = t; cursors = cursors },
            ground arith,
            ground arith,
            λ r other same found.
                let is : ref ≡ r = ground arith in
                (
                  (c, subst (λ x. case_by x t.cases ≡ some c) is held, closed),
                  λ command given.
                      let (k, at, ends) =
                        terminate_cursor-terminates command case.case_ref event_ref now b.cursors in
                      (k, rw given at, λ own. ends (ground arith)),
                ),
          )
    ]
  ]
    where
      kept : Board
      kept = record b {
        rejected =
            record {
              source_message_id = m.source_message_id;
              event_id = m.event_id;
              case_ref = m.case_ref;
            }
            ∷ b.rejected;
      }

      absent :
          (r : Ref) (case : CaseRecord)
          → case_by r b.tables.cases ≡ none
          → case_by r b.tables.cases ≡ some case
          → ⊥
      absent r case no_row there = ground arith

  -- Rejecting a message that was not rejected before, and that names a command and a case that exists, does not
  -- raise, and is recorded. The case ends, or had ended, and the command is terminated, unless its cursor is of
  -- another case.
  pub reject_closes :
      (b : Board) (m : PoisonMessage) (now : Instant) (ref command : Ref) (case : CaseRecord)
      → rejected_by m.source_message_id b.rejected ≡ none
      → m.case_ref ≡ some ref
      → m.command_id ≡ some command
      → case_by ref b.tables.cases ≡ some case
      → (b' : Board) × (c : CaseRecord) × (k : Cursor) × (reject encode rejected_ref b m now
          ≡ ok b')
        × (is_none (rejected_by m.source_message_id b'.rejected) ≡ false)
        × (case_by ref b'.tables.cases ≡ some c)
        × (is_closed c.status ≡ true)
        × (cursor_by command b'.cursors ≡ some k)
        × (((k.case_ref == ref) ≡ false) ⊎ (is_none k.terminated_at ≡ false))
  reject_closes b m now ref command case new named given there =
      let (b', rejects, recorded, ends) = reject_total b m now new in
      let ((c, held, closed), commands) = ends ref case named there in
      let (k, at, stops) = commands command given in
      (
        b',
        c,
        k,
        rejects,
        recorded,
        held,
        closed,
        at,
        elim (Bool-cases (k.case_ref == ref)) [ inl own ↦ inr (stops own) | inr other ↦ inl other ],
      )

  -- A message that was rejected is not rejected again.
  pub reject_once :
      (b : Board) (m : PoisonMessage) (now : Instant)
      → is_none (rejected_by m.source_message_id b.rejected) ≡ false
      → reject encode rejected_ref b m now ≡ ok b
  unfolding reject
  reject_once b m now known = ground arith
