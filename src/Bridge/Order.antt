-- ===== src/Bridge/Order.antt =====
-- The order of the projected events, and the bookkeeping of an event and of a rejection.
pub mod Steps
pub mod Reached
use shopee_hachathonteam.Prelude.{
  ℕ, ◌+◌, ◌≡◌, refl, sym, subst, ap, Bool, true, false, not, ◌&&◌, Option, none, some, List, [],
  ◌∷◌, Ref, Instant, map, ok, err, inl, inr, ◌⊎◌, arith, ◌==◌, ltb, is_none, mem, distinct, All,
  Any, if◌then◌else◌, Bool-cases, Option-cases, Result-cases, raise_if, ◌>>◌,
}
use shopee_hachathonteam.Case.{CaseRecord, Tables}
use shopee_hachathonteam.Runtime.{Node}
use shopee_hachathonteam.Bridge.{
  AgentServiceEvent, ResolutionHandoff, UiEvent, Processed, Cursor, Board, processed_by, cursor_by,
  save_cursor,
}
use shopee_hachathonteam.Bridge.Project.{
  RefundExecution, Outcome, replayed, projected, refund_pending, is_refund_pending, check_index,
  check_cursor, record_processed,
}
use shopee_hachathonteam.Bridge.Project.Apply.{
  project_interrupt, apply, project_new, begin_projection, complete_refund,
}
use shopee_hachathonteam.Bridge.Reject.{PoisonMessage, reject, reject_case, terminate_cursor}
use shopee_hachathonteam.Bridge.Rows.{
  cursor_by-save_cursor, cursor_by_key, processed_by-none, entries, last_index,
}

-- Each row has as its index the number of rows of its command up to it, from 1, without a gap.
abbrev pub IsSequential : List Processed → Type 0
IsSequential [] = Unit
IsSequential (p ∷ ps) = (p.event_index ≡ entries p.command_id ps + 1) × IsSequential ps

-- The projected events are sequential, each is there once, and the cursors count them.
pub record InOrder (b : Board) : Type 0 where
  pub sequential : IsSequential b.processed
  pub once : distinct (map (λ p. p.event_id) b.processed) ≡ true
  pub counted : (id : Ref) → last_index (cursor_by id b.cursors) ≡ entries id b.processed

check_index-eq : (expected index : ℕ) → check_index expected index ≡ ok tt → index ≡ expected
unfolding check_index
check_index-eq expected index h = ground arith

pub check_cursor-next :
    (e : AgentServiceEvent) (c : Option Cursor)
    → check_cursor e c ≡ ok tt
    → e.event_index ≡ last_index c + 1
unfolding check_cursor
check_cursor-next e none h = ground (arith, check_index-eq 1 e.event_index)
check_cursor-next e (some c) h =
    ground (arith, check_index-eq (c.last_event_index + 1) e.event_index)

pub record_processed-InOrder :
    (b : Board) (e : AgentServiceEvent) (hash : Ref)
    → InOrder b
    → processed_by e.event_id b.processed ≡ none
    → e.event_index ≡ last_index (cursor_by e.command_id b.cursors) + 1
    → InOrder (record_processed b e hash (cursor_by e.command_id b.cursors))
unfolding record_processed
record_processed-InOrder b e hash o new next = record {
  sequential = (ground (arith, o.counted e.command_id), o.sequential);
  once = ground (arith, processed_by-none e.event_id b.processed new, o.once);
  counted = λ id. elim (Option-cases (cursor_by e.command_id b.cursors)) [
    | inl none_yet ↦ unfold cursor_by in ground (arith, o.counted id, o.counted e.command_id)
    | inr (c, there) ↦
        let key = cursor_by_key e.command_id b.cursors c there in
        let written =
          cursor_by-save_cursor id (record c { last_event_index = e.event_index }) c b.cursors in
        ground (arith, o.counted id, o.counted e.command_id, written)
  ];
}

pub same_rows-InOrder :
    (b b' : Board) → b'.processed ≡ b.processed → b'.cursors ≡ b.cursors → InOrder b → InOrder b'
same_rows-InOrder b b' p c o = record {
  sequential = subst IsSequential (sym p) o.sequential;
  once = ground (arith, o.once);
  counted = λ id. ground (arith, o.counted id);
}

-- A termination leaves the count of every command, and removes no cursor.
pub terminate_cursor-last :
    (command : Option Ref) (case_ref event_ref : Ref) (now : Instant) (cs : List Cursor) (id : Ref)
    → (last_index (cursor_by id (terminate_cursor command case_ref event_ref now cs))
        ≡ last_index (cursor_by id cs))
      × (is_none (cursor_by id (terminate_cursor command case_ref event_ref now cs)) ≡ true
          → is_none (cursor_by id cs) ≡ true)
unfolding terminate_cursor
terminate_cursor-last none case_ref event_ref now cs id = (refl, λ h. h)
terminate_cursor-last (some command) case_ref event_ref now cs id =
    elim (Option-cases (cursor_by command cs)) [
      | inl absent ↦ unfold cursor_by in (ground arith, λ h. ground arith)
      | inr (c, there) ↦
          let key = cursor_by_key command cs c there in
          let written =
            cursor_by-save_cursor id
              (record c { terminated_at = some now; termination_event_id = some event_ref }) c cs in
          (ground (arith, written), λ h. ground (arith, written))
    ]

pub record_processed_keeps :
    (b : Board) (e : AgentServiceEvent) (hash : Ref) (id : Ref)
    → is_none (cursor_by id (record_processed b e hash (cursor_by e.command_id b.cursors)).cursors)
      ≡ true
    → is_none (cursor_by id b.cursors) ≡ true
unfolding record_processed
record_processed_keeps b e hash id h = elim (Option-cases (cursor_by e.command_id b.cursors)) [
  | inl none_yet ↦ unfold cursor_by in ground arith
  | inr (c, there) ↦
      let key = cursor_by_key e.command_id b.cursors c there in
      ground (
        arith,
        cursor_by-save_cursor id (record c { last_event_index = e.event_index }) c b.cursors,
      )
]

-- A transaction keeps the order, and no cursor that there was is gone.
abbrev pub Keeps : Board → Board → Type 0
Keeps b b' =
    InOrder b'
    × ((id : Ref)
        → is_none (cursor_by id b'.cursors) ≡ true
        → is_none (cursor_by id b.cursors) ≡ true)
