-- ===== src/Bridge/Replay.antt =====
-- Events that are delivered again, or after their command was terminated.
use shopee_hachathonteam.Prelude.{
  ◌≡◌, refl, sym, subst, ◌&&◌, true, false, Option, none, some, Ref, Instant, ok, err, inl, inr,
  ◌⊎◌, arith, ◌==◌, is_none, Bool-cases, Option-cases, Result-cases, if◌then◌else◌,
}
use shopee_hachathonteam.Case.{CaseRecord, Tables, lock}
use shopee_hachathonteam.Runtime.{Node}
use shopee_hachathonteam.Bridge.{
  AgentServiceEvent, ResolutionHandoff, UiEvent, Processed, Cursor, Board, invalid, processed_by,
  cursor_by,
}
use shopee_hachathonteam.Bridge.Project.{
  RefundExecution, replayed, projected, same_processed, record_processed, check_cursor,
}
use shopee_hachathonteam.Bridge.Project.Apply.{
  project_new, apply, begin_projection, complete_refund, settle_case,
}

-- The event has a row of its own content.
abbrev pub IsProcessed : Board → AgentServiceEvent → (hash : Ref) → Type 0
IsProcessed b e hash =
    (p : Processed) × (processed_by e.event_id b.processed ≡ some p)
    × (same_processed p e hash ≡ true)

record_processed-IsProcessed :
    (b : Board) (e : AgentServiceEvent) (hash : Ref) (c : Option Cursor)
    → IsProcessed (record_processed b e hash c) e hash
unfolding record_processed processed_by
record_processed-IsProcessed b e hash c = (
  record {
    event_id = e.event_id;
    case_ref = e.case_ref;
    command_id = e.command_id;
    event_index = e.event_index;
    payload_hash = hash;
  },
  ground arith,
  ground arith,
)

module _ (encode : Instant → Node → UiEvent → Ref)
    (register : Tables → CaseRecord → ResolutionHandoff → Option Tables) where
  -- A processed event is answered by its row, whatever the case is by now.
  begin_projection-IsProcessed :
      (b : Board) (e f : AgentServiceEvent) (hash other : Ref) (now : Instant) {case : CaseRecord}
      → IsProcessed b e hash
      → lock b.tables f.case_ref ≡ ok case
      → f.event_id ≡ e.event_id
      → begin_projection encode register b f other now ≡ (
          if (e.case_ref == f.case_ref)
            && (e.command_id == f.command_id)
            && (e.event_index == f.event_index)
            && (hash == other)
          then ok (b, replayed)
          else err invalid)
  unfolding begin_projection
  begin_projection-IsProcessed b e f hash other now (p, there, same) locked id =
      let found : processed_by f.event_id b.processed ≡ some p =
        subst (λ x. processed_by x b.processed ≡ some p) (sym id) there in
      ground arith

  pub projected-IsProcessed :
      (b b' : Board) (e : AgentServiceEvent) (hash : Ref) (now : Instant)
      → begin_projection encode register b e hash now ≡ ok (b', projected)
      → IsProcessed b' e hash
  unfolding begin_projection project_new
  projected-IsProcessed b b' e hash now h = elim (Result-cases (lock b.tables e.case_ref)) [
    | inr (x, raised) ↦ absurd (ground arith)
    | inl (case, locked) ↦ elim (Option-cases (processed_by e.event_id b.processed)) [
      | inr (p, there) ↦ absurd (ground arith)
      | inl new ↦ elim (Result-cases (apply encode register b case e now)) [
        | inr (x, raised) ↦ absurd (ground arith)
        | inl (r, applied) ↦
            let same : record_processed r.0 e hash (cursor_by e.command_id b.cursors) ≡ b' =
              ground arith in
            subst (λ x. IsProcessed x e hash) same
              (record_processed-IsProcessed r.0 e hash (cursor_by e.command_id b.cursors))
      ]
    ]
  ]

  -- After an event was projected, the same event is replayed without a change, and another event under
  -- its identifier, with another place or another content, is refused, while their case exists.
  pub project_again :
      (b b' : Board) (e f : AgentServiceEvent) (hash other : Ref) (now later : Instant)
      {case : CaseRecord}
      → begin_projection encode register b e hash now ≡ ok (b', projected)
      → lock b'.tables f.case_ref ≡ ok case
      → f.event_id ≡ e.event_id
      → begin_projection encode register b' f other later ≡ (
          if (e.case_ref == f.case_ref)
            && (e.command_id == f.command_id)
            && (e.event_index == f.event_index)
            && (hash == other)
          then ok (b', replayed)
          else err invalid)
  project_again b b' e f hash other now later h locked id =
      begin_projection-IsProcessed b' e f hash other later (projected-IsProcessed b b' e hash now h)
        locked id

  -- Once the command's projection is terminated, an event of the command changes nothing: it is
  -- replayed, or it is refused.
  pub terminated_is_final :
      (b : Board) (e : AgentServiceEvent) (hash : Ref) (now : Instant) {c : Cursor}
      → cursor_by e.command_id b.cursors ≡ some c
      → is_none c.terminated_at ≡ false
      → (begin_projection encode register b e hash now ≡ ok (b, replayed))
        ⊎ (begin_projection encode register b e hash now ≡ err invalid)
  unfolding begin_projection project_new check_cursor
  terminated_is_final b e hash now there over = elim (Result-cases (lock b.tables e.case_ref)) [
    | inr (x, raised) ↦ inr (ground arith)
    | inl (case, locked) ↦ elim (Option-cases (processed_by e.event_id b.processed)) [
      | inl new ↦ inr (ground arith)
      | inr (p, found) ↦ elim (Bool-cases (same_processed p e hash)) [
        | inl same ↦ inl (ground arith)
        | inr differs ↦ inr (ground arith)
      ]
    ]
  ]

  -- After the refund of a new event was completed in the case, neither a second completion, whatever its
  -- result, nor another delivery of the event changes anything, while the case exists.
  pub complete_refund_again :
      (b b' : Board) (e : AgentServiceEvent) (r other : RefundExecution) (hash : Ref)
      (now later : Instant) {case : CaseRecord}
      → processed_by e.event_id b.processed ≡ none
      → complete_refund encode b e r hash now ≡ ok b'
      → lock b'.tables e.case_ref ≡ ok case
      → (complete_refund encode b' e other hash later ≡ ok b')
        × (begin_projection encode register b' e hash later ≡ ok (b', replayed))
  unfolding complete_refund
  complete_refund_again b b' e r other hash now later new h locked =
      elim (Result-cases (lock b.tables e.case_ref)) [
        | inr (x, raised) ↦ absurd (ground arith)
        | inl (c, held) ↦ elim (Result-cases (settle_case encode b.tables c.case_ref r now)) [
          | inr (x, raised) ↦ absurd (ground arith)
          | inl (t, settled) ↦
              let b1 : Board = record b { tables = t } in
              let cursor = cursor_by e.command_id b.cursors in
              let same : record_processed b1 e hash cursor ≡ b' = ground arith in
              let known : IsProcessed b' e hash =
                subst (λ x. IsProcessed x e hash) same
                  (record_processed-IsProcessed b1 e hash cursor) in
              let (p, found, own) = known in
              (
                ground arith,
                ground
                    (arith, begin_projection-IsProcessed b' e e hash hash later known locked refl),
              )
        ]
      ]
