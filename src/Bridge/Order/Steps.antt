-- ===== src/Bridge/Order/Steps.antt =====
-- The order of the projected events under one transaction of the bridge.
use shopee_hachathonteam.Prelude.{
  ◌+◌, ◌≡◌, refl, sym, subst, true, Option, none, some, ◌∷◌, Ref, Instant, ok, inl, inr, arith,
  is_none, Bool-cases, Option-cases, Result-cases,
}
use shopee_hachathonteam.Case.{case_by, lock, CaseRecord, Tables}
use shopee_hachathonteam.Runtime.{Node}
use shopee_hachathonteam.Bridge.{
  AgentServiceEvent, ResolutionHandoff, UiEvent, Board, processed_by, rejected_by, cursor_by,
}
use shopee_hachathonteam.Bridge.Project.{
  RefundExecution, Outcome, is_refund_pending, record_processed,
}
use shopee_hachathonteam.Bridge.Project.Apply.{
  settle_case, project_interrupt, apply, project_new, begin_projection, complete_refund,
}
use shopee_hachathonteam.Bridge.Reject.{PoisonMessage, reject, reject_case, terminate_cursor}
use shopee_hachathonteam.Bridge.Rows.{last_index}
use shopee_hachathonteam.Bridge.Order.{
  IsSequential, InOrder, Keeps, check_cursor-next, record_processed-InOrder, same_rows-InOrder,
  terminate_cursor-last, record_processed_keeps,
}

module _ (encode : Instant → Node → UiEvent → Ref) (rejected_ref : Ref → Ref) where
  reject_case-Keeps :
      (b b' : Board) (m : PoisonMessage) (case : CaseRecord) (now : Instant)
      → reject_case encode rejected_ref b m case now ≡ ok b'
      → InOrder b
      → Keeps b b'
  unfolding reject_case
  reject_case-Keeps b b' m case now h o =
      let event_ref : Ref = elim m.event_id [
        | none ↦ rejected_ref m.source_message_id
        | some id ↦ id
      ] in
      let kept : b'.processed ≡ b.processed = ground arith in
      let cursors : b'.cursors
          ≡ terminate_cursor m.command_id case.case_ref event_ref now b.cursors =
        ground arith in
      let last = terminate_cursor-last m.command_id case.case_ref event_ref now b.cursors in
      (
        record {
          sequential = subst IsSequential (sym kept) o.sequential;
          once = ground (arith, o.once);
          counted = λ id. ground (arith, o.counted id, (last id).0);
        },
        λ id h. (last id).1 (ground arith),
      )

  pub reject-Keeps :
      (b b' : Board) (m : PoisonMessage) (now : Instant)
      → reject encode rejected_ref b m now ≡ ok b'
      → InOrder b
      → Keeps b b'
  unfolding reject
  reject-Keeps b b' m now h o = elim (Option-cases (rejected_by m.source_message_id b.rejected)) [
    | inr (old, there) ↦
        let same : b ≡ b' = ground arith in (subst InOrder same o, λ id h. ground arith)
    | inl new ↦ elim (Option-cases m.case_ref) [
      | inl no_ref ↦ unwritten (ground arith) (ground arith)
      | inr (ref, named) ↦ elim (Option-cases (case_by ref b.tables.cases)) [
        | inl missing ↦ unwritten (ground arith) (ground arith)
        | inr (case, found) ↦
            let kept : Board = record b {
              rejected =
                  record {
                    source_message_id = m.source_message_id;
                    event_id = m.event_id;
                    case_ref = m.case_ref;
                  }
                  ∷ b.rejected;
            } in
            let (after, none_gone) =
              reject_case-Keeps kept b' m case now (ground arith)
                (same_rows-InOrder b kept refl refl o) in
            (after, none_gone)
      ]
    ]
  ]
    where
      unwritten : b'.processed ≡ b.processed → b'.cursors ≡ b.cursors → Keeps b b'
      unwritten p c = (same_rows-InOrder b b' p c o, λ id h. ground arith)

  module _ (register : Tables → CaseRecord → ResolutionHandoff → Option Tables) where
    -- What applies an event writes no bookkeeping.
    pub apply-rows :
        (b b' : Board) (case : CaseRecord) (e : AgentServiceEvent) (now : Instant) (o : Outcome)
        → apply encode register b case e now ≡ ok (b', o)
        → (b'.processed ≡ b.processed) × (b'.cursors ≡ b.cursors) × (b'.rejected ≡ b.rejected)
    unfolding apply project_interrupt
    apply-rows b b' case e now o h = ground arith

    pub project_new-Keeps :
        (b b' : Board) (case : CaseRecord) (e : AgentServiceEvent) (hash : Ref) (now : Instant)
        (o : Outcome)
        → processed_by e.event_id b.processed ≡ none
        → project_new encode register b case e hash now ≡ ok (b', o)
        → InOrder b
        → Keeps b b'
          × (e.event_index ≡ last_index (cursor_by e.command_id b.cursors) + 1)
          × (is_refund_pending o ≡ true → b'.cursors ≡ b.cursors)
    unfolding project_new
    project_new-Keeps b b' case e hash now o new h i =
        elim (Result-cases (apply encode register b case e now)) [
          | inr (x, raised) ↦ absurd (ground arith)
          | inl (r, applied) ↦
              let rows = apply-rows b r.0 case e now r.1 applied in
              let next = check_cursor-next e (cursor_by e.command_id b.cursors) (ground arith) in
              let after = same_rows-InOrder b r.0 rows.0 rows.1 i in
              elim (Bool-cases (is_refund_pending r.1)) [
                | inl waits ↦
                    let same : r.0 ≡ b' = ground arith in
                    ((subst InOrder same after, λ id h. ground arith), next, λ w. ground arith)
                | inr over ↦
                    let same : record_processed r.0 e hash (cursor_by e.command_id r.0.cursors)
                        ≡ b' =
                      ground arith in
                    (
                      (
                        subst InOrder same (
                            record_processed-InOrder r.0 e hash after (ground arith)
                              (ground arith)),
                        λ id h. ground (arith, record_processed_keeps r.0 e hash id),
                      ),
                      next,
                      λ w. absurd (ground arith),
                    )
              ]
        ]

    -- The first transaction of `project`: a refund that waits has the index after its cursor's.
    pub begin_projection-Keeps :
        (b b' : Board) (e : AgentServiceEvent) (hash : Ref) (now : Instant) (o : Outcome)
        → begin_projection encode register b e hash now ≡ ok (b', o)
        → InOrder b
        → Keeps b b'
          × (is_refund_pending o ≡ true
              → is_none (cursor_by e.command_id b'.cursors) ≡ true
              → e.event_index ≡ 1)
    unfolding begin_projection
    begin_projection-Keeps b b' e hash now o h i = elim (Result-cases (lock b.tables e.case_ref)) [
      | inr (x, raised) ↦ absurd (ground arith)
      | inl (case, locked) ↦ elim (Option-cases (processed_by e.event_id b.processed)) [
        | inr (p, there) ↦
            let same : b ≡ b' = ground arith in
            ((subst InOrder same i, λ id h. ground arith), λ w n. absurd (ground arith))
        | inl new ↦
            let (kept, next, waits) =
              project_new-Keeps b b' case e hash now o new (ground arith) i in
            (kept, λ w n. first w n next (waits w))
      ]
    ]
      where
        first :
            is_refund_pending o ≡ true
            → is_none (cursor_by e.command_id b'.cursors) ≡ true
            → e.event_index ≡ last_index (cursor_by e.command_id b.cursors) + 1
            → b'.cursors ≡ b.cursors
            → e.event_index ≡ 1
        first w n next same = ground arith

  -- `_complete_refund`, for an event that is the first one where its command has no cursor.
  pub complete_refund-Keeps :
      (b b' : Board) (e : AgentServiceEvent) (r : RefundExecution) (hash : Ref) (now : Instant)
      → complete_refund encode b e r hash now ≡ ok b'
      → (is_none (cursor_by e.command_id b.cursors) ≡ true → e.event_index ≡ 1)
      → InOrder b
      → Keeps b b'
  unfolding complete_refund
  complete_refund-Keeps b b' e r hash now h first i =
      elim (Result-cases (lock b.tables e.case_ref)) [
        | inr (x, raised) ↦ absurd (ground arith)
        | inl (case, locked) ↦ elim (Option-cases (processed_by e.event_id b.processed)) [
          | inr (p, there) ↦
              let same : b ≡ b' = ground arith in (subst InOrder same i, λ id h. ground arith)
          | inl new ↦ elim (Result-cases (settle_case encode b.tables case.case_ref r now)) [
            | inr (x, raised) ↦ absurd (ground arith)
            | inl (t, settled) ↦
                let b1 : Board = record b { tables = t } in
                let same : record_processed b1 e hash (cursor_by e.command_id b1.cursors) ≡ b' =
                  ground arith in
                let next : e.event_index ≡ last_index (cursor_by e.command_id b.cursors) + 1 =
                  elim (Option-cases (cursor_by e.command_id b.cursors)) [
                    | inl none_yet ↦ ground (arith, first)
                    | inr (c, there) ↦ ground arith
                  ] in
                (
                  subst InOrder same (
                      record_processed-InOrder b1 e hash (same_rows-InOrder b b1 refl refl i) new
                        next),
                  λ id h. ground (arith, record_processed_keeps b1 e hash id),
                )
          ]
        ]
      ]
