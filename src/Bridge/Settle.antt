-- ===== src/Bridge/Settle.antt =====
-- What the end of a refund, and the rejection of an event, do to the case.
use shopee_hachathonteam.Prelude.{
  ◌≡◌, refl, sym, ◌∙◌, ap, true, false, none, some, ◌∷◌, Ref, Instant, ok, inl, inr, ◌⊎◌, arith,
  ◌==◌, Bool-cases, Option-cases, Result-cases, if◌then◌else◌,
}
use shopee_hachathonteam.Case.{
  CaseStatus, executing, resolved, escalated, CaseRecord, Tables, case_by, lock, append_event,
  lock_case_and_highest_sequence, transition, is_allowed, agent_event, next_sequence,
  highest_sequence,
}
use shopee_hachathonteam.Case.Transitions.{transition_moves, transition_total, case_by_key}
use shopee_hachathonteam.Runtime.{Node, emit_resolution_handoff}
use shopee_hachathonteam.Bridge.{
  AgentServiceEvent, UiEvent, state_change, failure, done, refund_completed, refund_rejected,
  refund_execution_rejected, Board, Reason, processed_by,
}
use shopee_hachathonteam.Bridge.Project.{RefundExecution, is_interrupt, record_processed}
use shopee_hachathonteam.Bridge.Project.Apply.{append_ui, move, close, settle_case, complete_refund}
use shopee_hachathonteam.Bridge.Reject.{is_closed}

module _ (encode : Instant → Node → UiEvent → Ref) where
  -- An event can be appended exactly to the transcript of a case that exists, and moves no case.
  pub append_ui-cases :
      (t t' : Tables) (ref : Ref) (at : Instant) (node : Node) (event : UiEvent)
      → append_ui encode t ref at node event ≡ ok t'
      → t'.cases ≡ t.cases
  unfolding append_ui append_event
  append_ui-cases t t' ref at node event h = ground arith

  pub append_ui_total :
      (t : Tables) (ref : Ref) (at : Instant) (node : Node) (event : UiEvent) (c : CaseRecord)
      → case_by ref t.cases ≡ some c
      → (t' : Tables) × (append_ui encode t ref at node event ≡ ok t') × (t'.cases ≡ t.cases)
  unfolding append_ui append_event lock_case_and_highest_sequence
  append_ui_total t ref at node event c there = (
    record t {
      events =
          record {
            case_ref = ref;
            seq = next_sequence (highest_sequence ref t.events);
            payload = agent_event (is_interrupt event) (encode at node event);
          }
          ∷ t.events;
    },
    ground arith,
    refl,
  )

  not_closed : (s target : CaseStatus) → is_allowed s target ≡ true → is_closed s ≡ false
  unfolding is_allowed
  not_closed s target h = ground arith

  -- A change to a final status, with its two events.
  pub close_moves :
      (t t' : Tables) (ref other : Ref) (target : CaseStatus) (node : Node) (at : Instant)
      (reason : Reason) (terminal : Ref) (now : Instant)
      → close encode t ref target node at reason terminal now ≡ ok t'
      → (c : CaseRecord) × (case_by ref t.cases ≡ some c)
        × (is_allowed c.status target ≡ true)
        × (case_by other t'.cases ≡ (
            if ref == other
            then some (record c { status = target; updated_at = now })
            else case_by other t.cases))
  unfolding close move append_ui append_event
  close_moves t t' ref other target node at reason terminal now h =
      elim (Result-cases (transition t ref target now)) [
        | inr (x, raised) ↦ absurd (ground arith)
        | inl (t1, moved) ↦
            let (c, there, allowed, rows, events) = transition_moves t ref other target now moved in
            let same : t'.cases ≡ t1.cases = ground arith in
            (c, there, allowed, ap (λ cs. case_by other cs) same ∙ rows)
      ]

  -- The end of a case that may take the status does not raise.
  pub close_total :
      (t : Tables) (ref : Ref) (target : CaseStatus) (node : Node) (at : Instant) (reason : Reason)
      (terminal : Ref) (now : Instant) (c : CaseRecord)
      → case_by ref t.cases ≡ some c
      → is_allowed c.status target ≡ true
      → (t' : Tables) × (close encode t ref target node at reason terminal now ≡ ok t')
  unfolding close move lock
  close_total t ref target node at reason terminal now c there allowed =
      let (t1, moved, rows) = transition_total t ref target now c there allowed in
      let (t2, noted, cases2) =
        append_ui_total t1 ref at node (state_change c.status target reason)
          (record c { status = target; updated_at = now }) rows in
      let (t3, ended, cases3) =
        append_ui_total t2 ref at node (done terminal target)
          (record c { status = target; updated_at = now })
          (ap (λ cs. case_by ref cs) cases2 ∙ rows) in
      (t3, ground arith)

  settle_case-moves :
      (t t' : Tables) (ref other : Ref) (r : RefundExecution) (now : Instant)
      → settle_case encode t ref r now ≡ ok t'
      → (c : CaseRecord) × (case_by ref t.cases ≡ some c)
        × (is_allowed c.status (if r.succeeded then resolved else escalated) ≡ true)
        × (case_by other t'.cases ≡ (
            if ref == other
            then some (record c {
              status = if r.succeeded then resolved else escalated;
              updated_at = now;
            })
            else case_by other t.cases))
  unfolding settle_case
  settle_case-moves t t' ref other r now h = elim (Bool-cases r.succeeded) [
    | inl paid ↦ rw paid (
        close_moves t t' ref other resolved emit_resolution_handoff now refund_completed
          r.execution_ref now (ground arith))
    | inr refused ↦
        elim (Result-cases (
          append_ui encode t ref now emit_resolution_handoff
            (failure refund_execution_rejected false))) [
              | inr (x, raised) ↦ absurd (ground arith)
              | inl (t1, told) ↦
                  let same =
                    append_ui-cases t t1 ref now emit_resolution_handoff
                      (failure refund_execution_rejected false) told in
                  let (c, there, allowed, rows) =
                    close_moves t1 t' ref other escalated emit_resolution_handoff now
                      refund_rejected r.execution_ref now (ground arith) in
                  rw refused
                    (c, sym (ap (λ cs. case_by ref cs) same) ∙ there, allowed, ground arith)
            ]
  ]

  to_resolved : (s : CaseStatus) → is_allowed s resolved ≡ true → s ≡ executing
  unfolding is_allowed
  to_resolved s h = ground arith

  -- Completing the refund of a new event ends its case: as RESOLVED when the execution succeeded, where
  -- the case was in execution, and as ESCALATED when it was rejected, where the case had not ended; no
  -- other case changes.
  pub complete_refund_ends :
      (b b' : Board) (e : AgentServiceEvent) (r : RefundExecution) (hash other : Ref)
      (now : Instant)
      → processed_by e.event_id b.processed ≡ none
      → complete_refund encode b e r hash now ≡ ok b'
      → (c : CaseRecord) × (case_by e.case_ref b.tables.cases ≡ some c)
        × ((r.succeeded ≡ false) ⊎ (c.status ≡ executing))
        × (is_closed c.status ≡ false)
        × (case_by other b'.tables.cases ≡ (
            if e.case_ref == other
            then some (record c {
              status = if r.succeeded then resolved else escalated;
              updated_at = now;
            })
            else case_by other b.tables.cases))
  unfolding complete_refund record_processed lock
  complete_refund_ends b b' e r hash other now new h =
      elim (Option-cases (case_by e.case_ref b.tables.cases)) [
        | inl missing ↦ absurd (ground arith)
        | inr (case, held) ↦
            let key = case_by_key e.case_ref b.tables.cases case held in
            elim (Result-cases (settle_case encode b.tables case.case_ref r now)) [
              | inr (x, raised) ↦ absurd (ground arith)
              | inl (t, settled) ↦
                  let (c, there, allowed, rows) =
                    settle_case-moves b.tables t case.case_ref other r now settled in
                  (
                    c,
                    ground arith,
                    elim (Bool-cases r.succeeded) [
                      | inl paid ↦ inr (to_resolved c.status (ground arith))
                      | inr refused ↦ inl refused
                    ],
                    not_closed c.status (if r.succeeded then resolved else escalated) allowed,
                    ground arith,
                  )
            ]
      ]
