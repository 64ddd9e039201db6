-- ===== src/Bridge/Acknowledge.antt =====
-- What is behind the acknowledgement of an event.
use shopee_hachathonteam.Prelude.{
  ◌≡◌, refl, Bool, true, false, Option, Ref, Instant, Result, ok, err, inl, inr, ◌⊎◌, arith,
  is_none, Bool-cases, Option-cases, Result-cases,
}
use shopee_hachathonteam.Case.{lock, CaseRecord}
use shopee_hachathonteam.Bridge.{
  AgentServiceEvent, Board, ProjectError, gap, invalid, unavailable, raised, processed_by,
  rejected_by,
}
use shopee_hachathonteam.Bridge.Project.{
  RefundExecution, Outcome, replayed, projected, refund_pending, record_processed,
}
use shopee_hachathonteam.Bridge.Project.Apply.{
  begin_projection, complete_refund, settle_case, project_new, apply, project_interrupt,
  project_resolution,
}
use shopee_hachathonteam.Bridge.Reject.{PoisonMessage}
use shopee_hachathonteam.Bridge.Consume.{
  Surroundings, Message, Body, event, malformed, consume_event_once, project, finish_projection,
  by_answer, reject_message, poison_of,
}
use shopee_hachathonteam.Bridge.Replay.{projected-IsProcessed}
use shopee_hachathonteam.Bridge.Poison.{reject_total, reject_once}

-- The event has a row of processed events.
abbrev pub HasRow : Board → AgentServiceEvent → Type 0
HasRow b e = is_none (processed_by e.event_id b.processed) ≡ false

-- The message has a row of rejected events.
abbrev pub IsRejected : Board → Ref → Type 0
IsRejected b id = is_none (rejected_by id b.rejected) ≡ false

Body-cases :
    (b : Body)
    → ((e : AgentServiceEvent) × (b ≡ event e))
      ⊎ ((x : Option Ref) × (y : Option Ref) × (z : Option Ref) × (b ≡ malformed x y z))
Body-cases (event e) = inl (e, refl)
Body-cases (malformed x y z) = inr (x, y, z, refl)

module _ (s : Surroundings) where
  -- A rejection always succeeds and leaves its row.
  reject_message-acks :
      (b : Board) (m : PoisonMessage) (now : Instant)
      → ((reject_message s b m now).acked ≡ true)
        × IsRejected (reject_message s b m now).board m.source_message_id
  unfolding reject_message
  reject_message-acks b m now = elim (Option-cases (rejected_by m.source_message_id b.rejected)) [
    | inl new ↦
        let (b', rejects, known, ends) = reject_total s.encode s.rejected_ref b m now new in
        (ground arith, ground arith)
    | inr (old, there) ↦
        let same = reject_once s.encode s.rejected_ref b m now (ground arith) in
        (ground arith, ground arith)
  ]

  complete_refund-HasRow :
      (b b' : Board) (e : AgentServiceEvent) (r : RefundExecution) (now : Instant)
      → complete_refund s.encode b e r (s.hash e) now ≡ ok b'
      → HasRow b' e
  unfolding complete_refund record_processed processed_by
  complete_refund-HasRow b b' e r now h = elim (Result-cases (lock b.tables e.case_ref)) [
    | inr (x, failed) ↦ absurd (ground arith)
    | inl (case, locked) ↦ elim (Bool-cases (is_none (processed_by e.event_id b.processed))) [
      | inr known ↦ ground arith
      | inl new ↦ elim (Result-cases (settle_case s.encode b.tables case.case_ref r now)) [
        | inr (x, failed) ↦ absurd (ground arith)
        | inl (t, settled) ↦ ground arith
      ]
    ]
  ]

  replays_none :
      (b b' : Board) (case : CaseRecord) (e : AgentServiceEvent) (now : Instant)
      → project_new s.encode s.register b case e (s.hash e) now ≡ ok (b', replayed)
      → ⊥
  unfolding project_new apply project_interrupt project_resolution
  replays_none b b' case e now h = ground arith

  by_answer-handled :
      (id : Ref) (e : AgentServiceEvent) (now : Instant) (b : Board) (r : Result ProjectError Bool)
      → ((a : Bool) → r ≡ ok a → HasRow b e)
      → (by_answer s id e now b r).acked ≡ true
      → IsRejected (by_answer s id e now b r).board id ⊎ HasRow (by_answer s id e now b r).board e
  unfolding by_answer
  by_answer-handled id e now b (ok a) returned h = inr (returned a refl)
  by_answer-handled id e now b (err gap) returned h = absurd (ground arith)
  by_answer-handled id e now b (err invalid) returned h =
      inl (reject_message-acks b (poison_of id e) now).1
  by_answer-handled id e now b (err unavailable) returned h = absurd (ground arith)
  by_answer-handled id e now b (err (raised x)) returned h = absurd (ground arith)

  replayed-HasRow :
      (b b' : Board) (e : AgentServiceEvent) (now : Instant)
      → begin_projection s.encode s.register b e (s.hash e) now ≡ ok (b', replayed)
      → HasRow b' e
  unfolding begin_projection project_new
  replayed-HasRow b b' e now h = elim (Result-cases (lock b.tables e.case_ref)) [
    | inr (x, failed) ↦ absurd (ground arith)
    | inl (case, locked) ↦ elim (Option-cases (processed_by e.event_id b.processed)) [
      | inr (p, there) ↦ ground arith
      | inl new ↦ absurd (replays_none b b' case e now (ground arith))
    ]
  ]

  -- The end of `project`, after each outcome of its first transaction.
  finish_projection-HasRow :
      (b b' : Board) (e : AgentServiceEvent) (o : Outcome) (now : Instant) {answer : Bool}
      → begin_projection s.encode s.register b e (s.hash e) now ≡ ok (b', o)
      → (finish_projection s b' e o now).1 ≡ ok answer
      → HasRow (finish_projection s b' e o now).0 e
  unfolding finish_projection
  finish_projection-HasRow b b' e replayed now began h = replayed-HasRow b b' e now began
  finish_projection-HasRow b b' e projected now began h =
      let (p, there, same) =
        projected-IsProcessed s.encode s.register b b' e (s.hash e) now began in
      ground arith
  finish_projection-HasRow b b' e refund_pending now began h = elim (Option-cases (s.execute e)) [
    | inl none_yet ↦ absurd (ground arith)
    | inr (r, executed) ↦
        elim (Result-cases (complete_refund s.encode (s.during b') e r (s.hash e) now)) [
          | inr (x, failed) ↦ absurd (ground arith)
          | inl (b2, completed) ↦
              let row = complete_refund-HasRow (s.during b') b2 e r now completed in ground arith
        ]
  ]

  -- When `project` returns, the event has its row, in whichever transaction it was written.
  project-HasRow :
      (b : Board) (e : AgentServiceEvent) (now : Instant) {answer : Bool}
      → (project s b e now).1 ≡ ok answer
      → HasRow (project s b e now).0 e
  unfolding project
  project-HasRow b e now {answer} h =
      elim (Result-cases (begin_projection s.encode s.register b e (s.hash e) now)) [
        | inr (x, failed) ↦ absurd (ground arith)
        | inl (r, began) ↦
            let row =
              finish_projection-HasRow b r.0 e r.1 now {answer = answer} began (ground arith) in
            ground arith
      ]

  -- A delivery acknowledges a message only when its event is processed, or when the message is kept as
  -- rejected, whatever the refund provider answers and other transactions do meanwhile.
  pub acked_handled :
      (b : Board) (m : Message) (now : Instant)
      → (consume_event_once s b m now).acked ≡ true
      → IsRejected (consume_event_once s b m now).board m.message_id
        ⊎ ((e : AgentServiceEvent) × (m.body ≡ event e)
            × HasRow (consume_event_once s b m now).board e)
  unfolding consume_event_once
  acked_handled b m now h = elim (Body-cases m.body) [
    | inl (e, is) ↦
        elim (by_answer-handled m.message_id e now (project s b e now).0 (project s b e now).1
          (λ a returned. project-HasRow b e now returned) (ground arith)) [
            | inl rejected ↦ inl (ground arith)
            | inr row ↦ inr (e, is, ground arith)
          ]
    | inr (x, y, z, is) ↦
        let (acks, row) =
          reject_message-acks b
            (record {
              source_message_id = m.message_id;
              event_id = x;
              command_id = y;
              case_ref = z;
            })
            now in
        inl (ground arith)
  ]
