-- ===== src/Worker/Consume/Release.antt =====
-- A delivery that raises leaves its command unclaimed by this worker.
use shopee_hachathonteam.Prelude.{
  ℕ, suc, ◌+◌, ◌≡◌, refl, inl, inr, Bool, true, false, not, Option, none, some, List, [], ◌∷◌, Ref,
  Instant, ok, err, arith, Option-cases, Bool-cases, Result-cases, subst,
}
use shopee_hachathonteam.Worker.Journal.{
  claimed, CommandState, JournalRow, claim, claim_existing, abandon, finish, row_by, save_row,
  delete_row, is_held,
}
use shopee_hachathonteam.Worker.Journal.Laws.{row_by_key, row_by-save}
use shopee_hachathonteam.Worker.Consume.{
  AgentCommand, BrokerMessage, AgentRun, AgentServiceEvent, World, WorkerError, Faults, Observing,
  observe_all, acknowledge, conclude, execute, run_once, event_of, ending,
}
use shopee_hachathonteam.Worker.Consume.Delivery.{observe_all-same}

-- The primary key of the journal.
abbrev pub IsUnique : List JournalRow → Type 0
IsUnique [] = Unit
IsUnique (r ∷ rs) = (row_by r.command_id rs ≡ none) × IsUnique rs

-- `owner` has no running claim of the command.
abbrev pub is_free_of : (owner id : Ref) → List JournalRow → Bool
is_free_of owner id rows = elim (row_by id rows) [ none ↦ true | some r ↦ not (is_held owner r) ]

save-IsUnique :
    (new : JournalRow) (rows : List JournalRow) (old : JournalRow)
    → row_by new.command_id rows ≡ some old
    → IsUnique rows
    → IsUnique (save_row new rows)
unfolding row_by save_row
save-IsUnique new [] old h u = tt
save-IsUnique new (x ∷ rows) old h u =
    ground (arith, save-IsUnique new rows old, row_by-save x.command_id new rows old)

claim-IsUnique :
    (owner : Ref) (lease : ℕ) (now : Instant) (id : Ref) (rows : List JournalRow)
    → IsUnique rows
    → IsUnique (claim owner lease now id rows).1
unfolding claim claim_existing
claim-IsUnique owner lease now id rows u = elim (Option-cases (row_by id rows)) [
  | inl absent ↦ ground arith
  | inr (r, there) ↦
      let new : JournalRow = record r {
        claimed_by = some owner;
        claimed_until = some (now + lease);
        updated_at = now;
      } in
      let key = row_by_key id rows r there in
      let saved = save-IsUnique new rows r (ground arith) u in ground arith
]

finish-IsUnique :
    (owner : Ref) (state : CommandState) (now : Instant) (id : Ref) (rows rows' : List JournalRow)
    → finish owner state now id rows ≡ ok rows'
    → IsUnique rows
    → IsUnique rows'
unfolding finish
finish-IsUnique owner state now id rows rows' h u = elim (Option-cases (row_by id rows)) [
  | inl absent ↦ absurd (ground arith)
  | inr (r, there) ↦
      let done : JournalRow = record r {
        state = state;
        claimed_by = none;
        claimed_until = none;
        updated_at = now;
      } in
      let key = row_by_key id rows r there in
      let saved = save-IsUnique done rows r (ground arith) u in
      let same : save_row done rows ≡ rows' = ground arith in subst IsUnique same saved
]

deleted_row :
    (id : Ref) (rows : List JournalRow) → IsUnique rows → row_by id (delete_row id rows) ≡ none
unfolding row_by delete_row
deleted_row id [] u = refl
deleted_row id (x ∷ rows) u = ground (arith, deleted_row id rows)

-- Giving a command up frees it.
abandon-is_free_of :
    (owner id : Ref) (rows : List JournalRow)
    → IsUnique rows
    → is_free_of owner id (abandon owner id rows) ≡ true
unfolding abandon
abandon-is_free_of owner id rows u = elim (Option-cases (row_by id rows)) [
  | inl absent ↦ ground arith
  | inr (r, there) ↦ ground (arith, deleted_row id rows u)
]

module _ (faults : Faults) (owner : Ref) (finished_at : Instant) where
  conclude-IsUnique :
      (m : BrokerMessage) (c : AgentCommand) (e : AgentServiceEvent) (state : CommandState)
      (w : World)
      → IsUnique w.rows
      → IsUnique (conclude faults owner finished_at m c e state w).1.rows
  unfolding conclude acknowledge
  conclude-IsUnique m c e state w u =
      elim (Result-cases (finish owner state finished_at c.command_id w.rows)) [
        | inr (error, raised) ↦ ground arith
        | inl (rows, recorded) ↦
            let kept =
              finish-IsUnique owner state finished_at c.command_id w.rows rows recorded u in
            ground arith
      ]

  execute-IsUnique :
      (run : AgentCommand → AgentRun) (meanwhile : List JournalRow → List JournalRow)
      (m : BrokerMessage) (c : AgentCommand) (w : World)
      → ((rows : List JournalRow) → IsUnique rows → IsUnique (meanwhile rows))
      → IsUnique w.rows
      → IsUnique (execute faults owner finished_at run meanwhile m c w).1.rows
  unfolding execute
  execute-IsUnique run meanwhile m c w keep u =
      let start : Observing = record {
        event_index = 0;
        last_node = none;
        observation_error = false;
      } in
      let seen = observe_all faults c start (run c).observed w in
      let same = observe_all-same faults c start (run c).observed w in
      let w2 : World = record seen.1 { rows = meanwhile seen.1.rows } in
      let last = seen.0.last_node in
      let same_rows : w.rows ≡ seen.1.rows = ground arith in
      let unique = keep seen.1.rows (subst IsUnique same_rows u) in
      elim (Bool-cases seen.0.observation_error) [
        | inl lost ↦ ground arith
        | inr clear ↦
            let kept =
              conclude-IsUnique m c
                (event_of c (suc seen.0.event_index)
                  (ending faults owner finished_at (run c).result last).1)
                (ending faults owner finished_at (run c).result last).0 w2 unique in
            ground arith
      ]

-- When a delivery of a command that the worker claimed raises, the worker holds no claim of the command
-- any more, so that another delivery can run it: there may be a failure of the broker, at any of its
-- calls, or a lease that another worker took over.
pub raised-is_free_of :
    (faults : Faults) (owner : Ref) (finished_at : Instant) (parse : Ref → Option AgentCommand)
    (run : AgentCommand → AgentRun) (meanwhile : List JournalRow → List JournalRow) (lease : ℕ)
    (now : Instant) (m : BrokerMessage) (c : AgentCommand) (w w' : World) (e : WorkerError)
    → parse m.body ≡ some c
    → (claim owner lease now c.command_id w.rows).0 ≡ claimed
    → ((rows : List JournalRow) → IsUnique rows → IsUnique (meanwhile rows))
    → IsUnique w.rows
    → run_once faults owner finished_at parse run meanwhile lease now (some m) w ≡ (err e, w')
    → is_free_of owner c.command_id w'.rows ≡ true
unfolding run_once
raised-is_free_of faults owner finished_at parse run meanwhile lease now m c w w' e reads granted
      keep u h =
    let w1 : World = record w { rows = (claim owner lease now c.command_id w.rows).1 } in
    let done = execute faults owner finished_at run meanwhile m c w1 in
    let unique =
      execute-IsUnique faults owner finished_at run meanwhile m c w1 keep
        (claim-IsUnique owner lease now c.command_id w.rows u) in
    let free = abandon-is_free_of owner c.command_id done.1.rows unique in
    elim (Result-cases done.0) [
      | inl (b, fine) ↦ absurd (ground arith)
      | inr (x, raised) ↦
          let same : record done.1 { rows = abandon owner c.command_id done.1.rows } ≡ w' =
            ground arith in
          ground arith
    ]
