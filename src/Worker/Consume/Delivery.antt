-- ===== src/Worker/Consume/Delivery.antt =====
-- A command is acknowledged only when its outcome is recorded, and is given up when it is not.
use shopee_hachathonteam.Prelude.{
  ℕ, suc, ◌≡◌, refl, inl, inr, ◌⊎◌, Bool, true, false, Option, none, some, List, [], ◌∷◌, ◌++◌, Ref,
  Instant, Result, ok, if◌then◌else◌, mem, arith, Option-cases, Bool-cases, Result-cases,
}
use shopee_hachathonteam.Worker.Journal.{
  CommandClaim, claimed, busy, terminal, CommandState, JournalRow, claim, claim_existing, abandon,
  finish, row_by, is_running,
}
use shopee_hachathonteam.Worker.Journal.Laws.{row_by_key, row_by-save}
use shopee_hachathonteam.Worker.Consume.{
  AgentCommand, BrokerMessage, AgentRunResult, AgentRun, EventPayload, AgentServiceEvent, World,
  WorkerError, Faults, Observing, observe_all, acknowledge, conclude, execute, run_once, event_of,
  ending,
}

-- The journal has an outcome for the command.
abbrev pub IsRecorded : Ref → List JournalRow → Type 0
IsRecorded id rows = (r : JournalRow) × (row_by id rows ≡ some r) × (is_running r.state ≡ false)

pub observe_all-same :
    (faults : Faults) (c : AgentCommand) (s : Observing) (nodes : List Ref) (w : World)
    → ((observe_all faults c s nodes w).1.acknowledged ≡ w.acknowledged)
      × ((observe_all faults c s nodes w).1.rows ≡ w.rows)
unfolding observe_all
observe_all-same faults c s [] w = (refl, refl)
observe_all-same faults c s (node ∷ nodes) w =
    let e = event_of c (suc s.event_index) (EventPayload.node_observed node) in
    let lost = faults.publish_fails e in
    let s' : Observing = record {
      event_index = suc s.event_index;
      last_node = some node;
      observation_error = if s.observation_error then true else lost;
    } in
    let w' : World = if lost then w else record w { events = w.events ++ (e ∷ []) } in
    ground (arith, observe_all-same faults c s' nodes w')

finish-IsRecorded :
    (owner : Ref) (state : CommandState) (now : Instant) (id : Ref) (rows rows' : List JournalRow)
    → finish owner state now id rows ≡ ok rows'
    → is_running state ≡ false
    → IsRecorded id rows'
unfolding finish
finish-IsRecorded owner state now id rows rows' h over = elim (Option-cases (row_by id rows)) [
  | inl absent ↦ absurd (ground arith)
  | inr (r, there) ↦
      let done : JournalRow = record r {
        state = state;
        claimed_by = none;
        claimed_until = none;
        updated_at = now;
      } in
      let key = row_by_key id rows r there in
      let saved = row_by-save id done rows r (ground arith) in (done, ground arith, over)
]

CommandClaim-cases : (k : CommandClaim) → (k ≡ claimed) ⊎ ((k ≡ busy) ⊎ (k ≡ terminal))
CommandClaim-cases claimed = inl refl
CommandClaim-cases busy = inr (inl refl)
CommandClaim-cases terminal = inr (inr refl)

-- A claim is answered TERMINAL only for a command that has its outcome.
claim-IsRecorded :
    (owner : Ref) (lease : ℕ) (now : Instant) (id : Ref) (rows : List JournalRow)
    → (claim owner lease now id rows).0 ≡ terminal
    → IsRecorded id (claim owner lease now id rows).1
unfolding claim claim_existing
claim-IsRecorded owner lease now id rows h = elim (Option-cases (row_by id rows)) [
  | inl absent ↦ absurd (ground arith)
  | inr (r, there) ↦ (r, ground arith, ground arith)
]

abandon-IsRecorded :
    (owner : Ref) (id : Ref) (rows : List JournalRow)
    → IsRecorded id rows
    → IsRecorded id (abandon owner id rows)
unfolding abandon
abandon-IsRecorded owner id rows (r, there, over) = (r, ground arith, over)

module _ (faults : Faults) (owner : Ref) (finished_at : Instant) where
  conclude-IsRecorded :
      (m : BrokerMessage) (c : AgentCommand) (e : AgentServiceEvent) (state : CommandState)
      (w w' : World) (r : Result WorkerError Bool)
      → conclude faults owner finished_at m c e state w ≡ (r, w')
      → is_running state ≡ false
      → mem m.message_id w.acknowledged ≡ false
      → mem m.message_id w'.acknowledged ≡ true
      → IsRecorded c.command_id w'.rows
  unfolding conclude acknowledge
  conclude-IsRecorded m c e state w w' r h over before after =
      elim (Result-cases (finish owner state finished_at c.command_id w.rows)) [
        | inr (error, raised) ↦ absurd (ground arith)
        | inl (rows, recorded) ↦
            let (row, at, ended) =
              finish-IsRecorded owner state finished_at c.command_id w.rows rows recorded over in
            (row, ground arith, ended)
      ]

  execute-IsRecorded :
      (run : AgentCommand → AgentRun) (meanwhile : List JournalRow → List JournalRow)
      (m : BrokerMessage) (c : AgentCommand) (w w' : World) (r : Result WorkerError Bool)
      → execute faults owner finished_at run meanwhile m c w ≡ (r, w')
      → mem m.message_id w.acknowledged ≡ false
      → mem m.message_id w'.acknowledged ≡ true
      → IsRecorded c.command_id w'.rows
  unfolding execute
  execute-IsRecorded run meanwhile m c w w' r h before after =
      let start : Observing = record {
        event_index = 0;
        last_node = none;
        observation_error = false;
      } in
      let seen = observe_all faults c start (run c).observed w in
      let same = observe_all-same faults c start (run c).observed w in
      let w2 : World = record seen.1 { rows = meanwhile seen.1.rows } in
      let last = seen.0.last_node in
      elim (Bool-cases seen.0.observation_error) [
        | inl lost ↦ absurd (ground arith)
        | inr clear ↦
            conclude-IsRecorded m c
              (event_of c (suc seen.0.event_index)
                (ending faults owner finished_at (run c).result last).1)
              (ending faults owner finished_at (run c).result last).0 w2 w' r (ground arith)
              (ended (run c).result last) (ground arith) after
      ]
    where
      ended :
          (result : Option AgentRunResult) (last : Option Ref)
          → is_running (ending faults owner finished_at result last).0 ≡ false
      ended none last = refl
      ended (some x) last = refl

-- A message is acknowledged only for a command whose outcome the journal has: the run is over, here or
-- in an earlier delivery, whatever fails in the broker and whatever other workers write meanwhile.
pub acknowledged-IsRecorded :
    (faults : Faults) (owner : Ref) (finished_at : Instant) (parse : Ref → Option AgentCommand)
    (run : AgentCommand → AgentRun) (meanwhile : List JournalRow → List JournalRow) (lease : ℕ)
    (now : Instant) (m : BrokerMessage) (c : AgentCommand) (w w' : World)
    (r : Result WorkerError Bool)
    → parse m.body ≡ some c
    → run_once faults owner finished_at parse run meanwhile lease now (some m) w ≡ (r, w')
    → mem m.message_id w.acknowledged ≡ false
    → mem m.message_id w'.acknowledged ≡ true
    → IsRecorded c.command_id w'.rows
unfolding run_once acknowledge
acknowledged-IsRecorded faults owner finished_at parse run meanwhile lease now m c w w' r reads h
      before after =
    elim (CommandClaim-cases (claim owner lease now c.command_id w.rows).0) [
      | inl granted ↦
          let done =
            execute faults owner finished_at run meanwhile m c
              (record w { rows = (claim owner lease now c.command_id w.rows).1 }) in
          let w1 : World = record w { rows = (claim owner lease now c.command_id w.rows).1 } in
          elim (Result-cases done.0) [
            | inl (b, fine) ↦
                let same : done.1 ≡ w' = ground arith in
                let (row, at, over) =
                  execute-IsRecorded faults owner finished_at run meanwhile m c w1 done.1 done.0
                    refl (ground arith) (ground arith) in
                (row, ground arith, over)
            | inr (e, raised) ↦
                let same : record done.1 { rows = abandon owner c.command_id done.1.rows } ≡ w' =
                  ground arith in
                let (row, at, over) = abandon-IsRecorded owner c.command_id done.1.rows (
                  execute-IsRecorded faults owner finished_at run meanwhile m c w1 done.1 done.0
                    refl (ground arith) (ground arith)) in
                (row, ground arith, over)
          ]
      | inr (inl wait) ↦ absurd (ground arith)
      | inr (inr over) ↦
          let (row, at, ended) = claim-IsRecorded owner lease now c.command_id w.rows over in
          (row, ground arith, ended)
    ]
