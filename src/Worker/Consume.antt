-- ===== src/Worker/Consume.antt =====
-- `AgentWorker.run_once` of apps/agent_service/src/return_agent_service/worker.py: one delivered
-- message of the command stream. The broker's failures, the parser of the message, what the runtime
-- does for a command, and what other workers write in the journal during the run are parameters.
pub mod Delivery
pub mod Release
pub mod Events
use shopee_hachathonteam.Prelude.{
  ℕ, suc, ◌+◌, Bool, true, false, not, Option, none, some, List, [], ◌∷◌, ◌++◌, Ref, Instant,
  Result, ok, err, if◌then◌else◌,
}
use shopee_hachathonteam.Worker.Journal.{
  CommandClaim, claimed, busy, terminal, CommandState, completed, failed, JournalRow, JournalError,
  claim, abandon, finish,
}

-- `AgentStartCommand` or `AgentResumeCommand`, by the parts that its events repeat.
pub record AgentCommand : Type 0 where
  pub command_id : Ref
  pub case_ref : Ref
  pub thread_id : Ref

pub record BrokerMessage : Type 0 where
  pub message_id : Ref
  pub body : Ref

pub data AgentRunResult : Type 0 where
  interrupted resolved escalated : AgentRunResult

-- What the runtime does for a command: the nodes it observes, and its result unless it raises.
pub record AgentRun : Type 0 where
  pub observed : List Ref
  pub result : Option AgentRunResult

pub data EventPayload : Type 0 where
  node_observed : (node : Ref) → EventPayload
  run_ended : (result : AgentRunResult) → EventPayload
  run_failed : (failed_node : Option Ref) → EventPayload

-- `event_id` is made of the command and the index.
pub record AgentServiceEvent : Type 0 where
  pub command_id : Ref
  pub case_ref : Ref
  pub thread_id : Ref
  pub event_index : ℕ
  pub payload : EventPayload

-- The stream of events, the dead letters, the acknowledged messages, and the journal.
pub record World : Type 0 where
  pub events : List AgentServiceEvent
  pub dead_letters : List Ref
  pub acknowledged : List Ref
  pub rows : List JournalRow

pub data WorkerError : Type 0 where
  broker_error journal_error : WorkerError

-- The failures of the broker.
pub record Faults : Type 0 where
  pub publish_fails : AgentServiceEvent → Bool
  pub dead_letter_fails : Bool
  pub acknowledge_fails : Bool

-- The variables that the observer shares with `_execute`.
pub record Observing : Type 0 where
  pub event_index : ℕ
  pub last_node : Option Ref
  pub observation_error : Bool

abbrev pub event_of : AgentCommand → ℕ → EventPayload → AgentServiceEvent
event_of c index payload = record {
  command_id = c.command_id;
  case_ref = c.case_ref;
  thread_id = c.thread_id;
  event_index = index;
  payload = payload;
}

module _ (faults : Faults) where
  -- The calls of `observe` during a run.
  unfoldable pub observe_all : AgentCommand → Observing → List Ref → World → Observing × World
  observe_all c s [] w = (s, w)
  observe_all c s (node ∷ nodes) w =
      let index = suc s.event_index in
      let e = event_of c index (node_observed node) in
      let lost = faults.publish_fails e in
      let s' : Observing = record {
        event_index = index;
        last_node = some node;
        observation_error = if s.observation_error then true else lost;
      } in
      let w' : World = if lost then w else record w { events = w.events ++ (e ∷ []) } in
      observe_all c s' nodes w'

  -- `self._broker.acknowledge`, the last call of a delivery.
  unfoldable pub acknowledge : Ref → World → Result WorkerError Bool × World
  acknowledge id w =
      if faults.acknowledge_fails
      then (err broker_error, w)
      else (ok true, record w { acknowledged = id ∷ w.acknowledged })

  -- `_parse_or_dead_letter` on a body that does not parse.
  unfoldable pub dead_letter : BrokerMessage → World → Result WorkerError Bool × World
  unfolding acknowledge
  dead_letter m w =
      if faults.dead_letter_fails
      then (err broker_error, w)
      else acknowledge m.message_id (record w { dead_letters = m.body ∷ w.dead_letters })

  module _ (owner : Ref) (finished_at : Instant) where
    -- The end of a run: the last event, the journal, and then the acknowledgement.
    unfoldable pub conclude :
        BrokerMessage
        → AgentCommand
        → AgentServiceEvent
        → CommandState
        → World
        → Result WorkerError Bool × World
    unfolding acknowledge
    conclude m c e state w =
        if faults.publish_fails e
        then (err broker_error, w)
        else recorded (finish owner state finished_at c.command_id w.rows)
      where
        published : World
        published = record w { events = w.events ++ (e ∷ []) }

        recorded : Result JournalError (List JournalRow) → Result WorkerError Bool × World
        recorded (err _) = (err journal_error, published)
        recorded (ok rows) = acknowledge m.message_id (record published { rows = rows })

    -- The state and the last event for what the runtime returned, or for its exception.
    abbrev pub ending : Option AgentRunResult → Option Ref → CommandState × EventPayload
    ending (some result) last = (completed, run_ended result)
    ending none last = (failed, run_failed last)

    -- `_execute`
    unfoldable pub execute :
        (run : AgentCommand → AgentRun)
        → (meanwhile : List JournalRow → List JournalRow) → BrokerMessage
        → AgentCommand
        → World
        → Result WorkerError Bool × World
    unfolding observe_all conclude
    execute run meanwhile m c w = ended (observe_all c start (run c).observed w)
      where
        start : Observing
        start = record { event_index = 0; last_node = none; observation_error = false }

        ended : Observing × World → Result WorkerError Bool × World
        ended (s, w1) =
            let w2 : World = record w1 { rows = meanwhile w1.rows } in
            let (state, payload) = ending (run c).result s.last_node in
            if s.observation_error
            then (err broker_error, w2)
            else conclude m c (event_of c (suc s.event_index) payload) state w2

    unfoldable pub run_once :
        (parse : Ref → Option AgentCommand)
        → (run : AgentCommand → AgentRun) → (meanwhile : List JournalRow → List JournalRow)
        → (lease_seconds : ℕ) → (now : Instant) → Option BrokerMessage
        → World
        → Result WorkerError Bool × World
    unfolding dead_letter execute acknowledge
    run_once parse run meanwhile lease now none w = (ok false, w)
    run_once parse run meanwhile lease now (some m) w = parsed (parse m.body)
      where
        released : AgentCommand → Result WorkerError Bool × World → Result WorkerError Bool × World
        released c (ok b, w') = (ok b, w')
        released c (err e, w') = (err e, record w' { rows = abandon owner c.command_id w'.rows })

        answered : AgentCommand → CommandClaim × List JournalRow → Result WorkerError Bool × World
        answered c (terminal, rows) = acknowledge m.message_id (record w { rows = rows })
        answered c (busy, rows) = (ok false, record w { rows = rows })
        answered c (claimed, rows) =
            released c (execute run meanwhile m c (record w { rows = rows }))

        parsed : Option AgentCommand → Result WorkerError Bool × World
        parsed none = dead_letter m w
        parsed (some c) = answered c (claim owner lease now c.command_id w.rows)
