-- ===== src/Worker/Consume/Events.antt =====
-- The events of a delivery that ends: numbered from one, and the last says how the run ended.
use shopee_hachathonteam.Prelude.{
  ℕ, suc, ◌≡◌, ◌∙◌, ap, refl, inl, inr, Bool, true, false, Option, none, some, List, [], ◌∷◌, ◌++◌,
  Ref, Instant, ok, if◌then◌else◌, arith, Bool-cases, Result-cases,
}
use shopee_hachathonteam.Worker.Journal.{claimed, CommandState, JournalRow, claim, finish}
use shopee_hachathonteam.Worker.Consume.{
  AgentCommand, BrokerMessage, AgentRunResult, AgentRun, EventPayload, node_observed, run_ended,
  run_failed, AgentServiceEvent, World, Faults, Observing, observe_all, acknowledge, conclude,
  execute, run_once, event_of, ending,
}

-- The payload that says how a run ended.
abbrev pub report_of : Option AgentRunResult → (last : Option Ref) → EventPayload
report_of (some result) last = run_ended result
report_of none last = run_failed last

-- The events that a run should give, from an index on: one for each node, then the end of the run.
abbrev pub reported :
    AgentCommand
    → Option AgentRunResult
    → (last : Option Ref) → ℕ
    → List Ref
    → List AgentServiceEvent
reported c result last index [] = event_of c index (report_of result last) ∷ []
reported c result last index (node ∷ nodes) =
    event_of c index (node_observed node) ∷ reported c result (some node) (suc index) nodes

append_assoc : (xs ys zs : List AgentServiceEvent) → (xs ++ ys) ++ zs ≡ xs ++ (ys ++ zs)
append_assoc [] ys zs = refl
append_assoc (x ∷ xs) ys zs = ap (λ r. x ∷ r) (append_assoc xs ys zs)

observing_sticks :
    (faults : Faults) (c : AgentCommand) (s : Observing) (nodes : List Ref) (w : World)
    → (observe_all faults c s nodes w).0.observation_error ≡ false
    → s.observation_error ≡ false
unfolding observe_all
observing_sticks faults c s [] w h = h
observing_sticks faults c s (node ∷ nodes) w h =
    let e = event_of c (suc s.event_index) (node_observed node) in
    let lost = faults.publish_fails e in
    let s' : Observing = record {
      event_index = suc s.event_index;
      last_node = some node;
      observation_error = if s.observation_error then true else lost;
    } in
    let w' : World = if lost then w else record w { events = w.events ++ (e ∷ []) } in
    ground (arith, observing_sticks faults c s' nodes w')

-- When no event was lost, the observations and the ending make the report.
observed_events :
    (faults : Faults) (c : AgentCommand) (s : Observing) (nodes : List Ref) (w : World)
    (result : Option AgentRunResult) (owner : Ref) (t : Instant)
    → (observe_all faults c s nodes w).0.observation_error ≡ false
    → (observe_all faults c s nodes w).1.events
        ++ (event_of c
              (suc (observe_all faults c s nodes w).0.event_index)
              (ending faults owner t result (observe_all faults c s nodes w).0.last_node).1
            ∷ [])
      ≡ w.events ++ reported c result s.last_node (suc s.event_index) nodes
unfolding observe_all
observed_events faults c s [] w (some x) owner t h = refl
observed_events faults c s [] w none owner t h = refl
observed_events faults c s (node ∷ nodes) w result owner t h =
    let e = event_of c (suc s.event_index) (node_observed node) in
    let lost = faults.publish_fails e in
    let s' : Observing = record {
      event_index = suc s.event_index;
      last_node = some node;
      observation_error = if s.observation_error then true else lost;
    } in
    let w' : World = if lost then w else record w { events = w.events ++ (e ∷ []) } in
    let rest = observed_events faults c s' nodes w' result owner t h in
    let clear = observing_sticks faults c s' nodes w' h in
    let got : lost ≡ false = ground arith in
    let there : w'.events ≡ w.events ++ (e ∷ []) = ground arith in
    let tail = reported c result (some node) (suc (suc s.event_index)) nodes in
    rest ∙ (ap (λ ev. ev ++ tail) there ∙ append_assoc w.events (e ∷ []) tail)

module _ (faults : Faults) (owner : Ref) (finished_at : Instant) where
  conclude-events :
      (m : BrokerMessage) (c : AgentCommand) (e : AgentServiceEvent) (state : CommandState)
      (w w' : World) (b : Bool)
      → conclude faults owner finished_at m c e state w ≡ (ok b, w')
      → w'.events ≡ w.events ++ (e ∷ [])
  unfolding conclude acknowledge
  conclude-events m c e state w w' b h =
      elim (Result-cases (finish owner state finished_at c.command_id w.rows)) [
        | inr (error, raised) ↦ absurd (ground arith)
        | inl (rows, recorded) ↦ ground arith
      ]

  execute-events :
      (run : AgentCommand → AgentRun) (meanwhile : List JournalRow → List JournalRow)
      (m : BrokerMessage) (c : AgentCommand) (w w' : World) (b : Bool)
      → execute faults owner finished_at run meanwhile m c w ≡ (ok b, w')
      → w'.events ≡ w.events ++ reported c (run c).result none 1 (run c).observed
  unfolding execute
  execute-events run meanwhile m c w w' b h =
      let start : Observing = record {
        event_index = 0;
        last_node = none;
        observation_error = false;
      } in
      let seen = observe_all faults c start (run c).observed w in
      let w2 : World = record seen.1 { rows = meanwhile seen.1.rows } in
      let last = seen.0.last_node in
      elim (Bool-cases seen.0.observation_error) [
        | inl lost ↦ absurd (ground arith)
        | inr clear ↦
            conclude-events m c
              (event_of c (suc seen.0.event_index)
                (ending faults owner finished_at (run c).result last).1)
              (ending faults owner finished_at (run c).result last).0 w2 w' b (ground arith)
            ∙ observed_events faults c start (run c).observed w (run c).result owner finished_at
                clear
      ]

-- When a delivery of a command that the worker claimed returns, the stream has got one event for each
-- node that the run observed, in order and numbered from one, and then one event that says how the run
-- ended: nothing is lost, repeated or reordered.
pub claimed-reported :
    (faults : Faults) (owner : Ref) (finished_at : Instant) (parse : Ref → Option AgentCommand)
    (run : AgentCommand → AgentRun) (meanwhile : List JournalRow → List JournalRow) (lease : ℕ)
    (now : Instant) (m : BrokerMessage) (c : AgentCommand) (w w' : World) (b : Bool)
    → parse m.body ≡ some c
    → (claim owner lease now c.command_id w.rows).0 ≡ claimed
    → run_once faults owner finished_at parse run meanwhile lease now (some m) w ≡ (ok b, w')
    → w'.events ≡ w.events ++ reported c (run c).result none 1 (run c).observed
unfolding run_once
claimed-reported faults owner finished_at parse run meanwhile lease now m c w w' b reads granted h =
    let w1 : World = record w { rows = (claim owner lease now c.command_id w.rows).1 } in
    let done = execute faults owner finished_at run meanwhile m c w1 in
    elim (Result-cases done.0) [
      | inr (x, raised) ↦ absurd (ground arith)
      | inl (y, fine) ↦
          execute-events faults owner finished_at run meanwhile m c w1 w' b (ground arith)
    ]
