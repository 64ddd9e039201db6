-- ===== src/Worker/Tests.antt =====
-- The worker and its journal on one command.
use shopee_hachathonteam.Prelude.{
  ◌≡◌, refl, true, false, Option, none, some, List, [], ◌∷◌, ◌++◌, Ref, ok, err, arith,
}
use shopee_hachathonteam.Worker.Journal.{
  busy, completed, JournalRow, row_by, claim, claim_existing, finish, abandon, save_row, leased,
}
use shopee_hachathonteam.Worker.Journal.Laws.{Step, claims, none_yet, claim_exclusive}
use shopee_hachathonteam.Worker.Memory.{memory_claim, memory_finish}
use shopee_hachathonteam.Worker.Memory.Refines.{
  states_of, IsOwn, Agree, claim-refines, finish-refines,
}
use shopee_hachathonteam.Worker.Consume.{
  AgentCommand, BrokerMessage, AgentRun, resolved, World, broker_error, Faults, node_observed,
  run_ended, event_of, run_once, execute, observe_all, conclude, acknowledge,
}
use shopee_hachathonteam.Worker.Consume.Delivery.{IsRecorded, acknowledged-IsRecorded}
use shopee_hachathonteam.Worker.Consume.Release.{is_free_of, raised-is_free_of}
use shopee_hachathonteam.Worker.Consume.Events.{reported, claimed-reported}

abbrev row : JournalRow
row = leased 1 900 100 7

abbrev own : List JournalRow
own = row ∷ []

claim_exclusive_example :
    (claim 2 900 500 7 own ≡ (busy, own))
    × ((rows3 : List JournalRow) × (finish 1 completed 600 7 own ≡ ok rows3))
unfolding claim row_by
claim_exclusive_example =
    claim_exclusive 1 2 900 900 100 500 7 [] own own completed 600 refl none_yet (omega arith)

busy_claim : Step 2 500 own own
unfolding claim claim_existing row_by
busy_claim = claims 900 7 {c = busy} refl

own-IsOwn : IsOwn 1 200 own
unfolding row_by
own-IsOwn = (refl, refl, tt)

claim-refines_example :
    ((claim 1 900 200 8 own).0 ≡ (memory_claim 8 (states_of own)).0)
    × ((i : Ref) → states_of (claim 1 900 200 8 own).1 i ≡ (memory_claim 8 (states_of own)).1 i)
claim-refines_example = claim-refines 1 900 200 8 own own-IsOwn

finish-refines_example :
    Agree (finish 1 completed 200 7 own) (memory_finish completed 7 (states_of own))
finish-refines_example = finish-refines 1 completed 200 7 own own-IsOwn

abbrev command : AgentCommand
command = record { command_id = 7; case_ref = 10; thread_id = 3 }

abbrev message : BrokerMessage
message = record { message_id = 70; body = 1 }

abbrev parse : Ref → Option AgentCommand
parse _ = some command

abbrev run : AgentCommand → AgentRun
run _ = record { observed = 4 ∷ 5 ∷ []; result = some resolved }

abbrev healthy : Faults
healthy = record {
  publish_fails = λ _. false;
  dead_letter_fails = false;
  acknowledge_fails = false;
}

abbrev broken : Faults
broken = record { publish_fails = λ _. true; dead_letter_fails = false; acknowledge_fails = false }

abbrev others : List JournalRow → List JournalRow
others rows = rows

abbrev idle : World
idle = record { events = []; dead_letters = []; acknowledged = []; rows = [] }

abbrev after : World
after = record {
  events =
      event_of command 1 (node_observed 4)
      ∷ event_of command 2 (node_observed 5)
      ∷ event_of command 3 (run_ended resolved)
      ∷ [];
  dead_letters = [];
  acknowledged = 70 ∷ [];
  rows =
      record {
        command_id = 7;
        state = completed;
        claimed_by = none;
        claimed_until = none;
        updated_at = 150;
      }
      ∷ [];
}

delivered : run_once healthy 1 150 parse run others 900 100 (some message) idle ≡ (ok true, after)
unfolding run_once execute observe_all conclude acknowledge claim claim_existing finish row_by
    save_row
delivered = refl

acknowledged-IsRecorded_example : IsRecorded 7 after.rows
acknowledged-IsRecorded_example =
    acknowledged-IsRecorded healthy 1 150 parse run others 900 100 message command idle after
      (ok true) refl delivered refl refl

claimed-reported_example : after.events ≡ [] ++ reported command (some resolved) none 1 (4 ∷ 5 ∷ [])
unfolding claim row_by
claimed-reported_example =
    claimed-reported healthy 1 150 parse run others 900 100 message command idle after true refl
      refl delivered

abbrev dropped : World
dropped = record { events = []; dead_letters = []; acknowledged = []; rows = [] }

raised :
    run_once broken 1 150 parse run others 900 100 (some message) idle ≡ (err broker_error, dropped)
unfolding run_once execute observe_all conclude acknowledge claim claim_existing finish row_by
    save_row abandon
raised = refl

raised-is_free_of_example : is_free_of 1 7 dropped.rows ≡ true
unfolding claim row_by
raised-is_free_of_example =
    raised-is_free_of broken 1 150 parse run others 900 100 message command idle dropped
      broker_error refl refl (λ rows u. u) tt raised
