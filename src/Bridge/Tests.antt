-- ===== src/Bridge/Tests.antt =====
-- One case, whose command reports a node, then a refund.
use shopee_hachathonteam.Prelude.{
  ℕ, ◌≡◌, refl, ◌+◌, true, false, none, some, [], ◌∷◌, ok, err, Ref, inl, ◌⊎◌, distinct, map,
  is_none, ◌==◌,
}
use shopee_hachathonteam.Case.{
  CaseRecord, observing, executing, resolved, case_by, lock, transition, touch, save_case,
  is_allowed, allowed_transitions, append_event, lock_case_and_highest_sequence, highest_sequence,
  agent_event,
}
use shopee_hachathonteam.Runtime.{reviewer}
use shopee_hachathonteam.Bridge.{
  AgentServiceEvent, Board, EventPayload, node_observed, run_resolved, full_refund, enter, invalid,
  Cursor, processed_by, cursor_by, save_cursor, rejected_by,
}
use shopee_hachathonteam.Bridge.Rows.{entries, last_index}
use shopee_hachathonteam.Bridge.Order.{IsSequential}
use shopee_hachathonteam.Bridge.Order.Reached.{
  begins, completes, Reach, here, next, projected_in_order,
}
use shopee_hachathonteam.Bridge.Acknowledge.{IsRejected, HasRow, acked_handled}
use shopee_hachathonteam.Bridge.Replay.{project_again, complete_refund_again}
use shopee_hachathonteam.Bridge.Settle.{complete_refund_ends}
use shopee_hachathonteam.Bridge.Poison.{reject_closes}
use shopee_hachathonteam.Bridge.Project.{
  RefundExecution, check_cursor, check_index, record_processed, refund_pending, projected, replayed,
}
use shopee_hachathonteam.Bridge.Project.Apply.{
  begin_projection, complete_refund, project_new, apply, project_node, append_ui,
  project_resolution, move, close, settle_case,
}
use shopee_hachathonteam.Bridge.Reject.{reject, is_closed}
use shopee_hachathonteam.Bridge.Consume.{
  Surroundings, event, consume_event_once, project, finish_projection, by_answer, reject_message,
  poison_of, Delivery,
}

abbrev case_1 : CaseRecord
case_1 = record {
  case_ref = 1;
  thread_id = 11;
  order_ref = 50;
  user_ref = 5;
  is_v2 = false;
  status = observing;
  updated_at = 3;
}

abbrev case_ended : CaseRecord
case_ended = record case_1 { status = resolved; updated_at = 6 }

abbrev empty : Board
empty = record {
  tables = record { cases = case_1 ∷ []; events = [] };
  processed = [];
  cursors = [];
  rejected = [];
  confirmations = [];
}

abbrev event_of : ℕ → EventPayload → AgentServiceEvent
event_of n payload = record {
  event_id = 100 + n;
  command_id = 7;
  case_ref = 1;
  thread_id = 11;
  event_index = n;
  occurred_at = 4;
  payload = payload;
}

abbrev observed : AgentServiceEvent
observed = event_of 1 (
    node_observed (record {
      phase = enter;
      node = reviewer;
      task_ref = 3;
      review_gate = none;
      memory_retrieval = none;
    }))

abbrev refund : AgentServiceEvent
refund =
    event_of 2
      (run_resolved (record { handoff_id = 60; action = full_refund; execution_blocked = false }))

abbrev around : Surroundings
around = record {
  encode = λ at node e. 0;
  rejected_ref = λ id. id + 1000;
  register = λ t c h. none;
  hash = λ e. e.event_id;
  execute = λ e. some (record { execution_ref = 90; succeeded = true });
  during = λ b. b;
}

abbrev after_observed : Delivery
after_observed =
    consume_event_once around empty (record { message_id = 1; body = event observed }) 5

abbrev after_refund : Delivery
after_refund =
    consume_event_once around after_observed.board (record { message_id = 2; body = event refund })
      6

abbrev waiting : Board
waiting = record after_observed.board {
  tables = record {
    cases = record case_1 { status = executing; updated_at = 6 } ∷ [];
    events =
        record { case_ref = 1; seq = 2; payload = agent_event false 0 }
        ∷ after_observed.board.tables.events;
  };
}

abbrev paid : RefundExecution
paid = record { execution_ref = 90; succeeded = true }

abbrev ended : Board
ended = after_refund.board

-- The node is observed, the refund begins and completes, and the case ends as RESOLVED; a refund that is
-- delivered first waits for its turn.
refund_runs :
    (begin_projection around.encode around.register empty observed 101 5
      ≡ ok (after_observed.board, projected))
    × (begin_projection around.encode around.register after_observed.board refund 102 6
        ≡ ok (waiting, refund_pending))
    × (complete_refund around.encode waiting refund paid 102 6 ≡ ok ended)
    × (case_by 1 ended.tables.cases ≡ some case_ended)
    × (consume_event_once around empty (record { message_id = 2; body = event refund }) 6
        ≡ record { board = empty; acked = false; returned = ok false })
unfolding consume_event_once project begin_projection project_new check_cursor check_index apply
    project_node append_ui record_processed project_resolution move close settle_case
    complete_refund finish_projection by_answer reject_message processed_by cursor_by save_cursor
    case_by lock transition touch save_case is_allowed allowed_transitions append_event
    lock_case_and_highest_sequence highest_sequence
refund_runs = (refl, refl, refl, refl, refl)

refund_path :
    Reach around.encode around.rejected_ref around.register
      (record { board = empty; executing = [] })
      (record { board = ended; executing = refund ∷ [] })
refund_path =
    next
      (next (next here (begins observed 101 5 projected refund_runs.0))
        (begins refund 102 6 refund_pending refund_runs.1))
      (completes refund paid 102 6 (inl refl) refund_runs.2)

-- What the tables of the run hold.
known_rows :
    (processed_by 102 waiting.processed ≡ none)
    × (lock ended.tables 1 ≡ ok case_ended)
    × (lock after_observed.board.tables 1 ≡ ok case_1)
    × (after_refund.acked ≡ true)
unfolding consume_event_once project begin_projection project_new check_cursor check_index apply
    project_node append_ui record_processed project_resolution move close settle_case
    complete_refund finish_projection by_answer reject_message processed_by cursor_by save_cursor
    case_by lock transition touch save_case is_allowed allowed_transitions append_event
    lock_case_and_highest_sequence highest_sequence
known_rows = (refl, refl, refl, refl)

projected_in_order_example :
    IsSequential ended.processed
    × (distinct (map (λ p. p.event_id) ended.processed) ≡ true)
    × ((id : Ref) → last_index (cursor_by id ended.cursors) ≡ entries id ended.processed)
projected_in_order_example =
    projected_in_order around.encode around.rejected_ref around.register (refl, refl, refl)
      refund_path

acked_handled_example :
    IsRejected after_refund.board 2
    ⊎ ((e : AgentServiceEvent) × (event refund ≡ event e) × HasRow after_refund.board e)
acked_handled_example =
    acked_handled around after_observed.board (record { message_id = 2; body = event refund }) 6
      known_rows.3

project_again_example :
    begin_projection around.encode around.register after_observed.board
      (record observed { event_index = 3 })
      101
      9
    ≡ err invalid
project_again_example =
    project_again around.encode around.register empty after_observed.board observed
      (record observed { event_index = 3 }) 101 101 5 9 {case = case_1} refund_runs.0 known_rows.2
      refl

complete_refund_again_example :
    (complete_refund around.encode ended refund (record paid { succeeded = false }) 102 9
      ≡ ok ended)
    × (begin_projection around.encode around.register ended refund 102 9 ≡ ok (ended, replayed))
complete_refund_again_example =
    complete_refund_again around.encode around.register waiting ended refund paid
      (record paid { succeeded = false }) 102 6 9 {case = case_ended} known_rows.0 refund_runs.2
      known_rows.1

complete_refund_ends_example :
    (c : CaseRecord) × (case_by 1 waiting.tables.cases ≡ some c)
    × ((true ≡ false) ⊎ (c.status ≡ executing))
    × (is_closed c.status ≡ false)
    × (case_by 1 ended.tables.cases ≡ some (record c { status = resolved; updated_at = 6 }))
complete_refund_ends_example =
    complete_refund_ends around.encode waiting ended refund paid 102 1 6 known_rows.0 refund_runs.2

reject_closes_example :
    (b' : Board) × (c : CaseRecord) × (k : Cursor) × (reject around.encode around.rejected_ref empty
        (poison_of 4 refund)
        8
      ≡ ok b')
    × (is_none (rejected_by 4 b'.rejected) ≡ false)
    × (case_by 1 b'.tables.cases ≡ some c)
    × (is_closed c.status ≡ true)
    × (cursor_by 7 b'.cursors ≡ some k)
    × (((k.case_ref == 1) ≡ false) ⊎ (is_none k.terminated_at ≡ false))
unfolding rejected_by case_by
reject_closes_example =
    reject_closes around.encode around.rejected_ref empty (poison_of 4 refund) 8 1 7 case_1 refl
      refl refl refl
