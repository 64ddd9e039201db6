-- ===== src/Refund/Tests.antt =====
-- The refund ledger on a small order: two executions that want the same item.
use shopee_hachathonteam.Prelude.{
  ◌≡◌, refl, true, false, none, some, [], ◌∷◌, Ref, arith, ok, All, sorted,
}
use shopee_hachathonteam.Refund.{
  RefundRequest, in_progress, succeeded, rejected, applied, declined, Execution, Reservation,
  RefundedItem, CaseOwner, Ledger, execution_by, by_handoff, save_execution, insert_execution,
  owner, insert_reservation,
}
use shopee_hachathonteam.Refund.Start.{
  start_pending, create_rejected, new_execution, locked_execution, reject_row,
}
use shopee_hachathonteam.Refund.Reserve.{mark_application_started, settle_reservation, reserve_all}
use shopee_hachathonteam.Refund.Complete.{
  complete, finish, finish_row, store_items, insert_item, refunded_by, case_owner, announce_case,
  announce, append_risk_event, risk_event_by,
}
use shopee_hachathonteam.Refund.Ownership.{IsSound}
use shopee_hachathonteam.Refund.Ownership.Once.{
  here, next, Step, starts, marks, completes, refunded_once, Reach-IsSound,
}
use shopee_hachathonteam.Refund.Success.{complete_applied}
use shopee_hachathonteam.Refund.Terminal.{terminal_row_kept, complete_again}
use shopee_hachathonteam.Refund.Rejection.{create_rejected-keeps_items}

abbrev request : RefundRequest
request = record {
  handoff_id = 1;
  case_ref = 10;
  line_item_ids = 7 ∷ [];
  reason_code = 3;
  body = 0;
}

abbrev other_request : RefundRequest
other_request = record {
  handoff_id = 2;
  case_ref = 11;
  line_item_ids = 7 ∷ [];
  reason_code = 3;
  body = 0;
}

abbrev buyer : CaseOwner
buyer = record { case_ref = 10; user_ref = 5; order_ref = 50; is_v2 = true }

abbrev empty : Ledger
empty = record {
  executions = [];
  reservations = [];
  items = [];
  cases = buyer ∷ [];
  risk_events = [];
  outbox = [];
}

abbrev pending : Execution
pending = record {
  execution_ref = 100;
  handoff_id = 1;
  case_ref = 10;
  payload_hash = 9;
  request = request;
  order_ref = some 50;
  state = in_progress;
  application_result = none;
  application_started_at = none;
  completed_at = none;
  updated_at = 1;
}

abbrev attempted : Execution
attempted = record pending { application_started_at = some 2; updated_at = 2 }

abbrev rival : Execution
rival = record pending {
  execution_ref = 101;
  handoff_id = 2;
  case_ref = 11;
  payload_hash = 8;
  request = other_request;
  updated_at = 6;
}

abbrev held : Reservation
held = record { order_ref = 50; line_item_ref = 7; execution_ref = 100 }

abbrev ledger1 : Ledger
ledger1 = record empty { executions = pending ∷ [] }

abbrev ledger2 : Ledger
ledger2 = record empty { executions = attempted ∷ []; reservations = held ∷ [] }

started-Step : Step empty ledger1
unfolding start_pending new_execution insert_execution by_handoff
started-Step = starts 100 request 9 50 1 pending refl

marked-Step : Step ledger1 ledger2
unfolding mark_application_started locked_execution reserve_all insert_reservation owner
    settle_reservation save_execution execution_by sorted
marked-Step = marks 100 9 2 attempted refl

abbrev first_ref : Ref
first_ref = 100

refunded_once_example : first_ref ≡ first_ref
unfolding execution_by
refunded_once_example =
    refunded_once empty ledger2 first_ref first_ref 50 7 attempted attempted (refl, refl)
      (next (next here started-Step) marked-Step) refl refl refl refl refl refl refl refl

abbrev refund : RefundedItem
refund = record { execution_ref = 100; line_item_ref = 7; order_ref = 50; applied_at = 3 }

abbrev done : Execution
done = record attempted {
  state = succeeded;
  application_result = some (applied 77 3);
  completed_at = some 4;
  updated_at = 4;
}

abbrev ledger3 : Ledger
ledger3 = record ledger2 {
  executions = done ∷ [];
  items = refund ∷ [];
  risk_events =
      record { case_ref = 10; user_ref = 5; order_ref = 50; reason_code = 3; occurred_at = 3 } ∷ [];
  outbox =
      record {
        resolution_ref = 1;
        execution_ref = 100;
        application_ref = 77;
        applied_at = 3;
        published = false;
      }
      ∷ [];
}

completed_3 : complete ledger2 100 9 (applied 77 3) 4 ≡ ok (done, ledger3)
unfolding complete locked_execution execution_by finish finish_row store_items insert_item
    refunded_by case_owner announce_case announce append_risk_event risk_event_by save_execution
completed_3 = refl

complete_applied_example :
    (order : Ref) × (attempted.order_ref ≡ some order)
    × (done.state ≡ succeeded)
    × All
        (λ i. refunded_by order i ledger3.items ≡ some attempted.execution_ref)
        attempted.request.line_item_ids
    × ((o i x : Ref)
        → refunded_by o i ledger2.items ≡ some x
        → refunded_by o i ledger3.items ≡ some x)
unfolding execution_by
complete_applied_example = complete_applied ledger2 100 9 77 3 4 attempted refl refl completed_3

complete_again_example : complete ledger3 100 9 (declined (4 ∷ []) 8) 9 ≡ ok (done, ledger3)
complete_again_example =
    complete_again ledger2 ledger3 100 9 (applied 77 3) (declined (4 ∷ []) 8) 4 9 done completed_3

IsSound-3 : IsSound ledger3
unfolding execution_by
IsSound-3 = Reach-IsSound (next (next (next here started-Step) marked-Step) completed_step) sound_0
  where
    found : execution_by 100 ledger2.executions ≡ some attempted
    found = refl

    completed_step : Step ledger2 ledger3
    completed_step = completes 100 9 (applied 77 3) 4 attempted done found refl completed_3

    sound_0 : IsSound empty
    sound_0 = record { keyed = tt; backed = tt; valid = tt }

late_start : Step ledger3 (record ledger3 { executions = rival ∷ done ∷ [] })
unfolding start_pending new_execution insert_execution by_handoff execution_by
late_start = starts 101 other_request 8 50 6 rival refl

terminal_row_kept_example : execution_by 100 (rival ∷ done ∷ []) ≡ some done
unfolding execution_by
terminal_row_kept_example =
    terminal_row_kept ledger3 (record ledger3 { executions = rival ∷ done ∷ [] }) 100 done IsSound-3
      late_start refl refl

abbrev registered : Ledger
registered = record empty { executions = pending ∷ []; reservations = held ∷ [] }

abbrev refused_row : Execution
refused_row = record pending {
  state = rejected;
  application_result = some (declined (6 ∷ []) 3);
  completed_at = some 3;
  updated_at = 3;
}

rejected_3 :
    create_rejected registered 100 request 9 (6 ∷ []) 3
    ≡ ok (refused_row, record registered { executions = refused_row ∷ [] })
unfolding create_rejected new_execution reject_row insert_execution by_handoff execution_by
    save_execution
rejected_3 = refl

create_rejected-keeps_items_example :
    (refused_row.state ≡ rejected)
    × (owner 50 7 registered.reservations ≡ some 100)
    × (reserve_all 50 101 (7 ∷ []) registered.reservations ≡ none)
unfolding by_handoff owner
create_rejected-keeps_items_example =
    create_rejected-keeps_items registered (record registered { executions = refused_row ∷ [] }) 100
      request 9 (6 ∷ []) 3 refused_row pending 50 7 101 [] refl refl refl (λ e. ground arith)
      rejected_3

abbrev declined_row : Execution
declined_row = record attempted {
  state = rejected;
  application_result = some (declined (4 ∷ []) 3);
  completed_at = some 4;
  updated_at = 4;
}

declined_4 :
    complete ledger2 100 9 (declined (4 ∷ []) 3) 4
    ≡ ok (declined_row, record ledger2 { executions = declined_row ∷ []; reservations = [] })
unfolding complete locked_execution execution_by finish finish_row save_execution
declined_4 = refl
