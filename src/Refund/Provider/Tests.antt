-- ===== src/Refund/Provider/Tests.antt =====
-- The refund that a human approved is executed.
use shopee_hachathonteam.Prelude.{
  ◌+◌, ◌≡◌, refl, sym, subst, arith, true, false, some, [], ◌∷◌, ok, ◌⊎◌,
}
use shopee_hachathonteam.Policy.Tests.{order, facts_7}
use shopee_hachathonteam.HumanReview.Messages.{human_approve, bundle_equality}
use shopee_hachathonteam.Prelude.{same_refl, sorted}
use shopee_hachathonteam.HumanReview.Rules.{
  human_corrected_decision, validate_human_decision, validate_action_against_policy, active_clauses,
  check_refund,
}
use shopee_hachathonteam.HumanReview.Tests.{around, bundle_8, handoff_70, dossier_70}
use shopee_hachathonteam.Refund.{
  Ledger, applied, execution_by, by_handoff, insert_execution, save_execution, owner,
  insert_reservation,
}
use shopee_hachathonteam.Refund.Start.{
  find_by_handoff, start_pending, new_execution, locked_execution,
}
use shopee_hachathonteam.Refund.Reserve.{mark_application_started, reserve_all, settle_reservation}
use shopee_hachathonteam.Refund.Complete.{
  complete, finish, finish_row, store_items, insert_item, refunded_by, case_owner, announce_case,
}
use shopee_hachathonteam.Refund.Authorization.Tests.{resolution, persisted, accepted}
use shopee_hachathonteam.Refund.Provider.{
  ExecuteRefundRequest, Provider, Run, released, proceed, decide, check_released, check_order,
  current_valid, claimed_items, human_valid,
}
use shopee_hachathonteam.Refund.Provider.Execute.{
  terminal_record, attempt, resume, carry_out, execute_step, execute,
}
use shopee_hachathonteam.Refund.Provider.Returns.{is_exhausted, execute_returns}
use shopee_hachathonteam.Refund.Provider.Applies.{is_called, IsStarted, IsDecided}
use shopee_hachathonteam.Refund.Provider.Applies.Executed.{execute-IsDecided}

abbrev request : ExecuteRefundRequest
request = record {
  request = record {
    handoff_id = 70;
    case_ref = 10;
    line_item_ids = 7 ∷ [];
    reason_code = 3;
    body = 0;
  };
  resolution = resolution;
  is_evaluated = true;
}

abbrev provider : Provider
provider = record {
  review = around;
  hash = λ r. 5;
  parse = λ r. request;
  execution_ref = λ id. id + 3000;
  code = λ why. 9;
  order_subject = 0;
  configs_load = true;
  authorization = λ id. ok (some persisted);
  release = λ r. released;
  order = λ case. some (order facts_7, 0);
  bundle = λ version. some bundle_8;
  handoff_valid = λ h b o. true;
  review_valid = λ v h b o claimed. true;
  apply = λ ref r. some (applied 500 40);
  between = λ l. l;
  during = λ l. l;
}

abbrev no_rows : Ledger
no_rows = record {
  executions = [];
  reservations = [];
  items = [];
  cases = [];
  risk_events = [];
  outbox = [];
}

approved_300 :
    validate_human_decision
      (human_corrected_decision human_approve handoff_70)
      dossier_70
      (order facts_7)
      0
      bundle_8
    ≡ ok 300
unfolding human_corrected_decision validate_human_decision validate_action_against_policy
    active_clauses check_refund
approved_300 = ground (arith, same_refl bundle_8)

decided : decide provider request ≡ proceed 50
unfolding decide check_released check_order current_valid claimed_items human_valid
decided = ground (arith, accepted, approved_300)

-- The application is called once, and its result is stored.
carried :
    (again : Ledger → ExecuteRefundRequest → Run)
    → ((carry_out provider again no_rows request (proceed 50) 30).calls ≡ 3070 ∷ [])
      × (is_called (carry_out provider again no_rows request (proceed 50) 30) ≡ true)
unfolding find_by_handoff carry_out start_pending new_execution insert_execution by_handoff
    execution_by resume mark_application_started locked_execution reserve_all insert_reservation
    owner settle_reservation save_execution attempt complete finish finish_row store_items
    insert_item refunded_by case_owner announce_case terminal_record sorted
carried again = (refl, refl)

refunds : is_called (execute provider 1 no_rows request 30) ≡ true
unfolding execute execute_step find_by_handoff by_handoff
refunds =
    let again : Ledger → ExecuteRefundRequest → Run = λ l r. execute provider 0 l r 30 in
    subst (λ v. is_called (carry_out provider again no_rows request v 30) ≡ true) (sym decided)
      (carried again).1

execute-IsDecided_example :
    (IsStarted request no_rows ⊎ IsStarted request no_rows) ⊎ IsDecided provider request
execute-IsDecided_example = execute-IsDecided provider 0 no_rows request 30 refunds

execute_returns_example :
    (execute provider 4 no_rows request 30 ≡ execute provider 1 no_rows request 30)
    × (is_exhausted (execute provider 4 no_rows request 30).returned ≡ false)
execute_returns_example = execute_returns provider 3 no_rows request 30
