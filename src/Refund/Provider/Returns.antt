-- ===== src/Refund/Provider/Returns.antt =====
-- The calls of `execute`, with the one that `_resume` makes.
use shopee_hachathonteam.Prelude.{
  ℕ, suc, ◌≡◌, refl, subst, Bool, true, false, ◌&&◌, not, none, List, [], ◌∷◌, Ref, Instant, Result,
  ok, err, inl, inr, arith, is_none, Bool-cases, Option-cases, Result-cases,
}
use shopee_hachathonteam.Refund.{
  RefundRequest, Execution, Ledger, is_in_progress, by_handoff, insert_execution,
}
use shopee_hachathonteam.Refund.Start.{
  is_unstarted, reject_row, new_execution, find_by_handoff, start_pending, create_rejected,
}
use shopee_hachathonteam.Refund.Reserve.{mark_application_started}
use shopee_hachathonteam.Refund.Complete.{complete}
use shopee_hachathonteam.Refund.Authorization.{ResolutionHandoff}
use shopee_hachathonteam.Refund.Provider.{
  ExecuteRefundRequest, ProviderError, exhausted, unavailable, Provider, Run, Verdict, refuse, fail,
  proceed, decide, check_released, check_order,
}
use shopee_hachathonteam.Refund.Provider.Execute.{
  terminal_record, answered, attempt, resume, terminal_or_resume, carry_out, execute_step, execute,
}

-- A row after a rejection has its outcome, or its application was started.
pub create_rejected-settled :
    (l l' : Ledger) (ref : Ref) (request : RefundRequest) (hash : Ref) (reasons : List Ref)
    (now : Instant) (e : Execution)
    → create_rejected l ref request hash reasons now ≡ ok (e, l')
    → is_unstarted e ≡ false
unfolding create_rejected reject_row
create_rejected-settled l l' ref request hash reasons now e h =
    elim (Option-cases (
      by_handoff request.handoff_id (
        insert_execution (reject_row (new_execution ref request hash none now) reasons now)
          l.executions))) [
            | inl missing ↦ absurd (ground arith)
            | inr (x, there) ↦ elim (Bool-cases (is_unstarted x)) [
              | inl fresh ↦ ground arith
              | inr over ↦ ground arith
            ]
          ]

module _ (p : Provider) (f g : Ledger → ExecuteRefundRequest → Run) (now : Instant) where
  resume-same :
      (l : Ledger) (e : Execution) (checked : Bool)
      → (is_none e.application_started_at && not checked) ≡ false
      → resume p f l e checked now ≡ resume p g l e checked now
  unfolding resume
  resume-same l e checked settled = ground arith

  terminal_or_resume-same :
      (l : Ledger) (e : Execution)
      → is_unstarted e ≡ false
      → terminal_or_resume p f l e now ≡ terminal_or_resume p g l e now
  unfolding terminal_or_resume
  terminal_or_resume-same l e settled = elim (Bool-cases (is_in_progress e.state)) [
    | inr over ↦ ground arith
    | inl going ↦ ground (arith, resume-same l e false)
  ]

  carry_out-same :
      (l : Ledger) (r : ExecuteRefundRequest) (v : Verdict)
      → carry_out p f l r v now ≡ carry_out p g l r v now
  unfolding carry_out
  carry_out-same l r (fail x) = refl
  carry_out-same l r (refuse why) =
      elim (Result-cases (
        create_rejected l (p.execution_ref r.resolution.handoff_id) r.request (p.hash r)
          (p.code why ∷ []) now)) [
            | inr (x, failed) ↦ ground arith
            | inl (recorded, done) ↦
                let settled =
                  create_rejected-settled l recorded.1 (p.execution_ref r.resolution.handoff_id)
                    r.request (p.hash r) (p.code why ∷ []) now recorded.0 (ground arith) in
                ground (arith, terminal_or_resume-same recorded.1 recorded.0 settled)
          ]
  carry_out-same l r (proceed order) =
      elim (Result-cases (
        start_pending l (p.execution_ref r.resolution.handoff_id) r.request (p.hash r) order now)) [
          | inr (x, failed) ↦ ground arith
          | inl (pending, done) ↦
              ground (arith, resume-same pending.1 pending.0 true (ground arith))
        ]

  -- The call through `_resume` has no influence.
  pub execute_step-same :
      (l : Ledger) (r : ExecuteRefundRequest) → execute_step p f l r now ≡ execute_step p g l r now
  unfolding execute_step
  execute_step-same l r =
      elim (Result-cases (find_by_handoff l r.resolution.handoff_id (p.hash r))) [
        | inr (x, failed) ↦ ground arith
        | inl (found, looked) ↦ elim (Option-cases found) [
          | inl new ↦ ground (arith, carry_out-same (p.between l) r (decide p r))
          | inr (e, there) ↦ elim (Bool-cases (is_unstarted e)) [
            | inl fresh ↦ ground (arith, carry_out-same (p.between l) r (decide p r))
            | inr settled ↦ ground (arith, terminal_or_resume-same l e settled)
          ]
        ]
      ]

abbrev pub is_exhausted : Result ProviderError Execution → Bool
is_exhausted (err exhausted) = true
is_exhausted _ = false

abbrev is_end_of_fuel : Verdict → Bool
is_end_of_fuel (fail exhausted) = true
is_end_of_fuel _ = false

terminal_record-answers : (e : Execution) → is_exhausted (terminal_record e) ≡ false
unfolding terminal_record
terminal_record-answers e = ground arith

decide-answers : (p : Provider) (r : ExecuteRefundRequest) → is_end_of_fuel (decide p r) ≡ false
unfolding decide check_released check_order
decide-answers p r = ground arith

module _ (p : Provider) (f : Ledger → ExecuteRefundRequest → Run) (now : Instant)
    (answers : (l : Ledger) (r : ExecuteRefundRequest)
      → is_exhausted (f l r).returned ≡ false) where
  attempt-answers :
      (l : Ledger) (e : Execution) (h : ResolutionHandoff)
      → is_exhausted (attempt p l e h now).returned ≡ false
  unfolding attempt
  attempt-answers l e h = elim (Option-cases (p.apply e.execution_ref h)) [
    | inl raises ↦ ground arith
    | inr (result, made) ↦
        elim (Result-cases (complete (p.during l) e.execution_ref e.payload_hash result now)) [
          | inr (x, failed) ↦ ground arith
          | inl (done, stored) ↦ ground (arith, terminal_record-answers done.0)
        ]
  ]

  resume-answers :
      (l : Ledger) (e : Execution) (checked : Bool)
      → is_exhausted (resume p f l e checked now).returned ≡ false
  unfolding resume
  resume-answers l e checked =
      elim (Result-cases (mark_application_started l e.execution_ref e.payload_hash now)) [
        | inr (x, failed) ↦ ground (arith, answers l (p.parse e.request))
        | inl (marked, done) ↦ ground (
          arith,
          answers l (p.parse e.request),
          terminal_record-answers marked.0,
          attempt-answers marked.1 marked.0 (p.parse e.request).resolution,
        )
      ]

  terminal_or_resume-answers :
      (l : Ledger) (e : Execution) → is_exhausted (terminal_or_resume p f l e now).returned ≡ false
  unfolding terminal_or_resume
  terminal_or_resume-answers l e =
      ground (arith, resume-answers l e false, terminal_record-answers e)

  carry_out-answers :
      (l : Ledger) (r : ExecuteRefundRequest) (v : Verdict)
      → is_end_of_fuel v ≡ false
      → is_exhausted (carry_out p f l r v now).returned ≡ false
  unfolding carry_out
  carry_out-answers l r (fail x) some_end = ground arith
  carry_out-answers l r (refuse why) some_end =
      elim (Result-cases (
        create_rejected l (p.execution_ref r.resolution.handoff_id) r.request (p.hash r)
          (p.code why ∷ []) now)) [
            | inr (x, failed) ↦ ground arith
            | inl (recorded, done) ↦
                ground (arith, terminal_or_resume-answers recorded.1 recorded.0)
          ]
  carry_out-answers l r (proceed order) some_end =
      elim (Result-cases (
        start_pending l (p.execution_ref r.resolution.handoff_id) r.request (p.hash r) order now)) [
          | inr (x, failed) ↦ ground arith
          | inl (pending, done) ↦ ground (arith, resume-answers pending.1 pending.0 true)
        ]

  execute_step-answers :
      (l : Ledger) (r : ExecuteRefundRequest)
      → is_exhausted (execute_step p f l r now).returned ≡ false
  unfolding execute_step
  execute_step-answers l r =
      elim (Result-cases (find_by_handoff l r.resolution.handoff_id (p.hash r))) [
        | inr (x, failed) ↦ ground arith
        | inl (found, looked) ↦
            let decided = carry_out-answers (p.between l) r (decide p r) (decide-answers p r) in
            elim (Option-cases found) [
              | inl new ↦ ground arith
              | inr (e, there) ↦ ground (arith, terminal_or_resume-answers l e)
            ]
      ]

-- One call of `execute` is enough: with any more fuel it has the same tables, calls and answer, and it never ends
-- for lack of fuel, so `_resume` never makes the call of `execute` that it contains.
pub execute_returns :
    (p : Provider) (n : ℕ) (l : Ledger) (r : ExecuteRefundRequest) (now : Instant)
    → (execute p (suc n) l r now ≡ execute p 1 l r now)
      × (is_exhausted (execute p (suc n) l r now).returned ≡ false)
unfolding execute
execute_returns p n l r now =
    let answered_by : Ledger → ExecuteRefundRequest → Run =
      λ l' r'. answered l' (err unavailable) in
    (
      execute_step-same p (λ l' r'. execute p n l' r' now) (λ l' r'. execute p 0 l' r' now) now l r,
      subst (λ x. is_exhausted x.returned ≡ false)
          (execute_step-same p answered_by (λ l' r'. execute p n l' r' now) now l r)
          (execute_step-answers p answered_by now (λ l' r'. refl) l r),
    )
