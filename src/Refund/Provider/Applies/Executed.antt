-- ===== src/Refund/Provider/Applies/Executed.antt =====
-- The calls of the application that `execute` makes.
use shopee_hachathonteam.Prelude.{
  ℕ, suc, ◌≡◌, refl, true, some, List, [], ◌∷◌, Ref, Instant, ok, inl, inr, ◌⊎◌, arith, Bool-cases,
  Option-cases, Result-cases,
}
use shopee_hachathonteam.Refund.{
  RefundRequest, Execution, Ledger, is_in_progress, execution_by, by_handoff, insert_execution,
}
use shopee_hachathonteam.Refund.Start.{
  is_unstarted, reject_row, new_execution, find_by_handoff, create_rejected,
}
use shopee_hachathonteam.Refund.Provider.{
  ExecuteRefundRequest, Provider, Run, Verdict, refuse, fail, proceed, decide,
}
use shopee_hachathonteam.Refund.Provider.Execute.{
  terminal_or_resume, carry_out, execute_step, execute,
}
use shopee_hachathonteam.Refund.Provider.Returns.{create_rejected-settled}
use shopee_hachathonteam.Refund.Provider.Applies.{IsDecided, IsStarted, decide-IsDecided, is_called}

-- A rejection that finds an execution in progress finds one that was started.
create_rejected-found :
    (l l' : Ledger) (ref : Ref) (request : RefundRequest) (hash : Ref) (reasons : List Ref)
    (now : Instant) (e : Execution)
    → create_rejected l ref request hash reasons now ≡ ok (e, l')
    → is_in_progress e.state ≡ true
    → by_handoff request.handoff_id l.executions ≡ some e
unfolding create_rejected reject_row new_execution insert_execution by_handoff
create_rejected-found l l' ref request hash reasons now e h going =
    elim (Option-cases (by_handoff request.handoff_id l.executions)) [
      | inl missing ↦ elim (Option-cases (execution_by ref l.executions)) [
        | inl free ↦ absurd (ground arith)
        | inr (x, taken) ↦ absurd (ground arith)
      ]
      | inr (x, there) ↦ elim (Bool-cases (is_unstarted x)) [
        | inl fresh ↦ absurd (ground arith)
        | inr over ↦ ground arith
      ]
    ]

find_by_handoff-row :
    (l : Ledger) (id hash : Ref) (e : Execution)
    → find_by_handoff l id hash ≡ ok (some e)
    → by_handoff id l.executions ≡ some e
unfolding find_by_handoff
find_by_handoff-row l id hash e h = elim (Option-cases (by_handoff id l.executions)) [
  | inl missing ↦ absurd (ground arith)
  | inr (x, there) ↦ ground arith
]

module _ (p : Provider) (f : Ledger → ExecuteRefundRequest → Run) (r : ExecuteRefundRequest)
    (now : Instant) where
  resumed-going :
      (l : Ledger) (e : Execution)
      → is_called (terminal_or_resume p f l e now) ≡ true
      → is_in_progress e.state ≡ true
  unfolding terminal_or_resume
  resumed-going l e called = ground arith

  carry_out-decided :
      (l : Ledger) (v : Verdict)
      → is_called (carry_out p f l r v now) ≡ true
      → IsStarted r l ⊎ ((order : Ref) × (v ≡ proceed order))
  unfolding carry_out
  carry_out-decided l (fail x) called = absurd (ground arith)
  carry_out-decided l (proceed order) called = inr (order, refl)
  carry_out-decided l (refuse why) called =
      elim (Result-cases (
        create_rejected l (p.execution_ref r.resolution.handoff_id) r.request (p.hash r)
          (p.code why ∷ []) now)) [
            | inr (x, failed) ↦ absurd (ground arith)
            | inl ((e, l'), done) ↦
                let going = resumed-going l' e (ground arith) in
                let found =
                  create_rejected-found l l' (p.execution_ref r.resolution.handoff_id) r.request
                    (p.hash r) (p.code why ∷ []) now e done going in
                let settled =
                  create_rejected-settled l l' (p.execution_ref r.resolution.handoff_id) r.request
                    (p.hash r) (p.code why ∷ []) now e done in
                inl (e, inl found, going, ground arith)
          ]

  execute_step-IsDecided :
      (l : Ledger)
      → is_called (execute_step p f l r now) ≡ true
      → (IsStarted r l ⊎ IsStarted r (p.between l)) ⊎ IsDecided p r
  unfolding execute_step
  execute_step-IsDecided l called =
      elim (Result-cases (find_by_handoff l r.resolution.handoff_id (p.hash r))) [
        | inr (x, failed) ↦ absurd (ground arith)
        | inl (found, looked) ↦ elim (Option-cases found) [
          | inl new ↦ decided (ground arith)
          | inr (e, there) ↦ elim (Bool-cases (is_unstarted e)) [
            | inl fresh ↦ decided (ground arith)
            | inr settled ↦
                let going = resumed-going l e (ground arith) in
                inl (
                  inl (
                    e,
                    inr (find_by_handoff-row l r.resolution.handoff_id (p.hash r) e (ground arith)),
                    going,
                    ground arith,
                  ))
          ]
        ]
      ]
    where
      decided :
          is_called (carry_out p f (p.between l) r (decide p r) now) ≡ true
          → (IsStarted r l ⊎ IsStarted r (p.between l)) ⊎ IsDecided p r
      decided here = elim (carry_out-decided (p.between l) (decide p r) here) [
        | inl retried ↦ inl (inr retried)
        | inr (order, is) ↦ inr (decide-IsDecided p r order is)
      ]

-- When a call of `execute` calls the application that moves the money, then the execution of the
-- request was in progress with its application already started, at the beginning of the call or when
-- its decision was carried out, or this call decided the request: its authorization is stored, and
-- its reviewer or its human has the authority that `Authorized` describes; the fulfillment of a v2
-- case has released the refund; the handoff, the review and, where a human decided, that decision are
-- valid against the current order; and an edit pays the sum of its items within the order's maximum.
pub execute-IsDecided :
    (p : Provider) (n : ℕ) (l : Ledger) (r : ExecuteRefundRequest) (now : Instant)
    → is_called (execute p (suc n) l r now) ≡ true
    → (IsStarted r l ⊎ IsStarted r (p.between l)) ⊎ IsDecided p r
unfolding execute
execute-IsDecided p n l r now called =
    execute_step-IsDecided p (λ l' r'. execute p n l' r' now) r now l called
