-- ===== src/Refund/Provider/Execute.antt =====
-- `_terminal_record`, `_resume`, `_terminal_or_resume`, `execute` and `get_status` of
-- SqlAlchemyRefundExecutionProvider (apps/api/src/return_agent/capabilities/refund.py).
use shopee_hachathonteam.Prelude.{
  ℕ, zero, suc, Bool, true, false, ◌&&◌, ◌||◌, not, Option, none, some, [], ◌∷◌, Ref, Instant,
  Result, ok, err, is_none, if◌then◌else◌,
}
use shopee_hachathonteam.Refund.{
  succeeded, ExecutionState, applied, declined, ApplicationResult, Execution, Ledger,
  data_integrity, is_in_progress, execution_by,
}
use shopee_hachathonteam.Refund.Start.{find_by_handoff, start_pending, create_rejected}
use shopee_hachathonteam.Refund.Reserve.{mark_application_started}
use shopee_hachathonteam.Refund.Complete.{complete}
use shopee_hachathonteam.Refund.Authorization.{ResolutionHandoff}
use shopee_hachathonteam.Refund.Provider.{
  ExecuteRefundRequest, Provider, ProviderError, Run, Verdict, decide, exhausted, fail, proceed,
  raised, refuse, unavailable,
}

-- The state and the result of a row agree.
abbrev pub agrees : ExecutionState → ApplicationResult → Bool
agrees succeeded (applied _ _) = true
agrees succeeded (declined _ _) = false
agrees _ (applied _ _) = false
agrees _ (declined _ _) = true

-- `_terminal_record`
unfoldable pub terminal_record : Execution → Result ProviderError Execution
terminal_record e = elim e.application_result [
  | none ↦ err unavailable
  | some result ↦ if agrees e.state result then ok e else err (raised data_integrity)
]

abbrev pub answered : Ledger → Result ProviderError Execution → Run
answered l answer = record { ledger = l; calls = []; returned = answer }

-- The application is called for an execution whose start is committed, and its result is stored.
unfoldable pub attempt : Provider → Ledger → Execution → ResolutionHandoff → (now : Instant) → Run
unfolding terminal_record complete
attempt p l e resolution now = elim (p.apply e.execution_ref resolution) [
  | none ↦ record { ledger = p.during l; calls = e.execution_ref ∷ []; returned = err unavailable }
  | some result ↦ elim (complete (p.during l) e.execution_ref e.payload_hash result now) [
    | err _ ↦ record {
      ledger = p.during l;
      calls = e.execution_ref ∷ [];
      returned = err unavailable;
    }
    | ok done ↦ record {
      ledger = done.1;
      calls = e.execution_ref ∷ [];
      returned = terminal_record done.0;
    }
  ]
]

-- `again` is a call of `execute`.
module _ (p : Provider) (again : Ledger → ExecuteRefundRequest → Run) where
  -- `_resume`
  unfoldable pub resume :
      Ledger → Execution → (authorization_checked : Bool) → (now : Instant) → Run
  unfolding attempt mark_application_started
  resume l e checked now =
      if (p.parse e.request).is_evaluated && is_none e.application_started_at && not checked
      then again l (p.parse e.request)
      else (elim (mark_application_started l e.execution_ref e.payload_hash now) [
        | err _ ↦ answered l (err unavailable)
        | ok marked ↦
            if not (is_in_progress marked.0.state)
            then answered marked.1 (terminal_record marked.0)
            else attempt p marked.1 marked.0 (p.parse e.request).resolution now
      ])

  -- `_terminal_or_resume`
  unfoldable pub terminal_or_resume : Ledger → Execution → (now : Instant) → Run
  unfolding resume terminal_record
  terminal_or_resume l e now =
      if is_in_progress e.state then resume l e false now else answered l (terminal_record e)

  -- What follows the decision on a new request, on the tables as they are by then.
  unfoldable pub carry_out : Ledger → ExecuteRefundRequest → Verdict → (now : Instant) → Run
  unfolding terminal_or_resume create_rejected start_pending resume
  carry_out l r (fail x) now = answered l (err x)
  carry_out l r (refuse why) now =
      elim (create_rejected l (p.execution_ref r.resolution.handoff_id) r.request (p.hash r)
        (p.code why ∷ []) now) [
          | err x ↦ answered l (err (raised x))
          | ok recorded ↦ terminal_or_resume recorded.1 recorded.0 now
        ]
  carry_out l r (proceed order) now =
      elim (start_pending l (p.execution_ref r.resolution.handoff_id) r.request (p.hash r) order
        now) [
          | err x ↦ answered l (err (raised x))
          | ok pending ↦ resume pending.1 pending.0 true now
        ]

  -- One call of `execute`.
  unfoldable pub execute_step : Ledger → ExecuteRefundRequest → (now : Instant) → Run
  unfolding find_by_handoff terminal_or_resume decide carry_out
  execute_step l r now = elim (find_by_handoff l r.resolution.handoff_id (p.hash r)) [
    | err x ↦ answered l (err (raised x))
    | ok none ↦ carry_out (p.between l) r (decide p r) now
    | ok (some e) ↦
        if not (is_in_progress e.state) || not (is_none e.application_started_at)
        then terminal_or_resume l e now
        else carry_out (p.between l) r (decide p r) now
  ]

-- `execute`, with the depth of its calls through `_resume` as fuel.
unfoldable pub execute : Provider → ℕ → Ledger → ExecuteRefundRequest → (now : Instant) → Run
unfolding execute_step
execute p zero l r now = answered l (err exhausted)
execute p (suc n) l r now = execute_step p (λ l' r'. execute p n l' r' now) l r now

-- `get_status`
unfoldable pub get_status : Ledger → (execution_ref : Ref) → Result ProviderError (Option Execution)
unfolding execution_by terminal_record
get_status l ref = elim (execution_by ref l.executions) [
  | none ↦ ok none
  | some e ↦
      if is_in_progress e.state
      then err unavailable
      else (elim (terminal_record e) [ err x ↦ err x | ok record_of ↦ ok (some record_of) ])
]
