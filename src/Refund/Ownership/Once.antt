-- ===== src/Refund/Ownership/Once.antt =====
-- The refund ledger under any interleaving of transactions: an item of an order is refunded by one
-- execution at most.
use shopee_hachathonteam.Prelude.{
  ◌≡◌, true, false, some, List, [], Ref, Instant, arith, subst, All-mem, ok, mem,
}
use shopee_hachathonteam.Refund.{
  RefundRequest, ApplicationResult, Execution, Ledger, execution_by, owner,
}
use shopee_hachathonteam.Refund.Start.{start_pending, create_rejected, is_unstarted}
use shopee_hachathonteam.Refund.Reserve.{mark_application_started, register_execution}
use shopee_hachathonteam.Refund.Complete.{complete}
use shopee_hachathonteam.Refund.Rows.{All-execution_by, execution_by_key}
use shopee_hachathonteam.Refund.Ownership.{
  IsSound, IsBacked, Holds, may_have_charged, charged-Holds,
}
use shopee_hachathonteam.Refund.Ownership.Steps.{
  start_pending-IsSound, create_rejected-IsSound, register_execution-IsSound,
  mark_application_started-IsSound, complete-IsSound,
}

-- A committed transaction of any worker. `_resume` completes only an execution that it has marked,
-- so one that is completed is not unstarted.
pub data Step (l l' : Ledger) : Type 0 where
  starts :
      (ref : Ref) (request : RefundRequest) (hash order : Ref) (now : Instant) (e : Execution)
      → start_pending l ref request hash order now ≡ ok (e, l')
      → Step l l'
  registers :
      (ref : Ref) (request : RefundRequest) (hash order : Ref) (now : Instant) (e : Execution)
      → register_execution l ref request hash order now ≡ ok (e, l')
      → Step l l'
  rejects :
      (ref : Ref) (request : RefundRequest) (hash : Ref) (reasons : List Ref) (now : Instant)
      (e : Execution)
      → create_rejected l ref request hash reasons now ≡ ok (e, l')
      → Step l l'
  marks :
      (ref hash : Ref) (now : Instant) (e : Execution)
      → mark_application_started l ref hash now ≡ ok (e, l')
      → Step l l'
  completes :
      (ref hash : Ref) (result : ApplicationResult) (now : Instant) (old e : Execution)
      → execution_by ref l.executions ≡ some old
      → is_unstarted old ≡ false
      → complete l ref hash result now ≡ ok (e, l')
      → Step l l'

pub Step-IsSound : {l l' : Ledger} → Step l l' → IsSound l → IsSound l'
Step-IsSound {l} (starts ref request hash order now e h) s =
    start_pending-IsSound l ref request hash order now s h
Step-IsSound {l} (registers ref request hash order now e h) s =
    register_execution-IsSound l ref request hash order now s h
Step-IsSound {l} (rejects ref request hash reasons now e h) s =
    create_rejected-IsSound l ref request hash reasons now s h
Step-IsSound {l} (marks ref hash now e h) s = mark_application_started-IsSound l ref hash now s h
Step-IsSound {l} (completes ref hash result now old e found attempted h) s =
    complete-IsSound l ref hash result now old s found attempted h

pub data Reach (l : Ledger) : Ledger → Type 0 where
  here : Reach l l
  next : {m n : Ledger} → Reach l m → Step m n → Reach l n

pub Reach-IsSound : {l m : Ledger} → Reach l m → IsSound l → IsSound m
Reach-IsSound here s = s
Reach-IsSound (next r st) s = Step-IsSound st (Reach-IsSound r s)

-- A ledger with no execution and no reservation.
abbrev pub IsFresh : Ledger → Type 0
IsFresh l = (l.executions ≡ []) × (l.reservations ≡ [])

fresh-IsSound : (l : Ledger) → IsFresh l → IsSound l
fresh-IsSound l f = record { keyed = ground arith; backed = ground arith; valid = ground arith }

Holds-owner :
    (l : Ledger) (ref order item : Ref) (e : Execution)
    → IsSound l
    → execution_by ref l.executions ≡ some e
    → may_have_charged e.state e.application_started_at ≡ true
    → e.order_ref ≡ some order
    → mem item e.request.line_item_ids ≡ true
    → owner order item l.reservations ≡ some ref
Holds-owner l ref order item e s found charged has member =
    let key : e.execution_ref ≡ ref = execution_by_key ref l.executions e found in
    let held =
      charged-Holds l.reservations e charged
        (All-execution_by (IsBacked l.reservations) ref l.executions e found s.backed) in
    let all : Holds l.reservations e.execution_ref (some order) e.request.line_item_ids =
      subst (λ o. Holds l.reservations e.execution_ref o e.request.line_item_ids) has held in
    let one =
      All-mem (λ i. owner order i l.reservations ≡ some e.execution_ref) item
        e.request.line_item_ids member all in
    ground arith

-- From an empty ledger, after any transactions of any workers: two executions that have refunded, or
-- may have refunded, the same item of the same order are one and the same.
pub refunded_once :
    (l m : Ledger) (first second order item : Ref) (e f : Execution)
    → IsFresh l
    → Reach l m
    → execution_by first m.executions ≡ some e
    → execution_by second m.executions ≡ some f
    → may_have_charged e.state e.application_started_at ≡ true
    → may_have_charged f.state f.application_started_at ≡ true
    → e.order_ref ≡ some order
    → f.order_ref ≡ some order
    → mem item e.request.line_item_ids ≡ true
    → mem item f.request.line_item_ids ≡ true
    → first ≡ second
refunded_once l m first second order item e f fresh r fe ff ce cf oe of me mf =
    let s = Reach-IsSound r (fresh-IsSound l fresh) in
    ground (
      arith,
      Holds-owner m first order item e s fe ce oe me,
      Holds-owner m second order item f s ff cf of mf,
    )
