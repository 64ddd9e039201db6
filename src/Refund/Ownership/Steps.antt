-- ===== src/Refund/Ownership/Steps.antt =====
-- Every transaction of the refund ledger keeps the invariant.
use shopee_hachathonteam.Prelude.{
  ◌≡◌, refl, inl, inr, true, false, not, none, some, List, [], ◌∷◌, Ref, Instant, arith, ◌==◌,
  keep_if, subst, subst₂, sym, All, Bool-cases, Option-cases, All-sorted, sorted, ok,
}
use shopee_hachathonteam.Refund.{
  RefundRequest, ApplicationResult, applied, declined, Execution, Ledger, execution_by, by_handoff,
  save_execution, insert_execution, owner, is_in_progress,
}
use shopee_hachathonteam.Refund.Start.{
  start_pending, create_rejected, reject_row, new_execution, is_unstarted, locked_execution,
}
use shopee_hachathonteam.Refund.Reserve.{
  mark_application_started, settle_reservation, reserve_all, register_execution, reserve_or_raise,
  started,
}
use shopee_hachathonteam.Refund.Complete.{complete, finish, finish_row}
use shopee_hachathonteam.Refund.Success.{finish_applied}
use shopee_hachathonteam.Refund.Rows.{
  IsKeyed, execution_by_key, execution_by-by_handoff, All-execution_by, owner-reserve_all,
  reserve_all-owner, owner-release,
}
use shopee_hachathonteam.Refund.Ownership.{
  IsSound, IsBacked, Holds, may_have_charged, is_row_valid, insert-IsSound, update-IsSound,
  Holds-IsBacked, charged-Holds, extend-IsSound,
}

-- Starting an execution keeps the invariant.
pub start_pending-IsSound :
    (l : Ledger) (ref : Ref) (request : RefundRequest) (hash order : Ref) (now : Instant)
    {e : Execution} {l' : Ledger}
    → IsSound l
    → start_pending l ref request hash order now ≡ ok (e, l')
    → IsSound l'
unfolding start_pending
start_pending-IsSound l ref request hash order now {e} {l'} s h =
    let fresh = new_execution ref request hash (some order) now in
    let es = insert_execution fresh l.executions in
    let same : record l { executions = es } ≡ l' =
      elim (Option-cases (by_handoff request.handoff_id es)) [
        | inl missing ↦ absurd (ground arith)
        | inr (found, e) ↦ ground arith
      ] in
    subst IsSound same (insert-IsSound l fresh s refl refl)

-- The row that `create_rejected` writes for an execution that was found unstarted.
rejection-IsSound :
    (l : Ledger) (e : Execution) (reasons : List Ref) (now : Instant)
    → IsSound l
    → execution_by e.execution_ref l.executions ≡ some e
    → IsSound (record l { executions = save_execution (reject_row e reasons now) l.executions })
unfolding reject_row
rejection-IsSound l e reasons now s found =
    update-IsSound l (reject_row e reasons now) e l.reservations s found refl
      (λ o item x ne held. held) tt refl

-- Recording a rejection keeps the invariant.
pub create_rejected-IsSound :
    (l : Ledger) (ref : Ref) (request : RefundRequest) (hash : Ref) (reasons : List Ref)
    (now : Instant) {e : Execution} {l' : Ledger}
    → IsSound l
    → create_rejected l ref request hash reasons now ≡ ok (e, l')
    → IsSound l'
unfolding create_rejected reject_row
create_rejected-IsSound l ref request hash reasons now {e} {l'} s h =
    let fresh = reject_row (new_execution ref request hash none now) reasons now in
    let es = insert_execution fresh l.executions in
    let l1 : Ledger = record l { executions = es } in
    let s1 : IsSound l1 = insert-IsSound l fresh s refl refl in
    elim (Option-cases (by_handoff request.handoff_id es)) [
      | inl missing ↦ absurd (ground arith)
      | inr (found, by) ↦ elim (Bool-cases (is_unstarted found)) [
        | inl unstarted ↦
            let same : record l1 { executions = save_execution (reject_row found reasons now) es }
                ≡ l' =
              ground arith in
            subst IsSound same (
              rejection-IsSound l1 found reasons now s1
                (execution_by-by_handoff request.handoff_id es found s1.keyed by))
        | inr other ↦ let same : l1 ≡ l' = ground arith in subst IsSound same s1
      ]
    ]

-- The reservations of a registered authorization keep the invariant.
pub register_execution-IsSound :
    (l : Ledger) (ref : Ref) (request : RefundRequest) (hash order : Ref) (now : Instant)
    {e : Execution} {l' : Ledger}
    → IsSound l
    → register_execution l ref request hash order now ≡ ok (e, l')
    → IsSound l'
unfolding register_execution reserve_or_raise
register_execution-IsSound l ref request hash order now {e} {l'} s h =
    let fresh = new_execution ref request hash (some order) now in
    let es = insert_execution fresh l.executions in
    let l1 : Ledger = record l { executions = es } in
    let s1 : IsSound l1 = insert-IsSound l fresh s refl refl in
    elim (Option-cases (reserve_all order ref (sorted request.line_item_ids) l.reservations)) [
      | inl clash ↦ absurd (ground arith)
      | inr (rs, reserved) ↦
          let same : record l1 { reservations = rs } ≡ l' = ground arith in
          subst IsSound same (
            extend-IsSound l1 rs s1 (λ o item x held.
              owner-reserve_all o order item ref (sorted request.line_item_ids) l.reservations x
                reserved held))
    ]

-- Keeping what is held, when the items of an execution in progress are reserved.
settle-IsSound :
    (l : Ledger) (e : Execution) (order : Ref) (now : Instant) {e' : Execution} {l' : Ledger}
    → IsSound l
    → execution_by e.execution_ref l.executions ≡ some e
    → is_in_progress e.state ≡ true
    → e.order_ref ≡ some order
    → settle_reservation l e
        (reserve_all order e.execution_ref (sorted e.request.line_item_ids) l.reservations)
        now
      ≡ ok (e', l')
    → IsSound l'
unfolding settle_reservation reject_row
settle-IsSound l e order now {e'} {l'} s found open_row has h =
    elim (Option-cases
      (reserve_all order e.execution_ref (sorted e.request.line_item_ids) l.reservations)) [
        | inl clash ↦
            let row = reject_row e (0 ∷ []) now in
            let same : record l { executions = save_execution row l.executions } ≡ l' =
              ground arith in
            subst IsSound same (rejection-IsSound l e (0 ∷ []) now s found)
        | inr (rs, reserved) ↦
            let r = started e now in
            let same : record l { executions = save_execution r l.executions; reservations = rs }
                ≡ l' =
              ground arith in
            subst IsSound same (
              update-IsSound l r e rs s found refl
                (λ o item x ne held.
                  owner-reserve_all o order item e.execution_ref (sorted e.request.line_item_ids)
                    l.reservations x reserved held)
                (Holds-IsBacked rs r (
                  subst (λ o. Holds rs e.execution_ref o e.request.line_item_ids) (sym has)
                    (All-sorted (λ i. owner order i rs ≡ some e.execution_ref)
                      e.request.line_item_ids
                      (reserve_all-owner order e.execution_ref (sorted e.request.line_item_ids)
                        l.reservations reserved))))
                (let v =
                    All-execution_by (λ e. is_row_valid e ≡ true) e.execution_ref l.executions e
                      found s.valid in
                  ground arith))
      ]

-- Recording that the mutation is attempted keeps the invariant.
pub mark_application_started-IsSound :
    (l : Ledger) (ref hash : Ref) (now : Instant) {e' : Execution} {l' : Ledger}
    → IsSound l
    → mark_application_started l ref hash now ≡ ok (e', l')
    → IsSound l'
unfolding mark_application_started locked_execution
mark_application_started-IsSound l ref hash now {e'} {l'} s h =
    elim (Option-cases (execution_by ref l.executions)) [
      | inl missing ↦ absurd (ground arith)
      | inr (e, found) ↦ marked e found (execution_by_key ref l.executions e found)
    ]
  where
    marked :
        (e : Execution)
        → execution_by ref l.executions ≡ some e
        → e.execution_ref ≡ ref
        → IsSound l'
    marked e found key = elim (Bool-cases (is_in_progress e.state)) [
      | inl running ↦ elim (Option-cases e.order_ref) [
        | inl homeless ↦ absurd (ground arith)
        | inr (order, has) ↦
            settle-IsSound l e order now {e' = e'} s (ground arith) running has (ground arith)
      ]
      | inr over ↦ let same : l ≡ l' = ground arith in subst IsSound same s
    ]

IsSound-same :
    (l l' : Ledger)
    → l.executions ≡ l'.executions
    → l.reservations ≡ l'.reservations
    → IsSound l
    → IsSound l'
IsSound-same l l' es rs s = record {
  keyed = subst IsKeyed es s.keyed;
  backed = subst₂ (λ r e. All (IsBacked r) e) rs es s.backed;
  valid = subst (All (λ e. is_row_valid e ≡ true)) es s.valid;
}

-- The end of an execution whose mutation was attempted keeps the invariant: a success keeps its
-- items, a rejection releases them.
pub complete-IsSound :
    (l : Ledger) (ref hash : Ref) (result : ApplicationResult) (now : Instant) (e : Execution)
    {e' : Execution} {l' : Ledger}
    → IsSound l
    → execution_by ref l.executions ≡ some e
    → is_unstarted e ≡ false
    → complete l ref hash result now ≡ ok (e', l')
    → IsSound l'
unfolding complete locked_execution finish finish_row
complete-IsSound l ref hash (applied application at) now e {e'} {l'} s found attempted h =
    elim (Bool-cases (is_in_progress e.state)) [
      | inl running ↦
          let row = finish_row e (applied application at) now in
          let key : e.execution_ref ≡ ref = execution_by_key ref l.executions e found in
          let done : finish l e (applied application at) now ≡ ok (e', l') = ground arith in
          let (order, has, stored, is_row, saved, kept) =
            finish_applied l e application at now done in
          let charged : may_have_charged e.state e.application_started_at ≡ true = ground arith in
          let backed =
            All-execution_by (IsBacked l.reservations) ref l.executions e found s.backed in
          IsSound-same (record l { executions = save_execution row l.executions }) l' (ground arith)
            kept
            (update-IsSound l row e l.reservations s (ground arith) refl (λ o item x ne held. held)
              (Holds-IsBacked l.reservations row (charged-Holds l.reservations e charged backed))
              refl)
      | inr over ↦ let same : l ≡ l' = ground arith in subst IsSound same s
    ]
complete-IsSound l ref hash (declined reasons at) now e {e'} {l'} s found attempted h =
    elim (Bool-cases (is_in_progress e.state)) [
      | inl running ↦
          let row = finish_row e (declined reasons at) now in
          let rs = keep_if (λ r. not (r.execution_ref == e.execution_ref)) l.reservations in
          let key : e.execution_ref ≡ ref = execution_by_key ref l.executions e found in
          let same : record l { executions = save_execution row l.executions; reservations = rs }
              ≡ l' =
            ground arith in
          subst IsSound same (
            update-IsSound l row e rs s (ground arith) refl
              (λ o item x ne held. owner-release o item e.execution_ref x l.reservations ne held) tt
              refl)
      | inr over ↦ let same : l ≡ l' = ground arith in subst IsSound same s
    ]
