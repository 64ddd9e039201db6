-- ===== src/Refund/Ownership.antt =====
-- The invariant of the refund ledger: an execution that may have moved money holds every item of its
-- scope, so no item is ever refunded by two executions.
pub mod Steps
pub mod Once
use shopee_hachathonteam.Prelude.{
  ℕ, ◌≡◌, ◌≢◌, refl, inl, inr, Bool, true, false, ◌&&◌, not, Option, none, some, List, [], ◌∷◌, Ref,
  Instant, arith, ◌==◌, if◌then◌else◌, is_none, same_option, keep_if, subst, sym, All, All-map,
  Bool-cases, Option-cases, All-sorted, sorted, ok, mem, Result,
}
use shopee_hachathonteam.Refund.{
  RefundRequest, ExecutionState, in_progress, succeeded, rejected, ApplicationResult, applied,
  declined, Execution, Reservation, Ledger, execution_by, by_handoff, save_execution,
  insert_execution, owner, is_in_progress, RefundError,
}
use shopee_hachathonteam.Refund.Start.{
  start_pending, create_rejected, reject_row, new_execution, is_unstarted, locked_execution,
}
use shopee_hachathonteam.Refund.Reserve.{
  mark_application_started, settle_reservation, reserve_all, register_execution, reserve_or_raise,
  started,
}
use shopee_hachathonteam.Refund.Complete.{complete, finish, finish_row}
use shopee_hachathonteam.Refund.Rows.{
  IsKeyed, insert_execution-IsKeyed, save-IsKeyed, execution_by-save, execution_by_key,
  execution_by-by_handoff, All-insert_execution, All-save, All-execution_by, owner-reserve_all,
  reserve_all-owner, owner-release,
}

-- The mutation may have been attempted: it succeeded, or it was started and has no result yet.
abbrev pub may_have_charged : ExecutionState → Option Instant → Bool
may_have_charged in_progress started_at = not (is_none started_at)
may_have_charged succeeded started_at = true
may_have_charged rejected started_at = false

abbrev pub Holds : List Reservation → Ref → Option Ref → List Ref → Type 0
Holds rs ref none items = ⊥
Holds rs ref (some order) items = All (λ i. owner order i rs ≡ some ref) items

abbrev pub IsBacked : List Reservation → Execution → Type 0
IsBacked rs e = elim (may_have_charged e.state e.application_started_at) [
  | true ↦ Holds rs e.execution_ref e.order_ref e.request.line_item_ids
  | false ↦ Unit {0}
]

-- The check constraint `ck_refund_executions_terminal_result`.
abbrev pub is_row_valid : Execution → Bool
is_row_valid e =
    if is_in_progress e.state
    then is_none e.application_result && is_none e.completed_at
    else not (is_none e.application_result) && not (is_none e.completed_at)

pub record IsSound (l : Ledger) : Type 0 where
  pub keyed : IsKeyed l.executions
  pub backed : All (IsBacked l.reservations) l.executions
  pub valid : All (λ e. is_row_valid e ≡ true) l.executions

pub idle-IsBacked :
    (rs : List Reservation) (e : Execution)
    → may_have_charged e.state e.application_started_at ≡ false
    → IsBacked rs e
idle-IsBacked rs e idle = rw (idle, IsBacked) tt

pub charged-Holds :
    (rs : List Reservation) (e : Execution)
    → may_have_charged e.state e.application_started_at ≡ true
    → IsBacked rs e
    → Holds rs e.execution_ref e.order_ref e.request.line_item_ids
charged-Holds rs e charged h = rw (charged, IsBacked) at h

pub Holds-IsBacked :
    (rs : List Reservation) (e : Execution)
    → Holds rs e.execution_ref e.order_ref e.request.line_item_ids
    → IsBacked rs e
Holds-IsBacked rs e h = elim (Bool-cases (may_have_charged e.state e.application_started_at)) [
  | inl charged ↦ rw (charged, IsBacked) h
  | inr idle ↦ rw (idle, IsBacked) tt
]

-- A new row that has charged nothing keeps the invariant.
pub insert-IsSound :
    (l : Ledger) (r : Execution)
    → IsSound l
    → may_have_charged r.state r.application_started_at ≡ false
    → is_row_valid r ≡ true
    → IsSound (record l { executions = insert_execution r l.executions })
insert-IsSound l r s idle valid = record {
  keyed = insert_execution-IsKeyed r l.executions s.keyed;
  backed =
      All-insert_execution (IsBacked l.reservations) r l.executions
        (idle-IsBacked l.reservations r idle) s.backed;
  valid = All-insert_execution (λ e. is_row_valid e ≡ true) r l.executions valid s.valid;
}

-- What holds of a reservation table that replaces another, but for the items of one execution.
abbrev pub Keeps : List Reservation → List Reservation → Ref → Type 0
Keeps rs rs' ref = (o item x : Ref) → x ≢ ref → owner o item rs ≡ some x → owner o item rs' ≡ some x

pub Holds-kept :
    (rs rs' : List Reservation) (ref x : Ref) (o : Option Ref) (items : List Ref)
    → Keeps rs rs' ref
    → x ≢ ref
    → Holds rs x o items
    → Holds rs' x o items
Holds-kept rs rs' ref x none items keep ne h = h
Holds-kept rs rs' ref x (some o) [] keep ne h = tt
Holds-kept rs rs' ref x (some o) (i ∷ items) keep ne h =
    (keep o i x ne h.0, Holds-kept rs rs' ref x (some o) items keep ne h.1)

IsBacked-kept :
    (rs rs' : List Reservation) (ref : Ref) (e : Execution)
    → Keeps rs rs' ref
    → e.execution_ref ≢ ref
    → IsBacked rs e
    → IsBacked rs' e
IsBacked-kept rs rs' ref e keep ne h =
    elim (Bool-cases (may_have_charged e.state e.application_started_at)) [
      | inl charged ↦ Holds-IsBacked rs' e (
          Holds-kept rs rs' ref e.execution_ref e.order_ref e.request.line_item_ids keep ne
            (charged-Holds rs e charged h))
      | inr idle ↦ idle-IsBacked rs' e idle
    ]

-- An update of one row, with the reservations of the others kept, keeps the invariant.
pub update-IsSound :
    (l : Ledger) (r old : Execution) (rs : List Reservation)
    → IsSound l
    → execution_by r.execution_ref l.executions ≡ some old
    → old.handoff_id ≡ r.handoff_id
    → Keeps l.reservations rs r.execution_ref
    → IsBacked rs r
    → is_row_valid r ≡ true
    → IsSound (record l { executions = save_execution r l.executions; reservations = rs })
update-IsSound l r old rs s found same keep backed valid = record {
  keyed = save-IsKeyed r l.executions old found same s.keyed;
  backed =
      All-save (IsBacked l.reservations) (IsBacked rs) r l.executions old found s.keyed
        (λ e ne. IsBacked-kept l.reservations rs r.execution_ref e keep ne) backed s.backed;
  valid =
      All-save (λ e. is_row_valid e ≡ true) (λ e. is_row_valid e ≡ true) r l.executions old found
        s.keyed (λ e ne v. v) valid s.valid;
}

-- More reservations, with those that are held kept, keep the invariant.
pub extend-IsSound :
    (l : Ledger) (rs : List Reservation)
    → IsSound l
    → ((o item x : Ref) → owner o item l.reservations ≡ some x → owner o item rs ≡ some x)
    → IsSound (record l { reservations = rs })
extend-IsSound l rs s keep = record {
  keyed = s.keyed;
  backed = All-map (IsBacked l.reservations) (IsBacked rs) backed l.executions s.backed;
  valid = s.valid;
}
  where
    held :
        (x : Ref) (o : Option Ref) (items : List Ref)
        → Holds l.reservations x o items
        → Holds rs x o items
    held x none items h = h
    held x (some o) [] h = tt
    held x (some o) (i ∷ items) h = (keep o i x h.0, held x (some o) items h.1)

    backed : (e : Execution) → IsBacked l.reservations e → IsBacked rs e
    backed e h = elim (Bool-cases (may_have_charged e.state e.application_started_at)) [
      | inl charged ↦ Holds-IsBacked rs e (
          held e.execution_ref e.order_ref e.request.line_item_ids
            (charged-Holds l.reservations e charged h))
      | inr idle ↦ idle-IsBacked rs e idle
    ]
