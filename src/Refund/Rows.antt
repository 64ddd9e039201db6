-- ===== src/Refund/Rows.antt =====
-- Laws of the ledger's rows: keys, updates, and who holds an item.
use shopee_hachathonteam.Prelude.{
  ◌≡◌, ◌≢◌, inl, inr, ◌&&◌, not, none, some, List, [], ◌∷◌, Ref, arith, ◌==◌, if◌then◌else◌,
  is_none, keep_if, All, Bool-cases, subst,
}
use shopee_hachathonteam.Refund.{
  Execution, Reservation, execution_by, by_handoff, save_execution, insert_execution, owner,
  insert_reservation,
}
use shopee_hachathonteam.Refund.Reserve.{reserve_all}

-- No two rows share an execution reference or a handoff.
abbrev pub IsKeyed : List Execution → Type 0
IsKeyed [] = Unit
IsKeyed (e ∷ es) =
    (execution_by e.execution_ref es ≡ none) × (by_handoff e.handoff_id es ≡ none) × IsKeyed es

pub insert_execution-IsKeyed :
    (r : Execution) (es : List Execution) → IsKeyed es → IsKeyed (insert_execution r es)
unfolding insert_execution
insert_execution-IsKeyed r es k = ground arith

by_handoff-save_none :
    (id : Ref) (r : Execution) (es : List Execution) (old : Execution)
    → execution_by r.execution_ref es ≡ some old
    → old.handoff_id ≡ r.handoff_id
    → by_handoff id es ≡ none
    → by_handoff id (save_execution r es) ≡ none
unfolding execution_by by_handoff save_execution
by_handoff-save_none id r [] old e same h = cc
by_handoff-save_none id r (x ∷ es) old e same h = ground (arith, by_handoff-save_none id r es old)

-- A look-up sees an update of its own row, and no other update.
pub execution_by-save :
    (ref : Ref) (r : Execution) (es : List Execution) (old : Execution)
    → execution_by r.execution_ref es ≡ some old
    → execution_by ref (save_execution r es)
      ≡ (if r.execution_ref == ref then some r else execution_by ref es)
unfolding execution_by save_execution
execution_by-save ref r [] old e = cc
execution_by-save ref r (x ∷ es) old e = ground (arith, execution_by-save ref r es old)

pub execution_by_key :
    (ref : Ref) (es : List Execution) (e : Execution)
    → execution_by ref es ≡ some e
    → e.execution_ref ≡ ref
unfolding execution_by
execution_by_key ref [] e h = cc
execution_by_key ref (x ∷ es) e h = ground (arith, execution_by_key ref es e)

pub save-IsKeyed :
    (r : Execution) (es : List Execution) (old : Execution)
    → execution_by r.execution_ref es ≡ some old
    → old.handoff_id ≡ r.handoff_id
    → IsKeyed es
    → IsKeyed (save_execution r es)
unfolding execution_by save_execution
save-IsKeyed r [] old e same k = tt
save-IsKeyed r (x ∷ es) old e same k = elim (Bool-cases (x.execution_ref == r.execution_ref)) [
  | inl hit ↦ ground arith
  | inr miss ↦ ground (
    arith,
    save-IsKeyed r es old,
    execution_by-save x.execution_ref r es old,
    by_handoff-save_none x.handoff_id r es old,
  )
]

-- The row that a handoff finds is the row of its own key.
pub execution_by-by_handoff :
    (id : Ref) (es : List Execution) (e : Execution)
    → IsKeyed es
    → by_handoff id es ≡ some e
    → execution_by e.execution_ref es ≡ some e
unfolding execution_by by_handoff
execution_by-by_handoff id [] e k h = cc
execution_by-by_handoff id (x ∷ es) e k h =
    ground (arith, execution_by-by_handoff id es e k.2, execution_by_key x.execution_ref es e)

pub All-insert_execution {ℓ} :
    (P : Execution → Type ℓ) (r : Execution) (es : List Execution)
    → P r
    → All P es
    → All P (insert_execution r es)
unfolding insert_execution
All-insert_execution P r es p h =
    elim (Bool-cases
      (is_none (execution_by r.execution_ref es) && is_none (by_handoff r.handoff_id es))) [
        | inl free ↦ rw free (p, h)
        | inr taken ↦ rw taken h
      ]

All-others {ℓ κ} :
    (P : Execution → Type ℓ) (Q : Execution → Type κ) (ref : Ref) (es : List Execution)
    → execution_by ref es ≡ none
    → ((e : Execution) → e.execution_ref ≢ ref → P e → Q e)
    → All P es
    → All Q es
unfolding execution_by
All-others P Q ref [] e weaken h = tt
All-others P Q ref (x ∷ es) e weaken h =
    (weaken x (λ same. ground arith) h.0, All-others P Q ref es (ground arith) weaken h.1)

-- An update keeps a property of all rows, where the other rows may weaken what they had.
pub All-save {ℓ κ} :
    (P : Execution → Type ℓ) (Q : Execution → Type κ) (r : Execution) (es : List Execution)
    (old : Execution)
    → execution_by r.execution_ref es ≡ some old
    → IsKeyed es
    → ((e : Execution) → e.execution_ref ≢ r.execution_ref → P e → Q e)
    → Q r
    → All P es
    → All Q (save_execution r es)
unfolding execution_by save_execution
All-save P Q r [] old e k weaken q h = tt
All-save P Q r (x ∷ es) old e k weaken q h =
    elim (Bool-cases (x.execution_ref == r.execution_ref)) [
      | inl hit ↦ rw hit (q, All-others P Q r.execution_ref es (ground arith) weaken h.1)
      | inr miss ↦ rw miss (
        weaken x (λ same. ground arith) h.0,
        All-save P Q r es old (ground arith) k.2 weaken q h.1,
      )
    ]

-- A property of all rows holds of the row that a key finds.
pub All-execution_by {ℓ} :
    (P : Execution → Type ℓ) (ref : Ref) (es : List Execution) (e : Execution)
    → execution_by ref es ≡ some e
    → All P es
    → P e
unfolding execution_by
All-execution_by P ref [] e h a = absurd (ground arith)
All-execution_by P ref (x ∷ es) e h a = elim (Bool-cases (x.execution_ref == ref)) [
  | inl hit ↦ let same : x ≡ e = ground arith in subst P same a.0
  | inr miss ↦ All-execution_by P ref es e (ground arith) a.1
]

-- An item that is held stays held by the same execution, whatever is reserved.
owner-insert :
    (order item : Ref) (r : Reservation) (rs : List Reservation) (x : Ref)
    → owner order item rs ≡ some x
    → owner order item (insert_reservation r rs) ≡ some x
unfolding owner insert_reservation
owner-insert order item r rs x h = ground arith

pub owner-reserve_all :
    (o order item ref : Ref) (items : List Ref) (rs : List Reservation) {rs' : List Reservation}
    (x : Ref)
    → reserve_all order ref items rs ≡ some rs'
    → owner o item rs ≡ some x
    → owner o item rs' ≡ some x
unfolding reserve_all
owner-reserve_all o order item ref [] rs x e h = ground arith
owner-reserve_all o order item ref (i ∷ items) rs {rs'} x e h =
    let r : Reservation = record { order_ref = order; line_item_ref = i; execution_ref = ref } in
    ground (
      arith,
      owner-reserve_all o order item ref items (insert_reservation r rs) {rs' = rs'} x,
      owner-insert o item r rs x,
    )

-- After the loop every item of the scope is held by the execution.
pub reserve_all-owner :
    (order ref : Ref) (items : List Ref) (rs : List Reservation) {rs' : List Reservation}
    → reserve_all order ref items rs ≡ some rs'
    → All (λ i. owner order i rs' ≡ some ref) items
unfolding reserve_all
reserve_all-owner order ref [] rs e = tt
reserve_all-owner order ref (i ∷ items) rs {rs'} e =
    let r : Reservation = record { order_ref = order; line_item_ref = i; execution_ref = ref } in
    ground (
      arith,
      reserve_all-owner order ref items (insert_reservation r rs) {rs' = rs'},
      owner-reserve_all order order i ref items (insert_reservation r rs) {rs' = rs'} ref,
    )

-- Releasing the items of one execution leaves those of another.
pub owner-release :
    (order item ref x : Ref) (rs : List Reservation)
    → x ≢ ref
    → owner order item rs ≡ some x
    → owner order item (keep_if (λ r. not (r.execution_ref == ref)) rs) ≡ some x
unfolding owner
owner-release order item ref x [] ne h = h
owner-release order item ref x (r ∷ rs) ne h = ground (arith, owner-release order item ref x rs ne)
