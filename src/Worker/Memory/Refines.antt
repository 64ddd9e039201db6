-- ===== src/Worker/Memory/Refines.antt =====
-- The lease-based journal implements the in-memory one for a worker whose leases have not run out.
use shopee_hachathonteam.Prelude.{
  ℕ, ◌≡◌, ◌≢◌, refl, inl, inr, Bool, true, ◌&&◌, ◌||◌, not, none, some, List, [], ◌∷◌, Ref, Instant,
  Result, ok, err, ◌==◌, arith, Option-cases, Bool-cases, subst₂, sym,
}
use shopee_hachathonteam.Worker.Journal.{
  CommandState, JournalRow, JournalError, not_owned_and_running, is_running, row_by, save_row,
  delete_row, is_leased, claim_existing, claim, is_held, abandon, finish,
}
use shopee_hachathonteam.Worker.Journal.Laws.{row_by_key, row_by-save, row_by-delete}
use shopee_hachathonteam.Worker.Memory.{States, put, memory_claim, memory_abandon, memory_finish}

-- The dictionary that a table stands for.
abbrev pub states_of : List JournalRow → States
states_of rows = λ i. elim (row_by i rows) [ none ↦ none | some r ↦ some r.state ]

-- A row of the worker: if it runs, the worker holds it and the lease lasts.
abbrev pub is_live : (owner : Ref) → Instant → JournalRow → Bool
is_live owner now r = not (is_running r.state) || (is_held owner r && is_leased r now)

-- The table of a worker that is alone: every row is its own and live, and commands are unique.
abbrev pub IsOwn : (owner : Ref) → Instant → List JournalRow → Type 0
IsOwn owner now [] = Unit
IsOwn owner now (r ∷ rs) =
    (is_live owner now r ≡ true) × (row_by r.command_id rs ≡ none) × IsOwn owner now rs

own_row :
    (owner : Ref) (now : Instant) (id : Ref) (rows : List JournalRow) (r : JournalRow)
    → IsOwn owner now rows
    → row_by id rows ≡ some r
    → is_live owner now r ≡ true
unfolding row_by
own_row owner now id [] r own h = absurd (ground arith)
own_row owner now id (x ∷ rows) r own h = ground (arith, own_row owner now id rows r own.2)

deleted_row :
    (owner : Ref) (now : Instant) (id : Ref) (rows : List JournalRow)
    → IsOwn owner now rows
    → row_by id (delete_row id rows) ≡ none
unfolding row_by delete_row
deleted_row owner now id [] own = refl
deleted_row owner now id (x ∷ rows) own = ground (arith, deleted_row owner now id rows own.2)

-- When commands are unique in the table and every row that is running is held by this worker under a
-- lease that lasts, a claim is answered as the in-memory journal answers it, and both read the same
-- afterwards. (A running row of another owner, or with a lease that has run out, is outside of this: the
-- in-memory journal keeps neither owners nor leases.)
pub claim-refines :
    (owner : Ref) (lease : ℕ) (now : Instant) (id : Ref) (rows : List JournalRow)
    → IsOwn owner now rows
    → ((claim owner lease now id rows).0 ≡ (memory_claim id (states_of rows)).0)
      × ((i : Ref)
          → states_of (claim owner lease now id rows).1 i ≡ (memory_claim id (states_of rows)).1 i)
unfolding claim claim_existing memory_claim
claim-refines owner lease now id rows own = elim (Option-cases (row_by id rows)) [
  | inl absent ↦ (ground arith, λ i. unfold row_by in ground arith)
  | inr (r, there) ↦
      let live = own_row owner now id rows r own there in (ground arith, λ i. ground arith)
]

-- Under the same condition on the table, giving a command up leaves what the in-memory journal leaves.
pub abandon-refines :
    (owner : Ref) (now : Instant) (id : Ref) (rows : List JournalRow)
    → IsOwn owner now rows
    → (i : Ref) → states_of (abandon owner id rows) i ≡ memory_abandon id (states_of rows) i
unfolding abandon memory_abandon
abandon-refines owner now id rows own i = elim (Option-cases (row_by id rows)) [
  | inl absent ↦ ground arith
  | inr (r, there) ↦
      let live = own_row owner now id rows r own there in
      elim (Bool-cases (i == id)) [
        | inl same ↦ ground (arith, deleted_row owner now id rows own)
        | inr other ↦
            let apart : i ≢ id = λ e. ground arith in
            let left = row_by-delete i id rows apart in ground arith
      ]
]

-- The same error, or tables that read the same.
abbrev pub Agree : Result JournalError (List JournalRow) → Result JournalError States → Type 0
Agree (ok rows) (ok states) = (i : Ref) → states_of rows i ≡ states i
Agree (err e) (err e') = e ≡ e'
Agree _ _ = ⊥

Agree-err :
    (a : Result JournalError (List JournalRow)) (b : Result JournalError States) (e : JournalError)
    → a ≡ err e
    → b ≡ err e
    → Agree a b
Agree-err a b e p q = subst₂ Agree (sym p) (sym q) refl

Agree-ok :
    (a : Result JournalError (List JournalRow)) (b : Result JournalError States)
    (rows : List JournalRow) (states : States)
    → a ≡ ok rows
    → b ≡ ok states
    → ((i : Ref) → states_of rows i ≡ states i)
    → Agree a b
Agree-ok a b rows states p q same = subst₂ Agree (sym p) (sym q) same

-- When commands are unique in the table and every row that is running is held by this worker under a
-- lease that lasts, recording an outcome raises exactly when the in-memory journal raises, and otherwise
-- leaves a table that reads as what the in-memory journal leaves.
pub finish-refines :
    (owner : Ref) (state : CommandState) (now : Instant) (id : Ref) (rows : List JournalRow)
    → IsOwn owner now rows
    → Agree (finish owner state now id rows) (memory_finish state id (states_of rows))
unfolding finish memory_finish
finish-refines owner state now id rows own = elim (Option-cases (row_by id rows)) [
  | inl absent ↦
      Agree-err (finish owner state now id rows) (memory_finish state id (states_of rows))
        not_owned_and_running (ground arith) (ground arith)
  | inr (r, there) ↦
      let live = own_row owner now id rows r own there in
      elim (Bool-cases (is_running r.state)) [
        | inr over ↦
            Agree-err (finish owner state now id rows) (memory_finish state id (states_of rows))
              not_owned_and_running (ground arith) (ground arith)
        | inl runs ↦
            let done : JournalRow = record r {
              state = state;
              claimed_by = none;
              claimed_until = none;
              updated_at = now;
            } in
            let key = row_by_key id rows r there in
            Agree-ok (finish owner state now id rows) (memory_finish state id (states_of rows))
              (save_row done rows) (put id (some state) (states_of rows)) (ground arith)
              (ground arith) (λ i. ground (arith, row_by-save i done rows r (ground arith)))
      ]
]
