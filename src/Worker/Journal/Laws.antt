-- ===== src/Worker/Journal/Laws.antt =====
-- Leases are exclusive, and a terminal command stays terminal.
use shopee_hachathonteam.Prelude.{
  ℕ, ◌+◌, ◌≡◌, ◌≢◌, ◌<◌, refl, inl, inr, Bool, true, ◌&&◌, ◌||◌, not, none, some, List, [], ◌∷◌,
  Ref, Instant, ok, ◌==◌, same_option, if◌then◌else◌, arith, Option-cases, Bool-cases,
}
use shopee_hachathonteam.Worker.Journal.{
  CommandClaim, claimed, busy, CommandState, JournalRow, is_running, row_by, save_row, delete_row,
  leased, is_leased, claim_existing, claim, abandon, finish,
}

pub row_by_key :
    (id : Ref) (rows : List JournalRow) (r : JournalRow)
    → row_by id rows ≡ some r
    → r.command_id ≡ id
unfolding row_by
row_by_key id [] r h = absurd (ground arith)
row_by_key id (x ∷ rows) r h = ground (arith, row_by_key id rows r)

-- A look-up sees an update of its own row, and no other update.
pub row_by-save :
    (id : Ref) (new : JournalRow) (rows : List JournalRow) (old : JournalRow)
    → row_by new.command_id rows ≡ some old
    → row_by id (save_row new rows) ≡ (if new.command_id == id then some new else row_by id rows)
unfolding row_by save_row
row_by-save id new [] old h = absurd (ground arith)
row_by-save id new (x ∷ rows) old h = ground (arith, row_by-save id new rows old)

pub row_by-delete :
    (id other : Ref) (rows : List JournalRow)
    → id ≢ other
    → row_by id (delete_row other rows) ≡ row_by id rows
unfolding row_by delete_row
row_by-delete id other [] ne = refl
row_by-delete id other (x ∷ rows) ne = ground (arith, row_by-delete id other rows ne)

-- A transaction that a worker makes on the journal at a time.
pub data Step (owner : Ref) (now : Instant) (rows : List JournalRow)
    : List JournalRow → Type 0 where
  claims :
      (lease : ℕ) (id : Ref) {c : CommandClaim} {rows' : List JournalRow}
      → claim owner lease now id rows ≡ (c, rows')
      → Step owner now rows rows'
  abandons : (id : Ref) → Step owner now rows (abandon owner id rows)
  finishes :
      (state : CommandState) (id : Ref) {rows' : List JournalRow}
      → finish owner state now id rows ≡ ok rows'
      → Step owner now rows rows'

-- A row that a worker may not touch at a time: it is terminal, or another worker's lease runs.
abbrev pub is_protected : (owner : Ref) → Instant → JournalRow → Bool
is_protected owner now r =
    not (is_running r.state) || (not (same_option r.claimed_by (some owner)) && is_leased r now)

-- While a lease runs, no transaction of another worker changes the command's row, and no transaction
-- of any worker changes the row of a command that is completed or failed.
pub protected_row_kept :
    (owner : Ref) (now : Instant) (rows rows' : List JournalRow) (id : Ref) (r : JournalRow)
    → Step owner now rows rows'
    → row_by id rows ≡ some r
    → is_protected owner now r ≡ true
    → row_by id rows' ≡ some r
unfolding claim claim_existing abandon finish
protected_row_kept owner now rows rows' id r (claims lease i h) found kept =
    elim (Option-cases (row_by i rows)) [
      | inl absent ↦ unfold row_by in ground arith
      | inr (x, there) ↦
          let new : JournalRow = record x {
            claimed_by = some owner;
            claimed_until = some (now + lease);
            updated_at = now;
          } in
          let key = row_by_key i rows x there in
          let saved = row_by-save id new rows x (ground arith) in ground arith
    ]
protected_row_kept owner now rows rows' id r (abandons i) found kept =
    elim (Option-cases (row_by i rows)) [
      | inl absent ↦ ground arith
      | inr (x, there) ↦ elim (Bool-cases (i == id)) [
        | inl same ↦ ground arith
        | inr other ↦
            let apart : id ≢ i = λ e. ground arith in
            let left = row_by-delete id i rows apart in ground arith
      ]
    ]
protected_row_kept owner now rows rows' id r (finishes state i h) found kept =
    elim (Option-cases (row_by i rows)) [
      | inl absent ↦ absurd (ground arith)
      | inr (x, there) ↦
          let new : JournalRow = record x {
            state = state;
            claimed_by = none;
            claimed_until = none;
            updated_at = now;
          } in
          let key = row_by_key i rows x there in
          let saved = row_by-save id new rows x (ground arith) in ground arith
    ]

-- Any transactions of workers other than one, each before a time.
pub data Others (owner : Ref) (until : Instant) (rows : List JournalRow)
    : List JournalRow → Type 0 where
  none_yet : Others owner until rows rows
  then_one :
      {rows' rows'' : List JournalRow} (other : Ref) (now : Instant)
      → Others owner until rows rows'
      → other ≢ owner
      → now < until
      → Step other now rows' rows''
      → Others owner until rows rows''

held_through :
    (owner : Ref) (until : Instant) {rows rows' : List JournalRow} (id : Ref) (r : JournalRow)
    → Others owner until rows rows'
    → row_by id rows ≡ some r
    → is_running r.state ≡ true
    → r.claimed_by ≡ some owner
    → r.claimed_until ≡ some until
    → row_by id rows' ≡ some r
held_through owner until id r none_yet found run by lasts = found
held_through owner until {rows} id r (then_one {rows'} {rows''} other now before apart early step)
      found run by lasts =
    protected_row_kept other now rows' rows'' id r step
      (held_through owner until id r before found run by lasts) (ground arith)

-- The row after a claim that is granted.
claimed_row :
    (owner : Ref) (lease : ℕ) (now : Instant) (id : Ref) (rows rows' : List JournalRow)
    → claim owner lease now id rows ≡ (claimed, rows')
    → row_by id rows' ≡ some (leased owner lease now id)
unfolding claim claim_existing
claimed_row owner lease now id rows rows' h = elim (Option-cases (row_by id rows)) [
  | inl absent ↦ unfold row_by in ground arith
  | inr (x, there) ↦
      let new : JournalRow = record x {
        claimed_by = some owner;
        claimed_until = some (now + lease);
        updated_at = now;
      } in
      let key = row_by_key id rows x there in
      let saved = row_by-save id new rows x (ground arith) in ground arith
]

-- A granted claim is exclusive for its lease: after it, whatever other workers do before the lease
-- ends, another worker's claim of the command is answered BUSY and writes nothing, and the owner can
-- still finish the command.
pub claim_exclusive :
    (owner other : Ref) (lease lease' : ℕ) (now t : Instant) (id : Ref)
    (rows rows1 rows2 : List JournalRow) (state : CommandState) (later : Instant)
    → claim owner lease now id rows ≡ (claimed, rows1)
    → Others owner (now + lease) rows1 rows2
    → t < now + lease
    → (claim other lease' t id rows2 ≡ (busy, rows2))
      × ((rows3 : List JournalRow) × (finish owner state later id rows2 ≡ ok rows3))
unfolding claim claim_existing finish
claim_exclusive owner other lease lease' now t id rows rows1 rows2 state later h steps early =
    let row = leased owner lease now id in
    let held =
      held_through owner (now + lease) id row steps (claimed_row owner lease now id rows rows1 h)
        refl refl refl in
    let done : JournalRow = record row {
      state = state;
      claimed_by = none;
      claimed_until = none;
      updated_at = later;
    } in
    (ground arith, (save_row done rows2, ground arith))
