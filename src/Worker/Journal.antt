-- ===== src/Worker/Journal.antt =====
-- `PostgresCommandJournal` of apps/agent_service/src/return_agent_service/journal.py: the table
-- `agent_command_journal`, with a lease for the owner of a running command. Each method is one
-- transaction; the clock is an argument.
pub mod Laws
use shopee_hachathonteam.Prelude.{
  ℕ, ◌+◌, Bool, true, false, ◌&&◌, ◌||◌, not, Option, none, some, List, [], ◌∷◌, Ref, Instant,
  Result, ok, err, ◌==◌, ltb, is_none, same_option, if◌then◌else◌,
}

pub data CommandClaim : Type 0 where
  claimed busy terminal : CommandClaim

pub data CommandState : Type 0 where
  running completed failed : CommandState

pub record JournalRow : Type 0 where
  pub command_id : Ref
  pub state : CommandState
  pub claimed_by : Option Ref
  pub claimed_until : Option Instant
  pub updated_at : Instant

-- `RuntimeError(f"command {command_id} is not owned and running")`
pub data JournalError : Type 0 where
  not_owned_and_running : JournalError

abbrev pub is_running : CommandState → Bool
is_running running = true
is_running _ = false

unfoldable pub row_by : Ref → List JournalRow → Option JournalRow
row_by id [] = none
row_by id (r ∷ rs) = if r.command_id == id then some r else row_by id rs

-- An UPDATE of the row that has the record's key.
unfoldable pub save_row : JournalRow → List JournalRow → List JournalRow
save_row new [] = []
save_row new (r ∷ rs) = if r.command_id == new.command_id then new ∷ rs else r ∷ save_row new rs

-- A DELETE by the primary key.
unfoldable pub delete_row : Ref → List JournalRow → List JournalRow
delete_row id [] = []
delete_row id (r ∷ rs) = if r.command_id == id then rs else r ∷ delete_row id rs

-- A row of `owner` whose lease starts now.
abbrev pub leased : (owner : Ref) → (lease_seconds : ℕ) → (now : Instant) → Ref → JournalRow
leased owner lease now id = record {
  command_id = id;
  state = running;
  claimed_by = some owner;
  claimed_until = some (now + lease);
  updated_at = now;
}

-- `existing_until is not None and existing_until > now`
abbrev pub is_leased : JournalRow → Instant → Bool
is_leased r now = elim r.claimed_until [ none ↦ false | some until ↦ ltb now until ]

-- The part of `claim` after an INSERT that met the row of an earlier claim.
unfoldable pub claim_existing :
    (owner : Ref)
    → (lease_seconds : ℕ) → (now : Instant) → Ref
    → List JournalRow
    → CommandClaim × List JournalRow
unfolding row_by save_row
claim_existing owner lease now id rows = found (row_by id rows)
  where
    found : Option JournalRow → CommandClaim × List JournalRow
    found none = (busy, rows)
    found (some r) =
        if not (is_running r.state)
        then (terminal, rows)
        else (if is_leased r now then (busy, rows) else (
          claimed,
          save_row
              (record r {
                claimed_by = some owner;
                claimed_until = some (now + lease);
                updated_at = now;
              })
              rows,
        ))

unfoldable pub claim :
    (owner : Ref)
    → (lease_seconds : ℕ) → (now : Instant) → Ref
    → List JournalRow
    → CommandClaim × List JournalRow
unfolding row_by claim_existing
claim owner lease now id rows =
    if is_none (row_by id rows)
    then (claimed, leased owner lease now id ∷ rows)
    else claim_existing owner lease now id rows

-- `state = 'RUNNING' AND claimed_by = owner`
abbrev pub is_held : (owner : Ref) → JournalRow → Bool
is_held owner r = is_running r.state && same_option r.claimed_by (some owner)

unfoldable pub abandon : (owner : Ref) → Ref → List JournalRow → List JournalRow
unfolding row_by delete_row
abandon owner id rows = elim (row_by id rows) [
  | none ↦ rows
  | some r ↦ if is_held owner r then delete_row id rows else rows
]

-- `_finish`, which `complete` and `fail` call with their state.
unfoldable pub finish :
    (owner : Ref)
    → CommandState
    → (now : Instant) → Ref
    → List JournalRow
    → Result JournalError (List JournalRow)
unfolding row_by save_row
finish owner state now id rows = elim (row_by id rows) [
  | none ↦ err not_owned_and_running
  | some r ↦
      if is_held owner r
      then ok (
          save_row
            (record r { state = state; claimed_by = none; claimed_until = none; updated_at = now })
            rows)
      else err not_owned_and_running
]
