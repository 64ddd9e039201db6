-- ===== src/Bridge/Outbox.antt =====
-- The outbox of Agent commands, and the one of refund completions (apps/api/src/return_agent/
-- agent_bridge.py over `agent_command_outbox` of db/agent_bridge.py).
pub mod Claims
pub mod Sent
pub mod Completions
pub mod Tests
use shopee_hachathonteam.Prelude.{
  ℕ, ◌+◌, Bool, true, false, ◌&&◌, ◌||◌, not, Option, none, some, List, [], ◌∷◌, Ref, Instant, ◌==◌,
  leb, ltb, is_none, if◌then◌else◌, same_option,
}
use shopee_hachathonteam.Refund.{Outbox}

-- A row of `agent_command_outbox`.
pub record Command : Type 0 where
  pub command_id : Ref
  pub payload : Ref
  pub created_at : Instant
  pub published_at : Option Instant
  pub claimed_by : Option Ref
  pub claimed_until : Option Instant
  pub lease_token : Option Ref
  pub attempt_count : ℕ
  pub last_error : Option Ref

unfoldable pub command_by : Ref → List Command → Option Command
command_by id [] = none
command_by id (c ∷ cs) = if c.command_id == id then some c else command_by id cs

-- An UPDATE of the row that has the record's key.
unfoldable pub save_command : Command → List Command → List Command
save_command r [] = []
save_command r (c ∷ cs) = if c.command_id == r.command_id then r ∷ cs else c ∷ save_command r cs

-- The condition of the SELECT: not published, and not claimed beyond this instant.
unfoldable pub is_claimable : (now : Instant) → Command → Bool
is_claimable now c =
    is_none c.published_at && elim c.claimed_until [ none ↦ true | some until ↦ leb until now ]

-- The oldest claimable row that no other transaction has locked; of rows of one instant, the first.
unfoldable pub next_claimable :
    (is_locked : Ref → Bool) → (now : Instant) → List Command → Option Command
unfolding is_claimable
next_claimable is_locked now [] = none
next_claimable is_locked now (c ∷ cs) =
    let rest = next_claimable is_locked now cs in
    if is_claimable now c && not (is_locked c.command_id)
    then elim rest [
      | none ↦ some c
      | some d ↦ some (if leb c.created_at d.created_at then c else d)
    ]
    else rest

abbrev pub claimed : Command → (owner token : Ref) → (until : Instant) → Command
claimed c owner token until = record c {
  claimed_by = some owner;
  claimed_until = some until;
  lease_token = some token;
}

-- `_claim_next_outbox_command`, with the token that it draws and the seconds of a claim.
unfoldable pub claim_next :
    (is_locked : Ref → Bool)
    → (owner token : Ref) → (seconds : ℕ) → (now : Instant) → List Command
    → Option Command × List Command
unfolding next_claimable save_command
claim_next is_locked owner token seconds now cs = elim (next_claimable is_locked now cs) [
  | none ↦ (none, cs)
  | some c ↦ let c' = claimed c owner token (now + seconds) in (some c', save_command c' cs)
]

-- The claim is still this worker's, and its command is not published.
abbrev pub is_owned : (owner token : Ref) → Command → Bool
is_owned owner token c =
    is_none c.published_at
    && same_option c.claimed_by (some owner)
    && same_option c.lease_token (some token)

-- The row after an attempt, without its claim.
abbrev pub attempted :
    Command → (published_at : Option Instant) → (last_error : Option Ref) → Command
attempted c published_at last_error = record c {
  published_at = published_at;
  claimed_by = none;
  claimed_until = none;
  lease_token = none;
  attempt_count = c.attempt_count + 1;
  last_error = last_error;
}

-- `_record_publish_success`
unfoldable pub record_publish_success :
    (owner command_id token : Ref) → (now : Instant) → List Command → List Command
unfolding command_by save_command
record_publish_success owner id token now cs = elim (command_by id cs) [
  | none ↦ cs
  | some c ↦ if is_owned owner token c then save_command (attempted c (some now) none) cs else cs
]

-- `_record_publish_failure`
unfoldable pub record_publish_failure :
    (owner command_id token error : Ref) → List Command → List Command
unfolding command_by save_command
record_publish_failure owner id token error cs = elim (command_by id cs) [
  | none ↦ cs
  | some c ↦
      if is_owned owner token c
      then save_command (attempted c c.published_at (some error)) cs
      else cs
]

-- `pending` of `dispatch_completion_once`: the unpublished row with the least reference.
unfoldable pub pending_completion : List Outbox → Option Outbox
pending_completion [] = none
pending_completion (o ∷ os) =
    let rest = pending_completion os in
    if not o.published
    then elim rest [
      | none ↦ some o
      | some p ↦ some (if leb o.resolution_ref p.resolution_ref then o else p)
    ]
    else rest

-- `mark` of `dispatch_completion_once`.
unfoldable pub mark_completion : Ref → List Outbox → List Outbox
mark_completion ref [] = []
mark_completion ref (o ∷ os) =
    if o.resolution_ref == ref
    then record o { published = true } ∷ os
    else o ∷ mark_completion ref os
