-- ===== src/Bridge/Outbox/Sent.antt =====
-- The steps of the workers that publish commands (`dispatch_outbox_once` of agent_bridge.py).
pub mod Sound
use shopee_hachathonteam.Prelude.{
  ℕ, ◌+◌, ◌≡◌, refl, sym, subst, ◌∙◌, ap, Bool, true, false, Option, none, some, List, [], ◌∷◌, Ref,
  Instant, inl, inr, ◌⊎◌, arith, ◌==◌, is_none, Bool-cases, Option-cases, if◌then◌else◌, mem,
  distinct, All, All-map, All-Any, Any,
}
use shopee_hachathonteam.Bridge.Outbox.{
  Command, command_by, save_command, next_claimable, claimed, claim_next, is_owned, attempted,
  record_publish_success, record_publish_failure,
}
use shopee_hachathonteam.Bridge.Outbox.Claims.{
  command_by-save_command, command_by_key, next_claimable-claimable, ids, ids-save_command,
}
use shopee_hachathonteam.Bridge.Outbox.Claims.Held.{other_key}

-- What a worker carries from its claim to the record of its attempt.
pub record Attempt : Type 0 where
  pub command_id : Ref
  pub payload : Ref
  pub token : Ref

-- The rows, the stream, and the attempts of the workers before and after their write to the stream.
pub record World : Type 0 where
  pub rows : List Command
  pub stream : List Ref
  pub claims : List Attempt
  pub written : List Attempt

abbrev pub attempt_of : Command → (token : Ref) → Attempt
attempt_of c token = record { command_id = c.command_id; payload = c.payload; token = token }

-- The parts of `dispatch_outbox_once` by any workers in any order, and a command that is added.
pub data Step (w : World) : World → Type 0 where
  claims :
      (is_locked : Ref → Bool) (owner token : Ref) (seconds : ℕ) (now : Instant) (c : Command)
      (rows : List Command)
      → claim_next is_locked owner token seconds now w.rows ≡ (some c, rows)
      → Step w (record w { rows = rows; claims = attempt_of c token ∷ w.claims })
  writes :
      (a : Attempt)
      → Any (λ x. x ≡ a) w.claims
      → Step w (record w { stream = a.payload ∷ w.stream; written = a ∷ w.written })
  succeeds :
      (owner : Ref) (a : Attempt) (now : Instant)
      → Any (λ x. x ≡ a) w.written
      → Step w (record w { rows = record_publish_success owner a.command_id a.token now w.rows })
  fails :
      (owner error : Ref) (a : Attempt)
      → Any (λ x. x ≡ a) w.claims
      → Step w (record w { rows = record_publish_failure owner a.command_id a.token error w.rows })
  adds :
      (c : Command)
      → mem c.command_id (ids w.rows) ≡ false
      → c.published_at ≡ none
      → Step w (record w { rows = c ∷ w.rows })

pub data Reach (w : World) : World → Type 0 where
  here : Reach w w
  next : {v u : World} → Reach w v → Step v u → Reach w u
