-- ===== src/Bridge/Outbox/Tests.antt =====
-- A command that worker 2 claims and sends.
use shopee_hachathonteam.Prelude.{
  ◌≡◌, refl, arith, true, false, none, some, [], ◌∷◌, inl, ◌⊎◌, is_none, mem, All,
}
use shopee_hachathonteam.Bridge.Outbox.{
  Command, command_by, is_claimable, claimed, claim_next, attempted, record_publish_success,
}
use shopee_hachathonteam.Bridge.Outbox.Claims.Held
use shopee_hachathonteam.Bridge.Outbox.Claims.Held.{Others, Other, command_claim_exclusive}
use shopee_hachathonteam.Bridge.Outbox.Sent.{
  World, attempt_of, claims, writes, succeeds, adds, Reach, here, next,
}
use shopee_hachathonteam.Bridge.Outbox.Sent.Sound.{published_is_sent}

abbrev command_7 : Command
command_7 = record {
  command_id = 7;
  payload = 70;
  created_at = 1;
  published_at = none;
  claimed_by = none;
  claimed_until = none;
  lease_token = none;
  attempt_count = 0;
  last_error = none;
}

abbrev claimed_7 : Command
claimed_7 = claimed command_7 2 22 40

-- Worker 2 claims the command; until instant 40 worker 3 gets none, and afterwards the command is sent.
command_runs :
    (claim_next (λ id. false) 2 22 30 10 (command_7 ∷ []) ≡ (some claimed_7, claimed_7 ∷ []))
    × (claim_next (λ id. false) 3 33 30 15 (claimed_7 ∷ []) ≡ (none, claimed_7 ∷ []))
    × (record_publish_success 2 7 22 12 (claimed_7 ∷ []) ≡ attempted claimed_7 (some 12) none ∷ [])
    × (claim_next (λ id. false) 3 33 30 40 (claimed_7 ∷ [])
        ≡ (some (claimed command_7 3 33 70), claimed command_7 3 33 70 ∷ []))
unfolding claim_next record_publish_success
command_runs = (refl, refl, refl, refl)

other_tries : Others 2 22 40 (claimed_7 ∷ []) (claimed_7 ∷ [])
unfolding claim_next
other_tries = Held.next Held.here (Held.claims (λ id. false) 3 33 30 15 (omega arith))

command_claim_exclusive_example :
    (command_by 7 (claimed_7 ∷ []) ≡ some claimed_7)
    × (command_7.published_at ≡ none)
    × (d : Command) × (command_by 7 (record_publish_success 2 7 22 12 (claimed_7 ∷ [])) ≡ some d)
    × (d.payload ≡ 70)
    × (d.published_at ≡ some 12)
    × (is_claimable 99 d ≡ false)
command_claim_exclusive_example =
    command_claim_exclusive (λ id. false) 2 22 30 10 12 99 (command_7 ∷ []) (claimed_7 ∷ [])
      (claimed_7 ∷ []) claimed_7 refl command_runs.0 other_tries

abbrev sent : World
sent = record {
  rows = attempted claimed_7 (some 12) none ∷ [];
  stream = 70 ∷ [];
  claims = attempt_of claimed_7 22 ∷ [];
  written = attempt_of claimed_7 22 ∷ [];
}

sent_path : Reach (record { rows = []; stream = []; claims = []; written = [] }) sent
unfolding record_publish_success
sent_path =
    next
      (next
        (next (next here (adds command_7 refl refl))
          (claims (λ id. false) 2 22 30 10 claimed_7 (claimed_7 ∷ []) command_runs.0))
        (writes (attempt_of claimed_7 22) (inl refl)))
      (succeeds 2 (attempt_of claimed_7 22) 12 (inl refl))

published_is_sent_example :
    All (λ c. (is_none c.published_at ≡ true) ⊎ (mem c.payload sent.stream ≡ true)) sent.rows
published_is_sent_example = published_is_sent {v = sent} refl sent_path
