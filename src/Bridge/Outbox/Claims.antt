-- ===== src/Bridge/Outbox/Claims.antt =====
-- The claim of a command in the outbox (`_claim_next_outbox_command` of agent_bridge.py).
pub mod Held
use shopee_hachathonteam.Prelude.{
  ℕ, ◌+◌, ◌<◌, ◌≡◌, refl, sym, subst, ◌∙◌, ap, Bool, true, false, ◌&&◌, Option, none, some, List,
  [], ◌∷◌, Ref, Instant, inl, inr, arith, ◌==◌, is_none, Bool-cases, Option-cases, if◌then◌else◌,
  mem, distinct, map,
}
use shopee_hachathonteam.Bridge.Outbox.{
  Command, command_by, save_command, is_claimable, next_claimable, claimed, claim_next, is_owned,
  attempted, record_publish_success, record_publish_failure,
}

pub command_by-save_command :
    (id : Ref) (r old : Command) (cs : List Command)
    → command_by r.command_id cs ≡ some old
    → command_by id (save_command r cs) ≡ (if r.command_id == id then some r else command_by id cs)
unfolding command_by save_command
command_by-save_command id r old [] h = absurd (ground arith)
command_by-save_command id r old (c ∷ cs) h = ground (arith, command_by-save_command id r old cs)

pub command_by_key :
    (id : Ref) (cs : List Command) (c : Command) → command_by id cs ≡ some c → c.command_id ≡ id
unfolding command_by
command_by_key id [] c h = absurd (ground arith)
command_by_key id (x ∷ cs) c h = ground (arith, command_by_key id cs c)

-- The primary key.
abbrev pub ids : List Command → List Ref
ids cs = map (λ c. c.command_id) cs

pub ids-save_command : (r : Command) (cs : List Command) → ids (save_command r cs) ≡ ids cs
unfolding save_command
ids-save_command r [] = refl
ids-save_command r (c ∷ cs) = ground (arith, ids-save_command r cs)

next_claimable-mem :
    (is_locked : Ref → Bool) (now : Instant) (cs : List Command) (c : Command)
    → next_claimable is_locked now cs ≡ some c
    → mem c.command_id (ids cs) ≡ true
unfolding next_claimable
next_claimable-mem is_locked now [] c h = absurd (ground arith)
next_claimable-mem is_locked now (x ∷ cs) c h =
    elim (Option-cases (next_claimable is_locked now cs)) [
      | inl last ↦ ground arith
      | inr (d, later) ↦ ground (arith, next_claimable-mem is_locked now cs d later)
    ]

-- What is picked is claimable, and it is the row of its key.
pub next_claimable-claimable :
    (is_locked : Ref → Bool) (now : Instant) (cs : List Command) (c : Command)
    → next_claimable is_locked now cs ≡ some c
    → distinct (ids cs) ≡ true
    → (is_claimable now c ≡ true) × (command_by c.command_id cs ≡ some c)
unfolding next_claimable command_by
next_claimable-claimable is_locked now [] c h keys = absurd (ground arith)
next_claimable-claimable is_locked now (x ∷ cs) c h keys =
    elim (Option-cases (next_claimable is_locked now cs)) [
      | inl last ↦ (ground arith, ground arith)
      | inr (d, later) ↦
          let listed = next_claimable-mem is_locked now cs d later in
          let (free, row) = next_claimable-claimable is_locked now cs d later (ground arith) in
          elim (Bool-cases (x.command_id == d.command_id)) [
            | inl same ↦
                absurd (clash x.command_id d.command_id (ids cs) (ground arith) listed same)
            | inr other ↦ (ground arith, ground arith)
          ]
    ]
  where
    clash : (a b : Ref) (xs : List Ref) → mem a xs ≡ false → mem b xs ≡ true → (a == b) ≡ true → ⊥
    clash a b xs out within same =
        let is : a ≡ b = ground arith in
        let here : mem a xs ≡ true = subst (λ r. mem r xs ≡ true) (sym is) within in ground arith

pub next_claimable_total :
    (is_locked : Ref → Bool) (now : Instant) (cs : List Command) (id : Ref) (c : Command)
    → command_by id cs ≡ some c
    → is_claimable now c ≡ true
    → is_locked c.command_id ≡ false
    → is_none (next_claimable is_locked now cs) ≡ false
unfolding next_claimable command_by
next_claimable_total is_locked now [] id c there free unlocked = absurd (ground arith)
next_claimable_total is_locked now (x ∷ cs) id c there free unlocked =
    ground (arith, next_claimable_total is_locked now cs id c)
