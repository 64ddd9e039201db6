-- ===== src/Bridge/Outbox/Sent/Sound.antt =====
-- The rows and the stream under the steps of the workers.
use shopee_hachathonteam.Prelude.{
  ℕ, ◌+◌, ◌≡◌, refl, sym, subst, ◌∙◌, ap, Bool, true, false, Option, none, some, List, [], ◌∷◌, Ref,
  Instant, inl, inr, ◌⊎◌, arith, ◌==◌, is_none, Bool-cases, Option-cases, if◌then◌else◌, mem,
  distinct, All, All-map, All-Any,
}
use shopee_hachathonteam.Bridge.Outbox.{
  Command, command_by, save_command, next_claimable, claimed, claim_next, is_owned, attempted,
  record_publish_success, record_publish_failure,
}
use shopee_hachathonteam.Bridge.Outbox.Claims.{
  command_by-save_command, command_by_key, next_claimable-claimable, ids, ids-save_command,
}
use shopee_hachathonteam.Bridge.Outbox.Claims.Held.{other_key}
use shopee_hachathonteam.Bridge.Outbox.Sent.{
  Attempt, Reach, Step, World, adds, attempt_of, claims, fails, here, next, succeeds, writes,
}

-- A published row has its payload in the stream.
abbrev pub IsSent : List Ref → Command → Type 0
IsSent stream c = (is_none c.published_at ≡ true) ⊎ (mem c.payload stream ≡ true)

-- An attempt carries the payload of its row.
abbrev pub Carries : List Command → Attempt → Type 0
Carries rows a = (c : Command) × (command_by a.command_id rows ≡ some c) × (c.payload ≡ a.payload)

pub record IsSound (w : World) : Type 0 where
  pub keys : distinct (ids w.rows) ≡ true
  pub sent : All (IsSent w.stream) w.rows
  pub claimed_own : All (Carries w.rows) w.claims
  pub written_own : All (Carries w.rows) w.written
  pub written_sent : All (λ a. mem a.payload w.stream ≡ true) w.written

All-save_command :
    (P : Command → Type 0) (r : Command) (cs : List Command)
    → P r
    → All P cs
    → All P (save_command r cs)
unfolding save_command
All-save_command P r [] p h = tt
All-save_command P r (c ∷ cs) p h = elim (Bool-cases (c.command_id == r.command_id)) [
  | inl hit ↦ rw hit (p, h.1)
  | inr miss ↦ rw miss (h.0, All-save_command P r cs p h.1)
]

All-command_by :
    (P : Command → Type 0) (id : Ref) (cs : List Command) (c : Command)
    → command_by id cs ≡ some c
    → All P cs
    → P c
unfolding command_by
All-command_by P id [] c h all = absurd (ground arith)
All-command_by P id (x ∷ cs) c h all = elim (Bool-cases (x.command_id == id)) [
  | inl hit ↦ let same : x ≡ c = ground arith in subst P same all.0
  | inr miss ↦ All-command_by P id cs c (ground arith) all.1
]

-- A row is written that keeps its payload.
save-Carries :
    (r old : Command) (rows : List Command) (a : Attempt)
    → command_by r.command_id rows ≡ some old
    → r.payload ≡ old.payload
    → Carries rows a
    → Carries (save_command r rows) a
save-Carries r old rows a there same (c, row, own) =
    elim (Bool-cases (r.command_id == a.command_id)) [
      | inl hit ↦
          let is : r.command_id ≡ a.command_id = ground arith in
          let found : command_by a.command_id rows ≡ some old =
            subst (λ x. command_by x rows ≡ some old) is there in
          (r, ground (arith, command_by-save_command a.command_id r old rows), ground arith)
      | inr miss ↦ (c, ground (arith, command_by-save_command a.command_id r old rows), own)
    ]

save-IsSound :
    (w : World) (r old : Command)
    → command_by r.command_id w.rows ≡ some old
    → r.payload ≡ old.payload
    → IsSent w.stream r
    → IsSound w
    → IsSound (record w { rows = save_command r w.rows })
save-IsSound w r old there same sent s = record {
  keys = ap distinct (ids-save_command r w.rows) ∙ s.keys;
  sent = All-save_command (IsSent w.stream) r w.rows sent s.sent;
  claimed_own =
      All-map (Carries w.rows) (Carries (save_command r w.rows))
        (λ a c. save-Carries r old w.rows a there same c) w.claims s.claimed_own;
  written_own =
      All-map (Carries w.rows) (Carries (save_command r w.rows))
        (λ a c. save-Carries r old w.rows a there same c) w.written s.written_own;
  written_sent = s.written_sent;
}

attempt-IsSound :
    (w : World) (owner : Ref) (a : Attempt) (rows : List Command)
    (published : Command → Option Instant) (error : Option Ref)
    → ((c : Command)
        → command_by a.command_id w.rows ≡ some c
        → IsSent w.stream (attempted c (published c) error))
    → rows ≡ elim (command_by a.command_id w.rows) [
      | none ↦ w.rows
      | some c ↦
          if is_owned owner a.token c
          then save_command (attempted c (published c) error) w.rows
          else w.rows
    ]
    → IsSound w
    → IsSound (record w { rows = rows })
attempt-IsSound w owner a rows published error sent is s =
    elim (Option-cases (command_by a.command_id w.rows)) [
      | inl missing ↦ unchanged (ground arith)
      | inr (c, there) ↦ elim (Bool-cases (is_owned owner a.token c)) [
        | inr lost ↦ unchanged (ground arith)
        | inl owned ↦
            let key = command_by_key a.command_id w.rows c there in
            let after = attempted c (published c) error in
            let same : save_command after w.rows ≡ rows = ground arith in
            subst (λ rs. IsSound (record w { rows = rs })) same
              (save-IsSound w after c (ground arith) refl (sent c there) s)
      ]
    ]
  where
    unchanged : w.rows ≡ rows → IsSound (record w { rows = rows })
    unchanged same = subst (λ rs. IsSound (record w { rows = rs })) same s

claims-IsSound :
    (w : World) (is_locked : Ref → Bool) (owner token : Ref) (seconds : ℕ) (now : Instant)
    (c : Command) (rows : List Command)
    → claim_next is_locked owner token seconds now w.rows ≡ (some c, rows)
    → IsSound w
    → IsSound (record w { rows = rows; claims = attempt_of c token ∷ w.claims })
unfolding claim_next
claims-IsSound w is_locked owner token seconds now c rows h s =
    elim (Option-cases (next_claimable is_locked now w.rows)) [
      | inl idle ↦ absurd (ground arith)
      | inr (x, picked) ↦
          let (free, row) = next_claimable-claimable is_locked now w.rows x picked s.keys in
          let taken = claimed x owner token (now + seconds) in
          let is : taken ≡ c = ground arith in
          let same : save_command taken w.rows ≡ rows = ground arith in
          let after =
            save-IsSound w taken x row refl
              (All-command_by (IsSent w.stream) x.command_id w.rows x row s.sent) s in
          let saved : IsSound (record w { rows = rows }) =
            subst (λ rs. IsSound (record w { rows = rs })) same after in
          let found : command_by c.command_id rows ≡ some c =
            ground (arith, command_by-save_command taken.command_id taken x w.rows) in
          record {
            keys = saved.keys;
            sent = saved.sent;
            claimed_own = ((c, found, refl), saved.claimed_own);
            written_own = saved.written_own;
            written_sent = saved.written_sent;
          }
    ]

mem_more : (a p : Ref) (stream : List Ref) → mem a stream ≡ true → mem a (p ∷ stream) ≡ true
mem_more a p stream h = ground arith

adds_Carries :
    (c : Command) (rows : List Command) (a : Attempt)
    → mem c.command_id (ids rows) ≡ false
    → Carries rows a
    → Carries (c ∷ rows) a
unfolding command_by
adds_Carries c rows a new (d, row, own) =
    (d, ground (arith, other_key c.command_id a.command_id rows d row new), own)

Step-IsSound : {w v : World} → Step w v → IsSound w → IsSound v
unfolding record_publish_success record_publish_failure
Step-IsSound {w} (claims is_locked owner token seconds now c rows h) s =
    claims-IsSound w is_locked owner token seconds now c rows h s
Step-IsSound {w} (writes a mine) s = record {
  keys = s.keys;
  sent =
      All-map (IsSent w.stream) (IsSent (a.payload ∷ w.stream))
        (λ c i. elim i [
          | inl unsent ↦ inl unsent
          | inr sent ↦ inr (mem_more c.payload a.payload w.stream sent)
        ])
        w.rows s.sent;
  claimed_own = s.claimed_own;
  written_own = (All-Any (Carries w.rows) a w.claims mine s.claimed_own, s.written_own);
  written_sent = (
    ground arith,
    All-map (λ x. mem x.payload w.stream ≡ true) (λ x. mem x.payload (a.payload ∷ w.stream) ≡ true)
        (λ x m. mem_more x.payload a.payload w.stream m) w.written s.written_sent,
  );
}
Step-IsSound {w} (succeeds owner a now mine) s =
    attempt-IsSound w owner a (record_publish_success owner a.command_id a.token now w.rows)
      (λ c. some now) none
      (λ c there.
        let (d, row, own) = All-Any (Carries w.rows) a w.written mine s.written_own in
        let sent = All-Any (λ x. mem x.payload w.stream ≡ true) a w.written mine s.written_sent in
        let same : c ≡ d = ground arith in inr (ground arith))
      refl s
Step-IsSound {w} (fails owner error a mine) s =
    attempt-IsSound w owner a (record_publish_failure owner a.command_id a.token error w.rows)
      (λ c. c.published_at) (some error)
      (λ c there. All-command_by (IsSent w.stream) a.command_id w.rows c there s.sent) refl s
Step-IsSound {w} (adds c new unpublished) s = record {
  keys = ground (arith, s.keys);
  sent = (inl (ground arith), s.sent);
  claimed_own =
      All-map (Carries w.rows) (Carries (c ∷ w.rows)) (λ a k. adds_Carries c w.rows a new k)
        w.claims s.claimed_own;
  written_own =
      All-map (Carries w.rows) (Carries (c ∷ w.rows)) (λ a k. adds_Carries c w.rows a new k)
        w.written s.written_own;
  written_sent = s.written_sent;
}

Reach-IsSound : {w v : World} → Reach w v → IsSound w → IsSound v
Reach-IsSound here s = s
Reach-IsSound (next r st) s = Step-IsSound st (Reach-IsSound r s)

-- From an empty outbox, whatever the workers do and in whatever order their steps fall: a command that
-- is marked as published has its payload in the stream.
pub published_is_sent :
    {w v : World}
    → w ≡ record { rows = []; stream = []; claims = []; written = [] }
    → Reach w v
    → All (λ c. (is_none c.published_at ≡ true) ⊎ (mem c.payload v.stream ≡ true)) v.rows
published_is_sent {w} {v} empty r =
    let start : IsSound (record { rows = []; stream = []; claims = []; written = [] }) = record {
      keys = refl;
      sent = tt;
      claimed_own = tt;
      written_own = tt;
      written_sent = tt;
    } in
    (Reach-IsSound r (subst IsSound (sym empty) start)).sent
