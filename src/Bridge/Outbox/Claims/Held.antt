-- ===== src/Bridge/Outbox/Claims/Held.antt =====
-- The time of a claim, and what other workers do in it.
use shopee_hachathonteam.Prelude.{
  ℕ, ◌+◌, ◌<◌, ◌≡◌, refl, sym, subst, ◌∙◌, ap, Bool, true, false, ◌&&◌, Option, none, some, List,
  [], ◌∷◌, Ref, Instant, inl, inr, arith, ◌==◌, is_none, Bool-cases, Option-cases, if◌then◌else◌,
  mem, distinct,
}
use shopee_hachathonteam.Bridge.Outbox.{
  Command, command_by, save_command, is_claimable, next_claimable, claimed, claim_next, is_owned,
  attempted, record_publish_success, record_publish_failure,
}
use shopee_hachathonteam.Bridge.Outbox.Claims.{
  command_by-save_command, command_by_key, ids, ids-save_command, next_claimable-claimable,
  next_claimable_total,
}

-- What keeps a row that another worker's token guards: its claim runs, and it is not published.
abbrev pub IsHeld : Command → (owner token : Ref) → (until : Instant) → Type 0
IsHeld c owner token until =
    (c.published_at ≡ none)
    × (c.claimed_by ≡ some owner)
    × (c.lease_token ≡ some token)
    × (c.claimed_until ≡ some until)

-- A transaction of the outbox before the instant `until`, by any worker but the holder of this claim.
pub data Other (owner token : Ref) (until : Instant) (cs : List Command)
    : List Command → Type 0 where
  claims :
      (is_locked : Ref → Bool) (worker drawn : Ref) (seconds : ℕ) (now : Instant)
      → now < until
      → Other owner token until cs (claim_next is_locked worker drawn seconds now cs).1
  succeeds :
      (worker id lease : Ref) (now : Instant)
      → ((worker == owner) && (lease == token)) ≡ false
      → Other owner token until cs (record_publish_success worker id lease now cs)
  fails :
      (worker id lease error : Ref)
      → ((worker == owner) && (lease == token)) ≡ false
      → Other owner token until cs (record_publish_failure worker id lease error cs)
  adds : (c : Command) → mem c.command_id (ids cs) ≡ false → Other owner token until cs (c ∷ cs)

pub data Others (owner token : Ref) (until : Instant) (cs : List Command)
    : List Command → Type 0 where
  here : Others owner token until cs cs
  next :
      {ds es : List Command}
      → Others owner token until cs ds
      → Other owner token until ds es
      → Others owner token until cs es

-- The row of the held command, among rows with distinct keys.
abbrev pub Holds : (id owner token : Ref) → (until : Instant) → Command → List Command → Type 0
Holds id owner token until c cs =
    (distinct (ids cs) ≡ true) × (command_by id cs ≡ some c) × IsHeld c owner token until

-- A row of another key is written.
save-Holds :
    (id owner token : Ref) (until : Instant) (c r old : Command) (cs : List Command)
    → Holds id owner token until c cs
    → command_by r.command_id cs ≡ some old
    → (r.command_id == id) ≡ false
    → Holds id owner token until c (save_command r cs)
save-Holds id owner token until c r old cs (keys, row, held) there other = (
  ap distinct (ids-save_command r cs) ∙ keys,
  ground (arith, command_by-save_command id r old cs),
  held,
)

pub mem-command_by :
    (id : Ref) (cs : List Command) (c : Command)
    → command_by id cs ≡ some c
    → mem id (ids cs) ≡ true
unfolding command_by
mem-command_by id [] c h = absurd (ground arith)
mem-command_by id (x ∷ cs) c h = ground (arith, mem-command_by id cs c)

pub other_key :
    (a id : Ref) (cs : List Command) (c : Command)
    → command_by id cs ≡ some c
    → mem a (ids cs) ≡ false
    → (a == id) ≡ false
other_key a id cs c there new = elim (Bool-cases (a == id)) [
  | inl same ↦
      let is : a ≡ id = ground arith in
      let within = mem-command_by id cs c there in
      absurd (differs (subst (λ x. mem x (ids cs) ≡ true) (sym is) within))
  | inr other ↦ other
]
  where
    differs : mem a (ids cs) ≡ true → ⊥
    differs h = ground arith

-- The row that is picked, or whose own token is shown, is another one.
claimable_elsewhere :
    (id owner token : Ref) (until now : Instant) (c d : Command) (cs : List Command)
    → Holds id owner token until c cs
    → now < until
    → is_claimable now d ≡ true
    → command_by d.command_id cs ≡ some d
    → (d.command_id == id) ≡ false
unfolding is_claimable
claimable_elsewhere id owner token until now c d cs h early free row =
    elim (Bool-cases (d.command_id == id)) [
      | inr other ↦ other
      | inl same ↦
          let is : d.command_id ≡ id = ground arith in
          let found : command_by id cs ≡ some d = subst (λ x. command_by x cs ≡ some d) is row in
          absurd (held_free d c (ground arith) h.2 free)
    ]
  where
    held_free : (d c : Command) → d ≡ c → IsHeld c owner token until → is_claimable now d ≡ true → ⊥
    held_free d c same held free = ground arith

owned_elsewhere :
    (id owner token worker lease key : Ref) (until : Instant) (c d : Command) (cs : List Command)
    → Holds id owner token until c cs
    → ((worker == owner) && (lease == token)) ≡ false
    → is_owned worker lease d ≡ true
    → command_by key cs ≡ some d
    → (d.command_id == id) ≡ false
owned_elsewhere id owner token worker lease key until c d cs h foreign owned row =
    elim (Bool-cases (d.command_id == id)) [
      | inr other ↦ other
      | inl same ↦
          let at = command_by_key key cs d row in
          let is : key ≡ id = ground arith in
          let found : command_by id cs ≡ some d = subst (λ x. command_by x cs ≡ some d) is row in
          absurd (held_owned d c (ground arith) h.2 owned)
    ]
  where
    held_owned :
        (d c : Command) → d ≡ c → IsHeld c owner token until → is_owned worker lease d ≡ true → ⊥
    held_owned d c same held owned = ground arith

-- What is recorded of an attempt leaves the held row, when the attempt is not the holder's.
attempt-Holds :
    (id owner token worker lease key : Ref) (until : Instant) (c : Command) (cs ds : List Command)
    (published : Command → Option Instant) (error : Option Ref)
    → Holds id owner token until c cs
    → ((worker == owner) && (lease == token)) ≡ false
    → ds ≡ elim (command_by key cs) [
      | none ↦ cs
      | some d ↦
          if is_owned worker lease d then save_command (attempted d (published d) error) cs else cs
    ]
    → Holds id owner token until c ds
attempt-Holds id owner token worker lease key until c cs ds published error h foreign is =
    elim (Option-cases (command_by key cs)) [
      | inl missing ↦
          let same : ds ≡ cs = ground arith in subst (Holds id owner token until c) (sym same) h
      | inr (d, there) ↦ elim (Bool-cases (is_owned worker lease d)) [
        | inr lost ↦
            let same : ds ≡ cs = ground arith in subst (Holds id owner token until c) (sym same) h
        | inl owned ↦
            let written = attempted d (published d) error in
            let same : ds ≡ save_command written cs = ground arith in
            let at = command_by_key key cs d there in
            subst (Holds id owner token until c) (sym same) (
              save-Holds id owner token until c written d cs h (ground arith) (
                owned_elsewhere id owner token worker lease key until c d cs h foreign owned there))
      ]
    ]

Other-Holds :
    (id owner token : Ref) (until : Instant) (c : Command) {cs ds : List Command}
    → Other owner token until cs ds
    → Holds id owner token until c cs
    → Holds id owner token until c ds
unfolding claim_next record_publish_success record_publish_failure
Other-Holds id owner token until c {cs} (claims is_locked worker drawn seconds now early) h =
    elim (Option-cases (next_claimable is_locked now cs)) [
      | inl idle ↦
          let same : (claim_next is_locked worker drawn seconds now cs).1 ≡ cs = ground arith in
          subst (Holds id owner token until c) (sym same) h
      | inr (d, picked) ↦
          let (free, row) = next_claimable-claimable is_locked now cs d picked h.0 in
          let taken = claimed d worker drawn (now + seconds) in
          let same : (claim_next is_locked worker drawn seconds now cs).1 ≡ save_command taken cs =
            ground arith in
          subst (Holds id owner token until c) (sym same) (
            save-Holds id owner token until c taken d cs h row
              (claimable_elsewhere id owner token until now c d cs h early free row))
    ]
Other-Holds id owner token until c {cs} (succeeds worker key lease now foreign) h =
    attempt-Holds id owner token worker lease key until c cs
      (record_publish_success worker key lease now cs) (λ d. some now) none h foreign refl
Other-Holds id owner token until c {cs} (fails worker key lease error foreign) h =
    attempt-Holds id owner token worker lease key until c cs
      (record_publish_failure worker key lease error cs) (λ d. d.published_at) (some error) h
      foreign refl
Other-Holds id owner token until c {cs} (adds d new) h = (
  ground (arith, h.0),
  unfold command_by in ground (arith, other_key d.command_id id cs c h.1 new, h.1),
  h.2,
)

Others-Holds :
    (id owner token : Ref) (until : Instant) (c : Command) {cs ds : List Command}
    → Others owner token until cs ds
    → Holds id owner token until c cs
    → Holds id owner token until c ds
Others-Holds id owner token until c here h = h
Others-Holds id owner token until c (next os o) h =
    Other-Holds id owner token until c o (Others-Holds id owner token until c os h)

-- A claim that is granted gives a command that was not published and that nobody held. Whatever other
-- workers do before the claim ends, nobody else gets the command and its row stays as it is, so the
-- holder's success is recorded: the command is published, and no worker claims it again.
pub command_claim_exclusive :
    (is_locked : Ref → Bool) (owner token : Ref) (seconds : ℕ) (now later after : Instant)
    (cs ds taken : List Command) (c : Command)
    → distinct (ids cs) ≡ true
    → claim_next is_locked owner token seconds now cs ≡ (some c, taken)
    → Others owner token (now + seconds) taken ds
    → (command_by c.command_id ds ≡ some c)
      × (c.published_at ≡ none)
      × (d : Command) × (command_by c.command_id
            (record_publish_success owner c.command_id token later ds)
          ≡ some d)
      × (d.payload ≡ c.payload)
      × (d.published_at ≡ some later)
      × (is_claimable after d ≡ false)
unfolding claim_next record_publish_success is_claimable
command_claim_exclusive is_locked owner token seconds now later after cs ds taken c keys h others =
    elim (Option-cases (next_claimable is_locked now cs)) [
      | inl idle ↦ absurd (ground arith)
      | inr (x, picked) ↦
          let (free, row) = next_claimable-claimable is_locked now cs x picked keys in
          let mine : claimed x owner token (now + seconds) ≡ c = ground arith in
          let saved : save_command c cs ≡ taken = ground arith in
          let at : command_by c.command_id cs ≡ some x = ground arith in
          let held : Holds c.command_id owner token (now + seconds) c (save_command c cs) = (
            ap distinct (ids-save_command c cs) ∙ keys,
            ground (arith, command_by-save_command c.command_id c x cs),
            ground arith,
          ) in
          let (keys', there, kept) =
            Others-Holds c.command_id owner token (now + seconds) c others
              (subst (Holds c.command_id owner token (now + seconds) c) saved held) in
          let d = attempted c (some later) none in
          (
            there,
            kept.0,
            d,
            ground (arith, command_by-save_command c.command_id d c ds),
            refl,
            refl,
            ground arith,
          )
    ]

-- Where there is an unpublished command that is neither claimed nor locked, a worker gets one.
pub claim_next_total :
    (is_locked : Ref → Bool) (owner token : Ref) (seconds : ℕ) (now : Instant) (cs : List Command)
    (id : Ref) {c : Command}
    → command_by id cs ≡ some c
    → is_claimable now c ≡ true
    → is_locked c.command_id ≡ false
    → is_none (claim_next is_locked owner token seconds now cs).0 ≡ false
unfolding claim_next
claim_next_total is_locked owner token seconds now cs id {c} there free unlocked =
    ground (arith, next_claimable_total is_locked now cs id c there free unlocked)
