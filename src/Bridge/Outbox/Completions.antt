-- ===== src/Bridge/Outbox/Completions.antt =====
-- The order in which refund completions leave their outbox.
use shopee_hachathonteam.Prelude.{
  ℕ, ◌+◌, ◌≤◌, ◌≡◌, refl, subst, sym, true, false, none, some, List, [], ◌∷◌, Ref, leb, inl, inr,
  ◌⊎◌, arith, ◌==◌, Bool-cases, Option-cases, if◌then◌else◌, mem, distinct, map, All,
}
use shopee_hachathonteam.Refund.{Outbox}
use shopee_hachathonteam.Bridge.Outbox.{pending_completion, mark_completion}

-- How many completions wait.
abbrev pub unpublished : List Outbox → ℕ
unpublished [] = 0
unpublished (o ∷ os) = (if o.published then 0 else 1) + unpublished os

none_waits : (os : List Outbox) → pending_completion os ≡ none → unpublished os ≡ 0
unfolding pending_completion
none_waits [] h = refl
none_waits (o ∷ os) h = elim (Option-cases (pending_completion os)) [
  | inl empty ↦ ground (arith, none_waits os empty)
  | inr (p, there) ↦ absurd (ground arith)
]

-- No completion that waits has a smaller reference.
abbrev pub AtLeast : Ref → List Outbox → Type 0
AtLeast ref os = All (λ o. (o.published ≡ true) ⊎ (ref ≤ o.resolution_ref)) os

AtLeast-mono : (a b : Ref) (os : List Outbox) → a ≤ b → AtLeast b os → AtLeast a os
AtLeast-mono a b [] le h = tt
AtLeast-mono a b (o ∷ os) le (inl sent, h) = (inl sent, AtLeast-mono a b os le h)
AtLeast-mono a b (o ∷ os) le (inr more, h) = (inr (omega arith), AtLeast-mono a b os le h)

all_sent : (a : Ref) (os : List Outbox) → unpublished os ≡ 0 → AtLeast a os
all_sent a [] h = tt
all_sent a (o ∷ os) h = elim (Bool-cases o.published) [
  | inl sent ↦ (inl sent, all_sent a os (ground arith))
  | inr waits ↦ absurd (ground arith)
]

pending_first :
    (os : List Outbox) (p : Outbox)
    → pending_completion os ≡ some p
    → (p.published ≡ false)
      × (mem p.resolution_ref (map (λ o. o.resolution_ref) os) ≡ true)
      × AtLeast p.resolution_ref os
unfolding pending_completion
pending_first [] p h = absurd (ground arith)
pending_first (o ∷ os) p h = elim (Option-cases (pending_completion os)) [
  | inl empty ↦
      let same : o ≡ p = ground arith in
      (
        ground arith,
        ground arith,
        (inr (ground arith), all_sent p.resolution_ref os (none_waits os empty)),
      )
  | inr (q, there) ↦
      let (waits, listed, least) = pending_first os q there in
      elim (Bool-cases o.published) [
        | inl sent ↦
            let same : q ≡ p = ground arith in
            (
              ground arith,
              ground arith,
              (inl sent, subst (λ x. AtLeast x.resolution_ref os) same least),
            )
        | inr going ↦ elim (Bool-cases (leb o.resolution_ref q.resolution_ref)) [
          | inl first ↦
              let same : o ≡ p = ground arith in
              (
                ground arith,
                ground arith,
                (
                  inr (ground arith),
                  AtLeast-mono p.resolution_ref q.resolution_ref os (ground arith) least,
                ),
              )
          | inr second ↦
              let same : q ≡ p = ground arith in
              (
                ground arith,
                ground arith,
                (inr (ground arith), subst (λ x. AtLeast x.resolution_ref os) same least),
              )
        ]
      ]
]

marks_one :
    (os : List Outbox) (p : Outbox)
    → pending_completion os ≡ some p
    → distinct (map (λ o. o.resolution_ref) os) ≡ true
    → unpublished (mark_completion p.resolution_ref os) + 1 ≡ unpublished os
unfolding pending_completion mark_completion
marks_one [] p h keys = absurd (ground arith)
marks_one (o ∷ os) p h keys = elim (Option-cases (pending_completion os)) [
  | inl empty ↦ ground arith
  | inr (q, there) ↦
      let (waits, listed, least) = pending_first os q there in
      elim (Bool-cases (o.resolution_ref == q.resolution_ref)) [
        | inr other ↦ ground (arith, marks_one os q there)
        | inl same ↦
            let is : o.resolution_ref ≡ q.resolution_ref = ground arith in
            absurd (
              repeats o.resolution_ref (map (λ x. x.resolution_ref) os) (ground arith)
                (subst (λ r. mem r (map (λ x. x.resolution_ref) os) ≡ true) (sym is) listed))
      ]
]
  where
    repeats : (a : Ref) (xs : List Ref) → mem a xs ≡ false → mem a xs ≡ true → ⊥
    repeats a xs out within = ground arith

-- A step of the dispatcher with something to send takes an unpublished completion whose reference is
-- the smallest, and one fewer waits after it; with nothing to send, every completion is published.
pub completion_progress :
    (os : List Outbox)
    → distinct (map (λ o. o.resolution_ref) os) ≡ true
    → ((pending_completion os ≡ none) × (unpublished os ≡ 0))
      ⊎ ((p : Outbox) × (pending_completion os ≡ some p)
          × (p.published ≡ false)
          × AtLeast p.resolution_ref os
          × (unpublished (mark_completion p.resolution_ref os) + 1 ≡ unpublished os))
completion_progress os keys = elim (Option-cases (pending_completion os)) [
  | inl empty ↦ inl (empty, none_waits os empty)
  | inr (p, there) ↦
      let (waits, listed, least) = pending_first os p there in
      inr (p, there, waits, least, marks_one os p there keys)
]
