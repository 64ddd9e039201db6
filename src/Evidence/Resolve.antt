-- ===== src/Evidence/Resolve.antt =====
-- What the evidence of a case has after the attachments of its conversation were resolved.
use shopee_hachathonteam.Prelude.{
  ◌≡◌, refl, sym, subst, true, Option, List, [], ◌∷◌, ◌++◌, map, Ref, ok, inl, inr, ◌⊎◌, arith,
  ◌==◌, mem, All, All-map, Any, Any-map, Bool-cases, Option-cases, Result-cases,
}
use shopee_hachathonteam.Evidence.{
  EvidenceItem, added, merge_evidence, fresh_refs, resolve_all, resolve_initial_evidence,
}
use shopee_hachathonteam.Evidence.Merge.{Has, merge_keeps, merge-Has, added-cases}

-- The evidence has an item for this artifact.
abbrev pub Covers : List EvidenceItem → Ref → Type 0
Covers items ref = Any (λ x. x.artifact_ref ≡ ref) items

fresh_refs_covers :
    (resolved refs : List Ref) (ref : Ref)
    → mem ref refs ≡ true
    → (mem ref resolved ≡ true) ⊎ (mem ref (fresh_refs resolved refs) ≡ true)
unfolding fresh_refs
fresh_refs_covers resolved [] ref h = absurd (ground arith)
fresh_refs_covers resolved (a ∷ refs) ref h = elim (Bool-cases (ref == a)) [
  | inl here ↦ elim (Bool-cases (mem a resolved)) [
    | inl known ↦
        inl (let same : a ≡ ref = ground arith in subst (λ x. mem x resolved ≡ true) same known)
    | inr new ↦ inr (ground arith)
  ]
  | inr elsewhere ↦ elim (Bool-cases (mem a resolved)) [
    | inl known ↦ elim (fresh_refs_covers resolved refs ref (ground arith)) [
      | inl old ↦ inl old
      | inr kept ↦ inr (ground arith)
    ]
    | inr new ↦ elim (fresh_refs_covers (a ∷ resolved) refs ref (ground arith)) [
      | inl old ↦ inl (ground arith)
      | inr kept ↦ inr (ground arith)
    ]
  ]
]

mem-Covers :
    (items : List EvidenceItem) (ref : Ref)
    → mem ref (map (λ x. x.artifact_ref) items) ≡ true
    → Covers items ref
mem-Covers [] ref h = absurd (ground arith)
mem-Covers (x ∷ xs) ref h = elim (Bool-cases (ref == x.artifact_ref)) [
  | inl here ↦ inl (ground arith)
  | inr later ↦ inr (mem-Covers xs ref (ground arith))
]

Covers-All :
    (items r : List EvidenceItem) (ref : Ref)
    → Covers items ref
    → All (λ x. Has x r) items
    → Covers r ref
Covers-All [] r ref c a = elim c [ ]
Covers-All (x ∷ xs) r ref (inl here) (has, rest) =
    Any-map (λ y. y ≡ x) (λ y. y.artifact_ref ≡ ref)
      (λ y same. subst (λ z. z.artifact_ref ≡ ref) (sym same) here) r has
Covers-All (x ∷ xs) r ref (inr later) (has, rest) = Covers-All xs r ref later rest

Covers-Has :
    (current r : List EvidenceItem) (ref : Ref)
    → ((x : EvidenceItem) → Has x current → Has x r)
    → Covers current ref
    → Covers r ref
Covers-Has [] r ref f c = elim c [ ]
Covers-Has (x ∷ xs) r ref f (inl here) = Covers-All (x ∷ []) r ref (inl here) (f x (inl refl), tt)
Covers-Has (x ∷ xs) r ref f (inr later) = Covers-Has xs r ref (λ y h. f y (inr h)) later

module _ (resolve : Ref → Option EvidenceItem) (allowed : List Ref) where
  -- Each reference is resolved to an item of its own that is in scope.
  resolve_all-Covers :
      (refs : List Ref) {items : List EvidenceItem}
      → resolve_all resolve allowed refs ≡ ok items
      → ((ref : Ref) → mem ref refs ≡ true → Covers items ref)
        × All (λ x. mem x.subject allowed ≡ true) items
  unfolding resolve_all
  resolve_all-Covers [] {items} h =
      let same : [] ≡ items = ground arith in
      (λ ref m. absurd (ground arith), subst (All (λ x. mem x.subject allowed ≡ true)) same tt)
  resolve_all-Covers (a ∷ refs) {items} h = elim (Option-cases (resolve a)) [
    | inl missing ↦ absurd (ground arith)
    | inr (item, there) ↦ elim (Result-cases (resolve_all resolve allowed refs)) [
      | inr (e, raised) ↦ absurd (ground arith)
      | inl (rest, others) ↦
          let (covers, scoped) = resolve_all-Covers refs {items = rest} others in
          let same : item ∷ rest ≡ items = ground arith in
          let own : item.artifact_ref ≡ a = ground arith in
          (
            λ ref m.
                subst (λ xs. Covers xs ref) same
                  (elim (Bool-cases (ref == a)) [
                    | inl here ↦ inl (ground arith)
                    | inr later ↦ inr (covers ref (ground arith))
                  ]),
            subst (All (λ x. mem x.subject allowed ≡ true)) same (ground arith, scoped),
          )
    ]
  ]

All-append_one :
    (P : EvidenceItem → Type 0) (xs : List EvidenceItem) (x : EvidenceItem)
    → All P xs
    → P x
    → All P (xs ++ (x ∷ []))
All-append_one P [] x h p = (p, tt)
All-append_one P (y ∷ ys) x h p = (h.0, All-append_one P ys x h.1 p)

added-All :
    (P : EvidenceItem → Type 0) (item : EvidenceItem) (merged : List EvidenceItem)
    → All P merged
    → P item
    → All P (added item merged)
added-All P item merged h p = elim (added-cases item merged) [
  | inl (no_id, no_artifact, is) ↦ subst (All P) (sym is) (All-append_one P merged item h p)
  | inr (known, is) ↦ subst (All P) (sym is) h
]

-- What holds of both lists holds of the items that they are merged to.
merge-All :
    (P : EvidenceItem → Type 0) (current items : List EvidenceItem) {r : List EvidenceItem}
    → merge_evidence current items ≡ ok r
    → All P current
    → All P items
    → All P r
unfolding merge_evidence
merge-All P current [] {r} h c n = let same : current ≡ r = ground arith in subst (All P) same c
merge-All P current (item ∷ items) {r} h c (p, n) =
    merge-All P (added item current) items {r = r} (ground arith) (added-All P item current c p) n

All-self :
    (P : EvidenceItem → Type 0) (xs : List EvidenceItem)
    → ((x : EvidenceItem) → Has x xs → P x)
    → All P xs
All-self P [] f = tt
All-self P (x ∷ xs) f = (f x (inl refl), All-self P xs (λ y h. f y (inr h)))

-- When the attachments of the conversation are resolved without an error, each of them has an item of
-- evidence, the evidence that was there is kept, and every other item is about the order or a claimed
-- item.
pub resolve_initial_evidence-Covers :
    (resolve : Ref → Option EvidenceItem) (order : Ref) (existing : List EvidenceItem)
    (attached claimed : List Ref) {r : List EvidenceItem}
    → resolve_initial_evidence resolve order existing attached claimed ≡ ok r
    → ((ref : Ref) → mem ref attached ≡ true → Covers r ref)
      × ((x : EvidenceItem) → Has x existing → Has x r)
      × All (λ x. Has x existing ⊎ (mem x.subject (order ∷ claimed) ≡ true)) r
unfolding resolve_initial_evidence
resolve_initial_evidence-Covers resolve order existing attached claimed {r} h =
    let fresh = fresh_refs (map (λ x. x.artifact_ref) existing) attached in
    elim (Result-cases (resolve_all resolve (order ∷ claimed) fresh)) [
      | inr (e, raised) ↦ absurd (ground arith)
      | inl (items, resolved) ↦
          let merged : merge_evidence existing items ≡ ok r = ground arith in
          let (covers, scoped) = resolve_all-Covers resolve (order ∷ claimed) fresh resolved in
          let keeps : (x : EvidenceItem) → Has x existing → Has x r =
            λ x. merge_keeps x existing items merged in
          (
            λ ref m. elim (fresh_refs_covers (map (λ x. x.artifact_ref) existing) attached ref m) [
              | inl old ↦ Covers-Has existing r ref keeps (mem-Covers existing ref old)
              | inr new ↦ Covers-All items r ref (covers ref new) (merge-Has existing items merged)
            ],
            keeps,
            merge-All (λ x. Has x existing ⊎ (mem x.subject (order ∷ claimed) ≡ true)) existing
                items merged
                (All-self (λ x. Has x existing ⊎ (mem x.subject (order ∷ claimed) ≡ true)) existing
                  (λ x here. inl here))
                (All-map (λ x. mem x.subject (order ∷ claimed) ≡ true)
                  (λ x. Has x existing ⊎ (mem x.subject (order ∷ claimed) ≡ true)) (λ x s. inr s)
                  items scoped),
          )
    ]
