-- ===== src/Evidence/Merge.antt =====
-- Merging evidence keeps identities distinct, drops nothing, and can be repeated.
use shopee_hachathonteam.Prelude.{
  ℕ, ◌≡◌, refl, sym, ap, subst, Bool, true, false, ◌&&◌, none, some, List, [], ◌∷◌, ◌++◌, map, Ref,
  ok, inl, inr, ◌⊎◌, arith, ◌==◌, is_none, mem, distinct, All, Any, Bool-cases, Option-cases,
  map-append, ◌∙◌,
}
use shopee_hachathonteam.Evidence.{EvidenceItem, same_item, get, conflicts, added, merge_evidence}

-- No two items have the same identifier, and no two the same artifact.
abbrev pub IsDistinct : List EvidenceItem → Type 0
IsDistinct items =
    (distinct (map (λ x. x.evidence_id) items) ≡ true)
    × (distinct (map (λ x. x.artifact_ref) items) ≡ true)

abbrev pub Has : EvidenceItem → List EvidenceItem → Type 0
Has item items = Any (λ x. x ≡ item) items

same_item→eq : (a b : EvidenceItem) → same_item a b ≡ true → a ≡ b
unfolding same_item
same_item→eq a b h = ground arith

same_item_refl : (a : EvidenceItem) → same_item a a ≡ true
unfolding same_item
same_item_refl a = ground arith

mem-append :
    (a : ℕ) (xs : List ℕ) (b : ℕ)
    → mem a xs ≡ false
    → (a == b) ≡ false
    → mem a (xs ++ (b ∷ [])) ≡ false
mem-append a [] b h d = ground arith
mem-append a (x ∷ xs) b h d = ground (arith, mem-append a xs b)

distinct-append :
    (xs : List ℕ) (a : ℕ) → distinct xs ≡ true → mem a xs ≡ false → distinct (xs ++ (a ∷ [])) ≡ true
distinct-append [] a h m = ground arith
distinct-append (x ∷ xs) a h m = ground (arith, distinct-append xs a, mem-append x xs a)

Has-append :
    (item x : EvidenceItem) (xs : List EvidenceItem) → Has item xs → Has item (xs ++ (x ∷ []))
Has-append item x [] h = elim h [ ]
Has-append item x (y ∷ ys) (inl h) = inl h
Has-append item x (y ∷ ys) (inr h) = inr (Has-append item x ys h)

Has-last : (item : EvidenceItem) (xs : List EvidenceItem) → Has item (xs ++ (item ∷ []))
Has-last item [] = inl refl
Has-last item (x ∷ xs) = inr (Has-last item xs)

module _ (key : EvidenceItem → Ref) where
  get-none :
      (ref : Ref) (items : List EvidenceItem)
      → get key ref items ≡ none
      → mem ref (map key items) ≡ false
  unfolding get
  get-none ref [] h = refl
  get-none ref (x ∷ xs) h = elim (Option-cases (get key ref xs)) [
    | inl missing ↦ ground (arith, get-none ref xs missing)
    | inr (later, there) ↦ absurd (ground arith)
  ]

  get-Has :
      (ref : Ref) (items : List EvidenceItem) (found : EvidenceItem)
      → get key ref items ≡ some found
      → Has found items
  unfolding get
  get-Has ref [] found h = absurd (ground arith)
  get-Has ref (x ∷ xs) found h = elim (Option-cases (get key ref xs)) [
    | inl missing ↦ inl (ground arith)
    | inr (later, there) ↦ inr (get-Has ref xs found (ground arith))
  ]

  absent-none :
      (ref : Ref) (items : List EvidenceItem)
      → mem ref (map key items) ≡ false
      → get key ref items ≡ none
  unfolding get
  absent-none ref [] h = refl
  absent-none ref (x ∷ xs) h = ground (arith, absent-none ref xs)

  -- Among distinct keys, an item is what its own key gets.
  Has-get :
      (item : EvidenceItem) (items : List EvidenceItem)
      → distinct (map key items) ≡ true
      → Has item items
      → get key (key item) items ≡ some item
  unfolding get
  Has-get item [] d h = elim h [ ]
  Has-get item (x ∷ xs) d (inl here) =
      let same : key x ≡ key item = ap key here in ground (arith, absent-none (key item) xs)
  Has-get item (x ∷ xs) d (inr later) = ground (arith, Has-get item xs (ground arith) later)

-- An item whose keys are new.
abbrev pub is_new : EvidenceItem → List EvidenceItem → Bool
is_new item merged =
    is_none (get (λ x. x.evidence_id) item.evidence_id merged)
    && is_none (get (λ x. x.artifact_ref) item.artifact_ref merged)

pub added-cases :
    (item : EvidenceItem) (merged : List EvidenceItem)
    → ((get (λ x. x.evidence_id) item.evidence_id merged ≡ none)
        × (get (λ x. x.artifact_ref) item.artifact_ref merged ≡ none)
        × (added item merged ≡ merged ++ (item ∷ [])))
      ⊎ ((is_new item merged ≡ false) × (added item merged ≡ merged))
unfolding added
added-cases item merged = elim (Bool-cases (is_new item merged)) [
  | inl fresh ↦ inl (ground arith, ground arith, ground arith)
  | inr known ↦ inr (known, ground arith)
]

added-IsDistinct :
    (item : EvidenceItem) (merged : List EvidenceItem)
    → IsDistinct merged
    → IsDistinct (added item merged)
added-IsDistinct item merged (ids, artifacts) = elim (added-cases item merged) [
  | inl (no_id, no_artifact, is) ↦ subst IsDistinct (sym is) (
    ap distinct (map-append (λ x. x.evidence_id) merged (item ∷ []))
        ∙ distinct-append (map (λ x. x.evidence_id) merged) item.evidence_id ids
            (get-none (λ x. x.evidence_id) item.evidence_id merged no_id),
    ap distinct (map-append (λ x. x.artifact_ref) merged (item ∷ []))
        ∙ distinct-append (map (λ x. x.artifact_ref) merged) item.artifact_ref artifacts
            (get-none (λ x. x.artifact_ref) item.artifact_ref merged no_artifact),
  )
  | inr (known, is) ↦ subst IsDistinct (sym is) (ids, artifacts)
]

added-keeps :
    (item x : EvidenceItem) (merged : List EvidenceItem) → Has x merged → Has x (added item merged)
added-keeps item x merged h = elim (added-cases item merged) [
  | inl (no_id, no_artifact, is) ↦ subst (Has x) (sym is) (Has-append x item merged h)
  | inr (known, is) ↦ subst (Has x) (sym is) h
]

-- What is found without a conflict is the item itself.
found-Has :
    (key : EvidenceItem → Ref) (item found : EvidenceItem) (merged : List EvidenceItem)
    → get key (key item) merged ≡ some found
    → conflicts (get key (key item) merged) item ≡ false
    → Has item merged
unfolding conflicts
found-Has key item found merged there agrees =
    subst (λ x. Has x merged) (same_item→eq found item (ground arith))
      (get-Has key (key item) merged found there)

added-Has :
    (item : EvidenceItem) (merged : List EvidenceItem)
    → conflicts (get (λ x. x.evidence_id) item.evidence_id merged) item ≡ false
    → conflicts (get (λ x. x.artifact_ref) item.artifact_ref merged) item ≡ false
    → Has item (added item merged)
added-Has item merged by_id by_artifact = elim (added-cases item merged) [
  | inl (no_id, no_artifact, is) ↦ subst (Has item) (sym is) (Has-last item merged)
  | inr (known, is) ↦
      subst (Has item) (sym is)
        (elim (Option-cases (get (λ x. x.evidence_id) item.evidence_id merged)) [
          | inr (found, there) ↦ found-Has (λ x. x.evidence_id) item found merged there by_id
          | inl no_id ↦ elim (Option-cases (get (λ x. x.artifact_ref) item.artifact_ref merged)) [
            | inr (found, there) ↦
                found-Has (λ x. x.artifact_ref) item found merged there by_artifact
            | inl no_artifact ↦ absurd (ground arith)
          ]
        ])
]

pub merge_keeps :
    (x : EvidenceItem) (current items : List EvidenceItem) {r : List EvidenceItem}
    → merge_evidence current items ≡ ok r
    → Has x current
    → Has x r
unfolding merge_evidence
merge_keeps x current [] h a = let same : current ≡ _ = ground arith in subst (Has x) same a
merge_keeps x current (item ∷ items) h a =
    merge_keeps x (added item current) items (ground arith) (added-keeps item x current a)

pub merge-Has :
    (current items : List EvidenceItem) {r : List EvidenceItem}
    → merge_evidence current items ≡ ok r
    → All (λ x. Has x r) items
unfolding merge_evidence
merge-Has current [] h = tt
merge-Has current (item ∷ items) {r} h =
    let rest : merge_evidence (added item current) items ≡ ok r = ground arith in
    (
      merge_keeps item (added item current) items rest
          (added-Has item current (ground arith) (ground arith)),
      merge-Has (added item current) items rest,
    )

pub merge-IsDistinct :
    (current items : List EvidenceItem) {r : List EvidenceItem}
    → merge_evidence current items ≡ ok r
    → IsDistinct current
    → IsDistinct r
unfolding merge_evidence
merge-IsDistinct current [] {r} h d =
    let same : current ≡ r = ground arith in subst IsDistinct same d
merge-IsDistinct current (item ∷ items) {r} h d =
    merge-IsDistinct (added item current) items {r = r} (ground arith)
      (added-IsDistinct item current d)

All-Has :
    (items r : List EvidenceItem)
    → ((x : EvidenceItem) → Has x items → Has x r)
    → All (λ x. Has x r) items
All-Has [] r f = tt
All-Has (x ∷ xs) r f = (f x (inl refl), All-Has xs r (λ y h. f y (inr h)))

merge_known :
    (r items : List EvidenceItem)
    → IsDistinct r
    → All (λ x. Has x r) items
    → merge_evidence r items ≡ ok r
unfolding merge_evidence added conflicts
merge_known r [] d a = refl
merge_known r (item ∷ items) (ids, artifacts) (here, rest) = ground (
  arith,
  Has-get (λ x. x.evidence_id) item r ids here,
  Has-get (λ x. x.artifact_ref) item r artifacts here,
  same_item_refl item,
  merge_known r items (ids, artifacts) rest,
)

-- When identifiers and artifacts are distinct and evidence is merged without a conflict, the result has
-- every item that was there and every new item, identifiers and artifacts are distinct in it, and
-- merging the same new items once more changes nothing.
pub merge_evidence_complete :
    (current new_items : List EvidenceItem) {r : List EvidenceItem}
    → merge_evidence current new_items ≡ ok r
    → IsDistinct current
    → All (λ x. Has x r) current
      × All (λ x. Has x r) new_items
      × IsDistinct r
      × (merge_evidence r new_items ≡ ok r)
merge_evidence_complete current new_items {r} h d =
    let distinct_after : IsDistinct r = merge-IsDistinct current new_items h d in
    let has_new : All (λ x. Has x r) new_items = merge-Has current new_items h in
    (
      All-Has current r (λ x. merge_keeps x current new_items h),
      has_new,
      distinct_after,
      merge_known r new_items distinct_after has_new,
    )
