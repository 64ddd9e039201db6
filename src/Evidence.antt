-- ===== src/Evidence.antt =====
-- The evidence of a case, resolved from the buyer's attachments and merged by identity
-- (packages/agent_runtime/src/return_agent_runtime/graph.py).
pub mod Merge
pub mod Resolve
pub mod Tests
use shopee_hachathonteam.Prelude.{
  ℕ, Bool, true, false, not, ◌&&◌, Option, none, some, List, [], ◌∷◌, ◌++◌, map, Ref, Result, ok,
  err, ◌>>=◌, ◌>>◌, raise_if, ◌==◌, is_none, any_of, mem, if◌then◌else◌,
}

-- `content` stands for the type, the summary and the other fields, which are only compared.
pub record EvidenceItem : Type 0 where
  pub evidence_id : Ref
  pub artifact_ref : Ref
  pub subject : Ref
  pub content : Ref

pub data EvidenceError : Type 0 where
  id_conflict artifact_conflict wrong_artifact outside_scope unresolved : EvidenceError

-- `a == b` on evidence items.
unfoldable pub same_item : EvidenceItem → EvidenceItem → Bool
same_item a b =
    a.evidence_id == b.evidence_id
    && a.artifact_ref == b.artifact_ref
    && a.subject == b.subject
    && a.content == b.content

-- What a dictionary that is filled in the order of the list has at this key: the last such item.
unfoldable pub get : (EvidenceItem → Ref) → Ref → List EvidenceItem → Option EvidenceItem
get key ref [] = none
get key ref (item ∷ items) = elim (get key ref items) [
  | some later ↦ some later
  | none ↦ if key item == ref then some item else none
]

-- `existing is not None and existing != item`
unfoldable pub conflicts : Option EvidenceItem → EvidenceItem → Bool
unfolding same_item
conflicts none item = false
conflicts (some existing) item = not (same_item existing item)

-- `if existing_id is None and existing_artifact is None: merged.append(item)`
unfoldable pub added : EvidenceItem → List EvidenceItem → List EvidenceItem
unfolding get
added item merged =
    if is_none (get (λ x. x.evidence_id) item.evidence_id merged)
      && is_none (get (λ x. x.artifact_ref) item.artifact_ref merged)
    then merged ++ (item ∷ [])
    else merged

-- `by_id` and `by_artifact` are read off the merged list, since both get an item when the list does.
unfoldable pub merge_evidence :
    (current new_items : List EvidenceItem) → Result EvidenceError (List EvidenceItem)
unfolding get conflicts added
merge_evidence merged [] = ok merged
merge_evidence merged (item ∷ items) = do
  raise_if (conflicts (get (λ x. x.evidence_id) item.evidence_id merged) item) id_conflict
  raise_if (conflicts (get (λ x. x.artifact_ref) item.artifact_ref merged) item) artifact_conflict
  merge_evidence (added item merged) items

-- `dict.fromkeys(ref for ref in refs if ref not in resolved)`: each reference once, in order.
unfoldable pub fresh_refs : (resolved refs : List Ref) → List Ref
fresh_refs resolved [] = []
fresh_refs resolved (ref ∷ refs) =
    let skipped = fresh_refs resolved refs in
    let kept = fresh_refs (ref ∷ resolved) refs in if mem ref resolved then skipped else ref ∷ kept

-- The loop over the artifacts that are not resolved yet; `resolve` is the evidence provider, and none
-- is an answer that is refused by its contract.
unfoldable pub resolve_all :
    (resolve : Ref → Option EvidenceItem)
    → (allowed_subjects artifact_refs : List Ref) → Result EvidenceError (List EvidenceItem)
resolve_all resolve allowed [] = ok []
resolve_all resolve allowed (ref ∷ refs) = elim (resolve ref) [
  | none ↦ err unresolved
  | some item ↦ do
    raise_if (not (item.artifact_ref == ref)) wrong_artifact
    raise_if (not (mem item.subject allowed)) outside_scope
    rest ← resolve_all resolve allowed refs
    ok (item ∷ rest)
]

-- `attached` are the references of all turns in order, and `order` is the subject of the whole order.
unfoldable pub resolve_initial_evidence :
    (resolve : Ref → Option EvidenceItem)
    → (order : Ref) → (existing : List EvidenceItem) → (attached claimed_line_item_ids : List Ref)
    → Result EvidenceError (List EvidenceItem)
unfolding fresh_refs resolve_all merge_evidence
resolve_initial_evidence resolve order existing attached claimed = do
  new_items ←
      resolve_all resolve (order ∷ claimed)
        (fresh_refs (map (λ x. x.artifact_ref) existing) attached)
  merge_evidence existing new_items
