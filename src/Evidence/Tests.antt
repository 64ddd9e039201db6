-- ===== src/Evidence/Tests.antt =====
-- Two photographs of one item, and a report on it.
use shopee_hachathonteam.Prelude.{
  ◌+◌, ◌≡◌, refl, true, Option, none, some, [], ◌∷◌, ok, err, Ref, ◌⊎◌, mem, All, if◌then◌else◌,
  ◌==◌,
}
use shopee_hachathonteam.Evidence.{
  EvidenceItem, merge_evidence, resolve_initial_evidence, id_conflict, get, added, conflicts,
  same_item, fresh_refs, resolve_all,
}
use shopee_hachathonteam.Evidence.Merge.{Has}
use shopee_hachathonteam.Evidence.Resolve.{Covers, resolve_initial_evidence-Covers}

abbrev photo : Ref → EvidenceItem
photo n = record { evidence_id = n; artifact_ref = 100 + n; subject = 7; content = n }

abbrev photo_1 : EvidenceItem
photo_1 = photo 1

abbrev photo_2 : EvidenceItem
photo_2 = photo 2

abbrev retouched_1 : EvidenceItem
retouched_1 = record photo_1 { content = 9 }

merged_twice :
    merge_evidence (photo_1 ∷ []) (photo_2 ∷ photo_1 ∷ photo_2 ∷ []) ≡ ok (photo_1 ∷ photo_2 ∷ [])
unfolding merge_evidence get added conflicts same_item
merged_twice = refl

refuses_retouched : merge_evidence (photo_1 ∷ []) (retouched_1 ∷ []) ≡ err id_conflict
unfolding merge_evidence get added conflicts same_item
refuses_retouched = refl

-- The provider knows the artifact of the second photograph.
abbrev provider : Ref → Option EvidenceItem
provider ref = if ref == 102 then some photo_2 else none

resolved_2 :
    resolve_initial_evidence provider 0 (photo_1 ∷ []) (101 ∷ 102 ∷ 102 ∷ []) (7 ∷ [])
    ≡ ok (photo_1 ∷ photo_2 ∷ [])
unfolding resolve_initial_evidence fresh_refs resolve_all merge_evidence get added conflicts
    same_item
resolved_2 = refl

resolve_initial_evidence-Covers_example :
    ((ref : Ref) → mem ref (101 ∷ 102 ∷ 102 ∷ []) ≡ true → Covers (photo_1 ∷ photo_2 ∷ []) ref)
    × ((x : EvidenceItem) → Has x (photo_1 ∷ []) → Has x (photo_1 ∷ photo_2 ∷ []))
    × All (λ x. Has x (photo_1 ∷ []) ⊎ (mem x.subject (0 ∷ 7 ∷ []) ≡ true)) (photo_1 ∷ photo_2 ∷ [])
resolve_initial_evidence-Covers_example =
    resolve_initial_evidence-Covers provider 0 (photo_1 ∷ []) (101 ∷ 102 ∷ 102 ∷ []) (7 ∷ [])
      resolved_2
