-- ===== src/Policy/Laws/Order.antt =====
-- The verdicts of a whole order: which there are, and the item and the path that each comes from.
use shopee_hachathonteam.Prelude.{
  ◌≡◌, subst, inl, inr, true, List, [], ◌∷◌, ◌++◌, map, Ref, ok, distinct, subset, arith, Any,
  Any-append, map-append, Result-cases,
}
use shopee_hachathonteam.Policy.{
  PolicyPathId, OrderSnapshot, CaseContext, ClaimFinding, PolicyPath, PolicyBundle,
}
use shopee_hachathonteam.Policy.Evaluate.{
  ItemPolicyEvaluation, evaluate_item, evaluate_paths, evaluate_items, evaluate_policy,
}

-- The item and the path of each outcome.
abbrev pub pairs_of : List ItemPolicyEvaluation → List (Ref × PolicyPathId)
pairs_of outcomes = map (λ o. (o.line_item_id, o.path_id)) outcomes

-- Each item with each path, item by item.
abbrev pub pairs : List Ref → List PolicyPath → List (Ref × PolicyPathId)
pairs [] paths = []
pairs (item ∷ items) paths = map (λ p. (item, p.path_id)) paths ++ pairs items paths

module _ (context : CaseContext) (order : OrderSnapshot) (scope : List Ref)
    (findings : List ClaimFinding) (refs : List Ref) where
  pub item_pair :
      (item : Ref) (path : PolicyPath) (o : ItemPolicyEvaluation)
      → evaluate_item context order scope findings refs item path ≡ ok o
      → (o.line_item_id ≡ item) × (o.path_id ≡ path.path_id)
  unfolding evaluate_item
  item_pair item path o h = (ground arith, ground arith)

  paths_pairs :
      (item : Ref) (paths : List PolicyPath) (os : List ItemPolicyEvaluation)
      → evaluate_paths context order scope findings refs item paths ≡ ok os
      → pairs_of os ≡ map (λ p. (item, p.path_id)) paths
  unfolding evaluate_paths
  paths_pairs item [] os h = ground arith
  paths_pairs item (path ∷ paths) os h =
      elim (Result-cases (evaluate_item context order scope findings refs item path)) [
        | inr (e, raised) ↦ absurd (ground arith)
        | inl (o, here) ↦
            elim (Result-cases (evaluate_paths context order scope findings refs item paths)) [
              | inr (e, raised) ↦ absurd (ground arith)
              | inl (rest, later) ↦
                  ground (arith, item_pair item path o here, paths_pairs item paths rest later)
            ]
      ]

  items_pairs :
      (items : List Ref) (paths : List PolicyPath) (os : List ItemPolicyEvaluation)
      → evaluate_items context order scope findings refs items paths ≡ ok os
      → pairs_of os ≡ pairs items paths
  unfolding evaluate_items
  items_pairs [] paths os h = ground arith
  items_pairs (item ∷ items) paths os h =
      elim (Result-cases (evaluate_paths context order scope findings refs item paths)) [
        | inr (e, raised) ↦ absurd (ground arith)
        | inl (here, at) ↦
            elim (Result-cases (evaluate_items context order scope findings refs items paths)) [
              | inr (e, raised) ↦ absurd (ground arith)
              | inl (rest, later) ↦ ground (
                arith,
                paths_pairs item paths here at,
                items_pairs items paths rest later,
                map-append {B = Ref × PolicyPathId}
                    (λ (o : ItemPolicyEvaluation). (o.line_item_id, o.path_id)) here rest,
              )
            ]
      ]

-- The outcomes of an evaluation that is returned are those of its loops.
pub evaluate_policy-items :
    (context : CaseContext) (order : OrderSnapshot) (bundle : PolicyBundle) (scope : List Ref)
    (findings : List ClaimFinding) (refs : List Ref) {os : List ItemPolicyEvaluation}
    → evaluate_policy context order bundle scope findings refs ≡ ok os
    → evaluate_items context order scope findings refs scope bundle.paths ≡ ok os
unfolding evaluate_policy
evaluate_policy-items context order bundle scope findings refs {os} h =
    elim (Result-cases (evaluate_items context order scope findings refs scope bundle.paths)) [
      | inr (e, raised) ↦ absurd (ground arith)
      | inl (outcomes, told) ↦ ground arith
    ]

-- An evaluation that is returned has one outcome for each claimed item on each path of the bundle, in
-- order, the inputs are v2, and the claimed items are distinct items of the order.
pub evaluate_policy-pairs :
    (context : CaseContext) (order : OrderSnapshot) (bundle : PolicyBundle) (scope : List Ref)
    (findings : List ClaimFinding) (refs : List Ref) {os : List ItemPolicyEvaluation}
    → evaluate_policy context order bundle scope findings refs ≡ ok os
    → (pairs_of os ≡ pairs scope bundle.paths)
      × (context.is_v2 ≡ true)
      × (bundle.is_v2 ≡ true)
      × (distinct scope ≡ true)
      × (subset scope (map (λ x. x.line_item_id) order.line_items) ≡ true)
unfolding evaluate_policy
evaluate_policy-pairs context order bundle scope findings refs {os} h = (
  items_pairs context order scope findings refs scope bundle.paths os
      (evaluate_policy-items context order bundle scope findings refs h),
  ground arith,
  ground arith,
  ground arith,
  ground arith,
)

module _ (context : CaseContext) (order : OrderSnapshot) (scope : List Ref)
    (findings : List ClaimFinding) (refs : List Ref) where
  paths_Any :
      (P : ItemPolicyEvaluation → Type 0) (item : Ref) (paths : List PolicyPath)
      (os : List ItemPolicyEvaluation)
      → evaluate_paths context order scope findings refs item paths ≡ ok os
      → Any P os
      → Any
          (λ path.
            (o : ItemPolicyEvaluation) × (evaluate_item context order scope findings refs item path
              ≡ ok o)
            × P o)
          paths
  unfolding evaluate_paths
  paths_Any P item [] [] h a = a
  paths_Any P item [] (o ∷ os) h a = absurd (ground arith)
  paths_Any P item (path ∷ paths) os h a =
      elim (Result-cases (evaluate_item context order scope findings refs item path)) [
        | inr (e, raised) ↦ absurd (ground arith)
        | inl (o, here) ↦
            elim (Result-cases (evaluate_paths context order scope findings refs item paths)) [
              | inr (e, raised) ↦ absurd (ground arith)
              | inl (rest, later) ↦
                  let same : os ≡ o ∷ rest = ground arith in
                  elim (subst (Any P) same a) [
                    | inl p ↦ inl (o, here, p)
                    | inr q ↦ inr (paths_Any P item paths rest later q)
                  ]
            ]
      ]

  pub items_Any :
      (P : ItemPolicyEvaluation → Type 0) (items : List Ref) (paths : List PolicyPath)
      (os : List ItemPolicyEvaluation)
      → evaluate_items context order scope findings refs items paths ≡ ok os
      → Any P os
      → Any
          (λ item.
            Any
              (λ path.
                (o : ItemPolicyEvaluation) × (evaluate_item context order scope findings refs item
                    path
                  ≡ ok o)
                × P o)
              paths)
          items
  unfolding evaluate_items
  items_Any P [] paths [] h a = a
  items_Any P [] paths (o ∷ os) h a = absurd (ground arith)
  items_Any P (item ∷ items) paths os h a =
      elim (Result-cases (evaluate_paths context order scope findings refs item paths)) [
        | inr (e, raised) ↦ absurd (ground arith)
        | inl (here, at) ↦
            elim (Result-cases (evaluate_items context order scope findings refs items paths)) [
              | inr (e, raised) ↦ absurd (ground arith)
              | inl (rest, later) ↦
                  let same : os ≡ here ++ rest = ground arith in
                  elim (Any-append P here rest (subst (Any P) same a)) [
                    | inl left ↦ inl (paths_Any P item paths here at left)
                    | inr right ↦ inr (items_Any P items paths rest later right)
                  ]
            ]
      ]
