-- ===== src/Policy/Laws/Lookups.antt =====
-- What the look-ups of `_predicate_values` find is of the item or of the path.
use shopee_hachathonteam.Prelude.{
  ◌≡◌, subst, inl, inr, Bool, true, some, List, [], ◌∷◌, Ref, ◌==◌, arith, first_of?, Bool-cases,
}
use shopee_hachathonteam.Policy.{
  PolicyPathId, OrderSnapshot, OrderPolicyFacts, ItemPolicyFacts, OrderLineItem, PathDeadline,
  path_rank,
}
use shopee_hachathonteam.Policy.Predicates.{item_of, details_of, deadline_of}

first_of?-holds :
    {A : Type 0} (p : A → Bool) (xs : List A) (x : A) → first_of? p xs ≡ some x → p x ≡ true
first_of?-holds p [] x h = absurd (ground arith)
first_of?-holds p (y ∷ ys) x h = elim (Bool-cases (p y)) [
  | inl hit ↦ let same : y ≡ x = ground arith in subst (λ z. p z ≡ true) same hit
  | inr miss ↦ first_of?-holds p ys x (ground arith)
]

pub details-of_item :
    (order : OrderSnapshot) (item : Ref) (facts : OrderPolicyFacts) (details : ItemPolicyFacts)
    → order.policy_facts ≡ some facts
    → details_of order item ≡ some details
    → details.line_item_id ≡ item
details-of_item order item facts details has there =
    let holds = first_of?-holds (λ x. x.line_item_id == item) facts.items details (ground arith) in
    ground arith

pub line-of_item :
    (order : OrderSnapshot) (item : Ref) (line : OrderLineItem)
    → item_of order item ≡ some line
    → line.line_item_id ≡ item
line-of_item order item line there =
    let holds = first_of?-holds (λ x. x.line_item_id == item) order.line_items line there in
    ground arith

path_rank-inj : (a b : PolicyPathId) → (path_rank a == path_rank b) ≡ true → a ≡ b
path_rank-inj a b h = ground arith

pub deadline-of_path :
    (details : ItemPolicyFacts) (id : PolicyPathId) (deadline : PathDeadline)
    → deadline_of (some details) id ≡ some deadline
    → deadline.policy_path_id ≡ id
deadline-of_path details id deadline due = path_rank-inj deadline.policy_path_id id (
    first_of?-holds (λ d. path_rank d.policy_path_id == path_rank id) details.deadlines deadline
      due)
