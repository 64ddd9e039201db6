-- ===== src/Policy/Laws/FixedLogic.antt =====
-- A path that its validator accepts has the fixed predicates of its identity.
use shopee_hachathonteam.Prelude.{
  ℕ, ◌≡◌, refl, ap, sym, ◌∙◌, true, List, [], ◌∷◌, map, ◌==◌, same_list→eq, if◌then◌else◌, arith,
}
use shopee_hachathonteam.Policy.{
  SystemPredicate, within_path_window, nondelivery_confirmed, transaction_in_scope,
  single_refundable_item, no_exception_established, receipt_confirmed, purchase_spec_available,
  no_pending_split_delivery, payment_scope_available, PolicyPath, fixed_logic, predicate_rank,
  path_predicates,
}

of_rank : ℕ → SystemPredicate
of_rank n =
    if n == 0
    then transaction_in_scope
    else (if n == 1
        then single_refundable_item
        else (if n == 2
            then no_exception_established
            else (if n == 3
                then within_path_window
                else (if n == 4
                    then receipt_confirmed
                    else (if n == 5
                        then purchase_spec_available
                        else (if n == 6
                            then nondelivery_confirmed
                            else (if n == 7
                                then no_pending_split_delivery
                                else payment_scope_available)))))))

of_rank-rank : (p : SystemPredicate) → of_rank (predicate_rank p) ≡ p
unfolding of_rank
of_rank-rank transaction_in_scope = refl
of_rank-rank single_refundable_item = refl
of_rank-rank no_exception_established = refl
of_rank-rank within_path_window = refl
of_rank-rank receipt_confirmed = refl
of_rank-rank purchase_spec_available = refl
of_rank-rank nondelivery_confirmed = refl
of_rank-rank no_pending_split_delivery = refl
of_rank-rank payment_scope_available = refl

map-of_rank : (ps : List SystemPredicate) → map of_rank (map predicate_rank ps) ≡ ps
map-of_rank [] = refl
map-of_rank (p ∷ ps) = ground (arith, of_rank-rank p, map-of_rank ps)

-- A path that its validator accepts has the fixed predicates of its identity.
pub fixed_logic-predicates :
    (path : PolicyPath)
    → fixed_logic path ≡ true
    → path.system_predicates ≡ path_predicates path.path_id
unfolding fixed_logic
fixed_logic-predicates path h =
    sym (map-of_rank path.system_predicates)
    ∙ ap (map of_rank) (
        same_list→eq (map predicate_rank path.system_predicates)
          (map predicate_rank (path_predicates path.path_id)) (ground arith))
    ∙ map-of_rank (path_predicates path.path_id)
