-- ===== src/Gates/Risk/Laws.antt =====
-- The risk gate always returns a consistent result; it stops exactly the scores above the medium
-- limit, and more claims never lower a score.
use shopee_hachathonteam.Prelude.{ℕ, ◌*◌, ◌≤◌, ◌<◌, ◌≡◌, refl, ◌↔◌, true, some, Ref, ok, arith, ap}
use shopee_hachathonteam.Gates.Money.{full_refund, pass, human_required}
use shopee_hachathonteam.Gates.Risk.{
  UserRiskConfig, UserRiskSnapshot, UserRiskGateResult, evaluate_user_risk, scored, consistent,
  risk_score, level_of, config_valid, unavailable_user_risk_gate,
}

module _ (fingerprint : UserRiskConfig → Ref) (config : UserRiskConfig) where
  -- A result without a snapshot carries no points, and the validator accepts it.
  pub unscored-consistent :
      (r : UserRiskGateResult) × (unavailable_user_risk_gate fingerprint config ≡ ok r)
      × (r.status ≡ human_required)
      × (r.score ≡ 0)
  unfolding unavailable_user_risk_gate
  unscored-consistent = (_, refl, refl, refl)

  scored-consistent : (s : UserRiskSnapshot) → consistent (scored fingerprint config s) ≡ true
  unfolding consistent scored
  scored-consistent s = ground arith

  -- For a refund the gate never raises: the validator accepts what it computes, with distinct tags.
  pub evaluate_user_risk-consistent :
      (s : UserRiskSnapshot)
      → evaluate_user_risk fingerprint full_refund s config ≡ ok (scored fingerprint config s)
  unfolding evaluate_user_risk
  evaluate_user_risk-consistent s = ground (arith, scored-consistent s)

  -- With ordered limits the gate sends a refund to a human exactly when the points of the matched
  -- rules pass the medium limit, and passes it in all other cases; the result names the snapshot.
  pub evaluate_user_risk-status :
      (s : UserRiskSnapshot) {r : UserRiskGateResult}
      → config_valid config ≡ true
      → evaluate_user_risk fingerprint full_refund s config ≡ ok r
      → ((r.status ≡ human_required) ↔ (config.medium_max_score < risk_score config s))
        × ((r.status ≡ pass) ↔ (risk_score config s ≤ config.medium_max_score))
        × (r.snapshot_ref ≡ some s.snapshot_ref)
  unfolding scored level_of config_valid
  evaluate_user_risk-status s {r} valid h =
      let e : r ≡ scored fingerprint config s = ground (arith, evaluate_user_risk-consistent s) in
      rw e ((λ a. ground arith, λ a. ground arith), (λ a. ground arith, λ a. ground arith), refl)

-- A snapshot with at least the claims and refunds of another, over the same orders, and a younger or
-- equal account.
pub record Riskier (s t : UserRiskSnapshot) : Type 0 where
  pub same_orders : t.orders_90d ≡ s.orders_90d
  pub more_claims : s.same_reason_claims_90d ≤ t.same_reason_claims_90d
  pub more_refunds : s.refunded_orders_90d ≤ t.refunded_orders_90d
  pub younger : t.account_age_days ≤ s.account_age_days

times-le : (a b k : ℕ) → a ≤ b → a * k ≤ b * k
times-le a b k h = grind arith

-- Whatever the configuration, more claims, more refunds or a younger account never lower the score.
pub risk_score_mono :
    (c : UserRiskConfig) (s t : UserRiskSnapshot) → Riskier s t → risk_score c s ≤ risk_score c t
unfolding risk_score
risk_score_mono c s t r = ground (
  arith,
  times-le s.refunded_orders_90d t.refunded_orders_90d c.rate.unit r.more_refunds,
  ap (λ (n : ℕ). c.rate.numerator * n) r.same_orders,
)
