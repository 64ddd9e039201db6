-- ===== src/Gates/Tests.antt =====
-- The gates on one refund.
use shopee_hachathonteam.Prelude.{◌≡◌, ◌≤◌, ◌<◌, ◌↔◌, refl, some, [], ◌∷◌, Ref}
use shopee_hachathonteam.Gates.Money.{
  decline, full_refund, pass, human_required, not_applicable, ReviewerGateConfig,
  review_gate_fields,
}
use shopee_hachathonteam.Gates.Money.Laws.{
  IsCovered, evaluate_review_gate-consistent, evaluate_review_gate-pass,
}
use shopee_hachathonteam.Gates.Risk.{
  UserRiskConfig, UserRiskSnapshot, scored, risk_score, config_valid,
}
use shopee_hachathonteam.Gates.Risk.Laws.{evaluate_user_risk-consistent, evaluate_user_risk-status}

abbrev pub limits : ReviewerGateConfig
limits = record { version = 1; thresholds = (0, 5000) ∷ (1, 200) ∷ [] }

abbrev pub fingerprint : ReviewerGateConfig → Ref
fingerprint c = c.version

evaluate_review_gate-pass_example :
    (((review_gate_fields fingerprint full_refund 4999 0 limits).status ≡ pass)
      ↔ ((full_refund ≡ full_refund) × IsCovered limits 4999 0))
    × (((review_gate_fields fingerprint full_refund 4999 0 limits).status ≡ not_applicable)
        ↔ (full_refund ≡ decline))
evaluate_review_gate-pass_example =
    evaluate_review_gate-pass fingerprint limits 4999 0 full_refund
      {r = review_gate_fields fingerprint full_refund 4999 0 limits}
      (evaluate_review_gate-consistent fingerprint limits 4999 0 full_refund)

abbrev pub rules : UserRiskConfig
rules = record {
  version = 1;
  low_max_score = 29;
  medium_max_score = 59;
  repeated = record { same_reason_claims_90d_gte = 3; points = 40 };
  rate = record { minimum_orders_90d = 5; numerator = 1; unit = 2; points = 30 };
  new_account = record { account_age_days_lte = 30; same_reason_claims_90d_gte = 2; points = 20 };
}

abbrev pub fingerprint_of : UserRiskConfig → Ref
fingerprint_of c = c.version

abbrev pub calm : UserRiskSnapshot
calm = record {
  snapshot_ref = 1;
  case_ref = 10;
  user_ref = 5;
  reason_code = 3;
  as_of = 2;
  account_age_days = 400;
  orders_90d = 8;
  same_reason_claims_90d = 1;
  refunded_orders_90d = 1;
}

abbrev busy : UserRiskSnapshot
busy = record calm { account_age_days = 10; same_reason_claims_90d = 4; refunded_orders_90d = 5 }

evaluate_user_risk-status_example :
    (((scored fingerprint_of rules busy).status ≡ human_required)
      ↔ (rules.medium_max_score < risk_score rules busy))
    × (((scored fingerprint_of rules busy).status ≡ pass)
        ↔ (risk_score rules busy ≤ rules.medium_max_score))
    × ((scored fingerprint_of rules busy).snapshot_ref ≡ some 1)
unfolding config_valid
evaluate_user_risk-status_example =
    evaluate_user_risk-status fingerprint_of rules busy {r = scored fingerprint_of rules busy} refl
      (evaluate_user_risk-consistent fingerprint_of rules busy)
