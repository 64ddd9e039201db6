-- ===== src/Gates/Risk.antt =====
-- user_risk.py. A refund rate, a decimal between 0 and 1, is a fraction `numerator / unit`; products
-- are exact. The configuration's fingerprint is a digest of its canonical form: a parameter.
pub mod Laws
use shopee_hachathonteam.Prelude.{
  ℕ, ◌+◌, ◌*◌, ◌≡◌, Bool, true, false, ◌&&◌, ◌||◌, not, Option, none, some, List, [], ◌∷◌, map, Ref,
  Instant, Result, ok, err, ◌==◌, ltb, leb, if◌then◌else◌, is_none, any_of, distinct, same_list,
}
use shopee_hachathonteam.Gates.Money.{
  ResolutionAction, decline, full_refund, GateStatus, pass, human_required, not_applicable,
  validated,
}

pub data RiskTag : Type 0 where
  repeated_same_reason_claims high_refund_rate new_account_repeated_claims : RiskTag

-- The string that stands for a tag, `tag.value`.
pub tag_value : RiskTag → Ref
tag_value repeated_same_reason_claims = 0
tag_value high_refund_rate = 1
tag_value new_account_repeated_claims = 2

pub data UserRiskLevel : Type 0 where
  low medium high unknown : UserRiskLevel

pub data RiskReason : Type 0 where
  high_user_risk user_risk_unavailable : RiskReason

pub record RepeatedClaimsRule : Type 0 where
  pub same_reason_claims_90d_gte : ℕ
  pub points : ℕ

pub record RefundRateRule : Type 0 where
  pub minimum_orders_90d : ℕ
  pub numerator : ℕ
  pub unit : ℕ
  pub points : ℕ

pub record NewAccountRule : Type 0 where
  pub account_age_days_lte : ℕ
  pub same_reason_claims_90d_gte : ℕ
  pub points : ℕ

pub record UserRiskConfig : Type 0 where
  pub version : Ref
  pub low_max_score : ℕ
  pub medium_max_score : ℕ
  pub repeated : RepeatedClaimsRule
  pub rate : RefundRateRule
  pub new_account : NewAccountRule

-- The validators of the rules and of the configuration: `_ratio`, `_thresholds`, and the counts that
-- are at least one.
unfoldable pub config_valid : UserRiskConfig → Bool
config_valid c =
    ltb c.low_max_score c.medium_max_score
    && leb c.rate.numerator c.rate.unit
    && leb 1 c.repeated.same_reason_claims_90d_gte
    && leb 1 c.rate.minimum_orders_90d
    && leb 1 c.new_account.same_reason_claims_90d_gte

pub record UserRiskSnapshot : Type 0 where
  pub snapshot_ref : Ref
  pub case_ref : Ref
  pub user_ref : Ref
  pub reason_code : Ref
  pub as_of : Instant
  pub account_age_days : ℕ
  pub orders_90d : ℕ
  pub same_reason_claims_90d : ℕ
  pub refunded_orders_90d : ℕ

-- `_counts`
pub snapshot_valid : UserRiskSnapshot → Bool
snapshot_valid s = leb s.refunded_orders_90d s.orders_90d

pub record UserRiskGateResult : Type 0 where
  pub config_version : Ref
  pub config_hash : Ref
  pub status : GateStatus
  pub risk_level : UserRiskLevel
  pub score : ℕ
  pub tags : List RiskTag
  pub matched_rules : List Ref
  pub reason : Option RiskReason
  pub snapshot_ref : Option Ref

abbrev is_unknown : UserRiskLevel → Bool
is_unknown unknown = true
is_unknown _ = false

abbrev is_high : UserRiskLevel → Bool
is_high high = true
is_high _ = false

abbrev is_low_or_medium : UserRiskLevel → Bool
is_low_or_medium low = true
is_low_or_medium medium = true
is_low_or_medium _ = false

abbrev is_empty {ℓ} : {A : Type ℓ} → List A → Bool
is_empty [] = true
is_empty (x ∷ xs) = false

-- The part of `_consistent` that depends on the status.
unfoldable pub consistent_status : GateStatus → Option RiskReason → UserRiskGateResult → Bool
consistent_status pass reason r =
    is_low_or_medium r.risk_level && is_none reason && not (is_none r.snapshot_ref)
consistent_status not_applicable reason r =
    is_none reason
    && is_none r.snapshot_ref
    && is_unknown r.risk_level
    && (r.score == 0)
    && is_empty r.tags
consistent_status human_required (some high_user_risk) r =
    is_high r.risk_level && not (is_none r.snapshot_ref)
consistent_status human_required (some user_risk_unavailable) r =
    is_unknown r.risk_level && (r.score == 0) && is_empty r.tags
consistent_status human_required none r = false

-- `_consistent`
unfoldable pub consistent : UserRiskGateResult → Bool
unfolding consistent_status tag_value
consistent r =
    distinct (map tag_value r.tags)
    && same_list r.matched_rules (map tag_value r.tags)
    && consistent_status r.status r.reason r

-- `matches`: each rule with whether it matched and its points.
pub matches : UserRiskConfig → UserRiskSnapshot → List (RiskTag × Bool × ℕ)
matches c s =
    (
      repeated_same_reason_claims,
      leb c.repeated.same_reason_claims_90d_gte s.same_reason_claims_90d,
      c.repeated.points,
    )
    ∷ (
      high_refund_rate,
      leb c.rate.minimum_orders_90d s.orders_90d
          && leb (c.rate.numerator * s.orders_90d) (s.refunded_orders_90d * c.rate.unit),
      c.rate.points,
    )
    ∷ (
      new_account_repeated_claims,
      leb s.account_age_days c.new_account.account_age_days_lte
          && leb c.new_account.same_reason_claims_90d_gte s.same_reason_claims_90d,
      c.new_account.points,
    )
    ∷ []

-- `[tag for tag, matched, _ in matches if matched]`
pub matched_tags : List (RiskTag × Bool × ℕ) → List RiskTag
matched_tags [] = []
matched_tags ((tag, matched, _) ∷ rest) =
    let tags = matched_tags rest in if matched then tag ∷ tags else tags

-- `sum(points for _, matched, points in matches if matched)`
pub matched_points : List (RiskTag × Bool × ℕ) → ℕ
matched_points [] = 0
matched_points ((_, matched, points) ∷ rest) = (if matched then points else 0) + matched_points rest

pub risk_score : UserRiskConfig → UserRiskSnapshot → ℕ
unfolding matches matched_points
risk_score c s = matched_points (matches c s)

pub level_of : UserRiskConfig → ℕ → UserRiskLevel
level_of c score =
    if leb score c.low_max_score then low else if leb score c.medium_max_score then medium else high

module _ (fingerprint : UserRiskConfig → Ref) where
  -- The fields that all results without a score share.
  unscored : GateStatus → Option RiskReason → UserRiskConfig → UserRiskGateResult
  unscored status reason config = record {
    config_version = config.version;
    config_hash = fingerprint config;
    status = status;
    risk_level = unknown;
    score = 0;
    tags = [];
    matched_rules = [];
    reason = reason;
    snapshot_ref = none;
  }

  pub unavailable_user_risk_gate : UserRiskConfig → Result (Unit {0}) UserRiskGateResult
  unfolding unscored consistent
  unavailable_user_risk_gate config =
      validated consistent (unscored human_required (some user_risk_unavailable) config)

  pub not_applicable_user_risk_gate : UserRiskConfig → Result (Unit {0}) UserRiskGateResult
  unfolding unscored consistent
  not_applicable_user_risk_gate config = validated consistent (unscored not_applicable none config)

  pub scored : UserRiskConfig → UserRiskSnapshot → UserRiskGateResult
  unfolding matches matched_tags risk_score level_of tag_value
  scored config s =
      let score = risk_score config s in
      let tags = matched_tags (matches config s) in
      let level = level_of config score in
      record {
        config_version = config.version;
        config_hash = fingerprint config;
        status = if is_high level then human_required else pass;
        risk_level = level;
        score = score;
        tags = tags;
        matched_rules = map tag_value tags;
        reason = if is_high level then some high_user_risk else none;
        snapshot_ref = some s.snapshot_ref;
      }

  pub evaluate_user_risk :
      ResolutionAction → UserRiskSnapshot → UserRiskConfig → Result (Unit {0}) UserRiskGateResult
  unfolding not_applicable_user_risk_gate scored consistent
  evaluate_user_risk decline s config = not_applicable_user_risk_gate config
  evaluate_user_risk full_refund s config = validated consistent (scored config s)
