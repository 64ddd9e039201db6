-- ===== src/Gates/Money.antt =====
-- review_gates.py. Amounts are in the smallest unit in use, so the order of two decimals is the order
-- of two numbers. The configuration's fingerprint is a digest of its canonical form: a parameter.
pub mod Laws
use shopee_hachathonteam.Prelude.{
  ℕ, ◌≡◌, Bool, true, false, ◌&&◌, Option, none, some, List, [], ◌∷◌, Ref, Result, ok, err, ◌==◌,
  ltb, leb, if◌then◌else◌, is_none,
}

-- enums.py
pub data ResolutionAction : Type 0 where
  decline full_refund : ResolutionAction

pub data GateStatus : Type 0 where
  pass human_required not_applicable : GateStatus

pub data GateReason : Type 0 where
  high_value_item currency_threshold_unconfigured : GateReason

pub record ReviewerGateConfig : Type 0 where
  pub version : Ref
  pub thresholds : List (Ref × ℕ)

pub record ReviewGateResult : Type 0 where
  pub config_version : Ref
  pub config_hash : Ref
  pub status : GateStatus
  pub amount : ℕ
  pub currency : Ref
  pub threshold : Option ℕ
  pub reason : Option GateReason

-- `config.thresholds.get(currency)`
pub threshold_of : Ref → List (Ref × ℕ) → Option ℕ
threshold_of currency [] = none
threshold_of currency ((c, v) ∷ rest) = if c == currency then some v else threshold_of currency rest

-- `amount <= threshold`, false where there is no threshold.
abbrev within : ℕ → Option ℕ → Bool
within amount none = false
within amount (some t) = leb amount t

abbrev above : ℕ → Option ℕ → Bool
above amount none = false
above amount (some t) = ltb t amount

-- `_consistent_result`
unfoldable pub consistent_result : ReviewGateResult → Bool
consistent_result r = by_status r.status r.reason
  where
    by_status : GateStatus → Option GateReason → Bool
    by_status not_applicable reason = is_none reason
    by_status pass reason = is_none reason && within r.amount r.threshold
    by_status human_required (some high_value_item) = above r.amount r.threshold
    by_status human_required (some currency_threshold_unconfigured) = is_none r.threshold
    by_status human_required none = false

-- The `status` and the `reason` that `evaluate_review_gate` chooses.
pub gate_outcome : ResolutionAction → ℕ → Option ℕ → GateStatus × Option GateReason
gate_outcome decline amount threshold = (not_applicable, none)
gate_outcome full_refund amount none = (human_required, some currency_threshold_unconfigured)
gate_outcome full_refund amount (some t) =
    if ltb t amount then (human_required, some high_value_item) else (pass, none)

-- The constructor of a pydantic model: it raises where its validator does.
abbrev pub validated {ℓ} : {A : Type ℓ} → (A → Bool) → A → Result (Unit {0}) A
validated test a = if test a then ok a else err tt

-- The fields that `evaluate_review_gate` computes.
pub review_gate_fields :
    (fingerprint : ReviewerGateConfig → Ref)
    → ResolutionAction
    → (amount : ℕ) → (currency : Ref) → ReviewerGateConfig
    → ReviewGateResult
unfolding threshold_of gate_outcome
review_gate_fields fingerprint action amount currency config =
    let threshold = threshold_of currency config.thresholds in
    let (status, reason) = gate_outcome action amount threshold in
    record {
      config_version = config.version;
      config_hash = fingerprint config;
      status = status;
      amount = amount;
      currency = currency;
      threshold = threshold;
      reason = reason;
    }

pub evaluate_review_gate :
    (fingerprint : ReviewerGateConfig → Ref)
    → ResolutionAction
    → (amount : ℕ) → (currency : Ref) → ReviewerGateConfig
    → Result (Unit {0}) ReviewGateResult
unfolding review_gate_fields consistent_result
evaluate_review_gate fingerprint action amount currency config =
    validated consistent_result (review_gate_fields fingerprint action amount currency config)
