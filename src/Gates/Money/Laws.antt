-- ===== src/Gates/Money/Laws.antt =====
-- The monetary gate always returns a consistent result, and passes exactly the amounts within the
-- configured threshold.
use shopee_hachathonteam.Prelude.{
  ℕ, ◌≤◌, ◌≡◌, refl, ◌⊎◌, ◌↔◌, inl, inr, none, some, Ref, ok, arith, Option-cases, ltb,
  if◌then◌else◌,
}
use shopee_hachathonteam.Gates.Money.{
  ResolutionAction, decline, full_refund, pass, human_required, not_applicable, ReviewerGateConfig,
  ReviewGateResult, threshold_of, evaluate_review_gate, review_gate_fields,
}

-- A configured threshold for the currency that the amount does not exceed.
pub record IsCovered (config : ReviewerGateConfig) (amount : ℕ) (currency : Ref) : Type 0 where
  pub limit : ℕ
  pub configured : threshold_of currency config.thresholds ≡ some limit
  pub covered : amount ≤ limit

module _ (fingerprint : ReviewerGateConfig → Ref) (config : ReviewerGateConfig) (amount : ℕ)
    (currency : Ref) where
  gate_status :
      (action : ResolutionAction)
      → ((action ≡ decline)
          × ((review_gate_fields fingerprint action amount currency config).status
              ≡ not_applicable))
        ⊎ ((action ≡ full_refund)
            × (threshold_of currency config.thresholds ≡ none)
            × ((review_gate_fields fingerprint action amount currency config).status
                ≡ human_required))
        ⊎ ((t : ℕ) × (action ≡ full_refund)
            × (threshold_of currency config.thresholds ≡ some t)
            × ((review_gate_fields fingerprint action amount currency config).status
                ≡ (if ltb t amount then human_required else pass)))
  unfolding review_gate_fields
  gate_status decline = inl (refl, refl)
  gate_status full_refund = elim (Option-cases (threshold_of currency config.thresholds)) [
    | inl unset ↦ inr (inl (refl, unset, ground arith))
    | inr (t, set) ↦ inr (inr (t, refl, set, ground arith))
  ]

  -- The gate never raises: its validator accepts the fields that it computes.
  pub evaluate_review_gate-consistent :
      (action : ResolutionAction)
      → evaluate_review_gate fingerprint action amount currency config
        ≡ ok (review_gate_fields fingerprint action amount currency config)
  unfolding evaluate_review_gate
  evaluate_review_gate-consistent decline = refl
  evaluate_review_gate-consistent full_refund =
      elim (Option-cases (threshold_of currency config.thresholds)) [
        | inl unset ↦ ground arith
        | inr (t, set) ↦ ground arith
      ]

  -- The gate passes exactly for a full refund of an amount within the threshold that is configured
  -- for the currency; it is "not applicable" exactly for a decline.
  pub evaluate_review_gate-pass :
      (action : ResolutionAction) {r : ReviewGateResult}
      → evaluate_review_gate fingerprint action amount currency config ≡ ok r
      → ((r.status ≡ pass) ↔ ((action ≡ full_refund) × IsCovered config amount currency))
        × ((r.status ≡ not_applicable) ↔ (action ≡ decline))
  evaluate_review_gate-pass action {r} h = elim (gate_status action) [
    | inl (a, s) ↦ (
      (λ e. absurd (ground (arith, same)), λ c. absurd (ground (arith, same))),
      (λ _. a, λ _. ground (arith, same)),
    )
    | inr (inl (a, t, s)) ↦ (
      (λ e. absurd (ground (arith, same)), λ c. absurd (ground (arith, c.1.configured))),
      (λ e. absurd (ground (arith, same)), λ e. absurd (ground arith)),
    )
    | inr (inr (t, a, e, s)) ↦ (
      (
        λ p. (a, record { limit = t; configured = e; covered = ground (arith, same) }),
        λ c. ground (arith, same, c.1.configured, c.1.covered),
      ),
      (λ p. absurd (ground (arith, same)), λ d. absurd (ground arith)),
    )
  ]
    where
      same : r ≡ review_gate_fields fingerprint action amount currency config
      same = ground (arith, evaluate_review_gate-consistent action)
