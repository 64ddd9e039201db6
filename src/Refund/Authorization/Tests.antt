-- ===== src/Refund/Authorization/Tests.antt =====
-- The refund that a human approved.
use shopee_hachathonteam.Prelude.{◌≡◌, true, false, none, some, [], ◌∷◌, ok, same_refl, arith}
use shopee_hachathonteam.HumanReview.Messages.{
  from_judgment, handoff_equality, gate_equality, risk_gate_equality,
}
use shopee_hachathonteam.HumanReview.Provider.{validate_persisted_dossier_snapshot}
use shopee_hachathonteam.HumanReview.Tests.{
  handoff_70, objection, dossier_70, around, decided_70, entered,
}
use shopee_hachathonteam.Refund.Authorization.{
  by_agent, by_human_approve, RefundDecision, refund, ResolutionHandoff, PersistedAuthorization,
  final_equality, stored_review_equality,
}
use shopee_hachathonteam.Refund.Authorization.Rules.{
  matches_original_proposal, matches_decision, matches_human_authorization, human_rejection,
  source_rejection, is_declined, authorization_rejection,
}
use shopee_hachathonteam.Refund.Authorization.Sound.Sources.{
  Authorized, authorization_rejection-Authorized,
}

abbrev proposed : RefundDecision
proposed = record {
  refund_scope = 7 ∷ [];
  amount = 300;
  currency = 0;
  return_decision = by_agent (from_judgment (91 ∷ []) (record { required = false; details = 0 }));
  reason_code = 3;
}

abbrev pub resolution : ResolutionHandoff
resolution = record {
  case_ref = 10;
  handoff_id = 70;
  outcome_source = by_human_approve;
  execution_blocked = false;
  final_decision = refund proposed;
  review_result = objection;
  review_gate = none;
  user_risk_gate = none;
}

abbrev pub persisted : PersistedAuthorization
persisted = record { handoff = handoff_70; is_pass = true; human_record = some decided_70 }

matched : matches_human_authorization around resolution persisted ≡ ok true
unfolding matches_human_authorization validate_persisted_dossier_snapshot matches_decision
matched = ground (
  arith,
  entered,
  same_refl handoff_70,
  same_refl (some objection),
  same_refl dossier_70.review_gate,
  same_refl dossier_70.user_risk_gate,
)

pub accepted : authorization_rejection around resolution (some persisted) ≡ ok none
unfolding authorization_rejection source_rejection human_rejection matches_original_proposal
accepted = ground (arith, matched, same_refl resolution.final_decision)

authorization_rejection-Authorized_example :
    (a : PersistedAuthorization) × (some persisted ≡ some a)
    × (false ≡ false)
    × (is_declined resolution.final_decision ≡ false)
    × (10 ≡ a.handoff.case_ref)
    × (a.is_pass ≡ true)
    × Authorized around resolution a
authorization_rejection-Authorized_example =
    authorization_rejection-Authorized around resolution (some persisted) accepted
