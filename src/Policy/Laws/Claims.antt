-- ===== src/Policy/Laws/Claims.antt =====
-- The claims that a path requires, from the cited findings.
use shopee_hachathonteam.Prelude.{
  ◌≡◌, refl, inl, inr, ◌⊎◌, mem, true, false, Option, none, some, List, [], ◌∷◌, Ref, ok, ◌==◌,
  any_of, length, subset, arith, All, Any, Bool-cases, Option-cases, Result-cases,
}
use shopee_hachathonteam.Policy.{
  ClaimId, item_confirmed_undelivered, item_physically_damaged, damage_present_on_arrival,
  wrong_item_received, ClaimStatus, supported, unsupported, contradicted, ClaimFinding,
}
use shopee_hachathonteam.Policy.Evaluate.{
  eligible, ineligible, cites, is_supported, claim_statuses, evidence_claim, system_claim,
  finding_for, is_contradicted, is_unsupported, by_claims, claim_status,
}

-- A claim of the user's evidence has this status: by a finding that cites evidence of the bundle.
abbrev pub IsCited : List ClaimFinding → List Ref → Ref → ClaimStatus → ClaimId → Type 0
IsCited findings refs item status claim =
    (f : ClaimFinding) × (finding_for claim item findings ≡ some f)
    × (f.status ≡ status)
    × ((length f.supporting_evidence_refs == 0) ≡ false)
    × (subset f.supporting_evidence_refs refs ≡ true)

-- What a finding on the claim of the system may say: SUPPORTED, by the reference that the trusted facts
-- expect.
abbrev pub IsRepeated : Option Ref → ClaimFinding → Type 0
IsRepeated expected f =
    (f.status ≡ supported)
    × (ref : Ref) × (expected ≡ some ref)
    × (mem ref f.supporting_evidence_refs ≡ true)

-- A claim is established: that of the system when there is no finding on it or one that repeats the
-- trusted facts, another by a SUPPORTED finding that cites evidence of the bundle.
abbrev pub IsEstablished : Option Ref → List ClaimFinding → List Ref → Ref → ClaimId → Type 0
IsEstablished expected findings refs item item_confirmed_undelivered =
    (finding_for item_confirmed_undelivered item findings ≡ none)
    ⊎ ((f : ClaimFinding) × (finding_for item_confirmed_undelivered item findings ≡ some f)
        × IsRepeated expected f)
IsEstablished expected findings refs item claim = IsCited findings refs item supported claim

cites-IsRepeated :
    (expected : Option Ref) (f : ClaimFinding)
    → f.status ≡ supported
    → cites expected f.supporting_evidence_refs ≡ true
    → IsRepeated expected f
cites-IsRepeated none f is h = absurd (ground arith)
cites-IsRepeated (some ref) f is h = (is, ref, refl, h)

system_claim-IsRepeated :
    (expected : Option Ref) (found : Option ClaimFinding) (status : ClaimStatus)
    → system_claim expected found ≡ ok status
    → (found ≡ none) ⊎ ((f : ClaimFinding) × (found ≡ some f) × IsRepeated expected f)
unfolding system_claim
system_claim-IsRepeated expected none status h = inl refl
system_claim-IsRepeated expected (some f) status h =
    inr (f, refl, cites-IsRepeated expected f (supports f.status (ground arith)) (ground arith))
  where
    supports : (s : ClaimStatus) → is_supported s ≡ true → s ≡ supported
    supports supported e = refl
    supports unsupported e = absurd (ground arith)
    supports contradicted e = absurd (ground arith)

-- A status that decides comes from a cited finding.
evidence_claim-IsCited :
    (findings : List ClaimFinding) (refs : List Ref) (item : Ref) (claim : ClaimId)
    (status : ClaimStatus)
    → evidence_claim refs (finding_for claim item findings) ≡ ok status
    → is_unsupported status ≡ false
    → IsCited findings refs item status claim
unfolding evidence_claim
evidence_claim-IsCited findings refs item claim status h decides =
    elim (Option-cases (finding_for claim item findings)) [
      | inl absent ↦ absurd (ground arith)
      | inr (f, there) ↦ (f, there, ground arith, ground arith, ground arith)
    ]

only_supported :
    (s : ClaimStatus) → is_contradicted s ≡ false → is_unsupported s ≡ false → s ≡ supported
only_supported supported c u = refl
only_supported unsupported c u = absurd (ground arith)
only_supported contradicted c u = absurd (ground arith)

pub claim_statuses-IsEstablished :
    (expected : Option Ref) (refs : List Ref) (findings : List ClaimFinding) (item : Ref)
    (claims : List ClaimId) {statuses : List ClaimStatus}
    → claim_statuses expected refs findings item claims ≡ ok statuses
    → any_of is_contradicted statuses ≡ false
    → any_of is_unsupported statuses ≡ false
    → All (IsEstablished expected findings refs item) claims
unfolding claim_statuses
claim_statuses-IsEstablished expected refs findings item [] h c u = tt
claim_statuses-IsEstablished expected refs findings item (claim ∷ claims) {statuses} h c u =
    elim (Result-cases (claim_status expected refs claim (finding_for claim item findings))) [
      | inr (e, raised) ↦ absurd (ground arith)
      | inl (status, told) ↦
          elim (Result-cases (claim_statuses expected refs findings item claims)) [
            | inr (e, raised) ↦ absurd (ground arith)
            | inl (rest, others) ↦ (
              established claim status told (only_supported status (ground arith) (ground arith)),
              claim_statuses-IsEstablished expected refs findings item claims {statuses = rest}
                  others (ground arith) (ground arith),
            )
          ]
    ]
  where
    cited :
        (claim : ClaimId) (status : ClaimStatus)
        → evidence_claim refs (finding_for claim item findings) ≡ ok status
        → status ≡ supported
        → IsCited findings refs item supported claim
    cited claim status told is =
        evidence_claim-IsCited findings refs item claim supported (ground arith) (ground arith)

    established :
        (claim : ClaimId) (status : ClaimStatus)
        → claim_status expected refs claim (finding_for claim item findings) ≡ ok status
        → status ≡ supported
        → IsEstablished expected findings refs item claim
    established item_confirmed_undelivered status told is =
        system_claim-IsRepeated expected (finding_for item_confirmed_undelivered item findings)
          status told
    established item_physically_damaged status told is =
        cited item_physically_damaged status told is
    established damage_present_on_arrival status told is =
        cited damage_present_on_arrival status told is
    established wrong_item_received status told is = cited wrong_item_received status told is

pub by_claims-eligible :
    (ss : List ClaimStatus)
    → (by_claims ss).0 ≡ eligible
    → (any_of is_contradicted ss ≡ false) × (any_of is_unsupported ss ≡ false)
by_claims-eligible ss h = (ground arith)

system_claim-never :
    (expected : Option Ref) (f : Option ClaimFinding) (status : ClaimStatus)
    → system_claim expected f ≡ ok status
    → is_contradicted status ≡ false
unfolding system_claim
system_claim-never expected none status h = ground arith
system_claim-never expected (some f) status h = ground arith

pub claim_statuses-contradicted :
    (expected : Option Ref) (refs : List Ref) (findings : List ClaimFinding) (item : Ref)
    (claims : List ClaimId) {statuses : List ClaimStatus}
    → claim_statuses expected refs findings item claims ≡ ok statuses
    → any_of is_contradicted statuses ≡ true
    → Any (IsCited findings refs item contradicted) claims
unfolding claim_statuses
claim_statuses-contradicted expected refs findings item [] h c = absurd (ground arith)
claim_statuses-contradicted expected refs findings item (claim ∷ claims) {statuses} h c =
    elim (Result-cases (claim_status expected refs claim (finding_for claim item findings))) [
      | inr (e, raised) ↦ absurd (ground arith)
      | inl (status, told) ↦
          elim (Result-cases (claim_statuses expected refs findings item claims)) [
            | inr (e, raised) ↦ absurd (ground arith)
            | inl (rest, others) ↦ elim (Bool-cases (is_contradicted status)) [
              | inl here ↦ inl (cited claim status told here)
              | inr later ↦ inr (
                  claim_statuses-contradicted expected refs findings item claims {statuses = rest}
                    others (ground arith))
            ]
          ]
    ]
  where
    shown :
        (claim : ClaimId) (status : ClaimStatus)
        → evidence_claim refs (finding_for claim item findings) ≡ ok status
        → is_contradicted status ≡ true
        → IsCited findings refs item contradicted claim
    shown claim contradicted told is =
        evidence_claim-IsCited findings refs item claim contradicted told refl
    shown claim supported told is = absurd (ground arith)
    shown claim unsupported told is = absurd (ground arith)

    cited :
        (claim : ClaimId) (status : ClaimStatus)
        → claim_status expected refs claim (finding_for claim item findings) ≡ ok status
        → is_contradicted status ≡ true
        → IsCited findings refs item contradicted claim
    cited item_confirmed_undelivered status told is = absurd (
        ground (
          arith,
          system_claim-never expected (finding_for item_confirmed_undelivered item findings) status
              told,
        ))
    cited item_physically_damaged status told is = shown item_physically_damaged status told is
    cited damage_present_on_arrival status told is = shown damage_present_on_arrival status told is
    cited wrong_item_received status told is = shown wrong_item_received status told is

pub by_claims-ineligible :
    (ss : List ClaimStatus) → (by_claims ss).0 ≡ ineligible → any_of is_contradicted ss ≡ true
by_claims-ineligible ss h = ground arith
