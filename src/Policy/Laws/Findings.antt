-- ===== src/Policy/Laws/Findings.antt =====
-- What is established, said of the list of findings itself.
use shopee_hachathonteam.Prelude.{
  ◌≡◌, ◌≢◌, sym, ap, ◌∙◌, subst, inl, inr, ◌⊎◌, true, false, Option, some, List, [], ◌∷◌, Ref, ◌==◌,
  ◌&&◌, length, subset, arith, All, Any, Bool-cases,
}
use shopee_hachathonteam.Policy.{
  ClaimId, item_confirmed_undelivered, item_physically_damaged, damage_present_on_arrival,
  wrong_item_received, supported, ClaimFinding, claim_rank,
}
use shopee_hachathonteam.Policy.Evaluate.{finding_for, has_duplicates}
use shopee_hachathonteam.Policy.Laws.Claims.{IsCited, IsRepeated, IsEstablished}

-- A finding supports the claim on the item, and cites evidence of the bundle.
abbrev pub Supports : List Ref → Ref → ClaimId → ClaimFinding → Type 0
Supports refs item claim f =
    (f.claim_id ≡ claim)
    × (f.subject ≡ item)
    × (f.status ≡ supported)
    × ((length f.supporting_evidence_refs == 0) ≡ false)
    × (subset f.supporting_evidence_refs refs ≡ true)

-- A finding is on something else, or repeats what the facts say of the delivery.
abbrev pub Agrees : Option Ref → Ref → ClaimFinding → Type 0
Agrees expected item f =
    (f.claim_id ≢ item_confirmed_undelivered) ⊎ (f.subject ≢ item) ⊎ IsRepeated expected f

-- The claim of the system has no finding on the item that says anything else, and another claim has a
-- finding that supports it.
abbrev pub IsShown : Option Ref → List ClaimFinding → List Ref → Ref → ClaimId → Type 0
IsShown expected findings refs item item_confirmed_undelivered = All (Agrees expected item) findings
IsShown expected findings refs item claim = Any (Supports refs item claim) findings

claim_rank-inj : (a b : ClaimId) → (claim_rank a == claim_rank b) ≡ true → a ≡ b
claim_rank-inj a b h = ground arith

found_member :
    (P : ClaimFinding → Type 0) (claim : ClaimId) (item : Ref) (findings : List ClaimFinding)
    (f : ClaimFinding)
    → finding_for claim item findings ≡ some f
    → ((f.claim_id ≡ claim) → (f.subject ≡ item) → P f)
    → Any P findings
unfolding finding_for
found_member P claim item [] f h p = absurd (ground arith)
found_member P claim item (x ∷ findings) f h p =
    elim (Bool-cases ((claim_rank x.claim_id == claim_rank claim) && (x.subject == item))) [
      | inl hit ↦
          let same : f ≡ x = ground arith in
          inl (
            subst P same (
              p (ap (λ y. y.claim_id) same ∙ claim_rank-inj x.claim_id claim (ground arith))
                (ap (λ y. y.subject) same ∙ ground arith)))
      | inr miss ↦ inr (found_member P claim item findings f (ground arith) p)
    ]

-- Without duplicates, the look-up finds each finding by its claim and its subject.
finds_each :
    (P : ClaimFinding → Type 0) (findings : List ClaimFinding)
    → has_duplicates findings ≡ false
    → ((f : ClaimFinding) → finding_for f.claim_id f.subject findings ≡ some f → P f)
    → All P findings
unfolding has_duplicates finding_for
finds_each P [] h p = tt
finds_each P (x ∷ findings) h p =
    (p x (ground arith), finds_each P findings (ground arith) (λ f found. p f (passes f found)))
  where
    passes :
        (f : ClaimFinding)
        → finding_for f.claim_id f.subject findings ≡ some f
        → finding_for f.claim_id f.subject (x ∷ findings) ≡ some f
    passes f found =
        elim (Bool-cases
          ((claim_rank x.claim_id == claim_rank f.claim_id) && (x.subject == f.subject))) [
            | inr apart ↦ ground arith
            | inl meets ↦
                let of_claim : x.claim_id ≡ f.claim_id =
                  claim_rank-inj x.claim_id f.claim_id (ground arith) in
                let of_item : x.subject ≡ f.subject = ground arith in
                let again : finding_for x.claim_id x.subject findings ≡ some f =
                  ap (λ c. finding_for c x.subject findings) of_claim
                  ∙ ap (λ i. finding_for f.claim_id i findings) of_item
                  ∙ found in
                absurd (ground arith)
          ]

supports :
    (findings : List ClaimFinding) (refs : List Ref) (item : Ref) (claim : ClaimId)
    → IsCited findings refs item supported claim
    → Any (Supports refs item claim) findings
supports findings refs item claim (f, found, status, cited, within) =
    found_member (Supports refs item claim) claim item findings f found
      (λ of_claim of_item. (of_claim, of_item, status, cited, within))

agrees :
    (expected : Option Ref) (findings : List ClaimFinding) (refs : List Ref) (item : Ref)
    (f : ClaimFinding)
    → IsEstablished expected findings refs item item_confirmed_undelivered
    → finding_for f.claim_id f.subject findings ≡ some f
    → Agrees expected item f
agrees expected findings refs item f told found =
    elim (Bool-cases
      ((claim_rank f.claim_id == claim_rank item_confirmed_undelivered) && (f.subject == item))) [
        | inr apart ↦ differs apart (Bool-cases (f.subject == item))
        | inl meets ↦
            let of_claim : f.claim_id ≡ item_confirmed_undelivered =
              claim_rank-inj f.claim_id item_confirmed_undelivered (ground arith) in
            let of_item : f.subject ≡ item = ground arith in
            let here : finding_for item_confirmed_undelivered item findings ≡ some f =
              sym (
                ap (λ c. finding_for c f.subject findings) of_claim
                ∙ ap (λ i. finding_for item_confirmed_undelivered i findings) of_item)
              ∙ found in
            elim told [
              | inl missing ↦ absurd (ground arith)
              | inr (g, there, repeated) ↦
                  let same : g ≡ f = ground arith in
                  inr (inr (subst (IsRepeated expected) same repeated))
            ]
      ]
  where
    differs :
        ((claim_rank f.claim_id == claim_rank item_confirmed_undelivered) && (f.subject == item))
          ≡ false
        → ((f.subject == item) ≡ true) ⊎ ((f.subject == item) ≡ false)
        → Agrees expected item f
    differs apart (inr other) = inr (inl (λ e. ground arith))
    differs apart (inl same) = inl (λ e. ground arith)

pub IsEstablished-IsShown :
    (expected : Option Ref) (findings : List ClaimFinding) (refs : List Ref) (item : Ref)
    → has_duplicates findings ≡ false
    → (claim : ClaimId) → IsEstablished expected findings refs item claim
    → IsShown expected findings refs item claim
IsEstablished-IsShown expected findings refs item unique item_confirmed_undelivered told =
    finds_each (Agrees expected item) findings unique
      (λ f found. agrees expected findings refs item f told found)
IsEstablished-IsShown expected findings refs item unique item_physically_damaged told =
    supports findings refs item item_physically_damaged told
IsEstablished-IsShown expected findings refs item unique damage_present_on_arrival told =
    supports findings refs item damage_present_on_arrival told
IsEstablished-IsShown expected findings refs item unique wrong_item_received told =
    supports findings refs item wrong_item_received told
