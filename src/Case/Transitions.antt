-- ===== src/Case/Transitions.antt =====
-- What the status machine promises: terminal cases do not move, a refund is executed before a case
-- is resolved, and a return is inspected before a refund is executed.
use shopee_hachathonteam.Prelude.{
  ◌≡◌, refl, ◌≢◌, ◌⊎◌, inl, inr, Bool, true, some, List, [], ◌∷◌, arith, Ref, Instant, ok, err,
  if◌then◌else◌, ◌==◌, ◌||◌, Option-cases, Bool-cases,
}
use shopee_hachathonteam.Case.{
  CaseStatus, awaiting_return, awaiting_return_inspection, executing, resolved, escalated,
  is_allowed, CaseRecord, Tables, illegal_transition, case_by, save_case, touch, transition,
  append_turn, lock, Turn, value, same_status,
}

-- A case keeps its key in an update, so a later look-up sees the written row.
pub case_by-save_case :
    (ref : Ref) (r : CaseRecord) (cs : List CaseRecord) (old : CaseRecord)
    → case_by r.case_ref cs ≡ some old
    → case_by ref (save_case r cs) ≡ (if r.case_ref == ref then some r else case_by ref cs)
unfolding case_by save_case
case_by-save_case ref r [] old e = cc
case_by-save_case ref r (c ∷ cs) old e = ground (arith, case_by-save_case ref r cs old)

pub case_by_key :
    (ref : Ref) (cs : List CaseRecord) (c : CaseRecord) → case_by ref cs ≡ some c → c.case_ref ≡ ref
unfolding case_by
case_by_key ref [] c e = cc
case_by_key ref (x ∷ cs) c e = ground (arith, case_by_key ref cs c)

-- What a transition that was accepted has done: the case was stored, its status had an edge to the
-- target, the case now has the target status, every other row is as it was, and no event is written.
pub transition_moves :
    (t : Tables) (ref other : Ref) (target : CaseStatus) (now : Instant) {t' : Tables}
    → transition t ref target now ≡ ok t'
    → (c : CaseRecord) × (case_by ref t.cases ≡ some c)
      × (is_allowed c.status target ≡ true)
      × (case_by other t'.cases ≡ (
          if ref == other
          then some (record c { status = target; updated_at = now })
          else case_by other t.cases))
      × (t'.events ≡ t.events)
unfolding transition lock touch
transition_moves t ref other target now {t'} h = elim (Option-cases (case_by ref t.cases)) [
  | inl missing ↦ absurd (ground arith)
  | inr (c, e) ↦ (
    c,
    e,
    ground arith,
    ground (
      arith,
      case_by_key ref t.cases c e,
      case_by-save_case other (record c { status = target; updated_at = now }) t.cases c,
    ),
    ground arith,
  )
]

-- A transition along an edge does not raise.
pub transition_total :
    (t : Tables) (ref : Ref) (target : CaseStatus) (now : Instant) (c : CaseRecord)
    → case_by ref t.cases ≡ some c
    → is_allowed c.status target ≡ true
    → (t' : Tables) × (transition t ref target now ≡ ok t')
      × (case_by ref t'.cases ≡ some (record c { status = target; updated_at = now }))
unfolding transition lock touch
transition_total t ref target now c e allowed = (
  record t { cases = save_case (record c { status = target; updated_at = now }) t.cases },
  ground arith,
  ground (
    arith,
    case_by_key ref t.cases c e,
    case_by-save_case ref (record c { status = target; updated_at = now }) t.cases c,
  ),
)

-- A resolved or an escalated case is final: no transition and no buyer's turn is accepted.
pub terminal_is_final :
    (t : Tables) (ref : Ref) (target : CaseStatus) (turn : Turn) (now : Instant) {c : CaseRecord}
    → case_by ref t.cases ≡ some c
    → (c.status ≡ resolved) ⊎ (c.status ≡ escalated)
    → (transition t ref target now ≡ err illegal_transition)
      × (append_turn t ref turn now ≡ err illegal_transition)
unfolding transition append_turn is_allowed
terminal_is_final t ref target turn now e final = (ground arith, ground arith)

-- A chain of allowed transitions, oldest first, from one status to another.
pub data Chain : CaseStatus → CaseStatus → Type 0 where
  here : (s : CaseStatus) → Chain s s
  step : {s u : CaseStatus} (t : CaseStatus) → is_allowed s t ≡ true → Chain t u → Chain s u

-- Whether the chain has a status, its first one included.
abbrev pub visits : CaseStatus → {s u : CaseStatus} → Chain s u → Bool
visits v (here s) = value v == value s
visits v (step {s} t e rest) = value v == value s || visits v rest

no_edge_into_resolved : (s : CaseStatus) → is_allowed s resolved ≡ true → s ≡ executing
unfolding is_allowed
no_edge_into_resolved s h = ground arith

visits_first : (v : CaseStatus) {s u : CaseStatus} (c : Chain s u) → s ≡ v → visits v c ≡ true
visits_first v (here s) e = ground arith
visits_first v (step t p rest) e = ground arith

-- A case that reaches RESOLVED from any other status has passed through EXECUTING.
pub resolved-executing :
    {s u : CaseStatus} (c : Chain s u) → u ≡ resolved → s ≢ resolved → visits executing c ≡ true
resolved-executing (here s) e ne = absurd (ne e)
resolved-executing (step {s} t p rest) e ne = elim (Bool-cases (same_status t resolved)) [
  | inl last ↦ ground (arith, no_edge_into_resolved s)
  | inr more ↦ ground (arith, resolved-executing rest e (λ q. ground arith))
]

escalated_stays : {s u : CaseStatus} (c : Chain s u) → s ≡ escalated → u ≡ escalated
unfolding is_allowed
escalated_stays (here s) e = e
escalated_stays (step {s} t p rest) e = absurd (ground arith)

next_of_awaiting_return :
    (t : CaseStatus)
    → is_allowed awaiting_return t ≡ true
    → (t ≡ awaiting_return_inspection) ⊎ (t ≡ escalated)
unfolding is_allowed
next_of_awaiting_return t h = ground arith

-- Once a case waits for goods, the refund is executed only after the inspection was awaited.
pub executing-inspection :
    {u : CaseStatus} (c : Chain awaiting_return u)
    → u ≡ executing
    → visits awaiting_return_inspection c ≡ true
executing-inspection c e = from c refl e
  where
    from :
        {s u : CaseStatus} (c : Chain s u)
        → s ≡ awaiting_return
        → u ≡ executing
        → visits awaiting_return_inspection c ≡ true
    from (here s) p q = absurd (ground arith)
    from (step {s} t edge rest) p q = elim (next_of_awaiting_return t (ground arith)) [
      | inl inspect ↦ ground (arith, visits_first awaiting_return_inspection rest inspect)
      | inr dead ↦ absurd (ground (arith, escalated_stays rest dead))
    ]
