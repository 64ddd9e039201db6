-- ===== src/Case/Transcript.antt =====
-- The transcript of a case: how entries are numbered, and which interrupt is pending.
use shopee_hachathonteam.Prelude.{
  ℕ, ◌+◌, ◌<◌, ◌≡◌, some, List, [], ◌∷◌, arith, Ref, ok, if◌then◌else◌, ◌==◌, Option-cases, inl,
  inr,
}
use shopee_hachathonteam.Case.{
  CaseEventRecord, Tables, Payload, highest_sequence, next_sequence, append_event, latest_interrupt,
  is_interrupt_of,
}

-- How many entries a case has.
abbrev pub entries : Ref → List CaseEventRecord → ℕ
entries ref [] = 0
entries ref (e ∷ es) = (if e.case_ref == ref then 1 else 0) + entries ref es

-- Each entry has as its number its position in the transcript of its case, from 1, without a gap.
abbrev pub IsNumbered : List CaseEventRecord → Type 0
IsNumbered [] = Unit
IsNumbered (e ∷ es) = (e.seq ≡ entries e.case_ref es + 1) × IsNumbered es

next_sequence-entries :
    (ref : Ref) (es : List CaseEventRecord)
    → IsNumbered es
    → next_sequence (highest_sequence ref es) ≡ entries ref es + 1
unfolding highest_sequence
next_sequence-entries ref [] n = omega arith
next_sequence-entries ref (e ∷ es) n = ground (arith, next_sequence-entries ref es n.1)

-- Appending an entry keeps every transcript numbered 1, 2, 3 and so on.
pub append_event-IsNumbered :
    (t : Tables) (ref : Ref) (payload : Payload) {t' : Tables}
    → append_event t ref payload ≡ ok t'
    → IsNumbered t.events
    → IsNumbered t'.events
unfolding append_event
append_event-IsNumbered t ref payload h n = ground (arith, next_sequence-entries ref t.events n)

latest-lt-next :
    (ref : Ref) (es : List CaseEventRecord) (f : CaseEventRecord)
    → latest_interrupt ref es ≡ some f
    → f.seq < next_sequence (highest_sequence ref es)
unfolding latest_interrupt highest_sequence
latest-lt-next ref [] f h = cc
latest-lt-next ref (e ∷ es) f h = elim (Option-cases (latest_interrupt ref es)) [
  | inl empty ↦ ground arith
  | inr (g, found) ↦ ground (arith, latest-lt-next ref es g found)
]

-- An appended interrupt of the case is the one that is pending; any other entry, of this case or of
-- another, leaves the pending interrupt as it was.
pub latest_interrupt-append :
    (t : Tables) (ref other : Ref) (payload : Payload) {t' : Tables}
    → append_event t ref payload ≡ ok t'
    → latest_interrupt other t'.events ≡ (
        if is_interrupt_of other (record {
          case_ref = ref;
          seq = next_sequence (highest_sequence ref t.events);
          payload = payload;
        })
        then some (record {
          case_ref = ref;
          seq = next_sequence (highest_sequence ref t.events);
          payload = payload;
        })
        else latest_interrupt other t.events)
unfolding append_event latest_interrupt
latest_interrupt-append t ref other payload h =
    elim (Option-cases (latest_interrupt other t.events)) [
      | inl empty ↦ ground arith
      | inr (g, found) ↦ ground (arith, latest-lt-next other t.events g found)
    ]
