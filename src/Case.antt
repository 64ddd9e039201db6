-- ===== src/Case.antt =====
-- The case lifecycle and its transcript: `CaseStatus` (apps/contracts/src/return_agent_contracts/
-- ui.py), `ALLOWED_TRANSITIONS` and `CaseStore` (apps/api/src/return_agent/store.py) over the tables
-- `cases` and `case_events` (apps/api/src/return_agent/db/case.py). Fresh identifiers and the clock
-- are arguments of the operations that draw them.
pub mod Transitions
pub mod Transcript
pub mod Tests
use shopee_hachathonteam.Prelude.{
  ℕ, ◌+◌, ◌&&◌, ◌||◌, Bool, true, false, Option, none, some, List, [], ◌∷◌, Ref, Instant, Result,
  ok, ◌>>=◌, ◌>>◌, raise_if, or_raise, ◌==◌, ltb, leb, if◌then◌else◌, any_of, not,
}

pub data CaseStatus : Type 0 where
  observing awaiting_policy_confirmation awaiting_return_confirmation : CaseStatus
  awaiting_return awaiting_return_inspection awaiting_clarification : CaseStatus
  awaiting_evidence awaiting_human_review executing resolved escalated : CaseStatus

-- A string enumeration is compared by its value; each constructor has a number for it.
abbrev pub value : CaseStatus → ℕ
value observing = 0
value awaiting_policy_confirmation = 1
value awaiting_return_confirmation = 2
value awaiting_return = 3
value awaiting_return_inspection = 4
value awaiting_clarification = 5
value awaiting_evidence = 6
value awaiting_human_review = 7
value executing = 8
value resolved = 9
value escalated = 10

abbrev pub same_status : CaseStatus → CaseStatus → Bool
same_status s t = value s == value t

unfoldable pub allowed_transitions : CaseStatus → List CaseStatus
allowed_transitions awaiting_policy_confirmation = observing ∷ escalated ∷ []
allowed_transitions awaiting_return_confirmation = awaiting_return ∷ escalated ∷ []
allowed_transitions awaiting_return = awaiting_return_inspection ∷ escalated ∷ []
allowed_transitions awaiting_return_inspection = executing ∷ escalated ∷ []
allowed_transitions observing =
    awaiting_clarification ∷ awaiting_evidence ∷ awaiting_human_review
    ∷ awaiting_policy_confirmation ∷ awaiting_return_confirmation ∷ awaiting_return ∷ executing
    ∷ escalated ∷ []
allowed_transitions awaiting_clarification = observing ∷ escalated ∷ []
allowed_transitions awaiting_evidence = observing ∷ escalated ∷ []
allowed_transitions awaiting_human_review = observing ∷ executing ∷ escalated ∷ []
allowed_transitions executing = resolved ∷ escalated ∷ []
allowed_transitions resolved = []
allowed_transitions escalated = []

-- `status in ALLOWED_TRANSITIONS[current]`
unfoldable pub is_allowed : CaseStatus → CaseStatus → Bool
unfolding allowed_transitions
is_allowed current status = any_of (same_status status) (allowed_transitions current)

-- `not ALLOWED_TRANSITIONS[status]`
unfoldable pub is_terminal : CaseStatus → Bool
unfolding allowed_transitions
is_terminal status = elim (allowed_transitions status) [ [] ↦ true | _ ∷ _ ↦ false ]

-- `is_v2` is `policy_schema_version == "v2"`; the column's default is "v1".
pub record CaseRecord : Type 0 where
  pub case_ref : Ref
  pub thread_id : Ref
  pub order_ref : Ref
  pub user_ref : Ref
  pub is_v2 : Bool
  pub status : CaseStatus
  pub updated_at : Instant

-- `kind`, with what the store reads of the payload: a buyer's turn, or an event of the Agent of
-- which `is_interrupt` says whether its type is INTERRUPT.
pub record Turn : Type 0 where
  pub message : Ref
  pub turn_ref : Option Ref
  pub attached_artifact_refs : List Ref

pub data Payload : Type 0 where
  user_turn : Turn → Payload
  agent_event : (is_interrupt : Bool) → (body : Ref) → Payload

pub record CaseEventRecord : Type 0 where
  pub case_ref : Ref
  pub seq : ℕ
  pub payload : Payload

pub record Tables : Type 0 where
  pub cases : List CaseRecord
  pub events : List CaseEventRecord

pub data StoreError : Type 0 where
  case_not_found illegal_transition unknown_case integrity_error : StoreError

-- The row of a primary key.
unfoldable pub case_by : Ref → List CaseRecord → Option CaseRecord
case_by ref [] = none
case_by ref (c ∷ cs) = if c.case_ref == ref then some c else case_by ref cs

-- An UPDATE of the row that has the record's key.
unfoldable pub save_case : CaseRecord → List CaseRecord → List CaseRecord
save_case r [] = []
save_case r (c ∷ cs) = if c.case_ref == r.case_ref then r ∷ cs else c ∷ save_case r cs

-- `select(func.max(seq)).where(case_ref == ...)`
unfoldable pub highest_sequence : Ref → List CaseEventRecord → Option ℕ
highest_sequence ref [] = none
highest_sequence ref (e ∷ es) =
    let rest = highest_sequence ref es in
    if e.case_ref == ref
    then elim rest [ none ↦ some e.seq | some n ↦ some (if ltb n e.seq then e.seq else n) ]
    else rest

-- `(highest or 0) + 1`
abbrev pub next_sequence : Option ℕ → ℕ
next_sequence none = 1
next_sequence (some n) = n + 1

unfoldable pub lock_case_and_highest_sequence : Tables → Ref → Result StoreError (Option ℕ)
lock_case_and_highest_sequence t ref = do
  case ← or_raise (case_by ref t.cases) unknown_case
  ok (highest_sequence ref t.events)

unfoldable pub append_event : Tables → Ref → Payload → Result StoreError Tables
unfolding lock_case_and_highest_sequence
append_event t ref payload = do
  highest ← lock_case_and_highest_sequence t ref
  ok (record t {
    events = record { case_ref = ref; seq = next_sequence highest; payload = payload } ∷ t.events;
  })

-- The unique columns `case_ref` and `thread_id`.
abbrev pub collides : CaseRecord → CaseRecord → Bool
collides a b = a.case_ref == b.case_ref || a.thread_id == b.thread_id

-- `create`, with the two identifiers that it draws.
unfoldable pub create :
    Tables
    → (case_ref thread_id order_ref user_ref : Ref) → Instant
    → Turn
    → Result StoreError Tables
unfolding append_event
create t case_ref thread_id order_ref user_ref now turn = do
  let case : CaseRecord = record {
    case_ref = case_ref;
    thread_id = thread_id;
    order_ref = order_ref;
    user_ref = user_ref;
    is_v2 = false;
    status = observing;
    updated_at = now;
  }
  raise_if (any_of (collides case) t.cases) integrity_error
  append_event (record t { cases = case ∷ t.cases }) case_ref (user_turn turn)

unfoldable pub lock : Tables → Ref → Result StoreError CaseRecord
lock t ref = or_raise (case_by ref t.cases) case_not_found

-- `_touch`
unfoldable pub touch : Tables → CaseRecord → Instant → Tables
unfolding save_case
touch t case now = record t { cases = save_case (record case { updated_at = now }) t.cases }

unfoldable pub append_turn : Tables → Ref → Turn → Instant → Result StoreError Tables
unfolding lock append_event is_terminal touch
append_turn t ref turn now = do
  case ← lock t ref
  raise_if (is_terminal case.status) illegal_transition
  t' ← append_event t ref (user_turn turn)
  ok (touch t' case now)

unfoldable pub transition : Tables → Ref → CaseStatus → Instant → Result StoreError Tables
unfolding lock is_allowed touch
transition t ref status now = do
  case ← lock t ref
  raise_if (not (is_allowed case.status status)) illegal_transition
  ok (touch t (record case { status = status }) now)

-- Whether the row is an interrupt event of the case.
abbrev pub is_interrupt_of : Ref → CaseEventRecord → Bool
is_interrupt_of ref e =
    e.case_ref == ref && elim e.payload [ user_turn _ ↦ false | agent_event i _ ↦ i ]

-- The first interrupt in descending order of `seq`: the one with the highest number.
unfoldable pub latest_interrupt : Ref → List CaseEventRecord → Option CaseEventRecord
latest_interrupt ref [] = none
latest_interrupt ref (e ∷ es) =
    let rest = latest_interrupt ref es in
    if is_interrupt_of ref e
    then elim rest [ none ↦ some e | some f ↦ some (if leb f.seq e.seq then e else f) ]
    else rest
