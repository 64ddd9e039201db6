-- ===== src/Case/Tests.antt =====
-- The case lifecycle on one case.
use shopee_hachathonteam.Prelude.{◌≡◌, refl, inl, true, none, [], ◌∷◌, ok, err}
use shopee_hachathonteam.Case.{
  observing, awaiting_return, awaiting_return_inspection, executing, resolved, is_allowed,
  allowed_transitions, CaseRecord, Turn, user_turn, agent_event, CaseEventRecord, Tables,
  illegal_transition, case_by, save_case, lock, touch, transition, append_turn, append_event,
  lock_case_and_highest_sequence, highest_sequence,
}
use shopee_hachathonteam.Case.Transitions.{terminal_is_final, Chain, here, step}
use shopee_hachathonteam.Case.Transcript.{IsNumbered, append_event-IsNumbered}

abbrev case_1 : CaseRecord
case_1 = record {
  case_ref = 1;
  thread_id = 11;
  order_ref = 50;
  user_ref = 5;
  is_v2 = true;
  status = executing;
  updated_at = 3;
}

abbrev closed : CaseRecord
closed = record case_1 { status = resolved; updated_at = 4 }

abbrev turn : Turn
turn = record { message = 20; turn_ref = none; attached_artifact_refs = [] }

abbrev opening : CaseEventRecord
opening = record { case_ref = 1; seq = 1; payload = user_turn turn }

abbrev question : CaseEventRecord
question = record { case_ref = 1; seq = 2; payload = agent_event true 6 }

abbrev tables : Tables
tables = record { cases = case_1 ∷ []; events = opening ∷ [] }

moved : transition tables 1 resolved 4 ≡ ok (record tables { cases = closed ∷ [] })
unfolding transition lock case_by is_allowed allowed_transitions touch save_case
moved = refl

terminal_is_final_example :
    (transition (record tables { cases = closed ∷ [] }) 1 observing 5 ≡ err illegal_transition)
    × (append_turn (record tables { cases = closed ∷ [] }) 1 turn 5 ≡ err illegal_transition)
unfolding case_by
terminal_is_final_example =
    terminal_is_final (record tables { cases = closed ∷ [] }) 1 observing turn 5 {c = closed} refl
      (inl refl)

abbrev returned : Chain awaiting_return executing
unfolding is_allowed allowed_transitions
returned = step awaiting_return_inspection refl (step executing refl (here executing))

abbrev settled : Chain awaiting_return resolved
unfolding is_allowed allowed_transitions
settled =
    step awaiting_return_inspection refl (step executing refl (step resolved refl (here resolved)))

appended :
    append_event tables 1 (agent_event true 6)
    ≡ ok (record tables { events = question ∷ opening ∷ [] })
unfolding append_event lock_case_and_highest_sequence highest_sequence case_by
appended = refl

append_event-IsNumbered_example : IsNumbered (question ∷ opening ∷ [])
append_event-IsNumbered_example =
    append_event-IsNumbered tables 1 (agent_event true 6)
      {t' = record tables { events = question ∷ opening ∷ [] }} appended (refl, tt)
