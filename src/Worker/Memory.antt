-- ===== src/Worker/Memory.antt =====
-- `InMemoryCommandJournal` of apps/agent_service/src/return_agent_service/journal.py: a dictionary of
-- states. It is also what the lease-based journal promises a worker while no lease runs out.
pub mod Refines
use shopee_hachathonteam.Prelude.{
  ℕ, Bool, true, false, ◌&&◌, not, Option, none, some, List, [], ◌∷◌, Ref, Result, ok, err, ◌==◌,
  if◌then◌else◌,
}
use shopee_hachathonteam.Worker.Journal.{
  CommandClaim, claimed, busy, terminal, CommandState, running, completed, failed, JournalError,
  not_owned_and_running, is_running,
}

-- `self._states`: a dictionary, as the function that reads it.
abbrev pub States : Type 0
States = Ref → Option CommandState

-- `self._states[id] = state`, or `del self._states[id]`.
abbrev pub put : Ref → Option CommandState → States → States
put id state states = λ i. if i == id then state else states i

unfoldable pub memory_claim : Ref → States → CommandClaim × States
memory_claim id states = elim (states id) [
  | none ↦ (claimed, put id (some running) states)
  | some running ↦ (busy, states)
  | some completed ↦ (terminal, states)
  | some failed ↦ (terminal, states)
]

unfoldable pub memory_abandon : Ref → States → States
memory_abandon id states = elim (states id) [ some running ↦ put id none states | _ ↦ states ]

unfoldable pub memory_finish : CommandState → Ref → States → Result JournalError States
memory_finish state id states = elim (states id) [
  | some running ↦ ok (put id (some state) states)
  | _ ↦ err not_owned_and_running
]
