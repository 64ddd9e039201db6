-- ===== src/Bridge/Consume.antt =====
-- `AgentBridge.consume_event_once` (apps/api/src/return_agent/agent_bridge.py) on a message that was
-- read: it is projected, or rejected, or left to be delivered again.
use shopee_hachathonteam.Prelude.{
  Bool, true, false, Option, none, some, Ref, Instant, Result, ok, err,
}
use shopee_hachathonteam.Case.{CaseRecord, Tables}
use shopee_hachathonteam.Runtime.{Node}
use shopee_hachathonteam.Bridge.{
  ResolutionHandoff, AgentServiceEvent, UiEvent, Board, ProjectError, gap, invalid, unavailable,
  raised,
}
use shopee_hachathonteam.Bridge.Project.{
  RefundExecution, Outcome, replayed, projected, refund_pending,
}
use shopee_hachathonteam.Bridge.Project.Apply.{begin_projection, complete_refund}
use shopee_hachathonteam.Bridge.Reject.{PoisonMessage, reject}

-- The body of a message: an event that the contract accepts, or the references that
-- `_event_references` finds in a body that it refuses.
pub data Body : Type 0 where
  event : AgentServiceEvent → Body
  malformed : (event_id command_id case_ref : Option Ref) → Body

pub record Message : Type 0 where
  pub message_id : Ref
  pub body : Body

-- The tables after a delivery, whether the message was acknowledged, and what the call returned or
-- raised.
pub record Delivery : Type 0 where
  pub board : Board
  pub acked : Bool
  pub returned : Result ProjectError Bool

-- What other code does: `execute` is the refund execution provider, none where it is missing or
-- raises; `during` is what other transactions do while it runs; `hash` is the digest of an event.
pub record Surroundings : Type 0 where
  pub encode : Instant → Node → UiEvent → Ref
  pub rejected_ref : Ref → Ref
  pub register : Tables → CaseRecord → ResolutionHandoff → Option Tables
  pub hash : AgentServiceEvent → Ref
  pub execute : AgentServiceEvent → Option RefundExecution
  pub during : Board → Board

-- The end of `project` after its first transaction; a transaction that raises leaves no trace.
unfoldable pub finish_projection :
    Surroundings
    → Board
    → AgentServiceEvent
    → Outcome
    → (now : Instant) → Board × Result ProjectError Bool
unfolding complete_refund
finish_projection s b e replayed now = (b, ok false)
finish_projection s b e projected now = (b, ok true)
finish_projection s b e refund_pending now = elim (s.execute e) [
  | none ↦ (s.during b, err unavailable)
  | some r ↦ elim (complete_refund s.encode (s.during b) e r (s.hash e) now) [
    | ok b' ↦ (b', ok true)
    | err x ↦ (s.during b, err x)
  ]
]

unfoldable pub project :
    Surroundings → Board → AgentServiceEvent → (now : Instant) → Board × Result ProjectError Bool
unfolding begin_projection finish_projection
project s b e now = elim (begin_projection s.encode s.register b e (s.hash e) now) [
  | ok r ↦ finish_projection s r.0 e r.1 now
  | err x ↦ (b, err x)
]

-- The rejection of a message, and its acknowledgement.
unfoldable pub reject_message : Surroundings → Board → PoisonMessage → (now : Instant) → Delivery
unfolding reject
reject_message s b m now = elim (reject s.encode s.rejected_ref b m now) [
  | ok b' ↦ record { board = b'; acked = true; returned = ok true }
  | err x ↦ record { board = b; acked = false; returned = err (raised x) }
]

abbrev pub poison_of : Ref → AgentServiceEvent → PoisonMessage
poison_of id e = record {
  source_message_id = id;
  event_id = some e.event_id;
  command_id = some e.command_id;
  case_ref = some e.case_ref;
}

-- After `project` returned or raised.
unfoldable pub by_answer :
    Surroundings
    → Ref
    → AgentServiceEvent
    → (now : Instant) → Board
    → Result ProjectError Bool
    → Delivery
unfolding reject_message
by_answer s id e now b (ok _) = record { board = b; acked = true; returned = ok true }
by_answer s id e now b (err gap) = record { board = b; acked = false; returned = ok false }
by_answer s id e now b (err invalid) = reject_message s b (poison_of id e) now
by_answer s id e now b (err unavailable) = record { board = b; acked = false; returned = ok false }
by_answer s id e now b (err (raised x)) = record {
  board = b;
  acked = false;
  returned = err (raised x);
}

unfoldable pub consume_event_once : Surroundings → Board → Message → (now : Instant) → Delivery
unfolding project by_answer reject_message
consume_event_once s b m now = elim m.body [
  | malformed event_id command_id case_ref ↦
      reject_message s b
        (record {
          source_message_id = m.message_id;
          event_id = event_id;
          command_id = command_id;
          case_ref = case_ref;
        })
        now
  | event e ↦ let r = project s b e now in by_answer s m.message_id e now r.0 r.1
]
