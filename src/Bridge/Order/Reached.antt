-- ===== src/Bridge/Order/Reached.antt =====
-- The transactions of the bridge in any order, and the order of the projected events.
use shopee_hachathonteam.Prelude.{
  ◌≡◌, refl, sym, subst, true, Option, List, [], ◌∷◌, Ref, Instant, ok, inl, inr, arith, is_none,
  All, Any, if◌then◌else◌, map, distinct, Bool-cases,
}
use shopee_hachathonteam.Case.{CaseRecord, Tables}
use shopee_hachathonteam.Runtime.{Node}
use shopee_hachathonteam.Bridge.{AgentServiceEvent, ResolutionHandoff, UiEvent, Board, cursor_by}
use shopee_hachathonteam.Bridge.Project.{RefundExecution, Outcome, is_refund_pending}
use shopee_hachathonteam.Bridge.Project.Apply.{begin_projection, complete_refund}
use shopee_hachathonteam.Bridge.Reject.{PoisonMessage, reject}
use shopee_hachathonteam.Bridge.Rows.{entries, last_index}
use shopee_hachathonteam.Bridge.Order.{IsSequential, InOrder, same_rows-InOrder}
use shopee_hachathonteam.Bridge.Order.Steps.{
  reject-Keeps, begin_projection-Keeps, complete_refund-Keeps,
}

-- The tables, and the events whose refund some worker executes.
pub record World : Type 0 where
  pub board : Board
  pub executing : List AgentServiceEvent

-- No event, no cursor; the cases are any.
abbrev pub IsInitial : World → Type 0
IsInitial w = (w.board.processed ≡ []) × (w.board.cursors ≡ []) × (w.executing ≡ [])

module _ (encode : Instant → Node → UiEvent → Ref) (rejected_ref : Ref → Ref)
    (register : Tables → CaseRecord → ResolutionHandoff → Option Tables) where
  -- A committed transaction of the bridge, or one of other code that writes cases and transcripts.
  pub data Step (w : World) : World → Type 0 where
    begins :
        (e : AgentServiceEvent) (hash : Ref) (now : Instant) (o : Outcome) {b : Board}
        → begin_projection encode register w.board e hash now ≡ ok (b, o)
        → Step w (record {
          board = b;
          executing = if is_refund_pending o then e ∷ w.executing else w.executing;
        })
    completes :
        (e : AgentServiceEvent) (r : RefundExecution) (hash : Ref) (now : Instant) {b : Board}
        → Any (λ x. x ≡ e) w.executing
        → complete_refund encode w.board e r hash now ≡ ok b
        → Step w (record w { board = b })
    rejects :
        (m : PoisonMessage) (now : Instant) {b : Board}
        → reject encode rejected_ref w.board m now ≡ ok b
        → Step w (record w { board = b })
    elsewhere : (t : Tables) → Step w (record w { board = record w.board { tables = t } })

  pub data Reach (w : World) : World → Type 0 where
    here : Reach w w
    next : {v u : World} → Reach w v → Step v u → Reach w u

  -- An event whose refund is executed is the first of its command, unless there is a cursor.
  abbrev IsFirst : Board → AgentServiceEvent → Type 0
  IsFirst b e = is_none (cursor_by e.command_id b.cursors) ≡ true → e.event_index ≡ 1

  abbrev IsOrdered : World → Type 0
  IsOrdered w = InOrder w.board × All (IsFirst w.board) w.executing

  All-IsFirst :
      (b b' : Board) (es : List AgentServiceEvent)
      → ((id : Ref)
          → is_none (cursor_by id b'.cursors) ≡ true
          → is_none (cursor_by id b.cursors) ≡ true)
      → All (IsFirst b) es
      → All (IsFirst b') es
  All-IsFirst b b' [] keeps f = tt
  All-IsFirst b b' (e ∷ es) keeps (f, fs) =
      (λ n. f (keeps e.command_id n), All-IsFirst b b' es keeps fs)

  IsFirst-Any :
      (b : Board) (e : AgentServiceEvent) (es : List AgentServiceEvent)
      → Any (λ x. x ≡ e) es
      → All (IsFirst b) es
      → IsFirst b e
  IsFirst-Any b e [] a f = elim a [ ]
  IsFirst-Any b e (x ∷ es) (inl same) (f, fs) = subst (IsFirst b) same f
  IsFirst-Any b e (x ∷ es) (inr later) (f, fs) = IsFirst-Any b e es later fs

  Step-IsOrdered : {w v : World} → Step w v → IsOrdered w → IsOrdered v
  Step-IsOrdered {w} (begins e hash now o {b} h) (i, f) =
      let ((after, keeps), first) =
        begin_projection-Keeps encode rejected_ref register w.board b e hash now o h i in
      let others = All-IsFirst w.board b w.executing keeps f in
      (
        after,
        elim (Bool-cases (is_refund_pending o)) [
          | inl waits ↦ rw waits (first waits, others)
          | inr over ↦ rw over others
        ],
      )
  Step-IsOrdered {w} (completes e r hash now {b} waiting h) (i, f) =
      let (after, keeps) =
        complete_refund-Keeps encode rejected_ref w.board b e r hash now h
          (IsFirst-Any w.board e w.executing waiting f) i in
      (after, All-IsFirst w.board b w.executing keeps f)
  Step-IsOrdered {w} (rejects m now {b} h) (i, f) =
      let (after, keeps) = reject-Keeps encode rejected_ref w.board b m now h i in
      (after, All-IsFirst w.board b w.executing keeps f)
  Step-IsOrdered {w} (elsewhere t) (i, f) =
      (same_rows-InOrder w.board (record w.board { tables = t }) refl refl i, f)

  Reach-IsOrdered : {w v : World} → Reach w v → IsOrdered w → IsOrdered v
  Reach-IsOrdered here o = o
  Reach-IsOrdered (next r st) o = Step-IsOrdered st (Reach-IsOrdered r o)

  -- From empty tables, after any transactions of any workers: the events of a command were projected
  -- in the order 1, 2, 3 and so on without a gap, no event was projected twice, and the cursor of a
  -- command is at its last projected event.
  pub projected_in_order :
      {w v : World}
      → IsInitial w
      → Reach w v
      → IsSequential v.board.processed
        × (distinct (map (λ p. p.event_id) v.board.processed) ≡ true)
        × ((id : Ref) → last_index (cursor_by id v.board.cursors) ≡ entries id v.board.processed)
  projected_in_order {w} {v} (no_events, no_cursors, idle) r =
      let start : InOrder w.board = record {
        sequential = subst IsSequential (sym no_events) tt;
        once = ground arith;
        counted = λ id. unfold cursor_by in ground arith;
      } in
      let waiting : All (IsFirst w.board) w.executing =
        subst (All (IsFirst w.board)) (sym idle) tt in
      let (i, f) = Reach-IsOrdered r (start, waiting) in (i.sequential, i.once, i.counted)
