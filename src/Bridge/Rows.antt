-- ===== src/Bridge/Rows.antt =====
-- Look-ups in the tables of the bridge after a row is written.
use shopee_hachathonteam.Prelude.{
  ℕ, ◌+◌, ◌≡◌, refl, false, Option, none, some, List, [], ◌∷◌, Ref, map, arith, ◌==◌, mem,
  if◌then◌else◌,
}
use shopee_hachathonteam.Bridge.{Processed, Cursor, processed_by, cursor_by, save_cursor}

pub cursor_by-save_cursor :
    (id : Ref) (r old : Cursor) (cs : List Cursor)
    → cursor_by r.command_id cs ≡ some old
    → cursor_by id (save_cursor r cs) ≡ (if r.command_id == id then some r else cursor_by id cs)
unfolding cursor_by save_cursor
cursor_by-save_cursor id r old [] h = absurd (ground arith)
cursor_by-save_cursor id r old (c ∷ cs) h = ground (arith, cursor_by-save_cursor id r old cs)

pub cursor_by_key :
    (id : Ref) (cs : List Cursor) (c : Cursor) → cursor_by id cs ≡ some c → c.command_id ≡ id
unfolding cursor_by
cursor_by_key id [] c h = absurd (ground arith)
cursor_by_key id (x ∷ cs) c h = ground (arith, cursor_by_key id cs c)

-- An event that is not found has no row.
pub processed_by-none :
    (id : Ref) (ps : List Processed)
    → processed_by id ps ≡ none
    → mem id (map (λ p. p.event_id) ps) ≡ false
unfolding processed_by
processed_by-none id [] h = refl
processed_by-none id (p ∷ ps) h = ground (arith, processed_by-none id ps)

-- How many events of a command are projected.
abbrev pub entries : Ref → List Processed → ℕ
entries id [] = 0
entries id (p ∷ ps) = (if p.command_id == id then 1 else 0) + entries id ps

-- The last index of a command that has no cursor is 0.
abbrev pub last_index : Option Cursor → ℕ
last_index none = 0
last_index (some c) = c.last_event_index
