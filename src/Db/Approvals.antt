-- ===== src/Db/Approvals.antt =====
-- src/db/mcp.rs: the approvals that a person gives or refuses. The table is the list of its rows.
pub mod Once
use postblox.Common.{
  ℕ, Bool, true, false, ◌&&◌, Option, none, some, List, [], ◌∷◌, ◌++◌, map, any, ◌==◌,
  if◌then◌else◌,
}
use postblox.Common.Text.{Text}
use postblox.Json.{Value}

pub data ApprovalState : Type 0 where
  pending allowed denied expired : ApprovalState

pub record McpApproval : Type 0 where
  pub id : ℕ
  pub tool : Text
  pub args : Value
  pub summary : Text
  pub state : ApprovalState
  pub decided_at : Option ℕ
  pub decided_by : Option Text
  pub created_at : ℕ

abbrev pub is_pending : ApprovalState → Bool
is_pending pending = true
is_pending _ = false

abbrev pub new_approval : (id now : ℕ) → Text → Value → Text → McpApproval
new_approval id now tool args summary = record {
  id = id;
  tool = tool;
  args = args;
  summary = summary;
  state = pending;
  decided_at = none;
  decided_by = none;
  created_at = now;
}

unfoldable pub create_approval :
    (id now : ℕ) → Text → Value → Text → List McpApproval → List McpApproval
create_approval id now tool args summary rows = rows ++ (new_approval id now tool args summary ∷ [])

unfoldable pub get_approval : ℕ → List McpApproval → Option McpApproval
get_approval id [] = none
get_approval id (a ∷ rows) = let rest = get_approval id rows in if a.id == id then some a else rest

-- `WHERE id = ? AND state = 'pending'`
abbrev pub open_for : ℕ → McpApproval → Bool
open_for id a = a.id == id && is_pending a.state

abbrev pub decided : (id now : ℕ) → ApprovalState → Text → McpApproval → McpApproval
decided id now new_state decided_by a =
    if open_for id a
    then record a { state = new_state; decided_at = some now; decided_by = some decided_by }
    else a

-- Whether a row was changed, and the rows after.
unfoldable pub decide_approval :
    (id now : ℕ) → ApprovalState → Text → List McpApproval → Bool × List McpApproval
decide_approval id now new_state decided_by rows =
    (any (open_for id) rows, map (decided id now new_state decided_by) rows)
