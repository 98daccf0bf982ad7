-- ===== src/Db/Approvals/Once.antt =====
-- Deciding an approval a second time (src/db/mcp.rs).
use postblox.Common.{
  ℕ, ◌≡◌, refl, ap, false, ◌&&◌, List, [], ◌∷◌, map, any, ◌==◌, Bool-cases, inl, inr, or-eq-false,
}
use postblox.Common.Text.{Text}
use postblox.Db.Approvals.{
  McpApproval, ApprovalState, is_pending, open_for, decided, decide_approval,
}

decided_is_closed :
    (id now : ℕ) (st : ApprovalState) (by_whom : Text) (a : McpApproval)
    → is_pending st ≡ false
    → open_for id (decided id now st by_whom a) ≡ false
decided_is_closed id now st by_whom a h = elim (Bool-cases (open_for id a)) [
  | inl e ↦ rw e (closed a.id st h)
  | inr e ↦ rw e e
]
  where
    closed :
        (i : ℕ) (st : ApprovalState) → is_pending st ≡ false → (i == id && is_pending st) ≡ false
    closed i st h = elim (Bool-cases (i == id)) [ inl e ↦ rw e h | inr e ↦ rw e refl ]

none_open :
    (id now : ℕ) (st : ApprovalState) (by_whom : Text) (rows : List McpApproval)
    → is_pending st ≡ false
    → any (open_for id) (map (decided id now st by_whom) rows) ≡ false
none_open id now st by_whom [] h = refl
none_open id now st by_whom (a ∷ rows) h =
    rw (decided_is_closed id now st by_whom a h) (none_open id now st by_whom rows h)

unchanged :
    (id now : ℕ) (st : ApprovalState) (by_whom : Text) (rows : List McpApproval)
    → any (open_for id) rows ≡ false
    → map (decided id now st by_whom) rows ≡ rows
unchanged id now st by_whom [] h = refl
unchanged id now st by_whom (a ∷ rows) h =
    let (shut, rest) = or-eq-false (open_for id a) _ h in
    rw shut (ap (λ rs. a ∷ rs) (unchanged id now st by_whom rows rest))

-- Once an approval has been moved to a final state, no later decision on it has an effect: it
-- reports that no row was changed, and leaves all rows as they are.
pub decide_approval-once :
    (id now later : ℕ) (st st' : ApprovalState) (by_whom by_whom' : Text) (rows : List McpApproval)
    → is_pending st ≡ false
    → decide_approval id later st' by_whom' (decide_approval id now st by_whom rows).1
      ≡ (false, (decide_approval id now st by_whom rows).1)
unfolding decide_approval
decide_approval-once id now later st st' by_whom by_whom' rows h =
    let none_left = none_open id now st by_whom rows h in
    rw none_left
      (rw (unchanged id later st' by_whom' (map (decided id now st by_whom) rows) none_left) refl)
