-- ===== src/Sync/Reconcile/Unreported.antt =====
-- A mail server that does not report UIDNEXT.
use postblox.Common.{
  ℕ, ◌+◌, ◌≤◌, ◌≡◌, ◌≢◌, refl, ap, ◌∙◌, max, false, ◌||◌, Option, none, ok, inl, inr, Bool-cases,
  Option-cases, arith, ◌==◌, ==_iff, u32_max, saturating_add, unwrap_or, max_option,
}
use postblox.Imap.Client.{Session, Mailbox, FolderSync, window, server_hi, past, fetch_selected}
use postblox.Imap.Client.Windows.{pull-ok}
use postblox.Sync.Reconcile.{advance, next_uid, batch_max}

unreported-window_hi :
    (session : Session) (mailbox : Mailbox) (from_uid : ℕ) (r : FolderSync)
    → mailbox.uid_next ≡ none
    → mailbox.exists ≢ 0
    → fetch_selected session mailbox from_uid ≡ ok r
    → r.window_hi ≡ saturating_add (max from_uid 1) 499
unfolding fetch_selected window
unreported-window_hi session mailbox from_uid r u some_exist h =
    elim (Bool-cases (mailbox.exists == 0)) [
      | inl e ↦ absurd (some_exist ((==_iff mailbox.exists 0).0 e))
      | inr e ↦
          let w = window (max from_uid 1) (server_hi mailbox.uid_next) in
          let (fs, fetched, same) = pull-ok session mailbox w r (rw (asked e) at h) in
          ap (λ (q : FolderSync). q.window_hi) same
          ∙ ap (λ o. (window (max from_uid 1) (server_hi o)).hi) u
    ]
  where
    asked :
        (mailbox.exists == 0) ≡ false
        → (mailbox.exists == 0 || past (max from_uid 1) (server_hi mailbox.uid_next)) ≡ false
    asked e = rw (u, e) refl

advance-window_hi : (last : Option ℕ) (r : FolderSync) → r.window_hi ≤ unwrap_or 0 (advance last r)
unfolding advance
advance-window_hi last r = elim (Option-cases (max_option last (batch_max r.messages))) [
  | inl e ↦ rw e (omega arith)
  | inr (n, e) ↦ rw e (omega arith)
]

-- Where a folder that is not empty is synced from a UID without a UIDNEXT from the server, the next
-- run begins at least 500 UIDs further on, however few messages there were: UIDs between that the
-- server assigns later are never asked for.
pub unreported-skips :
    (session : Session) (mailbox : Mailbox) (from_uid : ℕ) (last : Option ℕ) (r : FolderSync)
    → mailbox.uid_next ≡ none
    → mailbox.exists ≢ 0
    → from_uid + 500 ≤ u32_max
    → fetch_selected session mailbox from_uid ≡ ok r
    → from_uid + 500 ≤ next_uid (advance last r)
unreported-skips session mailbox from_uid last r u some_exist small h =
    let hi = unreported-window_hi session mailbox from_uid r u some_exist h in
    let passed = advance-window_hi last r in omega arith
