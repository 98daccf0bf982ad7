-- ===== src/Imap/Client/Progress.antt =====
-- Answers that promise more (src/imap/client.rs).
use postblox.Common.{
  ℕ, ◌+◌, ◌-◌, ◌≤◌, ◌<◌, ◌≡◌, sym, ap, ◌∙◌, max, true, false, ◌||◌, none, some, Result, ok, inl,
  inr, >>=-eq-ok, Option-cases, Bool-cases, arith, ◌==◌, u32_max, saturating_add,
}
use postblox.Common.Text.{Text}
use postblox.Imap.{ImapError}
use postblox.Imap.Client.{
  Session, Mailbox, FolderSync, window, server_hi, fetch_selected, sync_folder, fetch_uid_range,
  past,
}
use postblox.Imap.Client.Windows.{fetch_selected_cases, window_cases, pull-ok}

-- Without UIDNEXT nothing more is promised.
unreported-has_more :
    (session : Session) (mailbox : Mailbox) (from_uid : ℕ) (r : FolderSync)
    → mailbox.uid_next ≡ none
    → fetch_selected session mailbox from_uid ≡ ok r
    → r.has_more ≡ false
unfolding fetch_selected window
unreported-has_more session mailbox from_uid r u h =
    elim (Bool-cases (mailbox.exists == 0 || past (max from_uid 1) (server_hi mailbox.uid_next))) [
      | inl e ↦ sym (cc (rw e at h))
      | inr e ↦
          let (fs, fetched, same) =
            pull-ok session mailbox (window (max from_uid 1) (server_hi mailbox.uid_next)) r
              (rw e at h) in
          ap (λ (q : FolderSync). q.has_more) same
          ∙ ap (λ o. (window (max from_uid 1) (server_hi o)).has_more) u
    ]

reported-has_more :
    (session : Session) (mailbox : Mailbox) (next from_uid : ℕ) (r : FolderSync)
    → mailbox.uid_next ≡ some next
    → next ≤ u32_max
    → fetch_selected session mailbox from_uid ≡ ok r
    → r.has_more ≡ true
    → (from_uid ≤ r.window_hi) × (r.window_hi + 1 < u32_max)
reported-has_more session mailbox next from_uid r u bound h more =
    elim (fetch_selected_cases session mailbox next from_uid r u h) [
      | inl (same, _) ↦ absurd (cc (sym more ∙ ap (λ (q : FolderSync). q.has_more) same))
      | inr (fs, _, same) ↦ elim (window_cases (max from_uid 1) (next - 1)) [
        | inl (_, last) ↦ absurd (cc (sym more ∙ ap (λ (q : FolderSync). q.has_more) same ∙ last))
        | inr (top, _, below) ↦
            let hi : r.window_hi ≡ saturating_add (max from_uid 1) 499 =
              ap (λ (q : FolderSync). q.window_hi) same ∙ top in
            (omega arith, omega arith)
      ]
    ]

-- The connectors whose servers report a UIDNEXT that is a 32-bit number, if any.
unfoldable pub ReportsU32 : Result ImapError Session → Type 0
ReportsU32 connected =
    (session : Session) (folder : Text) (mailbox : Mailbox) (next : ℕ)
    → connected ≡ ok session
    → session.select folder ≡ ok mailbox
    → mailbox.uid_next ≡ some next
    → next ≤ u32_max

pub sync_folder-has_more :
    (connected : Result ImapError Session) (folder : Text) (from_uid : ℕ) (r : FolderSync)
    → ReportsU32 connected
    → sync_folder connected folder from_uid ≡ ok r
    → r.has_more ≡ true
    → (from_uid ≤ r.window_hi) × (r.window_hi + 1 < u32_max)
unfolding sync_folder fetch_uid_range ReportsU32
sync_folder-has_more connected folder from_uid r reports h more =
    let (session, opened, run) = >>=-eq-ok connected _ h in
    let (mailbox, selected, fetched) = >>=-eq-ok (session.select folder) _ run in
    elim (Option-cases mailbox.uid_next) [
      | inl u ↦ absurd (cc (sym more ∙ unreported-has_more session mailbox from_uid r u fetched))
      | inr (next, u) ↦
          reported-has_more session mailbox next from_uid r u
            (reports session folder mailbox next opened selected u) fetched more
    ]
