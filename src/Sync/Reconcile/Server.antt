-- ===== src/Sync/Reconcile/Server.antt =====
-- The client of src/imap/client.rs as the server of the loop over the windows.
use postblox.Common.{
  ℕ, ◌-◌, ◌≤◌, ◌≡◌, sym, ap, subst, ◌∙◌, max, false, List, Result, ok, inl, inr, >>=-eq-ok, In,
  arith,
}
use postblox.Common.Text.{Text}
use postblox.Imap.{ImapError}
use postblox.Imap.Client.{
  Session, Mailbox, FetchedMessage, FolderSync, fetch_selected, sync_folder, fetch_uid_range,
}
use postblox.Imap.Client.Windows.{Holds, fetch_selected_cases, window_cases}
use postblox.Sync.Reconcile.Drain.{Serves}

module _ (session : Session) (folder : Text) (content : List FetchedMessage)
    (holds : Holds session folder content) where
  selected-covers :
      (from_uid : ℕ) (r : FolderSync) (m : FetchedMessage)
      → fetch_selected session holds.mailbox from_uid ≡ ok r
      → In m content
      → from_uid ≤ m.uid
      → m.uid ≤ r.window_hi
      → In m r.messages
  selected-covers from_uid r m h i above below =
      let (positive, bounded) = holds.valid m i in
      elim (fetch_selected_cases session holds.mailbox holds.next from_uid r holds.reports h) [
        | inl (same, inl empty) ↦ absurd (holds.counts m i empty)
        | inl (same, inr beyond) ↦ absurd (omega arith)
        | inr (fs, fetched, same) ↦
            subst (λ (q : FolderSync). In m q.messages) (sym same)
              (holds.answers (max from_uid 1) _ fs m fetched i (omega arith)
                (subst (λ (q : FolderSync). m.uid ≤ q.window_hi) same below))
      ]

  selected-ends :
      (from_uid : ℕ) (r : FolderSync) (m : FetchedMessage)
      → fetch_selected session holds.mailbox from_uid ≡ ok r
      → r.has_more ≡ false
      → In m content
      → m.uid ≤ r.window_hi
  selected-ends from_uid r m h last i =
      let (positive, bounded) = holds.valid m i in
      elim (fetch_selected_cases session holds.mailbox holds.next from_uid r holds.reports h) [
        | inl (same, _) ↦
            let hi : r.window_hi ≡ holds.next - 1 = ap (λ (q : FolderSync). q.window_hi) same in
            omega arith
        | inr (fs, fetched, same) ↦ elim (window_cases (max from_uid 1) (holds.next - 1)) [
          | inl (top, _) ↦
              let hi : r.window_hi ≡ holds.next - 1 =
                ap (λ (q : FolderSync). q.window_hi) same ∙ top in
              omega arith
          | inr (_, more, _) ↦
              absurd (cc (sym last ∙ ap (λ (q : FolderSync). q.has_more) same ∙ more))
        ]
      ]

  pub fetch_uid_range-selected :
      (from_uid : ℕ) (r : FolderSync)
      → fetch_uid_range session folder from_uid ≡ ok r
      → fetch_selected session holds.mailbox from_uid ≡ ok r
  unfolding fetch_uid_range
  fetch_uid_range-selected from_uid r h =
      let (mailbox, selected, fetched) = >>=-eq-ok (session.select folder) _ h in
      let same : mailbox ≡ holds.mailbox = cc (sym selected ∙ holds.selects) in
      subst (λ (b : Mailbox). fetch_selected session b from_uid ≡ ok r) same fetched

-- The windows of the client cover all that the server holds, whatever the folder's size: a window
-- has every message of its range, and the last window reaches the last message. Each call may open
-- a session of its own, and may fail.
pub sync_folder-Serves :
    (connected : ℕ → Result ImapError Session) (folder : Text) (content : List FetchedMessage)
    → ((call : ℕ) (session : Session) → connected call ≡ ok session → Holds session folder content)
    → Serves content (λ call from_uid. sync_folder (connected call) folder from_uid)
unfolding sync_folder
sync_folder-Serves connected folder content holds = record {
  covers = λ call from_uid r m h i above below.
      let (session, opened, run) = >>=-eq-ok (connected call) _ h in
      selected-covers session folder content (holds call session opened) from_uid r m
        (fetch_uid_range-selected session folder content (holds call session opened) from_uid r run)
        i above below;
  ends = λ call from_uid r m h last i.
      let (session, opened, run) = >>=-eq-ok (connected call) _ h in
      selected-ends session folder content (holds call session opened) from_uid r m
        (fetch_uid_range-selected session folder content (holds call session opened) from_uid r run)
        last i;
}
