-- ===== src/Sync/Tests/Runs.antt =====
-- The theorems on synchronisation, applied to the small mailbox.
use postblox.Common.{
  ◌↔◌, Result, ℕ, ◌≤◌, ◌≡◌, ◌≢◌, refl, ap, sym, ◌∙◌, subst, false, none, some, [], ◌∷◌, ok, err, In,
  inl, inr, here, arith, u32_max,
}
use postblox.Common.Text.{codes}
use postblox.Mail.Threading.{
  ThreadRef, prefix_len, strip_prefixes, find_by_id, find_by_ids, latest, normalize_subject,
  find_by_subject, assign_thread,
}
use postblox.Imap.Client.{
  Mailbox, Session, FolderSync, flag_name, window, keep_fetch, keep_fetches, fetch_selected,
  fetch_uid_range, sync_folder,
}
use postblox.Imap.Client.Windows.{Holds, fetch_selected_cases}
use postblox.Imap.Client.Progress.{ReportsU32}
use postblox.Db.{Store}
use postblox.Db.Messages
use postblox.Db.Threads
use postblox.Sync.Errors.{SyncError}
use postblox.Mail.Threading.Assignment.{Linked}
use postblox.Sync.Ingest.{
  Progress, thread_for, persist_or_rollback, announce, build_message_row, store_message,
  store_parsed, ingest, ingest_all, ingest_window,
}
use postblox.Sync.Ingest.Again.{ingest_window-again}
use postblox.Sync.Ingest.Arrival.{Present}
use postblox.Sync.Reconcile.{advance, reconcile_folder, next_uid}
use postblox.Sync.Reconcile.Drain.{Serves}
use postblox.Sync.Reconcile.Outcome.{reconcile_folder-keeps_others, reconcile_folder-keeps_all}
use postblox.Sync.Reconcile.Complete.{reconcile_folder_complete}
use postblox.Sync.Reconcile.Server.{sync_folder-Serves}
use postblox.Sync.Reconcile.Terminates.{reconcile_folder-terminates}
use postblox.Sync.Reconcile.Unreported.{unreported-skips}
use postblox.Sync.Ingest.Clash.{Taken, thread_refused, store_message-clash_iff}
use postblox.Sync.Tests.{
  inbox, folder, email, elsewhere, store, mailbox, fetched, session, connected, content, env,
  credential, unicode, outcome, report_of, outcome_succeeds, folder_found, session-Holds,
}

every_session-Holds : (call : ℕ) (s : Session) → connected ≡ ok s → Holds s inbox content
every_session-Holds call s e =
    let k : session ≡ s = cc e in subst (λ (s : Session). Holds s inbox content) k session-Holds

reconcile_folder_complete_example : Present 2 1 outcome.1
reconcile_folder_complete_example =
    reconcile_folder_complete env 3 1 inbox credential store outcome.1 folder content
      (report_of outcome.0) (omega arith, tt) folder_found
      (λ host port username.
        sync_folder-Serves (λ call. ok session) inbox content every_session-Holds)
      (λ m i readable small. absurd (omega (arith, (session-Holds.valid m i).0))) outcome_succeeds
      (fetched 1) (here refl) (omega arith) (record { body = refl; email = email; parses = refl })

sync_folder-Serves_example :
    Serves content (λ call from_uid. sync_folder (ok session) inbox from_uid)
sync_folder-Serves_example =
    sync_folder-Serves (λ call. ok session) inbox content every_session-Holds

reconcile_folder-keeps_others_example : In elsewhere outcome.1.messages
reconcile_folder-keeps_others_example =
    reconcile_folder-keeps_others env 3 1 inbox credential store folder elsewhere (omega arith, tt)
      folder_found (here refl) (λ e. omega (arith, e))

selected_mailbox :
    (from_uid : ℕ) (server : FolderSync)
    → sync_folder (ok session) inbox from_uid ≡ ok server
    → server.uid_validity ≡ some 7
unfolding sync_folder fetch_uid_range
selected_mailbox from_uid server h =
    elim (fetch_selected_cases session mailbox 3 from_uid server refl h) [
      | inl (same, _) ↦ ap (λ (r : FolderSync). r.uid_validity) same
      | inr (_, _, same) ↦ ap (λ (r : FolderSync). r.uid_validity) same
    ]

reconcile_folder-keeps_all_example : In elsewhere outcome.1.messages
reconcile_folder-keeps_all_example =
    reconcile_folder-keeps_all env 3 1 inbox credential store folder elsewhere (omega arith, tt)
      folder_found
      (λ call port from_uid host username server h a b e f.
        let k : some 7 ≡ some b = sym (selected_mailbox from_uid server h) ∙ f in
        let l : 7 ≡ a = cc e in let n : 7 ≡ b = cc k in omega arith)
      (here refl)

session_reports : ReportsU32 (ok session)
unfolding ReportsU32
session_reports s name m next opened selected u =
    let k : session ≡ s = cc opened in
    let l : mailbox ≡ m = cc (subst (λ (s : Session). s.select name ≡ ok m) (sym k) selected) in
    let n : 3 ≡ next = cc (subst (λ (b : Mailbox). b.uid_next ≡ some next) (sym l) u) in omega arith

reconcile_folder-terminates_example :
    reconcile_folder env u32_max 1 inbox credential store ≢ (ok none, store)
reconcile_folder-terminates_example =
    reconcile_folder-terminates env u32_max 1 inbox credential store store
      (λ call host port username. ok session) (λ call host port username. session_reports)
      (λ call host port username from_uid. refl) (omega arith)

-- A server that has one message, with UID 1, and no UIDNEXT.
abbrev unreported : Mailbox
unreported = record { uid_validity = some 7; uid_next = none; exists = 1 }

abbrev first_sync : FolderSync
first_sync = record {
  uid_validity = some 7;
  uid_next = none;
  exists = 1;
  messages = content;
  window_hi = 500;
  has_more = false;
}

first_sync_answers : fetch_selected session unreported 1 ≡ ok first_sync
unfolding fetch_selected window keep_fetches keep_fetch flag_name
first_sync_answers = refl

unreported-skips_example : 501 ≤ next_uid (advance none first_sync)
unreported-skips_example =
    unreported-skips session unreported 1 none first_sync refl (λ e. omega (arith, e)) (omega arith)
      first_sync_answers

-- A thread that an earlier run created for the message, and that the run does not list.
abbrev threaded : Store
threaded = record store { threads = Threads.new_thread 1 (some (codes "a@x")) none 0 8 ∷ [] }

store_message-clash_iff_example :
    (store_message env 1 2 (fetched 1) email (record { refs = []; inserted = 0 }) threaded
      ≡ (err thread_refused, threaded))
    ↔ (((t : ThreadRef) → In t [] → ¬ Linked unicode 100 email t)
        × Taken 1 (some (codes "a@x")) threaded)
store_message-clash_iff_example =
    store_message-clash_iff env 1 2 (fetched 1) email (record { refs = []; inserted = 0 }) threaded

abbrev progress_of : Result SyncError Progress → Progress
progress_of (ok p) = p
progress_of (err e) = record { refs = []; inserted = 0 }

abbrev stored_once : Result SyncError Progress × Store
stored_once = ingest_window env 1 2 first_sync (record { refs = []; inserted = 0 }) store

stored_once_succeeds : stored_once ≡ (ok (progress_of stored_once.0), stored_once.1)
unfolding ingest_window Messages.existing_uids ingest_all ingest store_parsed store_message
    thread_for assign_thread find_by_id find_by_ids latest normalize_subject find_by_subject
    strip_prefixes prefix_len Threads.create Threads.clashes Messages.create build_message_row
    persist_or_rollback announce Threads.touch_last_message_at Threads.refresh_aggregates
stored_once_succeeds = refl

ingest_window-again_example :
    ingest_window env 1 2 first_sync (record { refs = []; inserted = 7 }) stored_once.1
    ≡ (ok (record { refs = []; inserted = 7 }), stored_once.1)
ingest_window-again_example =
    ingest_window-again env 1 2 first_sync (record { refs = []; inserted = 0 })
      (progress_of stored_once.0) (record { refs = []; inserted = 7 }) store stored_once.1
      (omega arith, tt) stored_once_succeeds
