-- ===== src/Sync/Reconcile.antt =====
-- src/sync/reconciler.rs: bringing one folder of the local store up to date with the server.
pub mod Frame
pub mod Outcome
pub mod Drain
pub mod Complete
pub mod Server
pub mod Terminates
pub mod Unreported
use postblox.Common.{
  ℕ, zero, suc, ◌+◌, ◌≡◌, refl, Bool, true, false, not, ◌&&◌, ◌||◌, Option, none, some, List, [],
  ◌∷◌, ◌++◌, map, min, max, Result, ok, err, ℤ, ◌==◌, ltb, any, is_empty, is_some, length, take,
  if◌then◌else◌, unwrap_or, max_option, saturating_add, u32_max,
}
use postblox.Common.Text.{Text, join}
use postblox.Auth.{MailCredential, has_no_secret}
use postblox.Mail.{ParsedEmail, ParsedAttachment}
use postblox.Mail.Threading.{Unicode, ThreadRef, ThreadMatch, existing, new, assign_thread}
use postblox.Imap.{ImapError, port_u16}
use postblox.Imap.Client.{FetchedMessage, FolderSync}
use postblox.Db.{
  Account, Folder, Thread, NewMessage, Message, Store, Event, mail_new, account_synced, publish,
  idle,
}
use postblox.Db.Messages
use postblox.Db.Threads
use postblox.Db.Folders
use postblox.Sync.Errors.{
  SyncError, imap, db, attachment, unknown_account, unknown_folder, missing_credentials,
}
use postblox.Sync.Exec.{M, ◌>>=◌, ◌>>◌, pure, fail, lift, required, try_db, query, modify}
use postblox.Sync.Ingest.{Env, Progress, ingest_window}

pub record ReconcileReport : Type 0 where
  pub folder_id : ℕ
  pub inserted : ℕ
  pub wiped : ℕ
  pub uid_validity : Option ℕ
  pub uid_next : Option ℕ
  pub last_seen_uid : Option ℕ

-- The greatest UID of a window.
abbrev pub batch_max : List FetchedMessage → Option ℕ
batch_max [] = none
batch_max (m ∷ ms) = max_option (some m.uid) (batch_max ms)

unfoldable pub advance : Option ℕ → FolderSync → Option ℕ
advance last_seen_uid server =
    max_option (max_option last_seen_uid (batch_max server.messages)) (some server.window_hi)

-- What the loop over the windows ends with: the last answer among it.
pub record Drained : Type 0 where
  pub progress : Progress
  pub server : FolderSync
  pub last_seen_uid : Option ℕ

abbrev pub mismatch : Option ℕ → Option ℕ → Bool
mismatch (some local) (some server) = not (local == server)
mismatch _ _ = false

-- The UID to ask from, of what is stored.
abbrev pub next_uid : Option ℕ → ℕ
next_uid last_seen_uid = saturating_add (min (unwrap_or 0 last_seen_uid) u32_max) 1

abbrev pub call_after : Bool → ℕ
call_after resync = if resync then 2 else 1

-- After a wipe the old high-water mark does not count.
abbrev pub baseline : Bool → Folder → Option ℕ
baseline resync folder = if resync then none else folder.last_seen_uid

module _ (env : Env) where
  open env use {sync_folder, now}

  module _ (account_id folder_id : ℕ)
      (ask : (call from_uid : ℕ) → Result ImapError FolderSync) where
    -- After a window: the loop ends, or asks for the next one.
    abbrev pub windows_left :
        Bool
        → Result ImapError FolderSync
        → Drained
        → (FolderSync → M (Option Drained))
        → M (Option Drained)
    windows_left false answer d rest = pure (some d)
    windows_left true answer d rest = do next ← lift imap answer; rest next

    -- The loop over the windows; `none` is too little fuel.
    unfoldable pub drain : (fuel call : ℕ) → FolderSync → Option ℕ → Progress → M (Option Drained)
    drain zero call server last_seen_uid p = pure none
    drain (suc fuel) call server last_seen_uid p = do
      q ← ingest_window env account_id folder_id server p
      let last = advance last_seen_uid server
      windows_left server.has_more (ask call (saturating_add server.window_hi 1))
          (record { progress = q; server = server; last_seen_uid = last })
          (λ next. drain fuel (suc call) next last q)

    abbrev pub wipe : M ℕ
    wipe s = (
      ok (Messages.delete_all_in_folder folder_id s).0,
      (Messages.delete_all_in_folder folder_id s).1,
    )

    abbrev pub answer_or_resync : Bool → FolderSync → M (FolderSync × ℕ × Bool)
    answer_or_resync false server = pure (server, 0, false)
    answer_or_resync true server = do
      wiped ← wipe
      again ← lift imap (ask 1 1)
      pure (again, wiped, true)

    -- The answer to begin with, the number of messages wiped, and whether UIDVALIDITY changed.
    unfoldable pub first_answer : Folder → M (FolderSync × ℕ × Bool)
    first_answer folder = do
      server ← lift imap (ask 0 (next_uid folder.last_seen_uid))
      answer_or_resync (mismatch folder.uid_validity server.uid_validity) server

    abbrev ref_of : Store → Thread → ThreadRef
    ref_of s t = record {
      thread_id = t.id;
      message_ids = Messages.message_ids_of t.id s.messages;
      subject = unwrap_or [] t.subject;
      last_message_at = unwrap_or now t.last_message_at;
    }

    unfoldable pub thread_refs : Store → List ThreadRef
    thread_refs s = map (ref_of s) (Threads.list_recent account_id 200 s)

    abbrev pub report_event : ℕ → ℕ → Bool → Store → Store
    report_event inserted wiped resync s =
        if ltb 0 inserted || (ltb 0 wiped || resync)
        then publish (account_synced account_id folder_id inserted wiped) s
        else s

    -- The bookkeeping at the end.
    unfoldable pub finish : ℕ → Bool → Option Drained → M (Option ReconcileReport)
    finish wiped resync none = pure none
    finish wiped resync (some d) = do
      modify (
          Folders.update_uid_state folder_id d.server.uid_validity d.server.uid_next
            d.last_seen_uid)
      modify (Folders.update_sync account_id idle none (some now))
      modify (report_event d.progress.inserted wiped resync)
      pure (
          some (record {
            folder_id = folder_id;
            inserted = d.progress.inserted;
            wiped = wiped;
            uid_validity = d.server.uid_validity;
            uid_next = d.server.uid_next;
            last_seen_uid = d.last_seen_uid;
          }))

    unfoldable pub drain_from :
        (fuel : ℕ) → Folder → FolderSync × ℕ × Bool → M (Option ReconcileReport)
    drain_from fuel folder (server, wiped, resync) = do
      refs ← query thread_refs
      d ←
          drain fuel (call_after resync) server (baseline resync folder)
            (record { refs = refs; inserted = 0 })
      finish wiped resync d

    unfoldable pub reconcile_selected : (fuel : ℕ) → Folder → M (Option ReconcileReport)
    reconcile_selected fuel folder = do answer ← first_answer folder; drain_from fuel folder answer

  unfoldable pub reconcile_folder :
      (fuel account_id : ℕ) (folder_name : Text) → MailCredential → M (Option ReconcileReport)
  reconcile_folder fuel account_id folder_name credential =
      if has_no_secret credential then fail missing_credentials else do
        found ← query (Folders.get_account account_id)
        account ← required found unknown_account
        here ← query (Folders.get_by_name account_id folder_name)
        folder ← required here (unknown_folder folder_name)
        port ← lift imap (port_u16 account.imap_port)
        reconcile_selected account_id folder.id
            (λ call. sync_folder call account.imap_host port account.email credential folder_name)
            fuel folder
