-- ===== src/Sync/Tests.antt =====
-- A small mailbox with two messages, and one run of the reconciler on it.
pub mod Runs
pub mod Workers
pub mod Managers
use postblox.Common.{
  ℕ, ◌+◌, ◌≤◌, ◌<◌, ◌≡◌, ◌≢◌, refl, ap, sym, subst, min, Bool, true, false, Option, none, some,
  List, [], ◌∷◌, Result, ok, err, pos, In, inl, inr, here, there, arith, u32_max,
}
use postblox.Common.Text.{Text, codes}
use postblox.Json.{null}
use postblox.Auth.{MailCredential, password, has_no_secret, secret}
use postblox.Mail.{ParsedEmail}
use postblox.Mail.Threading.{
  Unicode, prefix_len, strip_prefixes, find_by_id, find_by_ids, latest, normalize_subject,
  find_by_subject, assign_thread,
}
use postblox.Imap.{ImapError, port_u16}
use postblox.Imap.Client.{
  Mailbox, Fetch, Session, FetchedMessage, FolderSync, seen, flag_name, window, keep_fetch,
  keep_fetches, fetch_selected, fetch_uid_range, sync_folder,
}
use postblox.Imap.Client.Windows.{Holds, fetch_selected_cases}
use postblox.Imap.Client.Progress.{ReportsU32}
use postblox.Db.{Account, Folder, Thread, NewMessage, Message, Store, idle, unique_violation}
use postblox.Db.Messages
use postblox.Db.Threads
use postblox.Db.Folders
use postblox.Sync.Errors.{SyncError, db}
use postblox.Sync.Ingest.{
  Env, build_message_row, thread_for, persist_or_rollback, announce, store_message, store_parsed,
  ingest, ingest_all, ingest_window,
}
use postblox.Sync.Ingest.Arrival.{Present}
use postblox.Sync.Reconcile.{
  ReconcileReport, advance, drain, first_answer, thread_refs, finish, drain_from,
  reconcile_selected, reconcile_folder, next_uid,
}
use postblox.Sync.Reconcile.Drain.{Serves}
use postblox.Sync.Reconcile.Outcome.{reconcile_folder-keeps_others, reconcile_folder-keeps_all}
use postblox.Sync.Reconcile.Complete.{reconcile_folder_complete}
use postblox.Sync.Reconcile.Server.{sync_folder-Serves}
use postblox.Sync.Reconcile.Terminates.{reconcile_folder-terminates}
use postblox.Sync.Reconcile.Unreported.{unreported-skips}

abbrev pub inbox : Text
inbox = codes "INBOX"

abbrev pub folder : Folder
folder = record {
  id = 2;
  account_id = 1;
  name = inbox;
  uid_validity = some 7;
  uid_next = none;
  last_seen_uid = none;
}

abbrev pub account : Account
account = record {
  id = 1;
  email = codes "u@example.com";
  imap_host = codes "imap.example.com";
  imap_port = pos 993;
  sync_status = idle;
  sync_error = none;
  last_synced_at = none;
}

abbrev pub email : ParsedEmail
email = record {
  message_id = some (codes "a@x");
  in_reply_to = none;
  references = [];
  from = codes "a@x";
  to = [];
  cc = [];
  subject = some (codes "re: lunch");
  text_body = some (codes "hi");
  html_body = none;
  raw_headers = null;
  attachments = [];
}

abbrev pub row_in : (folder_id uid : ℕ) → NewMessage
row_in folder_id uid = record {
  account_id = 1;
  folder_id = folder_id;
  thread_id = none;
  uid = uid;
  message_id_header = none;
  in_reply_to = none;
  references_header = none;
  from_addr = codes "b@x";
  to_addrs = [];
  cc_addrs = [];
  bcc_addrs = [];
  reply_to = none;
  subject = none;
  snippet = none;
  text_body = none;
  html_body = none;
  raw_size = 0;
  flags = [];
  internal_date = 0;
  sent_at = none;
}

-- A row of another folder.
abbrev pub elsewhere : Message
elsewhere = record { id = 4; row = row_in 3 1 }

abbrev pub store : Store
store = record {
  accounts = account ∷ [];
  folders = folder ∷ [];
  threads = [];
  messages = elsewhere ∷ [];
  next_id = 10;
  events = [];
}

abbrev pub unicode : Unicode
unicode = record { to_lowercase = λ t. t; is_uppercase = λ c. false }

abbrev pub mailbox : Mailbox
mailbox = record { uid_validity = some 7; uid_next = some 3; exists = 2 }

abbrev pub fetch : ℕ → Fetch
fetch uid = record {
  uid = some uid;
  flags = seen ∷ [];
  internal_date = some 50;
  body = some (65 ∷ []);
}

abbrev pub fetched : ℕ → FetchedMessage
fetched uid = record {
  uid = uid;
  flags = codes "\\Seen" ∷ [];
  internal_date = some 50;
  raw = 65 ∷ [];
}

abbrev pub session : Session
session = record {
  select = λ name. ok mailbox;
  uid_fetch = λ lo hi. ok (some (ok (fetch 1) ∷ (ok (fetch 2) ∷ [])));
}

abbrev pub connected : Result ImapError Session
connected = ok session

abbrev pub content : List FetchedMessage
content = fetched 1 ∷ (fetched 2 ∷ [])

abbrev pub env : Env
env = record {
  sync_folder =
      λ call host port username credential name from_uid. sync_folder (ok session) name from_uid;
  parse = λ raw. ok email;
  persist = λ id attachments. ok tt;
  now = 100;
  unicode = unicode;
}

abbrev pub credential : MailCredential
credential = password (codes "pw")

abbrev pub outcome : Result SyncError (Option ReconcileReport) × Store
outcome = reconcile_folder env 3 1 inbox credential store

abbrev pub untouched : ReconcileReport
untouched = record {
  folder_id = 0;
  inserted = 0;
  wiped = 0;
  uid_validity = none;
  uid_next = none;
  last_seen_uid = none;
}

abbrev pub report_of : Result SyncError (Option ReconcileReport) → ReconcileReport
report_of (ok (some r)) = r
report_of _ = untouched

-- The run succeeds.
pub outcome_succeeds : outcome ≡ (ok (some (report_of outcome.0)), outcome.1)
unfolding reconcile_folder has_no_secret secret Folders.get_account Folders.get_by_name port_u16
    reconcile_selected first_answer sync_folder fetch_uid_range fetch_selected window keep_fetches
    keep_fetch drain_from thread_refs Threads.list_recent Messages.message_ids_of drain
    ingest_window Messages.existing_uids ingest_all ingest store_parsed store_message thread_for
    assign_thread find_by_id find_by_ids latest normalize_subject find_by_subject strip_prefixes
    prefix_len Threads.create Threads.clashes Messages.create build_message_row persist_or_rollback
    announce Threads.touch_last_message_at Threads.refresh_aggregates advance finish
    Folders.update_uid_state Folders.update_sync flag_name
outcome_succeeds = refl

pub folder_found : Folders.get_by_name 1 inbox store ≡ some folder
unfolding Folders.get_by_name
folder_found = refl

-- Both messages are below UIDNEXT, and every answer has both.
pub session-Holds : Holds session inbox content
unfolding keep_fetches keep_fetch flag_name
session-Holds = record {
  mailbox = mailbox;
  next = 3;
  selects = refl;
  reports = refl;
  counts = λ m i e. omega (arith, e);
  valid = λ m i. bounded m i;
  answers = λ lo hi fs m h i above below. answered fs m h i;
}
  where
    bounded : (m : FetchedMessage) → In m content → (1 ≤ m.uid) × (m.uid < 3)
    bounded m (here e) =
        let u : m.uid ≡ 1 = ap (λ (n : FetchedMessage). n.uid) e in (omega arith, omega arith)
    bounded m (there (here e)) =
        let u : m.uid ≡ 2 = ap (λ (n : FetchedMessage). n.uid) e in (omega arith, omega arith)
    bounded m (there (there i)) = elim i [ ]

    answered :
        (fs : List (Result ImapError Fetch)) (m : FetchedMessage)
        → session.uid_fetch 1 1 ≡ ok (some fs)
        → In m content
        → In m (keep_fetches fs)
    answered fs m h i =
        let k : (ok (fetch 1) ∷ (ok (fetch 2) ∷ [])) ≡ fs = cc h in
        subst (λ (gs : List (Result ImapError Fetch)). In m (keep_fetches gs)) k i
