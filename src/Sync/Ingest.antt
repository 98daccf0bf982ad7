-- ===== src/Sync/Ingest.antt =====
-- src/sync/reconciler.rs: what is done with the messages of one window. The rest of the world is
-- the parameter `env`: `ImapSync::sync_folder`, whose answers may differ from call to call, the mail
-- parser, the attachment store, the clock and the case tables.
pub mod Frame
pub mod Arrival
pub mod Clash
pub mod Again
use postblox.Common.{
  ℕ, zero, suc, ◌+◌, ◌≡◌, refl, Bool, true, false, not, ◌&&◌, ◌||◌, Option, none, some, List, [],
  ◌∷◌, ◌++◌, map, min, max, Result, ok, err, ℤ, ◌==◌, ltb, any, is_empty, is_some, length, take,
  if◌then◌else◌, unwrap_or, max_option, saturating_add, u32_max,
}
use postblox.Common.Text.{Text, join}
use postblox.Auth.{MailCredential, has_no_secret}
use postblox.Mail.{ParsedEmail, ParsedAttachment}
use postblox.Mail.Threading.{Unicode, ThreadRef, ThreadMatch, existing, new, assign_thread}
use postblox.Imap.{ImapError, port_u16}
use postblox.Imap.Client.{FetchedMessage, FolderSync}
use postblox.Db.{
  Account, Folder, Thread, NewMessage, Message, Store, Event, mail_new, account_synced, publish,
  idle,
}
use postblox.Db.Messages
use postblox.Db.Threads
use postblox.Db.Folders
use postblox.Sync.Errors.{
  SyncError, imap, db, attachment, unknown_account, unknown_folder, missing_credentials,
}
use postblox.Sync.Exec.{M, ◌>>=◌, ◌>>◌, pure, fail, lift, required, try_db, query, modify}

pub record Env : Type 0 where
  pub sync_folder :
      (call : ℕ) (host : Text) (port : ℕ) (username : Text)
      → MailCredential
      → (folder : Text) (from_uid : ℕ) → Result ImapError FolderSync
  pub parse : List ℕ → Result Text ParsedEmail
  pub persist : (message_id : ℕ) → List ParsedAttachment → Result Text (Unit {0})
  pub now : ℕ
  pub unicode : Unicode

abbrev pub member : ℕ → List ℕ → Bool
member uid uids = any (λ u. u == uid) uids

abbrev unbroken : ℕ → ℕ
unbroken c = if c == 10 || c == 13 then 32 else c

abbrev pub snippet : Option Text → Option Text
snippet none = none
snippet (some t) = some (map unbroken (take 200 t))

abbrev references_header : List Text → Option Text
references_header [] = none
references_header (r ∷ rs) = some (join (32 ∷ []) (r ∷ rs))

-- The row of a fetched message.
unfoldable pub build_message_row :
    (now account_id folder_id thread_id : ℕ) → FetchedMessage → ParsedEmail → NewMessage
build_message_row now account_id folder_id thread_id fetched parsed = record {
  account_id = account_id;
  folder_id = folder_id;
  thread_id = some thread_id;
  uid = fetched.uid;
  message_id_header = parsed.message_id;
  in_reply_to = parsed.in_reply_to;
  references_header = references_header parsed.references;
  from_addr = parsed.from;
  to_addrs = parsed.to;
  cc_addrs = parsed.cc;
  bcc_addrs = [];
  reply_to = none;
  subject = parsed.subject;
  snippet = snippet parsed.text_body;
  text_body = parsed.text_body;
  html_body = parsed.html_body;
  raw_size = length fetched.raw;
  flags = fetched.flags;
  internal_date = unwrap_or now fetched.internal_date;
  sent_at = none;
}

-- What the loops carry: the known threads, and how many messages were inserted.
pub record Progress : Type 0 where
  pub refs : List ThreadRef
  pub inserted : ℕ

abbrev optional {ℓ} : {A : Type ℓ} → Option A → List A
optional none = []
optional (some a) = a ∷ []

module _ (env : Env) where
  open env use {parse, persist, now, unicode}

  abbrev ref_of_new : ℕ → FetchedMessage → ParsedEmail → ThreadRef
  ref_of_new id fetched parsed = record {
    thread_id = id;
    message_ids = optional parsed.message_id;
    subject = unwrap_or [] parsed.subject;
    last_message_at = unwrap_or now fetched.internal_date;
  }

  -- The thread of a message, and the known threads with it.
  unfoldable pub thread_for :
      (account_id : ℕ)
      → FetchedMessage
      → ParsedEmail
      → List ThreadRef
      → ThreadMatch
      → M (ℕ × List ThreadRef)
  thread_for account_id fetched parsed refs (existing id) = pure (id, refs)
  thread_for account_id fetched parsed refs new = do
    t ← try_db (Threads.create account_id parsed.message_id parsed.subject now)
    pure (t.id, refs ++ (ref_of_new t.id fetched parsed ∷ []))

  abbrev rolled_back : Result Text (Unit {0}) → ℕ → M (Unit {0})
  rolled_back (ok _) id = pure tt
  rolled_back (err e) id = do modify (Messages.delete id); fail (attachment e)

  -- Attachments are stored, or the row just inserted is removed again.
  unfoldable pub persist_or_rollback : ℕ → List ParsedAttachment → M (Unit {0})
  persist_or_rollback id attachments = rolled_back (persist id attachments) id

  module _ (account_id folder_id : ℕ) where
    -- The thread's date and count, and the event, after a message was inserted.
    unfoldable pub announce : FetchedMessage → ℕ → Message → M (Unit {0})
    announce fetched thread_id row = do
      modify (Threads.touch_last_message_at thread_id (unwrap_or now fetched.internal_date))
      modify (Threads.refresh_aggregates thread_id)
      modify (publish (mail_new account_id folder_id thread_id row.id fetched.uid))

    unfoldable pub store_message : FetchedMessage → ParsedEmail → Progress → M Progress
    store_message fetched parsed p = do
      (thread_id, refs) ←
          thread_for account_id fetched parsed p.refs (assign_thread unicode now parsed p.refs)
      row ←
          try_db
            (Messages.create (build_message_row now account_id folder_id thread_id fetched parsed))
      persist_or_rollback row.id parsed.attachments
      announce fetched thread_id row
      pure (record { refs = refs; inserted = p.inserted + 1 })

    -- A message that does not parse is left out.
    unfoldable pub store_parsed : FetchedMessage → Result Text ParsedEmail → Progress → M Progress
    store_parsed fetched (ok parsed) p = store_message fetched parsed p
    store_parsed fetched (err e) p = pure p

    -- The body of the loop over a window: known messages and empty bodies are left out.
    unfoldable pub ingest : List ℕ → FetchedMessage → Progress → M Progress
    ingest already fetched p =
        if member fetched.uid already || is_empty fetched.raw
        then pure p
        else store_parsed fetched (parse fetched.raw) p

    unfoldable pub ingest_all : List ℕ → List FetchedMessage → Progress → M Progress
    ingest_all already [] p = pure p
    ingest_all already (m ∷ ms) p = do q ← ingest already m p; ingest_all already ms q

    unfoldable pub ingest_window : FolderSync → Progress → M Progress
    ingest_window server p = do
      already ← query (Messages.existing_uids folder_id (map (λ m. m.uid) server.messages))
      ingest_all already server.messages p
