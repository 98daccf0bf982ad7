-- ===== src/Db.antt =====
-- The rows of the local database (migrations/0001_init.sql, src/models.rs) and the state that the
-- daemon keeps around them. Identifiers are numbers, times are numbers of nanoseconds, and a fresh
-- identifier is `next_id`. The database answers; only its `UNIQUE` constraints
-- refuse. An account has the columns that a sync reads or writes.
pub mod Messages
pub mod Threads
pub mod Folders
pub mod SqlQuery
pub mod Approvals
pub mod Tests
use postblox.Common.{ℕ, Option, List, [], ◌∷◌, ◌++◌, Result, ok, err, ℤ, Bool, if◌then◌else◌}
use postblox.Common.Text.{Text}
use postblox.Json.{Value}

pub data SyncStatus : Type 0 where
  idle syncing error : SyncStatus

pub record Account : Type 0 where
  pub id : ℕ
  pub email : Text
  pub imap_host : Text
  pub imap_port : ℤ
  pub sync_status : SyncStatus
  pub sync_error : Option Text
  pub last_synced_at : Option ℕ

-- A stored UID is not negative.
pub record Folder : Type 0 where
  pub id : ℕ
  pub account_id : ℕ
  pub name : Text
  pub uid_validity : Option ℕ
  pub uid_next : Option ℕ
  pub last_seen_uid : Option ℕ

pub record Thread : Type 0 where
  pub id : ℕ
  pub account_id : ℕ
  pub external_id : Option Text
  pub subject : Option Text
  pub last_message_at : Option ℕ
  pub message_count : ℕ
  pub created_at : ℕ

pub record NewMessage : Type 0 where
  pub account_id : ℕ
  pub folder_id : ℕ
  pub thread_id : Option ℕ
  pub uid : ℕ
  pub message_id_header : Option Text
  pub in_reply_to : Option Text
  pub references_header : Option Text
  pub from_addr : Text
  pub to_addrs : List Text
  pub cc_addrs : List Text
  pub bcc_addrs : List Text
  pub reply_to : Option Text
  pub subject : Option Text
  pub snippet : Option Text
  pub text_body : Option Text
  pub html_body : Option Text
  pub raw_size : ℕ
  pub flags : List Text
  pub internal_date : ℕ
  pub sent_at : Option ℕ

-- A stored message: its identifier, and the columns that it was inserted with.
pub record Message : Type 0 where
  pub id : ℕ
  pub row : NewMessage
  pub open row use *

-- src/sync/state.rs
pub data SyncState : Type 0 where
  idle polling syncing error : SyncState

-- What the hub is given to publish: src/ipc/hub.rs.
pub data Event : Type 0 where
  sync_state : (account_id : ℕ) → SyncState → (last_error : Option Text) → Event
  mail_new : (account_id folder_id thread_id message_id uid : ℕ) → Event
  account_synced : (account_id folder_id inserted wiped : ℕ) → Event

pub record Store : Type 0 where
  pub accounts : List Account
  pub folders : List Folder
  pub threads : List Thread
  pub messages : List Message
  pub next_id : ℕ
  pub events : List Event

pub data DbError : Type 0 where
  unique_violation : Text → DbError

-- `hub.publish`, as the reconciler calls it
abbrev pub publish : Event → Store → Store
publish e s = record s { events = s.events ++ (e ∷ []) }
