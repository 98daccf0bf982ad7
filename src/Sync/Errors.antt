-- ===== src/Sync/Errors.antt =====
-- src/sync/error.rs
use postblox.Common.Text.{Text}
use postblox.Imap.{ImapError}
use postblox.Db.{DbError}

pub data SyncError : Type 0 where
  imap : ImapError → SyncError
  db : DbError → SyncError
  attachment : Text → SyncError
  unknown_account : SyncError
  unknown_folder : Text → SyncError
  missing_credentials : SyncError
  credential : Text → SyncError
