-- ===== src/Sync/Worker/Retries.antt =====
-- The exponential backoff of a worker that keeps failing.
use postblox.Common.{ℕ, ◌≡◌, false, ok, err}
use postblox.Common.Text.{Text}
use postblox.Auth.{MailCredential}
use postblox.Db.{Store}
use postblox.Sync.Errors.{SyncError}
use postblox.Sync.Worker.{
  WorkerConfig, WorkerCredentialSource, World, is_auth_error, resolve, reconcile,
}

-- A round fails, but not on a refused login: no credential is had, or the reconciliation fails
-- from whatever store it begins.
pub data FailsRound (world : World) (config : WorkerConfig) (account_id : ℕ) (folder_name : Text)
    (source : WorkerCredentialSource) (round : ℕ) : Type 0 where
  unresolved :
      (e : SyncError)
      → resolve world config account_id folder_name source round source ≡ err e
      → is_auth_error e ≡ false
      → FailsRound world config account_id folder_name source round
  unreconciled :
      (c : MailCredential)
      → resolve world config account_id folder_name source round source ≡ ok c
      → ((s : Store)
          → (e : SyncError) × (t : Store) × (reconcile world config account_id folder_name source
                round c s
              ≡ (err e, t))
            × (is_auth_error e ≡ false))
      → FailsRound world config account_id folder_name source round
