-- ===== src/Sync/Worker.antt =====
-- src/sync/worker.rs: the worker of one folder. A duration is a number of nanoseconds. The world is
-- the parameter `world`, asked by the number of the round: when the token is cancelled, what the
-- credential resolver and IDLE answer, and what a reconciliation finds. Each round of the loop
-- pauses at most once.
pub mod Rounds
pub mod Pauses
pub mod Stops
pub mod Retries
use postblox.Common.{
  ℕ, zero, suc, ◌+◌, ◌*◌, min, Bool, true, false, Option, none, some, List, [], ◌∷◌, ◌++◌, Result,
  ok, err, if◌then◌else◌, u32_max,
}
use postblox.Common.Text.{Text}
use postblox.Auth.{MailCredential}
use postblox.Imap.{ImapError, auth, unsupported, port_u16}
use postblox.Db.{Account, Store, SyncState, SyncStatus, sync_state, publish}
use postblox.Db.Folders
use postblox.Sync.Errors.{SyncError, imap, missing_credentials}
use postblox.Sync.Ingest.{Env}
use postblox.Sync.Reconcile.{ReconcileReport, reconcile_folder}

pub record WorkerConfig : Type 0 where
  pub poll_interval : ℕ
  pub idle_timeout : ℕ
  pub initial_backoff : ℕ
  pub max_backoff : ℕ

-- src/imap/client.rs
pub data IdleOutcome : Type 0 where
  new_data timeout interrupted : IdleOutcome

pub data WorkerCredentialSource : Type 0 where
  static : MailCredential → WorkerCredentialSource
  dynamic : (account_id : ℕ) → WorkerCredentialSource

pub record World : Type 0 where
  -- the token at the head of the loop, while the credential is resolved, in the pause, and when
  -- IDLE was interrupted
  pub cancelled : ℕ → Bool
  pub cancelled_resolving : ℕ → Bool
  pub cancelled_pausing : ℕ → Bool
  pub cancelled_waiting : ℕ → Bool
  -- the token during a reconciliation, with what was written before the run was dropped
  pub cut_short : ℕ → Option (Store → Store)
  pub resolver : ℕ → (account_id : ℕ) → Result SyncError MailCredential
  pub env : ℕ → Env
  pub idle_once :
      ℕ → (host : Text) (port : ℕ) (username : Text) → MailCredential → Result ImapError IdleOutcome
  -- `err.to_string()`
  pub describe : SyncError → Text
  pub describe_imap : ImapError → Text

-- The store, and the pauses made so far, the last one first.
pub record State : Type 0 where
  pub store : Store
  pub pauses : List ℕ

-- How a round ends: the loop goes on with a backoff, the worker returns, or it becomes a polling
-- worker.
pub data Next : Type 0 where
  again : (backoff : ℕ) → Next
  stop : Next
  poll : Next

abbrev is_auth : ImapError → Bool
is_auth (auth _) = true
is_auth _ = false

unfoldable pub is_auth_error : SyncError → Bool
is_auth_error (imap e) = is_auth e
is_auth_error missing_credentials = true
is_auth_error _ = false

-- `saturating_mul` may saturate only above `max`.
unfoldable pub next_backoff : (current max : ℕ) → ℕ
next_backoff current max = min (current * 2) max

module _ (world : World) (config : WorkerConfig) (account_id : ℕ) (folder_name : Text)
    (source : WorkerCredentialSource) where
  open world use {
    cancelled, cancelled_resolving, cancelled_pausing, cancelled_waiting, cut_short, resolver, env,
    idle_once, describe, describe_imap,
  }

  abbrev persisted : SyncState → Option Text → Store → Store
  persisted SyncState.error last_error s =
      Folders.update_sync account_id SyncStatus.error last_error none s
  persisted _ last_error s = s

  -- `StateReporter::transition`: an error is also written to the account's row.
  unfoldable pub transition : SyncState → Option Text → State → State
  transition state last_error s = record s {
    store = publish (sync_state account_id state last_error) (persisted state last_error s.store);
  }

  unfoldable pub resolve : ℕ → WorkerCredentialSource → Result SyncError MailCredential
  resolve round (static credential) = ok credential
  resolve round (dynamic id) = resolver round id

  abbrev paused : ℕ → State → State
  paused duration s = record s { pauses = duration ∷ s.pauses }

  -- `sleep_or_cancel`, and what follows where it was not cancelled
  unfoldable pub pause : (round duration : ℕ) → Next → State → Next × State
  pause round duration next s =
      if cancelled_pausing round then (stop, paused duration s) else (next, paused duration s)

  -- The branches on an error: a refused login ends the worker, any other error is retried.
  unfoldable pub failed :
      (round backoff : ℕ) (refused : Bool) (message : Text) → State → Next × State
  failed round backoff refused message s =
      if refused
      then (stop, transition SyncState.error (some message) s)
      else pause round backoff (again (next_backoff backoff config.max_backoff))
          (transition SyncState.error (some message) s)

  -- One run of the reconciler, whose loop ends within this many windows.
  abbrev pub reconcile :
      ℕ → MailCredential → Store → Result SyncError (Option ReconcileReport) × Store
  reconcile round credential =
      reconcile_folder (env round) u32_max account_id folder_name credential

  -- What stands behind a successful run depends on the kind of worker.
  abbrev reconciled :
      (round backoff : ℕ)
      → (State → Next × State)
      → Result SyncError (Option ReconcileReport) × Store
      → State
      → Next × State
  reconciled round backoff done (ok report, t) s = done (record s { store = t })
  reconciled round backoff done (err e, t) s =
      failed round backoff (is_auth_error e) (describe e) (record s { store = t })

  abbrev unless_cut :
      (round backoff : ℕ)
      → MailCredential
      → (State → Next × State)
      → Option (Store → Store)
      → State
      → Next × State
  unless_cut round backoff credential done none s =
      reconciled round backoff done (reconcile round credential s.store) s
  unless_cut round backoff credential done (some written) s =
      (stop, record s { store = written s.store })

  -- `credential_for_cycle`, and the reconciliation with the credential
  abbrev with_credential :
      (round backoff : ℕ)
      → (MailCredential → State → Next × State)
      → Result SyncError MailCredential
      → State
      → Next × State
  with_credential round backoff done (err e) s =
      failed round backoff (is_auth_error e) (describe e) s
  with_credential round backoff done (ok credential) s =
      unless_cut round backoff credential (done credential) (cut_short round)
        (transition SyncState.syncing none s)

  -- The part of a round that both workers have.
  unfoldable pub cycle :
      (round backoff : ℕ) → (MailCredential → State → Next × State) → State → Next × State
  cycle round backoff done s =
      if cancelled round
      then (stop, s)
      else if cancelled_resolving round
      then (stop, s)
      else with_credential round backoff done (resolve round source) s

  unfoldable pub polling_cycle : (round backoff : ℕ) → State → Next × State
  polling_cycle round backoff s =
      cycle round backoff
        (λ credential t.
          pause round config.poll_interval (again config.initial_backoff)
            (transition SyncState.polling none t))
        s

  -- How one IDLE wait ended.
  unfoldable pub waited : (round backoff : ℕ) → Result ImapError IdleOutcome → State → Next × State
  waited round backoff (ok interrupted) s =
      if cancelled_waiting round then (stop, s) else (again config.initial_backoff, s)
  waited round backoff (ok _) s = (again config.initial_backoff, s)
  waited round backoff (err (unsupported _)) s = (poll, s)
  waited round backoff (err e) s = failed round backoff (is_auth e) (describe_imap e) s

  abbrev wait_at :
      (round : ℕ) → MailCredential → Account → Result ImapError ℕ → State → Next × State
  wait_at round credential a (err e) s =
      (stop, transition SyncState.error (some (describe_imap e)) s)
  wait_at round credential a (ok port) s =
      waited round config.initial_backoff (idle_once round a.imap_host port a.email credential)
        (transition SyncState.idle none s)

  abbrev wait : (round : ℕ) → MailCredential → Option Account → State → Next × State
  wait round credential none s = (stop, s)
  wait round credential (some a) s = wait_at round credential a (port_u16 a.imap_port) s

  -- Behind a successful run the backoff is the initial one again.
  unfoldable pub idle_cycle : (round backoff : ℕ) → State → Next × State
  idle_cycle round backoff s =
      cycle round backoff
        (λ credential t. wait round credential (Folders.get_account account_id t.store) t) s

  -- What a worker has come to: it returned, or the fuel, one for each round, is used up.
  pub data WorkerRun : Type 0 where
    returned : State → WorkerRun
    running : (round backoff : ℕ) → State → WorkerRun

  abbrev continue : (ℕ → State → WorkerRun) → (State → WorkerRun) → Next × State → WorkerRun
  continue loop other (again backoff, s) = loop backoff s
  continue loop other (stop, s) = returned s
  continue loop other (poll, s) = other s

  unfoldable pub polling_loop : (fuel round backoff : ℕ) → State → WorkerRun
  polling_loop zero round backoff s = running round backoff s
  polling_loop (suc fuel) round backoff s =
      continue (polling_loop fuel (suc round)) returned (polling_cycle round backoff s)

  unfoldable pub run_polling_worker : (fuel round : ℕ) → State → WorkerRun
  run_polling_worker fuel round s =
      polling_loop fuel round config.initial_backoff (transition SyncState.polling none s)

  unfoldable pub idle_loop : (fuel round backoff : ℕ) → State → WorkerRun
  idle_loop zero round backoff s = running round backoff s
  idle_loop (suc fuel) round backoff s =
      continue (idle_loop fuel (suc round)) (run_polling_worker fuel (suc round))
        (idle_cycle round backoff s)

  -- `has_idle`: whether the worker was given a connection for IDLE.
  unfoldable pub run_sync_worker : (has_idle : Bool) (fuel : ℕ) → State → WorkerRun
  run_sync_worker false fuel s = run_polling_worker fuel 0 s
  run_sync_worker true fuel s =
      idle_loop fuel 0 config.initial_backoff (transition SyncState.idle none s)
