-- ===== src/Sync/Worker/Stops.antt =====
-- Why a polling worker returns.
use postblox.Common.{
  ℕ, zero, suc, ◌≡◌, refl, subst, true, false, Option, none, some, List, [], ◌∷◌, ◌++◌, map, Result,
  ok, err, ◌⊎◌, inl, inr, All, Bool-cases, ◌==◌,
}
use postblox.Common.Text.{Text}
use postblox.Auth.{MailCredential}
use postblox.Db.{Account, Store, SyncState, SyncStatus, Event, sync_state}
use postblox.Db.Folders
use postblox.Sync.Errors.{SyncError}
use postblox.Sync.Reconcile.{ReconcileReport}
use postblox.Sync.Worker.{
  WorkerConfig, WorkerCredentialSource, World, State, Next, again, stop, poll, next_backoff,
  is_auth_error, transition, resolve, pause, failed, reconciled, with_credential, cycle,
  polling_cycle, returned, continue, polling_loop, run_polling_worker,
}

-- A world in which the token is never cancelled.
pub record Uncancelled (world : World) : Type 0 where
  pub heads : (round : ℕ) → world.cancelled round ≡ false
  pub resolving : (round : ℕ) → world.cancelled_resolving round ≡ false
  pub pausing : (round : ℕ) → world.cancelled_pausing round ≡ false
  pub whole : (round : ℕ) → world.cut_short round ≡ none

-- The account's row says that the login was refused, and so does the last event.
pub record Refused (world : World) (account_id : ℕ) (t : State) : Type 0 where
  pub error : SyncError
  pub refused : is_auth_error error ≡ true
  pub before : List Event
  pub announced :
      t.store.events
      ≡ before ++ (sync_state account_id SyncState.error (some (world.describe error)) ∷ [])
  pub persisted :
      All
        (λ (a : Account).
          ((a.id == account_id) ≡ false)
          ⊎ ((a.sync_status ≡ SyncStatus.error) × (a.sync_error ≡ some (world.describe error))))
        t.store.accounts

all_marked :
    (id : ℕ) (message : Option Text) (accounts : List Account)
    → All
        (λ (a : Account).
          ((a.id == id) ≡ false) ⊎ ((a.sync_status ≡ SyncStatus.error) × (a.sync_error ≡ message)))
        (map (Folders.with_sync id SyncStatus.error message none) accounts)
all_marked id message [] = tt
all_marked id message (a ∷ accounts) = (
  elim (Bool-cases (a.id == id)) [ inl e ↦ rw e (inr (refl, refl)) | inr e ↦ rw e (inl e) ],
  all_marked id message accounts,
)

module _ (world : World) (config : WorkerConfig) (account_id : ℕ) (folder_name : Text)
    (source : WorkerCredentialSource) (uncancelled : Uncancelled world) where
  transition-Refused :
      (e : SyncError) (s : State)
      → is_auth_error e ≡ true
      → Refused world account_id (
          transition world config account_id folder_name source SyncState.error
            (some (world.describe e))
            s)
  unfolding transition Folders.update_sync
  transition-Refused e s h = record {
    error = e;
    refused = h;
    before = s.store.events;
    announced = refl;
    persisted = all_marked account_id (some (world.describe e)) s.store.accounts;
  }

  -- What a round that ends the worker leaves.
  Final : Next × State → Type 0
  Final (again b, s) = Unit
  Final (stop, s) = Refused world account_id s
  Final (poll, s) = ⊥

  pause-Final :
      (round d b : ℕ) (s : State)
      → Final (pause world config account_id folder_name source round d (again b) s)
  unfolding pause Final
  pause-Final round d b s = rw (uncancelled.pausing round) tt

  failed-Final :
      (round b : ℕ) (e : SyncError) (s : State)
      → Final (
          failed world config account_id folder_name source round b
            (is_auth_error e)
            (world.describe e)
            s)
  unfolding failed Final
  failed-Final round b e s = elim (Bool-cases (is_auth_error e)) [
    | inl h ↦ rw h (transition-Refused e s h)
    | inr h ↦ rw h (pause-Final round b (next_backoff b config.max_backoff) _)
  ]

  polling_cycle-Final :
      (round b : ℕ) (s : State)
      → Final (polling_cycle world config account_id folder_name source round b s)
  unfolding polling_cycle cycle
  polling_cycle-Final round b s =
      rw (uncancelled.heads round, uncancelled.resolving round)
        (resolved (resolve world config account_id folder_name source round source))
    where
      done : MailCredential → State → Next × State
      done c t =
          pause world config account_id folder_name source round config.poll_interval
            (again config.initial_backoff)
            (transition world config account_id folder_name source SyncState.polling none t)

      after_run :
          (c : MailCredential) (r : Result SyncError (Option ReconcileReport) × Store) (t : State)
          → Final (reconciled world config account_id folder_name source round b (done c) r t)
      after_run c (ok report, u) t = pause-Final round config.poll_interval config.initial_backoff _
      after_run c (err e, u) t = failed-Final round b e _

      resolved :
          (r : Result SyncError MailCredential)
          → Final (with_credential world config account_id folder_name source round b done r s)
      resolved (err e) = failed-Final round b e s
      resolved (ok c) = rw (uncancelled.whole round) (after_run c _ _)

  polling_loop-Refused :
      (fuel round b : ℕ) (s t : State)
      → polling_loop world config account_id folder_name source fuel round b s ≡ returned t
      → Refused world account_id t
  unfolding polling_loop Final
  polling_loop-Refused zero round b s t h = absurd (cc h)
  polling_loop-Refused (suc fuel) round b s t h =
      go (polling_cycle world config account_id folder_name source round b s)
        (polling_cycle-Final round b s) h (λ c u k. polling_loop-Refused fuel (suc round) c u t k)
    where
      go :
          (r : Next × State)
          → Final r
          → continue world config account_id folder_name source
              (polling_loop world config account_id folder_name source fuel (suc round))
              returned
              r
            ≡ returned t
          → ((c : ℕ) (u : State)
              → polling_loop world config account_id folder_name source fuel (suc round) c u
                ≡ returned t
              → Refused world account_id t)
          → Refused world account_id t
      go (again c, u) f h k = k c u h
      go (stop, u) f h k = subst (λ (v : State). Refused world account_id v) (cc h) f
      go (poll, u) f h k = absurd f

-- A polling worker whose token is never cancelled returns only after an error that is a refused or
-- missing login; the account's row and the last event then say so, with the error's text.
pub run_polling_worker-Refused :
    (world : World) (config : WorkerConfig) (account : ℕ) (folder : Text)
    (source : WorkerCredentialSource) (fuel round : ℕ) (s t : State)
    → Uncancelled world
    → run_polling_worker world config account folder source fuel round s ≡ returned t
    → Refused world account t
unfolding run_polling_worker
run_polling_worker-Refused world config account folder source fuel round s t uncancelled h =
    polling_loop-Refused world config account folder source uncancelled fuel round
      config.initial_backoff _ t h
