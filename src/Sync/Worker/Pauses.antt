-- ===== src/Sync/Worker/Pauses.antt =====
-- How long a worker pauses.
use postblox.Common.{ℕ, zero, suc, Bool, true, false, none, [], All}
use postblox.Common.Text.{Text}
use postblox.Db.{Store, SyncState}
use postblox.Sync.Worker.{
  WorkerConfig, WorkerCredentialSource, World, State, Next, again, stop, poll, WorkerRun, returned,
  running, continue, polling_loop, run_polling_worker, idle_loop, run_sync_worker,
}
use postblox.Sync.Worker.Rounds.{
  InBounds, Allowed, initial-InBounds, Kept, Ended, transition-Kept, polling_cycle-Ended,
  idle_cycle-Ended,
}

module _ (world : World) (config : WorkerConfig) (account_id : ℕ) (folder_name : Text)
    (source : WorkerCredentialSource) where
  -- All pauses that the worker made, however far it has come.
  unfoldable pub AllPauses :
      (ℕ → Type 0) → WorkerRun world config account_id folder_name source → Type 0
  AllPauses P (returned s) = All P s.pauses
  AllPauses P (running round b s) = All P s.pauses

  continue-AllPauses :
      (loop : ℕ → State → WorkerRun world config account_id folder_name source)
      (other : State → WorkerRun world config account_id folder_name source) (r : Next × State)
      → Ended world config account_id folder_name source r
      → ((b : ℕ) (s : State)
          → InBounds config b
          → Kept world config account_id folder_name source s
          → AllPauses (Allowed config) (loop b s))
      → ((s : State)
          → Kept world config account_id folder_name source s
          → AllPauses (Allowed config) (other s))
      → AllPauses
          (Allowed config)
          (continue world config account_id folder_name source loop other r)
  unfolding Ended AllPauses Kept
  continue-AllPauses loop other (again b, s) (i, k) h o = h b s i k
  continue-AllPauses loop other (stop, s) k h o = k
  continue-AllPauses loop other (poll, s) k h o = o s k

  polling_loop-AllPauses :
      (fuel round b : ℕ) (s : State)
      → InBounds config b
      → Kept world config account_id folder_name source s
      → AllPauses
          (Allowed config)
          (polling_loop world config account_id folder_name source fuel round b s)
  unfolding polling_loop
  polling_loop-AllPauses zero round b s i k = unfold AllPauses Kept in k
  polling_loop-AllPauses (suc fuel) round b s i k =
      continue-AllPauses _ returned _
        (polling_cycle-Ended world config account_id folder_name source round b s i k)
        (λ c t j l. polling_loop-AllPauses fuel (suc round) c t j l)
        (λ t l. unfold AllPauses Kept in l)

  run_polling_worker-AllPauses :
      (fuel round : ℕ) (s : State)
      → Kept world config account_id folder_name source s
      → AllPauses
          (Allowed config)
          (run_polling_worker world config account_id folder_name source fuel round s)
  unfolding run_polling_worker
  run_polling_worker-AllPauses fuel round s k =
      polling_loop-AllPauses fuel round config.initial_backoff _ (initial-InBounds config)
        (transition-Kept world config account_id folder_name source SyncState.polling none s k)

  idle_loop-AllPauses :
      (fuel round b : ℕ) (s : State)
      → InBounds config b
      → Kept world config account_id folder_name source s
      → AllPauses
          (Allowed config)
          (idle_loop world config account_id folder_name source fuel round b s)
  unfolding idle_loop
  idle_loop-AllPauses zero round b s i k = unfold AllPauses Kept in k
  idle_loop-AllPauses (suc fuel) round b s i k =
      continue-AllPauses _ _ _
        (idle_cycle-Ended world config account_id folder_name source round b s i k)
        (λ c t j l. idle_loop-AllPauses fuel (suc round) c t j l)
        (λ t l. run_polling_worker-AllPauses fuel (suc round) t l)

  -- Whatever the world does, each pause of a worker, with or without IDLE, is the poll interval, or
  -- a backoff between the initial and the greatest one.
  pub run_sync_worker-AllPauses :
      (has_idle : Bool) (fuel : ℕ) (store : Store)
      → AllPauses (Allowed config) (
          run_sync_worker world config account_id folder_name source has_idle fuel
            (record { store = store; pauses = [] }))
  unfolding run_sync_worker Kept
  run_sync_worker-AllPauses false fuel store = run_polling_worker-AllPauses fuel 0 _ tt
  run_sync_worker-AllPauses true fuel store =
      idle_loop-AllPauses fuel 0 config.initial_backoff _ (initial-InBounds config)
        (transition-Kept world config account_id folder_name source SyncState.idle none _ tt)
