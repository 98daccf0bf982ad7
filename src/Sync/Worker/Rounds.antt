-- ===== src/Sync/Worker/Rounds.antt =====
-- What one round of a worker does to its pauses and its backoff.
use postblox.Common.{
  ℕ, ◌≤◌, ◌≡◌, refl, min, max, Bool, true, false, Option, none, some, Result, ok, err, ◌⊎◌, inl,
  inr, All, Bool-cases, arith,
}
use postblox.Common.Text.{Text}
use postblox.Auth.{MailCredential}
use postblox.Imap.{
  ImapError, auth, unsupported, tls, protocol, io, invalid_name, timeout, invalid_port, port_u16,
}
use postblox.Db.{Account, Store, SyncState}
use postblox.Db.Folders
use postblox.Sync.Errors.{SyncError}
use postblox.Sync.Reconcile.{ReconcileReport}
use postblox.Sync.Worker.{
  WorkerConfig, IdleOutcome, WorkerCredentialSource, World, State, Next, again, stop, poll,
  next_backoff, transition, resolve, pause, failed, reconciled, unless_cut, with_credential, cycle,
  polling_cycle, waited, wait_at, wait, idle_cycle,
}

-- Between the initial backoff and the greatest one.
unfoldable pub InBounds : WorkerConfig → ℕ → Type 0
InBounds config d =
    (min config.initial_backoff config.max_backoff ≤ d)
    × (d ≤ max config.initial_backoff config.max_backoff)

unfoldable pub Allowed : WorkerConfig → ℕ → Type 0
Allowed config d = (d ≡ config.poll_interval) ⊎ InBounds config d

next_backoff-InBounds :
    (config : WorkerConfig) (b : ℕ)
    → InBounds config b
    → InBounds config (next_backoff b config.max_backoff)
unfolding next_backoff InBounds
next_backoff-InBounds config b (l, u) = (omega arith, omega arith)

pub initial-InBounds : (config : WorkerConfig) → InBounds config config.initial_backoff
unfolding InBounds
initial-InBounds config = (omega arith, omega arith)

module _ (world : World) (config : WorkerConfig) (account_id : ℕ) (folder_name : Text)
    (source : WorkerCredentialSource) where
  unfoldable pub Kept : State → Type 0
  Kept s = All (Allowed config) s.pauses

  -- What holds at the end of a round.
  unfoldable pub Ended : Next × State → Type 0
  unfolding Kept
  Ended (again b, s) = InBounds config b × Kept s
  Ended (stop, s) = Kept s
  Ended (poll, s) = Kept s

  pub transition-Kept :
      (st : SyncState) (e : Option Text) (s : State)
      → Kept s
      → Kept (transition world config account_id folder_name source st e s)
  unfolding Kept transition
  transition-Kept st e s k = k

  pause-Ended :
      (round d b : ℕ) (s : State)
      → Allowed config d
      → InBounds config b
      → Kept s
      → Ended (pause world config account_id folder_name source round d (again b) s)
  unfolding Kept Ended pause
  pause-Ended round d b s a i k = elim (Bool-cases (world.cancelled_pausing round)) [
    | inl e ↦ rw e (a, k)
    | inr e ↦ rw e (i, (a, k))
  ]

  failed-Ended :
      (round b : ℕ) (refused : Bool) (message : Text) (s : State)
      → InBounds config b
      → Kept s
      → Ended (failed world config account_id folder_name source round b refused message s)
  unfolding failed Ended
  failed-Ended round b true message s i k = transition-Kept SyncState.error (some message) s k
  failed-Ended round b false message s i k =
      pause-Ended round b (next_backoff b config.max_backoff) _ (unfold Allowed in inr i)
        (next_backoff-InBounds config b i) (transition-Kept SyncState.error (some message) s k)

  cycle-Ended :
      (round b : ℕ) (done : MailCredential → State → Next × State) (s : State)
      → InBounds config b
      → Kept s
      → ((c : MailCredential) (t : State) → Kept t → Ended (done c t))
      → Ended (cycle world config account_id folder_name source round b done s)
  unfolding cycle Kept Ended
  cycle-Ended round b done s i k d = elim (Bool-cases (world.cancelled round)) [
    | inl e ↦ rw e k
    | inr e ↦ elim (Bool-cases (world.cancelled_resolving round)) [
      | inl f ↦ rw (e, f) k
      | inr f ↦
          rw (e, f) (resolved (resolve world config account_id folder_name source round source))
    ]
  ]
    where
      after_run :
          (c : MailCredential) (r : Result SyncError (Option ReconcileReport) × Store) (t : State)
          → Kept t
          → Ended (reconciled world config account_id folder_name source round b (done c) r t)
      after_run c (ok report, u) t k = d c (record t { store = u }) k
      after_run c (err e, u) t k = failed-Ended round b _ _ (record t { store = u }) i k

      run :
          (c : MailCredential) (cut : Option (Store → Store)) (t : State)
          → Kept t
          → Ended (unless_cut world config account_id folder_name source round b c (done c) cut t)
      run c none t k = after_run c _ t k
      run c (some written) t k = k

      resolved :
          (r : Result SyncError MailCredential)
          → Ended (with_credential world config account_id folder_name source round b done r s)
      resolved (err e) = failed-Ended round b _ _ s i k
      resolved (ok c) = run c (world.cut_short round) _ (transition-Kept SyncState.syncing none s k)

  pub polling_cycle-Ended :
      (round b : ℕ) (s : State)
      → InBounds config b
      → Kept s
      → Ended (polling_cycle world config account_id folder_name source round b s)
  unfolding polling_cycle
  polling_cycle-Ended round b s i k = cycle-Ended round b _ s i k (λ c t h.
      pause-Ended round config.poll_interval config.initial_backoff _ (unfold Allowed in inl refl)
        (initial-InBounds config) (transition-Kept SyncState.polling none t h))

  waited-Ended :
      (round b : ℕ) (r : Result ImapError IdleOutcome) (s : State)
      → InBounds config b
      → Kept s
      → Ended (waited world config account_id folder_name source round b r s)
  unfolding waited Ended Kept
  waited-Ended round b (ok IdleOutcome.new_data) s i k = (initial-InBounds config, k)
  waited-Ended round b (ok IdleOutcome.timeout) s i k = (initial-InBounds config, k)
  waited-Ended round b (ok IdleOutcome.interrupted) s i k =
      elim (Bool-cases (world.cancelled_waiting round)) [
        | inl e ↦ rw e k
        | inr e ↦ rw e (initial-InBounds config, k)
      ]
  waited-Ended round b (err (unsupported x)) s i k = k
  waited-Ended round b (err (auth x)) s i k = failed-Ended round b _ _ s i k
  waited-Ended round b (err (io x)) s i k = failed-Ended round b _ _ s i k
  waited-Ended round b (err (tls x)) s i k = failed-Ended round b _ _ s i k
  waited-Ended round b (err (protocol x)) s i k = failed-Ended round b _ _ s i k
  waited-Ended round b (err (invalid_name x)) s i k = failed-Ended round b _ _ s i k
  waited-Ended round b (err (timeout x)) s i k = failed-Ended round b _ _ s i k
  waited-Ended round b (err (invalid_port x)) s i k = failed-Ended round b _ _ s i k

  pub idle_cycle-Ended :
      (round b : ℕ) (s : State)
      → InBounds config b
      → Kept s
      → Ended (idle_cycle world config account_id folder_name source round b s)
  unfolding idle_cycle Ended
  idle_cycle-Ended round b s i k =
      cycle-Ended round b _ s i k (λ c t h. at (Folders.get_account account_id t.store) c t h)
    where
      on_port :
          (c : MailCredential) (a : Account) (p : Result ImapError ℕ) (t : State)
          → Kept t
          → Ended (wait_at world config account_id folder_name source round c a p t)
      on_port c a (err e) t k = transition-Kept SyncState.error _ t k
      on_port c a (ok port) t k =
          waited-Ended round config.initial_backoff _ _ (initial-InBounds config)
            (transition-Kept SyncState.idle none t k)

      at :
          (a : Option Account) (c : MailCredential) (t : State)
          → Kept t
          → Ended (wait world config account_id folder_name source round c a t)
      at none c t k = k
      at (some a) c t k = on_port c a (port_u16 a.imap_port) t k
