-- ===== src/Sync/Tests/Workers.antt =====
-- Workers whose credential is refused, or cannot be resolved.
use postblox.Common.{◌≡◌, refl, true, false, Option, none, some, [], err}
use postblox.Common.Text.{Text, codes}
use postblox.Imap.{unsupported}
use postblox.Db.{SyncState}
use postblox.Sync.Errors.{SyncError, missing_credentials, credential}
use postblox.Sync.Worker.{
  WorkerConfig, dynamic, World, State, is_auth_error, transition, resolve, failed, cycle,
  polling_cycle, returned, polling_loop, run_polling_worker, run_sync_worker,
}
use postblox.Sync.Worker.Rounds.{Allowed}
use postblox.Sync.Worker.Pauses.{AllPauses, run_sync_worker-AllPauses}
use postblox.Sync.Worker.Stops.{Uncancelled, Refused, run_polling_worker-Refused}
use postblox.Sync.Tests.{inbox, store, env}

abbrev config : WorkerConfig
config = record { poll_interval = 60; idle_timeout = 1740; initial_backoff = 5; max_backoff = 60 }

abbrev answering : SyncError → World
answering e = record {
  cancelled = λ n. false;
  cancelled_resolving = λ n. false;
  cancelled_pausing = λ n. false;
  cancelled_waiting = λ n. false;
  cut_short = λ n. none;
  resolver = λ n id. err e;
  env = λ n. env;
  idle_once = λ n host port username c. err (unsupported (codes "no idle"));
  describe = λ e. codes "failed";
  describe_imap = λ e. codes "failed";
}

abbrev begun : State
begun = record { store = store; pauses = [] }

answering-Uncancelled : (e : SyncError) → Uncancelled (answering e)
answering-Uncancelled e = record {
  heads = λ n. refl;
  resolving = λ n. refl;
  pausing = λ n. refl;
  whole = λ n. refl;
}

abbrev moved : SyncState → Option Text → State → State
moved = transition (answering missing_credentials) config 1 inbox (dynamic 1)

abbrev ended : State
ended = moved SyncState.error (some (codes "failed")) (moved SyncState.polling none begun)

refused_run :
    run_polling_worker (answering missing_credentials) config 1 inbox (dynamic 1) 4 0 begun
    ≡ returned ended
unfolding run_polling_worker polling_loop polling_cycle cycle resolve failed is_auth_error
refused_run = refl

run_polling_worker-Refused_example : Refused (answering missing_credentials) 1 ended
run_polling_worker-Refused_example =
    run_polling_worker-Refused (answering missing_credentials) config 1 inbox (dynamic 1) 4 0 begun
      ended (answering-Uncancelled missing_credentials) refused_run

run_sync_worker-AllPauses_example :
    AllPauses
      (answering (credential []))
      config
      1
      inbox
      (dynamic 1)
      (Allowed config)
      (run_sync_worker (answering (credential [])) config 1 inbox (dynamic 1) true 3 begun)
run_sync_worker-AllPauses_example =
    run_sync_worker-AllPauses (answering (credential [])) config 1 inbox (dynamic 1) true 3 store
