-- ===== src/Sync/Manager.antt =====
-- src/sync/manager.rs: which workers run. A spawned worker is a task; the map has the task that was
-- started last for a key. A stop takes the task out of the map under the lock, and then, without
-- the lock, cancels it, waits, and aborts it where it does not end in time: other calls may come
-- between these steps, so each step is an action of its own.
pub mod Keys
pub mod Registered
pub mod Sole
use postblox.Common.{
  ℕ, suc, Bool, true, false, not, ◌&&◌, Option, none, some, List, [], ◌∷◌, ◌++◌, map, ◌==◌, any,
  select, if◌then◌else◌, is_some,
}
use postblox.Common.Text.{Text, text_eq}
use postblox.Auth.{MailCredential, CredentialKind, oauth2_bearer, kind}
use postblox.Db.{Event, SyncState, sync_state}
use postblox.Sync.Worker.{WorkerCredentialSource, static, dynamic}

-- A worker of an account's folder; `stopping` is whether a stop has taken its handle, and `ended`
-- is `JoinHandle::is_finished`.
pub record Task : Type 0 where
  pub id : ℕ
  pub account_id : ℕ
  pub folder_name : Text
  pub credential : WorkerCredentialSource
  pub stopping : Bool
  pub cancelled : Bool
  pub aborted : Bool
  pub ended : Bool

-- The key of a task in the map, and its identifier.
pub record Entry : Type 0 where
  pub account_id : ℕ
  pub folder_name : Text
  pub task : ℕ

pub record Manager : Type 0 where
  pub has_idle : Bool
  pub has_resolver : Bool
  pub workers : List Entry
  pub tasks : List Task
  pub next_task : ℕ
  pub events : List Event

abbrev pub has_key : ℕ → Text → Entry → Bool
has_key account folder e = e.account_id == account && text_eq e.folder_name folder

unfoldable pub lookup_worker : ℕ → Text → List Entry → Option ℕ
lookup_worker account folder [] = none
lookup_worker account folder (e ∷ es) =
    let rest = lookup_worker account folder es in
    if has_key account folder e then some e.task else rest

abbrev pub remove_worker : ℕ → Text → List Entry → List Entry
remove_worker account folder es = select (λ e. not (has_key account folder e)) es

abbrev pub is_running : Option ℕ → List Task → Bool
is_running none ts = false
is_running (some id) ts = any (λ t. t.id == id && not t.ended) ts

abbrev source_of_kind : CredentialKind → Bool → ℕ → MailCredential → WorkerCredentialSource
source_of_kind CredentialKind.oauth2_bearer true account credential = dynamic account
source_of_kind _ _ account credential = static credential

-- A bearer token is refreshed before each round, where there is a resolver.
unfoldable pub credential_source : Bool → ℕ → MailCredential → WorkerCredentialSource
credential_source has_resolver account credential =
    source_of_kind (kind credential) has_resolver account credential

abbrev initial_state : Bool → SyncState
initial_state true = SyncState.idle
initial_state false = SyncState.polling

abbrev pub spawned : ℕ → Text → MailCredential → Manager → Task
spawned account folder credential m = record {
  id = m.next_task;
  account_id = account;
  folder_name = folder;
  credential = credential_source m.has_resolver account credential;
  stopping = false;
  cancelled = false;
  aborted = false;
  ended = false;
}

unfoldable pub start : ℕ → Text → MailCredential → Manager → Bool × Manager
start account folder credential m =
    if is_running (lookup_worker account folder m.workers) m.tasks then (false, m) else (
      true,
      record m {
        workers =
            record { account_id = account; folder_name = folder; task = m.next_task }
            ∷ remove_worker account folder m.workers;
        tasks = spawned account folder credential m ∷ m.tasks;
        next_task = suc m.next_task;
        events = m.events ++ (sync_state account (initial_state m.has_idle) none ∷ []);
      },
    )

abbrev pub handed : (ℕ → Bool) → Task → Task
handed chosen t = if chosen t.id then record t { stopping = true } else t

abbrev taken : ℕ → Text → Manager → Option ℕ → Bool × Manager
taken account folder m none = (false, m)
taken account folder m (some id) = (
  true,
  record m {
    workers = remove_worker account folder m.workers;
    tasks = map (handed (λ i. i == id)) m.tasks;
  },
)

-- What `stop` does under the lock, and what it will return.
unfoldable pub take_worker : ℕ → Text → Manager → Bool × Manager
take_worker account folder m = taken account folder m (lookup_worker account folder m.workers)

abbrev pub is_registered : List Entry → ℕ → Bool
is_registered es id = any (λ e. e.task == id) es

-- What `stop_all` does under the lock
unfoldable pub take_workers : Manager → Manager
take_workers m = record m { workers = []; tasks = map (handed (is_registered m.workers)) m.tasks }

-- `handle.cancel.cancel()` of the stop that has the handle
abbrev pub cancelled_by : ℕ → Task → Task
cancelled_by id t = if t.id == id && t.stopping then record t { cancelled = true } else t

unfoldable pub cancel_worker : ℕ → Manager → Manager
cancel_worker id m = record m { tasks = map (cancelled_by id) m.tasks }

-- `await_worker` after its timeout; an aborted task ends when it next waits.
abbrev pub aborted_by : ℕ → Task → Task
aborted_by id t =
    if t.id == id && (t.cancelled && not t.ended) then record t { aborted = true } else t

unfoldable pub abort_worker : ℕ → Manager → Manager
abort_worker id m = record m { tasks = map (aborted_by id) m.tasks }

-- A worker ends: by itself, since it was cancelled, or since it was aborted.
abbrev pub returns : ℕ → Task → Task
returns id t = if t.id == id then record t { ended = true } else t

unfoldable pub worker_returns : ℕ → Manager → Manager
worker_returns id m = record m { tasks = map (returns id) m.tasks }

-- What may happen, one after the other.
pub data Action : Type 0 where
  starts : ℕ → Text → MailCredential → Action
  stops : ℕ → Text → Action
  stops_all : Action
  cancels : ℕ → Action
  aborts : ℕ → Action
  worker_ends : ℕ → Action

unfoldable pub act : Action → Manager → Manager
act (starts account folder credential) m = (start account folder credential m).1
act (stops account folder) m = (take_worker account folder m).1
act stops_all m = take_workers m
act (cancels id) m = cancel_worker id m
act (aborts id) m = abort_worker id m
act (worker_ends id) m = worker_returns id m

unfoldable pub act_all : List Action → Manager → Manager
act_all [] m = m
act_all (a ∷ actions) m = act_all actions (act a m)

abbrev pub new_manager : (has_idle has_resolver : Bool) → Manager
new_manager has_idle has_resolver = record {
  has_idle = has_idle;
  has_resolver = has_resolver;
  workers = [];
  tasks = [];
  next_task = 0;
  events = [];
}
