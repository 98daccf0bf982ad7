-- ===== src/Db/Folders.antt =====
-- src/db/folders.rs and src/db/accounts.rs: look-ups, and what a sync writes at its end.
use postblox.Common.{
  ℕ, Bool, ◌&&◌, Option, none, some, List, [], ◌∷◌, map, ◌==◌, coalesce, if◌then◌else◌,
}
use postblox.Common.Text.{Text, text_eq}
use postblox.Db.{Account, Folder, Store, SyncStatus}

abbrev find {ℓ} : {A : Type ℓ} → (A → Bool) → List A → Option A
find p [] = none
find p (x ∷ xs) = let rest = find p xs in if p x then some x else rest

unfoldable pub get_account : ℕ → Store → Option Account
get_account id s = find (λ a. a.id == id) s.accounts

unfoldable pub get_by_name : ℕ → Text → Store → Option Folder
get_by_name account name s = find (λ f. f.account_id == account && text_eq f.name name) s.folders

abbrev with_uid_state : ℕ → Option ℕ → Option ℕ → Option ℕ → Folder → Folder
with_uid_state id uid_validity uid_next last_seen_uid f =
    if f.id == id
    then record f {
      uid_validity = coalesce uid_validity f.uid_validity;
      uid_next = coalesce uid_next f.uid_next;
      last_seen_uid = coalesce last_seen_uid f.last_seen_uid;
    }
    else f

unfoldable pub update_uid_state : ℕ → Option ℕ → Option ℕ → Option ℕ → Store → Store
update_uid_state id uid_validity uid_next last_seen_uid s = record s {
  folders = map (with_uid_state id uid_validity uid_next last_seen_uid) s.folders;
}

abbrev pub with_sync : ℕ → SyncStatus → Option Text → Option ℕ → Account → Account
with_sync id status error last_synced_at a =
    if a.id == id
    then record a {
      sync_status = status;
      sync_error = error;
      last_synced_at = coalesce last_synced_at a.last_synced_at;
    }
    else a

unfoldable pub update_sync : ℕ → SyncStatus → Option Text → Option ℕ → Store → Store
update_sync id status error last_synced_at s = record s {
  accounts = map (with_sync id status error last_synced_at) s.accounts;
}
