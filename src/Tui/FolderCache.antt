-- ===== src/Tui/FolderCache.antt =====
-- src/tui/app.rs: the cache of the folders that were looked at last. The oldest entry stands
-- first; an instant is a number.
pub mod Bounded
pub mod Truthful
pub mod Tests
use postblox.Common.{
  ℕ, zero, suc, ◌+◌, ◌-◌, Bool, true, false, not, ◌&&◌, ◌||◌, Option, none, some, List, [], ◌∷◌,
  ◌++◌, length, any, select, ltb, leb, ◌==◌, if◌then◌else◌,
}
use postblox.Tui.Mailbox.{MessageItem}

pub record FolderSnapshot : Type 0 where
  pub folder_messages : List MessageItem
  pub selected_thread_key : Option ℕ
  pub selected_message_id : Option ℕ

pub record FolderCacheEntry : Type 0 where
  pub account_id : ℕ
  pub folder_id : ℕ
  pub snapshot : FolderSnapshot
  pub stored_at : ℕ

pub record FolderMessageCache : Type 0 where
  pub capacity : ℕ
  pub ttl : ℕ
  pub entries : List FolderCacheEntry

abbrev pub folder_cache_capacity : ℕ
folder_cache_capacity = 6

-- `Default`, with the time to live in seconds
abbrev pub default : FolderMessageCache
default = record { capacity = folder_cache_capacity; ttl = 60; entries = [] }

abbrev pub is_for : (account_id folder_id : ℕ) → FolderCacheEntry → Bool
is_for account_id folder_id e = e.account_id == account_id && e.folder_id == folder_id

-- The entry of the folder, taken out
abbrev pub take_entry :
    (account_id folder_id : ℕ)
    → List FolderCacheEntry
    → Option (FolderCacheEntry × List FolderCacheEntry)
take_entry a f [] = none
take_entry a f (e ∷ es) =
    let rest = take_entry a f es in
    if is_for a f e
    then some (e, es)
    else elim rest [ none ↦ none | some (x, xs) ↦ some (x, e ∷ xs) ]

abbrev pub with_entries : FolderMessageCache → List FolderCacheEntry → FolderMessageCache
with_entries c es = record c { entries = es }

abbrev pub found :
    (now : ℕ)
    → FolderMessageCache
    → Option (FolderCacheEntry × List FolderCacheEntry)
    → Option FolderSnapshot × FolderMessageCache
found now c none = (none, c)
found now c (some (e, es)) =
    if ltb c.ttl (now - e.stored_at)
    then (none, with_entries c es)
    else (some e.snapshot, with_entries c (es ++ (e ∷ [])))

unfoldable pub lookup :
    (account_id folder_id now : ℕ) → FolderMessageCache → Option FolderSnapshot × FolderMessageCache
lookup account_id folder_id now c = found now c (take_entry account_id folder_id c.entries)

abbrev pub without :
    List FolderCacheEntry
    → Option (FolderCacheEntry × List FolderCacheEntry)
    → List FolderCacheEntry
without all none = all
without all (some (e, es)) = es

-- `while entries.len() >= capacity { entries.pop_front() }`
abbrev pub evict : (capacity : ℕ) → List FolderCacheEntry → List FolderCacheEntry
evict capacity [] = []
evict capacity (e ∷ es) =
    let rest = evict capacity es in if leb capacity (length (e ∷ es)) then rest else e ∷ es

unfoldable pub store :
    (account_id folder_id : ℕ)
    → FolderSnapshot
    → (now : ℕ) → FolderMessageCache
    → FolderMessageCache
store account_id folder_id snapshot now c =
    let es = without c.entries (take_entry account_id folder_id c.entries) in
    if c.capacity == 0
    then with_entries c es
    else with_entries c (
        evict c.capacity es
        ++ (record {
          account_id = account_id;
          folder_id = folder_id;
          snapshot = snapshot;
          stored_at = now;
        }
            ∷ []))

unfoldable pub invalidate_folder :
    (account_id folder_id : ℕ) → FolderMessageCache → FolderMessageCache
invalidate_folder account_id folder_id c =
    with_entries c
      (select (λ e. not (e.account_id == account_id) || not (e.folder_id == folder_id)) c.entries)

unfoldable pub invalidate_account : ℕ → FolderMessageCache → FolderMessageCache
invalidate_account account_id c =
    with_entries c (select (λ e. not (e.account_id == account_id)) c.entries)

unfoldable pub retain_accounts : List ℕ → FolderMessageCache → FolderMessageCache
retain_accounts account_ids c =
    with_entries c (select (λ e. any (λ id. id == e.account_id) account_ids) c.entries)

pub data Use : Type 0 where
  look : (account_id folder_id now : ℕ) → Use
  put : (account_id folder_id : ℕ) → FolderSnapshot → (now : ℕ) → Use
  drop_folder : (account_id folder_id : ℕ) → Use
  drop_account : ℕ → Use
  keep_accounts : List ℕ → Use

unfoldable pub use_cache : Use → FolderMessageCache → FolderMessageCache
use_cache (look a f now) c = (lookup a f now c).1
use_cache (put a f snapshot now) c = store a f snapshot now c
use_cache (drop_folder a f) c = invalidate_folder a f c
use_cache (drop_account a) c = invalidate_account a c
use_cache (keep_accounts ids) c = retain_accounts ids c

-- The uses, the latest first
unfoldable pub use_all : List Use → FolderMessageCache → FolderMessageCache
use_all [] c = c
use_all (u ∷ us) c = use_cache u (use_all us c)
