-- ===== src/Tui/FolderCache/Tests.antt =====
-- The folder cache and the conversations on a few messages.
use postblox.Common.{ℕ, ◌-◌, ◌≤◌, ◌≡◌, refl, false, none, some, List, [], ◌∷◌, All, arith}
use postblox.Common.Text.{codes}
use postblox.Tui.Mailbox.{refreshed, MessageItem, Mailbox, build_threads, selected_key}
use postblox.Tui.Mailbox.Threads.{Sums, times, count, once, build_threads-Sums}
use postblox.Tui.Mailbox.Selected.{refreshed-keeps}
use postblox.Tui.FolderCache.{
  FolderSnapshot, Use, put, look, drop_account, lookup, use_all, use_cache, store,
  invalidate_account,
}
use postblox.Tui.FolderCache.Bounded.{IsBounded, use_all-IsBounded}
use postblox.Tui.FolderCache.Truthful.{stored, empty, lookup-stored}

abbrev first : MessageItem
first = record {
  id = 10;
  thread_id = some 7;
  subject = codes "hello";
  sender = codes "a@x";
  date = codes "2024-01-01 10:00";
  snippet = [];
  flags = codes "\\Seen" ∷ [];
}

abbrev second : MessageItem
second = record {
  id = 11;
  thread_id = none;
  subject = codes "news";
  sender = codes "b@x";
  date = codes "2024-01-02 10:00";
  snippet = [];
  flags = [];
}

abbrev pub both : List MessageItem
both = first ∷ (second ∷ [])

abbrev mailbox : Mailbox
mailbox = record {
  folder_messages = both;
  threads = [];
  messages = [];
  selected_thread = 5;
  selected_message = 5;
  approvals_folder_selected = false;
}

build_threads-Sums_example :
    ((key : ℕ) → times key (build_threads both) ≡ once (count key both))
    × All (Sums both) (build_threads both)
build_threads-Sums_example = build_threads-Sums both

refreshed-keeps_example : selected_key (refreshed (some 7) mailbox) ≡ some 7
refreshed-keeps_example = refreshed-keeps 7 mailbox (omega arith)

abbrev snapshot : FolderSnapshot
snapshot = record {
  folder_messages = both;
  selected_thread_key = some 7;
  selected_message_id = none;
}

abbrev history : List Use
history = look 1 3 25 ∷ (put 1 2 snapshot 20 ∷ (put 1 3 snapshot 15 ∷ (drop_account 4 ∷ [])))

use_all-IsBounded_example : IsBounded (use_all history (empty 1 60))
use_all-IsBounded_example =
    use_all-IsBounded history (empty 1 60) (record { small = omega arith; distinct = tt })

lookup-stored_example : (at : ℕ) × (stored history 1 2 ≡ some (snapshot, at)) × (30 - at ≤ 60)
unfolding lookup use_all use_cache store invalidate_account
lookup-stored_example = lookup-stored 6 60 history 1 2 30 snapshot refl
