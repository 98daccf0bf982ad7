-- ===== src/Tui/MessageList/Synced.antt =====
-- The rows and the visible messages of src/tui/app.rs are those of the folder's messages and of
-- the selection, and the selection is within them, after they are built again.
use postblox.Common.{
  ℕ, zero, suc, ◌<◌, ◌≡◌, refl, Option, none, some, List, [], ◌∷◌, length, pos, negsuc, arith, ℤ,
}
use postblox.Tui.Mailbox.{
  MessageItem, ThreadItem, Mailbox, build_threads, clamp_index, reselected, index_of_key,
  move_index, selected_key, selected_message_id, rebuild_threads, visible, cursor_on,
  refresh_visible_messages, refreshed,
}
use postblox.Tui.Mailbox.Selected.{reselected-lt, cursor_on-lt}
use postblox.Tui.MessageList.{MessageListSnapshot, restore_message_list_snapshot}

-- The lists are built from the messages of the folder, and the selection is not beyond them.
pub record IsSynced (s : Mailbox) : Type 0 where
  pub rows : s.threads ≡ build_threads s.folder_messages
  pub shown : s.messages ≡ visible (selected_key s) s.folder_messages
  pub thread_within : clamp_index s.selected_thread (length s.threads) ≡ s.selected_thread
  pub message_within : clamp_index s.selected_message (length s.messages) ≡ s.selected_message

pub clamp_index-within : (n len : ℕ) → n < len → clamp_index n len ≡ n
clamp_index-within n zero h = absurd (omega arith)
clamp_index-within n (suc len) h = omega arith

clamp_index-twice : (n len : ℕ) → clamp_index (clamp_index n len) len ≡ clamp_index n len
clamp_index-twice n zero = refl
clamp_index-twice n (suc len) = omega arith

pub move_index-within :
    (n len : ℕ) (delta : ℤ)
    → clamp_index (move_index n len delta).0 len ≡ (move_index n len delta).0
move_index-within n zero delta = refl
move_index-within n (suc len) (pos k) = omega arith
move_index-within n (suc len) (negsuc k) = omega arith

reselected-within :
    (key : Option ℕ) (n : ℕ) (ts : List ThreadItem)
    → clamp_index (reselected (index_of_key key ts) n (length ts)) (length ts)
      ≡ reselected (index_of_key key ts) n (length ts)
reselected-within none n [] = refl
reselected-within (some key) n [] = refl
reselected-within key n (t ∷ ts) =
    clamp_index-within _ (suc (length ts)) (reselected-lt key n (t ∷ ts) (omega arith))

cursor_on-within :
    (previous : Option ℕ) (ms : List MessageItem)
    → clamp_index (cursor_on previous ms) (length ms) ≡ cursor_on previous ms
cursor_on-within previous [] = refl
cursor_on-within previous (m ∷ ms) =
    clamp_index-within _ (suc (length ms)) (cursor_on-lt previous (m ∷ ms) (omega arith))

pub refresh-IsSynced :
    (s : Mailbox)
    → s.threads ≡ build_threads s.folder_messages
    → clamp_index s.selected_thread (length s.threads) ≡ s.selected_thread
    → IsSynced (refresh_visible_messages s)
unfolding refresh_visible_messages
refresh-IsSynced s h k = record {
  rows = h;
  shown = refl;
  thread_within = k;
  message_within =
      cursor_on-within (selected_message_id s) (visible (selected_key s) s.folder_messages);
}

pub refreshed-IsSynced : (key : Option ℕ) (s : Mailbox) → IsSynced (refreshed key s)
unfolding rebuild_threads
refreshed-IsSynced key s =
    refresh-IsSynced (rebuild_threads key s) refl
      (reselected-within key s.selected_thread (build_threads s.folder_messages))

-- A cursor that is clamped to the visible messages keeps the lists as they are.
pub clamped-IsSynced :
    (s : Mailbox) (n : ℕ)
    → IsSynced s
    → IsSynced (record s { selected_message = clamp_index n (length s.messages) })
clamped-IsSynced s n w = record {
  rows = w.rows;
  shown = w.shown;
  thread_within = w.thread_within;
  message_within = clamp_index-twice n (length s.messages);
}

pub restore_list-IsSynced :
    (s : Mailbox) (snapshot : MessageListSnapshot)
    → IsSynced (restore_message_list_snapshot snapshot s)
unfolding restore_message_list_snapshot rebuild_threads
restore_list-IsSynced s snapshot = clamped-IsSynced _ snapshot.selected_message (
    refresh-IsSynced _ refl (
      clamp_index-twice snapshot.selected_thread (length (build_threads snapshot.folder_messages))))
