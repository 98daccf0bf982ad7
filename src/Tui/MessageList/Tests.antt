-- ===== src/Tui/MessageList/Tests.antt =====
-- A folder of two conversations: a message is removed, and the list restored.
use postblox.Common.{◌≡◌, refl, true, false, List, [], ◌∷◌, pos}
use postblox.Common.Text.{codes}
use postblox.Tui.Mailbox.{
  Mailbox, build_threads, refresh_visible_messages, rebuild_threads, selected_message_id,
  sort_messages_oldest_first, text_or_default,
}
use postblox.Tui.FolderCache.Tests.{both}
use postblox.Tui.MessageList.{
  apply_folder_messages, remove_message_locally, snapshot_message_list,
  restore_message_list_snapshot, folder_snapshot, restore_folder_snapshot, Change, folder_arrived,
  moved_by, removed, flagged, jumped, change_all,
}
use postblox.Tui.MessageList.Synced.{IsSynced, refreshed-IsSynced}
use postblox.Tui.MessageList.LaidOut.{IsLaidOut, IsSynced-IsLaidOut, change_all-IsLaidOut}
use postblox.Tui.MessageList.Undone.{
  restore_message_list_snapshot-snapshot_message_list, restore_folder_snapshot-folder_snapshot,
}

abbrev nothing : Mailbox
nothing = record {
  folder_messages = [];
  threads = [];
  messages = [];
  selected_thread = 0;
  selected_message = 0;
  approvals_folder_selected = false;
}

nothing-IsSynced : IsSynced nothing
unfolding build_threads
nothing-IsSynced = record { rows = refl; shown = refl; thread_within = refl; message_within = refl }

abbrev loaded : Mailbox
loaded = apply_folder_messages both nothing

loaded-IsSynced : IsSynced loaded
unfolding apply_folder_messages
loaded-IsSynced = refreshed-IsSynced _ _

abbrev changes : List Change
changes =
    folder_arrived both
    ∷ (moved_by false (pos 1)
        ∷ (flagged 10 (codes "\\Seen" ∷ []) ∷ (removed 11 ∷ (jumped true true false 10 ∷ []))))

change_all-IsLaidOut_example : IsLaidOut (change_all changes nothing)
change_all-IsLaidOut_example =
    change_all-IsLaidOut changes nothing (tt, (tt, (tt, (tt, (tt, tt)))))
      (IsSynced-IsLaidOut nothing-IsSynced)

restore_message_list_snapshot-snapshot_message_list_example :
    restore_message_list_snapshot
      (snapshot_message_list loaded)
      (remove_message_locally 11 loaded).0
    ≡ loaded
unfolding apply_folder_messages refresh_visible_messages rebuild_threads remove_message_locally
    selected_message_id build_threads sort_messages_oldest_first text_or_default
restore_message_list_snapshot-snapshot_message_list_example =
    restore_message_list_snapshot-snapshot_message_list loaded (remove_message_locally 11 loaded).0
      loaded-IsSynced refl

restore_folder_snapshot-folder_snapshot_example :
    restore_folder_snapshot (folder_snapshot loaded) nothing ≡ loaded
unfolding apply_folder_messages refresh_visible_messages rebuild_threads selected_message_id
    build_threads sort_messages_oldest_first text_or_default
restore_folder_snapshot-folder_snapshot_example =
    restore_folder_snapshot-folder_snapshot loaded nothing loaded-IsSynced (refl, tt) refl refl
