-- ===== src/Tui/MessageList.antt =====
-- What changes the message list of src/tui/app.rs: new messages of the folder, a moved selection,
-- an optimistic delete and its undoing, changed flags, a folder restored from the cache, a jump to
-- a hit of the search.
pub mod Synced
pub mod LaidOut
pub mod Undone
pub mod Tests
use postblox.Common.{
  ℕ, Bool, true, false, not, Option, none, some, List, [], ◌∷◌, length, is_empty, select, ◌==◌,
  if◌then◌else◌, unwrap_or, ℤ, pos, negsuc, min, ◌+◌, ◌-◌, suc, is_some, leb,
}
use postblox.Common.Text.{Text}
use postblox.Tui.Mailbox.{
  MessageItem, Mailbox, build_threads, selected_key, selected_message_id, rebuild_threads,
  refresh_visible_messages, move_index, clamp_index, index_of_id, message_index, refreshed,
}
use postblox.Tui.FolderCache.{FolderSnapshot}

pub record MessageListSnapshot : Type 0 where
  pub folder_messages : List MessageItem
  pub selected_thread : ℕ
  pub selected_message : ℕ

unfoldable pub apply_folder_messages : List MessageItem → Mailbox → Mailbox
apply_folder_messages messages s =
    refreshed (selected_key s) (record s { folder_messages = messages })

-- The lists when another folder is selected, or accounts and folders are replaced
unfoldable pub clear_lists : (approvals_folder_selected : Bool) → Mailbox → Mailbox
clear_lists approvals s = record {
  folder_messages = [];
  threads = [];
  messages = [];
  selected_thread = 0;
  selected_message = 0;
  approvals_folder_selected = approvals;
}

abbrev pub moved : ℕ × Bool → Mailbox → Mailbox
moved (index, changed) s =
    let s' = record s { selected_thread = index } in
    if changed then refresh_visible_messages (record s' { selected_message = 0 }) else s'

-- `move_selection` in the pane of the conversations
unfoldable pub move_conversation : (drafts_pane_active : Bool) → ℤ → Mailbox → Mailbox
move_conversation drafts_pane_active delta s =
    if s.approvals_folder_selected
    then s
    else if drafts_pane_active
    then s
    else moved (move_index s.selected_thread (length s.threads) delta) s

unfoldable pub snapshot_message_list : Mailbox → MessageListSnapshot
snapshot_message_list s = record {
  folder_messages = s.folder_messages;
  selected_thread = s.selected_thread;
  selected_message = s.selected_message;
}

unfoldable pub remove_message_locally : (message_id : ℕ) → Mailbox → Mailbox × Bool
remove_message_locally message_id s =
    let kept = select (λ m. not (m.id == message_id)) s.folder_messages in
    let removed = refreshed (selected_key s) (record s { folder_messages = kept }) in
    if length kept == length s.folder_messages then (s, false) else (removed, true)

unfoldable pub restore_message_list_snapshot : MessageListSnapshot → Mailbox → Mailbox
restore_message_list_snapshot snapshot s =
    let r = rebuild_threads none (record s { folder_messages = snapshot.folder_messages }) in
    let v =
      refresh_visible_messages
        (record r { selected_thread = clamp_index snapshot.selected_thread (length r.threads) }) in
    record v { selected_message = clamp_index snapshot.selected_message (length v.messages) }

-- What is put in the cache of folders for the selected one
unfoldable pub folder_snapshot : Mailbox → FolderSnapshot
folder_snapshot s = record {
  folder_messages = s.folder_messages;
  selected_thread_key = selected_key s;
  selected_message_id = selected_message_id s;
}

unfoldable pub restore_folder_snapshot : FolderSnapshot → Mailbox → Mailbox
restore_folder_snapshot snapshot s =
    let v =
      refreshed snapshot.selected_thread_key
        (record s { folder_messages = snapshot.folder_messages }) in
    let index =
      unwrap_or v.selected_message (index_of_id snapshot.selected_message_id v.messages) in
    record v { selected_message = clamp_index index (length v.messages) }

-- The first message with the identifier gets the flags.
abbrev pub with_flags : (message_id : ℕ) → List Text → List MessageItem → List MessageItem
with_flags message_id flags [] = []
with_flags message_id flags (m ∷ ms) =
    let rest = with_flags message_id flags ms in
    if m.id == message_id then record m { flags = flags } ∷ ms else m ∷ rest

unfoldable pub apply_message_flags : (message_id : ℕ) → List Text → Mailbox → Mailbox
apply_message_flags message_id flags s =
    let s' = record s {
      folder_messages = with_flags message_id flags s.folder_messages;
      messages = with_flags message_id flags s.messages;
    } in
    if is_empty s'.folder_messages then s' else refreshed (selected_key s) s'

-- `messages` is what the caller gives, not what the folder has.
unfoldable pub apply_messages : List MessageItem → Mailbox → Mailbox
apply_messages messages s = record s {
  messages = messages;
  selected_message = clamp_index s.selected_message (length messages);
}

-- A focus that moves within the messages of the conversation; `delta` is signed, and the index
-- stays between the first and the last message.
abbrev pub stepped : (current last : ℕ) → ℤ → ℕ
stepped current last (pos k) = min (current + k) last
stepped current last (negsuc k) = min (current - suc k) last

-- `focused` is the message that the stack of the conversation has in focus, if any.
unfoldable pub move_conversation_detail_focus : (focused : Option ℕ) → ℤ → Mailbox → Mailbox
move_conversation_detail_focus focused delta s =
    let last = length s.messages - 1 in
    let id = if is_some focused then focused else selected_message_id s in
    let current = unwrap_or (min s.selected_message last) (index_of_id id s.messages) in
    let next = stepped current last delta in
    if leb (length s.messages) 1
    then s
    else if next == current
    then s
    else record s { selected_message = next }

-- What a jump to another account clears: the index of the message stays.
abbrev pub left_account : Bool → Mailbox → Mailbox
left_account other s =
    if other
    then record s { folder_messages = []; threads = []; messages = []; selected_thread = 0 }
    else s

-- The account of the hit is known or not, and another one than the selected one or not; the
-- folder that is selected then is the approvals folder or not.
unfoldable pub jump_to_hit :
    (account_found other_account approvals_folder_selected : Bool)
    → (message_id : ℕ) → Mailbox
    → Mailbox
jump_to_hit account_found other approvals message_id s =
    let s' = left_account other s in
    let index = unwrap_or s'.selected_message (message_index message_id s'.messages) in
    if account_found
    then record s' { approvals_folder_selected = approvals; selected_message = index }
    else s

pub data Change : Type 0 where
  messages_applied : List MessageItem → Change
  focus_moved : (focused : Option ℕ) → ℤ → Change
  jumped : (account_found other_account approvals_folder_selected : Bool) (message_id : ℕ) → Change
  folder_arrived : List MessageItem → Change
  folder_changed : (approvals_folder_selected : Bool) → Change
  moved_by : (drafts_pane_active : Bool) → ℤ → Change
  removed : (message_id : ℕ) → Change
  undone : MessageListSnapshot → Change
  restored : FolderSnapshot → Change
  flagged : (message_id : ℕ) → List Text → Change

unfoldable pub change : Change → Mailbox → Mailbox
change (messages_applied messages) s = apply_messages messages s
change (focus_moved focused delta) s = move_conversation_detail_focus focused delta s
change (jumped found other approvals message_id) s = jump_to_hit found other approvals message_id s
change (folder_arrived messages) s = apply_folder_messages messages s
change (folder_changed approvals) s = clear_lists approvals s
change (moved_by drafts_pane_active delta) s = move_conversation drafts_pane_active delta s
change (removed message_id) s = (remove_message_locally message_id s).0
change (undone snapshot) s = restore_message_list_snapshot snapshot s
change (restored snapshot) s = restore_folder_snapshot snapshot s
change (flagged message_id flags) s = apply_message_flags message_id flags s

unfoldable pub change_all : List Change → Mailbox → Mailbox
change_all [] s = s
change_all (a ∷ changes) s = change_all changes (change a s)
