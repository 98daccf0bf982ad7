-- ===== src/Tui/Mailbox.antt =====
-- src/tui/app.rs: the messages of the folder, grouped to conversations, and what is selected.
-- The state has the fields of the application that these functions read and write.
pub mod Threads
pub mod Selected
use postblox.Common.{
  ℕ, zero, suc, ◌+◌, ◌-◌, Bool, true, false, not, ◌&&◌, ◌||◌, Option, none, some, unwrap_or, List,
  [], ◌∷◌, ◌++◌, length, get_elem?, any, select, ltb, ◌==◌, if◌then◌else◌, min, ℤ, pos, negsuc,
  is_empty,
}
use postblox.Common.Text.{Text, codes, text_eq, trim}
use postblox.Json.{text_ltb}

pub record MessageItem : Type 0 where
  pub id : ℕ
  pub thread_id : Option ℕ
  pub subject : Text
  pub sender : Text
  pub date : Text
  pub snippet : Text
  pub flags : List Text

pub record ThreadItem : Type 0 where
  pub key : ℕ
  pub thread_id : Option ℕ
  pub subject : Text
  pub message_count : ℕ
  pub latest_date : Text
  pub latest_from : Text
  pub unread : Bool
  pub flagged : Bool

abbrev pub seen_flag : Text
seen_flag = codes "\\Seen"

abbrev pub flagged_flag : Text
flagged_flag = codes "\\Flagged"

abbrev pub has_flag : List Text → Text → Bool
has_flag flags flag = any (λ existing. text_eq existing flag) flags

abbrev pub keep_flag : Text → Bool → Text → List Text → List Text
keep_flag flag enabled existing out =
    if text_eq existing flag
    then (if enabled && not (has_flag out flag) then out ++ (existing ∷ []) else out)
    else out ++ (existing ∷ [])

-- The loop of `set_flag_preserving`, with what it has put out
abbrev pub kept_flags : Text → Bool → List Text → List Text → List Text
kept_flags flag enabled [] out = out
kept_flags flag enabled (existing ∷ rest) out =
    kept_flags flag enabled rest (keep_flag flag enabled existing out)

unfoldable pub set_flag_preserving : List Text → Text → Bool → List Text
set_flag_preserving flags flag enabled =
    let out = kept_flags flag enabled flags [] in
    if enabled && not (has_flag flags flag) then out ++ (flag ∷ []) else out

abbrev non_blank : Text → Text → Text
non_blank default s = if is_empty s then default else s

unfoldable pub text_or_default : Option Text → Text → Text
text_or_default none default = default
text_or_default (some value) default = non_blank default (trim value)

abbrev pub message_thread_key : MessageItem → ℕ
message_thread_key message = unwrap_or message.id message.thread_id

abbrev pub is_unread : MessageItem → Bool
is_unread message = not (has_flag message.flags seen_flag)

abbrev pub is_flagged : MessageItem → Bool
is_flagged message = has_flag message.flags flagged_flag

abbrev pub new_thread_item : MessageItem → ThreadItem
new_thread_item message = record {
  key = message_thread_key message;
  thread_id = message.thread_id;
  subject = text_or_default (some message.subject) (codes "(no subject)");
  message_count = 1;
  latest_date = message.date;
  latest_from = message.sender;
  unread = is_unread message;
  flagged = is_flagged message;
}

abbrev later_shown : MessageItem → ThreadItem → ThreadItem
later_shown message thread =
    if text_ltb thread.latest_date message.date
    then record thread {
      latest_date = message.date;
      subject = text_or_default (some message.subject) (codes "(no subject)");
      latest_from = message.sender;
    }
    else thread

abbrev pub join_thread : MessageItem → ThreadItem → ThreadItem
join_thread message thread = record (later_shown message thread) {
  message_count = thread.message_count + 1;
  unread = thread.unread || is_unread message;
  flagged = thread.flagged || is_flagged message;
}

-- The first thread with the key takes the message; without one, a new thread is put at the end.
abbrev pub add_message : MessageItem → List ThreadItem → List ThreadItem
add_message message [] = new_thread_item message ∷ []
add_message message (thread ∷ threads) =
    let rest = add_message message threads in
    if thread.key == message_thread_key message
    then join_thread message thread ∷ threads
    else thread ∷ rest

abbrev pub gather : List MessageItem → List ThreadItem → List ThreadItem
gather [] threads = threads
gather (message ∷ messages) threads = gather messages (add_message message threads)

-- Whether the first stands before the second: later dates first, then subject and key
abbrev pub precedes : ThreadItem → ThreadItem → Bool
precedes left right =
    text_ltb right.latest_date left.latest_date
    || (text_eq right.latest_date left.latest_date
        && (text_ltb left.subject right.subject
            || (text_eq left.subject right.subject && ltb left.key right.key)))

abbrev pub older : MessageItem → MessageItem → Bool
older left right =
    text_ltb left.date right.date || (text_eq left.date right.date && ltb left.id right.id)

module _ {A : Type 0} (before : A → A → Bool) where
  -- A stable sort, by inserting from the end
  abbrev pub insert_sorted : A → List A → List A
  insert_sorted a [] = a ∷ []
  insert_sorted a (b ∷ bs) =
      let rest = insert_sorted a bs in if before b a then b ∷ rest else a ∷ (b ∷ bs)

  abbrev pub sort_by : List A → List A
  sort_by [] = []
  sort_by (a ∷ as') = insert_sorted a (sort_by as')

unfoldable pub build_threads : List MessageItem → List ThreadItem
build_threads messages = sort_by precedes (gather messages [])

unfoldable pub sort_messages_oldest_first : List MessageItem → List MessageItem
sort_messages_oldest_first = sort_by older

pub record Mailbox : Type 0 where
  pub folder_messages : List MessageItem
  pub threads : List ThreadItem
  pub messages : List MessageItem
  pub selected_thread : ℕ
  pub selected_message : ℕ
  pub approvals_folder_selected : Bool

abbrev pub move_index : ℕ → (len : ℕ) → ℤ → ℕ × Bool
move_index index zero delta = (0, false)
move_index index (suc n) (negsuc k) =
    (min index n - suc k, not (min index n - suc k == min index n))
move_index index (suc n) (pos k) =
    (min (min index n + k) n, not (min (min index n + k) n == min index n))

abbrev pub clamp_index : ℕ → (len : ℕ) → ℕ
clamp_index index zero = 0
clamp_index index (suc n) = min index n

abbrev pub position : {A : Type 0} → (A → Bool) → List A → Option ℕ
position p [] = none
position p (a ∷ as') =
    let rest = position p as' in
    if p a then some 0 else elim rest [ none ↦ none | some n ↦ some (suc n) ]

abbrev pub message_index : ℕ → List MessageItem → Option ℕ
message_index message_id messages = position (λ m. m.id == message_id) messages

abbrev pub id_of : Option MessageItem → Option ℕ
id_of none = none
id_of (some m) = some m.id

unfoldable pub selected_message_id : Mailbox → Option ℕ
selected_message_id s =
    if s.approvals_folder_selected then none else id_of (get_elem? s.messages s.selected_message)

abbrev pub key_of : Option ThreadItem → Option ℕ
key_of none = none
key_of (some t) = some t.key

abbrev pub selected_key : Mailbox → Option ℕ
selected_key s = key_of (get_elem? s.threads s.selected_thread)

abbrev pub index_of_key : Option ℕ → List ThreadItem → Option ℕ
index_of_key none threads = none
index_of_key (some key) threads = position (λ t. t.key == key) threads

abbrev pub reselected : Option ℕ → ℕ → ℕ → ℕ
reselected none index len = clamp_index index len
reselected (some found) index len = found

unfoldable pub rebuild_threads : Option ℕ → Mailbox → Mailbox
rebuild_threads key s =
    let threads = build_threads s.folder_messages in
    record s {
      threads = threads;
      selected_thread = reselected (index_of_key key threads) s.selected_thread (length threads);
    }

abbrev pub visible : Option ℕ → List MessageItem → List MessageItem
visible none messages = []
visible (some key) messages =
    sort_messages_oldest_first (select (λ m. message_thread_key m == key) messages)

abbrev pub index_of_id : Option ℕ → List MessageItem → Option ℕ
index_of_id none messages = none
index_of_id (some id) messages = message_index id messages

abbrev pub cursor_on : Option ℕ → List MessageItem → ℕ
cursor_on previous [] = 0
cursor_on previous (m ∷ ms) = unwrap_or (length ms) (index_of_id previous (m ∷ ms))

unfoldable pub refresh_visible_messages : Mailbox → Mailbox
refresh_visible_messages s =
    let messages = visible (selected_key s) s.folder_messages in
    record s { messages = messages; selected_message = cursor_on (selected_message_id s) messages }

-- The rows and the visible messages are built again, with the conversation of the key selected.
abbrev pub refreshed : Option ℕ → Mailbox → Mailbox
refreshed key s = refresh_visible_messages (rebuild_threads key s)
