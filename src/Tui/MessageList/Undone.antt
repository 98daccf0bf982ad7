-- ===== src/Tui/MessageList/Undone.antt =====
-- What src/tui/app.rs restores: the message list before an optimistic delete, and a folder that
-- comes back from the cache.
use postblox.Common.{
  ℕ, zero, suc, ◌≤◌, ◌≡◌, ◌≢◌, refl, sym, ap, ◌∙◌, subst, Bool, false, Option, none, some,
  unwrap_or, List, [], ◌∷◌, length, get_elem?, ◌==◌, arith, Bool-cases, inl, inr,
}
use postblox.Tui.Mailbox.{
  MessageItem, ThreadItem, Mailbox, build_threads, position, clamp_index, reselected, index_of_key,
  key_of, id_of, message_index, index_of_id, selected_key, selected_message_id, rebuild_threads,
  visible, refresh_visible_messages,
}
use postblox.Tui.Mailbox.Threads.{times, count, once, build_threads-Sums}
use postblox.Tui.Mailbox.Selected.{times-get, get-within}
use postblox.Tui.MessageList.{
  snapshot_message_list, restore_message_list_snapshot, folder_snapshot, restore_folder_snapshot,
}
use postblox.Tui.MessageList.Synced.{IsSynced}

-- A state of the list is its fields.
same :
    (s : Mailbox) (ts : List ThreadItem) (ms : List MessageItem) (i j : ℕ) (approvals : Bool)
    → ts ≡ s.threads
    → ms ≡ s.messages
    → i ≡ s.selected_thread
    → j ≡ s.selected_message
    → s.approvals_folder_selected ≡ approvals
    → record {
      folder_messages = s.folder_messages;
      threads = ts;
      messages = ms;
      selected_thread = i;
      selected_message = j;
      approvals_folder_selected = approvals;
    }
      ≡ s
same s ts ms i j approvals p q r o a = λ k. record {
  folder_messages = s.folder_messages;
  threads = p k;
  messages = q k;
  selected_thread = r k;
  selected_message = o k;
  approvals_folder_selected = sym a k;
}

-- Rows that are built again and the cursor on them select the visible messages of before.
shown-same :
    (s : Mailbox) (i : ℕ)
    → IsSynced s
    → i ≡ s.selected_thread
    → visible
        (selected_key (record s { threads = build_threads s.folder_messages; selected_thread = i }))
        s.folder_messages
      ≡ s.messages
shown-same s i w h =
    ap (λ x. visible (selected_key x) s.folder_messages)
      (same s (build_threads s.folder_messages) s.messages i s.selected_message
        s.approvals_folder_selected (sym w.rows) refl h refl refl)
    ∙ sym w.shown

-- The snapshot of a list, restored in the same folder after whatever happened to the list, gives
-- it again.
pub restore_message_list_snapshot-snapshot_message_list :
    (s t : Mailbox)
    → IsSynced s
    → s.approvals_folder_selected ≡ t.approvals_folder_selected
    → restore_message_list_snapshot (snapshot_message_list s) t ≡ s
unfolding restore_message_list_snapshot snapshot_message_list rebuild_threads
    refresh_visible_messages
restore_message_list_snapshot-snapshot_message_list s t w h =
    let rows = build_threads s.folder_messages in
    let i : clamp_index s.selected_thread (length rows) ≡ s.selected_thread =
      ap (λ ts. clamp_index s.selected_thread (length ts)) (sym w.rows) ∙ w.thread_within in
    let shown = shown-same s (clamp_index s.selected_thread (length rows)) w i in
    same s rows _ _ _ t.approvals_folder_selected (sym w.rows) shown i
      (ap (λ ms. clamp_index s.selected_message (length ms)) shown ∙ w.message_within) h

-- No two messages have one identifier.
abbrev pub DistinctIds : List MessageItem → Type 0
DistinctIds [] = Unit
DistinctIds (m ∷ ms) = (message_index m.id ms ≡ none) × DistinctIds ms

message_index-some :
    (ms : List MessageItem) (n : ℕ) (m : MessageItem)
    → get_elem? ms n ≡ some m
    → message_index m.id ms ≢ none
message_index-some [] n m h = cc
message_index-some (x ∷ ms) zero m h = λ e. ground (arith, e)
message_index-some (x ∷ ms) (suc n) m h = λ e. message_index-some ms n m h (ground (arith, e))

message_index-own :
    (ms : List MessageItem) (n : ℕ) (m : MessageItem)
    → DistinctIds ms
    → get_elem? ms n ≡ some m
    → message_index m.id ms ≡ some n
message_index-own [] n m d h = cc
message_index-own (x ∷ ms) zero m d h = ground arith
message_index-own (x ∷ ms) (suc n) m d h = elim (Bool-cases (x.id == m.id)) [
  | inl e ↦
      let alike : x.id ≡ m.id = ground arith in
      absurd (message_index-some ms n m h (subst (λ i. message_index i ms ≡ none) alike d.0))
  | inr e ↦ let rest = message_index-own ms n m d.1 h in ground (arith, rest)
]

-- A row of the list is found by its key where the key has one row.
position-key :
    (ts : List ThreadItem) (n : ℕ) (t : ThreadItem)
    → get_elem? ts n ≡ some t
    → times t.key ts ≤ 1
    → position (λ u. u.key == t.key) ts ≡ some n
position-key [] n t h k = cc
position-key (u ∷ ts) zero t h k = ground arith
position-key (u ∷ ts) (suc n) t h k =
    let more = times-get ts n t h in
    elim (Bool-cases (u.key == t.key)) [
      | inl e ↦ absurd (ground arith)
      | inr e ↦ let rest = position-key ts n t h (ground arith) in ground (arith, rest)
    ]

-- A cursor within a list stays where it is when it is found again by what it points at.
kept_within :
    {A : Type 0} (xs : List A) (n d : ℕ) (index : Option A → Option ℕ)
    → clamp_index n (length xs) ≡ n
    → ((a : A) → get_elem? xs n ≡ some a → index (some a) ≡ some n)
    → clamp_index (unwrap_or d (index (get_elem? xs n))) (length xs) ≡ n
kept_within [] n d index h k = h
kept_within (x ∷ xs) n d index h k =
    let (a, found) = get-within (x ∷ xs) n (omega arith) in rw found (rw (k a found) h)

times-build_threads : (ms : List MessageItem) (key : ℕ) → times key (build_threads ms) ≤ 1
times-build_threads ms key = go (count key ms) ((build_threads-Sums ms).0 key)
  where
    go : (n : ℕ) → times key (build_threads ms) ≡ once n → times key (build_threads ms) ≤ 1
    go zero e = omega arith
    go (suc n) e = omega arith

reselected-kept :
    (ts : List ThreadItem) (n d : ℕ)
    → clamp_index n (length ts) ≡ n
    → ((key : ℕ) → times key ts ≤ 1)
    → reselected (index_of_key (key_of (get_elem? ts n)) ts) d (length ts) ≡ n
reselected-kept [] n d h k = h
reselected-kept (t ∷ ts) n d h k =
    let (u, found) = get-within (t ∷ ts) n (omega arith) in
    let again : position (λ x. x.key == u.key) (t ∷ ts) ≡ some n =
      position-key (t ∷ ts) n u found (k u.key) in
    rw found (ap (λ o. reselected o d (suc (length ts))) again)

cursor-kept :
    (s : Mailbox) (d : ℕ) (ms : List MessageItem)
    → IsSynced s
    → DistinctIds s.messages
    → s.approvals_folder_selected ≡ false
    → ms ≡ s.messages
    → clamp_index (unwrap_or d (index_of_id (selected_message_id s) ms)) (length ms)
      ≡ s.selected_message
unfolding selected_message_id
cursor-kept s d ms w distinct h e =
    subst
      (λ ms.
        clamp_index (unwrap_or d (index_of_id (selected_message_id s) ms)) (length ms)
        ≡ s.selected_message)
      (sym e)
      (rw h (
        kept_within s.messages s.selected_message d (λ o. index_of_id (id_of o) s.messages)
          w.message_within
          (λ a found. message_index-own s.messages s.selected_message a distinct found)))

-- What the cache of folders keeps of a list with distinct messages, restored after whatever
-- happened, gives the list again, with the conversation and the message that were selected.
pub restore_folder_snapshot-folder_snapshot :
    (s t : Mailbox)
    → IsSynced s
    → DistinctIds s.messages
    → s.approvals_folder_selected ≡ false
    → t.approvals_folder_selected ≡ false
    → restore_folder_snapshot (folder_snapshot s) t ≡ s
unfolding restore_folder_snapshot folder_snapshot rebuild_threads refresh_visible_messages
    selected_message_id
restore_folder_snapshot-folder_snapshot s t w d h k =
    let rows = build_threads s.folder_messages in
    let i : reselected (index_of_key (selected_key s) rows) t.selected_thread (length rows)
        ≡ s.selected_thread =
      subst
        (λ ts.
          reselected (index_of_key (selected_key s) ts) t.selected_thread (length ts)
          ≡ s.selected_thread)
        w.rows
        (reselected-kept s.threads s.selected_thread t.selected_thread w.thread_within (λ key.
          subst (λ ts. times key ts ≤ 1) (sym w.rows)
            (times-build_threads s.folder_messages key))) in
    let shown = shown-same s _ w i in
    same s rows _ _ _ t.approvals_folder_selected (sym w.rows) shown i
      (cursor-kept s _ _ w d h shown) (h ∙ sym k)
