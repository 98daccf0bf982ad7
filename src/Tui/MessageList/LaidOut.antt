-- ===== src/Tui/MessageList/LaidOut.antt =====
-- The lists of src/tui/app.rs are built from the folder's messages whatever changes them, a jump to
-- another account included, which leaves the index of the selected message behind.
use postblox.Common.{
  ℕ, zero, suc, ◌-◌, ◌≡◌, ◌≢◌, refl, sym, ap, ◌∙◌, subst, Bool, true, false, Option, none, some,
  unwrap_or, List, [], ◌∷◌, length, is_empty, if◌then◌else◌, leb, ◌==◌, pos, negsuc, arith,
  Bool-cases, inl, inr, ℤ, All,
}
use postblox.Common.Text.{Text}
use postblox.Tui.Mailbox.{
  MessageItem, Mailbox, build_threads, clamp_index, move_index, message_index, selected_key,
  visible, sort_messages_oldest_first,
}
use postblox.Tui.Mailbox.Selected.{position-found}
use postblox.Tui.MessageList.{
  apply_folder_messages, clear_lists, moved, move_conversation, remove_message_locally,
  restore_folder_snapshot, with_flags, apply_message_flags, stepped, move_conversation_detail_focus,
  jump_to_hit, Change, messages_applied, focus_moved, jumped, folder_arrived, folder_changed,
  moved_by, removed, undone, restored, flagged, change, change_all,
}
use postblox.Tui.MessageList.Synced.{
  IsSynced, clamp_index-within, move_index-within, refresh-IsSynced, refreshed-IsSynced,
  clamped-IsSynced, restore_list-IsSynced,
}

-- The same, but the selected message may be beyond the visible ones in a folder without messages.
pub record IsLaidOut (s : Mailbox) : Type 0 where
  pub rows : s.threads ≡ build_threads s.folder_messages
  pub shown : s.messages ≡ visible (selected_key s) s.folder_messages
  pub thread_within : clamp_index s.selected_thread (length s.threads) ≡ s.selected_thread
  pub message_within :
      s.folder_messages ≢ []
      → clamp_index s.selected_message (length s.messages) ≡ s.selected_message

pub IsSynced-IsLaidOut : {s : Mailbox} → IsSynced s → IsLaidOut s
IsSynced-IsLaidOut w = record {
  rows = w.rows;
  shown = w.shown;
  thread_within = w.thread_within;
  message_within = λ h. w.message_within;
}

-- What leaves the visible messages to those of the folder: `apply_messages` does not.
abbrev pub KeepsShown : Change → Type 0
KeepsShown (messages_applied _) = ⊥
KeepsShown (focus_moved _ _) = Unit
KeepsShown (jumped _ _ _ _) = Unit
KeepsShown (folder_arrived _) = Unit
KeepsShown (folder_changed _) = Unit
KeepsShown (moved_by _ _) = Unit
KeepsShown (removed _) = Unit
KeepsShown (undone _) = Unit
KeepsShown (restored _) = Unit
KeepsShown (flagged _ _) = Unit

holds_if : {A : Type 0} (P : A → Type 0) (b : Bool) (x y : A) → P x → P y → P (if b then x else y)
holds_if P true x y p q = p
holds_if P false x y p q = q

move_index-stays :
    (n len : ℕ) (delta : ℤ)
    → (move_index n len delta).1 ≡ false
    → clamp_index n len ≡ (move_index n len delta).0
move_index-stays n zero delta h = refl
move_index-stays n (suc len) (pos k) h = ground arith
move_index-stays n (suc len) (negsuc k) h = ground arith

moved-IsLaidOut :
    (s : Mailbox) (i : ℕ) (changed : Bool)
    → IsLaidOut s
    → clamp_index i (length s.threads) ≡ i
    → (changed ≡ false → s.selected_thread ≡ i)
    → IsLaidOut (moved (i, changed) s)
moved-IsLaidOut s i true w h k =
    IsSynced-IsLaidOut
      (refresh-IsSynced (record s { selected_thread = i; selected_message = 0 }) w.rows h)
moved-IsLaidOut s i false w h k =
    subst (λ n. IsLaidOut (record s { selected_thread = n })) (k refl) w

move-IsLaidOut :
    (s : Mailbox) (drafts : Bool) (delta : ℤ)
    → IsLaidOut s
    → IsLaidOut (move_conversation drafts delta s)
unfolding move_conversation
move-IsLaidOut s drafts delta w =
    let m = move_index s.selected_thread (length s.threads) delta in
    holds_if IsLaidOut s.approvals_folder_selected s _ w (
      holds_if IsLaidOut drafts s (moved m s) w (
        moved-IsLaidOut s m.0 m.1 w (move_index-within s.selected_thread (length s.threads) delta)
          (λ e.
            sym w.thread_within ∙ move_index-stays s.selected_thread (length s.threads) delta e)))

remove-IsLaidOut : (s : Mailbox) (id : ℕ) → IsLaidOut s → IsLaidOut (remove_message_locally id s).0
unfolding remove_message_locally
remove-IsLaidOut s id w =
    holds_if (λ (r : Mailbox × Bool). IsLaidOut r.0) _ (s, false) _ w
      (IsSynced-IsLaidOut (refreshed-IsSynced _ _))

with_flags-empty :
    (id : ℕ) (flags : List Text) (ms : List MessageItem)
    → is_empty (with_flags id flags ms) ≡ true
    → ms ≡ []
with_flags-empty id flags [] h = refl
with_flags-empty id flags (m ∷ ms) h = absurd (ground arith)

visible-nil : (key : Option ℕ) → visible key [] ≡ []
unfolding sort_messages_oldest_first
visible-nil none = refl
visible-nil (some key) = refl

with_flags-nil :
    (id : ℕ) (flags : List Text) (ms : List MessageItem) → ms ≡ [] → ms ≡ with_flags id flags ms
with_flags-nil id flags [] h = refl
with_flags-nil id flags (m ∷ ms) h = cc

-- An empty folder shows nothing.
shown-nil : (s : Mailbox) → IsLaidOut s → s.folder_messages ≡ [] → s.messages ≡ []
shown-nil s w h = w.shown ∙ ap (visible (selected_key s)) h ∙ visible-nil (selected_key s)

flags-IsLaidOut :
    (s : Mailbox) (id : ℕ) (flags : List Text)
    → IsLaidOut s
    → IsLaidOut (apply_message_flags id flags s)
unfolding apply_message_flags
flags-IsLaidOut s id flags w =
    elim (Bool-cases (is_empty (with_flags id flags s.folder_messages))) [
      | inl e ↦
          rw e
            let none : s.folder_messages ≡ [] = with_flags-empty id flags s.folder_messages e in
              subst
                (λ ms. IsLaidOut (record s {
                  folder_messages = with_flags id flags s.folder_messages;
                  messages = ms;
                }))
                (with_flags-nil id flags s.messages (shown-nil s w none))
                (subst (λ ms. IsLaidOut (record s { folder_messages = ms }))
                  (with_flags-nil id flags s.folder_messages none) w)
      | inr e ↦ rw e (IsSynced-IsLaidOut (refreshed-IsSynced _ _))
    ]

position-within :
    (n id : ℕ) (ms : List MessageItem)
    → clamp_index n (length ms) ≡ n
    → clamp_index (unwrap_or n (message_index id ms)) (length ms)
      ≡ unwrap_or n (message_index id ms)
position-within n id ms h = go (message_index id ms) refl
  where
    go :
        (o : Option ℕ)
        → message_index id ms ≡ o
        → clamp_index (unwrap_or n o) (length ms) ≡ unwrap_or n o
    go none e = h
    go (some k) e =
        let (a, found, holds, inside) = position-found (λ m. m.id == id) ms k e in
        clamp_index-within k (length ms) inside

jump-IsLaidOut :
    (s : Mailbox) (found other approvals : Bool) (id : ℕ)
    → IsLaidOut s
    → IsLaidOut (jump_to_hit found other approvals id s)
unfolding jump_to_hit build_threads
jump-IsLaidOut s false other approvals id w = w
jump-IsLaidOut s true true approvals id w = record {
  rows = refl;
  shown = refl;
  thread_within = refl;
  message_within = λ h. absurd (h refl);
}
jump-IsLaidOut s true false approvals id w = record {
  rows = w.rows;
  shown = w.shown;
  thread_within = w.thread_within;
  message_within = λ h. position-within s.selected_message id s.messages (w.message_within h);
}

stepped-within :
    (current n : ℕ) (delta : ℤ)
    → clamp_index (stepped current n delta) (suc n) ≡ stepped current n delta
stepped-within current n (pos k) = omega arith
stepped-within current n (negsuc k) = omega arith

stepped-clamped :
    (current len : ℕ) (delta : ℤ)
    → leb len 1 ≡ false
    → clamp_index (stepped current (len - 1) delta) len ≡ stepped current (len - 1) delta
stepped-clamped current zero delta h = cc
stepped-clamped current (suc n) delta h =
    let e : suc n - 1 ≡ n = omega arith in rw e (stepped-within current n delta)

focus-IsLaidOut :
    (s : Mailbox) (focused : Option ℕ) (delta : ℤ)
    → IsLaidOut s
    → IsLaidOut (move_conversation_detail_focus focused delta s)
unfolding move_conversation_detail_focus
focus-IsLaidOut s focused delta w = elim (Bool-cases (leb (length s.messages) 1)) [
  | inl e ↦ rw e w
  | inr e ↦ rw e (
      holds_if IsLaidOut _ s _ w (record {
        rows = w.rows;
        shown = w.shown;
        thread_within = w.thread_within;
        message_within = λ h. stepped-clamped _ (length s.messages) delta e;
      }))
]

change-IsLaidOut : (c : Change) (s : Mailbox) → KeepsShown c → IsLaidOut s → IsLaidOut (change c s)
unfolding change apply_folder_messages clear_lists restore_folder_snapshot build_threads
change-IsLaidOut (messages_applied messages) s k w = absurd k
change-IsLaidOut (focus_moved focused delta) s k w = focus-IsLaidOut s focused delta w
change-IsLaidOut (jumped found other approvals id) s k w =
    jump-IsLaidOut s found other approvals id w
change-IsLaidOut (folder_arrived messages) s k w = IsSynced-IsLaidOut (refreshed-IsSynced _ _)
change-IsLaidOut (folder_changed approvals) s k w = record {
  rows = refl;
  shown = refl;
  thread_within = refl;
  message_within = λ h. refl;
}
change-IsLaidOut (moved_by drafts delta) s k w = move-IsLaidOut s drafts delta w
change-IsLaidOut (removed id) s k w = remove-IsLaidOut s id w
change-IsLaidOut (undone snapshot) s k w = IsSynced-IsLaidOut (restore_list-IsSynced s snapshot)
change-IsLaidOut (restored snapshot) s k w =
    IsSynced-IsLaidOut (clamped-IsSynced _ _ (refreshed-IsSynced _ _))
change-IsLaidOut (flagged id flags) s k w = flags-IsLaidOut s id flags w

-- After any changes of the message list but `apply_messages`, its rows and visible messages are
-- those of the folder's messages and of the selection, the selected conversation is within the
-- rows, and, where the folder has messages, the selected message within the visible ones.
pub change_all-IsLaidOut :
    (changes : List Change) (s : Mailbox)
    → All KeepsShown changes
    → IsLaidOut s
    → IsLaidOut (change_all changes s)
unfolding change_all
change_all-IsLaidOut [] s k w = w
change_all-IsLaidOut (c ∷ changes) s k w =
    change_all-IsLaidOut changes (change c s) k.1 (change-IsLaidOut c s k.0 w)
