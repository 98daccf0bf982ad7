-- ===== src/Tui/Mailbox/Selected.antt =====
-- What stays selected in src/tui/app.rs when the messages of the folder change.
use postblox.Common.{
  ℕ, zero, suc, ◌≤◌, ◌<◌, ◌≡◌, ◌≢◌, refl, ap, ◌∙◌, Bool, true, Option, none, some, unwrap_or, List,
  [], ◌∷◌, length, get_elem?, select, ◌==◌, arith,
}
use postblox.Tui.Mailbox.{
  MessageItem, ThreadItem, Mailbox, message_thread_key, insert_sorted, sort_by, older,
  build_threads, sort_messages_oldest_first, position, clamp_index, reselected, index_of_key,
  message_index, selected_key, selected_message_id, rebuild_threads, visible, cursor_on,
  refresh_visible_messages, refreshed,
}
use postblox.Tui.Mailbox.Threads.{count, times, build_threads-Sums}

module _ {A : Type 0} (p : A → Bool) where
  pub position-found :
      (xs : List A) (n : ℕ)
      → position p xs ≡ some n
      → (a : A) × (get_elem? xs n ≡ some a) × (p a ≡ true) × (n < length xs)
  position-found [] n h = cc
  position-found (x ∷ xs) zero h = (x, refl, ground arith, omega arith)
  position-found (x ∷ xs) (suc k) h =
      let rest : position p xs ≡ some k = ground arith in
      let (a, found, holds, inside) = position-found xs k rest in (a, found, holds, omega arith)

  position-none : (xs : List A) → position p xs ≡ none → length (select p xs) ≡ 0
  position-none [] h = refl
  position-none (x ∷ xs) h = ground (arith, position-none xs)

  length-insert :
      (before : A → A → Bool) (a : A) (xs : List A)
      → length (insert_sorted before a xs) ≡ suc (length xs)
  length-insert before a [] = refl
  length-insert before a (x ∷ xs) = ground (arith, length-insert before a xs)

  length-sort : (before : A → A → Bool) (xs : List A) → length (sort_by before xs) ≡ length xs
  length-sort before [] = refl
  length-sort before (x ∷ xs) =
      length-insert before x (sort_by before xs) ∙ ap suc (length-sort before xs)

pub times-get :
    (ts : List ThreadItem) (n : ℕ) (t : ThreadItem) → get_elem? ts n ≡ some t → 0 < times t.key ts
times-get [] n t h = cc
times-get (u ∷ ts) zero t h = let e : u ≡ t = cc in rw e (ground arith)
times-get (u ∷ ts) (suc n) t h = ground (arith, times-get ts n t)

pub get-within :
    {A : Type 0} (xs : List A) (n : ℕ) → n < length xs → (a : A) × (get_elem? xs n ≡ some a)
get-within [] n h = absurd (omega arith)
get-within (x ∷ xs) zero h = (x, refl)
get-within (x ∷ xs) (suc n) h = get-within xs n (omega arith)

times-le : (key : ℕ) (ts : List ThreadItem) → times key ts ≤ length ts
times-le key [] = omega arith
times-le key (t ∷ ts) = ground (arith, times-le key ts)

build_threads-pos : (m : MessageItem) (ms : List MessageItem) → 0 < length (build_threads (m ∷ ms))
build_threads-pos m ms =
    let key = message_thread_key m in
    let here : 0 < count key (m ∷ ms) = ground arith in
    let row : 0 < times key (build_threads (m ∷ ms)) =
      ground (arith, (build_threads-Sums (m ∷ ms)).0 key) in
    omega (arith, times-le key (build_threads (m ∷ ms)))

-- A conversation that has a row has messages.
visible-pos :
    (ms : List MessageItem) (n : ℕ) (t : ThreadItem)
    → get_elem? (build_threads ms) n ≡ some t
    → 0 < length (visible (some t.key) ms)
unfolding sort_messages_oldest_first
visible-pos ms n t h =
    let row = times-get (build_threads ms) n t h in
    let many : 0 < count t.key ms = ground (arith, (build_threads-Sums ms).0 t.key, row) in
    omega
      (arith, length-sort (λ m. true) older (select (λ m. message_thread_key m == t.key) ms), many)

pub cursor_on-lt :
    (previous : Option ℕ) (ms : List MessageItem)
    → 0 < length ms
    → cursor_on previous ms < length ms
cursor_on-lt previous [] h = absurd (omega arith)
cursor_on-lt none (m ∷ ms) h = omega arith
cursor_on-lt (some id) (m ∷ ms) h = go (message_index id (m ∷ ms)) refl
  where
    go : (o : Option ℕ) → message_index id (m ∷ ms) ≡ o → unwrap_or (length ms) o < suc (length ms)
    go none e = omega arith
    go (some n) e =
        let (a, found, holds, inside) = position-found (λ x. x.id == id) (m ∷ ms) n e in inside

pub clamp_index-lt : (n len : ℕ) → 0 < len → clamp_index n len < len
clamp_index-lt n zero h = absurd (omega arith)
clamp_index-lt n (suc len) h = omega arith

pub reselected-lt :
    (key : Option ℕ) (n : ℕ) (ts : List ThreadItem)
    → 0 < length ts
    → reselected (index_of_key key ts) n (length ts) < length ts
reselected-lt none n ts h = clamp_index-lt n (length ts) h
reselected-lt (some key) n ts h = go (position (λ t. t.key == key) ts) refl
  where
    go :
        (o : Option ℕ)
        → position (λ t. t.key == key) ts ≡ o
        → reselected o n (length ts) < length ts
    go none e = clamp_index-lt n (length ts) h
    go (some i) e =
        let (a, found, holds, inside) = position-found (λ t. t.key == key) ts i e in inside

-- Where the folder has messages, a conversation and one of its messages are selected after the
-- rows are built again.
pub refreshed-selects :
    (key : Option ℕ) (s : Mailbox)
    → s.folder_messages ≢ []
    → ((refreshed key s).selected_thread < length (refreshed key s).threads)
      × ((refreshed key s).selected_message < length (refreshed key s).messages)
unfolding refresh_visible_messages rebuild_threads
refreshed-selects key s h = go s.folder_messages h
  where
    go :
        (ms : List MessageItem)
        → ms ≢ []
        → (reselected
              (index_of_key key (build_threads ms))
              s.selected_thread
              (length (build_threads ms))
            < length (build_threads ms))
          × (let s' = record s {
            folder_messages = ms;
            threads = build_threads ms;
            selected_thread =
                reselected
                  (index_of_key key (build_threads ms))
                  s.selected_thread
                  (length (build_threads ms));
          } in
              cursor_on (selected_message_id s') (visible (selected_key s') ms)
              < length (visible (selected_key s') ms))
    go [] k = absurd (k refl)
    go (m ∷ ms) k =
        let ts = build_threads (m ∷ ms) in
        let i = reselected (index_of_key key ts) s.selected_thread (length ts) in
        let inside : i < length ts =
          reselected-lt key s.selected_thread ts (build_threads-pos m ms) in
        let (t, found) = get-within ts i inside in
        (inside, rw found (cursor_on-lt _ _ (visible-pos (m ∷ ms) i t found)))

-- A conversation that still has messages stays the selected one, wherever its row has moved to.
pub refreshed-keeps :
    (key : ℕ) (s : Mailbox)
    → 0 < count key s.folder_messages
    → selected_key (refreshed (some key) s) ≡ some key
unfolding refresh_visible_messages rebuild_threads
refreshed-keeps key s h = go (position (λ t. t.key == key) ts) refl
  where
    ts : List ThreadItem
    ts = build_threads s.folder_messages

    go :
        (o : Option ℕ)
        → position (λ t. t.key == key) ts ≡ o
        → selected_key (record s {
          threads = ts;
          selected_thread = reselected o s.selected_thread (length ts);
        })
          ≡ some key
    go none e = absurd (
        ground (
          arith,
          position-none (λ t. t.key == key) ts e,
          (build_threads-Sums s.folder_messages).0 key,
        ))
    go (some i) e =
        let (a, found, holds, inside) = position-found (λ t. t.key == key) ts i e in
        rw found (ground arith)
