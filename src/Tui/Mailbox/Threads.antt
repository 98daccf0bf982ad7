-- ===== src/Tui/Mailbox/Threads.antt =====
-- The conversations that src/tui/app.rs builds from the messages of a folder.
use postblox.Common.{
  ℕ, zero, suc, ◌+◌, ◌≡◌, refl, sym, ap, ◌∙◌, subst, Bool, true, false, ◌&&◌, ◌||◌, List, [], ◌∷◌,
  ◌++◌, length, any, select, ◌==◌, if◌then◌else◌, max, arith, Bool-cases, inl, inr, All,
}
use mathlib.Core.List.{append_assoc, append-nil}
use postblox.Tui.Mailbox.{
  MessageItem, ThreadItem, message_thread_key, is_unread, is_flagged, new_thread_item, join_thread,
  add_message, gather, insert_sorted, sort_by, precedes, build_threads,
}

abbrev in_thread : ℕ → MessageItem → Bool
in_thread key m = message_thread_key m == key

-- How many messages of the thread there are, and how many rows it has.
abbrev pub count : ℕ → List MessageItem → ℕ
count key ms = length (select (in_thread key) ms)

abbrev pub times : ℕ → List ThreadItem → ℕ
times key ts = length (select (λ t. t.key == key) ts)

abbrev pub any_in : (MessageItem → Bool) → ℕ → List MessageItem → Bool
any_in p key ms = any (λ m. in_thread key m && p m) ms

-- The row of a conversation says how many messages it has, and whether one of them is unread or
-- flagged.
pub record Sums (ms : List MessageItem) (t : ThreadItem) : Type 0 where
  pub counted : t.message_count ≡ count t.key ms
  pub any_unread : t.unread ≡ any_in is_unread t.key ms
  pub any_flagged : t.flagged ≡ any_in is_flagged t.key ms

abbrev pub once : ℕ → ℕ
once zero = 0
once (suc n) = 1

length-select_snoc :
    {A : Type 0} (p : A → Bool) (xs : List A) (x : A)
    → length (select p (xs ++ (x ∷ []))) ≡ length (select p xs) + (if p x then 1 else 0)
length-select_snoc p [] x = ground arith
length-select_snoc p (y ∷ ys) x = ground (arith, length-select_snoc p ys x)

any_snoc :
    {A : Type 0} (p : A → Bool) (xs : List A) (x : A) → any p (xs ++ (x ∷ [])) ≡ (any p xs || p x)
any_snoc p [] x = ground arith
any_snoc p (y ∷ ys) x = ground (arith, any_snoc p ys x)

none_any :
    (p : MessageItem → Bool) (key : ℕ) (ms : List MessageItem)
    → count key ms ≡ 0
    → any_in p key ms ≡ false
none_any p key [] h = refl
none_any p key (m ∷ ms) h = ground (arith, none_any p key ms)

module _ (m : MessageItem) where
  times-add_other :
      (key : ℕ) (ts : List ThreadItem)
      → message_thread_key m == key ≡ false
      → times key (add_message m ts) ≡ times key ts
  times-add_other key [] h = ground arith
  times-add_other key (t ∷ ts) h = ground (arith, times-add_other key ts)

  times-add_same :
      (ts : List ThreadItem)
      → times (message_thread_key m) (add_message m ts) ≡ max 1 (times (message_thread_key m) ts)
  times-add_same [] = ground arith
  times-add_same (t ∷ ts) = ground (arith, times-add_same ts)

module _ (ms : List MessageItem) (m : MessageItem) where
  Sums-other :
      (t : ThreadItem) → t.key == message_thread_key m ≡ false → Sums ms t → Sums (ms ++ (m ∷ [])) t
  Sums-other t h s =
      let k : in_thread t.key m ≡ false = ground arith in
      record {
        counted =
            s.counted ∙ sym (length-select_snoc (in_thread t.key) ms m ∙ (rw k (omega arith)));
        any_unread =
            s.any_unread
            ∙ sym (any_snoc (λ x. in_thread t.key x && is_unread x) ms m ∙ (rw k (ground arith)));
        any_flagged =
            s.any_flagged
            ∙ sym (any_snoc (λ x. in_thread t.key x && is_flagged x) ms m ∙ (rw k (ground arith)));
      }

  key-join : (t : ThreadItem) → (join_thread m t).key ≡ t.key
  key-join t = ground arith

  Sums-join :
      (t : ThreadItem)
      → t.key == message_thread_key m ≡ true
      → Sums ms t
      → Sums (ms ++ (m ∷ [])) (join_thread m t)
  Sums-join t h s =
      let k : in_thread t.key m ≡ true = ground arith in
      let same = sym (key-join t) in
      record {
        counted =
            ap (λ n. n + 1) s.counted
            ∙ sym (length-select_snoc (in_thread t.key) ms m ∙ (rw k (omega arith)))
            ∙ ap (λ x. count x (ms ++ (m ∷ []))) same;
        any_unread =
            ap (λ b. b || is_unread m) s.any_unread
            ∙ sym (any_snoc (λ x. in_thread t.key x && is_unread x) ms m ∙ (rw k (ground arith)))
            ∙ ap (λ x. any_in is_unread x (ms ++ (m ∷ []))) same;
        any_flagged =
            ap (λ b. b || is_flagged m) s.any_flagged
            ∙ sym (any_snoc (λ x. in_thread t.key x && is_flagged x) ms m ∙ (rw k (ground arith)))
            ∙ ap (λ x. any_in is_flagged x (ms ++ (m ∷ []))) same;
      }

  Sums-new : count (message_thread_key m) ms ≡ 0 → Sums (ms ++ (m ∷ [])) (new_thread_item m)
  Sums-new h =
      let key = message_thread_key m in
      let k : in_thread key m ≡ true = ground arith in
      record {
        counted = sym (length-select_snoc (in_thread key) ms m ∙ (rw k (omega (arith, h))));
        any_unread = sym (
            any_snoc (λ x. in_thread key x && is_unread x) ms m
            ∙ (rw (none_any is_unread key ms h) (rw k refl)));
        any_flagged = sym (
            any_snoc (λ x. in_thread key x && is_flagged x) ms m
            ∙ (rw (none_any is_flagged key ms h) (rw k refl)));
      }

  others-Sums :
      (ts : List ThreadItem)
      → times (message_thread_key m) ts ≡ 0
      → All (Sums ms) ts
      → All (Sums (ms ++ (m ∷ []))) ts
  others-Sums [] h s = tt
  others-Sums (t ∷ ts) h s = elim (Bool-cases (t.key == message_thread_key m)) [
    | inl e ↦ absurd (ground arith)
    | inr e ↦ (Sums-other t e s.0, others-Sums ts (ground arith) s.1)
  ]

  add-Sums :
      (ts : List ThreadItem)
      → times (message_thread_key m) ts ≡ once (count (message_thread_key m) ms)
      → All (Sums ms) ts
      → All (Sums (ms ++ (m ∷ []))) (add_message m ts)
  add-Sums [] h s = (Sums-new (ground arith), tt)
  add-Sums (t ∷ ts) h s = elim (Bool-cases (t.key == message_thread_key m)) [
    | inl e ↦ rw e (Sums-join t e s.0, others-Sums ts (ground arith) s.1)
    | inr e ↦ rw e (Sums-other t e s.0, add-Sums ts (ground arith) s.1)
  ]

abbrev Once : List MessageItem → List ThreadItem → Type 0
Once ms ts = (key : ℕ) → times key ts ≡ once (count key ms)

add-Once :
    (ms : List MessageItem) (m : MessageItem) (ts : List ThreadItem)
    → Once ms ts
    → Once (ms ++ (m ∷ [])) (add_message m ts)
add-Once ms m ts h key = elim (Bool-cases (message_thread_key m == key)) [
  | inl e ↦
      let same : message_thread_key m ≡ key = ground arith in
      subst (λ x. times x (add_message m ts) ≡ once (count x (ms ++ (m ∷ [])))) same
        (times-add_same m ts
          ∙ ground (
            arith,
            h (message_thread_key m),
            length-select_snoc (in_thread (message_thread_key m)) ms m,
          ))
  | inr e ↦
      times-add_other m key ts e ∙ ground (arith, h key, length-select_snoc (in_thread key) ms m)
]

gather-Sums :
    (rest done : List MessageItem) (ts : List ThreadItem)
    → Once done ts
    → All (Sums done) ts
    → Once (done ++ rest) (gather rest ts) × All (Sums (done ++ rest)) (gather rest ts)
gather-Sums [] done ts o s = (
  subst (λ ms. Once ms ts) (sym (append-nil done)) o,
  subst (λ ms. All (Sums ms) ts) (sym (append-nil done)) s,
)
gather-Sums (m ∷ rest) done ts o s =
    subst
      (λ ms.
        Once ms (gather rest (add_message m ts)) × All (Sums ms) (gather rest (add_message m ts)))
      (append_assoc done (m ∷ []) rest)
      (gather-Sums rest (done ++ (m ∷ [])) (add_message m ts) (add-Once done m ts o)
        (add-Sums done m ts (o (message_thread_key m)) s))

module _ (before : ThreadItem → ThreadItem → Bool) where
  insert-All :
      (P : ThreadItem → Type 0) (t : ThreadItem) (ts : List ThreadItem)
      → P t
      → All P ts
      → All P (insert_sorted before t ts)
  insert-All P t [] p h = (p, tt)
  insert-All P t (u ∷ ts) p h = elim (Bool-cases (before u t)) [
    | inl e ↦ rw e (h.0, insert-All P t ts p h.1)
    | inr e ↦ rw e (p, h)
  ]

  sort-All : (P : ThreadItem → Type 0) (ts : List ThreadItem) → All P ts → All P (sort_by before ts)
  sort-All P [] h = tt
  sort-All P (t ∷ ts) h = insert-All P t (sort_by before ts) h.0 (sort-All P ts h.1)

  times-insert :
      (key : ℕ) (t : ThreadItem) (ts : List ThreadItem)
      → times key (insert_sorted before t ts) ≡ times key (t ∷ ts)
  times-insert key t [] = refl
  times-insert key t (u ∷ ts) = ground (arith, times-insert key t ts)

  times-sort : (key : ℕ) (ts : List ThreadItem) → times key (sort_by before ts) ≡ times key ts
  times-sort key [] = refl
  times-sort key (t ∷ ts) =
      times-insert key t (sort_by before ts) ∙ ground (arith, times-sort key ts)

-- A conversation has one row where a message of the folder belongs to it, and none otherwise, and
-- each row has the number of its messages and says whether one is unread or flagged.
pub build_threads-Sums :
    (ms : List MessageItem)
    → ((key : ℕ) → times key (build_threads ms) ≡ once (count key ms))
      × All (Sums ms) (build_threads ms)
unfolding build_threads
build_threads-Sums ms =
    let (o, s) = gather-Sums ms [] [] (λ key. refl) tt in
    (λ key. times-sort precedes key (gather ms []) ∙ o key, sort-All precedes (Sums ms) _ s)
