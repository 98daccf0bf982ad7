-- ===== src/Sync/Ingest/Frame.antt =====
-- The rows that were there before a window is stored (src/sync/reconciler.rs).
use postblox.Common.{
  ℕ, suc, ◌≤◌, ◌<◌, ◌≡◌, Bool, true, not, Option, List, [], ◌∷◌, Result-cases, ◌||◌, is_empty, In,
  In-append_left, In-select, select, All-append, Bool-cases, inl, inr, All, All-In, arith, ◌==◌,
  any,
}
use postblox.Common.Text.{Text}
use postblox.Mail.{ParsedEmail, ParsedAttachment}
use postblox.Mail.Threading.{ThreadRef, ThreadMatch, existing, new, assign_thread}
use postblox.Imap.Client.{FetchedMessage, FolderSync}
use postblox.Db.{Thread, NewMessage, Message, Store, Event}
use postblox.Db.Messages
use postblox.Db.Messages.Distinct.{Distinct, Distinct-append, Distinct-select}
use postblox.Db.Threads
use postblox.Sync.Errors.{attachment}
use postblox.Sync.Exec.{
  M, ◌>>=◌, try_db, Keeps, Keeps-bind, Keeps-pure, Keeps-fail, Keeps-query, Keeps-try_db,
  Keeps-modify,
}
use postblox.Sync.Ingest.{
  Env, Progress, thread_for, persist_or_rollback, announce, store_message, store_parsed, ingest,
  ingest_all, ingest_window, member,
}

-- The identifiers in use are below the next one.
abbrev pub HasFreshIds : Store → Type 0
HasFreshIds s = All (λ m. m.id < s.next_id) s.messages

-- Rows of the store `old` that pass the test are in the store still.
pub record Kept (keep : Message → Bool) (old : Store) (s : Store) : Type 0 where
  pub rows : (m : Message) → In m old.messages → keep m ≡ true → In m s.messages
  pub ids : old.next_id ≤ s.next_id
  pub fresh : HasFreshIds s
  pub distinct : Distinct old.messages → Distinct s.messages

below_suc : (ms : List Message) (n k : ℕ) → n ≤ k → All (λ m. m.id < n) ms → All (λ m. m.id < k) ms
below_suc [] n k h a = tt
below_suc (m ∷ ms) n k h (p, a) = (omega arith, below_suc ms n k h a)

pub select-below :
    (p : Message → Bool) (ms : List Message) (n : ℕ)
    → All (λ m. m.id < n) ms
    → All (λ m. m.id < n) (select p ms)
select-below p [] n a = tt
select-below p (m ∷ ms) n (h, a) = elim (Bool-cases (p m)) [
  | inl e ↦ rw e (h, select-below p ms n a)
  | inr e ↦ rw e (select-below p ms n a)
]

pub Kept-refl : (keep : Message → Bool) (s : Store) → HasFreshIds s → Kept keep s s
Kept-refl keep s f = record { rows = λ m i k. i; ids = omega arith; fresh = f; distinct = λ d. d }

module _ (keep : Message → Bool) (old : Store) (fresh : HasFreshIds old) where
  create-Kept :
      (row : NewMessage) (s : Store) → Kept keep old s → Kept keep old (Messages.create row s).1
  unfolding Messages.create
  create-Kept row s k = elim (Bool-cases (any (Messages.at_uid row.folder_id row.uid) s.messages)) [
    | inl e ↦ rw e k
    | inr e ↦ rw e (record {
      rows = λ m i h. In-append_left _ (k.rows m i h);
      ids = omega (arith, k.ids);
      fresh =
          All-append (λ m. m.id < suc s.next_id) s.messages _
            (below_suc s.messages s.next_id (suc s.next_id) (omega arith) k.fresh)
            (omega arith, tt);
      distinct = λ d. Distinct-append s.messages s.next_id row (k.distinct d) e;
    })
  ]

  delete-Kept :
      (id : ℕ) (s : Store)
      → old.next_id ≤ id
      → Kept keep old s
      → Kept keep old (Messages.delete id s)
  unfolding Messages.delete
  delete-Kept id s above k = record {
    rows = λ m i h. In-select (λ m. not (m.id == id)) (k.rows m i h) (older m (All-In _ i fresh));
    ids = k.ids;
    fresh = select-below (λ m. not (m.id == id)) s.messages s.next_id k.fresh;
    distinct = λ d. Distinct-select (λ m. not (m.id == id)) s.messages (k.distinct d);
  }
    where
      older : (m : Message) → m.id < old.next_id → not (m.id == id) ≡ true
      older m h = ground arith

  threads-Kept :
      (s : Store) (ts : List Thread) (n : ℕ) (es : List Event)
      → s.next_id ≤ n
      → Kept keep old s
      → Kept keep old (record s { threads = ts; next_id = n; events = es })
  threads-Kept s ts n es h k = record {
    rows = k.rows;
    ids = omega (arith, k.ids);
    fresh = below_suc s.messages s.next_id n h k.fresh;
    distinct = k.distinct;
  }

  create_thread-Kept :
      (account : ℕ) (external_id subject : Option Text) (now : ℕ) (s : Store)
      → Kept keep old s
      → Kept keep old (Threads.create account external_id subject now s).1
  unfolding Threads.create
  create_thread-Kept account external_id subject now s k =
      elim (Bool-cases (any (Threads.clashes account external_id) s.threads)) [
        | inl e ↦ rw e k
        | inr e ↦ rw e (threads-Kept s _ (suc s.next_id) s.events (omega arith) k)
      ]

  module _ (env : Env) where
    open env use {now, unicode, parse, persist}

    thread_for-Keeps :
        (account : ℕ) (fetched : FetchedMessage) (parsed : ParsedEmail) (refs : List ThreadRef)
        (found : ThreadMatch)
        → Keeps (Kept keep old) (thread_for env account fetched parsed refs found)
    unfolding thread_for
    thread_for-Keeps account fetched parsed refs (existing id) = Keeps-pure _ _
    thread_for-Keeps account fetched parsed refs new =
        Keeps-bind _ _ _
          (Keeps-try_db _ _ (create_thread-Kept account parsed.message_id parsed.subject now))
          (λ t. Keeps-pure _ _)

    persist_or_rollback-Keeps :
        (id : ℕ) (attachments : List ParsedAttachment)
        → old.next_id ≤ id
        → Keeps (Kept keep old) (persist_or_rollback env id attachments)
    unfolding persist_or_rollback
    persist_or_rollback-Keeps id attachments above = elim (Result-cases (persist id attachments)) [
      | inl (_, e) ↦ rw e (Keeps-pure _ _)
      | inr (x, e) ↦ rw e (
          Keeps-bind _ _ _ (Keeps-modify _ _ (λ s. delete-Kept id s above))
            (λ _. Keeps-fail _ _ (attachment x)))
    ]

    announce-Keeps :
        (account folder : ℕ) (fetched : FetchedMessage) (thread : ℕ) (row : Message)
        → Keeps (Kept keep old) (announce env account folder fetched thread row)
    unfolding announce Threads.touch_last_message_at Threads.refresh_aggregates Keeps
    announce-Keeps account folder fetched thread row s k =
        threads-Kept s _ s.next_id _ (omega arith) k

    -- The row inserted is newer than all rows of the old store, so that a roll-back removes no
    -- other.
    insert_row-Keeps :
        {A : Type 0} (row : NewMessage) (attachments : List ParsedAttachment) (rest : Message → M A)
        → ((m : Message) → Keeps (Kept keep old) (rest m))
        → Keeps (Kept keep old) (
            try_db (Messages.create row) >>= λ m.
            persist_or_rollback env m.id attachments >>= λ _. rest m)
    unfolding Keeps Messages.create
    insert_row-Keeps row attachments rest h s k =
        elim (Bool-cases (any (Messages.at_uid row.folder_id row.uid) s.messages)) [
          | inl e ↦ rw e k
          | inr e ↦
              let m : Message = record { id = s.next_id; row = row } in
              rw e (
                Keeps-bind (Kept keep old) (persist_or_rollback env s.next_id attachments)
                  (λ _. rest m) (persist_or_rollback-Keeps s.next_id attachments k.ids) (λ _. h m) _
                  (rw (e, Messages.create) at (create-Kept row s k)))
        ]

    module _ (account folder : ℕ) where
      store_message-Keeps :
          (fetched : FetchedMessage) (parsed : ParsedEmail) (p : Progress)
          → Keeps (Kept keep old) (store_message env account folder fetched parsed p)
      unfolding store_message
      store_message-Keeps fetched parsed p =
          Keeps-bind _ _ _
            (thread_for-Keeps account fetched parsed p.refs
              (assign_thread unicode now parsed p.refs))
            (λ found. insert_row-Keeps _ _ _ (λ row.
              Keeps-bind _ _ _ (announce-Keeps account folder fetched found.0 row)
                (λ _. Keeps-pure _ _)))

      pub ingest-Keeps :
          (already : List ℕ) (fetched : FetchedMessage) (p : Progress)
          → Keeps (Kept keep old) (ingest env account folder already fetched p)
      unfolding ingest store_parsed
      ingest-Keeps already fetched p =
          elim (Bool-cases (member fetched.uid already || is_empty fetched.raw)) [
            | inl e ↦ rw e (Keeps-pure _ _)
            | inr e ↦ rw e (elim (Result-cases (parse fetched.raw)) [
              | inl (parsed, k) ↦ rw (k, store_parsed) (store_message-Keeps fetched parsed p)
              | inr (x, k) ↦ rw (k, store_parsed) (Keeps-pure _ _)
            ])
          ]

      pub ingest_all-Keeps :
          (already : List ℕ) (ms : List FetchedMessage) (p : Progress)
          → Keeps (Kept keep old) (ingest_all env account folder already ms p)
      unfolding ingest_all
      ingest_all-Keeps already [] p = Keeps-pure _ _
      ingest_all-Keeps already (m ∷ ms) p =
          Keeps-bind _ _ _ (ingest-Keeps already m p) (λ q. ingest_all-Keeps already ms q)

      pub ingest_window-Keeps :
          (server : FolderSync) (p : Progress)
          → Keeps (Kept keep old) (ingest_window env account folder server p)
      unfolding ingest_window
      ingest_window-Keeps server p =
          Keeps-bind _ _ _ (Keeps-query _ _) (λ already. ingest_all-Keeps already server.messages p)
