-- ===== src/Sync/Ingest/Clash.antt =====
-- A message whose thread cannot be created.
use postblox.Common.{
  ℕ, ◌+◌, ◌≡◌, ◌≢◌, refl, sym, ap, ◌∙◌, ◌↔◌, true, Option, none, some, List, ◌∷◌, In, Result, ok,
  err, any, any_sound, any_complete, Bool-cases, Result-cases, inl, inr, ◌==◌, ==_iff, and-eq-true,
  arith,
}
use postblox.Common.Text.{Text, codes}
use postblox.Common.Text.Equality.{text_eq_iff, text_eq_refl}
use postblox.Mail.{ParsedEmail, ParsedAttachment}
use postblox.Mail.Threading.{ThreadRef, ThreadMatch, existing, new, assign_thread}
use postblox.Mail.Threading.Assignment.{Linked, assign_thread-new_iff}
use postblox.Imap.Client.{FetchedMessage}
use postblox.Db.{Thread, Message, Store, unique_violation}
use postblox.Db.Messages
use postblox.Db.Threads
use postblox.Sync.Errors.{SyncError, db}
use postblox.Sync.Exec.{M, ◌>>=◌, ◌>>◌, pure, proceed, try_db}
use postblox.Sync.Ingest.{
  Env, Progress, thread_for, persist_or_rollback, announce, build_message_row, store_message,
}

-- A stored thread of the account has the Message-ID as its external identifier.
pub record Taken (account : ℕ) (message_id : Option Text) (s : Store) : Type 0 where
  pub thread : Thread
  pub stored : In thread s.threads
  pub owned : thread.account_id ≡ account
  pub id : Text
  pub named : message_id ≡ some id
  pub same : thread.external_id ≡ some id

clashes_sound :
    (account : ℕ) (message_id external_id : Option Text) (t : Thread)
    → t.external_id ≡ external_id
    → Threads.clashes account message_id t ≡ true
    → (t.account_id ≡ account) × (id : Text) × (message_id ≡ some id) × (t.external_id ≡ some id)
unfolding Threads.clashes
clashes_sound account none external_id t e h = cc
clashes_sound account (some id) none t e h =
    cc (rw e at (and-eq-true (t.account_id == account) _ h).1)
clashes_sound account (some id) (some x) t e h =
    let (a, b) = and-eq-true (t.account_id == account) _ h in
    (
      (==_iff t.account_id account).0 a,
      id,
      refl,
      e ∙ ap some (sym ((text_eq_iff id x).0 (rw e at b))),
    )

clashes_complete :
    (account : ℕ) (id : Text) (t : Thread)
    → t.account_id ≡ account
    → t.external_id ≡ some id
    → Threads.clashes account (some id) t ≡ true
unfolding Threads.clashes
clashes_complete account id t a e =
    let owned : t.account_id == account ≡ true = (==_iff t.account_id account).1 a in
    rw owned (rw e (text_eq_refl id))

Taken-iff :
    (account : ℕ) (message_id : Option Text) (s : Store)
    → (any (Threads.clashes account message_id) s.threads ≡ true) ↔ Taken account message_id s
Taken-iff account message_id s = (
  λ h.
      let (t, i, c) = any_sound (Threads.clashes account message_id) s.threads h in
      let (owned, id, named, same) = clashes_sound account message_id t.external_id t refl c in
      record { thread = t; stored = i; owned = owned; id = id; named = named; same = same },
  λ k.
      any_complete (Threads.clashes account message_id) k.stored
        (rw k.named (clashes_complete account k.id k.thread k.owned k.same)),
)

abbrev pub thread_refused : SyncError
thread_refused = db (unique_violation (codes "threads.account_id, threads.external_id"))

abbrev first_code : Result SyncError Message → ℕ
first_code (err (db (unique_violation (c ∷ cs)))) = c
first_code _ = 0

-- The other UNIQUE constraint is another error.
messages_refused :
    ◌≢◌ {A = Result SyncError Message}
      (err (db (unique_violation (codes "messages.folder_id, messages.uid"))))
      (err thread_refused)
messages_refused k = let h : ◌≡◌ {A = ℕ} 109 116 = ap first_code k in omega arith

-- An action that never ends with the error of a thread that is refused
abbrev Avoids : {A : Type 0} → M A → Type 0
Avoids m = (s : Store) → (m s).0 ≢ err thread_refused

proceed-Avoids :
    {A B : Type 0} (o : Result SyncError A × Store) (f : A → M B)
    → o.0 ≢ err thread_refused
    → ((a : A) → Avoids (f a))
    → (proceed o f).0 ≢ err thread_refused
proceed-Avoids (ok a, s) f h k = k a s
proceed-Avoids (err e, s) f h k = λ l. h (cc)

module _ (env : Env) (account folder : ℕ) (fetched : FetchedMessage) (parsed : ParsedEmail) where
  persist_or_rollback-Avoids :
      (id : ℕ) (attachments : List ParsedAttachment)
      → Avoids (persist_or_rollback env id attachments)
  unfolding persist_or_rollback
  persist_or_rollback-Avoids id attachments s = elim (Result-cases (env.persist id attachments)) [
    | inl (_, e) ↦ rw e (λ k. cc)
    | inr (x, e) ↦ rw e (λ k. cc)
  ]

  create-Avoids :
      (thread_id : ℕ)
      → Avoids (
          try_db
            (Messages.create (build_message_row env.now account folder thread_id fetched parsed)))
  unfolding Messages.create build_message_row
  create-Avoids thread_id s =
      elim (Bool-cases (any (Messages.at_uid folder fetched.uid) s.messages)) [
        | inl e ↦ rw e (λ k. messages_refused k)
        | inr e ↦ rw e (λ k. cc)
      ]

  announce-Avoids :
      (thread_id : ℕ) (row : Message) → Avoids (announce env account folder fetched thread_id row)
  unfolding announce
  announce-Avoids thread_id row s = λ k. cc

  -- What follows when the thread is there
  abbrev stored_in : (inserted : ℕ) → ℕ × List ThreadRef → M Progress
  stored_in inserted (thread_id, refs) = do
    row ←
        try_db (Messages.create (build_message_row env.now account folder thread_id fetched parsed))
    persist_or_rollback env row.id parsed.attachments
    announce env account folder fetched thread_id row
    pure (record { refs = refs; inserted = inserted + 1 })

  stored_in-Avoids : (inserted : ℕ) (found : ℕ × List ThreadRef) → Avoids (stored_in inserted found)
  stored_in-Avoids inserted (thread_id, refs) s =
      proceed-Avoids _ _ (create-Avoids thread_id s) (λ row u.
        proceed-Avoids _ _ (persist_or_rollback-Avoids row.id parsed.attachments u)
          (λ _ v. proceed-Avoids _ _ (announce-Avoids thread_id row v) (λ _ w k. cc)))

  -- The message is refused for its thread exactly when no known thread is tied to it by reply
  -- header, reference or recent subject, and yet a stored thread of the account has its Message-ID
  -- as external identifier; the store is then as it was.
  pub store_message-clash_iff :
      (p : Progress) (s : Store)
      → (store_message env account folder fetched parsed p s ≡ (err thread_refused, s)) ↔ (
          ((t : ThreadRef) → In t p.refs → ¬ Linked env.unicode env.now parsed t)
          × Taken account parsed.message_id s)
  unfolding store_message thread_for Threads.create
  store_message-clash_iff p s = go (assign_thread env.unicode env.now parsed p.refs) refl
    where
      not_both :
          {A : Type 0} (found : ℕ × List ThreadRef) (u : Store)
          → stored_in p.inserted found u ≡ (err thread_refused, s)
          → A
      not_both found u h = absurd (stored_in-Avoids p.inserted found u (ap (λ o. o.0) h))

      go :
          (m : ThreadMatch)
          → assign_thread env.unicode env.now parsed p.refs ≡ m
          → (store_message env account folder fetched parsed p s ≡ (err thread_refused, s)) ↔ (
              ((t : ThreadRef) → In t p.refs → ¬ Linked env.unicode env.now parsed t)
              × Taken account parsed.message_id s)
      go (existing id) e = (
        λ h. not_both (id, p.refs) s (rw (e, thread_for) at h),
        λ k. cc (sym e ∙ (assign_thread-new_iff env.unicode env.now parsed p.refs).1 k.0),
      )
      go new e = elim (Bool-cases (any (Threads.clashes account parsed.message_id) s.threads)) [
        | inl taken ↦ (
          λ h. (
            (assign_thread-new_iff env.unicode env.now parsed p.refs).0 e,
            (Taken-iff account parsed.message_id s).0 taken,
          ),
          λ k. rw (e, taken) refl,
        )
        | inr free ↦ (
          λ h. not_both _ _ (rw (e, thread_for, free) at h),
          λ k. cc (sym free ∙ (Taken-iff account parsed.message_id s).1 k.1),
        )
      ]
