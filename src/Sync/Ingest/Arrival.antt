-- ===== src/Sync/Ingest/Arrival.antt =====
-- The rows of the messages of a stored window (src/sync/reconciler.rs).
use postblox.Common.{
  ℕ, suc, ◌≡◌, refl, sym, ap, subst, ◌∙◌, Bool, true, false, ◌||◌, List, [], ◌∷◌, ◌++◌, Result, ok,
  Result-cases, ◌⊎◌, In, here, there, In-append_right, Bool-cases, inl, inr, is_empty, arith, ◌==◌,
  any, any_sound, or-eq-true, ==_iff,
}
use postblox.Mail.{ParsedEmail, ParsedAttachment}
use postblox.Mail.Threading.{assign_thread}
use postblox.Imap.Client.{FetchedMessage, FolderSync}
use postblox.Db.{NewMessage, Message, Store}
use postblox.Db.Messages
use postblox.Db.Threads
use postblox.Sync.Errors.{SyncError}
use postblox.Sync.Exec.{M, try_db, Keeps, >>=-ok}
use postblox.Sync.Ingest.{
  Env, Progress, thread_for, persist_or_rollback, announce, store_message, store_parsed, ingest,
  ingest_all, ingest_window, build_message_row, member,
}
use postblox.Sync.Ingest.Frame.{HasFreshIds, Kept, Kept-refl, ingest-Keeps, ingest_all-Keeps}

-- The folder has a row for the UID.
pub record Present (folder uid : ℕ) (s : Store) : Type 0 where
  pub message : Message
  pub stored : In message s.messages
  pub placed : Messages.at_uid folder uid message ≡ true

abbrev everything : Message → Bool
everything m = true

pub Kept-Present :
    {folder uid : ℕ} {s t : Store}
    → Kept everything s t
    → Present folder uid s
    → Present folder uid t
Kept-Present k p = record {
  message = p.message;
  stored = k.rows p.message p.stored refl;
  placed = p.placed;
}

-- After a success, what the action keeps holds of the store that it left.
pub after {ℓ} :
    {A : Type ℓ} (P : Store → Type 0) (m : M A) (s : Store) (a : A) (t : Store)
    → Keeps P m
    → P s
    → m s ≡ (ok a, t)
    → P t
unfolding Keeps
after P m s a t k p e = subst (λ o. P (o.1)) e (k s p)

-- What the loop has to store: a message with a body, and one that parses.
pub record Readable (env : Env) (m : FetchedMessage) : Type 0 where
  pub body : is_empty m.raw ≡ false
  pub email : ParsedEmail
  pub parses : env.parse m.raw ≡ ok email

module _ (env : Env) (account folder : ℕ) where
  open env use {now, unicode, parse, persist}

  create-Present :
      (row : NewMessage) (s : Store) (m : Message) (t : Store)
      → try_db (Messages.create row) s ≡ (ok m, t)
      → Present row.folder_id row.uid t
  unfolding Messages.create
  create-Present row s m t h =
      elim (Bool-cases (any (Messages.at_uid row.folder_id row.uid) s.messages)) [
        | inl e ↦ absurd (cc (rw e at h))
        | inr e ↦ placed (rw e at h)
      ]
    where
      placed :
          ◌≡◌ {A = Result SyncError Message × Store}
            (
              ok (record { id = s.next_id; row = row }),
              record s {
                messages = s.messages ++ (record { id = s.next_id; row = row } ∷ []);
                next_id = suc s.next_id;
              },
            )
            (ok m, t)
          → Present row.folder_id row.uid t
      placed h =
          subst (λ o. Present row.folder_id row.uid (o.1)) h
            (record {
              message = record { id = s.next_id; row = row };
              stored = In-append_right s.messages (here refl);
              placed = ground arith;
            })

  persist_or_rollback-ok :
      (id : ℕ) (attachments : List ParsedAttachment) (s t : Store)
      → persist_or_rollback env id attachments s ≡ (ok tt, t)
      → s ≡ t
  unfolding persist_or_rollback
  persist_or_rollback-ok id attachments s t h = elim (Result-cases (persist id attachments)) [
    | inl (_, e) ↦ ap (λ o. o.1) (rw e at h)
    | inr (x, e) ↦ absurd (cc (rw e at h))
  ]

  announce-messages :
      (fetched : FetchedMessage) (thread : ℕ) (row : Message) (s : Store)
      → (announce env account folder fetched thread row s).1.messages ≡ s.messages
  unfolding announce Threads.touch_last_message_at Threads.refresh_aggregates
  announce-messages fetched thread row s = refl

  pub Present-of_messages :
      {uid : ℕ} {s t : Store}
      → s.messages ≡ t.messages
      → Present folder uid s
      → Present folder uid t
  Present-of_messages e p = record {
    message = p.message;
    stored = subst (In p.message) e p.stored;
    placed = p.placed;
  }

  -- A message that is stored without an error is in the store.
  store_message-Present :
      (fetched : FetchedMessage) (parsed : ParsedEmail) (p q : Progress) (s t : Store)
      → store_message env account folder fetched parsed p s ≡ (ok q, t)
      → Present folder fetched.uid t
  unfolding store_message build_message_row
  store_message-Present fetched parsed p q s t h =
      let (found, u, _, h₁) =
        >>=-ok
          (thread_for env account fetched parsed p.refs (assign_thread unicode now parsed p.refs)) _
          s q t h in
      let (row, v, made, h₂) = >>=-ok (try_db (Messages.create _)) _ u q t h₁ in
      let (done, w, saved, h₃) =
        >>=-ok (persist_or_rollback env row.id parsed.attachments) _ v q t h₂ in
      let (told, x, announced, h₄) =
        >>=-ok (announce env account folder fetched found.0 row) _ w q t h₃ in
      Present-of_messages
        (ap (λ (o : Store). o.messages) (persist_or_rollback-ok row.id parsed.attachments v w saved)
          ∙ sym (announce-messages fetched found.0 row w)
          ∙ ap (λ (o : Result SyncError (Unit {0}) × Store). o.1.messages) announced
          ∙ ap (λ (o : Result SyncError Progress × Store). o.1.messages) h₄)
        (create-Present (build_message_row now account folder found.0 fetched parsed) u row v made)

  Known : List ℕ → Store → Type 0
  Known already s = (uid : ℕ) → member uid already ≡ true → Present folder uid s

  ingest-Present :
      (already : List ℕ) (m : FetchedMessage) (p q : Progress) (s t : Store)
      → Readable env m
      → Present folder m.uid s ⊎ (member m.uid already ≡ false)
      → HasFreshIds s
      → ingest env account folder already m p s ≡ (ok q, t)
      → Present folder m.uid t
  unfolding ingest store_parsed store_message
  ingest-Present already m p q s t r (inl k) f h =
      Kept-Present
        (after (Kept everything s) (ingest env account folder already m p) s q t
          (ingest-Keeps everything s f env account folder already m p) (Kept-refl everything s f) h)
        k
  ingest-Present already m p q s t r (inr k) f h =
      store_message-Present m r.email p q s t (rw (k, r.body, r.parses, store_parsed) at h)

  -- The window's messages are all stored at its end, those that were known before included.
  ingest_all-Present :
      (already : List ℕ) (ms : List FetchedMessage) (p q : Progress) (s t : Store)
      → Known already s
      → HasFreshIds s
      → ingest_all env account folder already ms p s ≡ (ok q, t)
      → (m : FetchedMessage) → In m ms
      → Readable env m
      → Present folder m.uid t
  unfolding ingest_all Known
  ingest_all-Present already [] p q s t known f h m i r = elim i [ ]
  ingest_all-Present already (x ∷ ms) p q s t known f h m i r =
      let (p', u, first, rest) = >>=-ok (ingest env account folder already x p) _ s q t h in
      let k : Kept everything s u =
        after (Kept everything s) (ingest env account folder already x p) s p' u
          (ingest-Keeps everything s f env account folder already x p) (Kept-refl everything s f)
          first in
      let k' : Kept everything u t =
        after (Kept everything u) (ingest_all env account folder already ms p') u q t
          (ingest_all-Keeps everything u k.fresh env account folder already ms p')
          (Kept-refl everything u k.fresh) rest in
      here_or_later i k k' p' first (
        ingest_all-Present already ms p' q u t (λ uid e. Kept-Present k (known uid e)) k.fresh rest
          m)
    where
      known_or_not : (uid : ℕ) → Present folder uid s ⊎ (member uid already ≡ false)
      known_or_not uid = elim (Bool-cases (member uid already)) [
        | inl b ↦ inl (known uid b)
        | inr b ↦ inr b
      ]

      here_or_later :
          In m (x ∷ ms)
          → {u : Store} → Kept everything s u
          → Kept everything u t
          → (p' : Progress) → ingest env account folder already x p s ≡ (ok p', u)
          → (In m ms → Readable env m → Present folder m.uid t)
          → Present folder m.uid t
      here_or_later (here e) {u} k k' p' first later = Kept-Present k' (
          subst (λ (y : FetchedMessage). Present folder y.uid u) (sym e)
            (ingest-Present already x p p' s u (subst (Readable env) e r) (known_or_not x.uid) f
              first))
      here_or_later (there i) k k' p' first later = later i r

  existing_uids-Known : (uids : List ℕ) (s : Store) → Known (Messages.existing_uids folder uids s) s
  unfolding Messages.existing_uids Known
  existing_uids-Known [] s uid h = absurd (cc)
  existing_uids-Known (u ∷ uids) s uid h =
      elim (Bool-cases (any (Messages.at_uid folder u) s.messages)) [
        | inl e ↦ first_or_later e (existing_uids-Known uids s uid) (rw e at h)
        | inr e ↦ existing_uids-Known uids s uid (rw e at h)
      ]
    where
      first_or_later :
          any (Messages.at_uid folder u) s.messages ≡ true
          → (member uid (Messages.existing_uids folder uids s) ≡ true → Present folder uid s)
          → (u == uid || member uid (Messages.existing_uids folder uids s)) ≡ true
          → Present folder uid s
      first_or_later e later h =
          elim (or-eq-true (u == uid) (member uid (Messages.existing_uids folder uids s)) h) [
            | inl k ↦
                let (m, i, at) = any_sound (Messages.at_uid folder u) s.messages e in
                record {
                  message = m;
                  stored = i;
                  placed =
                      subst (λ (v : ℕ). Messages.at_uid folder v m ≡ true) ((==_iff u uid).0 k) at;
                }
            | inr k ↦ later k
          ]

  pub ingest_window-Present :
      (server : FolderSync) (p q : Progress) (s t : Store)
      → HasFreshIds s
      → ingest_window env account folder server p s ≡ (ok q, t)
      → (m : FetchedMessage) → In m server.messages
      → Readable env m
      → Present folder m.uid t
  unfolding ingest_window
  ingest_window-Present server p q s t f h m i r =
      ingest_all-Present _ server.messages p q s t (existing_uids-Known _ s) f h m i r
