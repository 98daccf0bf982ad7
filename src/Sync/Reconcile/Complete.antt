-- ===== src/Sync/Reconcile/Complete.antt =====
-- A successful reconciliation, and the mail that the server holds (src/sync/reconciler.rs).
use postblox.Common.{
  ℕ, ◌≤◌, ◌≡◌, sym, ap, subst, ◌∙◌, Bool, true, false, not, Option, none, some, List, Result, ok,
  Result-cases, Bool-cases, In, inl, inr, arith, ◌⊎◌, ◌==◌, ◌||◌, ltb, unwrap_or,
}
use postblox.Common.Text.{Text}
use native.Mathlib.Decide.{dec_le}
use postblox.Auth.{MailCredential}
use postblox.Imap.{ImapError}
use postblox.Imap.Client.{FolderSync, FetchedMessage}
use postblox.Db.{Folder, Store}
use postblox.Db.Messages
use postblox.Db.Folders
use postblox.Sync.Errors.{SyncError}
use postblox.Sync.Exec.{>>=-ok}
use postblox.Sync.Ingest.{Env, Progress}
use postblox.Sync.Ingest.Frame.{HasFreshIds, Kept, Kept-refl, select-below}
use postblox.Sync.Ingest.Arrival.{Present, Kept-Present, Readable, after, Present-of_messages}
use postblox.Sync.Reconcile.Drain.{Serves, everything, drain-Present}
use postblox.Sync.Reconcile.Frame.{drain_from-Keeps}
use postblox.Sync.Reconcile.Outcome.{reconcile_folder-ok}
use postblox.Sync.Reconcile.{
  Drained, drain, next_uid, mismatch, first_answer, answer_or_resync, finish, drain_from,
  thread_refs, call_after, baseline, ReconcileReport, reconcile_selected, reconcile_folder,
}

module _ (env : Env) (account folder : ℕ) (content : List FetchedMessage)
    (ask : (call from_uid : ℕ) → Result ImapError FolderSync) (serves : Serves content ask) where
  -- Where the run begins: with the first answer, or after a wipe with the second.
  first_answer-asked :
      (f : Folder) (server : FolderSync) (wiped : ℕ) (resync : Bool) (s t : Store)
      → HasFreshIds s
      → first_answer env account folder ask f s ≡ (ok (server, wiped, resync), t)
      → ((resync ≡ false) × (ask 0 (next_uid f.last_seen_uid) ≡ ok server) × (s ≡ t))
        ⊎ ((resync ≡ true) × (ask 1 1 ≡ ok server) × HasFreshIds t)
  unfolding first_answer Messages.delete_all_in_folder
  first_answer-asked f server wiped resync s t fresh h =
      elim (Result-cases (ask 0 (next_uid f.last_seen_uid))) [
        | inr (x, e) ↦ absurd (cc (rw e at h))
        | inl (first, e) ↦ go (mismatch f.uid_validity first.uid_validity) first e (rw e at h)
      ]
    where
      go :
          (c : Bool) (first : FolderSync)
          → ask 0 (next_uid f.last_seen_uid) ≡ ok first
          → answer_or_resync env account folder ask c first s ≡ (ok (server, wiped, resync), t)
          → ((resync ≡ false) × (ask 0 (next_uid f.last_seen_uid) ≡ ok server) × (s ≡ t))
            ⊎ ((resync ≡ true) × (ask 1 1 ≡ ok server) × HasFreshIds t)
      go false first e h = inl (cc h, e ∙ cc h, cc h)
      go true first e h = elim (Result-cases (ask 1 1)) [
        | inl (again, a) ↦
            let k = rw a at h in
            inr (
              cc k,
              a ∙ cc k,
              subst HasFreshIds
                  (ap (λ (o : Result SyncError (FolderSync × ℕ × Bool) × Store). o.1) k)
                  (select-below (λ m. not (m.row.folder_id == folder)) s.messages s.next_id fresh),
            )
        | inr (x, a) ↦ absurd (cc (rw a at h))
      ]

  finish-messages :
      (wiped : ℕ) (resync : Bool) (d : Drained) (s : Store)
      → (finish env account folder ask wiped resync (some d) s).1.messages ≡ s.messages
  unfolding finish Folders.update_uid_state Folders.update_sync
  finish-messages wiped resync d s =
      elim (Bool-cases (ltb 0 d.progress.inserted || (ltb 0 wiped || resync))) [
        | inl e ↦ rw e
        | inr e ↦ rw e
      ]

  finish-none :
      (wiped : ℕ) (resync : Bool) (s : Store) {r : ReconcileReport} {t : Store}
      → finish env account folder ask wiped resync none s ≡ (ok (some r), t)
      → ⊥
  unfolding finish
  finish-none wiped resync s h = cc h

  -- The part of the run behind the first answer.
  drain_from-Present :
      (fuel asked from_uid : ℕ) (f : Folder) (server : FolderSync) (wiped : ℕ) (resync : Bool)
      (s t : Store) (r : ReconcileReport)
      → HasFreshIds s
      → ask asked from_uid ≡ ok server
      → drain_from env account folder ask fuel f (server, wiped, resync) s ≡ (ok (some r), t)
      → (m : FetchedMessage) → In m content
      → from_uid ≤ m.uid
      → Readable env m
      → Present folder m.uid t
  unfolding drain_from
  drain_from-Present fuel asked from_uid f server wiped resync s t r fresh a h m i above readable =
      let p : Progress = record { refs = thread_refs env account folder ask s; inserted = 0 } in
      let (d, u, drained, rest) =
        >>=-ok (drain env account folder ask fuel (call_after resync) server (baseline resync f) p)
          _ s (some r) t h in
      go d u drained rest
    where
      go :
          (d : Option Drained) (u : Store)
          → drain env account folder ask fuel
              (call_after resync)
              server
              (baseline resync f)
              (record { refs = thread_refs env account folder ask s; inserted = 0 })
              s
            ≡ (ok d, u)
          → finish env account folder ask wiped resync d u ≡ (ok (some r), t)
          → Present folder m.uid t
      go none u drained rest = absurd (finish-none wiped resync u rest)
      go (some d) u drained rest =
          let stored =
            drain-Present env account folder content ask serves fuel (call_after resync) asked
              from_uid server (baseline resync f) _ s u d fresh a drained m i above readable in
          Present-of_messages env account folder
            (sym (finish-messages wiped resync d u)
              ∙ ap (λ (o : Result SyncError (Option ReconcileReport) × Store). o.1.messages) rest)
            stored

  reconcile_selected-Present :
      (fuel : ℕ) (f : Folder) (s t : Store) (r : ReconcileReport)
      → HasFreshIds s
      → ((m : FetchedMessage)
          → In m content
          → Readable env m
          → m.uid ≤ unwrap_or 0 f.last_seen_uid
          → Present folder m.uid s)
      → reconcile_selected env account folder ask fuel f s ≡ (ok (some r), t)
      → (m : FetchedMessage) → In m content
      → 1 ≤ m.uid
      → Readable env m
      → Present folder m.uid t
  unfolding reconcile_selected
  reconcile_selected-Present fuel f s t r fresh before h m i positive readable =
      let (a, u, answered, rest) =
        >>=-ok (first_answer env account folder ask f) _ s (some r) t h in
      elim (first_answer-asked f a.0 a.1 a.2 s u fresh answered) [
        | inr (_, asked, fresh') ↦
            drain_from-Present fuel 1 1 f a.0 a.1 a.2 u t r fresh' asked rest m i positive readable
        | inl (_, asked, same) ↦ elim (dec_le (next_uid f.last_seen_uid) m.uid) [
          | yes above ↦
              drain_from-Present fuel 0 (next_uid f.last_seen_uid) f a.0 a.1 a.2 u t r
                (subst HasFreshIds same fresh) asked rest m i above readable
          | no below ↦
              Kept-Present
                (after (Kept everything u) (drain_from env account folder ask fuel f a) u (some r) t
                  (drain_from-Keeps everything u (subst HasFreshIds same fresh) env account folder
                    ask fuel f a)
                  (Kept-refl everything u (subst HasFreshIds same fresh)) rest)
                (subst (Present folder m.uid) same (before m i readable (omega arith)))
        ]
      ]

-- After a successful run every readable message that the server holds is stored in the folder,
-- whether or not UIDVALIDITY changed, if those up to the stored high-water mark were before.
pub reconcile_folder_complete :
    (env : Env) (fuel account : ℕ) (name : Text) (credential : MailCredential) (s t : Store)
    (folder : Folder) (content : List FetchedMessage) (r : ReconcileReport)
    → HasFreshIds s
    → Folders.get_by_name account name s ≡ some folder
    → ((host : Text) (port : ℕ) (username : Text)
        → Serves content (λ call. env.sync_folder call host port username credential name))
    → ((m : FetchedMessage)
        → In m content
        → Readable env m
        → m.uid ≤ unwrap_or 0 folder.last_seen_uid
        → Present folder.id m.uid s)
    → reconcile_folder env fuel account name credential s ≡ (ok (some r), t)
    → (m : FetchedMessage) → In m content
    → 1 ≤ m.uid
    → Readable env m
    → Present folder.id m.uid t
reconcile_folder_complete env fuel account name credential s t folder content r fresh found serves
      before h m i positive readable =
    let (f, e, host, port, username, ran) =
      reconcile_folder-ok env fuel account name credential s t (some r) h in
    let same : f ≡ folder = cc (sym e ∙ found) in
    subst (λ (g : Folder). Present g.id m.uid t) same
      (reconcile_selected-Present env account f.id content _ (serves host port username) fuel f s t
        r fresh
        (λ m i d l.
          subst (λ (g : Folder). Present g.id m.uid s) (sym same)
            (before m i d (subst (λ (g : Folder). m.uid ≤ unwrap_or 0 g.last_seen_uid) same l)))
        ran m i positive readable)
