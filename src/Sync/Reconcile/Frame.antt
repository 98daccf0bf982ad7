-- ===== src/Sync/Reconcile/Frame.antt =====
-- What the parts of a reconciliation keep of the stored messages.
use postblox.Common.{
  ℕ, zero, suc, ◌≡◌, Bool, true, false, not, ◌||◌, Option, none, some, Result, ok, Result-cases,
  Bool-cases, In-select, inl, inr, ◌==◌, ltb,
}
use postblox.Imap.{ImapError}
use postblox.Imap.Client.{FolderSync}
use postblox.Db.{Folder, Message, Store}
use postblox.Db.Messages
use postblox.Db.Messages.Distinct.{Distinct-select}
use postblox.Db.Folders
use postblox.Sync.Exec.{M, Keeps, Keeps-bind, Keeps-pure, Keeps-lift}
use postblox.Sync.Ingest.{Env, Progress}
use postblox.Sync.Ingest.Frame.{HasFreshIds, Kept, select-below, ingest_window-Keeps}
use postblox.Sync.Reconcile.{
  Drained, mismatch, next_uid, drain, first_answer, finish, reconcile_selected, thread_refs,
  drain_from, call_after, baseline, advance, windows_left, report_event,
}

module _ (keep : Message → Bool) (old : Store) (fresh : HasFreshIds old) (env : Env) where
  module _ (account folder : ℕ) (ask : (call from_uid : ℕ) → Result ImapError FolderSync) where
    pub windows_left-Keeps :
        (more : Bool) (answer : Result ImapError FolderSync) (d : Drained)
        (rest : FolderSync → M (Option Drained))
        → ((next : FolderSync) → Keeps (Kept keep old) (rest next))
        → Keeps (Kept keep old) (windows_left env account folder ask more answer d rest)
    windows_left-Keeps false answer d rest h = Keeps-pure _ _
    windows_left-Keeps true answer d rest h = Keeps-bind _ _ _ (Keeps-lift _ _ answer) h

    report_event-Kept :
        (inserted wiped : ℕ) (resync : Bool) (s : Store)
        → Kept keep old s
        → Kept keep old (report_event env account folder ask inserted wiped resync s)
    report_event-Kept inserted wiped resync s k =
        elim (Bool-cases (ltb 0 inserted || (ltb 0 wiped || resync))) [
          | inl e ↦
              rw e (record { rows = k.rows; ids = k.ids; fresh = k.fresh; distinct = k.distinct })
          | inr e ↦ rw e k
        ]

    pub drain-Keeps :
        (fuel call : ℕ) (server : FolderSync) (last_seen_uid : Option ℕ) (p : Progress)
        → Keeps (Kept keep old) (drain env account folder ask fuel call server last_seen_uid p)
    unfolding drain
    drain-Keeps zero call server last_seen_uid p = Keeps-pure _ _
    drain-Keeps (suc fuel) call server last_seen_uid p =
        Keeps-bind _ _ _ (ingest_window-Keeps keep old fresh env account folder server p) (λ q.
          windows_left-Keeps server.has_more _ _ _
            (λ next. drain-Keeps fuel (suc call) next (advance last_seen_uid server) q))

    finish-Keeps :
        (wiped : ℕ) (resync : Bool) (d : Option Drained)
        → Keeps (Kept keep old) (finish env account folder ask wiped resync d)
    unfolding finish Folders.update_uid_state Folders.update_sync Keeps
    finish-Keeps wiped resync none s k = k
    finish-Keeps wiped resync (some d) s k =
        report_event-Kept d.progress.inserted wiped resync _
          (record { rows = k.rows; ids = k.ids; fresh = k.fresh; distinct = k.distinct })

    pub drain_from-Keeps :
        (fuel : ℕ) (f : Folder) (answer : FolderSync × ℕ × Bool)
        → Keeps (Kept keep old) (drain_from env account folder ask fuel f answer)
    unfolding drain_from Keeps
    drain_from-Keeps fuel f (server, wiped, resync) s k =
        Keeps-bind (Kept keep old)
          (drain env account folder ask fuel (call_after resync) server (baseline resync f)
            (record { refs = thread_refs env account folder ask s; inserted = 0 }))
          (finish env account folder ask wiped resync) (drain-Keeps fuel _ server _ _)
          (finish-Keeps wiped resync) s k

    pub reconcile_selected-Keeps :
        (fuel : ℕ) (f : Folder)
        → Keeps (Kept keep old) (first_answer env account folder ask f)
        → Keeps (Kept keep old) (reconcile_selected env account folder ask fuel f)
    unfolding reconcile_selected
    reconcile_selected-Keeps fuel f h = Keeps-bind _ _ _ h (drain_from-Keeps fuel f)

    -- Where the server's UIDVALIDITY is not another than the folder's, nothing is wiped.
    pub first_answer-Keeps_same :
        (f : Folder)
        → ((server : FolderSync)
            → ask 0 (next_uid f.last_seen_uid) ≡ ok server
            → mismatch f.uid_validity server.uid_validity ≡ false)
        → Keeps (Kept keep old) (first_answer env account folder ask f)
    unfolding first_answer Keeps
    first_answer-Keeps_same f same s k = elim (Result-cases (ask 0 (next_uid f.last_seen_uid))) [
      | inl (server, e) ↦ rw e (rw (same server e) k)
      | inr (x, e) ↦ rw e k
    ]

    wipe-Kept :
        ((m : Message) → keep m ≡ true → not (m.row.folder_id == folder) ≡ true)
        → (s : Store) → Kept keep old s
        → Kept keep old (Messages.delete_all_in_folder folder s).1
    unfolding Messages.delete_all_in_folder
    wipe-Kept outside s k = record {
      rows = λ m i h. In-select (λ m. not (m.row.folder_id == folder)) (k.rows m i h) (outside m h);
      ids = k.ids;
      fresh = select-below (λ m. not (m.row.folder_id == folder)) s.messages s.next_id k.fresh;
      distinct =
          λ d. Distinct-select (λ m. not (m.row.folder_id == folder)) s.messages (k.distinct d);
    }

    pub first_answer-Keeps_outside :
        (f : Folder)
        → ((m : Message) → keep m ≡ true → not (m.row.folder_id == folder) ≡ true)
        → Keeps (Kept keep old) (first_answer env account folder ask f)
    unfolding first_answer Keeps
    first_answer-Keeps_outside f outside s k =
        elim (Result-cases (ask 0 (next_uid f.last_seen_uid))) [
          | inl (server, e) ↦
              rw e (elim (Bool-cases (mismatch f.uid_validity server.uid_validity)) [
                | inl c ↦ rw c (elim (Result-cases (ask 1 1)) [
                  | inl (again, g) ↦ rw g (wipe-Kept outside s k)
                  | inr (x, g) ↦ rw g (wipe-Kept outside s k)
                ])
                | inr c ↦ rw c k
              ])
          | inr (x, e) ↦ rw e k
        ]
