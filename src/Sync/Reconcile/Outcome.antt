-- ===== src/Sync/Reconcile/Outcome.antt =====
-- The stored messages after a reconciliation, however it ended (src/sync/reconciler.rs).
use postblox.Common.{
  ℕ, ◌≡◌, ◌≢◌, refl, subst, Bool, true, false, not, Option, some, ok, Result-cases, Option-cases,
  Bool-cases, In, inl, inr, arith, none, ◌==◌, ==_refl,
}
use postblox.Common.Text.{Text}
use postblox.Auth.{MailCredential, has_no_secret}
use postblox.Imap.{port_u16}
use postblox.Imap.Client.{FolderSync}
use postblox.Db.{Folder, Message, Store}
use postblox.Db.Folders
use postblox.Db.Messages.Distinct.{Distinct}
use postblox.Sync.Exec.{Keeps}
use postblox.Sync.Ingest.{Env}
use postblox.Sync.Ingest.Frame.{HasFreshIds, Kept, Kept-refl}
use postblox.Sync.Reconcile.{ReconcileReport, mismatch, reconcile_selected, reconcile_folder}
use postblox.Sync.Reconcile.Frame.{
  reconcile_selected-Keeps, first_answer-Keeps_same, first_answer-Keeps_outside,
}

-- `reconcile_folder` once its look-ups have answered.
reconcile_folder-Keeps :
    (P : Store → Type 0) (env : Env) (fuel account : ℕ) (name : Text) (credential : MailCredential)
    (s : Store)
    → ((f : Folder)
        → Folders.get_by_name account name s ≡ some f
        → (host : Text) (port : ℕ) (username : Text)
        → P
            (reconcile_selected env account f.id
              (λ call. env.sync_folder call host port username credential name)
              fuel
              f
              s).1)
    → P s
    → P (reconcile_folder env fuel account name credential s).1
unfolding reconcile_folder
reconcile_folder-Keeps P env fuel account name credential s h p =
    elim (Bool-cases (has_no_secret credential)) [
      | inl e ↦ rw e p
      | inr e ↦ rw e (elim (Option-cases (Folders.get_account account s)) [
        | inl a ↦ rw a p
        | inr (acc, a) ↦ rw a (elim (Option-cases (Folders.get_by_name account name s)) [
          | inl b ↦ rw b p
          | inr (f, b) ↦ rw b (elim (Result-cases (port_u16 acc.imap_port)) [
            | inl (port, c) ↦ rw c (h f b acc.imap_host port acc.email)
            | inr (x, c) ↦ rw c p
          ])
        ])
      ])
    ]

-- A run that ended well has found the folder and gone on to reconcile it.
pub reconcile_folder-ok :
    (env : Env) (fuel account : ℕ) (name : Text) (credential : MailCredential) (s t : Store)
    (r : Option ReconcileReport)
    → reconcile_folder env fuel account name credential s ≡ (ok r, t)
    → (f : Folder) × (Folders.get_by_name account name s ≡ some f)
      × (host : Text) × (port : ℕ) × (username : Text) × (reconcile_selected env account f.id
            (λ call. env.sync_folder call host port username credential name)
            fuel
            f
            s
          ≡ (ok r, t))
unfolding reconcile_folder
reconcile_folder-ok env fuel account name credential s t r h =
    elim (Bool-cases (has_no_secret credential)) [
      | inl e ↦ absurd (cc (rw e at h))
      | inr e ↦ elim (Option-cases (Folders.get_account account s)) [
        | inl a ↦ absurd (cc (rw (e, a) at h))
        | inr (acc, a) ↦ elim (Option-cases (Folders.get_by_name account name s)) [
          | inl b ↦ absurd (cc (rw (e, a, b) at h))
          | inr (f, b) ↦ elim (Result-cases (port_u16 acc.imap_port)) [
            | inl (port, c) ↦ (f, b, acc.imap_host, port, acc.email, rw (e, a, b, c) at h)
            | inr (x, c) ↦ absurd (cc (rw (e, a, b, c) at h))
          ]
        ]
      ]
    ]

-- Whatever the server answers, and whether the run succeeds or fails, the stored messages of
-- other folders stay stored.
pub reconcile_folder-keeps_others :
    (env : Env) (fuel account : ℕ) (name : Text) (credential : MailCredential) (s : Store)
    (folder : Folder) (m : Message)
    → HasFreshIds s
    → Folders.get_by_name account name s ≡ some folder
    → In m s.messages
    → m.row.folder_id ≢ folder.id
    → In m (reconcile_folder env fuel account name credential s).1.messages
unfolding Keeps
reconcile_folder-keeps_others env fuel account name credential s folder m fresh found i other =
    (reconcile_folder-Keeps (Kept keep s) env fuel account name credential s
        (λ f e host port username.
          reconcile_selected-Keeps keep s fresh env account f.id _ fuel f
            (first_answer-Keeps_outside keep s fresh env account f.id _ f
              (λ m k. subst (λ (g : Folder). not (m.row.folder_id == g.id) ≡ true) (same f e) k))
            s start)
        start).rows
      m i (ground arith)
  where
    keep : Message → Bool
    keep m = not (m.row.folder_id == folder.id)

    start : Kept keep s s
    start = Kept-refl keep s fresh

    same : (f : Folder) → Folders.get_by_name account name s ≡ some f → folder ≡ f
    same f e = cc

mismatch_same :
    (x y : Option ℕ) → ((a b : ℕ) → x ≡ some a → y ≡ some b → a ≡ b) → mismatch x y ≡ false
mismatch_same none y h = refl
mismatch_same (some a) none h = refl
mismatch_same (some a) (some b) h = rw (h a b refl refl) (rw (==_refl b) refl)

-- Where the server does not report another UIDVALIDITY than the stored one, all stored messages
-- stay stored, on failure too.
pub reconcile_folder-keeps_all :
    (env : Env) (fuel account : ℕ) (name : Text) (credential : MailCredential) (s : Store)
    (folder : Folder) (m : Message)
    → HasFreshIds s
    → Folders.get_by_name account name s ≡ some folder
    → ((call port from_uid : ℕ) (host username : Text) (server : FolderSync)
        → env.sync_folder call host port username credential name from_uid ≡ ok server
        → (a b : ℕ) → folder.uid_validity ≡ some a
        → server.uid_validity ≡ some b
        → a ≡ b)
    → In m s.messages
    → In m (reconcile_folder env fuel account name credential s).1.messages
unfolding Keeps
reconcile_folder-keeps_all env fuel account name credential s folder m fresh found same i =
    (reconcile_folder-Keeps (Kept keep s) env fuel account name credential s
        (λ f e host port username.
          reconcile_selected-Keeps keep s fresh env account f.id _ fuel f
            (first_answer-Keeps_same keep s fresh env account f.id _ f (λ server answered.
              subst (λ (g : Folder). mismatch g.uid_validity server.uid_validity ≡ false)
                (same_folder f e)
                (mismatch_same folder.uid_validity server.uid_validity
                  (same 0 port _ host username server answered))))
            s start)
        start).rows
      m i refl
  where
    keep : Message → Bool
    keep m = true

    start : Kept keep s s
    start = Kept-refl keep s fresh

    same_folder : (f : Folder) → Folders.get_by_name account name s ≡ some f → folder ≡ f
    same_folder f e = cc

-- A run keeps the store well formed, whatever the server answers and however the run ends: no two
-- rows have the same folder and UID, and all identifiers are below the next fresh one.
pub reconcile_folder-Distinct :
    (env : Env) (fuel account : ℕ) (name : Text) (credential : MailCredential) (s : Store)
    → HasFreshIds s
    → Distinct s.messages
    → Distinct (reconcile_folder env fuel account name credential s).1.messages
      × HasFreshIds (reconcile_folder env fuel account name credential s).1
unfolding Keeps
reconcile_folder-Distinct env fuel account name credential s fresh d =
    let kept =
      reconcile_folder-Keeps (Kept keep s) env fuel account name credential s
        (λ f e host port username.
          reconcile_selected-Keeps keep s fresh env account f.id _ fuel f
            (first_answer-Keeps_outside keep s fresh env account f.id _ f (λ m k. absurd (cc k))) s
            start)
        start in
    (kept.distinct d, kept.fresh)
  where
    keep : Message → Bool
    keep m = false

    start : Kept keep s s
    start = Kept-refl keep s fresh
