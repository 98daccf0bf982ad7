-- ===== src/Sync/Reconcile/Terminates.antt =====
-- The end of the loop over the windows, whose rounds are the fuel of `reconcile_folder`.
use postblox.Common.{
  ℕ, zero, suc, ◌+◌, ◌≤◌, ◌<◌, ◌≡◌, ◌≢◌, refl, sym, ◌∙◌, Bool, true, false, Option, none, some,
  Result, ok, Result-cases, inl, inr, arith, saturating_add, u32_max,
}
use postblox.Common.Text.{Text}
use postblox.Auth.{MailCredential}
use postblox.Imap.{ImapError}
use postblox.Imap.Client.{Session, FolderSync, sync_folder}
use postblox.Imap.Client.Progress.{ReportsU32, sync_folder-has_more}
use postblox.Db.{Folder, Store}
use postblox.Sync.Exec.{M, >>=-ok}
use postblox.Sync.Ingest.{Env, Progress, ingest_window}
use postblox.Sync.Reconcile.{
  Drained, next_uid, drain, first_answer, answer_or_resync, mismatch, finish, drain_from,
  reconcile_selected, reconcile_folder, thread_refs, call_after, baseline, advance, windows_left,
}
use postblox.Sync.Reconcile.Outcome.{reconcile_folder-ok}

module _ (env : Env) (account folder : ℕ) (ask : (call from_uid : ℕ) → Result ImapError FolderSync)
    (advances : (call from_uid : ℕ) (r : FolderSync)
      → ask call from_uid ≡ ok r
      → r.has_more ≡ true
      → (from_uid ≤ r.window_hi) × (r.window_hi + 1 < u32_max)) where
  drain-ends :
      (fuel call asked from_uid : ℕ) (server : FolderSync) (last_seen_uid : Option ℕ) (p : Progress)
      (s t : Store)
      → u32_max ≤ from_uid + fuel
      → 1 ≤ fuel
      → ask asked from_uid ≡ ok server
      → drain env account folder ask fuel call server last_seen_uid p s ≡ (ok none, t)
      → ⊥
  unfolding drain
  drain-ends zero call asked from_uid server last_seen_uid p s t enough positive a h =
      absurd (omega arith)
  drain-ends (suc fuel) call asked from_uid server last_seen_uid p s t enough positive a h =
      let (q, u, stored, rest) = >>=-ok (ingest_window env account folder server p) _ s none t h in
      more server.has_more refl _ u _ rest (λ above next answered h'.
        drain-ends fuel (suc call) call (saturating_add server.window_hi 1) next
          (advance last_seen_uid server) q u t (omega arith) (omega arith) answered h')
    where
      more :
          (c : Bool)
          → server.has_more ≡ c
          → (d : Drained) (u : Store) (rest : FolderSync → M (Option Drained))
          → windows_left env account folder ask c
              (ask call (saturating_add server.window_hi 1))
              d
              rest
              u
            ≡ (ok none, t)
          → ((from_uid ≤ server.window_hi) × (server.window_hi + 1 < u32_max)
              → (next : FolderSync) → ask call (saturating_add server.window_hi 1) ≡ ok next
              → rest next u ≡ (ok none, t)
              → ⊥)
          → ⊥
      more false c d u rest h k = cc h
      more true c d u rest h k =
          elim (Result-cases (ask call (saturating_add server.window_hi 1))) [
            | inl (next, e) ↦ k (advances asked from_uid server a c) next e (rw e at h)
            | inr (x, e) ↦ cc (rw e at h)
          ]

  -- Whatever the first answer is, it is one to a question from UID 1 or above.
  first_answer-positive :
      (f : Folder) (server : FolderSync) (wiped : ℕ) (resync : Bool) (s t : Store)
      → first_answer env account folder ask f s ≡ (ok (server, wiped, resync), t)
      → (call from_uid : ℕ) × (1 ≤ from_uid) × (ask call from_uid ≡ ok server)
  unfolding first_answer
  first_answer-positive f server wiped resync s t h =
      elim (Result-cases (ask 0 (next_uid f.last_seen_uid))) [
        | inr (x, e) ↦ absurd (cc (rw e at h))
        | inl (first, e) ↦ go (mismatch f.uid_validity first.uid_validity) first e (rw e at h)
      ]
    where
      go :
          (c : Bool) (first : FolderSync)
          → ask 0 (next_uid f.last_seen_uid) ≡ ok first
          → answer_or_resync env account folder ask c first s ≡ (ok (server, wiped, resync), t)
          → (call from_uid : ℕ) × (1 ≤ from_uid) × (ask call from_uid ≡ ok server)
      go false first e h = (0, next_uid f.last_seen_uid, omega arith, e ∙ cc h)
      go true first e h = elim (Result-cases (ask 1 1)) [
        | inl (again, a) ↦ (1, 1, omega arith, a ∙ cc (rw a at h))
        | inr (x, a) ↦ absurd (cc (rw a at h))
      ]

  finish-reports :
      (wiped : ℕ) (resync : Bool) (d : Drained) (u t : Store)
      → finish env account folder ask wiped resync (some d) u ≡ (ok none, t)
      → ⊥
  unfolding finish
  finish-reports wiped resync d u t h = cc h

  reconcile_selected-ends :
      (fuel : ℕ) (f : Folder) (s t : Store)
      → u32_max ≤ fuel
      → reconcile_selected env account folder ask fuel f s ≡ (ok none, t)
      → ⊥
  unfolding reconcile_selected drain_from
  reconcile_selected-ends fuel f s t enough h =
      let (a, u, answered, rest) = >>=-ok (first_answer env account folder ask f) _ s none t h in
      let (call, from_uid, positive, asked) = first_answer-positive f a.0 a.1 a.2 s u answered in
      let p : Progress = record { refs = thread_refs env account folder ask u; inserted = 0 } in
      let (d, v, drained, last) =
        >>=-ok (drain env account folder ask fuel (call_after a.2) a.0 (baseline a.2 f) p) _ u none
          t rest in
      go a.0 a.1 a.2 from_uid call positive asked d u v p drained last
    where
      go :
          (server : FolderSync) (wiped : ℕ) (resync : Bool) (from_uid call : ℕ)
          → 1 ≤ from_uid
          → ask call from_uid ≡ ok server
          → (d : Option Drained) (u v : Store) (p : Progress)
          → drain env account folder ask fuel (call_after resync) server (baseline resync f) p u
            ≡ (ok d, v)
          → finish env account folder ask wiped resync d v ≡ (ok none, t)
          → ⊥
      go server wiped resync from_uid call positive asked none u v p drained last =
          drain-ends fuel (call_after resync) call from_uid server (baseline resync f) p u v
            (omega arith) (omega arith) asked drained
      go server wiped resync from_uid call positive asked (some d) u v p drained last =
          finish-reports wiped resync d v t last

-- Against the client of the repository a run ends: it fails with an error or reports, and never
-- needs more than 2 ^ 32 - 1 windows, whatever the server answers, as long as the UIDNEXT that it
-- reports (if any) is a 32-bit number.
pub reconcile_folder-terminates :
    (env : Env) (fuel account : ℕ) (name : Text) (credential : MailCredential) (s t : Store)
    (connect : (call : ℕ) (host : Text) (port : ℕ) (username : Text) → Result ImapError Session)
    → ((call : ℕ) (host : Text) (port : ℕ) (username : Text)
        → ReportsU32 (connect call host port username))
    → ((call : ℕ) (host : Text) (port : ℕ) (username : Text) (from_uid : ℕ)
        → env.sync_folder call host port username credential name from_uid
          ≡ sync_folder (connect call host port username) name from_uid)
    → u32_max ≤ fuel
    → reconcile_folder env fuel account name credential s ≢ (ok none, t)
reconcile_folder-terminates env fuel account name credential s t connect reports same enough h =
    let (f, e, host, port, username, ran) =
      reconcile_folder-ok env fuel account name credential s t none h in
    reconcile_selected-ends env account f.id _
      (λ call from_uid r a more.
        sync_folder-has_more (connect call host port username) name from_uid r
          (reports call host port username) (sym (same call host port username from_uid) ∙ a) more)
      fuel f s t enough ran
