-- ===== src/Sync/Reconcile/Drain.antt =====
-- The loop over the windows, and the mail of the server (src/sync/reconciler.rs).
use postblox.Common.{
  ℕ, zero, suc, ◌≤◌, ◌≡◌, refl, Bool, true, false, Option, some, List, Result, ok, Result-cases, In,
  inl, inr, arith, saturating_add,
}
use native.Mathlib.Decide.{dec_le}
use postblox.Imap.{ImapError}
use postblox.Imap.Client.{FolderSync, FetchedMessage}
use postblox.Db.{Message, Store}
use postblox.Sync.Exec.{M, >>=-ok}
use postblox.Sync.Ingest.{Env, Progress, ingest_window}
use postblox.Sync.Ingest.Frame.{HasFreshIds, Kept, Kept-refl, ingest_window-Keeps}
use postblox.Sync.Ingest.Arrival.{Present, Kept-Present, Readable, ingest_window-Present, after}
use postblox.Sync.Reconcile.Frame.{drain-Keeps, windows_left-Keeps}
use postblox.Sync.Reconcile.{Drained, drain, advance, windows_left}

abbrev pub everything : Message → Bool
everything m = true

-- A server that holds `content`, as the answers to `sync_folder` show it: a window holds all
-- messages that it covers, and the last one covers all that there are.
pub record Serves (content : List FetchedMessage)
    (ask : (call from_uid : ℕ) → Result ImapError FolderSync) : Type 0 where
  pub covers :
      (call from_uid : ℕ) (server : FolderSync) (m : FetchedMessage)
      → ask call from_uid ≡ ok server
      → In m content
      → from_uid ≤ m.uid
      → m.uid ≤ server.window_hi
      → In m server.messages
  pub ends :
      (call from_uid : ℕ) (server : FolderSync) (m : FetchedMessage)
      → ask call from_uid ≡ ok server
      → server.has_more ≡ false
      → In m content
      → m.uid ≤ server.window_hi

module _ (env : Env) (account folder : ℕ) (content : List FetchedMessage)
    (ask : (call from_uid : ℕ) → Result ImapError FolderSync) (serves : Serves content ask) where
  -- The loop over the windows, from an answer to the question about `from_uid`.
  pub drain-Present :
      (fuel call asked from_uid : ℕ) (server : FolderSync) (last_seen_uid : Option ℕ) (p : Progress)
      (s t : Store) (d : Drained)
      → HasFreshIds s
      → ask asked from_uid ≡ ok server
      → drain env account folder ask fuel call server last_seen_uid p s ≡ (ok (some d), t)
      → (m : FetchedMessage) → In m content
      → from_uid ≤ m.uid
      → Readable env m
      → Present folder m.uid t
  unfolding drain
  drain-Present zero call asked from_uid server last_seen_uid p s t d f a h m i above r =
      absurd (cc)
  drain-Present (suc fuel) call asked from_uid server last_seen_uid p s t d f a h m i above r =
      let (q, u, stored, rest) =
        >>=-ok (ingest_window env account folder server p) _ s (some d) t h in
      let k : Kept everything s u =
        after (Kept everything s) (ingest_window env account folder server p) s q u
          (ingest_window-Keeps everything s f env account folder server p)
          (Kept-refl everything s f) stored in
      elim (dec_le m.uid server.window_hi) [
        | yes below ↦
            Kept-Present
              (after (Kept everything u) _ u (some d) t
                (windows_left-Keeps everything u k.fresh env account folder ask server.has_more _ _
                  _
                  (λ next.
                    drain-Keeps everything u k.fresh env account folder ask fuel (suc call) next
                      (advance last_seen_uid server) q))
                (Kept-refl everything u k.fresh) rest)
              (ingest_window-Present env account folder server p q s u f stored m
                (serves.covers asked from_uid server m a i above below) r)
        | no beyond ↦ later beyond server.has_more refl _ u (some d) t _ rest (λ next answered h'.
            drain-Present fuel (suc call) call (saturating_add server.window_hi 1) next
              (advance last_seen_uid server) q u t d k.fresh answered h' m i (omega arith) r)
      ]
    where
      later :
          ¬ (m.uid ≤ server.window_hi)
          → (more : Bool) → server.has_more ≡ more
          → (d₀ : Drained) (u : Store) (o : Option Drained) (t : Store)
          → (rest : FolderSync → M (Option Drained))
          → windows_left env account folder ask more
              (ask call (saturating_add server.window_hi 1))
              d₀
              rest
              u
            ≡ (ok o, t)
          → ((next : FolderSync)
              → ask call (saturating_add server.window_hi 1) ≡ ok next
              → rest next u ≡ (ok o, t)
              → Present folder m.uid t)
          → Present folder m.uid t
      later beyond false more d₀ u o t after_next h k =
          absurd (omega (arith, serves.ends asked from_uid server m a more i))
      later beyond true more d₀ u o t after_next h k =
          elim (Result-cases (ask call (saturating_add server.window_hi 1))) [
            | inl (next, e) ↦ k next e (rw e at h)
            | inr (x, e) ↦ absurd (cc (rw e at h))
          ]
