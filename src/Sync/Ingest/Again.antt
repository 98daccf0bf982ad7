-- ===== src/Sync/Ingest/Again.antt =====
-- A window that is stored a second time (src/sync/reconciler.rs): what the loop leaves out.
use postblox.Common.{
  ℕ, ◌≡◌, refl, ap, ◌⊎◌, inl, inr, true, ◌||◌, List, [], ◌∷◌, map, ok, In, here, there, any,
  any_complete, is_empty, ==_refl, Bool-cases, Result-cases, arith,
}
use postblox.Imap.Client.{FetchedMessage, FolderSync}
use postblox.Db.{Store}
use postblox.Db.Messages
use postblox.Sync.Ingest.{Env, Progress, member, store_parsed, ingest, ingest_all, ingest_window}
use postblox.Sync.Ingest.Frame.{HasFreshIds}
use postblox.Sync.Ingest.Arrival.{Present, Readable, ingest_window-Present}

existing_uids-member :
    (folder uid : ℕ) (uids : List ℕ) (s : Store)
    → In uid uids
    → Present folder uid s
    → member uid (Messages.existing_uids folder uids s) ≡ true
unfolding Messages.existing_uids
existing_uids-member folder uid [] s i p = elim i [ ]
existing_uids-member folder uid (u ∷ uids) s (here e) p =
    let found : any (Messages.at_uid folder uid) s.messages ≡ true =
      any_complete (Messages.at_uid folder uid) p.stored p.placed in
    rw (← e) (rw found (rw (==_refl uid) refl))
existing_uids-member folder uid (u ∷ uids) s (there i) p =
    let rest = existing_uids-member folder uid uids s i p in
    elim (Bool-cases (any (Messages.at_uid folder u) s.messages)) [
      | inl e ↦ rw e (ground (arith, rest))
      | inr e ↦ rw e rest
    ]

In-map : {A B : Type 0} (f : A → B) {a : A} (xs : List A) → In a xs → In (f a) (map f xs)
In-map f [] i = elim i [ ]
In-map f (x ∷ xs) (here e) = here (ap f e)
In-map f (x ∷ xs) (there i) = there (In-map f xs i)

module _ (env : Env) (account folder : ℕ) where
  -- What the loop leaves out: a known message, and one that cannot be read.
  LeftOut : List ℕ → FetchedMessage → Type 0
  LeftOut already m = (member m.uid already ≡ true) ⊎ ¬ Readable env m

  ingest-LeftOut :
      (already : List ℕ) (m : FetchedMessage) (p : Progress) (s : Store)
      → LeftOut already m
      → ingest env account folder already m p s ≡ (ok p, s)
  unfolding ingest store_parsed LeftOut
  ingest-LeftOut already m p s (inl k) = rw k refl
  ingest-LeftOut already m p s (inr k) =
      elim (Bool-cases (member m.uid already || is_empty m.raw)) [
        | inl e ↦ rw e refl
        | inr e ↦ rw e (elim (Result-cases (env.parse m.raw)) [
          | inl (email, parsed) ↦
              absurd (k (record { body = ground arith; email = email; parses = parsed }))
          | inr (x, refused) ↦ rw (refused, store_parsed) refl
        ])
      ]

  ingest_all-LeftOut :
      (already : List ℕ) (ms : List FetchedMessage) (p : Progress) (s : Store)
      → ((m : FetchedMessage) → In m ms → LeftOut already m)
      → ingest_all env account folder already ms p s ≡ (ok p, s)
  unfolding ingest_all
  ingest_all-LeftOut already [] p s h = refl
  ingest_all-LeftOut already (m ∷ ms) p s h =
      rw (ingest-LeftOut already m p s (h m (here refl)))
        (ingest_all-LeftOut already ms p s (λ n i. h n (there i)))

  Readable-or_not : (m : FetchedMessage) → Readable env m ⊎ ¬ Readable env m
  Readable-or_not m = elim (Bool-cases (is_empty m.raw)) [
    | inl e ↦ inr (λ (r : Readable env m). let full = r.body in ground arith)
    | inr e ↦ elim (Result-cases (env.parse m.raw)) [
      | inl (email, parsed) ↦ inl (record { body = e; email = email; parses = parsed })
      | inr (x, refused) ↦ inr (λ (r : Readable env m). let read = r.parses in cc)
    ]
  ]

  -- A window that was stored without an error, and comes again, leaves the store and the count of
  -- inserted messages as they are, and meets no error.
  pub ingest_window-again :
      (server : FolderSync) (p q p' : Progress) (s t : Store)
      → HasFreshIds s
      → ingest_window env account folder server p s ≡ (ok q, t)
      → ingest_window env account folder server p' t ≡ (ok p', t)
  unfolding ingest_window LeftOut
  ingest_window-again server p q p' s t f h = ingest_all-LeftOut _ server.messages p' t (λ m i.
      elim (Readable-or_not m) [
        | inl r ↦ inl (
            existing_uids-member folder m.uid (map (λ m. m.uid) server.messages) t
              (In-map (λ (m : FetchedMessage). m.uid) server.messages i)
              (ingest_window-Present env account folder server p q s t f h m i r))
        | inr r ↦ inr r
      ])
