-- ===== src/Tui/FolderCache/Truthful.antt =====
-- What the cache of src/tui/app.rs answers, against the history of its uses.
use postblox.Common.{
  ℕ, ◌-◌, ◌≤◌, ◌≡◌, refl, sym, ap, ◌∙◌, Bool, true, false, ◌&&◌, Option, none, some, List, [], ◌∷◌,
  any, select, ltb, ◌==◌, if◌then◌else◌, arith, Bool-cases, inl, inr, All, All-append,
}
use postblox.Tui.FolderCache.{
  FolderSnapshot, FolderCacheEntry, FolderMessageCache, is_for, take_entry, found, lookup, without,
  evict, store, invalidate_folder, invalidate_account, retain_accounts, Use, look, put, drop_folder,
  drop_account, keep_accounts, use_cache, use_all,
}
use postblox.Tui.FolderCache.Bounded.{
  IsBounded, take_entry-Taken, evict-All, use_all-IsBounded, without-lem,
}

-- What was stored for the folder last and not dropped since: with it, the time.
unfoldable pub stored : List Use → (account_id folder_id : ℕ) → Option (FolderSnapshot × ℕ)
stored [] a f = none
stored (look x y now ∷ us) a f = stored us a f
stored (put x y snapshot now ∷ us) a f =
    let before = stored us a f in if x == a && y == f then some (snapshot, now) else before
stored (drop_folder x y ∷ us) a f =
    let before = stored us a f in if x == a && y == f then none else before
stored (drop_account x ∷ us) a f = let before = stored us a f in if x == a then none else before
stored (keep_accounts ids ∷ us) a f =
    let before = stored us a f in if any (λ id. id == a) ids then before else none

abbrev Truthful : List Use → FolderCacheEntry → Type 0
Truthful us e = stored us e.account_id e.folder_id ≡ some (e.snapshot, e.stored_at)

module _ (P Q R : FolderCacheEntry → Type 0) (h : (e : FolderCacheEntry) → P e → Q e → R e) where
  All-both : (es : List FolderCacheEntry) → All P es → All Q es → All R es
  All-both [] p q = tt
  All-both (e ∷ es) p q = (h e p.0 q.0, All-both es p.1 q.1)

module _ (P R : FolderCacheEntry → Type 0) (p : FolderCacheEntry → Bool)
    (h : (e : FolderCacheEntry) → P e → p e ≡ true → R e) where
  All-select_kept : (es : List FolderCacheEntry) → All P es → All R (select p es)
  All-select_kept [] k = tt
  All-select_kept (e ∷ es) k = elim (Bool-cases (p e)) [
    | inl l ↦ rw l (h e k.0 l, All-select_kept es k.1)
    | inr l ↦ rw l (All-select_kept es k.1)
  ]

module _ (us : List Use) (c : FolderMessageCache) (b : IsBounded c)
    (t : All (Truthful us) c.entries) where
  found-Truthful :
      (a f now : ℕ) (o : Option (FolderCacheEntry × List FolderCacheEntry))
      → take_entry a f c.entries ≡ o
      → All (Truthful us) (found now c o).1.entries
  found-Truthful a f now none h = t
  found-Truthful a f now (some (e, es)) h =
      let (first, rest) = (take_entry-Taken a f c.entries e es h).others (Truthful us) t in
      elim (Bool-cases (ltb c.ttl (now - e.stored_at))) [
        | inl k ↦ rw k rest
        | inr k ↦ rw k (All-append (Truthful us) es (e ∷ []) rest (first, tt))
      ]

  without-Truthful :
      (a f : ℕ) (o : Option (FolderCacheEntry × List FolderCacheEntry))
      → take_entry a f c.entries ≡ o
      → All (Truthful us) (without c.entries o)
  without-Truthful a f none h = t
  without-Truthful a f (some (e, es)) h =
      ((take_entry-Taken a f c.entries e es h).others (Truthful us) t).1

  store-Truthful :
      (a f : ℕ) (snapshot : FolderSnapshot) (now : ℕ)
      → All (Truthful (put a f snapshot now ∷ us)) (store a f snapshot now c).entries
  unfolding store stored
  store-Truthful a f snapshot now =
      let es = without c.entries (take_entry a f c.entries) in
      let absent = (without-lem c b a f (take_entry a f c.entries) refl).2 in
      let kept : All (Truthful (put a f snapshot now ∷ us)) es =
        All-both (λ e. is_for a f e ≡ false) (Truthful us) (Truthful (put a f snapshot now ∷ us))
          (λ e n k. ground (arith, n, k)) es absent
          (without-Truthful a f (take_entry a f c.entries) refl) in
      elim (Bool-cases (c.capacity == 0)) [
        | inl k ↦ rw k kept
        | inr k ↦ rw k (
            All-append (Truthful (put a f snapshot now ∷ us)) (evict c.capacity es)
              (record { account_id = a; folder_id = f; snapshot = snapshot; stored_at = now } ∷ [])
              (evict-All (Truthful (put a f snapshot now ∷ us)) c.capacity es kept)
              (ground arith, tt))
      ]

  use_cache-Truthful : (u : Use) → All (Truthful (u ∷ us)) (use_cache u c).entries
  unfolding use_cache lookup invalidate_folder invalidate_account retain_accounts stored
  use_cache-Truthful (look a f now) = found-Truthful a f now (take_entry a f c.entries) refl
  use_cache-Truthful (put a f snapshot now) = store-Truthful a f snapshot now
  use_cache-Truthful (drop_folder a f) =
      All-select_kept (Truthful us) (Truthful (drop_folder a f ∷ us)) _
        (λ e k l. ground (arith, k, l)) c.entries t
  use_cache-Truthful (drop_account a) =
      All-select_kept (Truthful us) (Truthful (drop_account a ∷ us)) _
        (λ e k l. ground (arith, k, l)) c.entries t
  use_cache-Truthful (keep_accounts ids) =
      All-select_kept (Truthful us) (Truthful (keep_accounts ids ∷ us)) _ (λ e k l. rw l k)
        c.entries t

abbrev pub empty : (capacity ttl : ℕ) → FolderMessageCache
empty capacity ttl = record { capacity = capacity; ttl = ttl; entries = [] }

empty-IsBounded : (capacity ttl : ℕ) → IsBounded (empty capacity ttl)
empty-IsBounded capacity ttl = record { small = omega arith; distinct = tt }

use_all-Truthful :
    (capacity ttl : ℕ) (us : List Use) → All (Truthful us) (use_all us (empty capacity ttl)).entries
unfolding use_all
use_all-Truthful capacity ttl [] = tt
use_all-Truthful capacity ttl (u ∷ us) =
    use_cache-Truthful us (use_all us (empty capacity ttl))
      (use_all-IsBounded us (empty capacity ttl) (empty-IsBounded capacity ttl))
      (use_all-Truthful capacity ttl us) u

ttl-found :
    (now : ℕ) (c : FolderMessageCache) (o : Option (FolderCacheEntry × List FolderCacheEntry))
    → (found now c o).1.ttl ≡ c.ttl
ttl-found now c none = refl
ttl-found now c (some (e, es)) = ground arith

ttl-use_cache : (u : Use) (c : FolderMessageCache) → (use_cache u c).ttl ≡ c.ttl
unfolding use_cache lookup store invalidate_folder invalidate_account retain_accounts
ttl-use_cache (look a f now) c = ttl-found now c (take_entry a f c.entries)
ttl-use_cache (put a f snapshot now) c = ground arith
ttl-use_cache (drop_folder a f) c = refl
ttl-use_cache (drop_account a) c = refl
ttl-use_cache (keep_accounts ids) c = refl

ttl-use_all : (us : List Use) (c : FolderMessageCache) → (use_all us c).ttl ≡ c.ttl
unfolding use_all
ttl-use_all [] c = refl
ttl-use_all (u ∷ us) c = ttl-use_cache u (use_all us c) ∙ ttl-use_all us c

-- A snapshot that the cache gives for a folder is the one stored for it last, not dropped since,
-- and not older than the time to live of the cache.
pub lookup-stored :
    (capacity ttl : ℕ) (us : List Use) (a f now : ℕ) (snapshot : FolderSnapshot)
    → (lookup a f now (use_all us (empty capacity ttl))).0 ≡ some snapshot
    → (at : ℕ) × (stored us a f ≡ some (snapshot, at)) × (now - at ≤ ttl)
unfolding lookup
lookup-stored capacity ttl us a f now snapshot h =
    go (take_entry a f (use_all us (empty capacity ttl)).entries) refl h
  where
    c : FolderMessageCache
    c = use_all us (empty capacity ttl)

    go :
        (o : Option (FolderCacheEntry × List FolderCacheEntry))
        → take_entry a f c.entries ≡ o
        → (found now c o).0 ≡ some snapshot
        → (at : ℕ) × (stored us a f ≡ some (snapshot, at)) × (now - at ≤ ttl)
    go none k l = cc
    go (some (e, es)) k l = elim (Bool-cases (ltb c.ttl (now - e.stored_at))) [
      | inl late ↦ absurd (ground arith)
      | inr fresh ↦
          let taken = take_entry-Taken a f c.entries e es k in
          let truth : Truthful us e =
            (taken.others (Truthful us) (use_all-Truthful capacity ttl us)).0 in
          let same : e.snapshot ≡ snapshot = ground arith in
          let account : e.account_id ≡ a = ground (arith, taken.fits) in
          let folder : e.folder_id ≡ f = ground (arith, taken.fits) in
          (
            e.stored_at,
            ap (λ x. stored us x f) (sym account)
                ∙ ap (stored us e.account_id) (sym folder)
                ∙ truth
                ∙ ap (λ s. some (s, e.stored_at)) same,
            ground (arith, ttl-use_all us (empty capacity ttl)),
          )
    ]
