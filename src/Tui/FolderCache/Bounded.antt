-- ===== src/Tui/FolderCache/Bounded.antt =====
-- The cache of src/tui/app.rs holds no more folders than its capacity, and each one once.
use postblox.Common.{
  ℕ, suc, ◌≤◌, ◌<◌, ◌≡◌, refl, sym, ap, subst, Bool, true, false, Option, none, some, List, [], ◌∷◌,
  ◌++◌, length, select, leb, ltb, ◌==◌, ◌-◌, arith, Bool-cases, inl, inr, All, All-append,
  length-append,
}
use postblox.Tui.FolderCache.{
  FolderSnapshot, FolderCacheEntry, FolderMessageCache, is_for, take_entry, with_entries, found,
  lookup, without, evict, store, invalidate_folder, invalidate_account, retain_accounts, Use, look,
  put, drop_folder, drop_account, keep_accounts, use_cache, use_all,
}

-- No entry of the list is for the folder.
abbrev pub Absent : (a f : ℕ) → List FolderCacheEntry → Type 0
Absent a f = All (λ e. is_for a f e ≡ false)

abbrev pub Distinct : List FolderCacheEntry → Type 0
Distinct [] = Unit
Distinct (e ∷ es) = Absent e.account_id e.folder_id es × Distinct es

All-select :
    (P : FolderCacheEntry → Type 0) (p : FolderCacheEntry → Bool) (es : List FolderCacheEntry)
    → All P es
    → All P (select p es)
All-select P p [] h = tt
All-select P p (e ∷ es) h = elim (Bool-cases (p e)) [
  | inl k ↦ rw k (h.0, All-select P p es h.1)
  | inr k ↦ rw k (All-select P p es h.1)
]

select-Distinct :
    (p : FolderCacheEntry → Bool) (es : List FolderCacheEntry)
    → Distinct es
    → Distinct (select p es)
select-Distinct p [] h = tt
select-Distinct p (e ∷ es) h = elim (Bool-cases (p e)) [
  | inl k ↦ rw k (
    All-select (λ x. is_for e.account_id e.folder_id x ≡ false) p es h.0,
    select-Distinct p es h.1,
  )
  | inr k ↦ rw k (select-Distinct p es h.1)
]

length-select-le :
    (p : FolderCacheEntry → Bool) (es : List FolderCacheEntry) → length (select p es) ≤ length es
length-select-le p [] = omega arith
length-select-le p (e ∷ es) = ground (arith, length-select-le p es)

-- What holds of the entries that are left when the one of the folder is taken out.
pub record Taken (a f : ℕ) (es : List FolderCacheEntry) (e : FolderCacheEntry)
    (rest : List FolderCacheEntry) : Type 1 where
  pub fits : is_for a f e ≡ true
  pub shorter : suc (length rest) ≡ length es
  pub others : (P : FolderCacheEntry → Type 0) → All P es → P e × All P rest
  pub distinct : Distinct es → Distinct rest × Absent a f rest

not_for :
    (a f : ℕ) (e : FolderCacheEntry) (es : List FolderCacheEntry)
    → is_for a f e ≡ true
    → Absent e.account_id e.folder_id es
    → Absent a f es
not_for a f e es h k =
    let same_account : e.account_id ≡ a = ground arith in
    let same_folder : e.folder_id ≡ f = ground arith in
    subst (λ x. Absent x f es) same_account (subst (λ y. Absent e.account_id y es) same_folder k)

take_entry-none : (a f : ℕ) (es : List FolderCacheEntry) → take_entry a f es ≡ none → Absent a f es
take_entry-none a f [] h = tt
take_entry-none a f (x ∷ es) h = (ground arith, take_entry-none a f es (ground arith))

pub take_entry-Taken :
    (a f : ℕ) (es : List FolderCacheEntry) (e : FolderCacheEntry) (rest : List FolderCacheEntry)
    → take_entry a f es ≡ some (e, rest)
    → Taken a f es e rest
take_entry-Taken a f [] e rest h = cc
take_entry-Taken a f (x ∷ es) e rest h = elim (Bool-cases (is_for a f x)) [
  | inl k ↦
      let same : x ≡ e = ground arith in
      let left : es ≡ rest = ground arith in
      subst (λ y. Taken a f (x ∷ es) y rest) same
        (subst (Taken a f (x ∷ es) x) left (record {
          fits = k;
          shorter = refl;
          others = λ P all. all;
          distinct = λ d. (d.1, not_for a f x es k d.0);
        }))
  | inr k ↦ later k (λ ys q. take_entry-Taken a f es e ys q) rest h
]
  where
    later :
        is_for a f x ≡ false
        → ((ys : List FolderCacheEntry) → take_entry a f es ≡ some (e, ys) → Taken a f es e ys)
        → (r : List FolderCacheEntry) → take_entry a f (x ∷ es) ≡ some (e, r)
        → Taken a f (x ∷ es) e r
    later k ih [] l = absurd (ground arith)
    later k ih (y ∷ ys) l =
        let same : x ≡ y = ground arith in
        let left : take_entry a f es ≡ some (e, ys) = ground arith in
        let t = ih ys left in
        subst (λ z. Taken a f (x ∷ es) e (z ∷ ys)) same
          (record {
            fits = t.fits;
            shorter = ap suc t.shorter;
            others = λ P all. ((t.others P all.1).0, (all.0, (t.others P all.1).1));
            distinct = λ d. (
              (
                (t.others (λ z. is_for x.account_id x.folder_id z ≡ false) d.0).1,
                (t.distinct d.1).0,
              ),
              (k, (t.distinct d.1).1),
            );
          })

Distinct-snoc :
    (es : List FolderCacheEntry) (e : FolderCacheEntry)
    → Distinct es
    → Absent e.account_id e.folder_id es
    → Distinct (es ++ (e ∷ []))
Distinct-snoc [] e d n = (tt, tt)
Distinct-snoc (x ∷ es) e d n = (
  All-append (λ y. is_for x.account_id x.folder_id y ≡ false) es (e ∷ []) d.0 (ground arith, tt),
  Distinct-snoc es e d.1 n.1,
)

evict-lt :
    (capacity : ℕ) (es : List FolderCacheEntry)
    → 0 < capacity
    → length (evict capacity es) < capacity
evict-lt capacity [] h = h
evict-lt capacity (e ∷ es) h = ground (arith, evict-lt capacity es)

pub evict-All :
    (P : FolderCacheEntry → Type 0) (capacity : ℕ) (es : List FolderCacheEntry)
    → All P es
    → All P (evict capacity es)
evict-All P capacity [] h = tt
evict-All P capacity (e ∷ es) h = elim (Bool-cases (leb capacity (length (e ∷ es)))) [
  | inl k ↦ rw k (evict-All P capacity es h.1)
  | inr k ↦ rw k h
]

evict-Distinct :
    (capacity : ℕ) (es : List FolderCacheEntry) → Distinct es → Distinct (evict capacity es)
evict-Distinct capacity [] d = tt
evict-Distinct capacity (e ∷ es) d = elim (Bool-cases (leb capacity (length (e ∷ es)))) [
  | inl k ↦ rw k (evict-Distinct capacity es d.1)
  | inr k ↦ rw k d
]

pub record IsBounded (c : FolderMessageCache) : Type 0 where
  pub small : length c.entries ≤ c.capacity
  pub distinct : Distinct c.entries

module _ (c : FolderMessageCache) (b : IsBounded c) where
  found-IsBounded :
      (a f now : ℕ) (o : Option (FolderCacheEntry × List FolderCacheEntry))
      → take_entry a f c.entries ≡ o
      → IsBounded (found now c o).1
  found-IsBounded a f now none h = b
  found-IsBounded a f now (some (e, es)) h =
      let t = take_entry-Taken a f c.entries e es h in
      let d = t.distinct b.distinct in
      elim (Bool-cases (ltb c.ttl (now - e.stored_at))) [
        | inl k ↦ rw k (record { small = omega (arith, t.shorter, b.small); distinct = d.0 })
        | inr k ↦
            let account : e.account_id ≡ a = ground (arith, t.fits) in
            let folder : e.folder_id ≡ f = ground (arith, t.fits) in
            rw k (record {
              small = omega (arith, length-append es (e ∷ []), t.shorter, b.small);
              distinct = Distinct-snoc es e d.0 (
                  subst (λ x. Absent x e.folder_id es) (sym account)
                    (subst (λ y. Absent a y es) (sym folder) d.1));
            })
      ]

  select-IsBounded : (p : FolderCacheEntry → Bool) → IsBounded (with_entries c (select p c.entries))
  select-IsBounded p = record {
    small = omega (arith, length-select-le p c.entries, b.small);
    distinct = select-Distinct p c.entries b.distinct;
  }

  -- What is left when the folder's entry is taken out
  pub without-lem :
      (a f : ℕ) (o : Option (FolderCacheEntry × List FolderCacheEntry))
      → take_entry a f c.entries ≡ o
      → (length (without c.entries o) ≤ c.capacity)
        × Distinct (without c.entries o)
        × Absent a f (without c.entries o)
  without-lem a f none h = (b.small, b.distinct, take_entry-none a f c.entries h)
  without-lem a f (some (e, es)) h =
      let t = take_entry-Taken a f c.entries e es h in
      let d = t.distinct b.distinct in (omega (arith, t.shorter, b.small), d.0, d.1)

  store-IsBounded :
      (a f : ℕ) (snapshot : FolderSnapshot) (now : ℕ) → IsBounded (store a f snapshot now c)
  unfolding store
  store-IsBounded a f snapshot now =
      let es = without c.entries (take_entry a f c.entries) in
      let (short, d, n) = without-lem a f (take_entry a f c.entries) refl in
      elim (Bool-cases (c.capacity == 0)) [
        | inl k ↦ rw k (record { small = short; distinct = d })
        | inr k ↦
            let room : length (evict c.capacity es) < c.capacity =
              evict-lt c.capacity es (ground arith) in
            rw k (record {
              small = omega (
                arith,
                length-append (evict c.capacity es) (
                    record { account_id = a; folder_id = f; snapshot = snapshot; stored_at = now }
                    ∷ []),
                room,
              );
              distinct =
                  Distinct-snoc (evict c.capacity es)
                    (record { account_id = a; folder_id = f; snapshot = snapshot; stored_at = now })
                    (evict-Distinct c.capacity es d)
                    (evict-All (λ y. is_for a f y ≡ false) c.capacity es n);
            })
      ]

  use_cache-IsBounded : (u : Use) → IsBounded (use_cache u c)
  unfolding use_cache lookup invalidate_folder invalidate_account retain_accounts
  use_cache-IsBounded (look a f now) = found-IsBounded a f now (take_entry a f c.entries) refl
  use_cache-IsBounded (put a f snapshot now) = store-IsBounded a f snapshot now
  use_cache-IsBounded (drop_folder a f) = select-IsBounded _
  use_cache-IsBounded (drop_account a) = select-IsBounded _
  use_cache-IsBounded (keep_accounts ids) = select-IsBounded _

-- Whatever is looked up, stored and dropped, the cache holds no more folders than its capacity,
-- and each of them once.
pub use_all-IsBounded :
    (us : List Use) (c : FolderMessageCache) → IsBounded c → IsBounded (use_all us c)
unfolding use_all
use_all-IsBounded [] c b = b
use_all-IsBounded (u ∷ us) c b = use_cache-IsBounded (use_all us c) (use_all-IsBounded us c b) u
