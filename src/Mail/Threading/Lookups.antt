-- ===== src/Mail/Threading/Lookups.antt =====
-- What the searches over the known threads find.
use postblox.Common.{
  ℕ, ◌≤◌, ◌≡◌, refl, sym, ◌∙◌, subst, true, false, none, some, List, [], ◌∷◌, ◌++◌, inl, inr,
  Bool-cases, Option-cases, In, here, there, All, arith, ltb,
}
use postblox.Common.Text.{Text}
use postblox.Mail.Threading.{ThreadRef, has_id, find_by_id, find_by_ids, latest}

pub find_by_id_sound :
    (id : Text) (ts : List ThreadRef) (t : ThreadRef)
    → find_by_id id ts ≡ some t
    → In t ts × (has_id id t ≡ true)
unfolding find_by_id
find_by_id_sound id [] t h = absurd (cc)
find_by_id_sound id (u ∷ ts) t h = elim (Bool-cases (has_id id u)) [
  | inl e ↦ let same : t ≡ u = cc (rw e at h) in (here same, rw same e)
  | inr e ↦ let (m, k) = find_by_id_sound id ts t (rw e at h) in (there m, k)
]

pub find_by_id-none :
    (id : Text) {t : ThreadRef} {ts : List ThreadRef}
    → In t ts
    → find_by_id id ts ≡ none
    → has_id id t ≡ false
unfolding find_by_id
find_by_id-none id (here {x} {xs} e) h = elim (Bool-cases (has_id id x)) [
  | inl k ↦ absurd (cc (rw k at h))
  | inr k ↦ rw e k
]
find_by_id-none id (there {x} {xs} m) h = elim (Bool-cases (has_id id x)) [
  | inl k ↦ absurd (cc (rw k at h))
  | inr k ↦ find_by_id-none id m (rw k at h)
]

-- The first thread that has the identifier is found.
pub find_by_id_first :
    (id : Text) (before : List ThreadRef) (t : ThreadRef) (after : List ThreadRef)
    → All (λ u. has_id id u ≡ false) before
    → has_id id t ≡ true
    → find_by_id id (before ++ (t ∷ after)) ≡ some t
unfolding find_by_id
find_by_id_first id [] t after h k = rw k
find_by_id_first id (u ∷ before) t after h k = rw (h.0) (find_by_id_first id before t after h.1 k)

pub find_by_ids_sound :
    (ids : List Text) (ts : List ThreadRef) (t : ThreadRef)
    → find_by_ids ids ts ≡ some t
    → In t ts × (id : Text) × In id ids × (has_id id t ≡ true)
unfolding find_by_ids
find_by_ids_sound [] ts t h = absurd (cc)
find_by_ids_sound (i ∷ ids) ts t h = elim (Option-cases (find_by_id i ts)) [
  | inl e ↦ let (m, id, k, p) = find_by_ids_sound ids ts t (rw e at h) in (m, id, there k, p)
  | inr (u, e) ↦ let (m, p) = find_by_id_sound i ts t (e ∙ (rw e at h)) in (m, i, here refl, p)
]

pub find_by_ids-none :
    {id : Text} {ids : List Text} {t : ThreadRef} {ts : List ThreadRef}
    → In id ids
    → In t ts
    → find_by_ids ids ts ≡ none
    → has_id id t ≡ false
unfolding find_by_ids
find_by_ids-none {ts} (here {x} {xs} e) m h = elim (Option-cases (find_by_id x ts)) [
  | inl k ↦ rw e (find_by_id-none x m k)
  | inr (u, k) ↦ absurd (cc (rw k at h))
]
find_by_ids-none {ts} (there {x} {xs} i) m h = elim (Option-cases (find_by_id x ts)) [
  | inl k ↦ find_by_ids-none i m (rw k at h)
  | inr (u, k) ↦ absurd (cc (rw k at h))
]

pub latest-ne-none : (t : ThreadRef) (ts : List ThreadRef) → latest (t ∷ ts) ≡ none → ⊥
unfolding latest
latest-ne-none t ts h = elim (Option-cases (latest ts)) [
  | inl e ↦ cc (rw e at h)
  | inr (u, e) ↦ elim (Bool-cases (ltb u.last_message_at t.last_message_at)) [
    | inl k ↦ cc (rw (e, k) at h)
    | inr k ↦ cc (rw (e, k) at h)
  ]
]

All-le :
    (ts : List ThreadRef) (m n : ℕ)
    → m ≤ n
    → All (λ u. u.last_message_at ≤ m) ts
    → All (λ u. u.last_message_at ≤ n) ts
All-le [] m n h a = tt
All-le (t ∷ ts) m n h (p, a) = (omega arith, All-le ts m n h a)

abbrev pub IsNewest : List ThreadRef → ThreadRef → Type 0
IsNewest ts t = In t ts × All (λ u. u.last_message_at ≤ t.last_message_at) ts

-- The thread found is one of them, and none is newer.
pub latest_sound : (ts : List ThreadRef) (t : ThreadRef) → latest ts ≡ some t → IsNewest ts t
unfolding latest
latest_sound [] t h = absurd (cc)
latest_sound (u ∷ []) t h =
    let same : t ≡ u = cc h in subst (IsNewest (u ∷ [])) (sym same) (here refl, (omega arith, tt))
latest_sound (u ∷ v ∷ ts) t h = elim (Option-cases (latest (v ∷ ts))) [
  | inl e ↦ absurd (latest-ne-none v ts e)
  | inr (w, e) ↦
      let (m, a) = latest_sound (v ∷ ts) w e in
      elim (Bool-cases (ltb w.last_message_at u.last_message_at)) [
        | inl k ↦
            let same : t ≡ u = cc (rw (e, k) at h) in
            subst (IsNewest (u ∷ v ∷ ts)) (sym same) (
              here refl,
              (omega arith, All-le (v ∷ ts) w.last_message_at u.last_message_at (ground arith) a),
            )
        | inr k ↦
            let same : t ≡ w = cc (rw (e, k) at h) in
            subst (IsNewest (u ∷ v ∷ ts)) (sym same) (there m, (ground arith, a))
      ]
]
