-- ===== src/Sync/Manager/Keys.antt =====
-- Looking up a worker by its key.
use postblox.Common.{
  ℕ, ◌≡◌, refl, sym, ◌∙◌, subst, true, false, ◌&&◌, some, List, [], ◌∷◌, ◌==◌, Bool-cases, ==_iff,
  ==_refl, inl, inr, ◌⊎◌, and-eq-true,
}
use postblox.Common.Text.{Text, text_eq}
use postblox.Common.Text.Equality.{text_eq_iff, text_eq_refl}
use postblox.Sync.Manager.{Entry, has_key, lookup_worker, remove_worker, is_registered}

-- Whether two keys are the same.
pub same_key : (a b : ℕ) (f g : Text) → ((a ≡ b) × (f ≡ g)) ⊎ ((a == b && text_eq f g) ≡ false)
same_key a b f g = elim (Bool-cases (a == b && text_eq f g)) [
  | inl e ↦ let (x, y) = and-eq-true (a == b) _ e in inl ((==_iff a b).0 x, (text_eq_iff f g).0 y)
  | inr e ↦ inr e
]

-- Removing a key leaves the look-ups of the others.
pub lookup_worker-remove_worker :
    (account other : ℕ) (folder name : Text) (es : List Entry)
    → (account == other && text_eq folder name) ≡ false
    → lookup_worker other name (remove_worker account folder es) ≡ lookup_worker other name es
unfolding lookup_worker
lookup_worker-remove_worker account other folder name [] h = refl
lookup_worker-remove_worker account other folder name (e ∷ es) h =
    elim (Bool-cases (has_key account folder e)) [
      | inl k ↦
          rw k (
            lookup_worker-remove_worker account other folder name es h
            ∙ sym (rw (not_other k) refl))
      | inr k ↦ rw k (elim (Bool-cases (has_key other name e)) [
        | inl o ↦ rw o refl
        | inr o ↦ rw o (lookup_worker-remove_worker account other folder name es h)
      ])
    ]
  where
    both : account ≡ other → folder ≡ name → (account == other && text_eq folder name) ≡ true
    both a f =
        subst (λ b. (account == b && text_eq folder name) ≡ true) a
          (subst (λ g. (account == account && text_eq folder g) ≡ true) f
            (rw (==_refl account, text_eq_refl folder) refl))

    not_other : has_key account folder e ≡ true → has_key other name e ≡ false
    not_other k = elim (Bool-cases (has_key other name e)) [
      | inr o ↦ o
      | inl o ↦
          let (x, y) = and-eq-true (e.account_id == account) _ k in
          let (z, w) = and-eq-true (e.account_id == other) _ o in
          let a : account ≡ other =
            sym ((==_iff e.account_id account).0 x) ∙ (==_iff e.account_id other).0 z in
          let f : folder ≡ name =
            sym ((text_eq_iff e.folder_name folder).0 y) ∙ (text_eq_iff e.folder_name name).0 w in
          absurd (cc (sym h ∙ both a f))
    ]

pub lookup_worker-registered :
    (account : ℕ) (folder : Text) (es : List Entry) (id : ℕ)
    → lookup_worker account folder es ≡ some id
    → is_registered es id ≡ true
unfolding lookup_worker
lookup_worker-registered account folder [] id h = absurd (cc h)
lookup_worker-registered account folder (e ∷ es) id h =
    elim (Bool-cases (has_key account folder e)) [
      | inl k ↦ let same : e.task ≡ id = cc (rw k at h) in rw ((==_iff e.task id).1 same) refl
      | inr k ↦ elim (Bool-cases (e.task == id)) [
        | inl t ↦ rw t refl
        | inr t ↦ rw t (lookup_worker-registered account folder es id (rw k at h))
      ]
    ]
