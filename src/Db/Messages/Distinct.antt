-- ===== src/Db/Messages/Distinct.antt =====
-- Rows and their folders and UIDs: the constraint of the `messages` table.
use postblox.Common.{
  ℕ, ◌≡◌, refl, Bool, false, ◌&&◌, List, [], ◌∷◌, ◌++◌, any, select, ◌==◌, Bool-cases, or-eq-false,
  inl, inr, arith,
}
use postblox.Db.{NewMessage, Message}
use postblox.Db.Messages.{at_uid}

-- Each row's folder and UID are those of no later row.
unfoldable pub Distinct : List Message → Type 0
Distinct [] = Unit
Distinct (m ∷ ms) = (any (at_uid m.row.folder_id m.row.uid) ms ≡ false) × Distinct ms

any-select_false {ℓ} :
    {A : Type ℓ} (q p : A → Bool) (xs : List A) → any q xs ≡ false → any q (select p xs) ≡ false
any-select_false q p [] h = refl
any-select_false q p (x ∷ xs) h =
    let (a, b) = or-eq-false (q x) _ h in
    elim (Bool-cases (p x)) [
      | inl e ↦ rw e (rw a (any-select_false q p xs b))
      | inr e ↦ rw e (any-select_false q p xs b)
    ]

pub Distinct-select :
    (p : Message → Bool) (ms : List Message) → Distinct ms → Distinct (select p ms)
unfolding Distinct
Distinct-select p [] d = tt
Distinct-select p (m ∷ ms) (h, d) = elim (Bool-cases (p m)) [
  | inl e ↦ rw e (any-select_false _ p ms h, Distinct-select p ms d)
  | inr e ↦ rw e (Distinct-select p ms d)
]

any-append_false :
    (q : Message → Bool) (ms : List Message) (m : Message)
    → any q ms ≡ false
    → q m ≡ false
    → any q (ms ++ (m ∷ [])) ≡ false
any-append_false q [] m h k = rw k refl
any-append_false q (x ∷ ms) m h k =
    let (a, b) = or-eq-false (q x) _ h in rw a (any-append_false q ms m b k)

at_uid_symmetric : (a b c d : ℕ) → (a == c && b == d) ≡ false → (c == a && d == b) ≡ false
at_uid_symmetric a b c d h = ground arith

pub Distinct-append :
    (ms : List Message) (id : ℕ) (row : NewMessage)
    → Distinct ms
    → any (at_uid row.folder_id row.uid) ms ≡ false
    → Distinct (ms ++ (record { id = id; row = row } ∷ []))
unfolding Distinct
Distinct-append [] id row d h = (refl, tt)
Distinct-append (m ∷ ms) id row (k, d) h =
    let (a, b) = or-eq-false (at_uid row.folder_id row.uid m) _ h in
    (
      any-append_false _ ms _ k
          (at_uid_symmetric m.row.folder_id m.row.uid row.folder_id row.uid a),
      Distinct-append ms id row d b,
    )
