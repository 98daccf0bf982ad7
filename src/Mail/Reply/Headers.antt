-- ===== src/Mail/Reply/Headers.antt =====
-- The subject and the reference chain of a reply.
use postblox.Common.{
  ℕ, suc, ◌-◌, ◌≤◌, ◌<◌, ◌≡◌, refl, ap, ◌∙◌, true, false, List, ◌∷◌, drop, length, length-drop, min,
  ltb, ltb→lt, Bool-cases, inl, inr, arith,
}
use postblox.Common.Text.{Text}
use postblox.Mail.Reply.{has_re_prefix, re_prefix, cap_references}

-- Replying again adds no second prefix.
pub re_prefix_idempotent : (subject : Text) → re_prefix (re_prefix subject) ≡ re_prefix subject
unfolding re_prefix has_re_prefix
re_prefix_idempotent subject = elim (Bool-cases (has_re_prefix subject)) [
  | inl e ↦ rw (e, e) refl
  | inr e ↦ rw e refl
]

leb_of_ltb : (n : ℕ) → ltb 100 n ≡ false → n ≤ 100
leb_of_ltb n h = ground arith

cap_references-long :
    (root : Text) (ids : List Text)
    → ltb 100 (length (root ∷ ids)) ≡ true
    → cap_references (root ∷ ids) ≡ root ∷ drop (length ids - 99) ids
unfolding cap_references
cap_references-long root ids e =
    let long : 100 < suc (length ids) = ltb→lt 100 (suc (length ids)) e in
    let next : suc (length ids) - 99 ≡ suc (length ids - 99) = omega arith in
    rw e (ap (λ k. root ∷ drop k (root ∷ ids)) next)

cap_references-short :
    (root : Text) (ids : List Text)
    → ltb 100 (length (root ∷ ids)) ≡ false
    → cap_references (root ∷ ids) ≡ root ∷ ids
unfolding cap_references
cap_references-short root ids e = rw e refl

-- A chain of identifiers is cut to a hundred at most, and what is left is its root and its most
-- recent identifiers.
pub length-cap_references :
    (root : Text) (ids : List Text)
    → (length (cap_references (root ∷ ids)) ≡ min (length (root ∷ ids)) 100)
      × ((k : ℕ) × (cap_references (root ∷ ids) ≡ root ∷ drop k ids))
length-cap_references root ids = elim (Bool-cases (ltb 100 (length (root ∷ ids)))) [
  | inl e ↦
      let long : 100 < suc (length ids) = ltb→lt 100 (suc (length ids)) e in
      let cut = cap_references-long root ids e in
      let left = length-drop (length ids - 99) ids in
      (ap length cut ∙ omega arith, (length ids - 99, cut))
  | inr e ↦
      let short = leb_of_ltb (suc (length ids)) e in
      let whole = cap_references-short root ids e in (ap length whole ∙ omega arith, (0, whole))
]
