-- ===== src/Mcp/Gates/Wildcard.antt =====
-- What a pattern with one star matches.
use postblox.Common.{
  ℕ, ◌+◌, ◌≡◌, refl, sym, ap, ◌∙◌, ◌↔◌, true, false, some, [], ◌∷◌, ◌++◌, inl, inr, Bool-cases,
  and-eq-true, leb→le, arith,
}
use mathlib.Core.List.{append-nil, append_assoc}
use postblox.Common.Text.{Text, text_eq, byte_len, starts_with, ends_with}
use postblox.Common.Text.Equality.{text_eq_iff}
use postblox.Common.Text.Affix.{
  starts_with_sound, starts_with-append, ends_with_sound, ends_with-append, byte_len-append,
  append-eq-append, byte_len-cons-pos,
}
use postblox.Mcp.Gates.{star, count_char, split_once, matches_around, wildcard_matches}

split_once-append :
    (prefix suffix : Text)
    → count_char star prefix ≡ 0
    → split_once star (prefix ++ (star ∷ suffix)) ≡ some (prefix, suffix)
unfolding count_char split_once
split_once-append [] suffix h = refl
split_once-append (c ∷ prefix) suffix h = ground (arith, split_once-append prefix suffix)

count_char-append : (c : ℕ) (s t : Text) → count_char c (s ++ t) ≡ count_char c s + count_char c t
unfolding count_char
count_char-append c [] t = omega arith
count_char-append c (d ∷ s) t = omega (arith, count_char-append c s t)

-- A prefix and a suffix that together are no longer than the text do not overlap.
matches_around_sound :
    (prefix suffix actual : Text)
    → matches_around (some (prefix, suffix)) actual ≡ true
    → (middle : Text) × (actual ≡ prefix ++ (middle ++ suffix))
matches_around_sound prefix suffix actual h =
    let (s, t) = and-eq-true (starts_with actual prefix) _ h in
    let (e, l) = and-eq-true (ends_with actual suffix) _ t in
    let (r, p) = starts_with_sound actual prefix s in
    let (q, k) = ends_with_sound actual suffix e in
    elim (append-eq-append prefix r q suffix (sym p ∙ k)) [
      | inl (m, _, b) ↦ (m, p ∙ ap (◌++◌ prefix) b)
      | inr (x, m, _, d) ↦ absurd (
          omega (
            arith,
            leb→le _ _ l,
            ap byte_len p,
            byte_len-append prefix r,
            ap byte_len d,
            byte_len-append m r,
            byte_len-cons-pos x (m ++ r),
            byte_len-cons-pos x m,
          ))
    ]

matches_around_complete :
    (prefix suffix middle : Text)
    → matches_around (some (prefix, suffix)) (prefix ++ (middle ++ suffix)) ≡ true
matches_around_complete prefix suffix middle = rw (starts_with-append prefix (middle ++ suffix)) (
    rw (← append_assoc prefix middle suffix) (
      rw (ends_with-append (prefix ++ middle) suffix)
        (ground (arith, byte_len-append (prefix ++ middle) suffix, byte_len-append prefix middle))))

count_one :
    (prefix suffix : Text)
    → count_char star prefix ≡ 0
    → count_char star suffix ≡ 0
    → count_char star (prefix ++ (star ∷ suffix)) ≡ 1
unfolding count_char
count_one prefix suffix h k = omega (arith, count_char-append star prefix (star ∷ suffix))

-- Around the only star, the test is the one on the prefix and the suffix.
wildcard_matches_around :
    (prefix suffix actual : Text)
    → count_char star prefix ≡ 0
    → count_char star suffix ≡ 0
    → text_eq (prefix ++ (star ∷ suffix)) (star ∷ []) ≡ false
    → wildcard_matches (prefix ++ (star ∷ suffix)) actual
      ≡ matches_around (some (prefix, suffix)) actual
unfolding wildcard_matches
wildcard_matches_around prefix suffix actual h k ne =
    rw ne (rw (count_one prefix suffix h k) (rw (split_once-append prefix suffix h)))

only_star :
    (prefix suffix : Text) → prefix ++ (star ∷ suffix) ≡ star ∷ [] → (prefix ≡ []) × (suffix ≡ [])
only_star [] suffix h = (refl, cc)
only_star (c ∷ []) suffix h = absurd (cc)
only_star (c ∷ d ∷ prefix) suffix h = absurd (cc)

-- A pattern with one star matches exactly the texts that begin with what stands before the star
-- and end with what stands behind it, the two not overlapping.
pub wildcard_matches_iff :
    (prefix suffix actual : Text)
    → count_char star prefix ≡ 0
    → count_char star suffix ≡ 0
    → (wildcard_matches (prefix ++ (star ∷ suffix)) actual ≡ true)
      ↔ ((middle : Text) × (actual ≡ prefix ++ (middle ++ suffix)))
wildcard_matches_iff prefix suffix actual h k =
    elim (Bool-cases (text_eq (prefix ++ (star ∷ suffix)) (star ∷ []))) [
      | inl e ↦
          let (p, q) = only_star prefix suffix ((text_eq_iff _ _).0 e) in
          (λ _. (actual, rw (p, q) (sym (append-nil actual))), λ _. unfold wildcard_matches in rw e)
      | inr ne ↦ rw (wildcard_matches_around prefix suffix actual h k ne) (
        matches_around_sound prefix suffix actual,
        λ m. rw (m.1) (matches_around_complete prefix suffix m.0),
      )
    ]
