-- ===== src/Attachments/Names.antt =====
-- What a stored name looks like.
use postblox.Common.{
  ℕ, ◌≡◌, refl, sym, subst, Bool, true, false, ◌||◌, List, [], ◌∷◌, map, reverse, ◌==◌, take,
  is_empty, unwrap_or, In, here, there, all, and-eq-true, reverse-In, Bool-cases, inl, inr,
}
use postblox.Common.Text.{Text, codes, trim_start_matches, trim_matches, is_whitespace}
use postblox.Attachments.{file_name, is_safe, replaced, or_default, sanitize_filename}

trim_start_matches-In : (p : ℕ → Bool) (t : Text) (c : ℕ) → In c (trim_start_matches p t) → In c t
trim_start_matches-In p [] c i = i
trim_start_matches-In p (d ∷ t) c i = elim (Bool-cases (p d)) [
  | inl e ↦ there (trim_start_matches-In p t c (rw e at i))
  | inr e ↦ rw e at i
]

trim_matches-In : (p : ℕ → Bool) (t : Text) (c : ℕ) → In c (trim_matches p t) → In c t
trim_matches-In p t c i = trim_start_matches-In p t c (
    reverse-In (trim_start_matches p t)
      (trim_start_matches-In p (reverse (trim_start_matches p t)) c (reverse-In _ i)))

map-In {ℓ κ} :
    {A : Type ℓ} {B : Type κ} (f : A → B) {b : B} (xs : List A)
    → In b (map f xs)
    → (a : A) × (b ≡ f a)
map-In f [] i = elim i [ ]
map-In f (x ∷ xs) (here e) = (x, e)
map-In f (x ∷ xs) (there i) = map-In f xs i

replaced-is_safe : (c : ℕ) → is_safe (replaced c) ≡ true
replaced-is_safe c = elim (Bool-cases (is_safe c)) [ inl e ↦ rw (e, e) refl | inr e ↦ rw e refl ]

default_is_safe : (c : ℕ) → In c (codes "attachment.bin") → is_safe c ≡ true
default_is_safe c i = safe (codes "attachment.bin") refl i
  where
    safe : (t : Text) → all is_safe t ≡ true → In c t → is_safe c ≡ true
    safe [] h i = elim i [ ]
    safe (d ∷ t) h (here e) = subst (λ x. is_safe x ≡ true) (sym e) (and-eq-true (is_safe d) _ h).0
    safe (d ∷ t) h (there i) = safe t (and-eq-true (is_safe d) _ h).1 i

or_default-In :
    (out : Text) (c : ℕ)
    → ((c : ℕ) → In c out → is_safe c ≡ true)
    → In c (or_default out)
    → is_safe c ≡ true
or_default-In [] c h i = default_is_safe c i
or_default-In (d ∷ out) c h i = h c i

not_empty-or_default : (out : Text) → is_empty (or_default out) ≡ false
not_empty-or_default [] = refl
not_empty-or_default (d ∷ out) = refl

-- Whatever name a mail gives to an attachment, the stored name is not empty, and has only ASCII
-- letters, digits, dots, dashes, underscores and spaces: no separator of paths.
pub sanitize_filename-safe :
    (filename : Text)
    → (is_empty (sanitize_filename filename) ≡ false)
      × ((c : ℕ) → In c (sanitize_filename filename) → is_safe c ≡ true)
unfolding sanitize_filename
sanitize_filename-safe filename = (
  not_empty-or_default _,
  λ c i.
      or_default-In _ c
        (λ d j.
          let (a, e) = map-In replaced (take 120 (unwrap_or filename (file_name filename))) (
            trim_matches-In (λ x. x == b'.' || x == b' ') _ d
              (trim_matches-In is_whitespace _ d j)) in
          subst (λ x. is_safe x ≡ true) (sym e) (replaced-is_safe a))
        i,
)
