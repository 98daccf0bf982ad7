-- ===== src/Mail/Reply/Recipients.antt =====
-- Who gets a reply to all.
use mathlib.Core.Bool.{false≢true}
use postblox.Common.{
  ◌≡◌, ◌≢◌, refl, sym, ap, ◌∙◌, subst, Bool, true, false, not, ◌&&◌, ◌||◌, List, [], ◌∷◌, ◌++◌, inl,
  inr, In, here, there, In-append_left, In-append_right, any, is_empty, Bool-cases, or-eq-false,
  and-eq-true,
}
use postblox.Common.Text.{Text, text_eq, trim, to_ascii_lowercase}
use postblox.Common.Text.Equality.{text_eq_refl}
use postblox.Mail.Reply.{
  MessageView, lower, contains_lower, push_lower, push_all, carry_over, promote, target,
  primary_reply_target, recipients,
}

any-append {ℓ} :
    {A : Type ℓ} (p : A → Bool) (xs ys : List A) → any p (xs ++ ys) ≡ (any p xs || any p ys)
any-append p [] ys = refl
any-append p (x ∷ xs) ys = elim (Bool-cases (p x)) [
  | inl e ↦ rw e refl
  | inr e ↦ rw e (any-append p xs ys)
]

abbrev noted : Text → List Text → Bool
noted t seen = any (λ s. text_eq s t) seen

noted-push_lower :
    (t : Text) (seen : List Text) (a : Text)
    → noted t seen ≡ true
    → noted t (push_lower seen a) ≡ true
unfolding push_lower
noted-push_lower t seen a h =
    elim (Bool-cases (not (is_empty (lower a)) && not (any (λ s. text_eq s (lower a)) seen))) [
      | inl e ↦ rw e (any-append _ seen _ ∙ rw h refl)
      | inr e ↦ rw e h
    ]

push_lower-noted :
    (seen : List Text) (a : Text)
    → is_empty (lower a) ≡ false
    → noted (lower a) (push_lower seen a) ≡ true
unfolding push_lower
push_lower-noted seen a h = elim (Bool-cases (any (λ s. text_eq s (lower a)) seen)) [
  | inl e ↦ rw (h, e) e
  | inr e ↦
      rw (h, e)
        (any-append (λ s. text_eq s (lower a)) seen (lower a ∷ [])
          ∙ rw e (rw (text_eq_refl (lower a)) refl))
]

noted-push_all :
    (t : Text) (seen addrs : List Text) → noted t seen ≡ true → noted t (push_all seen addrs) ≡ true
unfolding push_all
noted-push_all t seen [] h = h
noted-push_all t seen (a ∷ addrs) h =
    noted-push_all t (push_lower seen a) addrs (noted-push_lower t seen a h)

push_all-noted :
    (seen addrs : List Text) (a : Text)
    → In a addrs
    → is_empty (lower a) ≡ false
    → noted (lower a) (push_all seen addrs) ≡ true
unfolding push_all
push_all-noted seen [] a i h = elim i [ ]
push_all-noted seen (b ∷ addrs) a (here e) h =
    noted-push_all (lower a) (push_lower seen b) addrs
      (subst (λ c. noted (lower a) (push_lower seen c) ≡ true) e (push_lower-noted seen a h))
push_all-noted seen (b ∷ addrs) a (there i) h = push_all-noted (push_lower seen b) addrs a i h

not-eq-true : (b : Bool) → not b ≡ true → b ≡ false
not-eq-true true h = absurd (cc h)
not-eq-true false h = refl

-- An address that is carried over is one of the list, is not blank, and was not noted before.
carry_over-In :
    (seen addrs : List Text) (a : Text)
    → In a (carry_over seen addrs)
    → In a addrs × (is_empty (trim a) ≡ false) × (contains_lower seen a ≡ false)
unfolding carry_over contains_lower
carry_over-In seen [] a i = elim i [ ]
carry_over-In seen (b ∷ addrs) a i =
    elim (Bool-cases (not (is_empty (trim b)) && not (noted (lower b) seen))) [
      | inl e ↦
          kept e (rw (e, carry_over) at i)
            (carry_over-In (seen ++ (to_ascii_lowercase b ∷ [])) addrs a)
      | inr e ↦
          let (j, x, y) = carry_over-In seen addrs a (rw (e, carry_over) at i) in (there j, x, y)
    ]
  where
    kept :
        (not (is_empty (trim b)) && not (noted (lower b) seen)) ≡ true
        → In a (b ∷ carry_over (seen ++ (to_ascii_lowercase b ∷ [])) addrs)
        → (In a (carry_over (seen ++ (to_ascii_lowercase b ∷ [])) addrs)
            → In a addrs
              × (is_empty (trim a) ≡ false)
              × (noted (lower a) (seen ++ (to_ascii_lowercase b ∷ [])) ≡ false))
        → In a (b ∷ addrs) × (is_empty (trim a) ≡ false) × (noted (lower a) seen ≡ false)
    kept e (here k) ih =
        let (x, y) = and-eq-true (not (is_empty (trim b))) _ e in
        (
          here k,
          subst (λ c. is_empty (trim c) ≡ false) (sym k) (not-eq-true (is_empty (trim b)) x),
          subst (λ c. noted (lower c) seen ≡ false) (sym k) (not-eq-true (noted (lower b) seen) y),
        )
    kept e (there k) ih =
        let (j, x, y) = ih k in
        (there j, x, (or-eq-false (noted (lower a) seen) _ (sym (any-append _ seen _) ∙ y)).0)

promote-In : (to cc : List Text) (a : Text) → In a (promote to cc).1 → In a cc
promote-In [] [] a i = i
promote-In [] (c ∷ cc) a i = there i
promote-In (t ∷ to) cc a i = i

not_empty_lower : (a : Text) → is_empty (trim a) ≡ false → is_empty (lower a) ≡ false
not_empty_lower a h = go (trim a) h
  where
    go : (t : Text) → is_empty t ≡ false → is_empty (to_ascii_lowercase t) ≡ false
    go [] h = h
    go (c ∷ t) h = refl

-- Every copy of a reply to all goes to an original recipient whose address is not blank, and
-- neither to the account itself nor to the one replied to, by whatever case and surrounding space
-- they are written with.
pub recipients-In :
    (m : MessageView) (account_email a : Text)
    → In a (recipients m account_email true).1
    → In a (m.to_addrs ++ m.cc_addrs)
      × (is_empty (trim a) ≡ false)
      × (lower account_email ≢ lower a)
      × ((b : Text) → In b (target (primary_reply_target m)) → lower b ≢ lower a)
unfolding recipients contains_lower
recipients-In m account_email a i =
    let to = target (primary_reply_target m) in
    let (j, filled, fresh) =
      carry_over-In (push_all [] (to ++ (account_email ∷ []))) (m.to_addrs ++ m.cc_addrs) a
        (promote-In to _ a i) in
    let other : (b : Text) → In b (to ++ (account_email ∷ [])) → lower b ≢ lower a = λ b k e.
      false≢true (
        sym fresh
        ∙ subst (λ t. noted t (push_all [] (to ++ (account_email ∷ []))) ≡ true) e
            (push_all-noted [] (to ++ (account_email ∷ [])) b k
              (ap is_empty e ∙ not_empty_lower a filled))) in
    (
      j,
      filled,
      other account_email (In-append_right to (here refl)),
      λ b k. other b (In-append_left _ k),
    )
