-- ===== src/Mail/Threading/Assignment.antt =====
-- Which thread a message joins, and when it starts a new one.
use mathlib.Core.Bool.{false≢true}
use postblox.Common.{
  ℕ, ◌-◌, ◌≡◌, refl, sym, ◌∙◌, subst, ◌↔◌, true, false, Option, none, some, List, [], ◌∷◌, ◌++◌,
  reverse, inl, inr, Bool-cases, In, All, select, select-In, In-select, is_empty, In-reverse,
  reverse-In, arith,
}
use postblox.Common.Text.{Text}
use postblox.Mail.{ParsedEmail}
use postblox.Mail.Threading.{
  Unicode, ThreadRef, ThreadMatch, existing, new, has_id, find_by_ids, latest, seven_days,
  normalize_subject, subject_fits, find_by_subject, find_reply_to, choose, assign_thread,
}
use postblox.Mail.Threading.Lookups.{
  find_by_id_sound, find_by_id-none, find_by_id_first, find_by_ids_sound, find_by_ids-none,
  latest-ne-none, latest_sound,
}

module _ (unicode : Unicode) (now : ℕ) (message : ParsedEmail) where
  -- What ties the message to a thread.
  pub data Linked (t : ThreadRef) : Type 0 where
    by_reply : (id : Text) → message.in_reply_to ≡ some id → has_id id t ≡ true → Linked t
    by_reference : (id : Text) → In id message.references → has_id id t ≡ true → Linked t
    by_subject :
        (subject : Text)
        → message.subject ≡ some subject
        → is_empty (normalize_subject unicode subject) ≡ false
        → subject_fits unicode (now - seven_days) (normalize_subject unicode subject) t ≡ true
        → Linked t

  find_by_subject_sound :
      (subject : Option Text) (ts : List ThreadRef) (t : ThreadRef)
      → message.subject ≡ subject
      → find_by_subject unicode now subject ts ≡ some t
      → In t ts × Linked t
  unfolding find_by_subject
  find_by_subject_sound none ts t e h = absurd (cc)
  find_by_subject_sound (some s) ts t e h =
      elim (Bool-cases (is_empty (normalize_subject unicode s))) [
        | inl k ↦ absurd (cc (rw k at h))
        | inr k ↦
            let fits = subject_fits unicode (now - seven_days) (normalize_subject unicode s) in
            let (m, _) = latest_sound (select fits ts) t (rw k at h) in
            let (n, f) = select-In fits t ts m in (n, by_subject s e k f)
      ]

  find_by_subject-none :
      (subject : Text) (ts : List ThreadRef) (t : ThreadRef)
      → find_by_subject unicode now (some subject) ts ≡ none
      → is_empty (normalize_subject unicode subject) ≡ false
      → In t ts
      → subject_fits unicode (now - seven_days) (normalize_subject unicode subject) t ≡ true
      → ⊥
  unfolding find_by_subject
  find_by_subject-none s ts t h k m f =
      let fits = subject_fits unicode (now - seven_days) (normalize_subject unicode s) in
      nothing (select fits ts) (rw k at h) (In-select fits m f)
    where
      nothing : (us : List ThreadRef) → latest us ≡ none → In t us → ⊥
      nothing [] h m = elim m [ ]
      nothing (u ∷ us) h m = latest-ne-none u us h

  find_reply_to_sound :
      (reply_to : Option Text) (ts : List ThreadRef) (t : ThreadRef)
      → message.in_reply_to ≡ reply_to
      → find_reply_to reply_to ts ≡ some t
      → In t ts × Linked t
  find_reply_to_sound none ts t e h = absurd (cc)
  find_reply_to_sound (some id) ts t e h =
      let (m, k) = find_by_id_sound id ts t h in (m, by_reply id e k)

  -- The three searches fail together exactly when the message starts a new thread.
  assign_thread-new :
      (ts : List ThreadRef)
      → assign_thread unicode now message ts ≡ new
      → (find_reply_to message.in_reply_to ts ≡ none)
        × (find_by_ids (reverse message.references) ts ≡ none)
        × (find_by_subject unicode now message.subject ts ≡ none)
  unfolding assign_thread
  assign_thread-new ts h = ground arith

  not_Linked :
      (ts : List ThreadRef) (t : ThreadRef)
      → assign_thread unicode now message ts ≡ new
      → In t ts
      → Linked t
      → ⊥
  not_Linked ts t h m (by_reply id e k) =
      let (a, _, _) = assign_thread-new ts h in
      false≢true (sym (find_by_id-none id m (rw e at a)) ∙ k)
  not_Linked ts t h m (by_reference id i k) =
      let (_, b, _) = assign_thread-new ts h in
      false≢true (sym (find_by_ids-none (In-reverse i) m b) ∙ k)
  not_Linked ts t h m (by_subject s e k f) =
      let (_, _, c) = assign_thread-new ts h in find_by_subject-none s ts t (rw e at c) k m f

  Found : ThreadMatch → List ThreadRef → Type 0
  Found (existing i) ts = (t : ThreadRef) × In t ts × (t.thread_id ≡ i) × Linked t
  Found new ts = Unit

  assign_thread-Found : (ts : List ThreadRef) → Found (assign_thread unicode now message ts) ts
  unfolding Found assign_thread
  assign_thread-Found ts =
      go (find_reply_to message.in_reply_to ts) (find_by_ids (reverse message.references) ts)
        (find_by_subject unicode now message.subject ts) refl refl refl
    where
      go :
          (a b c : Option ThreadRef)
          → find_reply_to message.in_reply_to ts ≡ a
          → find_by_ids (reverse message.references) ts ≡ b
          → find_by_subject unicode now message.subject ts ≡ c
          → Found (choose a b c) ts
      go (some t) b c p q r =
          let (m, l) = find_reply_to_sound message.in_reply_to ts t refl p in (t, m, refl, l)
      go none (some t) c p q r =
          let (m, id, i, k) = find_by_ids_sound (reverse message.references) ts t q in
          (t, m, refl, by_reference id (reverse-In message.references i) k)
      go none none (some t) p q r =
          let (m, l) = find_by_subject_sound message.subject ts t refl r in (t, m, refl, l)
      go none none none p q r = tt

  -- A message that joins a thread is tied to a known thread of that identifier: by its reply
  -- header, by a reference, or by the subject of a thread of the last seven days.
  pub assign_thread-existing :
      (ts : List ThreadRef) (i : ℕ)
      → assign_thread unicode now message ts ≡ existing i
      → (t : ThreadRef) × In t ts × (t.thread_id ≡ i) × Linked t
  unfolding Found
  assign_thread-existing ts i h = subst (λ r. Found r ts) h (assign_thread-Found ts)

  -- A new thread starts exactly when no known thread is tied to the message.
  pub assign_thread-new_iff :
      (ts : List ThreadRef)
      → (assign_thread unicode now message ts ≡ new) ↔ ((t : ThreadRef) → In t ts → ¬ Linked t)
  unfolding Found
  assign_thread-new_iff ts = (
    λ h t m l. not_Linked ts t h m l,
    λ none_linked. go none_linked (assign_thread unicode now message ts) (assign_thread-Found ts),
  )
    where
      go : ((t : ThreadRef) → In t ts → ¬ Linked t) → (r : ThreadMatch) → Found r ts → r ≡ new
      go none_linked (existing i) (t, m, _, l) = absurd (none_linked t m l)
      go none_linked new _ = refl

  -- A thread that has the identifier of the reply header is taken, the first such, whatever the
  -- references and the subject say.
  pub assign_thread-reply_first :
      (id : Text) (before : List ThreadRef) (t : ThreadRef) (after : List ThreadRef)
      → message.in_reply_to ≡ some id
      → All (λ u. has_id id u ≡ false) before
      → has_id id t ≡ true
      → assign_thread unicode now message (before ++ (t ∷ after)) ≡ existing t.thread_id
  unfolding assign_thread
  assign_thread-reply_first id before t after e h k =
      rw e (rw (find_by_id_first id before t after h k))
