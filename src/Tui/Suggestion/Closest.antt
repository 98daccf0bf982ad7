-- ===== src/Tui/Suggestion/Closest.antt =====
-- Which name is suggested.
use postblox.Common.{
  ℕ, ◌≤◌, ◌<◌, ◌≡◌, refl, sym, ap, ◌∙◌, subst, ◌⊎◌, true, false, Option, none, some, List, [], ◌∷◌,
  ltb, ltb→lt, is_empty, In, here, there, Bool-cases, inl, inr, arith,
}
use postblox.Common.Text.{Text}
use postblox.Tui.Command.{command_names}
use postblox.Tui.Suggestion.Distance.{near_iff}
use postblox.Tui.Suggestion.{damerau_levenshtein, near, better, search_names, nearest_command_name}

-- The best of some names: none if none is near, or one that is near and no further than any other.
pub data Closest (input : Text) (P : Text → Type 0) : Option Text → Type 0 where
  no_name : ((n : Text) → P n → near input n ≡ false) → Closest input P none
  closest :
      (best : Text)
      → P best
      → near input best ≡ true
      → ((n : Text)
          → P n
          → near input n ≡ true
          → damerau_levenshtein input best ≤ damerau_levenshtein input n)
      → Closest input P (some best)

at_most : (m n : ℕ) → ltb m n ≡ false → n ≤ m
at_most m n h = ground arith

Closest-of_same :
    (input : Text) (P Q : Text → Type 0) (o : Option Text)
    → ((n : Text) → P n → Q n)
    → ((n : Text) → Q n → P n)
    → Closest input P o
    → Closest input Q o
Closest-of_same input P Q none f g (no_name h) = no_name (λ n q. h n (g n q))
Closest-of_same input P Q (some b) f g (closest best p k h) =
    closest b (f b p) k (λ n q. h n (g n q))

module _ (input name : Text) (P : Text → Type 0) where
  Also : Text → Type 0
  Also n = (n ≡ name) ⊎ P n

  distance_of_same :
      {n m : Text} → n ≡ m → damerau_levenshtein input m ≤ damerau_levenshtein input n
  distance_of_same {n = n} {m = m} e =
      let d : damerau_levenshtein input n ≡ damerau_levenshtein input m =
        ap (damerau_levenshtein input) e in
      omega arith

  with_name :
      (o : Option Text)
      → near input name ≡ true
      → Closest input P o
      → Closest input Also (better input o name)
  unfolding Also
  with_name none near_name (no_name h) = closest name (inl refl) near_name (λ n i k. go n i k)
    where
      go :
          (n : Text)
          → (n ≡ name) ⊎ P n
          → near input n ≡ true
          → damerau_levenshtein input name ≤ damerau_levenshtein input n
      go n (inl e) k = distance_of_same e
      go n (inr p) k = absurd (cc (sym k ∙ h n p))
  with_name (some b) near_name (closest best p near_best h) =
      elim (Bool-cases (ltb (damerau_levenshtein input name) (damerau_levenshtein input b))) [
        | inl e ↦
            let less = ltb→lt (damerau_levenshtein input name) (damerau_levenshtein input b) e in
            rw e (closest name (inl refl) near_name (λ n i k. to_name (omega arith) n i k))
        | inr e ↦
            let more = at_most (damerau_levenshtein input name) (damerau_levenshtein input b) e in
            rw e (closest b (inr p) near_best (λ n i k. to_best more n i k))
      ]
    where
      to_name :
          damerau_levenshtein input name ≤ damerau_levenshtein input b
          → (n : Text) → (n ≡ name) ⊎ P n
          → near input n ≡ true
          → damerau_levenshtein input name ≤ damerau_levenshtein input n
      to_name l n (inl e) k = distance_of_same e
      to_name l n (inr q) k = omega (arith, l, h n q k)

      to_best :
          damerau_levenshtein input b ≤ damerau_levenshtein input name
          → (n : Text) → (n ≡ name) ⊎ P n
          → near input n ≡ true
          → damerau_levenshtein input b ≤ damerau_levenshtein input n
      to_best l n (inl e) k = omega (arith, l, distance_of_same e)
      to_best l n (inr q) k = h n q k

  without_name :
      (o : Option Text) → near input name ≡ false → Closest input P o → Closest input Also o
  unfolding Also
  without_name none far (no_name h) =
      no_name
        (λ n i. elim i [ inl e ↦ subst (λ m. near input m ≡ false) (sym e) far | inr p ↦ h n p ])
  without_name (some b) far (closest best p near_best h) =
      closest b (inr p) near_best (λ n i k. elim i [
        | inl e ↦ absurd (cc (sym k ∙ ap (near input) e ∙ far))
        | inr q ↦ h n q k
      ])

search_names-Closest :
    (input : Text) (P : Text → Type 0) (o : Option Text) (names : List Text)
    → Closest input P o
    → Closest input (λ n. In n names ⊎ P n) (search_names input o names)
unfolding search_names Also
search_names-Closest input P o [] c =
    Closest-of_same input P (λ n. In n [] ⊎ P n) o (λ n p. inr p) (λ n i. only n i) c
  where
    only : (n : Text) → In n [] ⊎ P n → P n
    only n (inl i) = elim i [ ]
    only n (inr p) = p
search_names-Closest input P o (name ∷ names) c = elim (Bool-cases (near input name)) [
  | inl e ↦
      rw (e, search_names)
        (moved _
          (search_names-Closest input (Also input name P) _ names (with_name input name P o e c)))
  | inr e ↦
      rw (e, search_names)
        (moved _ (
          search_names-Closest input (Also input name P) _ names (without_name input name P o e c)))
]
  where
    there_is : (n : Text) → In n names ⊎ Also input name P n → In n (name ∷ names) ⊎ P n
    there_is n (inl i) = inl (there i)
    there_is n (inr (inl e)) = inl (here e)
    there_is n (inr (inr p)) = inr p

    back : (n : Text) → In n (name ∷ names) ⊎ P n → In n names ⊎ Also input name P n
    back n (inl (here e)) = inr (inl e)
    back n (inl (there i)) = inl i
    back n (inr p) = inr (inr p)

    moved :
        (r : Option Text)
        → Closest input (λ n. In n names ⊎ Also input name P n) r
        → Closest input (λ n. In n (name ∷ names) ⊎ P n) r
    moved r c = Closest-of_same input _ _ r (λ n i. there_is n i) (λ n i. back n i) c

-- The nearest of some names: one within distance two that is no further than any other, or none
-- where all are further than two.
pub data Nearest (input : Text) (P : Text → Type 0) : Option Text → Type 0 where
  no_nearest : ((n : Text) → P n → 2 < damerau_levenshtein input n) → Nearest input P none
  nearest :
      (best : Text)
      → P best
      → damerau_levenshtein input best ≤ 2
      → ((n : Text) → P n → damerau_levenshtein input best ≤ damerau_levenshtein input n)
      → Nearest input P (some best)

Closest-Nearest :
    (input : Text) (P : Text → Type 0) (o : Option Text) → Closest input P o → Nearest input P o
Closest-Nearest input P none (no_name h) =
    no_nearest (λ n p. let far = h n p in ground (arith, near_iff input n))
Closest-Nearest input P (some found) (closest best p k h) =
    let close : damerau_levenshtein input best ≤ 2 = ground (arith, near_iff input best) in
    nearest best p close (λ n q. elim (Bool-cases (near input n)) [
      | inl e ↦ h n q e
      | inr e ↦ ground (arith, near_iff input n)
    ])

-- What is suggested for an input that is not empty is a command name within distance two, and no
-- other command name is nearer; nothing is suggested exactly where all command names are further
-- than two.
pub nearest_command_name-Nearest :
    (input : List ℕ)
    → is_empty input ≡ false
    → Nearest input (λ n. In n command_names) (nearest_command_name input)
unfolding nearest_command_name
nearest_command_name-Nearest input filled = rw filled (
    Closest-Nearest input (λ n. In n command_names) _
      (Closest-of_same input (λ n. In n command_names ⊎ ⊥) (λ n. In n command_names) _
        (λ n i. left n i) (λ n i. inl i)
        (search_names-Closest input (λ n. ⊥) none command_names (no_name (λ n f. absurd f)))))
  where
    left : (n : Text) → In n command_names ⊎ ⊥ → In n command_names
    left n (inl i) = i
    left n (inr f) = absurd f
