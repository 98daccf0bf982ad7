-- ===== src/Tui/Completion/Prefix.antt =====
-- What a completion offers.
use postblox.Common.{
  ◌≡◌, refl, sym, ap, subst, ◌↔◌, Bool, true, false, some, List, [], ◌∷◌, map, ◌==◌, any, all,
  is_empty, In, here, there, select-In, In-select, Bool-cases, and-eq-true, inl, inr, ==_refl,
  ==_iff,
}
use postblox.Common.Text.{Text, starts_with, is_whitespace}
use postblox.Tui.Command.{command_names}
use postblox.Tui.Completion.{
  CommandCompletion, head_is, tail, common_prefix, longest_common_prefix, completion, matching,
  complete_command,
}

In-map {ℓ κ} :
    {A : Type ℓ} {B : Type κ} (f : A → B) {a : A} {xs : List A} → In a xs → In (f a) (map f xs)
In-map f (here e) = here (ap f e)
In-map f (there i) = there (In-map f i)

all-In {ℓ} :
    {A : Type ℓ} (p : A → Bool) {a : A} {xs : List A} → all p xs ≡ true → In a xs → p a ≡ true
all-In p {xs = []} h i = elim i [ ]
all-In p {xs = x ∷ xs} h (here e) = subst (λ b. p b ≡ true) (sym e) (and-eq-true (p x) _ h).0
all-In p {xs = x ∷ xs} h (there i) = all-In p (and-eq-true (p x) _ h).1 i

all_of_In {ℓ} :
    {A : Type ℓ} (p : A → Bool) (xs : List A) → ((a : A) → In a xs → p a ≡ true) → all p xs ≡ true
all_of_In p [] h = refl
all_of_In p (x ∷ xs) h = rw (h x (here refl)) (all_of_In p xs (λ a i. h a (there i)))

-- The common prefix is one of every word.
starts_with-common_prefix :
    (first : Text) (words : List Text) (w : Text)
    → In w words
    → starts_with w (common_prefix first words) ≡ true
unfolding common_prefix
starts_with-common_prefix [] words [] i = refl
starts_with-common_prefix [] words (c ∷ w) i = refl
starts_with-common_prefix (c ∷ first) words w i = elim (Bool-cases (all (head_is c) words)) [
  | inl e ↦ rw e (
      go w (all-In (head_is c) e i)
        (starts_with-common_prefix first (map tail words) (tail w) (In-map tail i)))
  | inr e ↦ rw e (starts_with_nothing w)
]
  where
    starts_with_nothing : (w : Text) → starts_with w [] ≡ true
    starts_with_nothing [] = refl
    starts_with_nothing (c ∷ w) = refl

    go :
        (w : Text)
        → head_is c w ≡ true
        → starts_with (tail w) (common_prefix first (map tail words)) ≡ true
        → starts_with w (c ∷ common_prefix first (map tail words)) ≡ true
    go [] h k = absurd (cc h)
    go (d ∷ w) h k = rw h k

-- A prefix of all words is one of the common prefix.
common_prefix-greatest :
    (p first : Text) (words : List Text)
    → starts_with first p ≡ true
    → ((w : Text) → In w words → starts_with w p ≡ true)
    → starts_with (common_prefix first words) p ≡ true
unfolding common_prefix
common_prefix-greatest [] first words h k = nothing (common_prefix first words)
  where
    nothing : (w : Text) → starts_with w [] ≡ true
    nothing [] = refl
    nothing (c ∷ w) = refl
common_prefix-greatest (c ∷ p) [] words h k = absurd (cc h)
common_prefix-greatest (c ∷ p) (d ∷ first) words h k =
    let (e, rest) = and-eq-true (c == d) (starts_with first p) h in
    let same : c ≡ d = (==_iff c d).0 e in
    rw (all_of_In (head_is d) words (λ w i. head w (k w i) same))
      (rw e (common_prefix-greatest p first (map tail words) rest (λ w i. shorter words k w i)))
  where
    head : (w : Text) → starts_with w (c ∷ p) ≡ true → c ≡ d → head_is d w ≡ true
    head [] h same = absurd (cc h)
    head (x ∷ w) h same =
        subst (λ y. (y == x) ≡ true) same (and-eq-true (c == x) (starts_with w p) h).0

    tails : (w : Text) → starts_with w (c ∷ p) ≡ true → starts_with (tail w) p ≡ true
    tails [] h = absurd (cc h)
    tails (x ∷ w) h = (and-eq-true (c == x) (starts_with w p) h).1

    shorter :
        (words : List Text)
        → ((w : Text) → In w words → starts_with w (c ∷ p) ≡ true)
        → (w : Text) → In w (map tail words)
        → starts_with w p ≡ true
    shorter [] k w i = elim i [ ]
    shorter (v ∷ words) k w (here e) =
        subst (λ u. starts_with u p ≡ true) (sym e) (tails v (k v (here refl)))
    shorter (v ∷ words) k w (there i) = shorter words (λ u j. k u (there j)) w i

-- What a completion of the input is: it offers exactly the commands that begin with the input, and
-- its text is their longest common beginning.
pub record Completes (input : Text) (c : CommandCompletion) : Type 0 where
  pub offers :
      (name : Text) → In name c.matches ↔ (In name command_names × (starts_with name input ≡ true))
  pub common : (name : Text) → In name c.matches → starts_with name c.text ≡ true
  pub longest :
      (p : Text)
      → ((name : Text) → In name c.matches → starts_with name p ≡ true)
      → starts_with c.text p ≡ true
  pub extends_input : starts_with c.text input ≡ true

-- The same of the words themselves.
record Common (input : Text) (words : List Text) (c : CommandCompletion) : Type 0 where
  matched : c.matches ≡ words
  common : (w : Text) → In w words → starts_with w c.text ≡ true
  longest :
      (p : Text) → ((w : Text) → In w words → starts_with w p ≡ true) → starts_with c.text p ≡ true
  extends : starts_with c.text input ≡ true

starts_with_refl : (t : Text) → starts_with t t ≡ true
starts_with_refl [] = refl
starts_with_refl (c ∷ t) = rw (==_refl c) (starts_with_refl t)

offered :
    (input name : Text)
    → In name (matching input) ↔ (In name command_names × (starts_with name input ≡ true))
offered input name = (
  λ i. select-In (λ n. starts_with n input) name command_names i,
  λ (i, h). In-select (λ n. starts_with n input) i h,
)

completion-Common :
    (input : Text) (words : List Text)
    → ((w : Text) → In w words → starts_with w input ≡ true)
    → (c : CommandCompletion) → completion words ≡ some c
    → Common input words c
unfolding longest_common_prefix
completion-Common input [] h c e = absurd (cc e)
completion-Common input (only ∷ []) h c e =
    let same : record { text = only; matches = only ∷ []; unique = true } ≡ c = cc e in
    subst (λ (d : CommandCompletion). Common input (only ∷ []) d) same
      (record {
        matched = refl;
        common = λ w i. single w i;
        longest = λ p k. k only (here refl);
        extends = h only (here refl);
      })
  where
    single : (w : Text) → In w (only ∷ []) → starts_with w only ≡ true
    single w (here e) = subst (λ v. starts_with w v ≡ true) e (starts_with_refl w)
    single w (there i) = elim i [ ]
completion-Common input (a ∷ (b ∷ words)) h c e =
    let several = a ∷ (b ∷ words) in
    let same : record { text = common_prefix a several; matches = several; unique = false } ≡ c =
      cc e in
    subst (λ (d : CommandCompletion). Common input several d) same
      (record {
        matched = refl;
        common = λ w i. starts_with-common_prefix a several w i;
        longest = λ p k. common_prefix-greatest p a several (k a (here refl)) k;
        extends = common_prefix-greatest input a several (h a (here refl)) h;
      })

-- Where a completion is offered, it offers exactly the commands that begin with the input, and its
-- text is their longest common beginning, which the input begins.
pub complete_command-Completes :
    (input : Text) (c : CommandCompletion) → complete_command input ≡ some c → Completes input c
unfolding complete_command
complete_command-Completes input c e = elim (Bool-cases (is_empty input)) [
  | inl b ↦ absurd (cc (rw b at e))
  | inr b ↦ elim (Bool-cases (any is_whitespace input)) [
    | inl s ↦ absurd (cc (rw (b, s) at e))
    | inr s ↦
        let k =
          completion-Common input (matching input) (λ w i. ((offered input w).0 i).1) c
            (rw (b, s) at e) in
        record {
          offers = λ name.
              subst (λ ws. In name ws ↔ (In name command_names × (starts_with name input ≡ true)))
                (sym k.matched) (offered input name);
          common = λ name i. k.common name (subst (λ ws. In name ws) k.matched i);
          longest = λ p h. k.longest p (λ w i. h w (subst (λ ws. In w ws) (sym k.matched) i));
          extends_input = k.extends;
        }
  ]
]
