-- ===== src/Tui/Composer/Words.antt =====
-- The word that Ctrl-W deletes in the composer (src/tui/app.rs).
use postblox.Common.{
  ℕ, zero, suc, ◌-◌, ◌≤◌, ◌<◌, ◌≡◌, refl, ap, ◌∙◌, subst, ◌⊎◌, inl, inr, true, false, not, Bool, [],
  ◌∷◌, ◌++◌, length, take, drop, ◌==◌, min, arith, Bool-cases,
}
use postblox.Common.Text.{Text, is_whitespace}
use postblox.Tui.Bytes.Cut.{remove_range-char}
use postblox.Tui.Composer.{ComposerState}
use postblox.Tui.Composer.Edits.{
  cut, focused_cursor, focused_text, passes_at, walk_back, word_start, delete_word_before_cursor,
}
use postblox.Tui.Composer.Valid.{IsValid}
use postblox.Tui.Composer.Undo.{edit_shows, cursor-le}

-- All places from `a` up to `b` pass the test, and the one before `a` does not.
pub record Run (p : ℕ → Bool) (t : Text) (a b : ℕ) : Type 0 where
  pub ordered : a ≤ b
  pub passes : (i : ℕ) → a ≤ i → i < b → passes_at p t i ≡ true
  pub stops : (a ≡ 0) ⊎ (passes_at p t (a - 1) ≡ false)

walk_back-Run : (p : ℕ → Bool) (t : Text) (n : ℕ) → Run p t (walk_back p t n) n
walk_back-Run p t zero = record {
  ordered = omega arith;
  passes = λ i h k. absurd (omega arith);
  stops = inl refl;
}
walk_back-Run p t (suc n) = elim (Bool-cases (passes_at p t n)) [
  | inl e ↦
      let r = walk_back-Run p t n in
      rw e (record {
        ordered = omega (arith, r.ordered);
        passes = λ i h k. elim (Bool-cases (i == n)) [
          | inl same ↦ subst (λ j. passes_at p t j ≡ true) (ground arith) e
          | inr other ↦ r.passes i h (ground arith)
        ];
        stops = r.stops;
      })
  | inr e ↦ rw e (record {
    ordered = omega arith;
    passes = λ i h k. absurd (omega arith);
    stops = inr (subst (λ j. passes_at p t j ≡ false) (omega arith) e);
  })
]

abbrev is_letter : ℕ → Bool
is_letter ch = not (is_whitespace ch)

-- The text before `b` ends in a word, from `a` to `m`, and the space after it.
pub record LastWord (t : Text) (a m b : ℕ) : Type 0 where
  pub word : Run is_letter t a m
  pub space : Run is_whitespace t m b

passes_at-inside :
    (p : ℕ → Bool) (t : Text) (n : ℕ)
    → n < length t
    → (passes_at p t n ≡ true) ⊎ (passes_at (λ ch. not (p ch)) t n ≡ true)
passes_at-inside p [] n h = absurd (omega arith)
passes_at-inside p (c ∷ t) zero h = elim (Bool-cases (p c)) [
  | inl e ↦ inl e
  | inr e ↦ inr (ap not e)
]
passes_at-inside p (c ∷ t) (suc n) h = passes_at-inside p t n (omega arith)

walk_back-moves :
    (p : ℕ → Bool) (t : Text) (n : ℕ) → passes_at p t n ≡ true → walk_back p t (suc n) ≤ n
walk_back-moves p t n e = rw (e, walk_back) ((walk_back-Run p t n).ordered)

word_start-lt : (t : Text) (n : ℕ) → n < length t → word_start t (suc n) < suc n
word_start-lt t n h = elim (passes_at-inside is_whitespace t n h) [
  | inl e ↦ omega (
    arith,
    walk_back-moves is_whitespace t n e,
    (walk_back-Run is_letter t (walk_back is_whitespace t (suc n))).ordered,
  )
  | inr e ↦ elim (Bool-cases (passes_at is_whitespace t n)) [
    | inl k ↦ omega (
      arith,
      walk_back-moves is_whitespace t n k,
      (walk_back-Run is_letter t (walk_back is_whitespace t (suc n))).ordered,
    )
    | inr k ↦
        let stays : walk_back is_whitespace t (suc n) ≡ suc n = rw (k, walk_back) refl in
        omega (arith, ap (walk_back is_letter t) stays, walk_back-moves is_letter t n e)
  ]
]

-- Where the cursor is not at the start of the field, the key deletes the last word before it and
-- the space between, and nothing else: the rest of the text stays, and the cursor stands where
-- the word began.
pub delete_word-LastWord :
    (c : ComposerState) (n : ℕ)
    → IsValid c
    → focused_cursor c ≡ suc n
    → (a : ℕ) × (m : ℕ) × (a < suc n)
      × LastWord (focused_text c) a m (suc n)
      × (focused_text (delete_word_before_cursor c).0
          ≡ take a (focused_text c) ++ drop (suc n) (focused_text c))
      × (focused_cursor (delete_word_before_cursor c).0 ≡ a)
unfolding delete_word_before_cursor
delete_word-LastWord c n v e =
    let t = focused_text c in
    let inside : suc n ≤ length t = omega (arith, cursor-le c v, e) in
    let here : suc n ≡ min (focused_cursor c) (length t) = omega (arith, e) in
    let a = word_start t (suc n) in
    let less = word_start-lt t n (omega arith) in
    let some_left : suc n == 0 ≡ false = ground arith in
    let moves : a == suc n ≡ false = ground (arith, less) in
    let (shown, at) = edit_shows c (cut t a (suc n)) a in
    (
      a,
      walk_back is_whitespace t (suc n),
      less,
      record {
        word = walk_back-Run is_letter t (walk_back is_whitespace t (suc n));
        space = walk_back-Run is_whitespace t (suc n);
      },
      rw (← here) (rw some_left (rw moves (shown ∙ remove_range-char t a (suc n)))),
      rw (← here) (rw some_left (rw moves at)),
    )
