-- ===== src/Tui/Composer/Valid.antt =====
-- The cursors of the composer (src/tui/app.rs) stay within their texts, and its cache of lines is
-- that of the body.
use postblox.Common.{
  ℕ, zero, suc, ◌+◌, ◌-◌, ◌≤◌, ◌≡◌, refl, ap, ◌∙◌, not, [], ◌∷◌, length, take, drop, leb, ◌==◌, min,
  arith, Bool-cases, inl, inr, length-append,
}
use postblox.Common.Text.{Text}
use postblox.Tui.Lines.{from_text}
use postblox.Tui.Bytes.Cut.{insert_char-char, remove_range-char}
use postblox.Tui.Composer.{ComposeField, to, cc, bcc, subject, body, ComposerState}
use postblox.Tui.Composer.Edits.{
  put_text, put_cursor, after_text_edit, text_of, cursor_of, reset_body_navigation_state, char_edit,
  cut, focused_cursor, focused_text, move_focused_cursor_left, move_focused_cursor_right,
  set_focused_cursor, move_focused_cursor_home, move_focused_cursor_end, insert_focused_char,
  delete_before_focused_cursor, delete_at_focused_cursor,
}

pub record IsValid (c : ComposerState) : Type 0 where
  pub to_within : c.to_cursor ≤ length c.to
  pub cc_within : c.cc_cursor ≤ length c.cc
  pub bcc_within : c.bcc_cursor ≤ length c.bcc
  pub subject_within : c.subject_cursor ≤ length c.subject
  pub body_within : c.body_cursor ≤ length c.body
  pub cached : c.body_line_cache ≡ from_text c.body

pub edited_field :
    (c : ComposerState) (t : Text) (n : ℕ)
    → IsValid c
    → n ≤ length t
    → (f : ComposeField) → c.focused ≡ f
    → IsValid (after_text_edit (put_text f t n c))
edited_field c t n v h to e = ground arith
edited_field c t n v h cc e = ground arith
edited_field c t n v h bcc e = ground arith
edited_field c t n v h subject e = ground arith
edited_field c t n v h body e = ground arith

pub moved_field :
    (c : ComposerState) (n : ℕ)
    → IsValid c
    → (f : ComposeField) → n ≤ length (text_of f c)
    → c.focused ≡ f
    → IsValid (reset_body_navigation_state (put_cursor f n c)) × IsValid (put_cursor f n c)
moved_field c n v to h e = ground arith
moved_field c n v cc h e = ground arith
moved_field c n v bcc h e = ground arith
moved_field c n v subject h e = ground arith
moved_field c n v body h e = ground arith

pub length-take : (n : ℕ) (t : Text) → n ≤ length t → length (take n t) ≡ n
length-take zero t h = refl
length-take (suc n) [] h = absurd (omega arith)
length-take (suc n) (c ∷ t) h = omega (arith, length-take n t (omega arith))

pub length-char_edit : (t : Text) (n ch : ℕ) → length (char_edit t n ch) ≡ length t + 1
length-char_edit t n ch =
    ap length (insert_char-char t n ch)
    ∙ length-append (take n t) (ch ∷ drop n t)
    ∙ split_length n t
  where
    split_length : (n : ℕ) (t : Text) → length (take n t) + suc (length (drop n t)) ≡ length t + 1
    split_length zero t = omega arith
    split_length (suc n) [] = omega arith
    split_length (suc n) (c ∷ t) = omega (arith, split_length n t)

pub length-cut : (t : Text) (a b : ℕ) → a ≤ length t → a ≤ length (cut t a b)
length-cut t a b h = omega (
  arith,
  ap length (remove_range-char t a b),
  length-append (take a t) (drop b t),
  length-take a t h,
)

module _ (c : ComposerState) (v : IsValid c) where
  pub left-IsValid : IsValid (move_focused_cursor_left c).0
  unfolding move_focused_cursor_left focused_cursor
  left-IsValid = elim (Bool-cases (cursor_of c.focused c == 0)) [
    | inl e ↦ rw e v
    | inr e ↦ rw e ((moved_field c _ v c.focused (less c.focused) refl).0)
  ]
    where
      less : (f : ComposeField) → cursor_of f c - 1 ≤ length (text_of f c)
      less to = omega (arith, v.to_within)
      less cc = omega (arith, v.cc_within)
      less bcc = omega (arith, v.bcc_within)
      less subject = omega (arith, v.subject_within)
      less body = omega (arith, v.body_within)

  pub right-IsValid : IsValid (move_focused_cursor_right c).0
  unfolding move_focused_cursor_right focused_cursor focused_text
  right-IsValid =
      let len = length (text_of c.focused c) in
      let old = min (cursor_of c.focused c) len in
      elim (Bool-cases (leb len old)) [
        | inl e ↦ rw e ((moved_field c len v c.focused (omega arith) refl).1)
        | inr e ↦ rw e ((moved_field c (old + 1) v c.focused (ground arith) refl).0)
      ]

  pub set-IsValid : (target : ℕ) → IsValid (set_focused_cursor target c).0
  unfolding set_focused_cursor focused_cursor focused_text
  set-IsValid target =
      let len = length (text_of c.focused c) in
      let next = min target len in
      let both = moved_field c next v c.focused (omega arith) refl in
      elim (Bool-cases (not (min (cursor_of c.focused c) len == next))) [
        | inl e ↦ rw e (both.0)
        | inr e ↦ rw e (both.1)
      ]

  pub home-IsValid : IsValid (move_focused_cursor_home c).0
  unfolding move_focused_cursor_home
  home-IsValid = set-IsValid _

  pub end-IsValid : IsValid (move_focused_cursor_end c).0
  unfolding move_focused_cursor_end
  end-IsValid = set-IsValid _

  pub insert-IsValid : (ch : ℕ) → IsValid (insert_focused_char ch c)
  unfolding insert_focused_char focused_cursor focused_text
  insert-IsValid ch =
      let t = text_of c.focused c in
      let current = min (cursor_of c.focused c) (length t) in
      edited_field c (char_edit t current ch) (current + 1) v
        (omega (arith, length-char_edit t current ch)) c.focused refl

  pub before-IsValid : IsValid (delete_before_focused_cursor c).0
  unfolding delete_before_focused_cursor focused_cursor focused_text
  before-IsValid =
      let t = text_of c.focused c in
      let current = min (cursor_of c.focused c) (length t) in
      elim (Bool-cases (current == 0)) [
        | inl e ↦ rw e ((moved_field c 0 v c.focused (omega arith) refl).1)
        | inr e ↦ rw e (
            edited_field c (cut t (current - 1) current) (current - 1) v
              (length-cut t (current - 1) current (omega arith)) c.focused refl)
      ]

  pub at-IsValid : IsValid (delete_at_focused_cursor c).0
  unfolding delete_at_focused_cursor focused_cursor focused_text
  at-IsValid =
      let t = text_of c.focused c in
      let current = min (cursor_of c.focused c) (length t) in
      elim (Bool-cases (leb (length t) current)) [
        | inl e ↦ rw e ((moved_field c (length t) v c.focused (omega arith) refl).1)
        | inr e ↦ rw e (
            edited_field c (cut t current (current + 1)) current v
              (length-cut t current (current + 1) (omega arith)) c.focused refl)
      ]
