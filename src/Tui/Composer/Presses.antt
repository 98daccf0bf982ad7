-- ===== src/Tui/Composer/Presses.antt =====
-- Every key keeps the composer of src/tui/app.rs well formed.
use postblox.Common.{
  ℕ, zero, suc, ◌+◌, ◌≤◌, ◌≡◌, refl, Bool, true, false, not, ◌||◌, Option, none, some, List, [],
  ◌∷◌, length, leb, ◌==◌, min, arith, Bool-cases, inl, inr, ℤ,
}
use postblox.Common.Text.{Text, is_whitespace}
use postblox.Tui.Lines.{line_start, newline}
use postblox.Tui.Lines.Cursor.{line_ends}
use postblox.Tui.Composer.{
  ComposeField, to, cc, bcc, subject, body, next, previous, ComposerState, max_compose_body_chars,
}
use postblox.Tui.Composer.Edits.{
  Change, is_body, text_of, cursor_of, char_edit, cut, focused_cursor, focused_text, field_limit,
  walk_back, word_start, delete_word_before_cursor, insert_body_newline, body_line_len,
  move_body_line, select_to, ensure_body_cursor_visible, clear_body_selection,
  delete_before_focused_cursor, delete_at_focused_cursor,
}
use postblox.Tui.Composer.Keys.{
  is_control, toggle_body_line_selection, start_body_line_selection, dirtied, push_composer_char,
  composer_enter, Key, push, backspace, delete, delete_word, left, right, home, end, move_line,
  toggle_selection, start_selection, clear_selection, enter, next_field, previous_field, press,
  press_all,
}
use postblox.Tui.Composer.Valid.{
  IsValid, edited_field, moved_field, length-char_edit, length-cut, left-IsValid, right-IsValid,
  home-IsValid, end-IsValid, insert-IsValid, before-IsValid, at-IsValid,
}

walk_back-le : (p : ℕ → Bool) (t : Text) (n : ℕ) → walk_back p t n ≤ n
walk_back-le p t zero = omega arith
walk_back-le p t (suc n) = ground (arith, walk_back-le p t n)

pub word_start-le : (t : Text) (n : ℕ) → word_start t n ≤ n
word_start-le t n = omega (
  arith,
  walk_back-le is_whitespace t n,
  walk_back-le (λ ch. not (is_whitespace ch)) t (walk_back is_whitespace t n),
)

body_of : (f : ComposeField) → is_body f ≡ true → f ≡ body
body_of body h = refl
body_of to h = ground arith
body_of cc h = ground arith
body_of bcc h = ground arith
body_of subject h = ground arith

dirty-IsValid : (b : Bool) {c : ComposerState} → IsValid c → IsValid (record c { dirty = b })
dirty-IsValid b v = ground arith

focused-IsValid :
    (f : ComposeField) {c : ComposerState} → IsValid c → IsValid (record c { focused = f })
focused-IsValid f v = ground arith

dirtied-IsValid : (o : Change) → IsValid o.0 → IsValid (dirtied o).0
dirtied-IsValid (c, true) v = dirty-IsValid true v
dirtied-IsValid (c, false) v = v

module _ (c : ComposerState) (v : IsValid c) where
  word-IsValid : IsValid (delete_word_before_cursor c).0
  unfolding delete_word_before_cursor focused_cursor focused_text
  word-IsValid =
      let t = text_of c.focused c in
      let current = min (cursor_of c.focused c) (length t) in
      elim (Bool-cases (current == 0)) [
        | inl e ↦ rw e ((moved_field c 0 v c.focused (omega arith) refl).1)
        | inr e ↦ elim (Bool-cases (word_start t current == current)) [
          | inl k ↦ rw e (rw k v)
          | inr k ↦
              let bound : word_start t current ≤ length t =
                omega (arith, word_start-le t current) in
              rw e (
                rw k (
                  edited_field c (cut t (word_start t current) current) (word_start t current) v
                    (length-cut t (word_start t current) current bound) c.focused refl))
        ]
      ]

  newline-IsValid : c.focused ≡ body → IsValid (insert_body_newline c)
  unfolding insert_body_newline
  newline-IsValid e =
      let current = min c.body_cursor (length c.body) in
      edited_field c (char_edit c.body current newline) (current + 1) v
        (omega (arith, length-char_edit c.body current newline)) body e

  place-le :
      (line preferred : ℕ)
      → line_start c.body_line_cache line + min preferred (body_line_len c line) ≤ length c.body
  place-le line preferred = rw (v.cached) (omega (arith, line_ends c.body line))

  placed-IsValid :
      (line preferred height : ℕ) (anchor : Option ℕ)
      → IsValid (
          ensure_body_cursor_visible height (
            select_to anchor line (record c {
              body_preferred_column = some preferred;
              body_cursor =
                  line_start c.body_line_cache line + min preferred (body_line_len c line);
            })))
  placed-IsValid line preferred height none = record {
    to_within = v.to_within;
    cc_within = v.cc_within;
    bcc_within = v.bcc_within;
    subject_within = v.subject_within;
    body_within = place-le line preferred;
    cached = v.cached;
  }
  placed-IsValid line preferred height (some a) = record {
    to_within = v.to_within;
    cc_within = v.cc_within;
    bcc_within = v.bcc_within;
    subject_within = v.subject_within;
    body_within = place-le line preferred;
    cached = v.cached;
  }

  line-IsValid : (delta : ℤ) (height : ℕ) → IsValid (move_body_line delta height c).0
  unfolding move_body_line
  line-IsValid delta height = elim (Bool-cases (not (is_body c.focused))) [
    | inl e ↦ rw e v
    | inr e ↦ rw e (placed-IsValid _ _ height c.body_selection_anchor)
  ]

  clear-IsValid : IsValid (clear_body_selection c).0
  clear-IsValid = ground arith

  toggle-IsValid : IsValid (toggle_body_line_selection c).0
  unfolding toggle_body_line_selection
  toggle-IsValid = ground (arith, clear-IsValid)

  start-IsValid : IsValid (start_body_line_selection c).0
  unfolding start_body_line_selection
  start-IsValid = ground arith

  push-IsValid : (ch : ℕ) → IsValid (push_composer_char ch c).0
  unfolding push_composer_char
  push-IsValid ch =
      elim (Bool-cases (is_control ch || leb (field_limit c.focused) (length (focused_text c)))) [
        | inl e ↦ rw e v
        | inr e ↦ rw e (dirty-IsValid true (insert-IsValid c v ch))
      ]

  enter-IsValid : IsValid (composer_enter c).0
  unfolding composer_enter
  enter-IsValid = elim (Bool-cases (is_body c.focused)) [
    | inl e ↦ elim (Bool-cases (leb max_compose_body_chars (length c.body))) [
      | inl k ↦ rw e (rw k v)
      | inr k ↦ rw e (rw k (dirty-IsValid true (newline-IsValid (body_of c.focused e))))
    ]
    | inr e ↦ rw e (focused-IsValid (next c.focused) v)
  ]

  press-IsValid : (key : Key) → IsValid (press key c).0
  unfolding press
  press-IsValid (push ch) = push-IsValid ch
  press-IsValid backspace = dirtied-IsValid (delete_before_focused_cursor c) (before-IsValid c v)
  press-IsValid delete = dirtied-IsValid (delete_at_focused_cursor c) (at-IsValid c v)
  press-IsValid delete_word = dirtied-IsValid (delete_word_before_cursor c) word-IsValid
  press-IsValid left = left-IsValid c v
  press-IsValid right = right-IsValid c v
  press-IsValid home = home-IsValid c v
  press-IsValid end = end-IsValid c v
  press-IsValid (move_line delta height) = line-IsValid delta height
  press-IsValid toggle_selection = toggle-IsValid
  press-IsValid start_selection = start-IsValid
  press-IsValid clear_selection = clear-IsValid
  press-IsValid enter = enter-IsValid
  press-IsValid next_field = ground (arith, focused-IsValid (next c.focused) v)
  press-IsValid previous_field = ground (arith, focused-IsValid (previous c.focused) v)

-- Whatever keys are pressed, the cursors stay within their texts and the cache of lines is that
-- of the body.
pub press_all-IsValid :
    (keys : List Key) (c : ComposerState) → IsValid c → IsValid (press_all keys c)
unfolding press_all
press_all-IsValid [] c v = v
press_all-IsValid (key ∷ keys) c v = press_all-IsValid keys (press key c).0 (press-IsValid c v key)
