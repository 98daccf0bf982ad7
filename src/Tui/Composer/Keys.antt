-- ===== src/Tui/Composer/Keys.antt =====
-- src/tui/app.rs: the keys of the composer, as the application passes them on, and what they do
-- to a selection of lines.
use postblox.Common.{
  ℕ, Bool, true, false, not, ◌&&◌, ◌||◌, none, some, is_some, List, [], ◌∷◌, length, ltb, leb,
  if◌then◌else◌, ℤ,
}
use postblox.Tui.Composer.{ComposeField, next, previous, ComposerState, max_compose_body_chars}
use postblox.Tui.Composer.Edits.{
  Change, is_body, focused_text, field_limit, body_cursor_line_column, clear_body_selection,
  move_focused_cursor_left, move_focused_cursor_right, move_focused_cursor_home,
  move_focused_cursor_end, move_body_line, insert_focused_char, insert_body_newline,
  delete_before_focused_cursor, delete_at_focused_cursor, delete_word_before_cursor,
}

-- `char::is_control`: the general category Cc
abbrev pub is_control : ℕ → Bool
is_control ch = ltb ch 32 || (leb 127 ch && leb ch 159)

abbrev pub select_line_at_cursor : ComposerState → ComposerState
select_line_at_cursor c = record c {
  body_selection_anchor = some (body_cursor_line_column c).0;
  body_selection_focus = (body_cursor_line_column c).0;
}

unfoldable pub toggle_body_line_selection : ComposerState → Change
toggle_body_line_selection c =
    if not (is_body c.focused)
    then (c, false)
    else if is_some c.body_selection_anchor
    then clear_body_selection c
    else (select_line_at_cursor c, true)

unfoldable pub start_body_line_selection : ComposerState → Change
start_body_line_selection c =
    if not (is_body c.focused) || is_some c.body_selection_anchor
    then (c, false)
    else (select_line_at_cursor c, true)

-- An edit that changed something makes the composer dirty.
abbrev pub dirtied : Change → Change
dirtied (c, changed) = ((if changed then record c { dirty = true } else c), changed)

unfoldable pub push_composer_char : ℕ → ComposerState → Change
push_composer_char ch c =
    if is_control ch || leb (field_limit c.focused) (length (focused_text c))
    then (c, false)
    else (record (insert_focused_char ch c) { dirty = true }, true)

unfoldable pub composer_enter : ComposerState → Change
composer_enter c =
    if is_body c.focused
    then (if leb max_compose_body_chars (length c.body)
        then (c, false)
        else (record (insert_body_newline c) { dirty = true }, true))
    else (record c { focused = next c.focused }, true)

abbrev pub focus : ComposeField → ComposerState → ComposerState
focus f c = record c { focused = f; body_preferred_column = none }

pub data Key : Type 0 where
  push : ℕ → Key
  backspace delete delete_word left right home end : Key
  move_line : ℤ → (viewport_height : ℕ) → Key
  toggle_selection start_selection clear_selection enter next_field previous_field : Key

-- What the key does, and whether the application redraws for it.
unfoldable pub press : Key → ComposerState → Change
press (push ch) c = push_composer_char ch c
press backspace c = dirtied (delete_before_focused_cursor c)
press delete c = dirtied (delete_at_focused_cursor c)
press delete_word c = dirtied (delete_word_before_cursor c)
press left c = move_focused_cursor_left c
press right c = move_focused_cursor_right c
press home c = move_focused_cursor_home c
press end c = move_focused_cursor_end c
press (move_line delta viewport_height) c = move_body_line delta viewport_height c
press toggle_selection c = toggle_body_line_selection c
press start_selection c = start_body_line_selection c
press clear_selection c = clear_body_selection c
press enter c = composer_enter c
press next_field c = (focus (next c.focused) c, true)
press previous_field c = (focus (previous c.focused) c, true)

unfoldable pub press_all : List Key → ComposerState → ComposerState
press_all [] c = c
press_all (key ∷ keys) c = press_all keys (press key c).0
