-- ===== src/Tui/Composer/Edits.antt =====
-- src/tui/app.rs: the cursor and the edits of the composer. Each operation gives the state after
-- it and whether anything changed.
use postblox.Common.{
  ℕ, zero, suc, ◌+◌, ◌-◌, Bool, true, false, not, ◌||◌, Option, none, some, is_some, unwrap_or,
  length, get_elem?, ltb, leb, ◌==◌, if◌then◌else◌, min, max, ℤ, pos, negsuc,
}
use postblox.Common.Text.{Text, is_whitespace}
use postblox.Tui.Bytes.{insert_char, remove_range, char_to_byte_index}
use postblox.Tui.Lines.{line_count, line_start, line_end, line_for_cursor, newline}
use postblox.Tui.Composer.{
  ComposeField, to, cc, bcc, subject, body, ComposerState, refresh_body_line_cache,
  max_compose_body_chars, max_compose_header_chars,
}

abbrev pub text_of : ComposeField → ComposerState → Text
text_of to c = c.to
text_of cc c = c.cc
text_of bcc c = c.bcc
text_of subject c = c.subject
text_of body c = c.body

abbrev pub cursor_of : ComposeField → ComposerState → ℕ
cursor_of to c = c.to_cursor
cursor_of cc c = c.cc_cursor
cursor_of bcc c = c.bcc_cursor
cursor_of subject c = c.subject_cursor
cursor_of body c = c.body_cursor

abbrev pub put_cursor : ComposeField → ℕ → ComposerState → ComposerState
put_cursor to n c = record c { to_cursor = n }
put_cursor cc n c = record c { cc_cursor = n }
put_cursor bcc n c = record c { bcc_cursor = n }
put_cursor subject n c = record c { subject_cursor = n }
put_cursor body n c = record c { body_cursor = n }

abbrev pub put_text : ComposeField → Text → ℕ → ComposerState → ComposerState
put_text to t n c = record c { to = t; to_cursor = n }
put_text cc t n c = record c { cc = t; cc_cursor = n }
put_text bcc t n c = record c { bcc = t; bcc_cursor = n }
put_text subject t n c = record c { subject = t; subject_cursor = n }
put_text body t n c = record c { body = t; body_cursor = n }

abbrev pub is_body : ComposeField → Bool
is_body body = true
is_body _ = false

unfoldable pub focused_text : ComposerState → Text
focused_text c = text_of c.focused c

unfoldable pub focused_cursor : ComposerState → ℕ
focused_cursor c = cursor_of c.focused c

unfoldable pub field_limit : ComposeField → ℕ
field_limit body = max_compose_body_chars
field_limit _ = max_compose_header_chars

abbrev pub Change : Type 0
Change = ComposerState × Bool

abbrev pub body_line_count : ComposerState → ℕ
body_line_count c = line_count c.body_line_cache

abbrev pub line_at_cursor : ComposerState → ℕ
line_at_cursor c = line_for_cursor c.body_line_cache (min c.body_cursor c.body_line_cache.char_len)

unfoldable pub body_cursor_line_column : ComposerState → ℕ × ℕ
body_cursor_line_column c = (
  line_at_cursor c,
  min c.body_cursor c.body_line_cache.char_len - line_start c.body_line_cache (line_at_cursor c),
)

abbrev follow : (cursor_line viewport_height scroll : ℕ) → ℕ
follow cursor_line viewport_height scroll =
    if ltb cursor_line scroll
    then cursor_line
    else if leb (scroll + viewport_height) cursor_line
    then cursor_line + 1 - viewport_height
    else scroll

abbrev scrolled : (line_count cursor_line viewport_height scroll : ℕ) → ℕ
scrolled line_count cursor_line viewport_height scroll =
    min (follow cursor_line viewport_height (min scroll (line_count - viewport_height)))
      (line_count - viewport_height)

unfoldable pub body_visible_scroll : ComposerState → ℕ → ℕ
unfolding body_cursor_line_column
body_visible_scroll c viewport_height =
    scrolled (body_line_count c) (body_cursor_line_column c).0 (max viewport_height 1) c.body_scroll

abbrev pub ensure_body_cursor_visible : ℕ → ComposerState → ComposerState
ensure_body_cursor_visible viewport_height c = record c {
  body_scroll = body_visible_scroll c viewport_height;
}

abbrev pub clear_body_selection : ComposerState → Change
clear_body_selection c = (
  record c { body_selection_anchor = none; body_selection_focus = (body_cursor_line_column c).0 },
  is_some c.body_selection_anchor,
)

abbrev pub reset_body_navigation_state : ComposerState → ComposerState
reset_body_navigation_state c =
    if is_body c.focused
    then (clear_body_selection (record c { body_preferred_column = none })).0
    else c

abbrev pub after_text_edit : ComposerState → ComposerState
after_text_edit c =
    if is_body c.focused
    then ensure_body_cursor_visible 1
        (clear_body_selection
          (record (refresh_body_line_cache c) { body_preferred_column = none })).0
    else c

abbrev pub navigated : Change → Change
navigated (c, changed) = ((if changed then reset_body_navigation_state c else c), changed)

abbrev pub edited : Change → Change
edited (c, changed) = ((if changed then after_text_edit c else c), changed)

unfoldable pub move_focused_cursor_left : ComposerState → Change
move_focused_cursor_left c = navigated (
    if focused_cursor c == 0
    then (c, false)
    else (put_cursor c.focused (focused_cursor c - 1) c, true))

unfoldable pub move_focused_cursor_right : ComposerState → Change
move_focused_cursor_right c =
    let len = length (focused_text c) in
    let old = min (focused_cursor c) len in
    navigated (
      if leb len old
      then (put_cursor c.focused len c, false)
      else (put_cursor c.focused (old + 1) c, true))

unfoldable pub set_focused_cursor : ℕ → ComposerState → Change
set_focused_cursor target c =
    let len = length (focused_text c) in
    let old = min (focused_cursor c) len in
    navigated (put_cursor c.focused (min target len) c, not (old == min target len))

unfoldable pub move_focused_cursor_home : ComposerState → Change
move_focused_cursor_home c =
    set_focused_cursor
      (if is_body c.focused then line_start c.body_line_cache (body_cursor_line_column c).0 else 0)
      c

unfoldable pub move_focused_cursor_end : ComposerState → Change
move_focused_cursor_end c =
    set_focused_cursor
      (if is_body c.focused
        then line_end c.body_line_cache (body_cursor_line_column c).0
        else length (focused_text c))
      c

abbrev pub next_line : (line max_line : ℕ) → ℤ → ℕ
next_line line max_line (negsuc n) = line - suc n
next_line line max_line (pos n) = min (line + n) max_line

abbrev pub body_line_len : ComposerState → ℕ → ℕ
body_line_len c line = line_end c.body_line_cache line - line_start c.body_line_cache line

abbrev pub select_to : Option ℕ → ℕ → ComposerState → ComposerState
select_to none line c = c
select_to (some anchor) line c = record c { body_selection_focus = line }

abbrev pub put_on_line : ℕ → ℕ → ComposerState → ComposerState
put_on_line line preferred c = select_to c.body_selection_anchor line (record c {
  body_preferred_column = some preferred;
  body_cursor = line_start c.body_line_cache line + min preferred (body_line_len c line);
})

abbrev pub differs : ComposerState → ComposerState → Bool
differs old c =
    not (c.body_cursor == old.body_cursor)
    || not (c.body_scroll == old.body_scroll)
    || not (c.body_selection_focus == old.body_selection_focus)

abbrev pub changed_from : ComposerState → ComposerState → Change
changed_from old c = (c, differs old c)

unfoldable pub move_body_line : ℤ → ℕ → ComposerState → Change
move_body_line delta viewport_height c =
    let (line, column) = body_cursor_line_column c in
    if not (is_body c.focused)
    then (c, false)
    else changed_from c (
        ensure_body_cursor_visible viewport_height (
          put_on_line (next_line line (body_line_count c - 1) delta)
            (unwrap_or column c.body_preferred_column) c))

abbrev pub char_edit : Text → ℕ → ℕ → Text
char_edit t n ch = insert_char t (char_to_byte_index t n) ch

unfoldable pub insert_focused_char : ℕ → ComposerState → ComposerState
insert_focused_char ch c =
    let t = focused_text c in
    let current = min (focused_cursor c) (length t) in
    after_text_edit (put_text c.focused (char_edit t current ch) (current + 1) c)

unfoldable pub insert_body_newline : ComposerState → ComposerState
insert_body_newline c =
    let current = min c.body_cursor (length c.body) in
    after_text_edit
      (record c { body = char_edit c.body current newline; body_cursor = current + 1 })

abbrev pub cut : Text → (start stop : ℕ) → Text
cut t start stop = remove_range t (char_to_byte_index t start) (char_to_byte_index t stop)

unfoldable pub delete_before_focused_cursor : ComposerState → Change
delete_before_focused_cursor c =
    let t = focused_text c in
    let current = min (focused_cursor c) (length t) in
    edited (
      if current == 0
      then (put_cursor c.focused 0 c, false)
      else (put_text c.focused (cut t (current - 1) current) (current - 1) c, true))

unfoldable pub delete_at_focused_cursor : ComposerState → Change
delete_at_focused_cursor c =
    let t = focused_text c in
    let current = min (focused_cursor c) (length t) in
    edited (
      if leb (length t) current
      then (put_cursor c.focused (length t) c, false)
      else (put_text c.focused (cut t current (current + 1)) current c, true))

abbrev pub passes_at : (ℕ → Bool) → Text → ℕ → Bool
passes_at p t n = elim (get_elem? t n) [ none ↦ false | some ch ↦ p ch ]

-- `while new_cursor > 0 && p(chars[new_cursor - 1])`
abbrev pub walk_back : (ℕ → Bool) → Text → ℕ → ℕ
walk_back p t zero = zero
walk_back p t (suc n) = let further = walk_back p t n in if passes_at p t n then further else suc n

abbrev pub word_start : Text → ℕ → ℕ
word_start t current =
    walk_back (λ ch. not (is_whitespace ch)) t (walk_back is_whitespace t current)

unfoldable pub delete_word_before_cursor : ComposerState → Change
delete_word_before_cursor c =
    let t = focused_text c in
    let current = min (focused_cursor c) (length t) in
    edited (
      if current == 0
      then (put_cursor c.focused 0 c, false)
      else if word_start t current == current
      then (c, false)
      else (
        put_text c.focused (cut t (word_start t current) current) (word_start t current) c,
        true,
      ))
