-- ===== src/Tui/Composer/Tests.antt =====
-- The composer on concrete keys.
use postblox.Common.{ℕ, ◌<◌, ◌≡◌, refl, false, none, List, [], ◌∷◌, ◌++◌, take, drop, ◌==◌, arith}
use postblox.Common.Text.{codes, split}
use postblox.Tui.Lines.{from_text, lines, newline}
use postblox.Tui.Lines.Split.{lines-from_text}
use postblox.Tui.Composer.{body, ComposerState}
use postblox.Tui.Composer.Edits.{
  focused_text, focused_cursor, insert_focused_char, delete_before_focused_cursor,
  delete_word_before_cursor,
}
use postblox.Tui.Composer.Keys.{
  Key, push, backspace, delete_word, enter, next_field, left, press_all,
}
use postblox.Tui.Composer.Valid.{IsValid}
use postblox.Tui.Composer.Presses.{press_all-IsValid}
use postblox.Tui.Composer.Undo.{delete_before-insert}
use postblox.Tui.Composer.Words.{LastWord, delete_word-LastWord}

-- "ab", a newline and "c d" in the body, with the cursor behind "c "
abbrev composing : ComposerState
composing = record {
  account_id = 1;
  draft_id = none;
  focused = body;
  to = codes "a@x";
  to_cursor = 3;
  cc = [];
  cc_cursor = 0;
  bcc = [];
  bcc_cursor = 0;
  subject = [];
  subject_cursor = 0;
  body = codes "ab" ++ (newline ∷ codes "c d");
  body_cursor = 5;
  body_line_cache = from_text (codes "ab" ++ (newline ∷ codes "c d"));
  body_scroll = 0;
  body_selection_anchor = none;
  body_selection_focus = 0;
  body_preferred_column = none;
  dirty = false;
  attachments = [];
  selected_attachment = 0;
  attach_input = [];
  in_reply_to_msg = none;
  in_reply_to = none;
  references_header = none;
}

composing-IsValid : IsValid composing
composing-IsValid = record {
  to_within = omega arith;
  cc_within = omega arith;
  bcc_within = omega arith;
  subject_within = omega arith;
  body_within = omega arith;
  cached = refl;
}

lines-from_text_example :
    lines (from_text (codes "ab" ++ (newline ∷ codes "é"))) (codes "ab" ++ (newline ∷ codes "é"))
    ≡ split (λ c. c == newline) (codes "ab" ++ (newline ∷ codes "é"))
lines-from_text_example = lines-from_text (codes "ab" ++ (newline ∷ codes "é"))

abbrev typed : List Key
typed = push b'x' ∷ (delete_word ∷ (enter ∷ (left ∷ (next_field ∷ (backspace ∷ [])))))

press_all-IsValid_example : IsValid (press_all typed composing)
press_all-IsValid_example = press_all-IsValid typed composing composing-IsValid

delete_before-insert_example :
    (focused_text (delete_before_focused_cursor (insert_focused_char b'z' composing)).0
      ≡ focused_text composing)
    × (focused_cursor (delete_before_focused_cursor (insert_focused_char b'z' composing)).0
        ≡ focused_cursor composing)
delete_before-insert_example = delete_before-insert composing b'z' composing-IsValid

delete_word-LastWord_example :
    (a : ℕ) × (m : ℕ) × (a < 5)
    × LastWord (focused_text composing) a m 5
    × (focused_text (delete_word_before_cursor composing).0
        ≡ take a (focused_text composing) ++ drop 5 (focused_text composing))
    × (focused_cursor (delete_word_before_cursor composing).0 ≡ a)
unfolding focused_cursor
delete_word-LastWord_example = delete_word-LastWord composing 4 composing-IsValid refl
