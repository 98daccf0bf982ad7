-- ===== src/Tui/Composer/Undo.antt =====
-- What an edit of the composer (src/tui/app.rs) does to the text of the focused field.
use postblox.Common.{
  ℕ, zero, suc, ◌+◌, ◌-◌, ◌≤◌, ◌≡◌, refl, ap, ◌∙◌, false, [], ◌∷◌, ◌++◌, length, take, drop, ◌==◌,
  min, arith,
}
use postblox.Common.Text.{Text}
use postblox.Tui.Bytes.Cut.{insert_char-char, remove_range-char, take-drop}
use postblox.Tui.Composer.{ComposeField, to, cc, bcc, subject, body, ComposerState}
use postblox.Tui.Composer.Edits.{
  put_text, after_text_edit, text_of, cursor_of, char_edit, cut, focused_cursor, focused_text,
  insert_focused_char, delete_before_focused_cursor,
}
use postblox.Tui.Composer.Valid.{IsValid, length-char_edit}

edited_text :
    (c : ComposerState) (t : Text) (n : ℕ) (f : ComposeField)
    → c.focused ≡ f
    → (text_of (after_text_edit (put_text f t n c)).focused (after_text_edit (put_text f t n c))
        ≡ t)
      × (cursor_of (after_text_edit (put_text f t n c)).focused (after_text_edit (put_text f t n c))
          ≡ n)
edited_text c t n to e = ground arith
edited_text c t n cc e = ground arith
edited_text c t n bcc e = ground arith
edited_text c t n subject e = ground arith
edited_text c t n body e = ground arith

-- The text and the cursor of the focused field after an edit
pub edit_shows :
    (c : ComposerState) (t : Text) (n : ℕ)
    → (focused_text (after_text_edit (put_text c.focused t n c)) ≡ t)
      × (focused_cursor (after_text_edit (put_text c.focused t n c)) ≡ n)
unfolding focused_text focused_cursor
edit_shows c t n = edited_text c t n c.focused refl

pub cursor-le : (c : ComposerState) → IsValid c → focused_cursor c ≤ length (focused_text c)
unfolding focused_cursor focused_text
cursor-le c v = go c.focused
  where
    go : (f : ComposeField) → cursor_of f c ≤ length (text_of f c)
    go to = v.to_within
    go cc = v.cc_within
    go bcc = v.bcc_within
    go subject = v.subject_within
    go body = v.body_within

take-insert : (n ch : ℕ) (t : Text) → n ≤ length t → take n (take n t ++ (ch ∷ drop n t)) ≡ take n t
take-insert zero ch t h = refl
take-insert (suc n) ch [] h = absurd (omega arith)
take-insert (suc n) ch (c ∷ t) h = ap (◌∷◌ c) (take-insert n ch t (omega arith))

drop-insert :
    (n ch : ℕ) (t : Text) → n ≤ length t → drop (suc n) (take n t ++ (ch ∷ drop n t)) ≡ drop n t
drop-insert zero ch t h = refl
drop-insert (suc n) ch [] h = absurd (omega arith)
drop-insert (suc n) ch (c ∷ t) h = drop-insert n ch t (omega arith)

cut-char_edit : (t : Text) (n ch : ℕ) → n ≤ length t → cut (char_edit t n ch) n (suc n) ≡ t
cut-char_edit t n ch h =
    remove_range-char (char_edit t n ch) n (suc n)
    ∙ ap (λ (x : Text). take n x ++ drop (suc n) x) (insert_char-char t n ch)
    ∙ ap (λ (x : Text). x ++ drop (suc n) (take n t ++ (ch ∷ drop n t))) (take-insert n ch t h)
    ∙ ap (λ (x : Text). take n t ++ x) (drop-insert n ch t h)
    ∙ take-drop n t

insert_shows :
    (c : ComposerState) (v : IsValid c) (ch : ℕ)
    → (focused_text (insert_focused_char ch c) ≡ char_edit (focused_text c) (focused_cursor c) ch)
      × (focused_cursor (insert_focused_char ch c) ≡ focused_cursor c + 1)
unfolding insert_focused_char
insert_shows c v ch =
    let here : min (focused_cursor c) (length (focused_text c)) ≡ focused_cursor c =
      omega (arith, cursor-le c v) in
    let (shown, at) =
      edit_shows c
        (char_edit (focused_text c) (min (focused_cursor c) (length (focused_text c))) ch)
        (min (focused_cursor c) (length (focused_text c)) + 1) in
    (shown ∙ ap (λ n. char_edit (focused_text c) n ch) here, at ∙ ap (λ n. n + 1) here)

before_shows :
    (c : ComposerState) (n : ℕ)
    → focused_cursor c ≡ suc n
    → suc n ≤ length (focused_text c)
    → (focused_text (delete_before_focused_cursor c).0 ≡ cut (focused_text c) n (suc n))
      × (focused_cursor (delete_before_focused_cursor c).0 ≡ n)
unfolding delete_before_focused_cursor
before_shows c n e h =
    let here : min (focused_cursor c) (length (focused_text c)) ≡ suc n = omega (arith, e) in
    let some_left : min (focused_cursor c) (length (focused_text c)) == 0 ≡ false =
      ground (arith, here) in
    let less : min (focused_cursor c) (length (focused_text c)) - 1 ≡ n = omega (arith, here) in
    let (shown, at) =
      edit_shows c
        (cut (focused_text c) (min (focused_cursor c) (length (focused_text c)) - 1)
          (min (focused_cursor c) (length (focused_text c))))
        (min (focused_cursor c) (length (focused_text c)) - 1) in
    rw some_left (
      shown
          ∙ ap (λ k. cut (focused_text c) k (min (focused_cursor c) (length (focused_text c)))) less
          ∙ ap (λ k. cut (focused_text c) n k) here,
      at ∙ less,
    )

-- A character that is typed and then deleted backwards leaves the text and the cursor of the
-- field as they were.
pub delete_before-insert :
    (c : ComposerState) (ch : ℕ)
    → IsValid c
    → (focused_text (delete_before_focused_cursor (insert_focused_char ch c)).0 ≡ focused_text c)
      × (focused_cursor (delete_before_focused_cursor (insert_focused_char ch c)).0
          ≡ focused_cursor c)
delete_before-insert c ch v =
    let n = focused_cursor c in
    let d = insert_focused_char ch c in
    let (shown, at) = insert_shows c v ch in
    let inside : suc n ≤ length (focused_text d) =
      omega (arith, ap length shown, length-char_edit (focused_text c) n ch, cursor-le c v) in
    let (text, cursor) = before_shows d n (at ∙ (omega arith)) inside in
    (
      text
          ∙ ap (λ (x : Text). cut x n (suc n)) shown
          ∙ cut-char_edit (focused_text c) n ch (cursor-le c v),
      cursor,
    )
