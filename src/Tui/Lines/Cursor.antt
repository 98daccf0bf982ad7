-- ===== src/Tui/Lines/Cursor.antt =====
-- The line of a cursor in the cache of src/tui/app.rs.
use postblox.Common.{
  ℕ, zero, suc, ◌+◌, ◌-◌, ◌≤◌, ◌<◌, ◌≡◌, refl, sym, ap, ◌∙◌, subst, false, some, List, [], ◌∷◌,
  length, get_elem?, ltb, ◌==◌, min, arith, Bool-cases, inl, inr, All,
}
use postblox.Common.Text.{Text, len_utf8}
use postblox.Tui.Lines.{
  LineBounds, LineCache, newline, bound, scan_lines, from_text, line_start, line_end, start_of,
  end_of, line_for_cursor, ends_before, clamped_line, line_count,
}

-- The bounds at this place of the list hold the cursor.
abbrev Holds : List LineBounds → (place cursor : ℕ) → Type 0
Holds bs place cursor =
    (b : LineBounds) × (get_elem? bs place ≡ some b)
    × (place < length bs)
    × (b.char_start ≤ cursor)
    × (cursor ≤ b.char_end)

scan_lines-Holds :
    (t : Text) (cs bs ci bi cursor : ℕ)
    → cs ≤ cursor
    → cursor ≤ ci + length t
    → Holds (scan_lines t cs bs ci bi) (ends_before (scan_lines t cs bs ci bi) cursor) cursor
scan_lines-Holds [] cs bs ci bi cursor h k =
    let e : ltb ci cursor ≡ false = ground arith in
    rw e (bound cs ci bs bi, refl, omega arith, h, omega arith)
scan_lines-Holds (ch ∷ t) cs bs ci bi cursor h k = elim (Bool-cases (ch == newline)) [
  | inl e ↦ elim (Bool-cases (ltb ci cursor)) [
    | inl l ↦
        let (b, found, inside, p, q) =
          scan_lines-Holds t (ci + 1) (bi + len_utf8 ch) (ci + 1) (bi + len_utf8 ch) cursor
            (ground arith) (omega arith) in
        rw e (rw l (b, found, omega arith, p, q))
    | inr l ↦ rw e (rw l (bound cs ci bs bi, refl, omega arith, h, ground arith))
  ]
  | inr e ↦ rw e (scan_lines-Holds t cs bs (ci + 1) (bi + len_utf8 ch) cursor h (omega arith))
]

clamped-Holds :
    (cache : LineCache) (cursor : ℕ)
    → Holds cache.bounds (ends_before cache.bounds cursor) cursor
    → (line_for_cursor cache cursor < line_count cache)
      × (line_start cache (line_for_cursor cache cursor) ≤ cursor)
      × (cursor ≤ line_end cache (line_for_cursor cache cursor))
unfolding line_for_cursor line_start line_end
clamped-Holds cache cursor (b, found, inside, p, q) =
    let place = ends_before cache.bounds cursor in
    let once : min place (length cache.bounds - 1) ≡ place = omega arith in
    let twice : clamped_line cache place ≡ some b = ap (get_elem? cache.bounds) once ∙ found in
    rw once (
      inside,
      subst (λ o. start_of o ≤ cursor) (sym twice) p,
      subst (λ o. cursor ≤ end_of o) (sym twice) q,
    )

-- The line of a cursor within the text exists, and the cursor is between its ends.
pub line_for_cursor_lem :
    (text : Text) (cursor : ℕ)
    → cursor ≤ length text
    → (line_for_cursor (from_text text) cursor < line_count (from_text text))
      × (line_start (from_text text) (line_for_cursor (from_text text) cursor) ≤ cursor)
      × (cursor ≤ line_end (from_text text) (line_for_cursor (from_text text) cursor))
unfolding from_text
line_for_cursor_lem text cursor h =
    clamped-Holds (from_text text) cursor
      (scan_lines-Holds text 0 0 0 0 cursor (omega arith) (omega arith))

abbrev Within : ℕ → LineBounds → Type 0
Within len b = (b.char_start ≤ b.char_end) × (b.char_end ≤ len)

scan_lines-Within :
    (t : Text) (cs bs ci bi len : ℕ)
    → cs ≤ ci
    → ci + length t ≤ len
    → All (Within len) (scan_lines t cs bs ci bi)
scan_lines-Within [] cs bs ci bi len h k = ((h, omega arith), tt)
scan_lines-Within (ch ∷ t) cs bs ci bi len h k = elim (Bool-cases (ch == newline)) [
  | inl e ↦ rw e (
    (h, omega arith),
    scan_lines-Within t (ci + 1) (bi + len_utf8 ch) (ci + 1) (bi + len_utf8 ch) len (omega arith)
        (omega arith),
  )
  | inr e ↦
      rw e (scan_lines-Within t cs bs (ci + 1) (bi + len_utf8 ch) len (omega arith) (omega arith))
]

get_elem?-Within :
    (len : ℕ) (bs : List LineBounds) (n : ℕ)
    → All (Within len) bs
    → (start_of (get_elem? bs n) ≤ end_of (get_elem? bs n)) × (end_of (get_elem? bs n) ≤ len)
get_elem?-Within len [] n h = (omega arith, omega arith)
get_elem?-Within len (b ∷ bs) zero h = h.0
get_elem?-Within len (b ∷ bs) (suc n) h = get_elem?-Within len bs n h.1

-- A line begins before it ends, and ends within the text.
pub line_ends :
    (text : Text) (n : ℕ)
    → (line_start (from_text text) n ≤ line_end (from_text text) n)
      × (line_end (from_text text) n ≤ length text)
unfolding from_text line_start line_end
line_ends text n =
    get_elem?-Within (length text) (scan_lines text 0 0 0 0) _
      (scan_lines-Within text 0 0 0 0 (length text) (omega arith) (omega arith))
