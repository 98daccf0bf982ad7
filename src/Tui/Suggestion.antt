-- ===== src/Tui/Suggestion.antt =====
-- src/tui/command.rs: the name that is suggested for an unknown command. The distance is computed
-- row by row, as in the source; a row is the list of its cells.
pub mod Distance
pub mod Closest
use postblox.Common.{
  ℕ, zero, suc, ◌+◌, ◌-◌, min, max, Bool, true, false, ◌&&◌, ◌||◌, Option, none, some, List, [],
  ◌∷◌, ◌==◌, ltb, if◌then◌else◌, is_empty, length,
}
use postblox.Common.Text.{Text}
use postblox.Tui.Command.{command_names}

abbrev pub transposed : (a b : ℕ) (a' b' : Option ℕ) → Bool
transposed a b (some a') (some b') = a == b' && a' == b
transposed a b _ _ = false

abbrev pub before_last : List ℕ → ℕ
before_last [] = 0
before_last (c ∷ cells) = c

-- The row before the last one is read from two cells to the left.
abbrev pub moved_on : Option ℕ → List ℕ → List ℕ
moved_on none row = row
moved_on (some _) [] = []
moved_on (some _) (c ∷ row) = row

abbrev pub cell : (a b : ℕ) (a' b' : Option ℕ) (left diagonal up : ℕ) (prev_prev : List ℕ) → ℕ
cell a b a' b' left diagonal up prev_prev =
    let value = min (min (up + 1) (left + 1)) (diagonal + (if a == b then 0 else 1)) in
    if transposed a b a' b' then min value (before_last prev_prev + 1) else value

-- The cells of one row from a column on: `a'` and `b'` are the characters before `a` and `b`, and
-- `prev` begins one cell to the left.
unfoldable pub row_cells :
    (a : ℕ) (a' b' : Option ℕ) (b : List ℕ) (left : ℕ) (prev prev_prev : List ℕ) → List ℕ
row_cells a a' b' (c ∷ b) left (diagonal ∷ (up ∷ prev)) prev_prev =
    let value = cell a c a' b' left diagonal up prev_prev in
    value ∷ row_cells a a' (some c) b value (up ∷ prev) (moved_on b' prev_prev)
row_cells a a' b' b left prev prev_prev = []

unfoldable pub rows_from :
    (a : List ℕ) (a' : Option ℕ) (i : ℕ) (b : List ℕ) (prev prev_prev : List ℕ) → List ℕ
rows_from [] a' i b prev prev_prev = prev
rows_from (c ∷ a) a' i b prev prev_prev =
    rows_from a (some c) (suc i) b (i ∷ row_cells c a' none b i prev prev_prev) prev

abbrev pub first_row : (from : ℕ) → List ℕ → List ℕ
first_row from [] = from ∷ []
first_row from (c ∷ b) = from ∷ first_row (suc from) b

abbrev pub last_cell : List ℕ → ℕ
last_cell [] = 0
last_cell (c ∷ []) = c
last_cell (c ∷ (d ∷ cells)) = last_cell (d ∷ cells)

unfoldable pub damerau_levenshtein : List ℕ → List ℕ → ℕ
damerau_levenshtein [] b = length b
damerau_levenshtein (c ∷ a) [] = length (c ∷ a)
damerau_levenshtein (c ∷ a) (d ∷ b) =
    last_cell (rows_from (c ∷ a) none 1 (d ∷ b) (first_row 0 (d ∷ b)) [])

abbrev pub abs_diff : ℕ → ℕ → ℕ
abs_diff a b = max a b - min a b

-- Whether the name is near enough to be suggested.
abbrev pub near : Text → Text → Bool
near input name =
    if ltb 2 (abs_diff (length name) (length input))
    then false
    else if ltb 2 (damerau_levenshtein input name)
    then false
    else true

-- The better of the best name so far and one that comes behind it.
abbrev pub better : Text → Option Text → Text → Option Text
better input none name = some name
better input (some best) name =
    if ltb (damerau_levenshtein input name) (damerau_levenshtein input best)
    then some name
    else some best

unfoldable pub search_names : Text → Option Text → List Text → Option Text
search_names input best [] = best
search_names input best (name ∷ names) = elim (near input name) [
  | true ↦ search_names input (better input best name) names
  | false ↦ search_names input best names
]

-- The input is the list of its bytes.
unfoldable pub nearest_command_name : List ℕ → Option Text
nearest_command_name input = if is_empty input then none else search_names input none command_names
