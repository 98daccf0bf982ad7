-- ===== src/Tui/Suggestion/Distance.antt =====
-- The distance of src/tui/command.rs is never below the difference of the lengths, so that names
-- which the length test skips are too far.
use postblox.Common.{
  ℕ, zero, suc, ◌+◌, ◌-◌, ◌≤◌, ◌≡◌, subst, Option, none, some, List, [], ◌∷◌, length, leb, arith,
}
use postblox.Common.Text.{Text}
use postblox.Tui.Suggestion.{
  moved_on, cell, row_cells, rows_from, first_row, last_cell, damerau_levenshtein, near,
}

-- The distance of a row and a column from the diagonal
abbrev pub apart : ℕ → ℕ → ℕ
apart i j = (i - j) + (j - i)

-- The cells of row `i` from column `j` on, `n` of them, are not below what stands apart.
abbrev Above : (i j n : ℕ) → List ℕ → Type 0
Above i j zero [] = Unit
Above i j zero (c ∷ row) = ⊥
Above i j (suc n) [] = ⊥
Above i j (suc n) (c ∷ row) = (apart i j ≤ c) × Above i (suc j) n row

-- What is left of the row before the last one, at column `suc k` of row `suc h`; `n` is the
-- number of columns from there on.
abbrev Behind : (a' b' : Option ℕ) (h k n : ℕ) → List ℕ → Type 0
Behind none b' h k n row = Unit
Behind (some a') none zero k n row = ⊥
Behind (some a') none (suc g) zero n row = Above g 0 (suc n) row
Behind (some a') none (suc g) (suc k) n row = ⊥
Behind (some a') (some b') zero k n row = ⊥
Behind (some a') (some b') (suc g) zero n row = ⊥
Behind (some a') (some b') (suc g) (suc l) n row = Above g l (suc (suc n)) row

cell-apart :
    (a b : ℕ) (a' b' : Option ℕ) (h k n left diagonal up : ℕ) (row : List ℕ)
    → apart (suc h) k ≤ left
    → apart h k ≤ diagonal
    → apart h (suc k) ≤ up
    → Behind a' b' h k n row
    → apart (suc h) (suc k) ≤ cell a b a' b' left diagonal up row
cell-apart a b none b' h k n left diagonal up row l d u p = ground arith
cell-apart a b (some a') none h k n left diagonal up row l d u p = ground arith
cell-apart a b (some a') (some b') zero k n left diagonal up row l d u p = absurd p
cell-apart a b (some a') (some b') (suc g) zero n left diagonal up row l d u p = absurd p
cell-apart a b (some a') (some b') (suc g) (suc k) n left diagonal up [] l d u p = absurd p
cell-apart a b (some a') (some b') (suc g) (suc k) n left diagonal up (c ∷ row) l d u p =
    ground arith

moved_on-Behind :
    (a' b' : Option ℕ) (b h k n : ℕ) (row : List ℕ)
    → Behind a' b' h k (suc n) row
    → Behind a' (some b) h (suc k) n (moved_on b' row)
moved_on-Behind none b' b h k n row p = tt
moved_on-Behind (some a') none b zero k n row p = absurd p
moved_on-Behind (some a') none b (suc g) zero n row p = p
moved_on-Behind (some a') none b (suc g) (suc k) n row p = absurd p
moved_on-Behind (some a') (some b') b zero k n row p = absurd p
moved_on-Behind (some a') (some b') b (suc g) zero n row p = absurd p
moved_on-Behind (some a') (some b') b (suc g) (suc l) n [] p = absurd p
moved_on-Behind (some a') (some b') b (suc g) (suc l) n (c ∷ row) p = p.1

row_cells-Above :
    (a : ℕ) (a' b' : Option ℕ) (b : List ℕ) (h k left : ℕ) (prev prev_prev : List ℕ)
    → apart (suc h) k ≤ left
    → Above h k (suc (length b)) prev
    → Behind a' b' h k (length b) prev_prev
    → Above (suc h) (suc k) (length b) (row_cells a a' b' b left prev prev_prev)
unfolding row_cells
row_cells-Above a a' b' [] h k left prev prev_prev l p q = tt
row_cells-Above a a' b' (c ∷ b) h k left [] prev_prev l p q = absurd p
row_cells-Above a a' b' (c ∷ b) h k left (diagonal ∷ []) prev_prev l p q = absurd (p.1)
row_cells-Above a a' b' (c ∷ b) h k left (diagonal ∷ (up ∷ prev)) prev_prev l p q =
    let here = cell-apart a c a' b' h k (suc (length b)) left diagonal up prev_prev l p.0 p.1.0 q in
    (
      here,
      row_cells-Above a a' (some c) b h (suc k) _ (up ∷ prev) (moved_on b' prev_prev) here p.1
          (moved_on-Behind a' b' c h k (length b) prev_prev q),
    )

rows_from-Above :
    (a : List ℕ) (a' : Option ℕ) (h e : ℕ) (b prev prev_prev : List ℕ)
    → h + length a ≡ e
    → Above h 0 (suc (length b)) prev
    → Behind a' none h 0 (length b) prev_prev
    → Above e 0 (suc (length b)) (rows_from a a' (suc h) b prev prev_prev)
unfolding rows_from
rows_from-Above [] a' h e b prev prev_prev end p q =
    let same : h ≡ e = omega arith in subst (λ i. Above i 0 (suc (length b)) prev) same p
rows_from-Above (c ∷ a) a' h e b prev prev_prev end p q =
    rows_from-Above a (some c) (suc h) e b _ prev (omega arith)
      (omega arith, row_cells-Above c a' none b h 0 (suc h) prev prev_prev (omega arith) p q) p

first_row-Above : (from : ℕ) (b : List ℕ) → Above 0 from (suc (length b)) (first_row from b)
first_row-Above from [] = (omega arith, tt)
first_row-Above from (c ∷ b) = (omega arith, first_row-Above (suc from) b)

last_cell-Above :
    (i j n : ℕ) (row : List ℕ) → Above i j (suc n) row → apart i (j + n) ≤ last_cell row
last_cell-Above i j n [] p = absurd p
last_cell-Above i j zero (c ∷ []) p = omega arith
last_cell-Above i j zero (c ∷ (d ∷ row)) p = absurd (p.1)
last_cell-Above i j (suc n) (c ∷ []) p = absurd (p.1)
last_cell-Above i j (suc n) (c ∷ (d ∷ row)) p =
    let rest = last_cell-Above i (suc j) n (d ∷ row) p.1 in omega arith

pub damerau_levenshtein-apart :
    (a b : List ℕ) → apart (length a) (length b) ≤ damerau_levenshtein a b
unfolding damerau_levenshtein
damerau_levenshtein-apart [] b = omega arith
damerau_levenshtein-apart (c ∷ a) [] = omega arith
damerau_levenshtein-apart (c ∷ a) (d ∷ b) =
    let above =
      rows_from-Above (c ∷ a) none 0 (suc (length a)) (d ∷ b) (first_row 0 (d ∷ b)) [] (omega arith)
        (first_row-Above 0 (d ∷ b)) tt in
    let last = last_cell-Above (suc (length a)) 0 (suc (length b)) _ above in omega (arith, last)

-- A name is near exactly where its distance is two at most: the length test skips no such name.
pub near_iff : (input name : Text) → near input name ≡ leb (damerau_levenshtein input name) 2
near_iff input name = let far = damerau_levenshtein-apart input name in ground arith
