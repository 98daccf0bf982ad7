-- ===== src/Tui/Lines/Split.antt =====
-- The cached lines of src/tui/app.rs are the pieces between the newlines.
use postblox.Common.{
  ℕ, zero, suc, ◌+◌, ◌≡◌, refl, sym, ap, ◌∙◌, Bool, Option, some, List, [], ◌∷◌, ◌++◌, map, length,
  get_elem?, drop, ◌==◌, arith, Bool-cases, inl, inr,
}
use postblox.Common.Text.{Text, byte_len, len_utf8, split, prepend}
use postblox.Common.Text.Affix.{byte_len-append}
use mathlib.Core.List.{append_assoc, append-nil}
use postblox.Tui.Bytes.Cut.{get_range-append}
use postblox.Tui.Lines.{
  LineBounds, LineCache, newline, bound, scan_lines, from_text, slice, line, collect, lines, sliced,
}

abbrev is_newline : ℕ → Bool
is_newline c = c == newline

-- The line that is being read, put before the pieces that follow.
abbrev attach : Text → List Text → List Text
attach cur [] = cur ∷ []
attach cur (w ∷ ws) = (cur ++ w) ∷ ws

attach-prepend :
    (cur : Text) (c : ℕ) (ws : List Text) → attach cur (prepend c ws) ≡ attach (cur ++ c ∷ []) ws
attach-prepend cur c [] = refl
attach-prepend cur c (w ∷ ws) = ap (λ t. t ∷ ws) (sym (append_assoc cur (c ∷ []) w))

attach-split : (t : Text) → attach [] (split is_newline t) ≡ split is_newline t
attach-split [] = refl
attach-split (c ∷ t) = elim (Bool-cases (is_newline c)) [
  | inl e ↦ rw e refl
  | inr e ↦ rw e (go (split is_newline t))
]
  where
    go : (ws : List Text) → attach [] (prepend c ws) ≡ prepend c ws
    go [] = refl
    go (w ∷ ws) = refl

module _ (cs ci : ℕ) where
  slice-append :
      (pre cur rest : Text)
      → slice (pre ++ (cur ++ rest)) (bound cs ci (byte_len pre) (byte_len pre + byte_len cur))
        ≡ some cur
  slice-append pre cur rest = get_range-append pre cur rest

after_line :
    (pre cur t : Text) (ch : ℕ) → pre ++ (cur ++ (ch ∷ t)) ≡ (pre ++ (cur ++ (ch ∷ []))) ++ t
after_line pre cur t ch = simp append_assoc

scan_lines-slices :
    (t full pre cur : Text) (cs bs ci bi : ℕ)
    → full ≡ pre ++ (cur ++ t)
    → bs ≡ byte_len pre
    → bi ≡ byte_len pre + byte_len cur
    → map (slice full) (scan_lines t cs bs ci bi) ≡ map some (attach cur (split is_newline t))
scan_lines-slices [] full pre cur cs bs ci bi f b e = rw f (
    rw b (
      rw e (
        ap (λ (o : Option Text). o ∷ [])
          (slice-append cs ci pre cur [] ∙ ap some (sym (append-nil cur))))))
scan_lines-slices (ch ∷ t) full pre cur cs bs ci bi f b e = elim (Bool-cases (is_newline ch)) [
  | inl h ↦
      let pre' = pre ++ (cur ++ (ch ∷ [])) in
      let k : bi + len_utf8 ch ≡ byte_len pre' =
        omega (arith, e, byte_len-append pre (cur ++ (ch ∷ [])), byte_len-append cur (ch ∷ [])) in
      let rest =
        scan_lines-slices t full pre' [] (ci + 1) (bi + len_utf8 ch) (ci + 1) (bi + len_utf8 ch)
          (f ∙ after_line pre cur t ch) k (omega (arith, k)) in
      let first : slice full (bound cs ci bs bi) ≡ some (cur ++ []) =
        rw f (rw b (rw e (slice-append cs ci pre cur (ch ∷ t) ∙ ap some (sym (append-nil cur))))) in
      rw h (λ i. first i ∷ (rest ∙ ap (map some) (attach-split t)) i)
  | inr h ↦ rw h (
      scan_lines-slices t full pre (cur ++ (ch ∷ [])) cs bs (ci + 1) (bi + len_utf8 ch)
        (f ∙ ap (λ x. pre ++ x) (sym (append_assoc cur (ch ∷ []) t))) b
        (omega (arith, e, byte_len-append cur (ch ∷ [])))
      ∙ ap (map some) (sym (attach-prepend cur ch (split is_newline t))))
]

drop-cons {ℓ} :
    {A : Type ℓ} (n : ℕ) (xs : List A) {x : A} {ys : List A}
    → drop n xs ≡ x ∷ ys
    → (get_elem? xs n ≡ some x) × (drop (suc n) xs ≡ ys)
drop-cons zero [] h = cc
drop-cons zero (x ∷ xs) h = (cc, cc)
drop-cons (suc n) [] h = cc
drop-cons (suc n) (x ∷ xs) h = drop-cons n xs h

collect-slices :
    (cache : LineCache) (text : Text) (bs : List LineBounds) (ws : List Text) (n : ℕ)
    → drop n cache.bounds ≡ bs
    → map (slice text) bs ≡ map some ws
    → collect cache text (length bs) n ≡ ws
collect-slices cache text [] [] n h e = refl
collect-slices cache text [] (w ∷ ws) n h e = cc
collect-slices cache text (b ∷ bs) [] n h e = cc
collect-slices cache text (b ∷ bs) (w ∷ ws) n h e =
    let (first, rest) = drop-cons n cache.bounds h in
    let found : line cache text n ≡ some w = unfold line in (ap (sliced text) first ∙ cc e) in
    rw (found, collect) (ap (◌∷◌ w) (collect-slices cache text bs ws (suc n) rest (cc e)))

-- The lines of a text that is cached are what stands between its newlines: each byte range that
-- the cache holds is at the ends of characters, and nothing is left out.
pub lines-from_text : (text : Text) → lines (from_text text) text ≡ split (λ c. c == newline) text
unfolding lines from_text
lines-from_text text =
    collect-slices (from_text text) text (scan_lines text 0 0 0 0) (split is_newline text) 0 refl (
      scan_lines-slices text text [] [] 0 0 0 0 refl refl (omega arith)
      ∙ ap (map some) (attach-split text))
