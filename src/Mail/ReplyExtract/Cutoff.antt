-- ===== src/Mail/ReplyExtract/Cutoff.antt =====
-- Which lines of a reply are kept.
use postblox.Common.{
  ℕ, zero, suc, ◌<◌, ◌≡◌, refl, ap, Bool, true, false, not, List, [], ◌∷◌, ◌++◌, ◌⊎◌, inl, inr, In,
  take, drop, length, select-In, In-select, Bool-cases, ◌↔◌, arith,
}
use postblox.Common.Text.{Text}
use postblox.Mail.ReplyExtract.{cuts, find_cutoff, is_quote_line, kept_lines}

-- The lines up to a point at which the history begins for the first time, or to the end.
pub data FirstCut (lines : List Text) (before : List Text) : Type 0 where
  cut :
      (after : List Text)
      → lines ≡ before ++ after
      → ((k : ℕ) → k < length before → cuts (drop k lines) ≡ false)
      → (after ≡ []) ⊎ (cuts after ≡ true)
      → FirstCut lines before

take-FirstCut : (lines : List Text) → FirstCut lines (take (find_cutoff lines) lines)
unfolding find_cutoff
take-FirstCut [] = cut [] refl (λ k h. absurd (omega (arith, h))) (inl refl)
take-FirstCut (line ∷ lines) = elim (Bool-cases (cuts (line ∷ lines))) [
  | inl e ↦ rw e (cut (line ∷ lines) refl (λ k h. absurd (omega (arith, h))) (inr e))
  | inr e ↦ rw e (grow e (take-FirstCut lines))
]
  where
    earlier :
        cuts (line ∷ lines) ≡ false
        → ((k : ℕ) → k < length (take (find_cutoff lines) lines) → cuts (drop k lines) ≡ false)
        → (k : ℕ) → k < suc (length (take (find_cutoff lines) lines))
        → cuts (drop k (line ∷ lines)) ≡ false
    earlier e h zero l = e
    earlier e h (suc k) l = h k (omega (arith, l))

    grow :
        cuts (line ∷ lines) ≡ false
        → FirstCut lines (take (find_cutoff lines) lines)
        → FirstCut (line ∷ lines) (line ∷ take (find_cutoff lines) lines)
    grow e (cut after split none_before ends) =
        cut after (ap (λ ls. line ∷ ls) split) (λ k h. earlier e none_before k h) ends

not_quote : (b : Bool) → not b ≡ true → b ≡ false
not_quote true h = absurd (cc h)
not_quote false h = refl

-- What is kept of a reply's lines are those that are no quotes, up to the first line at which a
-- signature or the quoted history begins, or up to the end.
pub kept_lines_iff :
    (lines : List Text)
    → (before : List Text) × FirstCut lines before
      × ((line : Text)
          → In line (kept_lines lines) ↔ (In line before × (is_quote_line line ≡ false)))
unfolding kept_lines
kept_lines_iff lines = (
  take (find_cutoff lines) lines,
  take-FirstCut lines,
  λ line. (
    λ i. let (j, k) = select-In _ line _ i in (j, not_quote (is_quote_line line) k),
    λ (i, k). In-select _ i (ap not k),
  ),
)
