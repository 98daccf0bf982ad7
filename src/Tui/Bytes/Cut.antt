-- ===== src/Tui/Bytes/Cut.antt =====
-- Cutting a text at the byte of a character is cutting it at the character.
use postblox.Common.{
  ℕ, zero, suc, ◌+◌, ◌-◌, ◌≤◌, ◌<◌, ◌≡◌, refl, sym, ap, ◌∙◌, true, false, none, some, [], ◌∷◌, ◌++◌,
  length, take, drop, ltb, leb, ◌==◌, arith, Bool-cases, inl, inr,
}
use postblox.Common.Text.{Text, len_utf8, byte_len}
use postblox.Tui.Bytes.{
  split_at, cons_left, get_range, insert_char, remove_range, nth_offset, or_len, char_to_byte_index,
  inserted, first_part,
}

len_utf8-pos : (c : ℕ) → 0 < len_utf8 c
len_utf8-pos c = ground arith

split_at-cons :
    (w m n c : ℕ) (t : Text)
    → len_utf8 c ≡ w
    → 0 < w
    → n ≡ w + m
    → split_at n (c ∷ t) ≡ cons_left c (split_at m t)
unfolding split_at
split_at-cons w m n c t e p h =
    let k : n == 0 ≡ false = ground arith in
    let l : ltb n w ≡ false = ground arith in
    let d : n - w ≡ m = omega arith in rw e (rw k (rw l (rw d refl)))

-- Where a text is the sequence of two, it is cut between them by the bytes of the first.
pub split_at-append : (a b : Text) → split_at (byte_len a) (a ++ b) ≡ some (a, b)
split_at-append [] [] = unfold split_at in refl
split_at-append [] (c ∷ b) = unfold split_at in refl
split_at-append (c ∷ a) b =
    split_at-cons (len_utf8 c) (byte_len a) _ c (a ++ b) refl (len_utf8-pos c) refl
    ∙ ap (cons_left c) (split_at-append a b)

nth_offset_lem :
    (offset i : ℕ) (t : Text)
    → i < length t
    → nth_offset offset i t ≡ some (offset + byte_len (take i t))
nth_offset_lem offset i [] h = absurd (omega arith)
nth_offset_lem offset zero (c ∷ t) h = ap some (omega arith)
nth_offset_lem offset (suc i) (c ∷ t) h =
    nth_offset_lem (offset + len_utf8 c) i t (omega arith) ∙ ap some (omega arith)

nth_offset-none : (offset i : ℕ) (t : Text) → length t ≤ i → nth_offset offset i t ≡ none
nth_offset-none offset i [] h = refl
nth_offset-none offset zero (c ∷ t) h = absurd (omega arith)
nth_offset-none offset (suc i) (c ∷ t) h = nth_offset-none (offset + len_utf8 c) i t (omega arith)

pub take_all : (i : ℕ) (t : Text) → length t ≤ i → take i t ≡ t
take_all zero [] h = refl
take_all (suc i) [] h = refl
take_all zero (c ∷ t) h = absurd (omega arith)
take_all (suc i) (c ∷ t) h = ap (◌∷◌ c) (take_all i t (omega arith))

pub take-drop : (i : ℕ) (t : Text) → take i t ++ drop i t ≡ t
take-drop zero t = refl
take-drop (suc i) [] = refl
take-drop (suc i) (c ∷ t) = ap (◌∷◌ c) (take-drop i t)

suc_index : (t : Text) (i : ℕ) → char_to_byte_index t (suc i) ≡ or_len t (nth_offset 0 (suc i) t)
unfolding char_to_byte_index
suc_index t i = let k : suc i == 0 ≡ false = ground arith in rw k refl

-- The byte of a character is the length of what stands before it.
pub char_to_byte_index_lem : (t : Text) (i : ℕ) → char_to_byte_index t i ≡ byte_len (take i t)
unfolding char_to_byte_index
char_to_byte_index_lem t zero = refl
char_to_byte_index_lem t (suc i) = elim (Bool-cases (ltb (suc i) (length t))) [
  | inl e ↦
      suc_index t i ∙ ap (or_len t) (nth_offset_lem 0 (suc i) t (ground arith)) ∙ (omega arith)
  | inr e ↦
      suc_index t i
      ∙ ap (or_len t) (nth_offset-none 0 (suc i) t (ground arith))
      ∙ ap byte_len (sym (take_all (suc i) t (ground arith)))
]

split_at-char : (t : Text) (i : ℕ) → split_at (char_to_byte_index t i) t ≡ some (take i t, drop i t)
split_at-char t i =
    ap (λ n. split_at n t) (char_to_byte_index_lem t i)
    ∙ ap (split_at (byte_len (take i t))) (sym (take-drop i t))
    ∙ split_at-append (take i t) (drop i t)

-- The position of a character is between two characters, so that an insertion there does not
-- panic.
pub insert_char-char :
    (t : Text) (i ch : ℕ) → insert_char t (char_to_byte_index t i) ch ≡ take i t ++ (ch ∷ drop i t)
unfolding insert_char
insert_char-char t i ch = ap (inserted t ch) (split_at-char t i)

pub remove_range-char :
    (t : Text) (i j : ℕ)
    → remove_range t (char_to_byte_index t i) (char_to_byte_index t j) ≡ take i t ++ drop j t
unfolding remove_range
remove_range-char t i j = rw (split_at-char t i) (rw (split_at-char t j) refl)

pub get_range-append :
    (a b c : Text) → get_range (a ++ (b ++ c)) (byte_len a) (byte_len a + byte_len b) ≡ some b
unfolding get_range
get_range-append a b c =
    let ordered : leb (byte_len a) (byte_len a + byte_len b) ≡ true = ground arith in
    let d : byte_len a + byte_len b - byte_len a ≡ byte_len b = omega arith in
    rw ordered (rw d (rw (split_at-append a (b ++ c)) (ap first_part (split_at-append b c))))
