-- ===== src/Mail/Threading/Subjects.antt =====
-- The loop that takes reply and forward prefixes off a subject.
use postblox.Common.{
  ℕ, zero, suc, ◌-◌, ◌≤◌, ◌≡◌, refl, ap, sym, ◌∙◌, Bool, true, [], ◌∷◌, take, drop, length,
  length-drop, arith, if◌then◌else◌,
}
use postblox.Common.Text.{
  Text, codes, eq_ignore_ascii_case, to_ascii_lowercase, trim_start, trim_start_matches,
  is_whitespace,
}
use postblox.Common.Text.Equality.{text_eq_iff}
use postblox.Mail.Threading.{prefix_len, strip_prefixes}

length-trim_start_matches-le :
    (p : ℕ → Bool) (t : Text) → length (trim_start_matches p t) ≤ length t
length-trim_start_matches-le p [] = omega arith
length-trim_start_matches-le p (c ∷ t) = ground (arith, length-trim_start_matches-le p t)

length-to_ascii_lowercase : (t : Text) → length (to_ascii_lowercase t) ≡ length t
length-to_ascii_lowercase [] = refl
length-to_ascii_lowercase (c ∷ t) = ap suc (length-to_ascii_lowercase t)

-- Texts that are equal but for case are as long.
length_of_eq_ignore_ascii_case :
    (s t : Text) → eq_ignore_ascii_case s t ≡ true → length s ≡ length t
length_of_eq_ignore_ascii_case s t h =
    sym (length-to_ascii_lowercase s)
    ∙ ap length ((text_eq_iff _ _).0 h)
    ∙ length-to_ascii_lowercase t

length-take-le_length : (n : ℕ) (t : Text) → length (take n t) ≤ length t
length-take-le_length zero t = omega arith
length-take-le_length (suc n) [] = omega arith
length-take-le_length (suc n) (c ∷ t) = omega (arith, length-take-le_length n t)

length-le_of_prefix :
    (n : ℕ) (s p : Text) → eq_ignore_ascii_case (take n s) p ≡ true → length p ≤ length s
length-le_of_prefix n s p h =
    omega (arith, length_of_eq_ignore_ascii_case (take n s) p h, length-take-le_length n s)

prefix_len-le-length : (s : Text) → prefix_len s ≤ length s
unfolding prefix_len
prefix_len-le-length s =
    ladder (eq_ignore_ascii_case (take 3 s) (codes "re:"))
      (eq_ignore_ascii_case (take 4 s) (codes "fwd:"))
      (eq_ignore_ascii_case (take 3 s) (codes "fw:")) (length-le_of_prefix 3 s (codes "re:"))
      (length-le_of_prefix 4 s (codes "fwd:")) (length-le_of_prefix 3 s (codes "fw:"))
  where
    ladder :
        (a b c : Bool)
        → (a ≡ true → 3 ≤ length s)
        → (b ≡ true → 4 ≤ length s)
        → (c ≡ true → 3 ≤ length s)
        → (if a then 3 else if b then 4 else if c then 3 else 0) ≤ length s
    ladder a b c p q r = ground arith

length_round : (k : ℕ) (s : Text) → length (trim_start (drop (suc k) s)) ≤ length s - suc k
length_round k s =
    omega
      (arith, length-trim_start_matches-le is_whitespace (drop (suc k) s), length-drop (suc k) s)

-- With as much fuel as the text has characters, the loop ends by its test: no prefix is left.
pub strip_prefixes-prefix_len :
    (fuel : ℕ) (s : Text) → length s ≤ fuel → prefix_len (strip_prefixes fuel s) ≡ 0
unfolding strip_prefixes
strip_prefixes-prefix_len zero s h = omega (arith, prefix_len-le-length s)
strip_prefixes-prefix_len (suc fuel) s h =
    go (prefix_len s) refl (λ k. strip_prefixes-prefix_len fuel (trim_start (drop (suc k) s)))
  where
    go :
        (n : ℕ)
        → prefix_len s ≡ n
        → ((k : ℕ)
            → length (trim_start (drop (suc k) s)) ≤ fuel
            → prefix_len (strip_prefixes fuel (trim_start (drop (suc k) s))) ≡ 0)
        → prefix_len
            (elim n [ zero ↦ s | suc k ↦ strip_prefixes fuel (trim_start (drop (suc k) s)) ])
          ≡ 0
    go zero e ih = e
    go (suc k) e ih = ih k (omega (arith, length_round k s))
