-- ===== src/Common/Text/Affix.antt =====
-- Prefixes and suffixes of a text, and lengths in bytes.
use Prim.Native.Nat.{ℕ, ◌+◌, ◌<◌}
use mathlib.Core.Path.{◌≡◌, refl, ap, sym}
use mathlib.Core.Logic.{◌⊎◌, inl, inr}
use mathlib.Core.Bool.{true}
use mathlib.Core.List.{[], ◌∷◌, ◌++◌}
use native.Mathlib.Omega.{arith}
use postblox.Common.Tests.{Bool-cases}
use postblox.Common.Text.{Text, text_eq, starts_with, ends_with, byte_len}
use postblox.Common.Text.Equality.{text_eq_iff, text_eq_refl}

pub starts_with_sound : (t p : Text) → starts_with t p ≡ true → (r : Text) × (t ≡ p ++ r)
starts_with_sound t [] h = (t, refl)
starts_with_sound [] (c ∷ p) h = absurd (cc)
starts_with_sound (d ∷ t) (c ∷ p) h =
    let (r, e) = starts_with_sound t p (ground arith) in (r, ground (arith, e))

pub starts_with-append : (p r : Text) → starts_with (p ++ r) p ≡ true
starts_with-append [] r = refl
starts_with-append (c ∷ p) r = ground (arith, starts_with-append p r)

pub ends_with_sound : (t s : Text) → ends_with t s ≡ true → (r : Text) × (t ≡ r ++ s)
ends_with_sound [] s h = ([], ground (arith, text_eq_iff [] s))
ends_with_sound (d ∷ t) s h = elim (Bool-cases (text_eq (d ∷ t) s)) [
  | inl e ↦ ([], (text_eq_iff (d ∷ t) s).0 e)
  | inr e ↦ let (r, k) = ends_with_sound t s (rw e at h) in (d ∷ r, ap (◌∷◌ d) k)
]

pub ends_with-append : (r s : Text) → ends_with (r ++ s) s ≡ true
ends_with-append [] [] = refl
ends_with-append [] (c ∷ s) = rw (text_eq_refl (c ∷ s))
ends_with-append (d ∷ r) s = ground (arith, ends_with-append r s)

pub byte_len-append : (s t : Text) → byte_len (s ++ t) ≡ byte_len s + byte_len t
byte_len-append [] t = omega arith
byte_len-append (c ∷ s) t = omega (arith, byte_len-append s t)

pub byte_len-cons-pos : (c : ℕ) (t : Text) → 0 < byte_len (c ∷ t)
byte_len-cons-pos c t = ground arith

-- Where one text is cut in two ways, either the first cut is the earlier or the later one.
pub append-eq-append :
    (a b c d : Text)
    → a ++ b ≡ c ++ d
    → ((m : Text) × (c ≡ a ++ m) × (b ≡ m ++ d))
      ⊎ ((x : ℕ) × (m : Text) × (a ≡ c ++ x ∷ m) × (d ≡ x ∷ (m ++ b)))
append-eq-append [] b c d h = inl (c, refl, h)
append-eq-append (x ∷ a) b [] d h = inr (x, a, refl, sym h)
append-eq-append (x ∷ a) b (y ∷ c) d h = elim (append-eq-append a b c d (cc)) [
  | inl (m, e, k) ↦ inl (m, cc, k)
  | inr (z, m, e, k) ↦ inr (z, m, cc, k)
]
