-- ===== src/Common/Values.antt =====
-- Results with an error, and operations on options and machine words.
use Prim.Native.Nat.{ℕ, ◌+◌, ◌-◌, min, max}
use mathlib.Core.Path.{◌≡◌, refl}
use mathlib.Core.Logic.{◌⊎◌, inl, inr}
use mathlib.Core.Bool.{Bool, true, false}
use mathlib.Core.Option.{Option, none, some}

pub data Result {ℓ κ} (E : Type κ) (A : Type ℓ) : Type (ℓ ⊔ κ) where
  ok : A → Result E A
  err : E → Result E A

module _ {ℓ κ μ} {E : Type μ} {A : Type ℓ} {B : Type κ} where
  infixl 5 ◌>>=◌
  -- The operator `?`, with what follows it.
  abbrev pub ◌>>=◌ : Result E A → (A → Result E B) → Result E B
  err x >>= rest = err x
  ok x >>= rest = rest x

  pub >>=-eq-ok :
      (first : Result E A) (rest : A → Result E B) {y : B}
      → (first >>= rest) ≡ ok y
      → (x : A) × (first ≡ ok x) × (rest x ≡ ok y)
  >>=-eq-ok (err x) rest h = cc
  >>=-eq-ok (ok x) rest h = (x, refl, h)

-- A check, and what follows it
infixl 5 ◌>>◌
abbrev pub ◌>>◌ {ℓ μ} : {A : Type ℓ} {E : Type μ} → Result E (Unit {0}) → Result E A → Result E A
err x >> rest = err x
ok _ >> rest = rest

-- `From` between error types, as `?` applies it
abbrev pub convert_err {ℓ κ μ} :
    {A : Type ℓ} {E : Type κ} {F : Type μ} → (E → F) → Result E A → Result F A
convert_err from (err x) = err (from x)
convert_err from (ok x) = ok x

pub Result-cases {ℓ κ} :
    {E : Type κ} {A : Type ℓ} (r : Result E A) → ((a : A) × (r ≡ ok a)) ⊎ ((e : E) × (r ≡ err e))
Result-cases (ok a) = inl (a, refl)
Result-cases (err e) = inr (e, refl)

module _ {ℓ} {A : Type ℓ} where
  abbrev pub unwrap_or : A → Option A → A
  unwrap_or d none = d
  unwrap_or d (some a) = a

  -- `Option::or`, and what SQL's `COALESCE` does with two arguments.
  abbrev pub coalesce : Option A → Option A → Option A
  coalesce none b = b
  coalesce (some a) b = some a

  abbrev pub is_some : Option A → Bool
  is_some none = false
  is_some (some a) = true

-- The greater of two numbers that may be missing, as `into_iter().flatten().max()` takes it.
abbrev pub max_option : Option ℕ → Option ℕ → Option ℕ
max_option none b = b
max_option (some a) none = some a
max_option (some a) (some b) = some (max a b)

abbrev pub u32_max : ℕ
u32_max = 4294967295

-- `u32::saturating_add` and `u32::saturating_sub`
abbrev pub saturating_add : ℕ → ℕ → ℕ
saturating_add a b = min (a + b) u32_max

abbrev pub saturating_sub : ℕ → ℕ → ℕ
saturating_sub a b = a - b

-- A signed number: `negsuc n` is -(n + 1).
pub data ℤ : Type 0 where
  pos : ℕ → ℤ
  negsuc : ℕ → ℤ
