-- ===== src/Common/Lists.antt =====
-- Lists measured by native numbers, Boolean searches, and predicates on all or some elements.
use Prim.Native.Nat.{ℕ, zero, suc, ◌+◌, ◌-◌, ◌≤◌}
use mathlib.Core.Path.{◌≡◌, refl}
use mathlib.Core.Logic.{◌⊎◌, inl, inr}
use mathlib.Core.Bool.{Bool, true, false, ◌&&◌, ◌||◌}
use mathlib.Core.List.{List, [], ◌∷◌, ◌++◌, reverse, reverse_aux}
use mathlib.Core.Option.{Option, none, some}
use native.Mathlib.Omega.{arith}
use postblox.Common.Tests.{if◌then◌else◌, Bool-cases}

module _ {ℓ} {A : Type ℓ} where
  abbrev pub length : List A → ℕ
  length [] = 0
  length (x ∷ xs) = suc (length xs)

  abbrev pub get_elem? : List A → ℕ → Option A
  get_elem? [] i = none
  get_elem? (x ∷ xs) zero = some x
  get_elem? (x ∷ xs) (suc i) = get_elem? xs i

  abbrev pub take : ℕ → List A → List A
  take zero xs = []
  take (suc n) [] = []
  take (suc n) (x ∷ xs) = x ∷ take n xs

  abbrev pub drop : ℕ → List A → List A
  drop zero xs = xs
  drop (suc n) [] = []
  drop (suc n) (x ∷ xs) = drop n xs

  abbrev pub any : (A → Bool) → List A → Bool
  any p [] = false
  any p (x ∷ xs) = p x || any p xs

  abbrev pub all : (A → Bool) → List A → Bool
  all p [] = true
  all p (x ∷ xs) = p x && all p xs

  abbrev pub select : (A → Bool) → List A → List A
  select p [] = []
  select p (x ∷ xs) = let rest = select p xs in if p x then x ∷ rest else rest

  abbrev pub is_empty : List A → Bool
  is_empty [] = true
  is_empty (x ∷ xs) = false

  -- The element stands at some place of the list.
  pub data In (a : A) : List A → Type ℓ where
    here : {x : A} {xs : List A} → a ≡ x → In a (x ∷ xs)
    there : {x : A} {xs : List A} → In a xs → In a (x ∷ xs)

module _ {ℓ} {A : Type ℓ} where
  pub length-append : (xs ys : List A) → length (xs ++ ys) ≡ length xs + length ys
  length-append [] ys = omega arith
  length-append (x ∷ xs) ys = omega (arith, length-append xs ys)

  pub length-take-le : (n : ℕ) (xs : List A) → length (take n xs) ≤ n
  length-take-le zero xs = omega arith
  length-take-le (suc n) [] = omega arith
  length-take-le (suc n) (x ∷ xs) = omega (arith, length-take-le n xs)

  pub length-drop : (n : ℕ) (xs : List A) → length (drop n xs) ≡ length xs - n
  length-drop zero xs = omega arith
  length-drop (suc n) [] = omega arith
  length-drop (suc n) (x ∷ xs) = omega (arith, length-drop n xs)

  pub In-append_left : {a : A} {xs : List A} (ys : List A) → In a xs → In a (xs ++ ys)
  In-append_left ys (here e) = here e
  In-append_left ys (there m) = there (In-append_left ys m)

  pub In-append_right : {a : A} (xs : List A) {ys : List A} → In a ys → In a (xs ++ ys)
  In-append_right [] m = m
  In-append_right (x ∷ xs) m = there (In-append_right xs m)

  pub In-append : {a : A} (xs : List A) {ys : List A} → In a (xs ++ ys) → In a xs ⊎ In a ys
  In-append [] m = inr m
  In-append (x ∷ xs) (here e) = inl (here e)
  In-append (x ∷ xs) (there m) = elim (In-append xs m) [ inl l ↦ inl (there l) | inr r ↦ inr r ]

  pub any_sound : (p : A → Bool) (xs : List A) → any p xs ≡ true → (a : A) × In a xs × (p a ≡ true)
  any_sound p [] h = absurd (cc)
  any_sound p (x ∷ xs) h = elim (Bool-cases (p x)) [
    | inl e ↦ (x, here refl, e)
    | inr e ↦ let (a, m, k) = any_sound p xs (rw e at h) in (a, there m, k)
  ]

  pub any_complete : (p : A → Bool) {a : A} {xs : List A} → In a xs → p a ≡ true → any p xs ≡ true
  any_complete p (here {x} {xs} e) k = rw (← e) (rw k)
  any_complete p (there {x} {xs} m) k = ground (arith, any_complete p m k)

module _ {ℓ κ} {A : Type ℓ} (P : A → Type κ) where
  abbrev pub All : List A → Type κ
  All [] = Unit
  All (x ∷ xs) = P x × All xs

  pub All-append : (xs ys : List A) → All xs → All ys → All (xs ++ ys)
  All-append [] ys hx hy = hy
  All-append (x ∷ xs) ys hx hy = (hx.0, All-append xs ys hx.1 hy)

  pub All-In : {a : A} {xs : List A} → In a xs → All xs → P a
  All-In (here e) h = rw e h.0
  All-In (there m) h = All-In m h.1

module _ {ℓ} {A : Type ℓ} where
  pub select-In : (p : A → Bool) (t : A) (ts : List A) → In t (select p ts) → In t ts × (p t ≡ true)
  select-In p t [] m = elim m [ ]
  select-In p t (u ∷ ts) m = elim (Bool-cases (p u)) [
    | inl e ↦ kept e (rw e at m) (select-In p t ts)
    | inr e ↦ let (k, h) = select-In p t ts (rw e at m) in (there k, h)
  ]
    where
      kept :
          p u ≡ true
          → In t (u ∷ select p ts)
          → (In t (select p ts) → In t ts × (p t ≡ true))
          → In t (u ∷ ts) × (p t ≡ true)
      kept e (here k) ih = (here k, rw k e)
      kept e (there k) ih = let (m, h) = ih k in (there m, h)

  pub In-select : (p : A → Bool) {t : A} {ts : List A} → In t ts → p t ≡ true → In t (select p ts)
  In-select p (here {x} {xs} e) h = rw (rw e at h) (here e)
  In-select p (there {x} {xs} m) h = elim (Bool-cases (p x)) [
    | inl e ↦ rw e (there (In-select p m h))
    | inr e ↦ rw e (In-select p m h)
  ]

  In-reverse_aux : {a : A} (xs ys : List A) → In a xs ⊎ In a ys → In a (reverse_aux xs ys)
  In-reverse_aux [] ys (inl m) = elim m [ ]
  In-reverse_aux [] ys (inr m) = m
  In-reverse_aux (x ∷ xs) ys (inl (here e)) = In-reverse_aux xs (x ∷ ys) (inr (here e))
  In-reverse_aux (x ∷ xs) ys (inl (there m)) = In-reverse_aux xs (x ∷ ys) (inl m)
  In-reverse_aux (x ∷ xs) ys (inr m) = In-reverse_aux xs (x ∷ ys) (inr (there m))

  pub In-reverse : {a : A} {xs : List A} → In a xs → In a (reverse xs)
  In-reverse {xs = xs} m = In-reverse_aux xs [] (inl m)

  reverse_aux-In : {a : A} (xs ys : List A) → In a (reverse_aux xs ys) → In a xs ⊎ In a ys
  reverse_aux-In [] ys m = inr m
  reverse_aux-In (x ∷ xs) ys m = elim (reverse_aux-In xs (x ∷ ys) m) [
    | inl k ↦ inl (there k)
    | inr (here e) ↦ inl (here e)
    | inr (there k) ↦ inr k
  ]

  pub reverse-In : {a : A} (xs : List A) → In a (reverse xs) → In a xs
  reverse-In xs m = elim (reverse_aux-In xs [] m) [ inl k ↦ k | inr k ↦ elim k [ ] ]
