-- ===== src/Mcp/Gates/Matching.antt =====
-- When a pattern object matches the arguments of a call: field by field.
use postblox.Common.{
  ◌≡◌, refl, ◌↔◌, true, some, List, [], ◌∷◌, inl, inr, Option-cases, In, here, there, all,
  and-eq-true,
}
use postblox.Common.Text.{Text}
use postblox.Json.{Value, object, Members, get, members}
use postblox.Mcp.Gates.{value_matches, field_matches, pattern_matches}

-- The call has the field, with a value that the expected one matches.
pub Fits : Members → Text × Value → Type 0
Fits args f = (actual : Value) × (get f.0 args ≡ some actual) × (value_matches f.1 actual ≡ true)

field_matches_sound :
    (args : Members) (k : Text) (v : Value) → field_matches args (k, v) ≡ true → Fits args (k, v)
unfolding Fits
field_matches_sound args k v h = elim (Option-cases (get k args)) [
  | inl e ↦ absurd (cc (rw (e, field_matches) at h))
  | inr (a, e) ↦ (a, e, rw (e, field_matches) at h)
]

field_matches_complete :
    (args : Members) (k : Text) (v : Value) → Fits args (k, v) → field_matches args (k, v) ≡ true
unfolding Fits
field_matches_complete args k v (a, e, m) = rw (e, field_matches) m

all_sound :
    (args : Members) (fs : List (Text × Value))
    → all (field_matches args) fs ≡ true
    → (f : Text × Value) → In f fs
    → Fits args f
all_sound args [] h f m = elim m [ ]
all_sound args ((k, v) ∷ fs) h f (here e) =
    rw e (field_matches_sound args k v (and-eq-true _ _ h).0)
all_sound args ((k, v) ∷ fs) h f (there m) = all_sound args fs (and-eq-true _ _ h).1 f m

all_complete :
    (args : Members) (fs : List (Text × Value))
    → ((f : Text × Value) → In f fs → Fits args f)
    → all (field_matches args) fs ≡ true
all_complete args [] h = refl
all_complete args ((k, v) ∷ fs) h =
    rw (field_matches_complete args k v (h (k, v) (here refl)))
      (all_complete args fs (λ f m. h f (there m)))

-- A pattern object matches the arguments exactly when these are an object in which every field of
-- the pattern fits; fields that the pattern does not name are free.
pub pattern_matches_iff :
    (pattern args : Members)
    → (pattern_matches (object pattern) (object args) ≡ true)
      ↔ ((f : Text × Value) → In f (members pattern) → Fits args f)
unfolding pattern_matches
pattern_matches_iff pattern args =
    (all_sound args (members pattern), all_complete args (members pattern))
