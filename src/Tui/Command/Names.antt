-- ===== src/Tui/Command/Names.antt =====
-- The parser of src/tui/command.rs and its list of command names.
use postblox.Common.{
  ◌≡◌, refl, sym, ap, ◌∙◌, subst, ◌↔◌, Bool, true, false, ◌||◌, Option, none, some, List, [], ◌∷◌,
  ◌++◌, Result, err, any, all, is_empty, Bool-cases, Option-cases, and-eq-true, or-eq-false,
  or-eq-true, inl, inr,
}
use postblox.Common.Text.{Text, codes, text_eq, split_whitespace, trim}
use postblox.Common.Text.Equality.{text_eq_iff}
use postblox.Tui.Command.{
  Command, CommandError, unknown, command_names, no_args, lookup, parse_no_args, parse_remainder,
  remainder_after_token, usage_for, parse_account, searched, search_words, theme_from_str, themed,
  parse_theme, remainder_command, parse_with_args, dispatch, parse_command, move, goto,
}

abbrev is_unknown : Result CommandError Command → Bool
is_unknown (err (unknown _)) = true
is_unknown _ = false

abbrev named : Text → List Text → Bool
named name names = any (λ n. text_eq n name) names

abbrev keys : List (Text × Command) → List Text
keys [] = []
keys ((key, command) ∷ rest) = key ∷ keys rest

lookup-none :
    (name : Text) (table : List (Text × Command))
    → named name (keys table) ≡ false
    → lookup name table ≡ none
unfolding lookup
lookup-none name [] h = refl
lookup-none name ((key, command) ∷ rest) h =
    let (e, k) = or-eq-false (text_eq key name) _ h in rw e (lookup-none name rest k)

none-lookup :
    (name : Text) (table : List (Text × Command))
    → lookup name table ≡ none
    → named name (keys table) ≡ false
unfolding lookup
none-lookup name [] h = refl
none-lookup name ((key, command) ∷ rest) h = elim (Bool-cases (text_eq key name)) [
  | inl e ↦ absurd (cc (rw e at h))
  | inr e ↦ rw e (none-lookup name rest (rw e at h))
]

-- Names that are found in a list are found in one that has all its members.
named_in_larger :
    (name : Text) (small large : List Text)
    → all (λ n. named n large) small ≡ true
    → named name small ≡ true
    → named name large ≡ true
named_in_larger name [] large h k = absurd (cc k)
named_in_larger name (n ∷ small) large h k =
    let (found, rest) = and-eq-true (named n large) _ h in
    elim (or-eq-true (text_eq n name) _ k) [
      | inl e ↦ subst (λ m. named m large ≡ true) ((text_eq_iff n name).0 e) found
      | inr e ↦ named_in_larger name small large rest e
    ]

abbrev with_args : List Text
with_args =
    codes "move" ∷ (codes "goto" ∷ (codes "account" ∷ (codes "search" ∷ (codes "theme" ∷ []))))

names_are_arms : all (λ n. named n (keys no_args ++ with_args)) command_names ≡ true
names_are_arms = refl

arms_are_names : all (λ n. named n command_names) (keys no_args ++ with_args) ≡ true
arms_are_names = refl

named-append :
    (name : Text) (xs ys : List Text) → named name (xs ++ ys) ≡ (named name xs || named name ys)
named-append name [] ys = refl
named-append name (x ∷ xs) ys = elim (Bool-cases (text_eq x name)) [
  | inl e ↦ rw e refl
  | inr e ↦ rw e (named-append name xs ys)
]

search_is_known :
    (filter : Option Text) (query parts : List Text)
    → is_unknown (search_words filter query parts) ≡ false
unfolding search_words
search_is_known filter [] [] = refl
search_is_known filter (w ∷ ws) [] = refl
search_is_known filter query (part ∷ []) = elim (Bool-cases (text_eq part (codes "--account"))) [
  | inl e ↦ rw e refl
  | inr e ↦ rw e (some_query (query ++ (part ∷ [])))
]
  where
    some_query : (q : List Text) → is_unknown (searched filter q) ≡ false
    some_query [] = refl
    some_query (w ∷ ws) = refl
search_is_known none query (part ∷ (value ∷ rest)) =
    elim (Bool-cases (text_eq part (codes "--account"))) [
      | inl e ↦ rw (e, is_unknown) (search_is_known (some value) query rest)
      | inr e ↦ rw (e, is_unknown) (search_is_known none (query ++ (part ∷ [])) (value ∷ rest))
    ]
search_is_known (some f) query (part ∷ (value ∷ rest)) =
    elim (Bool-cases (text_eq part (codes "--account"))) [
      | inl e ↦ rw (e, is_unknown) refl
      | inr e ↦ rw (e, is_unknown) (search_is_known (some f) (query ++ (part ∷ [])) (value ∷ rest))
    ]

theme_is_known : (parts : List Text) → is_unknown (parse_theme parts) ≡ false
theme_is_known [] = refl
theme_is_known (name ∷ []) = elim (Bool-cases (text_eq name (codes "next"))) [
  | inl e ↦ rw e refl
  | inr e ↦ rw e (any_theme (theme_from_str name))
]
  where
    any_theme : (o : Option _) → is_unknown (themed o) ≡ false
    any_theme none = refl
    any_theme (some t) = refl
theme_is_known (a ∷ (b ∷ parts)) = refl

account_is_known : (parts : List Text) → is_unknown (parse_account parts) ≡ false
account_is_known [] = refl
account_is_known (a ∷ []) = refl
account_is_known (a ∷ (b ∷ parts)) = refl

usage_is_known : (token : Text) → is_unknown (err (usage_for token)) ≡ false
usage_is_known token = elim (Bool-cases (text_eq token (codes "move"))) [
  | inl e ↦ rw e refl
  | inr e ↦ elim (Bool-cases (text_eq token (codes "goto"))) [
    | inl d ↦ rw (e, d) refl
    | inr d ↦ rw (e, d) refl
  ]
]

remainder_is_known :
    (f : Text → Command) (input token : Text) (parts : List Text)
    → is_unknown (remainder_command f (parse_remainder input token parts)) ≡ false
unfolding parse_remainder
remainder_is_known f input token [] = usage_is_known token
remainder_is_known f input token (w ∷ parts) =
    elim (Bool-cases (is_empty (trim (remainder_after_token input token)))) [
      | inl e ↦ rw e (usage_is_known token)
      | inr e ↦ rw e refl
    ]

known_with_args :
    (input name : Text) (parts : List Text)
    → named name with_args ≡ true
    → is_unknown (parse_with_args input name parts) ≡ false
known_with_args input name parts h = elim (Bool-cases (text_eq (codes "move") name)) [
  | inl a ↦ rw a (remainder_is_known move input (codes "move") parts)
  | inr a ↦ elim (Bool-cases (text_eq (codes "goto") name)) [
    | inl b ↦ rw (a, b) (remainder_is_known goto input (codes "goto") parts)
    | inr b ↦ elim (Bool-cases (text_eq (codes "account") name)) [
      | inl c ↦ rw (a, b, c) (account_is_known parts)
      | inr c ↦ elim (Bool-cases (text_eq (codes "search") name)) [
        | inl d ↦ rw (a, b, c, d) (search_is_known none [] parts)
        | inr d ↦ elim (Bool-cases (text_eq (codes "theme") name)) [
          | inl e ↦ rw (a, b, c, d, e) (theme_is_known parts)
          | inr e ↦ absurd (cc (rw (a, b, c, d, e) at h))
        ]
      ]
    ]
  ]
]

known_dispatch :
    (input name : Text) (parts : List Text)
    → named name command_names ≡ true
    → is_unknown (dispatch input name parts (lookup name no_args)) ≡ false
known_dispatch input name parts h = elim (Option-cases (lookup name no_args)) [
  | inr (command, e) ↦ rw e (plain parts command)
  | inl e ↦
      let arms = named_in_larger name command_names (keys no_args ++ with_args) names_are_arms h in
      let split = sym (named-append name (keys no_args) with_args) ∙ arms in
      rw e (
        known_with_args input name parts (elim (or-eq-true (named name (keys no_args)) _ split) [
          | inl k ↦ absurd (cc (sym k ∙ none-lookup name no_args e))
          | inr k ↦ k
        ]))
]
  where
    plain :
        (parts : List Text) (command : Command)
        → is_unknown (parse_no_args command name parts) ≡ false
    plain [] command = refl
    plain (w ∷ parts) command = refl

unknown_dispatch :
    (input name : Text) (parts : List Text)
    → named name command_names ≡ false
    → dispatch input name parts (lookup name no_args) ≡ err (unknown name)
unknown_dispatch input name parts h =
    let (plain, rest) =
      or-eq-false (named name (keys no_args)) _
        (sym (named-append name (keys no_args) with_args) ∙ no_arm) in
    rw (lookup-none name no_args plain) (none_of_them rest)
  where
    no_arm : named name (keys no_args ++ with_args) ≡ false
    no_arm = elim (Bool-cases (named name (keys no_args ++ with_args))) [
      | inl e ↦ absurd (
          cc (
            sym h
            ∙ named_in_larger name (keys no_args ++ with_args) command_names arms_are_names e))
      | inr e ↦ e
    ]

    none_of_them :
        named name with_args ≡ false → parse_with_args input name parts ≡ err (unknown name)
    none_of_them h =
        let (a, h) = or-eq-false (text_eq (codes "move") name) _ h in
        let (b, h) = or-eq-false (text_eq (codes "goto") name) _ h in
        let (c, h) = or-eq-false (text_eq (codes "account") name) _ h in
        let (d, h) = or-eq-false (text_eq (codes "search") name) _ h in
        let (e, h) = or-eq-false (text_eq (codes "theme") name) _ h in rw (a, b, c, d, e) refl

-- A line is refused as an unknown command exactly when its first word is none of the command names
-- that Tab completes from.
pub parse_command-unknown_iff :
    (input name : Text) (parts : List Text)
    → split_whitespace input ≡ name ∷ parts
    → (parse_command input ≡ err (unknown name)) ↔ (any (λ n. text_eq n name) command_names ≡ false)
unfolding parse_command
parse_command-unknown_iff input name parts words = rw words (
  λ e. elim (Bool-cases (named name command_names)) [
    | inl k ↦ absurd (cc (sym (ap is_unknown e) ∙ known_dispatch input name parts k))
    | inr k ↦ k
  ],
  unknown_dispatch input name parts,
)
