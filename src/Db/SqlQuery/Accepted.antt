-- ===== src/Db/SqlQuery/Accepted.antt =====
-- Which statements pass the filter of src/db/sql_query.rs.
use postblox.Common.{
  ℕ, ◌≤◌, ◌≡◌, refl, sym, subst, ◌↔◌, true, false, none, List, [], ◌∷◌, map, ok, ltb, is_empty, inl,
  inr, Bool-cases, Option-cases, In, here, there, arith,
}
use postblox.Common.Text.{Text, split, byte_len}
use postblox.Db.SqlQuery.{
  max_sql_bytes, is_separator, ascii_upper, trim_one_trailing_semicolon, is_forbidden,
  first_forbidden, first_token, is_query, tokens_of, validate_query,
}

first_forbidden-none :
    (tokens : List Text)
    → first_forbidden tokens ≡ none
    → (t : Text) → In t tokens
    → is_forbidden t ≡ false
unfolding first_forbidden
first_forbidden-none [] h t i = elim i [ ]
first_forbidden-none ([] ∷ tokens) h t (here e) = rw e refl
first_forbidden-none ([] ∷ tokens) h t (there i) = first_forbidden-none tokens h t i
first_forbidden-none ((c ∷ token) ∷ tokens) h t i = elim (Bool-cases (is_forbidden (c ∷ token))) [
  | inl e ↦ absurd (cc (rw (e, first_forbidden) at h))
  | inr e ↦ go e i (first_forbidden-none tokens (rw (e, first_forbidden) at h) t)
]
  where
    go :
        is_forbidden (c ∷ token) ≡ false
        → In t ((c ∷ token) ∷ tokens)
        → (In t tokens → is_forbidden t ≡ false)
        → is_forbidden t ≡ false
    go e (here k) ih = subst (λ w. is_forbidden w ≡ false) (sym k) e
    go e (there k) ih = ih k

none-first_forbidden :
    (tokens : List Text)
    → ((t : Text) → In t tokens → is_forbidden t ≡ false)
    → first_forbidden tokens ≡ none
unfolding first_forbidden
none-first_forbidden [] h = refl
none-first_forbidden ([] ∷ tokens) h = none-first_forbidden tokens (λ t i. h t (there i))
none-first_forbidden ((c ∷ token) ∷ tokens) h =
    rw (h (c ∷ token) (here refl)) (none-first_forbidden tokens (λ t i. h t (there i)))

-- What an accepted statement is, `sql` without its last semicolon being the statement.
pub record Harmless (to_uppercase : Text → Text) (sql : Text) : Type 0 where
  pub small : byte_len sql ≤ max_sql_bytes
  pub there_is_one : is_empty (trim_one_trailing_semicolon sql) ≡ false
  pub reads_only :
      (token : Text)
      → In token (tokens_of to_uppercase (trim_one_trailing_semicolon sql))
      → is_forbidden token ≡ false
  pub is_select :
      is_query
        (map ascii_upper (first_token (split is_separator (trim_one_trailing_semicolon sql))))
      ≡ true

at_most : (m n : ℕ) → ltb m n ≡ false → n ≤ m
at_most m n h = ground arith

not_less : (m n : ℕ) → n ≤ m → ltb m n ≡ false
not_less m n h = ground arith

accepted :
    (to_uppercase : Text → Text) (sql : Text)
    → validate_query to_uppercase sql ≡ ok tt
    → Harmless to_uppercase sql
unfolding validate_query
accepted to_uppercase sql h =
    let rest = trim_one_trailing_semicolon sql in
    elim (Bool-cases (ltb max_sql_bytes (byte_len sql))) [
      | inl e ↦ absurd (cc (rw e at h))
      | inr e ↦ elim (Bool-cases (is_empty rest)) [
        | inl f ↦ absurd (cc (rw (e, f) at h))
        | inr f ↦ elim (Option-cases (first_forbidden (tokens_of to_uppercase rest))) [
          | inr (k, g) ↦ absurd (cc (rw (e, f, g) at h))
          | inl g ↦
              elim (Bool-cases
                (is_query (map ascii_upper (first_token (split is_separator rest))))) [
                  | inr q ↦ absurd (cc (rw (e, f, g, q) at h))
                  | inl q ↦ record {
                    small = at_most max_sql_bytes (byte_len sql) e;
                    there_is_one = f;
                    reads_only = first_forbidden-none (tokens_of to_uppercase rest) g;
                    is_select = q;
                  }
                ]
        ]
      ]
    ]

-- A statement passes exactly when it is within the size limit, is not empty, has no forbidden word
-- among its tokens in upper case, and begins with SELECT or WITH.
pub validate_query_iff :
    (to_uppercase : Text → Text) (sql : Text)
    → (validate_query to_uppercase sql ≡ ok tt) ↔ Harmless to_uppercase sql
unfolding validate_query
validate_query_iff to_uppercase sql = (
  accepted to_uppercase sql,
  λ h. rw (not_less max_sql_bytes (byte_len sql) h.small) (
      rw h.there_is_one (
        rw
          (none-first_forbidden (tokens_of to_uppercase (trim_one_trailing_semicolon sql))
            h.reads_only)
          (rw h.is_select refl))),
)
