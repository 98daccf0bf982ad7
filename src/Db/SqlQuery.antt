-- ===== src/Db/SqlQuery.antt =====
-- src/db/sql_query.rs: the filter in front of the read-only queries of agents. `str::to_uppercase`
-- beyond ASCII is a table of the standard library: the parameter `to_uppercase`.
pub mod Accepted
use postblox.Common.{
  ℕ, ◌*◌, ◌-◌, ◌≤◌, ◌≡◌, refl, sym, ap, ◌∙◌, subst, ◌↔◌, Bool, true, false, not, ◌&&◌, ◌||◌, Option,
  none, some, List, [], ◌∷◌, map, Result, ok, err, ◌==◌, ltb, any, is_empty, reverse, if◌then◌else◌,
  unwrap_or, inl, inr, Bool-cases, Option-cases, In, here, there, arith, ◌⊎◌, ◌>>=◌, ◌>>◌,
  or-eq-true, or-eq-false, any_sound, any_complete,
}
use postblox.Common.Text.{
  Text, codes, text_eq, split, trim, trim_end_matches, is_whitespace, byte_len,
  is_ascii_alphanumeric, is_ascii_lowercase,
}
use postblox.Common.Text.Equality.{text_eq_iff}

pub data SqlError : Type 0 where
  too_long : (bytes : ℕ) → SqlError
  empty_statement : SqlError
  forbidden_keyword : Text → SqlError
  not_a_query : SqlError

abbrev pub max_sql_bytes : ℕ
max_sql_bytes = 16 * 1024

abbrev pub forbidden_keywords : List Text
forbidden_keywords =
    codes "INSERT"
    ∷ (codes "UPDATE"
        ∷ (codes "DELETE"
            ∷ (codes "REPLACE"
                ∷ (codes "MERGE"
                    ∷ (codes "CREATE"
                        ∷ (codes "DROP"
                            ∷ (codes "ALTER"
                                ∷ (codes "TRUNCATE"
                                    ∷ (codes "ATTACH"
                                        ∷ (codes "DETACH"
                                            ∷ (codes "VACUUM"
                                                ∷ (codes "REINDEX"
                                                    ∷ (codes "BEGIN"
                                                        ∷ (codes "COMMIT"
                                                            ∷ (codes "ROLLBACK"
                                                            ∷ (codes "SAVEPOINT"
                                                            ∷ (codes "RELEASE"
                                                            ∷ (codes "PRAGMA" ∷ []))))))))))))))))))

abbrev pub is_separator : ℕ → Bool
is_separator c = not (is_ascii_alphanumeric c) && not (c == b'_')

abbrev pub ascii_upper : ℕ → ℕ
ascii_upper c = if is_ascii_lowercase c then c - 32 else c

abbrev without_semicolon : Text → List ℕ → Text
without_semicolon trimmed [] = trimmed
without_semicolon trimmed (last ∷ before) =
    if last == b';' then trim_end_matches is_whitespace (reverse before) else trimmed

unfoldable pub trim_one_trailing_semicolon : Text → Text
trim_one_trailing_semicolon sql = without_semicolon (trim sql) (reverse (trim sql))

abbrev pub is_forbidden : Text → Bool
is_forbidden token = any (λ keyword. text_eq keyword token) forbidden_keywords

-- The first token that is a keyword of the list; empty tokens are none.
unfoldable pub first_forbidden : List Text → Option Text
first_forbidden [] = none
first_forbidden (token ∷ tokens) =
    let rest = first_forbidden tokens in
    if is_empty token then rest else if is_forbidden token then some token else rest

unfoldable pub first_token : List Text → Text
first_token [] = []
first_token (token ∷ tokens) =
    let rest = first_token tokens in if is_empty token then rest else token

abbrev is_query : Text → Bool
is_query token = text_eq token (codes "SELECT") || text_eq token (codes "WITH")

abbrev refuse : Option Text → Result SqlError (Unit {0})
refuse none = ok tt
refuse (some keyword) = err (forbidden_keyword keyword)

abbrev accept : Bool → SqlError → Result SqlError (Unit {0})
accept true e = ok tt
accept false e = err e

module _ (to_uppercase : Text → Text) where
  abbrev pub tokens_of : Text → List Text
  tokens_of sql = split is_separator (to_uppercase sql)

  abbrev scan : Text → Result SqlError (Unit {0})
  scan sql = do
    accept (not (is_empty sql)) empty_statement
    refuse (first_forbidden (tokens_of sql))
    accept (is_query (map ascii_upper (first_token (split is_separator sql)))) not_a_query

  unfoldable pub validate_query : Text → Result SqlError (Unit {0})
  validate_query sql = do
    accept (not (ltb max_sql_bytes (byte_len sql))) (too_long (byte_len sql))
    scan (trim_one_trailing_semicolon sql)
