-- ===== src/Attachments.antt =====
-- src/attachments.rs: the names under which attachments are stored. `Path::file_name` is that of
-- Unix paths.
pub mod Names
pub mod Tests
use postblox.Common.{
  ℕ, Bool, true, false, not, ◌&&◌, ◌||◌, Option, none, some, List, [], ◌∷◌, map, ◌==◌, any, select,
  take, if◌then◌else◌, is_empty, unwrap_or,
}
use postblox.Common.Text.{
  Text, codes, text_eq, split, trim, trim_matches, starts_with, ends_with, to_ascii_lowercase,
  is_ascii_alphanumeric,
}

abbrev last : List Text → Option Text
last [] = none
last (t ∷ []) = some t
last (t ∷ (u ∷ ts)) = last (u ∷ ts)

abbrev is_name : Text → Bool
is_name t = not (is_empty t) && not (text_eq t (codes "."))

abbrev unless_parent : Option Text → Option Text
unless_parent none = none
unless_parent (some t) = if text_eq t (codes "..") then none else some t

-- The last component of a path, if it is a name.
unfoldable pub file_name : Text → Option Text
file_name path = unless_parent (last (select is_name (split (λ c. c == b'/') path)))

abbrev pub is_safe : ℕ → Bool
is_safe c = is_ascii_alphanumeric c || (c == b'.' || (c == b'-' || (c == b'_' || c == b' ')))

abbrev replaced : ℕ → ℕ
replaced c = if is_safe c then c else b'_'

abbrev or_default : Text → Text
or_default out = if is_empty out then codes "attachment.bin" else out

unfoldable pub sanitize_filename : Text → Text
sanitize_filename filename =
    let leaf = unwrap_or filename (file_name filename) in
    or_default (trim (trim_matches (λ c. c == b'.' || c == b' ') (map replaced (take 120 leaf))))

abbrev first_piece : List Text → Text
first_piece [] = []
first_piece (t ∷ ts) = t

abbrev is_one_of : List Text → Text → Bool
is_one_of names t = any (λ n. text_eq t n) names

unfoldable pub is_text_like : Text → Bool
is_text_like content_type =
    let media_type =
      to_ascii_lowercase (trim (first_piece (split (λ c. c == b';') content_type))) in
    starts_with media_type (codes "text/")
    || (is_one_of
          (codes "application/json"
            ∷ (codes "application/xml"
                ∷ (codes "application/csv"
                    ∷ (codes "application/x-ndjson" ∷ (codes "image/svg+xml" ∷ [])))))
          media_type
        || (ends_with media_type (codes "+json") || ends_with media_type (codes "+xml")))
