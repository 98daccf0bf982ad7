-- ===== src/Mail/ReplyExtract.antt =====
-- crates/postblox-mail/src/reply_extract.rs: the newly written part of a reply. Where the source
-- looks at the lines from an index on, the functions take the list of those lines.
pub mod Cutoff
use postblox.Common.{
  ℕ, zero, suc, Bool, true, false, not, ◌&&◌, ◌||◌, List, [], ◌∷◌, ◌==◌, any, select, take,
  if◌then◌else◌,
}
use postblox.Common.Text.{
  Text, codes, text_eq, starts_with, ends_with, trim, trim_start, split, join, contains_char,
}
use postblox.Mail.Reply.Drafts.{unix_lines}

unfoldable pub is_signature_separator : Text → Bool
is_signature_separator trimmed = text_eq trimmed (codes "--") || text_eq trimmed (0x2014 ∷ [])

unfoldable pub is_wrote_marker : Text → Bool
is_wrote_marker trimmed = starts_with trimmed (codes "On ") && ends_with trimmed (codes "wrote:")

-- A line and up to three more that follow it.
unfoldable pub is_multiline_wrote_marker : List Text → Bool
is_multiline_wrote_marker [] = false
is_multiline_wrote_marker (line ∷ lines) =
    let block = take 4 (line ∷ lines) in
    starts_with (trim line) (codes "On ")
    && (any (λ l. ends_with (trim l) (codes "wrote:")) block && any (contains_char b'@') block)

unfoldable pub is_outlook_header_block : List Text → Bool
is_outlook_header_block (l0 ∷ (l1 ∷ (l2 ∷ (l3 ∷ lines)))) =
    starts_with (trim l0) (codes "From:")
    && (starts_with (trim l1) (codes "Sent:")
        && (starts_with (trim l2) (codes "To:") && starts_with (trim l3) (codes "Subject:")))
is_outlook_header_block _ = false

unfoldable pub is_quote_line : Text → Bool
is_quote_line line = starts_with (trim_start line) (codes ">")

-- Whether the quoted history begins with the first of the lines.
unfoldable pub cuts : List Text → Bool
cuts [] = false
cuts (line ∷ lines) =
    is_signature_separator (trim line)
    || ((is_wrote_marker (trim line) || is_multiline_wrote_marker (line ∷ lines))
        || is_outlook_header_block (line ∷ lines))

unfoldable pub find_cutoff : List Text → ℕ
find_cutoff [] = 0
find_cutoff (line ∷ lines) =
    let rest = find_cutoff lines in if cuts (line ∷ lines) then 0 else suc rest

unfoldable pub kept_lines : List Text → List Text
kept_lines lines = select (λ line. not (is_quote_line line)) (take (find_cutoff lines) lines)

unfoldable pub extract_reply : Text → Text
extract_reply text = trim (join (codes "\n") (kept_lines (split (λ c. c == 10) (unix_lines text))))
