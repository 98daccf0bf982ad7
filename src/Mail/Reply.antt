-- ===== src/Mail/Reply.antt =====
-- crates/postblox-mail/src/reply.rs: the headers and the recipients of a reply.
pub mod Recipients
pub mod Headers
pub mod Drafts
use postblox.Common.{
  ℕ, ◌-◌, Bool, true, false, not, ◌&&◌, ◌||◌, Option, none, some, List, [], ◌∷◌, ◌++◌, map,
  if◌then◌else◌, ltb, is_empty, any, take, drop, length, unwrap_or, ◌==◌,
}
use postblox.Common.Text.{
  Text, codes, text_eq, starts_with, ends_with, trim, trim_start, split, split_whitespace, join,
  to_ascii_lowercase,
}

pub record MessageView : Type 0 where
  pub id : ℕ
  pub from_addr : Text
  pub reply_to : Option Text
  pub subject : Option Text
  pub message_id_header : Option Text
  pub references_header : Option Text
  pub to_addrs : List Text
  pub cc_addrs : List Text
  pub text_body : Option Text
  pub html_body : Option Text
  pub internal_date : ℕ

abbrev pub references_message_id_cap : ℕ
references_message_id_cap = 100

-- Each of the first three characters is of its pair.
abbrev is_re : Text → Bool
is_re (r ∷ (e ∷ (c ∷ t))) = (r == b'R' || r == b'r') && ((e == b'E' || e == b'e') && c == b':')
is_re _ = false

unfoldable pub has_re_prefix : Text → Bool
has_re_prefix subject = is_re (trim_start subject)

unfoldable pub re_prefix : Text → Text
re_prefix subject = if has_re_prefix subject then subject else codes "Re: " ++ subject

-- A text that is there and not empty.
abbrev pub non_empty : Option Text → Option Text
non_empty none = none
non_empty (some t) = if is_empty t then none else some t

abbrev pub map_option : (Text → Text) → Option Text → Option Text
map_option f none = none
map_option f (some t) = some (f t)

unfoldable pub primary_reply_target : MessageView → Text
primary_reply_target m = unwrap_or (trim m.from_addr) (non_empty (map_option trim m.reply_to))

abbrev wrap : Text → Text
wrap s =
    if starts_with s (codes "<") && ends_with s (codes ">")
    then s
    else codes "<" ++ (s ++ codes ">")

unfoldable pub angle_wrap : Text → Text
angle_wrap value = wrap (trim value)

abbrev words : Option Text → List Text
words none = []
words (some s) = split_whitespace s

abbrev wrapped : Option Text → List Text
wrapped none = []
wrapped (some mid) = angle_wrap mid ∷ []

-- The root and the most recent identifiers of a long chain.
unfoldable pub cap_references : List Text → List Text
cap_references [] = []
cap_references (root ∷ ids) =
    if ltb references_message_id_cap (length (root ∷ ids))
    then root ∷ drop (length (root ∷ ids) - (references_message_id_cap - 1)) (root ∷ ids)
    else root ∷ ids

unfoldable pub build_references : Option Text → Option Text → Text
build_references existing message_id =
    join (codes " ")
      (cap_references (words existing ++ wrapped (non_empty (map_option trim message_id))))

-- An address as the search for duplicates compares it.
abbrev pub lower : Text → Text
lower addr = to_ascii_lowercase (trim addr)

unfoldable pub contains_lower : List Text → Text → Bool
contains_lower seen addr = any (λ s. text_eq s (lower addr)) seen

unfoldable pub push_lower : List Text → Text → List Text
push_lower seen addr =
    if not (is_empty (lower addr)) && not (any (λ s. text_eq s (lower addr)) seen)
    then seen ++ (lower addr ∷ [])
    else seen

unfoldable pub push_all : List Text → List Text → List Text
push_all seen [] = seen
push_all seen (a ∷ addrs) = push_all (push_lower seen a) addrs

-- The loop over the original recipients. An address that is kept is noted in lower case, but not
-- trimmed.
unfoldable pub carry_over : List Text → List Text → List Text
carry_over seen [] = []
carry_over seen (a ∷ addrs) = elim (not (is_empty (trim a)) && not (contains_lower seen a)) [
  | true ↦ a ∷ carry_over (seen ++ (to_ascii_lowercase a ∷ [])) addrs
  | false ↦ carry_over seen addrs
]

-- Where no one is replied to, the first of the others is.
abbrev promote : List Text → List Text → List Text × List Text
promote [] (first ∷ cc) = (first ∷ [], cc)
promote to cc = (to, cc)

abbrev pub target : Text → List Text
target reply_target = if is_empty reply_target then [] else reply_target ∷ []

-- The recipients of a reply, and those of its copies.
unfoldable pub recipients :
    MessageView → (account_email : Text) (reply_all : Bool) → List Text × List Text
recipients m account_email false = (target (primary_reply_target m), [])
recipients m account_email true =
    let to = target (primary_reply_target m) in
    promote to (carry_over (push_all [] (to ++ (account_email ∷ []))) (m.to_addrs ++ m.cc_addrs))
