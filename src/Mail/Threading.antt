-- ===== src/Mail/Threading.antt =====
-- crates/postblox-mail/src/threading.rs: the thread that a message joins. A time is a number of
-- nanoseconds, and an identifier a number. `str::to_lowercase` and `char::is_uppercase` beyond
-- ASCII are tables of the standard library: the parameter `unicode`.
pub mod Subjects
pub mod Lookups
pub mod Assignment
use postblox.Common.{
  ℕ, suc, zero, ◌-◌, ◌*◌, Bool, true, false, not, ◌&&◌, Option, none, some, List, [], ◌∷◌, reverse,
  ltb, coalesce, any, select, is_empty, take, drop, length, if◌then◌else◌,
}
use postblox.Common.Text.{Text, codes, text_eq, eq_ignore_ascii_case, trim, trim_start}
use postblox.Mail.{ParsedEmail}

pub record Unicode : Type 0 where
  pub to_lowercase : Text → Text
  pub is_uppercase : ℕ → Bool

pub record ThreadRef : Type 0 where
  pub thread_id : ℕ
  pub message_ids : List Text
  pub subject : Text
  pub last_message_at : ℕ

pub data ThreadMatch : Type 0 where
  existing : ℕ → ThreadMatch
  new : ThreadMatch

-- How many bytes of a reply or forward prefix the text begins with; 0 ends the loop.
unfoldable pub prefix_len : Text → ℕ
prefix_len s =
    if eq_ignore_ascii_case (take 3 s) (codes "re:")
    then 3
    else if eq_ignore_ascii_case (take 4 s) (codes "fwd:")
    then 4
    else if eq_ignore_ascii_case (take 3 s) (codes "fw:")
    then 3
    else 0

-- The loop of `normalize_subject`. Each round takes at least three characters off, so that the
-- length of the text is fuel enough.
unfoldable pub strip_prefixes : ℕ → Text → Text
strip_prefixes zero s = s
strip_prefixes (suc fuel) s = elim (prefix_len s) [
  | zero ↦ s
  | suc k ↦ strip_prefixes fuel (trim_start (drop (suc k) s))
]

-- `id` is one of the identifiers of the thread.
abbrev pub has_id : Text → ThreadRef → Bool
has_id id t = any (λ i. text_eq i id) t.message_ids

-- The first thread that has the identifier.
unfoldable pub find_by_id : Text → List ThreadRef → Option ThreadRef
find_by_id id [] = none
find_by_id id (t ∷ ts) = let rest = find_by_id id ts in if has_id id t then some t else rest

unfoldable pub find_by_ids : List Text → List ThreadRef → Option ThreadRef
find_by_ids [] ts = none
find_by_ids (id ∷ ids) ts = coalesce (find_by_id id ts) (find_by_ids ids ts)

-- `max_by_key(|t| t.last_message_at)`: of several greatest, the last.
abbrev newer : ThreadRef → Option ThreadRef → Option ThreadRef
newer t none = some t
newer t (some u) = if ltb u.last_message_at t.last_message_at then some t else some u

unfoldable pub latest : List ThreadRef → Option ThreadRef
latest [] = none
latest (t ∷ ts) = newer t (latest ts)

abbrev pub seven_days : ℕ
seven_days = 7 * 86400 * 1000000000

abbrev pub find_reply_to : Option Text → List ThreadRef → Option ThreadRef
find_reply_to none ts = none
find_reply_to (some reply_to) ts = find_by_id reply_to ts

-- The first of the three sources that finds a thread decides.
abbrev choose : Option ThreadRef → Option ThreadRef → Option ThreadRef → ThreadMatch
choose (some t) _ _ = existing t.thread_id
choose none (some t) _ = existing t.thread_id
choose none none (some t) = existing t.thread_id
choose none none none = new

module _ (unicode : Unicode) where
  open unicode use {to_lowercase, is_uppercase}

  unfoldable pub normalize_subject : Text → Text
  normalize_subject subject =
      let s = strip_prefixes (length (trim subject)) (trim subject) in
      if text_eq s subject && not (any is_uppercase s) then s else to_lowercase s

  -- `cutoff` is seven days before now.
  abbrev pub subject_fits : ℕ → Text → ThreadRef → Bool
  subject_fits cutoff normalized t =
      ltb cutoff t.last_message_at && text_eq (normalize_subject t.subject) normalized

  unfoldable pub find_by_subject : ℕ → Option Text → List ThreadRef → Option ThreadRef
  find_by_subject now none ts = none
  find_by_subject now (some subject) ts =
      let normalized = normalize_subject subject in
      if is_empty normalized
      then none
      else latest (select (subject_fits (now - seven_days) normalized) ts)

  unfoldable pub assign_thread : ℕ → ParsedEmail → List ThreadRef → ThreadMatch
  assign_thread now message ts =
      choose (find_reply_to message.in_reply_to ts) (find_by_ids (reverse message.references) ts)
        (find_by_subject now message.subject ts)
