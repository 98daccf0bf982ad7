-- ===== src/Tui/Composer.antt =====
-- src/tui/app.rs: the state of the composer, and what its keys do to it.
pub mod Edits
pub mod Keys
pub mod Valid
pub mod Presses
pub mod Words
pub mod Tests
pub mod Undo
use postblox.Common.{
  ℕ, zero, suc, ◌+◌, ◌-◌, Bool, true, false, not, ◌&&◌, ◌||◌, Option, none, some, is_some,
  unwrap_or, List, [], ◌∷◌, ◌++◌, map, length, ltb, leb, ◌==◌, if◌then◌else◌, min, max, is_empty,
  any, select,
}
use postblox.Common.Text.{Text, codes, trim, split, join}
use postblox.Tui.Lines.{LineCache, from_text, line_count, line_start, line_end, line_for_cursor}

pub data ComposeField : Type 0 where
  to cc bcc subject body : ComposeField

unfoldable pub next : ComposeField → ComposeField
next to = cc
next cc = bcc
next bcc = subject
next subject = body
next body = to

unfoldable pub previous : ComposeField → ComposeField
previous to = body
previous cc = to
previous bcc = cc
previous subject = bcc
previous body = subject

pub record ComposerAttachment : Type 0 where
  pub path : Text
  pub filename : Text
  pub size_bytes : ℕ
  pub content_type : Text

pub record ComposerPrefill : Type 0 where
  pub in_reply_to_msg : Option ℕ
  pub to_addrs : List Text
  pub cc_addrs : List Text
  pub bcc_addrs : List Text
  pub subject : Option Text
  pub body : Option Text
  pub in_reply_to : Option Text
  pub references_header : Option Text
  pub attachments : List ComposerAttachment

pub record ComposerDraft : Type 0 where
  pub account_id : ℕ
  pub in_reply_to_msg : Option ℕ
  pub to_addrs : List Text
  pub cc_addrs : List Text
  pub bcc_addrs : List Text
  pub subject : Option Text
  pub text_body : Option Text
  pub html_body : Option Text
  pub attachments : List ComposerAttachment
  pub in_reply_to : Option Text
  pub references_header : Option Text

pub record ComposerState : Type 0 where
  pub account_id : ℕ
  pub draft_id : Option ℕ
  pub focused : ComposeField
  pub to : Text
  pub to_cursor : ℕ
  pub cc : Text
  pub cc_cursor : ℕ
  pub bcc : Text
  pub bcc_cursor : ℕ
  pub subject : Text
  pub subject_cursor : ℕ
  pub body : Text
  pub body_cursor : ℕ
  pub body_line_cache : LineCache
  pub body_scroll : ℕ
  pub body_selection_anchor : Option ℕ
  pub body_selection_focus : ℕ
  pub body_preferred_column : Option ℕ
  pub dirty : Bool
  pub attachments : List ComposerAttachment
  pub selected_attachment : ℕ
  pub attach_input : Text
  pub in_reply_to_msg : Option ℕ
  pub in_reply_to : Option Text
  pub references_header : Option Text

unfoldable pub new : ℕ → ComposerState
new account_id = record {
  account_id = account_id;
  draft_id = none;
  focused = to;
  to = [];
  to_cursor = 0;
  cc = [];
  cc_cursor = 0;
  bcc = [];
  bcc_cursor = 0;
  subject = [];
  subject_cursor = 0;
  body = [];
  body_cursor = 0;
  body_line_cache = from_text [];
  body_scroll = 0;
  body_selection_anchor = none;
  body_selection_focus = 0;
  body_preferred_column = none;
  dirty = false;
  attachments = [];
  selected_attachment = 0;
  attach_input = [];
  in_reply_to_msg = none;
  in_reply_to = none;
  references_header = none;
}

abbrev pub max_compose_header_chars : ℕ
max_compose_header_chars = 4096

abbrev pub max_compose_body_chars : ℕ
max_compose_body_chars = 100000

-- `value.split([',', ';', '\n'])`, trimmed, without the empty parts
unfoldable pub split_addresses : Text → List Text
split_addresses value =
    select (λ part. not (is_empty part))
      (map trim (split (λ c. c == b',' || (c == b';' || c == b'\n')) value))

unfoldable pub join_addresses : List Text → Text
join_addresses values = join (codes ", ") values

abbrev pub non_empty_string : Text → Option Text
non_empty_string value = if is_empty (trim value) then none else some value

unfoldable pub has_content : ComposerState → Bool
has_content c =
    any (λ value. not (is_empty (trim value)))
      (c.to ∷ (c.cc ∷ (c.bcc ∷ (c.subject ∷ (c.body ∷ [])))))
    || not (is_empty c.attachments)

unfoldable pub draft : ComposerState → ComposerDraft
draft c = record {
  account_id = c.account_id;
  in_reply_to_msg = c.in_reply_to_msg;
  to_addrs = split_addresses c.to;
  cc_addrs = split_addresses c.cc;
  bcc_addrs = split_addresses c.bcc;
  subject = non_empty_string c.subject;
  text_body = non_empty_string c.body;
  html_body = none;
  attachments = c.attachments;
  in_reply_to = c.in_reply_to;
  references_header = c.references_header;
}

abbrev pub refresh_body_line_cache : ComposerState → ComposerState
refresh_body_line_cache c = record c { body_line_cache = from_text c.body }

abbrev pub with_addresses : List Text → List Text → List Text → ComposerState → ComposerState
with_addresses to_addrs cc_addrs bcc_addrs c = record c {
  to = join_addresses to_addrs;
  to_cursor = length (join_addresses to_addrs);
  cc = join_addresses cc_addrs;
  cc_cursor = length (join_addresses cc_addrs);
  bcc = join_addresses bcc_addrs;
  bcc_cursor = length (join_addresses bcc_addrs);
}

abbrev pub with_subject : Option Text → ComposerState → ComposerState
with_subject none c = c
with_subject (some s) c = record c { subject = s; subject_cursor = length s }

abbrev pub with_body : Option Text → ComposerState → ComposerState
with_body none c = c
with_body (some b) c = refresh_body_line_cache (record c { body = b; body_cursor = length b })

abbrev pub mark_content : ComposerState → ComposerState
mark_content c = record c { dirty = has_content c }

unfoldable pub from_prefill : ℕ → ComposerPrefill → ComposerState
from_prefill account_id prefill =
    mark_content
      (record (with_body prefill.body (
        with_subject prefill.subject
          (with_addresses prefill.to_addrs prefill.cc_addrs prefill.bcc_addrs (new account_id)))) {
            attachments = prefill.attachments;
            in_reply_to_msg = prefill.in_reply_to_msg;
            in_reply_to = prefill.in_reply_to;
            references_header = prefill.references_header;
            focused = body;
          })

-- A draft that is opened again has its cursor at the start of the body and the last line in view.
abbrev pub with_draft_body : Option Text → ComposerState → ComposerState
with_draft_body none c = c
with_draft_body (some b) c = record c {
  body = b;
  body_cursor = 0;
  body_line_cache = from_text b;
  body_scroll = line_count (from_text b) - 1;
}

-- `enter_composer_for_existing_draft`, the composer that it opens
unfoldable pub from_existing_draft : ℕ → ComposerDraft → ComposeField → ComposerState
from_existing_draft draft_id d focus =
    record (with_draft_body d.text_body (
      with_subject d.subject
        (with_addresses d.to_addrs d.cc_addrs d.bcc_addrs (new d.account_id)))) {
          draft_id = some draft_id;
          in_reply_to_msg = d.in_reply_to_msg;
          in_reply_to = d.in_reply_to;
          references_header = d.references_header;
          attachments = d.attachments;
          focused = focus;
          dirty = false;
        }
