-- ===== src/Mail/Tests.antt =====
-- A message with a subject and a reply header, among two known threads.
use postblox.Common.{
  ◌≡◌, ◌≢◌, ◌↔◌, refl, false, none, some, List, [], ◌∷◌, ◌++◌, In, here, is_empty,
}
use postblox.Common.Text.{Text, codes, trim}
use postblox.Json.{null}
use postblox.Mail.{ParsedEmail}
use postblox.Mail.Threading.{Unicode, ThreadRef, new, assign_thread}
use postblox.Mail.Threading.Assignment.{Linked, assign_thread-new_iff}
use postblox.Mail.Reply.{
  MessageView, lower, target, primary_reply_target, contains_lower, push_lower, push_all,
  carry_over, recipients,
}
use postblox.Mail.Reply.Recipients.{recipients-In}
use postblox.Mail.ReplyExtract.{is_quote_line, kept_lines}
use postblox.Mail.ReplyExtract.Cutoff.{FirstCut, kept_lines_iff}

abbrev unicode : Unicode
unicode = record { to_lowercase = λ t. t; is_uppercase = λ c. false }

abbrev reply : ParsedEmail
reply = record {
  message_id = some (codes "c@x");
  in_reply_to = some (codes "b@x");
  references = codes "a@x" ∷ [];
  from = codes "a@x";
  to = [];
  cc = [];
  subject = some (codes "Re: lunch");
  text_body = none;
  html_body = none;
  raw_headers = null;
  attachments = [];
}

abbrev first_thread : ThreadRef
first_thread = record {
  thread_id = 1;
  message_ids = codes "a@x" ∷ [];
  subject = codes "lunch";
  last_message_at = 10;
}

abbrev second_thread : ThreadRef
second_thread = record {
  thread_id = 2;
  message_ids = codes "b@x" ∷ [];
  subject = codes "tea";
  last_message_at = 5;
}

abbrev threads : List ThreadRef
threads = first_thread ∷ (second_thread ∷ [])

assign_thread-new_iff_example :
    (assign_thread unicode 20 reply threads ≡ new)
    ↔ ((t : ThreadRef) → In t threads → ¬ Linked unicode 20 reply t)
assign_thread-new_iff_example = assign_thread-new_iff unicode 20 reply threads

abbrev original : MessageView
original = record {
  id = 1;
  from_addr = codes "a@x";
  reply_to = none;
  subject = some (codes "lunch");
  message_id_header = none;
  references_header = none;
  to_addrs = codes "Me@x" ∷ (codes "b@x" ∷ []);
  cc_addrs = codes "A@x" ∷ [];
  text_body = none;
  html_body = none;
  internal_date = 0;
}

recipients-In_example :
    In (codes "b@x") (original.to_addrs ++ original.cc_addrs)
    × (is_empty (trim (codes "b@x")) ≡ false)
    × (lower (codes "me@x") ≢ lower (codes "b@x"))
    × ((b : Text) → In b (target (primary_reply_target original)) → lower b ≢ lower (codes "b@x"))
unfolding recipients carry_over push_all push_lower contains_lower primary_reply_target
recipients-In_example = recipients-In original (codes "me@x") (codes "b@x") (here refl)

abbrev reply_lines : List Text
reply_lines = codes "> so?" ∷ (codes "Yes." ∷ (codes "--" ∷ (codes "Me" ∷ [])))

kept_lines_iff_example :
    (before : List Text) × FirstCut reply_lines before
    × ((line : Text)
        → In line (kept_lines reply_lines) ↔ (In line before × (is_quote_line line ≡ false)))
kept_lines_iff_example = kept_lines_iff reply_lines
