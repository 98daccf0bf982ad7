-- ===== src/Mail/Reply/Drafts.antt =====
-- crates/postblox-mail/src/reply.rs: the drafts, with their bodies. `char::to_lowercase` and the date
-- format of chrono are the parameters `char_lowercase` and `format_date`.
use postblox.Common.{
  ℕ, Bool, ◌&&◌, ◌||◌, Option, none, some, List, [], ◌∷◌, ◌++◌, map, if◌then◌else◌, take, unwrap_or,
  ◌==◌,
}
use postblox.Common.Text.{Text, codes, starts_with, trim_start, split, join}
use postblox.Mail.Reply.{
  MessageView, non_empty, map_option, recipients, re_prefix, angle_wrap, build_references,
}

pub record ReplyDraft : Type 0 where
  pub to : List Text
  pub cc : List Text
  pub subject : Text
  pub in_reply_to : Text
  pub references : Text
  pub quoted_body : Text

pub record ForwardAttachmentRef : Type 0 where
  pub message_id : ℕ
  pub attachment_id : ℕ
  pub filename : Text
  pub content_type : Text
  pub size_bytes : ℕ

pub record ForwardDraft : Type 0 where
  pub to : List Text
  pub subject : Text
  pub forwarded_body : Text
  pub forwarded_attachments : List ForwardAttachmentRef

-- `text.replace("\r\n", "\n")`
unfoldable pub unix_lines : Text → Text
unix_lines [] = []
unix_lines (c ∷ []) = c ∷ []
unix_lines (c ∷ (d ∷ t)) =
    let rest = unix_lines (d ∷ t) in if c == 13 && d == 10 then rest else c ∷ rest

abbrev body_of : Option Text → Option Text → Text
body_of (some text) html = unix_lines text
body_of none (some html) = codes "[HTML body — quoted text unavailable]"
body_of none none = []

unfoldable pub body_for_quote : MessageView → Text
body_for_quote m = body_of (non_empty m.text_body) (non_empty m.html_body)

unfoldable pub prefix_each_line : Text → Text → Text
prefix_each_line text prefix =
    join (codes "\r\n") (map (λ line. prefix ++ line) (split (λ c. c == 10) text))

abbrev pub attachment_refs : ℕ → List (ℕ × Text × Text × ℕ) → List ForwardAttachmentRef
attachment_refs id [] = []
attachment_refs id ((attachment_id, filename, content_type, size_bytes) ∷ rest) =
    record {
      message_id = id;
      attachment_id = attachment_id;
      filename = filename;
      content_type = content_type;
      size_bytes = size_bytes;
    }
    ∷ attachment_refs id rest

module _ (char_lowercase : ℕ → Text) (format_date : ℕ → Text) where
  abbrev lowercase : Text → Text
  lowercase [] = []
  lowercase (c ∷ t) = char_lowercase c ++ lowercase t

  unfoldable pub has_fwd_prefix : Text → Bool
  has_fwd_prefix subject =
      let start = lowercase (take 4 (trim_start subject)) in
      starts_with start (codes "fwd:") || starts_with start (codes "fw:")

  unfoldable pub fwd_prefix : Text → Text
  fwd_prefix subject = if has_fwd_prefix subject then subject else codes "Fwd: " ++ subject

  unfoldable pub quote_body : MessageView → Text
  quote_body m =
      codes "On "
      ++ (format_date m.internal_date
          ++ (codes ", "
              ++ (m.from_addr
                  ++ (codes " wrote:\r\n" ++ prefix_each_line (body_for_quote m) (codes "> ")))))

  unfoldable pub forward_body : MessageView → Text
  forward_body m =
      codes "---------- Forwarded message ----------\r\n"
      ++ (codes "From: "
          ++ (m.from_addr
              ++ (codes "\r\nDate: "
                  ++ (format_date m.internal_date
                      ++ (codes "\r\nSubject: "
                          ++ (unwrap_or [] m.subject
                              ++ (codes "\r\nTo: "
                                  ++ (join (codes ", ") m.to_addrs
                                      ++ (codes "\r\n\r\n" ++ body_for_quote m)))))))))

  unfoldable pub reply_draft : MessageView → (account_email : Text) (reply_all : Bool) → ReplyDraft
  reply_draft m account_email reply_all =
      let (to, cc) = recipients m account_email reply_all in
      record {
        to = to;
        cc = cc;
        subject = re_prefix (unwrap_or [] m.subject);
        in_reply_to = unwrap_or [] (map_option angle_wrap m.message_id_header);
        references = build_references m.references_header m.message_id_header;
        quoted_body = quote_body m;
      }

  unfoldable pub forward_draft : MessageView → List (ℕ × Text × Text × ℕ) → ForwardDraft
  forward_draft m attachments = record {
    to = [];
    subject = fwd_prefix (unwrap_or [] m.subject);
    forwarded_body = forward_body m;
    forwarded_attachments = attachment_refs m.id attachments;
  }
