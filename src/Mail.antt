-- ===== src/Mail.antt =====
-- The mail crate (crates/postblox-mail/src): the parsed message, and what is computed from it.
pub mod Threading
pub mod Reply
pub mod ReplyExtract
pub mod Tests
use postblox.Common.{ℕ, Option, List}
use postblox.Common.Text.{Text}
use postblox.Json.{Value}

pub data Disposition : Type 0 where
  inline attachment : Disposition

pub record ParsedAttachment : Type 0 where
  pub filename : Text
  pub content_type : Text
  pub content_id : Option Text
  pub disposition : Disposition
  pub bytes : List ℕ

pub record ParsedEmail : Type 0 where
  pub message_id : Option Text
  pub in_reply_to : Option Text
  pub references : List Text
  pub from : Text
  pub to : List Text
  pub cc : List Text
  pub subject : Option Text
  pub text_body : Option Text
  pub html_body : Option Text
  pub raw_headers : Value
  pub attachments : List ParsedAttachment
