-- ===== src/Auth.antt =====
-- src/auth.rs: what a client authenticates with.
use postblox.Common.{Bool, is_empty}
use postblox.Common.Text.{Text}

pub data CredentialKind : Type 0 where
  password oauth2_bearer : CredentialKind

pub data MailCredential : Type 0 where
  password oauth2_bearer : Text → MailCredential

unfoldable pub kind : MailCredential → CredentialKind
kind (password _) = password
kind (oauth2_bearer _) = oauth2_bearer

unfoldable pub secret : MailCredential → Text
secret (password s) = s
secret (oauth2_bearer s) = s

unfoldable pub has_no_secret : MailCredential → Bool
unfolding secret
has_no_secret c = is_empty (secret c)
