-- ===== src/Imap.antt =====
-- src/imap/mod.rs and src/imap/error.rs: the errors of the transport, and the port check.
pub mod Client
use postblox.Common.{ℕ, Result, ok, err, ℤ, pos, negsuc, leb, if◌then◌else◌}
use postblox.Common.Text.{Text}

pub data ImapError : Type 0 where
  io tls protocol auth unsupported invalid_name timeout : Text → ImapError
  invalid_port : ℤ → ImapError

unfoldable pub port_u16 : ℤ → Result ImapError ℕ
port_u16 (pos n) = if leb n 65535 then ok n else err (invalid_port (pos n))
port_u16 (negsuc n) = err (invalid_port (negsuc n))
