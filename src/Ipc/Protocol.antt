-- ===== src/Ipc/Protocol.antt =====
-- src/ipc/protocol.rs: requests, responses and errors.
use postblox.Common.{ℕ, Bool, true, false, Option, none, some, ◌++◌}
use postblox.Common.Text.{Text, codes}
use postblox.Json.{Value, null}

pub record Request : Type 0 where
  pub id : ℕ
  pub op : Text
  pub args : Value

pub record RpcError : Type 0 where
  pub code : Text
  pub message : Text

pub record Response : Type 0 where
  pub id : ℕ
  pub is_ok : Bool
  pub payload : Value
  pub error : Option RpcError

abbrev pub rpc_error : Text → Text → RpcError
rpc_error code message = record { code = code; message = message }

abbrev pub unknown_op_error : Text → RpcError
unknown_op_error op = rpc_error (codes "unknown_op") (codes "unknown op '" ++ (op ++ codes "'"))

abbrev pub bad_args : Text → RpcError
bad_args message = rpc_error (codes "bad_args") message

abbrev pub response_ok : ℕ → Value → Response
response_ok id payload = record { id = id; is_ok = true; payload = payload; error = none }

abbrev pub response_err : ℕ → RpcError → Response
response_err id e = record { id = id; is_ok = false; payload = null; error = some e }
