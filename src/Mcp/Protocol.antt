-- ===== src/Mcp/Protocol.antt =====
-- src/mcp/protocol.rs: the frames of JSON-RPC. `serde_json::from_str` and the version of the
-- package are parameters.
use postblox.Common.{
  ℕ, Bool, true, false, not, ◌||◌, Option, none, some, unwrap_or, ◌++◌, Result, ok, err,
  if◌then◌else◌, is_empty,
}
use postblox.Common.Text.{Text, codes, text_eq}
use postblox.Json.{
  Value, null, bool, number, string, object, Members, end, member, neg_int, as_str, as_object, get,
  contains_key,
}

abbrev pub jsonrpc_version : Text
jsonrpc_version = codes "2.0"

abbrev pub mcp_protocol_version : Text
mcp_protocol_version = codes "2025-06-18"

pub data Incoming : Type 0 where
  request : (id : Value) → (method : Text) → (params : Value) → Incoming
  notification : (method : Text) → (params : Value) → Incoming
  response : Incoming

pub record JsonRpcError : Type 0 where
  pub code : Value
  pub message : Text
  pub more : Option Value

-- A negative number is kept by its distance below -1: this one is -(n + 1).
abbrev error_code : ℕ → Value
error_code n = number (neg_int n)

abbrev pub parse_error : Text → JsonRpcError
parse_error message = record { code = error_code 32699; message = message; more = none }

abbrev pub invalid_request : Text → JsonRpcError
invalid_request message = record { code = error_code 32599; message = message; more = none }

abbrev pub method_not_found : Text → JsonRpcError
method_not_found method = record {
  code = error_code 32600;
  message = codes "method not found: " ++ method;
  more = none;
}

abbrev pub invalid_params : Text → JsonRpcError
invalid_params message = record { code = error_code 32601; message = message; more = none }

abbrev pub internal : Text → JsonRpcError
internal message = record { code = error_code 32602; message = message; more = none }

abbrev pub server_error : Text → Text → JsonRpcError
server_error code message = record {
  code = error_code 31999;
  message = message;
  more = some (object (member (codes "code") (string code) end));
}

-- The error as JSON: no member for data that is absent.
abbrev error_value : JsonRpcError → Option Value → Value
error_value e none =
    object (member (codes "code") e.code (member (codes "message") (string e.message) end))
error_value e (some more) = object (
    member (codes "code") e.code
      (member (codes "data") more (member (codes "message") (string e.message) end)))

abbrev pub success_response : (id result : Value) → Value
success_response id result = object (
    member (codes "id") id
      (member (codes "jsonrpc") (string jsonrpc_version) (member (codes "result") result end)))

abbrev pub error_response : Value → JsonRpcError → Value
error_response id error = object (
    member (codes "error") (error_value error error.more)
      (member (codes "id") id (member (codes "jsonrpc") (string jsonrpc_version) end)))

abbrev pub initialize_result : (version : Text) → Option Text → Value
initialize_result version client_protocol = object (
    member (codes "capabilities")
      (object (member (codes "tools") (object (member (codes "listChanged") (bool false) end)) end))
      (member (codes "protocolVersion") (string (unwrap_or mcp_protocol_version client_protocol)) (
        member (codes "serverInfo")
          (object (
            member (codes "name") (string (codes "postblox-mcp"))
              (member (codes "version") (string version) end)))
          end)))

abbrev pub object_params : Value → Result JsonRpcError Members
object_params null = ok end
object_params (object ms) = ok ms
object_params _ = err (invalid_params (codes "params must be an object"))

abbrev is_valid_id : Value → Bool
is_valid_id (string s) = true
is_valid_id (number n) = true
is_valid_id null = true
is_valid_id _ = false

abbrev text_member : Text → Members → Option Text
text_member key ms = elim (get key ms) [ none ↦ none | some v ↦ as_str v ]

abbrev is_version : Option Text → Bool
is_version none = false
is_version (some v) = text_eq v jsonrpc_version

abbrev non_empty : Option Text → Option Text
non_empty none = none
non_empty (some t) = if is_empty t then none else some t

abbrev identified : Option Value → Text → Value → Result (Option Value × JsonRpcError) Incoming
identified none method params = ok (notification method params)
identified (some id) method params =
    if not (is_valid_id id)
    then err (some id, invalid_request (codes "id must be a string, number, or null"))
    else ok (request id method params)

abbrev classify : Option Text → Members → Result (Option Value × JsonRpcError) Incoming
classify (some method) ms =
    identified (get (codes "id") ms) method (unwrap_or null (get (codes "params") ms))
classify none ms =
    if contains_key (codes "result") ms || contains_key (codes "error") ms
    then ok response
    else err (get (codes "id") ms, invalid_request (codes "method must be a non-empty string"))

abbrev framed : Members → Result (Option Value × JsonRpcError) Incoming
framed ms =
    if is_version (text_member (codes "jsonrpc") ms)
    then classify (non_empty (text_member (codes "method") ms)) ms
    else err (get (codes "id") ms, invalid_request (codes "jsonrpc must be \"2.0\""))

unfoldable pub parse_value : Value → Result (Option Value × JsonRpcError) Incoming
parse_value value = elim (as_object value) [
  | none ↦ err (none, invalid_request (codes "message must be an object"))
  | some ms ↦ framed ms
]

abbrev answered : Result (Option Value × JsonRpcError) Incoming → Result Value Incoming
answered (ok incoming) = ok incoming
answered (err (id, error)) = err (error_response (unwrap_or null id) error)

abbrev read_line : Result Text Value → Result Value Incoming
read_line (ok value) = answered (parse_value value)
read_line (err e) = err (error_response null (parse_error e))

unfoldable pub parse_line : (Text → Result Text Value) → Text → Result Value Incoming
parse_line from_str line = read_line (from_str line)
