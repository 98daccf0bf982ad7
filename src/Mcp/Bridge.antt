-- ===== src/Mcp/Bridge.antt =====
-- src/mcp/server.rs: the bridge between an agent and the daemon. The daemon is a parameter that
-- answers by what was sent to it before; what wakes a wait is one answer for each round, the
-- timer before an event, as the biased `select!` has it. Decoding and printing are parameters.
pub mod Exec
pub mod Calls
pub mod Permitted
pub mod Waits
pub mod Tests
pub mod Actor
use postblox.Common.{
  ℕ, zero, suc, ◌+◌, Bool, true, false, not, ◌&&◌, ◌||◌, Option, none, some, unwrap_or, List, [],
  ◌∷◌, ◌++◌, is_some, Result, ok, err, convert_err, if◌then◌else◌, ◌==◌,
}
use postblox.Common.Text.{Text, codes, text_eq}
use postblox.Json.{
  Value, null, string, array, object, nil, cons, Members, end, member, as_str, as_object, as_bool,
  is_null, get, get_field, contains_key, insert,
}
use postblox.Daemon.Op.{Op, op_name}
use postblox.Db.Approvals.{
  ApprovalState, McpApproval, pending, allowed, denied, expired, is_pending,
}
use postblox.Ipc.Hub.{Topic, mcp_approval_requested, mcp_approval_decided}
use postblox.Ipc.Hub as Hub
use postblox.Mcp.Gates.{McpGate, GateDecision, decide}
use postblox.Mcp.Protocol.{
  Incoming, notification, response, JsonRpcError, invalid_params, method_not_found, object_params,
  initialize_result, success_response, error_response, parse_line,
}
use postblox.Mcp.Protocol as Protocol
use postblox.Mcp.Tools.Catalogue.{ToolSpec, find_tool}
use postblox.Mcp.Tools.{validate_arguments}
use postblox.Mcp.Bridge.Exec.{
  BridgeError, daemon, bad_daemon_response, to_json_rpc, Event, Wake, elapsed, received, Request,
  DaemonBridge, M, ◌>>=◌, pure, fail, decoded, ask, subscribe, wake, Sent,
}

-- The parsers and printers of the libraries, and the version of the package
pub record Codec : Type 0 where
  pub from_str : Text → Result Text Value
  pub print : Value → Text
  pub pretty : Value → Text
  pub gates : Value → Result Text (List McpGate)
  pub approval : Value → Result Text McpApproval
  pub uuid_text : ℕ → Text
  pub parse_uuid : Text → Option ℕ
  pub parse_rfc3339 : Text → Option ℕ
  pub version : Text

abbrev pub json_option : (Text → Result Text Value) → Text → Option Value
json_option from_str t = elim (from_str t) [ ok v ↦ some v | err e ↦ none ]

-- `ApprovalState::from_str`
unfoldable pub approval_state : Text → Option ApprovalState
approval_state s =
    if text_eq s (codes "pending")
    then some pending
    else if text_eq s (codes "allowed")
    then some allowed
    else if text_eq s (codes "denied")
    then some denied
    else if text_eq s (codes "expired")
    then some expired
    else none

abbrev pub actor : ToolSpec → Value
actor tool = string (codes "mcp:" ++ tool.name)

abbrev keep_field : Members → Text → Members → Members
keep_field args key fields = elim (get key args) [ none ↦ fields | some v ↦ insert key v fields ]

abbrev summary_fields : Option Members → Members
summary_fields none = end
summary_fields (some args) = keep_field args (codes "subject") (
    keep_field args (codes "draft_id")
      (keep_field args (codes "account_id") (keep_field args (codes "id") end)))

abbrev summary_text : (Value → Text) → ToolSpec → Members → Text
summary_text print tool end = codes "MCP tool " ++ (tool.name ++ codes " requested")
summary_text print tool fields =
    codes "MCP tool " ++ (tool.name ++ (codes " requested with " ++ print (object fields)))

unfoldable pub approval_summary : (Value → Text) → ToolSpec → Value → Text
approval_summary print tool arguments =
    summary_text print tool (summary_fields (as_object arguments))

abbrev keep_member : Members → Text → Members → Members
keep_member payload key redacted = keep_field payload key redacted

abbrev redacted : Option Members → Value
redacted none = object end
redacted (some payload) = object (
    keep_member payload (codes "summary") (
      keep_member payload (codes "state")
        (keep_member payload (codes "tool") (keep_member payload (codes "approval_id") end))))

unfoldable pub forward_event_data : Event → Value
forward_event_data event =
    if not (text_eq event.topic (Hub.as_str mcp_approval_requested))
    then event.body
    else redacted (as_object event.body)

abbrev pub tool_result : (Value → Text) → Value → Value
tool_result pretty value = object (
    member (codes "content")
      (array (
        cons
          (object (
            member (codes "text") (string (pretty value))
              (member (codes "type") (string (codes "text")) end)))
          nil))
      (member (codes "structuredContent") value end))

abbrev then_option {ℓ κ} : {A : Type ℓ} {B : Type κ} → Option A → (A → Option B) → Option B
then_option none f = none
then_option (some a) f = f a

abbrev state_for : (id : ℕ) → Option ℕ → Option Value → Option ApprovalState
state_for id none state = none
state_for id (some event_id) state =
    if event_id == id then then_option (then_option state as_str) approval_state else none

unfoldable pub match_decided_event : (Text → Option ℕ) → ℕ → Event → Option ApprovalState
match_decided_event parse_uuid id event = then_option (as_object event.body) λ payload.
    state_for id (then_option (then_option (get (codes "approval_id") payload) as_str) parse_uuid)
      (get (codes "state") payload)

abbrev pub event_is_lagged : Event → Bool
event_is_lagged event = elim (as_object event.body) [
  | none ↦ false
  | some payload ↦ contains_key (codes "lagged") payload
]

abbrev pub with_actor : ToolSpec → Value → Value
with_actor tool (object ms) = object (insert (codes "_actor") (actor tool) ms)
with_actor tool v = v

abbrev pub forwarded : ToolSpec → Value → Request
forwarded tool arguments = record { op = op_name tool.op; args = with_actor tool arguments }

abbrev pub list_gates : ToolSpec → Request
list_gates tool = record {
  op = codes "mcp.gate.list";
  args = object (member (codes "tool") (string tool.name) end);
}

abbrev pub context : Text → Text → Text
context op e = op ++ (codes ": " ++ e)
