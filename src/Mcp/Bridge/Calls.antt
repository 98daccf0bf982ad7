-- ===== src/Mcp/Bridge/Calls.antt =====
-- src/mcp/server.rs: a tool call, through its gate and its approval, to the daemon. A wait goes
-- round on fuel; `none` says that it still goes on.
use postblox.Common.{
  ℕ, zero, suc, ◌+◌, Bool, false, not, Option, none, some, unwrap_or, ◌++◌, Result, ok, err,
  if◌then◌else◌,
}
use postblox.Common.Text.{Text, codes, text_eq}
use postblox.Json.{
  Value, string, object, Members, end, member, as_str, as_bool, is_null, get, get_field,
}
use postblox.Db.Approvals.{
  ApprovalState, McpApproval, pending, allowed, denied, expired, is_pending,
}
use postblox.Ipc.Hub.{mcp_approval_decided}
use postblox.Daemon.Op.{op_name}
use postblox.Mcp.Gates.{GateDecision, decide}
use postblox.Mcp.Protocol.{
  Incoming, JsonRpcError, invalid_params, method_not_found, object_params, initialize_result,
  success_response, error_response, parse_line,
}
use postblox.Mcp.Tools.Catalogue.{ToolSpec, find_tool}
use postblox.Mcp.Tools.Schema.{list_tools}
use postblox.Mcp.Tools.{validate_arguments}
use postblox.Mcp.Bridge.Exec.{
  BridgeError, daemon, bad_daemon_response, to_json_rpc, Event, Wake, elapsed, received, Request,
  DaemonBridge, M, ◌>>=◌, pure, fail, decoded, ask, subscribe, wake, Sent,
}
use postblox.Mcp.Bridge.{
  Codec, json_option, approval_summary, actor, match_decided_event, event_is_lagged, forwarded,
  list_gates, context, tool_result,
}

module _ (world : DaemonBridge) (codec : Codec) where
  unfoldable pub gate_decision : ToolSpec → Value → M GateDecision
  gate_decision tool arguments = do
    gates ← ask world (list_gates tool)
    gates ← decoded (context (codes "mcp.gate.list")) (codec.gates gates)
    pure (decide (json_option codec.from_str) gates arguments)

  abbrev pub create_request : ToolSpec → Value → Request
  create_request tool arguments = record {
    op = codes "mcp.approval.create";
    args = object (
        member (codes "_actor") (actor tool) (
          member (codes "args") arguments (
            member (codes "summary") (string (approval_summary codec.print tool arguments))
              (member (codes "tool") (string tool.name) end))));
  }

  unfoldable pub create_approval : ToolSpec → Value → M McpApproval
  create_approval tool arguments = do
    value ← ask world (create_request tool arguments)
    decoded (context (codes "mcp.approval.create")) (codec.approval value)

  abbrev pub get_request : ℕ → Request
  get_request id = record {
    op = codes "mcp.approval.get";
    args = object (member (codes "id") (string (codec.uuid_text id)) end);
  }

  abbrev pub found : ℕ → Value → M McpApproval
  found id value =
      if is_null value
      then fail
          (bad_daemon_response (codes "approval " ++ (codec.uuid_text id ++ codes " not found")))
      else decoded (context (codes "mcp.approval.get")) (codec.approval value)

  unfoldable pub get_approval : ℕ → M McpApproval
  get_approval id = do value ← ask world (get_request id); found id value

  abbrev pub expire_request : ℕ → Request
  expire_request id = record {
    op = codes "mcp.approval.decide";
    args = object (
        member (codes "decided_by") (string (codes "mcp:timeout")) (
          member (codes "id") (string (codec.uuid_text id))
            (member (codes "state") (string (codes "expired")) end)));
  }

  abbrev pub was_decided : Value → Bool
  was_decided value = elim (get_field (codes "decided") value) [
    | none ↦ false
    | some v ↦ unwrap_or false (as_bool v)
  ]

  abbrev pub current_state : ℕ → M ApprovalState
  current_state id = do approval ← get_approval id; pure approval.state

  abbrev pub expired_or_current : ℕ → Value → M ApprovalState
  expired_or_current id value = if was_decided value then pure expired else current_state id

  unfoldable pub expire_approval : ℕ → M ApprovalState
  expire_approval id = do value ← ask world (expire_request id); expired_or_current id value

  abbrev pub done : M ApprovalState → M (Option ApprovalState)
  done m = do state ← m; pure (some state)

  -- The subscription was dropped: one read, and an end of the approval that is still open.
  abbrev pub after_drop : ℕ → McpApproval → M (Option ApprovalState)
  after_drop id approval =
      if is_pending approval.state then done (expire_approval id) else pure (some approval.state)

  abbrev pub after_read : McpApproval → M (Option ApprovalState) → M (Option ApprovalState)
  after_read approval again =
      if is_pending approval.state then again else pure (some approval.state)

  abbrev pub after_event :
      ℕ → Event → Option ApprovalState → M (Option ApprovalState) → M (Option ApprovalState)
  after_event id event (some state) again = pure (some state)
  after_event id event none again =
      if event_is_lagged event
      then (get_approval id >>= λ approval. after_read approval again)
      else again

  abbrev pub woken : ℕ → M (Option ApprovalState) → Wake → M (Option ApprovalState)
  woken id again elapsed = done (expire_approval id)
  woken id again (received (some event)) =
      after_event id event (match_decided_event codec.parse_uuid id event) again
  woken id again (received none) = do approval ← get_approval id; after_drop id approval

  unfoldable pub wait_loop : (fuel round : ℕ) → ℕ → M (Option ApprovalState)
  wait_loop zero round id = pure none
  wait_loop (suc fuel) round id =
      let again = wait_loop fuel (round + 1) id in do w ← wake world round; woken id again w

  unfoldable pub wait_for_approval : (fuel : ℕ) → ℕ → M (Option ApprovalState)
  wait_for_approval fuel id = do
    _ ← subscribe world mcp_approval_decided
    approval ← get_approval id
    after_read approval (wait_loop fuel 0 id)

  abbrev pub request_tool : Request → M (Option Value)
  request_tool q = do value ← ask world q; pure (some value)

  unfoldable pub forward_dangerous_tool : ToolSpec → Value → M (Option Value)
  forward_dangerous_tool tool arguments = request_tool (forwarded tool arguments)

  abbrev pub about : ℕ → Text → Text
  about id what = codes "MCP approval " ++ (codec.uuid_text id ++ what)

  abbrev pub settled : ToolSpec → Value → ℕ → Option ApprovalState → M (Option Value)
  settled tool arguments id none = pure none
  settled tool arguments id (some allowed) = forward_dangerous_tool tool arguments
  settled tool arguments id (some denied) =
      fail (daemon (codes "approval_denied") (about id (codes " was denied")))
  settled tool arguments id (some expired) =
      fail (daemon (codes "approval_expired") (about id (codes " expired")))
  settled tool arguments id (some pending) =
      fail (daemon (codes "approval_timeout") (about id (codes " timed out")))

  unfoldable pub call_after_required_approval : (fuel : ℕ) → ToolSpec → Value → M (Option Value)
  call_after_required_approval fuel tool arguments = do
    approval ← create_approval tool arguments
    state ← wait_for_approval fuel approval.id
    settled tool arguments approval.id state

  abbrev pub gated : (fuel : ℕ) → ToolSpec → Value → GateDecision → M (Option Value)
  gated fuel tool arguments (GateDecision.auto_allow g) = forward_dangerous_tool tool arguments
  gated fuel tool arguments (GateDecision.deny g) =
      fail (daemon (codes "gate_denied") (codes "MCP gate denied " ++ tool.name))
  gated fuel tool arguments (GateDecision.require g) =
      call_after_required_approval fuel tool arguments

  abbrev pub plain : ToolSpec → Value → Request
  plain tool arguments = record { op = op_name tool.op; args = arguments }

  unfoldable pub call_tool : (fuel : ℕ) → ToolSpec → Value → M (Option Value)
  call_tool fuel tool arguments =
      if not tool.dangerous
      then request_tool (plain tool arguments)
      else gate_decision tool arguments >>= λ decision. gated fuel tool arguments decision

  abbrev pub call_result : Result BridgeError (Option Value) → Result JsonRpcError (Option Value)
  call_result (ok none) = ok none
  call_result (ok (some value)) = ok (some (tool_result codec.pretty value))
  call_result (err e) = err (to_json_rpc e)

  abbrev Answer : Type 0
  Answer = Sent → Result JsonRpcError (Option Value) × Sent

  abbrev pub called :
      Result BridgeError (Option Value) × Sent → Result JsonRpcError (Option Value) × Sent
  called (r, s) = (call_result r, s)

  abbrev pub with_arguments : (fuel : ℕ) → ToolSpec → Result Text Value → Answer
  with_arguments fuel tool (err e) s = (err (invalid_params e), s)
  with_arguments fuel tool (ok arguments) s = called (call_tool fuel tool arguments s)

  abbrev pub with_tool : (fuel : ℕ) → Text → Members → Option ToolSpec → Answer
  with_tool fuel name params none s =
      (err (invalid_params (codes "unknown tool '" ++ (name ++ codes "'"))), s)
  with_tool fuel name params (some tool) s =
      with_arguments fuel tool
        (validate_arguments codec.parse_uuid codec.parse_rfc3339 tool
          (unwrap_or (object end) (get (codes "arguments") params)))
        s

  abbrev pub name_of : Members → Option Text
  name_of params = elim (get (codes "name") params) [ none ↦ none | some v ↦ as_str v ]

  abbrev pub with_name : (fuel : ℕ) → Members → Option Text → Answer
  with_name fuel params none s = (err (invalid_params (codes "tools/call missing 'name'")), s)
  with_name fuel params (some name) s = with_tool fuel name params (find_tool name) s

  abbrev pub with_params : (fuel : ℕ) → Result JsonRpcError Members → Answer
  with_params fuel (err e) s = (err e, s)
  with_params fuel (ok params) s = with_name fuel params (name_of params) s

  unfoldable pub handle_tool_call : (fuel : ℕ) → Value → Answer
  handle_tool_call fuel params s = with_params fuel (object_params params) s

  abbrev pub protocol_of : Members → Option Text
  protocol_of params = elim (get (codes "protocolVersion") params) [
    | none ↦ none
    | some v ↦ as_str v
  ]

  abbrev pub initialized : Result JsonRpcError Members → Result JsonRpcError (Option Value)
  initialized (err e) = err e
  initialized (ok params) = ok (some (initialize_result codec.version (protocol_of params)))

  abbrev pub replied : Value → Result JsonRpcError (Option Value) × Sent → Option Value × Sent
  replied id (ok none, s) = (none, s)
  replied id (ok (some result), s) = (some (success_response id result), s)
  replied id (err error, s) = (some (error_response id error), s)

  abbrev pub answer : (fuel : ℕ) → (method : Text) → Value → Answer
  answer fuel method params s =
      if text_eq method (codes "initialize")
      then (initialized (object_params params), s)
      else if text_eq method (codes "tools/list")
      then (ok (some list_tools), s)
      else if text_eq method (codes "tools/call")
      then handle_tool_call fuel params s
      else if text_eq method (codes "ping")
      then (ok (some (object end)), s)
      else (err (method_not_found method), s)

  unfoldable pub handle_request :
      (fuel : ℕ) → Value → (method : Text) → Value → Sent → Option Value × Sent
  handle_request fuel id method params s = replied id (answer fuel method params s)

  unfoldable pub handle_incoming : (fuel : ℕ) → Incoming → Sent → Option Value × Sent
  handle_incoming fuel (Incoming.request id method params) s =
      handle_request fuel id method params s
  handle_incoming fuel (Incoming.notification method params) s = (none, s)
  handle_incoming fuel Incoming.response s = (none, s)

  abbrev pub handle_parsed : (fuel : ℕ) → Result Value Incoming → Sent → Option Value × Sent
  handle_parsed fuel (ok incoming) s = handle_incoming fuel incoming s
  handle_parsed fuel (err error_response) s = (some error_response, s)

  unfoldable pub handle_line : (fuel : ℕ) → Text → Sent → Option Value × Sent
  handle_line fuel line s = handle_parsed fuel (parse_line codec.from_str line) s
