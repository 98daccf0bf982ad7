-- ===== src/Mcp/Bridge/Tests.antt =====
-- The bridge on concrete calls.
use postblox.Common.{◌≡◌, ◌≢◌, refl, ◌↔◌, none, some, [], here, ok, err, arith}
use postblox.Common.Text.{codes}
use postblox.Json.{Value, Members, string, object, member, end}
use postblox.Db.Approvals.{McpApproval, allowed}
use postblox.Mcp.Gates.{decide}
use postblox.Mcp.Tools.Catalogue.{draft_delete_tool}
use postblox.Mcp.Tools.{validate_arguments, arguments_object}
use postblox.Mcp.Tools.Accepted.{Valid, validate_arguments_iff}
use postblox.Mcp.Bridge.Exec.{DaemonBridge, elapsed}
use postblox.Mcp.Bridge.{Codec, forwarded}
use postblox.Mcp.Bridge.Calls.{
  call_tool, gate_decision, forward_dangerous_tool, call_after_required_approval, create_approval,
  wait_for_approval, get_approval,
}
use postblox.Mcp.Bridge.Permitted.{Allowable, call_tool-Allowable}
use postblox.Mcp.Bridge.Waits.{call_tool-ends}

-- {"id": "1"}
abbrev arguments : Value
arguments = object (member (codes "id") (string (codes "1")) end)

abbrev given : McpApproval
given = record {
  id = 7;
  tool = codes "postblox_draft_delete";
  args = arguments;
  summary = [];
  state = allowed;
  decided_at = some 1;
  decided_by = none;
  created_at = 0;
}

-- No gate is listed, and the approval is given.
abbrev codec : Codec
codec = record {
  from_str = λ t. err t;
  print = λ v. [];
  pretty = λ v. [];
  gates = λ v. ok [];
  approval = λ v. ok given;
  uuid_text = λ n. codes "7";
  parse_uuid = λ t. some 1;
  parse_rfc3339 = λ t. none;
  version = codes "0";
}

abbrev world : DaemonBridge
world = record { request = λ s q. ok (object end); subscribe = λ s t. ok tt; wake = λ s n. elapsed }

call_tool-Allowable_example :
    Allowable world codec draft_delete_tool arguments [] (forwarded draft_delete_tool arguments)
unfolding call_tool gate_decision decide call_after_required_approval create_approval
    wait_for_approval get_approval forward_dangerous_tool
call_tool-Allowable_example =
    call_tool-Allowable world codec draft_delete_tool arguments 1 [] _ refl (here refl)

call_tool-ends_example : (call_tool world codec 1 draft_delete_tool arguments []).0 ≢ ok none
call_tool-ends_example =
    call_tool-ends world codec 1 0 (λ s. refl) (omega arith) draft_delete_tool arguments []

validate_arguments_iff_example :
    (validate_arguments codec.parse_uuid codec.parse_rfc3339 draft_delete_tool arguments
      ≡ ok arguments)
    ↔ ((ms : Members) × (arguments_object arguments ≡ some ms)
        × (arguments ≡ object ms)
        × Valid codec.parse_uuid codec.parse_rfc3339 draft_delete_tool ms)
validate_arguments_iff_example =
    validate_arguments_iff codec.parse_uuid codec.parse_rfc3339 draft_delete_tool arguments
      arguments
