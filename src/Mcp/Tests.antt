-- ===== src/Mcp/Tests.antt =====
-- Gates on concrete calls.
use postblox.Common.{◌≡◌, refl, ◌↔◌, true, Option, none, some, [], ◌∷◌, ◌++◌}
use postblox.Common.Text.{Text, codes}
use postblox.Json.{Value, string, object, member, end, null}
use postblox.Mcp.Gates.{McpGate, GateAction, deny, decide, star, count_char, wildcard_matches}
use postblox.Mcp.Gates.Wildcard.{wildcard_matches_iff}
use postblox.Mcp.Gates.Verdicts.{Verdict, decide_iff}

wildcard_matches_iff_example :
    (wildcard_matches (codes "a" ++ (star ∷ codes "@x")) (codes "ab@x") ≡ true)
    ↔ ((middle : Text) × (codes "ab@x" ≡ codes "a" ++ (middle ++ codes "@x")))
unfolding count_char
wildcard_matches_iff_example =
    wildcard_matches_iff (codes "a") (codes "@x") (codes "ab@x") refl refl

-- {"to": "*@x"}
abbrev pattern : Value
pattern = object (member (codes "to") (string (codes "*@x")) end)

-- {"to": "a@x", "cc": null}
abbrev args : Value
args = object (member (codes "to") (string (codes "a@x")) (member (codes "cc") null end))

abbrev from_str : Text → Option Value
from_str t = some pattern

abbrev closed : McpGate
closed = record {
  id = 1;
  tool = codes "send";
  arg_pattern = some (codes "p");
  action = GateAction.deny;
}

abbrev open_to_all : McpGate
open_to_all = record {
  id = 2;
  tool = codes "send";
  arg_pattern = none;
  action = GateAction.auto_allow;
}

decide_iff_example :
    (decide from_str (closed ∷ (open_to_all ∷ [])) args ≡ deny (some 1))
    ↔ Verdict from_str args (closed ∷ (open_to_all ∷ [])) (deny (some 1))
decide_iff_example = decide_iff from_str args (closed ∷ (open_to_all ∷ [])) (deny (some 1))
