-- ===== src/Mcp/Gates.antt =====
-- src/mcp/gates.rs: which approval gate decides a tool call. `serde_json::from_str` is the
-- parameter `from_str`; a gate's identifier is a number.
pub mod Wildcard
pub mod Matching
pub mod Verdicts
use postblox.Common.{
  ℕ, ◌+◌, Bool, true, false, not, ◌&&◌, Option, none, some, List, [], ◌∷◌, ◌==◌, leb, all,
  if◌then◌else◌,
}
use postblox.Common.Text.{Text, text_eq, starts_with, ends_with, byte_len, contains_char}
use postblox.Json.{Value, value_eq, as_str, as_object, get, Members, members}

pub data GateAction : Type 0 where
  auto_allow deny require : GateAction

pub record McpGate : Type 0 where
  pub id : ℕ
  pub tool : Text
  pub arg_pattern : Option Text
  pub action : GateAction

-- Each decision has the identifier of the gate that made it.
pub data GateDecision : Type 0 where
  auto_allow deny require : (gate_id : Option ℕ) → GateDecision

abbrev pub star : ℕ
star = b'*'

unfoldable pub count_char : ℕ → Text → ℕ
count_char c [] = 0
count_char c (d ∷ t) = (if d == c then 1 else 0) + count_char c t

-- `pattern.split_once('*')`
unfoldable pub split_once : ℕ → Text → Option (Text × Text)
split_once c [] = none
split_once c (d ∷ t) =
    let rest = split_once c t in
    if d == c then some ([], t) else elim rest [ none ↦ none | some (a, b) ↦ some (d ∷ a, b) ]

abbrev pub matches_around : Option (Text × Text) → Text → Bool
matches_around none actual = false
matches_around (some (prefix, suffix)) actual =
    starts_with actual prefix
    && (ends_with actual suffix && leb (byte_len prefix + byte_len suffix) (byte_len actual))

unfoldable pub wildcard_matches : Text → Text → Bool
wildcard_matches pattern actual =
    if text_eq pattern (star ∷ [])
    then true
    else if not (count_char star pattern == 1)
    then false
    else matches_around (split_once star pattern) actual

abbrev text_matches : Option Text → Option Text → Bool → Bool
text_matches (some pattern) (some actual) same =
    if contains_char star pattern then wildcard_matches pattern actual else same
text_matches _ _ same = same

unfoldable pub value_matches : Value → Value → Bool
value_matches expected actual =
    text_matches (as_str expected) (as_str actual) (value_eq expected actual)

abbrev pub field_matches : Members → Text × Value → Bool
field_matches args (field, expected) = elim (get field args) [
  | none ↦ false
  | some actual ↦ value_matches expected actual
]

abbrev members_match : Option Members → Option Members → Bool
members_match (some pattern) (some args) = all (field_matches args) (members pattern)
members_match _ _ = false

unfoldable pub pattern_matches : Value → Value → Bool
pattern_matches pattern args = members_match (as_object pattern) (as_object args)

abbrev pub decision : McpGate → GateAction → GateDecision
decision gate auto_allow = auto_allow (some gate.id)
decision gate deny = deny (some gate.id)
decision gate require = require (some gate.id)

module _ (from_str : Text → Option Value) where
  abbrev parsed_matches : Option Value → Value → Bool
  parsed_matches none args = false
  parsed_matches (some pattern) args = pattern_matches pattern args

  abbrev pattern_text_matches : Option Text → Value → Bool
  pattern_text_matches none args = true
  pattern_text_matches (some pattern) args = parsed_matches (from_str pattern) args

  unfoldable pub gate_matches : McpGate → Value → Bool
  gate_matches gate args = pattern_text_matches gate.arg_pattern args

  unfoldable pub decide : List McpGate → Value → GateDecision
  decide [] args = require none
  decide (gate ∷ gates) args =
      let rest = decide gates args in
      if gate_matches gate args then decision gate gate.action else rest
