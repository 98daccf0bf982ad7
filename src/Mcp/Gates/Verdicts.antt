-- ===== src/Mcp/Gates/Verdicts.antt =====
-- Which gate decides (src/mcp/gates.rs).
use postblox.Common.{
  ◌≡◌, refl, ap, sym, ◌∙◌, subst, ◌↔◌, true, false, Option, none, List, [], ◌∷◌, ◌++◌, inl, inr,
  Bool-cases, All,
}
use postblox.Common.Text.{Text}
use postblox.Json.{Value}
use postblox.Mcp.Gates.{McpGate, GateDecision, require, decision, gate_matches, decide}

module _ (from_str : Text → Option Value) (args : Value) where
  abbrev Passes : McpGate → Type 0
  Passes gate = gate_matches from_str gate args ≡ false

  -- The decision that the order of the gates calls for.
  pub data Verdict (gates : List McpGate) (d : GateDecision) : Type 0 where
    first :
        (before : List McpGate) (gate : McpGate) (after : List McpGate)
        → gates ≡ before ++ (gate ∷ after)
        → All Passes before
        → gate_matches from_str gate args ≡ true
        → d ≡ decision gate gate.action
        → Verdict gates d
    default : All Passes gates → d ≡ require none → Verdict gates d

  Verdict-cons :
      (gate : McpGate) {gates : List McpGate} {d : GateDecision}
      → Passes gate
      → Verdict gates d
      → Verdict (gate ∷ gates) d
  Verdict-cons gate p (first before g after e h m k) =
      first (gate ∷ before) g after (ap (◌∷◌ gate) e) (p, h) m k
  Verdict-cons gate p (default h k) = default (p, h) k

  decide-Verdict : (gates : List McpGate) → Verdict gates (decide from_str gates args)
  unfolding decide
  decide-Verdict [] = default tt refl
  decide-Verdict (gate ∷ gates) = elim (Bool-cases (gate_matches from_str gate args)) [
    | inl m ↦ first [] gate gates refl tt m (rw m)
    | inr p ↦ rw p (Verdict-cons gate p (decide-Verdict gates))
  ]

  decide_first :
      (before : List McpGate) (gate : McpGate) (after : List McpGate)
      → All Passes before
      → gate_matches from_str gate args ≡ true
      → decide from_str (before ++ (gate ∷ after)) args ≡ decision gate gate.action
  unfolding decide
  decide_first [] gate after h m = rw m
  decide_first (g ∷ before) gate after h m = rw (h.0) (decide_first before gate after h.1 m)

  decide_default :
      (gates : List McpGate) → All Passes gates → decide from_str gates args ≡ require none
  unfolding decide
  decide_default [] h = refl
  decide_default (g ∷ gates) h = rw (h.0) (decide_default gates h.1)

  -- The decision is that of the first gate that matches, with its identifier, and a request for
  -- approval with no gate exactly when none matches.
  pub decide_iff :
      (gates : List McpGate) (d : GateDecision) → (decide from_str gates args ≡ d) ↔ Verdict gates d
  decide_iff gates d = (λ e. subst (Verdict gates) e (decide-Verdict gates), back)
    where
      back : Verdict gates d → decide from_str gates args ≡ d
      back (first before gate after e h m k) =
          ap (λ gs. decide from_str gs args) e ∙ decide_first before gate after h m ∙ sym k
      back (default h k) = decide_default gates h ∙ sym k
