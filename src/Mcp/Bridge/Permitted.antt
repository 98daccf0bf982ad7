-- ===== src/Mcp/Bridge/Permitted.antt =====
-- When the bridge of src/mcp/server.rs sends a dangerous operation to the daemon.
use postblox.Common.{
  ℕ, zero, suc, ◌+◌, ◌≡◌, ◌∙◌, refl, sym, ap, subst, true, not, Option, none, some, List, ◌∷◌, In,
  here, there, ok,
}
use postblox.Common.Text.{codes}
use postblox.Json.{Value, is_null}
use postblox.Db.Approvals.{
  ApprovalState, McpApproval, pending, allowed, denied, expired, is_pending,
}
use postblox.Ipc.Hub.{mcp_approval_decided}
use postblox.Mcp.Gates.{McpGate, GateDecision}
use postblox.Mcp.Gates.Verdicts.{Verdict, decide_iff}
use postblox.Mcp.Tools.Catalogue.{ToolSpec}
use postblox.Mcp.Bridge.Exec.{
  Event, Wake, elapsed, received, Request, DaemonBridge, M, Sent, Does, Does-bind, Does-pure,
  Does-fail, Does-if, Does-decoded, Does-ask, Does-subscribe, Does-wake, ask, decoded, wake,
  subscribe, pure,
}
use postblox.Mcp.Bridge.{
  Codec, json_option, match_decided_event, event_is_lagged, forwarded, list_gates,
}
use postblox.Mcp.Bridge.Calls.{
  create_request, get_request, expire_request, gate_decision, create_approval, get_approval, found,
  expire_approval, wait_loop, wait_for_approval, forward_dangerous_tool,
  call_after_required_approval, call_tool, was_decided, after_read, after_event, woken, settled,
  gated, done, current_state,
}

-- The requests that only ask for permission
pub data IsTraffic (q : Request) : Type 0 where
  gate_list : q.op ≡ codes "mcp.gate.list" → IsTraffic q
  approval_create : q.op ≡ codes "mcp.approval.create" → IsTraffic q
  approval_get : q.op ≡ codes "mcp.approval.get" → IsTraffic q
  approval_decide : q.op ≡ codes "mcp.approval.decide" → IsTraffic q

module _ (world : DaemonBridge) (codec : Codec) where
  -- The daemon has said that the approval is given, as an answer or as an event.
  pub data SaidAllowed (id : ℕ) : Type 0 where
    answered :
        (sent : Sent) (value : Value) (approval : McpApproval)
        → world.request sent (get_request world codec id) ≡ ok value
        → codec.approval value ≡ ok approval
        → approval.state ≡ allowed
        → SaidAllowed id
    announced :
        (sent : Sent) (round : ℕ) (event : Event)
        → world.wake sent round ≡ received (some event)
        → match_decided_event codec.parse_uuid id event ≡ some allowed
        → SaidAllowed id

  module _ (tool : ToolSpec) (arguments : Value) where
    -- A gate of the tool allows the arguments, or the approval made for them is given.
    pub data Permits : Type 0 where
      by_gate :
          (sent : Sent) (value : Value) (gates : List McpGate) (gate : Option ℕ)
          → world.request sent (list_gates tool) ≡ ok value
          → codec.gates value ≡ ok gates
          → Verdict (json_option codec.from_str) arguments gates (GateDecision.auto_allow gate)
          → Permits
      by_approval :
          (sent : Sent) (value : Value) (approval : McpApproval)
          → world.request sent (create_request world codec tool arguments) ≡ ok value
          → codec.approval value ≡ ok approval
          → SaidAllowed approval.id
          → Permits

    pub data Allowable (before : Sent) (q : Request) : Type 0 where
      sent_before : In q before → Allowable before q
      traffic : IsTraffic q → Allowable before q
      permitted : q ≡ forwarded tool arguments → Permits → Allowable before q

    abbrev pub AllAllowable : Sent → Sent → Type 0
    AllAllowable before s = (q : Request) → In q s → Allowable before q

    module _ (before : Sent) where
      send :
          (q : Request)
          → Allowable before q
          → (s : Sent) → AllAllowable before s
          → AllAllowable before (q ∷ s)
      send q h s p x (here e) = subst (Allowable before) (sym e) h
      send q h s p x (there m) = p x m

      ask_traffic :
          (q : Request)
          → IsTraffic q
          → Does (AllAllowable before) (λ v. (s : Sent) × (world.request s q ≡ ok v)) (ask world q)
      ask_traffic q t = Does-ask world (AllAllowable before) q (send q (traffic t))

      abbrev Reported : ℕ → McpApproval → Type 0
      Reported id a =
          (s : Sent) × (v : Value) × (world.request s (get_request world codec id) ≡ ok v)
          × (codec.approval v ≡ ok a)

      found-Does :
          (id : ℕ) (v : Value)
          → (s : Sent) × (world.request s (get_request world codec id) ≡ ok v)
          → Does (AllAllowable before) (Reported id) (found world codec id v)
      found-Does id v (s, e) =
          Does-if (AllAllowable before) _ (is_null v) _ _ (λ h. Does-fail (AllAllowable before) _ _)
            (λ h. Does-decoded (AllAllowable before) _ _ (codec.approval v) (λ a k. (s, v, e, k)))

      get_approval-Does :
          (id : ℕ) → Does (AllAllowable before) (Reported id) (get_approval world codec id)
      unfolding get_approval
      get_approval-Does id =
          Does-bind (AllAllowable before) _ _ (ask world (get_request world codec id)) _
            (ask_traffic _ (approval_get refl)) (found-Does id)

      -- What a wait that ends in a state says of the approval.
      abbrev Tells : ℕ → ApprovalState → Type 0
      Tells id state = state ≡ allowed → SaidAllowed id

      abbrev TellsAny : ℕ → Option ApprovalState → Type 0
      TellsAny id o = o ≡ some allowed → SaidAllowed id

      Reported-Tells : (id : ℕ) (a : McpApproval) → Reported id a → Tells id a.state
      Reported-Tells id a (s, v, e, k) h = answered s v a e k h

      current_state-Does :
          (id : ℕ) → Does (AllAllowable before) (Tells id) (current_state world codec id)
      current_state-Does id =
          Does-bind (AllAllowable before) (Reported id) _ (get_approval world codec id) _
            (get_approval-Does id)
            (λ a h. Does-pure (AllAllowable before) (Tells id) a.state (Reported-Tells id a h))

      expire_approval-Does :
          (id : ℕ) → Does (AllAllowable before) (Tells id) (expire_approval world codec id)
      unfolding expire_approval
      expire_approval-Does id =
          Does-bind (AllAllowable before) _ _ (ask world (expire_request world codec id)) _
            (ask_traffic _ (approval_decide refl))
            (λ v h.
              Does-if (AllAllowable before) (Tells id) (was_decided world codec v) _ _
                (λ _. Does-pure (AllAllowable before) (Tells id) expired (λ e. cc e))
                (λ _. current_state-Does id))

      done-Does :
          (id : ℕ) (m : M ApprovalState)
          → Does (AllAllowable before) (Tells id) m
          → Does (AllAllowable before) (TellsAny id) (done world codec m)
      done-Does id m h =
          Does-bind (AllAllowable before) (Tells id) _ m _ h
            (λ state k. Does-pure (AllAllowable before) (TellsAny id) (some state) (λ e. k (cc e)))

      state-Does :
          (id : ℕ) (a : McpApproval)
          → Reported id a
          → Does (AllAllowable before) (TellsAny id) (pure (some a.state))
      state-Does id a h =
          Does-pure (AllAllowable before) (TellsAny id) (some a.state)
            (λ e. Reported-Tells id a h (cc e))

      module _ (id : ℕ) (again : M (Option ApprovalState))
          (next : Does (AllAllowable before) (TellsAny id) again) where
        after_read-Does :
            (a : McpApproval)
            → Reported id a
            → Does (AllAllowable before) (TellsAny id) (after_read world codec a again)
        after_read-Does a h =
            Does-if (AllAllowable before) (TellsAny id) (is_pending a.state) _ _ (λ _. next)
              (λ _. state-Does id a h)

        after_event-Does :
            (event : Event) (round : ℕ) (s : Sent)
            → world.wake s round ≡ received (some event)
            → (o : Option ApprovalState) → match_decided_event codec.parse_uuid id event ≡ o
            → Does (AllAllowable before) (TellsAny id) (after_event world codec id event o again)
        after_event-Does event round s w (some state) m =
            Does-pure (AllAllowable before) (TellsAny id) (some state)
              (λ e. announced s round event w (m ∙ e))
        after_event-Does event round s w none m =
            Does-if (AllAllowable before) (TellsAny id) (event_is_lagged event) _ _
              (λ _.
                Does-bind (AllAllowable before) (Reported id) _ (get_approval world codec id) _
                  (get_approval-Does id) after_read-Does)
              (λ _. next)

        woken-Does :
            (round : ℕ) (w : Wake)
            → (s : Sent) × (world.wake s round ≡ w)
            → Does (AllAllowable before) (TellsAny id) (woken world codec id again w)
        woken-Does round elapsed h = done-Does id _ (expire_approval-Does id)
        woken-Does round (received (some event)) (s, w) = after_event-Does event round s w _ refl
        woken-Does round (received none) h =
            Does-bind (AllAllowable before) (Reported id) _ (get_approval world codec id) _
              (get_approval-Does id)
              (λ a k.
                Does-if (AllAllowable before) (TellsAny id) (is_pending a.state) _ _
                  (λ _. done-Does id _ (expire_approval-Does id)) (λ _. state-Does id a k))

      wait_loop-Does :
          (fuel round id : ℕ)
          → Does (AllAllowable before) (TellsAny id) (wait_loop world codec fuel round id)
      unfolding wait_loop
      wait_loop-Does zero round id = Does-pure (AllAllowable before) (TellsAny id) none (λ e. cc e)
      wait_loop-Does (suc fuel) round id =
          Does-bind (AllAllowable before) _ _ (wake world round) _
            (Does-wake world (AllAllowable before) round)
            (woken-Does id _ (wait_loop-Does fuel (round + 1) id) round)

      wait_for_approval-Does :
          (fuel id : ℕ)
          → Does (AllAllowable before) (TellsAny id) (wait_for_approval world codec fuel id)
      unfolding wait_for_approval
      wait_for_approval-Does fuel id =
          Does-bind (AllAllowable before) (λ _. Unit {0}) _ (subscribe world mcp_approval_decided) _
            (Does-subscribe world (AllAllowable before) mcp_approval_decided)
            (λ _ _.
              Does-bind (AllAllowable before) (Reported id) _ (get_approval world codec id) _
                (get_approval-Does id) (after_read-Does id _ (wait_loop-Does fuel 0 id)))

      abbrev Anything : Option Value → Type 0
      Anything _ = Unit

      forward-Does :
          Permits
          → Does (AllAllowable before) Anything (forward_dangerous_tool world codec tool arguments)
      unfolding forward_dangerous_tool
      forward-Does h =
          Does-bind (AllAllowable before) _ Anything (ask world (forwarded tool arguments)) _
            (Does-ask world (AllAllowable before) _ (send _ (permitted refl h)))
            (λ v _. Does-pure (AllAllowable before) Anything (some v) tt)

      settled-Does :
          (id : ℕ) (o : Option ApprovalState)
          → (SaidAllowed id → Permits)
          → TellsAny id o
          → Does (AllAllowable before) Anything (settled world codec tool arguments id o)
      settled-Does id none make h = Does-pure (AllAllowable before) Anything none tt
      settled-Does id (some allowed) make h = forward-Does (make (h refl))
      settled-Does id (some pending) make h = Does-fail (AllAllowable before) Anything _
      settled-Does id (some denied) make h = Does-fail (AllAllowable before) Anything _
      settled-Does id (some expired) make h = Does-fail (AllAllowable before) Anything _

      abbrev Created : McpApproval → Type 0
      Created a =
          (s : Sent) × (v : Value) × (world.request s (create_request world codec tool arguments)
            ≡ ok v)
          × (codec.approval v ≡ ok a)

      create_approval-Does :
          Does (AllAllowable before) Created (create_approval world codec tool arguments)
      unfolding create_approval
      create_approval-Does =
          Does-bind (AllAllowable before) _ Created
            (ask world (create_request world codec tool arguments)) _
            (ask_traffic _ (approval_create refl))
            (λ v h.
              Does-decoded (AllAllowable before) Created _ (codec.approval v)
                (λ a k. (h.0, v, h.1, k)))

      required-Does :
          (fuel : ℕ)
          → Does
              (AllAllowable before)
              Anything
              (call_after_required_approval world codec fuel tool arguments)
      unfolding call_after_required_approval
      required-Does fuel =
          Does-bind (AllAllowable before) Created Anything
            (create_approval world codec tool arguments) _ create_approval-Does
            (λ a h.
              Does-bind (AllAllowable before) (TellsAny a.id) Anything
                (wait_for_approval world codec fuel a.id) _ (wait_for_approval-Does fuel a.id)
                (λ o k. settled-Does a.id o (λ said. by_approval h.0 h.1 a h.2 h.3 said) k))

      abbrev Decided : GateDecision → Type 0
      Decided d =
          (s : Sent) × (v : Value) × (gates : List McpGate) × (world.request s (list_gates tool)
            ≡ ok v)
          × (codec.gates v ≡ ok gates)
          × Verdict (json_option codec.from_str) arguments gates d

      gate_decision-Does :
          Does (AllAllowable before) Decided (gate_decision world codec tool arguments)
      unfolding gate_decision
      gate_decision-Does =
          Does-bind (AllAllowable before) _ Decided (ask world (list_gates tool)) _
            (ask_traffic _ (gate_list refl))
            (λ v h.
              Does-bind (AllAllowable before) (λ gates. codec.gates v ≡ ok gates) Decided
                (decoded _ (codec.gates v)) _
                (Does-decoded (AllAllowable before) _ _ (codec.gates v) (λ gates k. k))
                (λ gates k. Does-pure (AllAllowable before) Decided _ (
                  h.0,
                  v,
                  gates,
                  h.1,
                  k,
                  (decide_iff (json_option codec.from_str) arguments gates _).0 refl,
                )))

      gated-Does :
          (fuel : ℕ) (d : GateDecision)
          → Decided d
          → Does (AllAllowable before) Anything (gated world codec fuel tool arguments d)
      gated-Does fuel (GateDecision.auto_allow g) (s, v, gates, e, k, verdict) =
          forward-Does (by_gate s v gates g e k verdict)
      gated-Does fuel (GateDecision.deny g) h = Does-fail (AllAllowable before) Anything _
      gated-Does fuel (GateDecision.require g) h = required-Does fuel

      call_tool-Does :
          (fuel : ℕ)
          → tool.dangerous ≡ true
          → Does (AllAllowable before) Anything (call_tool world codec fuel tool arguments)
      unfolding call_tool
      call_tool-Does fuel danger =
          Does-if (AllAllowable before) Anything (not tool.dangerous) _ _
            (λ h. absurd (cc (ap not danger)))
            (λ _.
              Does-bind (AllAllowable before) Decided Anything
                (gate_decision world codec tool arguments) _ gate_decision-Does (gated-Does fuel))

    -- Of the requests that a call of a dangerous tool leaves, each was sent before the call, or
    -- only asks for permission, or is the tool's operation with its actor, which is sent only
    -- where the gates that the daemon lists decide to allow it, or the daemon has said that the
    -- approval made for these arguments is given. This holds whatever the daemon answers and
    -- however the call ends.
    pub call_tool-Allowable :
        (fuel : ℕ) (before : Sent) (q : Request)
        → tool.dangerous ≡ true
        → In q (call_tool world codec fuel tool arguments before).1
        → Allowable before q
    unfolding Does
    call_tool-Allowable fuel before q danger m =
        (call_tool-Does before fuel danger before (λ x k. sent_before k)).0 q m
