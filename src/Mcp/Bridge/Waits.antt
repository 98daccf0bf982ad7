-- ===== src/Mcp/Bridge/Waits.antt =====
-- The wait for an approval in src/mcp/server.rs ends with its timer at the latest.
use postblox.Common.{
  ℕ, zero, suc, ◌+◌, ◌<◌, ◌≡◌, ◌≢◌, ◌⊎◌, inl, inr, refl, subst, not, Option, none, some, ok, arith,
}
use postblox.Json.{Value}
use postblox.Db.Approvals.{
  ApprovalState, McpApproval, pending, allowed, denied, expired, is_pending,
}
use postblox.Ipc.Hub.{mcp_approval_decided}
use postblox.Mcp.Gates.{GateDecision}
use postblox.Mcp.Tools.Catalogue.{ToolSpec}
use postblox.Mcp.Bridge.Exec.{
  Event, Wake, elapsed, received, DaemonBridge, M, Sent, Does, Does-bind, Does-pure, Does-fail,
  Does-if, ask, wake, subscribe, pure, Request,
}
use postblox.Mcp.Bridge.{Codec, event_is_lagged, forwarded}
use postblox.Mcp.Bridge.Calls.{
  get_approval, expire_approval, wait_loop, wait_for_approval, forward_dangerous_tool,
  call_after_required_approval, call_tool, create_approval, gate_decision, after_read, after_event,
  woken, settled, gated, done, request_tool,
}

abbrev Free : Sent → Type 0
Free _ = Unit

abbrev Ended : {A : Type 0} → Option A → Type 0
Ended o = o ≢ none

abbrev Anything : {A : Type 0} → A → Type 0
Anything _ = Unit

module _ {A : Type 0} where
  free : (m : M A) → Does Free Anything m
  unfolding Does
  free m s p = (tt, λ a e. tt)

  ended : (a : A) → Does Free Ended (pure (some a))
  ended a = Does-pure Free Ended (some a) (λ e. cc e)

module _ (world : DaemonBridge) (codec : Codec) where
  done-Ended : (m : M ApprovalState) → Does Free Ended (done world codec m)
  done-Ended m = Does-bind Free Anything Ended m _ (free m) (λ a _. ended a)

  module _ (id : ℕ) (again : M (Option ApprovalState)) (next : Does Free Ended again) where
    after_read-Ended : (a : McpApproval) → Does Free Ended (after_read world codec a again)
    after_read-Ended a =
        Does-if Free Ended (is_pending a.state) _ _ (λ _. next) (λ _. ended a.state)

    after_event-Ended :
        (event : Event) (o : Option ApprovalState)
        → Does Free Ended (after_event world codec id event o again)
    after_event-Ended event (some state) = ended state
    after_event-Ended event none =
        Does-if Free Ended (event_is_lagged event) _ _
          (λ _.
            Does-bind Free Anything Ended (get_approval world codec id) _ (free _)
              (λ a _. after_read-Ended a))
          (λ _. next)

  elapsed-Ended :
      (id : ℕ) (again : M (Option ApprovalState))
      → Does Free Ended (woken world codec id again elapsed)
  elapsed-Ended id again = done-Ended (expire_approval world codec id)

  dropped-Ended :
      (id : ℕ) (again : M (Option ApprovalState))
      → Does Free Ended (woken world codec id again (received none))
  dropped-Ended id again =
      Does-bind Free Anything Ended (get_approval world codec id) _ (free _) (λ a _.
        Does-if Free Ended (is_pending a.state) _ _
          (λ _. done-Ended (expire_approval world codec id)) (λ _. ended a.state))

  woken-Ended :
      (id : ℕ) (again : M (Option ApprovalState)) (w : Wake)
      → w ≡ elapsed ⊎ Does Free Ended again
      → Does Free Ended (woken world codec id again w)
  woken-Ended id again elapsed h = elapsed-Ended id again
  woken-Ended id again (received none) h = dropped-Ended id again
  woken-Ended id again (received (some event)) (inl e) = cc e
  woken-Ended id again (received (some event)) (inr next) = after_event-Ended id again next event _

  -- The timer has run out by this round.
  abbrev pub TimerRings : ℕ → Type 0
  TimerRings n = (s : Sent) → world.wake s n ≡ elapsed

  wake-Rings : (round : ℕ) → TimerRings round → Does Free (λ w. w ≡ elapsed) (wake world round)
  unfolding Does
  wake-Rings round h s p = (tt, λ w e. cc (h s))

  wait_loop-Ended :
      (fuel round n id : ℕ)
      → TimerRings (round + n)
      → n < fuel
      → Does Free Ended (wait_loop world codec fuel round id)
  unfolding wait_loop
  wait_loop-Ended zero round n id h l = absurd (omega arith)
  wait_loop-Ended (suc fuel) round zero id h l =
      Does-bind Free (λ w. w ≡ elapsed) Ended (wake world round) _
        (wake-Rings round (subst TimerRings (omega arith) h))
        (λ w e. woken-Ended id (wait_loop world codec fuel (round + 1) id) w (inl e))
  wait_loop-Ended (suc fuel) round (suc n) id h l =
      Does-bind Free Anything Ended (wake world round) _ (free _) (λ w _.
        woken-Ended id (wait_loop world codec fuel (round + 1) id) w (
          inr (
            wait_loop-Ended fuel (round + 1) n id (subst TimerRings (omega arith) h)
              (omega arith))))

  module _ (fuel n : ℕ) (rings : TimerRings n) (enough : n < fuel) where
    wait_for_approval-Ended : (id : ℕ) → Does Free Ended (wait_for_approval world codec fuel id)
    unfolding wait_for_approval
    wait_for_approval-Ended id =
        Does-bind Free Anything Ended (subscribe world mcp_approval_decided) _ (free _) (λ _ _.
          Does-bind Free Anything Ended (get_approval world codec id) _ (free _) (λ a _.
            after_read-Ended id _
              (wait_loop-Ended fuel 0 n id (subst TimerRings (omega arith) rings) enough) a))

    request_tool-Ended : (q : Request) → Does Free Ended (request_tool world codec q)
    request_tool-Ended q =
        Does-bind Free Anything Ended (ask world q) _ (free (ask world q)) (λ v _. ended v)

    forward-Ended :
        (tool : ToolSpec) (arguments : Value)
        → Does Free Ended (forward_dangerous_tool world codec tool arguments)
    unfolding forward_dangerous_tool
    forward-Ended tool arguments = request_tool-Ended (forwarded tool arguments)

    settled-Ended :
        (tool : ToolSpec) (arguments : Value) (id : ℕ) (o : Option ApprovalState)
        → o ≢ none
        → Does Free Ended (settled world codec tool arguments id o)
    settled-Ended tool arguments id none h = absurd (h refl)
    settled-Ended tool arguments id (some allowed) h = forward-Ended tool arguments
    settled-Ended tool arguments id (some pending) h = Does-fail Free Ended _
    settled-Ended tool arguments id (some denied) h = Does-fail Free Ended _
    settled-Ended tool arguments id (some expired) h = Does-fail Free Ended _

    required-Ended :
        (tool : ToolSpec) (arguments : Value)
        → Does Free Ended (call_after_required_approval world codec fuel tool arguments)
    unfolding call_after_required_approval
    required-Ended tool arguments =
        Does-bind Free Anything Ended (create_approval world codec tool arguments) _ (free _)
          (λ a _.
            Does-bind Free Ended Ended (wait_for_approval world codec fuel a.id) _
              (wait_for_approval-Ended a.id) (settled-Ended tool arguments a.id))

    gated-Ended :
        (tool : ToolSpec) (arguments : Value) (d : GateDecision)
        → Does Free Ended (gated world codec fuel tool arguments d)
    gated-Ended tool arguments (GateDecision.auto_allow g) = forward-Ended tool arguments
    gated-Ended tool arguments (GateDecision.deny g) = Does-fail Free Ended _
    gated-Ended tool arguments (GateDecision.require g) = required-Ended tool arguments

    call_tool-Ended :
        (tool : ToolSpec) (arguments : Value)
        → Does Free Ended (call_tool world codec fuel tool arguments)
    unfolding call_tool
    call_tool-Ended tool arguments =
        Does-if Free Ended (not tool.dangerous) _ _ (λ _. request_tool-Ended _)
          (λ _.
            Does-bind Free Anything Ended (gate_decision world codec tool arguments) _ (free _)
              (λ d _. gated-Ended tool arguments d))

    -- A tool call comes to an end, with an answer or an error, within as many rounds of waiting
    -- as the timer takes to run out, whatever the daemon answers and whatever events arrive.
    pub call_tool-ends :
        (tool : ToolSpec) (arguments : Value) (s : Sent)
        → (call_tool world codec fuel tool arguments s).0 ≢ ok none
    unfolding Does
    call_tool-ends tool arguments s e = (call_tool-Ended tool arguments s tt).1 none e refl
