-- ===== src/Mcp/Bridge/Exec.antt =====
-- What the bridge of src/mcp/server.rs does with the daemon: requests, whose answers may be
-- errors. The state is the list of the requests sent, the latest first.
use postblox.Common.{
  ℕ, ◌≡◌, refl, subst, List, ◌∷◌, Option, Bool, true, false, if◌then◌else◌, Result, ok, err,
  convert_err,
}
use postblox.Common.Text.{Text, codes}
use postblox.Json.{Value}
use postblox.Ipc.Hub.{Topic}
use postblox.Mcp.Protocol.{JsonRpcError, server_error, internal}

pub data BridgeError : Type 0 where
  io json ipc bad_daemon_response : Text → BridgeError
  daemon : (code message : Text) → BridgeError

unfoldable pub to_json_rpc : BridgeError → JsonRpcError
to_json_rpc (daemon code message) = server_error code message
to_json_rpc (bad_daemon_response message) = internal message
to_json_rpc (io e) = internal e
to_json_rpc (json e) = internal e
to_json_rpc (ipc message) = server_error (codes "ipc_error") message

pub record Event : Type 0 where
  pub topic : Text
  pub body : Value

-- What ends one round of the wait: the timer, or the channel, which is closed at `none`.
pub data Wake : Type 0 where
  elapsed : Wake
  received : Option Event → Wake

pub record Request : Type 0 where
  pub op : Text
  pub args : Value

abbrev pub Sent : Type 0
Sent = List Request

pub record DaemonBridge : Type 0 where
  pub request : Sent → Request → Result BridgeError Value
  pub subscribe : Sent → Topic → Result BridgeError (Unit {0})
  pub wake : Sent → ℕ → Wake

abbrev pub M {ℓ} : Type ℓ → Type ℓ
M A = Sent → Result BridgeError A × Sent

module _ {ℓ κ} {A : Type ℓ} {B : Type κ} where
  abbrev pub proceed : Result BridgeError A × Sent → (A → M B) → Result BridgeError B × Sent
  proceed (ok a, s) f = f a s
  proceed (err e, s) f = (err e, s)

  infixl 5 ◌>>=◌
  abbrev pub ◌>>=◌ : M A → (A → M B) → M B
  ◌>>=◌ m f s = proceed (m s) f

module _ {ℓ} {A : Type ℓ} where
  abbrev pub pure : A → M A
  pure a s = (ok a, s)

  abbrev pub fail : BridgeError → M A
  fail e s = (err e, s)

  abbrev pub decoded : (Text → Text) → Result Text A → M A
  decoded context r s = (convert_err (λ e. bad_daemon_response (context e)) r, s)

  -- What holds of the requests sent and of a result.
  abbrev pub Ends : (Sent → Type 0) → (A → Type 0) → Result BridgeError A × Sent → Type ℓ
  Ends P Q o = P o.1 × ((a : A) → o.0 ≡ ok a → Q a)

  unfoldable pub Does : (Sent → Type 0) → (A → Type 0) → M A → Type ℓ
  Does P Q m = (s : Sent) → P s → Ends P Q (m s)

module _ (world : DaemonBridge) where
  abbrev pub ask : Request → M Value
  ask q s = (world.request s q, q ∷ s)

  abbrev pub subscribe : Topic → M (Unit {0})
  subscribe topic s = (world.subscribe s topic, s)

  abbrev pub wake : ℕ → M Wake
  wake round s = (ok (world.wake s round), s)

module _ {ℓ κ} {A : Type ℓ} {B : Type κ} (P : Sent → Type 0) (Q : A → Type 0) (R : B → Type 0) where
  proceed-Ends :
      (o : Result BridgeError A × Sent) (f : A → M B)
      → Ends P Q o
      → ((a : A) → Q a → Does P R (f a))
      → Ends P R (proceed o f)
  unfolding Does
  proceed-Ends (ok a, s) f (h, q) k = k a (q a refl) s h
  proceed-Ends (err e, s) f (h, q) k = (h, λ b e. cc e)

  -- The rule for a sequence.
  pub Does-bind :
      (m : M A) (f : A → M B) → Does P Q m → ((a : A) → Q a → Does P R (f a)) → Does P R (m >>= f)
  unfolding Does
  Does-bind m f h k s p = proceed-Ends (m s) f (h s p) k

module _ {ℓ} {A : Type ℓ} (P : Sent → Type 0) (Q : A → Type 0) where
  pub Does-pure : (a : A) → Q a → Does P Q (pure a)
  unfolding Does
  Does-pure a q s p = (p, λ b e. subst Q (cc e) q)

  pub Does-fail : (e : BridgeError) → Does P Q (fail e)
  unfolding Does
  Does-fail e s p = (p, λ b k. cc k)

module _ {ℓ} {A : Type ℓ} (P : Sent → Type 0) (Q : A → Type 0) where
  pub Does-decoded :
      (context : Text → Text) (r : Result Text A)
      → ((a : A) → r ≡ ok a → Q a)
      → Does P Q (decoded context r)
  unfolding Does
  Does-decoded context (ok a) h s p = (p, λ b e. h b (cc e))
  Does-decoded context (err x) h s p = (p, λ b e. cc e)

  pub Does-if :
      (b : Bool) (m n : M A)
      → (b ≡ true → Does P Q m)
      → (b ≡ false → Does P Q n)
      → Does P Q (if b then m else n)
  Does-if true m n h k = h refl
  Does-if false m n h k = k refl

module _ (world : DaemonBridge) (P : Sent → Type 0) where
  -- A request may be sent where what held goes on to hold with it.
  pub Does-ask :
      (q : Request)
      → ((s : Sent) → P s → P (q ∷ s))
      → Does P (λ v. (s : Sent) × (world.request s q ≡ ok v)) (ask world q)
  unfolding Does
  Does-ask q h s p = (h s p, λ v e. (s, e))

  pub Does-subscribe : (topic : Topic) → Does P (λ u. Unit {0}) (subscribe world topic)
  unfolding Does
  Does-subscribe topic s p = (p, λ u e. tt)

  pub Does-wake :
      (round : ℕ) → Does P (λ w. (s : Sent) × (world.wake s round ≡ w)) (wake world round)
  unfolding Does
  Does-wake round s p = (p, λ w e. (s, cc e))
