-- ===== src/Ipc/Hub.antt =====
-- src/ipc/hub.rs: the names of the topics. The channels behind them are those of tokio.
use postblox.Common.{
  ◌≡◌, refl, sym, ◌∙◌, ap, subst, ◌↔◌, ◌⊎◌, inl, inr, Bool, true, false, Result, ok, err,
  if◌then◌else◌,
}
use postblox.Common.Text.{Text, codes, text_eq}
use postblox.Common.Text.Equality.{text_eq_iff}

pub data Topic : Type 0 where
  mail_new mail_updated account_synced sync_state mcp_approval_requested mcp_approval_decided :
      Topic

pub data ParseTopicError : Type 0 where
  invalid_topic : Text → ParseTopicError

unfoldable pub as_str : Topic → Text
as_str mail_new = codes "mail.new"
as_str mail_updated = codes "mail.updated"
as_str account_synced = codes "account.synced"
as_str sync_state = codes "sync.state"
as_str mcp_approval_requested = codes "mcp.approval_requested"
as_str mcp_approval_decided = codes "mcp.approval_decided"

unfoldable pub from_str : Text → Result ParseTopicError Topic
from_str s =
    if text_eq s (codes "mail.new")
    then ok mail_new
    else if text_eq s (codes "mail.updated")
    then ok mail_updated
    else if text_eq s (codes "account.synced")
    then ok account_synced
    else if text_eq s (codes "sync.state")
    then ok sync_state
    else if text_eq s (codes "mcp.approval_requested")
    then ok mcp_approval_requested
    else if text_eq s (codes "mcp.approval_decided")
    then ok mcp_approval_decided
    else err (invalid_topic s)

branch :
    (s w : Text) (x t : Topic) (rest : Result ParseTopicError Topic)
    → (if text_eq s w then ok x else rest) ≡ ok t
    → ((s ≡ w) × (x ≡ t)) ⊎ (rest ≡ ok t)
branch s w x t rest h = go (text_eq s w) refl h
  where
    go :
        (b : Bool)
        → text_eq s w ≡ b
        → (if b then ok x else rest) ≡ ok t
        → ((s ≡ w) × (x ≡ t)) ⊎ (rest ≡ ok t)
    go true e h = inl ((text_eq_iff s w).0 e, cc h)
    go false e h = inr h

from_str-as_str : (t : Topic) → from_str (as_str t) ≡ ok t
unfolding from_str as_str
from_str-as_str mail_new = refl
from_str-as_str mail_updated = refl
from_str-as_str account_synced = refl
from_str-as_str sync_state = refl
from_str-as_str mcp_approval_requested = refl
from_str-as_str mcp_approval_decided = refl

from_str_sound : (s : Text) (t : Topic) → from_str s ≡ ok t → s ≡ as_str t
unfolding from_str
from_str_sound s t h = elim (branch s _ mail_new t _ h) [
  | inl (e, k) ↦ e ∙ named (codes "mail.new") mail_new k (unfold as_str in refl)
  | inr h ↦ elim (branch s _ mail_updated t _ h) [
    | inl (e, k) ↦ e ∙ named (codes "mail.updated") mail_updated k (unfold as_str in refl)
    | inr h ↦ elim (branch s _ account_synced t _ h) [
      | inl (e, k) ↦ e ∙ named (codes "account.synced") account_synced k (unfold as_str in refl)
      | inr h ↦ elim (branch s _ sync_state t _ h) [
        | inl (e, k) ↦ e ∙ named (codes "sync.state") sync_state k (unfold as_str in refl)
        | inr h ↦ elim (branch s _ mcp_approval_requested t _ h) [
          | inl (e, k) ↦
              e
              ∙ named (codes "mcp.approval_requested") mcp_approval_requested k
                  (unfold as_str in refl)
          | inr h ↦ elim (branch s _ mcp_approval_decided t _ h) [
            | inl (e, k) ↦
                e
                ∙ named (codes "mcp.approval_decided") mcp_approval_decided k
                    (unfold as_str in refl)
            | inr h ↦ absurd (cc h)
          ]
        ]
      ]
    ]
  ]
]
  where
    named : (w : Text) (x : Topic) → x ≡ t → w ≡ as_str x → w ≡ as_str t
    named w x k e = e ∙ ap as_str k

-- A text is parsed as a topic exactly when it is that topic's wire name.
pub from_str_iff : (s : Text) (t : Topic) → (from_str s ≡ ok t) ↔ (s ≡ as_str t)
from_str_iff s t =
    (from_str_sound s t, λ e. subst (λ w. from_str w ≡ ok t) (sym e) (from_str-as_str t))
