-- ===== src/Ipc/Server.antt =====
-- src/ipc/server.rs: the subscriptions of a connection, and what answers a request. The task that
-- forwards events is a library's; a subscription is its identifier and its topic.
pub mod Subscriptions
pub mod Tests
use postblox.Common.{
  ℕ, ◌+◌, ◌%◌, ◌^◌, Bool, true, false, ◌||◌, Option, none, some, List, [], ◌∷◌, ◌++◌, length, leb,
  ◌==◌, if◌then◌else◌, Result, ok, err,
}
use postblox.Common.Text.{Text, codes, text_eq, decimal}
use postblox.Json.{Value, bool, number, string, object, pos_int, end, member, as_str, get_field}
use postblox.Daemon.Op.{Op, parse_op}
use postblox.Ipc.Hub.{Topic, from_str}
use postblox.Ipc.Protocol.{
  Request, Response, RpcError, rpc_error, bad_args, unknown_op_error, response_ok, response_err,
}

abbrev pub max_subs_per_conn : ℕ
max_subs_per_conn = 32

pub record Connection : Type 0 where
  pub subs : List (ℕ × Topic)
  pub next_sub_id : ℕ

abbrev text_arg : Text → Value → Option Text
text_arg key args = elim (get_field key args) [ none ↦ none | some v ↦ as_str v ]

abbrev as_u64 : Value → Option ℕ
as_u64 (number (pos_int n)) = some n
as_u64 _ = none

abbrev pub id_arg : Value → Option ℕ
id_arg args = elim (get_field (codes "sub_id") args) [ none ↦ none | some v ↦ as_u64 v ]

abbrev known_topic : Text → Result RpcError (Text × Topic)
known_topic name = elim (from_str name) [
  | ok topic ↦ ok (name, topic)
  | err e ↦ err (bad_args (codes "unknown topic '" ++ (name ++ codes "'")))
]

abbrev named_topic : Option Text → Result RpcError (Text × Topic)
named_topic none = err (bad_args (codes "missing 'topic'"))
named_topic (some name) = known_topic name

-- The topic that a request names, before anything is changed
abbrev pub requested_topic : Request → Result RpcError (Text × Topic)
requested_topic req = named_topic (text_arg (codes "topic") req.args)

-- `next_sub_id.fetch_add(1)` of an `AtomicU64`
abbrev pub take_sub_id : Connection → ℕ × Connection
take_sub_id c = (c.next_sub_id, record c { next_sub_id = (c.next_sub_id + 1) % 2 ^ 64 })

-- `HashMap::insert` and `HashMap::remove`
abbrev pub put_sub : ℕ → Topic → List (ℕ × Topic) → List (ℕ × Topic)
put_sub id topic [] = (id, topic) ∷ []
put_sub id topic ((i, t) ∷ subs) =
    let rest = put_sub id topic subs in if i == id then (id, topic) ∷ subs else (i, t) ∷ rest

abbrev pub has_sub : ℕ → List (ℕ × Topic) → Bool
has_sub id [] = false
has_sub id ((i, t) ∷ subs) = i == id || has_sub id subs

abbrev pub drop_sub : ℕ → List (ℕ × Topic) → List (ℕ × Topic)
drop_sub id [] = []
drop_sub id ((i, t) ∷ subs) = let rest = drop_sub id subs in if i == id then subs else (i, t) ∷ rest

abbrev too_many : RpcError
too_many =
    rpc_error (codes "too_many_subs")
      (codes "subscription limit (" ++ (decimal max_subs_per_conn ++ codes ") reached"))

-- What is done under the lock of the subscriptions: the limit is tested and the entry made.
unfoldable pub register : Request → Text → Topic → (sub_id : ℕ) → Connection → Response × Connection
register req name topic sub_id c =
    if leb max_subs_per_conn (length c.subs) then (response_err req.id too_many, c) else (
      response_ok req.id (
          object (
            member (codes "sub_id") (number (pos_int sub_id))
              (member (codes "topic") (string name) end))),
      record c { subs = put_sub sub_id topic c.subs },
    )

abbrev pub subscribe_to :
    Request → Result RpcError (Text × Topic) → Connection → Response × Connection
subscribe_to req (err e) c = (response_err req.id e, c)
subscribe_to req (ok (name, topic)) c = register req name topic (take_sub_id c).0 (take_sub_id c).1

unfoldable pub handle_subscribe : Request → Connection → Response × Connection
handle_subscribe req c = subscribe_to req (requested_topic req) c

abbrev pub unsubscribe_from : Request → Option ℕ → Connection → Response × Connection
unsubscribe_from req none c = (response_err req.id (bad_args (codes "missing 'sub_id'")), c)
unsubscribe_from req (some id) c =
    if has_sub id c.subs
    then (
      response_ok req.id (object (member (codes "unsubscribed") (bool true) end)),
      record c { subs = drop_sub id c.subs },
    )
    else (
      response_err req.id
          (rpc_error (codes "unknown_sub") (codes "no subscription with id " ++ decimal id)),
      c,
    )

unfoldable pub handle_unsubscribe : Request → Connection → Response × Connection
handle_unsubscribe req c = unsubscribe_from req (id_arg req.args) c

module _ (dispatch : Op → Value → Result RpcError Value) where
  abbrev dispatched : ℕ → Result RpcError Value → Response
  dispatched id (ok payload) = response_ok id payload
  dispatched id (err e) = response_err id e

  abbrev operation : Request → Response
  operation req = elim (parse_op req.op) [
    | ok op ↦ dispatched req.id (dispatch op req.args)
    | err e ↦ response_err req.id (unknown_op_error req.op)
  ]

  unfoldable pub respond : Request → Connection → Response × Connection
  respond req c =
      if text_eq req.op (codes "subscribe")
      then handle_subscribe req c
      else if text_eq req.op (codes "unsubscribe")
      then handle_unsubscribe req c
      else if text_eq req.op (codes "ping")
      then (response_ok req.id (object (member (codes "pong") (bool true) end)), c)
      else (operation req, c)
