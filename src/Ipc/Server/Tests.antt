-- ===== src/Ipc/Server/Tests.antt =====
-- Two handlers on one connection: both take an identifier before the first takes the lock.
use postblox.Common.{ℕ, ◌≡◌, refl, [], ◌∷◌, ok, arith}
use postblox.Common.Text.{Text, codes}
use postblox.Json.{string, object, end, member}
use postblox.Ipc.Hub.{sync_state, from_str}
use postblox.Ipc.Protocol.{Request}
use postblox.Ipc.Server.{register, requested_topic}
use postblox.Ipc.Server.Subscriptions.{
  IsWithin, Waiting, Handlers, take_id, take_lock, Reach, here, next, Reach-IsWithin,
}

abbrev topic_name : Text
topic_name = codes "sync.state"

abbrev ask : Request
ask = record {
  id = 5;
  op = codes "subscribe";
  args = object (member (codes "topic") (string topic_name) end);
}

abbrev waiter : ℕ → Waiting
waiter n = record { request = ask; name = topic_name; topic = sync_state; sub_id = n }

abbrev opened : Handlers
opened = record { connection = record { subs = []; next_sub_id = 1 }; waiting = [] }

abbrev both_wait : Handlers
both_wait = record {
  connection = record { subs = []; next_sub_id = 3 };
  waiting = waiter 2 ∷ (waiter 1 ∷ []);
}

abbrev one_served : Handlers
one_served = record {
  connection = (register ask topic_name sync_state 1 both_wait.connection).1;
  waiting = waiter 2 ∷ [];
}

requested_topic-ask : requested_topic ask ≡ ok (topic_name, sync_state)
unfolding from_str
requested_topic-ask = refl

interleaved : Reach opened one_served
interleaved =
    next
      (next (next here (take_id ask topic_name sync_state requested_topic-ask))
        (take_id ask topic_name sync_state requested_topic-ask))
      (take_lock (waiter 2 ∷ []) (waiter 1) [] refl)

Reach-IsWithin_example : IsWithin one_served.connection
Reach-IsWithin_example =
    Reach-IsWithin {s = opened} (record { small = omega arith; distinct = tt }) interleaved
