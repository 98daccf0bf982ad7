-- ===== src/Ipc/Server/Subscriptions.antt =====
-- The subscriptions of one connection of src/ipc/server.rs, however its requests interleave: the
-- handlers of a connection run side by side, and between taking an identifier and the lock of the
-- subscriptions any other step may come.
use postblox.Common.{
  ℕ, zero, suc, ◌≤◌, ◌<◌, ◌≡◌, refl, subst, ◌↔◌, true, false, Option, none, some, List, [], ◌∷◌,
  ◌++◌, length, leb, ◌==◌, Result, ok, err, arith, Bool-cases, inl, inr,
}
use postblox.Common.Text.{Text}
use postblox.Ipc.Hub.{Topic}
use postblox.Ipc.Protocol.{Request, RpcError}
use postblox.Ipc.Server.{
  max_subs_per_conn, Connection, requested_topic, take_sub_id, put_sub, has_sub, drop_sub, register,
  handle_subscribe, handle_unsubscribe, subscribe_to, unsubscribe_from, id_arg,
}

abbrev pub Distinct : List (ℕ × Topic) → Type 0
Distinct [] = Unit
Distinct ((i, t) ∷ subs) = (has_sub i subs ≡ false) × Distinct subs

-- No more subscriptions than the limit, each with an identifier of its own
pub record IsWithin (c : Connection) : Type 0 where
  pub small : length c.subs ≤ max_subs_per_conn
  pub distinct : Distinct c.subs

length-put_sub :
    (id : ℕ) (topic : Topic) (subs : List (ℕ × Topic))
    → length (put_sub id topic subs) ≤ suc (length subs)
length-put_sub id topic [] = omega arith
length-put_sub id topic ((i, t) ∷ subs) = ground (arith, length-put_sub id topic subs)

has_sub-put_sub :
    (i id : ℕ) (topic : Topic) (subs : List (ℕ × Topic))
    → has_sub i subs ≡ false
    → id == i ≡ false
    → has_sub i (put_sub id topic subs) ≡ false
has_sub-put_sub i id topic [] h k = ground arith
has_sub-put_sub i id topic ((j, t) ∷ subs) h k = ground (arith, has_sub-put_sub i id topic subs)

put_sub-Distinct :
    (id : ℕ) (topic : Topic) (subs : List (ℕ × Topic))
    → Distinct subs
    → Distinct (put_sub id topic subs)
put_sub-Distinct id topic [] d = (refl, tt)
put_sub-Distinct id topic ((i, t) ∷ subs) d = elim (Bool-cases (i == id)) [
  | inl e ↦
      let same : i ≡ id = ground arith in rw e (subst (λ x. has_sub x subs ≡ false) same d.0, d.1)
  | inr e ↦
      rw e (has_sub-put_sub i id topic subs d.0 (ground arith), put_sub-Distinct id topic subs d.1)
]

has_sub-drop_sub :
    (i id : ℕ) (subs : List (ℕ × Topic))
    → has_sub i subs ≡ false
    → has_sub i (drop_sub id subs) ≡ false
has_sub-drop_sub i id [] h = refl
has_sub-drop_sub i id ((j, t) ∷ subs) h = ground (arith, has_sub-drop_sub i id subs)

drop_sub-IsWithin :
    (id n : ℕ) (subs : List (ℕ × Topic))
    → length subs ≤ n
    → Distinct subs
    → (length (drop_sub id subs) ≤ n) × Distinct (drop_sub id subs)
drop_sub-IsWithin id n [] h d = (h, tt)
drop_sub-IsWithin id zero ((i, t) ∷ subs) h d = absurd (omega arith)
drop_sub-IsWithin id (suc n) ((i, t) ∷ subs) h d =
    let (small, distinct) = drop_sub-IsWithin id n subs (omega arith) d.1 in
    elim (Bool-cases (i == id)) [
      | inl e ↦ rw e (omega arith, d.1)
      | inr e ↦ rw e (omega (arith, small), (has_sub-drop_sub i id subs d.0, distinct))
    ]

register-IsWithin :
    (req : Request) (name : Text) (topic : Topic) (id : ℕ) (c : Connection)
    → IsWithin c
    → IsWithin (register req name topic id c).1
unfolding register
register-IsWithin req name topic id c w =
    elim (Bool-cases (leb max_subs_per_conn (length c.subs))) [
      | inl full ↦ rw full w
      | inr room ↦ rw room (record {
        small = ground (arith, length-put_sub id topic c.subs, room);
        distinct = put_sub-Distinct id topic c.subs w.distinct;
      })
    ]

unsubscribe_from-IsWithin :
    (req : Request) (o : Option ℕ) (c : Connection)
    → IsWithin c
    → IsWithin (unsubscribe_from req o c).1
unsubscribe_from-IsWithin req none c w = w
unsubscribe_from-IsWithin req (some id) c w = elim (Bool-cases (has_sub id c.subs)) [
  | inl e ↦
      let (small, distinct) = drop_sub-IsWithin id max_subs_per_conn c.subs w.small w.distinct in
      rw e (record { small = small; distinct = distinct })
  | inr e ↦ rw e w
]

-- A subscribe request that has its identifier and waits for the lock
pub record Waiting : Type 0 where
  pub request : Request
  pub name : Text
  pub topic : Topic
  pub sub_id : ℕ

pub record Handlers : Type 0 where
  pub connection : Connection
  pub waiting : List Waiting

pub data Step (s : Handlers) : Handlers → Type 0 where
  take_id :
      (req : Request) (name : Text) (topic : Topic)
      → requested_topic req ≡ ok (name, topic)
      → Step s (record {
        connection = (take_sub_id s.connection).1;
        waiting =
            record {
              request = req;
              name = name;
              topic = topic;
              sub_id = (take_sub_id s.connection).0;
            }
            ∷ s.waiting;
      })
  take_lock :
      (before : List Waiting) (w : Waiting) (after : List Waiting)
      → s.waiting ≡ before ++ (w ∷ after)
      → Step s (record {
        connection = (register w.request w.name w.topic w.sub_id s.connection).1;
        waiting = before ++ after;
      })
  unsubscribe :
      (req : Request)
      → Step s
          (record { connection = (handle_unsubscribe req s.connection).1; waiting = s.waiting })

pub data Reach (s : Handlers) : Handlers → Type 0 where
  here : Reach s s
  next : {t u : Handlers} → Reach s t → Step t u → Reach s u

Step-IsWithin : {s t : Handlers} → Step s t → IsWithin s.connection → IsWithin t.connection
unfolding handle_unsubscribe
Step-IsWithin (take_id req name topic h) w = record { small = w.small; distinct = w.distinct }
Step-IsWithin {s} (take_lock before x after h) w =
    register-IsWithin x.request x.name x.topic x.sub_id s.connection w
Step-IsWithin {s} (unsubscribe req) w =
    unsubscribe_from-IsWithin req (id_arg req.args) s.connection w

-- A request that is handled with no other step between takes its identifier and then the lock.
handle_subscribe-Reach :
    (s : Handlers) (req : Request) (name : Text) (topic : Topic)
    → requested_topic req ≡ ok (name, topic)
    → Reach s (record { connection = (handle_subscribe req s.connection).1; waiting = s.waiting })
unfolding handle_subscribe
handle_subscribe-Reach s req name topic h =
    rw h (next (next here (take_id req name topic h)) (take_lock [] _ s.waiting refl))

-- However the handlers of a connection interleave, it has no more subscriptions than the limit,
-- and no two with one identifier.
pub Reach-IsWithin : {s t : Handlers} → IsWithin s.connection → Reach s t → IsWithin t.connection
Reach-IsWithin w here = w
Reach-IsWithin w (next r st) = Step-IsWithin st (Reach-IsWithin w r)

subscribe_to-ok :
    (req : Request) (c : Connection) (r : Result RpcError (Text × Topic))
    → ((subscribe_to req r c).0.is_ok ≡ true) ↔ (
        (name : Text) × (topic : Topic) × (r ≡ ok (name, topic))
        × (length c.subs < max_subs_per_conn))
unfolding register
subscribe_to-ok req c (err e) = (λ h. cc, λ h. cc (h.2))
subscribe_to-ok req c (ok (name, topic)) =
    (λ h. (name, topic, refl, ground arith), λ h. ground (arith, h.3))

-- A subscription is acknowledged exactly when the request names a topic and the connection has
-- room for one more.
pub handle_subscribe-ok_iff :
    (req : Request) (c : Connection)
    → ((handle_subscribe req c).0.is_ok ≡ true) ↔ (
        (name : Text) × (topic : Topic) × (requested_topic req ≡ ok (name, topic))
        × (length c.subs < max_subs_per_conn))
unfolding handle_subscribe
handle_subscribe-ok_iff req c = subscribe_to-ok req c (requested_topic req)
