-- ===== src/Db/Threads.antt =====
-- src/db/threads.rs: the statements on the `threads` table that the reconciler runs.
use postblox.Common.{
  ℕ, suc, max, Bool, true, false, not, ◌&&◌, ◌||◌, Option, none, some, List, [], ◌∷◌, ◌++◌, map,
  Result, ok, err, ◌==◌, ltb, any, select, take, length, if◌then◌else◌,
}
use postblox.Common.Text.{Text, codes, text_eq}
use postblox.Db.{Thread, Message, Store, DbError, unique_violation}

abbrev same_text : Text → Option Text → Bool
same_text t none = false
same_text t (some u) = text_eq t u

-- `UNIQUE (account_id, external_id)`: a missing identifier clashes with none.
unfoldable pub clashes : ℕ → Option Text → Thread → Bool
clashes account none t = false
clashes account (some e) t = t.account_id == account && same_text e t.external_id

abbrev pub new_thread : ℕ → Option Text → Option Text → ℕ → ℕ → Thread
new_thread account external_id subject now id = record {
  id = id;
  account_id = account;
  external_id = external_id;
  subject = subject;
  last_message_at = none;
  message_count = 0;
  created_at = now;
}

unfoldable pub create : ℕ → Option Text → Option Text → ℕ → Store → Result DbError Thread × Store
unfolding clashes
create account external_id subject now s =
    if any (clashes account external_id) s.threads
    then (err (unique_violation (codes "threads.account_id, threads.external_id")), s)
    else (
      ok (new_thread account external_id subject now s.next_id),
      record s {
        threads = s.threads ++ (new_thread account external_id subject now s.next_id ∷ []);
        next_id = suc s.next_id;
      },
    )

-- `ORDER BY last_message_at DESC NULLS LAST, created_at DESC`: whether the first may stand
-- before the second.
abbrev dated_before : Option ℕ → Option ℕ → Bool → Bool
dated_before (some a) (some b) tie = ltb b a || (a == b && tie)
dated_before (some a) none tie = true
dated_before none (some b) tie = false
dated_before none none tie = tie

abbrev stands_before : Thread → Thread → Bool
stands_before t u =
    dated_before t.last_message_at u.last_message_at (not (ltb t.created_at u.created_at))

abbrev insert : Thread → List Thread → List Thread
insert t [] = t ∷ []
insert t (u ∷ us) = let rest = insert t us in if stands_before t u then t ∷ (u ∷ us) else u ∷ rest

abbrev sort : List Thread → List Thread
sort [] = []
sort (t ∷ ts) = insert t (sort ts)

-- With no offset, and a limit within 1 and 500.
unfoldable pub list_recent : ℕ → ℕ → Store → List Thread
list_recent account limit s = take limit (sort (select (λ t. t.account_id == account) s.threads))

abbrev later : Option ℕ → ℕ → Option ℕ
later none when = some when
later (some t) when = if ltb t when then some when else some t

abbrev touch : ℕ → ℕ → Thread → Thread
touch id when t =
    if t.id == id then record t { last_message_at = later t.last_message_at when } else t

unfoldable pub touch_last_message_at : ℕ → ℕ → Store → Store
touch_last_message_at id when s = record s { threads = map (touch id when) s.threads }

abbrev in_thread : ℕ → Option ℕ → Bool
in_thread id none = false
in_thread id (some t) = t == id

abbrev newest : Option ℕ → ℕ → Option ℕ
newest none d = some d
newest (some n) d = some (max n d)

abbrev max_date : List Message → Option ℕ
max_date [] = none
max_date (m ∷ ms) = newest (max_date ms) m.row.internal_date

abbrev refresh : ℕ → List Message → Thread → Thread
refresh id ms t =
    let mine = select (λ m. in_thread id m.row.thread_id) ms in
    if t.id == id
    then record t { message_count = length mine; last_message_at = max_date mine }
    else t

unfoldable pub refresh_aggregates : ℕ → Store → Store
refresh_aggregates id s = record s { threads = map (refresh id s.messages) s.threads }
