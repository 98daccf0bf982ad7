-- ===== src/Db/Messages.antt =====
-- src/db/messages.rs: the statements on the `messages` table that the reconciler runs.
pub mod Distinct
use postblox.Common.{
  ℕ, suc, ◌-◌, Bool, not, ◌&&◌, Option, some, List, [], ◌∷◌, ◌++◌, Result, ok, err, ◌==◌, any,
  select, length, if◌then◌else◌,
}
use postblox.Common.Text.{Text, codes}
use postblox.Db.{NewMessage, Message, Store, DbError, unique_violation}

-- `UNIQUE (folder_id, uid)`
abbrev pub at_uid : ℕ → ℕ → Message → Bool
at_uid folder uid m = m.row.folder_id == folder && m.row.uid == uid

unfoldable pub create : NewMessage → Store → Result DbError Message × Store
create new s =
    if any (at_uid new.folder_id new.uid) s.messages
    then (err (unique_violation (codes "messages.folder_id, messages.uid")), s)
    else (
      ok (record { id = s.next_id; row = new }),
      record s {
        messages = s.messages ++ (record { id = s.next_id; row = new } ∷ []);
        next_id = suc s.next_id;
      },
    )

-- The UIDs of the list that the folder has a row for.
unfoldable pub existing_uids : ℕ → List ℕ → Store → List ℕ
existing_uids folder [] s = []
existing_uids folder (uid ∷ uids) s =
    let rest = existing_uids folder uids s in
    if any (at_uid folder uid) s.messages then uid ∷ rest else rest

unfoldable pub delete : ℕ → Store → Store
delete id s = record s { messages = select (λ m. not (m.id == id)) s.messages }

abbrev outside : ℕ → Message → Bool
outside folder m = not (m.row.folder_id == folder)

-- The rows removed are counted.
unfoldable pub delete_all_in_folder : ℕ → Store → ℕ × Store
delete_all_in_folder folder s =
    let kept = select (outside folder) s.messages in
    (length s.messages - length kept, record s { messages = kept })

abbrev header_of : ℕ → Option ℕ → Option Text → List Text
header_of thread (some t) (some h) = if t == thread then h ∷ [] else []
header_of thread _ _ = []

-- The message identifiers of one thread. (The order in which the query returns them plays no
-- part: they are only searched.)
unfoldable pub message_ids_of : ℕ → List Message → List Text
message_ids_of thread [] = []
message_ids_of thread (m ∷ ms) =
    header_of thread m.row.thread_id m.row.message_id_header ++ message_ids_of thread ms
