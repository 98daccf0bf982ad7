-- ===== src/Imap/Client.antt =====
-- src/imap/client.rs: fetching one window of a folder. The session is that of the library
-- `async-imap`, with the deadlines of `timed` in its results: the parameter `session`.
pub mod Windows
pub mod Progress
use postblox.Common.{
  ℕ, ◌+◌, ◌-◌, max, Bool, true, false, ◌||◌, Option, none, some, List, [], ◌∷◌, ◌++◌, map, Result,
  ok, err, ◌>>=◌, ltb, ◌==◌, if◌then◌else◌, saturating_add, saturating_sub, unwrap_or,
}
use postblox.Common.Text.{Text, codes}
use postblox.Imap.{ImapError, timeout}

pub data Flag : Type 0 where
  seen answered flagged deleted draft recent may_create : Flag
  custom : Text → Flag

unfoldable pub flag_name : Flag → Text
flag_name seen = codes "\\Seen"
flag_name answered = codes "\\Answered"
flag_name flagged = codes "\\Flagged"
flag_name deleted = codes "\\Deleted"
flag_name draft = codes "\\Draft"
flag_name recent = codes "\\Recent"
flag_name may_create = codes "\\*"
flag_name (custom c) = c

-- What `SELECT` answers.
pub record Mailbox : Type 0 where
  pub uid_validity : Option ℕ
  pub uid_next : Option ℕ
  pub exists : ℕ

-- One answer to `UID FETCH`.
pub record Fetch : Type 0 where
  pub uid : Option ℕ
  pub flags : List Flag
  pub internal_date : Option ℕ
  pub body : Option (List ℕ)

-- `uid_fetch lo hi` asks for the range `lo:hi`; `none` is a body that passed the deadline.
pub record Session : Type 0 where
  pub select : Text → Result ImapError Mailbox
  pub uid_fetch : ℕ → ℕ → Result ImapError (Option (List (Result ImapError Fetch)))

pub record FetchedMessage : Type 0 where
  pub uid : ℕ
  pub flags : List Text
  pub internal_date : Option ℕ
  pub raw : List ℕ

pub record FolderSync : Type 0 where
  pub uid_validity : Option ℕ
  pub uid_next : Option ℕ
  pub exists : ℕ
  pub messages : List FetchedMessage
  pub window_hi : ℕ
  pub has_more : Bool

abbrev pub fetch_window : ℕ
fetch_window = 500

-- The range to ask for, the highest UID that it covers, and whether UIDs remain above.
pub record Window : Type 0 where
  pub lo : ℕ
  pub hi : ℕ
  pub has_more : Bool

unfoldable pub window : ℕ → Option ℕ → Window
window from none = record {
  lo = from;
  hi = saturating_add from (fetch_window - 1);
  has_more = false;
}
window from (some hi) =
    let top = saturating_add from (fetch_window - 1) in
    if ltb top hi
    then record { lo = from; hi = top; has_more = true }
    else record { lo = from; hi = hi; has_more = false }

abbrev pub server_hi : Option ℕ → Option ℕ
server_hi none = none
server_hi (some n) = some (saturating_sub n 1)

abbrev pub past : ℕ → Option ℕ → Bool
past from none = false
past from (some hi) = ltb hi from

unfoldable pub keep_fetch : Option ℕ → Option (List ℕ) → Fetch → List FetchedMessage
keep_fetch (some uid) (some raw) f =
    record { uid = uid; flags = map flag_name f.flags; internal_date = f.internal_date; raw = raw }
    ∷ []
keep_fetch _ _ f = []

-- Answers that failed, or that lack the UID or the body, are left out.
unfoldable pub keep_fetches : List (Result ImapError Fetch) → List FetchedMessage
unfolding keep_fetch
keep_fetches [] = []
keep_fetches (ok f ∷ fs) = keep_fetch f.uid f.body f ++ keep_fetches fs
keep_fetches (err e ∷ fs) = keep_fetches fs

abbrev pub collected :
    Option (List (Result ImapError Fetch)) → Result ImapError (List FetchedMessage)
collected none = err (timeout (codes "uid_fetch body"))
collected (some fs) = ok (keep_fetches fs)

abbrev pub synced : Mailbox → List FetchedMessage → ℕ → Bool → FolderSync
synced mailbox messages window_hi has_more = record {
  uid_validity = mailbox.uid_validity;
  uid_next = mailbox.uid_next;
  exists = mailbox.exists;
  messages = messages;
  window_hi = window_hi;
  has_more = has_more;
}

abbrev pub pull : Session → Mailbox → Window → Result ImapError FolderSync
pull session mailbox w = do
  stream ← session.uid_fetch w.lo w.hi
  messages ← collected stream
  ok (synced mailbox messages w.hi w.has_more)

-- Fetching with the answer to `SELECT` at hand.
unfoldable pub fetch_selected : Session → Mailbox → ℕ → Result ImapError FolderSync
unfolding window
fetch_selected session mailbox from_uid =
    let from = max from_uid 1 in
    let hi = server_hi mailbox.uid_next in
    if mailbox.exists == 0 || past from hi
    then ok (synced mailbox [] (unwrap_or (saturating_sub from 1) hi) false)
    else pull session mailbox (window from hi)

unfoldable pub fetch_uid_range : Session → Text → ℕ → Result ImapError FolderSync
fetch_uid_range session folder from_uid = do
  mailbox ← session.select folder
  fetch_selected session mailbox from_uid

-- `ImapSync::sync_folder` over a connector: each call opens a session, and logs out at its end.
unfoldable pub sync_folder : Result ImapError Session → Text → ℕ → Result ImapError FolderSync
sync_folder connected folder from_uid = do
  session ← connected
  fetch_uid_range session folder from_uid
