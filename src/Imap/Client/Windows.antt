-- ===== src/Imap/Client/Windows.antt =====
-- What one window covers (src/imap/client.rs).
use postblox.Common.{
  ℕ, ◌-◌, ◌≤◌, ◌<◌, ◌≡◌, ◌≢◌, refl, sym, subst, max, true, false, ◌||◌, Option, none, some, List,
  [], Result, ok, ◌⊎◌, ◌>>=◌, >>=-eq-ok, In, inl, inr, Bool-cases, ltb→lt, ==_iff, or-eq-true,
  saturating_add, ◌==◌, ltb,
}
use postblox.Common.Text.{Text}
use postblox.Imap.{ImapError}
use postblox.Imap.Client.{
  Session, Mailbox, Fetch, FetchedMessage, FolderSync, Window, window, server_hi, past,
  keep_fetches, synced, fetch_selected, pull, collected,
}

-- A session on a folder of which the server reports UIDNEXT, with the messages that it holds.
pub record Holds (session : Session) (folder : Text) (content : List FetchedMessage) : Type 0 where
  pub mailbox : Mailbox
  pub next : ℕ
  pub selects : session.select folder ≡ ok mailbox
  pub reports : mailbox.uid_next ≡ some next
  pub counts : (m : FetchedMessage) → In m content → mailbox.exists ≢ 0
  pub valid : (m : FetchedMessage) → In m content → (1 ≤ m.uid) × (m.uid < next)
  pub answers :
      (lo hi : ℕ) (fs : List (Result ImapError Fetch)) (m : FetchedMessage)
      → session.uid_fetch lo hi ≡ ok (some fs)
      → In m content
      → lo ≤ m.uid
      → m.uid ≤ hi
      → In m (keep_fetches fs)

pub pull-ok :
    (session : Session) (mailbox : Mailbox) (w : Window) (r : FolderSync)
    → pull session mailbox w ≡ ok r
    → (fs : List (Result ImapError Fetch)) × (session.uid_fetch w.lo w.hi ≡ ok (some fs))
      × (r ≡ synced mailbox (keep_fetches fs) w.hi w.has_more)
pull-ok session mailbox w r h =
    let (stream, fetched, rest) = >>=-eq-ok (session.uid_fetch w.lo w.hi) _ h in
    go stream fetched rest
  where
    go :
        (stream : Option (List (Result ImapError Fetch)))
        → session.uid_fetch w.lo w.hi ≡ ok stream
        → (collected stream >>= λ messages. ok (synced mailbox messages w.hi w.has_more)) ≡ ok r
        → (fs : List (Result ImapError Fetch)) × (session.uid_fetch w.lo w.hi ≡ ok (some fs))
          × (r ≡ synced mailbox (keep_fetches fs) w.hi w.has_more)
    go none fetched rest = absurd (cc rest)
    go (some fs) fetched rest = (fs, fetched, cc rest)

empty_or_past : (n a b : ℕ) → (n == 0 || ltb a b) ≡ true → (n ≡ 0) ⊎ (a < b)
empty_or_past n a b h = elim (or-eq-true (n == 0) (ltb a b) h) [
  | inl e ↦ inl ((==_iff n 0).0 e)
  | inr e ↦ inr (ltb→lt a b e)
]

-- A window reaches to the end, or it is full and more is left.
pub window_cases :
    (from hi : ℕ)
    → (((window from (some hi)).hi ≡ hi) × ((window from (some hi)).has_more ≡ false))
      ⊎ (((window from (some hi)).hi ≡ saturating_add from 499)
          × ((window from (some hi)).has_more ≡ true)
          × (saturating_add from 499 < hi))
unfolding window
window_cases from hi = elim (Bool-cases (ltb (saturating_add from 499) hi)) [
  | inl e ↦ inr (rw e, rw e, ltb→lt (saturating_add from 499) hi e)
  | inr e ↦ inl (rw e, rw e)
]

pub window-lo : (from : ℕ) (hi : Option ℕ) → (window from hi).lo ≡ from
unfolding window
window-lo from none = refl
window-lo from (some hi) = elim (Bool-cases (ltb (saturating_add from 499) hi)) [
  | inl e ↦ rw e
  | inr e ↦ rw e
]

-- How an answer comes about where UIDNEXT is known: there is nothing to fetch, or a window is.
pub fetch_selected_cases :
    (session : Session) (mailbox : Mailbox) (next from_uid : ℕ) (r : FolderSync)
    → mailbox.uid_next ≡ some next
    → fetch_selected session mailbox from_uid ≡ ok r
    → ((r ≡ synced mailbox [] (next - 1) false)
        × ((mailbox.exists ≡ 0) ⊎ (next - 1 < max from_uid 1)))
      ⊎ ((fs : List (Result ImapError Fetch)) × (session.uid_fetch
              (max from_uid 1)
              (window (max from_uid 1) (some (next - 1))).hi
            ≡ ok (some fs))
          × (r
              ≡ synced mailbox
                  (keep_fetches fs)
                  (window (max from_uid 1) (some (next - 1))).hi
                  (window (max from_uid 1) (some (next - 1))).has_more))
unfolding fetch_selected
fetch_selected_cases session mailbox next from_uid r u h =
    elim (Bool-cases (mailbox.exists == 0 || ltb (next - 1) (max from_uid 1))) [
      | inl e ↦
          inl (cc (rw (u, e) at h), empty_or_past mailbox.exists (next - 1) (max from_uid 1) e)
      | inr e ↦
          let from = max from_uid 1 in
          let w = window from (server_hi mailbox.uid_next) in
          let (fs, fetched, same) = pull-ok session mailbox w r (rw (nonempty e) at h) in
          inr (
            fs,
            subst (λ o. session.uid_fetch from (window from (server_hi o)).hi ≡ ok (some fs)) u
                (subst (λ lo. session.uid_fetch lo w.hi ≡ ok (some fs)) (window-lo from _) fetched),
            subst
                (λ o.
                  r
                  ≡ synced mailbox (keep_fetches fs) (window from (server_hi o)).hi
                      (window from (server_hi o)).has_more)
                u same,
          )
    ]
  where
    nonempty :
        (mailbox.exists == 0 || ltb (next - 1) (max from_uid 1)) ≡ false
        → (mailbox.exists == 0 || past (max from_uid 1) (server_hi mailbox.uid_next)) ≡ false
    nonempty e =
        subst (λ o. (mailbox.exists == 0 || past (max from_uid 1) (server_hi o)) ≡ false) (sym u) e
