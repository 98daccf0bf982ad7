-- ===== src/Sync/Manager/Sole.antt =====
-- How many tasks of one account and folder run in src/sync/manager.rs.
use postblox.Common.{
  ℕ, suc, ◌≤◌, ◌<◌, ◌≡◌, ◌≢◌, refl, sym, ap, ◌∙◌, subst, Bool, true, not, ◌&&◌, unwrap_or, List, [],
  ◌∷◌, map, length, select, ◌==◌, In, here, there, All, Bool-cases, Option-cases, ==_iff, inl, inr,
  arith, and-eq-true,
}
use postblox.Common.Text.{Text, text_eq}
use postblox.Common.Text.Equality.{text_eq_iff}
use postblox.Auth.{MailCredential}
use postblox.Sync.Manager.{
  Task, Manager, lookup_worker, is_running, start, handed, take_worker, is_registered, take_workers,
  cancelled_by, cancel_worker, aborted_by, abort_worker, returns, worker_returns, Action, starts,
  stops, stops_all, cancels, aborts, worker_ends, act, act_all, new_manager,
}
use postblox.Sync.Manager.Registered.{
  Live, Registered, act_all-Registered, new_manager-Registered, registered,
}

-- The tasks have different identifiers, all below the bound.
abbrev Numbered : ℕ → List Task → Type 0
Numbered n [] = Unit
Numbered n (t ∷ ts) = (t.id < n) × (All (λ u. u.id ≢ t.id) ts × Numbered n ts)

above_all : (n : ℕ) (ts : List Task) → Numbered n ts → All (λ u. u.id ≢ n) ts × Numbered (suc n) ts
above_all n [] h = (tt, tt)
above_all n (t ∷ ts) h =
    let (apart, rest) = above_all n ts h.1.1 in
    (
      ((λ e. let below : t.id < n = h.0 in omega arith), apart),
      (let below : t.id < n = h.0 in omega arith, (h.1.0, rest)),
    )

module _ (f : Task → Task) (same : (t : Task) → (f t).id ≡ t.id) where
  map-apart : (n : ℕ) (ts : List Task) → All (λ u. u.id ≢ n) ts → All (λ u. u.id ≢ n) (map f ts)
  map-apart n [] h = tt
  map-apart n (t ∷ ts) h = ((λ e. h.0 (sym (same t) ∙ e)), map-apart n ts h.1)

  map-Numbered : (n : ℕ) (ts : List Task) → Numbered n ts → Numbered n (map f ts)
  map-Numbered n [] h = tt
  map-Numbered n (t ∷ ts) h = (
    subst (λ i. i < n) (sym (same t)) h.0,
    (
      subst (λ i. All (λ u. u.id ≢ i) (map f ts)) (sym (same t)) (map-apart t.id ts h.1.0),
      map-Numbered n ts h.1.1,
    ),
  )

unfoldable IsNumbered : Manager → Type 0
IsNumbered m = Numbered m.next_task m.tasks

start-IsNumbered :
    (account : ℕ) (folder : Text) (credential : MailCredential) (m : Manager)
    → IsNumbered m
    → IsNumbered (start account folder credential m).1
unfolding start
start-IsNumbered account folder credential m h =
    elim (Bool-cases (is_running (lookup_worker account folder m.workers) m.tasks)) [
      | inl e ↦ rw e h
      | inr e ↦ rw e (
          unfold IsNumbered in
          let (apart, rest) = above_all m.next_task m.tasks h in (omega arith, (apart, rest)))
    ]

take_worker-IsNumbered :
    (account : ℕ) (folder : Text) (m : Manager)
    → IsNumbered m
    → IsNumbered (take_worker account folder m).1
unfolding take_worker
take_worker-IsNumbered account folder m h =
    elim (Option-cases (lookup_worker account folder m.workers)) [
      | inl e ↦ rw e h
      | inr (id, e) ↦ rw e (
          unfold IsNumbered in
          map-Numbered (handed (λ i. i == id)) (λ t. ground arith) m.next_task m.tasks h)
    ]

act-IsNumbered : (a : Action) (m : Manager) → IsNumbered m → IsNumbered (act a m)
unfolding IsNumbered act take_workers cancel_worker abort_worker worker_returns
act-IsNumbered (starts account folder credential) m h =
    start-IsNumbered account folder credential m h
act-IsNumbered (stops account folder) m h = take_worker-IsNumbered account folder m h
act-IsNumbered stops_all m h =
    map-Numbered (handed (is_registered m.workers)) (λ t. ground arith) m.next_task m.tasks h
act-IsNumbered (cancels id) m h =
    map-Numbered (cancelled_by id) (λ t. ground arith) m.next_task m.tasks h
act-IsNumbered (aborts id) m h =
    map-Numbered (aborted_by id) (λ t. ground arith) m.next_task m.tasks h
act-IsNumbered (worker_ends id) m h =
    map-Numbered (returns id) (λ t. ground arith) m.next_task m.tasks h

act_all-IsNumbered :
    (actions : List Action) (m : Manager) → IsNumbered m → IsNumbered (act_all actions m)
unfolding act_all
act_all-IsNumbered [] m h = h
act_all-IsNumbered (a ∷ actions) m h = act_all-IsNumbered actions (act a m) (act-IsNumbered a m h)

module _ (p : Task → Bool) (n : ℕ) where
  none_left :
      (ts : List Task)
      → All (λ u. u.id ≢ n) ts
      → ((t : Task) → In t ts → p t ≡ true → t.id ≡ n)
      → length (select p ts) ≡ 0
  none_left [] h k = refl
  none_left (t ∷ ts) h k = elim (Bool-cases (p t)) [
    | inl e ↦ absurd (h.0 (k t (here refl) e))
    | inr e ↦ rw e (none_left ts h.1 (λ u i. k u (there i)))
  ]

  at_most_one :
      (bound : ℕ) (ts : List Task)
      → Numbered bound ts
      → ((t : Task) → In t ts → p t ≡ true → t.id ≡ n)
      → length (select p ts) ≤ 1
  at_most_one bound [] h k = omega arith
  at_most_one bound (t ∷ ts) h k = elim (Bool-cases (p t)) [
    | inl e ↦
        let here_it_is : t.id ≡ n = k t (here refl) e in
        let rest =
          none_left ts (subst (λ i. All (λ u. u.id ≢ i) ts) here_it_is h.1.0)
            (λ u i. k u (there i)) in
        rw e (omega (arith, rest))
    | inr e ↦ rw e (at_most_one bound ts h.1.1 (λ u i. k u (there i)))
  ]

-- A worker of the account's folder that runs, and that no stop has taken
abbrev pub goes_on : ℕ → Text → Task → Bool
goes_on account folder t =
    t.account_id == account && (text_eq t.folder_name folder && (not t.stopping && not t.ended))

-- However starts, stops with their cancellations and aborts, and the ends of workers follow each
-- other, at most one of the workers of an account's folder that run was not taken by a stop.
pub act_all-sole :
    (has_idle has_resolver : Bool) (actions : List Action) (account : ℕ) (folder : Text)
    → length (
        select (goes_on account folder) (act_all actions (new_manager has_idle has_resolver)).tasks)
      ≤ 1
unfolding IsNumbered
act_all-sole has_idle has_resolver actions account folder =
    let m = act_all actions (new_manager has_idle has_resolver) in
    at_most_one (goes_on account folder) (unwrap_or 0 (lookup_worker account folder m.workers))
      m.next_task m.tasks (act_all-IsNumbered actions (new_manager has_idle has_resolver) tt)
      (looked_up m (
        act_all-Registered actions (new_manager has_idle has_resolver)
          (new_manager-Registered has_idle has_resolver)))
  where
    looked_up :
        (m : Manager)
        → Registered m
        → (t : Task) → In t m.tasks
        → goes_on account folder t ≡ true
        → t.id ≡ unwrap_or 0 (lookup_worker account folder m.workers)
    looked_up m r t i h =
        let (a, h₁) = and-eq-true (t.account_id == account) _ h in
        let (f, h₂) = and-eq-true (text_eq t.folder_name folder) _ h₁ in
        let live : Live t = record { going = ground arith; unended = ground arith } in
        let found = registered m r t i live in
        sym (
          ap (unwrap_or 0) (
            ap (λ n. lookup_worker n folder m.workers) (sym ((==_iff t.account_id account).0 a))
            ∙ ap (λ g. lookup_worker t.account_id g m.workers)
                (sym ((text_eq_iff t.folder_name folder).0 f))
            ∙ found))
