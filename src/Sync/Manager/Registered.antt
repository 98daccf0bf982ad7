-- ===== src/Sync/Manager/Registered.antt =====
-- The map of src/sync/manager.rs has every task that runs and that no stop has taken.
use postblox.Common.{
  ℕ, ◌≡◌, refl, sym, ap, ◌∙◌, subst, Bool, true, false, not, ◌&&◌, some, List, [], ◌∷◌, map, ◌==◌,
  In, here, there, any_complete, Bool-cases, Option-cases, ==_iff, ==_refl, inl, inr, arith,
}
use postblox.Common.Text.{Text}
use postblox.Common.Text.Equality.{text_eq_refl}
use postblox.Auth.{MailCredential}
use postblox.Sync.Manager.{
  Task, Manager, lookup_worker, remove_worker, is_running, spawned, start, handed, take_worker,
  is_registered, take_workers, cancelled_by, cancel_worker, aborted_by, abort_worker, returns,
  worker_returns, Action, starts, stops, stops_all, cancels, aborts, worker_ends, act, act_all,
  new_manager,
}
use postblox.Sync.Manager.Keys.{same_key, lookup_worker-remove_worker, lookup_worker-registered}

-- A task that no stop has taken and that has not ended.
pub record Live (t : Task) : Type 0 where
  pub going : t.stopping ≡ false
  pub unended : t.ended ≡ false

-- The map has every live task under its key.
unfoldable pub Registered : Manager → Type 0
Registered m =
    (t : Task)
    → In t m.tasks
    → Live t
    → lookup_worker t.account_id t.folder_name m.workers ≡ some t.id

In-map_back {ℓ κ} :
    {A : Type ℓ} {B : Type κ} (f : A → B) {b : B} (xs : List A)
    → In b (map f xs)
    → (a : A) × In a xs × (b ≡ f a)
In-map_back f [] i = elim i [ ]
In-map_back f (x ∷ xs) (here e) = (x, here refl, e)
In-map_back f (x ∷ xs) (there i) = let (a, j, e) = In-map_back f xs i in (a, there j, e)

start-Registered :
    (account : ℕ) (folder : Text) (credential : MailCredential) (m : Manager)
    → Registered m
    → Registered (start account folder credential m).1
unfolding start Registered lookup_worker
start-Registered account folder credential m r =
    elim (Bool-cases (is_running (lookup_worker account folder m.workers) m.tasks)) [
      | inl e ↦ rw e r
      | inr e ↦ rw e (λ t i l. added e t i l)
    ]
  where
    old :
        is_running (lookup_worker account folder m.workers) m.tasks ≡ false
        → (t : Task) → In t m.tasks
        → Live t
        → lookup_worker t.account_id t.folder_name (
            record { account_id = account; folder_name = folder; task = m.next_task }
            ∷ remove_worker account folder m.workers)
          ≡ some t.id
    old e t i l = elim (same_key account t.account_id folder t.folder_name) [
      | inr k ↦ rw k (
          lookup_worker-remove_worker account t.account_id folder t.folder_name m.workers k
          ∙ r t i l)
      | inl (a, f) ↦
          let found : lookup_worker account folder m.workers ≡ some t.id =
            subst (λ b. lookup_worker b folder m.workers ≡ some t.id) (sym a)
              (subst (λ g. lookup_worker t.account_id g m.workers ≡ some t.id) (sym f) (r t i l)) in
          let runs : is_running (some t.id) m.tasks ≡ true =
            any_complete (λ u. u.id == t.id && not u.ended) i (rw (==_refl t.id, l.unended) refl) in
          absurd (cc (sym e ∙ ap (λ o. is_running o m.tasks) found ∙ runs))
    ]

    added :
        is_running (lookup_worker account folder m.workers) m.tasks ≡ false
        → (t : Task) → In t (spawned account folder credential m ∷ m.tasks)
        → Live t
        → lookup_worker t.account_id t.folder_name (
            record { account_id = account; folder_name = folder; task = m.next_task }
            ∷ remove_worker account folder m.workers)
          ≡ some t.id
    added e t (here k) l =
        subst
          (λ (u : Task).
            lookup_worker u.account_id u.folder_name (
              record { account_id = account; folder_name = folder; task = m.next_task }
              ∷ remove_worker account folder m.workers)
            ≡ some u.id)
          (sym k) (rw (==_refl account, text_eq_refl folder) refl)
    added e t (there i) l = old e t i l

-- A live task among those that a stop takes from is one that was not chosen.
Live-handed :
    (chosen : ℕ → Bool) (t u : Task)
    → t ≡ handed chosen u
    → Live t
    → (chosen u.id ≡ false) × (t ≡ u)
Live-handed chosen t u e l = elim (Bool-cases (chosen u.id)) [
  | inl c ↦
      let k : t ≡ record u { stopping = true } = rw c at e in
      absurd (cc (sym l.going ∙ ap (λ (v : Task). v.stopping) k))
  | inr c ↦ (c, rw c at e)
]

take_worker-Registered :
    (account : ℕ) (folder : Text) (m : Manager)
    → Registered m
    → Registered (take_worker account folder m).1
unfolding take_worker Registered
take_worker-Registered account folder m r =
    elim (Option-cases (lookup_worker account folder m.workers)) [
      | inl e ↦ rw e r
      | inr (id, e) ↦ rw e (λ t i l. left id e t i l)
    ]
  where
    left :
        (id : ℕ)
        → lookup_worker account folder m.workers ≡ some id
        → (t : Task) → In t (map (handed (λ i. i == id)) m.tasks)
        → Live t
        → lookup_worker t.account_id t.folder_name (remove_worker account folder m.workers)
          ≡ some t.id
    left id e t i l =
        let (u, j, k) = In-map_back (handed (λ i. i == id)) m.tasks i in
        let (unchosen, same) = Live-handed (λ i. i == id) t u k l in
        let there_it_is = r t (subst (λ (v : Task). In v m.tasks) (sym same) j) l in
        elim (same_key account t.account_id folder t.folder_name) [
          | inr k ↦
              lookup_worker-remove_worker account t.account_id folder t.folder_name m.workers k
              ∙ there_it_is
          | inl (a, f) ↦
              let found : lookup_worker account folder m.workers ≡ some t.id =
                subst (λ b. lookup_worker b folder m.workers ≡ some t.id) (sym a)
                  (subst (λ g. lookup_worker t.account_id g m.workers ≡ some t.id) (sym f)
                    there_it_is) in
              let one : id ≡ t.id = cc (sym e ∙ found) in
              let two : t.id ≡ u.id = ap (λ (v : Task). v.id) same in
              absurd (cc (sym unchosen ∙ (==_iff u.id id).1 (sym two ∙ sym one)))
        ]

take_workers-Registered : (m : Manager) → Registered m → Registered (take_workers m)
unfolding take_workers Registered
take_workers-Registered m r t i l =
    let (u, j, k) = In-map_back (handed (is_registered m.workers)) m.tasks i in
    let (unchosen, same) = Live-handed (is_registered m.workers) t u k l in
    let found = r t (subst (λ (v : Task). In v m.tasks) (sym same) j) l in
    let two : t.id ≡ u.id = ap (λ (v : Task). v.id) same in
    absurd (
      cc (
        sym unchosen
        ∙ subst (λ n. is_registered m.workers n ≡ true) two
            (lookup_worker-registered t.account_id t.folder_name m.workers t.id found)))

-- A change of the tasks that keeps their keys and makes no task live
record Tame (f : Task → Task) : Type 0 where
  same_id : (t : Task) → (f t).id ≡ t.id
  same_account : (t : Task) → (f t).account_id ≡ t.account_id
  same_folder : (t : Task) → (f t).folder_name ≡ t.folder_name
  was_live : (t : Task) → Live (f t) → Live t

map-Registered :
    (f : Task → Task) (m : Manager)
    → Tame f
    → Registered m
    → Registered (record m { tasks = map f m.tasks })
unfolding Registered
map-Registered f m w r t i l =
    let (u, j, k) = In-map_back f m.tasks i in
    let found = r u j (w.was_live u (subst Live k l)) in
    let a = w.same_account u in
    let b = w.same_folder u in
    let c = w.same_id u in
    ap (λ (v : Task). lookup_worker v.account_id v.folder_name m.workers) k
    ∙ ap (λ n. lookup_worker n (f u).folder_name m.workers) a
    ∙ ap (λ g. lookup_worker u.account_id g m.workers) b
    ∙ found
    ∙ ap some (sym c ∙ sym (ap (λ (v : Task). v.id) k))

returns-Tame : (id : ℕ) → Tame (returns id)
returns-Tame id = record {
  same_id = λ t. ground arith;
  same_account = λ t. ground arith;
  same_folder = λ t. ground arith;
  was_live = λ t l. record { going = ground (arith, l.going); unended = ground (arith, l.unended) };
}

cancelled_by-Tame : (id : ℕ) → Tame (cancelled_by id)
cancelled_by-Tame id = record {
  same_id = λ t. ground arith;
  same_account = λ t. ground arith;
  same_folder = λ t. ground arith;
  was_live = λ t l. record { going = ground (arith, l.going); unended = ground (arith, l.unended) };
}

aborted_by-Tame : (id : ℕ) → Tame (aborted_by id)
aborted_by-Tame id = record {
  same_id = λ t. ground arith;
  same_account = λ t. ground arith;
  same_folder = λ t. ground arith;
  was_live = λ t l. record { going = ground (arith, l.going); unended = ground (arith, l.unended) };
}

act-Registered : (a : Action) (m : Manager) → Registered m → Registered (act a m)
unfolding act cancel_worker abort_worker worker_returns
act-Registered (starts a f c) m r = start-Registered a f c m r
act-Registered (stops a f) m r = take_worker-Registered a f m r
act-Registered stops_all m r = take_workers-Registered m r
act-Registered (cancels id) m r = map-Registered (cancelled_by id) m (cancelled_by-Tame id) r
act-Registered (aborts id) m r = map-Registered (aborted_by id) m (aborted_by-Tame id) r
act-Registered (worker_ends id) m r = map-Registered (returns id) m (returns-Tame id) r

pub act_all-Registered :
    (actions : List Action) (m : Manager) → Registered m → Registered (act_all actions m)
unfolding act_all
act_all-Registered [] m r = r
act_all-Registered (a ∷ actions) m r = act_all-Registered actions _ (act-Registered a m r)

pub new_manager-Registered :
    (has_idle has_resolver : Bool) → Registered (new_manager has_idle has_resolver)
unfolding Registered
new_manager-Registered has_idle has_resolver v h _ = elim h [ ]

pub registered :
    (m : Manager)
    → Registered m
    → (t : Task) → In t m.tasks
    → Live t
    → lookup_worker t.account_id t.folder_name m.workers ≡ some t.id
unfolding Registered
registered m r = r
