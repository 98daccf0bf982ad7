-- ===== src/Sync/Tests/Managers.antt =====
-- A worker that is started twice, stopped, and started again before it has ended.
use postblox.Common.{◌≤◌, ◌≡◌, refl, not, false, List, [], ◌∷◌, length, select}
use postblox.Auth.{password, kind}
use postblox.Sync.Manager.{
  Action, starts, stops, cancels, lookup_worker, credential_source, start, take_worker,
  cancel_worker, act, act_all, new_manager,
}
use postblox.Sync.Manager.Sole.{goes_on, act_all-sole}
use postblox.Sync.Tests.{inbox}

abbrev actions : List Action
actions =
    starts 1 inbox (password [])
    ∷ (starts 1 inbox (password [])
        ∷ (stops 1 inbox ∷ (starts 1 inbox (password []) ∷ (cancels 0 ∷ []))))

act_all-sole_example :
    length (select (goes_on 1 inbox) (act_all actions (new_manager false false)).tasks) ≤ 1
act_all-sole_example = act_all-sole false false actions 1 inbox

-- The worker that the stop took still runs beside the new one.
both_run : length (select (λ t. not t.ended) (act_all actions (new_manager false false)).tasks) ≡ 2
unfolding act_all act start take_worker cancel_worker lookup_worker credential_source kind
both_run = refl

one_is_left :
    length (select (goes_on 1 inbox) (act_all actions (new_manager false false)).tasks) ≡ 1
unfolding act_all act start take_worker cancel_worker lookup_worker credential_source kind
one_is_left = refl
