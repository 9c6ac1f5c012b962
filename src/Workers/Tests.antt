-- ===== src/Workers/Tests.antt =====
-- Concrete inputs for the theorems on the workers.
use gamnet.Prelude.{
  ℕ, ◌<◌, ◌≡◌, ◌≢◌, refl, inl, arith, true, false, List, [], ◌∷◌, ◌++◌, none, some, ok,
}
use gamnet.Workers.{
  empty, waiting, joining, open_, Workers, new_workers, Act, enters, tests, waits, leaves, posts,
  stops, notifies, Can, step, Runs, enter, test, post_task, all_posted, started,
}
use gamnet.Workers.Order.{Runs-in_order}
use gamnet.Workers.Safety.{IsSafe, awake, Runs-total}
use gamnet.Workers.Waking.{stopped_late, Runs-watched, lost_wake_up}

-- One worker; a task is posted, and the worker takes the lock and sees it.
abbrev acts : List Act
acts = posts 7 none ∷ enters 0 ∷ tests 0 ∷ []

abbrev seen : Workers
seen = test (enter (post_task new_workers 7 none) 0) 0

run_seen : Runs 1 new_workers acts [] seen
unfolding Runs step started enter test post_task
run_seen = (
  post_task new_workers 7 none,
  [],
  (refl, inl refl, λ i k e. absurd cc),
  refl,
  refl,
  (
    enter (post_task new_workers 7 none) 0,
    [],
    (omega arith, refl, refl),
    refl,
    refl,
    (seen, [], (omega arith, refl), refl, refl, (refl, refl)),
  ),
)

Runs-in_order_example : [] ++ all_posted acts ≡ [] ++ seen.tasks
Runs-in_order_example = Runs-in_order 1 new_workers seen acts [] run_seen

Can-leave : Can 1 seen (leaves 0)
unfolding enter test post_task
Can-leave = (omega arith, refl)

seen_before : seen.phase ≡ open_
unfolding enter test post_task
seen_before = refl

Runs-total_example : IsSafe seen × (m : Workers) × (step seen (leaves 0) ≡ ok m)
Runs-total_example =
    Runs-total 1 seen acts [] (leaves 0) run_seen Can-leave seen_before (λ e. absurd cc)

seen_open : seen.stop ≡ false
unfolding enter test post_task
seen_open = refl

seen_filled : seen.tasks ≢ []
unfolding enter test post_task
seen_filled e = absurd cc

Runs-watched_example : (i : ℕ) × (i < 1) × (awake (seen.at i) ≡ true)
Runs-watched_example = Runs-watched 1 seen acts [] (omega arith) run_seen seen_open seen_filled

-- A worker that has found the queue empty.
abbrev idle : Workers
idle = record new_workers { lock = some 0; at = λ i. empty }

-- What comes after it: nothing more.
late-Runs : Runs 1 (stopped_late idle 0) [] [] (stopped_late idle 0)
unfolding Runs
late-Runs = (refl, refl)

lost_wake_up_example :
    Runs 1 idle (stops ∷ notifies ∷ waits 0 ∷ []) [] (stopped_late idle 0)
    × ((stopped_late idle 0).phase ≡ joining)
    × ((stopped_late idle 0).at 0 ≡ waiting)
lost_wake_up_example =
    lost_wake_up 1 idle (stopped_late idle 0) 0 [] [] (omega arith) refl refl late-Runs tt
